-- ===== src/SessionInvitations/Outcome.antt =====
-- Sending invitations: who is invited, and who is not.
use ludora_back.Prelude.{
  ℕ, ◌≡◌, ◌<◌, ◌⊎◌, inl, inr, Bool, true, false, ◌&&◌, ◌==◌, none, List, [], ◌∷◌, arith, count,
  count-le, count-split, count-ext, ltb, elem, length, Option-cases, Bool-cases, ==_iff, ap, ◌∙◌,
  sym,
}
use ludora_back.World.{
  Client, World, User, Session, SessionInvitation, InvitationStatus, ◌is_status◌, is_ok, >>=-keeps,
  >>=-runs, >>=-ok, transaction, transaction-ok, when,
}
use ludora_back.Sessions
use ludora_back.Users
use ludora_back.Users.{find_user}
use ludora_back.SessionInvitations.Checks.{
  may_invite, check_valid_uid_before_sending_invitations_outcome,
}
use ludora_back.SessionInvitations.{
  is_key, upsert, upsert_each, emit_each, send_all, invite_to, invite_from,
  check_valid_uid_before_sending_invitations, create_many, new_invitation,
}
use ludora_back.SessionInvitations.Sending.{
  reopened, upsert_cases, find_one_same, may_invite_same, emit_each_same, is_for,
  invite_from-Spares,
}

elem-length : (x : ℕ) (xs : List ℕ) → elem x xs ≡ true → ltb 0 (length xs) ≡ true
elem-length x [] h = cc
elem-length x (y ∷ ys) h = ground arith

module _ ⦃client : Client⦄ where
  module _ (s a x : ℕ) where
    -- An open invitation of the sender `a`, for `x`.
    abbrev pub is_open : SessionInvitation → Bool
    is_open i = is_key s a x i && i.status is_status InvitationStatus.pending

    abbrev Invited : World → Type 0
    Invited w = 0 < count is_open w.session_invitations

    upsert-keeps : (b : ℕ) (w : World) → Invited w → Invited (upsert s a b w).1
    upsert-keeps b w h = elim (upsert_cases s a b w) [
      | inl (failed, same) ↦ rw same h
      | inr (inl (free, table)) ↦ rw table (
          omega
            (arith, h, client.count-insert (new_invitation s a b) is_open w.session_invitations))
      | inr (inr (old, table)) ↦
          let mine = is_key s a b in
          rw table (
            omega (
              arith,
              h,
              client.count-update_many mine reopened is_open w.session_invitations,
              count-split mine is_open w.session_invitations,
              count-le (λ i. mine i && is_open i) (λ i. mine i && is_open (reopened i))
                  w.session_invitations (λ i k. ground arith),
            ))
    ]

    upsert-invites : (w : World) → is_ok (upsert s a x w).0 ≡ true → Invited (upsert s a x w).1
    upsert-invites w done = elim (upsert_cases s a x w) [
      | inl (failed, same) ↦ absurd (ground (arith, failed, done))
      | inr (inl (free, table)) ↦ rw table (
          ground (
            arith,
            client.count-insert (new_invitation s a x) is_open w.session_invitations,
            ==_iff s s,
            ==_iff a a,
            ==_iff x x,
          ))
      | inr (inr (old, table)) ↦
          let mine = is_key s a x in
          rw table (
            omega (
              arith,
              old,
              client.count-update_many mine reopened is_open w.session_invitations,
              count-ext (λ i. mine i && is_open (reopened i)) mine w.session_invitations
                  (λ i. ground arith),
            ))
    ]

    upsert_each-keeps : (bs : List ℕ) (w : World) → Invited w → Invited (upsert_each s a bs w).1
    unfolding upsert_each
    upsert_each-keeps [] w h = h
    upsert_each-keeps (b ∷ bs) w h =
        >>=-keeps Invited (upsert s a b) (λ _. upsert_each s a bs) w (upsert-keeps b w h)
          (λ _ v. upsert_each-keeps bs v)

    upsert_each-invites :
        (bs : List ℕ) (w : World)
        → elem x bs ≡ true
        → is_ok (upsert_each s a bs w).0 ≡ true
        → Invited (upsert_each s a bs w).1
    unfolding upsert_each
    upsert_each-invites [] w h done = absurd cc
    upsert_each-invites (b ∷ bs) w h done =
        let (_, first, next) = >>=-runs (upsert s a b) (λ _. upsert_each s a bs) w done in
        let w1 = (upsert s a b w).1 in
        rw next (elim (Bool-cases (x == b)) [
          | inl same ↦
              let e = (==_iff x b).0 same in
              upsert_each-keeps bs w1
                (rw (← e) (upsert-invites w (ap (λ c. is_ok (upsert s a c w).0) e ∙ first)))
          | inr other ↦
              upsert_each-invites bs w1 (ground (arith, h, other))
                (ap (λ o. is_ok o.0) (sym next) ∙ done)
        ])

    send_all-invites :
        (sender : User) (session : Session) (bs : List ℕ) (w : World)
        → elem x bs ≡ true
        → is_ok (send_all sender session s a bs w).0 ≡ true
        → Invited (send_all sender session s a bs w).1
    unfolding send_all
    send_all-invites sender session bs w h done =
        let tx = transaction (upsert_each s a bs) in
        let (_, first, next) = >>=-runs tx (λ _. emit_each sender session a bs) w done in
        let (written, same) = transaction-ok (upsert_each s a bs) w first in
        rw next (
          rw (emit_each_same sender session a bs (tx w).1)
            (rw same (upsert_each-invites bs w h written)))

    invite_to-invites :
        (sender : User) (session : Session) (receivers : List ℕ) (w : World)
        → elem x receivers ≡ true
        → may_invite a s w x ≡ true
        → is_ok (invite_to sender session a s receivers w).0 ≡ true
        → Invited (invite_to sender session a s receivers w).1
    unfolding invite_to
    invite_to-invites sender session receivers w h may done =
        let (valid, e, members, _) =
          check_valid_uid_before_sending_invitations_outcome a s w receivers in
        let listed : elem x valid ≡ true = ground (arith, members x, h, may) in
        let checked =
          >>=-ok (check_valid_uid_before_sending_invitations a s receivers)
            (λ (uids : List ℕ). when (ltb 0 (length uids)) (send_all sender session s a uids)) valid
            w w e in
        let long = elem-length x valid listed in
        let run : invite_to sender session a s receivers w ≡ send_all sender session s a valid w =
          checked ∙ ap (λ c. when c (send_all sender session s a valid) w) long in
        rw run
          (send_all-invites sender session valid w listed (ap (λ o. is_ok o.0) (sym run) ∙ done))

    invite_from-invites :
        (sender : User) (receivers : List ℕ) (w : World)
        → elem x receivers ≡ true
        → may_invite a s w x ≡ true
        → is_ok (invite_from sender a s receivers w).0 ≡ true
        → Invited (invite_from sender a s receivers w).1
    unfolding invite_from
    invite_from-invites sender receivers w h may done =
        let found = (Sessions.find_one s none w).1 in
        let (view, _, next) =
          >>=-runs (Sessions.find_one s none)
            (λ (view : Sessions.SessionView). invite_to sender view.session a s receivers) w done in
        rw next (
          invite_to-invites sender view.session receivers found h
            (may_invite_same a s x w found (find_one_same s w) ∙ may)
            (ap (λ o. is_ok o.0) (sym next) ∙ done))

  -- After a call that returned, each receiver that it named either may be invited, and then has an
  -- open invitation of the sender to the session, or may not, and then has the same invitations as
  -- before: the sender itself, an unknown user, one who has a block with the sender or a place in
  -- the session, or one with an open or accepted invitation of this sender.
  pub create_many_outcome :
      (a s : ℕ) (receivers : List ℕ) (x : ℕ) (q : SessionInvitation → Bool) (w : World)
      → is_ok (create_many a s receivers w).0 ≡ true
      → elem x receivers ≡ true
      → let w' = (create_many a s receivers w).1 in
        (may_invite a s w x ≡ true) × (0 < count (is_open s a x) w'.session_invitations)
        ⊎ (may_invite a s w x ≡ false)
          × (count (is_for x q) w'.session_invitations ≡ count (is_for x q) w.session_invitations)
  unfolding create_many Users.find_one
  create_many_outcome a s receivers x q w done named = elim (Option-cases (find_user a w)) [
    | inl missing ↦ absurd (ground (arith, missing, done))
    | inr (sender, e) ↦ elim (Bool-cases (may_invite a s w x)) [
      | inl may ↦ inl (
        may,
        rw e (invite_from-invites s a x sender receivers w named may (ground (arith, e, done))),
      )
      | inr may_not ↦ inr (may_not, rw e (invite_from-Spares x q sender a s receivers w may_not))
    ]
  ]
