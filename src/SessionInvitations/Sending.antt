-- ===== src/SessionInvitations/Sending.antt =====
-- Sending invitations: whose invitations are left alone.
use ludora_back.Prelude.{
  ℕ, ◌≡◌, ◌<◌, ◌⊎◌, inl, inr, Bool, true, false, not, ◌&&◌, ◌==◌, none, List, [], ◌∷◌, arith, count,
  count-none, count-ext, ltb, elem, length, Bool-cases, refl, ==_iff, ap, ◌∙◌,
}
use ludora_back.World.{
  Client, World, User, Session, SessionInvitation, InvitationStatus, Refuses, ok, >>=-keeps,
  >>=-ends, >>=-ok, transaction, rolled_back, Result, err, when, Action,
}
use ludora_back.Sessions
use ludora_back.SessionInvitations.Checks.{
  may_invite, check_valid_uid_before_sending_invitations_outcome,
}
use ludora_back.SessionInvitations.{
  is_key, upsert, upsert_each, emit_each, send_all, invite_to, invite_from,
  check_valid_uid_before_sending_invitations, new_invitation,
}

abbrev pub reopened : SessionInvitation → SessionInvitation
reopened i = record i { status = InvitationStatus.pending }

module _ ⦃client : Client⦄ where
  pub upsert_cases :
      (s a b : ℕ) (w : World)
      → Refuses w (upsert s a b w)
        ⊎ ((count (is_key s a b) w.session_invitations ≡ 0)
            × ((upsert s a b w).1.session_invitations
                ≡ client.insert (new_invitation s a b) w.session_invitations))
        ⊎ ((0 < count (is_key s a b) w.session_invitations)
            × ((upsert s a b w).1.session_invitations
                ≡ client.update_many (is_key s a b) reopened w.session_invitations))
  unfolding upsert
  upsert_cases s a b w = ground arith

  pub find_one_same :
      (s : ℕ) (w : World)
      → let w' = (Sessions.find_one s none w).1 in
        (w'.session_invitations ≡ w.session_invitations)
        × (w'.users ≡ w.users)
        × (w'.user_blocks ≡ w.user_blocks)
        × (w'.session_players ≡ w.session_players)
  unfolding Sessions.find_one
  find_one_same s w = ground arith

  -- The check looks at four tables.
  pub may_invite_same :
      (a s x : ℕ) (w w' : World)
      → (w'.session_invitations ≡ w.session_invitations)
        × (w'.users ≡ w.users)
        × (w'.user_blocks ≡ w.user_blocks)
        × (w'.session_players ≡ w.session_players)
      → may_invite a s w' x ≡ may_invite a s w x
  may_invite_same a s x w w' (invitations, users, blocks, players) =
      rw invitations (rw users (rw blocks (rw players refl)))

  pub emit_each_same :
      (sender : User) (session : Session) (a : ℕ) (bs : List ℕ) (w : World)
      → (emit_each sender session a bs w).1.session_invitations ≡ w.session_invitations
  unfolding emit_each
  emit_each_same sender session a [] w = refl
  emit_each_same sender session a (b ∷ bs) w = elim (Bool-cases (a == b)) [
    | inl self ↦ rw self (emit_each_same sender session a bs w)
    | inr other ↦ rw other (emit_each_same sender session a bs _)
  ]

  -- The invitations of the receiver `x` that meet the test `q`.
  module _ (x : ℕ) (q : SessionInvitation → Bool) where
    abbrev pub is_for : SessionInvitation → Bool
    is_for i = i.receiver_uid == x && q i

    abbrev Spares : World → World → Type 0
    Spares w v = count is_for v.session_invitations ≡ count is_for w.session_invitations

    upsert-Spares : (s a b : ℕ) (w : World) → (x == b) ≡ false → Spares w (upsert s a b w).1
    upsert-Spares s a b w other = elim (upsert_cases s a b w) [
      | inl (failed, same) ↦ rw same refl
      | inr (inl (free, table)) ↦ rw table (
          ground (
            arith,
            other,
            client.count-insert (new_invitation s a b) is_for w.session_invitations,
            ==_iff b x,
            ==_iff x b,
          ))
      | inr (inr (old, table)) ↦
          let mine = is_key s a b in
          rw table (
            omega (
              arith,
              client.count-update_many mine reopened is_for w.session_invitations,
              count-none (λ i. mine i && is_for (reopened i)) w.session_invitations
                  (λ i.
                    ground
                      (arith, other, ==_iff i.receiver_uid b, ==_iff i.receiver_uid x, ==_iff x b)),
              count-ext (λ i. not (mine i) && is_for i) is_for w.session_invitations
                  (λ i.
                    ground
                      (arith, other, ==_iff i.receiver_uid b, ==_iff i.receiver_uid x, ==_iff x b)),
            ))
    ]

    upsert_each-Spares :
        (s a : ℕ) (bs : List ℕ) (w : World) → elem x bs ≡ false → Spares w (upsert_each s a bs w).1
    unfolding upsert_each
    upsert_each-Spares s a [] w h = refl
    upsert_each-Spares s a (b ∷ bs) w h =
        let here = upsert-Spares s a b w (ground arith) in
        >>=-ends (Spares w) (upsert s a b) (λ _. upsert_each s a bs) w here
          (λ _. upsert_each-Spares s a bs (upsert s a b w).1 (ground arith) ∙ here)

    rolled_back-Spares :
        (w : World) (r : Result (Unit {0})) (w' : World)
        → Spares w w'
        → Spares w (rolled_back w (r, w')).1
    rolled_back-Spares w (ok a) w' v = v
    rolled_back-Spares w (err e) w' v = refl

    send_all-Spares :
        (sender : User) (session : Session) (s a : ℕ) (bs : List ℕ) (w : World)
        → elem x bs ≡ false
        → Spares w (send_all sender session s a bs w).1
    unfolding send_all
    send_all-Spares sender session s a bs w h =
        >>=-keeps (Spares w) (transaction (upsert_each s a bs)) (λ _. emit_each sender session a bs)
          w
          (rolled_back-Spares w (upsert_each s a bs w).0 (upsert_each s a bs w).1
            (upsert_each-Spares s a bs w h))
          λ _ v k. rw (emit_each_same sender session a bs v) k

    when-Spares :
        (c : Bool) (m : Action (Unit {0})) (w : World) → Spares w (m w).1 → Spares w (when c m w).1
    when-Spares true m w k = k
    when-Spares false m w k = refl

    invite_to-Spares :
        (sender : User) (session : Session) (a s : ℕ) (receivers : List ℕ) (w : World)
        → may_invite a s w x ≡ false
        → Spares w (invite_to sender session a s receivers w).1
    unfolding invite_to
    invite_to-Spares sender session a s receivers w h =
        let (valid, e, members, _) =
          check_valid_uid_before_sending_invitations_outcome a s w receivers in
        rw
          (>>=-ok (check_valid_uid_before_sending_invitations a s receivers)
            (λ (uids : List ℕ). when (ltb 0 (length uids)) (send_all sender session s a uids)) valid
            w w e)
          (when-Spares (ltb 0 (length valid)) (send_all sender session s a valid) w
            (send_all-Spares sender session s a valid w (ground (arith, members x, h))))

    pub invite_from-Spares :
        (sender : User) (a s : ℕ) (receivers : List ℕ) (w : World)
        → may_invite a s w x ≡ false
        → Spares w (invite_from sender a s receivers w).1
    unfolding invite_from
    invite_from-Spares sender a s receivers w h =
        let found = (Sessions.find_one s none w).1 in
        let same = find_one_same s w in
        let here : Spares w found = ap (count is_for) same.0 in
        >>=-ends (Spares w) (Sessions.find_one s none)
          (λ (view : Sessions.SessionView). invite_to sender view.session a s receivers) w here
          λ view.
            invite_to-Spares sender view.session a s receivers found
              (may_invite_same a s x w found same ∙ h)
            ∙ here
