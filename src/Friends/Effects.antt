-- ===== src/Friends/Effects.antt =====
-- What a caller of friends.service.ts gets: when each call succeeds, and what the table then says.
use ludora_back.Prelude.{
  ℕ, ◌≡◌, ◌≢◌, inl, inr, ◌<◌, Bool, true, not, ◌&&◌, ◌||◌, some, none, arith, count, count-le,
}
use ludora_back.World.{
  Client, Friend, InvitationStatus, ◌is_status◌, World, is_ok, err, unique_violation, ok,
  find_first-eq_none,
}
use ludora_back.Users.{find_user}
use ludora_back.Friends.{
  create, create_friend, include_users, update, is_live, is_key, is_between, is_pending,
  check_update_authorization,
}
use ludora_back.Friends.Cases.{new_request, update_cases, IsAllowed}

abbrev pub Knows : ⦃client : Client⦄ → ℕ → World → Type 0
Knows uid w = find_user uid w ≢ none

-- Between a connected user and a request's two ends, the check passes exactly for a sender who
-- withdraws and a receiver who accepts or refuses, and it writes nothing.
pub check_update_authorization_iff :
    (is_sender is_receiver : Bool) (status : InvitationStatus) (w : World)
    → let (r, w') = check_update_authorization is_sender is_receiver status w in
      (w' ≡ w)
      × (is_ok r ≡ (
          (is_sender && not is_receiver && status is_status InvitationStatus.canceled)
          || (is_receiver
              && not is_sender
              && (status is_status InvitationStatus.accepted
                  || status is_status InvitationStatus.rejected))))
unfolding check_update_authorization
check_update_authorization_iff is_sender is_receiver status w = ground arith

module _ ⦃client : Client⦄ where
  create_done :
      (s r now : ℕ) (w : World)
      → s ≢ r
      → Knows s w
      → Knows r w
      → count (is_live s r) w.friends ≡ 0
      → count (is_key s r) w.friends ≡ 0
      → ((create s r now w).0 ≡ ok tt)
        × ((create s r now w).1.friends ≡ client.insert (new_request s r now) w.friends)
  unfolding create create_friend include_users
  create_done s r now w ne ks kr live key =
      ground (arith, find_first-eq_none (is_live s r) w.friends)

  -- A request between two different known users with no pending request or friendship and no
  -- row from the sender to the receiver succeeds: the table then has exactly one live row between
  -- the two, and it is a pending request from the sender to the receiver.
  pub create_succeeds :
      (s r now : ℕ) (w : World)
      → s ≢ r
      → Knows s w
      → Knows r w
      → count (is_live s r) w.friends ≡ 0
      → count (is_key s r) w.friends ≡ 0
      → let (res, w') = create s r now w in
        (res ≡ ok tt)
        × (count (is_live s r) w'.friends ≡ 1)
        × (count (λ f. is_key s r f && f.status is_status InvitationStatus.pending) w'.friends ≡ 1)
  create_succeeds s r now w ne ks kr live key =
      let (res, table) = create_done s r now w ne ks kr live key in
      let asks = λ (f : Friend). is_key s r f && f.status is_status InvitationStatus.pending in
      (
        res,
        rw table
            (ground (arith, client.count-insert (new_request s r now) (is_live s r) w.friends)),
        rw table (
            ground (
              arith,
              client.count-insert (new_request s r now) asks w.friends,
              count-le asks (is_key s r) w.friends (λ f h. ground arith),
            )),
      )

  -- Once the receiver has refused a request, its row stays under the primary key: every later
  -- request of the same sender to the same receiver fails with the database's unique violation
  -- and changes nothing, though the service's own test for existing requests lets it through.
  pub create_after_refusal :
      (s r now : ℕ) (w : World)
      → s ≢ r
      → Knows s w
      → Knows r w
      → count (is_live s r) w.friends ≡ 0
      → 0 < count (λ f. is_key s r f && f.status is_status InvitationStatus.rejected) w.friends
      → create s r now w ≡ (err unique_violation, w)
  unfolding create create_friend
  create_after_refusal s r now w ne ks kr live refused = ground (
    arith,
    find_first-eq_none (is_live s r) w.friends,
    count-le (λ f. is_key s r f && f.status is_status InvitationStatus.rejected) (is_key s r)
        w.friends (λ f h. ground arith),
  )

  -- A call that succeeds was made by the receiver to accept or refuse, or by the sender to withdraw.
  pub update_authorized :
      (c r : ℕ) (status : InvitationStatus) (now : ℕ) (w : World)
      → (update c r status now w).0 ≡ ok tt
      → (e : Friend) × (client.find_first (is_pending c r) w.friends ≡ some e)
        × (is_between c r e ≡ true)
        × (e.status ≡ InvitationStatus.pending)
        × IsAllowed c status e
  update_authorized c r status now w h = elim (update_cases c r status now w) [
    | inl (failed, same) ↦ ground arith
    | inr (e, found, (allowed, _)) ↦ (
      e,
      found,
      ground (arith, client.find_first-some (is_pending c r) w.friends e),
      ground (arith, client.find_first-some (is_pending c r) w.friends e),
      allowed,
    )
  ]
