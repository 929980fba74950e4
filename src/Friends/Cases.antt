-- ===== src/Friends/Cases.antt =====
-- What each operation does to the table of friends, by how it ends.
use ludora_back.Prelude.{
  ℕ, ◌≡◌, ◌≢◌, ◌⊎◌, inl, inr, Bool, true, false, none, some, List, arith, count, ◌==◌, Option-cases,
  Bool-cases, ◌<◌,
}
use ludora_back.World.{Client, Friend, InvitationStatus, World, Refuses, is_ok, Result}
use ludora_back.Friends.{
  create, update, remove, set_status, delete_friend, include_users,
  emit_friend_request_update_event, create_friend, is_live, is_key, is_pending, is_accepted,
  check_update_authorization,
}

abbrev pub new_request : ℕ → ℕ → ℕ → Friend
new_request s r now = record {
  user_uid1 = s;
  user_uid2 = r;
  status = InvitationStatus.pending;
  created_at = now;
  updated_at = now;
}

abbrev pub with_status : InvitationStatus → ℕ → Friend → Friend
with_status status now f = record f { status = status; updated_at = now }

-- Who may set which status.
abbrev pub IsAllowed : ℕ → InvitationStatus → Friend → Type 0
IsAllowed c status f =
    ((f.user_uid1 ≡ c) × (status ≡ InvitationStatus.canceled))
    ⊎ ((f.user_uid2 ≡ c) × (status ≡ InvitationStatus.accepted))
    ⊎ ((f.user_uid2 ≡ c) × (status ≡ InvitationStatus.rejected))

module _ ⦃client : Client⦄ where
  pub create_cases :
      (s r now : ℕ) (w : World)
      → Refuses w (create s r now w)
        ⊎ ((is_ok (create s r now w).0 ≡ true)
            × ((create s r now w).1.friends ≡ client.insert (new_request s r now) w.friends)
            × (count (is_live s r) w.friends ≡ 0)
            × (count (is_key s r) w.friends ≡ 0)
            × (s ≢ r))
  unfolding create create_friend include_users
  create_cases s r now w = ground (arith, client.find_first-none (is_live s r) w.friends)

  abbrev pub marked : Friend → InvitationStatus → ℕ → List Friend → List Friend
  marked e status now t =
      client.update_many (is_key e.user_uid1 e.user_uid2) (with_status status now) t

  abbrev pub dropped : Friend → List Friend → List Friend
  dropped e t = client.delete_many (is_key e.user_uid1 e.user_uid2) t

  -- How a call that found the request `e` ends: the new status is written, and the row of a
  -- withdrawn request deleted.
  abbrev pub Answers :
      Friend → ℕ → InvitationStatus → ℕ → World → Result (Unit {0}) × World → Type 0
  Answers e c status now w (r, w') =
      IsAllowed c status e
      × (((w'.friends ≡ marked e status now w.friends)
            × ((status ≢ InvitationStatus.canceled) ⊎ (is_ok r ≡ false)))
          ⊎ ((w'.friends ≡ dropped e (marked e status now w.friends))
              × (status ≡ InvitationStatus.canceled)))

  set_status_cases :
      (a b : ℕ) (status : InvitationStatus) (now : ℕ) (w : World)
      → 0 < count (is_key a b) w.friends
      → let (r, w') = set_status a b status now w in
        w'.friends ≡ client.update_many (is_key a b) (with_status status now) w.friends
  unfolding set_status include_users
  set_status_cases a b status now w h = ground arith

  module _ (c r : ℕ) (status : InvitationStatus) (now : ℕ) (w : World) where
    abbrev is_permitted : Friend → Bool
    is_permitted e =
        is_ok (check_update_authorization (e.user_uid1 == c) (e.user_uid2 == c) status w).0

    -- A request from a user to the same user fails the check, so the three cases are apart.
    is_permitted-IsAllowed : (e : Friend) → is_permitted e ≡ true → IsAllowed c status e
    unfolding check_update_authorization
    is_permitted-IsAllowed e h = ground arith

    update-Answers :
        (e : Friend)
        → client.find_first (is_pending c r) w.friends ≡ some e
        → is_permitted e ≡ true
        → Answers e c status now w (update c r status now w) ⊎ Refuses w (update c r status now w)
    unfolding update emit_friend_request_update_event check_update_authorization delete_friend
    update-Answers e found h = ground (
      arith,
      is_permitted-IsAllowed e h,
      set_status_cases e.user_uid1 e.user_uid2 status now w,
      client.find_first-mem (is_pending c r) w.friends e (is_key e.user_uid1 e.user_uid2),
    )

    update_denied :
        (e : Friend)
        → client.find_first (is_pending c r) w.friends ≡ some e
        → is_permitted e ≡ false
        → Refuses w (update c r status now w)
    unfolding update check_update_authorization
    update_denied e found h = ground arith

    update_missing :
        client.find_first (is_pending c r) w.friends ≡ none → Refuses w (update c r status now w)
    unfolding update
    update_missing missing = ground arith

    pub update_cases :
        Refuses w (update c r status now w)
        ⊎ ((e : Friend) × (client.find_first (is_pending c r) w.friends ≡ some e)
            × Answers e c status now w (update c r status now w))
    update_cases = elim (Option-cases (client.find_first (is_pending c r) w.friends)) [
      | inl missing ↦ inl (update_missing missing)
      | inr (e, found) ↦ elim (Bool-cases (is_permitted e)) [
        | inl yea ↦ elim (update-Answers e found yea) [
          | inl done ↦ inr (e, found, done)
          | inr refused ↦ inl refused
        ]
        | inr nay ↦ inl (update_denied e found nay)
      ]
    ]

  pub remove_cases :
      (c r : ℕ) (w : World)
      → ((client.find_first (is_accepted c r) w.friends ≡ none) × Refuses w (remove c r w))
        ⊎ ((e : Friend) × (client.find_first (is_accepted c r) w.friends ≡ some e)
            × (is_ok (remove c r w).0 ≡ true)
            × ((remove c r w).1.friends ≡ dropped e w.friends))
  unfolding remove delete_friend
  remove_cases c r w = elim (Option-cases (client.find_first (is_accepted c r) w.friends)) [
    | inl missing ↦ inl (missing, ground arith)
    | inr (e, found) ↦ inr (
      e,
      found,
      ground (
        arith,
        client.find_first-mem (is_accepted c r) w.friends e (is_key e.user_uid1 e.user_uid2),
      ),
      ground (
        arith,
        client.find_first-mem (is_accepted c r) w.friends e (is_key e.user_uid1 e.user_uid2),
      ),
    )
  ]
