-- ===== src/Friends/Answers.antt =====
-- What is left between two users once a request is answered, or a friendship ended.
use ludora_back.Prelude.{
  ℕ, ◌≡◌, ap, ◌∙◌, inl, inr, ◌<◌, Bool, true, not, ◌&&◌, some, List, arith, count, count-ext,
  count-split, count-none,
}
use ludora_back.World.{
  Client, Friend, InvitationStatus, World, is_ok, has, ok, count-delete_many-le,
}
use ludora_back.Friends.{update, remove, is_live, is_key, is_pending, is_accepted}
use ludora_back.Friends.Cases.{with_status, marked, dropped, update_cases, remove_cases}
use ludora_back.Friends.Valid.{IsValid, is_key_between}

-- How many live rows an answer leaves.
abbrev pub live_after : InvitationStatus → ℕ
live_after InvitationStatus.pending = 1
live_after InvitationStatus.accepted = 1
live_after InvitationStatus.rejected = 0
live_after InvitationStatus.canceled = 0

module _ ⦃client : Client⦄ where
  module _ (c r : ℕ) (e : Friend) (t : List Friend) (v : IsValid t)
      (here : (q : Friend → Bool) → q e ≡ true → 0 < count q t) (live : is_live c r e ≡ true) where
    abbrev of_e : Friend → Bool
    of_e = is_key e.user_uid1 e.user_uid2

    -- The row of `e` is the only live one between the two users, and the only one with its key.
    others_none : count (λ f. not (of_e f) && is_live c r f) t ≡ 0
    others_none = omega (
      arith,
      v.live_once c r,
      count-split of_e (is_live c r) t,
      here (λ f. of_e f && is_live c r f) (ground arith),
    )

    one_row : count of_e t ≡ 1
    one_row = omega (arith, v.keyed e.user_uid1 e.user_uid2, here of_e (ground arith))

    dropped_live : count (is_live c r) (dropped e t) ≡ 0
    dropped_live = omega (arith, client.count-delete_many of_e (is_live c r) t, others_none)

    marked_of_e :
        (status : InvitationStatus) (now : ℕ)
        → count (λ f. of_e f && is_live c r (with_status status now f)) t ≡ live_after status
    marked_of_e InvitationStatus.pending now =
        count-ext _ of_e t (λ f. ground (arith, is_key_between c r e f)) ∙ one_row
    marked_of_e InvitationStatus.accepted now =
        count-ext _ of_e t (λ f. ground (arith, is_key_between c r e f)) ∙ one_row
    marked_of_e InvitationStatus.rejected now = count-none _ t λ f. ground arith
    marked_of_e InvitationStatus.canceled now = count-none _ t λ f. ground arith

    marked_live :
        (status : InvitationStatus) (now : ℕ)
        → count (is_live c r) (marked e status now t) ≡ live_after status
    marked_live status now = omega (
      arith,
      client.count-update_many of_e (with_status status now) (is_live c r) t,
      marked_of_e status now,
      others_none,
    )

  -- After an accepted request exactly one live row is left between the two users; after a refused
  -- or withdrawn one there is none.
  pub update_outcome :
      (c r : ℕ) (status : InvitationStatus) (now : ℕ) (w : World)
      → IsValid w.friends
      → (update c r status now w).0 ≡ ok tt
      → count (is_live c r) (update c r status now w).1.friends ≡ live_after status
  update_outcome c r status now w v h = elim (update_cases c r status now w) [
    | inl (failed, same) ↦ ground arith
    | inr (e, found, (allowed, inl (table, _))) ↦ rw table (after e found)
    | inr (e, found, (allowed, inr (table, gone))) ↦ rw table (
        omega (
          arith,
          count-delete_many-le (is_key e.user_uid1 e.user_uid2) (is_live c r)
              (marked e status now w.friends),
          after e found,
          ap live_after gone,
        ))
  ]
    where
      after :
          (e : Friend)
          → client.find_first (is_pending c r) w.friends ≡ some e
          → count (is_live c r) (marked e status now w.friends) ≡ live_after status
      after e found =
          marked_live c r e w.friends v
            (λ q k. client.find_first-mem (is_pending c r) w.friends e q found k)
            (ground (arith, client.find_first-some (is_pending c r) w.friends e)) status now

  -- Ending a friendship succeeds exactly if there is one, and leaves nothing live between the two.
  pub remove_outcome :
      (c r : ℕ) (w : World)
      → IsValid w.friends
      → let (res, w') = remove c r w in
        (is_ok res ≡ has (is_accepted c r) w.friends)
        × (is_ok res ≡ true → count (is_live c r) w'.friends ≡ 0)
  remove_outcome c r w v = elim (remove_cases c r w) [
    | inl (missing, (failed, same)) ↦
        (ground (arith, client.find_first-none (is_accepted c r) w.friends), λ h. cc)
    | inr (e, found, done, table) ↦ (
      ground (
        arith,
        client.find_first-mem (is_accepted c r) w.friends e (is_accepted c r) found,
        client.find_first-some (is_accepted c r) w.friends e found,
      ),
      λ _. rw table (
          dropped_live c r e w.friends v
            (λ q k. client.find_first-mem (is_accepted c r) w.friends e q found k)
            (ground (arith, client.find_first-some (is_accepted c r) w.friends e))),
    )
  ]
