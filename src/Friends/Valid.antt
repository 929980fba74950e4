-- ===== src/Friends/Valid.antt =====
-- The invariant of the table of friends, and its preservation by each operation.
use ludora_back.Prelude.{
  ℕ, ◌≡◌, inl, inr, ◌≤◌, ◌<◌, Bool, true, false, ◌&&◌, ◌==◌, some, List, arith, count, count-le,
  count-split, count-none,
}
use ludora_back.World.{Client, Friend, InvitationStatus, World}
use ludora_back.Friends.{create, update, remove, is_live, is_key, is_between, is_pending}
use ludora_back.Friends.Cases.{
  new_request, with_status, marked, dropped, create_cases, update_cases, remove_cases,
}

abbrev pub is_self : Friend → Bool
is_self f = f.user_uid1 == f.user_uid2

-- Two users share at most one pending request or friendship, whoever sent it; the primary key
-- holds; nobody is their own friend.
pub record IsValid (t : List Friend) : Type 0 where
  pub live_once : (a b : ℕ) → count (is_live a b) t ≤ 1
  pub keyed : (a b : ℕ) → count (is_key a b) t ≤ 1
  pub no_self : count is_self t ≡ 0

-- The rows between the two users of `e`.
is_live_same :
    (a b : ℕ) (e : Friend)
    → is_between a b e ≡ true
    → (f : Friend) → is_live a b f ≡ true
    → is_live e.user_uid1 e.user_uid2 f ≡ true
is_live_same a b e h f k = ground arith

pub is_key_between :
    (a b : ℕ) (e f : Friend)
    → is_key e.user_uid1 e.user_uid2 f ≡ true
    → is_between a b f ≡ is_between a b e
is_key_between a b e f h = ground arith

module _ ⦃client : Client⦄ where
  insert-IsValid :
      (s r now : ℕ) (t : List Friend)
      → IsValid t
      → count (is_live s r) t ≡ 0
      → count (is_key s r) t ≡ 0
      → (s == r) ≡ false
      → IsValid (client.insert (new_request s r now) t)
  insert-IsValid s r now t v live key ne = record {
    live_once = λ a b. ground (
      arith,
      client.count-insert (new_request s r now) (is_live a b) t,
      v.live_once a b,
      λ (h : is_between a b (new_request s r now) ≡ true).
          count-le (is_live a b) (is_live s r) t (is_live_same a b (new_request s r now) h),
    );
    keyed = λ a b. ground (
      arith,
      client.count-insert (new_request s r now) (is_key a b) t,
      v.keyed a b,
      λ (h : is_key a b (new_request s r now) ≡ true).
          count-le (is_key a b) (is_key s r) t (λ f k. ground arith),
    );
    no_self = ground (arith, client.count-insert (new_request s r now) is_self t, v.no_self);
  }

  pub dropped-IsValid : (e : Friend) (t : List Friend) → IsValid t → IsValid (dropped e t)
  dropped-IsValid e t v =
      let p = is_key e.user_uid1 e.user_uid2 in
      record {
        live_once = λ a b. omega (
          arith,
          client.count-delete_many p (is_live a b) t,
          count-split p (is_live a b) t,
          v.live_once a b,
        );
        keyed = λ a b. omega (
          arith,
          client.count-delete_many p (is_key a b) t,
          count-split p (is_key a b) t,
          v.keyed a b,
        );
        no_self =
            omega (arith, client.count-delete_many p is_self t, count-split p is_self t, v.no_self);
      }

  module _ (e : Friend) (status : InvitationStatus) (now : ℕ) (t : List Friend) (v : IsValid t)
      (here : (q : Friend → Bool) → q e ≡ true → 0 < count q t)
      (asked : e.status ≡ InvitationStatus.pending) where
    abbrev of_e : Friend → Bool
    of_e = is_key e.user_uid1 e.user_uid2

    -- The changed row lies between two users only if the row that was found does.
    marked_apart :
        (a b : ℕ)
        → is_between a b e ≡ false
        → count (λ f. of_e f && is_live a b (with_status status now f)) t ≡ 0
    marked_apart a b h = count-none _ t λ f. ground (arith, is_key_between a b e f)

    marked_live : (a b : ℕ) → count (is_live a b) (marked e status now t) ≤ 1
    marked_live a b = ground (
      arith,
      client.count-update_many of_e (with_status status now) (is_live a b) t,
      count-split of_e (is_live a b) t,
      v.live_once a b,
      v.keyed e.user_uid1 e.user_uid2,
      marked_apart a b,
      here (λ f. of_e f && is_live a b f),
      count-le (λ f. of_e f && is_live a b (with_status status now f)) of_e t λ f k. ground arith,
    )

    pub marked-IsValid : IsValid (marked e status now t)
    marked-IsValid = record {
      live_once = marked_live;
      keyed = λ a b. omega (
        arith,
        client.count-update_many of_e (with_status status now) (is_key a b) t,
        count-split of_e (is_key a b) t,
        v.keyed a b,
      );
      no_self = omega (
        arith,
        client.count-update_many of_e (with_status status now) is_self t,
        count-split of_e is_self t,
        v.no_self,
      );
    }

  -- Sending a request keeps the invariant, whether it is accepted or refused.
  pub create-IsValid :
      (s r now : ℕ) (w : World) → IsValid w.friends → IsValid (create s r now w).1.friends
  create-IsValid s r now w v = elim (create_cases s r now w) [
    | inl (failed, same) ↦ rw same v
    | inr (done, table, live, key, ne) ↦
        rw table (insert-IsValid s r now w.friends v live key (ground arith))
  ]

  pub update-IsValid :
      (c r : ℕ) (status : InvitationStatus) (now : ℕ) (w : World)
      → IsValid w.friends
      → IsValid (update c r status now w).1.friends
  update-IsValid c r status now w v = elim (update_cases c r status now w) [
    | inl (failed, same) ↦ rw same v
    | inr (e, found, (allowed, inl (table, _))) ↦ rw table (valid e found)
    | inr (e, found, (allowed, inr (table, _))) ↦ rw table (dropped-IsValid e _ (valid e found))
  ]
    where
      valid :
          (e : Friend)
          → client.find_first (is_pending c r) w.friends ≡ some e
          → IsValid (marked e status now w.friends)
      valid e found =
          marked-IsValid e status now w.friends v
            (λ q h. client.find_first-mem (is_pending c r) w.friends e q found h)
            (ground (arith, client.find_first-some (is_pending c r) w.friends e))

  pub remove-IsValid : (c r : ℕ) (w : World) → IsValid w.friends → IsValid (remove c r w).1.friends
  remove-IsValid c r w v = elim (remove_cases c r w) [
    | inl (missing, (failed, same)) ↦ rw same v
    | inr (e, found, done, table) ↦ rw table (dropped-IsValid e w.friends v)
  ]
