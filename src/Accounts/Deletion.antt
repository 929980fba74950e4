-- ===== src/Accounts/Deletion.antt =====
-- Asking for the deletion of an account, and taking it back.
use ludora_back.Prelude.{
  ℕ, ◌+◌, ◌≡◌, ◌≤◌, ◌<◌, Bool, true, false, not, ◌&&◌, ◌==◌, ltb, none, some, List, arith, count,
  count-le, count-ext, count-none, count-split, count-le-add, ap, sym, inl, inr, Option-cases,
  Bool-cases, ◌∙◌,
}
use ludora_back.World.{Client, User, World, is_ok, is_none}
use ludora_back.Accounts.{
  is_deletable, is_to_be_deleted, deletion_request, cancel_deletion_request, retraction_period,
}

module _ ⦃client : Client⦄ (uid now : ℕ) (w : World) where
  abbrev marked : User → User
  marked u = record u { deleted_at = some (now + retraction_period) }

  abbrev cleared : User → User
  cleared u = record u { deleted_at = none }

  abbrev requested : List User
  requested = client.update_many (is_deletable uid) marked w.users

  none_pending :
      count (is_to_be_deleted uid) w.users ≡ 0
      → (q : User → Bool)
      → count (λ u. is_to_be_deleted uid u && q (cleared u)) requested
        ≡ count (λ u. is_deletable uid u && q (cleared u)) w.users
  none_pending clean q =
      let after : User → Bool = λ u. is_to_be_deleted uid u && q (cleared u) in
      omega (
        arith,
        clean,
        client.count-update_many (is_deletable uid) marked after w.users,
        count-ext (λ u. is_deletable uid u && after (marked u))
            (λ u. is_deletable uid u && q (cleared u)) w.users (λ u. ground arith),
        count-le (λ u. not (is_deletable uid u) && after u) (is_to_be_deleted uid) w.users
            (λ u h. ground arith),
      )

  unmarked :
      (q : User → Bool)
      → count (λ u. not (is_to_be_deleted uid u) && q u) requested
        ≡ count (λ u. not (is_deletable uid u) && (not (is_to_be_deleted uid u) && q u)) w.users
  unmarked q =
      let after : User → Bool = λ u. not (is_to_be_deleted uid u) && q u in
      omega (
        arith,
        client.count-update_many (is_deletable uid) marked after w.users,
        count-none (λ u. is_deletable uid u && after (marked u)) w.users (λ u. ground arith),
      )

  -- A row that is not marked is as it is cleared.
  cleared_same : (u : User) → is_none u.deleted_at ≡ true → cleared u ≡ u
  cleared_same u h = elim (Option-cases u.deleted_at) [
    | inl e ↦ ap (λ d. record u { deleted_at = d }) (sym e)
    | inr (d, e) ↦ absurd (ground (arith, e, h))
  ]

  restored :
      count (is_to_be_deleted uid) w.users ≡ 0
      → (q : User → Bool)
      → count q (client.update_many (is_to_be_deleted uid) cleared requested) ≡ count q w.users
  restored clean q =
      let mine = is_deletable uid in
      let pending = is_to_be_deleted uid in
      let rest : User → Bool = λ u. not (mine u) && q u in
      omega (
        arith,
        clean,
        client.count-update_many pending cleared q requested,
        none_pending clean q,
        unmarked q,
        count-split mine q w.users,
        count-ext (λ u. mine u && q (cleared u)) (λ u. mine u && q u) w.users (λ u. same u),
        count-split pending rest w.users,
        count-le (λ u. pending u && rest u) pending w.users (λ u h. ground arith),
        count-ext (λ u. not (mine u) && (not (pending u) && q u)) (λ u. not (pending u) && rest u)
            w.users (λ u. ground arith),
      )
    where
      same : (u : User) → (is_deletable uid u && q (cleared u)) ≡ (is_deletable uid u && q u)
      same u = elim (Bool-cases (is_none u.deleted_at)) [
        | inl e ↦ ap (λ v. is_deletable uid u && q v) (cleared_same u e)
        | inr e ↦ ground (arith, e)
      ]

  none_deletable : count (is_deletable uid) requested ≡ 0
  none_deletable =
      let mine = is_deletable uid in
      omega (
        arith,
        client.count-update_many mine marked mine w.users,
        count-none (λ u. mine u && mine (marked u)) w.users (λ u. ground arith),
        count-none (λ u. not (mine u) && mine u) w.users (λ u. ground arith),
      )

  all_pending : count (is_deletable uid) w.users ≤ count (is_to_be_deleted uid) requested
  all_pending =
      let mine = is_deletable uid in
      let pending = is_to_be_deleted uid in
      omega (
        arith,
        client.count-update_many mine marked pending w.users,
        count-ext (λ u. mine u && pending (marked u)) mine w.users (λ u. ground arith),
      )

  request_lem :
      let (r, w') = deletion_request uid now w in
      (is_ok r ≡ ltb 0 (count (is_deletable uid) w.users)) × (w'.users ≡ requested)
  unfolding deletion_request
  request_lem = ground arith

cancel_lem :
    ⦃client : Client⦄ (uid : ℕ) (w : World)
    → let (r, w') = cancel_deletion_request uid w in
      (is_ok r ≡ ltb 0 (count (is_to_be_deleted uid) w.users))
      × (w'.users
          ≡ client.update_many (is_to_be_deleted uid) (λ u. record u { deleted_at = none }) w.users)
unfolding cancel_deletion_request
cancel_lem uid w = ground arith

module _ ⦃client : Client⦄ (uid now later : ℕ) (w : World) where
  -- For an account without a pending request: the request is granted, a second one is refused, and
  -- taking it back is granted and restores every account.
  pub cancel-deletion_request :
      count (is_to_be_deleted uid) w.users ≡ 0
      → 0 < count (λ (u : User). u.uid == uid) w.users
      → let (r, w1) = deletion_request uid now w in
        let (r', w2) = cancel_deletion_request uid w1 in
        (is_ok r ≡ true)
        × (is_ok (deletion_request uid later w1).0 ≡ false)
        × (is_ok r' ≡ true)
        × ((q : User → Bool) → count q w2.users ≡ count q w.users)
  cancel-deletion_request clean known =
      let (granted, table) = request_lem uid now w in
      let w1 = (deletion_request uid now w).1 in
      let (again, _) = request_lem uid later w1 in
      let (back, table') = cancel_lem uid w1 in
      let all_deletable : 0 < count (is_deletable uid) w.users = omega (
        arith,
        known,
        clean,
        count-le-add (λ (u : User). u.uid == uid) (is_deletable uid) (is_to_be_deleted uid) w.users
            (λ u h. ground arith),
      ) in
      (
        ground (arith, granted, all_deletable),
        ground (arith, again, ap (count (is_deletable uid)) table, none_deletable uid now w),
        ground (
          arith,
          back,
          ap (count (is_to_be_deleted uid)) table,
          all_pending uid now w,
          all_deletable,
        ),
        λ q.
            ap (count q) table'
            ∙ ap
                (λ t. count q (
                  client.update_many (is_to_be_deleted uid) (λ u. record u { deleted_at = none })
                    t))
                table
            ∙ restored uid now w clean q,
      )
