-- ===== src/Pagination/Cursors.antt =====
-- Following the uids of the popped rows loses a row at each page's end.
use ludora_back.Prelude.{
  ℕ, Bool, suc, zero, ◌≡◌, ◌≤◌, ◌<◌, ◌⊎◌, inl, inr, true, false, ◌||◌, ◌==◌, ==_iff, ltb, elem,
  Option, none, some, List, [], ◌∷◌, ◌++◌, length, take, count, arith, refl, sym, ap, ◌∙◌,
  Bool-cases, Option-cases,
}
use ludora_back.Pagination.{Page, walk, more, uid_page, is_beyond, filter, popped, last}

elem-append : (x : ℕ) (xs ys : List ℕ) → elem x (xs ++ ys) ≡ (elem x xs || elem x ys)
elem-append x [] ys = refl
elem-append x (y ∷ xs) ys = ground (arith, elem-append x xs ys)

elem-popped : (x : ℕ) (xs : List ℕ) → elem x (popped xs) ≡ true → elem x xs ≡ true
elem-popped x [] h = h
elem-popped x (y ∷ []) h = cc
elem-popped x (y ∷ z ∷ zs) h = ground (arith, h, elem-popped x (z ∷ zs))

elem-last : (x : ℕ) (xs : List ℕ) → last xs ≡ some x → elem x xs ≡ true
elem-last x [] h = cc
elem-last x (y ∷ []) h = ground (arith, h, ==_iff x y)
elem-last x (y ∷ z ∷ zs) h = ground (arith, elem-last x (z ∷ zs) h)

-- A row that is listed once, and last, is not in what is left.
last-popped :
    (x : ℕ) (xs : List ℕ)
    → last xs ≡ some x
    → count (λ y. x == y) xs ≤ 1
    → elem x (popped xs) ≡ false
last-popped x [] h once = refl
last-popped x (y ∷ []) h once = refl
last-popped x (y ∷ z ∷ zs) h once =
    ground (arith, once, last-popped x (z ∷ zs) h, listed x (z ∷ zs) (elem-last x (z ∷ zs) h))
  where
    listed : (x : ℕ) (ys : List ℕ) → elem x ys ≡ true → 0 < count (λ y. x == y) ys
    listed x [] e = cc
    listed x (y ∷ ys) e = ground (arith, listed x ys)

elem-take : (n x : ℕ) (xs : List ℕ) → elem x (take n xs) ≡ true → elem x xs ≡ true
elem-take zero x xs h = absurd cc
elem-take (suc n) x [] h = absurd cc
elem-take (suc n) x (y ∷ ys) h = ground (arith, elem-take n x ys)

elem-filter :
    (p : ℕ → Bool) (x : ℕ) (xs : List ℕ)
    → elem x (filter p xs) ≡ true
    → (p x ≡ true) × (elem x xs ≡ true)
elem-filter p x [] h = absurd cc
elem-filter p x (y ∷ ys) h = elim (Bool-cases (x == y)) [
  | inl same ↦ elim (Bool-cases (p y)) [
    | inl met ↦ (ap p ((==_iff x y).0 same) ∙ met, ground (arith, same))
    | inr missed ↦ ground (arith, missed, elem-filter p x ys)
  ]
  | inr other ↦ ground (arith, other, elem-filter p x ys)
]

count-take : (q : ℕ → Bool) (n : ℕ) (xs : List ℕ) → count q (take n xs) ≤ count q xs
count-take q zero xs = omega arith
count-take q (suc n) [] = omega arith
count-take q (suc n) (x ∷ xs) = ground (arith, count-take q n xs)

count-filter : (p q : ℕ → Bool) (xs : List ℕ) → count q (filter p xs) ≤ count q xs
count-filter p q [] = omega arith
count-filter p q (x ∷ xs) = ground (arith, count-filter p q xs)

module _ (fetch : (ℕ → Bool) → (take : ℕ) → List ℕ) (friends : List ℕ) (limit : ℕ) where
  -- The query reads the first of those friends, in their order, that meet the condition.
  abbrev pub ReadsWhere : Type 0
  ReadsWhere = (p : ℕ → Bool) (n : ℕ) → fetch p n ≡ take n (filter p friends)

  abbrev rows_at : Option ℕ → List ℕ
  rows_at c = fetch (is_beyond c) (suc limit)

  read_lem :
      (c : Option ℕ) (x : ℕ)
      → ReadsWhere
      → elem x (rows_at c) ≡ true
      → (is_beyond c x ≡ true) × (elem x friends ≡ true)
  read_lem c x reads h = elem-filter (is_beyond c) x friends (
      elem-take (suc limit) x (filter (is_beyond c) friends)
        (ap (elem x) (sym (reads (is_beyond c) (suc limit))) ∙ h))

  beyond : (c x : ℕ) → ReadsWhere → elem x (rows_at (some c)) ≡ true → c < x
  beyond c x reads h = ground (arith, (read_lem (some c) x reads h).0)

  page_cases :
      (c : Option ℕ)
      → (ltb limit (length (rows_at c)) ≡ true)
          × (uid_page fetch limit c
              ≡ record { items = popped (rows_at c); next_cursor = last (rows_at c) })
        ⊎ (uid_page fetch limit c ≡ record { items = rows_at c; next_cursor = none })
  unfolding uid_page
  page_cases c = ground arith

  -- From a cursor on, only greater uids are read.
  walk_above :
      (n c x : ℕ) → ReadsWhere → x ≤ c → elem x (walk (uid_page fetch limit) n (some c)) ≡ false
  walk_above zero c x reads below = refl
  walk_above (suc n) c x reads below =
      let page = uid_page fetch limit in
      let rows = rows_at (some c) in
      let absent : elem x rows ≡ false = elim (Bool-cases (elem x rows)) [
        | inl e ↦ absurd (omega (arith, below, beyond c x reads e))
        | inr e ↦ e
      ] in
      elim (page_cases (some c)) [
        | inr e ↦ rw e (elem-append x rows [] ∙ ground (arith, absent))
        | inl (long, e) ↦
            let left : elem x (popped rows) ≡ false = ground (arith, absent, elem-popped x rows) in
            rw e (
              elem-append x (popped rows) (more (λ d. walk page n d) (last rows))
              ∙ elim (Option-cases (last rows)) [
                | inl f ↦ rw f (ground (arith, left))
                | inr (d, f) ↦
                    let further =
                      walk_above n d x reads
                        (omega (arith, below, beyond c d reads (elem-last d rows f))) in
                    rw f (ground (arith, left, further))
              ])
      ]

  -- The uid that the first page gives as the next cursor is that of a friend, and a client that
  -- follows the cursors never reads it, provided that each friend is listed once: it is popped from
  -- its page, and the next page begins after it.
  pub uid_page-loses :
      (u n : ℕ)
      → ReadsWhere
      → (uid_page fetch limit none).next_cursor ≡ some u
      → count (λ y. u == y) friends ≤ 1
      → (elem u friends ≡ true) × (elem u (walk (uid_page fetch limit) n none) ≡ false)
  uid_page-loses u n reads next once = elim (page_cases none) [
    | inr e ↦ absurd (ground (arith, next, ap (λ (p : Page ℕ ℕ). p.next_cursor) e))
    | inl (long, e) ↦
        let rows = rows_at none in
        let f : last rows ≡ some u = sym (ap (λ (p : Page ℕ ℕ). p.next_cursor) e) ∙ next in
        let here = elem-last u rows f in
        let single : count (λ y. u == y) rows ≤ 1 = rw (reads (is_beyond none) (suc limit)) (
          omega (
            arith,
            once,
            count-take (λ y. u == y) (suc limit) (filter (is_beyond none) friends),
            count-filter (is_beyond none) (λ y. u == y) friends,
          )) in
        ((read_lem none u reads here).1, lost n rows e f (last-popped u rows f single))
  ]
    where
      lost :
          (n : ℕ) (rows : List ℕ)
          → uid_page fetch limit none ≡ record { items = popped rows; next_cursor = last rows }
          → last rows ≡ some u
          → elem u (popped rows) ≡ false
          → elem u (walk (uid_page fetch limit) n none) ≡ false
      lost zero rows e f left = refl
      lost (suc m) rows e f left = rw e (
          elem-append u (popped rows) (more (λ d. walk (uid_page fetch limit) m d) (last rows))
          ∙ rw f (ground (arith, left, walk_above m u u reads (omega arith))))
