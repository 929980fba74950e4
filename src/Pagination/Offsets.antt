-- ===== src/Pagination/Offsets.antt =====
-- Following the offsets reads every row, once.
use ludora_back.Prelude.{
  ℕ, suc, zero, ◌+◌, ◌≡◌, ◌≤◌, ◌<◌, ◌⊎◌, inl, inr, true, false, ltb, Option, none, some, List, ◌++◌,
  length, take, arith, refl, ap, ◌∙◌, Bool-cases,
}
use ludora_back.Pagination.{drop, walk, offset_page, offset_of}
use ludora_back.Pagination.Lists.{
  take-drop, append-nil, take-all, take-take, length-take, length-take-le, drop-drop, length-drop,
}

module _ {A : Type 0} (fetch : (offset take : ℕ) → List A) (rows : List A) (limit : ℕ) where
  -- What OFFSET and LIMIT read.
  abbrev pub ReadsAt : Type 0
  ReadsAt = (o n : ℕ) → fetch o n ≡ take n (drop o rows)

  page_cases :
      (c : Option ℕ)
      → ReadsAt
      → (ltb limit (length (drop (offset_of c) rows)) ≡ true)
          × (offset_page fetch limit c ≡ record {
            items = take limit (drop (offset_of c) rows);
            next_cursor = some (offset_of c + limit);
          })
        ⊎ (ltb limit (length (drop (offset_of c) rows)) ≡ false)
          × (offset_page fetch limit c
              ≡ record { items = drop (offset_of c) rows; next_cursor = none })
  unfolding offset_page
  page_cases c reads =
      let rest = drop (offset_of c) rows in
      elim (Bool-cases (ltb limit (length rest))) [
        | inl h ↦ inl (
          h,
          rw (reads (offset_of c) (suc limit), length-take limit rest, h, take-take limit rest)
              refl,
        )
        | inr h ↦ inr (
          h,
          rw
              (
                reads (offset_of c) (suc limit),
                length-take limit rest,
                h,
                take-all (suc limit) rest (ground (arith, h)),
              )
              refl,
        )
      ]

  walk_from :
      (n : ℕ) (c : Option ℕ)
      → ReadsAt
      → 0 < limit
      → length (drop (offset_of c) rows) ≤ n
      → walk (offset_page fetch limit) (suc n) c ≡ drop (offset_of c) rows
  walk_from zero c reads positive enough = elim (page_cases c reads) [
    | inr (short, e) ↦ rw e (append-nil (drop (offset_of c) rows))
    | inl (long, e) ↦ absurd (ground (arith, enough, long))
  ]
  walk_from (suc m) c reads positive enough = elim (page_cases c reads) [
    | inr (short, e) ↦ rw e (append-nil (drop (offset_of c) rows))
    | inl (long, e) ↦
        let rest = drop (offset_of c) rows in
        let further = drop-drop (offset_of c) limit rows in
        let less : length (drop (offset_of c + limit) rows) ≤ m =
          rw further (length-drop limit m rest positive (ground (arith, long)) enough) in
        rw e (
          ap (λ ys. take limit rest ++ ys)
            (walk_from m (some (offset_of c + limit)) reads positive less ∙ further)
          ∙ take-drop limit rest)
  ]

  -- A client that follows the cursors from the start reads all rows in their order, each once, in
  -- as many pages as there are rows, and one more, at most; and no page is longer than the limit.
  pub offset_page-reads_all :
      ReadsAt
      → 0 < limit
      → (walk (offset_page fetch limit) (suc (length rows)) none ≡ rows)
        × ((c : Option ℕ) → length (offset_page fetch limit c).items ≤ limit)
  offset_page-reads_all reads positive = (
    walk_from (length rows) none reads positive (omega arith),
    λ c. elim (page_cases c reads) [
      | inl (long, e) ↦ rw e (length-take-le limit (drop (offset_of c) rows))
      | inr (short, e) ↦ rw e (ground (arith, short))
    ],
  )
