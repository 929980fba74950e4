-- ===== src/Preferences/Valid.antt =====
-- What the validation of the hour preferences keeps.
use ludora_back.Prelude.{
  ℕ, ◌+◌, ◌≡◌, ◌≤◌, inl, inr, Bool, true, not, ◌&&◌, ◌||◌, ==_iff, ltb, some, List, [], ◌∷◌, ◌++◌,
  arith, bit, count, count-append, refl, ap, ◌∙◌, Bool-cases, Option-cases, if◌then◌else◌,
}
use ludora_back.World.{TimePeriod, ◌is_period◌, has}
use ludora_back.Preferences.{
  HourPreferenceData, is_recurrent_at, is_one_time_at, insert_sorted, sorted, skipped, keep_valid,
  validate_hour_preferences,
}

count-insert_sorted :
    (q : HourPreferenceData → Bool) (x : HourPreferenceData) (xs : List HourPreferenceData)
    → count q (insert_sorted x xs) ≡ bit (q x) + count q xs
unfolding insert_sorted
count-insert_sorted q x [] = refl
count-insert_sorted q x (y ∷ ys) = ground (arith, count-insert_sorted q x ys)

count-sorted :
    (q : HourPreferenceData → Bool) (xs : List HourPreferenceData)
    → count q (sorted xs) ≡ count q xs
unfolding sorted
count-sorted q [] = refl
count-sorted q (x ∷ xs) = omega (arith, count-insert_sorted q x (sorted xs), count-sorted q xs)

is_period_iff : (a b : TimePeriod) → ((a is_period b) ≡ true) → a ≡ b
is_period_iff TimePeriod.morning TimePeriod.morning h = refl
is_period_iff TimePeriod.morning TimePeriod.afternoon h = cc
is_period_iff TimePeriod.morning TimePeriod.evening h = cc
is_period_iff TimePeriod.afternoon TimePeriod.morning h = cc
is_period_iff TimePeriod.afternoon TimePeriod.afternoon h = refl
is_period_iff TimePeriod.afternoon TimePeriod.evening h = cc
is_period_iff TimePeriod.evening TimePeriod.morning h = cc
is_period_iff TimePeriod.evening TimePeriod.afternoon h = cc
is_period_iff TimePeriod.evening TimePeriod.evening h = refl

module _ (day : ℕ → ℕ) where
  -- One preference for each day and period, and for each date and period.
  abbrev pub NoDuplicates : List HourPreferenceData → Type 0
  NoDuplicates ps =
      (t : TimePeriod)
      → ((d : ℕ) → count (is_recurrent_at d t) ps ≤ 1)
        × ((v : ℕ) → count (is_one_time_at (some v) t) ps ≤ 1)

  abbrev next : List HourPreferenceData → HourPreferenceData → List HourPreferenceData
  next valid p = if skipped day valid p then valid else valid ++ (p ∷ [])

  -- How often a test is met after a step.
  count-next :
      (q : HourPreferenceData → Bool) (valid : List HourPreferenceData) (p : HourPreferenceData)
      → count q (next valid p) ≡ bit (not (skipped day valid p) && q p) + count q valid
  count-next q valid p = ground (arith, count-append q valid (p ∷ []))

  -- A recurrent preference of a day and period is skipped just if there is one.
  skipped_recurrent :
      (d : ℕ) (t : TimePeriod) (valid : List HourPreferenceData) (p : HourPreferenceData)
      → is_recurrent_at d t p ≡ true
      → skipped day valid p ≡ has (is_recurrent_at d t) valid
  skipped_recurrent d t valid p h =
      let same_day : p.day_of_week ≡ d = (==_iff p.day_of_week d).0 (ground (arith, h)) in
      let same_period : p.time_period ≡ t = is_period_iff p.time_period t (ground (arith, h)) in
      ground (
        arith,
        h,
        ap (λ x. has (is_recurrent_at x t) valid) same_day,
        ap (λ x. has (is_recurrent_at p.day_of_week x) valid) same_period,
      )

  recurrents_kept :
      (d : ℕ) (t : TimePeriod) (valid ps : List HourPreferenceData)
      → count (is_recurrent_at d t) valid ≤ 1
      → count (is_recurrent_at d t) (keep_valid day valid ps)
        ≡ bit (has (is_recurrent_at d t) valid || has (is_recurrent_at d t) ps)
  unfolding keep_valid
  recurrents_kept d t valid [] once = ground (arith, once)
  recurrents_kept d t valid (p ∷ ps) once =
      let step = count-next (is_recurrent_at d t) valid p in
      elim (Bool-cases (is_recurrent_at d t p)) [
        | inl same ↦
            let skip = skipped_recurrent d t valid p same in
            ground (
              arith,
              once,
              step,
              skip,
              same,
              recurrents_kept d t (next valid p) ps (ground (arith, once, step, skip, same)),
            )
        | inr other ↦ ground (
          arith,
          once,
          step,
          other,
          recurrents_kept d t (next valid p) ps (ground (arith, once, step, other)),
        )
      ]

  -- A one-time preference of a date and period is skipped if there is one.
  skipped_one_time :
      (v : ℕ) (t : TimePeriod) (valid : List HourPreferenceData) (p : HourPreferenceData)
      → is_one_time_at (some v) t p ≡ true
      → has (is_one_time_at (some v) t) valid ≡ true
      → skipped day valid p ≡ true
  skipped_one_time v t valid p h there = elim (Option-cases p.date) [
    | inl e ↦ absurd (ground (arith, h, e))
    | inr (x, e) ↦
        let same_date : x ≡ v = (==_iff x v).0 (ground (arith, h, e)) in
        let same_period : p.time_period ≡ t =
          is_period_iff p.time_period t (ground (arith, h, e)) in
        ground (
          arith,
          h,
          there,
          ap (λ o. has (is_one_time_at o p.time_period) valid) e,
          ap (λ y. has (is_one_time_at (some y) p.time_period) valid) same_date,
          ap (λ y. has (is_one_time_at (some v) y) valid) same_period,
        )
  ]

  one_times_kept :
      (v : ℕ) (t : TimePeriod) (valid ps : List HourPreferenceData)
      → count (is_one_time_at (some v) t) valid ≤ 1
      → count (is_one_time_at (some v) t) (keep_valid day valid ps) ≤ 1
  unfolding keep_valid
  one_times_kept v t valid [] once = once
  one_times_kept v t valid (p ∷ ps) once =
      let step = count-next (is_one_time_at (some v) t) valid p in
      let still : count (is_one_time_at (some v) t) (next valid p) ≤ 1 =
        ground (arith, once, step, skipped_one_time v t valid p) in
      one_times_kept v t (next valid p) ps still

  -- The validated preferences have no duplicates: one recurrent preference for each day and period,
  -- and one one-time preference for each date and period, at most; and every recurrent preference
  -- that was submitted is there, once.
  pub validate_hour_preferences-NoDuplicates :
      (ps : List HourPreferenceData)
      → NoDuplicates (validate_hour_preferences day ps)
        × ((d : ℕ) (t : TimePeriod)
            → count (is_recurrent_at d t) (validate_hour_preferences day ps)
              ≡ bit (has (is_recurrent_at d t) ps))
  unfolding validate_hour_preferences
  validate_hour_preferences-NoDuplicates ps = (
    λ t. (λ d. ground (arith, recurrent d t), λ v. one_times_kept v t [] (sorted ps) (omega arith)),
    recurrent,
  )
    where
      recurrent :
          (d : ℕ) (t : TimePeriod)
          → count (is_recurrent_at d t) (validate_hour_preferences day ps)
            ≡ bit (has (is_recurrent_at d t) ps)
      recurrent d t =
          recurrents_kept d t [] (sorted ps) (omega arith)
          ∙ ap (λ n. bit (ltb 0 n)) (count-sorted (is_recurrent_at d t) ps)
