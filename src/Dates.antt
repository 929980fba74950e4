-- ===== src/Dates.antt =====
-- shared/utils/date.utils.ts, checkValidityForCreation: the dates of a new session or slot.
-- `now` is the clock, and `get_day` is JavaScript's `Date.getDay`, which depends on the time zone
-- of the server.
use ludora_back.Prelude.{ℕ, ◌≡◌, ◌≤◌, ◌↔◌, true, not, ◌==◌, ltb, arith, ◌+◌, ==_iff}
use ludora_back.World.{
  Action, World, ok, is_ok, raise_if, ◌>>◌, bad_request, earlier_in_past, later_before_earlier,
  not_same_day,
}

unfoldable pub check_validity_for_creation :
    (get_day : ℕ → ℕ) (now earlier later : ℕ) → Action (Unit {0})
check_validity_for_creation get_day now earlier later = do
  raise_if (ltb earlier now) (bad_request earlier_in_past)
  raise_if (ltb later earlier) (bad_request later_before_earlier)
  raise_if (not (get_day earlier == get_day later)) (bad_request not_same_day)

-- The milliseconds of a week.
abbrev pub week : ℕ
week = 604800000

-- The dates pass, in any state of the database, exactly if the earlier one is not past, the later
-- one is not before it, and both are on the same day of the week.
pub check_validity_for_creation_iff :
    (get_day : ℕ → ℕ) (now earlier later : ℕ) (w : World)
    → let (r, w') = check_validity_for_creation get_day now earlier later w in
      (w' ≡ w)
      × ((is_ok r ≡ true)
          ↔ ((now ≤ earlier) × (earlier ≤ later) × (get_day earlier ≡ get_day later)))
unfolding check_validity_for_creation
check_validity_for_creation_iff get_day now earlier later w =
    let same = ==_iff (get_day earlier) (get_day later) in
    (
      ground arith,
      (
        (λ h. (ground arith, ground arith, same.0 (ground arith))),
        λ (a, b, c). ground (arith, same.1 c),
      ),
    )

-- The test does not ask for the same day, as its message says: where the days of the week repeat
-- after a week, an end one week after the start passes.
pub check_validity_for_creation-week :
    (get_day : ℕ → ℕ) (now earlier : ℕ) (w : World)
    → ((t : ℕ) → get_day (t + week) ≡ get_day t)
    → now ≤ earlier
    → check_validity_for_creation get_day now earlier (earlier + week) w ≡ (ok tt, w)
unfolding check_validity_for_creation
check_validity_for_creation-week get_day now earlier w repeats future =
    ground (arith, ==_iff (get_day earlier) (get_day (earlier + week)), repeats earlier)
