-- ===== src/Tests/Ratings.antt =====
-- A rating of one player by another.
use ludora_back.Prelude.{ℕ, ◌≡◌, refl, none, some, Option, [], ◌∷◌, true, arith, ==_iff}
use ludora_back.World.{padel, list_client, is_ok}
use ludora_back.Ratings.{verify_before_create}
use ludora_back.Ratings.Notes.{
  NoteName, CreateRatingDto, smash, volley, placement, property, to_dto, to_entity,
  to_dto-to_entity,
}
use ludora_back.Ratings.Voters.{verify_before_create_iff}
use ludora_back.Tests.SessionSample.{duel, season}

abbrev notes : NoteName → Option ℕ
notes smash = some 4
notes volley = some 3
notes _ = none

abbrev rating : CreateRatingDto
rating = record { evaluated_uid = 4; note = notes }

to_dto-to_entity_example :
    let back = property (to_dto (to_entity rating 3 11 padel)) in
    (back smash ≡ some 4) × ((back volley ≡ some 3) × ((back placement ≡ none) × Unit {0}))
to_dto-to_entity_example = to_dto-to_entity rating 3 11 padel

verify_before_create_iff_example :
    is_ok (verify_before_create (4 ∷ 3 ∷ []) duel 120 season).0 ≡ true
verify_before_create_iff_example =
    (verify_before_create_iff (4 ∷ 3 ∷ []) duel 120 season
        (λ u. ground (arith, ==_iff 3 u, ==_iff 4 u))).1
      (omega arith, (refl, refl, (refl, refl, tt)))
