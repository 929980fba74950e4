-- ===== src/Ratings.antt =====
-- ratings/ratings.service.ts and ratings/mappers/ratings.mapper.ts: the players of a session rate
-- one another by three notes, whose names go by the sport.
pub mod Notes
pub mod Voters
use ludora_back.Prelude.{
  ℕ, Bool, true, false, not, ◌&&◌, ◌==◌, ltb, Option, none, some, List, [], ◌∷◌, ◌++◌, map,
  if◌then◌else◌, count, holds,
}
use ludora_back.World.{
  Client, Session, Sport, UserRating, RatingStatus, World, session_ended, not_all_players,
  foreign_key_violation, bad_request, Action, pure, gets, ◌>>=◌, ◌>>◌, raise_if, modify,
  transaction, has, is_none,
}
use ludora_back.Users.{find_user}
use ludora_back.SessionPlayers.{check_if_users_are_players, update_rating_status}
use Notes.{CreateRatingDto, to_entity}

-- The unique key of a rating.
abbrev pub is_rating_of : ℕ → ℕ → ℕ → UserRating → Bool
is_rating_of a b s r = holds r.evaluator_uid a && holds r.evaluated_uid b && holds r.session_uid s

abbrev pub evaluated : CreateRatingDto → ℕ
evaluated dto = dto.evaluated_uid

module _ ⦃client : Client⦄ where
  unfoldable pub verify_before_create : List ℕ → Session → (now : ℕ) → Action (Unit {0})
  verify_before_create user_uids session now = do
    raise_if (ltb session.end_date now) (bad_request session_ended)
    are_all_players ← check_if_users_are_players session.uid user_uids
    raise_if (not are_all_players) (bad_request not_all_players)

  -- A row of `createMany` with `skipDuplicates`: one that is there already is left out.
  insert_rating : (evaluator_uid : ℕ) → Session → CreateRatingDto → Action (Unit {0})
  unfolding to_entity
  insert_rating evaluator_uid session dto = do
    raise_if (is_none (← gets (find_user evaluator_uid))) foreign_key_violation
    raise_if (is_none (← gets (find_user dto.evaluated_uid))) foreign_key_violation
    modify (λ w. record w {
      user_ratings =
          if has (is_rating_of evaluator_uid dto.evaluated_uid session.uid) w.user_ratings
          then w.user_ratings
          else client.insert (to_entity dto evaluator_uid session.uid session.sport) w.user_ratings;
    })

  insert_ratings : (evaluator_uid : ℕ) → Session → List CreateRatingDto → Action (Unit {0})
  insert_ratings evaluator_uid session [] = pure tt
  insert_ratings evaluator_uid session (dto ∷ dtos) = do
    insert_rating evaluator_uid session dto
    insert_ratings evaluator_uid session dtos

  unfoldable pub create_many :
      List CreateRatingDto → (evaluator_uid : ℕ) → Session → (now : ℕ) → Action (Unit {0})
  unfolding insert_rating insert_ratings
  create_many dtos evaluator_uid session now = do
    verify_before_create (map evaluated dtos ++ evaluator_uid ∷ []) session now
    transaction do
      insert_ratings evaluator_uid session dtos
      update_rating_status evaluator_uid session.uid RatingStatus.validated
