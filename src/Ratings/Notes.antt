-- ===== src/Ratings/Notes.antt =====
-- ratings/mappers/ratings.mapper.ts: the notes of a sport as the columns note1, note2, note3.
use ludora_back.Prelude.{ℕ, ◌≡◌, refl, Option, some, List, [], ◌∷◌}
use ludora_back.World.{Sport, UserRating}
use ludora_back.World.{basketball, football, padel, tennis, volleyball, ping_pong, badminton}

pub data NoteName : Type 0 where
  shoot defense dribble passing smash volley placement serve forehand spike reception attack :
      NoteName

-- The properties that a request carries; a property that it lacks is undefined, `none`.
pub record CreateRatingDto : Type 0 where
  pub evaluated_uid : ℕ
  pub note : NoteName → Option ℕ

-- The names of the three columns, for each sport.
pub record NoteNames : Type 0 where
  pub name1 : NoteName
  pub name2 : NoteName
  pub name3 : NoteName

abbrev names : NoteName → NoteName → NoteName → NoteNames
names a b c = record { name1 = a; name2 = b; name3 = c }

-- `sportExtractors`
unfoldable pub sport_extractors : Sport → NoteNames
sport_extractors basketball = names shoot defense dribble
sport_extractors football = names shoot defense passing
sport_extractors padel = names smash volley placement
sport_extractors tennis = names serve forehand placement
sport_extractors volleyball = names serve spike reception
sport_extractors ping_pong = names serve attack defense
sport_extractors badminton = names serve smash defense

-- `RatingsMapper.toEntity`
unfoldable pub to_entity : CreateRatingDto → (evaluator_uid session_uid : ℕ) → Sport → UserRating
unfolding sport_extractors
to_entity dto evaluator_uid session_uid sport =
    let n = sport_extractors sport in
    record {
      evaluator_uid = some evaluator_uid;
      evaluated_uid = some dto.evaluated_uid;
      session_uid = some session_uid;
      sport = sport;
      note1 = dto.note n.name1;
      note2 = dto.note n.name2;
      note3 = dto.note n.name3;
    }

-- The response to a rating: its notes under the names of the sport.
pub data RatingResponseData : Type 0 where
  basketball_rating : (a b c : Option ℕ) → RatingResponseData
  football_rating : (a b c : Option ℕ) → RatingResponseData
  padel_rating : (a b c : Option ℕ) → RatingResponseData
  tennis_rating : (a b c : Option ℕ) → RatingResponseData
  volleyball_rating : (a b c : Option ℕ) → RatingResponseData
  ping_pong_rating : (a b c : Option ℕ) → RatingResponseData
  badminton_rating : (a b c : Option ℕ) → RatingResponseData

-- The switch of `RatingsMapper.toDto`.
response_of : Sport → Option ℕ → Option ℕ → Option ℕ → RatingResponseData
response_of basketball a b c = basketball_rating a b c
response_of football a b c = football_rating a b c
response_of padel a b c = padel_rating a b c
response_of tennis a b c = tennis_rating a b c
response_of volleyball a b c = volleyball_rating a b c
response_of ping_pong a b c = ping_pong_rating a b c
response_of badminton a b c = badminton_rating a b c

unfoldable pub to_dto : UserRating → RatingResponseData
unfolding response_of
to_dto entity = response_of entity.sport entity.note1 entity.note2 entity.note3

-- What a property of the response holds; `none` where the sport has no such property.
unfoldable pub property : RatingResponseData → NoteName → Option ℕ
property (basketball_rating a b c) shoot = a
property (basketball_rating a b c) defense = b
property (basketball_rating a b c) dribble = c
property (football_rating a b c) shoot = a
property (football_rating a b c) defense = b
property (football_rating a b c) passing = c
property (padel_rating a b c) smash = a
property (padel_rating a b c) volley = b
property (padel_rating a b c) placement = c
property (tennis_rating a b c) serve = a
property (tennis_rating a b c) forehand = b
property (tennis_rating a b c) placement = c
property (volleyball_rating a b c) serve = a
property (volleyball_rating a b c) spike = b
property (volleyball_rating a b c) reception = c
property (ping_pong_rating a b c) serve = a
property (ping_pong_rating a b c) attack = b
property (ping_pong_rating a b c) defense = c
property (badminton_rating a b c) serve = a
property (badminton_rating a b c) smash = b
property (badminton_rating a b c) defense = c
property _ _ = Option.none

-- The notes that a request for a sport carries: the classes of ratings/dto/output.
abbrev pub required : Sport → List NoteName
required basketball = shoot ∷ defense ∷ dribble ∷ []
required football = shoot ∷ defense ∷ passing ∷ []
required padel = smash ∷ volley ∷ placement ∷ []
required tennis = serve ∷ forehand ∷ placement ∷ []
required volleyball = serve ∷ spike ∷ reception ∷ []
required ping_pong = serve ∷ attack ∷ defense ∷ []
required badminton = serve ∷ smash ∷ defense ∷ []

abbrev pub Each : (NoteName → Type 0) → List NoteName → Type 0
Each P [] = Unit {0}
Each P (n ∷ ns) = P n × Each P ns

-- For every sport, the response to a stored rating gives back each note that a request for the
-- sport carries, under the name that it had there: none is lost, and the two switches over the
-- sports agree.
pub to_dto-to_entity :
    (dto : CreateRatingDto) (evaluator session : ℕ) (sport : Sport)
    → let back = property (to_dto (to_entity dto evaluator session sport)) in
      Each (λ n. back n ≡ dto.note n) (required sport)
unfolding to_dto to_entity property
to_dto-to_entity dto evaluator session basketball = (refl, (refl, (refl, tt)))
to_dto-to_entity dto evaluator session _ = (refl, (refl, (refl, tt)))
