-- ===== src/Preferences.antt =====
-- user-preferences/services: when and what a user likes to play.
pub mod Valid
pub mod Cleared
use ludora_back.Prelude.{
  ℕ, Bool, true, false, not, ◌&&◌, ◌||◌, ◌==◌, Option, none, some, List, [], ◌∷◌, ◌++◌, map, holds,
  count, if◌then◌else◌,
}
use ludora_back.World.{
  Client, Sport, GameModes, ◌is_mode◌, UserHourPreference, UserHourPreferenceType, ◌is_hour◌,
  TimePeriod, ◌is_period◌, UserSportPreference, UserGameModePreference, PreferenceTables, World,
  duplicate_preference, user_not_found, bad_request, not_found, unique_violation,
  foreign_key_violation, Action, pure, gets, ◌>>=◌, ◌>>◌, raise_if, modify, transaction, has,
  is_none,
}
use ludora_back.Users.{find_user}
use ludora_back.SessionCreation.{is_sport}

-- A preference as it is submitted. A date is `none` when it is missing or no date.
pub record HourPreferenceData : Type 0 where
  pub kind : UserHourPreferenceType
  pub day_of_week : ℕ
  pub time_period : TimePeriod
  pub date : Option ℕ

abbrev pub is_recurrent : HourPreferenceData → Bool
is_recurrent p = p.kind is_hour UserHourPreferenceType.recurrent

-- The recurrent preferences of a day and a period.
abbrev pub is_recurrent_at : ℕ → TimePeriod → HourPreferenceData → Bool
is_recurrent_at d t p = is_recurrent p && p.day_of_week == d && p.time_period is_period t

-- The one-time preferences of a date and a period.
abbrev pub is_one_time_at : Option ℕ → TimePeriod → HourPreferenceData → Bool
is_one_time_at none t p = false
is_one_time_at (some v) t p = not (is_recurrent p) && holds p.date v && p.time_period is_period t

-- `sort` with the comparator that puts the recurrent ones first; it keeps the order of equals.
abbrev pub before : HourPreferenceData → HourPreferenceData → Bool
before a b = is_recurrent a && not (is_recurrent b)

insert_sorted : HourPreferenceData → List HourPreferenceData → List HourPreferenceData
insert_sorted x [] = x ∷ []
insert_sorted x (y ∷ ys) =
    let rest = insert_sorted x ys in if before y x then y ∷ rest else x ∷ y ∷ ys

unfoldable pub sorted : List HourPreferenceData → List HourPreferenceData
unfolding insert_sorted
sorted [] = []
sorted (x ∷ xs) = insert_sorted x (sorted xs)

abbrev pub covered : (get_utc_day : ℕ → ℕ) → List HourPreferenceData → HourPreferenceData → Bool
covered day valid p = elim p.date [
  | none ↦ false
  | some v ↦ has (is_recurrent_at (day v) p.time_period) valid
]

-- Whether a preference is skipped, given those that were kept so far.
abbrev pub skipped : (get_utc_day : ℕ → ℕ) → List HourPreferenceData → HourPreferenceData → Bool
skipped day valid p =
    if is_recurrent p
    then has (is_recurrent_at p.day_of_week p.time_period) valid
    else covered day valid p || has (is_one_time_at p.date p.time_period) valid

-- The loop, with the preferences kept so far.
unfoldable pub keep_valid :
    (get_utc_day : ℕ → ℕ) → (valid rest : List HourPreferenceData) → List HourPreferenceData
keep_valid day valid [] = valid
keep_valid day valid (p ∷ ps) =
    keep_valid day (if skipped day valid p then valid else valid ++ (p ∷ [])) ps

unfoldable pub validate_hour_preferences :
    (get_utc_day : ℕ → ℕ) → List HourPreferenceData → List HourPreferenceData
unfolding keep_valid sorted
validate_hour_preferences day ps = keep_valid day [] (sorted ps)

-- The date that is stored: `midnight` is `setHours(0, 0, 0, 0)`.
abbrev pub stored_date : (midnight : ℕ → ℕ) → HourPreferenceData → Option ℕ
stored_date midnight p = elim p.date [
  | none ↦ none
  | some v ↦ some (if is_recurrent p then midnight v else v)
]

abbrev pub hour_row : (midnight : ℕ → ℕ) → (user_uid : ℕ) → HourPreferenceData → UserHourPreference
hour_row midnight u p = record {
  kind = p.kind;
  user_uid = u;
  day_of_week = p.day_of_week;
  time_period = p.time_period;
  date = stored_date midnight p;
}

-- A sport with its level and game modes.
pub record CreateSportPreferenceData : Type 0 where
  pub sport : Sport
  pub level : ℕ
  pub game_modes : List GameModes

abbrev pub is_hour_of : ℕ → UserHourPreference → Bool
is_hour_of u p = p.user_uid == u

abbrev pub is_sport_of : ℕ → UserSportPreference → Bool
is_sport_of u p = p.user_uid == u

abbrev pub is_game_mode_of : ℕ → UserGameModePreference → Bool
is_game_mode_of u p = p.user_uid == u

-- `uniqueSports.size !== sports.length`
abbrev pub has_twice : List CreateSportPreferenceData → Bool
has_twice [] = false
has_twice (p ∷ ps) =
    let rest = has_twice ps in
    has (λ (q : CreateSportPreferenceData). is_sport q.sport p.sport) ps || rest

module _ ⦃client : Client⦄ where
  unfoldable pub clear_hour_preferences : (user_uid : ℕ) → Action (Unit {0})
  clear_hour_preferences u = modify λ w. record w {
    preferences = record w.preferences {
      hour_preferences = client.delete_many (is_hour_of u) w.preferences.hour_preferences;
    };
  }

  unfoldable pub create_hours :
      (midnight : ℕ → ℕ) → (user_uid : ℕ) → List HourPreferenceData → Action (Unit {0})
  create_hours midnight u [] = pure tt
  create_hours midnight u (p ∷ ps) = do
    raise_if (is_none (← gets (find_user u))) foreign_key_violation
    modify (λ w. record w {
      preferences = record w.preferences {
        hour_preferences = client.insert (hour_row midnight u p) w.preferences.hour_preferences;
      };
    })
    create_hours midnight u ps

  unfoldable pub create_hour_preferences :
      (get_utc_day midnight : ℕ → ℕ) → (user_uid : ℕ) → List HourPreferenceData → Action (Unit {0})
  create_hour_preferences day midnight u ps = do
    clear_hour_preferences u
    transaction (create_hours midnight u (validate_hour_preferences day ps))

  unfoldable pub clear_sport_preferences : (user_uid : ℕ) → Action (Unit {0})
  clear_sport_preferences u = do
    modify (λ w. record w {
      preferences = record w.preferences {
        sport_preferences = client.delete_many (is_sport_of u) w.preferences.sport_preferences;
        game_mode_preferences =
            client.delete_many (is_game_mode_of u) w.preferences.game_mode_preferences;
      };
    })

  abbrev is_row : (user_uid : ℕ) → Sport → GameModes → UserGameModePreference → Bool
  is_row u s g r = r.user_uid == u && is_sport r.sport s && r.game_mode is_mode g

  create_game_modes : (user_uid : ℕ) → Sport → List GameModes → Action (Unit {0})
  create_game_modes u s [] = pure tt
  create_game_modes u s (g ∷ gs) = do
    raise_if (← gets (λ w. has (is_row u s g) w.preferences.game_mode_preferences)) unique_violation
    modify (λ w. record w {
      preferences = record w.preferences {
        game_mode_preferences =
            client.insert (record { user_uid = u; sport = s; game_mode = g })
              w.preferences.game_mode_preferences;
      };
    })
    create_game_modes u s gs

  create_sports : (user_uid : ℕ) → List CreateSportPreferenceData → Action (Unit {0})
  create_sports u [] = pure tt
  create_sports u (p ∷ ps) = do
    raise_if
        (← gets (λ w.
          has (λ (r : UserSportPreference). r.user_uid == u && is_sport r.sport p.sport)
            w.preferences.sport_preferences))
        unique_violation
    raise_if (is_none (← gets (find_user u))) foreign_key_violation
    modify (λ w. record w {
      preferences = record w.preferences {
        sport_preferences =
            client.insert (record { user_uid = u; sport = p.sport; level = p.level })
              w.preferences.sport_preferences;
      };
    })
    create_game_modes u p.sport p.game_modes
    create_sports u ps

  unfoldable pub create_many_with_game_modes :
      List CreateSportPreferenceData → (user_uid : ℕ) → Action (Unit {0})
  unfolding create_sports create_game_modes
  create_many_with_game_modes ps u = do
    clear_sport_preferences u
    raise_if (has_twice ps) (bad_request duplicate_preference)
    transaction (create_sports u ps)
