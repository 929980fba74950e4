-- ===== src/World/PreferenceRows.antt =====
-- The rows of the user_preferences schema.
use ludora_back.Prelude.{ℕ, Bool, true, false, Option}
use ludora_back.World.SportRows.{Sport, GameModes}

pub data UserHourPreferenceType : Type 0 where
  recurrent one_time : UserHourPreferenceType

pub data TimePeriod : Type 0 where
  morning afternoon evening : TimePeriod

pub record UserHourPreference : Type 0 where
  pub kind : UserHourPreferenceType
  pub user_uid : ℕ
  pub day_of_week : ℕ
  pub time_period : TimePeriod
  pub date : Option ℕ

pub record UserSportPreference : Type 0 where
  pub user_uid : ℕ
  pub sport : Sport
  pub level : ℕ

pub record UserGameModePreference : Type 0 where
  pub user_uid : ℕ
  pub sport : Sport
  pub game_mode : GameModes

-- `===` on the enums.
infix 50 ◌is_hour◌ ◌is_period◌
abbrev pub ◌is_hour◌ : UserHourPreferenceType → UserHourPreferenceType → Bool
UserHourPreferenceType.recurrent is_hour UserHourPreferenceType.recurrent = true
UserHourPreferenceType.one_time is_hour UserHourPreferenceType.one_time = true
_ is_hour _ = false

abbrev pub ◌is_period◌ : TimePeriod → TimePeriod → Bool
TimePeriod.morning is_period TimePeriod.morning = true
TimePeriod.afternoon is_period TimePeriod.afternoon = true
TimePeriod.evening is_period TimePeriod.evening = true
_ is_period _ = false
