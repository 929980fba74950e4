-- ===== src/World/SportRows.antt =====
-- The sports and the modes in which they are played.
use ludora_back.Prelude.{Bool, true, false}

pub data GameModes : Type 0 where
  one_v_one two_v_two three_v_three four_v_four five_v_five six_v_six : GameModes
  seven_v_seven eight_v_eight ten_v_ten eleven_v_eleven : GameModes

-- shared/constants/constants.ts; the schema keeps the name of a sport.
pub data Sport : Type 0 where
  basketball football padel tennis volleyball ping_pong badminton : Sport

-- `===` on the game modes.
infix 50 ◌is_mode◌
abbrev pub ◌is_mode◌ : GameModes → GameModes → Bool
GameModes.one_v_one is_mode GameModes.one_v_one = true
GameModes.two_v_two is_mode GameModes.two_v_two = true
GameModes.three_v_three is_mode GameModes.three_v_three = true
GameModes.four_v_four is_mode GameModes.four_v_four = true
GameModes.five_v_five is_mode GameModes.five_v_five = true
GameModes.six_v_six is_mode GameModes.six_v_six = true
GameModes.seven_v_seven is_mode GameModes.seven_v_seven = true
GameModes.eight_v_eight is_mode GameModes.eight_v_eight = true
GameModes.ten_v_ten is_mode GameModes.ten_v_ten = true
GameModes.eleven_v_eleven is_mode GameModes.eleven_v_eleven = true
_ is_mode _ = false
