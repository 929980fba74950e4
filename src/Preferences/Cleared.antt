-- ===== src/Preferences/Cleared.antt =====
-- What a refused submission leaves.
use ludora_back.Prelude.{ℕ, ◌≡◌, true, List, arith, count}
use ludora_back.World.{
  Client, World, err, bad_request, duplicate_preference, count-delete_many_self,
}
use ludora_back.Preferences.{
  CreateSportPreferenceData, is_sport_of, is_game_mode_of, has_twice, clear_sport_preferences,
  create_many_with_game_modes,
}

module _ ⦃client : Client⦄ where
  -- The old preferences are cleared before the new ones are checked: a submission with a sport
  -- twice is refused, and leaves the user without sport and game mode preferences.
  create_many_with_game_modes-loses :
      (ps : List CreateSportPreferenceData) (u : ℕ) (w : World)
      → has_twice ps ≡ true
      → let (r, w') = create_many_with_game_modes ps u w in
        (r ≡ err (bad_request duplicate_preference))
        × (count (is_sport_of u) w'.preferences.sport_preferences ≡ 0)
        × (count (is_game_mode_of u) w'.preferences.game_mode_preferences ≡ 0)
  unfolding create_many_with_game_modes clear_sport_preferences
  create_many_with_game_modes-loses ps u w twice = ground (
    arith,
    twice,
    count-delete_many_self (is_sport_of u) w.preferences.sport_preferences,
    count-delete_many_self (is_game_mode_of u) w.preferences.game_mode_preferences,
  )
