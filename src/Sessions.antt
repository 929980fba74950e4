-- ===== src/Sessions.antt =====
-- sessions/services/sessions.service.ts: one session as a user sees it, and the sizes of the teams.
pub mod View
use ludora_back.Prelude.{
  ℕ, ◌+◌, ◌-◌, ◌*◌, Bool, false, not, ◌||◌, ◌==◌, Option, none, some, List, [], ◌∷◌, map,
  if◌then◌else◌, length, take, holds, count,
}
use ludora_back.World.{
  Client, Session, SessionTeam, SessionPlayer, GameModes, World, session_not_found, not_found,
  record_not_found, Action, pure, gets, or_raise, ◌>>=◌, ◌>>◌, raise_if, modify, has, is_some,
  is_none,
}
use ludora_back.SessionPlayers.{in_team}

pub record TeamSizes : Type 0 where
  pub max_players_per_team : ℕ
  pub min_players_per_team : ℕ
  pub teams_per_game : ℕ

abbrev sizes : ℕ → ℕ → TeamSizes
sizes most least = record {
  max_players_per_team = most;
  min_players_per_team = least;
  teams_per_game = 1;
}

unfoldable pub get_players_per_team_data : GameModes → TeamSizes
get_players_per_team_data GameModes.one_v_one = sizes 1 1
get_players_per_team_data GameModes.two_v_two = sizes 2 2
get_players_per_team_data GameModes.three_v_three = sizes 3 3
get_players_per_team_data GameModes.four_v_four = sizes 4 3
get_players_per_team_data GameModes.five_v_five = sizes 5 3
get_players_per_team_data GameModes.six_v_six = sizes 6 4
get_players_per_team_data GameModes.seven_v_seven = sizes 7 5
get_players_per_team_data GameModes.eight_v_eight = sizes 8 5
get_players_per_team_data GameModes.ten_v_ten = sizes 10 7
get_players_per_team_data GameModes.eleven_v_eleven = sizes 11 8

-- `player.userUid === userUid`: without a connected user nobody is the user, since a column that
-- is null is not undefined.
abbrev pub is_user : Option ℕ → SessionPlayer → Bool
is_user none p = false
is_user (some u) p = holds p.user_uid u

-- The player whom `findIndex` finds, and the others.
abbrev pub first_of : (SessionPlayer → Bool) → List SessionPlayer → Option SessionPlayer
first_of q [] = none
first_of q (p ∷ ps) = if q p then some p else first_of q ps

abbrev pub others_of : (SessionPlayer → Bool) → List SessionPlayer → List SessionPlayer
others_of q [] = []
others_of q (p ∷ ps) = if q p then ps else p ∷ others_of q ps

pub record TeamView : Type 0 where
  pub team : SessionTeam
  pub is_joined : Bool
  pub session_players : List SessionPlayer
  pub total_players_in_team : ℕ

-- At most three players are shown, the connected user first.
abbrev pub shown_with :
    Option SessionPlayer → List SessionPlayer → List SessionPlayer → List SessionPlayer
shown_with none players others = take 3 players
shown_with (some p) players others = p ∷ take 2 others

unfoldable pub view_team : Option ℕ → SessionTeam → List SessionPlayer → TeamView
view_team user_uid team players =
    let current = first_of (is_user user_uid) players in
    record {
      team = team;
      is_joined = is_some current;
      session_players = shown_with current players (others_of (is_user user_uid) players);
      total_players_in_team = length players;
    }

abbrev pub sum_players : List TeamView → ℕ
sum_players [] = 0
sum_players (t ∷ ts) = t.total_players_in_team + sum_players ts

abbrev pub any_joined : List TeamView → Bool
any_joined [] = false
any_joined (t ∷ ts) = t.is_joined || any_joined ts

pub record SessionView : Type 0 where
  pub session : Session
  pub creator_sessions_count : ℕ
  pub is_joined : Bool
  pub remaining_players : ℕ
  pub session_teams : List TeamView

-- `Math.max(0, spots - players)` is the subtraction of the natural numbers.
unfoldable pub view_session : Session → ℕ → List TeamView → SessionView
view_session session creator_sessions_count teams = record {
  session = session;
  creator_sessions_count = creator_sessions_count;
  is_joined = any_joined teams;
  remaining_players = session.max_players_per_team * length teams - sum_players teams;
  session_teams = teams;
}

-- `where: { creatorUid }`, which may be null.
abbrev pub has_creator : Option ℕ → Session → Bool
has_creator none s = is_none s.creator_uid
has_creator (some u) s = holds s.creator_uid u

module _ ⦃client : Client⦄ where
  unfoldable pub increment_view_count : ℕ → Action (Unit {0})
  increment_view_count uid = do
    raise_if (not (← gets (λ w. has (λ (s : Session). s.uid == uid) w.sessions))) record_not_found
    modify (λ w. record w {
      sessions =
          client.update_many (λ (s : Session). s.uid == uid)
            (λ s. record s { view_count = s.view_count + 1 }) w.sessions;
    })

  -- The teams of a session, each with its players.
  unfoldable pub view_teams : Option ℕ → ℕ → World → List TeamView
  unfolding view_team
  view_teams user_uid s w =
      map
        (λ (t : SessionTeam).
          view_team user_uid t (client.find_many (in_team t.uid) w.session_players))
        (client.find_many (λ (t : SessionTeam). t.session_uid == s) w.session_teams)

  unfoldable pub find_one : (uid : ℕ) → (user_uid : Option ℕ) → Action SessionView
  unfolding increment_view_count view_session view_teams
  find_one uid user_uid = do
    session ←
        or_raise (← gets (λ w. client.find_first (λ (s : Session). s.uid == uid) w.sessions))
          (not_found session_not_found)
    creator_sessions_count ← gets (λ w. count (has_creator session.creator_uid) w.sessions)
    teams ← gets (view_teams user_uid uid)
    increment_view_count uid
    pure (view_session session creator_sessions_count teams)
