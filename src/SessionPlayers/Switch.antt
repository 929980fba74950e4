-- ===== src/SessionPlayers/Switch.antt =====
-- Changing team within a session.
use ludora_back.Prelude.{ℕ, suc, ◌≡◌, ◌<◌, Bool, ◌&&◌, some, arith, count, count-ext, count-split}
use ludora_back.World.{Client, Session, SessionPlayer, World, ok, find_first-eq_some}
use ludora_back.SessionPlayers.{
  is_player, in_team, is_team_of, switch_player_to_another_team, update_player,
}

abbrev in_new_team : ℕ → SessionPlayer → SessionPlayer
in_new_team t p = record p { team_uid = t }

module _ ⦃client : Client⦄ where
  module _ (session : Session) (u t : ℕ) (w : World) where
    abbrev moves : SessionPlayer → Bool
    moves = is_player session.uid u

    -- The user has a place in the session, and none in the team.
    abbrev pub IsElsewhere : Type 0
    IsElsewhere =
        (count moves w.session_players ≡ 1)
        × (count (λ p. moves p && in_team t p) w.session_players ≡ 0)

    switched_at :
        0 < count (is_team_of session.uid t) w.session_teams
        → IsElsewhere
        → (e : SessionPlayer) → client.find_first moves w.session_players ≡ some e
        → let (r, w') = switch_player_to_another_team session u t w in
          (r ≡ ok tt)
          × (w'.session_players ≡ client.update_many moves (in_new_team t) w.session_players)
    unfolding switch_player_to_another_team update_player
    switched_at known (one, elsewhere) e f = ground (
      arith,
      client.find_first-none (is_team_of session.uid t) w.session_teams,
      client.find_first-some moves w.session_players e,
      client.find_first-mem moves w.session_players e (λ p. moves p && in_team t p) f,
    )

    switched :
        0 < count (is_team_of session.uid t) w.session_teams
        → IsElsewhere
        → let (r, w') = switch_player_to_another_team session u t w in
          (r ≡ ok tt)
          × (w'.session_players ≡ client.update_many moves (in_new_team t) w.session_players)
    switched known (one, elsewhere) =
        let (e, f) = find_first-eq_some moves w.session_players (omega arith) in
        switched_at known (one, elsewhere) e f

    -- The number of players of the new team, and of the user's places, after the move.
    moved_counts :
        IsElsewhere
        → let moved = client.update_many moves (in_new_team t) w.session_players in
          (count (in_team t) moved ≡ suc (count (in_team t) w.session_players))
          × (count moves moved ≡ 1)
    moved_counts (one, elsewhere) = (
      omega (
        arith,
        client.count-update_many moves (in_new_team t) (in_team t) w.session_players,
        count-split moves (in_team t) w.session_players,
        count-ext (λ p. moves p && in_team t (in_new_team t p)) moves w.session_players
            (λ p. ground arith),
        one,
        elsewhere,
      ),
      omega (
        arith,
        client.count-update_many moves (in_new_team t) moves w.session_players,
        count-split moves moves w.session_players,
        one,
      ),
    )

    -- A player of the session moves to any other team of the session: the call succeeds, the user
    -- keeps one place, and the new team has one more player, whatever its size was before.
    pub switch_player_to_another_team_outcome :
        0 < count (is_team_of session.uid t) w.session_teams
        → IsElsewhere
        → let (r, w') = switch_player_to_another_team session u t w in
          (r ≡ ok tt)
          × (count moves w'.session_players ≡ 1)
          × (count (in_team t) w'.session_players ≡ suc (count (in_team t) w.session_players))
    switch_player_to_another_team_outcome known away =
        let (done, table) = switched known away in
        let (more, place) = moved_counts away in (done, rw table place, rw table more)

    -- A switch does not look at the size of the team, as joining does: into a full team it
    -- succeeds, and the team then has more players than the session allows.
    pub switch_player_to_another_team_overfills :
        0 < count (is_team_of session.uid t) w.session_teams
        → IsElsewhere
        → count (in_team t) w.session_players ≡ session.max_players_per_team
        → let (r, w') = switch_player_to_another_team session u t w in
          (r ≡ ok tt) × (session.max_players_per_team < count (in_team t) w'.session_players)
    switch_player_to_another_team_overfills known away full =
        let (done, place, more) = switch_player_to_another_team_outcome known away in
        (done, omega (arith, more, full))
