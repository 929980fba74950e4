-- ===== src/SessionCreation/Furnish.antt =====
-- The transaction of a new session after the session's row.
use ludora_back.Prelude.{ℕ, String, ◌≡◌, ◌<◌, true, ◌==◌, some, List, arith, count}
use ludora_back.World.{Client, Session, SessionTeam, Conversation, World, ok, is_some, has}
use ludora_back.Users.{find_user}
use ludora_back.ConversationMembers.{is_member, new_member}
use ludora_back.SessionPlayers.{CreateSessionPlayerDto, is_player, new_player, is_conversation_of}
use ludora_back.SessionPlayers.Join.{with_player}
use ludora_back.SessionCreation.{
  session_conversation, CreateSessionDto, NewIds, Outside, team_a_name_of, team_b_name_of,
  add_creator, furnish_teams, furnish,
}
use ludora_back.SessionCreation.Teams.{
  team_in, with_teams, create_default_teams_lem, with_teams-count, team_found, creator_added,
  create_session_conversation_lem, SameButImages, add_optional_images_lem,
}

module _ ⦃client : Client⦄ where
  -- The session has its row, two teams, its creator in one place, and the creator in its
  -- conversation.
  pub record IsComplete (s c u : ℕ) (w : World) : Type 0 where
    pub row : 0 < count (λ (x : Session). x.uid == s) w.sessions
    pub teams : count (team_in s) w.session_teams ≡ 2
    pub place : count (is_player s u) w.session_players ≡ 1
    pub conversation : count (is_conversation_of s) w.conversations ≡ 1
    pub member : count (is_member c u) w.conversation_members ≡ 1

  module _ (outside : Outside) (ids : NewIds) (session : Session) (dto : CreateSessionDto)
      (w : World) (mine : session.creator_uid ≡ some dto.user_uid)
      (row : has (λ (s : Session). s.uid == session.uid) w.sessions ≡ true)
      (user : is_some (find_user dto.user_uid w) ≡ true)
      (uploads : (image : String) → is_some (outside.upload image) ≡ true)
      (no_team : count (team_in session.uid) w.session_teams ≡ 0)
      (no_player : count (is_player session.uid dto.user_uid) w.session_players ≡ 0)
      (no_conversation : count (is_conversation_of session.uid) w.conversations ≡ 0)
      (no_member : count (is_member ids.conversation dto.user_uid) w.conversation_members ≡ 0) where
    abbrev pub teams_now : List SessionTeam
    teams_now = with_teams ids session.uid (team_a_name_of dto) (team_b_name_of dto) w.session_teams

    abbrev pub entry : SessionTeam → CreateSessionPlayerDto
    entry team = record { team_uid = team.uid; user_uid = dto.user_uid; session_uid = session.uid }

    abbrev pub talk : Conversation
    talk = session_conversation ids.conversation session.uid outside.now

    abbrev pub settled : SessionTeam → World
    settled team = record w {
      session_teams = teams_now;
      session_players = client.insert (new_player ids.player (entry team)) w.session_players;
      conversations = client.insert talk w.conversations;
      conversation_members =
          client.insert (new_member ids.conversation dto.user_uid) w.conversation_members;
    }

    pub settled-IsComplete :
        (team : SessionTeam) → IsComplete session.uid ids.conversation dto.user_uid (settled team)
    settled-IsComplete team = record {
      row = ground (arith, row);
      teams =
          with_teams-count ids session.uid (team_a_name_of dto) (team_b_name_of dto) w.session_teams
            no_team;
      place = ground (
        arith,
        client.count-insert (new_player ids.player (entry team))
            (is_player session.uid dto.user_uid) w.session_players,
        no_player,
      );
      conversation = ground (
        arith,
        client.count-insert talk (is_conversation_of session.uid) w.conversations,
        no_conversation,
      );
      member = ground (
        arith,
        client.count-insert (new_member ids.conversation dto.user_uid)
            (is_member ids.conversation dto.user_uid) w.conversation_members,
        no_member,
      );
    }

    pub furnish_settles :
        (team : SessionTeam) × ((furnish outside ids session dto w).0 ≡ ok tt)
        × SameButImages (settled team) (furnish outside ids session dto w).1
    unfolding furnish furnish_teams add_creator
    furnish_settles =
        let (team, named, known) =
          team_found ids session.uid (team_a_name_of dto) (team_b_name_of dto) w.session_teams in
        let w2 : World = record w { session_teams = teams_now } in
        let made =
          create_default_teams_lem ids session.uid (team_a_name_of dto) (team_b_name_of dto) w
            no_team in
        let added =
          creator_added ids.player (entry team) w2 no_player row (ground (arith, known)) user in
        let talked =
          create_session_conversation_lem ids.conversation session.uid dto.user_uid outside.now
            (with_player ids.player (entry team) w2) no_conversation no_member user in
        let (stored, rest) =
          add_optional_images_lem outside.upload uploads session.uid dto.images (settled team) in
        (
          team,
          ground (arith, made, named, added, mine, talked, stored),
          ground (arith, made, named, added, mine, talked, stored, rest),
        )
