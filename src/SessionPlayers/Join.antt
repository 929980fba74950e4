-- ===== src/SessionPlayers/Join.antt =====
-- Joining and leaving a session.
use ludora_back.Prelude.{
  ℕ, suc, ◌≡◌, ◌<◌, ◌⊎◌, inl, inr, Bool, true, false, not, ◌&&◌, ◌==◌, Option, some, arith, count,
  holds,
}
use ludora_back.World.{
  Client, User, Session, SessionTeam, Conversation, World, ok, is_ok, is_some, Refuses, has,
}
use ludora_back.Users.{find_user}
use ludora_back.ConversationMembers
use ludora_back.ConversationMembers.{is_member, delete_member}
use ludora_back.SessionPlayers.{
  CreateSessionPlayerDto, is_player, in_team, new_player, create_player, welcome,
  add_player_to_session, join_session, find_conversation, is_conversation_of,
}
use ludora_back.SessionPlayers.Eligibility.{
  IsEligible, is_left, verify_player_eligibility_before_join_iff,
}

module _ ⦃client : Client⦄ where
  abbrev pub with_player : ℕ → CreateSessionPlayerDto → World → World
  with_player uid dto w = record w {
    session_players = client.insert (new_player uid dto) w.session_players;
  }

  -- The tables that a new player's row refers to hold the session, the team and the user.
  abbrev pub is_known : CreateSessionPlayerDto → World → Bool
  is_known dto w =
      has (λ (s : Session). s.uid == dto.session_uid) w.sessions
      && has (λ (t : SessionTeam). t.uid == dto.team_uid) w.session_teams
      && is_some (find_user dto.user_uid w)

  pub create_player_lem :
      (uid : ℕ) (dto : CreateSessionPlayerDto) (w : World)
      → (is_ok (create_player uid dto w).0 ≡ (
          not (has (is_player dto.session_uid dto.user_uid) w.session_players) && is_known dto w))
        × (Refuses w (create_player uid dto w)
            ⊎ (is_ok (create_player uid dto w).0 ≡ true)
              × ((create_player uid dto w).1 ≡ with_player uid dto w))
  unfolding create_player
  create_player_lem uid dto w = ground arith

  member_players :
      (c u : ℕ) (w : World)
      → (ConversationMembers.create c u w).1.session_players ≡ w.session_players
  unfolding ConversationMembers.create
  member_players c u w = ground arith

  welcome_players :
      (dto : CreateSessionPlayerDto) (creator : Option ℕ) (user : User) (w : World)
      → (welcome dto creator user w).1.session_players ≡ w.session_players
  unfolding welcome ConversationMembers.create
  welcome_players dto creator user w = ground arith

  -- The table of players after a call that may add one: as before, or with a user's first row.
  abbrev pub Adds : ℕ → CreateSessionPlayerDto → World → World → Type 0
  Adds uid dto w w' =
      (w'.session_players ≡ w.session_players)
      ⊎ ((w'.session_players ≡ client.insert (new_player uid dto) w.session_players)
          × (count (is_player dto.session_uid dto.user_uid) w.session_players ≡ 0))

  pub add_player_to_session-Adds :
      (uid : ℕ) (dto : CreateSessionPlayerDto) (creator : Option ℕ) (w : World)
      → Adds uid dto w (add_player_to_session uid dto creator w).1
  unfolding add_player_to_session welcome ConversationMembers.create create_player
  add_player_to_session-Adds uid dto creator w = ground arith

  pub join_session_cases :
      (uid : ℕ) (dto : CreateSessionPlayerDto) (session : Session) (w : World)
      → Refuses w (join_session uid dto session w)
        ⊎ (IsEligible dto.user_uid dto.team_uid session w
            × ((join_session uid dto session w).1.session_players
                ≡ client.insert (new_player uid dto) w.session_players)
            × (count (is_player dto.session_uid dto.user_uid) w.session_players ≡ 0))
  unfolding join_session welcome ConversationMembers.create
  join_session_cases uid dto session w =
      let (same, pass) =
        verify_player_eligibility_before_join_iff dto.user_uid dto.team_uid session w in
      ground (arith, same, pass.0, create_player_lem uid dto w)

  -- Once a deleted user has left a place of the session behind, nobody can join the session any
  -- more: every call is refused, and writes nothing.
  pub join_session_stuck :
      (uid : ℕ) (dto : CreateSessionPlayerDto) (session : Session) (w : World)
      → 0 < count (is_left session.uid) w.session_players
      → Refuses w (join_session uid dto session w)
  join_session_stuck uid dto session w left = elim (join_session_cases uid dto session w) [
    | inl refused ↦ refused
    | inr (e, _, _) ↦ absurd (omega (arith, left, e.no_deleted))
  ]

  -- An eligible user who is not the creator, is known, and is not in the session's conversation
  -- yet, joins, where the session has a conversation and the tables have the session and the team
  -- that the request names: the call returns the conversation, and the user then has one place in the session,
  -- the team one more player, and the conversation the user as a member.
  pub join_session_succeeds :
      (uid : ℕ) (dto : CreateSessionPlayerDto) (session : Session) (w : World)
      → IsEligible dto.user_uid dto.team_uid session w
      → dto.session_uid ≡ session.uid
      → is_known dto w ≡ true
      → holds session.creator_uid dto.user_uid ≡ false
      → (c : Conversation) → find_conversation session.uid w ≡ some c
      → count (is_member c.uid dto.user_uid) w.conversation_members ≡ 0
      → let (r, w') = join_session uid dto session w in
        (r ≡ ok (record { conversation_uid = c.uid; session_uid = session.uid }))
        × (count (is_player session.uid dto.user_uid) w'.session_players ≡ 1)
        × (count (in_team dto.team_uid) w'.session_players
            ≡ suc (count (in_team dto.team_uid) w.session_players))
        × (count (is_member c.uid dto.user_uid) w'.conversation_members ≡ 1)
  unfolding join_session welcome ConversationMembers.create create_player
  join_session_succeeds uid dto session w e own known other c found outside =
      let (same, pass) =
        verify_player_eligibility_before_join_iff dto.user_uid dto.team_uid session w in
      ground (
        arith,
        same,
        pass.1 e,
        e.absent,
        client.find_first-mem (is_conversation_of session.uid) w.conversations c
            (λ (k : Conversation). k.uid == c.uid) found,
        client.count-insert (new_player uid dto) (is_player session.uid dto.user_uid)
            w.session_players,
        client.count-insert (new_player uid dto) (in_team dto.team_uid) w.session_players,
        client.count-insert (ConversationMembers.new_member c.uid dto.user_uid)
            (is_member c.uid dto.user_uid) w.conversation_members,
      )
