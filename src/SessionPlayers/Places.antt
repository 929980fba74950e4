-- ===== src/SessionPlayers/Places.antt =====
-- One place for each user in a session, and no more players in a team than the session allows.
use ludora_back.Prelude.{
  ℕ, ◌≡◌, ◌≤◌, ◌<◌, ◌⊎◌, inl, inr, true, some, List, arith, count, count-le, ==_iff,
}
use ludora_back.World.{
  Client, Session, SessionPlayer, Conversation, World, ok, err, Refuses, type_error,
  find_first-eq_none, count-delete_many-le, count-delete_many_self,
}
use ludora_back.ConversationMembers.{is_member, delete_member}
use ludora_back.SessionPlayers.{
  CreateSessionPlayerDto, is_player, in_team, new_player, join_session, find_conversation,
  delete_player, leave_session, is_conversation_of,
}
use ludora_back.SessionPlayers.Join.{join_session_cases}

-- `cap` gives each team the number of players that its session allows.
pub record IsValid (cap : ℕ → ℕ) (t : List SessionPlayer) : Type 0 where
  pub once : (s u : ℕ) → count (is_player s u) t ≤ 1
  pub room : (k : ℕ) → count (in_team k) t ≤ cap k

module _ ⦃client : Client⦄ where
  insert-IsValid :
      (cap : ℕ → ℕ) (uid : ℕ) (dto : CreateSessionPlayerDto) (t : List SessionPlayer)
      → IsValid cap t
      → count (is_player dto.session_uid dto.user_uid) t ≡ 0
      → count (in_team dto.team_uid) t < cap dto.team_uid
      → IsValid cap (client.insert (new_player uid dto) t)
  insert-IsValid cap uid dto t v absent free = record {
    once = λ s u. ground (
      arith,
      v.once s u,
      client.count-insert (new_player uid dto) (is_player s u) t,
      λ (h : is_player s u (new_player uid dto) ≡ true).
          count-le (is_player s u) (is_player dto.session_uid dto.user_uid) t λ p k. ground arith,
    );
    room = λ k. ground (
      arith,
      v.room k,
      client.count-insert (new_player uid dto) (in_team k) t,
      λ (h : in_team k (new_player uid dto) ≡ true).
          count-le (in_team k) (in_team dto.team_uid) t λ p e. ground arith,
      λ (h : in_team k (new_player uid dto) ≡ true). (==_iff dto.team_uid k).0 h,
    );
  }

  -- Given that the limit of the team joined is not below the session's, joining keeps every user
  -- to one place in a session and every team within its limit, also when the call fails after the
  -- player was written.
  pub join_session-IsValid :
      (cap : ℕ → ℕ) (uid : ℕ) (dto : CreateSessionPlayerDto) (session : Session) (w : World)
      → session.max_players_per_team ≤ cap dto.team_uid
      → IsValid cap w.session_players
      → IsValid cap (join_session uid dto session w).1.session_players
  join_session-IsValid cap uid dto session w fits v = elim (join_session_cases uid dto session w) [
    | inl (failed, same) ↦ rw same v
    | inr (e, table, absent) ↦
        rw table (insert-IsValid cap uid dto w.session_players v absent (omega (arith, e.room)))
  ]

  leave_session_cases :
      (session : Session) (u now : ℕ) (w : World)
      → Refuses w (leave_session session u now w)
        ⊎ ((leave_session session u now w).1.session_players
            ≡ client.delete_many (is_player session.uid u) w.session_players)
  unfolding leave_session delete_player delete_member
  leave_session_cases session u now w = ground arith

  -- Leaving keeps every user to one place in a session and every team within its limit, also when
  -- the call fails halfway.
  pub leave_session-IsValid :
      (cap : ℕ → ℕ) (session : Session) (u now : ℕ) (w : World)
      → IsValid cap w.session_players
      → IsValid cap (leave_session session u now w).1.session_players
  leave_session-IsValid cap session u now w v = elim (leave_session_cases session u now w) [
    | inl (failed, same) ↦ rw same v
    | inr table ↦ rw table (record {
      once = λ s x. omega (
        arith,
        v.once s x,
        count-delete_many-le (is_player session.uid u) (is_player s x) w.session_players,
      );
      room = λ k. omega (
        arith,
        v.room k,
        count-delete_many-le (is_player session.uid u) (in_team k) w.session_players,
      );
    })
  ]

  -- Before the session starts a player leaves: the call succeeds if the session has a conversation
  -- and the player is in it, and then the user has neither a place nor a membership.
  pub leave_session_outcome :
      (session : Session) (u now : ℕ) (w : World)
      → now ≤ session.start_date
      → 0 < count (is_player session.uid u) w.session_players
      → (c : Conversation) → find_conversation session.uid w ≡ some c
      → 0 < count (is_member c.uid u) w.conversation_members
      → let (r, w') = leave_session session u now w in
        (r ≡ ok tt)
        × (count (is_player session.uid u) w'.session_players ≡ 0)
        × (count (is_member c.uid u) w'.conversation_members ≡ 0)
  unfolding leave_session delete_player delete_member
  leave_session_outcome session u now w early plays c found member = ground (
    arith,
    client.find_first-none (is_player session.uid u) w.session_players,
    count-delete_many_self (is_player session.uid u) w.session_players,
    count-delete_many_self (is_member c.uid u) w.conversation_members,
  )

  -- Leaving is not one transaction: in a session without conversation the player is deleted, and
  -- then the call throws.
  pub leave_session_torn :
      (session : Session) (u now : ℕ) (w : World)
      → now ≤ session.start_date
      → 0 < count (is_player session.uid u) w.session_players
      → count (is_conversation_of session.uid) w.conversations ≡ 0
      → let (r, w') = leave_session session u now w in
        (r ≡ err type_error) × (count (is_player session.uid u) w'.session_players ≡ 0)
  unfolding leave_session delete_player
  leave_session_torn session u now w early plays silent = ground (
    arith,
    client.find_first-none (is_player session.uid u) w.session_players,
    find_first-eq_none (is_conversation_of session.uid) w.conversations,
    count-delete_many_self (is_player session.uid u) w.session_players,
  )
