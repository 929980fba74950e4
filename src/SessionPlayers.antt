-- ===== src/SessionPlayers.antt =====
-- sessions/services/session-players.service.ts: who plays in a session, and in which team.
pub mod Eligibility
pub mod Join
pub mod Places
pub mod Switch
pub mod Rating
use ludora_back.Prelude.{
  ℕ, Bool, true, false, not, ◌&&◌, ◌||◌, ◌==◌, ltb, leb, Option, none, some, List, [], ◌∷◌, ◌++◌,
  map, if◌then◌else◌, count, holds, elem, length,
}
use ludora_back.World.{
  Client, User, UserBlock, Session, SessionTeam, SessionPlayer, SessionVisibility, RatingStatus,
  ◌is_rating◌, Conversation, World, session_player_added, session_started, not_a_player,
  team_not_found, player_not_found, already_on_team, not_a_friend, team_full, already_in_session,
  blocked_relationship, cannot_unvalidate, session_not_found, bad_request, not_found, forbidden,
  unique_violation, foreign_key_violation, record_not_found, validation_error, type_error, Action,
  pure, gets, or_raise, ◌>>=◌, ◌>>◌, raise_if, modify, emit, when, has, is_some, is_none,
}
use ludora_back.Users.{find_user}
use ludora_back.Friends.{is_accepted, name_of}
use ludora_back.ConversationMembers
use ludora_back.ConversationMembers.{delete_member}

pub record CreateSessionPlayerDto : Type 0 where
  pub team_uid : ℕ
  pub user_uid : ℕ
  pub session_uid : ℕ

pub record JoinSessionResponseData : Type 0 where
  pub conversation_uid : ℕ
  pub session_uid : ℕ

abbrev pub is_player : ℕ → ℕ → SessionPlayer → Bool
is_player s u p = p.session_uid == s && holds p.user_uid u

abbrev pub in_session : ℕ → SessionPlayer → Bool
in_session s p = p.session_uid == s

-- The relation `sessionPlayers` of a team, which `_count` counts.
abbrev pub in_team : ℕ → SessionPlayer → Bool
in_team t p = p.team_uid == t

abbrev pub is_team_of : ℕ → ℕ → SessionTeam → Bool
is_team_of s t team = team.uid == t && team.session_uid == s

-- `x: { in: uids }` on a column that is never null.
abbrev pub is_in : List (Option ℕ) → ℕ → Bool
is_in [] x = false
is_in (o ∷ os) x = holds o x || is_in os x

-- Prisma refuses such a query when its list has a null.
abbrev pub has_null : List (Option ℕ) → Bool
has_null [] = false
has_null (o ∷ os) = is_none o || has_null os

abbrev pub is_block_with : List (Option ℕ) → ℕ → UserBlock → Bool
is_block_with uids u k =
    (is_in uids k.blocked_uid && k.blocker_uid == u)
    || (k.blocked_uid == u && is_in uids k.blocker_uid)

abbrev pub is_conversation_of : ℕ → Conversation → Bool
is_conversation_of s c = holds c.session_uid s

-- A rating that is validated stays so, and a refused one does not become pending again.
unfoldable pub is_downgrade : RatingStatus → RatingStatus → Bool
is_downgrade current status =
    (current is_rating RatingStatus.validated && status is_rating RatingStatus.pending)
    || (current is_rating RatingStatus.validated && status is_rating RatingStatus.refused)
    || (current is_rating RatingStatus.refused && status is_rating RatingStatus.pending)

-- `player.ratingStatus === status`, and the comparison of what was not rated yet.
abbrev pub is_rated : Option RatingStatus → RatingStatus → Bool
is_rated none status = false
is_rated (some current) status = current is_rating status

abbrev pub is_downgrade_of : Option RatingStatus → RatingStatus → Bool
is_downgrade_of none status = false
is_downgrade_of (some current) status = is_downgrade current status

abbrev pub new_player : ℕ → CreateSessionPlayerDto → SessionPlayer
new_player uid dto = record {
  uid = uid;
  session_uid = dto.session_uid;
  team_uid = dto.team_uid;
  user_uid = some dto.user_uid;
  rating_status = none;
}

module _ ⦃client : Client⦄ where
  abbrev pub find_conversation : ℕ → World → Option Conversation
  find_conversation s w = client.find_first (is_conversation_of s) w.conversations

  -- `prisma.sessionPlayers.create` with the user that it includes: a user plays once in a session,
  -- and the session, the team and the user are rows of their tables. `uid` is the generated id.
  unfoldable pub create_player : ℕ → CreateSessionPlayerDto → Action User
  create_player uid dto = do
    raise_if (← gets (λ w. has (is_player dto.session_uid dto.user_uid) w.session_players))
        unique_violation
    raise_if (not (← gets (λ w. has (λ (s : Session). s.uid == dto.session_uid) w.sessions)))
        foreign_key_violation
    raise_if (not (← gets (λ w. has (λ (t : SessionTeam). t.uid == dto.team_uid) w.session_teams)))
        foreign_key_violation
    user ← or_raise (← gets (find_user dto.user_uid)) foreign_key_violation
    modify
        (λ w. record w { session_players = client.insert (new_player uid dto) w.session_players })
    pure user

  -- The end of both ways into a session: a player who is not the creator joins the conversation,
  -- and the creator is told.
  unfoldable pub welcome : CreateSessionPlayerDto → Option ℕ → User → Action (Unit {0})
  welcome dto creator_uid user = when (not (holds creator_uid dto.user_uid)) do
    conversation ← or_raise (← gets (find_conversation dto.session_uid)) type_error
    ConversationMembers.create conversation.uid dto.user_uid
    emit (
        session_player_added creator_uid dto.user_uid dto.session_uid (name_of user) user.image_url)

  unfoldable pub add_player_to_session :
      ℕ → CreateSessionPlayerDto → (creator_uid : Option ℕ) → Action (Unit {0})
  add_player_to_session uid dto creator_uid = do
    user ← create_player uid dto
    welcome dto creator_uid user

  -- Only friends of the creator join a private session.
  unfoldable pub verify_friendship : ℕ → Session → Action (Unit {0})
  verify_friendship player_uid session =
      when
        (elim session.visibility [
          | SessionVisibility.private ↦ true
          | SessionVisibility.public ↦ false
        ])
        do
          creator_uid ← or_raise session.creator_uid validation_error
          existing_friendship ←
              gets (λ w. client.find_first (is_accepted player_uid creator_uid) w.friends)
          raise_if (is_none existing_friendship) (forbidden not_a_friend)

  -- Nobody joins who has blocked a player, or whom a player has blocked.
  unfoldable pub verify_blocks : ℕ → Session → Action (Unit {0})
  verify_blocks player_uid session = do
    players ← gets (λ w. client.find_many (in_session session.uid) w.session_players)
    let existing_player_uids = map (λ (p : SessionPlayer). p.user_uid) players
    when (ltb 0 (length existing_player_uids)) do
      raise_if (has_null existing_player_uids) validation_error
      block ←
          gets
            (λ w. client.find_first (is_block_with existing_player_uids player_uid) w.user_blocks)
      raise_if (is_some block) (forbidden blocked_relationship)

  unfoldable pub verify_player_eligibility_before_join :
      (player_uid team_uid : ℕ) → Session → Action (Unit {0})
  verify_player_eligibility_before_join player_uid team_uid session = do
    verify_friendship player_uid session
    existing_team ← gets (λ w. client.find_first (is_team_of session.uid team_uid) w.session_teams)
    raise_if (is_none existing_team) (not_found team_not_found)
    players_in_team ← gets (λ w. count (in_team team_uid) w.session_players)
    raise_if (leb session.max_players_per_team players_in_team) (bad_request team_full)
    existing_player ←
        gets (λ w. client.find_first (is_player session.uid player_uid) w.session_players)
    raise_if (is_some existing_player) (bad_request already_in_session)
    verify_blocks player_uid session

  unfoldable pub join_session :
      ℕ → CreateSessionPlayerDto → Session → Action JoinSessionResponseData
  join_session uid dto session = do
    verify_player_eligibility_before_join dto.user_uid dto.team_uid session
    user ← create_player uid dto
    welcome dto session.creator_uid user
    conversation ← or_raise (← gets (find_conversation dto.session_uid)) type_error
    pure (record { conversation_uid = conversation.uid; session_uid = dto.session_uid })

  -- `SessionsPipe`, which hands the routes the session of the id in the request.
  unfoldable pub sessions_pipe : ℕ → Action Session
  sessions_pipe s = do
    or_raise (← gets (λ w. client.find_first (λ r. r.uid == s) w.sessions))
        (not_found session_not_found)

  -- The route `join` of session-players.controller.ts.
  unfoldable pub join_route : ℕ → CreateSessionPlayerDto → Action JoinSessionResponseData
  join_route uid dto = do session ← sessions_pipe dto.session_uid; join_session uid dto session

  unfoldable pub check_if_users_are_players : ℕ → List ℕ → Action Bool
  check_if_users_are_players s user_uids = gets λ w.
      length (
        client.find_many
          (λ p. p.session_uid == s && elim p.user_uid [ none ↦ false | some u ↦ elem u user_uids ])
          w.session_players)
      == length user_uids

  -- `prisma.sessionPlayers.update` of one row by its key.
  unfoldable pub update_player : ℕ → ℕ → (SessionPlayer → SessionPlayer) → Action (Unit {0})
  update_player s u f = do
    raise_if (not (← gets (λ w. has (is_player s u) w.session_players))) record_not_found
    modify
        (λ w. record w { session_players = client.update_many (is_player s u) f w.session_players })

  unfoldable pub delete_player : ℕ → ℕ → Action (Unit {0})
  delete_player s u = do
    raise_if (not (← gets (λ w. has (is_player s u) w.session_players))) record_not_found
    modify
        (λ w. record w { session_players = client.delete_many (is_player s u) w.session_players })

  unfoldable pub leave_session : Session → (user_uid now : ℕ) → Action (Unit {0})
  leave_session session user_uid now = do
    raise_if (ltb session.start_date now) (bad_request session_started)
    player ← gets (λ w. client.find_first (is_player session.uid user_uid) w.session_players)
    raise_if (is_none player) (bad_request not_a_player)
    delete_player session.uid user_uid
    session_conversation ← or_raise (← gets (find_conversation session.uid)) type_error
    delete_member session_conversation.uid user_uid

  unfoldable pub switch_player_to_another_team :
      Session → (user_uid team_uid : ℕ) → Action (Unit {0})
  switch_player_to_another_team session user_uid team_uid = do
    existing_team ← gets (λ w. client.find_first (is_team_of session.uid team_uid) w.session_teams)
    raise_if (is_none existing_team) (bad_request team_not_found)
    existing_player ←
        or_raise
          (← gets (λ w. client.find_first (is_player session.uid user_uid) w.session_players))
          (bad_request player_not_found)
    raise_if (existing_player.team_uid == team_uid) (bad_request already_on_team)
    update_player session.uid user_uid λ p. record p { team_uid = team_uid }

  unfoldable pub update_rating_status :
      (player_uid session_uid : ℕ) → RatingStatus → Action (Unit {0})
  update_rating_status player_uid session_uid status = do
    player ←
        or_raise
          (← gets (λ w. client.find_first (is_player session_uid player_uid) w.session_players))
          (bad_request player_not_found)
    when (not (is_rated player.rating_status status)) do
      raise_if (is_downgrade_of player.rating_status status) (bad_request cannot_unvalidate)
      update_player session_uid player_uid λ p. record p { rating_status = some status }
