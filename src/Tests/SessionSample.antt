-- ===== src/Tests/SessionSample.antt =====
-- A small database with two sessions.
use ludora_back.Prelude.{ℕ, [], ◌∷◌, none, some}
use ludora_back.World.{
  ConversationType, Session, SessionTeam, SessionPlayer, SessionInvitation, Conversation,
  InvitationStatus, SessionVisibility, GameModes, RatingStatus, TeamLabels, padel, World,
}
use ludora_back.ConversationMembers.{new_member}
use ludora_back.Tests.Sample.{no_auth, no_chat, no_billing, no_preferences, user, row}

abbrev pub session : (uid creator most : ℕ) → SessionVisibility → Session
session uid creator most visibility = record {
  uid = uid;
  field_uid = 90;
  slot_uid = none;
  game_mode = GameModes.two_v_two;
  level = 1;
  description = none;
  teams_per_game = 1;
  min_players_per_team = most;
  view_count = 0;
  creator_uid = some creator;
  visibility = visibility;
  sport = padel;
  title = none;
  start_date = 100;
  end_date = 160;
  max_players_per_team = most;
}

abbrev pub team : ℕ → ℕ → TeamLabels → SessionTeam
team uid s label = record { uid = uid; session_uid = s; team_label = label; team_name = "team" }

abbrev pub player : (uid session team user : ℕ) → SessionPlayer
player uid s t u = record {
  uid = uid;
  session_uid = s;
  team_uid = t;
  user_uid = some u;
  rating_status = some RatingStatus.pending;
}

-- A private session of 1, with room for two in each team.
abbrev pub evening : Session
evening = session 10 1 2 SessionVisibility.private

-- A session of 3, with room for one in each team, and without conversation.
abbrev pub duel : Session
duel = session 11 3 1 SessionVisibility.public

-- 1 invited 2 to the evening.
abbrev pub invitation : SessionInvitation
invitation = record {
  session_uid = 10;
  sender_uid = 1;
  receiver_uid = 2;
  status = InvitationStatus.pending;
}

abbrev pub conversation : Conversation
conversation = record {
  uid = 30;
  session_uid = some 10;
  kind = ConversationType.session;
  updated_at = 0;
}

abbrev pub season : World
season = record {
  users = user 1 ∷ user 2 ∷ user 3 ∷ user 4 ∷ user 5 ∷ [];
  friends = row 1 2 InvitationStatus.accepted ∷ [];
  user_blocks = [];
  user_reports = [];
  sessions = evening ∷ duel ∷ [];
  fields = [];
  field_slots = [];
  session_images = [];
  session_teams =
      team 20 10 TeamLabels.label_a
      ∷ team 21 10 TeamLabels.label_b
      ∷ team 22 11 TeamLabels.label_a
      ∷ team 23 11 TeamLabels.label_b
      ∷ [];
  session_players = player 70 10 20 1 ∷ player 71 11 22 3 ∷ player 72 11 23 4 ∷ [];
  session_invitations = invitation ∷ [];
  conversations = conversation ∷ [];
  conversation_members = new_member 30 1 ∷ [];
  user_ratings = [];
  auth = no_auth;
  chat = no_chat;
  billing = no_billing;
  preferences = no_preferences;
  events = [];
}
