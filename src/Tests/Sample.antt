-- ===== src/Tests/Sample.antt =====
-- A small database for the runs.
use ludora_back.Prelude.{ℕ, [], ◌∷◌, none, true, false}
use ludora_back.World.{
  AuthTables, ChatTables, BillingTables, PreferenceTables, Provider, UserType, User, Friend,
  InvitationStatus, World,
}

abbrev pub user : ℕ → User
user n = record {
  uid = n;
  email = none;
  password = none;
  firstname = none;
  lastname = none;
  image_url = none;
  provider = Provider.ludora;
  is_connected = true;
  is_email_verified = true;
  kind = UserType.user;
  is_anonymized = false;
  deleted_at = none;
  apple_id = none;
  apple_refresh_token = none;
}

abbrev pub no_auth : AuthTables
no_auth = record { email_verifications = []; user_tokens = []; refresh_tokens = []; devices = [] }

abbrev pub no_chat : ChatTables
no_chat = record { messages = []; message_receipts = [] }

abbrev pub no_billing : BillingTables
no_billing = record {
  payments = [];
  refunds = [];
  stripe_events = [];
  billing_configs = [];
  partners = [];
}

abbrev pub no_preferences : PreferenceTables
no_preferences = record {
  hour_preferences = [];
  sport_preferences = [];
  game_mode_preferences = [];
}

abbrev pub row : ℕ → ℕ → InvitationStatus → Friend
row a b status = record {
  user_uid1 = a;
  user_uid2 = b;
  status = status;
  created_at = 0;
  updated_at = 0;
}

-- 1 has asked 2, 2 is a friend of 3, and 4 has refused 1.
abbrev pub sample : World
sample = record {
  users = user 1 ∷ user 2 ∷ user 3 ∷ user 4 ∷ [];
  friends =
      row 1 2 InvitationStatus.pending
      ∷ row 2 3 InvitationStatus.accepted
      ∷ row 1 4 InvitationStatus.rejected
      ∷ [];
  user_blocks = record { blocker_uid = 4; blocked_uid = 2 } ∷ [];
  user_reports = [];
  sessions = [];
  fields = [];
  field_slots = [];
  session_images = [];
  session_teams = [];
  session_players = [];
  session_invitations = [];
  conversations = [];
  conversation_members = [];
  user_ratings = [];
  auth = no_auth;
  chat = no_chat;
  billing = no_billing;
  preferences = no_preferences;
  events = [];
}
