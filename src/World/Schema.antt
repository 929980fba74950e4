-- ===== src/World/Schema.antt =====
-- The tables of prisma/schema that the modelled services use, with the columns that they read.
-- Ids (cuids) are numbers, since they are only compared; a date is its number of milliseconds.
use ludora_back.Prelude.{ℕ, String, Bool, true, false, Option, List}
use ludora_back.World.SportRows.{GameModes, Sport}
use ludora_back.World.AccountRows.{User, EmailVerification, UserToken, RefreshToken, Device}
use ludora_back.World.ChatRows.{Conversation, ConversationMember, Message, MessageReceipt}
use ludora_back.World.BillingRows.{Payment, Refund, StripeEventRow, PartnerBillingConfig, Partner}
use ludora_back.World.PreferenceRows.{
  UserHourPreference, UserSportPreference, UserGameModePreference,
}

pub data InvitationStatus : Type 0 where
  pending accepted rejected canceled : InvitationStatus

pub data RatingStatus : Type 0 where
  pending validated refused : RatingStatus

pub data SessionVisibility : Type 0 where
  public private : SessionVisibility

pub data TeamLabels : Type 0 where
  label_a label_b : TeamLabels

pub data FieldType : Type 0 where
  public private : FieldType

pub data ReportReason : Type 0 where
  spam harassment nudity other : ReportReason

-- `===` on the enums.
infix 50 ◌is_status◌ ◌is_rating◌ ◌is_reason◌
abbrev pub ◌is_status◌ : InvitationStatus → InvitationStatus → Bool
InvitationStatus.pending is_status InvitationStatus.pending = true
InvitationStatus.accepted is_status InvitationStatus.accepted = true
InvitationStatus.rejected is_status InvitationStatus.rejected = true
InvitationStatus.canceled is_status InvitationStatus.canceled = true
_ is_status _ = false

abbrev pub ◌is_rating◌ : RatingStatus → RatingStatus → Bool
RatingStatus.pending is_rating RatingStatus.pending = true
RatingStatus.validated is_rating RatingStatus.validated = true
RatingStatus.refused is_rating RatingStatus.refused = true
_ is_rating _ = false

abbrev pub ◌is_reason◌ : ReportReason → ReportReason → Bool
ReportReason.spam is_reason ReportReason.spam = true
ReportReason.harassment is_reason ReportReason.harassment = true
ReportReason.nudity is_reason ReportReason.nudity = true
ReportReason.other is_reason ReportReason.other = true
_ is_reason _ = false

pub record Friend : Type 0 where
  pub user_uid1 : ℕ
  pub user_uid2 : ℕ
  pub status : InvitationStatus
  pub created_at : ℕ
  pub updated_at : ℕ

pub record UserBlock : Type 0 where
  pub blocker_uid : ℕ
  pub blocked_uid : ℕ

pub record UserReport : Type 0 where
  pub reporter_uid : ℕ
  pub reported_uid : ℕ
  pub reason : ReportReason
  pub description : Option String

pub record Session : Type 0 where
  pub uid : ℕ
  pub field_uid : ℕ
  pub slot_uid : Option ℕ
  pub game_mode : GameModes
  pub level : ℕ
  pub description : Option String
  pub teams_per_game : ℕ
  pub min_players_per_team : ℕ
  pub view_count : ℕ
  pub creator_uid : Option ℕ
  pub visibility : SessionVisibility
  pub sport : Sport
  pub title : Option String
  pub start_date : ℕ
  pub end_date : ℕ
  pub max_players_per_team : ℕ

-- `sports` are those of the field's rows in the table that joins fields and sports.
pub record Field : Type 0 where
  pub uid : ℕ
  pub kind : FieldType
  pub partner_uid : Option ℕ
  pub sports : List Sport

pub record FieldSlot : Type 0 where
  pub uid : ℕ
  pub field_uid : ℕ
  pub start_time : ℕ
  pub end_time : ℕ
  pub game_mode : GameModes
  pub price : ℕ
  pub is_reserved : Bool

pub record SessionImage : Type 0 where
  pub session_uid : ℕ
  pub url : String
  pub order : ℕ

pub record SessionTeam : Type 0 where
  pub uid : ℕ
  pub session_uid : ℕ
  pub team_label : TeamLabels
  pub team_name : String

pub record SessionPlayer : Type 0 where
  pub uid : ℕ
  pub session_uid : ℕ
  pub team_uid : ℕ
  pub user_uid : Option ℕ
  pub rating_status : Option RatingStatus

pub record SessionInvitation : Type 0 where
  pub session_uid : ℕ
  pub sender_uid : ℕ
  pub receiver_uid : ℕ
  pub status : InvitationStatus

pub record UserRating : Type 0 where
  pub evaluator_uid : Option ℕ
  pub evaluated_uid : Option ℕ
  pub session_uid : Option ℕ
  pub sport : Sport
  pub note1 : Option ℕ
  pub note2 : Option ℕ
  pub note3 : Option ℕ

-- What `eventEmitter.emit` is given. A name in a text template stays the pair that it joins.
pub record Name : Type 0 where
  pub firstname : Option String
  pub lastname : Option String

pub data Event : Type 0 where
  friend_request : (recipient sender : ℕ) → Name → Event
  friend_accepted : (recipient sender : ℕ) → Name → Event
  session_player_added :
      (creator : Option ℕ) (player session : ℕ) → Name → (avatar : Option String) → Event
  session_invitation : (sender : User) → Session → (recipient : ℕ) → Event
  new_message : (conversation sender : ℕ) → Name → (session : Option ℕ) → (content : String) → Event
  message_deleted : (conversation message user : ℕ) → (session : Option ℕ) → Event
  mark_messages_as_read : (conversation user : ℕ) → Event
  email_verified : (user : ℕ) → Event
  mail : (recipient : Option String) → (template : String) → Event

-- The tables of four schemas; the other tables stand in the world itself.
pub record AuthTables : Type 0 where
  pub email_verifications : List EmailVerification
  pub user_tokens : List UserToken
  pub refresh_tokens : List RefreshToken
  pub devices : List Device

pub record ChatTables : Type 0 where
  pub messages : List Message
  pub message_receipts : List MessageReceipt

pub record BillingTables : Type 0 where
  pub payments : List Payment
  pub refunds : List Refund
  pub stripe_events : List StripeEventRow
  pub billing_configs : List PartnerBillingConfig
  pub partners : List Partner

pub record PreferenceTables : Type 0 where
  pub hour_preferences : List UserHourPreference
  pub sport_preferences : List UserSportPreference
  pub game_mode_preferences : List UserGameModePreference

-- The database, and the events emitted so far, the last one first.
pub record World : Type 0 where
  pub users : List User
  pub friends : List Friend
  pub user_blocks : List UserBlock
  pub user_reports : List UserReport
  pub sessions : List Session
  pub fields : List Field
  pub field_slots : List FieldSlot
  pub session_images : List SessionImage
  pub session_teams : List SessionTeam
  pub session_players : List SessionPlayer
  pub session_invitations : List SessionInvitation
  pub conversations : List Conversation
  pub conversation_members : List ConversationMember
  pub user_ratings : List UserRating
  pub auth : AuthTables
  pub chat : ChatTables
  pub billing : BillingTables
  pub preferences : PreferenceTables
  pub events : List Event
