-- ===== src/World/ChatRows.antt =====
-- The rows of the social schema for conversations.
use ludora_back.Prelude.{ℕ, String, Bool, true, false, Option}

pub data ConversationType : Type 0 where
  private group session : ConversationType

pub data MessageStatus : Type 0 where
  sent delivered read deleted : MessageStatus

pub data MessageType : Type 0 where
  text image video audio : MessageType

pub record Conversation : Type 0 where
  pub uid : ℕ
  pub session_uid : Option ℕ
  pub kind : ConversationType
  pub updated_at : ℕ

pub record ConversationMember : Type 0 where
  pub conversation_uid : ℕ
  pub user_uid : ℕ
  pub is_archived : Bool
  pub is_muted : Bool
  pub is_visible : Bool
  pub display_messages_after : Option ℕ
  pub last_read_at : Option ℕ

pub record Message : Type 0 where
  pub uid : ℕ
  pub conversation_uid : ℕ
  pub sender_uid : Option ℕ
  pub content : String
  pub global_status : MessageStatus
  pub kind : MessageType
  pub created_at : ℕ

pub record MessageReceipt : Type 0 where
  pub message_uid : ℕ
  pub user_uid : ℕ
  pub status : MessageStatus

-- `===` on the enums.
infix 50 ◌is_message◌ ◌is_conversation◌ ◌is_media◌
abbrev pub ◌is_message◌ : MessageStatus → MessageStatus → Bool
MessageStatus.sent is_message MessageStatus.sent = true
MessageStatus.delivered is_message MessageStatus.delivered = true
MessageStatus.read is_message MessageStatus.read = true
MessageStatus.deleted is_message MessageStatus.deleted = true
_ is_message _ = false

abbrev pub ◌is_conversation◌ : ConversationType → ConversationType → Bool
ConversationType.private is_conversation ConversationType.private = true
ConversationType.group is_conversation ConversationType.group = true
ConversationType.session is_conversation ConversationType.session = true
_ is_conversation _ = false

abbrev pub ◌is_media◌ : MessageType → MessageType → Bool
MessageType.text is_media MessageType.text = true
MessageType.image is_media MessageType.image = true
MessageType.video is_media MessageType.video = true
MessageType.audio is_media MessageType.audio = true
_ is_media _ = false
