-- ===== src/Conversations.antt =====
-- conversations/services/conversations.service.ts: finding or opening the conversation in which a
-- message is sent, and sending it.
pub mod Abandoned
pub mod Blocks
pub mod Opening
use ludora_back.Prelude.{
  ℕ, String, Bool, true, false, not, ◌&&◌, ◌||◌, ◌==◌, ltb, Option, none, some, List, [], ◌∷◌,
  holds, count,
}
use ludora_back.World.{
  Client, Conversation, ConversationMember, ConversationType, ◌is_conversation◌, Message,
  MessageReceipt, MessageStatus, ◌is_message◌, MessageType, ◌is_media◌, UserBlock, World,
  conversation_not_found, blocked_relationship, not_conversation_member, not_found, forbidden,
  validation_error, internal, Action, pure, gets, or_raise, ◌>>=◌, ◌>>◌, raise_if, modify, when,
  has, is_some, is_none,
}
use ludora_back.Users.{is_block_between}
use ludora_back.ConversationMembers.{is_member, create_many}
use ludora_back.Messages.{
  is_uid, is_from_other, is_other_member, create_text_message, create_media_message,
}

-- A uid that is an empty text counts as missing, and is `none` here.
pub record CreateMessageDto : Type 0 where
  pub content : String
  pub conversation_uid : Option ℕ
  pub recipient_uid : Option ℕ
  pub session_uid : Option ℕ
  pub kind : MessageType

-- What lies outside: the ids of a new conversation and a new message, the clock, and the storage.
pub record Sending : Type 0 where
  pub conversation : ℕ
  pub message : ℕ
  pub now : ℕ
  pub upload : String → Option String

pub record Sent : Type 0 where
  pub conversation_uid : ℕ
  pub message_uid : ℕ

-- The private conversations with both users among the members.
abbrev pub is_private_between : List ConversationMember → (a b : ℕ) → Conversation → Bool
is_private_between t a b k =
    k.kind is_conversation ConversationType.private
    && has (is_member k.uid a) t
    && has (is_member k.uid b) t

abbrev pub is_session_conversation : ℕ → Conversation → Bool
is_session_conversation s k =
    holds k.session_uid s && k.kind is_conversation ConversationType.session

abbrev pub uid_of : Option Conversation → Option ℕ
uid_of none = none
uid_of (some k) = some k.uid

-- `a ?? b ?? c`
abbrev pub first_of : (a b c : Option ℕ) → Option ℕ
first_of (some x) b c = some x
first_of none (some y) c = some y
first_of none none c = c

-- The session that the notification is about.
abbrev pub session_to_notify : Option Conversation → Option ℕ
session_to_notify none = none
session_to_notify (some k) = if_session k.kind k.session_uid
  where
    if_session : ConversationType → Option ℕ → Option ℕ
    if_session ConversationType.session s = s
    if_session _ s = none

abbrev pub is_private : Option Conversation → Bool
is_private none = false
is_private (some k) = k.kind is_conversation ConversationType.private

-- The receipts that `hasUnreadMessages` counts: neither read nor the user's own.
abbrev pub is_unread_anywhere : World → (user_uid : ℕ) → MessageReceipt → Bool
is_unread_anywhere w u r =
    r.user_uid == u
    && not (r.status is_message MessageStatus.read)
    && not (r.status is_message MessageStatus.sent)
    && has
        (λ (m : Message).
          m.uid == r.message_uid
          && is_from_other m.conversation_uid u m
          && has
              (λ (k : ConversationMember).
                is_member m.conversation_uid u k && not k.is_archived && k.is_visible)
              w.conversation_members)
        w.chat.messages

module _ ⦃client : Client⦄ where
  -- `uid` is the id of the new conversation.
  unfoldable pub create_private_conversation : (uid now : ℕ) → (user_uids : List ℕ) → Action ℕ
  create_private_conversation uid now us = do
    modify (λ w. record w {
      conversations =
          client.insert
            (record {
              uid = uid;
              session_uid = none;
              kind = ConversationType.private;
              updated_at = now;
            })
            w.conversations;
    })
    create_many uid us
    pure uid

  unfoldable pub has_unread_messages : (user_uid : ℕ) → Action Bool
  has_unread_messages u = gets λ w. ltb 0 (count (is_unread_anywhere w u) w.chat.message_receipts)

  abbrev pub private_between : (a b : ℕ) → World → Option Conversation
  private_between a b w =
      client.find_first (is_private_between w.conversation_members a b) w.conversations

  unfoldable pub find_by_user_uids : (connected_user_uid other_user_uid : ℕ) → Action (Option ℕ)
  find_by_user_uids a b = gets λ w. uid_of (private_between a b w)

  abbrev pub check_no_block : (user_uid other_uid : ℕ) → Action (Unit {0})
  check_no_block u v = do
    block ← gets (λ w. client.find_first (is_block_between u v) w.user_blocks)
    raise_if (is_some block) (forbidden blocked_relationship)

  -- The conversation of the session, if the message is for one.
  unfoldable pub session_path : Option ℕ → Action (Option ℕ)
  session_path none = pure none
  session_path (some s) = do
    conversation ←
        or_raise (← gets (λ w. client.find_first (is_session_conversation s) w.conversations))
          (not_found conversation_not_found)
    pure (some conversation.uid)

  unfoldable pub open_private :
      (uid now user_uid recipient_uid : ℕ) → Option Conversation → Action ℕ
  open_private uid now u v (some k) = pure k.uid
  open_private uid now u v none = create_private_conversation uid now (u ∷ v ∷ [])

  -- The private conversation with the recipient, which is opened if there is none.
  unfoldable pub recipient_path : (uid now user_uid : ℕ) → Option ℕ → Action (Option ℕ)
  unfolding open_private
  recipient_path uid now u none = pure none
  recipient_path uid now u (some v) = do
    check_no_block u v
    conversation ← open_private uid now u v (← gets (private_between u v))
    pure (some conversation)

  check_other_member : ℕ → Option ConversationMember → Action (Unit {0})
  check_other_member u none = pure tt
  check_other_member u (some m) = check_no_block u m.user_uid

  -- The block check of a conversation that is named by its uid.
  unfoldable pub check_direct : (user_uid conversation_uid : ℕ) → Bool → Action (Unit {0})
  unfolding check_other_member
  check_direct u c false = pure tt
  check_direct u c true = do
    check_other_member u
        (← gets (λ w. client.find_first (is_other_member c u) w.conversation_members))

  abbrev pub send_kind :
      Sending
      → (user_uid : ℕ) → CreateMessageDto
      → (file : Option String) → (conversation_uid : ℕ) → (session_uid : Option ℕ) → Action ℕ
  send_kind o u dto file c s = elim (dto.kind is_media MessageType.text) [
    | true ↦ create_text_message o.message u dto.content c s o.now
    | false ↦ create_media_message o.upload o.message u c dto.kind file s o.now
  ]

  unfoldable pub create_message :
      Sending → (user_uid : ℕ) → CreateMessageDto → (file : Option String) → Action Sent
  create_message o u dto file = do
    session_conversation ← session_path dto.session_uid
    private_conversation ← recipient_path o.conversation o.now u dto.recipient_uid
    actual ←
        or_raise (first_of session_conversation private_conversation dto.conversation_uid)
          validation_error
    conversation ←
        gets (λ w. client.find_first (λ (k : Conversation). k.uid == actual) w.conversations)
    check_direct u actual (is_none dto.recipient_uid && is_private conversation)
    message ← send_kind o u dto file actual (session_to_notify conversation)
    pure (record { conversation_uid = actual; message_uid = message })
