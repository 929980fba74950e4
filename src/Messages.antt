-- ===== src/Messages.antt =====
-- conversations/services/messages.service.ts: the messages of a conversation, and who has read them.
pub mod Reading
pub mod Receipts
pub mod Sending
pub mod Texts
pub mod Sets
use ludora_back.Prelude.{
  ℕ, String, Bool, true, false, not, ◌&&◌, ◌||◌, ◌==◌, ltb, Option, none, some, List, [], ◌∷◌, map,
  elem, length, holds, if◌then◌else◌, count,
}
use ludora_back.World.{
  Client, User, Conversation, ConversationMember, Message, MessageReceipt, MessageStatus,
  MessageType, ◌is_message◌, World, new_message, message_deleted, message_not_found,
  not_message_sender, message_already_deleted, file_required, upload_failed, bad_request, not_found,
  forbidden, unique_violation, foreign_key_violation, record_not_found, Action, pure, gets,
  or_raise, ◌>>=◌, ◌>>◌, raise_if, modify, emit, transaction, has, is_none,
}
use ludora_back.Users.{find_user}
use ludora_back.Friends.{name_of}
use ludora_back.ConversationMembers.{is_member, update_member}

abbrev pub is_uid : ℕ → Message → Bool
is_uid m x = x.uid == m

abbrev pub is_receipt : (message_uid user_uid : ℕ) → MessageReceipt → Bool
is_receipt m u r = r.message_uid == m && r.user_uid == u

-- `senderUid: { not: u }`, which a null does not meet.
abbrev pub is_from_other : (conversation_uid user_uid : ℕ) → Message → Bool
is_from_other c u m =
    m.conversation_uid == c && elim m.sender_uid [ none ↦ false | some v ↦ not (v == u) ]

-- A message of the list of ids.
abbrev pub is_among : List ℕ → Message → Bool
is_among uids m = elem m.uid uids

-- The user's receipts for the messages of others in the conversation, which are not read.
abbrev pub is_unread :
    (messages : List Message) (conversation_uid user_uid : ℕ) → MessageReceipt → Bool
is_unread t c u r =
    r.user_uid == u
    && not (r.status is_message MessageStatus.read)
    && has (λ m. m.uid == r.message_uid && is_from_other c u m) t

-- The user's receipts for the listed messages.
abbrev pub is_receipt_among : List ℕ → ℕ → MessageReceipt → Bool
is_receipt_among uids u r = elem r.message_uid uids && r.user_uid == u

abbrev pub message_of : MessageReceipt → ℕ
message_of r = r.message_uid

abbrev pub with_message_status : MessageStatus → Message → Message
with_message_status status m = record m { global_status = status }

abbrev pub with_status : MessageStatus → MessageReceipt → MessageReceipt
with_status status r = record r { status = status }

-- What `markMessagesAsRead` tells of a message.
pub record ReadData : Type 0 where
  pub uid : ℕ
  pub has_any_read : Bool
  pub has_everyone_read : Bool

pub record ReadResult : Type 0 where
  pub marked : ℕ
  pub messages : List ReadData

-- The receipts of those who received the message, and those of them that are read.
abbrev pub is_received : Message → MessageReceipt → Bool
is_received m r = r.message_uid == m.uid && not (holds m.sender_uid r.user_uid)

abbrev pub is_received_read : Message → MessageReceipt → Bool
is_received_read m r = is_received m r && r.status is_message MessageStatus.read

unfoldable pub read_data : List MessageReceipt → Message → ReadData
read_data t m =
    let received = count (is_received m) t in
    let read = count (is_received_read m) t in
    record {
      uid = m.uid;
      has_any_read = ltb 0 read;
      has_everyone_read = ltb 0 received && read == received;
    }

abbrev pub new_text_message :
    (uid sender_uid conversation_uid now : ℕ) → String → MessageType → Message
new_text_message uid u c now content kind = record {
  uid = uid;
  conversation_uid = c;
  sender_uid = some u;
  content = content;
  global_status = MessageStatus.sent;
  kind = kind;
  created_at = now;
}

abbrev pub receipt : ℕ → MessageStatus → ℕ → MessageReceipt
receipt m status u = record { message_uid = m; user_uid = u; status = status }

abbrev pub is_other_member : (conversation_uid user_uid : ℕ) → ConversationMember → Bool
is_other_member c u m = m.conversation_uid == c && not (m.user_uid == u)

-- `new Set(list)`
abbrev pub to_set : List ℕ → List ℕ
to_set [] = []
to_set (x ∷ xs) = let rest = to_set xs in if elem x rest then rest else x ∷ rest

module _ ⦃client : Client⦄ where
  -- The receipts found, and the rows written for them.
  unfoldable pub write_read : (uids : List ℕ) (user_uid : ℕ) → Action ReadResult
  unfolding read_data
  write_read uids u = do
    modify (λ w. record w {
      chat = record w.chat {
        messages =
            client.update_many (is_among uids) (with_message_status MessageStatus.read)
              w.chat.messages;
      };
    })
    marked ← gets (λ w. count (is_receipt_among uids u) w.chat.message_receipts)
    modify (λ w. record w {
      chat = record w.chat {
        message_receipts =
            client.update_many (is_receipt_among uids u) (with_status MessageStatus.read)
              w.chat.message_receipts;
      };
    })
    updated_messages ← gets (λ w. client.find_many (is_among uids) w.chat.messages)
    receipts ← gets (λ w. w.chat.message_receipts)
    pure (record { marked = marked; messages = map (read_data receipts) updated_messages })

  unfoldable pub mark_messages_as_read : (conversation_uid user_uid now : ℕ) → Action ReadResult
  mark_messages_as_read c u now = do
    update_member c u λ m. record m { last_read_at = some now }
    target_receipts ←
        gets (λ w. client.find_many (is_unread w.chat.messages c u) w.chat.message_receipts)
    write_read (map message_of target_receipts) u

  unfoldable pub get_other_members_uids : (conversation_uid sender_uid : ℕ) → Action (List ℕ)
  get_other_members_uids c u = gets λ w. to_set (
      map (λ (m : ConversationMember). m.user_uid)
        (client.find_many (is_other_member c u) w.conversation_members))

  -- One receipt of `createMany`, and of `create`.
  unfoldable pub insert_receipt : MessageReceipt → Action (Unit {0})
  insert_receipt r = do
    raise_if (← gets (λ w. has (is_receipt r.message_uid r.user_uid) w.chat.message_receipts))
        unique_violation
    raise_if (is_none (← gets (find_user r.user_uid))) foreign_key_violation
    modify (λ w. record w {
      chat = record w.chat { message_receipts = client.insert r w.chat.message_receipts };
    })

  unfoldable pub insert_receipts : ℕ → List ℕ → Action (Unit {0})
  insert_receipts m [] = pure tt
  insert_receipts m (u ∷ us) = do
    insert_receipt (receipt m MessageStatus.delivered u)
    insert_receipts m us

  unfoldable pub create_message_receipt :
      (message_uid : ℕ) → List ℕ → (sender_uid : ℕ) → Action (Unit {0})
  unfolding insert_receipts
  create_message_receipt m us sender = do
    transaction (insert_receipts m us)
    insert_receipt (receipt m MessageStatus.sent sender)

  -- `prisma.messages.create` with `connect`, which asks for the rows; the sender is returned.
  unfoldable pub insert_message : Message → (sender_uid : ℕ) → Action User
  insert_message m sender = do
    raise_if
        (not
          (← gets (λ w. has (λ (k : Conversation). k.uid == m.conversation_uid) w.conversations)))
        record_not_found
    user ← or_raise (← gets (find_user sender)) record_not_found
    modify (λ w. record w { chat = record w.chat { messages = client.insert m w.chat.messages } })
    pure user

  unfoldable pub touch_conversation : (conversation_uid now : ℕ) → Action (Unit {0})
  touch_conversation c now = do
    raise_if (not (← gets (λ w. has (λ (k : Conversation). k.uid == c) w.conversations)))
        record_not_found
    modify (λ w. record w {
      conversations =
          client.update_many (λ (k : Conversation). k.uid == c) (λ k. record k { updated_at = now })
            w.conversations;
    })

  -- What both ways of sending do once the content is known.
  unfoldable pub send : Message → (sender_uid now : ℕ) → (session_uid : Option ℕ) → Action ℕ
  send m sender now session_uid = do
    user ← insert_message m sender
    touch_conversation m.conversation_uid now
    members_uids ← get_other_members_uids m.conversation_uid sender
    create_message_receipt m.uid members_uids sender
    emit (new_message m.conversation_uid sender (name_of user) session_uid m.content)
    pure m.uid

  -- `uid` is the id of the new message.
  unfoldable pub create_text_message :
      (uid sender_uid : ℕ)
      → String
      → (conversation_uid : ℕ) → (session_uid : Option ℕ) → (now : ℕ) → Action ℕ
  create_text_message uid u content c session_uid now = do
    read ← mark_messages_as_read c u now
    send (new_text_message uid u c now content MessageType.text) u now session_uid

  -- `upload` is the storage, which gives the URL of a file or fails.
  unfoldable pub create_media_message :
      (upload : String → Option String) (uid sender_uid conversation_uid : ℕ)
      → MessageType
      → (file : Option String) → (session_uid : Option ℕ) → (now : ℕ) → Action ℕ
  create_media_message upload uid u c kind file session_uid now = do
    read ← mark_messages_as_read c u now
    name ← or_raise file (bad_request file_required)
    url ← or_raise (upload name) (bad_request upload_failed)
    send (new_text_message uid u c now url kind) u now session_uid

  unfoldable pub set_deleted : ℕ → Action (Unit {0})
  set_deleted m = do
    raise_if (not (← gets (λ w. has (is_uid m) w.chat.messages))) record_not_found
    modify (λ w. record w {
      chat = record w.chat {
        messages =
            client.update_many (is_uid m) (with_message_status MessageStatus.deleted)
              w.chat.messages;
      };
    })

  unfoldable pub delete : (message_uid user_uid : ℕ) → Action (Unit {0})
  delete m u = do
    message ←
        or_raise (← gets (λ w. client.find_first (is_uid m) w.chat.messages))
          (not_found message_not_found)
    raise_if (not (holds message.sender_uid u)) (forbidden not_message_sender)
    raise_if (message.global_status is_message MessageStatus.deleted)
        (bad_request message_already_deleted)
    set_deleted m
    conversation ← gets (λ w.
        client.find_first (λ (k : Conversation). k.uid == message.conversation_uid) w.conversations)
    emit (
        message_deleted message.conversation_uid m u
          (elim conversation [ none ↦ none | some k ↦ k.session_uid ]))
