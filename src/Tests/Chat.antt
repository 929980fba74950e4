-- ===== src/Tests/Chat.antt =====
-- Messages in the sample conversation.
use ludora_back.Prelude.{
  ℕ, ◌≡◌, ◌⊎◌, ◌<◌, Bool, true, not, ◌&&◌, ◌||◌, ◌==◌, none, some, count, arith, bit, refl,
}
use ludora_back.World.{
  list_client, ConversationType, MessageReceipt, MessageStatus, ◌is_message◌, MessageType, Refuses,
  ok, is_ok, has,
}
use ludora_back.ConversationMembers.{is_member, new_member}
use ludora_back.Messages.{is_uid, is_receipt, is_unread, mark_messages_as_read, create_text_message}
use ludora_back.Messages.Reading.{mark_messages_as_read_outcome, mark_messages_as_read_revives}
use ludora_back.Messages.Sending.{IsSent, CanSend}
use ludora_back.Messages.Texts.{create_text_message_outcome}
use ludora_back.Conversations.{CreateMessageDto, Sending, create_message}
use ludora_back.Conversations.Blocks.{IsFor, create_message-blocked}
use ludora_back.Conversations.Opening.{IsFirst, create_message-first}
use ludora_back.Tests.ChatSample.{chatroom, deleted_room, blocked_room}

mark_messages_as_read_outcome_example :
    let (r, w') = mark_messages_as_read 7 1 9 chatroom in
    (count (is_member 7 1) chatroom.conversation_members ≡ 0) × Refuses chatroom (r, w')
    ⊎ (is_ok r ≡ true)
      × ((x : ℕ)
          → count
              (λ r. is_unread w'.chat.messages 7 1 r && r.message_uid == x)
              w'.chat.message_receipts
            ≡ 0)
      × ((q : MessageReceipt → Bool)
          → count (λ r. not (r.user_uid == 1) && q r) w'.chat.message_receipts
            ≡ count (λ r. not (r.user_uid == 1) && q r) chatroom.chat.message_receipts)
mark_messages_as_read_outcome_example = mark_messages_as_read_outcome 7 1 9 chatroom

mark_messages_as_read_revives_example :
    let (r, w') = mark_messages_as_read 7 1 9 deleted_room in
    (is_ok r ≡ true)
    × (count (λ m. is_uid 70 m && m.global_status is_message MessageStatus.deleted) w'.chat.messages
        ≡ 0)
    × (0
        < count
            (λ m. is_uid 70 m && m.global_status is_message MessageStatus.read)
            w'.chat.messages)
mark_messages_as_read_revives_example =
    mark_messages_as_read_revives 7 1 9 deleted_room 70 refl (omega arith) (omega arith)

chatroom_ready : CanSend 71 7 1 chatroom
chatroom_ready = record {
  conversation = refl;
  user = refl;
  members_known = λ x h. ground arith;
  fresh = refl;
}

create_text_message_outcome_example :
    let (r, w') = create_text_message 71 1 "Yes" 7 none 9 chatroom in
    (count (is_member 7 1) chatroom.conversation_members ≡ 0) × Refuses chatroom (r, w')
    ⊎ (has (is_member 7 1) chatroom.conversation_members ≡ true)
      × (r ≡ ok 71)
      × IsSent 71 7 1 chatroom w'
create_text_message_outcome_example =
    create_text_message_outcome 7 1 9 chatroom 71 "Yes" none chatroom_ready

abbrev to_user : ℕ → CreateMessageDto
to_user v = record {
  content = "Hello";
  conversation_uid = none;
  recipient_uid = some v;
  session_uid = none;
  kind = MessageType.text;
}

abbrev to_room : CreateMessageDto
to_room = record {
  content = "Hello";
  conversation_uid = some 7;
  recipient_uid = none;
  session_uid = none;
  kind = MessageType.text;
}

abbrev fresh_ids : Sending
fresh_ids = record { conversation = 8; message = 71; now = 9; upload = λ x. none }

create_message-blocked_example :
    Refuses blocked_room (create_message fresh_ids 2 to_room none blocked_room)
create_message-blocked_example =
    create_message-blocked fresh_ids 2 1 to_room none blocked_room (omega arith) (
      IsFor.as_member
        (record { uid = 7; session_uid = none; kind = ConversationType.private; updated_at = 5 })
        (new_member 7 1) refl refl refl refl refl refl refl)

opening_message : IsFirst fresh_ids 1 3 chatroom
opening_message = record {
  apart = refl;
  unblocked = refl;
  unopened = refl;
  new = (refl, refl);
  sender = refl;
  recipient = refl;
  fresh = refl;
}

create_message-first_example :
    let (r, w') = create_message fresh_ids 1 (to_user 3) none chatroom in
    (r ≡ ok (record { conversation_uid = 8; message_uid = 71 }))
    × ((x : ℕ) → count (is_receipt 71 x) w'.chat.message_receipts ≡ bit (x == 1 || x == 3))
    × (count
          (λ r. is_receipt 71 1 r && r.status is_message MessageStatus.sent)
          w'.chat.message_receipts
        ≡ 1)
create_message-first_example =
    create_message-first fresh_ids 1 3 (to_user 3) none chatroom refl refl refl opening_message
