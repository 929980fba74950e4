-- ===== src/Tests/ChatSample.antt =====
-- A private conversation with a message that is not read.
use ludora_back.Prelude.{[], ◌∷◌, none, some}
use ludora_back.World.{ConversationType, MessageStatus, MessageType, World}
use ludora_back.ConversationMembers.{new_member}
use ludora_back.Tests.Sample.{sample}

-- 2 has written to 1 in conversation 7; 3 and 4 are in no conversation.
abbrev pub chatroom : World
chatroom = record sample {
  user_blocks = [];
  conversations =
      record { uid = 7; session_uid = none; kind = ConversationType.private; updated_at = 5 } ∷ [];
  conversation_members = new_member 7 1 ∷ new_member 7 2 ∷ [];
  chat = record {
    messages =
        record {
          uid = 70;
          conversation_uid = 7;
          sender_uid = some 2;
          content = "Hi";
          global_status = MessageStatus.sent;
          kind = MessageType.text;
          created_at = 5;
        }
        ∷ [];
    message_receipts =
        record { message_uid = 70; user_uid = 2; status = MessageStatus.sent }
        ∷ record { message_uid = 70; user_uid = 1; status = MessageStatus.delivered }
        ∷ [];
  };
}

-- The same after 2 has deleted the message.
abbrev pub deleted_room : World
deleted_room = record chatroom {
  chat = record chatroom.chat {
    messages =
        record {
          uid = 70;
          conversation_uid = 7;
          sender_uid = some 2;
          content = "Hi";
          global_status = MessageStatus.deleted;
          kind = MessageType.text;
          created_at = 5;
        }
        ∷ [];
  };
}

-- 1 has blocked 2.
abbrev pub blocked_room : World
blocked_room = record chatroom { user_blocks = record { blocker_uid = 1; blocked_uid = 2 } ∷ [] }
