-- ===== src/Conversations/Abandoned.antt =====
-- A conversation that is opened for no one.
use ludora_back.Prelude.{ℕ, String, ◌≡◌, false, ◌==◌, Option, none, some, arith, count, ==_iff}
use ludora_back.World.{
  Client, Conversation, ConversationMember, World, is_ok, is_some, find_first-eq_none,
}
use ludora_back.Users.{is_block_between, find_user}
use ludora_back.ConversationMembers.{create_many, create_each, create}
use ludora_back.Conversations.{
  CreateMessageDto, Sending, is_private_between, create_private_conversation, recipient_path,
  create_message, session_path, open_private,
}
use ludora_back.Conversations.Opening.{IsNew, new_conversation, opened}

module _ ⦃client : Client⦄ where
  abandons :
      (c now u v : ℕ) (w : World)
      → IsNew c w
      → (u == v) ≡ false
      → count (is_block_between u v) w.user_blocks ≡ 0
      → count (is_private_between w.conversation_members u v) w.conversations ≡ 0
      → is_some (find_user v w) ≡ false
      → let (r, w') = recipient_path c now u (some v) w in (is_ok r ≡ false) × (w' ≡ opened c now w)
  unfolding recipient_path open_private create_private_conversation create_many create_each create
  abandons c now u v w new apart unblocked unopened stranger = ground (
    arith,
    find_first-eq_none (is_block_between u v) w.user_blocks unblocked,
    find_first-eq_none (is_private_between w.conversation_members u v) w.conversations unopened,
    stranger,
  )

  -- The conversation is written before its members and in no transaction: when the recipient is
  -- no user (and has no conversation with the sender), the call throws, and leaves a conversation without members behind.
  pub create_message-abandons :
      (o : Sending) (u v : ℕ) (dto : CreateMessageDto) (file : Option String) (w : World)
      → dto.recipient_uid ≡ some v
      → dto.session_uid ≡ none
      → (u == v) ≡ false
      → count (is_block_between u v) w.user_blocks ≡ 0
      → count (is_private_between w.conversation_members u v) w.conversations ≡ 0
      → IsNew o.conversation w
      → is_some (find_user v w) ≡ false
      → let (r, w') = create_message o u dto file w in
        (is_ok r ≡ false)
        × (count (λ (k : Conversation). k.uid == o.conversation) w'.conversations ≡ 1)
        × (count
              (λ (m : ConversationMember). m.conversation_uid == o.conversation)
              w'.conversation_members
            ≡ 0)
  unfolding create_message session_path
  create_message-abandons o u v dto file w to_v no_session apart unblocked unopened new stranger =
      let c = o.conversation in
      let failed = abandons c o.now u v w new apart unblocked unopened stranger in
      ground (
        arith,
        to_v,
        no_session,
        failed,
        new,
        ==_iff c c,
        client.count-insert (new_conversation c o.now) (λ (k : Conversation). k.uid == c)
            w.conversations,
      )
