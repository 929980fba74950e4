-- ===== src/Conversations/Blocks.antt =====
-- Blocked users do not exchange messages.
use ludora_back.Prelude.{
  ℕ, String, ◌≡◌, ◌<◌, inl, inr, true, ◌==◌, Option, none, some, arith, count, refl, Option-cases,
}
use ludora_back.World.{
  Client, Conversation, ConversationMember, ConversationType, ◌is_conversation◌, World, Refuses,
  find_first-eq_some,
}
use ludora_back.Users.{is_block_between}
use ludora_back.Messages.{is_other_member}
use ludora_back.Conversations.{
  CreateMessageDto, Sending, session_path, recipient_path, check_no_block, check_direct,
  create_message, is_session_conversation,
}

module _ ⦃client : Client⦄ where
  -- The message is for `v`: as the recipient, or as the other member of a private conversation that
  -- is named by its uid.
  pub data IsFor (dto : CreateMessageDto) (u v : ℕ) (w : World) : Type 0 where
    as_recipient : dto.recipient_uid ≡ some v → IsFor dto u v w
    as_member :
        (k : Conversation) (m : ConversationMember)
        → dto.recipient_uid ≡ none
        → dto.session_uid ≡ none
        → dto.conversation_uid ≡ some k.uid
        → client.find_first (λ (x : Conversation). x.uid == k.uid) w.conversations ≡ some k
        → (k.kind is_conversation ConversationType.private) ≡ true
        → client.find_first (is_other_member k.uid u) w.conversation_members ≡ some m
        → m.user_uid ≡ v
        → IsFor dto u v w

  -- The steps up to the block check write nothing.
  session_path-frame : (s : Option ℕ) (w : World) → (session_path s w).1 ≡ w
  unfolding session_path
  session_path-frame none w = refl
  session_path-frame (some s) w =
      elim (Option-cases (client.find_first (is_session_conversation s) w.conversations)) [
        | inl e ↦ ground (arith, e)
        | inr (k, e) ↦ ground (arith, e)
      ]

  check_no_block_lem :
      (u v : ℕ) (w : World)
      → 0 < count (is_block_between u v) w.user_blocks
      → Refuses w (check_no_block u v w)
  check_no_block_lem u v w blocked =
      let (b, found) = find_first-eq_some (is_block_between u v) w.user_blocks blocked in
      ground (arith, found)

  check_direct_lem :
      (u c : ℕ) (m : ConversationMember) (w : World)
      → 0 < count (is_block_between u m.user_uid) w.user_blocks
      → client.find_first (is_other_member c u) w.conversation_members ≡ some m
      → Refuses w (check_direct u c true w)
  unfolding check_direct
  check_direct_lem u c m w blocked found =
      ground (arith, found, check_no_block_lem u m.user_uid w blocked)

  -- When a block holds between the two users, whoever set it, the call throws and writes nothing.
  pub create_message-blocked :
      (o : Sending) (u v : ℕ) (dto : CreateMessageDto) (file : Option String) (w : World)
      → 0 < count (is_block_between u v) w.user_blocks
      → IsFor dto u v w
      → Refuses w (create_message o u dto file w)
  unfolding create_message recipient_path session_path
  create_message-blocked o u v dto file w blocked (as_recipient e) =
      ground (arith, e, session_path-frame dto.session_uid w, check_no_block_lem u v w blocked)
  create_message-blocked o u v dto file w blocked (as_member k m r s c e private found same) =
      let checked = check_direct_lem u k.uid m w (rw same blocked) found in
      ground (arith, r, s, c, e, private, checked)
