-- ===== src/Messages/Texts.antt =====
-- A text message: what is unread is marked as read, then the message is sent.
use ludora_back.Prelude.{
  ℕ, String, ◌≡◌, ◌⊎◌, inl, inr, true, ◌==◌, Option, some, arith, ap, count, refl, ◌∙◌,
}
use ludora_back.World.{
  Client, User, MessageStatus, MessageType, World, Refuses, ok, is_ok, is_some, has,
  count-update_many_same,
}
use ludora_back.Users.{find_user}
use ludora_back.ConversationMembers.{is_member, update_member}
use ludora_back.Messages.{
  new_text_message, mark_messages_as_read, write_read, create_text_message, is_receipt_among,
  with_status,
}
use ludora_back.Messages.Reading.{targets, mark_cases}
use ludora_back.Messages.Sending.{IsSent, CanSend, send_lem, sent-IsSent}

module _ ⦃client : Client⦄ where
  -- Marking as read, before sending, changes nothing that sending needs.
  module _ (c u now : ℕ) (w : World) where
    abbrev marked : World
    marked = (mark_messages_as_read c u now w).1

    mark_rows :
        has (is_member c u) w.conversation_members ≡ true
        → (is_ok (mark_messages_as_read c u now w).0 ≡ true)
          × (marked.users ≡ w.users)
          × (marked.conversations ≡ w.conversations)
          × (marked.conversation_members
              ≡ client.update_many
                  (is_member c u)
                  (λ m. record m { last_read_at = some now })
                  w.conversation_members)
          × (marked.chat.message_receipts
              ≡ client.update_many
                  (is_receipt_among (targets c u w) u)
                  (with_status MessageStatus.read)
                  w.chat.message_receipts)
    unfolding mark_messages_as_read write_read update_member
    mark_rows member = ground (arith, member)

    mark_members :
        has (is_member c u) w.conversation_members ≡ true
        → (x : ℕ)
        → count (is_member c x) marked.conversation_members
          ≡ count (is_member c x) w.conversation_members
    mark_members member x =
        let (_, _, _, members, _) = mark_rows member in
        rw members (
          count-update_many_same (is_member c u) (λ m. record m { last_read_at = some now })
            (is_member c x) w.conversation_members (λ m. refl))

    mark_receipts :
        has (is_member c u) w.conversation_members ≡ true
        → (m : ℕ)
        → count (λ r. r.message_uid == m) marked.chat.message_receipts
          ≡ count (λ r. r.message_uid == m) w.chat.message_receipts
    mark_receipts member m =
        let (_, _, _, _, receipts) = mark_rows member in
        rw receipts (
          count-update_many_same (is_receipt_among (targets c u w) u)
            (with_status MessageStatus.read) (λ r. r.message_uid == m) w.chat.message_receipts
            (λ r. refl))

    can_send :
        (m : ℕ)
        → has (is_member c u) w.conversation_members ≡ true
        → CanSend m c u w
        → CanSend m c u marked
    can_send m member h =
        let (_, users, conversations, _, _) = mark_rows member in
        record {
          conversation = rw conversations h.conversation;
          user = same_user users u h.user;
          members_known = λ x e.
              same_user users x (h.members_known x (ground (arith, mark_members member x, e)));
          fresh = rw (mark_receipts member m) h.fresh;
        }
      where
        same_user :
            marked.users ≡ w.users
            → (x : ℕ) → is_some (find_user x w) ≡ true
            → is_some (find_user x marked) ≡ true
        same_user e x known =
            ap (λ t. is_some (client.find_first (λ (y : User). y.uid == x) t)) e ∙ known

    IsSent-before :
        (m : ℕ) (w' : World)
        → has (is_member c u) w.conversation_members ≡ true
        → IsSent m c u marked w'
        → IsSent m c u w w'
    IsSent-before m w' member h = record {
      row = h.row;
      receipts = λ x. ground (arith, h.receipts x, mark_members member x);
      own = h.own;
      delivered = h.delivered;
    }

    -- A member who sends a message has it sent, to the members there were; anyone else is refused,
    -- and nothing is written.
    pub create_text_message_outcome :
        (m : ℕ) (content : String) (s : Option ℕ)
        → CanSend m c u w
        → let (r, w') = create_text_message m u content c s now w in
          (count (is_member c u) w.conversation_members ≡ 0) × Refuses w (r, w')
          ⊎ (has (is_member c u) w.conversation_members ≡ true) × (r ≡ ok m) × IsSent m c u w w'
    unfolding create_text_message
    create_text_message_outcome m content s h = elim (mark_cases c u now w) [
      | inl (outside, (failed, kept)) ↦ inl (outside, ground (arith, failed, kept))
      | inr (member, done, _, _) ↦
          let message = new_text_message m u c now content MessageType.text in
          let able = can_send m member h in
          let (result, chat) = send_lem message u now s marked able in
          let w' = (create_text_message m u content c s now w).1 in
          inr (
            member,
            ground (arith, done, result),
            IsSent-before m w' member
                (sent-IsSent message u marked w' refl able (ground (arith, done, chat))),
          )
    ]
