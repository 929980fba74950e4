-- ===== src/Messages/Sending.antt =====
-- Sending a message: everyone in the conversation has one receipt for it.
use ludora_back.Prelude.{
  ℕ, ◌≡◌, ◌<◌, Bool, true, not, ◌&&◌, ◌||◌, ◌==◌, Option, List, [], ◌∷◌, elem, arith, count,
  count-none, count-le, bit, ==_iff,
}
use ludora_back.World.{
  Client, User, Conversation, Message, MessageReceipt, MessageStatus, ◌is_message◌, World, ok,
  is_some, has,
}
use ludora_back.Users.{find_user}
use ludora_back.ConversationMembers.{is_member}
use ludora_back.Messages.{
  is_uid, is_receipt, receipt, get_other_members_uids, create_message_receipt, insert_message,
  touch_conversation, send,
}
use ludora_back.Messages.Sets.{times-elem}
use ludora_back.Messages.Receipts.{
  inserted, count-inserted, receipts_for, AllKnown, with_receipts, inserted_one,
  insert_receipts_lem, others, times-others,
}

module _ ⦃client : Client⦄ where
  -- The message was sent: it has its row, and each member of the conversation one receipt, which
  -- is SENT for the sender and DELIVERED for the others.
  pub record IsSent (m c sender : ℕ) (before after : World) : Type 0 where
    pub row :
        0
        < count
            (λ x. is_uid m x && x.global_status is_message MessageStatus.sent)
            after.chat.messages
    pub receipts :
        (x : ℕ)
        → count (is_receipt m x) after.chat.message_receipts
          ≡ bit (x == sender || has (is_member c x) before.conversation_members)
    pub own :
        count
          (λ r. is_receipt m sender r && r.status is_message MessageStatus.sent)
          after.chat.message_receipts
        ≡ 1
    pub delivered :
        count
          (λ r.
            r.message_uid == m
            && not (r.user_uid == sender)
            && not (r.status is_message MessageStatus.delivered))
          after.chat.message_receipts
        ≡ 0

  -- What sending needs of the world.
  pub record CanSend (m c sender : ℕ) (w : World) : Type 0 where
    pub conversation : has (λ (k : Conversation). k.uid == c) w.conversations ≡ true
    pub user : is_some (find_user sender w) ≡ true
    pub members_known :
        (x : ℕ) → has (is_member c x) w.conversation_members ≡ true → is_some (find_user x w) ≡ true
    pub fresh : count (λ r. r.message_uid == m) w.chat.message_receipts ≡ 0

  AllKnown-of :
      (us : List ℕ) (t : List User)
      → ((x : ℕ)
          → elem x us ≡ true
          → is_some (client.find_first (λ (y : User). y.uid == x) t) ≡ true)
      → AllKnown us t
  AllKnown-of [] t h = tt
  AllKnown-of (u ∷ us) t h =
      (h u (ground (arith, ==_iff u u)), AllKnown-of us t (λ x e. h x (ground (arith, e))))

  others_known :
      (c sender : ℕ) (w : World)
      → ((x : ℕ)
          → has (is_member c x) w.conversation_members ≡ true
          → is_some (find_user x w) ≡ true)
      → AllKnown (others c sender w) w.users
  others_known c sender w h =
      AllKnown-of (others c sender w) w.users
        λ x e. h x (ground (arith, e, times-elem x (others c sender w), times-others c sender x w))

  abbrev all_receipts : Message → ℕ → World → List MessageReceipt
  all_receipts m sender w =
      client.insert (receipt m.uid MessageStatus.sent sender)
        (inserted m.uid (others m.conversation_uid sender w) w.chat.message_receipts)

  fresh_receipt :
      (m x : ℕ) (t : List MessageReceipt)
      → count (λ r. r.message_uid == m) t ≡ 0
      → (q : MessageReceipt → Bool)
      → ((r : MessageReceipt) → q r ≡ true → (r.message_uid == m) ≡ true)
      → count q t ≡ 0
  fresh_receipt m x t fresh q at = omega (arith, fresh, count-le q (λ r. r.message_uid == m) t at)

  pub send_lem :
      (m : Message) (sender now : ℕ) (s : Option ℕ) (w : World)
      → CanSend m.uid m.conversation_uid sender w
      → let (r, w') = send m sender now s w in
        (r ≡ ok m.uid)
        × (w'.chat ≡ record {
          messages = client.insert m w.chat.messages;
          message_receipts = all_receipts m sender w;
        })
  unfolding send insert_message touch_conversation get_other_members_uids create_message_receipt
  send_lem m sender now s w h =
      let us = others m.conversation_uid sender w in
      let w1 : World = record w {
        chat = record w.chat { messages = client.insert m w.chat.messages };
        conversations =
            client.update_many (λ (k : Conversation). k.uid == m.conversation_uid)
              (λ k. record k { updated_at = now }) w.conversations;
      } in
      let listed =
        insert_receipts_lem m.uid us w1
          (λ x. ground (
            arith,
            times-others m.conversation_uid sender x w,
            fresh_receipt m.uid x w.chat.message_receipts h.fresh (is_receipt m.uid x)
                (λ r k. ground arith),
          ))
          (others_known m.conversation_uid sender w h.members_known) in
      let w2 = with_receipts w1 (inserted m.uid us w.chat.message_receipts) in
      let own =
        inserted_one (receipt m.uid MessageStatus.sent sender) w2
          (ground (
            arith,
            receipts_for m.uid sender us w.chat.message_receipts,
            times-others m.conversation_uid sender sender w,
            ==_iff sender sender,
            fresh_receipt m.uid sender w.chat.message_receipts h.fresh (is_receipt m.uid sender)
                (λ r k. ground arith),
          ))
          h.user in
      (
        ground (arith, h.conversation, h.user, listed, own),
        ground (arith, h.conversation, h.user, listed, own),
      )

  pub sent-IsSent :
      (m : Message) (sender : ℕ) (w w' : World)
      → m.global_status ≡ MessageStatus.sent
      → CanSend m.uid m.conversation_uid sender w
      → w'.chat ≡ record {
        messages = client.insert m w.chat.messages;
        message_receipts = all_receipts m sender w;
      }
      → IsSent m.uid m.conversation_uid sender w w'
  sent-IsSent m sender w w' fresh_status h e =
      let us = others m.conversation_uid sender w in
      let old = w.chat.message_receipts in
      let listed = inserted m.uid us old in
      let own = receipt m.uid MessageStatus.sent sender in
      let seen : MessageReceipt → Bool =
        λ r. is_receipt m.uid sender r && r.status is_message MessageStatus.sent in
      let other : MessageReceipt → Bool = λ r.
        r.message_uid == m.uid
        && not (r.user_uid == sender)
        && not (r.status is_message MessageStatus.delivered) in
      rw e (record {
        row = ground (
          arith,
          fresh_status,
          client.count-insert m
              (λ x. is_uid m.uid x && x.global_status is_message MessageStatus.sent)
              w.chat.messages,
          ==_iff m.uid m.uid,
        );
        receipts = λ x. ground (
          arith,
          client.count-insert own (is_receipt m.uid x) listed,
          receipts_for m.uid x us old,
          times-others m.conversation_uid sender x w,
          fresh_receipt m.uid x old h.fresh (is_receipt m.uid x) (λ r k. ground arith),
          ==_iff m.uid m.uid,
          ==_iff sender x,
          ==_iff x sender,
        );
        own = ground (
          arith,
          client.count-insert own seen listed,
          count-inserted seen m.uid us old,
          count-none (λ u. seen (receipt m.uid MessageStatus.delivered u)) us (λ u. ground arith),
          fresh_receipt m.uid sender old h.fresh seen (λ r k. ground arith),
          ==_iff m.uid m.uid,
          ==_iff sender sender,
        );
        delivered = ground (
          arith,
          client.count-insert own other listed,
          count-inserted other m.uid us old,
          count-none (λ u. other (receipt m.uid MessageStatus.delivered u)) us (λ u. ground arith),
          fresh_receipt m.uid sender old h.fresh other (λ r k. ground arith),
          ==_iff sender sender,
        );
      })
