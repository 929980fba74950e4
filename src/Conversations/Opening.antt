-- ===== src/Conversations/Opening.antt =====
-- The first message between two users opens their private conversation.
use ludora_back.Prelude.{
  ℕ, String, ◌≡◌, ◌⊎◌, inl, inr, true, false, ◌&&◌, ◌||◌, ◌==◌, [], ◌∷◌, Option, none, some, arith,
  bit, count, count-le, ==_iff,
}
use ludora_back.World.{
  Client, Conversation, ConversationMember, ConversationType, MessageStatus, ◌is_message◌,
  MessageType, ◌is_media◌, World, ok, is_some, has, find_first-eq_none,
}
use ludora_back.Users.{is_block_between, find_user}
use ludora_back.ConversationMembers.{is_member, new_member, create_many, create_each, create}
use ludora_back.Messages.{is_receipt, create_text_message}
use ludora_back.Messages.Sending.{IsSent, CanSend}
use ludora_back.Messages.Texts.{create_text_message_outcome}
use ludora_back.Conversations.{
  CreateMessageDto, Sending, is_private_between, create_private_conversation, recipient_path,
  create_message, session_path, check_direct, open_private, session_to_notify,
}

module _ ⦃client : Client⦄ where
  abbrev pub new_conversation : (uid now : ℕ) → Conversation
  new_conversation uid now = record {
    uid = uid;
    session_uid = none;
    kind = ConversationType.private;
    updated_at = now;
  }

  abbrev pub opened : (uid now : ℕ) → World → World
  opened uid now w = record w {
    conversations = client.insert (new_conversation uid now) w.conversations;
  }

  abbrev joined : (uid u : ℕ) → World → World
  joined uid u w = record w {
    conversation_members = client.insert (new_member uid u) w.conversation_members;
  }

  abbrev with_both : (uid now u v : ℕ) → World → World
  with_both uid now u v w = joined uid v (joined uid u (opened uid now w))

  join_lem :
      (c u : ℕ) (w : World)
      → count (is_member c u) w.conversation_members ≡ 0
      → has (λ (k : Conversation). k.uid == c) w.conversations ≡ true
      → is_some (find_user u w) ≡ true
      → create c u w ≡ (ok tt, joined c u w)
  unfolding create
  join_lem c u w absent known user = ground arith

  -- What the rows of a new id are before it is used.
  abbrev pub IsNew : (uid : ℕ) → World → Type 0
  IsNew uid w =
      (count (λ (m : ConversationMember). m.conversation_uid == uid) w.conversation_members ≡ 0)
      × (count (λ (k : Conversation). k.uid == uid) w.conversations ≡ 0)

  no_member :
      (uid u : ℕ) (w : World) → IsNew uid w → count (is_member uid u) w.conversation_members ≡ 0
  no_member uid u w (new, _) = omega (
    arith,
    new,
    count-le (is_member uid u) (λ (m : ConversationMember). m.conversation_uid == uid)
        w.conversation_members (λ m h. ground arith),
  )

  open_lem :
      (uid now u v : ℕ) (w : World)
      → IsNew uid w
      → (u == v) ≡ false
      → is_some (find_user u w) ≡ true
      → is_some (find_user v w) ≡ true
      → create_private_conversation uid now (u ∷ v ∷ []) w ≡ (ok uid, with_both uid now u v w)
  unfolding create_private_conversation create_many create_each
  open_lem uid now u v w new apart user_u user_v =
      let w1 = opened uid now w in
      let known =
        client.count-insert (new_conversation uid now) (λ (k : Conversation). k.uid == uid)
          w.conversations in
      let first =
        join_lem uid u w1 (no_member uid u w new) (ground (arith, known, ==_iff uid uid)) user_u in
      let second =
        join_lem uid v (joined uid u w1)
          (ground (
            arith,
            client.count-insert (new_member uid u) (is_member uid v) w.conversation_members,
            no_member uid v w new,
            ==_iff u v,
          ))
          (ground (arith, known, ==_iff uid uid)) user_v in
      ground (arith, first, second)

  members_of :
      (uid now u v x : ℕ) (w : World)
      → IsNew uid w
      → (u == v) ≡ false
      → count (is_member uid x) (with_both uid now u v w).conversation_members
        ≡ bit (x == u || x == v)
  members_of uid now u v x w new apart =
      let first = client.insert (new_member uid u) w.conversation_members in
      ground (
        arith,
        client.count-insert (new_member uid v) (is_member uid x) first,
        client.count-insert (new_member uid u) (is_member uid x) w.conversation_members,
        no_member uid x w new,
        ==_iff uid uid,
        ==_iff u x,
        ==_iff x u,
        ==_iff v x,
        ==_iff x v,
        ==_iff u v,
      )

  can_send :
      (uid now u v m : ℕ) (w : World)
      → IsNew uid w
      → (u == v) ≡ false
      → is_some (find_user u w) ≡ true
      → is_some (find_user v w) ≡ true
      → count (λ r. r.message_uid == m) w.chat.message_receipts ≡ 0
      → CanSend m uid u (with_both uid now u v w)
  can_send uid now u v m w new apart user_u user_v fresh = record {
    conversation = ground (
      arith,
      client.count-insert (new_conversation uid now) (λ (k : Conversation). k.uid == uid)
          w.conversations,
      ==_iff uid uid,
    );
    user = user_u;
    members_known = λ x member.
        elim (one_of x (ground (arith, members_of uid now u v x w new apart, member))) [
          | inl e ↦ rw e user_u
          | inr e ↦ rw e user_v
        ];
    fresh = fresh;
  }
    where
      one_of : (x : ℕ) → (x == u || x == v) ≡ true → (x ≡ u) ⊎ (x ≡ v)
      one_of x h = ground (arith, ==_iff x u, ==_iff x v)

  -- What the first message asks of the world.
  pub record IsFirst (o : Sending) (u v : ℕ) (w : World) : Type 0 where
    pub apart : (u == v) ≡ false
    pub unblocked : count (is_block_between u v) w.user_blocks ≡ 0
    pub unopened : count (is_private_between w.conversation_members u v) w.conversations ≡ 0
    pub new : IsNew o.conversation w
    pub sender : is_some (find_user u w) ≡ true
    pub recipient : is_some (find_user v w) ≡ true
    pub fresh : count (λ r. r.message_uid == o.message) w.chat.message_receipts ≡ 0

  recipient_lem :
      (o : Sending) (u v : ℕ) (w : World)
      → IsFirst o u v w
      → recipient_path o.conversation o.now u (some v) w
        ≡ (ok (some o.conversation), with_both o.conversation o.now u v w)
  unfolding recipient_path open_private
  recipient_lem o u v w h = ground (
    arith,
    find_first-eq_none (is_block_between u v) w.user_blocks h.unblocked,
    find_first-eq_none (is_private_between w.conversation_members u v) w.conversations h.unopened,
    open_lem o.conversation o.now u v w h.new h.apart h.sender h.recipient,
  )

  delivery_outcome :
      (c u now : ℕ) (w : World) (m : ℕ) (content : String) (s : Option ℕ)
      → CanSend m c u w
      → has (is_member c u) w.conversation_members ≡ true
      → let (r, w') = create_text_message m u content c s now w in (r ≡ ok m) × IsSent m c u w w'
  delivery_outcome c u now w m content s able member =
      elim (create_text_message_outcome c u now w m content s able) [
        | inl (outside, _) ↦ absurd (ground (arith, outside, member))
        | inr (_, result, sent) ↦ (result, sent)
      ]

  -- The first text between two users who do not block each other is sent in a new conversation:
  -- the call returns its id, the sender has one receipt, which is SENT, the recipient one, and no one else any.
  pub create_message-first :
      (o : Sending) (u v : ℕ) (dto : CreateMessageDto) (file : Option String) (w : World)
      → dto.recipient_uid ≡ some v
      → dto.session_uid ≡ none
      → (dto.kind is_media MessageType.text) ≡ true
      → IsFirst o u v w
      → let (r, w') = create_message o u dto file w in
        (r ≡ ok (record { conversation_uid = o.conversation; message_uid = o.message }))
        × ((x : ℕ)
            → count (is_receipt o.message x) w'.chat.message_receipts ≡ bit (x == u || x == v))
        × (count
              (λ r. is_receipt o.message u r && r.status is_message MessageStatus.sent)
              w'.chat.message_receipts
            ≡ 1)
  unfolding create_message session_path check_direct
  create_message-first o u v dto file w to_v no_session text h =
      let c = o.conversation in
      let w2 = with_both c o.now u v w in
      let s =
        session_to_notify (client.find_first (λ (k : Conversation). k.uid == c) w2.conversations) in
      let able = can_send c o.now u v o.message w h.new h.apart h.sender h.recipient h.fresh in
      let (result, sent) =
        delivery_outcome c u o.now w2 o.message dto.content s able
          (ground (arith, members_of c o.now u v u w h.new h.apart, ==_iff u u)) in
      let same : (create_message o u dto file w).1
          ≡ (create_text_message o.message u dto.content c s o.now w2).1 =
        ground (arith, to_v, no_session, text, recipient_lem o u v w h, result) in
      (
        ground (arith, to_v, no_session, text, recipient_lem o u v w h, result),
        rw same λ x. ground (arith, sent.receipts x, members_of c o.now u v x w h.new h.apart),
        rw same sent.own,
      )
