-- ===== src/Messages/Reading.antt =====
-- Marking the messages of a conversation as read.
use ludora_back.Prelude.{
  ℕ, ◌≡◌, ◌<◌, ◌⊎◌, inl, inr, Bool, true, not, ◌&&◌, ◌==◌, ltb, List, map, elem, arith, ap, count,
  count-ext, count-none, count-le, refl, ==_iff, Bool-cases,
}
use ludora_back.World.{
  Client, Message, MessageReceipt, MessageStatus, ◌is_message◌, World, Refuses, is_ok, has,
  count-update_many_same, elem-map-find_many,
}
use ludora_back.ConversationMembers.{is_member, update_member}
use ludora_back.Messages.{
  is_uid, is_from_other, is_among, is_unread, is_receipt_among, message_of, with_message_status,
  with_status, write_read, mark_messages_as_read,
}

module _ ⦃client : Client⦄ where
  -- The ids of the messages that the call marks.
  abbrev pub targets : (conversation_uid user_uid : ℕ) → World → List ℕ
  targets c u w =
      map message_of (client.find_many (is_unread w.chat.messages c u) w.chat.message_receipts)

  module _ (c u now : ℕ) (w : World) where
    pub mark_cases :
        let (r, w') = mark_messages_as_read c u now w in
        (count (is_member c u) w.conversation_members ≡ 0) × Refuses w (r, w')
        ⊎ (has (is_member c u) w.conversation_members ≡ true)
          × (is_ok r ≡ true)
          × (w'.chat.messages
              ≡ client.update_many
                  (is_among (targets c u w))
                  (with_message_status MessageStatus.read)
                  w.chat.messages)
          × (w'.chat.message_receipts
              ≡ client.update_many
                  (is_receipt_among (targets c u w) u)
                  (with_status MessageStatus.read)
                  w.chat.message_receipts)
    unfolding mark_messages_as_read write_read update_member
    mark_cases = ground arith

    -- What the user has not read of message `x`, against the given messages.
    abbrev unread_of : List Message → ℕ → MessageReceipt → Bool
    unread_of t x r = is_unread t c u r && r.message_uid == x

    abbrev marked_messages : List Message
    marked_messages =
        client.update_many (is_among (targets c u w)) (with_message_status MessageStatus.read)
          w.chat.messages

    abbrev marked_receipts : List MessageReceipt
    marked_receipts =
        client.update_many (is_receipt_among (targets c u w) u) (with_status MessageStatus.read)
          w.chat.message_receipts

    elem-targets :
        (x : ℕ) → elem x (targets c u w) ≡ has (unread_of w.chat.messages x) w.chat.message_receipts
    elem-targets x =
        elem-map-find_many x message_of (is_unread w.chat.messages c u) w.chat.message_receipts

    -- Whose message it is does not change.
    is_unread_marked :
        (r : MessageReceipt) → is_unread marked_messages c u r ≡ is_unread w.chat.messages c u r
    is_unread_marked r =
        let same =
          count-update_many_same (is_among (targets c u w)) (with_message_status MessageStatus.read)
            (λ m. m.uid == r.message_uid && is_from_other c u m) w.chat.messages (λ m. refl) in
        ap (λ (n : ℕ). r.user_uid == u && not (r.status is_message MessageStatus.read) && ltb 0 n)
          same

    elem_of : (x y : ℕ) (us : List ℕ) → (y == x) ≡ true → elem y us ≡ elem x us
    elem_of x y us h = ap (λ (z : ℕ). elem z us) ((==_iff y x).0 h)

    none_left : (x : ℕ) → count (unread_of marked_messages x) marked_receipts ≡ 0
    none_left x =
        let chosen = is_receipt_among (targets c u w) u in
        let after = unread_of marked_messages x in
        let before = unread_of w.chat.messages x in
        let done =
          count-none (λ r. chosen r && after (with_status MessageStatus.read r))
            w.chat.message_receipts (λ r. ground arith) in
        let left : count (λ r. not (chosen r) && after r) w.chat.message_receipts ≡ 0 =
          elim (Bool-cases (elem x (targets c u w))) [
            | inl listed ↦
                count-none (λ r. not (chosen r) && after r) w.chat.message_receipts
                  (λ r. ground (arith, elem_of x r.message_uid (targets c u w), listed))
            | inr absent ↦ ground (
              arith,
              elem-targets x,
              absent,
              count-le (λ r. not (chosen r) && after r) before w.chat.message_receipts
                  (λ r h. ground (arith, is_unread_marked r)),
            )
          ] in
        omega (
          arith,
          client.count-update_many chosen (with_status MessageStatus.read) after
              w.chat.message_receipts,
          done,
          left,
        )

    others_kept :
        (q : MessageReceipt → Bool)
        → count (λ r. not (r.user_uid == u) && q r) marked_receipts
          ≡ count (λ r. not (r.user_uid == u) && q r) w.chat.message_receipts
    others_kept q =
        let chosen = is_receipt_among (targets c u w) u in
        let apart : MessageReceipt → Bool = λ r. not (r.user_uid == u) && q r in
        omega (
          arith,
          client.count-update_many chosen (with_status MessageStatus.read) apart
              w.chat.message_receipts,
          count-none (λ r. chosen r && apart (with_status MessageStatus.read r))
              w.chat.message_receipts (λ r. ground arith),
          count-ext (λ r. not (chosen r) && apart r) apart w.chat.message_receipts
              (λ r. ground arith),
        )

    -- Only a member reads: for anyone else the call throws and writes nothing. A member has then
    -- no unread receipt for any message of others in the conversation, and the receipts of other
    -- users are as they were.
    pub mark_messages_as_read_outcome :
        let (r, w') = mark_messages_as_read c u now w in
        (count (is_member c u) w.conversation_members ≡ 0) × Refuses w (r, w')
        ⊎ (is_ok r ≡ true)
          × ((x : ℕ)
              → count
                  (λ r. is_unread w'.chat.messages c u r && r.message_uid == x)
                  w'.chat.message_receipts
                ≡ 0)
          × ((q : MessageReceipt → Bool)
              → count (λ r. not (r.user_uid == u) && q r) w'.chat.message_receipts
                ≡ count (λ r. not (r.user_uid == u) && q r) w.chat.message_receipts)
    mark_messages_as_read_outcome = elim mark_cases [
      | inl refused ↦ inl refused
      | inr (member, done, messages, receipts) ↦
          inr (done, rw (messages, receipts) none_left, rw receipts others_kept)
    ]

    abbrev of_status : MessageStatus → ℕ → Message → Bool
    of_status status x m = is_uid x m && m.global_status is_message status

    -- A listed message is read, and no longer deleted.
    status_marked :
        (x : ℕ)
        → elem x (targets c u w) ≡ true
        → (count (of_status MessageStatus.deleted x) marked_messages ≡ 0)
          × (count (of_status MessageStatus.read x) marked_messages
              ≡ count (is_uid x) w.chat.messages)
    status_marked x listed =
        let chosen = is_among (targets c u w) in
        let read = with_message_status MessageStatus.read in
        let none_kept = λ (status : MessageStatus).
          count-none (λ m. not (chosen m) && of_status status x m) w.chat.messages
            (λ m. ground (arith, elem_of x m.uid (targets c u w), listed)) in
        (
          omega (
            arith,
            client.count-update_many chosen read (of_status MessageStatus.deleted x)
                w.chat.messages,
            none_kept MessageStatus.deleted,
            count-none (λ m. chosen m && of_status MessageStatus.deleted x (read m)) w.chat.messages
                (λ m. ground arith),
          ),
          omega (
            arith,
            client.count-update_many chosen read (of_status MessageStatus.read x) w.chat.messages,
            none_kept MessageStatus.read,
            count-ext (λ m. chosen m && of_status MessageStatus.read x (read m)) (is_uid x)
                w.chat.messages (λ m. ground (arith, elem_of x m.uid (targets c u w), listed)),
          ),
        )

    -- Reading does not look at deletions: a message of the conversation that its sender deleted,
    -- and of which the member had an unread receipt, is READ again, and no longer deleted.
    pub mark_messages_as_read_revives :
        (x : ℕ)
        → has (is_member c u) w.conversation_members ≡ true
        → 0
          < count
              (λ r. is_unread w.chat.messages c u r && r.message_uid == x)
              w.chat.message_receipts
        → 0
          < count
              (λ m. is_uid x m && m.global_status is_message MessageStatus.deleted)
              w.chat.messages
        → let (r, w') = mark_messages_as_read c u now w in
          (is_ok r ≡ true)
          × (count
                (λ m. is_uid x m && m.global_status is_message MessageStatus.deleted)
                w'.chat.messages
              ≡ 0)
          × (0
              < count
                  (λ m. is_uid x m && m.global_status is_message MessageStatus.read)
                  w'.chat.messages)
    mark_messages_as_read_revives x member unread gone = elim mark_cases [
      | inl (outside, failed) ↦ absurd (ground (arith, member, outside))
      | inr (_, done, messages, receipts) ↦
          let (none_deleted, all_read) = status_marked x (ground (arith, elem-targets x, unread)) in
          (
            done,
            rw messages none_deleted,
            rw messages (
                omega (
                  arith,
                  all_read,
                  gone,
                  count-le (of_status MessageStatus.deleted x) (is_uid x) w.chat.messages
                      (λ m h. ground arith),
                )),
          )
    ]
