-- ===== src/Messages/Receipts.antt =====
-- The receipts that are written for a new message.
use ludora_back.Prelude.{
  ℕ, ◌+◌, ◌≡◌, ◌≤◌, inl, inr, Bool, true, not, ◌&&◌, ◌==◌, List, [], ◌∷◌, map, arith, count,
  count-ext, count-none, bit, refl, ==_iff, Bool-cases,
}
use ludora_back.World.{
  Client, User, ConversationMember, MessageReceipt, MessageStatus, World, ok, is_some, has,
  elem-map-find_many,
}
use ludora_back.Users.{find_user}
use ludora_back.ConversationMembers.{is_member}
use ludora_back.Messages.{
  is_receipt, is_other_member, receipt, to_set, insert_receipt, insert_receipts,
}
use ludora_back.Messages.Sets.{times, times-to_set}

module _ ⦃client : Client⦄ where
  abbrev pub inserted : ℕ → List ℕ → List MessageReceipt → List MessageReceipt
  inserted m [] t = t
  inserted m (u ∷ us) t = inserted m us (client.insert (receipt m MessageStatus.delivered u) t)

  pub count-inserted :
      (q : MessageReceipt → Bool) (m : ℕ) (us : List ℕ) (t : List MessageReceipt)
      → count q (inserted m us t)
        ≡ count (λ u. q (receipt m MessageStatus.delivered u)) us + count q t
  count-inserted q m [] t = omega arith
  count-inserted q m (u ∷ us) t = omega (
    arith,
    count-inserted q m us (client.insert (receipt m MessageStatus.delivered u) t),
    client.count-insert (receipt m MessageStatus.delivered u) q t,
  )

  pub receipts_for :
      (m x : ℕ) (us : List ℕ) (t : List MessageReceipt)
      → count (is_receipt m x) (inserted m us t) ≡ times x us + count (is_receipt m x) t
  receipts_for m x us t = omega (
    arith,
    count-inserted (is_receipt m x) m us t,
    count-ext (λ u. is_receipt m x (receipt m MessageStatus.delivered u)) (λ y. x == y) us
        (λ u. ground (arith, ==_iff m m, ==_iff u x, ==_iff x u)),
  )

  -- Every id is that of a user.
  abbrev pub AllKnown : List ℕ → List User → Type 0
  AllKnown [] t = Unit {0}
  AllKnown (u ∷ us) t =
      (is_some (client.find_first (λ (x : User). x.uid == u) t) ≡ true) × AllKnown us t

  abbrev pub with_receipts : World → List MessageReceipt → World
  with_receipts w t = record w { chat = record w.chat { message_receipts = t } }

  pub inserted_one :
      (r : MessageReceipt) (w : World)
      → count (is_receipt r.message_uid r.user_uid) w.chat.message_receipts ≡ 0
      → is_some (find_user r.user_uid w) ≡ true
      → insert_receipt r w ≡ (ok tt, with_receipts w (client.insert r w.chat.message_receipts))
  unfolding insert_receipt
  inserted_one r w fresh user = ground arith

  pub insert_receipts_lem :
      (m : ℕ) (us : List ℕ) (w : World)
      → ((x : ℕ) → times x us + count (is_receipt m x) w.chat.message_receipts ≤ 1)
      → AllKnown us w.users
      → insert_receipts m us w ≡ (ok tt, with_receipts w (inserted m us w.chat.message_receipts))
  unfolding insert_receipts
  insert_receipts_lem m [] w fresh known = refl
  insert_receipts_lem m (u ∷ us) w fresh (user, known) =
      let r = receipt m MessageStatus.delivered u in
      let w1 = with_receipts w (client.insert r w.chat.message_receipts) in
      let first : insert_receipt r w ≡ (ok tt, w1) =
        inserted_one r w (ground (arith, fresh u, ==_iff u u)) user in
      let rest = insert_receipts_lem m us w1 (λ x. still x) known in ground (arith, first, rest)
    where
      still :
          (x : ℕ)
          → times x us
              + count
                  (is_receipt m x)
                  (client.insert (receipt m MessageStatus.delivered u) w.chat.message_receipts)
            ≤ 1
      still x = ground (
        arith,
        fresh x,
        client.count-insert (receipt m MessageStatus.delivered u) (is_receipt m x)
            w.chat.message_receipts,
        ==_iff u x,
        ==_iff x u,
      )

  -- The other members, each once.
  abbrev pub others : (conversation_uid sender_uid : ℕ) → World → List ℕ
  others c u w = to_set (
      map (λ (m : ConversationMember). m.user_uid)
        (client.find_many (is_other_member c u) w.conversation_members))

  pub times-others :
      (c u x : ℕ) (w : World)
      → times x (others c u w) ≡ bit (not (x == u) && has (is_member c x) w.conversation_members)
  times-others c u x w =
      let members = w.conversation_members in
      let listed =
        map (λ (m : ConversationMember). m.user_uid)
          (client.find_many (is_other_member c u) members) in
      let both : ConversationMember → Bool = λ m. is_other_member c u m && m.user_uid == x in
      let found =
        elem-map-find_many x (λ (m : ConversationMember). m.user_uid) (is_other_member c u)
          members in
      elim (Bool-cases (x == u)) [
        | inl own ↦ ground (
          arith,
          times-to_set x listed,
          found,
          own,
          count-none both members
              (λ m. ground (arith, own, ==_iff x u, ==_iff m.user_uid x, ==_iff m.user_uid u)),
        )
        | inr apart ↦ ground (
          arith,
          times-to_set x listed,
          found,
          apart,
          count-ext both (is_member c x) members
              (λ m. ground (arith, apart, ==_iff x u, ==_iff m.user_uid x, ==_iff m.user_uid u)),
        )
      ]
