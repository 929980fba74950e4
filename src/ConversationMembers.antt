-- ===== src/ConversationMembers.antt =====
-- conversations/services/conversation-members.service.ts: who takes part in a conversation.
use ludora_back.Prelude.{ℕ, Bool, true, false, not, ◌&&◌, ◌==◌, none, some, List, [], ◌∷◌}
use ludora_back.World.{
  Client, ConversationMember, Conversation, unique_violation, foreign_key_violation,
  record_not_found, Action, pure, gets, ◌>>=◌, ◌>>◌, raise_if, modify, transaction, has, is_none,
}
use ludora_back.Users.{find_user}

abbrev pub is_member : ℕ → ℕ → ConversationMember → Bool
is_member c u m = m.conversation_uid == c && m.user_uid == u

-- The defaults of the schema.
abbrev pub new_member : ℕ → ℕ → ConversationMember
new_member c u = record {
  conversation_uid = c;
  user_uid = u;
  is_archived = false;
  is_muted = false;
  is_visible = true;
  display_messages_after = none;
  last_read_at = none;
}

module _ ⦃client : Client⦄ where
  unfoldable pub create : (conversation_uid user_uid : ℕ) → Action (Unit {0})
  create c u = do
    raise_if (← gets (λ w. has (is_member c u) w.conversation_members)) unique_violation
    raise_if (not (← gets (λ w. has (λ (k : Conversation). k.uid == c) w.conversations)))
        foreign_key_violation
    raise_if (is_none (← gets (find_user u))) foreign_key_violation
    modify (λ w. record w {
      conversation_members = client.insert (new_member c u) w.conversation_members;
    })

  unfoldable pub create_each : ℕ → List ℕ → Action (Unit {0})
  create_each c [] = pure tt
  create_each c (u ∷ us) = do create c u; create_each c us

  -- `createMany` is one statement: it writes all rows or none.
  unfoldable pub create_many : (conversation_uid : ℕ) → (user_uids : List ℕ) → Action (Unit {0})
  unfolding create create_each
  create_many c us = transaction (create_each c us)

  -- `prisma.conversationMembers.update` of one row by its primary key.
  unfoldable pub update_member :
      ℕ → ℕ → (ConversationMember → ConversationMember) → Action (Unit {0})
  update_member c u f = do
    raise_if (not (← gets (λ w. has (is_member c u) w.conversation_members))) record_not_found
    modify (λ w. record w {
      conversation_members = client.update_many (is_member c u) f w.conversation_members;
    })

  unfoldable pub update_mute_settings : ℕ → ℕ → Bool → Action (Unit {0})
  update_mute_settings c u is_muted = update_member c u λ m. record m { is_muted = is_muted }

  unfoldable pub update_archived_settings : ℕ → ℕ → Bool → Action (Unit {0})
  update_archived_settings c u is_archived =
      update_member c u λ m. record m { is_archived = is_archived }

  -- A conversation that a user deletes is hidden, with the messages up to now.
  unfoldable pub update_display_messages_after_deletion : ℕ → ℕ → (now : ℕ) → Action (Unit {0})
  update_display_messages_after_deletion c u now =
      update_member c u λ m. record m { display_messages_after = some now; is_visible = false }

  -- `prisma.conversationMembers.delete` of one row by its primary key.
  unfoldable pub delete_member : ℕ → ℕ → Action (Unit {0})
  delete_member c u = do
    raise_if (not (← gets (λ w. has (is_member c u) w.conversation_members))) record_not_found
    modify (λ w. record w {
      conversation_members = client.delete_many (is_member c u) w.conversation_members;
    })
