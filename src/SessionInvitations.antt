-- ===== src/SessionInvitations.antt =====
-- sessions/services/session-invitations.service.ts: invitations to a session, and their answers.
pub mod Checks
pub mod Answers
pub mod Sending
pub mod Outcome
use ludora_back.Prelude.{
  ℕ, Bool, true, false, not, ◌&&◌, ◌||◌, ◌==◌, ltb, Option, none, some, List, [], ◌∷◌, ◌++◌, map,
  if◌then◌else◌, elem, length,
}
use ludora_back.World.{
  Client, User, Session, SessionPlayer, SessionInvitation, InvitationStatus, ◌is_status◌, World,
  session_invitation, sender_not_found, session_not_found, invitation_not_found, status_already_set,
  not_for_receiver, not_for_sender, blocked_relationship, bad_request, not_found, forbidden,
  foreign_key_violation, record_not_found, validation_error, type_error, Action, pure, gets,
  or_raise, ◌>>=◌, ◌>>◌, raise_if, modify, emit, when, transaction, has, is_some, is_none,
}
use ludora_back.Users.{find_user, is_block_between}
use ludora_back.Users
use ludora_back.Sessions
use ludora_back.SessionPlayers.{
  CreateSessionPlayerDto, is_player, in_session, is_block_with, has_null, add_player_to_session,
}

abbrev pub is_key : ℕ → ℕ → ℕ → SessionInvitation → Bool
is_key s a b i = i.session_uid == s && i.sender_uid == a && i.receiver_uid == b

-- The invitations of a session that a user has sent or received.
abbrev pub concerns : ℕ → ℕ → SessionInvitation → Bool
concerns s u i = (i.sender_uid == u || i.receiver_uid == u) && i.session_uid == s

-- An invitation that is still open, or was accepted.
abbrev pub is_standing : Option SessionInvitation → Bool
is_standing none = false
is_standing (some i) =
    i.status is_status InvitationStatus.accepted || i.status is_status InvitationStatus.pending

-- `Set.add`
abbrev pub add : ℕ → List ℕ → List ℕ
add u set = if elem u set then set else set ++ u ∷ []

abbrev pub new_invitation : ℕ → ℕ → ℕ → SessionInvitation
new_invitation s a b = record {
  session_uid = s;
  sender_uid = a;
  receiver_uid = b;
  status = InvitationStatus.pending;
}

pub record UpdateSessionInvitationDto : Type 0 where
  pub status : InvitationStatus
  pub user_uid : ℕ
  pub session_uid : ℕ

module _ ⦃client : Client⦄ where
  -- One round of the loop of `checkValidUidBeforeSendingInvitations`, and the loop.
  unfoldable pub check_valid_uid : (sender_uid session_uid receiver_uid : ℕ) → Action Bool
  unfolding Users.find_one
  check_valid_uid a s b = do
    existing_receiver ← Users.find_one b none
    block ← gets (λ w. client.find_first (is_block_between b a) w.user_blocks)
    existing_player ← gets (λ w. client.find_first (is_player s b) w.session_players)
    existing_invitation ← gets (λ w. client.find_first (is_key s a b) w.session_invitations)
    pure (
        not (
          a == b
          || is_none existing_receiver
          || is_some block
          || is_some existing_player
          || is_standing existing_invitation))

  unfoldable pub check_valid_uids : (sender_uid session_uid : ℕ) → List ℕ → List ℕ → Action (List ℕ)
  check_valid_uids a s [] valid_uids = pure valid_uids
  check_valid_uids a s (b ∷ bs) valid_uids = do
    valid ← check_valid_uid a s b
    check_valid_uids a s bs (if valid then add b valid_uids else valid_uids)

  unfoldable pub check_valid_uid_before_sending_invitations :
      (sender_uid session_uid : ℕ) → List ℕ → Action (List ℕ)
  check_valid_uid_before_sending_invitations a s receiver_uids =
      check_valid_uids a s receiver_uids []

  -- `prisma.sessionInvitations.upsert` by the unique key.
  unfoldable pub upsert : (session_uid sender_uid receiver_uid : ℕ) → Action (Unit {0})
  upsert s a b = do
    exists ← gets (λ w. has (is_key s a b) w.session_invitations)
    raise_if (not exists && is_none (← gets (find_user a))) foreign_key_violation
    raise_if (not exists && is_none (← gets (find_user b))) foreign_key_violation
    raise_if (not exists && not (← gets (λ w. has (λ (r : Session). r.uid == s) w.sessions)))
        foreign_key_violation
    modify (λ w. record w {
      session_invitations =
          if exists
          then client.update_many (is_key s a b)
              (λ i. record i { status = InvitationStatus.pending }) w.session_invitations
          else client.insert (new_invitation s a b) w.session_invitations;
    })

  upsert_each : ℕ → ℕ → List ℕ → Action (Unit {0})
  upsert_each s a [] = pure tt
  upsert_each s a (b ∷ bs) = do upsert s a b; upsert_each s a bs

  pub emit_each : User → Session → ℕ → List ℕ → Action (Unit {0})
  emit_each sender session a [] = pure tt
  emit_each sender session a (b ∷ bs) = do
    when (not (a == b)) (emit (session_invitation sender session b))
    emit_each sender session a bs

  -- All invitations are written in one transaction, and then the receivers are told.
  unfoldable pub send_all :
      User → Session → (session_uid sender_uid : ℕ) → List ℕ → Action (Unit {0})
  unfolding upsert_each emit_each
  send_all sender session s a valid_uids = do
    transaction (upsert_each s a valid_uids)
    emit_each sender session a valid_uids

  -- The two ends of `createMany`: with the session and the sender at hand.
  invite_to : User → Session → (sender_uid session_uid : ℕ) → List ℕ → Action (Unit {0})
  invite_to sender session a s receiver_uids = do
    valid_uids ← check_valid_uid_before_sending_invitations a s receiver_uids
    when (ltb 0 (length valid_uids)) (send_all sender session s a valid_uids)

  pub invite_from : User → (sender_uid session_uid : ℕ) → List ℕ → Action (Unit {0})
  unfolding invite_to
  invite_from sender a s receiver_uids = do
    existing_session ← Sessions.find_one s none
    invite_to sender existing_session.session a s receiver_uids

  unfoldable pub create_many : (sender_uid session_uid : ℕ) → List ℕ → Action (Unit {0})
  unfolding invite_from
  create_many a s receiver_uids = do
    existing_sender ← or_raise (← Users.find_one a none) (not_found sender_not_found)
    invite_from existing_sender a s receiver_uids

  -- `prisma.sessionInvitations.update` of one row by its unique key.
  unfoldable pub set_status : SessionInvitation → InvitationStatus → Action (Unit {0})
  set_status e status = do
    let own = is_key e.session_uid e.sender_uid e.receiver_uid
    raise_if (not (← gets (λ w. has own w.session_invitations))) record_not_found
    modify (λ w. record w {
      session_invitations =
          client.update_many own (λ i. record i { status = status }) w.session_invitations;
    })

  -- The receiver accepts: nobody in the session has a block with them, and then the status and the
  -- new player are one transaction. The team is named by the id of the session, as in the code.
  unfoldable pub accept : ℕ → SessionInvitation → Option ℕ → Action (Unit {0})
  accept uid e creator_uid = do
    players ← gets (λ w. client.find_many (in_session e.session_uid) w.session_players)
    let existing_player_uids = map (λ (p : SessionPlayer). p.user_uid) players
    when (ltb 0 (length existing_player_uids)) do
      raise_if (has_null existing_player_uids) validation_error
      block ←
          gets (λ w.
            client.find_first (is_block_with existing_player_uids e.receiver_uid) w.user_blocks)
      raise_if (is_some block) (forbidden blocked_relationship)
    transaction do
      set_status e InvitationStatus.accepted
      add_player_to_session uid
          (record {
            team_uid = e.session_uid;
            user_uid = e.receiver_uid;
            session_uid = e.session_uid;
          })
          creator_uid

  unfoldable pub update : ℕ → UpdateSessionInvitationDto → Action (Unit {0})
  update uid dto = do
    e ←
        or_raise
          (← gets
            (λ w. client.find_first (concerns dto.session_uid dto.user_uid) w.session_invitations))
          (not_found invitation_not_found)
    session ←
        or_raise
          (← gets (λ w. client.find_first (λ (s : Session). s.uid == e.session_uid) w.sessions))
          type_error
    raise_if (dto.status is_status e.status) (bad_request status_already_set)
    let is_sender = dto.user_uid == e.sender_uid
    let is_receiver = dto.user_uid == e.receiver_uid
    let accepts = dto.status is_status InvitationStatus.accepted
    let cancels = dto.status is_status InvitationStatus.canceled
    raise_if (is_receiver && not accepts && not (dto.status is_status InvitationStatus.rejected))
        (bad_request not_for_receiver)
    raise_if (is_sender && not cancels) (bad_request not_for_sender)
    when (is_sender && cancels) (set_status e dto.status)
    when (not (is_sender && cancels) && is_receiver && accepts) (accept uid e session.creator_uid)
