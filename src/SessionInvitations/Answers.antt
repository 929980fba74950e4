-- ===== src/SessionInvitations/Answers.antt =====
-- What the answer to an invitation does.
use ludora_back.Prelude.{
  ℕ, ◌≡◌, ◌≢◌, ◌≤◌, ◌<◌, inl, inr, Bool, true, not, ◌&&◌, ◌==◌, Option, some, arith, count,
  count-none, count-ext, Option-cases, refl,
}
use ludora_back.World.{
  Client, World, Session, SessionTeam, SessionInvitation, InvitationStatus, ◌is_status◌, Refuses,
  ok,
}
use ludora_back.SessionPlayers.{add_player_to_session, create_player}
use ludora_back.SessionInvitations.{
  is_key, concerns, update, accept, set_status, UpdateSessionInvitationDto,
}

module _ ⦃client : Client⦄ where
  module _ (uid : ℕ) (dto : UpdateSessionInvitationDto) (w : World) (e : SessionInvitation)
      (found : client.find_first (concerns dto.session_uid dto.user_uid) w.session_invitations
        ≡ some e) where
    -- The receiver's refusal returns like a success, but it is not written: the invitation keeps
    -- its status, and nothing else changes either.
    pub update_reject_ignored :
        0 < count (λ (s : Session). s.uid == e.session_uid) w.sessions
        → dto.status ≡ InvitationStatus.rejected
        → e.receiver_uid ≡ dto.user_uid
        → e.sender_uid ≢ dto.user_uid
        → e.status ≢ InvitationStatus.rejected
        → update uid dto w ≡ (ok tt, w)
    unfolding update
    update_reject_ignored known refused own other before =
        ground (
          arith,
          found,
          client.find_first-none (λ (s : Session). s.uid == e.session_uid) w.sessions,
        )

    abbrev of_e : SessionInvitation → Bool
    of_e = is_key e.session_uid e.sender_uid e.receiver_uid

    abbrev canceled : SessionInvitation → SessionInvitation
    canceled i = record i { status = InvitationStatus.canceled }

    update_cancels :
        0 < count (λ (s : Session). s.uid == e.session_uid) w.sessions
        → dto.status ≡ InvitationStatus.canceled
        → e.sender_uid ≡ dto.user_uid
        → e.receiver_uid ≢ dto.user_uid
        → e.status ≢ InvitationStatus.canceled
        → update uid dto w ≡ (
          ok tt,
          record w { session_invitations = client.update_many of_e canceled w.session_invitations },
        )
    unfolding update set_status
    update_cancels known gone own other before = ground (
      arith,
      gone,
      client.find_first-none (λ (s : Session). s.uid == e.session_uid) w.sessions,
      client.find_first-mem (concerns dto.session_uid dto.user_uid) w.session_invitations e of_e
          found,
    )

    -- The sender's withdrawal is written to the invitation that was found, and nothing else is.
    pub update_cancel_written :
        0 < count (λ (s : Session). s.uid == e.session_uid) w.sessions
        → dto.status ≡ InvitationStatus.canceled
        → e.sender_uid ≡ dto.user_uid
        → e.receiver_uid ≢ dto.user_uid
        → e.status ≢ InvitationStatus.canceled
        → count (is_key e.session_uid e.sender_uid e.receiver_uid) w.session_invitations ≤ 1
        → let (r, w') = update uid dto w in
          (r ≡ ok tt)
          × (count
                (λ i.
                  is_key e.session_uid e.sender_uid e.receiver_uid i
                  && i.status is_status InvitationStatus.canceled)
                w'.session_invitations
              ≡ 1)
          × (w' ≡ record w { session_invitations = w'.session_invitations })
    update_cancel_written known gone own other before once =
        rw (update_cancels known gone own other before) (
          refl,
          omega (
            arith,
            client.count-update_many of_e canceled
                (λ i. of_e i && i.status is_status InvitationStatus.canceled) w.session_invitations,
            count-ext (λ i. of_e i && (of_e i && true)) of_e w.session_invitations
                (λ i. ground arith),
            count-none
                (λ i. not (of_e i) && (of_e i && i.status is_status InvitationStatus.canceled))
                w.session_invitations (λ i. ground arith),
            once,
            client.find_first-mem (concerns dto.session_uid dto.user_uid) w.session_invitations e
                of_e found (ground arith),
          ),
          refl,
        )

    accept_refused :
        (creator : Option ℕ)
        → count (λ (t : SessionTeam). t.uid == e.session_uid) w.session_teams ≡ 0
        → Refuses w (accept uid e creator w)
    unfolding accept set_status add_player_to_session create_player
    accept_refused creator no_team = ground arith

    -- Accepting names the id of the session as the team. Where no team has that id, the database
    -- refuses the player, the transaction undoes the new status, and the call throws: no
    -- invitation can be accepted, and nothing changes.
    pub update_accept_refused :
        count (λ (t : SessionTeam). t.uid == e.session_uid) w.session_teams ≡ 0
        → dto.status ≡ InvitationStatus.accepted
        → e.receiver_uid ≡ dto.user_uid
        → Refuses w (update uid dto w)
    unfolding update
    update_accept_refused no_team accepts own =
        elim (Option-cases
          (client.find_first (λ (s : Session). s.uid == e.session_uid) w.sessions)) [
            | inl missing ↦ ground arith
            | inr (session, here) ↦ ground (arith, accept_refused session.creator_uid no_team)
          ]
