-- ===== src/Tests/Invitations.antt =====
-- Invitations to the sample sessions, and their answers.
use ludora_back.Prelude.{true, false, ◌<◌, ◌⊎◌, count, ℕ, ◌≡◌, ◌≤◌, ◌&&◌, refl, List, [], ◌∷◌, elem}
use ludora_back.World.{InvitationStatus, list_client, ok, Refuses}
use ludora_back.Users
use ludora_back.Sessions
use ludora_back.SessionInvitations.{
  UpdateSessionInvitationDto, update, create_many, check_valid_uids, check_valid_uid, send_all,
  upsert, check_valid_uid_before_sending_invitations,
}
use ludora_back.SessionInvitations.Checks.{
  may_invite, times, check_valid_uid_before_sending_invitations_outcome,
}
use ludora_back.SessionInvitations.Answers.{update_accept_refused}
use ludora_back.SessionInvitations.Sending.{is_for}
use ludora_back.SessionInvitations.Outcome.{is_open, create_many_outcome}
use ludora_back.Tests.SessionSample.{invitation, season}

abbrev answer : InvitationStatus → ℕ → UpdateSessionInvitationDto
answer status u = record { status = status; user_uid = u; session_uid = 10 }

abbrev receivers : List ℕ
receivers = 2 ∷ 5 ∷ 5 ∷ 1 ∷ 9 ∷ []

check_valid_uid_before_sending_invitations_outcome_example :
    (valid : List ℕ) × (check_valid_uid_before_sending_invitations 1 10 receivers season
      ≡ (ok valid, season))
    × ((x : ℕ) → elem x valid ≡ (elem x receivers && may_invite 1 10 season x))
    × ((x : ℕ) → times x valid ≤ 1)
check_valid_uid_before_sending_invitations_outcome_example =
    check_valid_uid_before_sending_invitations_outcome 1 10 season receivers

update_accept_refused_example :
    Refuses season (update 73 (answer InvitationStatus.accepted 2) season)
update_accept_refused_example =
    update_accept_refused 73 (answer InvitationStatus.accepted 2) season invitation refl refl refl
      refl

create_many_outcome_example :
    let w' = (create_many 1 10 receivers season).1 in
    (may_invite 1 10 season 2 ≡ true) × (0 < count (is_open 10 1 2) w'.session_invitations)
    ⊎ (may_invite 1 10 season 2 ≡ false)
      × (count (is_for 2 (λ i. true)) w'.session_invitations
          ≡ count (is_for 2 (λ i. true)) season.session_invitations)
unfolding create_many Users.find_one Sessions.find_one check_valid_uid_before_sending_invitations
    check_valid_uids check_valid_uid send_all upsert
create_many_outcome_example = create_many_outcome 1 10 receivers 2 (λ i. true) season refl refl
