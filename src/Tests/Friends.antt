-- ===== src/Tests/Friends.antt =====
-- Friend requests, answers and removals.
use ludora_back.Prelude.{◌≡◌, refl, true, some, List, [], ◌∷◌, arith, count}
use ludora_back.World.{Friend, list_client, InvitationStatus}
use ludora_back.Friends.{
  update, check_update_authorization, set_status, include_users, emit_friend_request_update_event,
  is_live, is_pending, is_between,
}
use ludora_back.Friends.Cases.{IsAllowed}
use ludora_back.Friends.Valid.{IsValid}
use ludora_back.Friends.Effects.{update_authorized}
use ludora_back.Friends.Answers.{update_outcome}
use ludora_back.Social.{Call, run, requests, answers, removes, blocks}
use ludora_back.Social.History.{run-IsValid}
use ludora_back.Tests.Sample.{sample}

sample-IsValid : IsValid sample.friends
sample-IsValid = record {
  live_once = λ a b. ground arith;
  keyed = λ a b. ground arith;
  no_self = refl;
}

abbrev history : List Call
history =
    requests 3 1 10
    ∷ requests 1 3 11
    ∷ answers 2 1 InvitationStatus.accepted 12
    ∷ removes 3 2
    ∷ blocks 1 2
    ∷ []

run-IsValid_example : IsValid (run sample history).friends
run-IsValid_example = run-IsValid history sample sample-IsValid

update_authorized_example :
    (e : Friend) × (list_client.find_first (is_pending 2 1) sample.friends ≡ some e)
    × (is_between 2 1 e ≡ true)
    × (e.status ≡ InvitationStatus.pending)
    × IsAllowed 2 InvitationStatus.accepted e
unfolding update check_update_authorization set_status include_users
    emit_friend_request_update_event
update_authorized_example = update_authorized 2 1 InvitationStatus.accepted 5 sample refl

update_outcome_example :
    count (is_live 2 1) (update 2 1 InvitationStatus.rejected 5 sample).1.friends ≡ 0
unfolding update check_update_authorization set_status include_users
    emit_friend_request_update_event
update_outcome_example = update_outcome 2 1 InvitationStatus.rejected 5 sample sample-IsValid refl
