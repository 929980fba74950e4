-- ===== src/Tests/Players.antt =====
-- Joining, leaving, changing team and rating in the sample sessions.
use ludora_back.Prelude.{ℕ, ◌≡◌, ◌≤◌, refl, suc, count, none, [], ◌∷◌, arith, ==_iff}
use ludora_back.World.{RatingStatus, list_client, ok, World, Refuses}
use ludora_back.ConversationMembers.{is_member}
use ludora_back.SessionPlayers.{
  CreateSessionPlayerDto, is_player, in_team, join_session, leave_session,
  switch_player_to_another_team, update_rating_status, verify_player_eligibility_before_join,
}
use ludora_back.SessionPlayers.Eligibility.{IsEligible, verify_player_eligibility_before_join_iff}
use ludora_back.SessionPlayers.Join.{join_session_succeeds, join_session_stuck}
use ludora_back.SessionPlayers.Places.{IsValid, join_session-IsValid, leave_session_outcome}
use ludora_back.SessionPlayers.Switch.{switch_player_to_another_team_outcome}
use ludora_back.SessionPlayers.Rating.{has_reached, update_rating_status_monotone}
use ludora_back.Tests.SessionSample.{evening, conversation, season}

abbrev dto : CreateSessionPlayerDto
dto = record { team_uid = 20; user_uid = 2; session_uid = 10 }

once : (s u : ℕ) → count (is_player s u) season.session_players ≤ 1
once s u = ground (arith, ==_iff 10 s, ==_iff 11 s, ==_iff 3 u, ==_iff 4 u)

season-IsValid : IsValid (λ k. 2) season.session_players
season-IsValid = record {
  once = once;
  room = λ k. ground (arith, ==_iff 20 k, ==_iff 22 k, ==_iff 23 k);
}

two-IsEligible : IsEligible 2 20 evening season
two-IsEligible = record {
  no_deleted = refl;
  befriended = refl;
  team_known = omega arith;
  room = omega arith;
  absent = refl;
  unblocked = λ q h. refl;
}

verify_player_eligibility_before_join_iff_example :
    (verify_player_eligibility_before_join 2 20 evening season).0 ≡ ok tt
verify_player_eligibility_before_join_iff_example =
    (verify_player_eligibility_before_join_iff 2 20 evening season).1.1 two-IsEligible

join_session_succeeds_example :
    let (r, w') = join_session 73 dto evening season in
    (r ≡ ok (record { conversation_uid = 30; session_uid = 10 }))
    × (count (is_player 10 2) w'.session_players ≡ 1)
    × (count (in_team 20) w'.session_players ≡ suc (count (in_team 20) season.session_players))
    × (count (is_member 30 2) w'.conversation_members ≡ 1)
join_session_succeeds_example =
    join_session_succeeds 73 dto evening season two-IsEligible refl refl refl conversation refl refl

-- The place of user 1 in the session, after the user was deleted.
abbrev deserted : World
deserted = record season {
  session_players =
      record { uid = 90; session_uid = 10; team_uid = 20; user_uid = none; rating_status = none }
      ∷ [];
}

join_session_stuck_example : Refuses deserted (join_session 73 dto evening deserted)
join_session_stuck_example = join_session_stuck 73 dto evening deserted (omega arith)

join_session-IsValid_example :
    IsValid (λ k. 2) (join_session 73 dto evening season).1.session_players
join_session-IsValid_example =
    join_session-IsValid (λ k. 2) 73 dto evening season (omega arith) season-IsValid

leave_session_outcome_example :
    let (r, w') = leave_session evening 1 50 season in
    (r ≡ ok tt)
    × (count (is_player 10 1) w'.session_players ≡ 0)
    × (count (is_member 30 1) w'.conversation_members ≡ 0)
leave_session_outcome_example =
    leave_session_outcome evening 1 50 season (omega arith) (omega arith) conversation refl
      (omega arith)

switch_player_to_another_team_outcome_example :
    let (r, w') = switch_player_to_another_team evening 1 21 season in
    (r ≡ ok tt)
    × (count (is_player 10 1) w'.session_players ≡ 1)
    × (count (in_team 21) w'.session_players ≡ suc (count (in_team 21) season.session_players))
switch_player_to_another_team_outcome_example =
    switch_player_to_another_team_outcome evening 1 21 season (omega arith) (refl, refl)

update_rating_status_monotone_example :
    count (has_reached 1 10 1) season.session_players
    ≤ count
        (has_reached 1 10 1)
        (update_rating_status 1 10 RatingStatus.validated season).1.session_players
update_rating_status_monotone_example =
    update_rating_status_monotone 1 10 RatingStatus.validated season once 1 10 1
