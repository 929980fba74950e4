-- ===== src/Tests/Accounts.antt =====
-- The state of accounts, their devices and their preferences.
use ludora_back.Prelude.{
  ℕ, ◌≡◌, Bool, true, false, not, ◌&&◌, ◌==◌, Option, none, some, List, [], ◌∷◌, count, arith, bit,
  refl, ltb, ◌≤◌, ==_iff,
}
use ludora_back.World.{
  list_client, World, User, Device, UserHourPreferenceType, TimePeriod, ok, is_ok, has,
}
use ludora_back.Guards.{auth_b2c_guard}
use ludora_back.Accounts.{deletion_request, cancel_deletion_request}
use ludora_back.Accounts.Deletion.{cancel-deletion_request}
use ludora_back.Lifecycle.{anonymize_user, is_friend_of}
use ludora_back.Lifecycle.Anonymized.{
  CanAnonymize, is_personal, anonymize_user-still_admits, anonymize_user_outcome,
}
use ludora_back.Devices.{is_device, clean_invalid_tokens}
use ludora_back.Devices.Cleaning.{is_stale, is_sound, clean_invalid_tokens_outcome}
use ludora_back.Preferences.{HourPreferenceData, is_recurrent_at, validate_hour_preferences}
use ludora_back.Preferences.Valid.{NoDuplicates, validate_hour_preferences-NoDuplicates}
use ludora_back.Tests.Sample.{sample, no_auth}
use ludora_back.Tests.AuthSample.{server, ann, signed_in}

cancel-deletion_request_example :
    let (r, w1) = deletion_request 1 1000 sample in
    let (r', w2) = cancel_deletion_request 1 w1 in
    (is_ok r ≡ true)
    × (is_ok (deletion_request 1 2000 w1).0 ≡ false)
    × (is_ok r' ≡ true)
    × ((q : User → Bool) → count q w2.users ≡ count q sample.users)
cancel-deletion_request_example = cancel-deletion_request 1 1000 2000 sample refl (omega arith)

ann_ready : CanAnonymize (λ u. true) 1 "anon" signed_in ann
ann_ready = record { found = refl; marked = refl; revocable = refl; new_email = refl }

anonymize_user-still_admits_example :
    let w' = (anonymize_user (λ u. true) 1 "anon" signed_in).1 in
    is_ok (auth_b2c_guard server false false (some 40) 2000 w').0 ≡ true
anonymize_user-still_admits_example =
    anonymize_user-still_admits (λ u. true) 1 "anon" signed_in ann server 40 2000 ann_ready refl
      refl

abbrev device : ℕ → ℕ → Device
device uid k = record {
  uid = uid;
  user_uid = 1;
  fcm_token = k;
  device_id = 1;
  is_active = true;
  last_seen_at = none;
}

-- Tokens from 100 on are not valid.
abbrev below_hundred : ℕ → Bool
below_hundred k = ltb k 100

abbrev phones : World
phones = record sample {
  auth = record no_auth { devices = device 1 10 ∷ device 2 100 ∷ device 3 200 ∷ [] };
}

phones_once : (i : ℕ) → count (is_device i) phones.auth.devices ≤ 1
phones_once i = ground (arith, ==_iff 1 i, ==_iff 2 i, ==_iff 3 i)

clean_invalid_tokens_outcome_example :
    let (r, w') = clean_invalid_tokens below_hundred phones in
    (is_ok r ≡ true)
    × (count (is_stale below_hundred) w'.auth.devices ≡ 0)
    × ((i : ℕ)
        → count (is_sound below_hundred i) w'.auth.devices
          ≡ count (is_sound below_hundred i) phones.auth.devices)
clean_invalid_tokens_outcome_example = clean_invalid_tokens_outcome below_hundred phones phones_once

abbrev preference : UserHourPreferenceType → ℕ → Option ℕ → HourPreferenceData
preference kind d date = record {
  kind = kind;
  day_of_week = d;
  time_period = TimePeriod.morning;
  date = date;
}

abbrev wishes : List HourPreferenceData
wishes =
    preference UserHourPreferenceType.one_time 0 (some 3)
    ∷ preference UserHourPreferenceType.recurrent 3 none
    ∷ preference UserHourPreferenceType.recurrent 3 none
    ∷ []

validate_hour_preferences-NoDuplicates_example :
    NoDuplicates (λ v. v) (validate_hour_preferences (λ v. v) wishes)
    × ((d : ℕ) (t : TimePeriod)
        → count (is_recurrent_at d t) (validate_hour_preferences (λ v. v) wishes)
          ≡ bit (has (is_recurrent_at d t) wishes))
validate_hour_preferences-NoDuplicates_example =
    validate_hour_preferences-NoDuplicates (λ v. v) wishes

anonymize_user_outcome_example :
    let (r, w') = anonymize_user (λ u. true) 1 "anon" signed_in in
    (r ≡ ok tt)
    × (count (is_personal (λ u. true) 1 "anon" signed_in) w'.users ≡ 0)
    × (count (is_friend_of 1) w'.friends ≡ 0)
    × ((q : User → Bool)
        → count (λ u. not (u.uid == 1) && q u) w'.users
          ≡ count (λ u. not (u.uid == 1) && q u) signed_in.users)
anonymize_user_outcome_example = anonymize_user_outcome (λ u. true) 1 "anon" signed_in ann ann_ready
