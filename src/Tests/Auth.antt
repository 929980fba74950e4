-- ===== src/Tests/Auth.antt =====
-- Signing in and out.
use ludora_back.Prelude.{
  ℕ, ◌≡◌, ◌<◌, ◌≤◌, Bool, true, false, not, ◌&&◌, ◌==◌, none, some, [], count, arith, refl, ==_iff,
}
use ludora_back.World.{list_client, UserToken, RefreshToken, Refuses, ok, is_ok}
use ludora_back.Tokens.{
  Server, Payload, TokenType, payload, is_token, is_user_token, is_user_token_of,
  is_refresh_token_of, refresh_token, rotate, delete_refresh_token, create_refresh_token,
  create_user_token, logout,
}
use ludora_back.Tokens.Rotation.{OncePerToken, refresh_token-exchanges_once}
use ludora_back.Guards.{auth_b2c_guard, auth_b2b_guard, admin_guard, authenticate_socket}
use ludora_back.Guards.Denied.{logout-denies}
use ludora_back.Registration.{LoginDto, RegisterB2BDto, login, register_b2b}
use ludora_back.Registration.SignIn.{pair_of, login-admits}
use ludora_back.Registration.Partners.{register_b2b-shut_out}
use ludora_back.Registration.Emails.{update_email-locks_out}
use ludora_back.Verification.{
  generate_access_token_from_code, reset_forgotten_password, is_code, delete_code,
}
use ludora_back.Verification.Codes.{generate_access_token_from_code-once}
use ludora_back.Verification.Passwords.{has_password, reset_forgotten_password_outcome}
use ludora_back.Accounts.{update_email, update_user}
use ludora_back.Tests.ChatSample.{chatroom}
use ludora_back.Tests.AuthSample.{server, lowering, issue, later, ann, signed_in}

signed_in-Once : OncePerToken signed_in
signed_in-Once k = ground (arith, ==_iff 41 k)

refresh_token-exchanges_once_example :
    let w' = (refresh_token server issue 41 signed_in).1 in
    (count (is_token 50) w'.auth.refresh_tokens ≡ 1)
    × ((claims : Payload) × (server.verify 41 issue.now ≡ some claims)
        × (0 < count (is_user_token 50 claims.uid) w'.auth.user_tokens))
    × Refuses w' (refresh_token server later 41 w')
unfolding refresh_token rotate delete_refresh_token create_refresh_token
refresh_token-exchanges_once_example =
    refresh_token-exchanges_once server issue later 41
      (record { access_token = 50; refresh_token = 50 }) signed_in signed_in-Once refl refl

logout-denies_example :
    let w' = (logout 1 signed_in).1 in
    Refuses w' (auth_b2c_guard server false false (some 40) 1000 w')
    × Refuses w' (auth_b2b_guard server false (some 40) 1000 w')
    × Refuses w' (admin_guard server [] (some 40) 1000 w')
    × Refuses w' (
        authenticate_socket server
          (record { auth_token = none; query_auth = none; query_token = none; bearer = some 40 })
          1000
          w')
    × Refuses w' (refresh_token server issue 40 w')
logout-denies_example =
    logout-denies server issue
      (record { auth_token = none; query_auth = none; query_token = none; bearer = some 40 }) []
      false 40 (payload 1 TokenType.access) signed_in refl refl

abbrev credentials : LoginDto
credentials = record { email = "ann"; password = "secret" }

login-admits_example :
    let (r, w') = login server issue credentials signed_in in
    (r ≡ ok (pair_of server issue ann))
    × (is_ok (auth_b2c_guard server false false (some 50) 2000 w').0 ≡ true)
    × ((auth_b2c_guard server false false (some 50) 2000 w').1 ≡ w')
login-admits_example =
    login-admits server issue credentials ann "secret" 2000 signed_in refl refl refl refl refl

abbrev partner : RegisterB2BDto
partner = record {
  email = "club";
  partner_name = "Club";
  firstname = none;
  lastname = none;
  password = "x";
}

-- The token tells of the new user 5 and the new partner 6.
abbrev partner_server : Server
partner_server = record server {
  verify = λ k now. some (record { uid = 5; kind = none; organisation_uid = some 6 });
}

register_b2b-shut_out_example :
    let w' = (register_b2b partner_server issue 5 6 (some "url") true true partner signed_in).1 in
    Refuses w' (auth_b2b_guard partner_server false (some 50) 2000 w')
register_b2b-shut_out_example =
    register_b2b-shut_out partner_server issue 5 6 (some "url") true true partner 50 2000
      (record { uid = 5; kind = none; organisation_uid = some 6 }) signed_in refl refl refl

update_email-locks_out_example :
    let w' = (update_email 2 "Ann" chatroom).1 in
    Refuses w' (login lowering issue (record { email = "Ann"; password = "secret" }) w')
unfolding update_email update_user
update_email-locks_out_example =
    update_email-locks_out lowering issue 2 (record { email = "Ann"; password = "secret" }) chatroom
      refl refl refl

signed_in_codes : (u : ℕ) → count (is_code "123456" u) signed_in.auth.email_verifications ≤ 1
signed_in_codes u = ground (arith, ==_iff 1 u)

generate_access_token_from_code-once_example :
    let w' = (generate_access_token_from_code server 80 "123456" "ann" 1000 signed_in).1 in
    Refuses w' (generate_access_token_from_code server 82 "123456" "ann" 2000 w')
unfolding generate_access_token_from_code create_user_token delete_code
generate_access_token_from_code-once_example =
    generate_access_token_from_code-once server 80 82 "123456" "ann" 1000 2000 signed_in
      signed_in_codes refl

reset_forgotten_password_outcome_example :
    let (r, w') = reset_forgotten_password server issue "new" 1 signed_in in
    (r ≡ ok (record { access_token = 50; refresh_token = 50 }))
    × (count (λ x. x.uid == 1 && not (has_password "new" x)) w'.users ≡ 0)
    × (count (is_user_token_of 1) w'.auth.user_tokens ≡ 1)
    × (count (is_user_token 50 1) w'.auth.user_tokens ≡ 1)
    × (count (is_refresh_token_of 1) w'.auth.refresh_tokens ≡ 1)
    × (count (is_token 50) w'.auth.refresh_tokens ≡ 1)
    × ((q : UserToken → Bool)
        → count (λ t. not (t.user_uid == 1) && q t) w'.auth.user_tokens
          ≡ count (λ t. not (t.user_uid == 1) && q t) signed_in.auth.user_tokens)
    × ((q : RefreshToken → Bool)
        → count (λ t. not (t.user_uid == 1) && q t) w'.auth.refresh_tokens
          ≡ count (λ t. not (t.user_uid == 1) && q t) signed_in.auth.refresh_tokens)
reset_forgotten_password_outcome_example =
    reset_forgotten_password_outcome server issue "new" 1 signed_in refl refl
