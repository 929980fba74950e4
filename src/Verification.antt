-- ===== src/Verification.antt =====
-- auth/services/auth-b2c.service.ts and auth/guards/verify-email.guard.ts: the verification codes,
-- which confirm an email or give access to a forgotten password.
pub mod Codes
pub mod Passwords
use ludora_back.Prelude.{
  ℕ, String, ◌+◌, Bool, true, false, not, ◌&&◌, ◌||◌, ◌==◌, ltb, Option, none, some, str_eq,
  if◌then◌else◌,
}
use ludora_back.World.{
  Client, User, EmailVerification, World, user_not_found, already_verified, invalid_code,
  expired_code, invalid_token, token_missing, bad_request, not_found, unauthorized,
  record_not_found, email_verified, Action, pure, raise, gets, or_raise, ◌>>=◌, ◌>>◌, raise_if,
  modify, emit, mail, transaction, catch, has, is_some, is_none,
}
use ludora_back.Users.{find_user}
use ludora_back.Tokens.{
  Server, Issue, TokenType, TokenPair, payload, sign_pair, week, token_expiration_time,
  create_user_token, create_pair, new_user_token, delete_tokens,
}
use ludora_back.Accounts.{is_code_of, new_code, replace_code, find_one_by_email, update_user}

-- The claims of the link in the email, and how its token is read.
pub record LinkClaims : Type 0 where
  pub code : String
  pub email : String

abbrev pub is_code : (code : String) → (user_uid : ℕ) → EmailVerification → Bool
is_code c u v = str_eq v.code c && v.user_uid == u

-- The codes that the guard of the link accepts.
abbrev pub is_live_code : (code : String) → (user_uid now : ℕ) → EmailVerification → Bool
is_live_code c u now v = is_code c u v && ltb now v.expires_at

module _ ⦃client : Client⦄ where
  -- `uid` is the id of the code's row.
  unfoldable pub send_verification_email :
      (uid user_uid : ℕ) → (email : Option String) → (code : String) → (now : ℕ) → Action (Unit {0})
  send_verification_email uid u email code now = do
    replace_code (new_code uid u code now)
    emit (mail email "verificationLink")

  unfoldable pub delete_codes : (user_uid : ℕ) → Action (Unit {0})
  delete_codes u = modify (λ w. record w {
    auth = record w.auth {
      email_verifications = client.delete_many (is_code_of u) w.auth.email_verifications;
    };
  })

  abbrev check_link : (read : (token now : ℕ) → Option LinkClaims) → (token now : ℕ) → Action User
  check_link read k now = do
    claims ← or_raise (read k now) (unauthorized invalid_token)
    user ← or_raise (← gets (find_one_by_email claims.email)) (unauthorized user_not_found)
    verification ←
        or_raise
          (← gets (λ w.
            client.find_first (is_live_code claims.code user.uid now) w.auth.email_verifications))
          (unauthorized invalid_code)
    pure user

  -- The guard of the link, whose token is in the query, if it has one.
  unfoldable pub verify_email_guard :
      (read : (token now : ℕ) → Option LinkClaims) → (token : Option ℕ) → (now : ℕ) → Action User
  verify_email_guard read none now = raise (unauthorized token_missing)
  verify_email_guard read (some k) now =
      catch (check_link read k now) (λ e. raise (unauthorized invalid_token))

  unfoldable pub verify_email_link : User → Action (Unit {0})
  verify_email_link user = do
    transaction (do
      update_user user.uid (λ u. record u { is_email_verified = true })
      delete_codes user.uid)
    emit (email_verified user.uid)
    emit (mail user.email "emailVerified")

  unfoldable pub resend_verification_code :
      (uid user_uid : ℕ) → (code : String) → (now : ℕ) → Action (Unit {0})
  resend_verification_code uid u code now = do
    user ← or_raise (← gets (find_user u)) (not_found user_not_found)
    raise_if user.is_email_verified (bad_request already_verified)
    delete_codes u
    send_verification_email uid u user.email code now

  -- Whether the email is still free.
  unfoldable pub verify_email : Server → (email : String) → Action Bool
  verify_email s email = gets λ w. is_none (find_one_by_email (s.lower email) w)

  -- `prisma.emailVerification.delete` of one row by its key.
  unfoldable pub delete_code : (uid : ℕ) → Action (Unit {0})
  delete_code uid = do
    raise_if
        (not
          (← gets (λ w. has (λ (v : EmailVerification). v.uid == uid) w.auth.email_verifications)))
        record_not_found
    modify (λ w. record w {
      auth = record w.auth {
        email_verifications =
            client.delete_many (λ (v : EmailVerification). v.uid == uid) w.auth.email_verifications;
      };
    })

  unfoldable pub generate_access_token_from_code :
      Server → (token_uid : ℕ) → (code email : String) → (now : ℕ) → Action ℕ
  generate_access_token_from_code s token_uid code email now = do
    user ← or_raise (← gets (find_one_by_email (s.lower email))) (not_found user_not_found)
    existing ←
        or_raise
          (← gets (λ w. client.find_first (is_code code user.uid) w.auth.email_verifications))
          (unauthorized invalid_code)
    raise_if (ltb existing.expires_at now) (unauthorized expired_code)
    let token = s.sign (payload user.uid TokenType.access) (token_expiration_time s) now
    create_user_token
        (record { uid = token_uid; user_uid = user.uid; organisation_uid = none; token = token })
    delete_code existing.uid
    pure token

  abbrev change_password :
      Server → Issue → (new_password : String) → (user_uid : ℕ) → TokenPair → Action User
  change_password s i new u pair = do
    user ← or_raise (← gets (find_user u)) (not_found user_not_found)
    update_user u (λ x. record x { password = some (s.hash new) })
    delete_tokens u
    create_pair i u pair
    pure user

  unfoldable pub reset_forgotten_password :
      Server → Issue → (new_password : String) → (user_uid : ℕ) → Action TokenPair
  reset_forgotten_password s i new u = do
    let pair = sign_pair s week u i.now
    user ← transaction (change_password s i new u pair)
    emit (mail user.email "passwordReset")
    pure pair
