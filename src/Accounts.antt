-- ===== src/Accounts.antt =====
-- users/users.service.ts: creating an account, and changing its email, password and state.
pub mod Found
pub mod Deletion
pub mod Emails
use ludora_back.Prelude.{
  ℕ, String, ◌+◌, Bool, true, false, not, ◌&&◌, ◌||◌, ◌==◌, ltb, Option, none, some, List, holds,
  str_eq, count, if◌then◌else◌,
}
use ludora_back.World.{
  Client, User, UserType, Provider, ◌is_provider◌, EmailVerification, World, user_exists,
  user_not_found, email_exists, same_password, not_ludora, invalid_credentials, deletion_requested,
  no_deletion_request, upload_failed, bad_request, not_found, conflict, unique_violation,
  foreign_key_violation, record_not_found, type_error, Action, pure, raise, gets, or_raise, ◌>>=◌,
  ◌>>◌, raise_if, modify, emit, mail, when, transaction, has, is_some, is_none,
}
use ludora_back.Users.{find_user}
use ludora_back.Tokens.{Server, fifteen_minutes}

-- The email of the Apple sign-in may be missing.
pub record CreateUserDto : Type 0 where
  pub email : Option String
  pub firstname : Option String
  pub lastname : Option String
  pub password : Option String
  pub provider : Option Provider
  pub kind : Option UserType
  pub apple_id : Option ℕ
  pub apple_refresh_token : Option String

abbrev pub is_email : String → User → Bool
is_email e u = elim u.email [ none ↦ false | some x ↦ str_eq x e ]

abbrev pub is_apple : ℕ → User → Bool
is_apple a u = holds u.apple_id a

abbrev pub is_apple_of : Option ℕ → User → Bool
is_apple_of none u = false
is_apple_of (some a) u = is_apple a u

abbrev pub default_to : {A : Type 0} → A → Option A → A
default_to a none = a
default_to a (some b) = b

abbrev pub is_other_provider : Option Provider → Bool
is_other_provider none = false
is_other_provider (some p) = not (p is_provider Provider.ludora)

-- The names as they are stored; an empty text counts as missing.
abbrev pub format_first : Server → Option String → String
format_first s none = "User"
format_first s (some x) = if str_eq x "" then "User" else s.capitalise x

abbrev pub format_last : Server → Option String → String
format_last s none = ""
format_last s (some x) = if str_eq x "" then "" else s.upper x

-- The row that `create` writes, with the schema's defaults.
abbrev pub new_user : Server → (uid : ℕ) → CreateUserDto → (email image_url : String) → User
new_user s uid dto email image_url = record {
  uid = uid;
  email = some email;
  password = dto.password;
  firstname = some (format_first s dto.firstname);
  lastname = some (format_last s dto.lastname);
  image_url = some image_url;
  provider = default_to Provider.ludora dto.provider;
  is_connected = true;
  is_email_verified = is_other_provider dto.provider;
  kind = default_to UserType.user dto.kind;
  is_anonymized = false;
  deleted_at = none;
  apple_id = dto.apple_id;
  apple_refresh_token = dto.apple_refresh_token;
}

abbrev pub is_code_of : ℕ → EmailVerification → Bool
is_code_of u v = v.user_uid == u

-- 30 days, in milliseconds.
abbrev pub retraction_period : ℕ
retraction_period = 2592000000

abbrev pub is_deletable : ℕ → User → Bool
is_deletable uid u = u.uid == uid && is_none u.deleted_at

abbrev pub is_to_be_deleted : ℕ → User → Bool
is_to_be_deleted uid u = u.uid == uid && is_some u.deleted_at

module _ ⦃client : Client⦄ where
  abbrev pub find_one_by_email : String → World → Option User
  find_one_by_email e w = client.find_first (is_email e) w.users

  abbrev pub find_one_by_apple_id : ℕ → World → Option User
  find_one_by_apple_id a w = client.find_first (is_apple a) w.users

  -- `prisma.users.create`, which asks for a new email and a new Apple id.
  unfoldable pub insert_user : User → Action (Unit {0})
  insert_user u = do
    raise_if
        (← gets
          (λ w. has (λ (x : User). elim u.email [ none ↦ false | some e ↦ is_email e x ]) w.users))
        unique_violation
    raise_if (← gets (λ w. has (is_apple_of u.apple_id) w.users)) unique_violation
    modify (λ w. record w { users = client.insert u w.users })

  -- `image` is the URL of the uploaded picture, or of the default one, unless the storage fails.
  unfoldable pub create : Server → (uid : ℕ) → CreateUserDto → (image : Option String) → Action User
  create s uid dto image = do
    email ← or_raise dto.email type_error
    existing_user ← gets (find_one_by_email (s.lower email))
    raise_if (is_some existing_user) (conflict user_exists)
    image_url ← or_raise image (bad_request upload_failed)
    let user = new_user s uid dto (s.lower email) image_url
    insert_user user
    pure user

  -- `prisma.users.update` of one row by its key.
  unfoldable pub update_user : ℕ → (User → User) → Action (Unit {0})
  update_user uid f = do
    raise_if (is_none (← gets (find_user uid))) record_not_found
    modify (λ w. record w { users = client.update_many (λ (u : User). u.uid == uid) f w.users })

  unfoldable pub check_password : Server → Option String → (password : String) → Action Bool
  check_password s none password = raise type_error
  check_password s (some hashed) password = pure (s.matches hashed password)

  unfoldable pub verify_password : Server → Option String → (password : String) → Action Bool
  unfolding check_password
  verify_password s hashed password = check_password s hashed password

  unfoldable pub update_password :
      Server → (uid : ℕ) → (old_password new_password : String) → Action (Unit {0})
  update_password s uid old new = do
    raise_if (str_eq old new) (bad_request same_password)
    existing_user ← or_raise (← gets (find_user uid)) (not_found user_not_found)
    raise_if (not (existing_user.provider is_provider Provider.ludora)) (bad_request not_ludora)
    valid ← verify_password s existing_user.password old
    raise_if (not valid) (bad_request invalid_credentials)
    update_user uid (λ u. record u { password = some (s.hash new) })
    emit (mail existing_user.email "passwordReset")

  unfoldable pub update_email : (uid : ℕ) → (email : String) → Action (Unit {0})
  update_email uid email = do
    raise_if (is_none (← gets (find_user uid))) (not_found user_not_found)
    raise_if (is_some (← gets (find_one_by_email email))) (conflict email_exists)
    update_user uid (λ u. record u { email = some email })

  unfoldable pub deactivate : (uid : ℕ) → Action (Unit {0})
  deactivate uid = do
    raise_if (is_none (← gets (find_user uid))) (not_found user_not_found)
    update_user uid (λ u. record u { is_connected = false })

  unfoldable pub get_active_users_count : Action ℕ
  get_active_users_count = gets λ w. count (λ (u : User). u.is_connected) w.users

  -- A new code in place of the user's old ones.
  unfoldable pub replace_code : EmailVerification → Action (Unit {0})
  replace_code v = transaction do
    modify (λ w. record w {
      auth = record w.auth {
        email_verifications = client.delete_many (is_code_of v.user_uid) w.auth.email_verifications;
      };
    })
    raise_if (is_none (← gets (find_user v.user_uid))) foreign_key_violation
    modify (λ w. record w {
      auth = record w.auth { email_verifications = client.insert v w.auth.email_verifications };
    })

  abbrev pub new_code : (uid user_uid : ℕ) → (code : String) → (now : ℕ) → EmailVerification
  new_code uid u code now = record {
    uid = uid;
    user_uid = u;
    code = code;
    expires_at = now + fifteen_minutes;
  }

  unfoldable pub send_code_for_password_reset :
      (uid : ℕ) → User → (code : String) → (now : ℕ) → Action (Unit {0})
  send_code_for_password_reset uid user code now = do
    replace_code (new_code uid user.uid code now)
    emit (mail user.email "passwordResetRequest")

  send_to_found : (uid : ℕ) → Option User → (code : String) → (now : ℕ) → Action (Unit {0})
  send_to_found uid none code now = pure tt
  send_to_found uid (some user) code now =
      when (not (user.provider is_provider Provider.google))
        (send_code_for_password_reset uid user code now)

  unfoldable pub send_code_for_password_reset_request :
      (uid : ℕ) → (email code : String) → (now : ℕ) → Action (Unit {0})
  unfolding send_to_found
  send_code_for_password_reset_request uid email code now = do
    send_to_found uid (← gets (find_one_by_email email)) code now

  unfoldable pub deletion_request : (uid now : ℕ) → Action (Unit {0})
  deletion_request uid now = do
    changed ← gets (λ w. count (is_deletable uid) w.users)
    modify (λ w. record w {
      users =
          client.update_many (is_deletable uid)
            (λ u. record u { deleted_at = some (now + retraction_period) }) w.users;
    })
    raise_if (changed == 0) (bad_request deletion_requested)

  unfoldable pub cancel_deletion_request : (uid : ℕ) → Action (Unit {0})
  cancel_deletion_request uid = do
    changed ← gets (λ w. count (is_to_be_deleted uid) w.users)
    modify (λ w. record w {
      users =
          client.update_many (is_to_be_deleted uid) (λ u. record u { deleted_at = none }) w.users;
    })
    raise_if (changed == 0) (bad_request no_deletion_request)
