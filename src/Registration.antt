-- ===== src/Registration.antt =====
-- auth/services/auth-b2c.service.ts and auth-b2b.service.ts: signing up and signing in.
pub mod SignIn
pub mod Partners
pub mod Emails
use ludora_back.Prelude.{
  ℕ, String, ◌+◌, Bool, true, false, not, ◌&&◌, ◌||◌, ◌==◌, ltb, Option, none, some, str_eq,
  if◌then◌else◌,
}
use ludora_back.World.{
  Client, User, UserType, ◌is_type◌, Provider, Partner, World, user_not_found, user_exists,
  partner_exists, too_young, invalid_user_type, invalid_credentials, internal_error, bad_request,
  not_found, conflict, unauthorized, unique_violation, type_error, Action, pure, raise, gets,
  or_raise, ◌>>=◌, ◌>>◌, raise_if, modify, transaction, catch, has, is_some, is_none, reason_of,
}
use ludora_back.Tokens.{
  Server, Payload, Issue, TokenType, TokenPair, payload, sign_pair, week, year,
  token_expiration_time, create_user_token, create_refresh_token, create_pair, new_user_token,
  new_refresh_token,
}
use ludora_back.Accounts.{
  CreateUserDto, create, find_one_by_email, find_one_by_apple_id, verify_password, insert_user,
}
use ludora_back.Verification.{send_verification_email}

pub record LoginDto : Type 0 where
  pub email : String
  pub password : String

pub record RegisterB2CDto : Type 0 where
  pub kind : UserType
  pub email : String
  pub password : String
  pub firstname : Option String
  pub lastname : Option String
  pub birthdate : ℕ

-- The ids of a new account, the code of its email, the picture that the storage gives, and the
-- latest birthdate that is old enough.
pub record NewAccount : Type 0 where
  pub user : ℕ
  pub verification : ℕ
  pub code : String
  pub image : Option String
  pub minimum_age_date : ℕ

pub record CreateGoogleUserDto : Type 0 where
  pub email : String
  pub firstname : Option String
  pub lastname : Option String
  pub image_url : Option String

-- `user` is the id that the request names, and `result` what Apple's service says of its tokens.
pub record CreateAppleUserDto : Type 0 where
  pub user : ℕ
  pub given_name : Option String
  pub family_name : Option String

pub record AppleAuthResult : Type 0 where
  pub apple_user_id : ℕ
  pub email : Option String
  pub encrypted_refresh_token : Option String

pub record SignedIn : Type 0 where
  pub tokens : TokenPair
  pub is_new_user : Bool

pub record RegisterB2BDto : Type 0 where
  pub email : String
  pub partner_name : String
  pub firstname : Option String
  pub lastname : Option String
  pub password : String

abbrev pub b2c_user : Server → RegisterB2CDto → CreateUserDto
b2c_user s dto = record {
  email = some dto.email;
  firstname = dto.firstname;
  lastname = dto.lastname;
  password = some (s.hash dto.password);
  provider = none;
  kind = none;
  apple_id = none;
  apple_refresh_token = none;
}

abbrev pub b2b_user : Server → RegisterB2BDto → CreateUserDto
b2b_user s dto = record {
  email = some dto.email;
  firstname = dto.firstname;
  lastname = dto.lastname;
  password = some (s.hash dto.password);
  provider = none;
  kind = some UserType.partner;
  apple_id = none;
  apple_refresh_token = none;
}

abbrev pub google_user : (uid : ℕ) → CreateGoogleUserDto → User
google_user uid dto = record {
  uid = uid;
  email = some dto.email;
  password = none;
  firstname = dto.firstname;
  lastname = dto.lastname;
  image_url = dto.image_url;
  provider = Provider.google;
  is_connected = true;
  is_email_verified = true;
  kind = UserType.user;
  is_anonymized = false;
  deleted_at = none;
  apple_id = none;
  apple_refresh_token = none;
}

-- A name that is missing is drawn at random: `adjective` and `name`.
abbrev pub apple_user :
    CreateAppleUserDto → AppleAuthResult → (adjective name : String) → CreateUserDto
apple_user dto result adjective name = record {
  email = result.email;
  firstname = or_drawn dto.given_name adjective;
  lastname = or_drawn dto.family_name name;
  password = none;
  provider = some Provider.apple;
  kind = none;
  apple_id = some dto.user;
  apple_refresh_token = result.encrypted_refresh_token;
}
  where
    or_drawn : Option String → String → Option String
    or_drawn none x = some x
    or_drawn (some y) x = some y

abbrev pub partner_payload : (uid organisation_uid : ℕ) → Payload
partner_payload u o = record { uid = u; kind = none; organisation_uid = some o }

abbrev pub is_partner_email : String → Partner → Bool
is_partner_email e p = str_eq p.email e

module _ ⦃client : Client⦄ where
  abbrev signed_up : Server → Issue → NewAccount → RegisterB2CDto → Action (User × TokenPair)
  signed_up s i a dto = do
    raise_if (not (ltb dto.birthdate a.minimum_age_date)) (bad_request too_young)
    raise_if (not (dto.kind is_type UserType.user)) (bad_request invalid_user_type)
    user ← create s a.user (b2c_user s dto) a.image
    let pair = sign_pair s week user.uid i.now
    create_pair i user.uid pair
    pure (user, pair)

  unfoldable pub register : Server → Issue → NewAccount → RegisterB2CDto → Action TokenPair
  register s i a dto = do
    result ← transaction (signed_up s i a dto)
    send_verification_email a.verification result.0.uid result.0.email a.code i.now
    pure result.1

  abbrev sign_in : Server → Issue → (is_new_user : Bool) → (uid : ℕ) → Action SignedIn
  sign_in s i is_new_user uid = do
    let pair = sign_pair s week uid i.now
    create_pair i uid pair
    pure (record { tokens = pair; is_new_user = is_new_user })

  google_account : Server → Issue → (uid : ℕ) → CreateGoogleUserDto → Option User → Action SignedIn
  google_account s i uid dto (some user) = sign_in s i false user.uid
  google_account s i uid dto none = do insert_user (google_user uid dto); sign_in s i true uid

  unfoldable pub create_or_connect_google_user :
      Server → Issue → (uid : ℕ) → CreateGoogleUserDto → Action SignedIn
  unfolding google_account
  create_or_connect_google_user s i uid dto =
      catch (do google_account s i uid dto (← gets (find_one_by_email dto.email)))
        λ e. raise (bad_request (reason_of e))

  apple_account :
      Server
      → Issue
      → (uid : ℕ) → CreateUserDto
      → (image : Option String) → Option User
      → Action SignedIn
  apple_account s i uid dto image (some user) = sign_in s i false user.uid
  apple_account s i uid dto image none = do user ← create s uid dto image; sign_in s i true user.uid

  -- `credential` is what Apple's service answers: nothing when it refuses the tokens.
  unfoldable pub create_or_connect_apple_user :
      Server
      → Issue
      → (uid : ℕ) → (image : Option String) → (adjective name : String) → CreateAppleUserDto
      → (credential : Option AppleAuthResult) → Action SignedIn
  unfolding apple_account
  create_or_connect_apple_user s i uid image adjective name dto credential = do
    result ← or_raise credential (unauthorized invalid_credentials)
    catch
        (do
          apple_account s i uid (apple_user dto result adjective name) image
              (← gets (find_one_by_apple_id result.apple_user_id)))
        (λ e. raise (bad_request (reason_of e)))

  unfoldable pub login : Server → Issue → LoginDto → Action TokenPair
  login s i dto =
      catch
        (do
          user ←
              or_raise (← gets (find_one_by_email (s.lower dto.email))) (not_found user_not_found)
          valid ← verify_password s user.password dto.password
          raise_if (not valid) (bad_request invalid_credentials)
          let pair = sign_pair s year user.uid i.now
          transaction (create_pair i user.uid pair)
          pure pair)
        (λ e. raise (bad_request (reason_of e)))

  abbrev pub find_partner_by_email : String → World → Option Partner
  find_partner_by_email e w = client.find_first (is_partner_email e) w.billing.partners

  unfoldable pub insert_partner : Partner → Action (Unit {0})
  insert_partner p = do
    raise_if (← gets (λ w. has (is_partner_email p.email) w.billing.partners)) unique_violation
    modify (λ w. record w {
      billing = record w.billing { partners = client.insert p w.billing.partners };
    })

  abbrev pub partner_pair : Server → (uid organisation_uid now : ℕ) → TokenPair
  partner_pair s u o now = record {
    access_token = s.sign (partner_payload u o) (token_expiration_time s) now;
    refresh_token = s.sign (partner_payload u o) week now;
  }

  -- What follows the creation of the user.
  abbrev pub partner_steps :
      Server
      → Issue
      → (partner_uid : ℕ) → (detailed : Bool) → RegisterB2BDto
      → User
      → Action TokenPair
  partner_steps s i o detailed dto user = do
    raise_if (not detailed) (bad_request internal_error)
    insert_partner (record { uid = o; name = dto.partner_name; email = dto.email })
    let pair = partner_pair s user.uid o i.now
    create_pair i user.uid pair
    pure pair

  abbrev pub signed_up_partner :
      Server
      → Issue
      → (uid partner_uid : ℕ) → (image : Option String) → (detailed : Bool) → RegisterB2BDto
      → Action TokenPair
  signed_up_partner s i uid o image detailed dto = do
    user ← create s uid (b2b_user s dto) image
    partner_steps s i o detailed dto user

  -- `located` and `detailed` tell whether the geolocation service finds the address, and its details.
  unfoldable pub register_b2b :
      Server
      → Issue
      → (uid partner_uid : ℕ) → (image : Option String) → (located detailed : Bool) → RegisterB2BDto
      → Action TokenPair
  unfolding insert_partner
  register_b2b s i uid o image located detailed dto = do
    raise_if (is_some (← gets (find_one_by_email dto.email))) (conflict user_exists)
    raise_if (is_some (← gets (find_partner_by_email dto.email))) (conflict partner_exists)
    raise_if (not located) (bad_request internal_error)
    transaction (signed_up_partner s i uid o image detailed dto)

  unfoldable pub login_b2b : Server → Issue → LoginDto → Action TokenPair
  login_b2b s i dto = do
    user ← or_raise (← gets (find_one_by_email (s.lower dto.email))) (not_found user_not_found)
    raise_if (not (user.kind is_type UserType.partner)) (not_found user_not_found)
    partner ← or_raise (← gets (find_partner_by_email dto.email)) (not_found user_not_found)
    valid ← verify_password s user.password dto.password
    raise_if (not valid) (bad_request invalid_credentials)
    let pair = partner_pair s user.uid partner.uid i.now
    create_user_token (new_user_token i user.uid (some partner.uid) pair.access_token)
    create_refresh_token (new_refresh_token i user.uid (some partner.uid) pair.refresh_token)
    pure pair
