-- ===== src/World/AccountRows.antt =====
-- The rows of the auth and notifications schemas: accounts, tokens, codes and devices.
use ludora_back.Prelude.{ℕ, String, Bool, true, false, Option}

pub data Provider : Type 0 where
  facebook google ludora apple : Provider

pub data UserType : Type 0 where
  user partner admin : UserType

-- An email is compared as a text; `password` and `apple_refresh_token` are opaque texts.
pub record User : Type 0 where
  pub uid : ℕ
  pub email : Option String
  pub password : Option String
  pub firstname : Option String
  pub lastname : Option String
  pub image_url : Option String
  pub provider : Provider
  pub is_connected : Bool
  pub is_email_verified : Bool
  pub kind : UserType
  pub is_anonymized : Bool
  pub deleted_at : Option ℕ
  pub apple_id : Option ℕ
  pub apple_refresh_token : Option String

pub record EmailVerification : Type 0 where
  pub uid : ℕ
  pub user_uid : ℕ
  pub code : String
  pub expires_at : ℕ

-- A token is a number, since the tables only compare it.
pub record UserToken : Type 0 where
  pub uid : ℕ
  pub user_uid : ℕ
  pub organisation_uid : Option ℕ
  pub token : ℕ

pub record RefreshToken : Type 0 where
  pub uid : ℕ
  pub user_uid : ℕ
  pub organisation_uid : Option ℕ
  pub token : ℕ
  pub expires_at : ℕ

pub record Device : Type 0 where
  pub uid : ℕ
  pub user_uid : ℕ
  pub fcm_token : ℕ
  pub device_id : ℕ
  pub is_active : Bool
  pub last_seen_at : Option ℕ

-- `===` on the enums.
infix 50 ◌is_provider◌ ◌is_type◌
abbrev pub ◌is_provider◌ : Provider → Provider → Bool
Provider.facebook is_provider Provider.facebook = true
Provider.ludora is_provider Provider.ludora = true
Provider.google is_provider Provider.google = true
Provider.apple is_provider Provider.apple = true
_ is_provider _ = false

abbrev pub ◌is_type◌ : UserType → UserType → Bool
UserType.user is_type UserType.user = true
UserType.partner is_type UserType.partner = true
UserType.admin is_type UserType.admin = true
_ is_type _ = false
