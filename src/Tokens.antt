-- ===== src/Tokens.antt =====
-- auth/services/auth-b2c.service.ts (refreshToken, logout, googleLogin, verifyToken): the tokens of
-- the signed-in users, and how a refresh token is exchanged.
pub mod Rotation
pub mod Revoked
use ludora_back.Prelude.{
  ℕ, String, ◌+◌, Bool, true, false, not, ◌&&◌, ◌||◌, ◌==◌, ltb, Option, none, some, holds,
  if◌then◌else◌,
}
use ludora_back.World.{
  Client, User, UserToken, RefreshToken, AuthTables, World, Partner, invalid_refresh_token,
  account_disabled, user_not_found, unauthorized, not_found, unique_violation,
  foreign_key_violation, record_not_found, Exception, Action, pure, raise, gets, or_raise, ◌>>=◌,
  ◌>>◌, raise_if, modify, transaction, catch, has, is_some, is_none,
}
use ludora_back.Users.{find_user}

pub data TokenType : Type 0 where
  access refresh reset : TokenType

-- The claims of a session's token. `kind` is its `type`, which the partners' tokens do not have.
pub record Payload : Type 0 where
  pub uid : ℕ
  pub kind : Option TokenType
  pub organisation_uid : Option ℕ

-- What lies outside: JSON web tokens (a lifetime is in seconds, `now` in milliseconds), the hash of
-- passwords, and the case of texts.
pub record Server : Type 0 where
  pub sign : Payload → (lifetime now : ℕ) → ℕ
  pub verify : (token now : ℕ) → Option Payload
  pub hash : String → String
  pub matches : (hashed password : String) → Bool
  pub lower : String → String
  pub upper : String → String
  pub capitalise : String → String
  pub is_production : Bool

-- The ids of the new rows, and the clock.
pub record Issue : Type 0 where
  pub user_token : ℕ
  pub refresh_token : ℕ
  pub now : ℕ

pub record TokenPair : Type 0 where
  pub access_token : ℕ
  pub refresh_token : ℕ

abbrev pub fifteen_minutes : ℕ
fifteen_minutes = 900000

abbrev pub seven_days : ℕ
seven_days = 604800000

-- '7d' and '1year', in seconds.
abbrev pub week : ℕ
week = 604800

abbrev pub year : ℕ
year = 31557600

-- '15m' and '1d', in seconds.
abbrev pub token_expiration_time : Server → ℕ
token_expiration_time s = if s.is_production then 900 else 86400

abbrev pub payload : (uid : ℕ) → TokenType → Payload
payload uid kind = record { uid = uid; kind = some kind; organisation_uid = none }

abbrev pub sign_pair : Server → (refresh_lifetime uid now : ℕ) → TokenPair
sign_pair s lifetime uid now = record {
  access_token = s.sign (payload uid TokenType.access) (token_expiration_time s) now;
  refresh_token = s.sign (payload uid TokenType.refresh) lifetime now;
}

abbrev pub is_user_token : (token user_uid : ℕ) → UserToken → Bool
is_user_token k u t = t.token == k && t.user_uid == u

abbrev pub is_token : ℕ → RefreshToken → Bool
is_token k t = t.token == k

-- The refresh tokens that `refreshToken` accepts.
abbrev pub is_valid : (token user_uid now : ℕ) → RefreshToken → Bool
is_valid k u now t = ltb now t.expires_at && t.token == k && t.user_uid == u

abbrev pub is_user_token_of : ℕ → UserToken → Bool
is_user_token_of u t = t.user_uid == u

abbrev pub is_refresh_token_of : ℕ → RefreshToken → Bool
is_refresh_token_of u t = t.user_uid == u

-- An `UnauthorizedException` passes, and any other becomes one.
abbrev pub only_unauthorized : {A : Type 0} → Exception → Action A
only_unauthorized (unauthorized r) = raise (unauthorized r)
only_unauthorized _ = raise (unauthorized invalid_refresh_token)

module _ ⦃client : Client⦄ where
  abbrev pub find_partner : ℕ → World → Option Partner
  find_partner o w = client.find_first (λ (p : Partner). p.uid == o) w.billing.partners

  is_known_partner : Option ℕ → World → Bool
  is_known_partner none w = true
  is_known_partner (some o) w = is_some (find_partner o w)

  -- `prisma.userTokens.create` and `prisma.refreshTokens.create`.
  unfoldable pub create_user_token : UserToken → Action (Unit {0})
  unfolding is_known_partner
  create_user_token t = do
    raise_if (is_none (← gets (find_user t.user_uid))) foreign_key_violation
    raise_if (not (← gets (is_known_partner t.organisation_uid))) foreign_key_violation
    modify (λ w. record w {
      auth = record w.auth { user_tokens = client.insert t w.auth.user_tokens };
    })

  unfoldable pub create_refresh_token : RefreshToken → Action (Unit {0})
  unfolding is_known_partner
  create_refresh_token t = do
    raise_if (← gets (λ w. has (is_token t.token) w.auth.refresh_tokens)) unique_violation
    raise_if (is_none (← gets (find_user t.user_uid))) foreign_key_violation
    raise_if (not (← gets (is_known_partner t.organisation_uid))) foreign_key_violation
    modify (λ w. record w {
      auth = record w.auth { refresh_tokens = client.insert t w.auth.refresh_tokens };
    })

  abbrev pub new_user_token :
      Issue → (user_uid : ℕ) → (organisation_uid : Option ℕ) → (token : ℕ) → UserToken
  new_user_token i u o k = record {
    uid = i.user_token;
    user_uid = u;
    organisation_uid = o;
    token = k;
  }

  abbrev pub new_refresh_token :
      Issue → (user_uid : ℕ) → (organisation_uid : Option ℕ) → (token : ℕ) → RefreshToken
  new_refresh_token i u o k = record {
    uid = i.refresh_token;
    user_uid = u;
    organisation_uid = o;
    token = k;
    expires_at = i.now + seven_days;
  }

  -- The rows of a new pair of tokens.
  unfoldable pub create_pair : Issue → (user_uid : ℕ) → TokenPair → Action (Unit {0})
  create_pair i u pair = do
    create_user_token (new_user_token i u none pair.access_token)
    create_refresh_token (new_refresh_token i u none pair.refresh_token)

  unfoldable pub delete_refresh_token : (uid : ℕ) → Action (Unit {0})
  delete_refresh_token uid = do
    raise_if (not (← gets (λ w. has (λ (t : RefreshToken). t.uid == uid) w.auth.refresh_tokens)))
        record_not_found
    modify (λ w. record w {
      auth = record w.auth {
        refresh_tokens =
            client.delete_many (λ (t : RefreshToken). t.uid == uid) w.auth.refresh_tokens;
      };
    })

  unfoldable pub replace_access_token :
      Issue → (user_uid token : ℕ) → Option UserToken → Action (Unit {0})
  replace_access_token i u k none = create_user_token (new_user_token i u none k)
  replace_access_token i u k (some t) = modify (λ w. record w {
    auth = record w.auth {
      user_tokens =
          client.update_many (λ (x : UserToken). x.uid == t.uid)
            (λ (x : UserToken). record x { token = k }) w.auth.user_tokens;
    };
  })

  -- The exchange of the refresh token's row for a new one, and of the user's access token.
  unfoldable pub rotate : Issue → RefreshToken → (user_uid : ℕ) → TokenPair → Action (Unit {0})
  unfolding replace_access_token
  rotate i old u pair = do
    delete_refresh_token old.uid
    create_refresh_token (new_refresh_token i u none pair.refresh_token)
    replace_access_token i u pair.access_token
        (← gets (λ w. client.find_first (is_user_token_of u) w.auth.user_tokens))

  unfoldable pub refresh_token : Server → Issue → (token : ℕ) → Action TokenPair
  refresh_token s i k =
      catch
        (do
          claims ← or_raise (s.verify k i.now) (unauthorized invalid_refresh_token)
          old ←
              or_raise
                (← gets
                  (λ w. client.find_first (is_valid k claims.uid i.now) w.auth.refresh_tokens))
                (unauthorized invalid_refresh_token)
          user ← or_raise (← gets (find_user claims.uid)) (unauthorized account_disabled)
          raise_if (not user.is_connected) (unauthorized account_disabled)
          let pair = sign_pair s week claims.uid i.now
          transaction (rotate i old claims.uid pair)
          pure pair)
        only_unauthorized

  -- The user's tokens, all of them.
  unfoldable pub delete_tokens : (user_uid : ℕ) → Action (Unit {0})
  delete_tokens u = do
    modify (λ w. record w {
      auth = record w.auth {
        user_tokens = client.delete_many (is_user_token_of u) w.auth.user_tokens;
      };
    })
    modify (λ w. record w {
      auth = record w.auth {
        refresh_tokens = client.delete_many (is_refresh_token_of u) w.auth.refresh_tokens;
      };
    })

  unfoldable pub logout : (user_uid : ℕ) → Action (Unit {0})
  logout u = transaction (delete_tokens u)

  abbrev pub logout_all_devices : (user_uid : ℕ) → Action (Unit {0})
  logout_all_devices u = logout u

  unfoldable pub google_login : Server → (uid now : ℕ) → Action ℕ
  google_login s uid now = do
    user ← or_raise (← gets (find_user uid)) (not_found user_not_found)
    pure (s.sign (payload user.uid TokenType.access) (token_expiration_time s) now)

  unfoldable pub verify_token : (uid : ℕ) → Action Bool
  verify_token uid = do
    user ← or_raise (← gets (find_user uid)) (not_found user_not_found)
    raise_if (not user.is_connected) (unauthorized account_disabled)
    pure true
