-- ===== src/Guards.antt =====
-- auth/guards and auth/services/websocket-auth.service.ts: which requests are let in.
pub mod Denied
use ludora_back.Prelude.{
  ℕ, String, Bool, true, false, not, ◌&&◌, ◌||◌, ◌==◌, ltb, Option, none, some, List, [], ◌∷◌,
  holds, str_eq, if◌then◌else◌,
}
use ludora_back.World.{
  Client, User, UserType, ◌is_type◌, UserToken, EmailVerification, World, token_missing,
  token_expired, token_user_missing, invalid_token_type, invalid_token, access_denied,
  partner_not_found, not_admin, user_not_found, account_disabled, invalid_code, invalid_credentials,
  unauthorized, ws_exception, Exception, Action, pure, raise, gets, or_raise, ◌>>=◌, ◌>>◌, raise_if,
  catch, is_none,
}
use ludora_back.Users.{find_user}
use ludora_back.Tokens.{Server, Payload, TokenType, is_user_token, find_partner}

-- What a guard attaches to the request.
pub record Identity : Type 0 where
  pub uid : ℕ
  pub email : Option String
  pub kind : UserType

abbrev pub is_reset : Option TokenType → Bool
is_reset (some TokenType.reset) = true
is_reset _ = false

abbrev pub is_partner_token : (token user_uid organisation_uid : ℕ) → UserToken → Bool
is_partner_token k u o t = holds t.organisation_uid o && is_user_token k u t

-- An `UnauthorizedException` passes, and any other becomes one.
abbrev pub or_denied : {A : Type 0} → Exception → Action A
or_denied (unauthorized r) = raise (unauthorized r)
or_denied _ = raise (unauthorized access_denied)

abbrev pub or_ws : {A : Type 0} → Exception → Action A
or_ws (ws_exception r) = raise (ws_exception r)
or_ws _ = raise (ws_exception invalid_credentials)

abbrev pub mem_email : String → List String → Bool
mem_email e [] = false
mem_email e (x ∷ xs) = let rest = mem_email e xs in if str_eq x e then true else rest

abbrev pub is_admin_email : List String → Option String → Bool
is_admin_email xs none = false
is_admin_email xs (some e) = mem_email e xs

-- Where a socket's token may stand.
pub record Handshake : Type 0 where
  pub auth_token : Option ℕ
  pub query_auth : Option ℕ
  pub query_token : Option ℕ
  pub bearer : Option ℕ

abbrev pub extract_token : Handshake → Option ℕ
extract_token h = first (first (first h.auth_token h.query_auth) h.query_token) h.bearer
  where
    first : Option ℕ → Option ℕ → Option ℕ
    first (some x) b = some x
    first none b = b

module _ ⦃client : Client⦄ where
  abbrev pub identity : ℕ → User → Identity
  identity uid user = record { uid = uid; email = user.email; kind = user.kind }

  abbrev known_token : (token user_uid : ℕ) → Exception → Action UserToken
  known_token k u e = do
    or_raise (← gets (λ w. client.find_first (is_user_token k u) w.auth.user_tokens)) e

  abbrev check_b2c :
      Server → (is_reset_password : Bool) → (token now : ℕ) → Action (Option Identity)
  check_b2c s is_reset_password k now = do
    claims ← or_raise (s.verify k now) (unauthorized access_denied)
    raise_if (is_reset claims.kind && not is_reset_password) (unauthorized invalid_token_type)
    row ← known_token k claims.uid (unauthorized token_expired)
    user ← or_raise (← gets (find_user claims.uid)) (unauthorized user_not_found)
    pure (some (identity claims.uid user))

  -- A public route has no identity. The token is that of the header, if it has one.
  unfoldable pub auth_b2c_guard :
      Server
      → (is_public is_reset_password : Bool) → (token : Option ℕ) → (now : ℕ)
      → Action (Option Identity)
  auth_b2c_guard s true is_reset_password token now = pure none
  auth_b2c_guard s false is_reset_password none now = raise (unauthorized token_missing)
  auth_b2c_guard s false is_reset_password (some k) now =
      catch (check_b2c s is_reset_password k now) or_denied

  abbrev check_b2b : Server → (token now : ℕ) → Action (Option Payload)
  check_b2b s k now = do
    claims ← or_raise (s.verify k now) (unauthorized access_denied)
    o ← or_raise claims.organisation_uid (unauthorized token_user_missing)
    row ←
        or_raise
          (← gets (λ w. client.find_first (is_partner_token k claims.uid o) w.auth.user_tokens))
          (unauthorized token_expired)
    user ← or_raise (← gets (find_user claims.uid)) (unauthorized user_not_found)
    raise_if (not user.is_connected) (unauthorized account_disabled)
    raise_if (is_none (← gets (find_partner o))) (unauthorized partner_not_found)
    pure (some claims)

  unfoldable pub auth_b2b_guard :
      Server → (is_public : Bool) → (token : Option ℕ) → (now : ℕ) → Action (Option Payload)
  auth_b2b_guard s true token now = pure none
  auth_b2b_guard s false none now = raise (unauthorized token_missing)
  auth_b2b_guard s false (some k) now = catch (check_b2b s k now) or_denied

  abbrev check_admin : Server → (admin_emails : List String) → (token now : ℕ) → Action Identity
  check_admin s admin_emails k now = do
    claims ← or_raise (s.verify k now) (unauthorized access_denied)
    row ← known_token k claims.uid (unauthorized token_expired)
    user ← or_raise (← gets (find_user claims.uid)) (unauthorized user_not_found)
    raise_if (not (user.kind is_type UserType.admin)) (unauthorized not_admin)
    raise_if (not (is_admin_email admin_emails user.email)) (unauthorized not_admin)
    pure (identity claims.uid user)

  unfoldable pub admin_guard :
      Server → (admin_emails : List String) → (token : Option ℕ) → (now : ℕ) → Action Identity
  admin_guard s admin_emails none now = raise (unauthorized token_missing)
  admin_guard s admin_emails (some k) now = catch (check_admin s admin_emails k now) or_denied

  abbrev check_socket : Server → (token now : ℕ) → Action ℕ
  check_socket s k now = do
    claims ← or_raise (s.verify k now) (ws_exception invalid_credentials)
    raise_if (is_reset claims.kind) (ws_exception token_user_missing)
    row ← known_token k claims.uid (ws_exception token_expired)
    user ← or_raise (← gets (find_user claims.uid)) (ws_exception user_not_found)
    pure claims.uid

  unfoldable pub authenticate_token : Server → Option ℕ → (now : ℕ) → Action ℕ
  authenticate_token s none now = raise (ws_exception token_missing)
  authenticate_token s (some k) now = catch (check_socket s k now) or_ws

  unfoldable pub authenticate_socket : Server → Handshake → (now : ℕ) → Action ℕ
  unfolding authenticate_token
  authenticate_socket s h now = authenticate_token s (extract_token h) now
