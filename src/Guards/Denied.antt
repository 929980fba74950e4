-- ===== src/Guards/Denied.antt =====
-- A user without tokens is let in nowhere.
use ludora_back.Prelude.{
  ℕ, String, ◌≡◌, Bool, false, none, some, List, arith, count-le, refl, inl, inr, Option-cases,
}
use ludora_back.World.{Client, World, Refuses, find_first-eq_none}
use ludora_back.Tokens.{
  Server, Issue, Payload, is_valid, is_user_token, is_user_token_of, is_refresh_token_of,
  refresh_token, logout,
}
use ludora_back.Tokens.Revoked.{HasNoTokens, logout-HasNoTokens}
use ludora_back.Guards.{
  is_partner_token, auth_b2c_guard, auth_b2b_guard, admin_guard, authenticate_socket,
  authenticate_token, Handshake, extract_token,
}

module _ ⦃client : Client⦄ (s : Server) (k now : ℕ) (c : Payload) (w : World) where
  no_row :
      (o : ℕ)
      → HasNoTokens c.uid w
      → (client.find_first (is_user_token k c.uid) w.auth.user_tokens ≡ none)
        × (client.find_first (is_partner_token k c.uid o) w.auth.user_tokens ≡ none)
        × (client.find_first (is_valid k c.uid now) w.auth.refresh_tokens ≡ none)
  no_row o (no_access, no_refresh) = (
    find_first-eq_none (is_user_token k c.uid) w.auth.user_tokens (
        omega (
          arith,
          no_access,
          count-le (is_user_token k c.uid) (is_user_token_of c.uid) w.auth.user_tokens
              (λ t h. ground arith),
        )),
    find_first-eq_none (is_partner_token k c.uid o) w.auth.user_tokens (
        omega (
          arith,
          no_access,
          count-le (is_partner_token k c.uid o) (is_user_token_of c.uid) w.auth.user_tokens
              (λ t h. ground arith),
        )),
    find_first-eq_none (is_valid k c.uid now) w.auth.refresh_tokens (
        omega (
          arith,
          no_refresh,
          count-le (is_valid k c.uid now) (is_refresh_token_of c.uid) w.auth.refresh_tokens
              (λ t h. ground arith),
        )),
  )

  b2c_denied :
      (b : Bool)
      → s.verify k now ≡ some c
      → HasNoTokens c.uid w
      → Refuses w (auth_b2c_guard s false b (some k) now w)
  unfolding auth_b2c_guard
  b2c_denied b e h = let (row, _, _) = no_row 0 h in ground (arith, e, row)

  admin_denied :
      (emails : List String)
      → s.verify k now ≡ some c
      → HasNoTokens c.uid w
      → Refuses w (admin_guard s emails (some k) now w)
  unfolding admin_guard
  admin_denied emails e h = let (row, _, _) = no_row 0 h in ground (arith, e, row)

  socket_denied :
      (t : Handshake)
      → extract_token t ≡ some k
      → s.verify k now ≡ some c
      → HasNoTokens c.uid w
      → Refuses w (authenticate_socket s t now w)
  unfolding authenticate_socket authenticate_token
  socket_denied t x e h = let (row, _, _) = no_row 0 h in rw x (ground (arith, e, row))

  refresh_denied :
      (i : Issue)
      → i.now ≡ now
      → s.verify k now ≡ some c
      → HasNoTokens c.uid w
      → Refuses w (refresh_token s i k w)
  unfolding refresh_token
  refresh_denied i same e h = let (_, _, row) = no_row 0 h in ground (arith, same, e, row)

  b2b_denied :
      s.verify k now ≡ some c
      → HasNoTokens c.uid w
      → Refuses w (auth_b2b_guard s false (some k) now w)
  unfolding auth_b2b_guard
  b2b_denied e h = elim (Option-cases c.organisation_uid) [
    | inl none_named ↦ ground (arith, e, none_named)
    | inr (o, named) ↦ let (_, row, _) = no_row o h in ground (arith, e, named, row)
  ]

-- Once a user has logged out, every token of the user is refused: by each guard, on sockets, and
-- as a refresh token; nothing is written then.
pub logout-denies :
    ⦃client : Client⦄ (s : Server) (i : Issue) (t : Handshake) (emails : List String) (b : Bool)
    (k : ℕ) (c : Payload) (w : World)
    → s.verify k i.now ≡ some c
    → extract_token t ≡ some k
    → let w' = (logout c.uid w).1 in
      Refuses w' (auth_b2c_guard s false b (some k) i.now w')
      × Refuses w' (auth_b2b_guard s false (some k) i.now w')
      × Refuses w' (admin_guard s emails (some k) i.now w')
      × Refuses w' (authenticate_socket s t i.now w')
      × Refuses w' (refresh_token s i k w')
logout-denies s i t emails b k c w e x =
    let w' = (logout c.uid w).1 in
    let out = logout-HasNoTokens c.uid w in
    (
      b2c_denied s k i.now c w' b e out,
      b2b_denied s k i.now c w' e out,
      admin_denied s k i.now c w' emails e out,
      socket_denied s k i.now c w' t x e out,
      refresh_denied s k i.now c w' i refl e out,
    )
