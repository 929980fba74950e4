-- ===== src/Tokens/Revoked.antt =====
-- After a logout the user's tokens are refused everywhere.
use ludora_back.Prelude.{ℕ, ◌≡◌, arith, count}
use ludora_back.World.{Client, World, ok, count-delete_many_self}
use ludora_back.Tokens.{is_user_token_of, is_refresh_token_of, logout, delete_tokens}

module _ ⦃client : Client⦄ where
  -- The user has no tokens.
  abbrev pub HasNoTokens : (user_uid : ℕ) → World → Type 0
  HasNoTokens u w =
      (count (is_user_token_of u) w.auth.user_tokens ≡ 0)
      × (count (is_refresh_token_of u) w.auth.refresh_tokens ≡ 0)

  logout_lem :
      (u : ℕ) (w : World)
      → let (r, w') = logout u w in
        (r ≡ ok tt)
        × (w'.auth.user_tokens ≡ client.delete_many (is_user_token_of u) w.auth.user_tokens)
        × (w'.auth.refresh_tokens
            ≡ client.delete_many (is_refresh_token_of u) w.auth.refresh_tokens)
  unfolding logout delete_tokens
  logout_lem u w = ground arith

  pub logout-HasNoTokens : (u : ℕ) (w : World) → HasNoTokens u (logout u w).1
  logout-HasNoTokens u w =
      let (_, users, refreshes) = logout_lem u w in
      (
        rw users (count-delete_many_self (is_user_token_of u) w.auth.user_tokens),
        rw refreshes (count-delete_many_self (is_refresh_token_of u) w.auth.refresh_tokens),
      )
