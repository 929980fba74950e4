-- ===== src/Verification/Passwords.antt =====
-- Resetting a password signs the user out everywhere else.
use ludora_back.Prelude.{
  ℕ, String, ◌≡◌, inl, inr, Bool, true, false, not, ◌&&◌, ◌==◌, none, some, arith, count, count-le,
  count-ext, count-none, ==_iff, refl, ap, ◌∙◌, Option-cases, str_eq, str_eq-refl,
}
use ludora_back.World.{
  Client, User, UserToken, RefreshToken, World, ok, is_some, count-delete_many_self,
  count-delete_many-le, count-update_many_same, find_first-eq_some,
}
use ludora_back.Users.{find_user}
use ludora_back.Tokens.{
  Server, Issue, TokenPair, sign_pair, week, is_token, is_user_token, is_user_token_of,
  is_refresh_token_of, create_pair, create_user_token, create_refresh_token, new_user_token,
  new_refresh_token, delete_tokens,
}
use ludora_back.Accounts.{update_user}
use ludora_back.Verification.{reset_forgotten_password}

-- The user's hash is the given one.
abbrev pub has_password : String → User → Bool
has_password h u = elim u.password [ none ↦ false | some x ↦ str_eq x h ]

module _ ⦃client : Client⦄ (s : Server) (i : Issue) (new : String) (u : ℕ) (w : World) where
  abbrev pair : TokenPair
  pair = sign_pair s week u i.now

  abbrev with_hash : User → User
  with_hash x = record x { password = some (s.hash new) }

  reset_lem :
      is_some (find_user u w) ≡ true
      → is_some (
          client.find_first
            (λ (x : User). x.uid == u)
            (client.update_many (λ (x : User). x.uid == u) with_hash w.users))
        ≡ true
      → count (is_token pair.refresh_token) w.auth.refresh_tokens ≡ 0
      → let (r, w') = reset_forgotten_password s i new u w in
        (r ≡ ok pair)
        × (w'.users ≡ client.update_many (λ (x : User). x.uid == u) with_hash w.users)
        × (w'.auth.user_tokens
            ≡ client.insert
                (new_user_token i u none pair.access_token)
                (client.delete_many (is_user_token_of u) w.auth.user_tokens))
        × (w'.auth.refresh_tokens
            ≡ client.insert
                (new_refresh_token i u none pair.refresh_token)
                (client.delete_many (is_refresh_token_of u) w.auth.refresh_tokens))
  unfolding reset_forgotten_password update_user delete_tokens create_pair create_user_token
      create_refresh_token
  reset_lem known still fresh =
      let less =
        count-delete_many-le (is_refresh_token_of u) (is_token pair.refresh_token)
          w.auth.refresh_tokens in
      elim (Option-cases (find_user u w)) [
        | inl e ↦ absurd (ground (arith, e, known))
        | inr (user, e) ↦ ground (arith, e, still, fresh, less)
      ]

  still_known :
      is_some (find_user u w) ≡ true
      → is_some (
          client.find_first
            (λ (x : User). x.uid == u)
            (client.update_many (λ (x : User). x.uid == u) with_hash w.users))
        ≡ true
  still_known known = elim (Option-cases (find_user u w)) [
    | inl e ↦ absurd (ground (arith, e, known))
    | inr (user, e) ↦
        let mine : User → Bool = λ x. x.uid == u in
        let same = count-update_many_same mine with_hash mine w.users (λ x. refl) in
        let here =
          client.find_first-mem mine w.users user mine e
            (client.find_first-some mine w.users user e) in
        let (x, found) =
          find_first-eq_some mine (client.update_many mine with_hash w.users)
            (omega (arith, same, here)) in
        ground (arith, found)
  ]

  others_kept :
      (q : UserToken → Bool)
      → count
          (λ t. not (t.user_uid == u) && q t)
          (client.insert
            (new_user_token i u none pair.access_token)
            (client.delete_many (is_user_token_of u) w.auth.user_tokens))
        ≡ count (λ t. not (t.user_uid == u) && q t) w.auth.user_tokens
  others_kept q =
      let apart : UserToken → Bool = λ t. not (t.user_uid == u) && q t in
      let kept = client.delete_many (is_user_token_of u) w.auth.user_tokens in
      ground (
        arith,
        client.count-insert (new_user_token i u none pair.access_token) apart kept,
        client.count-delete_many (is_user_token_of u) apart w.auth.user_tokens,
        count-ext (λ t. not (is_user_token_of u t) && apart t) apart w.auth.user_tokens
            (λ t. ground arith),
        ==_iff u u,
      )

  others_refresh_kept :
      (q : RefreshToken → Bool)
      → count
          (λ t. not (t.user_uid == u) && q t)
          (client.insert
            (new_refresh_token i u none pair.refresh_token)
            (client.delete_many (is_refresh_token_of u) w.auth.refresh_tokens))
        ≡ count (λ t. not (t.user_uid == u) && q t) w.auth.refresh_tokens
  others_refresh_kept q =
      let apart : RefreshToken → Bool = λ t. not (t.user_uid == u) && q t in
      let kept = client.delete_many (is_refresh_token_of u) w.auth.refresh_tokens in
      ground (
        arith,
        client.count-insert (new_refresh_token i u none pair.refresh_token) apart kept,
        client.count-delete_many (is_refresh_token_of u) apart w.auth.refresh_tokens,
        count-ext (λ t. not (is_refresh_token_of u t) && apart t) apart w.auth.refresh_tokens
            (λ t. ground arith),
        ==_iff u u,
      )

  -- A known user's reset of the password: every row of the user has the new hash, the returned pair is the only
  -- pair of tokens that the user has, and the access tokens and refresh tokens of other users stay; provided that the new refresh token is new in the table.
  pub reset_forgotten_password_outcome :
      is_some (find_user u w) ≡ true
      → count (is_token pair.refresh_token) w.auth.refresh_tokens ≡ 0
      → let (r, w') = reset_forgotten_password s i new u w in
        (r ≡ ok pair)
        × (count (λ x. x.uid == u && not (has_password (s.hash new) x)) w'.users ≡ 0)
        × (count (is_user_token_of u) w'.auth.user_tokens ≡ 1)
        × (count (is_user_token pair.access_token u) w'.auth.user_tokens ≡ 1)
        × (count (is_refresh_token_of u) w'.auth.refresh_tokens ≡ 1)
        × (count (is_token pair.refresh_token) w'.auth.refresh_tokens ≡ 1)
        × ((q : UserToken → Bool)
            → count (λ t. not (t.user_uid == u) && q t) w'.auth.user_tokens
              ≡ count (λ t. not (t.user_uid == u) && q t) w.auth.user_tokens)
        × ((q : RefreshToken → Bool)
            → count (λ t. not (t.user_uid == u) && q t) w'.auth.refresh_tokens
              ≡ count (λ t. not (t.user_uid == u) && q t) w.auth.refresh_tokens)
  reset_forgotten_password_outcome known fresh =
      let (done, users, accesses, refreshes) = reset_lem known (still_known known) fresh in
      let access = new_user_token i u none pair.access_token in
      let refresh = new_refresh_token i u none pair.refresh_token in
      let kept = client.delete_many (is_user_token_of u) w.auth.user_tokens in
      let left = client.delete_many (is_refresh_token_of u) w.auth.refresh_tokens in
      let no_access = count-delete_many_self (is_user_token_of u) w.auth.user_tokens in
      let no_refresh = count-delete_many_self (is_refresh_token_of u) w.auth.refresh_tokens in
      let mine : User → Bool = λ x. x.uid == u in
      let stale : User → Bool = λ x. x.uid == u && not (has_password (s.hash new) x) in
      (
        done,
        ap (count stale) users
            ∙ omega (
              arith,
              client.count-update_many mine with_hash stale w.users,
              count-none (λ x. mine x && stale (with_hash x)) w.users
                  (λ x. ground (arith, str_eq-refl (s.hash new))),
              count-none (λ x. not (mine x) && stale x) w.users (λ x. ground arith),
            ),
        ap (count (is_user_token_of u)) accesses
            ∙ ground (
              arith,
              client.count-insert access (is_user_token_of u) kept,
              no_access,
              ==_iff u u,
            ),
        ap (count (is_user_token pair.access_token u)) accesses
            ∙ ground (
              arith,
              client.count-insert access (is_user_token pair.access_token u) kept,
              no_access,
              count-le (is_user_token pair.access_token u) (is_user_token_of u) kept
                  (λ t h. ground arith),
              ==_iff u u,
              ==_iff pair.access_token pair.access_token,
            ),
        ap (count (is_refresh_token_of u)) refreshes
            ∙ ground (
              arith,
              client.count-insert refresh (is_refresh_token_of u) left,
              no_refresh,
              ==_iff u u,
            ),
        ap (count (is_token pair.refresh_token)) refreshes
            ∙ ground (
              arith,
              client.count-insert refresh (is_token pair.refresh_token) left,
              fresh,
              count-delete_many-le (is_refresh_token_of u) (is_token pair.refresh_token)
                  w.auth.refresh_tokens,
              ==_iff pair.refresh_token pair.refresh_token,
            ),
        λ q. ap (count (λ t. not (t.user_uid == u) && q t)) accesses ∙ others_kept q,
        λ q. ap (count (λ t. not (t.user_uid == u) && q t)) refreshes ∙ others_refresh_kept q,
      )
