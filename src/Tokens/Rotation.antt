-- ===== src/Tokens/Rotation.antt =====
-- A refresh token is exchanged once.
use ludora_back.Prelude.{
  ℕ, ◌≡◌, ◌≤◌, ◌<◌, ◌⊎◌, inl, inr, Bool, true, false, ◌&&◌, ◌==◌, Option, none, some, List, arith,
  count, count-le, count-split, ==_iff, refl, Option-cases, Bool-cases, ap,
}
use ludora_back.World.{
  Client, UserToken, RefreshToken, World, Refuses, ok, is_ok, has, find_first-eq_none,
}
use ludora_back.Users.{find_user}
use ludora_back.Tokens.{
  Server, Issue, Payload, TokenPair, sign_pair, week, is_token, is_valid, is_user_token,
  is_user_token_of, refresh_token, rotate, create_user_token, create_refresh_token,
  delete_refresh_token, new_refresh_token, new_user_token, replace_access_token,
}

module _ ⦃client : Client⦄ where
  -- What remains of the refresh tokens when the row found is exchanged.
  abbrev without : RefreshToken → World → List RefreshToken
  without old w = client.delete_many (λ (t : RefreshToken). t.uid == old.uid) w.auth.refresh_tokens

  -- A token is that of one row: the column is unique.
  abbrev pub OncePerToken : World → Type 0
  OncePerToken w = (k : ℕ) → count (is_token k) w.auth.refresh_tokens ≤ 1

  gone :
      (k u now : ℕ) (old : RefreshToken) (w : World)
      → OncePerToken w
      → client.find_first (is_valid k u now) w.auth.refresh_tokens ≡ some old
      → count (is_token k) (without old w) ≡ 0
  gone k u now old w once found =
      let t = w.auth.refresh_tokens in
      let same : RefreshToken → Bool = λ x. x.uid == old.uid in
      ground (
        arith,
        once k,
        client.count-delete_many same (is_token k) t,
        count-split same (is_token k) t,
        client.find_first-mem (is_valid k u now) t old (λ x. same x && is_token k x) found,
        client.find_first-some (is_valid k u now) t old found,
        ==_iff old.uid old.uid,
      )

  refused :
      (s : Server) (i : Issue) (k : ℕ) (w : World)
      → count (is_token k) w.auth.refresh_tokens ≡ 0
      → Refuses w (refresh_token s i k w)
  unfolding refresh_token
  refused s i k w none_left = elim (Option-cases (s.verify k i.now)) [
    | inl e ↦ ground (arith, e)
    | inr (claims, e) ↦ ground (
      arith,
      e,
      find_first-eq_none (is_valid k claims.uid i.now) w.auth.refresh_tokens (
          omega (
            arith,
            none_left,
            count-le (is_valid k claims.uid i.now) (is_token k) w.auth.refresh_tokens
                (λ t h. ground arith),
          )),
    )
  ]

  abbrev after_rotation : Issue → RefreshToken → (u : ℕ) → TokenPair → World → World
  after_rotation i old u pair w = record w {
    auth = record w.auth {
      refresh_tokens =
          client.insert (new_refresh_token i u none pair.refresh_token) (without old w);
    };
  }

  -- The user has the access token.
  abbrev HasAccess : (token user_uid : ℕ) → World → Type 0
  HasAccess k u w = has (is_user_token k u) w.auth.user_tokens ≡ true

  access_lem :
      (i : Issue) (u k : ℕ) (o : Option UserToken) (w : World)
      → client.find_first (is_user_token_of u) w.auth.user_tokens ≡ o
      → let (r, w') = replace_access_token i u k o w in
        (is_ok r ≡ false)
        ⊎ (r ≡ ok tt) × (w'.auth.refresh_tokens ≡ w.auth.refresh_tokens) × HasAccess k u w'
  unfolding replace_access_token create_user_token
  access_lem i u k none w found = ground (
    arith,
    client.count-insert (new_user_token i u none k) (is_user_token k u) w.auth.user_tokens,
    ==_iff k k,
    ==_iff u u,
  )
  access_lem i u k (some t) w found =
      let same : UserToken → Bool = λ x. x.uid == t.uid in
      let changed : UserToken → UserToken = λ x. record x { token = k } in
      ground (
        arith,
        client.count-update_many same changed (is_user_token k u) w.auth.user_tokens,
        client.find_first-mem (is_user_token_of u) w.auth.user_tokens t
            (λ x. same x && is_user_token k u (changed x)) found,
        client.find_first-some (is_user_token_of u) w.auth.user_tokens t found,
        ==_iff t.uid t.uid,
        ==_iff k k,
      )

  rotate_cases :
      (i : Issue) (old : RefreshToken) (u : ℕ) (pair : TokenPair) (w : World)
      → let (r, w') = rotate i old u pair w in
        (is_ok r ≡ false)
        ⊎ (r ≡ ok tt)
          × (count (is_token pair.refresh_token) (without old w) ≡ 0)
          × (w'.auth.refresh_tokens
              ≡ client.insert (new_refresh_token i u none pair.refresh_token) (without old w))
          × HasAccess pair.access_token u w'
  unfolding rotate create_refresh_token delete_refresh_token
  rotate_cases i old u pair w =
      let w1 = after_rotation i old u pair w in
      ground (
        arith,
        access_lem i u pair.access_token
            (client.find_first (is_user_token_of u) w1.auth.user_tokens) w1 refl,
      )

  refresh_cases :
      (s : Server) (i : Issue) (k : ℕ) (w : World)
      → let (r, w') = refresh_token s i k w in
        (is_ok r ≡ false)
        ⊎ (old : RefreshToken) × (claims : Payload) × (s.verify k i.now ≡ some claims)
          × (client.find_first (is_valid k claims.uid i.now) w.auth.refresh_tokens ≡ some old)
          × (let u = claims.uid in
              let pair = sign_pair s week u i.now in
              (r ≡ ok pair)
              × (count (is_token pair.refresh_token) (without old w) ≡ 0)
              × (w'.auth.refresh_tokens
                  ≡ client.insert (new_refresh_token i u none pair.refresh_token) (without old w))
              × HasAccess pair.access_token u w')
  unfolding refresh_token
  refresh_cases s i k w = elim (Option-cases (s.verify k i.now)) [
    | inl e ↦ inl (ground (arith, e))
    | inr (claims, e) ↦
        elim (Option-cases
          (client.find_first (is_valid k claims.uid i.now) w.auth.refresh_tokens)) [
            | inl f ↦ inl (ground (arith, e, f))
            | inr (old, f) ↦ elim (Option-cases (find_user claims.uid w)) [
              | inl g ↦ inl (ground (arith, e, f, g))
              | inr (user, g) ↦
                  elim (rotate_cases i old claims.uid (sign_pair s week claims.uid i.now) w) [
                    | inl failed ↦ inl (ground (arith, e, f, g, failed))
                    | inr (done, fresh, table, access) ↦ elim (Bool-cases user.is_connected) [
                      | inl on ↦ inr (
                        old,
                        claims,
                        e,
                        f,
                        ground (arith, e, f, g, on, done, fresh, table, access),
                      )
                      | inr off ↦ inl (ground (arith, e, f, g, off))
                    ]
                  ]
            ]
          ]
  ]

  -- A refresh token is exchanged once. After an exchange the new token is in the table once, the access token
  -- is in a row of the user whom the old token names, and whenever the old token comes again, it is refused and nothing is written;
  -- provided that the new token is another text than the old one, and that each token is in one row.
  pub refresh_token-exchanges_once :
      (s : Server) (i j : Issue) (k : ℕ) (pair : TokenPair) (w : World)
      → OncePerToken w
      → (refresh_token s i k w).0 ≡ ok pair
      → (k == pair.refresh_token) ≡ false
      → let w' = (refresh_token s i k w).1 in
        (count (is_token pair.refresh_token) w'.auth.refresh_tokens ≡ 1)
        × ((claims : Payload) × (s.verify k i.now ≡ some claims)
            × (0 < count (is_user_token pair.access_token claims.uid) w'.auth.user_tokens))
        × Refuses w' (refresh_token s j k w')
  refresh_token-exchanges_once s i j k pair w once done other = elim (refresh_cases s i k w) [
    | inl failed ↦ absurd (ground (arith, failed, done))
    | inr (old, claims, e, found, (result, fresh, table, access)) ↦
        let u = claims.uid in
        let pair' = sign_pair s week u i.now in
        let same : pair' ≡ pair = ground (arith, result, done) in
        let same_token = ap (λ (p : TokenPair). p.refresh_token) same in
        let new = new_refresh_token i u none pair'.refresh_token in
        let w' = (refresh_token s i k w).1 in
        (
          rw (← same) (
              ground (
                arith,
                fresh,
                ap (count (is_token pair'.refresh_token)) table,
                client.count-insert new (is_token pair'.refresh_token) (without old w),
                ==_iff pair'.refresh_token pair'.refresh_token,
              )),
          (claims, e, rw (← same) (ground (arith, access))),
          refused s j k w' (
              ground (
                arith,
                ap (count (is_token k)) table,
                client.count-insert new (is_token k) (without old w),
                gone k u i.now old w once found,
                other,
                same_token,
                ==_iff pair'.refresh_token k,
                ==_iff k pair.refresh_token,
              )),
        )
  ]
