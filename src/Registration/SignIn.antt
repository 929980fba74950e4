-- ===== src/Registration/SignIn.antt =====
-- Signing in with a password.
use ludora_back.Prelude.{
  ℕ, String, ◌≡◌, ◌⊎◌, inl, inr, true, false, none, some, arith, count, ==_iff, refl, Option-cases,
  Bool-cases,
}
use ludora_back.World.{
  Client, User, World, Refuses, ok, is_ok, is_some, has, transaction, find_first-eq_some,
}
use ludora_back.Users.{find_user}
use ludora_back.Tokens.{
  Server, Issue, TokenType, TokenPair, payload, sign_pair, year, is_token, is_user_token,
  create_pair, create_user_token, create_refresh_token, new_user_token, new_refresh_token,
}
use ludora_back.Guards.{auth_b2c_guard}
use ludora_back.Accounts.{find_one_by_email, verify_password, check_password}
use ludora_back.Accounts.Found.{user_known}
use ludora_back.Registration.{LoginDto, login}

module _ ⦃client : Client⦄ where
  abbrev signed_in : Issue → (u : ℕ) → TokenPair → World → World
  signed_in i u pair w = record w {
    auth = record w.auth {
      user_tokens = client.insert (new_user_token i u none pair.access_token) w.auth.user_tokens;
      refresh_tokens =
          client.insert (new_refresh_token i u none pair.refresh_token) w.auth.refresh_tokens;
    };
  }

  pub create_pair_cases :
      (i : Issue) (u : ℕ) (pair : TokenPair) (w : World)
      → Refuses w (transaction (create_pair i u pair) w)
        ⊎ (transaction (create_pair i u pair) w ≡ (ok tt, signed_in i u pair w))
  unfolding create_pair create_user_token create_refresh_token
  create_pair_cases i u pair w = ground arith

  -- Only the password of the email's account signs in: a call that returns has found the account,
  -- with a hash that the password matches, and any other throws and writes nothing.
  pub login_outcome :
      (s : Server) (i : Issue) (dto : LoginDto) (w : World)
      → let (r, w') = login s i dto w in
        Refuses w (r, w')
        ⊎ (user : User) × (h : String) × (find_one_by_email (s.lower dto.email) w ≡ some user)
          × (user.password ≡ some h)
          × (s.matches h dto.password ≡ true)
          × (let pair = sign_pair s year user.uid i.now in
              (r ≡ ok pair) × (w' ≡ signed_in i user.uid pair w))
  unfolding login verify_password check_password
  login_outcome s i dto w = elim (Option-cases (find_one_by_email (s.lower dto.email) w)) [
    | inl e ↦ inl (ground (arith, e))
    | inr (user, e) ↦ elim (Option-cases user.password) [
      | inl f ↦ inl (ground (arith, e, f))
      | inr (h, f) ↦ elim (Bool-cases (s.matches h dto.password)) [
        | inr g ↦ inl (ground (arith, e, f, g))
        | inl g ↦ elim (create_pair_cases i user.uid (sign_pair s year user.uid i.now) w) [
          | inl failed ↦ inl (ground (arith, e, f, g, failed))
          | inr done ↦ inr (user, h, e, f, g, ground (arith, e, f, g, done))
        ]
      ]
    ]
  ]

  create_pair_new :
      (i : Issue) (u : ℕ) (pair : TokenPair) (w : World)
      → count (is_token pair.refresh_token) w.auth.refresh_tokens ≡ 0
      → is_some (find_user u w) ≡ true
      → create_pair i u pair w ≡ (ok tt, signed_in i u pair w)
  unfolding create_pair create_user_token create_refresh_token
  create_pair_new i u pair w fresh known = ground arith

  pub admits_lem :
      (s : Server) (k u now : ℕ) (w : World)
      → s.verify k now ≡ some (payload u TokenType.access)
      → has (is_user_token k u) w.auth.user_tokens ≡ true
      → is_some (find_user u w) ≡ true
      → (is_ok (auth_b2c_guard s false false (some k) now w).0 ≡ true)
        × ((auth_b2c_guard s false false (some k) now w).1 ≡ w)
  unfolding auth_b2c_guard
  admits_lem s k u now w readable token known =
      let (t, here) =
        find_first-eq_some (is_user_token k u) w.auth.user_tokens (ground (arith, token)) in
      elim (Option-cases (find_user u w)) [
        | inl e ↦ absurd (ground (arith, e, known))
        | inr (user, e) ↦ ground (arith, readable, here, e)
      ]

  abbrev pub pair_of : Server → Issue → User → TokenPair
  pair_of s i user = sign_pair s year user.uid i.now

  -- The account's password signs in, and the access token that is returned is let in
  -- whenever it can still be read; provided that the refresh token is new in the table.
  pub login-admits :
      (s : Server) (i : Issue) (dto : LoginDto) (user : User) (h : String) (later : ℕ) (w : World)
      → find_one_by_email (s.lower dto.email) w ≡ some user
      → user.password ≡ some h
      → s.matches h dto.password ≡ true
      → count (is_token (pair_of s i user).refresh_token) w.auth.refresh_tokens ≡ 0
      → s.verify (pair_of s i user).access_token later ≡ some (payload user.uid TokenType.access)
      → let (r, w') = login s i dto w in
        (r ≡ ok (pair_of s i user))
        × (is_ok (auth_b2c_guard s false false (some (pair_of s i user).access_token) later w').0
            ≡ true)
        × ((auth_b2c_guard s false false (some (pair_of s i user).access_token) later w').1 ≡ w')
  unfolding login verify_password check_password
  login-admits s i dto user h later w e f g fresh readable =
      let pair = pair_of s i user in
      let known = user_known (s.lower dto.email) user w e in
      let made = create_pair_new i user.uid pair w fresh known in
      let w' = signed_in i user.uid pair w in
      let same : login s i dto w ≡ (ok pair, w') = ground (arith, e, f, g, made) in
      let k = pair.access_token in
      let row = new_user_token i user.uid none k in
      let token : has (is_user_token k user.uid) w'.auth.user_tokens ≡ true = ground (
        arith,
        client.count-insert row (is_user_token k user.uid) w.auth.user_tokens,
        ==_iff k k,
        ==_iff user.uid user.uid,
      ) in
      let (admitted, kept) = admits_lem s k user.uid later w' readable token known in
      rw same (refl, admitted, kept)
