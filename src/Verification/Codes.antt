-- ===== src/Verification/Codes.antt =====
-- A code gives access once, while it is live.
use ludora_back.Prelude.{
  ℕ, String, ◌≡◌, ◌≤◌, ◌⊎◌, inl, inr, Bool, true, false, ◌&&◌, ◌==◌, ltb, none, some, List, arith,
  count, count-split, ==_iff, ap, Option-cases, Bool-cases,
}
use ludora_back.World.{
  Client, User, UserToken, EmailVerification, World, Refuses, Result, ok, is_ok, find_first-eq_none,
}
use ludora_back.Tokens.{Server, TokenType, payload, token_expiration_time, create_user_token}
use ludora_back.Accounts.{find_one_by_email}
use ludora_back.Accounts.Found.{user_known}
use ludora_back.Verification.{is_code, generate_access_token_from_code, delete_code}

module _ ⦃client : Client⦄ where
  module _ (s : Server) (token_uid : ℕ) (code email : String) (now : ℕ) (w : World) where
    abbrev token_of : User → ℕ
    token_of user = s.sign (payload user.uid TokenType.access) (token_expiration_time s) now

    abbrev row_of : User → UserToken
    row_of user = record {
      uid = token_uid;
      user_uid = user.uid;
      organisation_uid = none;
      token = token_of user;
    }

    abbrev redeemed : User → EmailVerification → World
    redeemed user v = record w {
      auth = record w.auth {
        user_tokens = client.insert (row_of user) w.auth.user_tokens;
        email_verifications =
            client.delete_many (λ (x : EmailVerification). x.uid == v.uid)
              w.auth.email_verifications;
      };
    }

    granted :
        (user : User) (v : EmailVerification)
        → find_one_by_email (s.lower email) w ≡ some user
        → client.find_first (is_code code user.uid) w.auth.email_verifications ≡ some v
        → ltb v.expires_at now ≡ false
        → generate_access_token_from_code s token_uid code email now w
          ≡ (ok (token_of user), redeemed user v)
    unfolding generate_access_token_from_code create_user_token delete_code
    granted user v found here live =
        let there =
          client.find_first-mem (is_code code user.uid) w.auth.email_verifications v
            (λ x. x.uid == v.uid) here (ground (arith, ==_iff v.uid v.uid)) in
        ground (arith, found, here, live, there, user_known (s.lower email) user w found)

    -- Only a code of the email's account that has not expired gives access, and it gives an access
    -- token of that account; any other code throws and writes nothing.
    generate_access_token_from_code_outcome :
        let (r, w') = generate_access_token_from_code s token_uid code email now w in
        Refuses w (r, w')
        ⊎ (user : User) × (v : EmailVerification) × (find_one_by_email (s.lower email) w
            ≡ some user)
          × (client.find_first (is_code code user.uid) w.auth.email_verifications ≡ some v)
          × (ltb v.expires_at now ≡ false)
          × (r ≡ ok (token_of user))
          × (w' ≡ redeemed user v)
    unfolding generate_access_token_from_code
    generate_access_token_from_code_outcome =
        elim (Option-cases (find_one_by_email (s.lower email) w)) [
          | inl e ↦ inl (ground (arith, e))
          | inr (user, e) ↦
              elim (Option-cases
                (client.find_first (is_code code user.uid) w.auth.email_verifications)) [
                  | inl f ↦ inl (ground (arith, e, f))
                  | inr (v, f) ↦ elim (Bool-cases (ltb v.expires_at now)) [
                    | inl late ↦ inl (ground (arith, e, f, late))
                    | inr live ↦
                        let done = granted user v e f live in
                        inr (
                          user,
                          v,
                          e,
                          f,
                          live,
                          ap (λ (o : Result ℕ × World). o.0) done,
                          ap (λ (o : Result ℕ × World). o.1) done,
                        )
                  ]
                ]
        ]

  spent :
      (code : String) (u : ℕ) (v : EmailVerification) (t : List EmailVerification)
      → count (is_code code u) t ≤ 1
      → client.find_first (is_code code u) t ≡ some v
      → count (is_code code u) (client.delete_many (λ (x : EmailVerification). x.uid == v.uid) t)
        ≡ 0
  spent code u v t once found =
      let same : EmailVerification → Bool = λ x. x.uid == v.uid in
      ground (
        arith,
        once,
        client.count-delete_many same (is_code code u) t,
        count-split same (is_code code u) t,
        client.find_first-mem (is_code code u) t v (λ x. same x && is_code code u x) found,
        client.find_first-some (is_code code u) t v found,
        ==_iff v.uid v.uid,
      )

  unknown_refused :
      (s : Server) (uid : ℕ) (code email : String) (now : ℕ) (user : User) (w : World)
      → find_one_by_email (s.lower email) w ≡ some user
      → client.find_first (is_code code user.uid) w.auth.email_verifications ≡ none
      → Refuses w (generate_access_token_from_code s uid code email now w)
  unfolding generate_access_token_from_code
  unknown_refused s uid code email now user w found gone = ground (arith, found, gone)

  -- A code gives access once: after a call that returns, the same code and email are refused
  -- whenever they come again, and nothing is written; provided that no user has a code twice.
  pub generate_access_token_from_code-once :
      (s : Server) (token_uid again : ℕ) (code email : String) (now later : ℕ) (w : World)
      → ((u : ℕ) → count (is_code code u) w.auth.email_verifications ≤ 1)
      → is_ok (generate_access_token_from_code s token_uid code email now w).0 ≡ true
      → let w' = (generate_access_token_from_code s token_uid code email now w).1 in
        Refuses w' (generate_access_token_from_code s again code email later w')
  generate_access_token_from_code-once s token_uid again code email now later w once done =
      elim (generate_access_token_from_code_outcome s token_uid code email now w) [
        | inl (failed, _) ↦ absurd (ground (arith, failed, done))
        | inr (user, v, found, here, live, result, after) ↦ rw after (
            unknown_refused s again code email later user
              (redeemed s token_uid code email now w user v) found
              (find_first-eq_none (is_code code user.uid) _
                (spent code user.uid v w.auth.email_verifications (once user.uid) here)))
      ]
