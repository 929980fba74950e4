-- ===== src/Lifecycle/Anonymized.antt =====
-- What is left of an anonymized account.
use ludora_back.Prelude.{
  ℕ, String, ◌≡◌, Bool, true, false, not, ◌&&◌, ◌||◌, ◌==◌, some, arith, count, count-none,
  count-ext, refl, ap, ◌∙◌,
}
use ludora_back.World.{
  Client, User, World, ok, is_ok, is_some, has, count-update_many_same, count-delete_many_self,
  find_first-eq_some,
}
use ludora_back.Users.{find_user}
use ludora_back.Tokens.{Server, TokenType, payload, is_user_token}
use ludora_back.Guards.{auth_b2c_guard}
use ludora_back.Accounts.{is_email, update_user}
use ludora_back.Registration.SignIn.{admits_lem}
use ludora_back.Lifecycle.{
  anonymized, is_friend_of, has_apple_token, anonymize_found, anonymize_user,
}

module _ ⦃client : Client⦄ (revokes : User → Bool) (uid : ℕ) (email : String) (w : World) where
  abbrev mine : User → Bool
  mine u = u.uid == uid

  -- The account was marked, nothing of Apple stands in the way, and the new email is new.
  pub record CanAnonymize (user : User) : Type 0 where
    pub found : find_user uid w ≡ some user
    pub marked : is_some user.deleted_at ≡ true
    pub revocable : (has_apple_token user && not (revokes user)) ≡ false
    pub new_email : count (λ (x : User). is_email email x && not (x.uid == uid)) w.users ≡ 0

  anonymize_lem :
      (user : User)
      → CanAnonymize user
      → let (r, w') = anonymize_user revokes uid email w in
        (r ≡ ok tt)
        × (w'.users ≡ client.update_many mine (anonymized email) w.users)
        × (w'.friends ≡ client.delete_many (is_friend_of uid) w.friends)
        × (w'.auth ≡ w.auth)
  unfolding anonymize_user anonymize_found update_user
  anonymize_lem user h = ground (arith, h.found, h.marked, h.revocable, h.new_email)

  -- The account's rows that still tell something of the person.
  abbrev pub is_personal : User → Bool
  is_personal u =
      mine u && (not u.is_anonymized || is_some u.password || u.is_connected || is_some u.image_url)

  -- An account that was marked for deletion is anonymized, where Apple takes the revocation of its
  -- token, if it has one, and no other account has the email that replaces its own: its rows keep no password and no picture, it is
  -- disconnected, and it has no friends; nobody else's account changes.
  pub anonymize_user_outcome :
      (user : User)
      → CanAnonymize user
      → let (r, w') = anonymize_user revokes uid email w in
        (r ≡ ok tt)
        × (count is_personal w'.users ≡ 0)
        × (count (is_friend_of uid) w'.friends ≡ 0)
        × ((q : User → Bool)
            → count (λ u. not (mine u) && q u) w'.users ≡ count (λ u. not (mine u) && q u) w.users)
  anonymize_user_outcome user h =
      let (done, users, friends, _) = anonymize_lem user h in
      let change = anonymized email in
      (
        done,
        ap (count is_personal) users
            ∙ omega (
              arith,
              client.count-update_many mine change is_personal w.users,
              count-none (λ u. mine u && is_personal (change u)) w.users (λ u. ground arith),
              count-none (λ u. not (mine u) && is_personal u) w.users (λ u. ground arith),
            ),
        rw friends (count-delete_many_self (is_friend_of uid) w.friends),
        λ q. ap (count (λ u. not (mine u) && q u)) users ∙ others_kept q,
      )
    where
      others_kept :
          (q : User → Bool)
          → count (λ u. not (mine u) && q u) (client.update_many mine (anonymized email) w.users)
            ≡ count (λ u. not (mine u) && q u) w.users
      others_kept q =
          let apart : User → Bool = λ u. not (mine u) && q u in
          omega (
            arith,
            client.count-update_many mine (anonymized email) apart w.users,
            count-none (λ u. mine u && apart (anonymized email u)) w.users (λ u. ground arith),
            count-ext (λ u. not (mine u) && apart u) apart w.users (λ u. ground arith),
          )

  -- The tokens are not deleted, and the guard does not look whether the account is connected: an
  -- access token that was given out before is let in after the account is anonymized, as long as it can be read.
  pub anonymize_user-still_admits :
      (user : User) (s : Server) (k now : ℕ)
      → CanAnonymize user
      → has (is_user_token k uid) w.auth.user_tokens ≡ true
      → s.verify k now ≡ some (payload uid TokenType.access)
      → let w' = (anonymize_user revokes uid email w).1 in
        is_ok (auth_b2c_guard s false false (some k) now w').0 ≡ true
  anonymize_user-still_admits user s k now h token readable =
      let (_, users, _, auth) = anonymize_lem user h in
      let w' = (anonymize_user revokes uid email w).1 in
      let there =
        client.find_first-mem mine w.users user mine h.found
          (client.find_first-some mine w.users user h.found) in
      let same =
        ap (count mine) users
        ∙ count-update_many_same mine (anonymized email) mine w.users (λ u. refl) in
      let (x, known) = find_first-eq_some mine w'.users (omega (arith, same, there)) in
      let (admitted, _) =
        admits_lem s k uid now w' readable (rw auth token) (ground (arith, known)) in
      admitted
