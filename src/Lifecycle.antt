-- ===== src/Lifecycle.antt =====
-- user-lifecycle/user-lifecycle.service.ts: the accounts whose deletion was asked for.
pub mod Anonymized
use ludora_back.Prelude.{
  ℕ, String, Bool, true, false, not, ◌&&◌, ◌||◌, ◌==◌, leb, Option, none, some, List, [], ◌∷◌, map,
  if◌then◌else◌,
}
use ludora_back.World.{
  Client, User, Provider, ◌is_provider◌, Friend, World, internal_error, internal, record_not_found,
  unique_violation, Exception, Action, pure, gets, or_raise, ◌>>=◌, ◌>>◌, raise_if, modify, when,
  transaction, catch, has, is_some, is_none,
}
use ludora_back.Users.{find_user}
use ludora_back.Accounts.{is_email, update_user}

-- `email` is the random one of the call.
abbrev pub anonymized : (email : String) → User → User
anonymized email u = record u {
  email = some email;
  password = none;
  firstname = some "Utilisateur";
  lastname = some "Supprimé";
  image_url = none;
  is_connected = false;
  is_email_verified = false;
  is_anonymized = true;
}

abbrev pub is_friend_of : ℕ → Friend → Bool
is_friend_of uid f = f.user_uid1 == uid || f.user_uid2 == uid

-- The accounts that are due.
abbrev pub is_due : (now : ℕ) → User → Bool
is_due now u = elim u.deleted_at [ none ↦ false | some d ↦ leb d now ] && not u.is_anonymized

-- Whether Apple has a token to revoke.
abbrev pub has_apple_token : User → Bool
has_apple_token u = u.provider is_provider Provider.apple && is_some u.apple_refresh_token

module _ ⦃client : Client⦄ where
  -- `revokes` tells whether Apple takes the revocation of the user's token.
  abbrev anonymize :
      (revokes : User → Bool) → (uid : ℕ) → (email : String) → User → Action (Unit {0})
  anonymize revokes uid email user = do
    raise_if (has_apple_token user && not (revokes user)) (internal internal_error)
    raise_if (← gets (λ w. has (λ (x : User). is_email email x && not (x.uid == uid)) w.users))
        unique_violation
    update_user uid (anonymized email)
    modify (λ w. record w { friends = client.delete_many (is_friend_of uid) w.friends })

  anonymize_found :
      (revokes : User → Bool) → (uid : ℕ) → (email : String) → Option User → Action (Unit {0})
  anonymize_found revokes uid email none = pure tt
  anonymize_found revokes uid email (some user) =
      when (is_some user.deleted_at) (anonymize revokes uid email user)

  -- An error is only logged.
  unfoldable pub anonymize_user :
      (revokes : User → Bool) → (uid : ℕ) → (email : String) → Action (Unit {0})
  unfolding anonymize_found
  anonymize_user revokes uid email =
      catch (transaction (do anonymize_found revokes uid email (← gets (find_user uid))))
        (λ e. pure tt)

  anonymize_each : (revokes : User → Bool) → (email_of : ℕ → String) → List ℕ → Action (Unit {0})
  anonymize_each revokes email_of [] = pure tt
  anonymize_each revokes email_of (u ∷ us) = do
    anonymize_user revokes u (email_of u)
    anonymize_each revokes email_of us

  -- Every day at midnight.
  unfoldable pub anonymize_expired_users :
      (revokes : User → Bool) → (email_of : ℕ → String) → (now : ℕ) → Action (Unit {0})
  unfolding anonymize_each
  anonymize_expired_users revokes email_of now = do
    users_to_anonymize ←
        gets (λ w. map (λ (u : User). u.uid) (client.find_many (is_due now) w.users))
    anonymize_each revokes email_of users_to_anonymize
