-- ===== src/Accounts/Found.antt =====
-- The accounts that are found by email.
use ludora_back.Prelude.{String, ◌≡◌, true, ◌==◌, some, arith, ==_iff}
use ludora_back.World.{Client, User, World, is_some, find_first-eq_some}
use ludora_back.Users.{find_user}
use ludora_back.Accounts.{is_email, find_one_by_email}

module _ ⦃client : Client⦄ where
  -- A row with an email is a row with its id.
  pub user_known :
      (e : String) (user : User) (w : World)
      → find_one_by_email e w ≡ some user
      → is_some (find_user user.uid w) ≡ true
  user_known e user w found =
      let (x, here) =
        find_first-eq_some (λ (y : User). y.uid == user.uid) w.users
          (client.find_first-mem (is_email e) w.users user (λ y. y.uid == user.uid) found
            (ground (arith, ==_iff user.uid user.uid))) in
      ground (arith, here)
