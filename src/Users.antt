-- ===== src/Users.antt =====
-- users/users.service.ts: `findOne`, through which the other services look up a user.
use ludora_back.Prelude.{ℕ, Bool, Option, none, some, ◌==◌, ◌&&◌, ◌||◌}
use ludora_back.World.{Client, User, UserBlock, World, Action, gets, ◌>>=◌}

-- Some block holds between the two users, whichever of them set it.
abbrev pub is_block_between : ℕ → ℕ → UserBlock → Bool
is_block_between a b k =
    (k.blocker_uid == a && k.blocked_uid == b) || (k.blocker_uid == b && k.blocked_uid == a)

module _ ⦃client : Client⦄ where
  abbrev pub find_user : ℕ → World → Option User
  find_user uid w = client.find_first (λ u. u.uid == uid) w.users

  hide_blocked : User → Option UserBlock → Option User
  hide_blocked user none = some user
  hide_blocked user (some block) = none

  abbrev seen_by : Option ℕ → ℕ → User → World → Option User
  seen_by none uid user w = some user
  seen_by (some searcher) uid user w =
      hide_blocked user (client.find_first (is_block_between searcher uid) w.user_blocks)

  -- The searcher is optional; a user with a block between the two is not shown to the searcher.
  unfoldable pub find_one : ℕ → Option ℕ → Action (Option User)
  unfolding hide_blocked
  find_one uid searcher_uid = do
    existing_user ← gets (find_user uid)
    gets (λ w. elim existing_user [ none ↦ none | some user ↦ seen_by searcher_uid uid user w ])
