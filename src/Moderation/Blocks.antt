-- ===== src/Moderation/Blocks.antt =====
-- What blocking and unblocking a user does, and who is then shown to whom.
use ludora_back.Prelude.{
  ℕ, ◌≡◌, ◌⊎◌, inl, inr, ◌<◌, false, not, ◌&&◌, ◌==◌, none, some, arith, count, count-le,
  count-split, count-none,
}
use ludora_back.World.{
  Client, UserBlock, World, Refuses, is_ok, is_some, ok, has, find_first-eq_none,
  count-delete_many-le, count-delete_many_self,
}
use ludora_back.Users.{find_user, find_one, is_block_between}
use ludora_back.Friends.{is_between, is_live, is_key}
use ludora_back.Friends.Valid.{IsValid, is_self}
use ludora_back.Moderation.{is_block, block_user, unblock_user, create_block}

abbrev new_block : ℕ → ℕ → UserBlock
new_block a b = record { blocker_uid = a; blocked_uid = b }

module _ ⦃client : Client⦄ where
  pub block_user_cases :
      (a b : ℕ) (w : World)
      → Refuses w (block_user a b w)
        ⊎ (((block_user a b w).0 ≡ ok tt)
            × ((block_user a b w).1 ≡ record w {
              user_blocks = client.insert (new_block a b) w.user_blocks;
              friends = client.delete_many (is_between a b) w.friends;
            })
            × (count (is_block a b) w.user_blocks ≡ 0))
  unfolding block_user create_block
  block_user_cases a b w = ground (arith, client.find_first-none (is_block a b) w.user_blocks)

  -- Blocking succeeds exactly for two known users of whom the first has not blocked the second.
  -- It then leaves one such block, and neither friendship nor request between the two; a call
  -- that fails changes nothing.
  pub block_user_outcome :
      (a b : ℕ) (w : World)
      → let (r, w') = block_user a b w in
        (is_ok r ≡ (
          is_some (find_user a w)
          && is_some (find_user b w)
          && not (has (is_block a b) w.user_blocks)))
        × ((is_ok r ≡ false) × (w' ≡ w)
            ⊎ (count (is_block a b) w'.user_blocks ≡ 1) × (count (is_between a b) w'.friends ≡ 0))
  unfolding block_user create_block
  block_user_outcome a b w = ground (
    arith,
    find_first-eq_none (is_block a b) w.user_blocks,
    client.find_first-none (is_block a b) w.user_blocks,
    client.count-insert (new_block a b) (is_block a b) w.user_blocks,
    count-delete_many_self (is_between a b) w.friends,
  )

  -- Blocking keeps the invariant of friendships.
  pub block_user-IsValid :
      (a b : ℕ) (w : World) → IsValid w.friends → IsValid (block_user a b w).1.friends
  block_user-IsValid a b w v = elim (block_user_cases a b w) [
    | inl (failed, same) ↦ rw same v
    | inr (done, world, free) ↦ rw world (record {
      live_once = λ x y.
          omega
            (arith, v.live_once x y, count-delete_many-le (is_between a b) (is_live x y) w.friends);
      keyed = λ x y.
          omega (arith, v.keyed x y, count-delete_many-le (is_between a b) (is_key x y) w.friends);
      no_self = omega (arith, v.no_self, count-delete_many-le (is_between a b) is_self w.friends);
    })
  ]

  -- A block between the two users, set by either, hides each from the other.
  hidden :
      (a b : ℕ) (w : World)
      → 0 < count (is_block_between a b) w.user_blocks
      → find_one b (some a) w ≡ (ok none, w)
  unfolding find_one
  hidden a b w h = ground (arith, client.find_first-none (is_block_between a b) w.user_blocks)

  -- After a block that succeeds, a search by either of the two users does not find the other.
  pub find_one-block_user :
      (a b : ℕ) (w : World)
      → (block_user a b w).0 ≡ ok tt
      → let w' = (block_user a b w).1 in
        (find_one b (some a) w' ≡ (ok none, w')) × (find_one a (some b) w' ≡ (ok none, w'))
  find_one-block_user a b w h =
      let w' = (block_user a b w).1 in
      let one = (block_user_outcome a b w).1 in
      (
        hidden a b w' (
            ground (
              arith,
              one,
              count-le (is_block a b) (is_block_between a b) w'.user_blocks (λ k e. ground arith),
            )),
        hidden b a w' (
            ground (
              arith,
              one,
              count-le (is_block a b) (is_block_between b a) w'.user_blocks (λ k e. ground arith),
            )),
      )

  -- Unblocking succeeds exactly if the user has blocked the other, and then takes away that block
  -- and no other; a call that fails changes nothing.
  pub unblock_user_outcome :
      (a b : ℕ) (w : World)
      → let (r, w') = unblock_user a b w in
        (is_ok r ≡ has (is_block a b) w.user_blocks)
        × (count (is_block a b) w'.user_blocks ≡ 0)
        × ((x y : ℕ)
            → (x == a && y == b) ≡ false
            → count (is_block x y) w'.user_blocks ≡ count (is_block x y) w.user_blocks)
        × (w'.friends ≡ w.friends)
  unfolding unblock_user
  unblock_user_outcome a b w = (
    ground (arith, found, missing),
    ground (arith, missing, count-delete_many_self (is_block a b) w.user_blocks),
    λ x y ne. ground (
      arith,
      client.count-delete_many (is_block a b) (is_block x y) w.user_blocks,
      count-split (is_block a b) (is_block x y) w.user_blocks,
      count-none (λ k. is_block a b k && is_block x y k) w.user_blocks (λ k. ground arith),
    ),
    ground arith,
  )
    where
      found :
          count (is_block a b) w.user_blocks ≡ 0
          → client.find_first (is_block a b) w.user_blocks ≡ none
      found = find_first-eq_none (is_block a b) w.user_blocks

      missing :
          client.find_first (is_block a b) w.user_blocks ≡ none
          → count (is_block a b) w.user_blocks ≡ 0
      missing = client.find_first-none (is_block a b) w.user_blocks
