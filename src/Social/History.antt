-- ===== src/Social/History.antt =====
-- The invariant of friendships under every history of calls.
use ludora_back.Prelude.{List, [], ◌∷◌}
use ludora_back.World.{Client, World}
use ludora_back.Friends.Valid.{IsValid, create-IsValid, update-IsValid, remove-IsValid}
use ludora_back.Moderation.Blocks.{block_user-IsValid, unblock_user_outcome}
use ludora_back.Social.{Call, requests, answers, removes, blocks, unblocks, step, run}

module _ ⦃client : Client⦄ where
  pub step-IsValid : (w : World) (c : Call) → IsValid w.friends → IsValid (step w c).friends
  unfolding step
  step-IsValid w (requests s r now) v = create-IsValid s r now w v
  step-IsValid w (answers c r status now) v = update-IsValid c r status now w v
  step-IsValid w (removes c r) v = remove-IsValid c r w v
  step-IsValid w (blocks a b) v = block_user-IsValid a b w v
  step-IsValid w (unblocks a b) v = rw ((unblock_user_outcome a b w).3) v

  -- From a table that meets the invariant, any sequence of friend requests, answers, removals,
  -- blocks and unblocks, failed calls among them, leads to one that does: two users never share
  -- two pending requests or friendships, no row is doubled, and nobody befriends themselves.
  pub run-IsValid : (cs : List Call) (w : World) → IsValid w.friends → IsValid (run w cs).friends
  unfolding run
  run-IsValid [] w v = v
  run-IsValid (c ∷ cs) w v = run-IsValid cs (step w c) (step-IsValid w c v)
