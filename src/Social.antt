-- ===== src/Social.antt =====
-- The social graph over time: friends/friends.service.ts and moderation/moderation.service.ts share
-- the table of friends, and their calls come in any order.
pub mod History
use ludora_back.Prelude.{ℕ, List, [], ◌∷◌}
use ludora_back.World.{Client, InvitationStatus, World}
use ludora_back.Friends
use ludora_back.Moderation.{block_user, unblock_user}

-- One call of a route; the first user is the connected one.
pub data Call : Type 0 where
  requests : (sender receiver now : ℕ) → Call
  answers : (user other : ℕ) → InvitationStatus → (now : ℕ) → Call
  removes blocks unblocks : (user other : ℕ) → Call

module _ ⦃client : Client⦄ where
  -- The world after a call, whether it returned or threw.
  pub step : World → Call → World
  step w (requests s r now) = (Friends.create s r now w).1
  step w (answers c r status now) = (Friends.update c r status now w).1
  step w (removes c r) = (Friends.remove c r w).1
  step w (blocks a b) = (block_user a b w).1
  step w (unblocks a b) = (unblock_user a b w).1

  pub run : World → List Call → World
  run w [] = w
  run w (c ∷ cs) = run (step w c) cs
