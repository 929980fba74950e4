-- ===== src/Webhooks/Statuses.antt =====
-- Where an event leaves a status that it should not.
use ludora_back.Prelude.{◌≡◌, false, ◌&&◌, some, arith}
use ludora_back.World.{Client, World, ok}
use ludora_back.Webhooks.{Account, DisabledReason, handle_account_updated}

module _ ⦃client : Client⦄ where
  -- An account that Stripe rejects keeps its status: the handler returns and writes nothing, since
  -- the status that it computes is none of the column's.
  handle_account_updated-misses_rejection :
      (a : Account) (w : World)
      → (a.charges_enabled && a.payouts_enabled) ≡ false
      → a.disabled_reason ≡ some DisabledReason.rejected
      → handle_account_updated a w ≡ (ok tt, w)
  unfolding handle_account_updated
  handle_account_updated-misses_rejection a w off rejected = ground (arith, off, rejected)
