-- ===== src/Tests/Billing.antt =====
-- Stripe's events on a payment.
use ludora_back.Prelude.{◌≡◌, ◌⊎◌, false, some, [], ◌∷◌}
use ludora_back.World.{list_client, World, PaymentStatus, ok, is_ok}
use ludora_back.Webhooks.{
  StripeEvent, StripeObject, is_event_id, is_done, process_stripe_event, PaymentIntent,
}
use ludora_back.Webhooks.Events.{process_stripe_event-once}
use ludora_back.Tests.Sample.{sample, no_billing}

-- One payment, of intent 5.
abbrev with_payment : PaymentStatus → World
with_payment status = record sample {
  billing = record no_billing {
    payments =
        record {
          uid = 1;
          session_uid = 10;
          user_uid = 1;
          partner_uid = 6;
          stripe_payment_intent_id = 5;
          amount = 900;
          amount_platform = 0;
          commission_rate_snapshot = 1500;
          status = status;
        }
        ∷ [];
  };
}

abbrev paid : World
paid = with_payment PaymentStatus.success

abbrev refund : StripeEvent
refund = record {
  id = 60;
  kind = "charge.refunded";
  object = StripeObject.charge_refunded (record { payment_intent = some 5; refunds = [] });
}

process_stripe_event-once_example :
    let (r, w') = process_stripe_event 2 refund paid in
    (r ≡ ok tt) × (process_stripe_event 3 refund w' ≡ (ok tt, w'))
    ⊎ (is_ok r ≡ false)
      × (is_done (list_client.find_first (is_event_id 60) w'.billing.stripe_events) ≡ false)
process_stripe_event-once_example = process_stripe_event-once 2 3 refund paid

-- The payment after it was refunded, and a success for it that is delivered late.
abbrev refunded : World
refunded = with_payment PaymentStatus.refunded

abbrev intent : PaymentIntent
intent = record {
  id = 5;
  amount = 900;
  session_uid = some 10;
  user_uid = some 1;
  partner_uid = some 6;
  commission_rate = some 1500;
}
