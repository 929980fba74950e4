-- ===== src/Webhooks/Frame.antt =====
-- The handlers leave the table of events alone.
use ludora_back.Prelude.{
  ℕ, ◌≡◌, inl, inr, Option, none, some, List, [], ◌∷◌, arith, refl, Option-cases,
}
use ludora_back.World.{Client, StripeEventRow, Payment, PaymentStatus, World}
use ludora_back.Webhooks.{
  StripeObject, StripeRefund, PaymentIntent, is_intent, refund_status, handle, handle_object,
  handle_payment_intent_succeeded, handle_payment_intent_failed, handle_charge_refunded,
  handle_charge_dispute_created, handle_account_updated, upsert_refund, upsert_refunds,
  refund_payment, refund_intent, dispute, update_payment, upsert_payment, insert_payment,
  record_payment,
}

module _ ⦃client : Client⦄ where
  abbrev pub events_of : World → List StripeEventRow
  events_of w = w.billing.stripe_events

  update_payment_frame :
      (i : ℕ) (status : PaymentStatus) (w : World)
      → events_of (update_payment i status w).1 ≡ events_of w
  unfolding update_payment
  update_payment_frame i status w = ground arith

  upsert_refunds_frame :
      (u : ℕ) (rs : List StripeRefund) (w : World)
      → events_of (upsert_refunds u rs w).1 ≡ events_of w
  unfolding upsert_refunds upsert_refund
  upsert_refunds_frame u [] w = refl
  upsert_refunds_frame u (r ∷ rs) w = elim (Option-cases (refund_status r.status)) [
    | inl e ↦ ground (arith, e)
    | inr (status, e) ↦ ground (arith, e, upsert_refunds_frame u rs (upsert_refund u r status w).1)
  ]

  refunded_frame :
      (i : ℕ) (rs : List StripeRefund) (o : Option Payment) (w : World)
      → events_of (refund_payment i rs o w).1 ≡ events_of w
  unfolding refund_payment
  refunded_frame i rs none w = refl
  refunded_frame i rs (some p) w = ground (
    arith,
    update_payment_frame i PaymentStatus.refunded w,
    upsert_refunds_frame p.uid rs (update_payment i PaymentStatus.refunded w).1,
  )

  refund_intent_frame :
      (i : Option ℕ) (rs : List StripeRefund) (w : World)
      → events_of (refund_intent i rs w).1 ≡ events_of w
  unfolding refund_intent
  refund_intent_frame none rs w = refl
  refund_intent_frame (some i) rs w =
      refunded_frame i rs (client.find_first (is_intent i) w.billing.payments) w

  dispute_frame : (i : Option ℕ) (w : World) → events_of (dispute i w).1 ≡ events_of w
  unfolding dispute
  dispute_frame none w = refl
  dispute_frame (some i) w = update_payment_frame i PaymentStatus.disputed w

  record_frame :
      (uid : ℕ) (p : PaymentIntent) (s u o : Option ℕ) (w : World)
      → events_of (record_payment uid p s u o w).1 ≡ events_of w
  unfolding record_payment upsert_payment insert_payment
  record_frame uid p (some s) (some u) (some o) w = ground arith
  record_frame uid p none u o w = refl
  record_frame uid p (some s) none o w = refl
  record_frame uid p (some s) (some u) none w = refl

  pub handle_frame :
      (uid : ℕ) (o : StripeObject) (w : World) → events_of (handle uid o w).1 ≡ events_of w
  unfolding handle handle_object handle_payment_intent_succeeded handle_payment_intent_failed
      handle_charge_refunded handle_charge_dispute_created handle_account_updated
  handle_frame uid (StripeObject.payment_intent_succeeded p) w =
      record_frame uid p p.session_uid p.user_uid p.partner_uid w
  handle_frame uid (StripeObject.payment_intent_failed p) w =
      update_payment_frame p.id PaymentStatus.failed w
  handle_frame uid (StripeObject.charge_refunded c) w =
      refund_intent_frame c.payment_intent c.refunds w
  handle_frame uid (StripeObject.charge_dispute_created i) w = dispute_frame i w
  handle_frame uid (StripeObject.account_updated a) w = ground arith
  handle_frame uid StripeObject.unhandled w = refl
