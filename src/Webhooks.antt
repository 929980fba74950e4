-- ===== src/Webhooks.antt =====
-- webhooks/webhooks.service.ts: what Stripe's events do to the payments, the refunds and the
-- partners' accounts.
pub mod Events
pub mod Frame
pub mod Statuses
use ludora_back.Prelude.{
  ℕ, String, Bool, true, false, not, ◌&&◌, ◌==◌, Option, none, some, List, [], ◌∷◌, holds,
  if◌then◌else◌,
}
use ludora_back.World.{
  Client, Payment, PaymentStatus, Refund, RefundReason, RefundStatus, StripeAccountStatus,
  StripeEventRow, StripeEventStatus, ◌is_event◌, PartnerBillingConfig, Session, BillingTables,
  World, foreign_key_violation, record_not_found, validation_error, bad_request, invalid_signature,
  Exception, Action, pure, raise, gets, or_raise, ◌>>=◌, ◌>>◌, raise_if, modify, catch, has,
  is_some, is_none,
}
use ludora_back.Users.{find_user}
use ludora_back.Tokens.{find_partner}

-- The parts of Stripe's objects that the handlers read. A uid of the metadata may be missing.
pub record PaymentIntent : Type 0 where
  pub id : ℕ
  pub amount : ℕ
  pub session_uid : Option ℕ
  pub user_uid : Option ℕ
  pub partner_uid : Option ℕ
  pub commission_rate : Option ℕ

pub data StripeRefundStatus : Type 0 where
  pending requires_action succeeded failed canceled : StripeRefundStatus

pub data StripeRefundReason : Type 0 where
  fraudulent requested_by_customer duplicate expired_uncaptured_charge : StripeRefundReason

pub record StripeRefund : Type 0 where
  pub id : ℕ
  pub amount : ℕ
  pub status : Option StripeRefundStatus
  pub reason : Option StripeRefundReason

pub record Charge : Type 0 where
  pub payment_intent : Option ℕ
  pub refunds : List StripeRefund

-- Whether a reason for which an account is disabled starts with 'rejected.'.
pub data DisabledReason : Type 0 where
  rejected other : DisabledReason

pub record Account : Type 0 where
  pub id : ℕ
  pub charges_enabled : Bool
  pub payouts_enabled : Bool
  pub disabled_reason : Option DisabledReason

pub data StripeObject : Type 0 where
  payment_intent_succeeded payment_intent_failed : PaymentIntent → StripeObject
  charge_refunded : Charge → StripeObject
  charge_dispute_created : (payment_intent : Option ℕ) → StripeObject
  account_updated : Account → StripeObject
  unhandled : StripeObject

-- `kind` is the text of the event's `type`, by which its object is told.
pub record StripeEvent : Type 0 where
  pub id : ℕ
  pub kind : String
  pub object : StripeObject

abbrev pub is_event_id : ℕ → StripeEventRow → Bool
is_event_id e r = r.id == e

abbrev pub is_intent : ℕ → Payment → Bool
is_intent i p = p.stripe_payment_intent_id == i

abbrev pub is_refund : ℕ → Refund → Bool
is_refund i r = r.stripe_refund_id == i

abbrev pub is_account : ℕ → PartnerBillingConfig → Bool
is_account a c = holds c.stripe_account_id a

-- 0.15
abbrev pub default_rate : ℕ
default_rate = 1500

abbrev pub rate_of : Option ℕ → ℕ
rate_of none = default_rate
rate_of (some r) = r

-- `status?.toUpperCase() || 'PENDING'`, as a value of the column's enum, if it is one.
abbrev pub refund_status : Option StripeRefundStatus → Option RefundStatus
refund_status none = some RefundStatus.pending
refund_status (some StripeRefundStatus.pending) = some RefundStatus.pending
refund_status (some StripeRefundStatus.requires_action) = none
refund_status (some StripeRefundStatus.succeeded) = some RefundStatus.succeeded
refund_status (some StripeRefundStatus.failed) = some RefundStatus.failed
refund_status (some StripeRefundStatus.canceled) = some RefundStatus.canceled

abbrev pub refund_reason : Option StripeRefundReason → Option RefundReason
refund_reason none = none
refund_reason (some StripeRefundReason.fraudulent) = some RefundReason.fraud
refund_reason (some StripeRefundReason.requested_by_customer) = some RefundReason.customer_cancelled
refund_reason (some _) = some RefundReason.other

-- The status of an account, as a value of the column's enum, which has no 'REJECTED'.
abbrev pub account_status : Account → Option StripeAccountStatus
account_status a =
    if a.charges_enabled && a.payouts_enabled
    then some StripeAccountStatus.active
    else elim a.disabled_reason [
      | none ↦ some StripeAccountStatus.pending
      | some DisabledReason.rejected ↦ none
      | some DisabledReason.other ↦ some StripeAccountStatus.restricted
    ]

abbrev pub new_payment :
    (uid : ℕ) → PaymentIntent → (session_uid user_uid partner_uid : ℕ) → Payment
new_payment uid p s u o = record {
  uid = uid;
  session_uid = s;
  user_uid = u;
  partner_uid = o;
  stripe_payment_intent_id = p.id;
  amount = p.amount;
  amount_platform = 0;
  commission_rate_snapshot = rate_of p.commission_rate;
  status = PaymentStatus.success;
}

module _ ⦃client : Client⦄ where
  abbrev pub set_payments : (List Payment → List Payment) → World → World
  set_payments f w = record w { billing = record w.billing { payments = f w.billing.payments } }

  abbrev pub with_payment_status : (intent : ℕ) → PaymentStatus → List Payment → List Payment
  with_payment_status i status t =
      client.update_many (is_intent i) (λ p. record p { status = status }) t

  -- `prisma.payments.update` of the row of an intent.
  unfoldable pub update_payment : (intent : ℕ) → PaymentStatus → Action (Unit {0})
  update_payment i status = do
    raise_if (not (← gets (λ w. has (is_intent i) w.billing.payments))) record_not_found
    modify (set_payments (with_payment_status i status))

  insert_payment : Payment → Action (Unit {0})
  insert_payment p = do
    raise_if (not (← gets (λ w. has (λ (s : Session). s.uid == p.session_uid) w.sessions)))
        foreign_key_violation
    raise_if (is_none (← gets (find_user p.user_uid))) foreign_key_violation
    raise_if (is_none (← gets (find_partner p.partner_uid))) foreign_key_violation
    modify (set_payments (client.insert p))

  upsert_payment : Payment → Bool → Action (Unit {0})
  upsert_payment p true =
      modify (set_payments (with_payment_status p.stripe_payment_intent_id PaymentStatus.success))
  upsert_payment p false = insert_payment p

  record_payment : (uid : ℕ) → PaymentIntent → Option ℕ → Option ℕ → Option ℕ → Action (Unit {0})
  record_payment uid p (some s) (some u) (some o) = do
    upsert_payment (new_payment uid p s u o) (← gets (λ w. has (is_intent p.id) w.billing.payments))
  record_payment uid p _ _ _ = pure tt

  -- `uid` is the id of the payment's row, if there is none yet.
  unfoldable pub handle_payment_intent_succeeded : (uid : ℕ) → PaymentIntent → Action (Unit {0})
  unfolding record_payment upsert_payment insert_payment
  handle_payment_intent_succeeded uid p =
      record_payment uid p p.session_uid p.user_uid p.partner_uid

  unfoldable pub handle_payment_intent_failed : PaymentIntent → Action (Unit {0})
  handle_payment_intent_failed p = update_payment p.id PaymentStatus.failed

  upsert_refund : (payment_uid : ℕ) → StripeRefund → RefundStatus → Action (Unit {0})
  upsert_refund payment_uid r status = modify λ w. record w {
    billing = record w.billing {
      refunds =
          if has (is_refund r.id) w.billing.refunds
          then client.update_many (is_refund r.id) (λ (x : Refund). record x { status = status })
              w.billing.refunds
          else client.insert
              (record {
                stripe_refund_id = r.id;
                payment_uid = payment_uid;
                amount = r.amount;
                reason = refund_reason r.reason;
                status = status;
              })
              w.billing.refunds;
    };
  }

  upsert_refunds : (payment_uid : ℕ) → List StripeRefund → Action (Unit {0})
  upsert_refunds payment_uid [] = pure tt
  upsert_refunds payment_uid (r ∷ rs) = do
    status ← or_raise (refund_status r.status) validation_error
    upsert_refund payment_uid r status
    upsert_refunds payment_uid rs

  refund_payment : (intent : ℕ) → List StripeRefund → Option Payment → Action (Unit {0})
  refund_payment i rs none = pure tt
  refund_payment i rs (some payment) = do
    update_payment i PaymentStatus.refunded
    upsert_refunds payment.uid rs

  refund_intent : Option ℕ → List StripeRefund → Action (Unit {0})
  refund_intent none rs = pure tt
  refund_intent (some i) rs = do
    refund_payment i rs (← gets (λ w. client.find_first (is_intent i) w.billing.payments))

  unfoldable pub handle_charge_refunded : Charge → Action (Unit {0})
  unfolding refund_intent refund_payment upsert_refunds upsert_refund
  handle_charge_refunded c = refund_intent c.payment_intent c.refunds

  dispute : Option ℕ → Action (Unit {0})
  dispute none = pure tt
  dispute (some i) = update_payment i PaymentStatus.disputed

  unfoldable pub handle_charge_dispute_created : (payment_intent : Option ℕ) → Action (Unit {0})
  unfolding dispute
  handle_charge_dispute_created i = dispute i

  abbrev update_account : (id : ℕ) → Option StripeAccountStatus → Action (Unit {0})
  update_account a status = do
    column ← or_raise status validation_error
    raise_if (not (← gets (λ w. has (is_account a) w.billing.billing_configs))) record_not_found
    modify (λ w. record w {
      billing = record w.billing {
        billing_configs =
            client.update_many (is_account a)
              (λ (c : PartnerBillingConfig). record c { stripe_account_status = column })
              w.billing.billing_configs;
      };
    })

  -- An error of the update is only logged.
  unfoldable pub handle_account_updated : Account → Action (Unit {0})
  handle_account_updated a = catch (update_account a.id (account_status a)) (λ e. pure tt)

  handle_object : (uid : ℕ) → StripeObject → Action (Unit {0})
  handle_object uid (payment_intent_succeeded p) = handle_payment_intent_succeeded uid p
  handle_object uid (payment_intent_failed p) = handle_payment_intent_failed p
  handle_object uid (charge_refunded c) = handle_charge_refunded c
  handle_object uid (charge_dispute_created i) = handle_charge_dispute_created i
  handle_object uid (account_updated a) = handle_account_updated a
  handle_object uid unhandled = pure tt

  -- The `switch` on the event's type.
  unfoldable pub handle : (uid : ℕ) → StripeObject → Action (Unit {0})
  unfolding handle_object
  handle uid o = handle_object uid o

  abbrev pub set_events : (List StripeEventRow → List StripeEventRow) → World → World
  set_events f w = record w {
    billing = record w.billing { stripe_events = f w.billing.stripe_events };
  }

  abbrev pub with_event_status :
      (id : ℕ) → StripeEventStatus → List StripeEventRow → List StripeEventRow
  with_event_status e status t =
      client.update_many (is_event_id e) (λ r. record r { status = status }) t

  -- `upsert` of the event's row.
  abbrev pub begin : StripeEvent → List StripeEventRow → List StripeEventRow
  begin e t =
      if has (is_event_id e.id) t
      then client.update_many (is_event_id e.id)
          (λ r. record r { kind = e.kind; status = StripeEventStatus.processing }) t
      else client.insert
          (record { id = e.id; kind = e.kind; status = StripeEventStatus.processing }) t

  unfoldable pub update_event : (id : ℕ) → StripeEventStatus → Action (Unit {0})
  update_event e status = do
    raise_if (not (← gets (λ w. has (is_event_id e) w.billing.stripe_events))) record_not_found
    modify (set_events (with_event_status e status))

  abbrev pub is_done : Option StripeEventRow → Bool
  is_done none = false
  is_done (some r) = r.status is_event StripeEventStatus.processed

  process : (uid : ℕ) → StripeEvent → Bool → Action (Unit {0})
  process uid e true = pure tt
  process uid e false = do
    modify (set_events (begin e))
    catch (do handle uid e.object; update_event e.id StripeEventStatus.processed)
        (λ error. do update_event e.id StripeEventStatus.failed; raise error)

  unfoldable pub process_stripe_event : (uid : ℕ) → StripeEvent → Action (Unit {0})
  unfolding process
  process_stripe_event uid e = do
    existing_event ← gets (λ w. client.find_first (is_event_id e.id) w.billing.stripe_events)
    process uid e (is_done existing_event)

  -- The route: `event` is what the signature's check gives for a body that has a signature.
  unfoldable pub handle_stripe_webhook :
      (uid : ℕ) → (has_signature : Bool) → (event : Option StripeEvent) → Action (Unit {0})
  handle_stripe_webhook uid has_signature event = do
    raise_if (not has_signature) (bad_request invalid_signature)
    e ← or_raise event (bad_request invalid_signature)
    process_stripe_event uid e
