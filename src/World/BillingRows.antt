-- ===== src/World/BillingRows.antt =====
-- The rows of the billing schema. Stripe's ids are numbers, since they are only compared.
use ludora_back.Prelude.{ℕ, String, Bool, true, false, Option}

pub data PaymentStatus : Type 0 where
  pending success failed partially_refunded refunded disputed : PaymentStatus

pub data RefundReason : Type 0 where
  customer_cancelled partner_cancelled technical_error fraud other : RefundReason

pub data RefundStatus : Type 0 where
  pending succeeded failed canceled : RefundStatus

pub data StripeAccountStatus : Type 0 where
  pending active restricted disabled : StripeAccountStatus

pub data StripeEventStatus : Type 0 where
  processing processed failed ignored : StripeEventStatus

-- A commission rate is in units of 0.0001, the scale of the column.
pub record Payment : Type 0 where
  pub uid : ℕ
  pub session_uid : ℕ
  pub user_uid : ℕ
  pub partner_uid : ℕ
  pub stripe_payment_intent_id : ℕ
  pub amount : ℕ
  pub amount_platform : ℕ
  pub commission_rate_snapshot : ℕ
  pub status : PaymentStatus

pub record Refund : Type 0 where
  pub stripe_refund_id : ℕ
  pub payment_uid : ℕ
  pub amount : ℕ
  pub reason : Option RefundReason
  pub status : RefundStatus

pub record StripeEventRow : Type 0 where
  pub id : ℕ
  pub kind : String
  pub status : StripeEventStatus

pub record PartnerBillingConfig : Type 0 where
  pub partner_uid : ℕ
  pub stripe_account_id : Option ℕ
  pub stripe_account_status : StripeAccountStatus
  pub commission_rate : ℕ

pub record Partner : Type 0 where
  pub uid : ℕ
  pub name : String
  pub email : String

-- `===` on the enums.
infix 50 ◌is_payment◌ ◌is_event◌
abbrev pub ◌is_payment◌ : PaymentStatus → PaymentStatus → Bool
PaymentStatus.pending is_payment PaymentStatus.pending = true
PaymentStatus.success is_payment PaymentStatus.success = true
PaymentStatus.failed is_payment PaymentStatus.failed = true
PaymentStatus.partially_refunded is_payment PaymentStatus.partially_refunded = true
PaymentStatus.refunded is_payment PaymentStatus.refunded = true
PaymentStatus.disputed is_payment PaymentStatus.disputed = true
_ is_payment _ = false

abbrev pub ◌is_event◌ : StripeEventStatus → StripeEventStatus → Bool
StripeEventStatus.processing is_event StripeEventStatus.processing = true
StripeEventStatus.processed is_event StripeEventStatus.processed = true
StripeEventStatus.failed is_event StripeEventStatus.failed = true
StripeEventStatus.ignored is_event StripeEventStatus.ignored = true
_ is_event _ = false
