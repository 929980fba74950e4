-- ===== src/World/Monad.antt =====
-- A service method: it reads and writes the world, and returns or throws. What was written before
-- a throw stays written, except inside `$transaction`.
use ludora_back.Prelude.{
  refl, ap, ◌≡◌, Bool, true, false, Option, none, some, List, ◌∷◌, ltb, count, if◌then◌else◌,
}
use ludora_back.World.Schema.{World, Event}

-- The texts of the messages, without the ids that they quote.
pub data Reason : Type 0 where
  cannot_add_yourself sender_not_found receiver_not_found request_exists : Reason
  request_not_found already_pending not_authorized sender_cannot receiver_cannot : Reason
  user_not_found already_blocked not_blocked already_reported : Reason
  session_started not_a_player team_not_found player_not_found already_on_team : Reason
  not_a_friend team_full already_in_session blocked_relationship cannot_unvalidate : Reason
  session_not_found invitation_not_found status_already_set : Reason
  not_for_receiver not_for_sender : Reason
  session_ended not_all_players unsupported_sport : Reason
  earlier_in_past later_before_earlier not_same_day : Reason
  field_not_found sport_not_on_field slot_required slot_not_found slot_reserved : Reason
  slot_at_other_time another_session slot_exists field_not_owned upload_failed : Reason
  message_not_found not_message_sender message_already_deleted file_required : Reason
  conversation_not_found not_conversation_member : Reason
  invalid_credentials user_exists partner_exists too_young invalid_user_type : Reason
  invalid_refresh_token account_disabled invalid_code expired_code already_verified : Reason
  same_password not_ludora email_exists deletion_requested no_deletion_request : Reason
  token_missing token_expired token_user_missing invalid_token_type invalid_token : Reason
  access_denied partner_not_found not_admin internal_error : Reason
  duplicate_preference preference_not_found invalid_signature no_billing_config : Reason
  billing_not_active stripe_error device_not_found : Reason

-- Nest's exceptions and `WsException`, then Prisma's (codes P2002, P2003, P2025, and a null that the schema does not allow in a query) and a read of a field of null.
pub data Exception : Type 0 where
  bad_request not_found conflict forbidden unauthorized internal ws_exception : Reason → Exception
  unique_violation foreign_key_violation record_not_found validation_error type_error : Exception

pub data Result (A : Type 0) : Type 0 where
  ok : A → Result A
  err : Exception → Result A

abbrev pub Action : Type 0 → Type 0
Action A = World → Result A × World

module _ {A : Type 0} where
  abbrev pub pure : A → Action A
  pure a w = (ok a, w)

  abbrev pub raise : Exception → Action A
  raise e w = (err e, w)

  abbrev pub gets : (World → A) → Action A
  gets f w = (ok (f w), w)

  -- A value that must not be null.
  abbrev pub or_raise : Option A → Exception → Action A
  or_raise none e w = (err e, w)
  or_raise (some a) e w = (ok a, w)

infixl 5 ◌>>=◌ ◌>>◌
abbrev pub ◌>>=◌ : {A B : Type 0} → Action A → (A → Action B) → Action B
◌>>=◌ m f w = let (r, w') = m w in elim r [ ok a ↦ f a w' | err e ↦ (err e, w') ]

abbrev pub ◌>>◌ : {B : Type 0} → Action (Unit {0}) → Action B → Action B
m >> k = m >>= λ _. k

abbrev pub raise_if : Bool → Exception → Action (Unit {0})
raise_if c e w = (if c then err e else ok tt, w)

abbrev pub modify : (World → World) → Action (Unit {0})
modify f w = (ok tt, f w)

abbrev pub emit : Event → Action (Unit {0})
emit e w = (ok tt, record w { events = e ∷ w.events })

-- `if (c) { … }`
abbrev pub when : Bool → Action (Unit {0}) → Action (Unit {0})
when c m w = elim c [ true ↦ m w | false ↦ (ok tt, w) ]

-- `$transaction`: a throw undoes what was written in the database.
abbrev pub rolled_back : {A : Type 0} → World → Result A × World → Result A × World
rolled_back w (ok a, w') = (ok a, w')
rolled_back w (err e, w') = (err e, record w { events = w'.events })

abbrev pub transaction : {A : Type 0} → Action A → Action A
transaction m w = rolled_back w (m w)

-- `try { … } catch (error) { … }`: what was written stays written.
abbrev pub caught : {A : Type 0} → (Exception → Action A) → Result A × World → Result A × World
caught h (ok a, w') = (ok a, w')
caught h (err e, w') = h e w'

abbrev pub catch : {A : Type 0} → Action A → (Exception → Action A) → Action A
catch m h w = caught h (m w)

-- `error.message`
abbrev pub reason_of : Exception → Reason
reason_of (bad_request r) = r
reason_of (not_found r) = r
reason_of (conflict r) = r
reason_of (forbidden r) = r
reason_of (unauthorized r) = r
reason_of (internal r) = r
reason_of (ws_exception r) = r
reason_of _ = internal_error

-- Some row meets the test: what a unique or foreign key asks of a table.
abbrev pub has : {R : Type 0} → (R → Bool) → List R → Bool
has p t = ltb 0 (count p t)

abbrev pub is_some : {A : Type 0} → Option A → Bool
is_some none = false
is_some (some a) = true

abbrev pub is_none : {A : Type 0} → Option A → Bool
is_none none = true
is_none (some a) = false

abbrev pub is_ok : {A : Type 0} → Result A → Bool
is_ok (ok a) = true
is_ok (err e) = false

-- The call threw, and wrote nothing.
abbrev pub Refuses : {A : Type 0} → World → Result A × World → Type 0
Refuses w (r, w') = (is_ok r ≡ false) × (w' ≡ w)

-- What every step keeps, a chain of steps keeps.
module _ {A B : Type 0} (P : World → Type 0) where
  after_step :
      (f : A → Action B) (r : Result A) (w : World)
      → P w
      → ((a : A) (v : World) → P v → P (f a v).1)
      → let next : Result B × World = elim r [ ok a ↦ f a w | err e ↦ (err e, w) ] in P next.1
  after_step f (ok a) w p keep = keep a w p
  after_step f (err e) w p keep = p

  pub >>=-keeps :
      (m : Action A) (f : A → Action B) (w : World)
      → P (m w).1
      → ((a : A) (v : World) → P v → P (f a v).1)
      → P ((m >>= f) w).1
  >>=-keeps m f w p keep = after_step f (m w).0 (m w).1 p keep

module _ {A B : Type 0} (P : World → Type 0) where
  -- What holds of the world after the first step and, whatever that returned, after the second.
  pub >>=-ends :
      (m : Action A) (f : A → Action B) (w : World)
      → P (m w).1
      → ((a : A) → P (f a (m w).1).1)
      → P ((m >>= f) w).1
  >>=-ends m f w p keep = ended (m w).0 (m w).1 p keep
    where
      ended :
          (r : Result A) (v : World)
          → P v
          → ((a : A) → P (f a v).1)
          → let next : Result B × World = elim r [ ok a ↦ f a v | err e ↦ (err e, v) ] in P next.1
      ended (ok a) v h k = k a
      ended (err e) v h k = h

module _ {A : Type 0} where
  -- A chain of steps that returned, step by step.
  pub >>=-runs :
      {B : Type 0} (m : Action B) (f : B → Action A) (w : World)
      → is_ok ((m >>= f) w).0 ≡ true
      → (b : B) × (is_ok (m w).0 ≡ true) × ((m >>= f) w ≡ f b (m w).1)
  >>=-runs {B} m f w = ran (m w)
    where
      ran :
          (o : Result B × World)
          → let next : Result A × World = elim o.0 [ ok b ↦ f b o.1 | err e ↦ (err e, o.1) ] in
            is_ok next.0 ≡ true → (b : B) × (is_ok o.0 ≡ true) × (next ≡ f b o.1)
      ran (ok b, v) h = (b, refl, refl)
      ran (err e, v) h = absurd cc

  -- A transaction that returned, has written what its steps wrote.
  pub transaction-ok :
      (m : Action A) (w : World)
      → is_ok (transaction m w).0 ≡ true
      → (is_ok (m w).0 ≡ true) × ((transaction m w).1 ≡ (m w).1)
  transaction-ok m w = kept (m w)
    where
      kept :
          (o : Result A × World)
          → is_ok (rolled_back w o).0 ≡ true
          → (is_ok o.0 ≡ true) × ((rolled_back w o).1 ≡ o.1)
      kept (ok a, v) h = (refl, refl)
      kept (err e, v) h = absurd cc

-- What ignores the events, and every step keeps, a transaction keeps.
pub transaction-keeps :
    {A : Type 0} (P : World → Type 0) (m : Action A) (w : World)
    → P w
    → P (m w).1
    → ((es : List Event) → P w → P (record w { events = es }))
    → P (transaction m w).1
transaction-keeps {A} P m w p q ignores = kept (m w) q
  where
    kept : (o : Result A × World) → P o.1 → P (rolled_back w o).1
    kept (ok a, v) h = h
    kept (err e, v) h = ignores v.events p

pub >>=-ok :
    {A B : Type 0} (m : Action A) (f : A → Action B) (a : A) (w v : World)
    → m w ≡ (ok a, v)
    → (m >>= f) w ≡ f a v
>>=-ok {A} m f a w v h =
    ap (λ (o : Result A × World). elim o.0 [ ok b ↦ f b o.1 | err e ↦ (err e, o.1) ]) h
