-- ===== src/Webhooks/Events.antt =====
-- An event takes effect once, and one that fails can be delivered again.
use ludora_back.Prelude.{
  ℕ, ◌≡◌, ◌⊎◌, inl, inr, Bool, true, false, not, ◌&&◌, some, List, arith, count, count-none, ==_iff,
  refl, ap, ◌∙◌, Bool-cases,
}
use ludora_back.World.{
  Client, StripeEventRow, StripeEventStatus, ◌is_event◌, World, ok, is_ok, has,
  count-update_many_same, find_first-eq_some,
}
use ludora_back.Webhooks.{
  StripeEvent, is_event_id, handle, begin, set_events, update_event, is_done, process,
  process_stripe_event,
}
use ludora_back.Webhooks.Frame.{events_of, handle_frame}

module _ ⦃client : Client⦄ where
  begin_known :
      (e : StripeEvent) (t : List StripeEventRow) → has (is_event_id e.id) (begin e t) ≡ true
  begin_known e t = elim (Bool-cases (has (is_event_id e.id) t)) [
    | inl old ↦ ground (
      arith,
      old,
      count-update_many_same (is_event_id e.id)
          (λ r. record r { kind = e.kind; status = StripeEventStatus.processing })
          (is_event_id e.id) t (λ r. refl),
    )
    | inr new ↦ ground (
      arith,
      new,
      client.count-insert
          (record { id = e.id; kind = e.kind; status = StripeEventStatus.processing })
          (is_event_id e.id) t,
      ==_iff e.id e.id,
    )
  ]

  -- Every row of the event has the status, and there is one.
  abbrev pub HasStatus : (id : ℕ) → StripeEventStatus → World → Type 0
  HasStatus e status w =
      (has (is_event_id e) (events_of w) ≡ true)
      × (count (λ r. is_event_id e r && not (r.status is_event status)) (events_of w) ≡ 0)

  same_status : (status : StripeEventStatus) → (status is_event status) ≡ true
  same_status StripeEventStatus.processing = refl
  same_status StripeEventStatus.processed = refl
  same_status StripeEventStatus.failed = refl
  same_status StripeEventStatus.ignored = refl

  update_event_lem :
      (e : ℕ) (status : StripeEventStatus) (w : World)
      → has (is_event_id e) (events_of w) ≡ true
      → let (r, w') = update_event e status w in (r ≡ ok tt) × HasStatus e status w'
  unfolding update_event
  update_event_lem e status w known =
      let mine = is_event_id e in
      let change : StripeEventRow → StripeEventRow = λ r. record r { status = status } in
      let other : StripeEventRow → Bool = λ r. is_event_id e r && not (r.status is_event status) in
      ground (
        arith,
        known,
        count-update_many_same mine change mine (events_of w) (λ r. refl),
        client.count-update_many mine change other (events_of w),
        count-none (λ r. mine r && other (change r)) (events_of w)
            (λ r. ground (arith, same_status status)),
        count-none (λ r. not (mine r) && other r) (events_of w) (λ r. ground arith),
      )

  -- What happens to an event. One that was processed is ignored, and nothing is written. Any other
  -- is handed to its handler: when that returns, the event is PROCESSED; when it throws, the call
  -- throws, and the event is FAILED.
  pub process_stripe_event_outcome :
      (uid : ℕ) (e : StripeEvent) (w : World)
      → let done = is_done (client.find_first (is_event_id e.id) w.billing.stripe_events) in
        let (r, w') = process_stripe_event uid e w in
        (done ≡ true) × (r ≡ ok tt) × (w' ≡ w)
        ⊎ (done ≡ false) × (r ≡ ok tt) × HasStatus e.id StripeEventStatus.processed w'
        ⊎ (done ≡ false) × (is_ok r ≡ false) × HasStatus e.id StripeEventStatus.failed w'
  unfolding process_stripe_event process
  process_stripe_event_outcome uid e w =
      let known = begin_known e w.billing.stripe_events in
      let w1 = set_events (begin e) w in
      let frame = handle_frame uid e.object w1 in
      let w2 = (handle uid e.object w1).1 in
      let there : has (is_event_id e.id) (events_of w2) ≡ true = rw frame known in
      let (good, processed) = update_event_lem e.id StripeEventStatus.processed w2 there in
      let (noted, failed) = update_event_lem e.id StripeEventStatus.failed w2 there in
      elim (Bool-cases (is_done (client.find_first (is_event_id e.id) w.billing.stripe_events))) [
        | inl done ↦ inl (ground (arith, done))
        | inr fresh ↦ elim (Bool-cases (is_ok (handle uid e.object w1).0)) [
          | inl returned ↦ inr (inl (ground (arith, fresh, returned, good, processed)))
          | inr thrown ↦ inr (inr (ground (arith, fresh, thrown, noted, failed)))
        ]
      ]

  found_status :
      (e : ℕ) (status : StripeEventStatus) (w : World)
      → HasStatus e status w
      → (r : StripeEventRow) × (client.find_first (is_event_id e) (events_of w) ≡ some r)
        × ((r.status is_event status) ≡ true)
  found_status e status w (known, none_other) =
      let (r, found) = find_first-eq_some (is_event_id e) (events_of w) (ground (arith, known)) in
      let other : StripeEventRow → Bool = λ x. is_event_id e x && not (x.status is_event status) in
      (
        r,
        found,
        ground (
          arith,
          none_other,
          client.find_first-some (is_event_id e) (events_of w) r found,
          client.find_first-mem (is_event_id e) (events_of w) r other found,
        ),
      )

  not_done :
      (r : StripeEventRow)
      → (r.status is_event StripeEventStatus.failed) ≡ true
      → is_done (some r) ≡ false
  not_done r h = ground (arith, h, apart r.status)
    where
      apart :
          (s : StripeEventStatus)
          → (s is_event StripeEventStatus.failed) ≡ true
          → (s is_event StripeEventStatus.processed) ≡ false
      apart StripeEventStatus.processing h = refl
      apart StripeEventStatus.processed h = absurd cc
      apart StripeEventStatus.failed h = refl
      apart StripeEventStatus.ignored h = refl

  ignored :
      (uid : ℕ) (e : StripeEvent) (w : World)
      → is_done (client.find_first (is_event_id e.id) w.billing.stripe_events) ≡ true
      → process_stripe_event uid e w ≡ (ok tt, w)
  unfolding process_stripe_event process
  ignored uid e w done = ground (arith, done)

  -- An event takes effect once: when its delivery returns, a second delivery writes nothing; when its
  -- delivery throws, a second one is not ignored.
  pub process_stripe_event-once :
      (uid again : ℕ) (e : StripeEvent) (w : World)
      → let (r, w') = process_stripe_event uid e w in
        (r ≡ ok tt) × (process_stripe_event again e w' ≡ (ok tt, w'))
        ⊎ (is_ok r ≡ false)
          × (is_done (client.find_first (is_event_id e.id) w'.billing.stripe_events) ≡ false)
  process_stripe_event-once uid again e w = elim (process_stripe_event_outcome uid e w) [
    | inl (done, result, same) ↦ inl (result, rw same (ignored again e w done))
    | inr (inl (fresh, result, processed)) ↦
        let w' = (process_stripe_event uid e w).1 in
        let (r, found, status) = found_status e.id StripeEventStatus.processed w' processed in
        inl (result, ignored again e w' (ap is_done found ∙ status))
    | inr (inr (fresh, thrown, failed)) ↦
        let (r, found, status) =
          found_status e.id StripeEventStatus.failed (process_stripe_event uid e w).1 failed in
        inr (thrown, ap is_done found ∙ not_done r status)
  ]
