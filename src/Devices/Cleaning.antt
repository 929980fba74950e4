-- ===== src/Devices/Cleaning.antt =====
-- After a cleaning, the active devices have valid tokens.
use ludora_back.Prelude.{
  ℕ, ◌≡◌, ◌≤◌, Bool, true, false, not, ◌&&◌, ◌==◌, ==_iff, elem, List, [], ◌∷◌, arith, count,
  count-ext, count-le, count-none, count-split, refl, inl, inr, Bool-cases, Option-cases,
  if◌then◌else◌,
}
use ludora_back.World.{Client, Device, World, ok, is_ok, has, count-update_many_same}
use ludora_back.Devices.{
  is_device, set_devices, deactivated, deactivate, clean_each, clean_invalid_tokens,
}

module _ ⦃client : Client⦄ (valid : ℕ → Bool) where
  -- An active device whose token is not valid.
  abbrev pub is_stale : Device → Bool
  is_stale d = d.is_active && not (valid d.fcm_token)

  -- Those of them that the list does not name.
  abbrev unlisted : List ℕ → Device → Bool
  unlisted us d = is_stale d && not (elem d.uid us)

  -- The ids of the devices of the list whose tokens are not valid.
  abbrev uids : List Device → List ℕ
  uids [] = []
  uids (d ∷ ds) = let rest = uids ds in if valid d.fcm_token then rest else d.uid ∷ rest

  elem-uids :
      (i : ℕ) (ds : List Device)
      → elem i (uids ds) ≡ has (λ d. not (valid d.fcm_token) && is_device i d) ds
  elem-uids i [] = refl
  elem-uids i (d ∷ ds) = ground (arith, elem-uids i ds, ==_iff i d.uid, ==_iff d.uid i)

  deactivate_lem :
      (i : ℕ) (w : World)
      → has (is_device i) w.auth.devices ≡ true
      → deactivate (is_device i) w ≡ (ok tt, set_devices (deactivated (is_device i)) w)
  unfolding deactivate
  deactivate_lem i w known = ground arith

  -- Every device that the list names has its row.
  abbrev Listed : List Device → List Device → Type 0
  Listed ds t = (i : ℕ) → elem i (uids ds) ≡ true → has (is_device i) t ≡ true

  -- A deactivation takes one id out of those that remain.
  less_stale :
      (i : ℕ) (us : List ℕ) (t : List Device)
      → count (unlisted us) (deactivated (is_device i) t) ≤ count (unlisted (i ∷ us)) t
  less_stale i us t =
      let mine = is_device i in
      let change : Device → Device = λ d. record d { is_active = false } in
      omega (
        arith,
        client.count-update_many mine change (unlisted us) t,
        count-none (λ d. mine d && unlisted us (change d)) t (λ d. ground arith),
        count-le (λ d. not (mine d) && unlisted us d) (unlisted (i ∷ us)) t
            (λ d h. ground (arith, h)),
      )

  step_lem :
      (d : Device) (ds : List Device) (w : World)
      → Listed (d ∷ ds) w.auth.devices
      → valid d.fcm_token ≡ false
      → (deactivate (is_device d.uid) w ≡ (ok tt, set_devices (deactivated (is_device d.uid)) w))
        × Listed ds (deactivated (is_device d.uid) w.auth.devices)
  step_lem d ds w listed bad = (
    deactivate_lem d.uid w (listed d.uid (ground (arith, bad, ==_iff d.uid d.uid))),
    λ i e. ground (
      arith,
      listed i (ground (arith, bad, e)),
      count-update_many_same (is_device d.uid) (λ x. record x { is_active = false }) (is_device i)
          w.auth.devices (λ x. refl),
    ),
  )

  clean_lem :
      (ds : List Device) (w : World)
      → Listed ds w.auth.devices
      → let (r, w') = clean_each valid ds w in
        (is_ok r ≡ true)
        × (count is_stale w'.auth.devices ≤ count (unlisted (uids ds)) w.auth.devices)
  unfolding clean_each
  clean_lem [] w listed =
      (refl, omega (arith, count-ext is_stale (unlisted []) w.auth.devices (λ d. ground arith)))
  clean_lem (d ∷ ds) w listed = elim (Bool-cases (valid d.fcm_token)) [
    | inl good ↦ ground (arith, good, clean_lem ds w (λ i e. listed i (ground (arith, good, e))))
    | inr bad ↦
        let w1 = set_devices (deactivated (is_device d.uid)) w in
        let (done, still) = step_lem d ds w listed bad in
        ground (arith, bad, done, clean_lem ds w1 still, less_stale d.uid (uids ds) w.auth.devices)
  ]

  -- An active device with a valid token.
  abbrev pub is_sound : ℕ → Device → Bool
  is_sound i d = is_device i d && d.is_active && valid d.fcm_token

  sound_left :
      (i j : ℕ) (t : List Device)
      → (count (is_sound i) (deactivated (is_device j) t) ≤ count (is_sound i) t)
        × ((j == i) ≡ false
            → count (is_sound i) (deactivated (is_device j) t) ≡ count (is_sound i) t)
  sound_left i j t =
      let mine = is_device j in
      let change : Device → Device = λ d. record d { is_active = false } in
      let after = client.count-update_many mine change (is_sound i) t in
      let off = count-none (λ d. mine d && is_sound i (change d)) t (λ d. ground arith) in
      (
        omega (
          arith,
          after,
          off,
          count-le (λ d. not (mine d) && is_sound i d) (is_sound i) t (λ d h. ground arith),
        ),
        λ other. omega (
          arith,
          after,
          off,
          count-ext (λ d. not (mine d) && is_sound i d) (is_sound i) t
              λ d. ground (arith, other, ==_iff d.uid i, ==_iff d.uid j, ==_iff j i),
        ),
      )

  -- A cleaning deactivates only what the list names as not valid.
  clean_sound :
      (i : ℕ) (ds : List Device) (w : World)
      → Listed ds w.auth.devices
      → let w' = (clean_each valid ds w).1 in
        (count (is_sound i) w'.auth.devices ≤ count (is_sound i) w.auth.devices)
        × (elem i (uids ds) ≡ false
            → count (is_sound i) w'.auth.devices ≡ count (is_sound i) w.auth.devices)
  unfolding clean_each
  clean_sound i [] w listed = (omega arith, λ e. refl)
  clean_sound i (d ∷ ds) w listed = elim (Bool-cases (valid d.fcm_token)) [
    | inl good ↦
        ground (arith, good, clean_sound i ds w (λ j e. listed j (ground (arith, good, e))))
    | inr bad ↦
        let w1 = set_devices (deactivated (is_device d.uid)) w in
        let (done, still) = step_lem d ds w listed bad in
        ground (
          arith,
          bad,
          done,
          clean_sound i ds w1 still,
          sound_left i d.uid w.auth.devices,
          ==_iff i d.uid,
          ==_iff d.uid i,
        )
  ]

  -- Where each id is in one row, an id that is named is not that of a sound device.
  named_unsound :
      (i : ℕ) (t : List Device)
      → count (is_device i) t ≤ 1
      → elem i (uids (client.find_many (λ d. d.is_active) t)) ≡ true
      → count (is_sound i) t ≡ 0
  named_unsound i t once named =
      let active : Device → Bool = λ d. d.is_active in
      let bad : Device → Bool = λ d. not (valid d.fcm_token) && is_device i d in
      let good : Device → Bool = λ d. valid d.fcm_token in
      ground (
        arith,
        elem-uids i (client.find_many active t),
        client.count-find_many active bad t,
        count-split good (is_device i) t,
        count-le (is_sound i) (λ d. good d && is_device i d) t (λ d h. ground arith),
        count-le (λ d. active d && bad d) (λ d. not (good d) && is_device i d) t
            (λ d h. ground arith),
      )

  -- A row that is stale is one of the devices found.
  all_listed :
      (w : World)
      → count (unlisted (uids (client.find_many (λ d. d.is_active) w.auth.devices))) w.auth.devices
        ≡ 0
  all_listed w =
      let t = w.auth.devices in
      let active : Device → Bool = λ d. d.is_active in
      let ds = client.find_many active t in
      let left = unlisted (uids ds) in
      elim (Option-cases (client.find_first left t)) [
        | inl e ↦ client.find_first-none left t e
        | inr (d, e) ↦
            let bad : Device → Bool = λ x. not (valid x.fcm_token) && is_device d.uid x in
            absurd (
              ground (
                arith,
                client.find_first-some left t d e,
                elem-uids d.uid ds,
                client.count-find_many active bad t,
                client.find_first-mem left t d (λ x. active x && bad x) e,
                ==_iff d.uid d.uid,
              ))
      ]

  -- A cleaning returns; every device that is active after it has a valid token, and every active
  -- device with a valid token is still active, provided that each id is in one row.
  pub clean_invalid_tokens_outcome :
      (w : World)
      → ((i : ℕ) → count (is_device i) w.auth.devices ≤ 1)
      → let (r, w') = clean_invalid_tokens valid w in
        (is_ok r ≡ true)
        × (count is_stale w'.auth.devices ≡ 0)
        × ((i : ℕ) → count (is_sound i) w'.auth.devices ≡ count (is_sound i) w.auth.devices)
  unfolding clean_invalid_tokens
  clean_invalid_tokens_outcome w once =
      let t = w.auth.devices in
      let active : Device → Bool = λ d. d.is_active in
      let ds = client.find_many active t in
      let listed : Listed ds t = λ i e. ground (
        arith,
        e,
        elem-uids i ds,
        client.count-find_many active (λ d. not (valid d.fcm_token) && is_device i d) t,
        count-le (λ d. active d && (not (valid d.fcm_token) && is_device i d)) (is_device i) t
            (λ d h. ground arith),
      ) in
      let (done, left) = clean_lem ds w listed in
      (
        done,
        omega (arith, left, all_listed w),
        λ i. elim (Bool-cases (elem i (uids ds))) [
          | inl named ↦
              omega (arith, (clean_sound i ds w listed).0, named_unsound i t (once i) named)
          | inr apart ↦ (clean_sound i ds w listed).1 apart
        ],
      )
