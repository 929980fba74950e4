-- ===== src/Devices.antt =====
-- devices/devices.service.ts: the devices that receive a user's notifications.
pub mod Cleaning
use ludora_back.Prelude.{
  ℕ, suc, Bool, true, false, not, ◌&&◌, ◌==◌, Option, none, some, List, [], ◌∷◌, map, if◌then◌else◌,
}
use ludora_back.World.{
  Client, Device, AuthTables, World, device_not_found, bad_request, foreign_key_violation,
  record_not_found, Action, pure, gets, ◌>>=◌, ◌>>◌, raise_if, modify, has, is_none,
}
use ludora_back.Users.{find_user}

-- `valid` tells whether Firebase takes a token.
abbrev pub is_fcm : ℕ → Device → Bool
is_fcm k d = d.fcm_token == k

abbrev pub is_active_of : ℕ → Device → Bool
is_active_of u d = d.is_active && d.user_uid == u

abbrev pub is_device : ℕ → Device → Bool
is_device i d = d.uid == i

module _ ⦃client : Client⦄ where
  abbrev pub set_devices : (List Device → List Device) → World → World
  set_devices f w = record w { auth = record w.auth { devices = f w.auth.devices } }

  -- `upsert` by the token: `uid` is the id of the row, if it is new.
  unfoldable pub register_device :
      (valid : ℕ → Bool) → (uid user_uid fcm_token device_id now : ℕ) → Action (Unit {0})
  register_device valid uid u k device_id now = do
    raise_if (not (valid k)) (bad_request device_not_found)
    raise_if (is_none (← gets (find_user u))) foreign_key_violation
    modify (
        set_devices λ t.
          if has (is_fcm k) t
          then client.update_many (is_fcm k)
              (λ d. record d {
                device_id = device_id;
                is_active = true;
                last_seen_at = some now;
                user_uid = u;
              })
              t
          else client.insert
              (record {
                uid = uid;
                user_uid = u;
                fcm_token = k;
                device_id = device_id;
                is_active = true;
                last_seen_at = none;
              })
              t)

  unfoldable pub get_user_fcm_tokens : (user_uid : ℕ) → Action (List ℕ)
  get_user_fcm_tokens u =
      gets λ w. map (λ (d : Device). d.fcm_token) (client.find_many (is_active_of u) w.auth.devices)

  abbrev pub deactivated : (Device → Bool) → List Device → List Device
  deactivated p t = client.update_many p (λ d. record d { is_active = false }) t

  -- `prisma.devices.update` of the one row that meets the test.
  unfoldable pub deactivate : (Device → Bool) → Action (Unit {0})
  deactivate p = do
    raise_if (not (← gets (λ w. has p w.auth.devices))) record_not_found
    modify (set_devices (deactivated p))

  abbrev pub unregister_device : (fcm_token : ℕ) → Action (Unit {0})
  unregister_device k = deactivate (is_fcm k)

  unfoldable pub clean_each : (valid : ℕ → Bool) → List Device → Action ℕ
  clean_each valid [] = pure 0
  clean_each valid (d ∷ ds) = elim (valid d.fcm_token) [
    | true ↦ clean_each valid ds
    | false ↦ (do deactivate (is_device d.uid); count ← clean_each valid ds; pure (suc count))
  ]

  unfoldable pub clean_invalid_tokens : (valid : ℕ → Bool) → Action ℕ
  clean_invalid_tokens valid = do
    devices ← gets (λ w. client.find_many (λ d. d.is_active) w.auth.devices)
    clean_each valid devices
