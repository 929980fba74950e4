-- ===== src/Fields.antt =====
-- fields/services/fields.service.ts and field-slots.service.ts: the fields, and the slots in which
-- a private field may be booked.
pub mod Slots
use ludora_back.Prelude.{ℕ, Bool, true, false, not, ◌&&◌, ◌==◌, Option, none, some, List, holds}
use ludora_back.World.{
  Client, Field, FieldSlot, FieldType, GameModes, World, field_not_found, field_not_owned,
  slot_exists, bad_request, not_found, forbidden, conflict, record_not_found, Action, pure, gets,
  or_raise, ◌>>=◌, ◌>>◌, raise_if, modify, has, is_some,
}
use ludora_back.Dates.{check_validity_for_creation}

pub record CreateFieldSlotDto : Type 0 where
  pub start_time : ℕ
  pub end_time : ℕ
  pub field_uid : ℕ
  pub game_mode : GameModes
  pub price : ℕ

abbrev pub is_slot_at : (field start_time end_time : ℕ) → FieldSlot → Bool
is_slot_at f a b s = s.end_time == b && s.field_uid == f && s.start_time == a

abbrev pub is_slot : ℕ → FieldSlot → Bool
is_slot uid s = s.uid == uid

abbrev pub new_slot : ℕ → CreateFieldSlotDto → FieldSlot
new_slot uid dto = record {
  uid = uid;
  field_uid = dto.field_uid;
  start_time = dto.start_time;
  end_time = dto.end_time;
  game_mode = dto.game_mode;
  price = dto.price;
  is_reserved = false;
}

module _ ⦃client : Client⦄ where
  -- `FieldsService.findOne`
  unfoldable pub find_one : ℕ → Action (Option Field)
  find_one uid = gets λ w. client.find_first (λ (f : Field). f.uid == uid) w.fields

  unfoldable pub find_one_slot : ℕ → Action (Option FieldSlot)
  find_one_slot uid = gets λ w. client.find_first (is_slot uid) w.field_slots

  -- `uid` is the generated id.
  unfoldable pub create_slot :
      (get_day : ℕ → ℕ) (now uid : ℕ) → CreateFieldSlotDto → (partner_uid : ℕ) → Action FieldSlot
  unfolding find_one
  create_slot get_day now uid dto partner_uid = do
    existing_field ← or_raise (← find_one dto.field_uid) (not_found field_not_found)
    raise_if (not (holds existing_field.partner_uid partner_uid)) (forbidden field_not_owned)
    check_validity_for_creation get_day now dto.start_time dto.end_time
    existing_slot ← gets (λ w.
        client.find_first (is_slot_at dto.field_uid dto.start_time dto.end_time) w.field_slots)
    raise_if (is_some existing_slot) (conflict slot_exists)
    modify (λ w. record w { field_slots = client.insert (new_slot uid dto) w.field_slots })
    pure (new_slot uid dto)

  unfoldable pub mark_as_reserved : ℕ → Action (Unit {0})
  mark_as_reserved uid = do
    raise_if (not (← gets (λ w. has (is_slot uid) w.field_slots))) record_not_found
    modify (λ w. record w {
      field_slots =
          client.update_many (is_slot uid) (λ s. record s { is_reserved = true }) w.field_slots;
    })
