-- ===== src/Fields/Slots.antt =====
-- A field has one slot for each pair of times, and only its partner adds slots.
use ludora_back.Prelude.{
  ℕ, ◌≡◌, ◌≤◌, ◌⊎◌, inl, inr, Bool, true, ◌&&◌, ◌==◌, holds, arith, count, count-le, Option-cases,
}
use ludora_back.World.{Client, Field, World, Refuses, ok, has}
use ludora_back.Dates.{check_validity_for_creation_iff}
use ludora_back.Fields.{CreateFieldSlotDto, is_slot_at, new_slot, create_slot, find_one}

abbrev pub OncePerTime : World → Type 0
OncePerTime w = (f a b : ℕ) → count (is_slot_at f a b) w.field_slots ≤ 1

-- The partner of a field that was found.
abbrev pub is_partner : ℕ → ℕ → Field → Bool
is_partner f p x = x.uid == f && holds x.partner_uid p

module _ ⦃client : Client⦄ where
  create_slot_cases :
      (get_day : ℕ → ℕ) (now uid : ℕ) (dto : CreateFieldSlotDto) (p : ℕ) (w : World)
      → let (r, w') = create_slot get_day now uid dto p w in
        Refuses w (r, w')
        ⊎ (has (is_partner dto.field_uid p) w.fields ≡ true)
          × (now ≤ dto.start_time)
          × (dto.start_time ≤ dto.end_time)
          × (count (is_slot_at dto.field_uid dto.start_time dto.end_time) w.field_slots ≡ 0)
          × (r ≡ ok (new_slot uid dto))
          × (w' ≡ record w { field_slots = client.insert (new_slot uid dto) w.field_slots })
  unfolding create_slot find_one
  create_slot_cases get_day now uid dto p w =
      let (same, pass) =
        check_validity_for_creation_iff get_day now dto.start_time dto.end_time w in
      let own : Field → Bool = λ f. f.uid == dto.field_uid in
      elim (Option-cases (client.find_first own w.fields)) [
        | inl missing ↦ ground arith
        | inr (e, found) ↦ ground (
          arith,
          same,
          pass.0,
          client.find_first-none (is_slot_at dto.field_uid dto.start_time dto.end_time)
              w.field_slots,
          client.find_first-mem own w.fields e (is_partner dto.field_uid p) found,
          client.find_first-some own w.fields e found,
        )
      ]

  -- Adding a slot, whether it succeeds or throws, keeps every field to one slot for each pair of
  -- times.
  pub create_slot-OncePerTime :
      (get_day : ℕ → ℕ) (now uid : ℕ) (dto : CreateFieldSlotDto) (p : ℕ) (w : World)
      → OncePerTime w
      → OncePerTime (create_slot get_day now uid dto p w).1
  create_slot-OncePerTime get_day now uid dto p w v =
      elim (create_slot_cases get_day now uid dto p w) [
        | inl (failed, same) ↦ rw same v
        | inr (own, early, ordered, free, value, table) ↦ rw table λ f a b. ground (
          arith,
          v f a b,
          client.count-insert (new_slot uid dto) (is_slot_at f a b) w.field_slots,
          λ (h : is_slot_at f a b (new_slot uid dto) ≡ true).
              count-le (is_slot_at f a b) (is_slot_at dto.field_uid dto.start_time dto.end_time)
                w.field_slots λ s k. ground arith,
        )
      ]
