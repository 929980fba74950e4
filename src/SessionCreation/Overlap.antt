-- ===== src/SessionCreation/Overlap.antt =====
-- Two sessions on a private field never overlap.
use ludora_back.Prelude.{
  ℕ, ◌≡◌, ◌≤◌, ◌⊎◌, inl, inr, Bool, true, false, not, ◌&&◌, ◌==◌, ltb, leb, Option, some, List,
  arith, count, count-le, refl, Option-cases, ==_iff,
}
use ludora_back.World.{Client, Field, FieldSlot, Session, World, Refuses, Result, ok, err, is_ok}
use ludora_back.Dates.{check_validity_for_creation_iff}
use ludora_back.Fields
use ludora_back.Fields.{find_one_slot, mark_as_reserved, is_slot}
use ludora_back.SessionCreation.{
  CreateSessionDto, NewIds, Outside, add_session, write_session, verify_slot, new_session,
  create_on, create, is_private, conflicts,
}
use ludora_back.SessionCreation.Effects.{furnish-Spares}

-- The session holds the field at the instant.
abbrev pub occupies : (field instant : ℕ) → Session → Bool
occupies f x s = s.field_uid == f && leb s.start_date x && ltb x s.end_date

-- At any instant, at most one session holds the field.
abbrev pub NoOverlap : ℕ → List Session → Type 0
NoOverlap f t = (x : ℕ) → count (occupies f x) t ≤ 1

-- Every row of the table that has the id is of a private field.
abbrev pub is_public_row : ℕ → Field → Bool
is_public_row f r = r.uid == f && not (is_private r)

module _ ⦃client : Client⦄ where
  -- A slot that passes is checked without a write, and on a private field nothing conflicts.
  verify_slot_lem :
      (field : Field) (dto : CreateSessionDto) (w : World)
      → ((verify_slot field dto w).1 ≡ w)
        × ((is_ok (verify_slot field dto w).0 ≡ false)
            ⊎ (is_private field ≡ false)
            ⊎ (count (conflicts dto.field_uid dto.start_date dto.end_date) w.sessions ≡ 0))
  unfolding verify_slot find_one_slot
  verify_slot_lem field dto w = ground (
    arith,
    client.find_first-none (conflicts dto.field_uid dto.start_date dto.end_date) w.sessions,
  )

  add_session_lem :
      (session : Session) (w : World)
      → Refuses w (add_session session w)
        ⊎ (add_session session w
            ≡ (ok tt, record w { sessions = client.insert session w.sessions }))
  unfolding add_session
  add_session_lem session w = ground arith

  write_session_cases :
      (outside : Outside) (ids : NewIds) (session : Session) (dto : CreateSessionDto) (w : World)
      → let (r, w') = write_session outside ids session dto w in
        ((is_ok r ≡ false) × (w'.sessions ≡ w.sessions))
        ⊎ (w'.sessions ≡ client.insert session w.sessions)
  unfolding write_session
  write_session_cases outside ids session dto w =
      let added : World = record w { sessions = client.insert session w.sessions } in
      ground (arith, add_session_lem session w, furnish-Spares outside ids session dto added)

  mark_as_reserved_lem : (uid : ℕ) (w : World) → (mark_as_reserved uid w).1.sessions ≡ w.sessions
  unfolding mark_as_reserved
  mark_as_reserved_lem uid w = ground arith

  -- What the call with the field at hand does to the sessions.
  IsAdded : Outside → NewIds → Field → CreateSessionDto → World → World → Type 0
  IsAdded outside ids field dto w w' =
      (slot : Option FieldSlot) × (w'.sessions
        ≡ client.insert (new_session outside ids.session dto slot) w.sessions)
      × ((is_private field ≡ false)
          ⊎ (count (conflicts dto.field_uid dto.start_date dto.end_date) w.sessions ≡ 0))

  Result-cases : {A : Type 0} (r : Result A) → (is_ok r ≡ false) ⊎ ((a : A) × (r ≡ ok a))
  Result-cases (ok a) = inr (a, refl)
  Result-cases (err e) = inl refl

  create_on_cases :
      (outside : Outside) (ids : NewIds) (field : Field) (dto : CreateSessionDto) (w : World)
      → let w' = (create_on outside ids field dto w).1 in
        (w'.sessions ≡ w.sessions) ⊎ IsAdded outside ids field dto w w'
  unfolding create_on IsAdded
  create_on_cases outside ids field dto w =
      let (dated, pass) =
        check_validity_for_creation_iff outside.get_day outside.now dto.start_date dto.end_date w in
      let (same, checked) = verify_slot_lem field dto w in
      elim (Result-cases (verify_slot field dto w).0) [
        | inl refused ↦ inl (ground (arith, dated, same, refused))
        | inr (slot, e) ↦
            let session = new_session outside ids.session dto slot in
            let (r, v) = write_session outside ids session dto w in
            elim (write_session_cases outside ids session dto w) [
              | inl (failed, kept) ↦ inl (ground (arith, dated, same, e, failed, kept))
              | inr written ↦
                  let reserved : (k : FieldSlot)
                      → (mark_as_reserved k.uid v).1.sessions ≡ v.sessions =
                    λ k. mark_as_reserved_lem k.uid v in
                  let table : let w' = (create_on outside ids field dto w).1 in
                      (w'.sessions ≡ w.sessions)
                      ⊎ (w'.sessions ≡ client.insert session w.sessions) =
                    elim (Option-cases slot) [
                      | inl none_free ↦ ground (arith, dated, same, e, written, none_free)
                      | inr (k, taken) ↦ ground (arith, dated, same, e, written, taken, reserved k)
                    ] in
                  elim table [
                    | inl kept ↦ inl kept
                    | inr grown ↦ inr (slot, grown, ground (arith, checked, e))
                  ]
            ]
      ]

  create_cases :
      (outside : Outside) (ids : NewIds) (dto : CreateSessionDto) (w : World)
      → let w' = (create outside ids dto w).1 in
        (w'.sessions ≡ w.sessions)
        ⊎ ((field : Field) × (client.find_first (λ (f : Field). f.uid == dto.field_uid) w.fields
              ≡ some field)
            × IsAdded outside ids field dto w w')
  unfolding create Fields.find_one
  create_cases outside ids dto w =
      elim (Option-cases (client.find_first (λ (f : Field). f.uid == dto.field_uid) w.fields)) [
        | inl missing ↦ inl (ground (arith, missing))
        | inr (field, e) ↦ elim (create_on_cases outside ids field dto w) [
          | inl kept ↦ inl (ground (arith, e, kept))
          | inr added ↦ inr (field, e, rw e added)
        ]
      ]

  -- A new session that holds the field at an instant conflicts with every session that does.
  insert-NoOverlap :
      (f : ℕ) (session : Session) (t : List Session)
      → NoOverlap f t
      → ((session.field_uid == f) ≡ false)
        ⊎ (count (conflicts session.field_uid session.start_date session.end_date) t ≡ 0)
      → NoOverlap f (client.insert session t)
  insert-NoOverlap f session t v free x = ground (
    arith,
    v x,
    free,
    client.count-insert session (occupies f x) t,
    λ (h : occupies f x session ≡ true).
        count-le (occupies f x) (conflicts session.field_uid session.start_date session.end_date) t
          λ s k. ground (arith, ==_iff session.field_uid f, ==_iff s.field_uid f),
  )

  -- On a private field, a new session, whether the call succeeds or throws, never makes two
  -- sessions hold the field at one instant.
  pub create-NoOverlap :
      (outside : Outside) (ids : NewIds) (dto : CreateSessionDto) (w : World) (f : ℕ)
      → count (is_public_row f) w.fields ≡ 0
      → NoOverlap f w.sessions
      → NoOverlap f (create outside ids dto w).1.sessions
  unfolding new_session IsAdded
  create-NoOverlap outside ids dto w f private v = elim (create_cases outside ids dto w) [
    | inl kept ↦ rw kept v
    | inr (field, e, (slot, table, checked)) ↦ rw table (
        insert-NoOverlap f (new_session outside ids.session dto slot) w.sessions v (
          ground (
            arith,
            checked,
            client.find_first-mem (λ (r : Field). r.uid == dto.field_uid) w.fields field
                (is_public_row f) e,
            client.find_first-some (λ (r : Field). r.uid == dto.field_uid) w.fields field e,
            ==_iff dto.field_uid f,
            ==_iff field.uid dto.field_uid,
            ==_iff field.uid f,
            private,
          )))
  ]
