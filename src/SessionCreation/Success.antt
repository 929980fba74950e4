-- ===== src/SessionCreation/Success.antt =====
-- A session that is created comes with its teams, its creator's place and its conversation.
use ludora_back.Prelude.{
  ℕ, String, ◌≡◌, ◌≤◌, Bool, true, false, not, ◌&&◌, ◌==◌, some, List, arith, count, count-none,
  refl,
}
use ludora_back.World.{
  Client, Field, FieldSlot, Session, World, find_first-eq_none, ok, is_some, has,
}
use ludora_back.Users.{find_user}
use ludora_back.ConversationMembers.{is_member}
use ludora_back.SessionPlayers.{is_player, is_conversation_of}
use ludora_back.Dates.{check_validity_for_creation_iff}
use ludora_back.Fields
use ludora_back.Fields.{find_one_slot, mark_as_reserved, is_slot}
use ludora_back.SessionCreation.{
  CreateSessionDto, NewIds, Outside, new_session, includes, is_private, conflicts, uses_slot,
  furnish, add_session, write_session, verify_slot, create_on, create,
}
use ludora_back.SessionCreation.Teams.{team_in, SameButImages}
use ludora_back.SessionCreation.Furnish.{IsComplete, settled-IsComplete, furnish_settles}

module _ ⦃client : Client⦄ where
  -- What the creation needs: the field has the sport and is private, the slot is free, unused and
  -- at the session's times, no session is in the way, the dates are valid, the creator is a user,
  -- the storage takes the images, and nothing refers to the new ids yet.
  pub record CanCreate (outside : Outside) (ids : NewIds) (dto : CreateSessionDto) (field : Field)
      (slot : FieldSlot) (w : World) : Type 0 where
    pub field_found :
        client.find_first (λ (f : Field). f.uid == dto.field_uid) w.fields ≡ some field
    pub private : is_private field ≡ true
    pub sport_offered : includes field.sports dto.sport ≡ true
    pub slot_named : dto.slot_uid ≡ some slot.uid
    pub slot_found : client.find_first (is_slot slot.uid) w.field_slots ≡ some slot
    pub slot_free : slot.is_reserved ≡ false
    pub starts : slot.start_time ≡ dto.start_date
    pub ends : slot.end_time ≡ dto.end_date
    pub clear : count (conflicts dto.field_uid dto.start_date dto.end_date) w.sessions ≡ 0
    pub unused : count (uses_slot (some slot.uid)) w.sessions ≡ 0
    pub future : outside.now ≤ dto.start_date
    pub ordered : dto.start_date ≤ dto.end_date
    pub same_day : outside.get_day dto.start_date ≡ outside.get_day dto.end_date
    pub creator_known : is_some (find_user dto.user_uid w) ≡ true
    pub storage_works : (image : String) → is_some (outside.upload image) ≡ true
    pub no_team : count (team_in ids.session) w.session_teams ≡ 0
    pub no_player : count (is_player ids.session dto.user_uid) w.session_players ≡ 0
    pub no_conversation : count (is_conversation_of ids.session) w.conversations ≡ 0
    pub no_member : count (is_member ids.conversation dto.user_uid) w.conversation_members ≡ 0

  images-IsComplete :
      (s c u : ℕ) (w w' : World) → SameButImages w w' → IsComplete s c u w → IsComplete s c u w'
  images-IsComplete s c u w w' e h = rw e (record {
    row = h.row;
    teams = h.teams;
    place = h.place;
    conversation = h.conversation;
    member = h.member;
  })

  slots-IsComplete :
      (s c u : ℕ) (w : World) (slots : List FieldSlot)
      → IsComplete s c u w
      → IsComplete s c u (record w { field_slots = slots })
  slots-IsComplete s c u w slots h = record {
    row = h.row;
    teams = h.teams;
    place = h.place;
    conversation = h.conversation;
    member = h.member;
  }

  verify_slot_passes :
      (outside : Outside) (ids : NewIds) (dto : CreateSessionDto) (field : Field) (slot : FieldSlot)
      (w : World)
      → CanCreate outside ids dto field slot w
      → verify_slot field dto w ≡ (ok (some slot), w)
  unfolding verify_slot find_one_slot
  verify_slot_passes outside ids dto field slot w h = ground (
    arith,
    h.private,
    h.slot_named,
    h.slot_found,
    h.slot_free,
    h.starts,
    h.ends,
    h.clear,
    find_first-eq_none (conflicts dto.field_uid dto.start_date dto.end_date) w.sessions h.clear,
  )

  session_added :
      (session : Session) (u k : ℕ) (w : World)
      → session.slot_uid ≡ some k
      → session.creator_uid ≡ some u
      → count (uses_slot (some k)) w.sessions ≡ 0
      → is_some (find_user u w) ≡ true
      → add_session session w ≡ (ok tt, record w { sessions = client.insert session w.sessions })
  unfolding add_session
  session_added session u k w slot mine unused user = ground (arith, slot, mine, unused, user)

  mark_as_reserved_lem :
      (slot : FieldSlot) (w : World)
      → client.find_first (is_slot slot.uid) w.field_slots ≡ some slot
      → mark_as_reserved slot.uid w ≡ (
        ok tt,
        record w {
          field_slots =
              client.update_many
                (is_slot slot.uid)
                (λ s. record s { is_reserved = true })
                w.field_slots;
        },
      )
  unfolding mark_as_reserved
  mark_as_reserved_lem slot w found = ground (
    arith,
    client.find_first-mem (is_slot slot.uid) w.field_slots slot (is_slot slot.uid) found,
    client.find_first-some (is_slot slot.uid) w.field_slots slot found,
  )

  -- The transaction, given what the creation needs.
  written :
      (outside : Outside) (ids : NewIds) (dto : CreateSessionDto) (field : Field) (slot : FieldSlot)
      (w : World)
      → CanCreate outside ids dto field slot w
      → let (r, w') =
          write_session outside ids (new_session outside ids.session dto (some slot)) dto w in
        (r ≡ ok tt)
        × IsComplete ids.session ids.conversation dto.user_uid w'
        × (w'.field_slots ≡ w.field_slots)
  unfolding write_session new_session
  written outside ids dto field slot w h =
      let session = new_session outside ids.session dto (some slot) in
      let w1 : World = record w { sessions = client.insert session w.sessions } in
      let added =
        session_added session dto.user_uid slot.uid w refl refl h.unused h.creator_known in
      let row : has (λ (s : Session). s.uid == ids.session) w1.sessions ≡ true =
        ground
          (arith, client.count-insert session (λ (s : Session). s.uid == ids.session) w.sessions) in
      let (team, done, same) =
        furnish_settles outside ids session dto w1 refl row h.creator_known h.storage_works
          h.no_team h.no_player h.no_conversation h.no_member in
      let complete =
        settled-IsComplete outside ids session dto w1 refl row h.creator_known h.storage_works
          h.no_team h.no_player h.no_conversation h.no_member team in
      let w' = (furnish outside ids session dto w1).1 in
      let step : write_session outside ids session dto w ≡ (ok tt, w') =
        ground (arith, added, done) in
      let slots : w'.field_slots ≡ w.field_slots = ground (arith, same) in
      rw step (
        refl,
        images-IsComplete session.uid ids.conversation dto.user_uid _ w' same complete,
        slots,
      )

  -- A session on a private field is created whenever the field offers the sport, the slot is free,
  -- at the session's times and used by no session, no session is in the way, the dates are valid,
  -- the creator is known, the storage takes every image, and nothing refers to the new ids yet: the
  -- call returns the session, which then has its row, two teams, its creator in one place and in
  -- its conversation, and the slot is reserved.
  pub create_when_free :
      (outside : Outside) (ids : NewIds) (dto : CreateSessionDto) (field : Field) (slot : FieldSlot)
      (w : World)
      → CanCreate outside ids dto field slot w
      → let (r, w') = create outside ids dto w in
        (r ≡ ok (new_session outside ids.session dto (some slot)))
        × IsComplete ids.session ids.conversation dto.user_uid w'
        × (count (λ k. is_slot slot.uid k && not k.is_reserved) w'.field_slots ≡ 0)
  unfolding create create_on Fields.find_one
  create_when_free outside ids dto field slot w h =
      let session = new_session outside ids.session dto (some slot) in
      let (dated, pass) =
        check_validity_for_creation_iff outside.get_day outside.now dto.start_date dto.end_date w in
      let valid = pass.1 (h.future, h.ordered, h.same_day) in
      let checked = verify_slot_passes outside ids dto field slot w h in
      let (done, complete, slots) = written outside ids dto field slot w h in
      let w1 = (write_session outside ids session dto w).1 in
      let reserved = mark_as_reserved_lem slot w1 (rw slots h.slot_found) in
      let free : FieldSlot → Bool = λ k. is_slot slot.uid k && not k.is_reserved in
      let taken : FieldSlot → FieldSlot = λ k. record k { is_reserved = true } in
      let kept = client.update_many (is_slot slot.uid) taken w1.field_slots in
      let step : create outside ids dto w ≡ (ok session, record w1 { field_slots = kept }) =
        ground (
          arith, h.field_found, h.sport_offered, h.private, h.slot_named, dated, valid, checked,
          done, reserved,
        ) in
      rw step (
        refl,
        slots-IsComplete ids.session ids.conversation dto.user_uid w1 kept complete,
        omega (
          arith,
          client.count-update_many (is_slot slot.uid) taken free w1.field_slots,
          count-none (λ k. is_slot slot.uid k && free (taken k)) w1.field_slots (λ k. ground arith),
          count-none (λ k. not (is_slot slot.uid k) && free k) w1.field_slots (λ k. ground arith),
        ),
      )
