-- ===== src/Tests/Creation.antt =====
-- New sessions, new slots and their dates.
use ludora_back.Prelude.{◌≡◌, refl, false, none, some, [], ◌∷◌, not, ◌&&◌, count, arith}
use ludora_back.World.{Field, FieldSlot, FieldType, GameModes, padel, World, list_client, ok}
use ludora_back.Fields.{CreateFieldSlotDto}
use ludora_back.SessionCreation.{CreateSessionDto, NewIds, Outside, create}
use ludora_back.SessionCreation.Overlap.{NoOverlap, create-NoOverlap}
use ludora_back.Fields.{is_slot}
use ludora_back.SessionCreation.{new_session}
use ludora_back.SessionCreation.Furnish.{IsComplete}
use ludora_back.SessionCreation.Success.{CanCreate, create_when_free}
use ludora_back.Tests.SessionSample.{evening, season}

abbrev field : Field
field = record { uid = 90; kind = FieldType.private; partner_uid = some 7; sports = padel ∷ [] }

abbrev slot : FieldSlot
slot = record {
  uid = 80;
  field_uid = 90;
  start_time = 100;
  end_time = 160;
  game_mode = GameModes.two_v_two;
  price = 20;
  is_reserved = false;
}

-- A private field with a session early in the day, and a free slot.
abbrev venue : World
venue = record season {
  fields = field ∷ [];
  field_slots = slot ∷ [];
  sessions = record evening { start_date = 40; end_date = 100 } ∷ [];
}

abbrev outside : Outside
outside = record {
  now = 50;
  get_day = λ t. 3;
  auto_title = λ sport start. "Session";
  upload = λ image. some image;
}

abbrev ids : NewIds
ids = record { session = 12; team_a = 24; team_b = 25; player = 73; conversation = 31 }

abbrev request : CreateSessionDto
request = record {
  title = none;
  description = none;
  field_uid = 90;
  slot_uid = some 80;
  game_mode = GameModes.two_v_two;
  start_date = 100;
  end_date = 160;
  user_uid = 2;
  level = none;
  visibility = none;
  team_a_name = none;
  team_b_name = none;
  sport = padel;
  images = some ("a.png" ∷ []);
}

request-CanCreate : CanCreate outside ids request field slot venue
request-CanCreate = record {
  field_found = refl;
  private = refl;
  sport_offered = refl;
  slot_named = refl;
  slot_found = refl;
  slot_free = refl;
  starts = refl;
  ends = refl;
  clear = refl;
  unused = refl;
  future = omega arith;
  ordered = omega arith;
  same_day = refl;
  creator_known = refl;
  storage_works = λ image. refl;
  no_team = refl;
  no_player = refl;
  no_conversation = refl;
  no_member = refl;
}

create_when_free_example :
    let (r, w') = create outside ids request venue in
    (r ≡ ok (new_session outside 12 request (some slot)))
    × IsComplete 12 31 2 w'
    × (count (λ k. is_slot 80 k && not k.is_reserved) w'.field_slots ≡ 0)
create_when_free_example = create_when_free outside ids request field slot venue request-CanCreate

create-NoOverlap_example : NoOverlap 90 (create outside ids request venue).1.sessions
create-NoOverlap_example = create-NoOverlap outside ids request venue 90 refl (λ x. ground arith)

abbrev later_slot : CreateFieldSlotDto
later_slot = record {
  start_time = 200;
  end_time = 260;
  field_uid = 90;
  game_mode = GameModes.two_v_two;
  price = 20;
}
