-- ===== src/SessionCreation.antt =====
-- sessions/services/sessions.service.ts (create), session-teams.service.ts (createDefaultTeams) and
-- conversations/services/conversations.service.ts (createSessionConversation): a new session, with
-- its teams, its creator as first player, and its conversation.
pub mod Overlap
pub mod Effects
pub mod Teams
pub mod Furnish
pub mod Success
use ludora_back.Prelude.{
  ℕ, String, Bool, true, false, not, ◌&&◌, ◌==◌, ltb, suc, Option, none, some, List, [], ◌∷◌, holds,
  str_eq, if◌then◌else◌,
}
use ludora_back.World.{
  Client, Field, FieldSlot, FieldType, GameModes, Sport, Session, SessionVisibility, SessionTeam,
  SessionImage, TeamLabels, label_a, label_b, Conversation, ConversationType, World,
  field_not_found, sport_not_on_field, slot_required, slot_not_found, slot_reserved,
  slot_at_other_time, another_session, upload_failed, bad_request, not_found, unique_violation,
  foreign_key_violation, type_error, Action, pure, gets, or_raise, ◌>>=◌, ◌>>◌, raise_if, modify,
  when, transaction, has, is_some, is_none,
}
use ludora_back.World.{basketball, football, padel, tennis, volleyball, ping_pong, badminton}
use ludora_back.Users.{find_user}
use ludora_back.ConversationMembers
use ludora_back.Dates.{check_validity_for_creation}
use ludora_back.Fields
use ludora_back.Fields.{find_one_slot, mark_as_reserved}
use ludora_back.Sessions.{get_players_per_team_data}
use ludora_back.SessionPlayers.{add_player_to_session, is_conversation_of}

-- A title that is empty counts as missing, and is `none` here.
pub record CreateSessionDto : Type 0 where
  pub title : Option String
  pub description : Option String
  pub field_uid : ℕ
  pub slot_uid : Option ℕ
  pub game_mode : GameModes
  pub start_date : ℕ
  pub end_date : ℕ
  pub user_uid : ℕ
  pub level : Option ℕ
  pub visibility : Option SessionVisibility
  pub team_a_name : Option String
  pub team_b_name : Option String
  pub sport : Sport
  pub images : Option (List String)

-- The ids that the database generates during a call.
pub record NewIds : Type 0 where
  pub session : ℕ
  pub team_a : ℕ
  pub team_b : ℕ
  pub player : ℕ
  pub conversation : ℕ

-- What lies outside of the repository: JavaScript's clock and `Date.getDay`, the title that luxon
-- formats, and the storage, which gives an image's URL or fails.
pub record Outside : Type 0 where
  pub now : ℕ
  pub get_day : ℕ → ℕ
  pub auto_title : Sport → ℕ → String
  pub upload : String → Option String

abbrev pub or_else : {A : Type 0} → Option A → A → A
or_else none a = a
or_else (some b) a = b

abbrev pub is_sport : Sport → Sport → Bool
is_sport basketball basketball = true
is_sport football football = true
is_sport padel padel = true
is_sport tennis tennis = true
is_sport volleyball volleyball = true
is_sport ping_pong ping_pong = true
is_sport badminton badminton = true
is_sport _ _ = false

abbrev pub includes : List Sport → Sport → Bool
includes [] s = false
includes (x ∷ xs) s = let rest = includes xs s in if is_sport x s then true else rest

abbrev pub is_private : Field → Bool
is_private f = elim f.kind [ FieldType.private ↦ true | FieldType.public ↦ false ]

-- The sessions of a field that end after the start and start before the end.
abbrev pub conflicts : (field start_date end_date : ℕ) → Session → Bool
conflicts f a b s = ltb a s.end_date && s.field_uid == f && ltb s.start_date b

abbrev pub uses_slot : Option ℕ → Session → Bool
uses_slot none s = false
uses_slot (some k) s = holds s.slot_uid k

abbrev pub team_a_name_of : CreateSessionDto → String
team_a_name_of dto = or_else dto.team_a_name "Equipe A"

abbrev pub team_b_name_of : CreateSessionDto → String
team_b_name_of dto = or_else dto.team_b_name "Equipe B"

-- `defaultTeams.find`
abbrev pub find_team : String → List SessionTeam → Option SessionTeam
find_team name [] = none
find_team name (t ∷ ts) = if str_eq t.team_name name then some t else find_team name ts

abbrev pub new_team : ℕ → ℕ → TeamLabels → String → SessionTeam
new_team uid s label name = record {
  uid = uid;
  session_uid = s;
  team_label = label;
  team_name = name;
}

abbrev pub session_conversation : (uid session_uid now : ℕ) → Conversation
session_conversation uid s now = record {
  uid = uid;
  session_uid = some s;
  kind = ConversationType.session;
  updated_at = now;
}

-- The data of `tx.sessions.create`, with the defaults of the schema.
unfoldable pub new_session : Outside → ℕ → CreateSessionDto → Option FieldSlot → Session
new_session outside uid dto slot =
    let sizes = get_players_per_team_data dto.game_mode in
    record {
      uid = uid;
      field_uid = dto.field_uid;
      slot_uid = elim slot [ none ↦ none | some k ↦ some k.uid ];
      game_mode = dto.game_mode;
      level = or_else dto.level 0;
      description = dto.description;
      teams_per_game = sizes.teams_per_game;
      min_players_per_team = sizes.min_players_per_team;
      view_count = 0;
      creator_uid = some dto.user_uid;
      visibility = or_else dto.visibility SessionVisibility.public;
      sport = dto.sport;
      title = some (or_else dto.title (outside.auto_title dto.sport dto.start_date));
      start_date = dto.start_date;
      end_date = dto.end_date;
      max_players_per_team = sizes.max_players_per_team;
    }

module _ ⦃client : Client⦄ where
  -- What a private field asks for: the slot, which is free and at the session's times, and no
  -- other session at that time. A public field has no slot.
  unfoldable pub verify_slot : Field → CreateSessionDto → Action (Option FieldSlot)
  verify_slot field dto =
      if is_private field
      then (do
        slot_uid ← or_raise dto.slot_uid (bad_request slot_not_found)
        slot ← or_raise (← find_one_slot slot_uid) (bad_request slot_not_found)
        raise_if slot.is_reserved (bad_request slot_reserved)
        raise_if (not (slot.start_time == dto.start_date && slot.end_time == dto.end_date))
            (bad_request slot_at_other_time)
        conflict ← gets (λ w.
            client.find_first (conflicts dto.field_uid dto.start_date dto.end_date) w.sessions)
        raise_if (is_some conflict) (bad_request another_session)
        pure (some slot))
      else pure none

  -- `tx.sessions.create`: a slot has one session at most, and the creator is a user. The field and
  -- the slot were found before, so that their foreign keys hold.
  unfoldable pub add_session : Session → Action (Unit {0})
  add_session session = do
    raise_if (← gets (λ w. has (uses_slot session.slot_uid) w.sessions)) unique_violation
    raise_if
        (← gets (λ w. elim session.creator_uid [ none ↦ false | some u ↦ is_none (find_user u w) ]))
        foreign_key_violation
    modify (λ w. record w { sessions = client.insert session w.sessions })

  -- A session has each label once. The session's row is written before, in the same transaction.
  unfoldable pub create_default_teams : NewIds → ℕ → String → String → Action (List SessionTeam)
  create_default_teams ids s name_a name_b = do
    raise_if (← gets (λ w. has (λ (t : SessionTeam). t.session_uid == s) w.session_teams))
        unique_violation
    modify (λ w. record w {
      session_teams =
          client.insert (new_team ids.team_b s label_b name_b)
            (client.insert (new_team ids.team_a s label_a name_a) w.session_teams);
    })
    gets (λ w. client.find_many (λ (t : SessionTeam). t.session_uid == s) w.session_teams)

  -- A session has one conversation. Its row is written before, in the same transaction.
  unfoldable pub create_session_conversation :
      (uid session_uid user_uid now : ℕ) → Action (Unit {0})
  create_session_conversation uid s u now = do
    raise_if (← gets (λ w. has (is_conversation_of s) w.conversations)) unique_violation
    modify (λ w. record w {
      conversations = client.insert (session_conversation uid s now) w.conversations;
    })
    ConversationMembers.create uid u

  -- The images are uploaded, and written with their places from 0 on.
  unfoldable pub upload_each : (String → Option String) → List String → Action (List String)
  upload_each upload [] = pure []
  upload_each upload (image ∷ images) = do
    url ← or_raise (upload image) (bad_request upload_failed)
    urls ← upload_each upload images
    pure (url ∷ urls)

  unfoldable pub insert_images : (session_uid order : ℕ) → List String → Action (Unit {0})
  insert_images s order [] = pure tt
  insert_images s order (url ∷ urls) = do
    modify (λ w. record w {
      session_images =
          client.insert (record { session_uid = s; url = url; order = order }) w.session_images;
    })
    insert_images s (suc order) urls

  unfoldable pub add_images : (String → Option String) → ℕ → List String → Action (Unit {0})
  add_images upload s images = do urls ← upload_each upload images; insert_images s 0 urls

  unfoldable pub add_creator :
      NewIds → Session → CreateSessionDto → List SessionTeam → Action (Unit {0})
  add_creator ids session dto teams = elim (find_team (team_a_name_of dto) teams) [
    | none ↦ pure tt
    | some team_a ↦
        add_player_to_session ids.player
          (record { team_uid = team_a.uid; user_uid = dto.user_uid; session_uid = session.uid })
          session.creator_uid
  ]

  unfoldable pub add_optional_images :
      (String → Option String) → ℕ → Option (List String) → Action (Unit {0})
  add_optional_images upload s none = pure tt
  add_optional_images upload s (some images) = add_images upload s images

  -- The transaction after the session's row: the teams, the creator, the conversation, the images.
  unfoldable pub furnish_teams :
      Outside → NewIds → Session → CreateSessionDto → List SessionTeam → Action (Unit {0})
  furnish_teams outside ids session dto default_teams = do
    add_creator ids session dto default_teams
    create_session_conversation ids.conversation session.uid dto.user_uid outside.now
    add_optional_images outside.upload session.uid dto.images

  unfoldable pub furnish : Outside → NewIds → Session → CreateSessionDto → Action (Unit {0})
  furnish outside ids session dto = do
    default_teams ← create_default_teams ids session.uid (team_a_name_of dto) (team_b_name_of dto)
    furnish_teams outside ids session dto default_teams

  unfoldable pub write_session : Outside → NewIds → Session → CreateSessionDto → Action (Unit {0})
  write_session outside ids session dto =
      transaction do add_session session; furnish outside ids session dto

  unfoldable pub create_on : Outside → NewIds → Field → CreateSessionDto → Action Session
  create_on outside ids field dto = do
    raise_if (not (includes field.sports dto.sport)) (bad_request sport_not_on_field)
    raise_if (is_private field && is_none dto.slot_uid) (bad_request slot_required)
    check_validity_for_creation outside.get_day outside.now dto.start_date dto.end_date
    existing_slot ← verify_slot field dto
    write_session outside ids (new_session outside ids.session dto existing_slot) dto
    when (is_private field) do slot ← or_raise existing_slot type_error; mark_as_reserved slot.uid
    pure (new_session outside ids.session dto existing_slot)

  unfoldable pub create : Outside → NewIds → CreateSessionDto → Action Session
  create outside ids dto = do
    field ← or_raise (← Fields.find_one dto.field_uid) (not_found field_not_found)
    create_on outside ids field dto
