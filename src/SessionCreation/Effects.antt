-- ===== src/SessionCreation/Effects.antt =====
-- What the parts of the creation write.
use ludora_back.Prelude.{
  ℕ, suc, String, ◌≡◌, inl, inr, Option, none, some, List, [], ◌∷◌, arith, refl, Option-cases, ◌∙◌,
}
use ludora_back.World.{Client, Session, SessionTeam, World, Action, ◌>>=◌, >>=-keeps}
use ludora_back.ConversationMembers
use ludora_back.SessionPlayers.{
  CreateSessionPlayerDto, add_player_to_session, create_player, welcome,
}
use ludora_back.SessionCreation.{
  CreateSessionDto, NewIds, Outside, add_creator, create_default_teams, create_session_conversation,
  upload_each, insert_images, add_images, add_optional_images, furnish_teams, furnish, find_team,
  team_a_name_of, team_b_name_of,
}

-- An action that leaves the table of sessions as it is.
abbrev pub Spares : {A : Type 0} → Action A → Type 0
Spares m = (w : World) → (m w).1.sessions ≡ w.sessions

>>=-Spares :
    {A B : Type 0} (m : Action A) (f : A → Action B)
    → Spares m
    → ((a : A) → Spares (f a))
    → Spares (m >>= f)
>>=-Spares m f h k w = >>=-keeps (λ v. v.sessions ≡ w.sessions) m f w (h w) λ a v e. k a v ∙ e

module _ ⦃client : Client⦄ where
  create_default_teams-Spares :
      (ids : NewIds) (s : ℕ) (a b : String) → Spares (create_default_teams ids s a b)
  unfolding create_default_teams
  create_default_teams-Spares ids s a b w = ground arith

  add_player_to_session-Spares :
      (uid : ℕ) (dto : CreateSessionPlayerDto) (c : Option ℕ)
      → Spares (add_player_to_session uid dto c)
  unfolding add_player_to_session create_player welcome ConversationMembers.create
  add_player_to_session-Spares uid dto c w = ground arith

  create_session_conversation-Spares :
      (uid s u now : ℕ) → Spares (create_session_conversation uid s u now)
  unfolding create_session_conversation ConversationMembers.create
  create_session_conversation-Spares uid s u now w = ground arith

  upload_each-Spares :
      (upload : String → Option String) (xs : List String) → Spares (upload_each upload xs)
  unfolding upload_each
  upload_each-Spares upload [] w = refl
  upload_each-Spares upload (x ∷ xs) w = ground (arith, upload_each-Spares upload xs w)

  insert_images-Spares : (s k : ℕ) (xs : List String) → Spares (insert_images s k xs)
  unfolding insert_images
  insert_images-Spares s k [] w = refl
  insert_images-Spares s k (x ∷ xs) w = insert_images-Spares s (suc k) xs _

  add_images-Spares :
      (upload : String → Option String) (s : ℕ) (xs : List String) → Spares (add_images upload s xs)
  unfolding add_images
  add_images-Spares upload s xs =
      >>=-Spares (upload_each upload xs) (insert_images s 0) (upload_each-Spares upload xs)
        (insert_images-Spares s 0)

  add_creator-Spares :
      (ids : NewIds) (session : Session) (dto : CreateSessionDto) (ts : List SessionTeam)
      → Spares (add_creator ids session dto ts)
  unfolding add_creator
  add_creator-Spares ids session dto ts w =
      elim (Option-cases (find_team (team_a_name_of dto) ts)) [
        | inl e ↦ ground arith
        | inr (t, e) ↦ rw (add_creator, e) (add_player_to_session-Spares _ _ _ w)
      ]

  add_optional_images-Spares :
      (upload : String → Option String) (s : ℕ) (images : Option (List String))
      → Spares (add_optional_images upload s images)
  unfolding add_optional_images
  add_optional_images-Spares upload s none w = refl
  add_optional_images-Spares upload s (some xs) w = add_images-Spares upload s xs w

  module _ (outside : Outside) (ids : NewIds) (session : Session) (dto : CreateSessionDto) where
    -- The last two steps.
    abbrev converse : Action (Unit {0})
    converse =
        create_session_conversation ids.conversation session.uid dto.user_uid outside.now >>= λ _.
        add_optional_images outside.upload session.uid dto.images

    converse-Spares : Spares converse
    converse-Spares =
        >>=-Spares
          (create_session_conversation ids.conversation session.uid dto.user_uid outside.now)
          (λ _. add_optional_images outside.upload session.uid dto.images)
          (create_session_conversation-Spares ids.conversation session.uid dto.user_uid outside.now)
          (λ _. add_optional_images-Spares outside.upload session.uid dto.images)

    furnish_teams-Spares :
        (ts : List SessionTeam) → Spares (furnish_teams outside ids session dto ts)
    unfolding furnish_teams
    furnish_teams-Spares ts =
        >>=-Spares (add_creator ids session dto ts) (λ _. converse)
          (add_creator-Spares ids session dto ts) (λ _. converse-Spares)

    pub furnish-Spares : Spares (furnish outside ids session dto)
    unfolding furnish
    furnish-Spares =
        >>=-Spares (create_default_teams ids session.uid (team_a_name_of dto) (team_b_name_of dto))
          (furnish_teams outside ids session dto)
          (create_default_teams-Spares ids session.uid (team_a_name_of dto) (team_b_name_of dto))
          furnish_teams-Spares
