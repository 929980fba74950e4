-- ===== src/SessionCreation/Teams.antt =====
-- The steps of the transaction that creates a session, when nothing stands in their way.
use ludora_back.Prelude.{
  ℕ, suc, String, ◌≡◌, ◌<◌, inl, inr, Bool, true, ◌&&◌, ◌==◌, Option, none, some, List, [], ◌∷◌,
  arith, count, count-le, refl, Option-cases, ==_iff, str_eq, str_eq-refl,
}
use ludora_back.World.{
  Client, Session, SessionTeam, Conversation, World, label_a, label_b, ok, is_some, has,
}
use ludora_back.Users.{find_user}
use ludora_back.ConversationMembers
use ludora_back.ConversationMembers.{is_member, new_member}
use ludora_back.SessionPlayers.{
  CreateSessionPlayerDto, is_player, is_conversation_of, add_player_to_session, create_player,
  welcome,
}
use ludora_back.SessionPlayers.Join.{with_player}
use ludora_back.SessionCreation.{
  session_conversation, NewIds, new_team, find_team, create_default_teams,
  create_session_conversation, upload_each, insert_images, add_images, add_optional_images,
}

abbrev pub team_in : ℕ → SessionTeam → Bool
team_in s t = t.session_uid == s

find_team-none :
    (name : String) (ts : List SessionTeam)
    → find_team name ts ≡ none
    → count (λ t. str_eq t.team_name name) ts ≡ 0
find_team-none name [] h = refl
find_team-none name (t ∷ ts) h = ground (arith, find_team-none name ts)

find_team-mem :
    (name : String) (ts : List SessionTeam) (t : SessionTeam) (q : SessionTeam → Bool)
    → find_team name ts ≡ some t
    → q t ≡ true
    → 0 < count q ts
find_team-mem name [] t q h e = absurd (cc)
find_team-mem name (x ∷ ts) t q h e = ground (arith, find_team-mem name ts t q)

module _ ⦃client : Client⦄ where
  abbrev pub with_teams : NewIds → ℕ → String → String → List SessionTeam → List SessionTeam
  with_teams ids s a b t =
      client.insert (new_team ids.team_b s label_b b)
        (client.insert (new_team ids.team_a s label_a a) t)

  pub create_default_teams_lem :
      (ids : NewIds) (s : ℕ) (a b : String) (w : World)
      → count (team_in s) w.session_teams ≡ 0
      → let t = with_teams ids s a b w.session_teams in
        create_default_teams ids s a b w
        ≡ (ok (client.find_many (team_in s) t), record w { session_teams = t })
  unfolding create_default_teams
  create_default_teams_lem ids s a b w h = ground (arith, h)

  pub with_teams-count :
      (ids : NewIds) (s : ℕ) (a b : String) (t : List SessionTeam)
      → count (team_in s) t ≡ 0
      → count (team_in s) (with_teams ids s a b t) ≡ 2
  with_teams-count ids s a b t h = ground (
    arith,
    h,
    client.count-insert (new_team ids.team_b s label_b b) (team_in s)
        (client.insert (new_team ids.team_a s label_a a) t),
    client.count-insert (new_team ids.team_a s label_a a) (team_in s) t,
  )

  -- Team A is found by its name, and is a row of the table.
  pub team_found :
      (ids : NewIds) (s : ℕ) (a b : String) (t : List SessionTeam)
      → let rows = with_teams ids s a b t in
        (team : SessionTeam) × (find_team a (client.find_many (team_in s) rows) ≡ some team)
        × (0 < count (λ (x : SessionTeam). x.uid == team.uid) rows)
  team_found ids s a b t =
      let rows = with_teams ids s a b t in
      let listed = client.find_many (team_in s) rows in
      let named : SessionTeam → Bool = λ x. str_eq x.team_name a in
      elim (Option-cases (find_team a listed)) [
        | inl e ↦ absurd (
            ground (
              arith,
              find_team-none a listed e,
              client.count-find_many (team_in s) named rows,
              client.count-insert (new_team ids.team_b s label_b b) (λ x. team_in s x && named x)
                  (client.insert (new_team ids.team_a s label_a a) t),
              client.count-insert (new_team ids.team_a s label_a a) (λ x. team_in s x && named x) t,
              str_eq-refl a,
            ))
        | inr (team, e) ↦
            let own : SessionTeam → Bool = λ x. x.uid == team.uid in
            (
              team,
              e,
              omega (
                arith,
                find_team-mem a listed team own e ((==_iff team.uid team.uid).1 refl),
                client.count-find_many (team_in s) own rows,
                count-le (λ x. team_in s x && own x) own rows (λ x h. ground arith),
              ),
            )
      ]

  pub creator_added :
      (uid : ℕ) (dto : CreateSessionPlayerDto) (w : World)
      → count (is_player dto.session_uid dto.user_uid) w.session_players ≡ 0
      → has (λ (s : Session). s.uid == dto.session_uid) w.sessions ≡ true
      → has (λ (t : SessionTeam). t.uid == dto.team_uid) w.session_teams ≡ true
      → is_some (find_user dto.user_uid w) ≡ true
      → add_player_to_session uid dto (some dto.user_uid) w ≡ (ok tt, with_player uid dto w)
  unfolding add_player_to_session create_player welcome
  creator_added uid dto w absent session team user = ground arith

  pub create_session_conversation_lem :
      (uid s u now : ℕ) (w : World)
      → count (is_conversation_of s) w.conversations ≡ 0
      → count (is_member uid u) w.conversation_members ≡ 0
      → is_some (find_user u w) ≡ true
      → create_session_conversation uid s u now w ≡ (
        ok tt,
        record w {
          conversations = client.insert (session_conversation uid s now) w.conversations;
          conversation_members = client.insert (new_member uid u) w.conversation_members;
        },
      )
  unfolding create_session_conversation ConversationMembers.create
  create_session_conversation_lem uid s u now w silent outsider user = ground (
    arith,
    client.count-insert (session_conversation uid s now) (λ (k : Conversation). k.uid == uid)
        w.conversations,
  )

  upload_each_lem :
      (upload : String → Option String)
      → ((image : String) → is_some (upload image) ≡ true)
      → (xs : List String) (w : World)
      → (urls : List String) × (upload_each upload xs w ≡ (ok urls, w))
  unfolding upload_each
  upload_each_lem upload all [] w = ([], refl)
  upload_each_lem upload all (x ∷ xs) w =
      let (urls, e) = upload_each_lem upload all xs w in
      elim (Option-cases (upload x)) [
        | inl missing ↦ absurd (ground (arith, missing, all x))
        | inr (url, found) ↦ (url ∷ urls, ground (arith, found, e))
      ]

  -- The world with other images.
  abbrev pub SameButImages : World → World → Type 0
  SameButImages w w' = w' ≡ record w { session_images = w'.session_images }

  insert_images_lem :
      (s k : ℕ) (xs : List String) (w : World)
      → ((insert_images s k xs w).0 ≡ ok tt) × SameButImages w (insert_images s k xs w).1
  unfolding insert_images
  insert_images_lem s k [] w = (refl, refl)
  insert_images_lem s k (x ∷ xs) w = insert_images_lem s (suc k) xs _

  pub add_optional_images_lem :
      (upload : String → Option String)
      → ((image : String) → is_some (upload image) ≡ true)
      → (s : ℕ) (images : Option (List String)) (w : World)
      → let (r, w') = add_optional_images upload s images w in (r ≡ ok tt) × SameButImages w w'
  unfolding add_optional_images add_images
  add_optional_images_lem upload all s none w = (refl, refl)
  add_optional_images_lem upload all s (some xs) w =
      let (urls, e) = upload_each_lem upload all xs w in
      let (done, same) = insert_images_lem s 0 urls w in
      (ground (arith, e, done), ground (arith, e, same))
