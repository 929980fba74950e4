-- ===== src/Sessions/View.antt =====
-- The players whom a team shows, and the view counter of a session.
use ludora_back.Prelude.{
  ℕ, zero, suc, ◌+◌, ◌≡◌, ◌≤◌, ◌<◌, ◌⊎◌, inl, inr, Bool, true, not, ◌&&◌, ◌==◌, Option, none, some,
  List, [], ◌∷◌, take, length, bit, count, count-ext, count-le, count-none, arith, refl,
  Option-cases,
}
use ludora_back.World.{Client, Session, SessionTeam, SessionPlayer, World, is_ok, has, Refuses}
use ludora_back.Sessions.{is_user, first_of, others_of, view_team, find_one, increment_view_count}

count-take :
    (r : SessionPlayer → Bool) (n : ℕ) (ps : List SessionPlayer) → count r (take n ps) ≤ count r ps
count-take r zero ps = omega arith
count-take r (suc n) [] = omega arith
count-take r (suc n) (p ∷ ps) = omega (arith, count-take r n ps)

length-take :
    (n : ℕ) (ps : List SessionPlayer)
    → (length (take n ps) ≡ length ps) × (length ps ≤ n)
      ⊎ (length (take n ps) ≡ n) × (n < length ps)
length-take zero [] = inl (refl, omega arith)
length-take zero (p ∷ ps) = inr (refl, omega arith)
length-take (suc n) [] = inl (refl, omega arith)
length-take (suc n) (p ∷ ps) = ground (arith, length-take n ps)

first_of-none :
    (q : SessionPlayer → Bool) (ps : List SessionPlayer) → first_of q ps ≡ none → count q ps ≡ 0
first_of-none q [] h = refl
first_of-none q (p ∷ ps) h = ground (arith, first_of-none q ps)

-- Taking out the player found takes out one player, who meets the test.
first_of-some :
    (q : SessionPlayer → Bool) (ps : List SessionPlayer) (p : SessionPlayer)
    → first_of q ps ≡ some p
    → (q p ≡ true) × (length ps ≡ suc (length (others_of q ps)))
first_of-some q [] p h = absurd (cc)
first_of-some q (x ∷ ps) p h = ground (arith, first_of-some q ps p)

others_of-count :
    (q r : SessionPlayer → Bool) (ps : List SessionPlayer) (p : SessionPlayer)
    → first_of q ps ≡ some p
    → count r ps ≡ bit (r p) + count r (others_of q ps)
others_of-count q r [] p h = absurd (cc)
others_of-count q r (x ∷ ps) p h = ground (arith, others_of-count q r ps p)

-- A team shows three of its players, or all if there are fewer. Each player shown is one of the
-- team, and none is shown twice: no test is met by more players shown than players. The team is
-- marked as joined exactly if the user plays in it, and then the user is among the players shown.
pub view_team_outcome :
    (user_uid : Option ℕ) (team : SessionTeam) (players : List SessionPlayer)
    → let v = view_team user_uid team players in
      ((length v.session_players ≡ length players) × (length players ≤ 3)
        ⊎ (length v.session_players ≡ 3) × (3 < length players))
      × ((r : SessionPlayer → Bool) → count r v.session_players ≤ count r players)
      × (v.is_joined ≡ has (is_user user_uid) players)
      × (v.is_joined ≡ has (is_user user_uid) v.session_players)
unfolding view_team
view_team_outcome user_uid team players =
    let own = is_user user_uid in
    elim (Option-cases (first_of own players)) [
      | inl e ↦ (
        ground (arith, e, length-take 3 players),
        (λ r. rw e (count-take r 3 players)),
        ground (arith, e, first_of-none own players),
        ground (arith, e, first_of-none own players, count-take own 3 players),
      )
      | inr (p, e) ↦
          let (found, longer) = first_of-some own players p e in
          let rest = others_of own players in
          (
            ground (arith, e, longer, length-take 2 rest),
            (λ r. rw e (omega (arith, others_of-count own r players p e, count-take r 2 rest))),
            ground (arith, e, found, others_of-count own own players p e),
            ground (arith, e, found),
          )
    ]

abbrev of_uid : ℕ → Session → Bool
of_uid uid s = s.uid == uid

abbrev viewed : Session → Session
viewed s = record s { view_count = s.view_count + 1 }

module _ ⦃client : Client⦄ where
  find_one_cases :
      (uid : ℕ) (user_uid : Option ℕ) (w : World)
      → let (r, w') = find_one uid user_uid w in
        (count (of_uid uid) w.sessions ≡ 0) × Refuses w (r, w')
        ⊎ (0 < count (of_uid uid) w.sessions)
          × (is_ok r ≡ true)
          × (w' ≡ record w { sessions = client.update_many (of_uid uid) viewed w.sessions })
  unfolding find_one increment_view_count
  find_one_cases uid user_uid w = elim (Option-cases (client.find_first (of_uid uid) w.sessions)) [
    | inl e ↦ ground (arith, e, client.find_first-none (of_uid uid) w.sessions e)
    | inr (s, e) ↦ ground (
      arith,
      e,
      client.find_first-mem (of_uid uid) w.sessions s (of_uid uid) e,
      client.find_first-some (of_uid uid) w.sessions s e,
    )
  ]

  missing_count :
      (uid : ℕ) (r : Session → Bool) (t : List Session)
      → count (of_uid uid) t ≡ 0
      → count (λ s. s.uid == uid && r s) t ≡ 0
  missing_count uid r t h =
      omega (arith, h, count-le (λ s. s.uid == uid && r s) (of_uid uid) t (λ s k. ground arith))

  -- Reading a session fails exactly if no session has the id. Otherwise it raises the session's
  -- view counter by one, and changes no other table and no other session.
  pub find_one_outcome :
      (uid : ℕ) (user_uid : Option ℕ) (w : World)
      → let (r, w') = find_one uid user_uid w in
        (is_ok r ≡ has (λ (s : Session). s.uid == uid) w.sessions)
        × (w' ≡ record w { sessions = w'.sessions })
        × ((k : ℕ)
            → count (λ s. s.uid == uid && s.view_count == suc k) w'.sessions
              ≡ count (λ s. s.uid == uid && s.view_count == k) w.sessions)
        × ((r : Session → Bool)
            → count (λ s. not (s.uid == uid) && r s) w'.sessions
              ≡ count (λ s. not (s.uid == uid) && r s) w.sessions)
  find_one_outcome uid user_uid w = elim (find_one_cases uid user_uid w) [
    | inl (absent, (failed, same)) ↦ (
      ground (arith, absent, failed),
      rw same refl,
      (λ k. rw same (
          omega (
            arith,
            missing_count uid (λ s. s.view_count == suc k) w.sessions absent,
            missing_count uid (λ s. s.view_count == k) w.sessions absent,
          ))),
      λ r. rw same refl,
    )
    | inr (known, done, table) ↦ (
      ground (arith, known, done),
      rw table refl,
      (λ k. rw table (raised k)),
      λ r. rw table (others r),
    )
  ]
    where
      raised :
          (k : ℕ)
          → count
              (λ s. s.uid == uid && s.view_count == suc k)
              (client.update_many (of_uid uid) viewed w.sessions)
            ≡ count (λ s. s.uid == uid && s.view_count == k) w.sessions
      raised k =
          let at : Session → Bool = λ s. s.uid == uid && s.view_count == suc k in
          omega (
            arith,
            client.count-update_many (of_uid uid) viewed at w.sessions,
            count-ext (λ s. of_uid uid s && at (viewed s)) (λ s. s.uid == uid && s.view_count == k)
                w.sessions (λ s. ground arith),
            count-none (λ s. not (of_uid uid s) && at s) w.sessions (λ s. ground arith),
          )

      others :
          (r : Session → Bool)
          → count
              (λ s. not (s.uid == uid) && r s)
              (client.update_many (of_uid uid) viewed w.sessions)
            ≡ count (λ s. not (s.uid == uid) && r s) w.sessions
      others r =
          let apart : Session → Bool = λ s. not (s.uid == uid) && r s in
          omega (
            arith,
            client.count-update_many (of_uid uid) viewed apart w.sessions,
            count-none (λ s. of_uid uid s && apart (viewed s)) w.sessions (λ s. ground arith),
            count-ext (λ s. not (of_uid uid s) && apart s) apart w.sessions (λ s. ground arith),
          )
