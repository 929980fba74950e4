-- ===== src/Ratings/Voters.antt =====
-- Who may rate: the check that all users named in a request play in the session.
use ludora_back.Prelude.{
  ℕ, ◌+◌, ◌≡◌, ap, ◌≤◌, ◌↔◌, inl, inr, Bool, true, false, ◌&&◌, ◌==◌, none, some, List, [], ◌∷◌,
  arith, count, count-add, count-ext, count-none, bit, elem, length, Option-cases, Bool-cases, refl,
  ==_iff,
}
use ludora_back.World.{Client, World, SessionPlayer, Session, ok, is_ok}
use ludora_back.SessionPlayers.{is_player, check_if_users_are_players}
use ludora_back.Ratings.{verify_before_create}

length-count : {A : Type 0} (xs : List A) → length xs ≡ count (λ _. true) xs
length-count [] = refl
length-count (x ∷ xs) = omega (arith, length-count xs)

abbrev plays_among : ℕ → List ℕ → SessionPlayer → Bool
plays_among s us p = p.session_uid == s && elim p.user_uid [ none ↦ false | some u ↦ elem u us ]

-- Nobody is named twice, and everybody named plays in the session.
abbrev pub AllPlay : ℕ → List SessionPlayer → List ℕ → Type 0
AllPlay s t [] = Unit {0}
AllPlay s t (u ∷ us) = (elem u us ≡ false) × (count (is_player s u) t ≡ 1) × AllPlay s t us

module _ (s : ℕ) (t : List SessionPlayer) where
  elem-of : (u x : ℕ) (us : List ℕ) → (x == u) ≡ true → elem x us ≡ elem u us
  elem-of u x us h = ap (λ (y : ℕ). elem y us) ((==_iff x u).0 h)

  again_at :
      (u : ℕ) (us : List ℕ)
      → elem u us ≡ true
      → (p : SessionPlayer) → plays_among s (u ∷ us) p ≡ plays_among s us p
  again_at u us h p = elim (Option-cases p.user_uid) [
    | inl e ↦ ground arith
    | inr (x, e) ↦ ground (arith, elem-of u x us)
  ]

  first_at :
      (u : ℕ) (us : List ℕ)
      → elem u us ≡ false
      → (p : SessionPlayer)
      → bit (plays_among s (u ∷ us) p) ≡ bit (is_player s u p) + bit (plays_among s us p)
  first_at u us h p = elim (Option-cases p.user_uid) [
    | inl e ↦ ground arith
    | inr (x, e) ↦ ground (arith, elem-of u x us)
  ]

  plays_outcome :
      ((u : ℕ) → count (is_player s u) t ≤ 1)
      → (us : List ℕ)
      → (count (plays_among s us) t ≤ length us)
        × ((count (plays_among s us) t ≡ length us) ↔ AllPlay s t us)
  plays_outcome once [] =
      let none_plays : count (plays_among s []) t ≡ 0 =
        count-none (plays_among s []) t λ p. none_named p in
      (omega (arith, none_plays), ((λ h. tt), λ h. none_plays))
    where
      none_named : (p : SessionPlayer) → plays_among s [] p ≡ false
      none_named p = elim (Option-cases p.user_uid) [
        | inl e ↦ ground arith
        | inr (x, e) ↦ ground arith
      ]
  plays_outcome once (u ∷ us) =
      let (bound, (forth, back)) = plays_outcome once us in
      elim (Bool-cases (elem u us)) [
        | inl e ↦
            let same = count-ext (plays_among s (u ∷ us)) (plays_among s us) t (again_at u us e) in
            (
              omega (arith, same, bound),
              (
                (λ h. absurd (omega (arith, same, bound, h))),
                λ (new, one, rest). absurd (ground (arith, e, new)),
              ),
            )
        | inr e ↦
            let sum =
              count-add (plays_among s (u ∷ us)) (is_player s u) (plays_among s us) t
                (first_at u us e) in
            (
              omega (arith, sum, bound, once u),
              (
                (λ h. (
                  e,
                  omega (arith, sum, bound, once u, h),
                  forth (omega (arith, sum, bound, once u, h)),
                )),
                λ (new, one, rest). omega (arith, sum, one, back rest),
              ),
            )
      ]

module _ ⦃client : Client⦄ where
  players_checked :
      (s : ℕ) (us : List ℕ) (w : World)
      → (check_if_users_are_players s us w
          ≡ (ok (count (plays_among s us) w.session_players == length us), w))
  unfolding check_if_users_are_players
  players_checked s us w = ground (
    arith,
    length-count (client.find_many (plays_among s us) w.session_players),
    client.count-find_many (plays_among s us) (λ p. true) w.session_players,
    count-ext (λ p. plays_among s us p && true) (plays_among s us) w.session_players
        (λ p. ground arith),
  )

  -- The check before rating passes exactly if the session has not ended before now, all users
  -- named play in it, and nobody is named twice; given that nobody has two places in the session.
  pub verify_before_create_iff :
      (us : List ℕ) (session : Session) (now : ℕ) (w : World)
      → ((u : ℕ) → count (is_player session.uid u) w.session_players ≤ 1)
      → (is_ok (verify_before_create us session now w).0 ≡ true)
        ↔ ((now ≤ session.end_date) × AllPlay session.uid w.session_players us)
  unfolding verify_before_create
  verify_before_create_iff us session now w once =
      let (bound, (forth, back)) = plays_outcome session.uid w.session_players once us in
      (
        (λ h. ground (arith, h, players_checked session.uid us w, forth)),
        λ (early, all). ground (arith, players_checked session.uid us w, back all),
      )
