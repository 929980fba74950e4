-- ===== src/SessionPlayers/Rating.antt =====
-- The rating status of a player only moves forward.
use ludora_back.Prelude.{
  ℕ, ◌≡◌, ◌≤◌, ◌<◌, ◌⊎◌, inl, inr, Bool, true, not, ◌&&◌, leb, Option, none, some, arith, count,
  count-le, count-ext, count-none, count-split, Option-cases, Bool-cases,
}
use ludora_back.World.{
  Client, RatingStatus, SessionPlayer, World, Refuses, ok, is_ok, has, count_unique,
}
use ludora_back.SessionPlayers.{
  is_player, update_rating_status, update_player, is_downgrade, is_rated,
}

-- Not rated, pending, refused, validated.
abbrev pub rank : Option RatingStatus → ℕ
rank none = 0
rank (some RatingStatus.pending) = 1
rank (some RatingStatus.refused) = 2
rank (some RatingStatus.validated) = 3

-- The user's row in the session has come at least so far.
abbrev pub has_reached : ℕ → ℕ → ℕ → SessionPlayer → Bool
has_reached k s u p = is_player s u p && leb k (rank p.rating_status)

abbrev rated : RatingStatus → SessionPlayer → SessionPlayer
rated status p = record p { rating_status = some status }

module _ ⦃client : Client⦄ where
  module _ (u s : ℕ) (status : RatingStatus) (w : World) where
    abbrev found : Option SessionPlayer
    found = client.find_first (is_player s u) w.session_players

    rating_missing : found ≡ none → Refuses w (update_rating_status u s status w)
    unfolding update_rating_status
    rating_missing e = ground arith

    rating_found :
        (e : SessionPlayer)
        → found ≡ some e
        → (leb (rank (some status)) (rank e.rating_status) ≡ true)
            × ((update_rating_status u s status w).1 ≡ w)
            × (is_ok (update_rating_status u s status w).0 ≡ is_rated e.rating_status status)
          ⊎ (rank e.rating_status < rank (some status))
            × ((update_rating_status u s status w).1.session_players
                ≡ client.update_many (is_player s u) (rated status) w.session_players)
            × ((update_rating_status u s status w).0 ≡ ok tt)
    unfolding update_rating_status update_player is_downgrade
    rating_found e f = ground (
      arith,
      client.find_first-mem (is_player s u) w.session_players e (is_player s u) f,
      client.find_first-some (is_player s u) w.session_players e f,
    )

    -- Raising the rows of the user, who has one, loses none that had come far.
    raised :
        (e : SessionPlayer)
        → found ≡ some e
        → count (is_player s u) w.session_players ≤ 1
        → rank e.rating_status < rank (some status)
        → (k s' u' : ℕ)
        → count (has_reached k s' u') w.session_players
          ≤ count
              (has_reached k s' u')
              (client.update_many (is_player s u) (rated status) w.session_players)
    raised e f once up k s' u' =
        let own = is_player s u in
        let far = has_reached k s' u' in
        let t = w.session_players in
        let less : count (λ p. own p && far p) t ≤ count (λ p. own p && far (rated status p)) t =
          elim (Bool-cases (leb k (rank (some status)))) [
            | inl low ↦
                count-le (λ p. own p && far p) (λ p. own p && far (rated status p)) t
                  (λ p h. ground arith)
            | inr high ↦ ground (
              arith,
              count-split (λ p. own p && far p) own t,
              count-le (λ p. own p && far p) (λ p. (own p && far p) && own p) t
                  (λ p h. ground arith),
              client.find_first-mem own t e (λ p. not (own p && far p) && own p) f,
              client.find_first-some own t e f,
            )
          ] in
        omega
          (arith, less, client.count-update_many own (rated status) far t, count-split own far t)

    -- Where nobody has two places in a session, no call takes a rating back: every
    -- player's row that had come to some status has come at least so far after the call, whether it returns or throws.
    pub update_rating_status_monotone :
        ((s' u' : ℕ) → count (is_player s' u') w.session_players ≤ 1)
        → (k s' u' : ℕ)
        → count (has_reached k s' u') w.session_players
          ≤ count (has_reached k s' u') (update_rating_status u s status w).1.session_players
    update_rating_status_monotone once k s' u' = elim (Option-cases found) [
      | inl e ↦ rw ((rating_missing e).1) (omega arith)
      | inr (e, f) ↦ elim (rating_found e f) [
        | inl (far, same, value) ↦ rw same (omega arith)
        | inr (up, table, done) ↦ rw table (raised e f (once s u) up k s' u')
      ]
    ]

    -- Where nobody has two places in a session, a call succeeds exactly for a player
    -- of the session whose rating has not passed the status, and then the player's row has exactly that status.
    pub update_rating_status_outcome :
        ((s' u' : ℕ) → count (is_player s' u') w.session_players ≤ 1)
        → let (r, w') = update_rating_status u s status w in
          (is_ok r
            ≡ has
                (λ p. is_player s u p && leb (rank p.rating_status) (rank (some status)))
                w.session_players)
          × (is_ok r ≡ true
              → count (λ p. is_player s u p && is_rated p.rating_status status) w'.session_players
                ≡ 1)
    update_rating_status_outcome once = elim (Option-cases found) [
      | inl e ↦ (
        ground (
          arith,
          rating_missing e,
          client.find_first-none own w.session_players e,
          count-le (λ p. own p && reachable p) own w.session_players (λ p h. ground arith),
        ),
        λ h. ground (arith, rating_missing e),
      )
      | inr (e, f) ↦ elim (rating_found e f) [
        | inl (far, same, value) ↦ (
          ground (arith, count_unique own reachable w.session_players e f (once s u)),
          λ h.
              rw same (ground (arith, count_unique own at_status w.session_players e f (once s u))),
        )
        | inr (up, table, done) ↦ (
          ground (arith, count_unique own reachable w.session_players e f (once s u)),
          λ h. rw table (set_count e f),
        )
      ]
    ]
      where
        own : SessionPlayer → Bool
        own = is_player s u

        reachable : SessionPlayer → Bool
        reachable p = leb (rank p.rating_status) (rank (some status))

        at_status : SessionPlayer → Bool
        at_status p = is_rated p.rating_status status

        set_count :
            (e : SessionPlayer)
            → found ≡ some e
            → count
                (λ p. is_player s u p && is_rated p.rating_status status)
                (client.update_many (is_player s u) (rated status) w.session_players)
              ≡ 1
        set_count e f = omega (
          arith,
          client.count-update_many own (rated status) (λ p. own p && at_status p) w.session_players,
          count-ext (λ p. own p && (own p && at_status (rated status p))) own w.session_players
              (λ p. ground arith),
          count-none (λ p. not (own p) && (own p && at_status p)) w.session_players
              (λ p. ground arith),
          once s u,
          client.find_first-mem own w.session_players e own f
              (client.find_first-some own w.session_players e f),
        )
