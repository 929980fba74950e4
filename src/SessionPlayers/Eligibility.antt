-- ===== src/SessionPlayers/Eligibility.antt =====
-- What the check before joining a session has established when it passes.
use ludora_back.Prelude.{
  ℕ, ◌≡◌, ◌<◌, ◌↔◌, inl, inr, Bool, true, false, not, ◌&&◌, ◌==◌, ltb, Option, none, some, List, [],
  ◌∷◌, map, arith, count, count-le, count-none, count-le-add, holds, length, Option-cases, ==_iff,
  refl, ap, ◌∙◌,
}
use ludora_back.World.{
  Client, Session, SessionPlayer, SessionVisibility, World, ok, is_ok, is_none, find_first-eq_none,
  has, UserBlock,
}
use ludora_back.Users.{is_block_between}
use ludora_back.Friends.{is_accepted}
use ludora_back.SessionPlayers.{
  is_player, in_session, in_team, is_team_of, is_in, is_block_with, has_null, verify_friendship,
  verify_blocks, verify_player_eligibility_before_join,
}

-- The ids of the players hold each player.
is_in-map :
    (u : ℕ) (ps : List SessionPlayer)
    → 0 < count (λ p. holds p.user_uid u) ps
    → is_in (map (λ (p : SessionPlayer). p.user_uid) ps) u ≡ true
is_in-map u [] h = absurd (omega arith)
is_in-map u (p ∷ ps) h = ground (arith, is_in-map u ps)

is_in-length : (u : ℕ) (os : List (Option ℕ)) → is_in os u ≡ true → 0 < length os
is_in-length u [] h = cc
is_in-length u (o ∷ os) h = omega arith

count-is_in :
    (u : ℕ) (ps : List SessionPlayer)
    → is_in (map (λ (p : SessionPlayer). p.user_uid) ps) u ≡ true
    → 0 < count (λ p. holds p.user_uid u) ps
count-is_in u [] h = cc
count-is_in u (p ∷ ps) h = ground (arith, count-is_in u ps)

is_in-eq :
    (os : List (Option ℕ)) (q x : ℕ) → is_in os q ≡ true → (x == q) ≡ true → is_in os x ≡ true
is_in-eq os q x h e = rw (((==_iff x q).0) e) h

is_block_with-intro :
    (os : List (Option ℕ)) (q u : ℕ)
    → is_in os q ≡ true
    → (k : UserBlock) → is_block_between q u k ≡ true
    → is_block_with os u k ≡ true
is_block_with-intro os q u h k e =
    ground (arith, is_in-eq os q k.blocked_uid h, is_in-eq os q k.blocker_uid h)

none_blocked :
    (os : List (Option ℕ)) (u : ℕ) (t : List UserBlock)
    → ((q : ℕ) → is_in os q ≡ true → count (is_block_between q u) t ≡ 0)
    → count (is_block_with os u) t ≡ 0
none_blocked [] u t h = count-none (is_block_with [] u) t λ k. ground arith
none_blocked (none ∷ os) u t h = none_blocked os u t h
none_blocked (some q ∷ os) u t h = omega (
  arith,
  h q (ground arith),
  none_blocked os u t (λ x i. h x (ground arith)),
  count-le-add (is_block_with (some q ∷ os) u) (is_block_between q u) (is_block_with os u) t
      (λ k i. ground arith),
)

none_listed :
    (os : List (Option ℕ)) (u : ℕ) (t : List UserBlock)
    → length os ≡ 0
    → count (is_block_with os u) t ≡ 0
none_listed [] u t h = none_blocked [] u t (λ q i. cc)
none_listed (o ∷ os) u t h = absurd (omega arith)

-- The session is public, or the user and its creator are friends.
abbrev pub is_befriended : ℕ → Session → World → Bool
is_befriended u session w = elim session.visibility [
  | SessionVisibility.public ↦ true
  | SessionVisibility.private ↦ elim session.creator_uid [
    | none ↦ false
    | some c ↦ has (is_accepted u c) w.friends
  ]
]

-- A place of the session whose user was deleted.
abbrev pub is_left : ℕ → SessionPlayer → Bool
is_left s p = p.session_uid == s && is_none p.user_uid

-- What a user needs to join a team of a session: the creator's friendship if the session is
-- private, a team of this session with room, no place in it yet, no place there that a deleted
-- user has left, and no block with a player.
pub record IsEligible (u t : ℕ) (session : Session) (w : World) : Type 0 where
  pub befriended : is_befriended u session w ≡ true
  pub team_known : 0 < count (is_team_of session.uid t) w.session_teams
  pub room : count (in_team t) w.session_players < session.max_players_per_team
  pub absent : count (is_player session.uid u) w.session_players ≡ 0
  pub no_deleted : count (is_left session.uid) w.session_players ≡ 0
  pub unblocked :
      (q : ℕ)
      → 0 < count (is_player session.uid q) w.session_players
      → count (is_block_between q u) w.user_blocks ≡ 0

has_null-map :
    (ps : List SessionPlayer)
    → has_null (map (λ (p : SessionPlayer). p.user_uid) ps) ≡ has (λ p. is_none p.user_uid) ps
has_null-map [] = refl
has_null-map (p ∷ ps) = ground (arith, has_null-map ps)

has_null-length : (os : List (Option ℕ)) → has_null os ≡ true → 0 < length os
has_null-length [] h = cc
has_null-length (o ∷ os) h = omega arith

module _ ⦃client : Client⦄ where
  friendship_lem :
      (u : ℕ) (session : Session) (w : World)
      → ((verify_friendship u session w).1 ≡ w)
        × (is_ok (verify_friendship u session w).0 ≡ is_befriended u session w)
  unfolding verify_friendship
  friendship_lem u session w = elim (Option-cases session.creator_uid) [
    | inl missing ↦ ground arith
    | inr (c, e) ↦ ground (
      arith,
      client.find_first-none (is_accepted u c) w.friends,
      find_first-eq_none (is_accepted u c) w.friends,
    )
  ]

  abbrev uids : ℕ → World → List (Option ℕ)
  uids s w =
      map (λ (p : SessionPlayer). p.user_uid) (client.find_many (in_session s) w.session_players)

  left_listed : (s : ℕ) (w : World) → has_null (uids s w) ≡ has (is_left s) w.session_players
  left_listed s w =
      has_null-map (client.find_many (in_session s) w.session_players)
      ∙ ap (λ n. ltb 0 n)
          (client.count-find_many (in_session s) (λ p. is_none p.user_uid) w.session_players)

  blocks_lem :
      (u : ℕ) (session : Session) (w : World)
      → ((verify_blocks u session w).1 ≡ w)
        × (is_ok (verify_blocks u session w).0 ≡ (
            not (has (is_left session.uid) w.session_players)
            && not (has (is_block_with (uids session.uid w) u) w.user_blocks)))
  unfolding verify_blocks
  blocks_lem u session w =
      let p = is_block_with (uids session.uid w) u in
      ground (
        arith,
        client.find_first-none p w.user_blocks,
        find_first-eq_none p w.user_blocks,
        none_listed (uids session.uid w) u w.user_blocks,
        left_listed session.uid w,
        has_null-length (uids session.uid w),
      )

  -- A user plays in the session exactly if the list of players that was read holds the user.
  uids_holds :
      (s q : ℕ) (w : World)
      → count (λ p. holds p.user_uid q) (client.find_many (in_session s) w.session_players)
        ≡ count (is_player s q) w.session_players
  uids_holds s q w =
      client.count-find_many (in_session s) (λ p. holds p.user_uid q) w.session_players

  -- The check as one test: its six parts, in the order of the code.
  abbrev is_eligible : ℕ → ℕ → Session → World → Bool
  is_eligible u t session w =
      is_befriended u session w
      && has (is_team_of session.uid t) w.session_teams
      && ltb (count (in_team t) w.session_players) session.max_players_per_team
      && not (has (is_player session.uid u) w.session_players)
      && not (has (is_left session.uid) w.session_players)
      && not (has (is_block_with (uids session.uid w) u) w.user_blocks)

  eligible_lem :
      (u t : ℕ) (session : Session) (w : World)
      → ((verify_player_eligibility_before_join u t session w).1 ≡ w)
        × (is_ok (verify_player_eligibility_before_join u t session w).0
            ≡ is_eligible u t session w)
  unfolding verify_player_eligibility_before_join
  eligible_lem u t session w = ground (
    arith,
    friendship_lem u session w,
    blocks_lem u session w,
    client.find_first-none (is_team_of session.uid t) w.session_teams,
    find_first-eq_none (is_team_of session.uid t) w.session_teams,
    client.find_first-none (is_player session.uid u) w.session_players,
    find_first-eq_none (is_player session.uid u) w.session_players,
  )

  unblocked_to :
      (u : ℕ) (session : Session) (w : World)
      → count (is_block_with (uids session.uid w) u) w.user_blocks ≡ 0
      → (q : ℕ) → 0 < count (is_player session.uid q) w.session_players
      → count (is_block_between q u) w.user_blocks ≡ 0
  unblocked_to u session w h q plays =
      let here =
        is_in-map q (client.find_many (in_session session.uid) w.session_players)
          (omega (arith, uids_holds session.uid q w)) in
      omega (
        arith,
        h,
        count-le (is_block_between q u) (is_block_with (uids session.uid w) u) w.user_blocks
            (is_block_with-intro (uids session.uid w) q u here),
      )

  unblocked_from :
      (u : ℕ) (session : Session) (w : World)
      → ((q : ℕ)
          → 0 < count (is_player session.uid q) w.session_players
          → count (is_block_between q u) w.user_blocks ≡ 0)
      → count (is_block_with (uids session.uid w) u) w.user_blocks ≡ 0
  unblocked_from u session w h = none_blocked (uids session.uid w) u w.user_blocks λ q i. h q (
      omega (
        arith,
        uids_holds session.uid q w,
        count-is_in q (client.find_many (in_session session.uid) w.session_players) i,
      ))

  -- The check before joining writes nothing, and passes exactly for the eligible: who may enter a
  -- private session, picks a team of the session with room, does not play in it yet, and has no
  -- block with one of its players, where none of the session's places was left by a deleted user.
  pub verify_player_eligibility_before_join_iff :
      (u t : ℕ) (session : Session) (w : World)
      → ((verify_player_eligibility_before_join u t session w).1 ≡ w)
        × (((verify_player_eligibility_before_join u t session w).0 ≡ ok tt)
            ↔ IsEligible u t session w)
  verify_player_eligibility_before_join_iff u t session w =
      let (same, value) = eligible_lem u t session w in
      (
        same,
        (
          λ h. record {
            befriended = ground arith;
            team_known = ground arith;
            room = ground arith;
            absent = ground arith;
            no_deleted = ground arith;
            unblocked = unblocked_to u session w (ground arith);
          },
          λ e. ground (arith, e.no_deleted, unblocked_from u session w e.unblocked),
        ),
      )
