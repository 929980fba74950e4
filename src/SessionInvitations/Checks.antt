-- ===== src/SessionInvitations/Checks.antt =====
-- Which of the receivers named by the sender are invited.
use ludora_back.Prelude.{
  ℕ, ◌+◌, ◌≡◌, ap, ◌≤◌, inl, inr, Bool, false, not, ◌&&◌, ◌||◌, ◌==◌, List, [], ◌∷◌, ◌++◌, arith,
  count, bit, elem, Bool-cases, refl, ==_iff, if◌then◌else◌,
}
use ludora_back.World.{Client, World, ok, is_some, has, find_first-eq_none}
use ludora_back.Users.{find_user, is_block_between}
use ludora_back.SessionPlayers.{is_player}
use ludora_back.SessionInvitations.{
  is_key, is_standing, add, check_valid_uid, check_valid_uids,
  check_valid_uid_before_sending_invitations,
}

elem-append_one : (x u : ℕ) (xs : List ℕ) → elem x (xs ++ u ∷ []) ≡ (elem x xs || x == u)
elem-append_one x u [] = ground arith
elem-append_one x u (y ∷ ys) = ground (arith, elem-append_one x u ys)

elem-add : (x u : ℕ) (xs : List ℕ) → elem x (add u xs) ≡ (elem x xs || x == u)
elem-add x u xs = elim (Bool-cases (elem u xs)) [
  | inl old ↦ elim (Bool-cases (x == u)) [
    | inl same ↦ ground (arith, old)
    | inr apart ↦ ground arith
  ]
  | inr new ↦ rw new (elem-append_one x u xs)
]

-- How often an id is listed.
abbrev pub times : ℕ → List ℕ → ℕ
times x xs = count (λ y. x == y) xs

times-elem : (x : ℕ) (xs : List ℕ) → elem x xs ≡ false → times x xs ≡ 0
times-elem x [] h = refl
times-elem x (y ∷ ys) h = ground (arith, times-elem x ys)

times-append_one : (x u : ℕ) (xs : List ℕ) → times x (xs ++ u ∷ []) ≡ times x xs + bit (x == u)
times-append_one x u [] = ground arith
times-append_one x u (y ∷ ys) = ground (arith, times-append_one x u ys)

times-add : (x u : ℕ) (xs : List ℕ) → times x xs ≤ 1 → times x (add u xs) ≤ 1
times-add x u xs h = elim (Bool-cases (elem u xs)) [
  | inl old ↦ rw old h
  | inr new ↦ rw new (ground (arith, times-append_one x u xs, times-elem x xs))
]

module _ ⦃client : Client⦄ where
  module _ (a s : ℕ) (w : World) where
    -- Another user, known, with no block, no place in the session, and no standing invitation of
    -- this sender.
    abbrev pub may_invite : ℕ → Bool
    may_invite b =
        not (a == b)
        && is_some (find_user b w)
        && not (has (is_block_between b a) w.user_blocks)
        && not (has (is_player s b) w.session_players)
        && not (is_standing (client.find_first (is_key s a b) w.session_invitations))

    check_valid_uid_lem : (b : ℕ) → check_valid_uid a s b w ≡ (ok (may_invite b), w)
    unfolding check_valid_uid
    check_valid_uid_lem b = ground (
      arith,
      find_first-eq_none (is_block_between b a) w.user_blocks,
      client.find_first-none (is_block_between b a) w.user_blocks,
      find_first-eq_none (is_player s b) w.session_players,
      client.find_first-none (is_player s b) w.session_players,
    )

    -- The ids in order, each once.
    abbrev pub chosen : List ℕ → List ℕ → List ℕ
    chosen [] acc = acc
    chosen (b ∷ bs) acc = chosen bs (if may_invite b then add b acc else acc)

    pub check_valid_uids_lem :
        (bs acc : List ℕ) → check_valid_uids a s bs acc w ≡ (ok (chosen bs acc), w)
    unfolding check_valid_uids
    check_valid_uids_lem [] acc = refl
    check_valid_uids_lem (b ∷ bs) acc = ground (
      arith,
      check_valid_uid_lem b,
      check_valid_uids_lem bs (if may_invite b then add b acc else acc),
    )

    elem-chosen :
        (x : ℕ) (bs acc : List ℕ)
        → elem x (chosen bs acc) ≡ (elem x acc || (elem x bs && may_invite x))
    elem-chosen x [] acc = ground arith
    elem-chosen x (b ∷ bs) acc =
        let more = if may_invite b then add b acc else acc in
        elim (Bool-cases (x == b)) [
          | inl same ↦
              ground (
                arith,
                elem-chosen x bs more,
                elem-add x b acc,
                ap may_invite ((==_iff x b).0 same),
              )
          | inr apart ↦ ground (arith, elem-chosen x bs more, elem-add x b acc)
        ]

    times-chosen : (x : ℕ) (bs acc : List ℕ) → times x acc ≤ 1 → times x (chosen bs acc) ≤ 1
    times-chosen x [] acc h = h
    times-chosen x (b ∷ bs) acc h =
        times-chosen x bs (if may_invite b then add b acc else acc)
          (ground (arith, times-add x b acc h))

    -- The check writes nothing, and its result lists exactly those of the given receivers who are
    -- another user, known, without a block with the sender, without a place in the session and
    -- without an open or accepted invitation of this sender, and each of them once.
    pub check_valid_uid_before_sending_invitations_outcome :
        (receivers : List ℕ)
        → (valid : List ℕ) × (check_valid_uid_before_sending_invitations a s receivers w
            ≡ (ok valid, w))
          × ((x : ℕ) → elem x valid ≡ (elem x receivers && may_invite x))
          × ((x : ℕ) → times x valid ≤ 1)
    unfolding check_valid_uid_before_sending_invitations
    check_valid_uid_before_sending_invitations_outcome receivers = (
      chosen receivers [],
      check_valid_uids_lem receivers [],
      λ x. elem-chosen x receivers [],
      λ x. times-chosen x receivers [] (omega arith),
    )
