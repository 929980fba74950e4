-- ===== src/Pagination/Keysets.antt =====
-- Following the composite cursors reads a conversation back to its first message.
use ludora_back.Prelude.{
  ℕ, suc, zero, ◌≡◌, ◌≤◌, ◌<◌, ◌⊎◌, inl, inr, Bool, true, false, ltb, Option, none, some, List, [],
  ◌∷◌, ◌++◌, length, take, arith, refl, sym, ap, ◌∙◌, Bool-cases,
}
use ludora_back.World.{Message}
use ludora_back.Pagination.{
  Key, key_of, key_of_last, is_older, is_after, drop, filter, last, walk_back, get_messages,
}
use ludora_back.Pagination.Lists.{take-drop, take-all, take-take, length-take, length-drop}
use mathlib.Core.List.{reverse, reverse_aux}

-- Each message of the list is older than the given one.
abbrev pub AllOlder : Message → List Message → Type 0
AllOlder m [] = Unit {0}
AllOlder m (x ∷ xs) = (is_older (key_of m) x ≡ true) × AllOlder m xs

-- The latest first, and no two with the same key.
abbrev pub IsLatestFirst : List Message → Type 0
IsLatestFirst [] = Unit {0}
IsLatestFirst (x ∷ xs) = AllOlder x xs × IsLatestFirst xs

-- An older message is not newer.
not_newer : (a b : Message) → is_older (key_of a) b ≡ true → is_older (key_of b) a ≡ false
not_newer a b h = ground arith

not_own : (a : Message) → is_older (key_of a) a ≡ false
not_own a = ground arith

filter-all :
    (m : Message) (xs : List Message) → AllOlder m xs → filter (is_older (key_of m)) xs ≡ xs
filter-all m [] h = refl
filter-all m (x ∷ xs) (h, hs) = rw h (ap (λ ys. x ∷ ys) (filter-all m xs hs))

-- What is older than a message of the list is what comes after it.
older_suffix :
    (pre : List Message) (m : Message) (post : List Message)
    → IsLatestFirst (pre ++ (m ∷ post))
    → filter (is_older (key_of m)) (pre ++ (m ∷ post)) ≡ post
older_suffix [] m post (below, sorted) = rw (not_own m) (filter-all m post below)
older_suffix (x ∷ pre) m post (below, sorted) =
    rw (not_newer x m (newer x pre m post below)) (older_suffix pre m post sorted)
  where
    newer :
        (x : Message) (pre : List Message) (m : Message) (post : List Message)
        → AllOlder x (pre ++ (m ∷ post))
        → is_older (key_of x) m ≡ true
    newer x [] m post (h, hs) = h
    newer x (y ∷ pre) m post (h, hs) = newer x pre m post hs

append_assoc : (xs ys zs : List Message) → (xs ++ ys) ++ zs ≡ xs ++ (ys ++ zs)
append_assoc [] ys zs = refl
append_assoc (x ∷ xs) ys zs = ap (λ l. x ∷ l) (append_assoc xs ys zs)

reverse_aux-append : (xs ys : List Message) → reverse_aux xs ys ≡ reverse xs ++ ys
reverse_aux-append [] ys = refl
reverse_aux-append (x ∷ xs) ys =
    reverse_aux-append xs (x ∷ ys)
    ∙ sym (append_assoc (reverse xs) (x ∷ []) ys)
    ∙ ap (λ l. l ++ ys) (sym (reverse_aux-append xs (x ∷ [])))

reverse-append : (xs ys : List Message) → reverse (xs ++ ys) ≡ reverse ys ++ reverse xs
reverse-append xs ys = reverse_aux-append_both xs ys []
  where
    reverse_aux-append_both :
        (xs ys r : List Message) → reverse_aux (xs ++ ys) r ≡ reverse ys ++ reverse_aux xs r
    reverse_aux-append_both [] ys r = reverse_aux-append ys r
    reverse_aux-append_both (x ∷ xs) ys r = reverse_aux-append_both xs ys (x ∷ r)

-- A list that is not empty ends with its last message.
split_last :
    (x : Message) (xs : List Message)
    → (front : List Message) × (m : Message) × (last (x ∷ xs) ≡ some m)
      × ((x ∷ xs) ≡ front ++ (m ∷ []))
split_last x [] = ([], x, refl, refl)
split_last x (y ∷ ys) =
    let (front, m, e, f) = split_last y ys in (x ∷ front, m, e, ap (λ l. x ∷ l) f)

module _ (fetch : (Message → Bool) → (take : ℕ) → List Message) (rows : List Message)
    (limit : ℕ) where
  -- What the query reads of the messages, the latest first.
  abbrev pub ReadsWhere : Type 0
  ReadsWhere = (p : Message → Bool) (n : ℕ) → fetch p n ≡ take n (filter p rows)

  page_cases :
      (c : Option Key) (rest : List Message)
      → ReadsWhere
      → filter (is_after c) rows ≡ rest
      → (ltb limit (length rest) ≡ true)
          × (get_messages fetch limit c ≡ record {
            items = reverse (take limit rest);
            next_cursor = key_of_last (last (take limit rest));
          })
        ⊎ (ltb limit (length rest) ≡ false)
          × (get_messages fetch limit c ≡ record { items = reverse rest; next_cursor = none })
  unfolding get_messages
  page_cases c rest reads e = elim (Bool-cases (ltb limit (length rest))) [
    | inl h ↦ inl (
      h,
      rw (reads (is_after c) (suc limit), e, length-take limit rest, h, take-take limit rest) refl,
    )
    | inr h ↦ inr (
      h,
      rw
          (
            reads (is_after c) (suc limit),
            e,
            length-take limit rest,
            h,
            take-all (suc limit) rest (ground (arith, h)),
          )
          refl,
    )
  ]

  page_last :
      (n : ℕ) (rest : List Message)
      → 0 < n
      → 0 < length rest
      → (front : List Message) × (m : Message) × (last (take n rest) ≡ some m)
        × (take n rest ≡ front ++ (m ∷ []))
  page_last zero rest h k = absurd (omega (arith, h))
  page_last (suc n) [] h k = absurd (omega (arith, k))
  page_last (suc n) (x ∷ xs) h k = split_last x (take n xs)

  -- The messages after the cursor of a page are those after the page.
  after_page :
      (pre rest front : List Message) (m : Message)
      → IsLatestFirst rows
      → rows ≡ pre ++ rest
      → take limit rest ≡ front ++ (m ∷ [])
      → filter (is_older (key_of m)) rows ≡ drop limit rest
  after_page pre rest front m sorted split page =
      let post = drop limit rest in
      let whole : rows ≡ (pre ++ front) ++ (m ∷ post) =
        split
        ∙ ap (λ l. pre ++ l)
            (sym (take-drop limit rest)
              ∙ ap (λ l. l ++ post) page
              ∙ append_assoc front (m ∷ []) post)
        ∙ sym (append_assoc pre front (m ∷ post)) in
      ap (filter (is_older (key_of m))) whole
      ∙ older_suffix (pre ++ front) m post (rw whole at sorted)

  walk_from :
      (n : ℕ) (c : Option Key) (pre rest : List Message)
      → ReadsWhere
      → IsLatestFirst rows
      → 0 < limit
      → rows ≡ pre ++ rest
      → filter (is_after c) rows ≡ rest
      → length rest ≤ n
      → walk_back (get_messages fetch limit) (suc n) c ≡ reverse rest
  walk_from zero c pre rest reads sorted positive split e enough =
      elim (page_cases c rest reads e) [
        | inr (short, p) ↦ rw p refl
        | inl (long, p) ↦ absurd (ground (arith, long, enough))
      ]
  walk_from (suc n) c pre rest reads sorted positive split e enough =
      elim (page_cases c rest reads e) [
        | inr (short, p) ↦ rw p refl
        | inl (long, p) ↦
            let (front, m, f, g) = page_last limit rest positive (ground (arith, long)) in
            let post = drop limit rest in
            let less = length-drop limit n rest positive (ground (arith, long)) enough in
            let split' =
              split
              ∙ ap (λ l. pre ++ l) (sym (take-drop limit rest))
              ∙ sym (append_assoc pre (take limit rest) post) in
            let further =
              walk_from n (some (key_of m)) (pre ++ take limit rest) post reads sorted positive
                split' (after_page pre rest front m sorted split g) less in
            rw (p, f)
              (ap (λ l. l ++ reverse (take limit rest)) further
                ∙ sym (reverse-append (take limit rest) post)
                ∙ ap (λ l. reverse l) (take-drop limit rest))
      ]

  every : (xs : List Message) → filter (is_after none) xs ≡ xs
  every [] = refl
  every (x ∷ xs) = ap (λ l. x ∷ l) (every xs)

  -- A client that follows the cursors of a conversation, and puts each page in front of those that
  -- it has, reads all messages from the first to the latest, each once, in as many pages as there
  -- are messages, and one more, at most; also where several messages have the same date.
  pub get_messages-reads_all :
      ReadsWhere
      → IsLatestFirst rows
      → 0 < limit
      → walk_back (get_messages fetch limit) (suc (length rows)) none ≡ reverse rows
  get_messages-reads_all reads sorted positive =
      walk_from (length rows) none [] rows reads sorted positive refl (every rows) (omega arith)
