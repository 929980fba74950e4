-- ===== src/Pagination.antt =====
-- The pages of the lists that the services return, and a client that follows their cursors. What a
-- query without a page would return, in its order, is a list of rows; how a query with an offset, a
-- cursor and a limit reads it is what SQL and Prisma document, and is a parameter with its law.
pub mod Lists
pub mod Offsets
pub mod Cursors
pub mod Keysets
use ludora_back.Prelude.{
  ℕ, suc, zero, ◌+◌, Bool, true, false, not, ◌&&◌, ◌||◌, ◌==◌, ltb, Option, none, some, List, [],
  ◌∷◌, ◌++◌, length, take, if◌then◌else◌,
}
use ludora_back.World.{Message}
use mathlib.Core.List.{reverse}

pub record Page (A C : Type 0) : Type 0 where
  pub items : List A
  pub next_cursor : Option C

module _ {A : Type 0} where
  abbrev pub drop : ℕ → List A → List A
  drop zero xs = xs
  drop (suc n) [] = []
  drop (suc n) (x ∷ xs) = drop n xs

  abbrev pub filter : (A → Bool) → List A → List A
  filter p [] = []
  filter p (x ∷ xs) = let rest = filter p xs in if p x then x ∷ rest else rest

  -- What `pop` leaves, and what it gives.
  abbrev pub popped : List A → List A
  popped [] = []
  popped (x ∷ []) = []
  popped (x ∷ y ∷ ys) = x ∷ popped (y ∷ ys)

  abbrev pub last : List A → Option A
  last [] = none
  last (x ∷ []) = some x
  last (x ∷ y ∷ ys) = last (y ∷ ys)

-- A client that asks for pages until there is no cursor; `fuel` bounds the number of pages.
module _ {A C : Type 0} where
  abbrev pub more : (Option C → List A) → Option C → List A
  more f none = []
  more f (some c) = f (some c)

  abbrev pub walk : (Option C → Page A C) → (fuel : ℕ) → Option C → List A
  walk page zero c = []
  walk page (suc n) c = (page c).items ++ more (λ d. walk page n d) (page c).next_cursor

  -- The same where each page is older than the one before, and is put in front of it.
  abbrev pub walk_back : (Option C → Page A C) → (fuel : ℕ) → Option C → List A
  walk_back page zero c = []
  walk_back page (suc n) c = more (λ d. walk_back page n d) (page c).next_cursor ++ (page c).items

abbrev pub offset_of : Option ℕ → ℕ
offset_of none = 0
offset_of (some o) = o

-- The pages of users.service.ts and sessions.service.ts (findAll): `fetch offset take`.
module _ {A : Type 0} where
  unfoldable pub offset_page :
      (fetch : (offset take : ℕ) → List A) → (limit : ℕ) → (cursor : Option ℕ) → Page A ℕ
  offset_page fetch limit cursor =
      let rows = fetch (offset_of cursor) (suc limit) in
      if ltb limit (length rows)
      then record { items = take limit rows; next_cursor = some (offset_of cursor + limit) }
      else record { items = rows; next_cursor = none }

-- `friend.uid > cursor`
abbrev pub is_beyond : Option ℕ → ℕ → Bool
is_beyond none x = true
is_beyond (some c) x = ltb c x

-- The pages of friends.service.ts (findAllMyFriends): `fetch where take`, on the uids of the
-- friends, the smallest first. The page's last row is popped, and its uid is the next cursor.
unfoldable pub uid_page :
    (fetch : (ℕ → Bool) → (take : ℕ) → List ℕ) → (limit : ℕ) → (cursor : Option ℕ) → Page ℕ ℕ
uid_page fetch limit cursor =
    let rows = fetch (is_beyond cursor) (suc limit) in
    if ltb limit (length rows)
    then record { items = popped rows; next_cursor = last rows }
    else record { items = rows; next_cursor = none }

-- The composite cursor of the messages, and its order.
pub record Key : Type 0 where
  pub created_at : ℕ
  pub uid : ℕ

abbrev pub key_of : Message → Key
key_of m = record { created_at = m.created_at; uid = m.uid }

abbrev pub is_older : Key → Message → Bool
is_older k m = ltb m.created_at k.created_at || (m.created_at == k.created_at && ltb m.uid k.uid)

abbrev pub is_after : Option Key → Message → Bool
is_after none m = true
is_after (some k) m = is_older k m

abbrev pub key_of_last : Option Message → Option Key
key_of_last none = none
key_of_last (some m) = some (key_of m)

-- The pages of messages.service.ts (getMessages): `fetch where take`, on the messages of the
-- conversation, the latest first. A page is shown with the oldest first. A cursor stands for the
-- key that its text writes down; the event that asks to mark the messages as read is left out.
unfoldable pub get_messages :
    (fetch : (Message → Bool) → (take : ℕ) → List Message)
    → (limit : ℕ) → (cursor : Option Key) → Page Message Key
get_messages fetch limit cursor =
    let messages = fetch (is_after cursor) (suc limit) in
    let paginated = if ltb limit (length messages) then take limit messages else messages in
    record {
      items = reverse paginated;
      next_cursor = if ltb limit (length messages) then key_of_last (last paginated) else none;
    }
