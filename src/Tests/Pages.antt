-- ===== src/Tests/Pages.antt =====
-- Pages of short lists.
use ludora_back.Prelude.{
  ℕ, ◌≡◌, ◌≤◌, true, false, elem, Option, none, List, [], ◌∷◌, length, take, arith, refl,
}
use ludora_back.World.{Message, MessageStatus, MessageType}
use ludora_back.Pagination.{drop, filter, walk, walk_back, offset_page, uid_page, get_messages}
use ludora_back.Pagination.Offsets.{offset_page-reads_all}
use ludora_back.Pagination.Cursors.{uid_page-loses}
use ludora_back.Pagination.Keysets.{get_messages-reads_all}
use mathlib.Core.List.{reverse}

abbrev rows : List ℕ
rows = 1 ∷ 2 ∷ 3 ∷ 4 ∷ 5 ∷ []

abbrev fetch_at : (offset limit : ℕ) → List ℕ
fetch_at o n = take n (drop o rows)

offset_page-reads_all_example :
    (walk (offset_page fetch_at 2) 6 none ≡ rows)
    × ((c : Option ℕ) → length (offset_page fetch_at 2 c).items ≤ 2)
offset_page-reads_all_example = offset_page-reads_all fetch_at rows 2 (λ o n. refl) (omega arith)

uid_page-loses_example :
    (elem 3 rows ≡ true)
    × (elem 3 (walk (uid_page (λ p n. take n (filter p rows)) 2) 9 none) ≡ false)
unfolding uid_page
uid_page-loses_example =
    uid_page-loses (λ p n. take n (filter p rows)) rows 2 3 9 (λ p n. refl) refl (omega arith)

abbrev message : ℕ → ℕ → Message
message uid at = record {
  uid = uid;
  conversation_uid = 7;
  sender_uid = none;
  content = "Hi";
  global_status = MessageStatus.sent;
  kind = MessageType.text;
  created_at = at;
}

-- Two of them at the same time.
abbrev talk : List Message
talk = message 4 30 ∷ message 3 20 ∷ message 2 20 ∷ message 1 10 ∷ []

get_messages-reads_all_example :
    walk_back (get_messages (λ p n. take n (filter p talk)) 2) 5 none ≡ reverse talk
get_messages-reads_all_example =
    get_messages-reads_all (λ p n. take n (filter p talk)) talk 2 (λ p n. refl)
      ((refl, (refl, (refl, tt))), ((refl, (refl, tt)), ((refl, tt), (tt, tt)))) (omega arith)
