-- ===== src/World/PrismaClient.antt =====
-- The Prisma client, which is not part of the repository: a parameter of every service. A table is
-- the list of its rows, in an order that nothing may rely on. The laws are what Prisma documents of
-- each operation, said by the number of rows that meet a test before and after it.
use ludora_back.Prelude.{
  ◌+◌, ◌<◌, ◌≡◌, refl, Bool, true, not, ◌&&◌, Option, none, some, List, [], ◌∷◌, arith, bit, count,
  if◌then◌else◌,
}

pub record Client : Type 1 where
  pub find_first : {R : Type 0} → (R → Bool) → List R → Option R
  pub find_many : {R : Type 0} → (R → Bool) → List R → List R
  pub insert : {R : Type 0} → R → List R → List R
  pub update_many : {R : Type 0} → (R → Bool) → (R → R) → List R → List R
  pub delete_many : {R : Type 0} → (R → Bool) → List R → List R
  -- A row is found if there is one, it meets the test, and it is a row of the table.
  pub find_first-none :
      {R : Type 0} (p : R → Bool) (t : List R) → find_first p t ≡ none → count p t ≡ 0
  pub find_first-some :
      {R : Type 0} (p : R → Bool) (t : List R) (r : R) → find_first p t ≡ some r → p r ≡ true
  pub find_first-mem :
      {R : Type 0} (p : R → Bool) (t : List R) (r : R) (q : R → Bool)
      → find_first p t ≡ some r
      → q r ≡ true
      → 0 < count q t
  -- Each operation keeps, adds, changes or drops exactly the rows that it names.
  pub count-find_many :
      {R : Type 0} (p q : R → Bool) (t : List R)
      → count q (find_many p t) ≡ count (λ r. p r && q r) t
  pub count-insert :
      {R : Type 0} (r : R) (q : R → Bool) (t : List R)
      → count q (insert r t) ≡ bit (q r) + count q t
  pub count-update_many :
      {R : Type 0} (p : R → Bool) (f : R → R) (q : R → Bool) (t : List R)
      → count q (update_many p f t)
        ≡ count (λ r. p r && q (f r)) t + count (λ r. not (p r) && q r) t
  pub count-delete_many :
      {R : Type 0} (p q : R → Bool) (t : List R)
      → count q (delete_many p t) ≡ count (λ r. not (p r) && q r) t

-- A client over plain lists, oldest row last, which meets the laws.
module _ {R : Type 0} where
  abbrev pub list_first : (R → Bool) → List R → Option R
  list_first p [] = none
  list_first p (r ∷ t) = if p r then some r else list_first p t

  abbrev pub list_many : (R → Bool) → List R → List R
  list_many p [] = []
  list_many p (r ∷ t) = let rest = list_many p t in if p r then r ∷ rest else rest

  abbrev pub list_update : (R → Bool) → (R → R) → List R → List R
  list_update p f [] = []
  list_update p f (r ∷ t) = (if p r then f r else r) ∷ list_update p f t

  abbrev pub list_delete : (R → Bool) → List R → List R
  list_delete p [] = []
  list_delete p (r ∷ t) = let rest = list_delete p t in if p r then rest else r ∷ rest

  pub list_first-none : (p : R → Bool) (t : List R) → list_first p t ≡ none → count p t ≡ 0
  list_first-none p [] h = refl
  list_first-none p (r ∷ t) h = ground (arith, list_first-none p t)

  pub list_first-some : (p : R → Bool) (t : List R) (r : R) → list_first p t ≡ some r → p r ≡ true
  list_first-some p [] r h = cc
  list_first-some p (x ∷ t) r h = ground (arith, list_first-some p t r)

  pub list_first-mem :
      (p : R → Bool) (t : List R) (r : R) (q : R → Bool)
      → list_first p t ≡ some r
      → q r ≡ true
      → 0 < count q t
  list_first-mem p [] r q h e = cc
  list_first-mem p (x ∷ t) r q h e = ground (arith, list_first-mem p t r q)

  pub count-list_many :
      (p q : R → Bool) (t : List R) → count q (list_many p t) ≡ count (λ r. p r && q r) t
  count-list_many p q [] = refl
  count-list_many p q (r ∷ t) = ground (arith, count-list_many p q t)

  pub count-list_update :
      (p : R → Bool) (f : R → R) (q : R → Bool) (t : List R)
      → count q (list_update p f t)
        ≡ count (λ r. p r && q (f r)) t + count (λ r. not (p r) && q r) t
  count-list_update p f q [] = omega arith
  count-list_update p f q (r ∷ t) = ground (arith, count-list_update p f q t)

  pub count-list_delete :
      (p q : R → Bool) (t : List R) → count q (list_delete p t) ≡ count (λ r. not (p r) && q r) t
  count-list_delete p q [] = refl
  count-list_delete p q (r ∷ t) = ground (arith, count-list_delete p q t)

instance abbrev pub list_client : Client
list_client = record {
  find_first = λ p t. list_first p t;
  find_many = λ p t. list_many p t;
  insert = λ r t. r ∷ t;
  update_many = λ p f t. list_update p f t;
  delete_many = λ p t. list_delete p t;
  find_first-none = λ p t h. list_first-none p t h;
  find_first-some = λ p t r h. list_first-some p t r h;
  find_first-mem = λ p t r q h e. list_first-mem p t r q h e;
  count-find_many = λ p q t. count-list_many p q t;
  count-insert = λ r q t. refl;
  count-update_many = λ p f q t. count-list_update p f q t;
  count-delete_many = λ p q t. count-list_delete p q t;
}
