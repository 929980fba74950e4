-- ===== src/Prelude/Count.antt =====
-- How many rows of a table meet a test. A table's content up to the order of its rows is the
-- count of each test.
use Prim.Native.Nat.{ℕ, ◌+◌, ◌≤◌}
use mathlib.Core.Path.{◌≡◌, refl, ap}
use mathlib.Core.Logic.{◌⊎◌}
use mathlib.Core.Bool.{Bool, true, false, not, ◌&&◌}
use mathlib.Core.List.{List, [], ◌∷◌, ◌++◌}
use native.Mathlib.Omega.{arith}
use mathlib.Core.List.{map}
use ludora_back.Prelude.Tests.{◌==◌, ==_iff, elem, ltb}

abbrev pub bit : Bool → ℕ
bit true = 1
bit false = 0

module _ {A : Type 0} where
  abbrev pub count : (A → Bool) → List A → ℕ
  count p [] = 0
  count p (x ∷ xs) = bit (p x) + count p xs

  pub count-ext : (p q : A → Bool) (xs : List A) → ((x : A) → p x ≡ q x) → count p xs ≡ count q xs
  count-ext p q [] h = refl
  count-ext p q (x ∷ xs) h = omega (arith, ap bit (h x), count-ext p q xs h)

  pub count-le :
      (p q : A → Bool) (xs : List A) → ((x : A) → p x ≡ true → q x ≡ true) → count p xs ≤ count q xs
  count-le p q [] h = omega arith
  count-le p q (x ∷ xs) h = ground (arith, h x, count-le p q xs h)

  -- The rows that meet `q` are those that meet `p` too, and the others.
  pub count-split :
      (p q : A → Bool) (xs : List A)
      → count q xs ≡ count (λ x. p x && q x) xs + count (λ x. not (p x) && q x) xs
  count-split p q [] = omega arith
  count-split p q (x ∷ xs) = ground (arith, count-split p q xs)

  pub count-none : (p : A → Bool) (xs : List A) → ((x : A) → p x ≡ false) → count p xs ≡ 0
  count-none p [] h = refl
  count-none p (x ∷ xs) h = omega (arith, ap bit (h x), count-none p xs h)

  pub count-append : (p : A → Bool) (xs ys : List A) → count p (xs ++ ys) ≡ count p xs + count p ys
  count-append p [] ys = omega arith
  count-append p (x ∷ xs) ys = omega (arith, count-append p xs ys)

  -- A test that only rows of two other tests meet.
  pub count-le-add :
      (p q r : A → Bool) (xs : List A)
      → ((x : A) → p x ≡ true → (q x ≡ true) ⊎ (r x ≡ true))
      → count p xs ≤ count q xs + count r xs
  count-le-add p q r [] h = omega arith
  count-le-add p q r (x ∷ xs) h = ground (arith, h x, count-le-add p q r xs h)

  -- A test that splits into two tests that exclude each other.
  pub count-add :
      (p q r : A → Bool) (xs : List A)
      → ((x : A) → bit (p x) ≡ bit (q x) + bit (r x))
      → count p xs ≡ count q xs + count r xs
  count-add p q r [] h = omega arith
  count-add p q r (x ∷ xs) h = omega (arith, h x, count-add p q r xs h)

  pub elem-map :
      (x : ℕ) (f : A → ℕ) (xs : List A) → elem x (map f xs) ≡ ltb 0 (count (λ a. f a == x) xs)
  elem-map x f [] = refl
  elem-map x f (a ∷ xs) = ground (arith, elem-map x f xs, ==_iff x (f a), ==_iff (f a) x)

-- What a test counts of the images.
pub count-map :
    {A B : Type 0} (q : B → Bool) (f : A → B) (xs : List A)
    → count q (map f xs) ≡ count (λ a. q (f a)) xs
count-map q f [] = refl
count-map q f (a ∷ xs) = omega (arith, count-map q f xs)
