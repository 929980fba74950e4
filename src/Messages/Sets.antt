-- ===== src/Messages/Sets.antt =====
-- The list that `new Set` makes.
use ludora_back.Prelude.{
  ℕ, ◌≡◌, inl, inr, true, ◌==◌, ltb, List, [], ◌∷◌, elem, arith, ap, count, bit, refl, ==_iff,
  Bool-cases,
}
use ludora_back.Messages.{to_set}

-- A set lists what the list lists, each once.
elem-to_set : (x : ℕ) (xs : List ℕ) → elem x (to_set xs) ≡ elem x xs
elem-to_set x [] = refl
elem-to_set x (y ∷ ys) = elim (Bool-cases (elem y (to_set ys))) [
  | inl old ↦ ground (arith, elem-to_set x ys, same x y (to_set ys))
  | inr new ↦ ground (arith, elem-to_set x ys)
]
  where
    same : (x y : ℕ) (us : List ℕ) → (x == y) ≡ true → elem x us ≡ elem y us
    same x y us h = ap (λ (z : ℕ). elem z us) ((==_iff x y).0 h)

abbrev pub times : ℕ → List ℕ → ℕ
times x xs = count (λ y. x == y) xs

pub times-elem : (x : ℕ) (xs : List ℕ) → elem x xs ≡ ltb 0 (times x xs)
times-elem x [] = refl
times-elem x (y ∷ ys) = ground (arith, times-elem x ys)

pub times-to_set : (x : ℕ) (xs : List ℕ) → times x (to_set xs) ≡ bit (elem x xs)
times-to_set x [] = refl
times-to_set x (y ∷ ys) = elim (Bool-cases (elem y (to_set ys))) [
  | inl old ↦ ground (arith, times-to_set x ys, elem-to_set y ys, same x y ys)
  | inr new ↦ ground (arith, times-to_set x ys, elem-to_set y ys, same x y ys)
]
  where
    same : (x y : ℕ) (us : List ℕ) → (x == y) ≡ true → elem x us ≡ elem y us
    same x y us h = ap (λ (z : ℕ). elem z us) ((==_iff x y).0 h)
