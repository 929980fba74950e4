-- ===== src/Pagination/Lists.antt =====
-- Taking and dropping rows.
use ludora_back.Prelude.{
  ℕ, suc, zero, ◌+◌, ◌≡◌, ◌≤◌, ◌<◌, ltb, List, [], ◌∷◌, ◌++◌, length, take, arith, refl, sym, ap,
  ◌∙◌,
}
use ludora_back.Pagination.{drop}

module _ {A : Type 0} where
  pub take-drop : (n : ℕ) (xs : List A) → take n xs ++ drop n xs ≡ xs
  take-drop zero xs = refl
  take-drop (suc n) [] = refl
  take-drop (suc n) (x ∷ xs) = ap (λ ys. x ∷ ys) (take-drop n xs)

  pub append-nil : (xs : List A) → xs ++ [] ≡ xs
  append-nil [] = refl
  append-nil (x ∷ xs) = ap (λ ys. x ∷ ys) (append-nil xs)

  pub take-all : (n : ℕ) (xs : List A) → length xs ≤ n → take n xs ≡ xs
  take-all zero [] h = refl
  take-all zero (x ∷ xs) h = absurd (omega (arith, h))
  take-all (suc n) [] h = refl
  take-all (suc n) (x ∷ xs) h = ap (λ ys. x ∷ ys) (take-all n xs (omega (arith, h)))

  pub take-take : (n : ℕ) (xs : List A) → take n (take (suc n) xs) ≡ take n xs
  take-take zero xs = refl
  take-take (suc n) [] = refl
  take-take (suc n) (x ∷ xs) = ap (λ ys. x ∷ ys) (take-take n xs)

  pub length-take : (n : ℕ) (xs : List A) → ltb n (length (take (suc n) xs)) ≡ ltb n (length xs)
  length-take zero [] = refl
  length-take zero (x ∷ xs) = ground arith
  length-take (suc n) [] = refl
  length-take (suc n) (x ∷ xs) = ground (arith, length-take n xs)

  pub length-take-le : (n : ℕ) (xs : List A) → length (take n xs) ≤ n
  length-take-le zero xs = omega arith
  length-take-le (suc n) [] = omega arith
  length-take-le (suc n) (x ∷ xs) = omega (arith, length-take-le n xs)

  pub drop-nil : (n : ℕ) → drop {A = A} n [] ≡ []
  drop-nil zero = refl
  drop-nil (suc n) = refl

  pub drop-drop : (m n : ℕ) (xs : List A) → drop (m + n) xs ≡ drop n (drop m xs)
  drop-drop zero n xs = let e : 0 + n ≡ n = omega arith in ap (λ k. drop k xs) e
  drop-drop (suc m) n [] = drop-nil (suc m + n) ∙ sym (drop-nil n)
  drop-drop (suc m) n (x ∷ xs) =
      let e : suc m + n ≡ suc (m + n) = omega arith in
      ap (λ k. drop k (x ∷ xs)) e ∙ drop-drop m n xs

  -- A page that is left takes at least one row with it.
  pub length-drop :
      (n m : ℕ) (xs : List A) → 0 < n → 0 < length xs → length xs ≤ suc m → length (drop n xs) ≤ m
  length-drop zero m xs h k l = absurd (omega (arith, h))
  length-drop (suc n) m [] h k l = absurd (omega (arith, k))
  length-drop (suc n) m (x ∷ xs) h k l = omega (arith, l, less n xs)
    where
      less : (n : ℕ) (xs : List A) → length (drop n xs) ≤ length xs
      less zero xs = omega arith
      less (suc n) [] = omega arith
      less (suc n) (y ∷ ys) = omega (arith, less n ys)
