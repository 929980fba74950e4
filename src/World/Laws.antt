-- ===== src/World/Laws.antt =====
-- Consequences of the client's laws that the services share.
use ludora_back.Prelude.{
  ◌≤◌, ◌<◌, ◌≡◌, inl, inr, Bool, none, some, List, arith, bit, count-ext, count, Option-cases,
  count-split, count-none, not, ◌&&◌,
}
use ludora_back.Prelude.{ℕ, ap, map, elem, elem-map, ◌==◌}
use ludora_back.World.PrismaClient.{Client}
use ludora_back.World.Monad.{has}

module _ ⦃client : Client⦄ {R : Type 0} where
  pub find_first-eq_none :
      (p : R → Bool) (t : List R) → count p t ≡ 0 → client.find_first p t ≡ none
  find_first-eq_none p t h = elim (Option-cases (client.find_first p t)) [
    | inl e ↦ e
    | inr (r, e) ↦
        absurd (omega (arith, client.find_first-mem p t r p e (client.find_first-some p t r e)))
  ]

  pub find_first-eq_some :
      (p : R → Bool) (t : List R) → 0 < count p t → (r : R) × (client.find_first p t ≡ some r)
  find_first-eq_some p t h = elim (Option-cases (client.find_first p t)) [
    | inl e ↦ absurd (omega (arith, client.find_first-none p t e))
    | inr (r, e) ↦ (r, e)
  ]

  -- No test gains rows by a deletion.
  pub count-delete_many-le :
      (p q : R → Bool) (t : List R) → count q (client.delete_many p t) ≤ count q t
  count-delete_many-le p q t = omega (arith, client.count-delete_many p q t, count-split p q t)

  pub count-delete_many_self : (p : R → Bool) (t : List R) → count p (client.delete_many p t) ≡ 0
  count-delete_many_self p t = omega (
    arith,
    client.count-delete_many p p t,
    count-none (λ r. not (p r) && p r) t (λ r. ground arith),
  )

  -- Where at most one row meets a test, the row that is found speaks for all of them.
  pub count_unique :
      (p q : R → Bool) (t : List R) (e : R)
      → client.find_first p t ≡ some e
      → count p t ≤ 1
      → count (λ r. p r && q r) t ≡ bit (q e)
  count_unique p q t e f once = ground (
    arith,
    client.find_first-some p t e f,
    client.find_first-mem p t e (λ r. p r && q r) f,
    client.find_first-mem p t e (λ r. not (q r) && p r) f,
    count-split q p t,
    count-ext (λ r. p r && q r) (λ r. q r && p r) t (λ r. ground arith),
  )

  -- A test that a change does not look at.
  pub count-update_many_same :
      (p : R → Bool) (f : R → R) (q : R → Bool) (t : List R)
      → ((r : R) → q (f r) ≡ q r)
      → count q (client.update_many p f t) ≡ count q t
  count-update_many_same p f q t same = omega (
    arith,
    client.count-update_many p f q t,
    count-split p q t,
    count-ext (λ r. p r && q (f r)) (λ r. p r && q r) t (λ r. ap (λ b. p r && b) (same r)),
  )

  -- The ids of the rows found.
  pub elem-map-find_many :
      (x : ℕ) (f : R → ℕ) (p : R → Bool) (t : List R)
      → elem x (map f (client.find_many p t)) ≡ has (λ r. p r && f r == x) t
  elem-map-find_many x f p t =
      ground
        (arith, elem-map x f (client.find_many p t), client.count-find_many p (λ r. f r == x) t)
