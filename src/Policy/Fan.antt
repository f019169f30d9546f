-- ===== src/Policy/Fan.antt =====
-- shared/policy.mjs: how many candidates a reader can get.
use native.Mathlib.Nat.{mul_assoc, mul-le-mul, le_refl, le_trans}
use lortnoc_tahc.Base.{
  ℕ, ◌+◌, ◌*◌, ◌≤◌, max, subst, some, List, [], ◌∷◌, length, length-append, Bytes, zeros, arith,
}
use lortnoc_tahc.Policy.{Tree, Trees, check, and, or, no_kids, kid}
use lortnoc_tahc.Policy.Candidates.{
  cap, combine, combine_some, candidates, candidates_or, candidates_and,
}
use lortnoc_tahc.Policy.Lists.{length-cap, length-combine}
use lortnoc_tahc.Policy.Seal.{share_len}

pub product_step : (a c k p x y : ℕ) → c ≤ k → x ≤ a * c → y ≤ x * p → y ≤ a * (k * p)
product_step a c k p x y small step last = le_trans last (
    le_trans (mul-le-mul step (le_refl p)) (
      subst (λ n. a * c * p ≤ n) (mul_assoc a k p)
        (mul-le-mul (mul-le-mul (le_refl a) small) (le_refl p))))

-- The number of candidates before equal ones are dropped.
module _ {ℓ} {A : Type ℓ} (open_leaf : A → List Bytes) where
  unfoldable mutual
    pub fan : Tree A → ℕ
    fan (check a) = length (open_leaf a)
    fan (or ts) = fan_sum ts
    fan (and ts) = fan_product ts

    pub fan_sum : Trees A → ℕ
    fan_sum no_kids = 0
    fan_sum (kid t ts) = fan t + fan_sum ts

    pub fan_product : Trees A → ℕ
    fan_product no_kids = 1
    fan_product (kid t ts) = max 1 (fan t) * fan_product ts

  length-and_step :
      (cs : List Bytes) (m : ℕ) (acc : List Bytes) (ts : Trees A)
      → length cs ≤ m
      → ((next : List Bytes)
          → length (candidates_and open_leaf ts (some next)) ≤ length next * fan_product ts)
      → length (candidates_and open_leaf ts (combine_some acc cs))
        ≤ length acc * (max 1 m * fan_product ts)
  unfolding combine_some candidates
  length-and_step [] m acc no_kids small others = omega arith
  length-and_step [] m acc (kid t ts) small others = omega arith
  length-and_step (c ∷ cs) m acc ts small others =
      product_step (length acc) (length (c ∷ cs)) (max 1 m) (fan_product ts)
        (length (cap (combine acc (c ∷ cs)))) _ (omega (arith, small))
        (omega (arith, length-cap (combine acc (c ∷ cs)), length-combine acc (c ∷ cs)))
        (others (cap (combine acc (c ∷ cs))))

  mutual
    unfolding candidates fan

    pub length-candidates : (t : Tree A) → length (candidates open_leaf t) ≤ fan t
    length-candidates (check a) = omega arith
    length-candidates (or ts) =
        omega (arith, length-cap (candidates_or open_leaf ts), length-candidates_or ts)
    length-candidates (and ts) = omega (arith, length-candidates_and ts (zeros share_len ∷ []))

    pub length-candidates_or : (ts : Trees A) → length (candidates_or open_leaf ts) ≤ fan_sum ts
    length-candidates_or no_kids = omega arith
    length-candidates_or (kid t ts) = omega (
      arith,
      length-append (candidates open_leaf t) (candidates_or open_leaf ts),
      length-candidates t,
      length-candidates_or ts,
    )

    pub length-candidates_and :
        (ts : Trees A) (acc : List Bytes)
        → length (candidates_and open_leaf ts (some acc)) ≤ length acc * fan_product ts
    length-candidates_and no_kids acc = omega arith
    length-candidates_and (kid t ts) acc =
        length-and_step (candidates open_leaf t) (fan t) acc ts (length-candidates t)
          (length-candidates_and ts)
