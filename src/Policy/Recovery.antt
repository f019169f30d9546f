-- ===== src/Policy/Recovery.antt =====
-- shared/policy.mjs: the key is among the candidates of a reader who satisfies the policy.
use native.Mathlib.Nat.{mul-le-mul, le-mul_of_pos_right, le_refl, le_trans}
use lortnoc_tahc.Base.{
  ℕ, ◌+◌, ◌*◌, ◌≤◌, max, ◌≡◌, refl, sym, ◌∙◌, subst, Bool, true, none, some, List, [], ◌∷◌, length,
  Bytes, list_eq_self, xor, zeros, length-xor, length-zeros, xor_cancel, zeros-xor, arith,
  both_true, Bool-cases, inl, inr,
}
use lortnoc_tahc.Policy.{
  Tree, Trees, check, and, or, no_kids, kid, under, satisfied, satisfied_every, satisfied_some,
  count_kids, leaves,
}
use lortnoc_tahc.Policy.Checks.{Spec}
use lortnoc_tahc.Policy.Candidates.{
  contains, cap, combine, combine_some, candidates, candidates_or, candidates_and, max_candidates,
}
use lortnoc_tahc.Policy.Lists.{
  contains-append, contains-cap, contains-combine, length-cap, length-combine,
}
use lortnoc_tahc.Policy.Fan.{
  product_step, fan, fan_sum, fan_product, length-candidates, length-candidates_or,
}
use lortnoc_tahc.Policy.Seal.{Held, assign, assign_each, assign_split, share_len}
use lortnoc_tahc.Policy.Rules.{validate, validate_kids}
use lortnoc_tahc.Policy.RoundTrip.{inner_fault_is_none, first_fault_is_none}

-- A leaf gives its share to a reader when the share is among what opening it yields.
abbrev pub gives : (Held → List Bytes) → Held → List ℕ → Bool
gives open_leaf held path = contains held.share (open_leaf held)

contains_pos : (a : Bytes) (xs : List Bytes) → contains a xs ≡ true → 1 ≤ length xs
contains_pos a [] h = absurd cc
contains_pos a (x ∷ xs) h = omega arith

-- One step of the loop over an AND's children, under the cap.
record Step (acc cs : List Bytes) (both : Bytes) : Type 0 where
  pub next : List Bytes
  pub combined : combine_some acc cs ≡ some next
  pub kept : contains both next ≡ true
  pub bounded : length next ≤ length acc * length cs

combine_step :
    (z s : Bytes) (acc cs : List Bytes)
    → contains z acc ≡ true
    → contains s cs ≡ true
    → length acc * length cs ≤ max_candidates
    → Step acc cs (xor z s)
unfolding combine_some
combine_step z s acc [] h k small = absurd cc
combine_step z s acc (c ∷ cs) h k small = record {
  next = cap (combine acc (c ∷ cs));
  combined = refl;
  kept =
      contains-cap (xor z s) (combine acc (c ∷ cs)) (omega (arith, length-combine acc (c ∷ cs)))
        (contains-combine z s acc (c ∷ cs) h k);
  bounded = omega (arith, length-cap (combine acc (c ∷ cs)), length-combine acc (c ∷ cs));
}

module _ {ℓ} {A : Type ℓ} (open_leaf : A → List Bytes) where
  fan_product_pos : (ts : Trees A) → 1 ≤ fan_product open_leaf ts
  unfolding fan
  fan_product_pos no_kids = omega arith
  fan_product_pos (kid t ts) =
      let low : 1 ≤ max 1 (fan open_leaf t) = omega arith in mul-le-mul low (fan_product_pos ts)

-- What is left of a bound on a product, for its factors.
module _ (a c k p : ℕ) (small : c ≤ k) (bound : a * (max 1 k * p) ≤ max_candidates)
    (one : 1 ≤ p) where
  first_bound : a * c ≤ max_candidates
  first_bound =
      le_trans
        (product_step a c (max 1 k) p (a * c) (a * c) (omega (arith, small)) (le_refl _)
          (le-mul_of_pos_right (a * c) one))
        bound

  next_bound : (x : ℕ) → x ≤ a * c → x * p ≤ max_candidates
  next_bound x h =
      le_trans (product_step a c (max 1 k) p x (x * p) (omega (arith, small)) h (le_refl _)) bound

  kid_bound : 1 ≤ a → k ≤ max_candidates
  kid_bound h =
      le_trans
        (product_step 1 k (max 1 k) p k k (omega arith) (omega arith) (le-mul_of_pos_right k one))
        (le_trans (mul-le-mul h (le_refl (max 1 k * p))) bound)

zeros_in : contains (zeros share_len) (zeros share_len ∷ []) ≡ true
zeros_in = ground (arith, list_eq_self (zeros share_len))

module _ (draw : List ℕ → Bytes) (sized : (path : List ℕ) → length (draw path) ≡ share_len)
    (open_leaf : Held → List Bytes) (normalise : Bytes → Bytes) where
  mutual
    unfolding assign satisfied candidates fan validate

    pub key_recovered :
        (t : Tree Spec) (depth : ℕ) (key : Bytes) (path : List ℕ) (place : List ℕ)
        → validate normalise t depth ≡ none
        → length key ≡ share_len
        → satisfied (assign draw t key path) (gives open_leaf) place ≡ true
        → fan open_leaf (assign draw t key path) ≤ max_candidates
        → contains key (candidates open_leaf (assign draw t key path)) ≡ true
    key_recovered (check a) depth key path place ok size sat small = sat
    key_recovered (or ts) depth key path place ok size sat small =
        let sound =
          inner_fault_is_none (count_kids ts) (length (leaves (or ts) [])) depth
            (validate_kids normalise ts (depth + 1)) ok in
        let shares = assign_each draw ts key path 0 in
        contains-cap key (candidates_or open_leaf shares)
          (le_trans (length-candidates_or open_leaf shares) small)
          (key_in_some ts (depth + 1) key path 0 place 0 sound.2 size sat small)
    key_recovered (and no_kids) depth key path place ok size sat small =
        let sound =
          inner_fault_is_none 0 (length (leaves {A = Spec} (and no_kids) [])) depth none ok in
        absurd (omega (arith, sound.1))
    key_recovered (and (kid t ts)) depth key path place ok size sat small =
        let sound =
          inner_fault_is_none (count_kids (kid t ts)) (length (leaves (and (kid t ts)) [])) depth
            (validate_kids normalise (kid t ts) (depth + 1)) ok in
        key_in_every (kid t ts) (depth + 1) key key (zeros share_len) (zeros share_len ∷ []) path 0
          place 0 (omega arith) sound.2 (length-zeros share_len) size
          (subst (λ n. xor (zeros n) key ≡ key) size (zeros-xor key)) zeros_in sat
          (omega (arith, small))

    key_in_some :
        (ts : Trees Spec) (depth : ℕ) (key : Bytes) (path : List ℕ) (i : ℕ) (place : List ℕ) (j : ℕ)
        → validate_kids normalise ts depth ≡ none
        → length key ≡ share_len
        → satisfied_some (assign_each draw ts key path i) (gives open_leaf) place j ≡ true
        → fan_sum open_leaf (assign_each draw ts key path i) ≤ max_candidates
        → contains key (candidates_or open_leaf (assign_each draw ts key path i)) ≡ true
    key_in_some no_kids depth key path i place j ok size sat small = absurd cc
    key_in_some (kid t ts) depth key path i place j ok size sat small =
        let both =
          first_fault_is_none (validate normalise t depth) (validate_kids normalise ts depth) ok in
        let here = assign draw t key (under path i) in
        let others = assign_each draw ts key path (i + 1) in
        let split =
          contains-append key (candidates open_leaf here) (candidates_or open_leaf others) in
        elim (Bool-cases (satisfied here (gives open_leaf) (under place j))) [
          | inl here_too ↦ ground (
            arith,
            split,
            key_recovered t depth key (under path i) (under place j) both.0 size here_too
                (omega (arith, small)),
          )
          | inr not_here ↦ ground (
            arith,
            split,
            key_in_some ts depth key path (i + 1) place (j + 1) both.1 size
                (ground (arith, not_here, sat)) (omega (arith, small)),
          )
        ]

    key_in_every :
        (ts : Trees Spec) (depth : ℕ) (key acc z : Bytes) (accs : List Bytes) (path : List ℕ)
        (i : ℕ) (place : List ℕ) (j : ℕ)
        → 1 ≤ count_kids ts
        → validate_kids normalise ts depth ≡ none
        → length z ≡ share_len
        → length acc ≡ share_len
        → xor z acc ≡ key
        → contains z accs ≡ true
        → satisfied_every (assign_split draw ts acc path i) (gives open_leaf) place j ≡ true
        → length accs * fan_product open_leaf (assign_split draw ts acc path i) ≤ max_candidates
        → contains key (candidates_and open_leaf (assign_split draw ts acc path i) (some accs))
          ≡ true
    key_in_every no_kids depth key acc z accs path i place j some_kid ok zs held e h sat small =
        absurd (omega (arith, some_kid))
    key_in_every (kid t no_kids) depth key acc z accs path i place j some_kid ok zs held e h sat
          small =
        let both = first_fault_is_none _ _ ok in
        let here = assign draw t acc (under path i) in
        let cs = candidates open_leaf here in
        let within = length-candidates open_leaf here in
        let given =
          key_recovered t depth acc (under path i) (under place j) both.0 held (both_true _ _ sat).0
            (kid_bound (length accs) (length cs) (fan open_leaf here) 1 within small (le_refl 1)
              (contains_pos z accs h)) in
        let step =
          combine_step z acc accs cs h given (
            first_bound (length accs) (length cs) (fan open_leaf here) 1 within small
              (le_refl 1)) in
        subst (λ o. contains key (candidates_and {A = Held} open_leaf no_kids o) ≡ true)
          (sym step.combined) (subst (λ y. contains y step.next ≡ true) e step.kept)
    key_in_every (kid t (kid u us)) depth key acc z accs path i place j some_kid ok zs held e h sat
          small =
        let both = first_fault_is_none _ _ ok in
        let s = draw (under path i) in
        let here = assign draw t s (under path i) in
        let others = assign_split draw (kid u us) (xor acc s) path (i + 1) in
        let cs = candidates open_leaf here in
        let within = length-candidates open_leaf here in
        let one = fan_product_pos open_leaf others in
        let p = fan_product open_leaf others in
        let sats = both_true _ _ sat in
        let given =
          key_recovered t depth s (under path i) (under place j) both.0 (sized (under path i))
            sats.0
            (kid_bound (length accs) (length cs) (fan open_leaf here) p within small one
              (contains_pos z accs h)) in
        let step =
          combine_step z s accs cs h given
            (first_bound (length accs) (length cs) (fan open_leaf here) p within small one) in
        subst (λ o. contains key (candidates_and open_leaf others o) ≡ true) (sym step.combined)
          (key_in_every (kid u us) depth key (xor acc s) (xor z s) step.next path (i + 1) place
            (j + 1) (omega arith) both.1 (length-xor z s ∙ zs) (length-xor acc s ∙ held)
            (xor_cancel z acc s (zs ∙ sym held) (sized (under path i) ∙ sym held) ∙ e) step.kept
            sats.1
            (next_bound (length accs) (length cs) (fan open_leaf here) p within small one
              (length step.next) step.bounded))
