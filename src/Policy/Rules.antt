-- ===== src/Policy/Rules.antt =====
-- shared/policy.mjs: the rules on a tree (`validate`), and what its checks' flags say (`honesty`).
use lortnoc_tahc.Base.{
  ℕ, ◌+◌, Bool, false, Option, none, some, List, [], ◌∷◌, ◌||◌, not, if◌then◌else◌, ltb, leb,
  between, ◌==◌, ◌&&◌, length, Bytes,
}
use lortnoc_tahc.Policy.{
  Tree, Trees, check, and, or, no_kids, kid, count_kids, leaves, Leaf, satisfied,
}
use lortnoc_tahc.Policy.Checks.{CheckId, Spec, valid_spec, flags}
use lortnoc_tahc.Policy.Shape.{max_depth, max_children}

abbrev pub max_leaves : ℕ
max_leaves = 8

-- What `validate` throws.
pub data Fault : Type 0 where
  bad_check nested_too_deep bad_children too_many_checks : Fault

abbrev pub first_fault : Option Fault → Option Fault → Option Fault
first_fault none later = later
first_fault (some f) later = some f

-- At an inner node: its number of children and of leaves, its depth, and what its children throw. The
-- leaves are counted at the root, after the rest.
unfoldable pub inner_fault : ℕ → ℕ → ℕ → Option Fault → Option Fault
inner_fault kids leaves depth below =
    if leb max_depth depth
    then some nested_too_deep
    else if not (between 2 max_children kids)
    then some bad_children
    else first_fault below
        (if depth == 0 && ltb max_leaves leaves then some too_many_checks else none)

module _ (normalise : Bytes → Bytes) where
  -- `none` when nothing is thrown.
  unfoldable mutual
    unfolding inner_fault

    pub validate : Tree Spec → ℕ → Option Fault
    validate (check a) depth = if valid_spec normalise a then none else some bad_check
    validate (and ts) depth =
        inner_fault (count_kids ts) (length (leaves (and ts) [])) depth
          (validate_kids ts (depth + 1))
    validate (or ts) depth =
        inner_fault (count_kids ts) (length (leaves (or ts) [])) depth
          (validate_kids ts (depth + 1))

    pub validate_kids : Trees Spec → ℕ → Option Fault
    validate_kids no_kids depth = none
    validate_kids (kid t ts) depth = first_fault (validate t depth) (validate_kids ts depth)

pub record Honesty : Type 0 where
  pub obfuscation_only : Bool
  pub gate_can_read : Bool
  pub offline_guessable : Bool

abbrev pub some_leaf {ℓ} : {A : Type ℓ} → (A → Bool) → List (Leaf A) → Bool
some_leaf p [] = false
some_leaf p (l ∷ ls) = p l.node || some_leaf p ls

-- `honesty`, over the flags of each leaf's check.
module _ {ℓ} {A : Type ℓ} (id : A → CheckId) where
  unfoldable pub everyone : A → List ℕ → Bool
  everyone a path = (flags (id a)).anyone_can_open

  unfoldable pub gate_holds : A → List ℕ → Bool
  unfolding everyone
  gate_holds a path = everyone a path || (flags (id a)).gate_holds_share

  unfoldable pub honesty : Tree A → Honesty
  unfolding everyone gate_holds
  honesty policy = record {
    obfuscation_only = satisfied policy everyone [];
    gate_can_read = satisfied policy gate_holds [];
    offline_guessable = some_leaf (λ a. (flags (id a)).offline_guessable) (leaves policy []);
  }
