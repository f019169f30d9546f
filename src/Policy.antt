-- ===== src/Policy.antt =====
-- shared/policy.mjs: the tree of a reader policy. A node holds its children in a list of the same
-- block. What a node's leaves hold is a parameter: the author's specification, what a reader decodes,
-- and, where the source keeps a `Map` keyed by a leaf's path, the value that stands at that path.
pub mod Checks
pub mod Decode
pub mod Rules
pub mod Shape
pub mod CheckLaws
pub mod RoundTrip
pub mod Seal
pub mod Candidates
pub mod Open
pub mod Lists
pub mod Fan
pub mod Recovery
pub mod Material
pub mod Contents
pub mod Opened
pub mod Leaves
pub mod Denied
pub mod Honest
pub mod Tests
use lortnoc_tahc.Base.{ℕ, suc, ◌+◌, Bool, true, false, List, [], ◌∷◌, ◌++◌, ◌&&◌, ◌||◌}

mutual
  pub data Tree {ℓ} (A : Type ℓ) : Type ℓ where
    check : A → Tree A
    and : Trees A → Tree A
    or : Trees A → Tree A

  pub data Trees {ℓ} (A : Type ℓ) : Type ℓ where
    no_kids : Trees A
    kid : Tree A → Trees A → Trees A

-- A leaf with its path: the child indices from the root.
pub record Leaf {ℓ} (A : Type ℓ) : Type ℓ where
  pub node : A
  pub path : List ℕ

abbrev pub under : List ℕ → ℕ → List ℕ
under path i = path ++ i ∷ []

module _ {ℓ} {A : Type ℓ} where
  abbrev pub count_kids : Trees A → ℕ
  count_kids no_kids = 0
  count_kids (kid t ts) = suc (count_kids ts)

  -- Depth first; `leaves_from` goes over the children from the index `i`.
  unfoldable mutual
    pub leaves : Tree A → List ℕ → List (Leaf A)
    leaves (check a) path = record { node = a; path = path } ∷ []
    leaves (and ts) path = leaves_from ts path 0
    leaves (or ts) path = leaves_from ts path 0

    pub leaves_from : Trees A → List ℕ → ℕ → List (Leaf A)
    leaves_from no_kids path i = []
    leaves_from (kid t ts) path i = leaves t (under path i) ++ leaves_from ts path (i + 1)

  unfoldable mutual
    pub satisfied : Tree A → (A → List ℕ → Bool) → List ℕ → Bool
    satisfied (check a) pred path = pred a path
    satisfied (and ts) pred path = satisfied_every ts pred path 0
    satisfied (or ts) pred path = satisfied_some ts pred path 0

    pub satisfied_every : Trees A → (A → List ℕ → Bool) → List ℕ → ℕ → Bool
    satisfied_every no_kids pred path i = true
    satisfied_every (kid t ts) pred path i =
        satisfied t pred (under path i) && satisfied_every ts pred path (i + 1)

    pub satisfied_some : Trees A → (A → List ℕ → Bool) → List ℕ → ℕ → Bool
    satisfied_some no_kids pred path i = false
    satisfied_some (kid t ts) pred path i =
        satisfied t pred (under path i) || satisfied_some ts pred path (i + 1)

module _ {ℓ κ} {A : Type ℓ} {B : Type κ} (f : A → B) where
  -- The same tree with each leaf replaced.
  unfoldable mutual
    pub tree_map : Tree A → Tree B
    tree_map (check a) = check (f a)
    tree_map (and ts) = and (trees_map ts)
    tree_map (or ts) = or (trees_map ts)

    pub trees_map : Trees A → Trees B
    trees_map no_kids = no_kids
    trees_map (kid t ts) = kid (tree_map t) (trees_map ts)
