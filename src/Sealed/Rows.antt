-- ===== src/Sealed/Rows.antt =====
-- shared/sealed.mjs: the rows of a policy (`toRows`, `treeOf`).
use lortnoc_tahc.Base.{
  ℕ, ◌+◌, Bool, true, false, not, ◌&&◌, Option, none, some, List, [], ◌∷◌, if◌then◌else◌, ltb,
  Bytes,
}
use lortnoc_tahc.Policy.{Tree, Trees, check, and, or, no_kids, kid}
use lortnoc_tahc.Policy.Checks.{CheckId, public, passphrase, recipients, Spec, spec_id, valid_spec}

abbrev pub slot_count : ℕ
slot_count = 2

-- `INLINE`
unfoldable pub is_inline : CheckId → Bool
is_inline public = true
is_inline passphrase = true
is_inline _ = false

abbrev pub with_leaf : Spec → Option (List Spec) → Option (List Spec)
with_leaf a none = none
with_leaf a (some row) = some (a ∷ row)

unfoldable pub leaves_only : Trees Spec → Option (List Spec)
leaves_only no_kids = some []
leaves_only (kid (check a) ts) = with_leaf a (leaves_only ts)
leaves_only (kid (and us) ts) = none
leaves_only (kid (or us) ts) = none

-- `leafList`, none where it throws.
unfoldable pub leaf_list : Tree Spec → Option (List Spec)
unfolding leaves_only
leaf_list (check a) = some (a ∷ [])
leaf_list (or ts) = leaves_only ts
leaf_list (and ts) = none

abbrev pub with_row : Option (List Spec) → Option (List (List Spec)) → Option (List (List Spec))
with_row none rows = none
with_row (some row) none = none
with_row (some row) (some rows) = some (row ∷ rows)

unfoldable pub row_lists : Trees Spec → Option (List (List Spec))
unfolding leaf_list
row_lists no_kids = some []
row_lists (kid t ts) = with_row (leaf_list t) (row_lists ts)

unfoldable pub all_rows : Tree Spec → Option (List (List Spec))
unfolding row_lists leaf_list
all_rows (and ts) = row_lists ts
all_rows (check a) = with_row (leaf_list (check a)) (some [])
all_rows (or ts) = with_row (leaf_list (or ts)) (some [])

module _ (normalise : Bytes → Bytes) where
  -- A leaf is valid, and not for named recipients: theirs is the one check that is neither inline nor
  -- attested.
  unfoldable pub usable : Spec → Bool
  usable a = valid_spec normalise a && usable_id (spec_id a)
    where
      usable_id : CheckId → Bool
      usable_id recipients = false
      usable_id _ = true

  abbrev pub usable_row : List Spec → Bool
  usable_row [] = true
  usable_row (a ∷ row) = usable a && usable_row row

  abbrev pub usable_rows : List (List Spec) → Bool
  usable_rows [] = true
  usable_rows (row ∷ rows) = usable_row row && usable_rows rows

abbrev pub count_inline : List Spec → ℕ
count_inline [] = 0
count_inline (a ∷ row) = (if is_inline (spec_id a) then 1 else 0) + count_inline row

abbrev pub count_rows : List (List Spec) → ℕ
count_rows [] = 0
count_rows (row ∷ rows) = count_inline row + count_rows rows

-- The checks of the rows; none where `toRows` throws.
unfoldable pub checked_rows :
    (Bytes → Bytes) → Option (List (List Spec)) → Option (List (List Spec))
unfolding usable
checked_rows normalise none = none
checked_rows normalise (some rows) =
    if not (usable_rows normalise rows)
    then none
    else if ltb slot_count (count_rows rows)
    then none
    else some rows

-- `toRows`
unfoldable pub to_rows : (Bytes → Bytes) → Tree Spec → Option (List (List Spec))
unfolding checked_rows all_rows
to_rows normalise policy = checked_rows normalise (all_rows policy)

abbrev pub kids_of : List Spec → Trees Spec
kids_of [] = no_kids
kids_of (a ∷ row) = kid (check a) (kids_of row)

unfoldable pub row_tree : List Spec → Tree Spec
row_tree (a ∷ []) = check a
row_tree row = or (kids_of row)

abbrev pub row_trees : List (List Spec) → Trees Spec
row_trees [] = no_kids
row_trees (row ∷ rows) = kid (row_tree row) (row_trees rows)

-- `treeOf`
unfoldable pub tree_of : List (List Spec) → Tree Spec
unfolding row_tree
tree_of (row ∷ []) = row_tree row
tree_of rows = and (row_trees rows)
