-- ===== src/Sealed/Post.antt =====
-- shared/sealed.mjs: the keys, the slots, and `sealPost`.
use lortnoc_tahc.Base.{
  ℕ, zero, suc, ◌+◌, ◌-◌, ◌*◌, ◌/◌, ◌%◌, Bool, Option, none, some, List, [], ◌∷◌, ◌++◌,
  if◌then◌else◌, length, ◌==◌, take, drop, list_eq, xor, Bytes, Text,
}
use lortnoc_tahc.Keys.{codes}
use lortnoc_tahc.Squeeze.{squeeze_if_smaller}
use lortnoc_tahc.Policy.{Tree}
use lortnoc_tahc.Policy.Checks.{Spec, public_spec, passphrase_spec}
use lortnoc_tahc.Policy.Seal.{Primitives, Kdf}
use lortnoc_tahc.Policy.Shape.{encode_shape}
use lortnoc_tahc.Sealed.Rows.{slot_count, to_rows, tree_of}

abbrev pub salt_len : ℕ
salt_len = 8

abbrev pub ref_len : ℕ
ref_len = 8

abbrev pub slot_len : ℕ
slot_len = 20

-- `HEAD`
abbrev pub head_len : ℕ
head_len = salt_len + ref_len + slot_count * slot_len

abbrev pub sealed_version : ℕ
sealed_version = 1

abbrev pub pass_kdf : Kdf
pass_kdf = record { time = 2; memory = 19456; parallel = 1 }

-- What the author's device draws, and `gateSeal`: none where it throws or there is no gate.
pub record Draws : Type 0 where
  pub root : Bytes
  -- the share of the row at an index
  pub row_share : ℕ → Bytes
  pub salt : Bytes
  -- the unused slot at an index
  pub blank : ℕ → Bytes
  pub random_ref : Bytes
  pub gate_seal : List (Spec × Bytes) → Option Bytes

-- The shares of the rows from an index on: a random one for each, and for the last what is left.
unfoldable pub share_rows : (ℕ → Bytes) → Bytes → ℕ → ℕ → List Bytes
share_rows draw acc i zero = []
share_rows draw acc i (suc zero) = acc ∷ []
share_rows draw acc i (suc (suc n)) = draw i ∷ share_rows draw (xor acc (draw i)) (i + 1) (suc n)

-- `slots` and `gateItems`
pub record Placed : Type 0 where
  pub slots : List Bytes
  pub gate_items : List (Spec × Bytes)

abbrev pub no_slots : Placed
no_slots = record { slots = []; gate_items = [] }

-- `while (slots.length < SLOTS) slots.push(rand(SLOT_LEN))`, for the slots that lack.
unfoldable pub fill_slots : (ℕ → Bytes) → ℕ → ℕ → List Bytes
fill_slots blank i zero = []
fill_slots blank i (suc n) = blank i ∷ fill_slots blank (i + 1) n

abbrev pub joined : List Bytes → Bytes
joined [] = []
joined (s ∷ ss) = s ++ joined ss

abbrev pub good_ref : Option Bytes → Option Bytes
good_ref none = none
good_ref (some ref) = if length ref == ref_len then some ref else none

unfoldable pub post_ref : Draws → List (Spec × Bytes) → Option Bytes
post_ref draws [] = some draws.random_ref
post_ref draws (i ∷ is) = good_ref (draws.gate_seal (i ∷ is))

abbrev pub flag : Bool → ℕ
flag b = if b then 1 else 0

-- The plaintext of the body.
unfoldable pub inner_bytes : Bytes → Bytes × Bool → Bytes
inner_bytes shape sent =
    sealed_version ∷ flag sent.1 ∷ length shape / 256 % 256 ∷ length shape % 256 ∷ (shape ++ sent.0)

module _ (c : Primitives) where
  -- `passKey`, none for a passphrase that normalises to nothing.
  unfoldable pub pass_key : Bytes → Option Bytes
  pass_key words =
      if length (c.normalise words) == 0
      then none
      else some (c.argon2id (c.normalise words) (codes "lortnoc/sealed/pass/v1") pass_kdf)

  -- `PUBLIC_KEY`
  unfoldable pub public_key_of_all : Bytes
  public_key_of_all = c.sha256 (codes "lortnoc/sealed/public/v1")

  unfoldable pub slot_mask : Bytes → Bytes → ℕ → Bytes
  slot_mask key salt i = c.hkdf key salt (codes "lortnoc/sealed/slot/v1" ++ i ∷ []) 36

  abbrev pub slot_tag : Bytes → Bytes → Bytes
  slot_tag mask share = take 4 (c.sha256 (drop 16 mask ++ share))

  -- `wrapSlot` and `unwrapSlot`
  unfoldable pub wrap_slot : Bytes → Bytes → ℕ → Bytes → Bytes
  wrap_slot key salt i share =
      let mask = slot_mask key salt i in xor share (take 16 mask) ++ slot_tag mask share

  unfoldable pub unwrap_slot : Bytes → Bytes → ℕ → Bytes → Option Bytes
  unwrap_slot key salt i slot =
      let mask = slot_mask key salt i in
      let share = xor (take 16 slot) (take 16 mask) in
      if list_eq (slot_tag mask share) (take 4 (drop 16 slot)) then some share else none

  abbrev pub add_slot : Bytes → Bytes → Placed → Option Bytes → Option Placed
  add_slot salt share p none = none
  add_slot salt share p (some key) =
      some (record p { slots = p.slots ++ wrap_slot key salt (length p.slots) share ∷ [] })

  -- `leaf.key ?? passKey(leaf.passphrase)`
  abbrev pub leaf_key : Bytes → Option Bytes → Option Bytes
  leaf_key words none = pass_key words
  leaf_key words (some key) = some key

  unfoldable pub place_leaf : Bytes → Bytes → Placed → Spec → Option Placed
  place_leaf salt share p public_spec = add_slot salt share p (some public_key_of_all)
  place_leaf salt share p (passphrase_spec profile hint words key) =
      add_slot salt share p (leaf_key words key)
  place_leaf salt share p leaf = some (record p { gate_items = p.gate_items ++ (leaf, share) ∷ [] })

  unfoldable pub place_row : Bytes → Bytes → Option Placed → List Spec → Option Placed
  unfolding place_leaf
  place_row salt share none row = none
  place_row salt share (some p) [] = some p
  place_row salt share (some p) (leaf ∷ row) =
      place_row salt share (place_leaf salt share p leaf) row

  unfoldable pub place_rows : Bytes → List Bytes → Option Placed → List (List Spec) → Option Placed
  unfolding place_row
  place_rows salt shares p [] = p
  place_rows salt [] p (row ∷ rows) = p
  place_rows salt (s ∷ shares) p (row ∷ rows) = place_rows salt shares (place_row salt s p row) rows

  unfoldable pub sealed_cek : Bytes → Bytes → Bytes
  sealed_cek root salt = c.hkdf root salt (codes "lortnoc/sealed/cek/v1") 64

  unfoldable pub body_of : Draws → Bytes → Bytes → Option (Bytes × Bool) → Option Bytes
  unfolding inner_bytes
  body_of draws head shape none = none
  body_of draws head shape (some sent) =
      some (head ++ c.siv_seal (sealed_cek draws.root draws.salt) head (inner_bytes shape sent))

  unfoldable pub with_ref :
      List Text → Draws → Text → List (List Spec) → List Bytes → Option Bytes → Option Bytes
  unfolding body_of
  with_ref table draws text rows slots none = none
  with_ref table draws text rows slots (some ref) =
      body_of draws (draws.salt ++ (ref ++ joined slots)) (encode_shape (tree_of rows))
        (squeeze_if_smaller table text)

  unfoldable pub with_slots :
      List Text → Draws → Text → List (List Spec) → Option Placed → Option Bytes
  unfolding with_ref
  with_slots table draws text rows none = none
  with_slots table draws text rows (some p) =
      with_ref table draws text rows
        (p.slots ++ fill_slots draws.blank (length p.slots) (slot_count - length p.slots))
        (post_ref draws p.gate_items)

  unfoldable pub seal_rows : List Text → Draws → Text → Option (List (List Spec)) → Option Bytes
  unfolding with_slots
  seal_rows table draws text none = none
  seal_rows table draws text (some rows) = with_slots table draws text rows (
      place_rows draws.salt (share_rows draws.row_share draws.root 0 (length rows)) (some no_slots)
        rows)

  -- `sealPost`, none where it throws.
  unfoldable pub seal_post : List Text → Draws → Text → Tree Spec → Option Bytes
  unfolding seal_rows
  seal_post table draws text policy = seal_rows table draws text (to_rows c.normalise policy)
