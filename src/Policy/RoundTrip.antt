-- ===== src/Policy/RoundTrip.antt =====
-- shared/policy.mjs: the shape of a policy that passes the rules is read back.
use lortnoc_tahc.Base.{
  ℕ, zero, suc, ◌+◌, ◌/◌, ◌%◌, ◌≤◌, ◌<◌, ◌≡◌, refl, Bool, true, false, Option, none, some, [], ◌++◌,
  append_assoc, Bytes, arith, ◌==◌, ◌&&◌, if◌then◌else◌, passes_under, passes_under_lem, length,
}
use lortnoc_tahc.Policy.{
  Tree, Trees, check, and, or, no_kids, kid, count_kids, tree_map, trees_map, leaves,
}
use lortnoc_tahc.Policy.Checks.{CheckId, Spec, Params, valid_spec, spec_id, tag, encode_params}
use lortnoc_tahc.Policy.Decode.{Decoded, malformed, found}
use lortnoc_tahc.Policy.CheckLaws.{public_part, decode_params-encode_params, by_tag-tag}
use lortnoc_tahc.Policy.Shape.{
  node_byte, and_node, or_node, leaf_node, encode_shape, encode_shapes, decode_leaf, decode_kids,
  decode_inner, decode_node, decode_shape, and_then, max_depth,
}
use lortnoc_tahc.Policy.Rules.{validate, validate_kids, inner_fault, first_fault, Fault}

-- The first byte of a node holds its type and its number.
byte_table :
    passes_under
      (λ n.
        (node_byte and_node n / 32 == and_node)
        && (node_byte and_node n % 32 == n)
        && (node_byte or_node n / 32 == or_node)
        && (node_byte or_node n % 32 == n)
        && (node_byte leaf_node n / 32 == leaf_node)
        && (node_byte leaf_node n % 32 == n))
      32
    ≡ true
unfolding passes_under node_byte
byte_table = refl

module _ (n : ℕ) (h : n < 32) where
  and_byte : (node_byte and_node n / 32 ≡ 0) × (node_byte and_node n % 32 ≡ n)
  and_byte = ground (arith, passes_under_lem _ 32 n h byte_table)

  or_byte : (node_byte or_node n / 32 ≡ 1) × (node_byte or_node n % 32 ≡ n)
  or_byte = ground (arith, passes_under_lem _ 32 n h byte_table)

  leaf_byte : (node_byte leaf_node n / 32 ≡ 2) × (node_byte leaf_node n % 32 ≡ n)
  leaf_byte = ground (arith, passes_under_lem _ 32 n h byte_table)

tag_small : (id : CheckId) → tag id < 32
unfolding tag
tag_small CheckId.public = omega arith
tag_small CheckId.passphrase = omega arith
tag_small CheckId.recipients = omega arith
tag_small CheckId.after = omega arith
tag_small CheckId.human = omega arith
tag_small CheckId.nft = omega arith

-- What a node without a fault says of itself and of its children.
pub inner_fault_is_none :
    (kids leaves depth : ℕ) (below : Option Fault)
    → inner_fault kids leaves depth below ≡ none
    → (depth < 3) × ((2 ≤ kids) × (kids ≤ 8)) × (below ≡ none)
unfolding inner_fault
inner_fault_is_none kids leaves depth none h = ground (arith, h)
inner_fault_is_none kids leaves depth (some f) h = ground (arith, h)

pub first_fault_is_none :
    (now later : Option Fault) → first_fault now later ≡ none → (now ≡ none) × (later ≡ none)
first_fault_is_none none later h = (refl, h)
first_fault_is_none (some f) later h = absurd cc

leaf_fault_none : (b : Bool) (f : Fault) → (if b then none else some f) ≡ none → b ≡ true
leaf_fault_none true f h = refl
leaf_fault_none false f h = absurd cc

module _ (normalise : Bytes → Bytes) where
  decode_leaf-encode :
      (a : Spec) (kids : ℕ → Option Bytes → Decoded (Trees Params)) (rest : Bytes)
      → valid_spec normalise a ≡ true
      → decode_node kids (node_byte leaf_node (tag (spec_id a))) (encode_params a ++ rest)
        ≡ found (check (public_part a)) (some rest)
  unfolding decode_node decode_leaf and_then
  decode_leaf-encode a kids rest valid =
      rw
        (
          (leaf_byte (tag (spec_id a)) (tag_small (spec_id a))).0,
          (leaf_byte (tag (spec_id a)) (tag_small (spec_id a))).1,
          by_tag-tag (spec_id a),
          decode_params-encode_params normalise a rest valid,
        )
        refl

  module _ (kids : ℕ → Option Bytes → Decoded (Trees Params)) (n : ℕ)
      (small : (2 ≤ n) × (n ≤ 8)) where
    decode_and :
        (rest last : Bytes) (ts : Trees Params)
        → kids n (some rest) ≡ found ts (some last)
        → decode_node kids (node_byte and_node n) rest ≡ found (and ts) (some last)
    unfolding decode_node decode_inner and_then
    decode_and rest last ts read =
        rw ((and_byte n (omega (arith, small))).0, (and_byte n (omega (arith, small))).1, read)
          (ground (arith, small))

    decode_or :
        (rest last : Bytes) (ts : Trees Params)
        → kids n (some rest) ≡ found ts (some last)
        → decode_node kids (node_byte or_node n) rest ≡ found (or ts) (some last)
    unfolding decode_node decode_inner and_then
    decode_or rest last ts read =
        rw ((or_byte n (omega (arith, small))).0, (or_byte n (omega (arith, small))).1, read)
          (ground (arith, small))

  mutual
    unfolding encode_shape tree_map decode_shape validate decode_kids and_then

    decode-encode_tree :
        (t : Tree Spec) (levels depth : ℕ) (rest : Bytes)
        → levels + depth ≡ max_depth
        → validate normalise t depth ≡ none
        → decode_shape levels (encode_shape t ++ rest) ≡ found (tree_map public_part t) (some rest)
    decode-encode_tree (check a) zero depth rest sum ok =
        decode_leaf-encode a (λ prm place. malformed) rest (leaf_fault_none _ _ ok)
    decode-encode_tree (check a) (suc levels) depth rest sum ok =
        decode_leaf-encode a (decode_kids (decode_shape levels)) rest (leaf_fault_none _ _ ok)
    decode-encode_tree (and ts) zero depth rest sum ok = absurd (
        omega (
          arith,
          (inner_fault_is_none (count_kids ts) (length (leaves (and ts) [])) depth
              (validate_kids normalise ts (depth + 1)) ok).0,
        ))
    decode-encode_tree (and ts) (suc levels) depth rest sum ok =
        let sound =
          inner_fault_is_none (count_kids ts) (length (leaves (and ts) [])) depth
            (validate_kids normalise ts (depth + 1)) ok in
        decode_and (decode_kids (decode_shape levels)) (count_kids ts) sound.1
          (encode_shapes ts ++ rest) rest (trees_map public_part ts)
          (decode-encode_kids ts levels (depth + 1) rest (omega (arith, sum)) sound.2)
    decode-encode_tree (or ts) zero depth rest sum ok = absurd (
        omega (
          arith,
          (inner_fault_is_none (count_kids ts) (length (leaves (or ts) [])) depth
              (validate_kids normalise ts (depth + 1)) ok).0,
        ))
    decode-encode_tree (or ts) (suc levels) depth rest sum ok =
        let sound =
          inner_fault_is_none (count_kids ts) (length (leaves (or ts) [])) depth
            (validate_kids normalise ts (depth + 1)) ok in
        decode_or (decode_kids (decode_shape levels)) (count_kids ts) sound.1
          (encode_shapes ts ++ rest) rest (trees_map public_part ts)
          (decode-encode_kids ts levels (depth + 1) rest (omega (arith, sum)) sound.2)

    decode-encode_kids :
        (ts : Trees Spec) (levels depth : ℕ) (rest : Bytes)
        → levels + depth ≡ max_depth
        → validate_kids normalise ts depth ≡ none
        → decode_kids (decode_shape levels) (count_kids ts) (some (encode_shapes ts ++ rest))
          ≡ found (trees_map public_part ts) (some rest)
    decode-encode_kids no_kids levels depth rest sum ok = refl
    decode-encode_kids (kid t ts) levels depth rest sum ok =
        let both = first_fault_is_none _ _ ok in
        rw
          (
            append_assoc (encode_shape t) (encode_shapes ts) rest,
            decode-encode_tree t levels depth (encode_shapes ts ++ rest) sum both.0,
            decode-encode_kids ts levels depth rest sum both.1,
          )
          refl

  -- The shape of a policy that `validate` accepts, followed by anything, decodes to the public part
  -- of the policy and to what follows: the same tree, each leaf without its secrets.
  pub decode_shape-encode_shape :
      (t : Tree Spec) (rest : Bytes)
      → validate normalise t 0 ≡ none
      → decode_shape max_depth (encode_shape t ++ rest) ≡ found (tree_map public_part t) (some rest)
  decode_shape-encode_shape t rest ok = decode-encode_tree t max_depth 0 rest refl ok
