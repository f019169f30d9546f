-- ===== src/Policy/Shape.antt =====
-- shared/policy.mjs: the shape of a policy as bytes, one for each node and after a leaf's its check's
-- parameters. The bytes from the position on are the argument, in place of the array and the position.
use Prim.Native.Nat.{bit_or}
use lortnoc_tahc.Base.{
  ℕ, zero, suc, ◌*◌, ◌/◌, ◌%◌, Option, none, some, [], ◌∷◌, ◌++◌, not, ◌&&◌, if◌then◌else◌, between,
  ◌==◌, Bytes,
}
use lortnoc_tahc.Policy.{Tree, Trees, check, and, or, no_kids, kid, count_kids}
use lortnoc_tahc.Policy.Checks.{CheckId, Spec, Params, spec_id, tag, by_tag, encode_params}
use lortnoc_tahc.Policy.Decode.{Decoded, malformed, unknown, found, decode_params}

abbrev pub max_depth : ℕ
max_depth = 3

abbrev pub max_children : ℕ
max_children = 8

-- `NODE.AND`, `NODE.OR` and `NODE.LEAF`
abbrev pub and_node : ℕ
and_node = 0

abbrev pub or_node : ℕ
or_node = 1

abbrev pub leaf_node : ℕ
leaf_node = 2

-- `(type << 5) | n`, written as a byte.
unfoldable pub node_byte : ℕ → ℕ → ℕ
node_byte type n = bit_or (type * 32) n % 256

unfoldable mutual
  unfolding node_byte

  pub encode_shape : Tree Spec → Bytes
  encode_shape (check a) = node_byte leaf_node (tag (spec_id a)) ∷ encode_params a
  encode_shape (and ts) = node_byte and_node (count_kids ts) ∷ encode_shapes ts
  encode_shape (or ts) = node_byte or_node (count_kids ts) ∷ encode_shapes ts

  pub encode_shapes : Trees Spec → Bytes
  encode_shapes no_kids = []
  encode_shapes (kid t ts) = encode_shape t ++ encode_shapes ts

-- What is found goes on to the next step; a throw and an unknown check end the decoding.
module _ {ℓ κ} {A : Type ℓ} {B : Type κ} where
  unfoldable pub and_then : Decoded A → (A → Option Bytes → Decoded B) → Decoded B
  and_then malformed next = malformed
  and_then (unknown t) next = unknown t
  and_then (found a place) next = next a place

unfoldable pub decode_leaf : ℕ → Option CheckId → Bytes → Decoded (Tree Params)
unfolding and_then
decode_leaf prm none rest = unknown prm
decode_leaf prm (some id) rest = and_then (decode_params id rest) (λ p place. found (check p) place)

-- The loop over the children. At a NaN position the byte is `undefined`, which reads as an AND node
-- without children: that throws.
unfoldable pub decode_kids :
    (Bytes → Decoded (Tree Params)) → ℕ → Option Bytes → Decoded (Trees Params)
unfolding and_then
decode_kids decode zero place = found no_kids place
decode_kids decode (suc n) none = malformed
decode_kids decode (suc n) (some bytes) =
    and_then (decode bytes)
      λ t place. and_then (decode_kids decode n place) λ ts last. found (kid t ts) last

-- An inner node, `levels` above the depth limit.
unfoldable pub decode_inner :
    ℕ → (ℕ → Option Bytes → Decoded (Trees Params)) → ℕ → Bytes → Decoded (Tree Params)
unfolding and_then
decode_inner type kids prm rest =
    let ts = kids prm (some rest) in
    if not (between 2 max_children prm)
    then malformed
    else and_then ts (λ ts place. found (if type == and_node then and ts else or ts) place)

abbrev no_level : ℕ → Option Bytes → Decoded (Trees Params)
no_level prm place = malformed

-- The first byte of a node: `b >> 5` and `b & 0x1f`.
unfoldable pub decode_node :
    (ℕ → Option Bytes → Decoded (Trees Params)) → ℕ → Bytes → Decoded (Tree Params)
unfolding decode_leaf decode_inner
decode_node kids b rest =
    let type = b / 32 in
    let inner = decode_inner type kids (b % 32) rest in
    if type == leaf_node
    then decode_leaf (b % 32) (by_tag (b % 32)) rest
    else if not (type == and_node) && not (type == or_node)
    then malformed
    else inner

-- `decodeShape(bytes, at, depth)`, by recursion on `MAX_DEPTH - depth`.
unfoldable pub decode_shape : ℕ → Bytes → Decoded (Tree Params)
unfolding decode_node decode_kids
decode_shape levels [] = malformed
decode_shape zero (b ∷ rest) = decode_node no_level b rest
decode_shape (suc levels) (b ∷ rest) = decode_node (decode_kids (decode_shape levels)) b rest
