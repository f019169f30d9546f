-- ===== src/Policy/Open.antt =====
-- shared/policy.mjs (`parse`, `open`) and the `readMaterial` and `open` of each check: the reader's
-- side. Bytes from a position on stand for the array and the position; `none` is a position that
-- is NaN.
use lortnoc_tahc.Base.{
  ℕ, zero, suc, ◌+◌, ◌-◌, ◌*◌, Bool, false, Option, none, some, List, [], ◌∷◌, if◌then◌else◌, ltb,
  length, take, drop, Bytes, xor,
}
use lortnoc_tahc.Keys.{KeyPair, derive_conv_key}
use lortnoc_tahc.Policy.{Tree, Trees, check, and, or, no_kids, kid, under, leaves}
use lortnoc_tahc.Policy.Checks.{
  Params, public_params, passphrase_params, recipients_params, after_params, human_params,
  nft_params, or_zero,
}
use lortnoc_tahc.Policy.Decode.{Decoded, malformed, unknown, found}
use lortnoc_tahc.Policy.Shape.{max_depth, decode_shape}
use lortnoc_tahc.Policy.Rules.{max_leaves}
use lortnoc_tahc.Policy.Candidates.{candidates}
use lortnoc_tahc.Policy.Seal.{
  Kdf, Primitives, mask, stretch, public_channel_key, public_label, pass_label, recip_label, cek,
  ad,
}

-- `inputs`: what a reader has, and the gate, which gives the share for a reference or does not.
pub record Reader : Type 0 where
  pub use_public : Bool
  pub passphrases : List Bytes
  pub msg_key : Option KeyPair
  pub release : Params → Bytes → Bytes → Option Bytes
  pub profiles : List Kdf

-- A leaf as the reader has it.
pub record Sealed : Type 0 where
  pub params : Params
  pub path : List ℕ
  pub material : Bytes

-- The number of bytes that `readMaterial` takes.
unfoldable pub material_size : Params → ℕ
material_size public_params = 16
material_size (passphrase_params profile hint) = 16
material_size (recipients_params count) = 32 + 16 * count
material_size _ = 8

abbrev pub take_from : ℕ → Option Bytes → Bytes
take_from n none = []
take_from n (some bytes) = take n bytes

abbrev pub drop_from : ℕ → Option Bytes → Option Bytes
drop_from n none = none
drop_from n (some bytes) = some (drop n bytes)

-- The material of each leaf, in their order, and the position behind the last. The `Map` of the
-- source, keyed by the path, is the tree that holds the material.
unfoldable mutual
  unfolding material_size

  pub read_tree : Tree Params → List ℕ → Option Bytes → Tree Sealed × Option Bytes
  read_tree (check p) path place = (
    check (record { params = p; path = path; material = take_from (material_size p) place }),
    drop_from (material_size p) place,
  )
  read_tree (and ts) path place = let read = read_trees ts path 0 place in (and read.0, read.1)
  read_tree (or ts) path place = let read = read_trees ts path 0 place in (or read.0, read.1)

  pub read_trees : Trees Params → List ℕ → ℕ → Option Bytes → Trees Sealed × Option Bytes
  read_trees no_kids path i place = (no_kids, place)
  read_trees (kid t ts) path i place =
      let first = read_tree t (under path i) place in
      let others = read_trees ts path (i + 1) first.1 in (kid first.0 others.0, others.1)

-- What `parse` gives.
pub record Parsed : Type 0 where
  pub nonce : Bytes
  pub shape : Tree Sealed
  pub policy_hash : Bytes
  pub header : Bytes
  pub body : Bytes

-- `parse` throws, or names a check that this version does not know, or succeeds.
pub data Outcome : Type 0 where
  rejected : Outcome
  unsupported : ℕ → Outcome
  parsed : Parsed → Outcome

-- `payload.subarray(0, at)` and `payload.subarray(at)`, the bytes from `at` on given.
abbrev pub before : Bytes → Option Bytes → Bytes
before payload none = []
before payload (some rest) = take (length payload - length rest) payload

abbrev pub from : Bytes → Option Bytes → Bytes
from payload none = payload
from payload (some rest) = rest

-- `at + 16 > payload.length`
abbrev pub is_truncated : Option Bytes → Bool
is_truncated none = false
is_truncated (some rest) = ltb (length rest) 16

module _ (c : Primitives) where
  -- `passphrases.map(...)`: a profile that is not in the list throws, and the leaf gives nothing.
  unfoldable pub open_words :
      List Kdf → Bytes → List ℕ → Bytes → ℕ → List Bytes → Option (List Bytes)
  unfolding stretch
  open_words profiles nonce path wrap profile [] = some []
  open_words profiles nonce path wrap profile (w ∷ ws) = elim (stretch c profiles nonce w profile) [
    | none ↦ none
    | some ikm ↦ elim (open_words profiles nonce path wrap profile ws) [
      | none ↦ none
      | some others ↦ some (xor wrap (mask c nonce path ikm pass_label []) ∷ others)
    ]
  ]

  abbrev pub or_nothing : Option (List Bytes) → List Bytes
  or_nothing none = []
  or_nothing (some xs) = xs

  -- Each wrap is a candidate: `n` of them from the index `j` on.
  unfoldable pub unwraps : Bytes → List ℕ → Bytes → Bytes → ℕ → ℕ → List Bytes
  unwraps nonce path key wraps zero j = []
  unwraps nonce path key wraps (suc n) j =
      xor (take 16 wraps) (mask c nonce path key recip_label (j ∷ []))
      ∷ unwraps nonce path key (drop 16 wraps) n (j + 1)

  unfoldable pub open_wraps : Bytes → List ℕ → Bytes → ℕ → Option KeyPair → List Bytes
  unfolding unwraps
  open_wraps nonce path material count none = []
  open_wraps nonce path material count (some me) =
      let key = derive_conv_key c.curve me.private (take 32 material) me.public in
      unwraps nonce path key (drop 32 material) count 0

  abbrev pub released : Option Bytes → List Bytes
  released none = []
  released (some share) = share ∷ []

  -- `open` of each check: the candidates for the share of a leaf, none where it throws. Those that the
  -- gate holds are alike.
  abbrev pub open_public : Reader → Bytes → Sealed → List Bytes
  open_public reader nonce leaf =
      if reader.use_public
      then xor leaf.material (mask c nonce leaf.path (public_channel_key c) public_label []) ∷ []
      else []

  abbrev pub open_held : Reader → Bytes → Sealed → List Bytes
  open_held reader policy_hash leaf =
      released (reader.release leaf.params leaf.material policy_hash)

  unfoldable pub open_leaf : Reader → Bytes → Bytes → Sealed → List Bytes
  unfolding open_words open_wraps
  open_leaf reader nonce policy_hash leaf = elim leaf.params [
    | public_params ↦ open_public reader nonce leaf
    | passphrase_params profile hint ↦ or_nothing (
        open_words reader.profiles nonce leaf.path leaf.material (or_zero profile)
          reader.passphrases)
    | recipients_params count ↦ open_wraps nonce leaf.path leaf.material count reader.msg_key
    | after_params ms ↦ open_held reader policy_hash leaf
    | human_params preset space country ↦ open_held reader policy_hash leaf
    | nft_params space ↦ open_held reader policy_hash leaf
  ]

  unfoldable pub parse_material : Bytes → Option Bytes → Tree Params → Outcome
  unfolding read_tree
  parse_material payload place shape =
      let read = read_tree shape [] place in
      if ltb max_leaves (length (leaves shape []))
      then rejected
      else if is_truncated read.1
      then rejected
      else parsed (record {
        nonce = take 8 payload;
        shape = read.0;
        policy_hash = c.sha256 (before payload place);
        header = before payload read.1;
        body = from payload read.1;
      })

  unfoldable pub parse_shape : Bytes → Decoded (Tree Params) → Outcome
  unfolding parse_material
  parse_shape payload malformed = rejected
  parse_shape payload (unknown t) = unsupported t
  parse_shape payload (found shape place) = parse_material payload place shape

  unfoldable pub parse : Bytes → Outcome
  unfolding parse_shape
  parse payload =
      if ltb (length payload) 25
      then rejected
      else parse_shape payload (decode_shape max_depth (drop 8 payload))

  -- The first candidate whose key verifies the tag.
  unfoldable pub first_opened : Bytes → Bytes → Bytes → List Bytes → Option Bytes
  first_opened nonce ad body [] = none
  first_opened nonce ad body (k ∷ ks) = elim (c.siv_open (cek c k nonce) ad body) [
    | some text ↦ some text
    | none ↦ first_opened nonce ad body ks
  ]

  unfoldable pub open_parsed : Reader → Bool → Outcome → Option Bytes
  unfolding first_opened candidates
  open_parsed reader squeezed rejected = none
  open_parsed reader squeezed (unsupported t) = none
  open_parsed reader squeezed (parsed p) =
      first_opened p.nonce (ad p.header squeezed) p.body
        (candidates (open_leaf reader p.nonce p.policy_hash) p.shape)

  -- `open`: the text, or null on any failure.
  unfoldable pub open_payload : Reader → Bool → Bytes → Option Bytes
  unfolding open_parsed
  open_payload reader squeezed payload = open_parsed reader squeezed (parse payload)
