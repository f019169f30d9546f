-- ===== src/Policy/Seal.antt =====
-- shared/policy.mjs (`leafCtx`, `compile`) and the `seal` of each check: the author's side. What the
-- source draws at random, and the third-party cryptography, are parameters: `Primitives` and `Author`.
use lortnoc_tahc.Base.{
  ℕ, zero, suc, ◌+◌, ◌*◌, ◌/◌, ◌≤◌, ◌≡◌, ◌⊎◌, Bool, Option, none, some, List, [], ◌∷◌, ◌++◌,
  if◌then◌else◌, ◌==◌, length, Bytes, xor,
}
use lortnoc_tahc.Keys.{Crypto, CryptoLaws, codes, derive_conv_key}
use lortnoc_tahc.Policy.{Tree, Trees, check, and, or, no_kids, kid, under}
use lortnoc_tahc.Policy.Checks.{
  Preset, Spec, public_spec, passphrase_spec, recipients_spec, after_spec, human_spec, nft_spec,
  Params, after_params, human_params, nft_params, or_zero, or_poh,
}
use lortnoc_tahc.Policy.Shape.{encode_shape}
use lortnoc_tahc.Policy.Rules.{validate, Fault}

-- `{ t, m, p }`
pub record Kdf : Type 0 where
  pub time : ℕ
  pub memory : ℕ
  pub parallel : ℕ

-- `KDF_PROFILES`
abbrev pub kdf_profiles : List Kdf
kdf_profiles =
    record { time = 2; memory = 19456; parallel = 1 }
    ∷ record { time = 3; memory = 65536; parallel = 1 }
    ∷ []

-- Third-party code: `aessiv(key, ad)`, `sha256`, `argon2id` with 32 bytes of output, and
-- `normalisePassphrase`, which stands on the tables of Unicode.
pub record Primitives : Type 0 where
  pub curve : Crypto
  pub open curve use *
  pub siv_seal : Bytes → Bytes → Bytes → Bytes
  pub siv_open : Bytes → Bytes → Bytes → Option Bytes
  pub sha256 : Bytes → Bytes
  pub argon2id : Bytes → Bytes → Kdf → Bytes
  pub normalise : Bytes → Bytes

-- The documented behaviour that the code relies on: that of the conversation keys, HKDF gives as many
-- bytes as asked, and AES-SIV adds a tag of 16 bytes, opens what it sealed, and opens nothing under
-- another key of that size.
pub record PrimitivesLaws (c : Primitives) : Type 0 where
  pub hkdf_size : (ikm salt info : Bytes) (n : ℕ) → length (c.hkdf ikm salt info n) ≡ n
  pub curve_laws : CryptoLaws c.curve
  pub tag_size : (key ad m : Bytes) → 16 ≤ length (c.siv_seal key ad m)
  pub opens : (key ad m : Bytes) → c.siv_open key ad (c.siv_seal key ad m) ≡ some m
  pub rejects :
      (key other ad m : Bytes)
      → length key ≡ length other
      → (c.siv_open other ad (c.siv_seal key ad m) ≡ none) ⊎ (key ≡ other)

-- What the author's device draws at random, and the gate: `deposit(request, share, policyHash, path)`
-- gives the reference, or `none` where it throws or there is no gate.
pub record Author : Type 0 where
  pub nonce : Bytes
  pub root : Bytes
  -- the share of the child at a path, and the private ephemeral key of the leaf at a path
  pub draw : List ℕ → Bytes
  pub ephemeral : List ℕ → Bytes
  pub profiles : List Kdf
  pub deposit : Params → Bytes → Bytes → List ℕ → Option Bytes

-- `rand(NONCE_LEN)` and `rand(SHARE_LEN)` give that many bytes.
pub record AuthorSizes (author : Author) : Type 0 where
  pub nonce_size : length author.nonce ≡ 8
  pub root_size : length author.root ≡ 16
  pub draw_size : (path : List ℕ) → length (author.draw path) ≡ 16

abbrev pub share_len : ℕ
share_len = 16

-- A leaf with its path and the share of the key that it guards.
pub record Held : Type 0 where
  pub spec : Spec
  pub path : List ℕ
  pub share : Bytes

-- `assign`: an OR hands the whole key to each child, an AND hands out random shares and to its last
-- child what is left. The `Map` of the source, keyed by the path, is the tree that holds the shares.
module _ (draw : List ℕ → Bytes) where
  unfoldable mutual
    pub assign : Tree Spec → Bytes → List ℕ → Tree Held
    assign (check a) key path = check (record { spec = a; path = path; share = key })
    assign (or ts) key path = or (assign_each ts key path 0)
    assign (and ts) key path = and (assign_split ts key path 0)

    pub assign_each : Trees Spec → Bytes → List ℕ → ℕ → Trees Held
    assign_each no_kids key path i = no_kids
    assign_each (kid t ts) key path i =
        kid (assign t key (under path i)) (assign_each ts key path (i + 1))

    pub assign_split : Trees Spec → Bytes → List ℕ → ℕ → Trees Held
    assign_split no_kids acc path i = no_kids
    assign_split (kid t no_kids) acc path i = kid (assign t acc (under path i)) no_kids
    assign_split (kid t (kid u us)) acc path i =
        kid (assign t (draw (under path i)) (under path i))
          (assign_split (kid u us) (xor acc (draw (under path i))) path (i + 1))

abbrev pub nth_profile : List Kdf → ℕ → Option Kdf
nth_profile [] n = none
nth_profile (k ∷ ks) zero = some k
nth_profile (k ∷ ks) (suc n) = nth_profile ks n

abbrev pub pass_label : Bytes
pass_label = codes "lortnoc/policy/pass/v1"

abbrev pub public_label : Bytes
public_label = codes "lortnoc/policy/public/v1"

abbrev pub recip_label : Bytes
recip_label = codes "lortnoc/policy/recip/v1"

abbrev pub cek_label : Bytes
cek_label = codes "lortnoc/policy/cek/v1"

abbrev pub both : Option Bytes → Option Bytes → Option Bytes
both none later = none
both (some m) none = none
both (some m) (some ms) = some (m ++ ms)

-- `ad(header, squeezed)`
abbrev pub ad : Bytes → Bool → Bytes
ad header squeezed = (if squeezed then 1 else 0) ∷ header

module _ (c : Primitives) where
  -- `derivePublicChannelKey`
  unfoldable pub public_channel_key : Bytes
  public_channel_key =
      c.hkdf (codes "lortnoc tahc public channel v1") (codes "lortnoc/x/public/v1")
        (codes "x-public") 64

  -- `ctx.mask`
  unfoldable pub mask : Bytes → List ℕ → Bytes → Bytes → Bytes → Bytes
  mask nonce path ikm label suffix = c.hkdf ikm nonce (label ++ (path ++ suffix)) share_len

  -- `stretch`; the cache holds only what this computes.
  unfoldable pub stretch_with : Bytes → Bytes → Option Kdf → Option Bytes
  stretch_with nonce words none = none
  stretch_with nonce words (some kdf) =
      some (c.argon2id (c.normalise words) (nonce ++ pass_label) kdf)

  unfoldable pub stretch : List Kdf → Bytes → Bytes → ℕ → Option Bytes
  unfolding stretch_with
  stretch profiles nonce words profile = stretch_with nonce words (nth_profile profiles profile)

  unfoldable pub mask_share : Bytes → List ℕ → Bytes → Option Bytes → Option Bytes
  mask_share nonce path share none = none
  mask_share nonce path share (some ikm) = some (xor share (mask nonce path ikm pass_label []))

  -- The wraps of a share, one for each recipient, from the index `j` on.
  unfoldable pub wraps : Bytes → List ℕ → Bytes → Bytes → List Bytes → ℕ → Bytes
  wraps nonce path share private [] j = []
  wraps nonce path share private (k ∷ ks) j =
      xor share (
        mask nonce path (derive_conv_key c.curve private k (c.public_key private)) recip_label
          (j ∷ []))
      ++ wraps nonce path share private ks (j + 1)

  abbrev ref_len : ℕ
  ref_len = 8

  unfoldable pub good_ref : Option Bytes → Option Bytes
  good_ref none = none
  good_ref (some ref) = if length ref == ref_len then some ref else none

  -- `seal` of each check: none where it throws.
  abbrev pub seal_public : Author → Held → Option Bytes
  seal_public author held =
      some (xor held.share (mask author.nonce held.path public_channel_key public_label []))

  abbrev pub seal_passphrase : Author → Held → Bytes → ℕ → Option Bytes
  seal_passphrase author held words profile =
      mask_share author.nonce held.path held.share
        (stretch author.profiles author.nonce words profile)

  abbrev pub seal_recipients : Author → Held → List Bytes → Option Bytes
  seal_recipients author held keys =
      let private = author.ephemeral held.path in
      some (c.public_key private ++ wraps author.nonce held.path held.share private keys 0)

  abbrev pub seal_after : Author → Bytes → Held → ℕ → Option Bytes
  seal_after author policy_hash held ms =
      good_ref (author.deposit (after_params (ms / 1000 * 1000)) held.share policy_hash held.path)

  abbrev pub seal_human :
      Author → Bytes → Held → Option Preset → Option Bytes → Bytes → Option Bytes
  seal_human author policy_hash held preset space country =
      good_ref (
        author.deposit (human_params (or_poh preset) space country) held.share policy_hash
          held.path)

  abbrev pub seal_nft : Author → Bytes → Held → Bytes → Option Bytes
  seal_nft author policy_hash held space =
      good_ref (author.deposit (nft_params space) held.share policy_hash held.path)

  unfoldable pub seal : Author → Bytes → Held → Option Bytes
  unfolding good_ref stretch mask_share wraps
  seal author policy_hash held = elim held.spec [
    | public_spec ↦ seal_public author held
    | passphrase_spec profile hint words key ↦ seal_passphrase author held words (or_zero profile)
    | recipients_spec keys ↦ seal_recipients author held keys
    | after_spec ms ↦ seal_after author policy_hash held ms
    | human_spec preset space country ↦ seal_human author policy_hash held preset space country
    | nft_spec space ↦ seal_nft author policy_hash held space
  ]

  -- The material of the leaves in their order.
  unfoldable mutual
    unfolding seal

    pub seal_tree : Author → Bytes → Tree Held → Option Bytes
    seal_tree author policy_hash (check held) = seal author policy_hash held
    seal_tree author policy_hash (and ts) = seal_trees author policy_hash ts
    seal_tree author policy_hash (or ts) = seal_trees author policy_hash ts

    pub seal_trees : Author → Bytes → Trees Held → Option Bytes
    seal_trees author policy_hash no_kids = some []
    seal_trees author policy_hash (kid t ts) =
        both (seal_tree author policy_hash t) (seal_trees author policy_hash ts)

  unfoldable pub cek : Bytes → Bytes → Bytes
  cek root nonce = c.hkdf root nonce cek_label 64

  unfoldable pub container : Bytes → Bytes → Bool → Bytes → Bytes → Option Bytes → Option Bytes
  container root nonce squeezed text head none = none
  container root nonce squeezed text head (some material) =
      some ((head ++ material) ++ c.siv_seal (cek root nonce) (ad (head ++ material) squeezed) text)

  unfoldable pub compile_valid : Author → Bool → Bytes → Tree Spec → Option Fault → Option Bytes
  unfolding container
  compile_valid author squeezed text policy (some fault) = none
  compile_valid author squeezed text policy none =
      let head = author.nonce ++ encode_shape policy in
      container author.root author.nonce squeezed text head
        (seal_tree author (c.sha256 head) (assign author.draw policy author.root []))

  -- `compile`: the container of a policy and a text, none where it throws.
  unfoldable pub compile : Author → Bool → Bytes → Tree Spec → Option Bytes
  unfolding compile_valid
  compile author squeezed text policy =
      compile_valid author squeezed text policy (validate c.normalise policy 0)
