-- ===== src/Policy/Material.antt =====
-- shared/policy.mjs: the material that the author's leaves seal is what the reader's leaves read.
use lortnoc_tahc.Base.{
  some_inj, ℕ, ◌+◌, ◌*◌, ◌/◌, ◌≡◌, refl, ◌∙◌, subst, Option, none, some, List, [], ◌∷◌, ◌++◌,
  append_assoc, length, length-append, take_at, drop_at, Bytes, xor, length-xor, arith,
}
use lortnoc_tahc.Policy.{Tree, Trees, check, and, or, no_kids, kid, under, tree_map, trees_map}
use lortnoc_tahc.Policy.Checks.{
  Spec, public_spec, passphrase_spec, recipients_spec, after_spec, human_spec, nft_spec, Params,
  or_empty, or_poh, after_params, human_params, nft_params,
}
use lortnoc_tahc.Policy.CheckLaws.{public_part}
use lortnoc_tahc.Policy.Seal.{
  Primitives, PrimitivesLaws, Author, AuthorSizes, Held, share_len, seal, seal_tree, seal_trees,
  both, good_ref, wraps, recip_label, mask_share, mask, assign, assign_each, assign_split,
}
use lortnoc_tahc.Keys.{derive_conv_key}
use lortnoc_tahc.Policy.Open.{Sealed, material_size, read_tree, read_trees}

both_parts :
    (a b : Option Bytes) (m : Bytes)
    → both a b ≡ some m
    → (x : Bytes) × (y : Bytes) × (a ≡ some x) × (b ≡ some y) × (m ≡ x ++ y)
both_parts none b m h = absurd cc
both_parts (some x) none m h = absurd cc
both_parts (some x) (some y) m h = (x, y, refl, refl, cc)

-- A held leaf as the reader finds it.
module _ (c : Primitives) (author : Author) (policy_hash : Bytes) where
  unfoldable pub view : Held → Sealed
  view held = record {
    params = public_part held.spec;
    path = held.path;
    material = or_empty (seal c author policy_hash held);
  }

module _ (c : Primitives) (laws : PrimitivesLaws c) where
  good_ref_size : (o : Option Bytes) (m : Bytes) → good_ref c o ≡ some m → length m ≡ 8
  unfolding good_ref
  good_ref_size none m h = absurd cc
  good_ref_size (some r) m h = ground (arith, h)

  length-wraps :
      (nonce : Bytes) (path : List ℕ) (share private : Bytes) (keys : List Bytes) (j : ℕ)
      → length share ≡ share_len
      → length (wraps c nonce path share private keys j) ≡ 16 * length keys
  unfolding wraps
  length-wraps nonce path share private [] j h = omega arith
  length-wraps nonce path share private (k ∷ ks) j h = omega (
    arith,
    h,
    length-append
        (xor share (
          mask c nonce path (derive_conv_key c.curve private k (c.public_key private)) recip_label
            (j ∷ [])))
        (wraps c nonce path share private ks (j + 1)),
    length-xor share (
        mask c nonce path (derive_conv_key c.curve private k (c.public_key private)) recip_label
          (j ∷ [])),
    length-wraps nonce path share private ks (j + 1) h,
  )

  length-mask_share :
      (nonce : Bytes) (path : List ℕ) (share : Bytes) (o : Option Bytes) (m : Bytes)
      → mask_share c nonce path share o ≡ some m
      → length m ≡ length share
  unfolding mask_share
  length-mask_share nonce path share none m h = absurd cc
  length-mask_share nonce path share (some k) m h =
      subst (λ x. length x ≡ length share) (some_inj h) (length-xor share _)

  -- A leaf of a share of 16 bytes seals as many bytes as the reader takes for it.
  seal_size :
      (author : Author) (policy_hash : Bytes) (spec : Spec) (path : List ℕ) (share m : Bytes)
      → length share ≡ share_len
      → seal c author policy_hash (record { spec = spec; path = path; share = share }) ≡ some m
      → length m ≡ material_size (public_part spec)
  unfolding seal material_size public_part
  seal_size author policy_hash public_spec path share m sized sealed =
      subst (λ x. length x ≡ 16) (some_inj sealed) (length-xor share _ ∙ sized)
  seal_size author policy_hash (passphrase_spec profile hint words key) path share m sized sealed =
      length-mask_share author.nonce path share _ m sealed ∙ sized
  seal_size author policy_hash (recipients_spec keys) path share m sized sealed =
      subst (λ x. length x ≡ 32 + 16 * length keys) (some_inj sealed)
        (omega (
          arith,
          length-append public (wraps c author.nonce path share (author.ephemeral path) keys 0),
          laws.curve_laws.key_size (author.ephemeral path),
          length-wraps author.nonce path share (author.ephemeral path) keys 0 sized,
        ))
    where
      public : Bytes
      public = c.public_key (author.ephemeral path)
  seal_size author policy_hash (after_spec ms) path share m sized sealed =
      good_ref_size (author.deposit (after_params (ms / 1000 * 1000)) share policy_hash path) m
        sealed
  seal_size author policy_hash (human_spec preset space country) path share m sized sealed =
      good_ref_size
        (author.deposit (human_params (or_poh preset) space country) share policy_hash path) m
        sealed
  seal_size author policy_hash (nft_spec space) path share m sized sealed =
      good_ref_size (author.deposit (nft_params space) share policy_hash path) m sealed

  -- The children that are read one after the other.
  read_kid :
      (t : Tree Params) (ts : Trees Params) (w : Tree Sealed) (ws : Trees Sealed) (path : List ℕ)
      (i : ℕ) (x y m rest : Bytes)
      → m ≡ x ++ y
      → read_tree t (under path i) (some (x ++ (y ++ rest))) ≡ (w, some (y ++ rest))
      → read_trees ts path (i + 1) (some (y ++ rest)) ≡ (ws, some rest)
      → read_trees (kid t ts) path i (some (m ++ rest)) ≡ (kid w ws, some rest)
  unfolding read_tree
  read_kid t ts w ws path i x y m rest e first others =
      rw (e, append_assoc x y rest, first, others) refl

  read_none :
      (path : List ℕ) (i : ℕ) (m rest : Bytes)
      → some [] ≡ some m
      → read_trees no_kids path i (some (m ++ rest)) ≡ (no_kids, some rest)
  unfolding read_tree
  read_none path i m rest e =
      subst (λ x. read_trees no_kids path i (some (x ++ rest)) ≡ (no_kids, some rest)) (some_inj e)
        refl

  module _ (author : Author) (sizes : AuthorSizes author) (policy_hash : Bytes) where
    mutual
      unfolding assign tree_map seal_tree read_tree view

      pub read_tree-seal_tree :
          (t : Tree Spec) (key : Bytes) (path : List ℕ) (m rest : Bytes)
          → length key ≡ share_len
          → seal_tree c author policy_hash (assign author.draw t key path) ≡ some m
          → read_tree (tree_map public_part t) path (some (m ++ rest))
            ≡ (tree_map (view c author policy_hash) (assign author.draw t key path), some rest)
      read_tree-seal_tree (check a) key path m rest size sealed =
          let whole = seal_size author policy_hash a path key m size sealed in
          rw
            (
              take_at m rest (material_size (public_part a)) whole,
              drop_at m rest (material_size (public_part a)) whole,
              sealed,
            )
            refl
      read_tree-seal_tree (or ts) key path m rest size sealed =
          rw (read_each ts key path 0 m rest size sealed)
      read_tree-seal_tree (and ts) key path m rest size sealed =
          rw (read_split ts key path 0 m rest size sealed)

      read_each :
          (ts : Trees Spec) (key : Bytes) (path : List ℕ) (i : ℕ) (m rest : Bytes)
          → length key ≡ share_len
          → seal_trees c author policy_hash (assign_each author.draw ts key path i) ≡ some m
          → read_trees (trees_map public_part ts) path i (some (m ++ rest)) ≡ (
            trees_map (view c author policy_hash) (assign_each author.draw ts key path i),
            some rest,
          )
      read_each no_kids key path i m rest size sealed = read_none path i m rest sealed
      read_each (kid t ts) key path i m rest size sealed =
          let parts =
            both_parts (seal_tree c author policy_hash (assign author.draw t key (under path i)))
              (seal_trees c author policy_hash (assign_each author.draw ts key path (i + 1))) m
              sealed in
          read_kid (tree_map public_part t) (trees_map public_part ts)
            (tree_map (view c author policy_hash) (assign author.draw t key (under path i)))
            (trees_map (view c author policy_hash) (assign_each author.draw ts key path (i + 1)))
            path i parts.0 parts.1 m rest parts.4
            (read_tree-seal_tree t key (under path i) parts.0 (parts.1 ++ rest) size parts.2)
            (read_each ts key path (i + 1) parts.1 rest size parts.3)

      read_split :
          (ts : Trees Spec) (key : Bytes) (path : List ℕ) (i : ℕ) (m rest : Bytes)
          → length key ≡ share_len
          → seal_trees c author policy_hash (assign_split author.draw ts key path i) ≡ some m
          → read_trees (trees_map public_part ts) path i (some (m ++ rest)) ≡ (
            trees_map (view c author policy_hash) (assign_split author.draw ts key path i),
            some rest,
          )
      read_split no_kids key path i m rest size sealed = read_none path i m rest sealed
      read_split (kid t no_kids) key path i m rest size sealed =
          let parts =
            both_parts (seal_tree c author policy_hash (assign author.draw t key (under path i)))
              (some []) m sealed in
          read_kid (tree_map public_part t) no_kids
            (tree_map (view c author policy_hash) (assign author.draw t key (under path i))) no_kids
            path i parts.0 parts.1 m rest parts.4
            (read_tree-seal_tree t key (under path i) parts.0 (parts.1 ++ rest) size parts.2)
            (read_none path (i + 1) parts.1 rest parts.3)
      read_split (kid t (kid u us)) key path i m rest size sealed =
          let s = author.draw (under path i) in
          let others = assign_split author.draw (kid u us) (xor key s) path (i + 1) in
          let parts =
            both_parts (seal_tree c author policy_hash (assign author.draw t s (under path i)))
              (seal_trees c author policy_hash others) m sealed in
          read_kid (tree_map public_part t) (trees_map public_part (kid u us))
            (tree_map (view c author policy_hash) (assign author.draw t s (under path i)))
            (trees_map (view c author policy_hash) others) path i parts.0 parts.1 m rest parts.4
            (read_tree-seal_tree t s (under path i) parts.0 (parts.1 ++ rest)
              (sizes.draw_size (under path i)) parts.2)
            (read_split (kid u us) (xor key s) path (i + 1) parts.1 rest (length-xor key s ∙ size)
              parts.3)
