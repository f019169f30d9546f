-- ===== src/Policy/Leaves.antt =====
-- shared/checks/*.mjs: what a reader must have for a leaf to give its share, and what it means to give
-- nothing.
use lortnoc_tahc.Base.{
  ℕ, ◌+◌, ◌*◌, ◌/◌, ◌%◌, ◌^◌, ◌<◌, ◌≡◌, refl, ap, ◌∙◌, subst, Bool, true, false, Option, some, List,
  [], ◌∷◌, ◌++◌, map, ◌||◌, length, take_at, drop_at, Bytes, list_eq, list_eq_self, list_eq_sound,
  xor, xor_twice, length-xor, arith, Bool-cases, inl, inr,
}
use lortnoc_tahc.Keys.{derive_conv_key}
use lortnoc_tahc.Keys.Laws.{derive_conv_key_agree}
use lortnoc_tahc.Policy.Checks.{
  public_spec, passphrase_spec, recipients_spec, after_spec, or_zero, after_params,
}
use lortnoc_tahc.Policy.CheckLaws.{public_part}
use lortnoc_tahc.Policy.Candidates.{contains}
use lortnoc_tahc.Policy.Seal.{
  Kdf, Primitives, PrimitivesLaws, Author, share_len, seal, stretch, mask_share, mask, pass_label,
  recip_label, wraps, nth_profile, good_ref,
}
use lortnoc_tahc.Policy.Open.{Reader, open_leaf, open_words, unwraps, open_wraps}
use lortnoc_tahc.Policy.Material.{view}

module _ (c : Primitives) where
  masked_twice :
      (share : Bytes) (m : Bytes) (xs : List Bytes)
      → contains share (xor (xor share m) m ∷ xs) ≡ true
  masked_twice share m xs = rw (xor_twice share m) (ground (arith, list_eq_self share))

  -- Anyone whose settings do not switch public posts off is given the share of a `public` leaf.
  pub public_gives :
      (author : Author) (hash : Bytes) (path : List ℕ) (share : Bytes) (reader : Reader)
      → reader.use_public ≡ true
      → contains share (
          open_leaf c reader author.nonce hash
            (view c author hash (record { spec = public_spec; path = path; share = share })))
        ≡ true
  unfolding open_leaf view seal public_part
  public_gives author hash path share reader on = rw on (masked_twice share _ [])

  -- `words` among the reader's passphrases, by what normalising makes of both.
  abbrev pub knows : Bytes → List Bytes → Bool
  knows words [] = false
  knows words (w ∷ ws) = list_eq (c.normalise words) (c.normalise w) || knows words ws

  module _ (nonce : Bytes) (path : List ℕ) (kdf : Kdf) where
    -- The mask of a passphrase, and what a reader tries with one.
    abbrev word_mask : Bytes → Bytes
    word_mask words =
        mask c nonce path (c.argon2id (c.normalise words) (nonce ++ pass_label) kdf) pass_label []

    abbrev attempt : Bytes → Bytes → Bytes
    attempt wrap words = xor wrap (word_mask words)

    open_words-map :
        (profiles : List Kdf) (wrap : Bytes) (profile : ℕ) (ws : List Bytes)
        → nth_profile profiles profile ≡ some kdf
        → open_words c profiles nonce path wrap profile ws ≡ some (map (attempt wrap) ws)
    unfolding open_words stretch
    open_words-map profiles wrap profile [] known = refl
    open_words-map profiles wrap profile (w ∷ ws) known =
        rw (open_words, known, open_words-map profiles wrap profile ws known) refl

    contains-attempts :
        (share words : Bytes) (ws : List Bytes)
        → knows words ws ≡ true
        → contains share (map (attempt (attempt share words)) ws) ≡ true
    contains-attempts share words [] known = absurd cc
    contains-attempts share words (w ∷ ws) known =
        elim (Bool-cases (list_eq (c.normalise words) (c.normalise w))) [
          | inl same ↦
              let again : attempt (attempt share words) w ≡ share =
                subst
                  (λ n.
                    xor (attempt share words)
                      (mask c nonce path (c.argon2id n (nonce ++ pass_label) kdf) pass_label [])
                    ≡ share)
                  (list_eq_sound (c.normalise words) (c.normalise w) same)
                  (xor_twice share (word_mask words)) in
              rw again (ground (arith, list_eq_self share))
          | inr other ↦ ground (arith, other, known, contains-attempts share words ws)
        ]

  -- A reader one of whose passphrases normalises to what the author's does is given the share of a
  -- `passphrase` leaf, if both know the profile that the leaf names, which is below 256.
  pub passphrase_gives :
      (author : Author) (hash : Bytes) (path : List ℕ) (share : Bytes) (reader : Reader)
      (profile : Option ℕ) (hint words : Bytes) (key : Option Bytes) (kdf : Kdf)
      → or_zero profile < 256
      → nth_profile author.profiles (or_zero profile) ≡ some kdf
      → nth_profile reader.profiles (or_zero profile) ≡ some kdf
      → knows words reader.passphrases ≡ true
      → contains share (
          open_leaf c reader author.nonce hash (
            view c author hash (record {
              spec = passphrase_spec profile hint words key;
              path = path;
              share = share;
            })))
        ≡ true
  unfolding open_leaf view seal public_part stretch mask_share
  passphrase_gives author hash path share reader profile hint words key kdf small here there known =
      rw
        (
          whole,
          here,
          open_words-map author.nonce path kdf reader.profiles
              (attempt author.nonce path kdf share words) (or_zero profile) reader.passphrases
              there,
        )
        (contains-attempts author.nonce path kdf share words reader.passphrases known)
    where
      whole : or_zero profile % 256 ≡ or_zero profile
      whole = omega (arith, small)

  module _ (laws : PrimitivesLaws c) (nonce : Bytes) (path : List ℕ) (share : Bytes)
      (sized : length share ≡ share_len) (ephemeral mine : Bytes) where
    -- The key that a reader derives from the ephemeral public key of a leaf.
    abbrev reader_key : Bytes
    reader_key = derive_conv_key c.curve mine (c.public_key ephemeral) (c.public_key mine)

    author_key : Bytes → Bytes
    author_key k = derive_conv_key c.curve ephemeral k (c.public_key ephemeral)

    -- The wrap for the reader's own key comes first.
    mine_first :
        (k : Bytes) (ks : List Bytes) (j : ℕ)
        → c.public_key mine ≡ k
        → contains share (
            xor
              (xor share (mask c nonce path (author_key k) recip_label (j ∷ [])))
              (mask c nonce path reader_key recip_label (j ∷ []))
            ∷ unwraps c nonce path reader_key
                (wraps c nonce path share ephemeral ks (j + 1))
                (length ks)
                (j + 1))
          ≡ true
    unfolding author_key
    mine_first k ks j same =
        subst
          (λ key.
            contains share (
              xor (xor share (mask c nonce path key recip_label (j ∷ [])))
                (mask c nonce path reader_key recip_label (j ∷ []))
              ∷ unwraps c nonce path reader_key (wraps c nonce path share ephemeral ks (j + 1))
                  (length ks) (j + 1))
            ≡ true)
          (derive_conv_key_agree c.curve laws.curve_laws mine ephemeral
            ∙ ap (λ p. derive_conv_key c.curve ephemeral p (c.public_key ephemeral)) same)
          (masked_twice share (mask c nonce path reader_key recip_label (j ∷ [])) _)

    contains-unwraps :
        (keys : List Bytes) (j : ℕ)
        → contains (c.public_key mine) keys ≡ true
        → contains share (
            unwraps c nonce path reader_key
              (wraps c nonce path share ephemeral keys j)
              (length keys)
              j)
          ≡ true
    unfolding unwraps wraps author_key
    contains-unwraps [] j listed = absurd cc
    contains-unwraps (k ∷ ks) j listed =
        let wrap = xor share (mask c nonce path (author_key k) recip_label (j ∷ [])) in
        let later = wraps c nonce path share ephemeral ks (j + 1) in
        let whole =
          length-xor share (mask c nonce path (author_key k) recip_label (j ∷ [])) ∙ sized in
        rw (take_at wrap later 16 whole, drop_at wrap later 16 whole)
          (elim (Bool-cases (list_eq (c.public_key mine) k)) [
            | inl same ↦ mine_first k ks j (list_eq_sound (c.public_key mine) k same)
            | inr other ↦
                ground (arith, contains-unwraps ks (j + 1) (ground (arith, other, listed)))
          ])

  -- A reader whose messaging key is one of the recipients' is given the share, of 16 bytes, of a
  -- `recipients` leaf.
  pub recipients_gives :
      (laws : PrimitivesLaws c) (author : Author) (hash : Bytes) (path : List ℕ) (share : Bytes)
      (reader : Reader) (keys : List Bytes) (mine : Bytes)
      → length share ≡ share_len
      → reader.msg_key ≡ some (record { private = mine; public = c.public_key mine })
      → contains (c.public_key mine) keys ≡ true
      → contains share (
          open_leaf c reader author.nonce hash (
            view c author hash
              (record { spec = recipients_spec keys; path = path; share = share })))
        ≡ true
  unfolding open_leaf view seal public_part open_wraps
  recipients_gives laws author hash path share reader keys mine sized key listed =
      let ephemeral = author.ephemeral path in
      let public = c.public_key ephemeral in
      let wrapped = wraps c author.nonce path share ephemeral keys 0 in
      let long = laws.curve_laws.key_size ephemeral in
      rw (key, take_at public wrapped 32 long, drop_at public wrapped 32 long)
        (contains-unwraps laws author.nonce path share sized ephemeral mine keys 0 listed)

  good_ref_long : (ref : Bytes) → length ref ≡ 8 → good_ref c (some ref) ≡ some ref
  unfolding good_ref
  good_ref_long ref long = ground (arith, long)

  -- The gate's release of the deposited share is what a reader is given of a leaf that it holds: for an
  -- `after` leaf whose deposit gave a reference of 8 bytes, and a gate that answers the request for
  -- that reference, as the post has it, with the share.
  pub after_gives :
      (author : Author) (hash : Bytes) (path : List ℕ) (share ref : Bytes) (reader : Reader)
      (ms : ℕ)
      → author.deposit (after_params (ms / 1000 * 1000)) share hash path ≡ some ref
      → length ref ≡ 8
      → reader.release (after_params (ms / 1000 % 2 ^ 32 * 1000)) ref hash ≡ some share
      → contains share (
          open_leaf c reader author.nonce hash
            (view c author hash (record { spec = after_spec ms; path = path; share = share })))
        ≡ true
  unfolding open_leaf view seal public_part
  after_gives author hash path share ref reader ms deposited long answered =
      rw (deposited, good_ref_long ref long, answered) (ground (arith, list_eq_self share))
