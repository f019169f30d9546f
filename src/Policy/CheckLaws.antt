-- ===== src/Policy/CheckLaws.antt =====
-- shared/checks/*.mjs: what a check writes of its parameters, it reads back.
use lortnoc_tahc.Base.{
  ℕ, ◌+◌, ◌*◌, ◌/◌, ◌%◌, ◌^◌, ◌≤◌, ◌≡◌, refl, ap, true, false, Option, none, some, List, [], ◌∷◌,
  ◌++◌, append_assoc, length, take_at, drop_at, length-append, Bytes, arith, both_true, ltb, ◌||◌,
  not, Bool-cases, ◌⊎◌, inl, inr,
}
use lortnoc_tahc.Policy.Checks.{
  CheckId, Preset, poh, selfie, identity, Spec, public_spec, passphrase_spec, recipients_spec,
  after_spec, human_spec, nft_spec, Params, public_params, passphrase_params, recipients_params,
  after_params, human_params, nft_params, spec_id, tag, by_tag, valid_spec, encode_params, or_zero,
  or_empty, or_poh, country_part, preset_index, is_country, is_identity, is_space_or_missing,
  is_ens_space, is_plain_space,
}
use lortnoc_tahc.Policy.Decode.{
  decode_params, found, optional, decode_passphrase, decode_recipients, decode_after, decode_human,
  decode_space, decode_country, decode_nft, preset_of,
}

-- The part of a specification that stands in the post.
unfoldable pub public_part : Spec → Params
unfolding country_part
public_part public_spec = public_params
public_part (passphrase_spec profile hint words key) =
    passphrase_params (some (or_zero profile % 256)) hint
public_part (recipients_spec keys) = recipients_params (length keys)
public_part (after_spec ms) = after_params (ms / 1000 % 2 ^ 32 * 1000)
public_part (human_spec preset space country) =
    human_params (or_poh preset) (optional (or_empty space)) (country_part (or_poh preset) country)
public_part (nft_spec space) = nft_params space

-- A text whose length stands before it is read off the front of what follows.
module _ (n : ℕ) (text rest : Bytes) (sized : length text ≡ n) where
  not_short : ltb (length (text ++ rest)) n ≡ false
  not_short = ground (arith, length-append text rest)

ens_size : (s : Bytes) → is_ens_space s ≡ true → (4 ≤ length s) × (length s ≤ 33)
unfolding is_ens_space is_plain_space
ens_size [] h = absurd cc
ens_size (c ∷ s) h = ground (arith, h)

space_size : (s : Option Bytes) → is_space_or_missing s ≡ true → length (or_empty s) ≤ 33
unfolding is_space_or_missing is_plain_space
space_size none h = omega arith
space_size (some s) h = elim (Bool-cases (is_ens_space s)) [
  | inl e ↦ (ens_size s e).1
  | inr e ↦ ground (arith, h)
]

pub by_tag-tag : (id : CheckId) → by_tag (tag id) ≡ some id
unfolding by_tag tag
by_tag-tag CheckId.public = refl
by_tag-tag CheckId.passphrase = refl
by_tag-tag CheckId.recipients = refl
by_tag-tag CheckId.after = refl
by_tag-tag CheckId.human = refl
by_tag-tag CheckId.nft = refl

module _ (normalise : Bytes → Bytes) where
  decode_passphrase-encode :
      (profile : Option ℕ) (hint words : Bytes) (key : Option Bytes) (rest : Bytes)
      → valid_spec normalise (passphrase_spec profile hint words key) ≡ true
      → decode_passphrase (encode_params (passphrase_spec profile hint words key) ++ rest)
        ≡ found (passphrase_params (some (or_zero profile % 256)) hint) (some rest)
  unfolding decode_passphrase encode_params valid_spec
  decode_passphrase-encode profile hint words key rest valid =
      rw (take_at hint rest (length hint % 256) whole, drop_at hint rest (length hint % 256) whole)
        (ground (arith, short, length-append hint rest))
    where
      short : length hint ≤ 60
      short = ground (arith, valid)

      whole : length hint ≡ length hint % 256
      whole = omega (arith, short)

  decode_after-encode :
      (ms : ℕ) (rest : Bytes)
      → decode_after (encode_params (after_spec ms) ++ rest)
        ≡ found (after_params (ms / 1000 % 2 ^ 32 * 1000)) (some rest)
  unfolding decode_after encode_params
  decode_after-encode ms rest =
      ap (λ n. found (after_params (n * 1000)) (some rest)) (bytes (ms / 1000))
    where
      bytes :
          (s : ℕ)
          → s / 2 ^ 24 % 256 * 2 ^ 24
              + s / 2 ^ 16 % 256 * 2 ^ 16
              + s / 2 ^ 8 % 256 * 2 ^ 8
              + s % 256
            ≡ s % 2 ^ 32
      bytes s = omega arith

  decode_nft-encode :
      (space rest : Bytes)
      → is_ens_space space ≡ true
      → decode_nft (encode_params (nft_spec space) ++ rest) ≡ found (nft_params space) (some rest)
  unfolding decode_nft encode_params
  decode_nft-encode space rest valid =
      rw
        (
          take_at space rest (length space % 256) whole,
          drop_at space rest (length space % 256) whole,
        )
        (ground (arith, ens_size space valid, length-append space rest))
    where
      whole : length space ≡ length space % 256
      whole = omega (arith, (ens_size space valid).1)

  preset_of-index : (p : Preset) → preset_of (preset_index p) ≡ some p
  unfolding preset_of
  preset_of-index poh = refl
  preset_of-index selfie = refl
  preset_of-index identity = refl

  decode_country-part :
      (preset : Preset) (space : Option Bytes) (country rest : Bytes)
      → is_identity (some preset) ≡ false ⊎ (is_country country ≡ true)
      → decode_country preset space (country_part preset country ++ rest)
        ≡ found (human_params preset space (country_part preset country)) (some rest)
  unfolding decode_country country_part is_country
  decode_country-part poh space country rest h = refl
  decode_country-part selfie space country rest h = refl
  decode_country-part identity space country rest (inl h) = absurd cc
  decode_country-part identity space country rest (inr h) =
      rw (take_at country rest 3 sized, drop_at country rest 3 sized)
        (ground (arith, sized, length-append country rest))
    where
      sized : length country ≡ 3
      sized = ground (arith, h)

  decode_space-encode :
      (preset : Preset) (space : Option Bytes) (country rest : Bytes)
      → is_space_or_missing space ≡ true
      → (is_identity (some preset) ≡ false) ⊎ (is_country country ≡ true)
      → decode_space
          (some preset)
          (length (or_empty space) % 256)
          (or_empty space ++ (country_part preset country ++ rest))
        ≡ found
            (human_params preset (optional (or_empty space)) (country_part preset country))
            (some rest)
  unfolding decode_space
  decode_space-encode preset space country rest valid named =
      rw
        (
          take_at (or_empty space) (country_part preset country ++ rest) n whole,
          drop_at (or_empty space) (country_part preset country ++ rest) n whole,
          decode_country-part preset (optional (or_empty space)) country rest named,
        )
        (ground (
          arith,
          space_size space valid,
          length-append (or_empty space) (country_part preset country ++ rest),
        ))
    where
      n : ℕ
      n = length (or_empty space) % 256

      whole : length (or_empty space) ≡ n
      whole = omega (arith, space_size space valid)

  named_country :
      (preset : Option Preset) (country : Bytes)
      → (not (is_identity preset) || is_country country) ≡ true
      → (is_identity (some (or_poh preset)) ≡ false) ⊎ (is_country country ≡ true)
  named_country none country h = inl refl
  named_country (some poh) country h = inl refl
  named_country (some selfie) country h = inl refl
  named_country (some identity) country h = inr h

  decode_recipients-encode :
      (keys : List Bytes) (rest : Bytes)
      → valid_spec normalise (recipients_spec keys) ≡ true
      → decode_recipients (encode_params (recipients_spec keys) ++ rest)
        ≡ found (recipients_params (length keys)) (some rest)
  unfolding decode_recipients encode_params valid_spec
  decode_recipients-encode keys rest valid = rw (← whole) (ground (arith, valid))
    where
      whole : length keys ≡ length keys % 256
      whole = ground (arith, valid)

  decode_human-encode :
      (preset : Option Preset) (space : Option Bytes) (country rest : Bytes)
      → valid_spec normalise (human_spec preset space country) ≡ true
      → decode_human (encode_params (human_spec preset space country) ++ rest)
        ≡ found (public_part (human_spec preset space country)) (some rest)
  unfolding decode_human encode_params valid_spec public_part
  decode_human-encode preset space country rest valid =
      rw
        (
          preset_of-index (or_poh preset),
          append_assoc (or_empty space) (country_part (or_poh preset) country) rest,
        )
        (decode_space-encode (or_poh preset) space country rest parts.0 parts.1)
    where
      parts :
          (is_space_or_missing space ≡ true)
          × ((is_identity (some (or_poh preset)) ≡ false) ⊎ (is_country country ≡ true))
      parts =
          let both =
            both_true (is_space_or_missing space) (not (is_identity preset) || is_country country)
              valid in
          (both.0, named_country preset country both.1)

  -- A check reads back what it wrote for a leaf that passes its rules.
  pub decode_params-encode_params :
      (a : Spec) (rest : Bytes)
      → valid_spec normalise a ≡ true
      → decode_params (spec_id a) (encode_params a ++ rest) ≡ found (public_part a) (some rest)
  unfolding decode_params spec_id public_part
  decode_params-encode_params public_spec rest valid = unfold encode_params in refl
  decode_params-encode_params (passphrase_spec profile hint words key) rest valid =
      decode_passphrase-encode profile hint words key rest valid
  decode_params-encode_params (recipients_spec keys) rest valid =
      decode_recipients-encode keys rest valid
  decode_params-encode_params (after_spec ms) rest valid = decode_after-encode ms rest
  decode_params-encode_params (human_spec preset space country) rest valid =
      decode_human-encode preset space country rest valid
  decode_params-encode_params (nft_spec space) rest valid =
      decode_nft-encode space rest (unfold valid_spec in valid)
