-- ===== src/Envelope.antt =====
-- shared/envelope.mjs, with `deriveContentKey`, `deriveWrapMask`, `encryptBytes` and `tryDecryptBytes` of
-- shared/keys.mjs: one message for up to sixteen named readers. The ephemeral key and the seed, which the
-- source draws at random, are arguments. `SivLaws` is what the code relies on beside `CryptoLaws`.
pub mod Opening
pub mod Tests
use lortnoc_tahc.Base.{
  ℕ, zero, suc, ◌+◌, ◌*◌, ◌≤◌, ◌≡◌, ◌⊎◌, Bool, true, not, ◌&&◌, Option, none, some, List, [], ◌∷◌,
  ◌++◌, if◌then◌else◌, length, ltb, leb, ◌==◌, between, get_or, take, drop, xor, Bytes,
}
use lortnoc_tahc.Keys.{Crypto, codes, derive_conv_key}

-- HKDF gives as many bytes as asked, and AES-SIV adds a tag of 16 bytes and opens nothing under another
-- key of that size.
pub record SivLaws (c : Crypto) : Type 0 where
  pub hkdf_size : (ikm salt info : Bytes) (n : ℕ) → length (c.hkdf ikm salt info n) ≡ n
  pub tag_size : (key m : Bytes) → length key ≡ 64 → 16 ≤ length (c.siv_encrypt key m)
  pub rejects :
      (key other m : Bytes)
      → length key ≡ length other
      → (c.siv_decrypt other (c.siv_encrypt key m) ≡ none) ⊎ (key ≡ other)

abbrev pub pubkey_len : ℕ
pubkey_len = 32

abbrev pub seed_len : ℕ
seed_len = 16

abbrev pub tag_len : ℕ
tag_len = 16

abbrev pub max_readers : ℕ
max_readers = 16

unfoldable pub all_keys : List Bytes → Bool
all_keys [] = true
all_keys (p ∷ ps) = length p == pubkey_len && all_keys ps

abbrev pub or_next_wrap : Option Bytes → Option Bytes → Option Bytes
or_next_wrap none later = later
or_next_wrap (some plain) later = some plain

module _ (c : Crypto) where
  unfoldable pub derive_content_key : Bytes → Bytes
  derive_content_key seed = c.hkdf seed (codes "lortnoc/x/cek/v1") (codes "cek") 64

  unfoldable pub derive_wrap_mask : Bytes → Bytes
  derive_wrap_mask conv_key = c.hkdf conv_key (codes "lortnoc/x/wrap/v1") (codes "wrap") 16

  abbrev pub encrypt_bytes : Bytes → Bytes → Bytes
  encrypt_bytes key bytes = c.siv_encrypt key bytes

  abbrev pub try_decrypt_bytes : Bytes → Bytes → Option Bytes
  try_decrypt_bytes key bytes = c.siv_decrypt key bytes

  -- The seed under the mask of each reader.
  unfoldable pub wrap_seed : Bytes → Bytes → List Bytes → Bytes
  wrap_seed eph seed [] = []
  wrap_seed eph seed (p ∷ ps) =
      let mask = derive_wrap_mask (derive_conv_key c eph p (c.public_key eph)) in
      xor seed mask ++ wrap_seed eph seed ps

  -- `sealTo`, none where it throws.
  unfoldable pub seal_for : Bytes → Bytes → List Bytes → Bytes → Option Bytes
  unfolding wrap_seed
  seal_for eph seed readers plaintext =
      if length readers == 0
      then none
      else if ltb max_readers (length readers)
      then none
      else if not (all_keys readers)
      then none
      else some (
          c.public_key eph
          ++ length readers
            ∷ (wrap_seed eph seed readers ++ encrypt_bytes (derive_content_key seed) plaintext))

  -- The loop over the wraps, from those at the head of the bytes on.
  unfoldable pub try_wraps : ℕ → Bytes → Bytes → Bytes → Option Bytes
  try_wraps zero mask wraps body = none
  try_wraps (suc n) mask wraps body =
      or_next_wrap (try_decrypt_bytes (derive_content_key (xor (take seed_len wraps) mask)) body)
        (try_wraps n mask (drop seed_len wraps) body)

  -- `openSealed`
  unfoldable pub open_sealed : Bytes → Bytes → Bytes → Option Bytes
  unfolding try_wraps
  open_sealed my_priv my_pub payload =
      let count = get_or payload pubkey_len 0 in
      let body_at = pubkey_len + 1 + count * seed_len in
      let mask = derive_wrap_mask (derive_conv_key c my_priv (take pubkey_len payload) my_pub) in
      if ltb (length payload) (pubkey_len + 1)
      then none
      else if not (between 1 max_readers count)
      then none
      else if ltb (length payload) (body_at + tag_len)
      then none
      else try_wraps count mask (drop (pubkey_len + 1) payload) (drop body_at payload)
