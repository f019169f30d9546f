-- ===== src/Envelope/Opening.antt =====
-- Who opens an envelope, and what they read, shared/envelope.mjs.
use lortnoc_tahc.Base.{
  ℕ, zero, suc, ◌+◌, ◌*◌, ◌≡◌, refl, sym, ap, subst, ◌∙◌, ◌⊎◌, inl, inr, true, false, Option, none,
  some, List, [], ◌∷◌, ◌++◌, length, ltb, between, get_or, take, drop, take_at, drop_at,
  append_assoc, length-append, xor, xor_twice, length-xor, Bytes, arith,
}
use lortnoc_tahc.Keys.{Crypto, CryptoLaws, derive_conv_key}
use lortnoc_tahc.Keys.Laws.{derive_conv_key_agree}
use lortnoc_tahc.Envelope.{
  SivLaws, seed_len, derive_content_key, derive_wrap_mask, encrypt_bytes, try_decrypt_bytes,
  wrap_seed, seal_for, or_next_wrap, try_wraps, open_sealed,
}

get_or_at :
    (xs : Bytes) (y : ℕ) (ys : Bytes) (n d : ℕ) → length xs ≡ n → get_or (xs ++ y ∷ ys) n d ≡ y
get_or_at [] y ys n d h = rw (← h) refl
get_or_at (x ∷ xs) y ys zero d h = absurd (omega (arith, h))
get_or_at (x ∷ xs) y ys (suc n) d h = get_or_at xs y ys n d (omega (arith, h))

module _ (c : Crypto) (laws : CryptoLaws c) (siv : SivLaws c) (eph seed plaintext : Bytes) where
  abbrev body : Bytes
  body = encrypt_bytes c (derive_content_key c seed) plaintext

  -- A try gives nothing or the text.
  abbrev pub IsTry : Option Bytes → Type 0
  IsTry o = (o ≡ none) ⊎ (o ≡ some plaintext)

  length-derive_content_key : (s : Bytes) → length (derive_content_key c s) ≡ 64
  unfolding derive_content_key
  length-derive_content_key s = siv.hkdf_size _ _ _ 64

  decrypt-IsTry : (s : Bytes) → IsTry (try_decrypt_bytes c (derive_content_key c s) body)
  decrypt-IsTry s =
      elim (siv.rejects (derive_content_key c seed) (derive_content_key c s) plaintext
        (length-derive_content_key seed ∙ sym (length-derive_content_key s))) [
          | inl refused ↦ inl refused
          | inr same ↦ inr (
              subst (λ k. c.siv_decrypt k body ≡ some plaintext) same
                (laws.opens (derive_content_key c seed) plaintext))
        ]

  or_next_wrap-IsTry :
      (o later : Option Bytes) → IsTry o → IsTry later → IsTry (or_next_wrap o later)
  or_next_wrap-IsTry none later ho hl = hl
  or_next_wrap-IsTry (some x) later ho hl = ho

  or_next_wrap_found :
      (o later : Option Bytes)
      → IsTry o
      → later ≡ some plaintext
      → or_next_wrap o later ≡ some plaintext
  or_next_wrap_found none later ho hl = hl
  or_next_wrap_found (some x) later (inl h) hl = absurd cc
  or_next_wrap_found (some x) later (inr h) hl = h

  try_wraps-IsTry : (n : ℕ) (mask wraps : Bytes) → IsTry (try_wraps c n mask wraps body)
  unfolding try_wraps
  try_wraps-IsTry zero mask wraps = inl refl
  try_wraps-IsTry (suc n) mask wraps =
      or_next_wrap-IsTry _ _ (decrypt-IsTry (xor (take seed_len wraps) mask))
        (try_wraps-IsTry n mask (drop seed_len wraps))

  abbrev mask_for : Bytes → Bytes
  mask_for p = derive_wrap_mask c (derive_conv_key c eph p (c.public_key eph))

  module _ (priv : Bytes) (sized : length seed ≡ seed_len) where
    -- The mask that the reader derives.
    abbrev own_mask : Bytes
    own_mask = derive_wrap_mask c (derive_conv_key c priv (c.public_key eph) (c.public_key priv))

    length-wrap : (p : Bytes) → length (xor seed (mask_for p)) ≡ seed_len
    length-wrap p = length-xor seed (mask_for p) ∙ sized

    try_wraps_found :
        (before after : List Bytes) (rest : Bytes)
        → try_wraps c
            (length (before ++ c.public_key priv ∷ after))
            own_mask
            (wrap_seed c eph seed (before ++ c.public_key priv ∷ after) ++ rest)
            body
          ≡ some plaintext
    unfolding try_wraps wrap_seed
    try_wraps_found [] after rest =
        let own : mask_for (c.public_key priv) ≡ own_mask =
          ap (derive_wrap_mask c) (derive_conv_key_agree c laws eph priv) in
        rw
          (
            append_assoc (xor seed (mask_for (c.public_key priv))) (wrap_seed c eph seed after)
                rest,
            take_at _ (wrap_seed c eph seed after ++ rest) seed_len
                (length-wrap (c.public_key priv)),
            own,
            xor_twice seed own_mask,
            laws.opens (derive_content_key c seed) plaintext,
          )
          refl
    try_wraps_found (p ∷ before) after rest =
        let others = wrap_seed c eph seed (before ++ c.public_key priv ∷ after) in
        rw
          (
            append_assoc (xor seed (mask_for p)) others rest,
            drop_at _ (others ++ rest) seed_len (length-wrap p),
          )
          (or_next_wrap_found _ _
            (decrypt-IsTry
              (xor (take seed_len (xor seed (mask_for p) ++ (others ++ rest))) own_mask))
            (try_wraps_found before after rest))

  length-wrap_seed :
      (readers : List Bytes)
      → length seed ≡ seed_len
      → length (wrap_seed c eph seed readers) ≡ length readers * seed_len
  unfolding wrap_seed
  length-wrap_seed [] sized = refl
  length-wrap_seed (p ∷ ps) sized = omega (
    arith,
    length-append (xor seed (mask_for p)) (wrap_seed c eph seed ps),
    length-xor seed (mask_for p),
    sized,
    length-wrap_seed ps sized,
  )

  abbrev payload_for : List Bytes → Bytes
  payload_for readers = c.public_key eph ++ length readers ∷ (wrap_seed c eph seed readers ++ body)

  -- `openSealed` reads the layout as it was written.
  open_sealed-payload :
      (readers : List Bytes) (my_priv my_pub : Bytes)
      → length seed ≡ seed_len
      → between 1 16 (length readers) ≡ true
      → open_sealed c my_priv my_pub (payload_for readers)
        ≡ try_wraps c
            (length readers)
            (derive_wrap_mask c (derive_conv_key c my_priv (c.public_key eph) my_pub))
            (wrap_seed c eph seed readers ++ body)
            body
  unfolding open_sealed
  open_sealed-payload readers my_priv my_pub sized few =
      let wraps = wrap_seed c eph seed readers in
      let key_size = laws.key_size eph in
      let n = length readers in
      let total : length (payload_for readers) ≡ 33 + (n * 16 + length body) = omega (
        arith,
        length-append (c.public_key eph) (n ∷ (wraps ++ body)),
        key_size,
        length-append wraps body,
        length-wrap_seed readers sized,
      ) in
      let count : get_or (payload_for readers) 32 0 ≡ n =
        get_or_at (c.public_key eph) n (wraps ++ body) 32 0 key_size in
      let tag =
        siv.tag_size (derive_content_key c seed) plaintext (length-derive_content_key seed) in
      let long : ltb (length (payload_for readers)) 33 ≡ false = ground (arith, total) in
      let whole : ltb (length (payload_for readers)) (32 + 1 + n * 16 + 16) ≡ false =
        ground (arith, total, tag) in
      let front : take 32 (payload_for readers) ≡ c.public_key eph =
        take_at (c.public_key eph) (n ∷ (wraps ++ body)) 32 key_size in
      let inner : drop 33 (payload_for readers) ≡ wraps ++ body =
        ap (drop 33) (sym (append_assoc (c.public_key eph) (n ∷ []) (wraps ++ body)))
        ∙ drop_at (c.public_key eph ++ n ∷ []) (wraps ++ body) 33
            (omega (arith, length-append (c.public_key eph) (n ∷ []), key_size)) in
      let tail : drop (33 + n * 16) (payload_for readers) ≡ body =
        ap (drop (33 + n * 16)) (sym (append_assoc (c.public_key eph) (n ∷ wraps) body))
        ∙ drop_at (c.public_key eph ++ n ∷ wraps) body (33 + n * 16) (
            omega (
              arith,
              length-append (c.public_key eph) (n ∷ wraps),
              key_size,
              length-wrap_seed readers sized,
            )) in
      rw (long, count, few, whole, front, inner, tail) refl

  -- What `sealTo` gives, where it gives something.
  made_payload :
      (readers : List Bytes) (payload : Bytes)
      → seal_for c eph seed readers plaintext ≡ some payload
      → (between 1 16 (length readers) ≡ true) × (payload_for readers ≡ payload)
  unfolding seal_for
  made_payload readers payload made = ground (arith, made)

-- Whatever a sealed envelope is opened with gives nothing or the text that was sealed, if the random
-- source gave a seed of its size and the cryptography keeps its documented laws.
pub open_sealed_only :
    (c : Crypto)
    → CryptoLaws c
    → SivLaws c
    → (eph seed plaintext payload my_priv my_pub : Bytes) (readers : List Bytes)
    → length seed ≡ seed_len
    → seal_for c eph seed readers plaintext ≡ some payload
    → (open_sealed c my_priv my_pub payload ≡ none)
      ⊎ (open_sealed c my_priv my_pub payload ≡ some plaintext)
open_sealed_only c laws siv eph seed plaintext payload my_priv my_pub readers sized made =
    let m = made_payload c laws siv eph seed plaintext readers payload made in
    rw (← m.1, open_sealed-payload c laws siv eph seed plaintext readers my_priv my_pub sized m.0)
      (try_wraps-IsTry c laws siv eph seed plaintext (length readers)
        (derive_wrap_mask c (derive_conv_key c my_priv (c.public_key eph) my_pub))
        (wrap_seed c eph seed readers ++ body c laws siv eph seed plaintext))

-- Each of the named readers opens the envelope to the text, wherever they stand among the others: of an
-- honest key, a seed of its size, and cryptography that keeps its documented laws.
pub open_sealed-seal_for :
    (c : Crypto)
    → CryptoLaws c
    → SivLaws c
    → (eph seed plaintext payload priv : Bytes) (before after : List Bytes) → length seed ≡ seed_len
    → seal_for c eph seed (before ++ c.public_key priv ∷ after) plaintext ≡ some payload
    → open_sealed c priv (c.public_key priv) payload ≡ some plaintext
open_sealed-seal_for c laws siv eph seed plaintext payload priv before after sized made =
    let readers = before ++ c.public_key priv ∷ after in
    let m = made_payload c laws siv eph seed plaintext readers payload made in
    rw
      (
        ← m.1,
        open_sealed-payload c laws siv eph seed plaintext readers priv (c.public_key priv) sized
            m.0,
      )
      (try_wraps_found c laws siv eph seed plaintext priv sized before after
        (body c laws siv eph seed plaintext))
