-- ===== src/Sealed/Layout.antt =====
-- The loop over the masks, and the plaintext as it is read back, shared/sealed.mjs.
use lortnoc_tahc.Base.{
  ℕ, zero, suc, ◌+◌, ◌*◌, ◌/◌, ◌%◌, ◌≤◌, ◌<◌, ◌≡◌, refl, sym, ap, subst, ◌∙◌, ◌⊎◌, inl, inr, Bool,
  true, false, Option, none, some, List, [], ◌∷◌, ◌++◌, if◌then◌else◌, length, ◌==◌, ==_sound, take,
  drop, take_left, take_at, drop_at, append_assoc, append-nil, zeros, Bytes, Text, arith,
  Bool-cases,
}
use lortnoc_tahc.Policy.{Tree, tree_map}
use lortnoc_tahc.Policy.Checks.{Spec}
use lortnoc_tahc.Policy.CheckLaws.{public_part}
use lortnoc_tahc.Policy.Decode.{found}
use lortnoc_tahc.Policy.Rules.{validate}
use lortnoc_tahc.Policy.RoundTrip.{decode_shape-encode_shape}
use lortnoc_tahc.Policy.Shape.{encode_shape, decode_shape, max_depth}
use lortnoc_tahc.Policy.Seal.{Primitives, PrimitivesLaws}
use lortnoc_tahc.Squeeze.{unsqueeze_maybe}
use lortnoc_tahc.Sealed.Post.{sealed_cek, inner_bytes}
use lortnoc_tahc.Sealed.Reading.{closed, opened, mask_key, read_inner, try_mask, try_masks}

-- The plaintext that the author made is read back.
pub read_inner-inner_bytes :
    (normalise : Bytes → Bytes) (table : List Text) (t : Tree Spec) (sent : Bytes × Bool)
    (text : Text)
    → validate normalise t 0 ≡ none
    → length (encode_shape t) < 65536
    → unsqueeze_maybe table sent.0 sent.1 ≡ some text
    → read_inner table (inner_bytes (encode_shape t) sent)
      ≡ opened (some text) (tree_map public_part t)
unfolding read_inner inner_bytes
read_inner-inner_bytes normalise table t sent text ok small back =
    let shape = encode_shape t in
    let size : length shape / 256 % 256 * 256 + length shape % 256 ≡ length shape =
      omega (arith, small) in
    let flag : ((if sent.1 then 1 else 0) % 2 == 1) ≡ sent.1 = flags sent.1 in
    let tail : drop (4 + length shape) (inner_bytes shape sent) ≡ sent.0 =
      drop_at
        (1 ∷ (if sent.1 then 1 else 0) ∷ length shape / 256 % 256 ∷ length shape % 256 ∷ shape)
        sent.0 (4 + length shape) (omega arith) in
    let middle : take (length shape) (drop 4 (inner_bytes shape sent)) ≡ shape =
      take_left shape sent.0 in
    let decoded : decode_shape max_depth shape ≡ found (tree_map public_part t) (some []) =
      ap (decode_shape max_depth) (sym (append-nil shape))
      ∙ decode_shape-encode_shape normalise t [] ok in
    rw (size, flag, tail, middle, back, decoded) refl
  where
    flags : (b : Bool) → ((if b then 1 else 0) % 2 == 1) ≡ b
    flags true = refl
    flags false = refl

-- The frame of a post.
abbrev pub frame_of : Primitives → Bytes → Bytes → Bytes → Bytes → Bytes
frame_of c root salt rest inner =
    (salt ++ rest) ++ c.siv_seal (sealed_cek c root salt) (salt ++ rest) inner

module _ (c : Primitives) (laws : PrimitivesLaws c) (table : List Text)
    (root salt rest inner : Bytes) (salt_size : length salt ≡ 8)
    (head_size : length (salt ++ rest) ≡ 56) where
  abbrev open_with : Bytes → Option Bytes
  open_with key =
      c.siv_open (sealed_cek c key salt) (salt ++ rest)
        (c.siv_seal (sealed_cek c root salt) (salt ++ rest) inner)

  -- A key opens the body to nothing or to what was sealed.
  open_with_any : (key : Bytes) → (open_with key ≡ none) ⊎ (open_with key ≡ some inner)
  unfolding sealed_cek
  open_with_any key =
      elim (laws.rejects (sealed_cek c root salt) (sealed_cek c key salt) (salt ++ rest) inner
        (laws.hkdf_size _ _ _ 64 ∙ sym (laws.hkdf_size _ _ _ 64))) [
          | inl refused ↦ inl refused
          | inr same ↦ inr (
              subst
                (λ k.
                  c.siv_open k (salt ++ rest)
                    (c.siv_seal (sealed_cek c root salt) (salt ++ rest) inner)
                  ≡ some inner)
                same (laws.opens (sealed_cek c root salt) (salt ++ rest) inner))
        ]

  try_mask-frame :
      (held : List Bytes) (mask : ℕ)
      → try_mask c (frame_of c root salt rest inner) held mask
        ≡ open_with (mask_key (zeros 16) mask held)
  try_mask-frame held mask =
      let body = c.siv_seal (sealed_cek c root salt) (salt ++ rest) inner in
      let key = mask_key (zeros 16) mask held in
      ap
        (λ s.
          c.siv_open (sealed_cek c key s) (take 56 (frame_of c root salt rest inner))
            (drop 56 (frame_of c root salt rest inner)))
        (ap (take 8) (append_assoc salt rest body) ∙ take_at salt (rest ++ body) 8 salt_size)
      ∙ ap (λ h. c.siv_open (sealed_cek c key salt) h (drop 56 (frame_of c root salt rest inner)))
          (take_at (salt ++ rest) body 56 head_size)
      ∙ ap (λ b. c.siv_open (sealed_cek c key salt) (salt ++ rest) b)
          (drop_at (salt ++ rest) body 56 head_size)

  -- Whatever shares are held, the loop comes to nothing or to the plaintext.
  pub try_masks_any :
      (held : List Bytes) (start n : ℕ)
      → (try_masks c table (frame_of c root salt rest inner) held start n ≡ closed)
        ⊎ (try_masks c table (frame_of c root salt rest inner) held start n
            ≡ read_inner table inner)
  unfolding try_masks
  try_masks_any held start zero = inl refl
  try_masks_any held start (suc n) = elim (open_with_any (mask_key (zeros 16) start held)) [
    | inr opens ↦ inr (rw (try_mask-frame held start, opens) refl)
    | inl fails ↦ rw (try_mask-frame held start, fails) (try_masks_any held (start + 1) n)
  ]

  -- The loop comes to the plaintext, if one of its masks gives the root.
  pub try_masks_reach :
      (held : List Bytes) (mask start n : ℕ)
      → start ≤ mask
      → mask < start + n
      → mask_key (zeros 16) mask held ≡ root
      → try_masks c table (frame_of c root salt rest inner) held start n ≡ read_inner table inner
  unfolding try_masks
  try_masks_reach held mask start zero low high key = absurd (omega (arith, low, high))
  try_masks_reach held mask start (suc n) low high key =
      elim (open_with_any (mask_key (zeros 16) start held)) [
        | inr opens ↦ rw (try_mask-frame held start, opens) refl
        | inl fails ↦
            rw (try_mask-frame held start, fails)
              (elim (Bool-cases (start == mask)) [
                | inl here ↦ absurd (contradiction (==_sound start mask here) fails)
                | inr later ↦
                    try_masks_reach held mask (start + 1) n (ground (arith, later, low))
                      (omega (arith, high)) key
              ])
      ]
    where
      contradiction : start ≡ mask → open_with (mask_key (zeros 16) start held) ≡ none → ⊥
      contradiction e fails =
          let opens : open_with (mask_key (zeros 16) start held) ≡ some inner =
            ap (λ m. open_with (mask_key (zeros 16) m held)) e
            ∙ ap open_with key
            ∙ laws.opens (sealed_cek c root salt) (salt ++ rest) inner in
          cc
