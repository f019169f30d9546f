-- ===== src/XPost/Built.antt =====
-- The frames that `buildXFrames` gives, as the reader of a post needs them.
use native.Mathlib.Nat.{div-add-mod', mod-lt}
use lortnoc_tahc.Base.{
  ltb_not, ℕ, zero, suc, subst, ◌+◌, ◌-◌, ◌*◌, ◌≤◌, ◌≡◌, sym, Bool, Option, some, some_inj, List,
  max, map, if_cases, ltb, length, count_up, Bytes, arith,
}
use lortnoc_tahc.XFrame.{
  XMode, max_parts, ceil_div, part_frame, value_or_length, total_parts, build_x_frames,
}

-- So many parts of this size hold the ciphertext.
ceil_div_enough : (n d : ℕ) → 1 ≤ d → n ≤ ceil_div n d * d
ceil_div_enough n d h = omega (arith, div-add-mod' (n + (d - 1)) d, mod-lt (n + (d - 1)) {m = d} h)

total_parts_enough :
    (cipher : Bytes) (chunk : ℕ) → 1 ≤ chunk → length cipher ≤ total_parts cipher chunk * chunk
total_parts_enough cipher chunk h =
    at (ceil_div (length cipher) chunk) (ceil_div_enough (length cipher) chunk h)
  where
    at : (q : ℕ) → length cipher ≤ q * chunk → length cipher ≤ max 1 q * chunk
    at zero k = omega (arith, k)
    at (suc q) k =
        let same : max 1 (suc q) ≡ suc q = omega arith in
        subst (λ m. length cipher ≤ m * chunk) (sym same) k

-- The frames are those of one size, at most sixteen, which hold the ciphertext.
abbrev pub AreFrames : XMode → Bytes → Bool → ℕ → ℕ → List Bytes → Type 0
AreFrames mode cipher squeezed chunk total frames =
    (map (part_frame mode cipher squeezed chunk total) (count_up 0 total) ≡ frames)
    × (1 ≤ total)
    × (total ≤ 16)
    × (length cipher ≤ total * chunk)

pub build_x_frames-AreFrames :
    (mode : XMode) (cipher : Bytes) (squeezed : Bool) (chunk_bytes : Option ℕ) (frames : List Bytes)
    → build_x_frames mode cipher squeezed chunk_bytes ≡ some frames
    → (chunk : ℕ) × (total : ℕ) × AreFrames mode cipher squeezed chunk total frames
unfolding build_x_frames
build_x_frames-AreFrames mode cipher squeezed chunk_bytes frames =
    let chunk = value_or_length chunk_bytes cipher in
    let total = total_parts cipher chunk in
    if_cases Built (ltb (length cipher) 2) (λ _ e. absurd cc)
      (λ _.
        if_cases Built (ltb chunk 1) (λ _ e. absurd cc)
          (λ filled.
            if_cases Built (ltb max_parts total) (λ _ e. absurd cc)
              (λ few e. (
                chunk,
                total,
                (
                  some_inj e,
                  omega arith,
                  ltb_not max_parts total few,
                  total_parts_enough cipher chunk (ltb_not chunk 1 filled),
                ),
              ))))
  where
    Built : Option (List Bytes) → Type 0
    Built o =
        o ≡ some frames
        → (chunk : ℕ) × (total : ℕ) × AreFrames mode cipher squeezed chunk total frames
