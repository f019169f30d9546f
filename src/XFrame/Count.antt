-- ===== src/XFrame/Count.antt =====
-- How many frames are built.
use lortnoc_tahc.Base.{
  ltb_not, ℕ, zero, suc, ◌+◌, ◌-◌, ◌≤◌, ◌≡◌, refl, ap, ◌∙◌, Bool, false, Option, none, some, List,
  [], ◌∷◌, map, if_cases, ltb, max, length, count_up, Bytes, arith,
}
use native.Mathlib.Nat.{add-div_left, div-eq_of_lt}
use lortnoc_tahc.XFrame.{
  XMode, max_parts, ceil_div, part_frame, value_or_length, total_parts, build_x_frames,
}

length-count_up : (i n : ℕ) → length (count_up i n) ≡ n
unfolding count_up
length-count_up i zero = refl
length-count_up i (suc n) = ap suc (length-count_up (i + 1) n)

length-map : (f : ℕ → Bytes) (xs : List ℕ) → length (map f xs) ≡ length xs
length-map f [] = refl
length-map f (x ∷ xs) = ap suc (length-map f xs)

abbrev pub AtMost16 : Option (List Bytes) → Type 0
AtMost16 none = Unit
AtMost16 (some fs) = length fs ≤ 16

pub build_x_frames-AtMost16 :
    (mode : XMode) (cipher : Bytes) (squeezed : Bool) (chunk : Option ℕ)
    → AtMost16 (build_x_frames mode cipher squeezed chunk)
unfolding build_x_frames
build_x_frames-AtMost16 mode cipher squeezed chunk =
    if_cases AtMost16 (ltb (length cipher) 2) (λ _. tt)
      (λ _.
        if_cases AtMost16 (ltb (value_or_length chunk cipher) 1) (λ _. tt)
          (λ _.
            if_cases AtMost16 (ltb max_parts (total_parts cipher (value_or_length chunk cipher)))
              (λ _. tt) (λ e. few _ e)))
  where
    few :
        (n : ℕ)
        → ltb max_parts n ≡ false
        → length
            (map (part_frame mode cipher squeezed (value_or_length chunk cipher) n) (count_up 0 n))
          ≤ 16
    few n e = omega (
      arith,
      length-map (part_frame mode cipher squeezed (value_or_length chunk cipher) n) (count_up 0 n),
      length-count_up 0 n,
      ltb_not max_parts n e,
    )

-- Without a chunk size there is one frame.
abbrev pub IsOne : Option (List Bytes) → Type 0
IsOne none = Unit
IsOne (some fs) = length fs ≡ 1

ceil_div_self : (n : ℕ) → 2 ≤ n → ceil_div n n ≡ 1
ceil_div_self n h =
    add-div_left (n - 1) (omega arith) ∙ ap (λ q. q + 1) (div-eq_of_lt (omega arith))

pub build_x_frames-IsOne :
    (mode : XMode) (cipher : Bytes) (squeezed : Bool)
    → IsOne (build_x_frames mode cipher squeezed none)
unfolding build_x_frames
build_x_frames-IsOne mode cipher squeezed =
    if_cases IsOne (ltb (length cipher) 2) (λ _. tt)
      (λ s.
        if_cases IsOne (ltb (length cipher) 1) (λ _. tt)
          (λ _.
            if_cases IsOne (ltb max_parts (total_parts cipher (length cipher))) (λ _. tt)
              (λ e.
                one (total_parts cipher (length cipher))
                  (ap (max 1) (ceil_div_self (length cipher) (ground arith))))))
  where
    one :
        (n : ℕ)
        → n ≡ 1
        → length (map (part_frame mode cipher squeezed (length cipher) n) (count_up 0 n)) ≡ 1
    one n e =
        length-map (part_frame mode cipher squeezed (length cipher) n) (count_up 0 n)
        ∙ length-count_up 0 n
        ∙ e
