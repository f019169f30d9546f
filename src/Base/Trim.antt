-- ===== src/Base/Trim.antt =====
-- `text.trim()` of the source's language, on UTF-16 units.
use Prim.Native.Nat.{ℕ, ◌+◌, ◌≤◌}
use mathlib.Core.Path.{◌≡◌, refl, sym, ap, ◌∙◌}
use mathlib.Core.Logic.{inl, inr}
use mathlib.Core.Bool.{Bool, false, ◌||◌}
use mathlib.Core.List.{[], ◌∷◌, ◌++◌}
use native.Mathlib.Omega.{arith}
use lortnoc_tahc.Base.Tests.{Bool-cases, if◌then◌else◌, between, ◌==◌}
use lortnoc_tahc.Base.Lists.{length}
use lortnoc_tahc.Base.Base64.{Text}

-- The characters that `trim` removes.
unfoldable pub is_space : ℕ → Bool
is_space c =
    between 9 13 c
    || c == 32
    || c == 160
    || c == 5760
    || between 8192 8202 c
    || between 8232 8233 c
    || c == 8239
    || c == 8287
    || c == 12288
    || c == 65279

unfoldable pub trim_start : Text → Text
unfolding is_space
trim_start [] = []
trim_start (c ∷ t) = let rest = trim_start t in if is_space c then rest else c ∷ t

unfoldable pub cons_trimmed : ℕ → Text → Text
unfolding is_space
cons_trimmed c [] = if is_space c then [] else c ∷ []
cons_trimmed c (d ∷ u) = c ∷ d ∷ u

unfoldable pub trim_end : Text → Text
unfolding cons_trimmed
trim_end [] = []
trim_end (c ∷ t) = cons_trimmed c (trim_end t)

abbrev pub trim : Text → Text
trim t = trim_end (trim_start t)

length-trim_start : (t : Text) → length (trim_start t) ≤ length t
unfolding trim_start
length-trim_start [] = omega arith
length-trim_start (c ∷ t) = ground (arith, length-trim_start t)

length-cons_trimmed : (c : ℕ) (t : Text) → length (cons_trimmed c t) ≤ 1 + length t
unfolding cons_trimmed
length-cons_trimmed c [] = ground arith
length-cons_trimmed c (d ∷ t) = omega arith

length-trim_end : (t : Text) → length (trim_end t) ≤ length t
unfolding trim_end
length-trim_end [] = omega arith
length-trim_end (c ∷ t) = omega (arith, length-cons_trimmed c (trim_end t), length-trim_end t)

pub length-trim : (t : Text) → length (trim t) ≤ length t
length-trim t = omega (arith, length-trim_end (trim_start t), length-trim_start t)

-- What is trimmed has no space in front.
pub trimmed_first : (c : ℕ) (t : Text) → trim (c ∷ t) ≡ c ∷ t → is_space c ≡ false
unfolding trim_start
trimmed_first c t h = elim (Bool-cases (is_space c)) [
  | inl space ↦
      let shorter : trim t ≡ c ∷ t =
        ap (λ b. trim_end (if b then trim_start t else c ∷ t)) (sym space) ∙ h in
      absurd (omega (arith, length-trim t, ap length shorter))
  | inr other ↦ other
]

trim_start_first : (c : ℕ) (t : Text) → is_space c ≡ false → trim_start (c ∷ t) ≡ c ∷ t
unfolding trim_start
trim_start_first c t h = rw h refl

from_cons : (c : ℕ) (u t : Text) → cons_trimmed c u ≡ c ∷ t → u ≡ t
unfolding cons_trimmed
from_cons c [] t h = elim (Bool-cases (is_space c)) [ inl space ↦ cc | inr other ↦ cc ]
from_cons c (d ∷ u) t h = cc

trim_end-spaces : (t s : Text) → trim_end s ≡ [] → trim_end t ≡ t → trim_end (t ++ s) ≡ t
unfolding trim_end
trim_end-spaces [] s hs h = hs
trim_end-spaces (c ∷ t) s hs h =
    let rest = from_cons c (trim_end t) t h in
    ap (cons_trimmed c) (trim_end-spaces t s hs rest ∙ sym rest) ∙ h

-- Spaces behind a text that is trimmed are taken off.
pub trim-spaces :
    (c : ℕ) (t s : Text) → trim_end s ≡ [] → trim (c ∷ t) ≡ c ∷ t → trim (c ∷ (t ++ s)) ≡ c ∷ t
trim-spaces c t s hs h =
    let first = trimmed_first c t h in
    ap trim_end (trim_start_first c (t ++ s) first)
    ∙ trim_end-spaces (c ∷ t) s hs (ap trim_end (sym (trim_start_first c t first)) ∙ h)

trim_end-append :
    (t s : Text) (d : ℕ) → trim_end (d ∷ s) ≡ d ∷ s → trim_end (t ++ (d ∷ s)) ≡ t ++ (d ∷ s)
unfolding trim_end cons_trimmed
trim_end-append [] s d h = h
trim_end-append (c ∷ []) s d h = ap (cons_trimmed c) h
trim_end-append (c ∷ e ∷ t) s d h = ap (cons_trimmed c) (trim_end-append (e ∷ t) s d h)

-- A text with no space in front and none behind is trimmed.
pub trim-append :
    (c : ℕ) (t s : Text) (d : ℕ)
    → is_space c ≡ false
    → trim_end (d ∷ s) ≡ d ∷ s
    → trim (c ∷ (t ++ (d ∷ s))) ≡ c ∷ (t ++ (d ∷ s))
trim-append c t s d first h =
    ap trim_end (trim_start_first c (t ++ (d ∷ s)) first) ∙ trim_end-append (c ∷ t) s d h
