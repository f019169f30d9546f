-- ===== src/Base/Base64.antt =====
-- `btoa` and `atob` of the platform, on bytes: `btoa(String.fromCharCode(...u))` and
-- `Uint8Array.from(atob(x), c => c.charCodeAt(0))`. A text is the list of its character codes.
-- `from_b64` is total: it is meant for what `to_b64` writes, on other texts `atob` may throw.
use lortnoc_tahc.Base.Tests.{ltb, ◌==◌, if◌then◌else◌}
use lortnoc_tahc.Base.Lists.{Bytes, IsBytes, passes_under, passes_under_lem}
use Prim.Native.Nat.{ℕ, ◌+◌, ◌-◌, ◌*◌, ◌/◌, ◌%◌, ◌<◌}
use mathlib.Core.Path.{◌≡◌, refl}
use mathlib.Core.Bool.{true, false, not, ◌&&◌}
use mathlib.Core.List.{List, [], ◌∷◌}
use native.Mathlib.Omega.{arith}

abbrev pub Text : Type 0
Text = List ℕ

-- A-Z, a-z, 0-9, +, /.
pub digit : ℕ → ℕ
digit n =
    if ltb n 26
    then n + 65
    else if ltb n 52
    then n + 71
    else if ltb n 62
    then n - 4
    else if n == 62
    then 43
    else 47

pub value : ℕ → ℕ
value c =
    if c == 43
    then 62
    else if c == 47
    then 63
    else if ltb c 58
    then c + 4
    else if ltb c 91
    then c - 65
    else c - 71

abbrev pad : ℕ
pad = 61

pub to_b64 : Bytes → Text
to_b64 [] = []
to_b64 (a ∷ []) = digit (a / 4) ∷ digit (a % 4 * 16) ∷ pad ∷ pad ∷ []
to_b64 (a ∷ b ∷ []) = digit (a / 4) ∷ digit (a % 4 * 16 + b / 16) ∷ digit (b % 16 * 4) ∷ pad ∷ []
to_b64 (a ∷ b ∷ c ∷ bs) =
    digit (a / 4)
    ∷ digit (a % 4 * 16 + b / 16)
    ∷ digit (b % 16 * 4 + c / 64)
    ∷ digit (c % 64)
    ∷ to_b64 bs

-- Three bytes of four values.
abbrev first : ℕ → ℕ → ℕ
first p q = p * 4 + q / 16

abbrev second : ℕ → ℕ → ℕ
second q r = q % 16 * 16 + r / 4

abbrev third : ℕ → ℕ → ℕ
third r s = r % 4 * 64 + s

pub from_b64 : Text → Bytes
from_b64 (p ∷ q ∷ r ∷ s ∷ t) =
    let rest = from_b64 t in
    if r == pad
    then first (value p) (value q) ∷ []
    else if s == pad
    then first (value p) (value q) ∷ second (value q) (value r) ∷ []
    else first (value p) (value q) ∷ second (value q) (value r) ∷ third (value r) (value s) ∷ rest
from_b64 _ = []

digits_table : passes_under (λ n. value (digit n) == n && not (digit n == pad)) 64 ≡ true
unfolding passes_under value digit
digits_table = refl

value-digit : (n : ℕ) → n < 64 → value (digit n) ≡ n
value-digit n h = ground (arith, passes_under_lem _ 64 n h digits_table)

digit-pad : (n : ℕ) → n < 64 → (digit n == pad) ≡ false
digit-pad n h = ground (arith, passes_under_lem _ 64 n h digits_table)

-- Decoding gives back the bytes that were encoded.
pub from_b64-to_b64 : (bs : Bytes) → IsBytes bs → from_b64 (to_b64 bs) ≡ bs
unfolding from_b64 to_b64
from_b64-to_b64 [] h = refl
from_b64-to_b64 (a ∷ []) h =
    rw (value-digit (a / 4) (omega arith), value-digit (a % 4 * 16) (omega arith)) (ground arith)
from_b64-to_b64 (a ∷ b ∷ []) h =
    rw
      (
        digit-pad (b % 16 * 4) (omega arith),
        value-digit (a / 4) (omega arith),
        value-digit (a % 4 * 16 + b / 16) (omega arith),
        value-digit (b % 16 * 4) (omega arith),
      )
      (ground arith)
from_b64-to_b64 (a ∷ b ∷ c ∷ bs) h =
    rw
      (
        digit-pad (b % 16 * 4 + c / 64) (omega arith),
        digit-pad (c % 64) (omega arith),
        value-digit (a / 4) (omega arith),
        value-digit (a % 4 * 16 + b / 16) (omega arith),
        value-digit (b % 16 * 4 + c / 64) (omega arith),
        value-digit (c % 64) (omega arith),
        from_b64-to_b64 bs h.1.1.1,
      )
      (ground arith)

-- The text of a byte array that is not empty is not empty.
pub to_b64-cons : (b : ℕ) (bs : Bytes) → (c : ℕ) × (t : Text) × (to_b64 (b ∷ bs) ≡ c ∷ t)
unfolding to_b64
to_b64-cons a [] = (_, _, refl)
to_b64-cons a (b ∷ []) = (_, _, refl)
to_b64-cons a (b ∷ c ∷ bs) = (_, _, refl)
