-- ===== src/Base/Xor.antt =====
-- Exclusive or of bytes and of byte arrays: `const xor = (a, b) => a.map((x, i) => x ^ b[i])`, which
-- shared/policy.mjs and shared/sealed.mjs declare alike.
use Prim.Native.Nat.{
  ℕ, zero, suc, ◌+◌, ◌*◌, ◌/◌, ◌%◌, ◌≤◌, ◌<◌, bit_xor, differ, digits, bit_xor-bitwise,
}
use mathlib.Core.Path.{◌≡◌, refl, ap}
use mathlib.Core.List.{[], ◌∷◌}
use native.Mathlib.Nat.{le_refl}
use native.Mathlib.Omega.{arith}
use lortnoc_tahc.Base.Lists.{Bytes, length}

-- The fuel of the library's recursion on binary digits does not matter from the first number on.
xor_digits_fuel :
    (n m a b : ℕ) → a ≤ n → a ≤ m → digits (λ y. y) differ n a b ≡ digits (λ y. y) differ m a b
xor_digits_fuel zero zero a b p q = refl
xor_digits_fuel zero (suc m) zero b p q = refl
xor_digits_fuel zero (suc m) (suc a) b p q = absurd (omega arith)
xor_digits_fuel (suc n) zero zero b p q = refl
xor_digits_fuel (suc n) zero (suc a) b p q = absurd (omega arith)
xor_digits_fuel (suc n) (suc m) zero b p q = refl
xor_digits_fuel (suc n) (suc m) (suc a) b p q =
    omega (arith, xor_digits_fuel n m (suc a / 2) (b / 2) (omega arith) (omega arith))

differ_bits : (x y : ℕ) → x < 2 → y < 2 → differ x y ≡ (x + y) % 2
differ_bits zero zero p q = refl
differ_bits zero (suc zero) p q = refl
differ_bits (suc zero) zero p q = refl
differ_bits (suc zero) (suc zero) p q = refl
differ_bits zero (suc (suc y)) p q = absurd (omega arith)
differ_bits (suc zero) (suc (suc y)) p q = absurd (omega arith)
differ_bits (suc (suc x)) y p q = absurd (omega arith)

-- The lowest digit, and the others.
bit_xor_step : (a b : ℕ) → bit_xor a b ≡ bit_xor (a / 2) (b / 2) * 2 + (a + b) % 2
bit_xor_step zero b = omega (arith, bit_xor-bitwise 0 b, bit_xor-bitwise 0 (b / 2))
bit_xor_step (suc a) b = omega (
  arith,
  bit_xor-bitwise (suc a) b,
  bit_xor-bitwise (suc a / 2) (b / 2),
  differ_bits (suc a % 2) (b % 2) (omega arith) (omega arith),
  xor_digits_fuel a (suc a / 2) (suc a / 2) (b / 2) (omega arith) (le_refl _),
)

bit_xor_half : (a b : ℕ) → bit_xor a b / 2 ≡ bit_xor (a / 2) (b / 2)
bit_xor_half a b = omega (arith, bit_xor_step a b)

bit_xor_low : (a b : ℕ) → bit_xor a b % 2 ≡ (a + b) % 2
bit_xor_low a b = omega (arith, bit_xor_step a b)

zero-bit_xor : (b : ℕ) → bit_xor 0 b ≡ b
zero-bit_xor b = bit_xor-bitwise 0 b

-- The number `s` in both operands cancels.
bit_xor_cancel_fuel :
    (n z c s : ℕ) → z ≤ n → c ≤ n → s ≤ n → bit_xor (bit_xor z s) (bit_xor c s) ≡ bit_xor z c
bit_xor_cancel_fuel zero zero zero zero p q r = refl
bit_xor_cancel_fuel zero (suc z) c s p q r = absurd (omega arith)
bit_xor_cancel_fuel zero z (suc c) s p q r = absurd (omega arith)
bit_xor_cancel_fuel zero z c (suc s) p q r = absurd (omega arith)
bit_xor_cancel_fuel (suc n) z c s p q r =
    let halves : bit_xor (bit_xor z s / 2) (bit_xor c s / 2) ≡ bit_xor (z / 2) (c / 2) =
      rw (bit_xor_half z s, bit_xor_half c s)
        (bit_xor_cancel_fuel n (z / 2) (c / 2) (s / 2) (omega arith) (omega arith) (omega arith)) in
    omega (
      arith,
      bit_xor_step (bit_xor z s) (bit_xor c s),
      bit_xor_step z c,
      bit_xor_low z s,
      bit_xor_low c s,
      halves,
    )

bit_xor_cancel : (z c s : ℕ) → bit_xor (bit_xor z s) (bit_xor c s) ≡ bit_xor z c
bit_xor_cancel z c s =
    bit_xor_cancel_fuel (z + c + s) z c s (omega arith) (omega arith) (omega arith)

bit_xor_twice_fuel : (n a s : ℕ) → a ≤ n → s ≤ n → bit_xor (bit_xor a s) s ≡ a
bit_xor_twice_fuel zero zero zero p q = refl
bit_xor_twice_fuel zero (suc a) s p q = absurd (omega arith)
bit_xor_twice_fuel zero a (suc s) p q = absurd (omega arith)
bit_xor_twice_fuel (suc n) a s p q =
    let halves : bit_xor (bit_xor a s / 2) (s / 2) ≡ a / 2 =
      rw (bit_xor_half a s) (bit_xor_twice_fuel n (a / 2) (s / 2) (omega arith) (omega arith)) in
    omega (arith, bit_xor_step (bit_xor a s) s, bit_xor_low a s, halves)

bit_xor_twice : (a s : ℕ) → bit_xor (bit_xor a s) s ≡ a
bit_xor_twice a s = bit_xor_twice_fuel (a + s) a s (omega arith) (omega arith)

unfoldable pub xor : Bytes → Bytes → Bytes
xor [] vs = []
xor (a ∷ us) [] = a ∷ us
xor (a ∷ us) (b ∷ vs) = bit_xor a b ∷ xor us vs

-- `new Uint8Array(n)`
unfoldable pub zeros : ℕ → Bytes
zeros zero = []
zeros (suc n) = 0 ∷ zeros n

pub length-xor : (us vs : Bytes) → length (xor us vs) ≡ length us
unfolding xor
length-xor [] vs = refl
length-xor (a ∷ us) [] = refl
length-xor (a ∷ us) (b ∷ vs) = ap suc (length-xor us vs)

pub length-zeros : (n : ℕ) → length (zeros n) ≡ n
unfolding zeros
length-zeros zero = refl
length-zeros (suc n) = ap suc (length-zeros n)

-- What is masked twice is us before.
pub xor_twice : (us vs : Bytes) → xor (xor us vs) vs ≡ us
unfolding xor
xor_twice [] vs = refl
xor_twice (a ∷ us) [] = refl
xor_twice (a ∷ us) (b ∷ vs) = rw (bit_xor_twice a b, xor_twice us vs)

-- A share that is taken out of one array and into another changes nothing of the two together.
pub xor_cancel :
    (z c s : Bytes) → length z ≡ length c → length s ≡ length c → xor (xor z s) (xor c s) ≡ xor z c
unfolding xor
xor_cancel [] c s p q = refl
xor_cancel (z ∷ zs) [] s p q = absurd (omega arith)
xor_cancel (z ∷ zs) (c ∷ cs) [] p q = absurd (omega arith)
xor_cancel (z ∷ zs) (c ∷ cs) (s ∷ ss) p q =
    rw (bit_xor_cancel z c s, xor_cancel zs cs ss (omega arith) (omega arith))

pub zeros-xor : (vs : Bytes) → xor (zeros (length vs)) vs ≡ vs
unfolding xor zeros
zeros-xor [] = refl
zeros-xor (b ∷ vs) = rw (zero-bit_xor b, zeros-xor vs)

bit_xor_swap_fuel :
    (n a b c : ℕ) → a ≤ n → b ≤ n → c ≤ n → bit_xor (bit_xor a b) c ≡ bit_xor (bit_xor a c) b
bit_xor_swap_fuel zero zero zero zero p q r = refl
bit_xor_swap_fuel zero (suc a) b c p q r = absurd (omega arith)
bit_xor_swap_fuel zero a (suc b) c p q r = absurd (omega arith)
bit_xor_swap_fuel zero a b (suc c) p q r = absurd (omega arith)
bit_xor_swap_fuel (suc n) a b c p q r =
    let halves : bit_xor (bit_xor a b / 2) (c / 2) ≡ bit_xor (bit_xor a c / 2) (b / 2) =
      rw (bit_xor_half a b, bit_xor_half a c)
        (bit_xor_swap_fuel n (a / 2) (b / 2) (c / 2) (omega arith) (omega arith) (omega arith)) in
    omega (
      arith,
      bit_xor_step (bit_xor a b) c,
      bit_xor_step (bit_xor a c) b,
      bit_xor_low a b,
      bit_xor_low a c,
      halves,
    )

bit_xor_swap : (a b c : ℕ) → bit_xor (bit_xor a b) c ≡ bit_xor (bit_xor a c) b
bit_xor_swap a b c = bit_xor_swap_fuel (a + b + c) a b c (omega arith) (omega arith) (omega arith)

-- The order of what is taken in does not matter.
pub xor_swap : (us vs ws : Bytes) → xor (xor us vs) ws ≡ xor (xor us ws) vs
unfolding xor
xor_swap [] vs ws = refl
xor_swap (a ∷ us) [] [] = refl
xor_swap (a ∷ us) [] (d ∷ ws) = refl
xor_swap (a ∷ us) (b ∷ vs) [] = refl
xor_swap (a ∷ us) (b ∷ vs) (d ∷ ws) = rw (bit_xor_swap a b d, xor_swap us vs ws)
