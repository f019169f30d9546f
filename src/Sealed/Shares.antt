-- ===== src/Sealed/Shares.antt =====
-- Some mask of the shares that a reader holds gives the root, shared/sealed.mjs.
use native.Mathlib.Nat.{pow-suc}
use lortnoc_tahc.Base.{
  ℕ, zero, suc, ◌+◌, ◌*◌, ◌/◌, ◌%◌, ◌^◌, ◌<◌, ◌≡◌, ◌≢◌, refl, sym, ap, subst, ◌∙◌, Bool, true,
  false, List, [], ◌∷◌, if◌then◌else◌, length, ◌==◌, list_eq, list_eq_sound, xor, zeros, length-xor,
  length-zeros, xor_twice, xor_cancel, xor_swap, zeros-xor, Bytes, All, arith, Bool-cases, inl, inr,
}
use lortnoc_tahc.Policy.Candidates.{contains}
use lortnoc_tahc.Sealed.Post.{share_rows}
use lortnoc_tahc.Sealed.Reading.{mask_key}

-- The XOR of the shares that are picked, and the picks as a number.
abbrev pick : List Bool → List Bytes → Bytes → Bytes
pick bits [] k = k
pick [] (s ∷ ss) k = k
pick (b ∷ bits) (s ∷ ss) k = pick bits ss (if b then xor k s else k)

abbrev value : List Bool → ℕ
value [] = 0
value (true ∷ bits) = 1 + 2 * value bits
value (false ∷ bits) = 2 * value bits

mask_key-value :
    (bits : List Bool) (ss : List Bytes) (k : Bytes)
    → length bits ≡ length ss
    → mask_key k (value bits) ss ≡ pick bits ss k
unfolding mask_key
mask_key-value bits [] k h = refl
mask_key-value [] (s ∷ ss) k h = absurd (omega (arith, h))
mask_key-value (true ∷ bits) (s ∷ ss) k h =
    let low : ((1 + 2 * value bits) % 2 == 1) ≡ true = ground arith in
    let high : (1 + 2 * value bits) / 2 ≡ value bits = omega arith in
    rw (low, high) (mask_key-value bits ss (xor k s) (omega (arith, h)))
mask_key-value (false ∷ bits) (s ∷ ss) k h =
    let low : ((2 * value bits) % 2 == 1) ≡ false = ground arith in
    let high : (2 * value bits) / 2 ≡ value bits = omega arith in
    rw (low, high) (mask_key-value bits ss k (omega (arith, h)))

pick-xor :
    (bits : List Bool) (ss : List Bytes) (k t : Bytes)
    → pick bits ss (xor k t) ≡ xor (pick bits ss k) t
pick-xor bits [] k t = refl
pick-xor [] (s ∷ ss) k t = refl
pick-xor (true ∷ bits) (s ∷ ss) k t = rw (xor_swap k t s) (pick-xor bits ss (xor k s) t)
pick-xor (false ∷ bits) (s ∷ ss) k t = pick-xor bits ss k t

abbrev IsPick : List Bytes → Bytes → Bytes → Type 0
IsPick ss k out = (bits : List Bool) × (length bits ≡ length ss) × (pick bits ss k ≡ out)

-- One more share is taken in, or out.
toggle :
    (ss : List Bytes) (k t out : Bytes)
    → contains t ss ≡ true
    → IsPick ss k out
    → IsPick ss k (xor out t)
toggle [] k t out h p = absurd cc
toggle (s ∷ ss) k t out h ([], size, same) = absurd (omega (arith, size))
toggle (s ∷ ss) k t out h (b ∷ bits, size, same) = elim (Bool-cases (list_eq t s)) [
  | inl here ↦ at_head b (list_eq_sound t s here) same
  | inr other ↦
      let rest =
        toggle ss (if b then xor k s else k) t out (left other) (bits, omega (arith, size), same) in
      (b ∷ rest.0, ap suc rest.1, rest.2)
]
  where
    left : list_eq t s ≡ false → contains t ss ≡ true
    left other = ground (arith, other, h)

    at_head :
        (b : Bool)
        → t ≡ s
        → pick bits ss (if b then xor k s else k) ≡ out
        → IsPick (s ∷ ss) k (xor out t)
    at_head true e same = (
      false ∷ bits,
      size,
      sym (xor_twice (pick bits ss k) s)
          ∙ ap (λ x. xor x s) (sym (pick-xor bits ss k s))
          ∙ (ap (λ x. xor x s) same ∙ ap (xor out) (sym e)),
    )
    at_head false e same =
        (true ∷ bits, size, pick-xor bits ss k s ∙ (ap (λ x. xor x s) same ∙ ap (xor out) (sym e)))

-- A list of shares, each of which is held.
abbrev pub AllHeld : List Bytes → List Bytes → Type 0
AllHeld held = All (λ t. contains t held ≡ true)

abbrev xor_all : Bytes → List Bytes → Bytes
xor_all z [] = z
xor_all z (t ∷ ts) = xor_all (xor z t) ts

toggle_all :
    (held ts : List Bytes) (k out : Bytes)
    → AllHeld held ts
    → IsPick held k out
    → IsPick held k (xor_all out ts)
toggle_all held [] k out h p = p
toggle_all held (t ∷ ts) k out h p =
    toggle_all held ts k (xor out t) h.1 (toggle held k t out h.0 p)

nothing_picked : (held : List Bytes) (k : Bytes) → IsPick held k k
nothing_picked [] k = ([], refl, refl)
nothing_picked (s ∷ ss) k = let p = nothing_picked ss k in (false ∷ p.0, ap suc p.1, p.2)

-- The shares of the rows are together what they were made from.
xor_all-share_rows :
    (draw : ℕ → Bytes)
    → ((i : ℕ) → length (draw i) ≡ 16)
    → (acc z : Bytes) (i n : ℕ) → length acc ≡ 16
    → length z ≡ 16
    → xor_all z (share_rows draw acc i (suc n)) ≡ xor z acc
unfolding share_rows
xor_all-share_rows draw sizes acc z i zero ha hz = refl
xor_all-share_rows draw sizes acc z i (suc n) ha hz =
    xor_all-share_rows draw sizes (xor acc (draw i)) (xor z (draw i)) (i + 1) n
      (length-xor acc (draw i) ∙ ha) (length-xor z (draw i) ∙ hz)
    ∙ xor_cancel z acc (draw i) (hz ∙ sym ha) (sizes i ∙ sym ha)

value_bound : (bits : List Bool) → value bits < 2 ^ length bits
value_bound [] = omega arith
value_bound (true ∷ bits) = omega (arith, value_bound bits, pow-suc 2 (length bits))
value_bound (false ∷ bits) = omega (arith, value_bound bits, pow-suc 2 (length bits))

value_zero : (bits : List Bool) (ss : List Bytes) (k : Bytes) → value bits ≡ 0 → pick bits ss k ≡ k
value_zero bits [] k h = refl
value_zero [] (s ∷ ss) k h = refl
value_zero (true ∷ bits) (s ∷ ss) k h = absurd (omega (arith, h))
value_zero (false ∷ bits) (s ∷ ss) k h = value_zero bits ss k (omega (arith, h))

-- A mask that is tried, and the key that it gives.
abbrev pub IsMask : List Bytes → Bytes → ℕ → Type 0
IsMask held key mask = (0 < mask) × (mask < 2 ^ length held) × (mask_key (zeros 16) mask held ≡ key)

-- Who holds the share of each row reaches the root by one of the masks.
pub root_reached :
    (draw : ℕ → Bytes)
    → ((i : ℕ) → length (draw i) ≡ 16)
    → (root : Bytes) (n : ℕ) (held : List Bytes) → length root ≡ 16
    → root ≢ zeros 16
    → AllHeld held (share_rows draw root 0 (suc n))
    → (mask : ℕ) × IsMask held root mask
root_reached draw sizes root n held size filled all =
    let p =
      toggle_all held (share_rows draw root 0 (suc n)) (zeros 16) (zeros 16) all
        (nothing_picked held (zeros 16)) in
    let whole : pick p.0 held (zeros 16) ≡ root =
      p.2 ∙ xor_all-share_rows draw sizes root (zeros 16) 0 n size (length-zeros 16) ∙ whole_root in
    (
      value p.0,
      (
        positive (value p.0) (λ e. filled (sym whole ∙ value_zero p.0 held (zeros 16) e)),
        subst (λ m. value p.0 < 2 ^ m) p.1 (value_bound p.0),
        mask_key-value p.0 held (zeros 16) p.1 ∙ whole,
      ),
    )
  where
    whole_root : xor (zeros 16) root ≡ root
    whole_root = subst (λ m. xor (zeros m) root ≡ root) size (zeros-xor root)

    positive : (m : ℕ) → (m ≡ 0 → ⊥) → 0 < m
    positive zero h = absurd (h refl)
    positive (suc m) h = omega arith
