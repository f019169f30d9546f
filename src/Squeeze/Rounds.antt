-- ===== src/Squeeze/Rounds.antt =====
-- The rounds of the loop of `squeeze`, shared/squeeze.mjs: they end, and what they put out is bounded.
use lortnoc_tahc.Base.{
  ℕ, zero, suc, ◌+◌, ◌*◌, ◌<◌, ◌≤◌, ◌≡◌, refl, Option, none, some, List, [], ◌∷◌, ◌++◌, length,
  Bytes, Text, All, arith, length-append, length-drop, if_either, ap, ◌||◌,
}
use lortnoc_tahc.Squeeze.Utf8.{basic, encode_unit, is_high, is_low, replacement}
use lortnoc_tahc.Squeeze.{
  Entry, by_length, by_first, find_hit, escape_all, take_hit, after_bytes, squeeze_loop, squeeze,
}
use lortnoc_tahc.Squeeze.Entries.{
  IsEntry, IsTable, by_length-entries, by_first-entries, find_hit_found,
}

pub length-escape_all : (bs : Bytes) → length (escape_all bs) ≤ 2 * length bs
unfolding escape_all
length-escape_all [] = omega arith
length-escape_all (b ∷ bs) = ground (arith, length-escape_all bs)

length-basic : (u : ℕ) → length (basic u) ≤ 3
unfolding basic
length-basic u = ground arith

pub length-encode_unit : (u : ℕ) → length (encode_unit u) ≤ 3
unfolding encode_unit
length-encode_unit u =
    if_either (λ (x : Bytes). length x ≤ 3) (is_high u || is_low u) (length-basic replacement)
      (length-basic u)

-- What a round puts out, and that it takes a character.
abbrev IsRound : ℕ → Text → Bytes × Text → Type 0
IsRound u us r = length r.0 + 6 * length r.1 ≤ 6 * suc (length us) × (length r.1 ≤ length us)

module _ (table : List Text) where
  take_hit-IsRound :
      (u : ℕ) (us : Text) (o : Option Entry)
      → ((e : Entry) → o ≡ some e → 0 < length e.fragment)
      → IsRound u us (take_hit u us o)
  unfolding take_hit
  take_hit-IsRound u us none h =
      (omega (arith, length-escape_all (encode_unit u), length-encode_unit u), omega arith)
  take_hit-IsRound u us (some e) h =
      let size = length-drop (length e.fragment) (u ∷ us) in
      (omega (arith, size, h e refl), omega (arith, size, h e refl))

  abbrev Returns : ℕ → Option Bytes → Type 0
  Returns n o = (bs : Bytes) × (o ≡ some bs) × (length bs ≤ n)

  joined :
      (front : Bytes) (n m : ℕ) (o : Option Bytes)
      → length front + n ≤ m
      → Returns n o
      → Returns m (after_bytes front o)
  joined front n m o small h =
      (front ++ h.0, ap (after_bytes front) h.1, omega (arith, small, length-append front h.0, h.2))

  pub squeeze_loop-returns :
      (entries : List Entry)
      → All (IsEntry table) entries
      → (fuel : ℕ) (text : Text) → length text < fuel
      → Returns (6 * length text) (squeeze_loop entries fuel text)
  unfolding squeeze_loop
  squeeze_loop-returns entries h zero text less = absurd (omega arith)
  squeeze_loop-returns entries h (suc fuel) [] less = ([], refl, omega arith)
  squeeze_loop-returns entries h (suc fuel) (u ∷ us) less =
      let o = find_hit (by_first entries u) (u ∷ us) in
      let round = take_hit-IsRound u us o (nonempty) in
      joined (take_hit u us o).0 _ _ _ round.0
        (squeeze_loop-returns entries h fuel (take_hit u us o).1 (omega (arith, less, round.1)))
    where
      nonempty :
          (e : Entry) → find_hit (by_first entries u) (u ∷ us) ≡ some e → 0 < length e.fragment
      nonempty e found =
          (find_hit_found (IsEntry table) (by_first entries u) (u ∷ us) e
            (by_first-entries (IsEntry table) entries u h) found).0.2

-- With fragments that are not empty, the loop comes to the end of every text, and each unit of the
-- text gives at most six bytes.
pub squeeze_returns :
    (table : List Text)
    → IsTable table
    → (text : Text) → (bs : Bytes) × (squeeze table text ≡ some bs) × (length bs ≤ 6 * length text)
unfolding squeeze
squeeze_returns table h text =
    squeeze_loop-returns table (by_length table) (by_length-entries table h) (suc (length text))
      text (omega arith)
