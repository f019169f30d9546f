-- ===== src/Squeeze/Tests.antt =====
-- Runs of shared/squeeze.mjs on its own table, and the theorems at concrete texts.
use lortnoc_tahc.Base.{
  ℕ, ◌*◌, ◌≤◌, ◌≡◌, refl, Bool, true, not, ◌&&◌, ◌||◌, some, List, [], ◌∷◌, ◌++◌, length, ltb, ◌==◌,
  Bytes, Text, All, arith, both_true, starts_with,
}
use lortnoc_tahc.Keys.{codes}
use lortnoc_tahc.Squeeze.Utf8.{
  encode_unit, basic, encode_text, decode_text, is_high, is_low, byte_order_mark,
}
use lortnoc_tahc.Squeeze.Table.{table}
use lortnoc_tahc.Squeeze.Characters.{IsPlain}
use lortnoc_tahc.Squeeze.Entries.{IsTable}
use lortnoc_tahc.Squeeze.Rounds.{squeeze_returns}
use lortnoc_tahc.Squeeze.Greedy.{IsCovered, find_hit_longest}
use lortnoc_tahc.Squeeze.RoundTrip.{unsqueeze_maybe-squeeze_if_smaller}
use lortnoc_tahc.Squeeze.{
  by_length, by_first, find_hit, goes_before, finish, read_all, read_byte, squeeze, unsqueeze,
  squeeze_if_smaller, unsqueeze_maybe,
}

all_filled : List Text → Bool
all_filled [] = true
all_filled (s ∷ rest) = not (length s == 0) && all_filled rest

all_filled-IsTable : (ts : List Text) → all_filled ts ≡ true → IsTable ts
unfolding all_filled
all_filled-IsTable [] h = tt
all_filled-IsTable (s ∷ rest) h =
    let parts = both_true (not (length s == 0)) (all_filled rest) h in
    (ground (arith, parts.0), all_filled-IsTable rest parts.1)

table-IsTable : IsTable table
unfolding all_filled
table-IsTable = all_filled-IsTable table refl

unfoldable pub is_plain : ℕ → Bool
is_plain u = ltb u 65536 && not (is_high u || is_low u) && not (u == byte_order_mark)

unfoldable pub all_plain : Text → Bool
all_plain [] = true
all_plain (u ∷ us) = is_plain u && all_plain us

pub all_plain-IsPlain : (text : Text) → all_plain text ≡ true → All IsPlain text
unfolding all_plain is_plain
all_plain-IsPlain [] h = tt
all_plain-IsPlain (u ∷ us) h =
    let parts = both_true (is_plain u) (all_plain us) h in
    (
      (ground (arith, parts.0), ground (arith, parts.0), ground (arith, parts.0)),
      all_plain-IsPlain us parts.1,
    )

-- " the cafe" with an acute accent.
abbrev cafe : Text
cafe = codes " the caf" ++ 0xe9 ∷ []

cafe-IsPlain : All IsPlain cafe
unfolding all_plain is_plain
cafe-IsPlain = all_plain-IsPlain cafe refl

cafe_squeezed :
    squeeze table cafe ≡ some (0x80 ∷ 0x63 ∷ 0x61 ∷ 0x66 ∷ 0x7f ∷ 0xc3 ∷ 0x7f ∷ 0xa9 ∷ [])
unfolding squeeze by_length goes_before starts_with encode_unit basic
cafe_squeezed = refl

-- An emoji is two units, and each of them is squeezed to the replacement character.
abbrev smile : Text
smile = codes " the  the  the " ++ 0xd83d ∷ 0xde00 ∷ []

abbrev smile_sent : Bytes
smile_sent =
    0x80 ∷ 0x80 ∷ 0x80 ∷ 0x7f ∷ 0xef ∷ 0x7f ∷ 0xbf ∷ 0x7f ∷ 0xbd ∷ 0x7f ∷ 0xef ∷ 0x7f ∷ 0xbf ∷ 0x7f
    ∷ 0xbd ∷ []

smile_squeezed : squeeze_if_smaller table smile ≡ some (smile_sent, true)
unfolding squeeze_if_smaller squeeze by_length goes_before starts_with encode_unit basic encode_text
smile_squeezed = refl

smile_lost :
    unsqueeze_maybe table smile_sent true ≡ some (codes " the  the  the " ++ 0xfffd ∷ 0xfffd ∷ [])
unfolding unsqueeze_maybe unsqueeze decode_text finish read_all read_byte
smile_lost = refl

squeeze_returns_example :
    (bs : Bytes) × (squeeze table smile ≡ some bs) × (length bs ≤ 6 * length smile)
squeeze_returns_example = squeeze_returns table table-IsTable smile

find_hit_longest_example :
    All
      (IsCovered
        (codes " the place")
        (find_hit (by_first (by_length table) 32) (codes " the place")))
      table
find_hit_longest_example = find_hit_longest table 32 (codes "the place")

unsqueeze_maybe-squeeze_if_smaller_example :
    (sent : Bytes × Bool) × (squeeze_if_smaller table cafe ≡ some sent)
    × (unsqueeze_maybe table sent.0 sent.1 ≡ some cafe)
    × (length sent.0 ≤ length (encode_text cafe))
unsqueeze_maybe-squeeze_if_smaller_example =
    unsqueeze_maybe-squeeze_if_smaller table table-IsTable cafe cafe-IsPlain
