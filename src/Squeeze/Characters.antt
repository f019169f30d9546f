-- ===== src/Squeeze/Characters.antt =====
-- The encoder and the decoder of Squeeze.Utf8 on the characters of the basic plane.
use lortnoc_tahc.Base.{
  ℕ, ◌<◌, ◌≡◌, ◌≢◌, refl, sym, ap, false, ◌||◌, none, [], ◌∷◌, ◌++◌, Bytes, Text, All, arith,
  append_assoc, ◌∙◌,
}
use lortnoc_tahc.Squeeze.Utf8.{
  basic, encode_unit, encode_step, encode_after, encode_text, units, first_byte, next_byte,
  decode_from, drop_mark, decode_text, is_high, is_low, start, byte_order_mark,
}

-- A unit that is a character of its own, and no byte order mark, which the decoder removes.
abbrev pub IsPlain : ℕ → Type 0
IsPlain u = (u < 65536) × ((is_high u || is_low u) ≡ false) × (u ≢ byte_order_mark)

decode_basic :
    (u : ℕ) (rest : Bytes)
    → u < 65536
    → (is_high u || is_low u) ≡ false
    → decode_from start (basic u ++ rest) ≡ u ∷ decode_from start rest
unfolding basic decode_from next_byte first_byte units
decode_basic u rest small whole = ground arith

-- The bytes of a text without pairs, character by character.
abbrev pub basics : Text → Bytes
basics [] = []
basics (u ∷ us) = basic u ++ basics us

pub basics-append : (s t : Text) → basics (s ++ t) ≡ basics s ++ basics t
basics-append [] t = refl
basics-append (u ∷ us) t =
    ap (λ x. basic u ++ x) (basics-append us t)
    ∙ sym (append_assoc (basic u) (basics us) (basics t))

pub encode_unit-plain : (u : ℕ) → IsPlain u → encode_unit u ≡ basic u
unfolding encode_unit
encode_unit-plain u plain = rw (plain.1) refl

encode_step-plain : (u : ℕ) → IsPlain u → encode_step none u ≡ (basic u, none)
unfolding encode_step
encode_step-plain u plain =
    let alone : is_high u ≡ false = ground (arith, plain.1) in
    let odd : is_low u ≡ false = ground (arith, plain.1) in rw (alone, odd) refl

pub encode_text-plain : (text : Text) → All IsPlain text → encode_text text ≡ basics text
unfolding encode_text encode_after
encode_text-plain [] plain = refl
encode_text-plain (u ∷ us) plain =
    rw (encode_step-plain u plain.0) (ap (λ x. basic u ++ x) (encode_text-plain us plain.1))

decode_from-basics : (text : Text) → All IsPlain text → decode_from start (basics text) ≡ text
unfolding decode_from
decode_from-basics [] plain = refl
decode_from-basics (u ∷ us) plain =
    decode_basic u (basics us) plain.0.0 plain.0.1 ∙ ap (◌∷◌ u) (decode_from-basics us plain.1)

drop_mark-plain : (text : Text) → All IsPlain text → drop_mark text ≡ text
unfolding drop_mark
drop_mark-plain [] plain = refl
drop_mark-plain (u ∷ us) plain = ground (arith, plain.0.2)

pub decode_text-basics : (text : Text) → All IsPlain text → decode_text (basics text) ≡ text
unfolding decode_text
decode_text-basics text plain = rw (decode_from-basics text plain) (drop_mark-plain text plain)
