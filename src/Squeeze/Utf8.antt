-- ===== src/Squeeze/Utf8.antt =====
-- `TextEncoder` and `TextDecoder`, as shared/squeeze.mjs uses them: a text is the list of its UTF-16
-- code units. The decoder is the one of the Encoding Standard, with the byte order mark removed.
use lortnoc_tahc.Base.{
  ℕ, ◌+◌, ◌-◌, ◌*◌, ◌/◌, ◌%◌, Bool, not, ◌||◌, Option, none, some, [], ◌∷◌, ◌++◌, if◌then◌else◌,
  ltb, ◌==◌, between, Bytes, Text,
}

-- U+FFFD, the replacement character, and U+FEFF, the byte order mark.
abbrev pub replacement : ℕ
replacement = 0xfffd

abbrev pub byte_order_mark : ℕ
byte_order_mark = 0xfeff

abbrev pub is_high : ℕ → Bool
is_high u = between 0xd800 0xdbff u

abbrev pub is_low : ℕ → Bool
is_low u = between 0xdc00 0xdfff u

-- The UTF-8 of one code point of the basic plane that is no surrogate.
unfoldable pub basic : ℕ → Bytes
basic u =
    if ltb u 128
    then u ∷ []
    else if ltb u 2048
    then (192 + u / 64) ∷ (128 + u % 64) ∷ []
    else (224 + u / 4096) ∷ (128 + (u / 64) % 64) ∷ (128 + u % 64) ∷ []

-- `enc.encode(text[i])`: half a pair alone is not a character.
unfoldable pub encode_unit : ℕ → Bytes
encode_unit u = if is_high u || is_low u then basic replacement else basic u

abbrev pub astral : ℕ → Bytes
astral c =
    (240 + c / 262144) ∷ (128 + (c / 4096) % 64) ∷ (128 + (c / 64) % 64) ∷ (128 + c % 64) ∷ []

abbrev pair : ℕ → ℕ → ℕ
pair high low = 65536 + (high - 0xd800) * 1024 + (low - 0xdc00)

-- One unit, after the high half of a pair or not.
unfoldable pub encode_step : Option ℕ → ℕ → Bytes × Option ℕ
unfolding encode_unit
encode_step none u = if is_high u then ([], some u) else (encode_unit u, none)
encode_step (some high) u =
    if is_low u
    then (astral (pair high u), none)
    else if is_high u
    then (encode_unit high, some u)
    else (encode_unit high ++ encode_unit u, none)

unfoldable pub encode_after : Option ℕ → Text → Bytes
unfolding encode_step encode_unit
encode_after none [] = []
encode_after (some high) [] = encode_unit high
encode_after held (u ∷ us) = let r = encode_step held u in r.0 ++ encode_after r.1 us

-- `enc.encode(text)`
unfoldable pub encode_text : Text → Bytes
unfolding encode_after
encode_text text = encode_after none text

-- The decoder between two bytes: at the start of a character, or inside of one, with the number of
-- bytes to come, the bounds of the next one, and the bits so far.
pub data Decoder : Type 0 where
  start : Decoder
  inside : ℕ → ℕ → ℕ → ℕ → Decoder

-- A code point as UTF-16.
unfoldable pub units : ℕ → Text
units c =
    if ltb c 65536
    then c ∷ []
    else (0xd800 + (c - 65536) / 1024) ∷ (0xdc00 + (c - 65536) % 1024) ∷ []

unfoldable pub first_byte : ℕ → Text × Decoder
first_byte b =
    if ltb b 128
    then (b ∷ [], start)
    else if between 194 223 b
    then ([], inside 1 128 191 (b - 192))
    else if between 224 239 b
    then ([], inside 2 (if b == 224 then 160 else 128) (if b == 237 then 159 else 191) (b - 224))
    else if between 240 244 b
    then ([], inside 3 (if b == 240 then 144 else 128) (if b == 244 then 143 else 191) (b - 240))
    else (replacement ∷ [], start)

unfoldable pub next_byte : Decoder → ℕ → Text × Decoder
unfolding first_byte units
next_byte start b = first_byte b
next_byte (inside left lower upper bits) b =
    if not (between lower upper b)
    then (replacement ∷ (first_byte b).0, (first_byte b).1)
    else if left == 1
    then (units (bits * 64 + (b - 128)), start)
    else ([], inside (left - 1) 128 191 (bits * 64 + (b - 128)))

unfoldable pub decode_from : Decoder → Bytes → Text
unfolding next_byte
decode_from start [] = []
decode_from (inside left lower upper bits) [] = replacement ∷ []
decode_from d (b ∷ bs) = let r = next_byte d b in r.0 ++ decode_from r.1 bs

unfoldable pub drop_mark : Text → Text
drop_mark [] = []
drop_mark (u ∷ us) = if u == byte_order_mark then us else u ∷ us

-- `dec.decode(bytes)`
unfoldable pub decode_text : Bytes → Text
unfolding decode_from drop_mark
decode_text bytes = drop_mark (decode_from start bytes)
