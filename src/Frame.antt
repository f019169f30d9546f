-- ===== src/Frame.antt =====
-- extension/src/content/handshake.ts: the 41 byte frame that carries a public key in the chat.
-- A `Uint8Array` is a list of bytes. `x >>> k` is `x / 2 ^ k`, `x & 0xff` of a shift is `% 256`,
-- `>>> 0` is `% 2 ^ 32`, and `|` of four shifted bytes, which share no bit, is their sum.
pub mod Laws
pub mod Tests
use lortnoc_tahc.Base.{
  ℕ, zero, suc, ◌+◌, ◌*◌, ◌/◌, ◌%◌, ◌^◌, bit_xor, bit_and, Bool, not, ◌&&◌, Option, none, some,
  List, [], ◌∷◌, ◌++◌, map, if◌then◌else◌, ◌==◌, list_eq, length, get_or, take, drop, Bytes,
  count_up,
}

-- "LTNC"
abbrev pub magic : Bytes
magic = 0x4c ∷ 0x54 ∷ 0x4e ∷ 0x43 ∷ []

pub data FrameType : Type 0 where
  offer ack : FrameType

-- The numbers of `FRAME`.
unfoldable pub type_code : FrameType → ℕ
type_code offer = 0x01
type_code ack = 0x02

abbrev pub pubkey_len : ℕ
pubkey_len = 32

abbrev pub frame_len : ℕ
frame_len = 4 + 1 + pubkey_len + 4

-- The inner loop of the table: `k` rounds are left.
unfoldable pub crc_rounds : ℕ → ℕ → ℕ
crc_rounds zero c = c
crc_rounds (suc k) c = crc_rounds k (if bit_and c 1 == 1 then bit_xor 0xedb88320 (c / 2) else c / 2)

unfoldable pub crc_table : List ℕ
unfolding crc_rounds count_up
crc_table = map (crc_rounds 8) (count_up 0 256)

-- The loop of `crc32` over the bytes.
unfoldable pub crc_loop : ℕ → Bytes → ℕ
unfolding crc_table
crc_loop c [] = c
crc_loop c (b ∷ bs) = crc_loop (bit_xor (get_or crc_table (bit_xor c b % 256) 0) (c / 2 ^ 8)) bs

unfoldable pub crc32 : Bytes → ℕ
unfolding crc_loop
crc32 bytes = bit_xor (crc_loop 0xffffffff bytes) 0xffffffff % 2 ^ 32

-- The four bytes of a word, the high one first.
unfoldable pub word_bytes : ℕ → Bytes
word_bytes w = (w / 2 ^ 24 % 256) ∷ (w / 2 ^ 16 % 256) ∷ (w / 2 ^ 8 % 256) ∷ (w % 256) ∷ []

unfoldable pub word_of : Bytes → ℕ → ℕ
word_of bytes at =
    (get_or bytes at 0 * 2 ^ 24
      + get_or bytes (at + 1) 0 * 2 ^ 16
      + get_or bytes (at + 2) 0 * 2 ^ 8
      + get_or bytes (at + 3) 0)
    % 2 ^ 32

abbrev pub frame_body : ℕ → Bytes → Bytes
frame_body code pubkey = magic ++ code ∷ pubkey

unfoldable pub build_frame : FrameType → Bytes → Bytes
unfolding type_code word_bytes
build_frame type pubkey =
    let body = frame_body (type_code type) pubkey in body ++ word_bytes (crc32 body)

unfoldable pub type_of : ℕ → Option FrameType
type_of code =
    if not (code == 0x01) && not (code == 0x02)
    then none
    else if code == 0x01
    then some offer
    else some ack

pub record Frame : Type 0 where
  pub type : FrameType
  pub pubkey : Bytes

unfoldable pub frame_of : Option FrameType → Bytes → Option Frame
frame_of none pubkey = none
frame_of (some type) pubkey = some (record { type = type; pubkey = pubkey })

-- The last two tests of `parseFrame`, after the length and the magic.
unfoldable pub parse_body : Bytes → Option Frame
unfolding word_of
parse_body bytes =
    let body = take (4 + 1 + pubkey_len) bytes in
    if not (crc32 body == word_of bytes (4 + 1 + pubkey_len))
    then none
    else frame_of (type_of (get_or bytes 4 0)) (take pubkey_len (drop 5 bytes))

unfoldable pub parse_frame : Bytes → Option Frame
unfolding parse_body list_eq
parse_frame bytes =
    let has_magic = list_eq (take 4 bytes) magic in
    if not (length bytes == frame_len)
    then none
    else if not has_magic
    then none
    else parse_body bytes
