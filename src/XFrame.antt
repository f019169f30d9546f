-- ===== src/XFrame.antt =====
-- shared/xframe.mjs: the frames of a post on X and of a thread of posts (`buildXFrames`), and the
-- hashtag (`appendTag`; `stripTag` is in XFrame/Tags). A mode is one of X_MODE, so the refusal of an
-- unknown mode has no case here.
pub mod Count
pub mod Tags
pub mod Stripping
pub mod Laws
pub mod Tests
use lortnoc_tahc.Base.{
  ◌%◌, ◌==◌, leb, not, true, false, ℕ, ◌+◌, ◌*◌, ◌-◌, ◌/◌, max, Bool, Option, none, some, List, [],
  ◌∷◌, ◌++◌, map, if◌then◌else◌, ltb, length, get_or, take, drop, count_up, Bytes, Text,
}
use lortnoc_tahc.Keys.{codes}

pub data XMode : Type 0 where
  public_channel shared recipients : XMode

abbrev pub mode_code : XMode → ℕ
mode_code public_channel = 2
mode_code shared = 3
mode_code recipients = 4

abbrev pub max_parts : ℕ
max_parts = 16

abbrev pub hashtag : Text
hashtag = codes "#lortnoctahc"

-- `Math.ceil(n / d)` for a positive `d`
abbrev pub ceil_div : ℕ → ℕ → ℕ
ceil_div n d = (n + (d - 1)) / d

-- The frame of one part, the flags in the low half of the first byte.
unfoldable pub part_frame : XMode → Bytes → Bool → ℕ → ℕ → ℕ → Bytes
part_frame mode ciphertext squeezed chunk total seq =
    let threaded = ltb 1 total in
    let flags = (if squeezed then 1 else 0) + (if threaded then 2 else 0) in
    (mode_code mode * 16 + flags)
    ∷ (seq * 16 + (total - 1))
    ∷ ((if threaded then get_or ciphertext 0 0 ∷ get_or ciphertext 1 0 ∷ [] else [])
        ++ take chunk (drop (seq * chunk) ciphertext))

abbrev pub value_or_length : Option ℕ → Bytes → ℕ
value_or_length none bytes = length bytes
value_or_length (some n) bytes = n

abbrev pub total_parts : Bytes → ℕ → ℕ
total_parts ciphertext chunk = max 1 (ceil_div (length ciphertext) chunk)

-- Nothing where the source throws.
unfoldable pub build_x_frames : XMode → Bytes → Bool → Option ℕ → Option (List Bytes)
unfolding part_frame count_up
build_x_frames mode ciphertext squeezed chunk_bytes =
    let chunk = value_or_length chunk_bytes ciphertext in
    let total = total_parts ciphertext chunk in
    if ltb (length ciphertext) 2
    then none
    else if ltb chunk 1
    then none
    else if ltb max_parts total
    then none
    else some (map (part_frame mode ciphertext squeezed chunk total) (count_up 0 total))

unfoldable pub append_tag : Text → Text
append_tag cover_text = cover_text ++ (b' ' ∷ hashtag)

pub record XPart : Type 0 where
  pub mode : XMode
  pub squeezed : Bool
  pub threaded : Bool
  pub seq : ℕ
  pub total : ℕ
  pub tid : Option ℕ
  pub payload : Bytes

unfoldable pub mode_of : ℕ → Option XMode
mode_of n =
    if n == 2
    then some public_channel
    else if n == 3
    then some shared
    else if n == 4
    then some recipients
    else none

abbrev pub bit : ℕ → Bool
bit n = n % 2 == 1

abbrev pub is_same : Bool → Bool → Bool
is_same true b = b
is_same false b = not b

-- What follows the header's checks, for a known mode.
unfoldable pub read_part : Bytes → XMode → Option XPart
read_part bytes mode =
    let flags = get_or bytes 0 0 % 16 in
    let threaded = bit (flags / 2) in
    let seq = get_or bytes 1 0 / 16 in
    let total = get_or bytes 1 0 % 16 + 1 in
    let head = if threaded then 4 else 2 in
    if leb total seq
    then none
    else if not (is_same threaded (ltb 1 total))
    then none
    else if ltb (length bytes) head
    then none
    else some (record {
      mode = mode;
      squeezed = bit flags;
      threaded = threaded;
      seq = seq;
      total = total;
      tid = if threaded then some (get_or bytes 2 0 * 256 + get_or bytes 3 0) else none;
      payload = drop head bytes;
    })

unfoldable pub read_known : Bytes → Option XMode → Option XPart
unfolding read_part
read_known bytes none = none
read_known bytes (some mode) = read_part bytes mode

unfoldable pub parse_x_frame : Bytes → Option XPart
unfolding read_known mode_of
parse_x_frame bytes =
    if ltb (length bytes) 2 then none else read_known bytes (mode_of (get_or bytes 0 0 / 16))
