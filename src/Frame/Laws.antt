-- ===== src/Frame/Laws.antt =====
-- The frame parser accepts exactly the frames that the builder makes.
use lortnoc_tahc.Base.{
  ℕ, ◌+◌, ◌*◌, ◌/◌, ◌%◌, ◌^◌, ◌<◌, ◌≡◌, refl, sym, ap, ◌∙◌, ◌↔◌, ◌≢◌, not, Option, none, some, [],
  ◌∷◌, ◌++◌, if◌then◌else◌, ◌==◌, length, length-append, length-take, length-drop, All-drop, get_or,
  get_or-drop, take, drop, take_at, drop_at, take-append-drop, Bytes, IsBytes, arith,
}
use lortnoc_tahc.Frame.{
  FrameType, offer, ack, type_code, type_of, frame_body, crc32, word_bytes, build_frame, frame_of,
  parse_frame, Frame,
}

-- The word that four bytes spell.
abbrev word4 : ℕ → ℕ → ℕ → ℕ → ℕ
word4 a b c d = (a * 2 ^ 24 + b * 2 ^ 16 + c * 2 ^ 8 + d) % 2 ^ 32

-- The verdict of the parser on the parts of a frame.
abbrev verdict : ℕ → Bytes → ℕ → Option Frame
verdict code pubkey word =
    if not (crc32 (frame_body code pubkey) == word) then none else frame_of (type_of code) pubkey

module _ (code : ℕ) (pubkey : Bytes) (a b c d : ℕ) (sized : length pubkey ≡ 32) where
  tail_at :
      (i : ℕ) → get_or (pubkey ++ a ∷ b ∷ c ∷ d ∷ []) (32 + i) 0 ≡ get_or (a ∷ b ∷ c ∷ d ∷ []) i 0
  tail_at i = get_or-drop 32 _ i 0 ∙ ap (λ l. get_or l i 0) (drop_at pubkey _ 32 sized)

  parse_parts :
      parse_frame (frame_body code pubkey ++ a ∷ b ∷ c ∷ d ∷ [])
      ≡ verdict code pubkey (word4 a b c d)
  unfolding parse_frame
  parse_parts = rw (
    length-append pubkey (a ∷ b ∷ c ∷ d ∷ []),
    sized,
    tail_at 0,
    tail_at 1,
    tail_at 2,
    tail_at 3,
    take_at pubkey (a ∷ b ∷ c ∷ d ∷ []) 32 sized,
  )

word4-word_bytes :
    (w : ℕ)
    → w < 2 ^ 32
    → word4 (w / 2 ^ 24 % 256) (w / 2 ^ 16 % 256) (w / 2 ^ 8 % 256) (w % 256) ≡ w
word4-word_bytes w h = omega arith

crc32-lt : (bytes : Bytes) → crc32 bytes < 2 ^ 32
unfolding crc32
crc32-lt bytes = omega arith

type_of-type_code : (type : FrameType) → type_of (type_code type) ≡ some type
unfolding type_of type_code
type_of-type_code offer = refl
type_of-type_code ack = refl

type_code_of : (code : ℕ) (type : FrameType) → type_of code ≡ some type → code ≡ type_code type
unfolding type_of type_code
type_code_of code type h = ground arith

-- A frame that carries a 32 byte key is parsed back to its type and its key.
pub parse_frame-build_frame :
    (type : FrameType) (pubkey : Bytes)
    → length pubkey ≡ 32
    → parse_frame (build_frame type pubkey) ≡ some (record { type = type; pubkey = pubkey })
unfolding build_frame frame_of
parse_frame-build_frame type pubkey sized =
    parse_parts (type_code type) pubkey _ _ _ _ sized
    ∙ rw (word4-word_bytes (crc32 (frame_body (type_code type) pubkey)) (crc32-lt _))
        (ground (arith, type_of-type_code type))

word_bytes-word4 :
    (a b c d : ℕ) → IsBytes (a ∷ b ∷ c ∷ d ∷ []) → word_bytes (word4 a b c d) ≡ a ∷ b ∷ c ∷ d ∷ []
unfolding word_bytes
word_bytes-word4 a b c d (ha, (hb, (hc, (hd, _)))) = rw (first, second, third, fourth)
  where
    first : word4 a b c d / 2 ^ 24 % 256 ≡ a
    first = omega arith

    second : word4 a b c d / 2 ^ 16 % 256 ≡ b
    second = omega arith

    third : word4 a b c d / 2 ^ 8 % 256 ≡ c
    third = omega arith

    fourth : word4 a b c d % 256 ≡ d
    fourth = omega arith

abbrev Built : Bytes → Frame → Type 0
Built bytes f = (length f.pubkey ≡ 32) × (bytes ≡ build_frame f.type f.pubkey)

Built-parts :
    (code : ℕ) (pubkey : Bytes) (a b c d : ℕ) (f : Frame)
    → length pubkey ≡ 32
    → IsBytes (a ∷ b ∷ c ∷ d ∷ [])
    → verdict code pubkey (word4 a b c d) ≡ some f
    → Built (frame_body code pubkey ++ a ∷ b ∷ c ∷ d ∷ []) f
unfolding build_frame frame_of
Built-parts code pubkey a b c d f sized h e = (rw key sized, whole)
  where
    key : f.pubkey ≡ pubkey
    key = ground arith

    typed : type_of code ≡ some f.type
    typed = ground arith

    checked : crc32 (frame_body code pubkey) ≡ word4 a b c d
    checked = ground arith

    whole :
        frame_body code pubkey ++ a ∷ b ∷ c ∷ d ∷ []
        ≡ frame_body (type_code f.type) f.pubkey
          ++ word_bytes (crc32 (frame_body (type_code f.type) f.pubkey))
    whole = rw (key, ← type_code_of code f.type typed, checked, word_bytes-word4 a b c d h)

Built-tail :
    (code : ℕ) (pubkey tail : Bytes) (f : Frame)
    → length pubkey ≡ 32
    → length tail ≡ 4
    → IsBytes tail
    → parse_frame (frame_body code pubkey ++ tail) ≡ some f
    → Built (frame_body code pubkey ++ tail) f
Built-tail code pubkey (a ∷ b ∷ c ∷ d ∷ []) f sized four h e =
    Built-parts code pubkey a b c d f sized h (sym (parse_parts code pubkey a b c d sized) ∙ e)
Built-tail code pubkey [] f sized four h e = absurd (omega arith)
Built-tail code pubkey (a ∷ []) f sized four h e = absurd (omega arith)
Built-tail code pubkey (a ∷ b ∷ []) f sized four h e = absurd (omega arith)
Built-tail code pubkey (a ∷ b ∷ c ∷ []) f sized four h e = absurd (omega arith)
Built-tail code pubkey (a ∷ b ∷ c ∷ d ∷ x ∷ tail) f sized four h e = absurd (omega arith)

-- What the length test and the magic test have established.
parse_frame_marks :
    (m n o p code : ℕ) (rest : Bytes) (f : Frame)
    → parse_frame (m ∷ n ∷ o ∷ p ∷ code ∷ rest) ≡ some f
    → (m ≡ 0x4c) × (n ≡ 0x54) × (o ≡ 0x4e) × (p ≡ 0x43) × (length rest ≡ 36)
unfolding parse_frame
parse_frame_marks m n o p code rest f e = ground arith

parse_frame_short : (bytes : Bytes) → length bytes ≢ 41 → parse_frame bytes ≡ none
unfolding parse_frame
parse_frame_short bytes h = ground arith

parse_frame-Built :
    (bytes : Bytes) (f : Frame) → IsBytes bytes → parse_frame bytes ≡ some f → Built bytes f
parse_frame-Built (m ∷ n ∷ o ∷ p ∷ code ∷ rest) f h e = rw parts (
    Built-tail code (take 32 rest) (drop 32 rest) f (omega (arith, long, length-take 32 rest))
      (omega (arith, long, length-drop 32 rest)) (All-drop _ 32 rest h.1.1.1.1.1) (rw parts at e))
  where
    marks : (m ≡ 0x4c) × (n ≡ 0x54) × (o ≡ 0x4e) × (p ≡ 0x43) × (length rest ≡ 36)
    marks = parse_frame_marks m n o p code rest f e

    long : length rest ≡ 36
    long = marks.4

    parts : m ∷ n ∷ o ∷ p ∷ code ∷ rest ≡ frame_body code (take 32 rest) ++ drop 32 rest
    parts = rw (take-append-drop 32 rest, marks.0, marks.1, marks.2, marks.3)
parse_frame-Built [] f h e = cc (parse_frame_short [] (omega arith))
parse_frame-Built (a ∷ []) f h e = cc (parse_frame_short (a ∷ []) (omega arith))
parse_frame-Built (a ∷ b ∷ []) f h e = cc (parse_frame_short (a ∷ b ∷ []) (omega arith))
parse_frame-Built (a ∷ b ∷ c ∷ []) f h e = cc (parse_frame_short (a ∷ b ∷ c ∷ []) (omega arith))
parse_frame-Built (a ∷ b ∷ c ∷ d ∷ []) f h e =
    cc (parse_frame_short (a ∷ b ∷ c ∷ d ∷ []) (omega arith))

-- On bytes, the parser accepts exactly the frames that the builder makes for 32 byte keys: it gives
-- back a type and a key if and only if the bytes are the frame built from them.
pub parse_frame_iff :
    (bytes : Bytes) (f : Frame)
    → IsBytes bytes
    → (parse_frame bytes ≡ some f)
      ↔ ((length f.pubkey ≡ 32) × (bytes ≡ build_frame f.type f.pubkey))
parse_frame_iff bytes f h =
    (parse_frame-Built bytes f h, λ b. rw (b.1) (parse_frame-build_frame f.type f.pubkey b.0))
