-- ===== src/XFrame/Laws.antt =====
-- A frame that was built is parsed as the part that it is.
use lortnoc_tahc.Base.{
  ℕ, suc, ◌+◌, ◌*◌, ◌-◌, ◌/◌, ◌%◌, ◌≤◌, ◌<◌, ◌≡◌, inl, inr, refl, ap, sym, ◌∙◌, Bool, true, false,
  none, some, ◌∷◌, if◌then◌else◌, Bool-cases, ltb, leb, length, get_or, take, drop, Bytes, arith,
}
use lortnoc_tahc.XFrame.{
  XMode, public_channel, shared, recipients, mode_code, part_frame, XPart, mode_of, bit, read_part,
  read_known, parse_x_frame,
}

abbrev flags_of : Bool → Bool → ℕ
flags_of squeezed threaded = (if squeezed then 1 else 0) + (if threaded then 2 else 0)

mode_read :
    (mode : XMode) (squeezed threaded : Bool)
    → mode_of ((mode_code mode * 16 + flags_of squeezed threaded) / 16) ≡ some mode
unfolding mode_of
mode_read public_channel true true = refl
mode_read public_channel true false = refl
mode_read public_channel false true = refl
mode_read public_channel false false = refl
mode_read shared true true = refl
mode_read shared true false = refl
mode_read shared false true = refl
mode_read shared false false = refl
mode_read recipients true true = refl
mode_read recipients true false = refl
mode_read recipients false true = refl
mode_read recipients false false = refl

flags_read :
    (mode : XMode) (squeezed threaded : Bool)
    → (mode_code mode * 16 + flags_of squeezed threaded) % 16 ≡ flags_of squeezed threaded
flags_read public_channel squeezed threaded = ground arith
flags_read shared squeezed threaded = ground arith
flags_read recipients squeezed threaded = ground arith

-- The part that a frame carries.
abbrev pub part_of : XMode → Bytes → Bool → ℕ → ℕ → ℕ → XPart
part_of mode ciphertext squeezed chunk total seq = record {
  mode = mode;
  squeezed = squeezed;
  threaded = ltb 1 total;
  seq = seq;
  total = total;
  tid = if ltb 1 total then some (get_or ciphertext 0 0 * 256 + get_or ciphertext 1 0) else none;
  payload = take chunk (drop (seq * chunk) ciphertext);
}

position_read :
    (seq total : ℕ)
    → seq < total
    → total ≤ 16
    → ((seq * 16 + (total - 1)) / 16 ≡ seq) × ((seq * 16 + (total - 1)) % 16 + 1 ≡ total)
position_read seq total h k = (omega arith, omega arith)

flag_squeezed : (squeezed threaded : Bool) → bit (flags_of squeezed threaded) ≡ squeezed
flag_squeezed true true = refl
flag_squeezed true false = refl
flag_squeezed false true = refl
flag_squeezed false false = refl

flag_threaded : (squeezed threaded : Bool) → bit (flags_of squeezed threaded / 2) ≡ threaded
flag_threaded true true = refl
flag_threaded true false = refl
flag_threaded false true = refl
flag_threaded false false = refl

two_or_more : (n : ℕ) → ltb (suc (suc n)) 2 ≡ false
two_or_more n = ground arith

four_or_more : (n : ℕ) → ltb (suc (suc (suc (suc n)))) 4 ≡ false
four_or_more n = ground arith

module _ (mode : XMode) (squeezed : Bool) (seq total b0 b1 : ℕ) (placed : b1 / 16 ≡ seq)
    (counted : b1 % 16 + 1 ≡ total) (inside : seq < total) where
  inside_test : leb (b1 % 16 + 1) (b1 / 16) ≡ false
  inside_test = ground arith

  read_single :
      (payload : Bytes)
      → b0 % 16 ≡ flags_of squeezed false
      → ltb 1 total ≡ false
      → read_part (b0 ∷ b1 ∷ payload) mode
        ≡ some (record {
          mode = mode;
          squeezed = squeezed;
          threaded = false;
          seq = seq;
          total = total;
          tid = none;
          payload = payload;
        })
  unfolding read_part
  read_single payload f t =
      rw
        (
          f,
          flag_threaded squeezed false,
          flag_squeezed squeezed false,
          inside_test,
          counted,
          placed,
          t,
          two_or_more (length payload),
        )
        refl

  read_threaded :
      (x y : ℕ) (payload : Bytes)
      → b0 % 16 ≡ flags_of squeezed true
      → ltb 1 total ≡ true
      → read_part (b0 ∷ b1 ∷ x ∷ y ∷ payload) mode
        ≡ some (record {
          mode = mode;
          squeezed = squeezed;
          threaded = true;
          seq = seq;
          total = total;
          tid = some (x * 256 + y);
          payload = payload;
        })
  unfolding read_part
  read_threaded x y payload f t =
      rw
        (
          f,
          flag_threaded squeezed true,
          flag_squeezed squeezed true,
          inside_test,
          counted,
          placed,
          t,
          four_or_more (length payload),
        )
        refl

parse_known :
    (mode : XMode) (b0 b1 : ℕ) (rest : Bytes)
    → mode_of (b0 / 16) ≡ some mode
    → parse_x_frame (b0 ∷ b1 ∷ rest) ≡ read_part (b0 ∷ b1 ∷ rest) mode
unfolding parse_x_frame read_known
parse_known mode b0 b1 rest e = rw (two_or_more (length rest), e, read_known) refl

module _ (mode : XMode) (ciphertext : Bytes) (squeezed : Bool) (chunk total seq : ℕ) where
  abbrev slice : Bytes
  slice = take chunk (drop (seq * chunk) ciphertext)

  abbrev first_byte : Bool → ℕ
  first_byte threaded = mode_code mode * 16 + flags_of squeezed threaded

  frame_threaded :
      ltb 1 total ≡ true
      → part_frame mode ciphertext squeezed chunk total seq
        ≡ first_byte true
          ∷ (seq * 16 + (total - 1))
          ∷ get_or ciphertext 0 0
          ∷ get_or ciphertext 1 0
          ∷ slice
  unfolding part_frame
  frame_threaded t = rw (t, part_frame) refl

  frame_single :
      ltb 1 total ≡ false
      → part_frame mode ciphertext squeezed chunk total seq
        ≡ first_byte false ∷ (seq * 16 + (total - 1)) ∷ slice
  unfolding part_frame
  frame_single t = rw (t, part_frame) refl

  part_threaded :
      ltb 1 total ≡ true
      → part_of mode ciphertext squeezed chunk total seq ≡ record {
        mode = mode;
        squeezed = squeezed;
        threaded = true;
        seq = seq;
        total = total;
        tid = some (get_or ciphertext 0 0 * 256 + get_or ciphertext 1 0);
        payload = slice;
      }
  part_threaded t = rw t refl

  part_single :
      ltb 1 total ≡ false
      → part_of mode ciphertext squeezed chunk total seq ≡ record {
        mode = mode;
        squeezed = squeezed;
        threaded = false;
        seq = seq;
        total = total;
        tid = none;
        payload = slice;
      }
  part_single t = rw t refl

  -- Each of the frames that are built, the `seq`-th of `total`, at most sixteen, is parsed as that part of
  -- the ciphertext, with its mode, its flags and the thread's id.
  pub parse_x_frame-part_frame :
      seq < total
      → total ≤ 16
      → parse_x_frame (part_frame mode ciphertext squeezed chunk total seq)
        ≡ some (part_of mode ciphertext squeezed chunk total seq)
  parse_x_frame-part_frame h k = elim (Bool-cases (ltb 1 total)) [
    | inl t ↦
        (let (p, n) = position_read seq total h k in
          ap parse_x_frame (frame_threaded t)
          ∙ parse_known mode _ _ _ (mode_read mode squeezed true)
          ∙ read_threaded mode squeezed seq total _ _ p n h _ _ slice
              (flags_read mode squeezed true) t
          ∙ ap some (sym (part_threaded t)))
    | inr t ↦
        (let (p, n) = position_read seq total h k in
          ap parse_x_frame (frame_single t)
          ∙ parse_known mode _ _ _ (mode_read mode squeezed false)
          ∙ read_single mode squeezed seq total _ _ p n h slice (flags_read mode squeezed false) t
          ∙ ap some (sym (part_single t)))
  ]
