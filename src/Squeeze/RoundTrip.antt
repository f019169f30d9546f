-- ===== src/Squeeze/RoundTrip.antt =====
-- `unsqueeze` after `squeeze`, and the two with the flag, shared/squeeze.mjs.
use lortnoc_tahc.Base.{
  some_inj, ℕ, zero, suc, ◌≤◌, ◌≡◌, refl, Bool, true, false, Option, none, some, List, [], ◌∷◌,
  ◌++◌, length, leb, ltb, ◌==◌, drop, Bytes, Text, All, arith, inl, inr, ap, sym, ◌∙◌, append-nil,
  append_assoc, subst, All-append, All-drop, Bool-cases,
}
use lortnoc_tahc.Squeeze.Utf8.{basic, encode_unit, encode_text, decode_text, decode_from, drop_mark}
use lortnoc_tahc.Squeeze.Characters.{
  IsPlain, basics, basics-append, encode_unit-plain, encode_text-plain, decode_text-basics,
}
use lortnoc_tahc.Squeeze.{
  Entry, by_length, by_first, find_hit, base, escape, escape_all, take_hit, after_bytes,
  squeeze_loop, squeeze, Reading, flush, read_byte, read_all, finish, unsqueeze, choose,
  squeeze_if_smaller, unsqueeze_maybe,
}
use lortnoc_tahc.Squeeze.Entries.{
  IsEntry, IsTable, by_length-entries, by_first-entries, find_hit_found, starts_with-drop,
}
use lortnoc_tahc.Squeeze.Rounds.{squeeze_returns}

flush-decode : (text : Text) (bs : Bytes) → flush text bs ≡ text ++ decode_text bs
unfolding flush decode_text decode_from drop_mark
flush-decode text [] = sym (append-nil text)
flush-decode text (b ∷ bs) = refl

flush-basics : (text p : Text) → All IsPlain p → flush text (basics p) ≡ text ++ p
flush-basics text p plain =
    flush-decode text (basics p) ∙ ap (λ x. text ++ x) (decode_text-basics p plain)

-- What `unsqueeze` has read when it stands behind a plain text.
abbrev reading : Text → Bytes → Reading
reading text literals = record { text = text; literals = literals; escaped = false }

module _ (table : List Text) where
  read_literal :
      (text : Text) (literals : Bytes) (b : ℕ)
      → leb escape b ≡ false
      → read_byte table (reading text literals) b ≡ some (reading text (literals ++ b ∷ []))
  unfolding read_byte
  read_literal text literals b low =
      let off : (b == escape) ≡ false = ground (arith, low) in
      let under : leb base b ≡ false = ground (arith, low) in rw (off, under) refl

  read_all-escape_all :
      (text : Text) (literals bs rest : Bytes)
      → read_all table (some (reading text literals)) (escape_all bs ++ rest)
        ≡ read_all table (some (reading text (literals ++ bs))) rest
  unfolding escape_all read_all read_byte
  read_all-escape_all text literals [] rest = rw (append-nil literals) refl
  read_all-escape_all text literals (b ∷ bs) rest =
      let later : read_all table (some (reading text (literals ++ b ∷ []))) (escape_all bs ++ rest)
          ≡ read_all table (some (reading text (literals ++ b ∷ bs))) rest =
        read_all-escape_all text (literals ++ b ∷ []) bs rest
        ∙ ap (λ l. read_all table (some (reading text l)) rest)
            (append_assoc literals (b ∷ []) bs) in
      elim (Bool-cases (leb escape b)) [
        | inl high ↦ rw high later
        | inr low ↦ rw low (
            ap (λ o. read_all table o (escape_all bs ++ rest)) (read_literal text literals b low)
            ∙ later)
      ]

  read_hit :
      (text : Text) (p : Text) (e : Entry)
      → All IsPlain p
      → IsEntry table e
      → read_byte table (reading text (basics p)) e.code
        ≡ some (reading ((text ++ p) ++ e.fragment) [])
  unfolding read_byte
  read_hit text p e plain h =
      let off : (e.code == escape) ≡ false = ground (arith, h.0) in
      let over : leb base e.code ≡ true = ground (arith, h.0) in
      rw (off, over, h.1, flush-basics text p plain) refl

  -- From a text already read, `unsqueeze` reads what the loop puts out for the rest of it.
  abbrev IsRead : Text → Text → Text → Bytes → Type 0
  IsRead text p rest bs =
      finish (read_all table (some (reading text (basics p))) bs) ≡ some ((text ++ p) ++ rest)

  literal_reads :
      (text p : Text) (u : ℕ) (us : Text) (bs : Bytes)
      → IsPlain u
      → IsRead text (p ++ u ∷ []) us bs
      → IsRead text p (u ∷ us) (escape_all (encode_unit u) ++ bs)
  literal_reads text p u us bs plain later = rw (encode_unit-plain u plain) (
      ap finish (read_all-escape_all text (basics p) (basic u) bs)
      ∙ ap (λ l. finish (read_all table (some (reading text l)) bs)) (sym grown)
      ∙ later
      ∙ ap some regroup)
    where
      grown : basics (p ++ u ∷ []) ≡ basics p ++ basic u
      grown = basics-append p (u ∷ []) ∙ ap (λ x. basics p ++ x) (append-nil (basic u))

      regroup : (text ++ (p ++ u ∷ [])) ++ us ≡ (text ++ p) ++ (u ∷ us)
      regroup =
          ap (λ x. x ++ us) (sym (append_assoc text p (u ∷ [])))
          ∙ append_assoc (text ++ p) (u ∷ []) us

  hit_reads :
      (text p rest after : Text) (e : Entry) (bs : Bytes)
      → All IsPlain p
      → IsEntry table e
      → e.fragment ++ after ≡ rest
      → IsRead ((text ++ p) ++ e.fragment) [] after bs
      → IsRead text p rest (e.code ∷ bs)
  unfolding read_all
  hit_reads text p rest after e bs plain h split later =
      ap (λ o. finish (read_all table o bs)) (read_hit text p e plain h)
      ∙ later
      ∙ ap some (
          ap (λ x. x ++ after) (append-nil ((text ++ p) ++ e.fragment))
          ∙ append_assoc (text ++ p) e.fragment after
          ∙ ap (λ x. (text ++ p) ++ x) split)

  parts :
      (front : Bytes) (o : Option Bytes) (bs : Bytes)
      → after_bytes front o ≡ some bs
      → (rest : Bytes) × (o ≡ some rest) × (front ++ rest ≡ bs)
  parts front none bs h = cc
  parts front (some rest) bs h = (rest, refl, cc)

  abbrev Reads : List Entry → ℕ → Type 0
  Reads entries fuel =
      (rest : Text) (bs : Bytes)
      → squeeze_loop entries fuel rest ≡ some bs
      → (text p : Text) → All IsPlain p
      → All IsPlain rest
      → IsRead text p rest bs

  round-Reads :
      (entries : List Entry)
      → All (IsEntry table) entries
      → (fuel : ℕ) → Reads entries fuel
      → (u : ℕ) (us : Text) (bs : Bytes) (text p : Text) → All IsPlain p
      → All IsPlain (u ∷ us)
      → (o : Option Entry) → find_hit (by_first entries u) (u ∷ us) ≡ o
      → after_bytes (take_hit u us o).0 (squeeze_loop entries fuel (take_hit u us o).1) ≡ some bs
      → IsRead text p (u ∷ us) bs
  unfolding take_hit
  round-Reads entries h fuel again u us bs text p hp hr none found put =
      let cut = parts (escape_all (encode_unit u)) (squeeze_loop entries fuel us) bs put in
      subst (IsRead text p (u ∷ us)) cut.2 (
        literal_reads text p u us cut.0 hr.0 (
          again us cut.0 cut.1 text (p ++ u ∷ []) (All-append IsPlain p (u ∷ []) hp (hr.0, tt))
            hr.1))
  round-Reads entries h fuel again u us bs text p hp hr (some e) found put =
      let after = drop (length e.fragment) (u ∷ us) in
      let cut = parts (e.code ∷ []) (squeeze_loop entries fuel after) bs put in
      let hit =
        find_hit_found (IsEntry table) (by_first entries u) (u ∷ us) e
          (by_first-entries (IsEntry table) entries u h) found in
      subst (IsRead text p (u ∷ us)) cut.2 (
        hit_reads text p (u ∷ us) after e cut.0 hp hit.0
          (starts_with-drop e.fragment (u ∷ us) hit.1)
          (again after cut.0 cut.1 ((text ++ p) ++ e.fragment) [] tt
            (All-drop IsPlain (length e.fragment) (u ∷ us) hr)))

  squeeze_loop-Reads :
      (entries : List Entry) → All (IsEntry table) entries → (fuel : ℕ) → Reads entries fuel
  unfolding squeeze_loop finish read_all
  squeeze_loop-Reads entries h zero rest bs put text p hp hr = cc
  squeeze_loop-Reads entries h (suc fuel) [] bs put text p hp hr =
      subst (IsRead text p []) (some_inj put)
        (ap some (flush-basics text p hp ∙ sym (append-nil (text ++ p))))
  squeeze_loop-Reads entries h (suc fuel) (u ∷ us) bs put text p hp hr =
      round-Reads entries h fuel (squeeze_loop-Reads entries h fuel) u us bs text p hp hr
        (find_hit (by_first entries u) (u ∷ us)) refl put

-- With fragments that are not empty, `unsqueeze` gives back every text whose units are characters of
-- the basic plane without the byte order mark.
pub unsqueeze-squeeze :
    (table : List Text)
    → IsTable table
    → (text : Text) (bs : Bytes) → All IsPlain text
    → squeeze table text ≡ some bs
    → unsqueeze table bs ≡ some text
unfolding squeeze unsqueeze
unsqueeze-squeeze table h text bs plain put =
    squeeze_loop-Reads table (by_length table) (by_length-entries table h) (suc (length text)) text
      bs put [] [] tt plain

-- With fragments that are not empty, a text whose units are characters of the basic plane without the
-- byte order mark is squeezed to some bytes and a flag, no longer than its UTF-8, that
-- `unsqueezeMaybe` gives the text back for.
pub unsqueeze_maybe-squeeze_if_smaller :
    (table : List Text)
    → IsTable table
    → (text : Text) → All IsPlain text
    → (sent : Bytes × Bool) × (squeeze_if_smaller table text ≡ some sent)
      × (unsqueeze_maybe table sent.0 sent.1 ≡ some text)
      × (length sent.0 ≤ length (encode_text text))
unfolding squeeze_if_smaller unsqueeze_maybe
unsqueeze_maybe-squeeze_if_smaller table h text plain =
    let small = squeeze_returns table h text in
    let back = unsqueeze-squeeze table h text small.0 plain small.1 in
    let raw = encode_text text in
    let decoded : decode_text raw ≡ text =
      ap decode_text (encode_text-plain text plain) ∙ decode_text-basics text plain in
    elim (Bool-cases (ltb (length small.0) (length raw))) [
      | inl less ↦
          ((small.0, true), ap (choose raw) small.1 ∙ rw less refl, back, ground (arith, less))
      | inr more ↦
          ((raw, false), ap (choose raw) small.1 ∙ rw more refl, ap some decoded, omega arith)
    ]
