-- ===== src/Squeeze.antt =====
-- shared/squeeze.mjs: plaintext compression with a fixed table. The loop of `squeeze` runs on fuel,
-- one for each round; a table is an argument, so that `squeeze` is the code's at `table`.
pub mod Utf8
pub mod Table
pub mod Characters
pub mod Entries
pub mod Rounds
pub mod Greedy
pub mod RoundTrip
pub mod Tests
use lortnoc_tahc.Base.{
  ℕ, zero, suc, ◌+◌, ◌-◌, Bool, true, false, not, ◌&&◌, ◌||◌, Option, none, some, List, [], ◌∷◌,
  ◌++◌, if◌then◌else◌, length, ltb, leb, ◌==◌, drop, keep, starts_with, list_eq, Bytes, Text,
}
use lortnoc_tahc.Squeeze.Utf8.{encode_unit, encode_text, decode_text}

abbrev pub escape : ℕ
escape = 0x7f

abbrev pub base : ℕ
base = 0x80

pub record Entry : Type 0 where
  pub fragment : Text
  pub code : ℕ

-- `a.s < b.s`
unfoldable pub text_less : Text → Text → Bool
text_less [] [] = false
text_less [] (y ∷ ys) = true
text_less (x ∷ xs) [] = false
text_less (x ∷ xs) (y ∷ ys) = ltb x y || x == y && text_less xs ys

-- Longer fragments first, then in the order of the texts.
unfoldable pub goes_before : Entry → Entry → Bool
unfolding text_less
goes_before a b =
    let m = length a.fragment in
    let n = length b.fragment in ltb n m || m == n && text_less a.fragment b.fragment

unfoldable pub insert : Entry → List Entry → List Entry
insert e [] = e ∷ []
insert e (x ∷ xs) = let later = insert e xs in if goes_before e x then e ∷ (x ∷ xs) else x ∷ later

-- `TABLE.map((s, i) => ({ s, code: BASE + i }))`, sorted.
unfoldable pub sorted_from : ℕ → List Text → List Entry
unfolding insert
sorted_from code [] = []
sorted_from code (s ∷ rest) =
    insert (record { fragment = s; code = code }) (sorted_from (code + 1) rest)

unfoldable pub by_length : List Text → List Entry
unfolding sorted_from
by_length table = sorted_from base table

-- The entries under a first character, in their order.
unfoldable pub by_first : List Entry → ℕ → List Entry
by_first entries c = keep (λ e. starts_with (c ∷ []) e.fragment) entries

-- The first entry of a bucket that the text starts with.
unfoldable pub find_hit : List Entry → Text → Option Entry
find_hit [] text = none
find_hit (e ∷ rest) text =
    let later = find_hit rest text in
    if leb (length e.fragment) (length text) && starts_with e.fragment text then some e else later

unfoldable pub escape_all : Bytes → Bytes
escape_all [] = []
escape_all (b ∷ bs) =
    let rest = escape_all bs in if leb escape b then escape ∷ b ∷ rest else b ∷ rest

-- The bytes that one round puts out, and the text it leaves.
unfoldable pub take_hit : ℕ → Text → Option Entry → Bytes × Text
unfolding escape_all
take_hit u us (some e) = (e.code ∷ [], drop (length e.fragment) (u ∷ us))
take_hit u us none = (escape_all (encode_unit u), us)

abbrev pub after_bytes : Bytes → Option Bytes → Option Bytes
after_bytes bs none = none
after_bytes bs (some rest) = some (bs ++ rest)

unfoldable pub squeeze_loop : List Entry → ℕ → Text → Option Bytes
unfolding take_hit find_hit by_first
squeeze_loop entries zero text = none
squeeze_loop entries (suc fuel) [] = some []
squeeze_loop entries (suc fuel) (u ∷ us) =
    let r = take_hit u us (find_hit (by_first entries u) (u ∷ us)) in
    after_bytes r.0 (squeeze_loop entries fuel r.1)

abbrev pub get_entry : List Text → ℕ → Option Text
get_entry [] i = none
get_entry (s ∷ rest) zero = some s
get_entry (s ∷ rest) (suc i) = get_entry rest i

-- `text`, `literals`, and whether the last byte was an escape.
pub record Reading : Type 0 where
  pub text : Text
  pub literals : Bytes
  pub escaped : Bool

unfoldable pub flush : Text → Bytes → Text
flush text [] = text
flush text (b ∷ bs) = text ++ decode_text (b ∷ bs)

abbrev pub read_entry : Reading → Option Text → Option Reading
read_entry r none = none
read_entry r (some s) =
    some (record { text = flush r.text r.literals ++ s; literals = []; escaped = false })

unfoldable pub finish : Option Reading → Option Text
unfolding flush
finish none = none
finish (some r) = if r.escaped then none else some (flush r.text r.literals)

abbrev pub choose : Bytes → Option Bytes → Option (Bytes × Bool)
choose raw none = none
choose raw (some small) =
    some (if ltb (length small) (length raw) then (small, true) else (raw, false))

module _ (table : List Text) where
  -- Each round takes a character at least, so the length of the text and one more is enough.
  unfoldable pub squeeze : Text → Option Bytes
  unfolding squeeze_loop
  squeeze text = squeeze_loop (by_length table) (suc (length text)) text

  unfoldable pub read_byte : Reading → ℕ → Option Reading
  unfolding flush
  read_byte r b =
      let entry = read_entry r (get_entry table (b - base)) in
      if r.escaped
      then some (record r { literals = r.literals ++ b ∷ []; escaped = false })
      else if b == escape
      then some (record r { escaped = true })
      else if leb base b
      then entry
      else some (record r { literals = r.literals ++ b ∷ [] })

  unfoldable pub read_all : Option Reading → Bytes → Option Reading
  read_all none bs = none
  read_all (some r) [] = some r
  read_all (some r) (b ∷ bs) = read_all (read_byte r b) bs

  unfoldable pub unsqueeze : Bytes → Option Text
  unsqueeze bytes =
      finish (read_all (some (record { text = []; literals = []; escaped = false })) bytes)

  unfoldable pub squeeze_if_smaller : Text → Option (Bytes × Bool)
  squeeze_if_smaller text = choose (encode_text text) (squeeze text)

  -- `dec` does not throw: it is not `fatal`.
  unfoldable pub unsqueeze_maybe : Bytes → Bool → Option Text
  unsqueeze_maybe bytes compressed =
      if compressed then unsqueeze bytes else some (decode_text bytes)
