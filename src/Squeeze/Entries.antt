-- ===== src/Squeeze/Entries.antt =====
-- The entries of the table of shared/squeeze.mjs as the loop finds them.
use lortnoc_tahc.Base.{
  ℕ, suc, ◌+◌, ◌-◌, ◌<◌, ◌≤◌, ◌≡◌, refl, Bool, true, false, ◌&&◌, Option, some, List, [], ◌∷◌, ◌++◌,
  if◌then◌else◌, length, leb, drop, keep, starts_with, Text, All, arith, if_either, Bool-cases,
  subst, both_true, inl, inr,
}
use lortnoc_tahc.Squeeze.{
  Entry, base, insert, goes_before, sorted_from, by_length, by_first, find_hit, get_entry,
}

-- An entry of a table whose codes begin at `code`.
abbrev pub IsEntryFrom : ℕ → List Text → Entry → Type 0
IsEntryFrom code table e =
    (code ≤ e.code) × (get_entry table (e.code - code) ≡ some e.fragment) × (0 < length e.fragment)

abbrev pub IsEntry : List Text → Entry → Type 0
IsEntry = IsEntryFrom base

-- No fragment of the table is empty.
abbrev pub IsTable : List Text → Type 0
IsTable = All (λ s. 0 < length s)

pub All-insert :
    (P : Entry → Type 0) (e : Entry) (xs : List Entry) → P e → All P xs → All P (insert e xs)
unfolding insert
All-insert P e [] he hs = (he, tt)
All-insert P e (x ∷ xs) he hs =
    if_either (All P) (goes_before e x) (he, hs) (hs.0, All-insert P e xs he hs.1)

later_entries :
    (code : ℕ) (s : Text) (table : List Text) (xs : List Entry)
    → All (IsEntryFrom (code + 1) table) xs
    → All (IsEntryFrom code (s ∷ table)) xs
later_entries code s table [] h = tt
later_entries code s table (x ∷ xs) h = (later h.0, later_entries code s table xs h.1)
  where
    later : IsEntryFrom (code + 1) table x → IsEntryFrom code (s ∷ table) x
    later e =
        let place : x.code - code ≡ suc (x.code - (code + 1)) = omega (arith, e.0) in
        (omega (arith, e.0), rw place (e.1), e.2)

sorted_from-entries :
    (code : ℕ) (table : List Text)
    → IsTable table
    → All (IsEntryFrom code table) (sorted_from code table)
unfolding sorted_from
sorted_from-entries code [] h = tt
sorted_from-entries code (s ∷ table) h =
    let first : code - code ≡ 0 = omega arith in
    All-insert (IsEntryFrom code (s ∷ table)) (record { fragment = s; code = code })
      (sorted_from (code + 1) table) (omega arith, rw first refl, h.0)
      (later_entries code s table (sorted_from (code + 1) table)
        (sorted_from-entries (code + 1) table h.1))

pub by_length-entries : (table : List Text) → IsTable table → All (IsEntry table) (by_length table)
unfolding by_length
by_length-entries table h = sorted_from-entries base table h

All-keep :
    (P : Entry → Type 0) (test : Entry → Bool) (xs : List Entry) → All P xs → All P (keep test xs)
All-keep P test [] h = tt
All-keep P test (x ∷ xs) h =
    if_either (All P) (test x) (h.0, All-keep P test xs h.1) (All-keep P test xs h.1)

pub by_first-entries :
    (P : Entry → Type 0) (xs : List Entry) (c : ℕ) → All P xs → All P (by_first xs c)
unfolding by_first
by_first-entries P xs c h = All-keep P (λ e. starts_with (c ∷ []) e.fragment) xs h

first_taken :
    {A : Type 0} (x e : A) (later : Option A) (b : Bool)
    → (if b then some x else later) ≡ some e
    → b ≡ true
    → x ≡ e
first_taken x e later true found h = cc
first_taken x e later false found h = cc

first_left :
    {A : Type 0} (x e : A) (later : Option A) (b : Bool)
    → (if b then some x else later) ≡ some e
    → b ≡ false
    → later ≡ some e
first_left x e later true found h = cc
first_left x e later false found h = found

-- A hit is one of the entries, and the text starts with it.
pub find_hit_found :
    (P : Entry → Type 0) (xs : List Entry) (text : Text) (e : Entry)
    → All P xs
    → find_hit xs text ≡ some e
    → P e × (starts_with e.fragment text ≡ true)
unfolding find_hit
find_hit_found P [] text e h found = cc
find_hit_found P (x ∷ xs) text e h found =
    elim (Bool-cases (leb (length x.fragment) (length text) && starts_with x.fragment text)) [
      | inl hit ↦
          subst (λ x. P x × (starts_with x.fragment text ≡ true)) (hit_is hit)
            (
              h.0,
              (both_true (leb (length x.fragment) (length text)) (starts_with x.fragment text)
                  hit).1,
            )
      | inr miss ↦ find_hit_found P xs text e h.1 (miss_is miss)
    ]
  where
    fits : Bool
    fits = leb (length x.fragment) (length text) && starts_with x.fragment text

    hit_is : fits ≡ true → x ≡ e
    hit_is hit = first_taken x e (find_hit xs text) fits found hit

    miss_is : fits ≡ false → find_hit xs text ≡ some e
    miss_is miss = first_left x e (find_hit xs text) fits found miss

pub starts_with-drop :
    (s text : Text) → starts_with s text ≡ true → s ++ drop (length s) text ≡ text
unfolding starts_with
starts_with-drop [] text h = refl
starts_with-drop (c ∷ cs) [] h = cc
starts_with-drop (c ∷ cs) (d ∷ ds) h = ground (arith, starts_with-drop cs ds)
