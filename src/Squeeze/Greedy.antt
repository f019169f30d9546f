-- ===== src/Squeeze/Greedy.antt =====
-- The match that a round of `squeeze` takes, shared/squeeze.mjs, is the longest.
use lortnoc_tahc.Base.{
  ℕ, ◌+◌, ◌≤◌, ◌≡◌, Bool, true, false, ◌&&◌, Option, none, some, List, [], ◌∷◌, length, leb, Text,
  All, arith, Bool-cases, inl, inr, starts_with, keep, if_cases,
}
use lortnoc_tahc.Squeeze.{
  Entry, base, insert, goes_before, sorted_from, by_length, by_first, find_hit,
}
use lortnoc_tahc.Squeeze.Entries.{All-insert}

abbrev IsShorter : ℕ → Entry → Type 0
IsShorter n e = length e.fragment ≤ n

abbrev IsSorted : List Entry → Type 0
IsSorted [] = Unit
IsSorted (e ∷ es) = All (IsShorter (length e.fragment)) es × IsSorted es

All-weaken : (m n : ℕ) (es : List Entry) → m ≤ n → All (IsShorter m) es → All (IsShorter n) es
All-weaken m n [] le h = tt
All-weaken m n (e ∷ es) le h = (omega (arith, le, h.0), All-weaken m n es le h.1)

insert-IsSorted : (e : Entry) (es : List Entry) → IsSorted es → IsSorted (insert e es)
unfolding insert goes_before
insert-IsSorted e [] h = (tt, tt)
insert-IsSorted e (x ∷ xs) h =
    if_cases IsSorted (goes_before e x)
      (λ front.
        let less : length x.fragment ≤ length e.fragment = ground (arith, front) in
        ((less, All-weaken _ _ xs less h.0), h))
      (λ later.
        let less : length e.fragment ≤ length x.fragment = ground (arith, later) in
        (All-insert (IsShorter (length x.fragment)) e xs less h.0, insert-IsSorted e xs h.1))

sorted_from-IsSorted : (code : ℕ) (table : List Text) → IsSorted (sorted_from code table)
unfolding sorted_from
sorted_from-IsSorted code [] = tt
sorted_from-IsSorted code (s ∷ table) =
    insert-IsSorted (record { fragment = s; code = code }) (sorted_from (code + 1) table)
      (sorted_from-IsSorted (code + 1) table)

All-keep :
    (n : ℕ) (test : Entry → Bool) (es : List Entry)
    → All (IsShorter n) es
    → All (IsShorter n) (keep test es)
All-keep n test [] h = tt
All-keep n test (e ∷ es) h =
    if_cases (All (IsShorter n)) (test e) (λ _. (h.0, All-keep n test es h.1))
      (λ _. All-keep n test es h.1)

keep-IsSorted : (test : Entry → Bool) (es : List Entry) → IsSorted es → IsSorted (keep test es)
keep-IsSorted test [] h = tt
keep-IsSorted test (e ∷ es) h =
    if_cases IsSorted (test e)
      (λ _. (All-keep (length e.fragment) test es h.0, keep-IsSorted test es h.1))
      (λ _. keep-IsSorted test es h.1)

-- The length of the match, 0 without one.
abbrev pub hit_size : Option Entry → ℕ
hit_size none = 0
hit_size (some e) = length e.fragment

-- A fragment that the text starts with is no longer than the match.
abbrev pub IsCovered : Text → Option Entry → Text → Type 0
IsCovered text o s = starts_with s text ≡ true → length s ≤ hit_size o

length-starts_with : (s text : Text) → starts_with s text ≡ true → length s ≤ length text
unfolding starts_with
length-starts_with [] text h = omega arith
length-starts_with (c ∷ cs) [] h = cc
length-starts_with (c ∷ cs) (d ∷ ds) h = ground (arith, h, length-starts_with cs ds)

shorter-IsCovered :
    (text : Text) (e : Entry) (es : List Entry)
    → All (IsShorter (length e.fragment)) es
    → All (λ x. IsCovered text (some e) x.fragment) es
shorter-IsCovered text e [] h = tt
shorter-IsCovered text e (x ∷ xs) h = (λ _. h.0, shorter-IsCovered text e xs h.1)

find_hit-IsCovered :
    (text : Text) (es : List Entry)
    → IsSorted es
    → All (λ e. IsCovered text (find_hit es text) e.fragment) es
unfolding find_hit
find_hit-IsCovered text [] h = tt
find_hit-IsCovered text (e ∷ es) h =
    if_cases (λ o. All (λ x. IsCovered text o x.fragment) (e ∷ es))
      (leb (length e.fragment) (length text) && starts_with e.fragment text)
      (λ _. (λ _. omega arith, shorter-IsCovered text e es h.0))
      (λ miss. (λ starts. absurd (fits starts miss), find_hit-IsCovered text es h.1))
  where
    fits :
        starts_with e.fragment text ≡ true
        → (leb (length e.fragment) (length text) && starts_with e.fragment text) ≡ false
        → ⊥
    fits starts miss = ground (arith, length-starts_with e.fragment text starts, starts, miss)

All-unkeep :
    (P : Entry → Type 0) (test : Entry → Bool) (es : List Entry)
    → ((e : Entry) → test e ≡ false → P e)
    → All P (keep test es)
    → All P es
All-unkeep P test [] out h = tt
All-unkeep P test (e ∷ es) out h = elim (Bool-cases (test e)) [
  | inl yes_it ↦ let g = kept yes_it h in (g.0, All-unkeep P test es out g.1)
  | inr not_it ↦ (out e not_it, All-unkeep P test es out (left not_it h))
]
  where
    kept : test e ≡ true → All P (keep test (e ∷ es)) → P e × All P (keep test es)
    kept it h = rw it at h

    left : test e ≡ false → All P (keep test (e ∷ es)) → All P (keep test es)
    left it h = rw it at h

uninsert : (P : Entry → Type 0) (e : Entry) (es : List Entry) → All P (insert e es) → P e × All P es
unfolding insert
uninsert P e [] h = h
uninsert P e (x ∷ xs) h = elim (Bool-cases (goes_before e x)) [
  | inl front ↦ ahead front h
  | inr later ↦ let g = behind later h in let r = uninsert P e xs g.1 in (r.0, (g.0, r.1))
]
  where
    ahead : goes_before e x ≡ true → All P (insert e (x ∷ xs)) → P e × All P (x ∷ xs)
    ahead it h = rw it at h

    behind : goes_before e x ≡ false → All P (insert e (x ∷ xs)) → P x × All P (insert e xs)
    behind it h = rw it at h

fragments :
    (Q : Text → Type 0) (code : ℕ) (table : List Text)
    → All (λ e. Q e.fragment) (sorted_from code table)
    → All Q table
unfolding sorted_from
fragments Q code [] h = tt
fragments Q code (s ∷ table) h =
    let g =
      uninsert (λ e. Q e.fragment) (record { fragment = s; code = code })
        (sorted_from (code + 1) table) h in
    (g.0, fragments Q (code + 1) table g.1)

other_first :
    (u : ℕ) (us : Text) (o : Option Entry) (s : Text)
    → starts_with (u ∷ []) s ≡ false
    → IsCovered (u ∷ us) o s
unfolding starts_with
other_first u us o [] h starts = omega arith
other_first u us o (c ∷ cs) h starts = ground (arith, h, starts)

-- No fragment that the text starts with is longer than the one that a round takes from its bucket,
-- and without a match there is none but the empty one.
pub find_hit_longest :
    (table : List Text) (u : ℕ) (us : Text)
    → All (IsCovered (u ∷ us) (find_hit (by_first (by_length table) u) (u ∷ us))) table
unfolding by_length by_first
find_hit_longest table u us =
    let o = find_hit (by_first (by_length table) u) (u ∷ us) in
    fragments (IsCovered (u ∷ us) o) base table (
      All-unkeep (λ e. IsCovered (u ∷ us) o e.fragment) (λ e. starts_with (u ∷ []) e.fragment)
        (sorted_from base table) (λ e. other_first u us o e.fragment)
        (find_hit-IsCovered (u ∷ us) (by_first (by_length table) u) (
          keep-IsSorted (λ e. starts_with (u ∷ []) e.fragment) (sorted_from base table)
            (sorted_from-IsSorted base table))))
