-- ===== src/XThread/Laws.antt =====
-- Whatever the order and the repetitions, the collector gives back the ciphertext or nothing.
use lortnoc_tahc.Base.{
  take_enough, ==_sound, ℕ, zero, suc, ◌+◌, ◌*◌, ◌≤◌, ◌≡◌, refl, ap, sym, ◌∙◌, Option, none, some,
  List, [], ◌∷◌, ◌++◌, if_cases, ◌==◌, length, take, drop, All, Bytes, arith,
}
use native.Mathlib.Nat.{zero-add, suc-add, zero-mul}
use lortnoc_tahc.XThread.{set_part, get_part, join_part, join_parts, whole}

module _ {ℓ} {A : Type ℓ} where
  take_nil : (n : ℕ) → take {A = A} n [] ≡ []
  take_nil zero = refl
  take_nil (suc n) = refl

  drop_nil : (n : ℕ) → drop {A = A} n [] ≡ []
  drop_nil zero = refl
  drop_nil (suc n) = refl

  take_more : (a b : ℕ) (xs : List A) → take (a + b) xs ≡ take a xs ++ take b (drop a xs)
  take_more zero b xs = rw zero-add refl
  take_more (suc a) b [] = take_nil (suc a + b) ∙ sym (take_nil b)
  take_more (suc a) b (x ∷ xs) = rw suc-add (ap (◌∷◌ x) (take_more a b xs))

  drop_more : (a b : ℕ) (xs : List A) → drop b (drop a xs) ≡ drop (a + b) xs
  drop_more zero b xs = rw zero-add refl
  drop_more (suc a) b [] = drop_nil b ∙ sym (drop_nil (suc a + b))
  drop_more (suc a) b (x ∷ xs) = rw suc-add (drop_more a b xs)

module _ (ciphertext : Bytes) (chunk : ℕ) where
  abbrev pub slice : ℕ → Bytes
  slice s = take chunk (drop (s * chunk) ciphertext)

  -- The parts held are slices of the ciphertext at their places.
  abbrev pub AreSlices : List (ℕ × Bytes) → Type 0
  AreSlices = All (λ e. e.1 ≡ slice e.0)

  pub set_part-AreSlices :
      (seq : ℕ) (parts : List (ℕ × Bytes))
      → AreSlices parts
      → AreSlices (set_part seq (slice seq) parts)
  unfolding set_part
  set_part-AreSlices seq [] h = (refl, tt)
  set_part-AreSlices seq ((s, p) ∷ parts) (h, hs) =
      if_cases AreSlices (s == seq) (λ e. (ap slice (sym (==_sound s seq e)), hs))
        (λ _. (h, set_part-AreSlices seq parts hs))

  -- Nothing, or the slice.
  abbrev IsSlice : ℕ → Option Bytes → Type 0
  IsSlice seq none = Unit
  IsSlice seq (some p) = p ≡ slice seq

  get_part-IsSlice :
      (seq : ℕ) (parts : List (ℕ × Bytes)) → AreSlices parts → IsSlice seq (get_part seq parts)
  unfolding get_part
  get_part-IsSlice seq [] h = tt
  get_part-IsSlice seq ((s, q) ∷ parts) (h, hs) =
      if_cases (IsSlice seq) (s == seq) (λ e. h ∙ ap slice (==_sound s seq e))
        (λ _. get_part-IsSlice seq parts hs)

  -- Nothing, or the ciphertext from one slice on, of `n` slices.
  abbrev IsRun : ℕ → ℕ → Option Bytes → Type 0
  IsRun s n none = Unit
  IsRun s n (some out) = out ≡ take (n * chunk) (drop (s * chunk) ciphertext)

  one_more : (n : ℕ) → suc n * chunk ≡ chunk + n * chunk
  one_more n = omega arith

  next_start : (s : ℕ) → (s + 1) * chunk ≡ s * chunk + chunk
  next_start s = omega arith

  join_part-IsRun :
      (s n : ℕ) (o r : Option Bytes)
      → IsSlice s o
      → IsRun (s + 1) n r
      → IsRun s (suc n) (join_part o r)
  join_part-IsRun s n none r h k = tt
  join_part-IsRun s n (some p) none h k = tt
  join_part-IsRun s n (some p) (some rest) h k =
      let start = drop (s * chunk) ciphertext in
      rw (h, k, next_start, one_more)
        (ap (λ z. slice s ++ take (n * chunk) z) (sym (drop_more (s * chunk) chunk ciphertext))
          ∙ sym (take_more chunk (n * chunk) start))

  join_parts-IsRun :
      (parts : List (ℕ × Bytes)) (s n : ℕ) → AreSlices parts → IsRun s n (join_parts parts s n)
  unfolding join_parts
  join_parts-IsRun parts s zero h = rw zero-mul refl
  join_parts-IsRun parts s (suc n) h =
      join_part-IsRun s n (get_part s parts) (join_parts parts (s + 1) n)
        (get_part-IsSlice s parts h) (join_parts-IsRun parts (s + 1) n h)

  -- Nothing, or the ciphertext itself.
  abbrev pub IsWhole : Option Bytes → Type 0
  IsWhole none = Unit
  IsWhole (some out) = out ≡ ciphertext

  pub whole-IsWhole :
      (total : ℕ) (parts : List (ℕ × Bytes))
      → length ciphertext ≤ total * chunk
      → AreSlices parts
      → IsWhole (whole total parts)
  unfolding whole
  whole-IsWhole total parts h k =
      if_cases IsWhole (length parts == total)
        (λ _. run_whole (join_parts parts 0 total) (join_parts-IsRun parts 0 total k)) (λ _. tt)
    where
      run_whole : (o : Option Bytes) → IsRun 0 total o → IsWhole o
      run_whole none r = tt
      run_whole (some out) r =
          r
          ∙ ap (λ n. take (total * chunk) (drop n ciphertext)) (zero-mul chunk)
          ∙ take_enough (total * chunk) ciphertext h
