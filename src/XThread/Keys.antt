-- ===== src/XThread/Keys.antt =====
-- The threads of a collector by their keys: what finding, putting and making room keep.
use lortnoc_tahc.Base.{
  ==_sound, ℕ, ◌≡◌, ◌⊎◌, inl, inr, refl, ap, ◌∙◌, Bool, true, false, ◌&&◌, Option, none, some,
  Bool-cases, List, [], ◌∷◌, if_cases, ◌==◌, leb, length, All, All-drop, Bytes, arith,
}
use lortnoc_tahc.XThread.{
  Thread, max_threads, same_tid, has_key, find_parts, put_parts, make_room, parts_or_none,
}

module _ (P : List (ℕ × Bytes) → Type 0) (tid : Option ℕ) (total : ℕ) where
  -- A thread of another key, or one whose parts are right.
  abbrev pub IsRight : Thread → Type 0
  IsRight t = (has_key tid total t ≡ false) ⊎ P t.parts

  pub found_right :
      (threads : List Thread)
      → P []
      → All IsRight threads
      → P (parts_or_none (find_parts tid total threads))
  unfolding find_parts
  found_right [] e h = e
  found_right (t ∷ ts) e (inl n, hs) = rw (n, find_parts) (found_right ts e hs)
  found_right (t ∷ ts) e (inr p, hs) =
      if_cases (λ f. P (parts_or_none f)) (has_key tid total t) (λ _. p) (λ _. found_right ts e hs)

  pub put_parts-same :
      (parts : List (ℕ × Bytes)) (threads : List Thread)
      → P parts
      → All IsRight threads
      → All IsRight (put_parts tid total parts threads)
  unfolding put_parts
  put_parts-same parts [] p h = (inr p, tt)
  put_parts-same parts (t ∷ ts) p (h, hs) =
      if_cases (All IsRight) (has_key tid total t) (λ _. (inr p, hs))
        (λ _. (h, put_parts-same parts ts p hs))

  same_sound : (a b : Option ℕ) → same_tid a b ≡ true → a ≡ b
  same_sound none none e = refl
  same_sound none (some b) e = cc
  same_sound (some a) none e = cc
  same_sound (some a) (some b) e = ap some (ground arith)

  both : (a b : Bool) → (a && b) ≡ true → (a ≡ true) × (b ≡ true)
  both true true e = (refl, refl)
  both true false e = cc
  both false b e = cc

  -- Two keys of one thread are equal.
  other_key :
      (t : Thread) (id : Option ℕ) (n : ℕ)
      → has_key id n t ≡ true
      → (same_tid id tid && n == total) ≡ false
      → has_key tid total t ≡ false
  other_key t id n k o =
      let (a, b) = both (same_tid t.tid id) (t.total == n) k in
      ap (λ z. same_tid z tid && t.total == total) (same_sound t.tid id a)
      ∙ ap (λ z. same_tid id tid && z == total) (==_sound t.total n b)
      ∙ o

  pub put_parts-other :
      (id : Option ℕ) (n : ℕ) (parts : List (ℕ × Bytes)) (threads : List Thread)
      → (same_tid id tid && n == total) ≡ false
      → All IsRight threads
      → All IsRight (put_parts id n parts threads)
  unfolding put_parts
  put_parts-other id n parts [] o h = (inl o, tt)
  put_parts-other id n parts (t ∷ ts) o (h, hs) =
      if_cases (All IsRight) (has_key id n t) (λ k. (inl (other_key t id n k o), hs))
        (λ _. (h, put_parts-other id n parts ts o hs))

  pub make_room-IsRight :
      (found : Option (List (ℕ × Bytes))) (threads : List Thread)
      → All IsRight threads
      → All IsRight (make_room found threads)
  unfolding make_room
  make_room-IsRight (some parts) threads h = h
  make_room-IsRight none threads h =
      if_cases (All IsRight) (leb max_threads (length threads)) (λ _. All-drop IsRight 1 threads h)
        (λ _. h)

pub found_put :
    (id n : ℕ) (parts : List (ℕ × Bytes)) (threads : List Thread)
    → find_parts (some id) n (put_parts (some id) n parts threads) ≡ some parts
unfolding find_parts put_parts
found_put id n parts [] =
    if_cases (λ (o : Option (List (ℕ × Bytes))). o ≡ some parts) (id == id && n == n) (λ _. refl)
      (λ e. absurd (itself id n e))
  where
    itself : (a b : ℕ) → (a == a && b == b) ≡ false → ⊥
    itself a b e = ground arith
found_put id n parts (t ∷ ts) = elim (Bool-cases (has_key (some id) n t)) [
  | inl k ↦ rw (k, put_parts, find_parts, k) refl
  | inr k ↦ rw (k, put_parts, find_parts, k) (found_put id n parts ts)
]

-- With no thread of the key, all threads have other keys.
pub none-IsRight :
    (P : List (ℕ × Bytes) → Type 0) (tid : Option ℕ) (total : ℕ) (threads : List Thread)
    → find_parts tid total threads ≡ none
    → All (IsRight P tid total) threads
unfolding find_parts
none-IsRight P tid total [] e = tt
none-IsRight P tid total (t ∷ ts) e = elim (Bool-cases (has_key tid total t)) [
  | inl k ↦ absurd (cc (rw (k, find_parts) at e))
  | inr k ↦ (inl k, none-IsRight P tid total ts (rw (k, find_parts) at e))
]
