-- ===== src/XThread/Complete.antt =====
-- A thread offered from its first part to its last is complete at the last.
use lortnoc_tahc.Base.{
  ==_sound, ℕ, suc, zero, ◌+◌, ◌≤◌, ◌<◌, ◌≡◌, refl, ap, true, false, Option, none, some, List, [],
  ◌∷◌, if_cases, ◌==◌, length, is_some, Bytes, arith,
}
use lortnoc_tahc.XThread.{set_part, get_part, join_part, join_parts, whole}

module _ (part_at : ℕ → Bytes) where
  -- The parts from `i` on, `n` of them, in order.
  unfoldable pub run_of : ℕ → ℕ → List (ℕ × Bytes)
  run_of i zero = []
  run_of i (suc n) = (i, part_at i) ∷ run_of (i + 1) n

  length-run_of : (i n : ℕ) → length (run_of i n) ≡ n
  unfolding run_of
  length-run_of i zero = refl
  length-run_of i (suc n) = ap suc (length-run_of (i + 1) n)

  pub set_part-run_of :
      (i n seq : ℕ) → i + n ≡ seq → set_part seq (part_at seq) (run_of i n) ≡ run_of i (suc n)
  unfolding set_part run_of
  set_part-run_of i zero seq e = ap (λ k. (k, part_at k) ∷ []) (omega arith)
  set_part-run_of i (suc n) seq e =
      rw (differs i seq (omega arith), set_part)
        (ap (◌∷◌ (i, part_at i)) (set_part-run_of (i + 1) n seq (omega arith)))
    where
      differs : (a b : ℕ) → a < b → (a == b) ≡ false
      differs a b h = ground arith

  get_part-run_of :
      (i n seq : ℕ) → i ≤ seq → seq < i + n → get_part seq (run_of i n) ≡ some (part_at seq)
  unfolding get_part run_of
  get_part-run_of i zero seq h k = absurd (omega arith)
  get_part-run_of i (suc n) seq h k =
      if_cases (λ (o : Option Bytes). o ≡ some (part_at seq)) (i == seq)
        (λ e. ap (λ z. some (part_at z)) (==_sound i seq e))
        (λ e. get_part-run_of (i + 1) n seq (beyond i seq h e) (omega arith))
    where
      beyond : (a b : ℕ) → a ≤ b → (a == b) ≡ false → a + 1 ≤ b
      beyond a b h e = ground arith

  some_join :
      (p : Bytes) (r : Option Bytes) → is_some r ≡ true → is_some (join_part (some p) r) ≡ true
  some_join p none e = cc
  some_join p (some rest) e = refl

  join_parts-run_of :
      (total s n : ℕ) → s + n ≤ total → is_some (join_parts (run_of 0 total) s n) ≡ true
  unfolding join_parts
  join_parts-run_of total s zero h = refl
  join_parts-run_of total s (suc n) h = rw (get_part-run_of 0 total s (omega arith) (omega arith)) (
      some_join (part_at s) (join_parts (run_of 0 total) (s + 1) n)
        (join_parts-run_of total (s + 1) n (omega arith)))

  -- All the parts make a whole.
  pub whole-run_of : (total : ℕ) → is_some (whole total (run_of 0 total)) ≡ true
  unfolding whole
  whole-run_of total =
      rw (all_here total (length (run_of 0 total)) (length-run_of 0 total))
        (join_parts-run_of total 0 total (omega arith))
    where
      all_here : (n m : ℕ) → m ≡ n → (m == n) ≡ true
      all_here n m e = ground arith
