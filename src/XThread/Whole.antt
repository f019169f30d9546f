-- ===== src/XThread/Whole.antt =====
-- The collector gives back the ciphertext that a thread was built from, or nothing.
use lortnoc_tahc.Base.{
  ℕ, suc, zero, ◌+◌, ◌*◌, ◌≤◌, ◌≡◌, ◌⊎◌, inl, inr, refl, ap, sym, subst, ◌∙◌, Bool, true, false,
  ◌&&◌, Option, none, some, List, [], ◌∷◌, map, is_some, count_up, if_cases, ◌==◌, ltb, length,
  get_or, All, Bytes, arith,
}
use lortnoc_tahc.XFrame.{XMode, XPart}
use lortnoc_tahc.XFrame.Laws.{part_of}
use lortnoc_tahc.XThread.{
  Thread, same_tid, find_parts, set_part, make_room, parts_or_none, whole, offer,
}
use lortnoc_tahc.XThread.Complete.{run_of, set_part-run_of, whole-run_of}
use lortnoc_tahc.XThread.Keys.{
  found_put, none-IsRight, IsRight, found_right, put_parts-same, put_parts-other, make_room-IsRight,
}
use lortnoc_tahc.XThread.Laws.{slice, AreSlices, set_part-AreSlices, IsWhole, whole-IsWhole}

-- The collector after these parts.
unfoldable pub offer_all : List Thread → List XPart → List Thread
offer_all threads [] = threads
offer_all threads (p ∷ ps) = offer_all (offer threads p).0 ps

abbrev pub thread_id : Bytes → Option ℕ
thread_id ciphertext = some (get_or ciphertext 0 0 * 256 + get_or ciphertext 1 0)

module _ (mode : XMode) (ciphertext : Bytes) (squeezed : Bool) (chunk total : ℕ)
    (many : ltb 1 total ≡ true) where
  abbrev ours : ℕ → XPart
  ours = part_of mode ciphertext squeezed chunk total

  -- A part of this thread, or of a thread with another key.
  abbrev pub IsOffered : XPart → Type 0
  IsOffered p =
      ((seq : ℕ) × (p ≡ ours seq))
      ⊎ ((same_tid p.tid (thread_id ciphertext) && p.total == total) ≡ false)

  abbrev Right : List Thread → Type 0
  Right = All (IsRight (AreSlices ciphertext chunk) (thread_id ciphertext) total)

  literal : ℕ → XPart
  literal seq = record {
    mode = mode;
    squeezed = squeezed;
    threaded = true;
    seq = seq;
    total = total;
    tid = thread_id ciphertext;
    payload = slice ciphertext chunk seq;
  }

  ours-literal : (seq : ℕ) → ours seq ≡ literal seq
  unfolding literal
  ours-literal seq = rw many refl

  held :
      (threads : List Thread) (seq : ℕ)
      → Right threads
      → AreSlices ciphertext chunk (
          set_part seq
            (slice ciphertext chunk seq)
            (parts_or_none (find_parts (thread_id ciphertext) total threads)))
  held threads seq h =
      set_part-AreSlices ciphertext chunk seq _
        (found_right (AreSlices ciphertext chunk) (thread_id ciphertext) total threads tt h)

  literal-Right :
      (threads : List Thread) (seq : ℕ) → Right threads → Right (offer threads (literal seq)).0
  unfolding offer literal
  literal-Right threads seq h =
      put_parts-same (AreSlices ciphertext chunk) (thread_id ciphertext) total _ _
        (held threads seq h)
        (make_room-IsRight (AreSlices ciphertext chunk) (thread_id ciphertext) total _ threads h)

  other-Right :
      (threads : List Thread) (p : XPart)
      → (same_tid p.tid (thread_id ciphertext) && p.total == total) ≡ false
      → Right threads
      → Right (offer threads p).0
  unfolding offer
  other-Right threads p o h =
      if_cases (λ (r : List Thread × Option Bytes). Right r.0) p.threaded
        (λ _.
          put_parts-other (AreSlices ciphertext chunk) (thread_id ciphertext) total p.tid p.total _
            _ o
            (make_room-IsRight (AreSlices ciphertext chunk) (thread_id ciphertext) total _ threads
              h))
        (λ _. h)

  offer_all-Right :
      (ps : List XPart) (threads : List Thread)
      → All IsOffered ps
      → Right threads
      → Right (offer_all threads ps)
  unfolding offer_all
  offer_all-Right [] threads f h = h
  offer_all-Right (p ∷ ps) threads (inl (seq, e), fs) h =
      offer_all-Right ps (offer threads p).0 fs (
        subst (λ q. Right (offer threads q).0) (sym (e ∙ ours-literal seq))
          (literal-Right threads seq h))
  offer_all-Right (p ∷ ps) threads (inr o, fs) h =
      offer_all-Right ps (offer threads p).0 fs (other-Right threads p o h)

  literal-IsWhole :
      (threads : List Thread) (seq : ℕ)
      → length ciphertext ≤ total * chunk
      → Right threads
      → IsWhole ciphertext chunk (offer threads (literal seq)).1
  unfolding offer literal
  literal-IsWhole threads seq enough h =
      whole-IsWhole ciphertext chunk total _ enough (held threads seq h)

  -- For a thread of two parts or more whose slices cover the ciphertext, and a collector that was
  -- offered, in any order and however often, parts of this thread and of threads with other keys: one
  -- more part of this thread gives back the ciphertext itself or nothing, never anything else.
  pub offer-IsWhole :
      (history : List XPart) (seq : ℕ)
      → All IsOffered history
      → length ciphertext ≤ total * chunk
      → IsWhole ciphertext chunk (offer (offer_all [] history) (ours seq)).1
  offer-IsWhole history seq f enough =
      subst (λ q. IsWhole ciphertext chunk (offer (offer_all [] history) q).1)
        (sym (ours-literal seq))
        (literal-IsWhole (offer_all [] history) seq enough (offer_all-Right history [] f tt))

  -- What is held of this thread.
  abbrev held_parts : List Thread → List (ℕ × Bytes)
  held_parts threads = parts_or_none (find_parts (thread_id ciphertext) total threads)

  literal_held :
      (threads : List Thread) (i : ℕ)
      → held_parts threads ≡ run_of (slice ciphertext chunk) 0 i
      → held_parts (offer threads (literal i)).0 ≡ run_of (slice ciphertext chunk) 0 (suc i)
  unfolding offer literal
  literal_held threads i h =
      ap parts_or_none (
        found_put (get_or ciphertext 0 0 * 256 + get_or ciphertext 1 0) total _
          (make_room (find_parts (thread_id ciphertext) total threads) threads))
      ∙ ap (set_part i (slice ciphertext chunk i)) h
      ∙ set_part-run_of (slice ciphertext chunk) 0 i i (omega arith)

  -- The first parts in order.
  abbrev pub in_order : ℕ → ℕ → List XPart
  in_order i n = map ours (count_up i n)

  in_order_held :
      (n i : ℕ) (threads : List Thread)
      → held_parts threads ≡ run_of (slice ciphertext chunk) 0 i
      → held_parts (offer_all threads (in_order i n)) ≡ run_of (slice ciphertext chunk) 0 (i + n)
  unfolding offer_all count_up
  in_order_held zero i threads h = h ∙ ap (run_of (slice ciphertext chunk) 0) (omega arith)
  in_order_held (suc n) i threads h =
      in_order_held n (i + 1) (offer threads (ours i)).0 (
        subst (λ q. held_parts (offer threads q).0 ≡ run_of (slice ciphertext chunk) 0 (i + 1))
          (sym (ours-literal i))
          (literal_held threads i h ∙ ap (run_of (slice ciphertext chunk) 0) (omega arith)))
      ∙ ap (run_of (slice ciphertext chunk) 0) (omega arith)

  literal_whole :
      (threads : List Thread) (n : ℕ)
      → total ≡ suc n
      → held_parts threads ≡ run_of (slice ciphertext chunk) 0 n
      → is_some (offer threads (literal n)).1 ≡ true
  unfolding offer literal
  literal_whole threads n t h =
      ap (λ ps. is_some (whole total (set_part n (slice ciphertext chunk n) ps))) h
      ∙ ap (λ ps. is_some (whole total ps))
          (set_part-run_of (slice ciphertext chunk) 0 n n (omega arith)
            ∙ ap (run_of (slice ciphertext chunk) 0) (sym t))
      ∙ whole-run_of (slice ciphertext chunk) total

  whole_of :
      (o : Option Bytes) → is_some o ≡ true → IsWhole ciphertext chunk o → o ≡ some ciphertext
  whole_of none e w = cc
  whole_of (some out) e w = ap some w

  in_order-IsOffered : (i n : ℕ) → All IsOffered (in_order i n)
  unfolding count_up
  in_order-IsOffered i zero = tt
  in_order-IsOffered i (suc n) = (inl (i, refl), in_order-IsOffered (i + 1) n)

  -- For a thread of `n + 1` parts, two or more, whose slices cover the ciphertext, and a collector that
  -- holds none of them: when the parts are offered in order, the last gives back the ciphertext.
  pub offer-in_order :
      (threads : List Thread) (n : ℕ)
      → total ≡ suc n
      → length ciphertext ≤ total * chunk
      → find_parts (thread_id ciphertext) total threads ≡ none
      → (offer (offer_all threads (in_order 0 n)) (ours n)).1 ≡ some ciphertext
  unfolding run_of
  offer-in_order threads n t enough empty =
      let before = offer_all threads (in_order 0 n) in
      let right =
        offer_all-Right (in_order 0 n) threads (in_order-IsOffered 0 n)
          (none-IsRight _ _ total threads empty) in
      ap (λ q. (offer before q).1) (ours-literal n)
      ∙ whole_of (offer before (literal n)).1
          (literal_whole before n t (
            in_order_held n 0 threads (nothing_held threads empty)
            ∙ ap (run_of (slice ciphertext chunk) 0) (omega arith)))
          (literal-IsWhole before n enough right)
    where
      nothing_held :
          (ts : List Thread)
          → find_parts (thread_id ciphertext) total ts ≡ none
          → held_parts ts ≡ run_of (slice ciphertext chunk) 0 0
      nothing_held ts e = ap parts_or_none e
