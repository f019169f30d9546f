-- ===== src/Sealed/Keyring.antt =====
-- What the keys of a reader find in the slots of a sealed post, shared/sealed.mjs.
use lortnoc_tahc.Base.{
  ℕ, zero, suc, ◌+◌, ◌≡◌, refl, sym, ap, subst, ◌∙◌, ◌⊎◌, inl, inr, true, ◌||◌, Option, none, some,
  List, [], ◌∷◌, ◌++◌, length, take, drop, take_at, drop_at, keep, list_eq, list_eq_self,
  list_eq_sound, length-xor, append_assoc, xor, xor_twice, Bytes, Bool-cases, arith,
}
use lortnoc_tahc.Policy.Candidates.{contains}
use lortnoc_tahc.Policy.Lists.{contains-append}
use lortnoc_tahc.Policy.Seal.{Primitives}
use lortnoc_tahc.Sealed.Post.{Draws, wrap_slot, unwrap_slot, slot_mask, joined}
use lortnoc_tahc.Sealed.Reading.{with_share, is_share, try_keys, try_slots}
use lortnoc_tahc.Sealed.Slots.{SealedLaws, AreSlots}

take_again {ℓ} : {A : Type ℓ} (n : ℕ) (xs : List A) → take n (take n xs) ≡ take n xs
take_again zero xs = refl
take_again (suc n) [] = refl
take_again (suc n) (x ∷ xs) = ap (◌∷◌ x) (take_again n xs)

pub contains-keep :
    (s : Bytes) (ss : List Bytes)
    → is_share s ≡ true
    → contains s ss ≡ true
    → contains s (keep is_share ss) ≡ true
contains-keep s [] size h = absurd cc
contains-keep s (t ∷ ts) size h = elim (Bool-cases (list_eq s t)) [
  | inl same ↦
      let good : is_share t ≡ true = subst (λ u. is_share u ≡ true) (list_eq_sound s t same) size in
      ground (arith, good, same)
  | inr other ↦ ground (arith, other, h, contains-keep s ts size)
]

module _ (c : Primitives) (draws : Draws) (sizes : SealedLaws c draws) where
  -- The key of a slot gives back its share.
  unwrap_slot-wrap_slot :
      (key : Bytes) (i : ℕ) (share : Bytes)
      → length share ≡ 16
      → unwrap_slot c key draws.salt i (wrap_slot c key draws.salt i share) ≡ some share
  unfolding unwrap_slot wrap_slot
  unwrap_slot-wrap_slot key i share size =
      let mask = slot_mask c key draws.salt i in
      let masked = xor share (take 16 mask) in
      let tag = take 4 (c.sha256 (drop 16 mask ++ share)) in
      let n : length masked ≡ 16 = length-xor share (take 16 mask) ∙ size in
      let first : take 16 (masked ++ tag) ≡ masked = take_at masked tag 16 n in
      let last : take 4 (drop 16 (masked ++ tag)) ≡ tag =
        ap (take 4) (drop_at masked tag 16 n) ∙ take_again 4 (c.sha256 (drop 16 mask ++ share)) in
      rw (first, last, xor_twice share (take 16 mask), list_eq_self tag) refl

  contains-try_keys :
      (key share : Bytes) (i : ℕ) (slot : Bytes) (keys : List Bytes)
      → unwrap_slot c key draws.salt i slot ≡ some share
      → contains key keys ≡ true
      → contains share (try_keys c draws.salt i slot keys) ≡ true
  unfolding try_keys
  contains-try_keys key share i slot [] e h = absurd cc
  contains-try_keys key share i slot (k ∷ ks) e h = elim (Bool-cases (list_eq key k)) [
    | inl same ↦
        let here : unwrap_slot c k draws.salt i slot ≡ some share =
          subst (λ u. unwrap_slot c u draws.salt i slot ≡ some share) (list_eq_sound key k same)
            e in
        rw (here, list_eq_self share) refl
    | inr other ↦
        later (unwrap_slot c k draws.salt i slot)
          (contains-try_keys key share i slot ks e (ground (arith, other, h)))
  ]
    where
      later :
          (o : Option Bytes)
          → contains share (try_keys c draws.salt i slot ks) ≡ true
          → contains share (with_share o (try_keys c draws.salt i slot ks)) ≡ true
      later none g = g
      later (some s) g = ground (arith, g)

  -- Among the slots from an index on is one with this share under this key.
  abbrev pub HasSlot : Bytes → Bytes → ℕ → List Bytes → Type 0
  HasSlot key share i [] = ⊥
  HasSlot key share i (s ∷ ss) =
      (wrap_slot c key draws.salt i share ≡ s) ⊎ HasSlot key share (i + 1) ss

  pub HasSlot-append :
      (key share : Bytes) (i : ℕ) (ss more : List Bytes)
      → HasSlot key share i ss
      → HasSlot key share i (ss ++ more)
  HasSlot-append key share i [] more h = absurd h
  HasSlot-append key share i (s ∷ ss) more (inl here) = inl here
  HasSlot-append key share i (s ∷ ss) more (inr later) =
      inr (HasSlot-append key share (i + 1) ss more later)

  pub HasSlot-last :
      (key share : Bytes) (i j : ℕ) (ss : List Bytes)
      → j ≡ i + length ss
      → HasSlot key share i (ss ++ wrap_slot c key draws.salt j share ∷ [])
  HasSlot-last key share i j [] e =
      inl (ap (λ k. wrap_slot c key draws.salt k share) (omega (arith, e)))
  HasSlot-last key share i j (s ∷ ss) e =
      inr (HasSlot-last key share (i + 1) j ss (omega (arith, e)))

  pub contains-try_slots :
      (key share tail : Bytes) (keys : List Bytes) (i : ℕ) (ss : List Bytes)
      → length share ≡ 16
      → contains key keys ≡ true
      → AreSlots ss
      → HasSlot key share i ss
      → contains share (try_slots c draws.salt i (length ss) (joined ss ++ tail) keys) ≡ true
  unfolding try_slots
  contains-try_slots key share tail keys i [] size held are h = absurd h
  contains-try_slots key share tail keys i (s ∷ ss) size held are h =
      let whole = append_assoc s (joined ss) tail in
      let first : take 20 ((s ++ joined ss) ++ tail) ≡ s =
        ap (take 20) whole ∙ take_at s (joined ss ++ tail) 20 are.0 in
      let rest : drop 20 ((s ++ joined ss) ++ tail) ≡ joined ss ++ tail =
        ap (drop 20) whole ∙ drop_at s (joined ss ++ tail) 20 are.0 in
      rw (first, rest)
        (contains-append share (try_keys c draws.salt i s keys)
            (try_slots c draws.salt (i + 1) (length ss) (joined ss ++ tail) keys)
          ∙ either h (contains-try_slots key share tail keys (i + 1) ss size held are.1))
    where
      either :
          HasSlot key share i (s ∷ ss)
          → (HasSlot key share (i + 1) ss
              → contains share (try_slots c draws.salt (i + 1) (length ss) (joined ss ++ tail) keys)
                ≡ true)
          → (contains share (try_keys c draws.salt i s keys)
              || contains share
                  (try_slots c draws.salt (i + 1) (length ss) (joined ss ++ tail) keys))
            ≡ true
      either (inl here) onward =
          let got =
            contains-try_keys key share i s keys
              (ap (unwrap_slot c key draws.salt i) (sym here)
                ∙ unwrap_slot-wrap_slot key i share size)
              held in
          ground (arith, got)
      either (inr later) onward = let got = onward later in ground (arith, got)
