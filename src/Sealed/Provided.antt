-- ===== src/Sealed/Provided.antt =====
-- Who has the share of each row of a sealed post, shared/sealed.mjs.
use lortnoc_tahc.Base.{
  ℕ, zero, suc, ◌+◌, ◌-◌, ◌≤◌, ◌≡◌, refl, sym, ap, subst, ◌∙◌, xor, ◌⊎◌, inl, inr, Bool, true,
  false, ◌&&◌, ◌||◌, Option, none, some, some_inj, List, [], ◌∷◌, ◌++◌, length, length-append, take,
  drop, take_at, drop_at, keep, append_assoc, Bytes, All, Bool-cases, arith, list_eq_self,
}
use lortnoc_tahc.Policy.Checks.{
  Spec, public_spec, passphrase_spec, recipients_spec, after_spec, human_spec, nft_spec,
}
use lortnoc_tahc.Policy.Candidates.{contains}
use lortnoc_tahc.Policy.Lists.{contains-append}
use lortnoc_tahc.Policy.Seal.{Primitives}
use lortnoc_tahc.Sealed.Rows.{count_rows}
use lortnoc_tahc.Sealed.Post.{
  Draws, Placed, no_slots, share_rows, wrap_slot, add_slot, leaf_key, place_leaf, place_row,
  place_rows, joined, fill_slots, public_key_of_all, sealed_cek,
}
use lortnoc_tahc.Sealed.Reading.{is_share, try_slots, found_shares}
use lortnoc_tahc.Sealed.Shares.{AllHeld}
use lortnoc_tahc.Sealed.Layout.{frame_of}
use lortnoc_tahc.Sealed.Slots.{SealedLaws, AreSlots, all_slots, all_slots_sized, share_rows-sizes}
use lortnoc_tahc.Sealed.Keyring.{
  contains-keep, HasSlot, HasSlot-append, HasSlot-last, contains-try_slots,
}

abbrev holds : List Bytes → Option Bytes → Bool
holds keys none = false
holds keys (some key) = contains key keys

-- A leaf that the keys of a reader open without the gate.
abbrev has_key : Primitives → List Bytes → Spec → Bool
has_key c keys public_spec = true
has_key c keys (passphrase_spec profile hint words key) = holds keys (leaf_key c words key)
has_key c keys leaf = false

abbrev has_row : Primitives → List Bytes → List Spec → Bool
has_row c keys [] = false
has_row c keys (a ∷ row) = has_key c keys a || has_row c keys row

-- Of each row a leaf has its key among those of the reader, or the gate has given its share.
abbrev pub provided : Primitives → List Bytes → List Bytes → List (List Spec) → List Bytes → Bool
provided c keys gate_shares [] shares = true
provided c keys gate_shares (row ∷ rows) [] = true
provided c keys gate_shares (row ∷ rows) (s ∷ shares) =
    (has_row c keys row || contains s gate_shares) && provided c keys gate_shares rows shares

pub length-share_rows :
    (draw : ℕ → Bytes) (acc : Bytes) (i n : ℕ) → length (share_rows draw acc i n) ≡ n
unfolding share_rows
length-share_rows draw acc i zero = refl
length-share_rows draw acc i (suc zero) = refl
length-share_rows draw acc i (suc (suc n)) =
    ap suc (length-share_rows draw (xor acc (draw i)) (i + 1) (suc n))

module _ (c : Primitives) (draws : Draws) (sizes : SealedLaws c draws) (keys : List Bytes) where
  -- Some slot has the share under a key of the reader, or under the key that all have.
  abbrev IsFound : Bytes → Placed → Type 0
  IsFound share p =
      (key : Bytes) × (contains key (public_key_of_all c ∷ keys) ≡ true)
      × HasSlot c draws sizes key share 0 p.slots

  abbrev WillFind : Bytes → Option Placed → Type 0
  WillFind share o = (q : Placed) → o ≡ some q → IsFound share q

  add_slot-WillFind :
      (share other : Bytes) (p : Placed) (key : Option Bytes)
      → IsFound share p
      → WillFind share (add_slot c draws.salt other p key)
  add_slot-WillFind share other p none h q e = absurd cc
  add_slot-WillFind share other p (some key) h q e = subst (IsFound share) (some_inj e) (
    h.0,
    h.1,
    HasSlot-append c draws sizes h.0 share 0 p.slots
        (wrap_slot c key draws.salt (length p.slots) other ∷ []) h.2,
  )

  place_leaf-WillFind :
      (share other : Bytes) (p : Placed) (a : Spec)
      → IsFound share p
      → WillFind share (place_leaf c draws.salt other p a)
  unfolding place_leaf
  place_leaf-WillFind share other p public_spec h =
      add_slot-WillFind share other p (some (public_key_of_all c)) h
  place_leaf-WillFind share other p (passphrase_spec profile hint words key) h =
      add_slot-WillFind share other p (leaf_key c words key) h
  place_leaf-WillFind share other p (recipients_spec ks) h =
      λ q e. subst (IsFound share) (some_inj e) h
  place_leaf-WillFind share other p (after_spec ms) h = λ q e. subst (IsFound share) (some_inj e) h
  place_leaf-WillFind share other p (human_spec preset space country) h =
      λ q e. subst (IsFound share) (some_inj e) h
  place_leaf-WillFind share other p (nft_spec space) h = λ q e. subst (IsFound share) (some_inj e) h

  place_row-WillFind :
      (share other : Bytes) (row : List Spec) (o : Option Placed)
      → WillFind share o
      → WillFind share (place_row c draws.salt other o row)
  unfolding place_row
  place_row-WillFind share other row none h = λ q e. absurd cc
  place_row-WillFind share other [] (some p) h = h
  place_row-WillFind share other (a ∷ row) (some p) h =
      place_row-WillFind share other row (place_leaf c draws.salt other p a)
        (place_leaf-WillFind share other p a (h p refl))

  place_rows-WillFind :
      (share : Bytes) (shares : List Bytes) (rows : List (List Spec)) (o : Option Placed)
      → WillFind share o
      → WillFind share (place_rows c draws.salt shares o rows)
  unfolding place_rows
  place_rows-WillFind share shares [] o h = h
  place_rows-WillFind share [] (row ∷ rows) o h = h
  place_rows-WillFind share (s ∷ shares) (row ∷ rows) o h =
      place_rows-WillFind share shares rows (place_row c draws.salt s o row)
        (place_row-WillFind share s row o h)

  add_slot-has :
      (share : Bytes) (p : Placed) (key : Option Bytes)
      → holds (public_key_of_all c ∷ keys) key ≡ true
      → WillFind share (add_slot c draws.salt share p key)
  add_slot-has share p none h q e = absurd cc
  add_slot-has share p (some key) h q e =
      subst (IsFound share) (some_inj e)
        (key, h, HasSlot-last c draws sizes key share 0 (length p.slots) p.slots (omega arith))

  holds_more :
      (key : Option Bytes) → holds keys key ≡ true → holds (public_key_of_all c ∷ keys) key ≡ true
  holds_more none h = absurd cc
  holds_more (some key) h = ground (arith, h)

  place_leaf-has :
      (share : Bytes) (p : Placed) (a : Spec)
      → has_key c keys a ≡ true
      → WillFind share (place_leaf c draws.salt share p a)
  unfolding place_leaf
  place_leaf-has share p public_spec h =
      let own : contains (public_key_of_all c) (public_key_of_all c ∷ keys) ≡ true =
        rw (list_eq_self (public_key_of_all c)) refl in
      add_slot-has share p (some (public_key_of_all c)) own
  place_leaf-has share p (passphrase_spec profile hint words key) h =
      add_slot-has share p (leaf_key c words key) (holds_more (leaf_key c words key) h)
  place_leaf-has share p (recipients_spec ks) h = λ q e. absurd cc
  place_leaf-has share p (after_spec ms) h = λ q e. absurd cc
  place_leaf-has share p (human_spec preset space country) h = λ q e. absurd cc
  place_leaf-has share p (nft_spec space) h = λ q e. absurd cc

  place_row-has :
      (share : Bytes) (row : List Spec) (o : Option Placed)
      → has_row c keys row ≡ true
      → WillFind share (place_row c draws.salt share o row)
  unfolding place_row
  place_row-has share row none h = λ q e. absurd cc
  place_row-has share [] (some p) h = λ q e. absurd cc
  place_row-has share (a ∷ row) (some p) h =
      let next = place_leaf c draws.salt share p a in
      elim (Bool-cases (has_key c keys a)) [
        | inl here ↦ place_row-WillFind share share row next (place_leaf-has share p a here)
        | inr other ↦ place_row-has share row next (ground (arith, other, h))
      ]

  module _ (gate_shares : List Bytes) where
    abbrev IsGot : Placed → Bytes → Type 0
    IsGot q share = IsFound share q ⊎ (contains share gate_shares ≡ true)

    place_rows-provided :
        (shares : List Bytes) (rows : List (List Spec)) (o : Option Placed) (q : Placed)
        → length shares ≡ length rows
        → provided c keys gate_shares rows shares ≡ true
        → place_rows c draws.salt shares o rows ≡ some q
        → All (IsGot q) shares
    unfolding place_rows
    place_rows-provided [] rows o q n h e = tt
    place_rows-provided (s ∷ shares) [] o q n h e = absurd (omega (arith, n))
    place_rows-provided (s ∷ shares) (row ∷ rows) o q n h e =
        let next = place_row c draws.salt s o row in
        (
          elim (Bool-cases (has_row c keys row)) [
            | inl own ↦ inl (place_rows-WillFind s shares rows next (place_row-has s row o own) q e)
            | inr other ↦ inr (ground (arith, other, h))
          ],
          place_rows-provided shares rows next q (omega (arith, n)) (ground (arith, h)) e,
        )

    each_got :
        (frame : Bytes) (q : Placed) (shares : List Bytes)
        → ((share : Bytes)
            → length share ≡ 16
            → IsGot q share
            → contains share (found_shares c frame keys gate_shares) ≡ true)
        → All (λ s. length s ≡ 16) shares
        → All (IsGot q) shares
        → AllHeld (found_shares c frame keys gate_shares) shares
    each_got frame q [] one size h = tt
    each_got frame q (s ∷ shares) one size h =
        (one s size.0 h.0, each_got frame q shares one size.1 h.1)

    -- Who has a key of each row, or its share from the gate, finds the shares of all rows.
    pub found_shares-provided :
        (root ref inner : Bytes) (rows : List (List Spec)) (p : Placed)
        → count_rows rows ≤ 2
        → length ref ≡ 8
        → place_rows c draws.salt
            (share_rows draws.row_share draws.root 0 (length rows))
            (some no_slots)
            rows
          ≡ some p
        → provided c keys gate_shares rows (share_rows draws.row_share draws.root 0 (length rows))
          ≡ true
        → let frame = frame_of c root draws.salt (ref ++ joined (all_slots draws p)) inner in
          AllHeld
            (found_shares c frame keys gate_shares)
            (share_rows draws.row_share draws.root 0 (length rows))
    unfolding found_shares
    found_shares-provided root ref inner rows p few ref_size placed h =
        let shares = share_rows draws.row_share draws.root 0 (length rows) in
        each_got frame p shares got
          (share_rows-sizes c draws sizes draws.root 0 (length rows) sizes.root_size)
          (place_rows-provided shares rows (some no_slots) p
            (length-share_rows draws.row_share draws.root 0 (length rows)) h placed)
      where
        slots : List Bytes
        slots = all_slots draws p

        body : Bytes
        body = c.siv_seal (sealed_cek c root draws.salt) (draws.salt ++ (ref ++ joined slots)) inner

        frame : Bytes
        frame = frame_of c root draws.salt (ref ++ joined slots) inner

        salt_of : take 8 frame ≡ draws.salt
        salt_of =
            ap (take 8) (append_assoc draws.salt (ref ++ joined slots) body)
            ∙ take_at draws.salt ((ref ++ joined slots) ++ body) 8 sizes.salt_size

        slots_of : drop 16 frame ≡ joined slots ++ body
        slots_of =
            ap (drop 16) (
              append_assoc draws.salt (ref ++ joined slots) body
              ∙ ap (◌++◌ draws.salt) (append_assoc ref (joined slots) body)
              ∙ sym (append_assoc draws.salt ref (joined slots ++ body)))
            ∙ drop_at (draws.salt ++ ref) (joined slots ++ body) 16
                (omega (arith, length-append draws.salt ref, sizes.salt_size, ref_size))

        sized : AreSlots slots × (length slots ≡ 2)
        sized = all_slots_sized c draws sizes rows p few placed

        got :
            (share : Bytes)
            → length share ≡ 16
            → IsGot p share
            → contains share (found_shares c frame keys gate_shares) ≡ true
        got share size h =
            let all = public_key_of_all c ∷ keys in
            contains-append share (try_slots c (take 8 frame) 0 2 (drop 16 frame) all)
              (keep is_share gate_shares)
            ∙ (elim h [
              | inl by_key ↦
                  let there : contains share (try_slots c (take 8 frame) 0 2 (drop 16 frame) all)
                      ≡ true =
                    subst (λ t. contains share (try_slots c t 0 2 (drop 16 frame) all) ≡ true)
                      (sym salt_of)
                      (subst (λ d. contains share (try_slots c draws.salt 0 2 d all) ≡ true)
                        (sym slots_of)
                        (subst
                          (λ n.
                            contains share (try_slots c draws.salt 0 n (joined slots ++ body) all)
                            ≡ true)
                          sized.1
                          (contains-try_slots c draws sizes by_key.0 share body all 0 slots size
                            by_key.1 sized.0
                            (HasSlot-append c draws sizes by_key.0 share 0 p.slots
                              (fill_slots draws.blank (length p.slots) (2 - length p.slots))
                              by_key.2)))) in
                  ground (arith, there)
              | inr by_gate ↦
                  let there : contains share (keep is_share gate_shares) ≡ true =
                    contains-keep share gate_shares (ground (arith, size)) by_gate in
                  ground (arith, there)
            ])
