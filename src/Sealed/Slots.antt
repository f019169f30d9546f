-- ===== src/Sealed/Slots.antt =====
-- The slots of a sealed post and their sizes, shared/sealed.mjs.
use lortnoc_tahc.Base.{
  ℕ, zero, suc, ◌+◌, ◌-◌, ◌*◌, ◌≤◌, ◌≡◌, refl, ap, subst, ◌∙◌, Option, none, some, some_inj, List,
  [], ◌∷◌, ◌++◌, length, take, drop, length-append, length-take, length-xor, Bytes, All, All-append,
  arith, xor,
}
use lortnoc_tahc.Policy.Checks.{
  Spec, public_spec, passphrase_spec, recipients_spec, after_spec, human_spec, nft_spec, spec_id,
}
use lortnoc_tahc.Policy.Seal.{Primitives}
use lortnoc_tahc.Sealed.Rows.{is_inline, slot_count, count_inline, count_rows}
use lortnoc_tahc.Sealed.Post.{
  Draws, Placed, no_slots, wrap_slot, slot_mask, add_slot, leaf_key, place_leaf, place_row,
  place_rows, share_rows, fill_slots, joined, public_key_of_all,
}

-- What is relied on beside the laws of the reader policies: a hash has 32 bytes, a sealed text is longer
-- than its plaintext by a tag of 16 at least, and the random source gives the sizes asked for.
pub record SealedLaws (c : Primitives) (draws : Draws) : Type 0 where
  pub sha_size : (m : Bytes) → length (c.sha256 m) ≡ 32
  pub seal_size : (key ad m : Bytes) → 16 + length m ≤ length (c.siv_seal key ad m)
  pub root_size : length draws.root ≡ 16
  pub row_share_size : (i : ℕ) → length (draws.row_share i) ≡ 16
  pub salt_size : length draws.salt ≡ 8
  pub blank_size : (i : ℕ) → length (draws.blank i) ≡ 20
  pub random_ref_size : length draws.random_ref ≡ 8

abbrev pub AreSlots : List Bytes → Type 0
AreSlots = All (λ s. length s ≡ 20)

pub length-joined : (ss : List Bytes) → AreSlots ss → length (joined ss) ≡ length ss * 20
length-joined [] h = refl
length-joined (s ∷ ss) h = omega (arith, length-append s (joined ss), h.0, length-joined ss h.1)

-- The slots of a post, the unused ones included.
abbrev pub all_slots : Draws → Placed → List Bytes
all_slots draws p = p.slots ++ fill_slots draws.blank (length p.slots) (slot_count - length p.slots)

module _ (c : Primitives) (draws : Draws) (sizes : SealedLaws c draws) where
  pub length-wrap_slot :
      (key : Bytes) (i : ℕ) (share : Bytes)
      → length share ≡ 16
      → length (wrap_slot c key draws.salt i share) ≡ 20
  unfolding wrap_slot
  length-wrap_slot key i share h =
      let mask = slot_mask c key draws.salt i in
      let tag = c.sha256 (drop 16 mask ++ share) in
      omega (
        arith,
        length-append (xor share (take 16 mask)) (take 4 tag),
        length-xor share (take 16 mask),
        h,
        length-take 4 tag,
        sizes.sha_size (drop 16 mask ++ share),
      )

  -- At most so many slots, each of its size.
  abbrev IsPlaced : ℕ → Placed → Type 0
  IsPlaced n p = (length p.slots ≤ n) × AreSlots p.slots

  add_slot-IsPlaced :
      (share : Bytes) (p q : Placed) (key : Option Bytes) (n : ℕ)
      → length share ≡ 16
      → IsPlaced n p
      → add_slot c draws.salt share p key ≡ some q
      → IsPlaced (1 + n) q
  add_slot-IsPlaced share p q none n size h e = absurd cc
  add_slot-IsPlaced share p q (some key) n size h e =
      let slot = wrap_slot c key draws.salt (length p.slots) share in
      subst (IsPlaced (1 + n)) (some_inj e) (
        omega (arith, h.0, length-append p.slots (slot ∷ [])),
        All-append (λ s. length s ≡ 20) p.slots (slot ∷ []) h.1
            (length-wrap_slot key (length p.slots) share size, tt),
      )

  kept :
      (p q : Placed) (items : List (Spec × Bytes)) (n : ℕ)
      → IsPlaced n p
      → some (record p { gate_items = items }) ≡ some q
      → IsPlaced (0 + n) q
  kept p q items n h e = subst (IsPlaced (0 + n)) (some_inj e) (omega (arith, h.0), h.1)

  place_leaf-IsPlaced :
      (share : Bytes) (p q : Placed) (a : Spec) (n : ℕ)
      → length share ≡ 16
      → IsPlaced n p
      → place_leaf c draws.salt share p a ≡ some q
      → IsPlaced (count_inline (a ∷ []) + n) q
  unfolding place_leaf is_inline spec_id
  place_leaf-IsPlaced share p q public_spec n size h e =
      add_slot-IsPlaced share p q (some (public_key_of_all c)) n size h e
  place_leaf-IsPlaced share p q (passphrase_spec profile hint words key) n size h e =
      add_slot-IsPlaced share p q (leaf_key c words key) n size h e
  place_leaf-IsPlaced share p q (recipients_spec keys) n size h e = kept p q _ n h e
  place_leaf-IsPlaced share p q (after_spec ms) n size h e = kept p q _ n h e
  place_leaf-IsPlaced share p q (human_spec preset space country) n size h e = kept p q _ n h e
  place_leaf-IsPlaced share p q (nft_spec space) n size h e = kept p q _ n h e

  abbrev WillPlace : ℕ → Option Placed → Type 0
  WillPlace n o = (q : Placed) → o ≡ some q → IsPlaced n q

  weaken : (m n : ℕ) (o : Option Placed) → m ≤ n → WillPlace m o → WillPlace n o
  weaken m n o le h q e = let g = h q e in (omega (arith, le, g.0), g.1)

  place_row-WillPlace :
      (share : Bytes) (row : List Spec) (o : Option Placed) (n : ℕ)
      → length share ≡ 16
      → WillPlace n o
      → WillPlace (count_inline row + n) (place_row c draws.salt share o row)
  unfolding place_row
  place_row-WillPlace share row none n size h = λ q e. absurd cc
  place_row-WillPlace share [] (some p) n size h = weaken n (0 + n) (some p) (omega arith) h
  place_row-WillPlace share (a ∷ row) (some p) n size h =
      weaken (count_inline row + (count_inline (a ∷ []) + n)) (count_inline (a ∷ row) + n)
        (place_row c draws.salt share (place_leaf c draws.salt share p a) row) (omega arith)
        (place_row-WillPlace share row (place_leaf c draws.salt share p a)
          (count_inline (a ∷ []) + n) size
          (λ q e. place_leaf-IsPlaced share p q a n size (h p refl) e))

  place_rows-WillPlace :
      (shares : List Bytes) (rows : List (List Spec)) (o : Option Placed) (n : ℕ)
      → All (λ s. length s ≡ 16) shares
      → WillPlace n o
      → WillPlace (count_rows rows + n) (place_rows c draws.salt shares o rows)
  unfolding place_rows
  place_rows-WillPlace shares [] o n size h = weaken n (0 + n) o (omega arith) h
  place_rows-WillPlace [] (row ∷ rows) o n size h =
      weaken n (count_rows (row ∷ rows) + n) o (omega arith) h
  place_rows-WillPlace (s ∷ shares) (row ∷ rows) o n size h =
      weaken (count_rows rows + (count_inline row + n)) (count_rows (row ∷ rows) + n)
        (place_rows c draws.salt shares (place_row c draws.salt s o row) rows) (omega arith)
        (place_rows-WillPlace shares rows (place_row c draws.salt s o row) (count_inline row + n)
          size.1 (place_row-WillPlace s row o n size.0 h))

  pub share_rows-sizes :
      (acc : Bytes) (i n : ℕ)
      → length acc ≡ 16
      → All (λ s. length s ≡ 16) (share_rows draws.row_share acc i n)
  unfolding share_rows
  share_rows-sizes acc i zero h = tt
  share_rows-sizes acc i (suc zero) h = (h, tt)
  share_rows-sizes acc i (suc (suc n)) h = (
    sizes.row_share_size i,
    share_rows-sizes (xor acc (draws.row_share i)) (i + 1) (suc n)
        (length-xor acc (draws.row_share i) ∙ h),
  )

  fill_slots-AreSlots : (i n : ℕ) → AreSlots (fill_slots draws.blank i n)
  unfolding fill_slots
  fill_slots-AreSlots i zero = tt
  fill_slots-AreSlots i (suc n) = (sizes.blank_size i, fill_slots-AreSlots (i + 1) n)

  length-fill_slots : (i n : ℕ) → length (fill_slots draws.blank i n) ≡ n
  unfolding fill_slots
  length-fill_slots i zero = refl
  length-fill_slots i (suc n) = ap suc (length-fill_slots (i + 1) n)

  -- Two slots of twenty bytes, and the author's own are among them.
  pub all_slots_sized :
      (rows : List (List Spec)) (p : Placed)
      → count_rows rows ≤ 2
      → place_rows c draws.salt
          (share_rows draws.row_share draws.root 0 (length rows))
          (some no_slots)
          rows
        ≡ some p
      → AreSlots (all_slots draws p) × (length (all_slots draws p) ≡ 2)
  all_slots_sized rows p few made =
      let g =
        place_rows-WillPlace (share_rows draws.row_share draws.root 0 (length rows)) rows
          (some no_slots) 0 (share_rows-sizes draws.root 0 (length rows) sizes.root_size)
          (λ q e. subst (IsPlaced 0) (some_inj e) (omega arith, tt)) p made in
      let blank = fill_slots draws.blank (length p.slots) (2 - length p.slots) in
      (
        All-append (λ s. length s ≡ 20) p.slots blank g.1
            (fill_slots-AreSlots (length p.slots) (2 - length p.slots)),
        omega (
          arith,
          g.0,
          few,
          length-append p.slots blank,
          length-fill_slots (length p.slots) (2 - length p.slots),
        ),
      )
