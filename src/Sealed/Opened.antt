-- ===== src/Sealed/Opened.antt =====
-- Who opens a sealed post, shared/sealed.mjs.
use lortnoc_tahc.Base.{
  ◌⊎◌, if_either, ℕ, suc, ◌-◌, ◌^◌, ◌≤◌, ◌<◌, ◌≡◌, ◌≢◌, refl, sym, ap, subst, ◌∙◌, Bool, false,
  Option, none, some, some_inj, List, [], ◌∷◌, ◌++◌, if◌then◌else◌, length, leb, length-append,
  zeros, Bytes, Text, arith, inl,
}
use lortnoc_tahc.Policy.Checks.{Spec}
use lortnoc_tahc.Policy.Lists.{contains-take-dedupe}
use lortnoc_tahc.Policy.Shape.{encode_shape}
use lortnoc_tahc.Policy.Seal.{Primitives, PrimitivesLaws}
use lortnoc_tahc.Squeeze.{squeeze_if_smaller}
use lortnoc_tahc.Sealed.Rows.{count_rows, checked_rows, tree_of}
use lortnoc_tahc.Sealed.Post.{
  Draws, Placed, no_slots, share_rows, place_rows, joined, post_ref, good_ref, sealed_cek,
  inner_bytes, body_of, with_ref, with_slots, seal_rows,
}
use lortnoc_tahc.Sealed.Reading.{
  closed, found_shares, held_shares, max_shares, try_masks, read_inner, open_post,
}
use lortnoc_tahc.Sealed.Shares.{AllHeld, root_reached}
use lortnoc_tahc.Sealed.Layout.{frame_of, try_masks_reach, try_masks_any}
use lortnoc_tahc.Sealed.Slots.{SealedLaws, length-joined, all_slots, all_slots_sized}

pub checked_rows_few :
    (normalise : Bytes → Bytes) (o : Option (List (List Spec))) (rows : List (List Spec))
    → checked_rows normalise o ≡ some rows
    → count_rows rows ≤ 2
unfolding checked_rows
checked_rows_few normalise none rows h = absurd cc
checked_rows_few normalise (some found) rows h = ground (arith, h)

good_ref_size : (o : Option Bytes) (ref : Bytes) → good_ref o ≡ some ref → length ref ≡ 8
good_ref_size none ref h = absurd cc
good_ref_size (some r) ref h = ground (arith, h)

module _ (c : Primitives) (laws : PrimitivesLaws c) (draws : Draws)
    (sizes : SealedLaws c draws) where
  post_ref_size :
      (items : List (Spec × Bytes)) (ref : Bytes) → post_ref draws items ≡ some ref → length ref ≡ 8
  unfolding post_ref
  post_ref_size [] ref h = subst (λ r. length r ≡ 8) (some_inj h) sizes.random_ref_size
  post_ref_size (i ∷ is) ref h = good_ref_size (draws.gate_seal (i ∷ is)) ref h

  all_held :
      (found ts : List Bytes)
      → length found ≤ max_shares
      → AllHeld found ts
      → AllHeld (held_shares found) ts
  all_held found [] few h = tt
  all_held found (t ∷ ts) few h =
      (contains-take-dedupe max_shares t found few h.0, all_held found ts few h.1)

  module _ (table : List Text) (keys gate_shares : List Bytes) where
    -- A frame whose plaintext is not empty, with a head of its size, opens to what the plaintext says, to
    -- whoever finds the share of each row and no more than ten.
    pub open_post-frame :
        (rest inner : Bytes) (n : ℕ)
        → length rest ≡ 48
        → 0 < length inner
        → draws.root ≢ zeros 16
        → let frame = frame_of c draws.root draws.salt rest inner in
          length (found_shares c frame keys gate_shares) ≤ max_shares
          → AllHeld
              (found_shares c frame keys gate_shares)
              (share_rows draws.row_share draws.root 0 (suc n))
          → open_post c table frame keys gate_shares ≡ read_inner table inner
    unfolding open_post
    open_post-frame rest inner n rest_size filled root_filled few all =
        let frame = frame_of c draws.root draws.salt rest inner in
        let held = held_shares (found_shares c frame keys gate_shares) in
        let head_size : length (draws.salt ++ rest) ≡ 56 =
          omega (arith, length-append draws.salt rest, sizes.salt_size, rest_size) in
        let long : leb (length frame) 72 ≡ false = ground (
          arith,
          length-append (draws.salt ++ rest)
              (c.siv_seal (sealed_cek c draws.root draws.salt) (draws.salt ++ rest) inner),
          head_size,
          sizes.seal_size (sealed_cek c draws.root draws.salt) (draws.salt ++ rest) inner,
          filled,
        ) in
        let reached =
          root_reached draws.row_share sizes.row_share_size draws.root n held sizes.root_size
            root_filled
            (all_held (found_shares c frame keys gate_shares)
              (share_rows draws.row_share draws.root 0 (suc n)) few all) in
        ap (λ b. if b then closed else try_masks c table frame held 1 (2 ^ length held - 1)) long
        ∙ try_masks_reach c laws table draws.root draws.salt rest inner sizes.salt_size head_size
            held reached.0 1 (2 ^ length held - 1) (omega (arith, reached.1.0))
            (omega (arith, reached.1.1, reached.1.0)) reached.1.2

    pub open_post_any :
        (rest inner : Bytes)
        → length rest ≡ 48
        → let frame = frame_of c draws.root draws.salt rest inner in
          (open_post c table frame keys gate_shares ≡ closed)
          ⊎ (open_post c table frame keys gate_shares ≡ read_inner table inner)
    unfolding open_post
    open_post_any rest inner rest_size =
        let frame = frame_of c draws.root draws.salt rest inner in
        let held = held_shares (found_shares c frame keys gate_shares) in
        let head_size : length (draws.salt ++ rest) ≡ 56 =
          omega (arith, length-append draws.salt rest, sizes.salt_size, rest_size) in
        if_either (λ o. (o ≡ closed) ⊎ (o ≡ read_inner table inner)) (leb (length frame) 72)
          (inl refl)
          (try_masks_any c laws table draws.root draws.salt rest inner sizes.salt_size head_size
            held 1 (2 ^ length held - 1))

  -- A frame whose head is a reference and the slots that were placed.
  abbrev pub Unsealed : List (List Spec) → Bytes → Bytes → Type 0
  Unsealed rows inner frame =
      (ref : Bytes) × (p : Placed) × (length (ref ++ joined (all_slots draws p)) ≡ 48)
      × (frame_of c draws.root draws.salt (ref ++ joined (all_slots draws p)) inner ≡ frame)
      × (length ref ≡ 8)
      × (place_rows c draws.salt (share_rows draws.row_share draws.root 0 (length rows))
            (some no_slots) rows
          ≡ some p)

  -- The frame that `sealPost` gives, where it gives one.
  pub unsealed :
      (table : List Text) (text : Text) (rows : List (List Spec)) (sent : Bytes × Bool)
      (frame : Bytes)
      → squeeze_if_smaller table text ≡ some sent
      → count_rows rows ≤ 2
      → seal_rows c table draws text (some rows) ≡ some frame
      → Unsealed rows (inner_bytes (encode_shape (tree_of rows)) sent) frame
  unfolding seal_rows with_slots with_ref body_of
  unsealed table text rows sent frame squeezed few made =
      from_slots
        (place_rows c draws.salt (share_rows draws.row_share draws.root 0 (length rows))
          (some no_slots) rows)
        refl made
    where
      frame_same :
          (ref : Bytes) (slots : List Bytes)
          → body_of c draws
              (draws.salt ++ (ref ++ joined slots))
              (encode_shape (tree_of rows))
              (some sent)
            ≡ some frame
          → frame_of c draws.root draws.salt
              (ref ++ joined slots)
              (inner_bytes (encode_shape (tree_of rows)) sent)
            ≡ frame
      frame_same ref slots e = some_inj e

      from_ref :
          (p : Placed) (o : Option Bytes)
          → place_rows c draws.salt
              (share_rows draws.row_share draws.root 0 (length rows))
              (some no_slots)
              rows
            ≡ some p
          → post_ref draws p.gate_items ≡ o
          → with_ref c table draws text rows (all_slots draws p) o ≡ some frame
          → Unsealed rows (inner_bytes (encode_shape (tree_of rows)) sent) frame
      from_ref p none placed at e = absurd cc
      from_ref p (some ref) placed at e =
          let sized = all_slots_sized c draws sizes rows p few placed in
          (
            ref,
            p,
            omega (
              arith,
              length-append ref (joined (all_slots draws p)),
              post_ref_size p.gate_items ref at,
              length-joined (all_slots draws p) sized.0,
              sized.1,
            ),
            frame_same ref (all_slots draws p) (
                ap
                  (body_of c draws (draws.salt ++ (ref ++ joined (all_slots draws p)))
                    (encode_shape (tree_of rows)))
                  (sym squeezed)
                ∙ e),
            post_ref_size p.gate_items ref at,
            placed,
          )

      from_slots :
          (o : Option Placed)
          → place_rows c draws.salt
              (share_rows draws.row_share draws.root 0 (length rows))
              (some no_slots)
              rows
            ≡ o
          → with_slots c table draws text rows o ≡ some frame
          → Unsealed rows (inner_bytes (encode_shape (tree_of rows)) sent) frame
      from_slots none placed e = absurd cc
      from_slots (some p) placed e = from_ref p (post_ref draws p.gate_items) placed refl e
