-- ===== src/Sealed/RoundTrip.antt =====
-- A sealed post from its author to a reader, shared/sealed.mjs.
use lortnoc_tahc.Base.{
  ◌⊎◌, suc, ◌≤◌, ◌<◌, ◌≡◌, ◌≢◌, sym, ap, subst, ◌∙◌, Option, none, some, List, [], ◌∷◌, ◌++◌, true,
  length, zeros, Bytes, Text, All, arith,
}
use lortnoc_tahc.Policy.{Tree, tree_map}
use lortnoc_tahc.Policy.Checks.{Spec}
use lortnoc_tahc.Policy.CheckLaws.{public_part}
use lortnoc_tahc.Policy.Rules.{validate, inner_fault}
use lortnoc_tahc.Policy.Shape.{encode_shape}
use lortnoc_tahc.Policy.Seal.{Primitives, PrimitivesLaws}
use lortnoc_tahc.Squeeze.Characters.{IsPlain}
use lortnoc_tahc.Squeeze.Entries.{IsTable}
use lortnoc_tahc.Squeeze.RoundTrip.{unsqueeze_maybe-squeeze_if_smaller}
use lortnoc_tahc.Sealed.Rows.{checked_rows, all_rows, to_rows, tree_of}
use lortnoc_tahc.Sealed.Provided.{provided, found_shares-provided}
use lortnoc_tahc.Sealed.Post.{joined, Draws, share_rows, inner_bytes, seal_rows, seal_post}
use lortnoc_tahc.Sealed.Reading.{closed, opened, found_shares, max_shares, open_post}
use lortnoc_tahc.Sealed.Shares.{AllHeld}
use lortnoc_tahc.Sealed.Layout.{frame_of, read_inner-inner_bytes}
use lortnoc_tahc.Sealed.Slots.{SealedLaws, all_slots}
use lortnoc_tahc.Sealed.Opened.{checked_rows_few, open_post-frame, open_post_any, unsealed}

module _ (c : Primitives) (laws : PrimitivesLaws c) (draws : Draws) (sizes : SealedLaws c draws)
    (table : List Text) (filled : IsTable table) (text : Text) (plain : All IsPlain text) where
  opens_rows :
      (rows : List (List Spec)) (frame : Bytes) (keys gate_shares : List Bytes)
      (o : Option (List (List Spec)))
      → checked_rows c.normalise o ≡ some rows
      → seal_rows c table draws text (some rows) ≡ some frame
      → validate c.normalise (tree_of rows) 0 ≡ none
      → length (encode_shape (tree_of rows)) < 65536
      → draws.root ≢ zeros 16
      → length (found_shares c frame keys gate_shares) ≤ max_shares
      → AllHeld
          (found_shares c frame keys gate_shares)
          (share_rows draws.row_share draws.root 0 (length rows))
      → open_post c table frame keys gate_shares
        ≡ opened (some text) (tree_map public_part (tree_of rows))
  unfolding validate tree_of inner_fault inner_bytes
  opens_rows [] frame keys gate_shares o checked made ok small root_filled few all = absurd cc
  opens_rows (row ∷ more) frame keys gate_shares o checked made ok small root_filled few all =
      let rows = row ∷ more in
      let sent = unsqueeze_maybe-squeeze_if_smaller table filled text plain in
      let inner = inner_bytes (encode_shape (tree_of rows)) sent.0 in
      let post =
        unsealed c laws draws sizes table text rows sent.0 frame sent.1
          (checked_rows_few c.normalise o rows checked) made in
      subst
        (λ f.
          open_post c table f keys gate_shares
          ≡ opened (some text) (tree_map public_part (tree_of rows)))
        post.3
        (open_post-frame c laws draws sizes table keys gate_shares
            (post.0 ++ joined (all_slots draws post.1)) inner (length more) post.2 (omega arith)
            root_filled
            (subst (λ f. length (found_shares c f keys gate_shares) ≤ max_shares) (sym post.3) few)
            (subst
              (λ f.
                AllHeld (found_shares c f keys gate_shares)
                  (share_rows draws.row_share draws.root 0 (suc (length more))))
              (sym post.3) all)
          ∙ read_inner-inner_bytes c.normalise table (tree_of rows) sent.0 text ok small sent.2)

  -- Whoever has a key of each row, or its share from the gate, finds the shares of all rows.
  all_provided :
      (rows : List (List Spec)) (frame : Bytes) (keys gate_shares : List Bytes)
      (o : Option (List (List Spec)))
      → checked_rows c.normalise o ≡ some rows
      → seal_rows c table draws text (some rows) ≡ some frame
      → provided c keys gate_shares rows (share_rows draws.row_share draws.root 0 (length rows))
        ≡ true
      → AllHeld
          (found_shares c frame keys gate_shares)
          (share_rows draws.row_share draws.root 0 (length rows))
  all_provided rows frame keys gate_shares o checked made h =
      let sent = unsqueeze_maybe-squeeze_if_smaller table filled text plain in
      let inner = inner_bytes (encode_shape (tree_of rows)) sent.0 in
      let few = checked_rows_few c.normalise o rows checked in
      let post = unsealed c laws draws sizes table text rows sent.0 frame sent.1 few made in
      subst
        (λ f.
          AllHeld (found_shares c f keys gate_shares)
            (share_rows draws.row_share draws.root 0 (length rows)))
        post.3
        (found_shares-provided c draws sizes keys gate_shares draws.root post.0 inner rows post.1
          few post.4 post.5 h)

  -- A sealed post opens to its text, with the public part of its rules, for whoever has, for each row, the
  -- key of a passphrase of the row, or the share of the row from the gate, or nothing where the row is open
  -- to all; no more than ten shares may come out of the reader's keys and the gate. The rules are of
  -- the form that is sealed, and as a tree `validate` accepts them; the text consists of characters of the
  -- basic plane without the byte order mark; the random source gives the sizes asked for and a root that is
  -- not all zeros; the cryptography keeps its documented laws.
  pub open_post-seal_post :
      (policy : Tree Spec) (rows : List (List Spec)) (frame : Bytes) (keys gate_shares : List Bytes)
      → to_rows c.normalise policy ≡ some rows
      → seal_post c table draws text policy ≡ some frame
      → validate c.normalise (tree_of rows) 0 ≡ none
      → length (encode_shape (tree_of rows)) < 65536
      → draws.root ≢ zeros 16
      → length (found_shares c frame keys gate_shares) ≤ max_shares
      → provided c keys gate_shares rows (share_rows draws.row_share draws.root 0 (length rows))
        ≡ true
      → open_post c table frame keys gate_shares
        ≡ opened (some text) (tree_map public_part (tree_of rows))
  unfolding seal_post to_rows
  open_post-seal_post policy rows frame keys gate_shares rowed made ok small filled_root few has =
      let sealed : seal_rows c table draws text (some rows) ≡ some frame =
        ap (seal_rows c table draws text) (sym rowed) ∙ made in
      opens_rows rows frame keys gate_shares (all_rows policy) rowed sealed ok small filled_root few
        (all_provided rows frame keys gate_shares (all_rows policy) rowed sealed has)

  only_rows :
      (rows : List (List Spec)) (frame : Bytes) (keys gate_shares : List Bytes)
      (o : Option (List (List Spec)))
      → checked_rows c.normalise o ≡ some rows
      → seal_rows c table draws text (some rows) ≡ some frame
      → validate c.normalise (tree_of rows) 0 ≡ none
      → length (encode_shape (tree_of rows)) < 65536
      → (open_post c table frame keys gate_shares ≡ closed)
        ⊎ (open_post c table frame keys gate_shares
            ≡ opened (some text) (tree_map public_part (tree_of rows)))
  only_rows rows frame keys gate_shares o checked made ok small =
      let sent = unsqueeze_maybe-squeeze_if_smaller table filled text plain in
      let inner = inner_bytes (encode_shape (tree_of rows)) sent.0 in
      let post =
        unsealed c laws draws sizes table text rows sent.0 frame sent.1
          (checked_rows_few c.normalise o rows checked) made in
      subst
        (λ f.
          (open_post c table f keys gate_shares ≡ closed)
          ⊎ (open_post c table f keys gate_shares
              ≡ opened (some text) (tree_map public_part (tree_of rows))))
        post.3
        (subst
          (λ x.
            let f =
              frame_of c draws.root draws.salt (post.0 ++ joined (all_slots draws post.1)) inner in
            (open_post c table f keys gate_shares ≡ closed)
            ⊎ (open_post c table f keys gate_shares ≡ x))
          (read_inner-inner_bytes c.normalise table (tree_of rows) sent.0 text ok small sent.2)
          (open_post_any c laws draws sizes table keys gate_shares
            (post.0 ++ joined (all_slots draws post.1)) inner post.2))

  -- Whatever keys and shares a reader tries on a sealed post, they get nothing, or the text that was sealed
  -- with the public part of its rules. The rules are of the form that is sealed, and as a tree `validate`
  -- accepts them; the text consists of characters of the basic plane without the byte order mark; the
  -- random source gives the sizes asked for; the cryptography keeps its documented laws.
  pub open_post_only :
      (policy : Tree Spec) (rows : List (List Spec)) (frame : Bytes) (keys gate_shares : List Bytes)
      → to_rows c.normalise policy ≡ some rows
      → seal_post c table draws text policy ≡ some frame
      → validate c.normalise (tree_of rows) 0 ≡ none
      → length (encode_shape (tree_of rows)) < 65536
      → (open_post c table frame keys gate_shares ≡ closed)
        ⊎ (open_post c table frame keys gate_shares
            ≡ opened (some text) (tree_map public_part (tree_of rows)))
  unfolding seal_post to_rows
  open_post_only policy rows frame keys gate_shares rowed made =
      only_rows rows frame keys gate_shares (all_rows policy) rowed
        (ap (seal_rows c table draws text) (sym rowed) ∙ made)
