-- ===== src/Gate/Unlock.antt =====
-- What a post sealed with the gate gives to a reader, gate/core.mjs (`seal` and `unlock`).
use lortnoc_tahc.Base.{
  ℕ, ◌<◌, ◌≤◌, ◌≡◌, refl, true, false, Option, some, List, [], ◌∷◌, ◌++◌, if◌then◌else◌, length,
  ltb, leb, ◌==◌, list_eq, list_eq_self, Bytes, Text, map, arith, Bool-cases, inl, inr, is_some,
}
use lortnoc_tahc.Keys.Laws.{derive_conv_key_agree}
use lortnoc_tahc.Policy.Checks.{Spec, after_spec, valid_spec, spec_id}
use lortnoc_tahc.Policy.Seal.{Primitives, PrimitivesLaws, share_len}
use lortnoc_tahc.Gate.{Answer, given, is_hex}
use lortnoc_tahc.Gate.Spaces.{Signing, SpaceDb}
use lortnoc_tahc.Gate.Keyring.{Claims, claims_of, union}
use lortnoc_tahc.Gate.Sealed.{
  seal_to, open_box, deposit_context, release_context, Item, StoredItem, SealedRow, GateDb,
  find_sealed, has_unlock, store_share, store_item, store_items, put_sealed, seal,
}
use lortnoc_tahc.Gate.Verdicts.{
  Services, unlock_check, unlock_items, Result, seal_shares, add_result, unlock_refs, wanted,
  unlock,
}

abbrev pub time_stored : ℕ → Bytes → StoredItem
time_stored ms share = record { spec = after_spec ms; share = share }

-- The row of a sealed post.
abbrev time_row : ℕ → Text → ℕ → Bytes → SealedRow
time_row at_time fresh ms share = record {
  ref = fresh;
  items = time_stored ms share ∷ [];
  created_at = at_time;
}

module _ (c : Primitives) where
  -- The item of an author who seals the share of a time lock to the gate.
  abbrev pub time_item : Bytes → Bytes → ℕ → Bytes → Item
  time_item gate_priv e ms share = record {
    spec = some (after_spec ms);
    box = some (seal_to c e (c.public_key gate_priv) share deposit_context);
  }

  -- What a reader sees of an answer with the private key of their request.
  abbrev pub view_result : Bytes → Result → Text × List (Option Bytes)
  view_result priv r =
      (r.ref, map (λ b. open_box c priv (c.public_key priv) (some b) release_context) r.boxes)

  abbrev pub view : Bytes → Answer (List Result) → List (Text × List (Option Bytes))
  view priv (given rs) = map (view_result priv) rs
  view priv _ = []

module _ (c : Primitives) (laws : PrimitivesLaws c) where
  -- A box opens to its bytes with the key that it was sealed to, under the same context.
  pub open_box-seal_to :
      (e priv m context : Bytes)
      → open_box c priv
          (c.public_key priv)
          (some (seal_to c e (c.public_key priv) m context))
          context
        ≡ some m
  unfolding open_box seal_to
  open_box-seal_to e priv m context =
      rw (derive_conv_key_agree c.curve laws.curve_laws e priv) (laws.opens _ context m)

  pub store_item_time :
      (gate_priv e share : Bytes) (ms : ℕ) (size : Spec → ℕ)
      → length share ≡ share_len
      → 0 < ms
      → size (after_spec ms) ≤ 2048
      → store_item c gate_priv size
          (time_item c gate_priv e ms share).spec
          (time_item c gate_priv e ms share).box
        ≡ given (time_stored ms share)
  unfolding store_item store_share valid_spec has_unlock spec_id
  store_item_time gate_priv e share ms size sized later small =
      let fits : ltb 2048 (size (after_spec ms)) ≡ false = ground arith in
      let good : ltb 0 ms ≡ true = ground arith in
      let whole : (length share == 16) ≡ true = ground (arith, sized) in
      rw (fits, good, open_box-seal_to e gate_priv share deposit_context, whole) refl

  find_sealed-last :
      (rows : List SealedRow) (row : SealedRow)
      → is_some (find_sealed rows row.ref) ≡ false
      → find_sealed (rows ++ row ∷ []) row.ref ≡ some row
  unfolding find_sealed
  find_sealed-last [] row h = rw (list_eq_self row.ref) refl
  find_sealed-last (r ∷ rest) row h = elim (Bool-cases (list_eq r.ref row.ref)) [
    | inl same ↦ absurd (taken same h)
    | inr other ↦ rw other (find_sealed-last rest row (rest_free other h))
  ]
    where
      taken : list_eq r.ref row.ref ≡ true → is_some (find_sealed (r ∷ rest) row.ref) ≡ false → ⊥
      taken same h = let k = rw same at h in cc

      rest_free :
          list_eq r.ref row.ref ≡ false
          → is_some (find_sealed (r ∷ rest) row.ref) ≡ false
          → is_some (find_sealed rest row.ref) ≡ false
      rest_free other h = rw other at h

  seal_time :
      (gate_priv e share : Bytes) (ms : ℕ) (size : Spec → ℕ)
      → length share ≡ share_len
      → 0 < ms
      → size (after_spec ms) ≤ 2048
      → (db : GateDb) (at_time : ℕ) (fresh : Text) → is_some (find_sealed db.sealed fresh) ≡ false
      → (seal c gate_priv size db at_time fresh (time_item c gate_priv e ms share ∷ [])).0
        ≡ record db { sealed = db.sealed ++ time_row at_time fresh ms share ∷ [] }
  unfolding seal store_items put_sealed
  seal_time gate_priv e share ms size sized later small db at_time fresh free =
      rw (store_item_time gate_priv e share ms size sized later small, free) refl

  wanted_one : (ref : Text) → is_hex 16 ref ≡ true → wanted (ref ∷ []) ≡ ref ∷ []
  unfolding union
  wanted_one ref h = rw h refl

  module _ (signing : Signing) (hash : Text → Text) (services : Services) (draw : Text → ℕ → Bytes)
      (member : Option Text) (token : Option Text) (reader : Bytes) where
    view_items :
        (rows : List SealedRow) (claims : Claims) (sd : SpaceDb) (ms now : ℕ) (share : Bytes)
        (ref : Text) (row : SealedRow)
        → find_sealed rows ref ≡ some row
        → row.items ≡ time_stored ms share ∷ []
        → map
            (view_result c reader)
            (unlock_refs c draw
              (c.public_key reader)
              signing
              services
              now
              member
              rows
              claims
              sd
              (ref ∷ [])).1
          ≡ (if leb ms now then (ref, some share ∷ []) ∷ [] else [])
    unfolding unlock_refs unlock_items unlock_check add_result seal_shares
    view_items rows claims sd ms now share ref row found items = elim (Bool-cases (leb ms now)) [
      | inl passed ↦
          rw (found, items, passed, open_box-seal_to (draw ref 0) reader share release_context) refl
      | inr early ↦ rw (found, items, early) refl
    ]

    -- A share that an author sealed to the gate under a time is given to whoever asks for the post's
    -- reference, sealed to them, from that time on, and to nobody before: of an honest key, a
    -- reference that was free, and parameters within the limit.
    pub time_lock :
        (gate_priv e share : Bytes) (ms : ℕ) (size : Spec → ℕ)
        → length share ≡ share_len
        → 0 < ms
        → size (after_spec ms) ≤ 2048
        → (db : GateDb) (at_time now : ℕ) (ref : Text) → is_hex 16 ref ≡ true
        → is_some (find_sealed db.sealed ref) ≡ false
        → view c reader
            (unlock c signing hash services draw
              (seal c gate_priv size db at_time ref (time_item c gate_priv e ms share ∷ [])).0
              now
              token
              (some (c.public_key reader))
              (ref ∷ [])
              member).1
          ≡ (if leb ms now then (ref, some share ∷ []) ∷ [] else [])
    unfolding unlock
    time_lock gate_priv e share ms size sized positive small db at_time now ref hex free =
        rw
          (
            seal_time gate_priv e share ms size sized positive small db at_time ref free,
            wanted_one ref hex,
          )
          (view_items (db.sealed ++ time_row at_time ref ms share ∷ [])
            (claims_of hash db.keyring now token) db.space_db ms now share ref
            (time_row at_time ref ms share)
            (find_sealed-last db.sealed (time_row at_time ref ms share) free) refl)
