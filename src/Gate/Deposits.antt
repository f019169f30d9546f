-- ===== src/Gate/Deposits.antt =====
-- A share deposited with the gate and its release, gate/core.mjs (`deposit` and `release`).
use lortnoc_tahc.Base.{
  ℕ, ◌<◌, ◌≤◌, ◌≡◌, refl, true, false, ◌&&◌, Option, none, some, is_some, List, [], ◌∷◌, ◌++◌,
  if◌then◌else◌, length, ltb, leb, list_eq, list_eq_self, Bytes, Text, arith, Bool-cases, inl, inr,
}
use lortnoc_tahc.Policy.Checks.{Spec, after_spec, spec_id}
use lortnoc_tahc.Policy.Seal.{Primitives, PrimitivesLaws, share_len}
use lortnoc_tahc.Gate.{Answer, given, is_hex}
use lortnoc_tahc.Gate.Spaces.{Signing}
use lortnoc_tahc.Gate.Sealed.{Box, open_box, release_context, has_unlock}
use lortnoc_tahc.Gate.Unlock.{time_item, store_item_time, open_box-seal_to}
use lortnoc_tahc.Gate.Release.{
  DepositRow, ReleaseDb, Asked, Provers, find_deposit, put_deposit, deposit_checked, deposit,
  give_share, release_check, release_row, release_keyed, release,
}

-- The row of a deposit.
abbrev time_deposit : ℕ → Text → ℕ → Bytes → Text → DepositRow
time_deposit at_time fresh ms share hash = record {
  ref = fresh;
  spec = after_spec ms;
  share = share;
  policy_hash = hash;
  created_at = at_time;
}

find_deposit-last :
    (rows : List DepositRow) (row : DepositRow)
    → is_some (find_deposit rows row.ref) ≡ false
    → find_deposit (rows ++ row ∷ []) row.ref ≡ some row
unfolding find_deposit
find_deposit-last [] row h = rw (list_eq_self row.ref) refl
find_deposit-last (r ∷ rest) row h = elim (Bool-cases (list_eq r.ref row.ref)) [
  | inl same ↦ absurd (taken same h)
  | inr other ↦ rw other (find_deposit-last rest row (rest_free other h))
]
  where
    taken : list_eq r.ref row.ref ≡ true → is_some (find_deposit (r ∷ rest) row.ref) ≡ false → ⊥
    taken same h = let k = rw same at h in cc

    rest_free :
        list_eq r.ref row.ref ≡ false
        → is_some (find_deposit (r ∷ rest) row.ref) ≡ false
        → is_some (find_deposit rest row.ref) ≡ false
    rest_free other h = rw other at h

-- What the reader gets out of the answer with the private key of the request.
abbrev pub read_share : Primitives → Bytes → Answer (Box × Option (Text × Text)) → Option Bytes
read_share c priv (given g) = open_box c priv (c.public_key priv) (some g.0) release_context
read_share c priv _ = none

module _ (c : Primitives) (laws : PrimitivesLaws c) where
  deposit_time :
      (gate_priv e share : Bytes) (ms : ℕ) (size : Spec → ℕ)
      → length share ≡ share_len
      → 0 < ms
      → size (after_spec ms) ≤ 2048
      → (db : ReleaseDb) (at_time : ℕ) (fresh hash : Text) → is_hex 64 hash ≡ true
      → is_some (find_deposit db.deposits fresh) ≡ false
      → (deposit c gate_priv size db at_time fresh (time_item c gate_priv e ms share) hash).0
        ≡ record db { deposits = db.deposits ++ time_deposit at_time fresh ms share hash ∷ [] }
  unfolding deposit deposit_checked put_deposit has_unlock spec_id
  deposit_time gate_priv e share ms size sized positive small db at_time fresh hash hex free =
      let fits : ltb 2048 (size (after_spec ms)) ≡ false = ground arith in
      rw (fits, hex, store_item_time c laws gate_priv e share ms size sized positive small, free)
        refl

  module _ {Proof : Type 0} (signing : Signing) (provers : Provers Proof)
      (draw reader : Bytes) where
    release_time :
        (db : ReleaseDb) (now at_time ms : ℕ) (ref hash : Text) (share : Bytes)
        (asked : Asked Proof)
        → asked.ref ≡ ref
        → asked.reader_pub ≡ some (c.public_key reader)
        → is_hex 16 ref ≡ true
        → find_deposit db.deposits ref ≡ some (time_deposit at_time ref ms share hash)
        → read_share c reader (release signing provers now c draw db asked).1
          ≡ (if list_eq hash asked.policy_hash && leb ms now then some share else none)
    unfolding release release_keyed release_row give_share release_check
    release_time db now at_time ms ref hash share asked same key hex found =
        elim (Bool-cases (list_eq hash asked.policy_hash)) [
          | inl mine ↦ elim (Bool-cases (leb ms now)) [
            | inl passed ↦
                rw
                  (
                    same,
                    key,
                    hex,
                    found,
                    mine,
                    passed,
                    open_box-seal_to c laws draw reader share release_context,
                  )
                  refl
            | inr early ↦ rw (same, key, hex, found, mine, early) refl
          ]
          | inr other ↦ rw (same, key, hex, found, other) refl
        ]

    -- A share that an author deposited under a time is released, under the reference and sealed to the
    -- key of the request, to whoever asks with the hash of the policy it was deposited for, from that
    -- time on, and to nobody else: of an honest key, a reference that was free, a well formed hash, and
    -- parameters within the limit.
    pub deposit_released :
        (gate_priv e share : Bytes) (ms : ℕ) (size : Spec → ℕ)
        → length share ≡ share_len
        → 0 < ms
        → size (after_spec ms) ≤ 2048
        → (db : ReleaseDb) (at_time now : ℕ) (hash : Text) (asked : Asked Proof)
        → is_hex 64 hash ≡ true
        → is_hex 16 asked.ref ≡ true
        → asked.reader_pub ≡ some (c.public_key reader)
        → is_some (find_deposit db.deposits asked.ref) ≡ false
        → read_share c reader
            (release signing provers now c draw
              (deposit c gate_priv size db at_time asked.ref
                (time_item c gate_priv e ms share)
                hash).0
              asked).1
          ≡ (if list_eq hash asked.policy_hash && leb ms now then some share else none)
    deposit_released gate_priv e share ms size sized positive small db at_time now hash asked whole
          hex key free =
        rw
          (deposit_time gate_priv e share ms size sized positive small db at_time asked.ref hash
            whole free)
          (release_time
            (record db {
              deposits = db.deposits ++ time_deposit at_time asked.ref ms share hash ∷ [];
            })
            now at_time ms asked.ref hash share asked refl key hex
            (find_deposit-last db.deposits (time_deposit at_time asked.ref ms share hash) free))
