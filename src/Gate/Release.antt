-- ===== src/Gate/Release.antt =====
-- gate/core.mjs (`deposit` and `release`) and the `gate.release` of each check: one share of a post. The
-- hexadecimal texts of keys, shares and boxes are the bytes they spell. World ID and the holders of an
-- NFT, which the code is given as well, are services; of their own entries in `check_state` nothing is
-- modelled.
use lortnoc_tahc.Base.{
  true, ℕ, Bool, not, ◌&&◌, Option, none, some, is_some, List, [], ◌∷◌, ◌++◌, if◌then◌else◌, length,
  ltb, leb, ◌==◌, list_eq, Bytes, Text,
}
use lortnoc_tahc.Keys.{codes}
use lortnoc_tahc.Policy.Checks.{Preset, Spec, after_spec, human_spec, nft_spec, spec_id, or_poh}
use lortnoc_tahc.Policy.Seal.{Primitives}
use lortnoc_tahc.Gate.{
  Answer, thrown, denied, given, is_hex, no_world, no_holders, banned, unknown_reference,
  other_post, not_yet,
}
use lortnoc_tahc.Gate.Spaces.{Signing, SpaceDb, has_at, admit}
use lortnoc_tahc.Gate.Challenges.{to_lower}
use lortnoc_tahc.Gate.Sealed.{
  Box, seal_to, release_context, Item, StoredItem, has_unlock, store_item,
}
use lortnoc_tahc.Gate.Verdicts.{Ens, banned_in}

pub record DepositRow : Type 0 where
  pub ref : Text
  pub spec : Spec
  pub share : Bytes
  pub policy_hash : Text
  pub created_at : ℕ

-- The nullifier that was seen under a reference, and when.
pub record Mark : Type 0 where
  pub ref : Text
  pub nullifier : Text
  pub seen_at : ℕ

pub record ReleaseDb : Type 0 where
  pub deposits : List DepositRow
  pub marks : List Mark
  pub space_db : SpaceDb

pub record Asked (Proof : Type 0) : Type 0 where
  pub ref : Text
  pub reader_pub : Option Bytes
  pub policy_hash : Text
  pub proof : Proof
  pub member_pub : Option Text

-- `world.verify` for a reference, a reader, a preset and a space, which says the action, and
-- `holders.verify` for a row: a nullifier or an address, or a denial.
pub record Provers (Proof : Type 0) : Type 0 where
  pub world : Option (Proof → Text → Bytes → Preset → Option Text → Answer Text)
  pub holders : Option (DepositRow → Proof → Answer Text)
  pub ens : Option Ens

unfoldable pub find_deposit : List DepositRow → Text → Option DepositRow
find_deposit [] ref = none
find_deposit (r ∷ rest) ref =
    let later = find_deposit rest ref in if list_eq r.ref ref then some r else later

-- `INSERT OR REPLACE`
unfoldable pub put_mark : List Mark → Mark → List Mark
put_mark [] new = new ∷ []
put_mark (m ∷ rest) new =
    let later = put_mark rest new in
    if list_eq m.ref new.ref && list_eq m.nullifier new.nullifier then new ∷ rest else m ∷ later

module _ (c : Primitives) (gate_priv : Bytes) (params_size : Spec → ℕ) where
  unfoldable pub put_deposit :
      ReleaseDb → ℕ → Text → Text → Answer StoredItem → ReleaseDb × Answer Text
  put_deposit db now fresh hash (thrown n) = (db, thrown n)
  put_deposit db now fresh hash (denied d) = (db, denied d)
  put_deposit db now fresh hash (given item) =
      let row : DepositRow = record {
        ref = fresh;
        spec = item.spec;
        share = item.share;
        policy_hash = hash;
        created_at = now;
      } in
      if is_some (find_deposit db.deposits fresh)
      then (db, thrown 500)
      else (record db { deposits = db.deposits ++ row ∷ [] }, given fresh)

  -- The size of the parameters is looked at before the hash of the policy, and both throw 400.
  unfoldable pub deposit_checked :
      ReleaseDb → ℕ → Text → Option Spec → Option Box → Text → ReleaseDb × Answer Text
  unfolding put_deposit
  deposit_checked db now fresh none box hash = (db, thrown 400)
  deposit_checked db now fresh (some spec) box hash =
      if not (has_unlock (spec_id spec))
      then (db, thrown 400)
      else if ltb 2048 (params_size spec)
      then (db, thrown 400)
      else if not (is_hex 64 hash)
      then (db, thrown 400)
      else put_deposit db now fresh hash (store_item c gate_priv params_size (some spec) box)

  -- `deposit`: after the hash come the same tests of an item as in `seal`.
  unfoldable pub deposit : ReleaseDb → ℕ → Text → Item → Text → ReleaseDb × Answer Text
  unfolding deposit_checked
  deposit db now fresh item hash = deposit_checked db now fresh item.spec item.box hash

module _ {Proof : Type 0} (signing : Signing) (provers : Provers Proof) (now : ℕ) where
  abbrev pub Passed : Type 0
  Passed = ReleaseDb × Answer (Option (Text × Text))

  -- What follows the answer of `admit`.
  unfoldable pub let_in : ReleaseDb → Text → Bool → SpaceDb × Answer Text → Passed
  let_in db space asks_ens (spaces, thrown n) = (record db { space_db = spaces }, thrown n)
  let_in db space asks_ens (spaces, denied d) = (record db { space_db = spaces }, denied d)
  let_in db space asks_ens (spaces, given id) = (
    record db { space_db = spaces },
    if asks_ens && banned_in provers.ens space id then denied banned else given (some (space, id)),
  )

  unfoldable pub release_human : ReleaseDb → Text → Option Text → Option Text → Answer Text → Passed
  unfolding let_in put_mark
  release_human db ref space member (thrown n) = (db, thrown n)
  release_human db ref space member (denied d) = (db, denied d)
  release_human db ref none member (given nullifier) = (
    record db {
      marks = put_mark db.marks (record { ref = ref; nullifier = nullifier; seen_at = now });
    },
    given none,
  )
  release_human db ref (some space) member (given nullifier) =
      let seen : ReleaseDb = record db {
        marks = put_mark db.marks (record { ref = ref; nullifier = nullifier; seen_at = now });
      } in
      if length space == 0
      then (seen, given none)
      else let_in seen space (has_at space) (admit signing db.space_db now space nullifier member)

  unfoldable pub release_nft : ReleaseDb → Text → Option Text → Answer Text → Passed
  unfolding let_in
  release_nft db space member (thrown n) = (db, thrown n)
  release_nft db space member (denied d) = (db, denied d)
  release_nft db space member (given address) =
      let_in db space true
        (admit signing db.space_db now space (codes "wallet:" ++ to_lower address) member)

  abbrev pub by_world :
      Option (Proof → Text → Bytes → Preset → Option Text → Answer Text)
      → Proof
      → Text
      → Bytes
      → Preset
      → Option Text
      → Answer Text
  by_world none proof ref reader preset space = denied no_world
  by_world (some verify) proof ref reader preset space = verify proof ref reader preset space

  abbrev pub by_holders :
      Option (DepositRow → Proof → Answer Text) → DepositRow → Proof → Answer Text
  by_holders none row proof = denied no_holders
  by_holders (some verify) row proof = verify row proof

  -- `gate.release` of a check, on the row that was stored.
  unfoldable pub release_check :
      ReleaseDb → DepositRow → Bytes → Proof → Option Text → Spec → Passed
  unfolding release_human release_nft
  release_check db row reader proof member (after_spec ms) =
      (db, if leb ms now then given none else denied (not_yet ms))
  release_check db row reader proof member (human_spec preset space country) =
      release_human db row.ref space member
        (by_world provers.world proof row.ref reader (or_poh preset) space)
  release_check db row reader proof member (nft_spec space) =
      release_nft db space member (by_holders provers.holders row proof)
  release_check db row reader proof member _ = (db, thrown 500)

  module _ (c : Primitives) (ephemeral : Bytes) where
    unfoldable pub give_share :
        Bytes → Bytes → Passed → ReleaseDb × Answer (Box × Option (Text × Text))
    give_share reader share (db, thrown n) = (db, thrown n)
    give_share reader share (db, denied d) = (db, denied d)
    give_share reader share (db, given member) =
        (db, given (seal_to c ephemeral reader share release_context, member))

    unfoldable pub release_row :
        ReleaseDb
        → Asked Proof
        → Bytes
        → Option DepositRow
        → ReleaseDb × Answer (Box × Option (Text × Text))
    unfolding give_share release_check
    release_row db asked reader none = (db, denied unknown_reference)
    release_row db asked reader (some row) =
        if not (list_eq row.policy_hash asked.policy_hash)
        then (db, denied other_post)
        else give_share reader row.share
            (release_check db row reader asked.proof asked.member_pub row.spec)

    unfoldable pub release_keyed :
        ReleaseDb → Asked Proof → Option Bytes → ReleaseDb × Answer (Box × Option (Text × Text))
    unfolding release_row
    release_keyed db asked none = (db, thrown 400)
    release_keyed db asked (some reader) =
        release_row db asked reader (find_deposit db.deposits asked.ref)

    -- `release`
    unfoldable pub release :
        ReleaseDb → Asked Proof → ReleaseDb × Answer (Box × Option (Text × Text))
    unfolding release_keyed
    release db asked =
        if not (is_hex 16 asked.ref)
        then (db, thrown 400)
        else release_keyed db asked asked.reader_pub
