-- ===== src/Gate/Sealed.antt =====
-- gate/core.mjs (`seal`) and shared/gatebox.mjs: posts sealed with the gate. A hexadecimal key, share or
-- box is the bytes it spells, `none` where it spells none; parameters are those that a check of their name
-- can have.
use lortnoc_tahc.Base.{
  ℕ, Bool, true, false, not, Option, none, some, is_some, List, [], ◌∷◌, ◌++◌, if◌then◌else◌,
  length, ltb, ◌==◌, between, list_eq, Bytes, Text,
}
use lortnoc_tahc.Keys.{codes, derive_conv_key}
use lortnoc_tahc.Policy.Checks.{CheckId, after, human, nft, Spec, spec_id, valid_spec}
use lortnoc_tahc.Policy.Seal.{Primitives, share_len}
use lortnoc_tahc.Gate.{Answer, thrown, denied, given}
use lortnoc_tahc.Gate.Spaces.{SpaceDb}
use lortnoc_tahc.Gate.Keyring.{KeyringDb}

pub record Box : Type 0 where
  pub eph : Bytes
  pub ct : Bytes

-- `CTX`
abbrev pub deposit_context : Bytes
deposit_context = codes "lortnoc/gate/deposit/v1"

abbrev pub release_context : Bytes
release_context = codes "lortnoc/gate/release/v1"

module _ (c : Primitives) where
  -- `sealTo`, over the ephemeral private key drawn, and `openBox`.
  unfoldable pub seal_to : Bytes → Bytes → Bytes → Bytes → Box
  seal_to ephemeral recipient bytes context =
      let pub_key = c.public_key ephemeral in
      record {
        eph = pub_key;
        ct = c.siv_seal (derive_conv_key c.curve ephemeral recipient pub_key) context bytes;
      }

  unfoldable pub open_box : Bytes → Bytes → Option Box → Bytes → Option Bytes
  open_box my_priv my_pub none context = none
  open_box my_priv my_pub (some box) context =
      c.siv_open (derive_conv_key c.curve my_priv box.eph my_pub) context box.ct

-- `{ check, params, box }` as the author sends it: `spec` is `none` for an unknown check.
pub record Item : Type 0 where
  pub spec : Option Spec
  pub box : Option Box

pub record StoredItem : Type 0 where
  pub spec : Spec
  pub share : Bytes

pub record SealedRow : Type 0 where
  pub ref : Text
  pub items : List StoredItem
  pub created_at : ℕ

pub record GateDb : Type 0 where
  pub sealed : List SealedRow
  pub space_db : SpaceDb
  pub keyring : KeyringDb

unfoldable pub find_sealed : List SealedRow → Text → Option SealedRow
find_sealed [] ref = none
find_sealed (r ∷ rest) ref =
    let later = find_sealed rest ref in if list_eq r.ref ref then some r else later

unfoldable pub has_unlock : CheckId → Bool
has_unlock after = true
has_unlock human = true
has_unlock nft = true
has_unlock _ = false

-- `(m.kind === 'attested' && ...)` down to the share, of one item. `params_size` is the length of the
-- parameters as JSON.
module _ (c : Primitives) (gate_priv : Bytes) (params_size : Spec → ℕ) where
  unfoldable pub store_share : Spec → Option Bytes → Answer StoredItem
  store_share spec none = thrown 400
  store_share spec (some share) =
      if not (length share == share_len)
      then thrown 400
      else given (record { spec = spec; share = share })

  unfoldable pub store_item : Option Spec → Option Box → Answer StoredItem
  unfolding store_share
  store_item none box = thrown 400
  store_item (some spec) box =
      if not (has_unlock (spec_id spec))
      then thrown 400
      else if ltb 2048 (params_size spec)
      then thrown 400
      else if not (valid_spec c.normalise spec)
      then thrown 500
      else store_share spec (open_box c gate_priv (c.public_key gate_priv) box deposit_context)

  abbrev pub and_stored : Answer StoredItem → Answer (List StoredItem) → Answer (List StoredItem)
  and_stored (thrown n) later = thrown n
  and_stored (denied d) later = denied d
  and_stored (given i) (thrown n) = thrown n
  and_stored (given i) (denied d) = denied d
  and_stored (given i) (given is) = given (i ∷ is)

  unfoldable pub store_items : List Item → Answer (List StoredItem)
  unfolding store_item
  store_items [] = given []
  store_items (i ∷ is) = and_stored (store_item i.spec i.box) (store_items is)

  -- The row for the reference drawn: a key of the table that is taken makes the statement throw.
  unfoldable pub put_sealed : GateDb → ℕ → Text → Answer (List StoredItem) → GateDb × Answer Text
  put_sealed db now fresh (thrown n) = (db, thrown n)
  put_sealed db now fresh (denied d) = (db, denied d)
  put_sealed db now fresh (given items) =
      let row : SealedRow = record { ref = fresh; items = items; created_at = now } in
      if is_some (find_sealed db.sealed fresh)
      then (db, thrown 500)
      else (record db { sealed = db.sealed ++ row ∷ [] }, given fresh)

  -- `seal`
  unfoldable pub seal : GateDb → ℕ → Text → List Item → GateDb × Answer Text
  unfolding put_sealed store_items
  seal db now fresh items =
      if not (between 1 6 (length items))
      then (db, thrown 400)
      else put_sealed db now fresh (store_items items)
