-- ===== src/Gate/Verdicts.antt =====
-- gate/core.mjs (`unlock`) and the `gate.unlock` of each check: what a reader's claims open. ENS and the
-- chains are services, of which what they answer during one request is a function, and `draw` gives the
-- ephemeral key of each box.
use lortnoc_tahc.Base.{
  ℕ, ◌+◌, Bool, true, false, not, ◌&&◌, Option, none, some, is_some, List, [], ◌∷◌, ◌++◌,
  if◌then◌else◌, length, leb, ◌==◌, list_eq, take, keep, Bytes, Text,
}
use lortnoc_tahc.Keys.{codes}
use lortnoc_tahc.Policy.Checks.{
  Preset, poh, selfie, identity, Spec, after_spec, human_spec, nft_spec, or_poh,
}
use lortnoc_tahc.Policy.Seal.{Primitives}
use lortnoc_tahc.Gate.{Answer, thrown, given, is_hex}
use lortnoc_tahc.Gate.Spaces.{Signing, SpaceDb, find_space, has_at, admit}
use lortnoc_tahc.Gate.Keyring.{Claims, claims_of, union}
use lortnoc_tahc.Gate.Challenges.{to_lower}
use lortnoc_tahc.Gate.Sealed.{
  StoredItem, SealedRow, GateDb, Box, seal_to, find_sealed, release_context,
}

pub record Ens : Type 0 where
  pub exists_space : Text → Bool
  pub bans : Text → Text → Bool

pub record Services : Type 0 where
  pub ens : Option Ens
  -- `holds(space, address)`, false where it fails
  pub holders : Option (Text → Text → Bool)

-- `v` of one check: `none` is false, and a member is named if the check is about a space.
abbrev pub Verdict : Type 0
Verdict = Option (Option (Text × Text))

abbrev pub exists_in : Option Ens → Text → Bool
exists_in none space = false
exists_in (some ens) space = ens.exists_space space

abbrev pub banned_in : Option Ens → Text → Text → Bool
banned_in none space id = false
banned_in (some ens) space id = ens.bans space id

abbrev pub get_nationality : List (Text × Text) → Text → Option Text
get_nationality [] country = none
get_nationality ((k, v) ∷ rest) country =
    let later = get_nationality rest country in if list_eq k country then some v else later

unfoldable pub nullifier_for : Claims → Preset → Text → Option Text
nullifier_for claims poh country = claims.poh_nullifier
nullifier_for claims selfie country = claims.selfie_nullifier
nullifier_for claims identity country = get_nationality claims.nationalities country

module _ (signing : Signing) (services : Services) (now : ℕ) (member_pub : Option Text) where
  -- What follows the answer of `admit`.
  unfoldable pub admitted : Text → Bool → SpaceDb × Answer Text → SpaceDb × Verdict
  admitted space asks_ens (db, given id) =
      if asks_ens && banned_in services.ens space id
      then (db, none)
      else (db, some (some (space, id)))
  admitted space asks_ens (db, _) = (db, none)

  unfoldable pub unlock_human : SpaceDb → Option Text → Option Text → SpaceDb × Verdict
  unfolding admitted
  unlock_human db none space = (db, none)
  unlock_human db (some n) none = if length n == 0 then (db, none) else (db, some none)
  unlock_human db (some n) (some space) =
      let known =
        if has_at space
        then exists_in services.ens space
        else is_some (find_space db.spaces space) in
      if length n == 0
      then (db, none)
      else if length space == 0
      then (db, some none)
      else if not known
      then (db, none)
      else admitted space (has_at space) (admit signing db now space n member_pub)

  abbrev pub or_next : SpaceDb × Verdict → (SpaceDb → SpaceDb × Verdict) → SpaceDb × Verdict
  or_next (db, none) next = next db
  or_next (db, some v) next = (db, some v)

  -- The loop over the wallets, with what `holds` answers.
  unfoldable pub unlock_wallets :
      (Text → Text → Bool) → Text → SpaceDb → List Text → SpaceDb × Verdict
  unfolding admitted
  unlock_wallets holds space db [] = (db, none)
  unlock_wallets holds space db (address ∷ rest) =
      or_next
        (if not (holds space address)
          then (db, none)
          else admitted space true
              (admit signing db now space (codes "wallet:" ++ to_lower address) member_pub))
        (λ next. unlock_wallets holds space next rest)

  unfoldable pub unlock_nft :
      SpaceDb → Claims → Text → Option (Text → Text → Bool) → SpaceDb × Verdict
  unfolding unlock_wallets
  unlock_nft db claims space none = (db, none)
  unlock_nft db claims space (some holds) = unlock_wallets holds space db claims.wallets

  -- `gate.unlock` of a check.
  unfoldable pub unlock_check : SpaceDb → Claims → Spec → SpaceDb × Verdict
  unfolding unlock_human unlock_nft
  unlock_check db claims (after_spec ms) = (db, if leb ms now then some none else none)
  unlock_check db claims (human_spec preset space country) =
      unlock_human db (nullifier_for claims (or_poh preset) country) space
  unlock_check db claims (nft_spec space) = unlock_nft db claims space services.holders
  unlock_check db claims _ = (db, none)

  -- What one post gives: the shares of the checks that pass, in their order, and the members.
  abbrev pub Opened : Type 0
  Opened = List Bytes × List (Text × Text)

  abbrev pub with_verdict : StoredItem → Verdict → Opened → Opened
  with_verdict i none later = later
  with_verdict i (some none) later = (i.share ∷ later.0, later.1)
  with_verdict i (some (some m)) later = (i.share ∷ later.0, m ∷ later.1)

  unfoldable pub unlock_items : SpaceDb → Claims → List StoredItem → SpaceDb × Opened
  unfolding unlock_check
  unlock_items db claims [] = (db, ([], []))
  unlock_items db claims (i ∷ is) =
      let v = unlock_check db claims i.spec in
      let later = unlock_items v.0 claims is in (later.0, with_verdict i v.1 later.1)

pub record Result : Type 0 where
  pub ref : Text
  pub boxes : List Box
  pub members : List (Text × Text)

module _ (c : Primitives) (draw : Text → ℕ → Bytes) (reader : Bytes) where
  unfoldable pub seal_shares : Text → ℕ → List Bytes → List Box
  seal_shares ref i [] = []
  seal_shares ref i (s ∷ ss) =
      seal_to c (draw ref i) reader s release_context ∷ seal_shares ref (i + 1) ss

  unfoldable pub add_result : Text → List Bytes × List (Text × Text) → List Result → List Result
  unfolding seal_shares
  add_result ref ([], members) later = later
  add_result ref (s ∷ ss, members) later =
      record { ref = ref; boxes = seal_shares ref 0 (s ∷ ss); members = members } ∷ later

  abbrev pub row_items : Option SealedRow → List StoredItem
  row_items none = []
  row_items (some r) = r.items

  -- The loop over the references: one without a row adds nothing, as one without items.
  unfoldable pub unlock_refs :
      Signing
      → Services
      → ℕ
      → Option Text
      → List SealedRow
      → Claims
      → SpaceDb
      → List Text
      → SpaceDb × List Result
  unfolding unlock_items add_result
  unlock_refs signing services now member rows claims db [] = (db, [])
  unlock_refs signing services now member rows claims db (ref ∷ refs) =
      let r =
        unlock_items signing services now member db claims (row_items (find_sealed rows ref)) in
      let later = unlock_refs signing services now member rows claims r.0 refs in
      (later.0, add_result ref r.1 later.1)

abbrev pub wanted : List Text → List Text
wanted refs = take 60 (union [] (keep (is_hex 16) refs))

-- `unlock`
unfoldable pub unlock :
    Primitives
    → Signing
    → (Text → Text)
    → Services
    → (Text → ℕ → Bytes)
    → GateDb
    → ℕ
    → Option Text
    → Option Bytes
    → List Text
    → Option Text
    → GateDb × Answer (List Result)
unfolding unlock_refs
unlock c signing hash services draw db now token none refs member = (db, thrown 400)
unlock c signing hash services draw db now token (some reader) refs member =
    let claims = claims_of hash db.keyring now token in
    let r =
      unlock_refs c draw reader signing services now member db.sealed claims db.space_db
        (wanted refs) in
    (record db { space_db = r.0 }, given r.1)
