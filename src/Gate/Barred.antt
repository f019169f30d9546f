-- ===== src/Gate/Barred.antt =====
-- What a banned member's claims open, gate/core.mjs (`unlock`) and shared/checks/human.mjs.
use lortnoc_tahc.Base.{
  ℕ, ◌<◌, ◌≡◌, refl, Bool, true, false, Option, none, some, is_some, List, [], ◌∷◌, length, ◌==◌,
  not, if◌then◌else◌, Bytes, Text, All, arith,
}
use lortnoc_tahc.Policy.Checks.{Preset, human_spec, or_poh}
use lortnoc_tahc.Policy.Seal.{Primitives}
use lortnoc_tahc.Gate.{given, denied, banned, is_hex}
use lortnoc_tahc.Gate.Spaces.{Signing, SpaceDb, member_id_for, admit, find_space, has_at}
use lortnoc_tahc.Gate.Bans.{Request, lifts, is_banned, serve_all, ban_sticks}
use lortnoc_tahc.Gate.Keyring.{claims_of, union}
use lortnoc_tahc.Gate.Sealed.{SealedRow, GateDb, find_sealed}
use lortnoc_tahc.Gate.Verdicts.{
  Services, exists_in, nullifier_for, admitted, unlock_human, unlock_check, unlock_items,
  add_result, unlock_refs, unlock,
}

either_way {ℓ} : {A : Type ℓ} (a b : Bool) (x : A) → (if a then x else if b then x else x) ≡ x
either_way true b x = refl
either_way false true x = refl
either_way false false x = refl

module _ (signing : Signing) (services : Services) (now : ℕ) (member : Option Text) where
  unlock_human_banned :
      (db : SpaceDb) (space n : Text)
      → 0 < length space
      → admit signing db now space n member ≡ (db, denied banned)
      → unlock_human signing services now member db (some n) (some space) ≡ (db, none)
  unfolding unlock_human admitted
  unlock_human_banned db space n filled out =
      let there : (length space == 0) ≡ false = ground (arith, filled) in
      rw (there, out)
        (either_way (length n == 0)
          (not (
            if has_at space
            then exists_in services.ens space
            else is_some (find_space db.spaces space)))
          (db, none))

-- A banned member opens nothing: after any requests to the spaces of which none lifts the ban, a post
-- that is sealed under one check for humans of the space, whatever the credential, gives no share to the
-- claims of a session whose nullifier is the banned member's, and the gate stays as it is.
pub banned_opens_nothing :
    (c : Primitives) (signing : Signing) (hash : Text → Text) (services : Services)
    (draw : Text → ℕ → Bytes) (db : GateDb) (start : SpaceDb) (requests : List Request) (now : ℕ)
    (token : Option Text) (reader : Bytes) (ref : Text) (member : Option Text) (row : SealedRow)
    (preset : Option Preset) (space country nullifier share : Text)
    → 0 < length space
    → is_hex 16 ref ≡ true
    → find_sealed db.sealed ref ≡ some row
    → row.items ≡ record { spec = human_spec preset (some space) country; share = share } ∷ []
    → nullifier_for (claims_of hash db.keyring now token) (or_poh preset) country ≡ some nullifier
    → db.space_db ≡ serve_all signing start requests
    → is_banned start space (member_id_for signing space nullifier) ≡ true
    → All (λ r. lifts space (member_id_for signing space nullifier) r ≡ false) requests
    → unlock c signing hash services draw db now token (some reader) (ref ∷ []) member
      ≡ (db, given [])
unfolding unlock unlock_refs unlock_items unlock_check add_result union
banned_opens_nothing c signing hash services draw db start requests now token reader ref member row
      preset space country nullifier share filled hex found items claimed after out stays =
    let barred : admit signing db.space_db now space nullifier member
        ≡ (db.space_db, denied banned) =
      rw after (ban_sticks signing start requests space nullifier now member out stays) in
    rw
      (
        hex,
        found,
        items,
        claimed,
        unlock_human_banned signing services now member db.space_db space nullifier filled barred,
      )
      refl
