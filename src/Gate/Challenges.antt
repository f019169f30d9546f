-- ===== src/Gate/Challenges.antt =====
-- gate/keyring.mjs: the challenges of World ID and of wallets, and their answers.
use lortnoc_tahc.Base.{
  ℕ, ◌+◌, ◌-◌, ◌*◌, Bool, true, false, not, ◌||◌, ◌&&◌, Option, none, some, [], ◌∷◌, ◌++◌,
  if◌then◌else◌, length, ltb, ◌==◌, between, list_eq, take, drop, Text, map,
}
use lortnoc_tahc.Keys.{codes}
use lortnoc_tahc.Policy.Checks.{Preset, poh, selfie, identity, is_country}
use lortnoc_tahc.Gate.{
  Answer, thrown, denied, given, is_hex, every_char, no_world, unknown_request, other_key,
  world_refused, no_challenge, challenge_used, challenge_expired, bad_address, not_from_wallet,
}
use lortnoc_tahc.Gate.Keyring.{
  KeyringDb, StateValue, sid, wallet, asked, issued, get_state, set_state, grant, no_claims,
  credential, Summary,
}

-- `kind` of a World ID request, as the reader sends it.
pub data Kind : Type 0 where
  human_kind selfie_kind nationality_kind other_kind : Kind

abbrev pub preset_for : Kind → Option Preset
preset_for human_kind = some poh
preset_for selfie_kind = some selfie
preset_for nationality_kind = some identity
preset_for other_kind = none

-- World ID, if the gate has it: `verify(proof, { ref, readerPub, preset, action })` gives the nullifier
-- when the proof is good.
pub record World (Proof : Type 0) : Type 0 where
  pub verify : Proof → Text → Text → Preset → Option Text

-- `10 * 60_000`
abbrev pub ten_minutes : ℕ
ten_minutes = 10 * 60000

-- `/^0x[0-9a-fA-F]{40}$/`
abbrev pub is_address_char : ℕ → Bool
is_address_char c = between 48 57 c || between 97 102 c || between 65 70 c

unfoldable pub is_address : Text → Bool
unfolding every_char
is_address a =
    list_eq (take 2 a) (codes "0x") && length a == 42 && every_char is_address_char (drop 2 a)

-- `toLowerCase` on what `is_address` accepts.
abbrev pub lower : ℕ → ℕ
lower c = if between 65 90 c then c + 32 else c

abbrev pub to_lower : Text → Text
to_lower = map lower

abbrev newline : ℕ
newline = 10

unfoldable pub connect_text : Text → Text → Text
connect_text reader nonce =
    codes "lortnoc tahc: connect this wallet to your keyring"
    ++ newline
      ∷ (codes "reader: "
          ++ (reader
              ++ newline
                ∷ (codes "nonce: "
                    ++ (nonce
                        ++ newline
                          ∷ newline
                          ∷ codes
                              "Signing costs nothing and moves nothing. Posts for holders of your NFTs will open for you."))))

module _ {Proof : Type 0} (hash : Text → Text) (recovers : Text → Text → Proof → Bool) where
  unfoldable pub world_kind :
      KeyringDb → Text → Text → Text → Option Preset → KeyringDb × Answer Text
  world_kind db id country reader none = (db, thrown 400)
  world_kind db id country reader (some preset) =
      let next = record db { state = set_state db.state (sid id) (asked preset country reader) } in
      elim preset [
        | identity ↦ if not (is_country country) then (db, thrown 400) else (next, given id)
        | _ ↦ (next, given id)
      ]

  -- `worldChallenge`, for the id drawn: what World ID is asked to sign is not modelled.
  unfoldable pub world_challenge :
      KeyringDb → Option (World Proof) → Text → Kind → Text → Text → KeyringDb × Answer Text
  unfolding world_kind
  world_challenge db none id kind country reader = (db, denied no_world)
  world_challenge db (some world) id kind country reader =
      if not (is_hex 64 reader)
      then (db, thrown 400)
      else world_kind db id country reader (preset_for kind)

  unfoldable pub world_granted :
      KeyringDb
      → ℕ
      → Text
      → Option Text
      → Preset
      → Text
      → Option Text
      → KeyringDb × Answer (Text × Summary)
  world_granted db now fresh token preset country none = (db, denied world_refused)
  world_granted db now fresh token preset country (some nullifier) =
      let g = grant hash db now fresh token (credential preset country nullifier) in
      (g.0, given g.1)

  unfoldable pub world_answered :
      KeyringDb
      → World Proof
      → ℕ
      → Text
      → Text
      → Text
      → Proof
      → Option Text
      → Option StateValue
      → KeyringDb × Answer (Text × Summary)
  unfolding world_granted
  world_answered db world now fresh id reader proof token (some (asked preset country want)) =
      if not (list_eq want reader)
      then (db, denied other_key)
      else world_granted db now fresh token preset country (world.verify proof id reader preset)
  world_answered db world now fresh id reader proof token _ = (db, denied unknown_request)

  -- `worldConnect`
  unfoldable pub world_connect :
      KeyringDb
      → Option (World Proof)
      → ℕ
      → Text
      → Text
      → Text
      → Proof
      → Option Text
      → KeyringDb × Answer (Text × Summary)
  unfolding world_answered
  world_connect db none now fresh id reader proof token = (db, denied no_world)
  world_connect db (some world) now fresh id reader proof token =
      world_answered db world now fresh id reader proof token (get_state db.state (sid id))

  -- `walletChallenge`, for the nonce drawn.
  unfoldable pub wallet_challenge : KeyringDb → ℕ → Text → Text → KeyringDb × Answer (Text × Text)
  wallet_challenge db now nonce reader = if not (is_hex 64 reader) then (db, thrown 400) else (
    record db { state = set_state db.state (wallet nonce) (issued reader now false) },
    given (nonce, connect_text reader nonce),
  )

  -- The nonce is used up before the address and the signature are looked at.
  unfoldable pub wallet_used :
      KeyringDb
      → ℕ
      → Text
      → Text
      → Text
      → Text
      → Proof
      → Option Text
      → KeyringDb × Answer (Text × Summary)
  wallet_used db now fresh reader nonce address sig token =
      let g =
        grant hash db now fresh token (record no_claims { wallets = to_lower address ∷ [] }) in
      if not (is_address address)
      then (db, denied bad_address)
      else if not (recovers (connect_text reader nonce) address sig)
      then (db, denied not_from_wallet)
      else (g.0, given g.1)

  unfoldable pub wallet_answered :
      KeyringDb
      → ℕ
      → Text
      → Text
      → Text
      → Proof
      → Option Text
      → Option StateValue
      → KeyringDb × Answer (Text × Summary)
  unfolding wallet_used
  wallet_answered db now fresh nonce address sig token (some (issued reader at_time used)) =
      let spent = record db {
        state = set_state db.state (wallet nonce) (issued reader at_time true);
      } in
      let answer = wallet_used spent now fresh reader nonce address sig token in
      if used
      then (db, denied challenge_used)
      else if ltb ten_minutes (now - at_time)
      then (db, denied challenge_expired)
      else answer
  wallet_answered db now fresh nonce address sig token _ = (db, denied no_challenge)

  -- `walletConnect`
  unfoldable pub wallet_connect :
      KeyringDb → ℕ → Text → Text → Text → Proof → Option Text → KeyringDb × Answer (Text × Summary)
  unfolding wallet_answered
  wallet_connect db now fresh nonce address sig token =
      wallet_answered db now fresh nonce address sig token (get_state db.state (wallet nonce))
