-- ===== src/Gate/Keyring.antt =====
-- gate/keyring.mjs: what a reader has connected, under a bearer token, and the challenges for it. A
-- table is the list of its rows, and the keys `sid:...` and `wallet:...` of `connect_state` are the two
-- constructors of `StateKey`. World ID and the recovery of a wallet's signature are arguments: the code
-- is given them as well. The entries that World ID keeps in the same table are its own.
use lortnoc_tahc.Base.{
  ℕ, ◌+◌, ◌*◌, Bool, false, not, ◌||◌, ◌&&◌, Option, none, some, is_some, List, [], ◌∷◌, ◌++◌,
  if◌then◌else◌, length, ltb, ◌==◌, list_eq, Text,
}
use lortnoc_tahc.Policy.Checks.{Preset, poh, selfie, identity}

abbrev pub ttl_ms : ℕ
ttl_ms = 24 * 3600000

pub record Claims : Type 0 where
  pub poh_nullifier : Option Text
  pub selfie_nullifier : Option Text
  -- country and nullifier
  pub nationalities : List (Text × Text)
  pub wallets : List Text

abbrev pub no_claims : Claims
no_claims = record {
  poh_nullifier = none;
  selfie_nullifier = none;
  nationalities = [];
  wallets = [];
}

pub record SessionRow : Type 0 where
  pub token_hash : Text
  pub claims : Claims
  pub expires_at : ℕ

pub data StateKey : Type 0 where
  sid : Text → StateKey
  wallet : Text → StateKey

pub data StateValue : Type 0 where
  -- preset, country, reader's key
  asked : Preset → Text → Text → StateValue
  -- reader's key, time, whether it was used
  issued : Text → ℕ → Bool → StateValue

pub record KeyringDb : Type 0 where
  pub sessions : List SessionRow
  pub state : List (StateKey × StateValue)

unfoldable pub same_key : StateKey → StateKey → Bool
same_key (sid a) (sid b) = list_eq a b
same_key (wallet a) (wallet b) = list_eq a b
same_key _ _ = false

unfoldable pub get_state : List (StateKey × StateValue) → StateKey → Option StateValue
unfolding same_key
get_state [] k = none
get_state ((j, v) ∷ rest) k = let later = get_state rest k in if same_key j k then some v else later

-- `INSERT OR REPLACE`
unfoldable pub set_state :
    List (StateKey × StateValue) → StateKey → StateValue → List (StateKey × StateValue)
unfolding same_key
set_state [] k v = (k, v) ∷ []
set_state ((j, w) ∷ rest) k v =
    let later = set_state rest k v in if same_key j k then (k, v) ∷ rest else (j, w) ∷ later

unfoldable pub find_session : List SessionRow → Text → Option SessionRow
find_session [] h = none
find_session (r ∷ rest) h =
    let later = find_session rest h in if list_eq r.token_hash h then some r else later

unfoldable pub put_session : List SessionRow → SessionRow → List SessionRow
put_session [] new = new ∷ []
put_session (r ∷ rest) new =
    let later = put_session rest new in
    if list_eq r.token_hash new.token_hash then new ∷ rest else r ∷ later

unfoldable pub drop_session : List SessionRow → Text → List SessionRow
drop_session [] h = []
drop_session (r ∷ rest) h =
    let later = drop_session rest h in if list_eq r.token_hash h then later else r ∷ later

unfoldable pub live_claims : ℕ → Option SessionRow → Claims
live_claims now none = no_claims
live_claims now (some r) = if ltb now r.expires_at then r.claims else no_claims

-- `{ ...a, ...b }` on nationalities.
unfoldable pub put_nationality : List (Text × Text) → Text × Text → List (Text × Text)
put_nationality [] new = new ∷ []
put_nationality ((k, v) ∷ rest) new =
    let later = put_nationality rest new in if list_eq k new.0 then new ∷ rest else (k, v) ∷ later

unfoldable pub put_nationalities : List (Text × Text) → List (Text × Text) → List (Text × Text)
unfolding put_nationality
put_nationalities old [] = old
put_nationalities old (n ∷ ns) = put_nationalities (put_nationality old n) ns

abbrev pub has_text : Text → List Text → Bool
has_text t [] = false
has_text t (x ∷ xs) = list_eq x t || has_text t xs

-- `[...new Set([...a, ...b])]`, the set so far first.
unfoldable pub union : List Text → List Text → List Text
union seen [] = seen
union seen (x ∷ xs) = union (if has_text x seen then seen else seen ++ x ∷ []) xs

abbrev pub or_else {ℓ} : {A : Type ℓ} → Option A → Option A → Option A
or_else none old = old
or_else (some new) old = some new

-- The claims of a session with those that are added.
unfoldable pub merge_claims : Claims → Claims → Claims
unfolding put_nationalities union
merge_claims c add = record {
  poh_nullifier = or_else add.poh_nullifier c.poh_nullifier;
  selfie_nullifier = or_else add.selfie_nullifier c.selfie_nullifier;
  nationalities = put_nationalities c.nationalities add.nationalities;
  wallets = union [] (c.wallets ++ add.wallets);
}

-- What the extension may show: never a nullifier.
pub record Summary : Type 0 where
  pub is_human : Bool
  pub is_selfie : Bool
  pub countries : List Text
  pub addresses : List Text

abbrev pub firsts : List (Text × Text) → List Text
firsts [] = []
firsts ((k, v) ∷ rest) = k ∷ firsts rest

unfoldable pub summary : Claims → Summary
summary c = record {
  is_human = is_some c.poh_nullifier;
  is_selfie = is_some c.selfie_nullifier;
  countries = firsts c.nationalities;
  addresses = c.wallets;
}

abbrev pub credential : Preset → Text → Text → Claims
credential poh country nullifier = record no_claims { poh_nullifier = some nullifier }
credential selfie country nullifier = record no_claims { selfie_nullifier = some nullifier }
credential identity country nullifier = record no_claims {
  nationalities = (country, nullifier) ∷ [];
}

-- `hash` is sha256 of a token in hexadecimal digits.
module _ (hash : Text → Text) where
  -- `claimsOf`: nothing for a missing, unknown or expired token.
  unfoldable pub claims_of : KeyringDb → ℕ → Option Text → Claims
  unfolding live_claims
  claims_of db now none = no_claims
  claims_of db now (some token) =
      if length token == 0
      then no_claims
      else live_claims now (find_session db.sessions (hash token))

  unfoldable pub known_token : KeyringDb → Text → Option Text → Text
  known_token db fresh none = fresh
  known_token db fresh (some token) =
      if not (length token == 0) && is_some (find_session db.sessions (hash token))
      then token
      else fresh

  -- `grant`: `fresh` is the token drawn for a new session.
  unfoldable pub grant : KeyringDb → ℕ → Text → Option Text → Claims → KeyringDb × (Text × Summary)
  unfolding known_token summary
  grant db now fresh token add =
      let t = known_token db fresh token in
      let merged = merge_claims (claims_of db now (some t)) add in
      (
        record db {
          sessions =
              put_session db.sessions
                (record { token_hash = hash t; claims = merged; expires_at = now + ttl_ms });
        },
        (t, summary merged),
      )

  -- `forget`
  unfoldable pub forget : KeyringDb → Text → KeyringDb
  forget db token = record db { sessions = drop_session db.sessions (hash token) }
