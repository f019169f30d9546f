-- ===== src/Gate/SealedTests.antt =====
-- A post under a time, and one for humans of a space that a banned member meets.
use lortnoc_tahc.Base.{
  ◌&&◌, ℕ, ◌≡◌, refl, true, none, some, List, [], ◌∷◌, if◌then◌else◌, leb, Bytes, Text, arith,
  list_eq,
}
use lortnoc_tahc.Keys.{codes}
use lortnoc_tahc.Keys.Tests.{fit, length-fit}
use lortnoc_tahc.Policy.Checks.{Spec, human_spec, poh}
use lortnoc_tahc.Policy.Tests.{toy_primitives, toy_primitives_laws}
use lortnoc_tahc.Gate.{given, is_hex, every_char}
use lortnoc_tahc.Gate.Bans.{serve_all}
use lortnoc_tahc.Gate.SpaceTests.{toy_signing, club, shut_club, requests, shut}
use lortnoc_tahc.Gate.Keyring.{SessionRow, claims_of, find_session, live_claims}
use lortnoc_tahc.Gate.Sealed.{GateDb, SealedRow, find_sealed, seal}
use lortnoc_tahc.Gate.Verdicts.{Services, unlock, nullifier_for}
use lortnoc_tahc.Gate.Unlock.{time_item, view, time_lock}
use lortnoc_tahc.Gate.Release.{Asked, Provers, ReleaseDb, find_deposit, deposit, release}
use lortnoc_tahc.Gate.Deposits.{read_share, deposit_released}
use lortnoc_tahc.Gate.Barred.{banned_opens_nothing}

abbrev hash_id : Text → Text
hash_id t = t

abbrev draw : Text → ℕ → Bytes
draw ref i = i ∷ ref

abbrev alone : Services
alone = record { ens = none; holders = none }

-- The session of the banned member, who is a verified human.
abbrev session : SessionRow
session = record {
  token_hash = codes "t1";
  claims = record {
    poh_nullifier = some (codes "nullifier");
    selfie_nullifier = none;
    nationalities = [];
    wallets = [];
  };
  expires_at = 9000;
}

abbrev ref : Text
ref = codes "0123456789abcdef"

abbrev row : SealedRow
row = record {
  ref = ref;
  items = record { spec = human_spec none (some club) []; share = fit 16 (4 ∷ []) } ∷ [];
  created_at = 1;
}

abbrev gate : List SealedRow → GateDb
gate rows = record {
  sealed = rows;
  space_db = serve_all toy_signing shut_club requests;
  keyring = record { sessions = session ∷ []; state = [] };
}

abbrev share : Bytes
share = fit 16 (9 ∷ 9 ∷ [])

abbrev size : Spec → ℕ
size spec = 20

ref_hex : is_hex 16 ref ≡ true
unfolding is_hex every_char
ref_hex = refl

time_lock_example :
    view toy_primitives
      (3 ∷ [])
      (unlock toy_primitives toy_signing hash_id alone draw
        (seal toy_primitives
          (1 ∷ [])
          size
          (gate [])
          10
          ref
          (time_item toy_primitives (1 ∷ []) (2 ∷ []) 5000 share ∷ [])).0
        6000
        none
        (some (toy_primitives.public_key (3 ∷ [])))
        (ref ∷ [])
        none).1
    ≡ (if leb 5000 6000 then (ref, some share ∷ []) ∷ [] else [])
unfolding find_sealed
time_lock_example =
    time_lock toy_primitives toy_primitives_laws toy_signing hash_id alone draw none none (3 ∷ [])
      (1 ∷ []) (2 ∷ []) share 5000 size (length-fit 16 (9 ∷ 9 ∷ [])) (omega arith) (omega arith)
      (gate []) 10 6000 ref ref_hex refl

claimed :
    nullifier_for (claims_of hash_id (gate []).keyring 7000 (some (codes "t1"))) poh []
    ≡ some (codes "nullifier")
unfolding nullifier_for claims_of find_session live_claims list_eq
claimed = refl

row_found : find_sealed (row ∷ []) ref ≡ some row
unfolding find_sealed list_eq
row_found = refl

banned_opens_nothing_example :
    unlock toy_primitives toy_signing hash_id alone draw
      (gate (row ∷ []))
      7000
      (some (codes "t1"))
      (some (3 ∷ []))
      (ref ∷ [])
      none
    ≡ (gate (row ∷ []), given [])
banned_opens_nothing_example =
    banned_opens_nothing toy_primitives toy_signing hash_id alone draw (gate (row ∷ [])) shut_club
      requests 7000 (some (codes "t1")) (3 ∷ []) ref none row none club [] (codes "nullifier")
      (fit 16 (4 ∷ [])) (omega arith) ref_hex row_found refl claimed refl shut
      (refl, (refl, (refl, tt)))

-- Asks for the share with the hash of another post.
abbrev asked : Asked Text
asked = record {
  ref = ref;
  reader_pub = some (toy_primitives.public_key (3 ∷ []));
  policy_hash = codes "other";
  proof = [];
  member_pub = none;
}

abbrev no_provers : Provers Text
no_provers = record { world = none; holders = none; ens = none }

abbrev no_deposits : ReleaseDb
no_deposits = record { deposits = []; marks = []; space_db = shut_club }

abbrev policy_hash : Text
policy_hash = codes "0123456789abcdef0123456789abcdef0123456789abcdef0123456789abcdef"

hash_hex : is_hex 64 policy_hash ≡ true
unfolding is_hex every_char
hash_hex = refl

deposit_released_example :
    read_share toy_primitives
      (3 ∷ [])
      (release toy_signing no_provers 6000 toy_primitives
        (7 ∷ [])
        (deposit toy_primitives
          (1 ∷ [])
          size
          no_deposits
          10
          ref
          (time_item toy_primitives (1 ∷ []) (2 ∷ []) 5000 share)
          policy_hash).0
        asked).1
    ≡ (if list_eq policy_hash asked.policy_hash && leb 5000 6000 then some share else none)
unfolding find_deposit
deposit_released_example =
    deposit_released toy_primitives toy_primitives_laws toy_signing no_provers (7 ∷ []) (3 ∷ [])
      (1 ∷ []) (2 ∷ []) share 5000 size (length-fit 16 (9 ∷ 9 ∷ [])) (omega arith) (omega arith)
      no_deposits 10 6000 policy_hash asked hash_hex ref_hex refl refl
