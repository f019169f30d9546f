-- ===== src/Gate/Spaces.antt =====
-- gate/spaces.mjs, with the messages of shared/member.mjs: spaces, members and bans. A table is the
-- list of its rows. Ed25519 and HMAC are third-party code, parameters of the record `Signing`, and the
-- ban list of an ENS space is read live, so an answer of it is an argument.
use lortnoc_tahc.Base.{
  ℕ, Bool, false, not, ◌||◌, ◌&&◌, Option, none, some, List, [], ◌∷◌, ◌++◌, if◌then◌else◌, length,
  ◌==◌, take, drop, starts_with, list_eq, Bytes, Text,
}
use lortnoc_tahc.Keys.{codes}
use lortnoc_tahc.Session.{to_hex}
use lortnoc_tahc.Policy.Checks.{is_plain_space, is_ens_space}
use lortnoc_tahc.Gate.{
  banned, bad_member_key, not_a_member, not_signed, Answer, thrown, denied, given, is_hex,
}

-- `verifySig`, `sign` with the gate's key, and `hmac(sha256, secret, ·)` with the gate's secret.
pub record Signing : Type 0 where
  pub verify : Text → Bytes → Text → Bool
  pub sign : Bytes → Text
  pub mac : Bytes → Bytes

pub record Space : Type 0 where
  pub name : Text
  pub owner : Text
  pub created_at : ℕ

pub record Member : Type 0 where
  pub space : Text
  pub member_id : Text
  pub nullifier : Text
  pub member_pub : Option Text
  pub joined_at : ℕ
  pub is_out : Bool

pub record SpaceDb : Type 0 where
  pub spaces : List Space
  pub members : List Member

-- `SPACE_RE`
abbrev pub is_space : Text → Bool
is_space s = is_plain_space s || is_ens_space s

-- `/^member-[0-9a-f]{12}$/`
unfoldable pub is_member_id : Text → Bool
unfolding is_hex
is_member_id id = list_eq (take 7 id) (codes "member-") && is_hex 12 (drop 7 id)

abbrev pub bar : ℕ
bar = 124

-- `MSG`
abbrev pub register_message : Text → Text → Bytes
register_message space owner = codes "lortnoc/space/register/v1|" ++ (space ++ bar ∷ owner)

abbrev pub ban_message : Text → Text → Bool → Bytes
ban_message space member unban =
    (if unban then codes "lortnoc/space/unban/v1|" else codes "lortnoc/space/ban/v1|")
    ++ (space ++ bar ∷ member)

abbrev pub author_request : Text → Text → Text → Bytes
author_request space member hash =
    codes "lortnoc/member/request/v1|" ++ (space ++ bar ∷ (member ++ bar ∷ hash))

abbrev pub attestation : Text → Text → Text → Bytes
attestation space member hash =
    codes "lortnoc/member/attest/v1|" ++ (space ++ bar ∷ (member ++ bar ∷ hash))

unfoldable pub find_space : List Space → Text → Option Space
find_space [] name = none
find_space (s ∷ rest) name =
    let later = find_space rest name in if list_eq s.name name then some s else later

abbrev pub is_row : Text → Text → Member → Bool
is_row space id m = list_eq m.space space && list_eq m.member_id id

unfoldable pub find_member : List Member → Text → Text → Option Member
find_member [] space id = none
find_member (m ∷ rest) space id =
    let later = find_member rest space id in if is_row space id m then some m else later

-- `UPDATE members SET ... WHERE space = ? AND member_id = ?`
unfoldable pub update : (Member → Member) → List Member → Text → Text → List Member
update change [] space id = []
update change (m ∷ rest) space id =
    let later = update change rest space id in
    if is_row space id m then change m ∷ later else m ∷ later

abbrev pub set_pub : Text → Member → Member
set_pub key m = record m { member_pub = some key }

abbrev pub set_out : Bool → Member → Member
set_out out m = record m { is_out = out }

abbrev pub has_at : Text → Bool
has_at s = starts_with (64 ∷ []) s

module _ (c : Signing) where
  unfoldable pub member_id_for : Text → Text → Text
  member_id_for space nullifier =
      codes "member-" ++ take 12 (to_hex (c.mac (space ++ bar ∷ nullifier)))

  unfoldable pub register_row :
      SpaceDb → ℕ → Text → Text → Option Space → SpaceDb × Answer (Text × Text)
  register_row db now space owner (some row) =
      if list_eq row.owner owner then (db, given (space, owner)) else (db, thrown 409)
  register_row db now space owner none = (
    record db {
      spaces = db.spaces ++ record { name = space; owner = owner; created_at = now } ∷ [];
    },
    given (space, owner),
  )

  -- `register`: a space to an owner's key, whose signature it is.
  unfoldable pub register : SpaceDb → ℕ → Text → Text → Text → SpaceDb × Answer (Text × Text)
  unfolding register_row
  register db now space owner sig =
      if not (is_space space) || has_at space
      then (db, thrown 400)
      else if not (is_hex 64 owner)
      then (db, thrown 400)
      else if not (c.verify owner (register_message space owner) sig)
      then (db, thrown 403)
      else register_row db now space owner (find_space db.spaces space)

  abbrev pub is_bad_key : Option Text → Bool
  is_bad_key none = false
  is_bad_key (some key) = not (length key == 0) && not (is_hex 64 key)

  -- The key of a member who comes again, if they sent one.
  unfoldable pub new_key : SpaceDb → Text → Text → Option Text → SpaceDb
  new_key db space id none = db
  new_key db space id (some key) =
      if length key == 0
      then db
      else record db { members = update (set_pub key) db.members space id }

  unfoldable pub admit_row :
      SpaceDb → ℕ → Text → Text → Text → Option Text → Option Member → SpaceDb × Answer Text
  unfolding new_key
  admit_row db now space id nullifier key (some m) =
      if m.is_out
      then (db, denied banned)
      else if is_bad_key key
      then (db, denied bad_member_key)
      else (new_key db space id key, given id)
  admit_row db now space id nullifier key none =
      if is_bad_key key then (db, denied bad_member_key) else (
        record db {
          members =
              db.members
              ++ record {
                space = space;
                member_id = id;
                nullifier = nullifier;
                member_pub = key;
                joined_at = now;
                is_out = false;
              }
                ∷ [];
        },
        given id,
      )

  -- `admit`, after a valid proof for the space: the banned are refused, others join or come again.
  unfoldable pub admit : SpaceDb → ℕ → Text → Text → Option Text → SpaceDb × Answer Text
  unfolding admit_row
  admit db now space nullifier key =
      let id = member_id_for space nullifier in
      admit_row db now space id nullifier key (find_member db.members space id)

  unfoldable pub signed_by : Option Text → Bytes → Text → Bool
  signed_by none message sig = false
  signed_by (some key) message sig = not (length key == 0) && c.verify key message sig

  unfoldable pub attest_row : Text → Text → Text → Text → Bool → Option Member → Answer Text
  unfolding signed_by
  attest_row space id hash sig ens_banned none = denied not_a_member
  attest_row space id hash sig ens_banned (some m) =
      if m.is_out
      then denied banned
      else if has_at space && ens_banned
      then denied banned
      else if not (signed_by m.member_pub (author_request space id hash) sig)
      then denied not_signed
      else given (c.sign (attestation space id hash))

  -- `attest`: the gate's signature under the hash of a member's post.
  unfoldable pub attest : SpaceDb → Text → Text → Text → Text → Bool → Answer Text
  unfolding attest_row
  attest db space id hash sig ens_banned =
      if not (is_space space) || not (is_member_id id) || not (is_hex 64 hash)
      then thrown 400
      else attest_row space id hash sig ens_banned (find_member db.members space id)

  unfoldable pub ban_row : SpaceDb → Text → Text → Bool → Option Member → SpaceDb × Answer Bool
  ban_row db space id unban none = (db, thrown 404)
  ban_row db space id unban (some m) =
      (record db { members = update (set_out (not unban)) db.members space id }, given (not unban))

  unfoldable pub ban_owned :
      SpaceDb → Text → Text → Text → Bool → Option Space → SpaceDb × Answer Bool
  unfolding ban_row
  ban_owned db space id sig unban none = (db, thrown 404)
  ban_owned db space id sig unban (some s) =
      if not (c.verify s.owner (ban_message space id unban) sig)
      then (db, thrown 403)
      else ban_row db space id unban (find_member db.members space id)

  -- `ban`: the owner bans a member, or lifts the ban.
  unfoldable pub ban : SpaceDb → Text → Text → Text → Bool → SpaceDb × Answer Bool
  unfolding ban_owned
  ban db space id sig unban = ban_owned db space id sig unban (find_space db.spaces space)
