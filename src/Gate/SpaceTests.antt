-- ===== src/Gate/SpaceTests.antt =====
-- A space with a member who is banned, and what comes after. A signature verifies that equals the
-- message, or the key and the message, and a pseudonym is drawn from the nullifier itself.
use lortnoc_tahc.Base.{
  ◌≡◌, refl, true, false, none, some, List, [], ◌∷◌, ◌++◌, ◌&&◌, list_eq, starts_with, take, drop,
  Text,
}
use lortnoc_tahc.Keys.{codes}
use lortnoc_tahc.Session.{to_hex, hex_digit}
use lortnoc_tahc.Policy.Checks.{is_plain_space, is_ens_space}
use lortnoc_tahc.Gate.{Answer, denied, given, banned, is_hex, every_char}
use lortnoc_tahc.Gate.Spaces.{
  Signing, Space, Member, SpaceDb, find_space, find_member, admit, admit_row, new_key, update, ban,
  ban_owned, register, register_row, attest, attest_row, signed_by, is_member_id, has_at,
  author_request, attestation, member_id_for,
}
use lortnoc_tahc.Gate.Bans.{
  Request, registering, admitting, banning, is_banned, serve, serve_all, ban_sticks,
}
use lortnoc_tahc.Gate.Owners.{serve_all-keeps_owner}
use lortnoc_tahc.Gate.Attests.{NoneAdmits, attest-last_key}

abbrev pub toy_signing : Signing
toy_signing = record {
  verify = λ key message sig. list_eq message sig;
  sign = λ message. message;
  mac = λ m. take 6 (drop 5 m);
}

abbrev owner : Text
owner = codes "0123456789abcdef0123456789abcdef0123456789abcdef0123456789abcdef"

abbrev pub club : Text
club = codes "club"

abbrev pub pseudonym : Text
pseudonym = member_id_for toy_signing club (codes "nullifier")

abbrev club_row : Space
club_row = record { name = club; owner = owner; created_at = 1 }

abbrev member : Member
member = record {
  space = club;
  member_id = pseudonym;
  nullifier = codes "nullifier";
  member_pub = some owner;
  joined_at = 2;
  is_out = false;
}

abbrev open_club : SpaceDb
open_club = record { spaces = club_row ∷ []; members = member ∷ [] }

abbrev pub shut_club : SpaceDb
shut_club = record { spaces = club_row ∷ []; members = record member { is_out = true } ∷ [] }

-- The member comes again under another key, and someone tries to take the space.
abbrev pub requests : List Request
requests =
    admitting 5 club (codes "nullifier") (some owner)
    ∷ registering 6 club (codes "ff") []
    ∷ banning club pseudonym [] false
    ∷ []

pub shut : is_banned shut_club club pseudonym ≡ true
unfolding is_banned find_member list_eq member_id_for to_hex
shut = refl

ban_sticks_example :
    admit toy_signing (serve_all toy_signing shut_club requests) 9 club (codes "nullifier") none
    ≡ (serve_all toy_signing shut_club requests, denied banned)
ban_sticks_example =
    ban_sticks toy_signing shut_club requests club (codes "nullifier") 9 none shut
      (refl, (refl, (refl, tt)))

serve_all-keeps_owner_example :
    find_space (serve_all toy_signing shut_club requests).spaces club ≡ some club_row
unfolding find_space list_eq
serve_all-keeps_owner_example =
    serve_all-keeps_owner toy_signing club club_row shut_club requests refl

-- Here a signature depends on the key.
abbrev keyed : Signing
keyed = record toy_signing { verify = λ key message sig. list_eq (key ++ message) sig }

abbrev new_one : Text
new_one = codes "ffff456789abcdef0123456789abcdef0123456789abcdef0123456789abcdef"

abbrev signature : Text
signature = new_one ++ author_request club pseudonym owner

-- The member comes again under a new key.
abbrev again : SpaceDb × Answer Text
again = admit keyed open_club 9 club (codes "nullifier") (some new_one)

-- Then others ask for what they do not get.
abbrev others : List Request
others =
    registering 6 club (codes "ff") []
    ∷ admitting 7 club (codes "somebody") none
    ∷ banning club pseudonym [] false
    ∷ []

comes_again : again.1 ≡ given pseudonym
unfolding admit admit_row find_member list_eq member_id_for to_hex hex_digit is_hex every_char
comes_again = refl

none_admits : NoneAdmits keyed club pseudonym others
unfolding member_id_for to_hex hex_digit list_eq
none_admits = (refl, (refl, (refl, tt)))

signs :
    attest keyed (serve_all keyed again.0 others) club pseudonym owner signature false
    ≡ given (attestation club pseudonym owner)
unfolding attest attest_row find_member signed_by list_eq member_id_for to_hex hex_digit
    is_plain_space is_ens_space is_member_id is_hex every_char starts_with serve_all serve admit
    admit_row new_key update ban ban_owned register register_row find_space
signs = refl

attest-last_key_example :
    (list_eq (new_one ++ author_request club pseudonym owner) signature ≡ true)
    × (is_banned (serve_all keyed again.0 others) club pseudonym ≡ false)
    × ((has_at club && false) ≡ false)
    × (attestation club pseudonym owner ≡ attestation club pseudonym owner)
unfolding list_eq member_id_for
attest-last_key_example =
    attest-last_key keyed open_club 9 club (codes "nullifier") new_one owner signature
      (attestation club pseudonym owner) false others refl comes_again none_admits signs
