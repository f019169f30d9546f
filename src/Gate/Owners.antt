-- ===== src/Gate/Owners.antt =====
-- gate/spaces.mjs: the first to register a space owns it, and only members sign in its name.
use lortnoc_tahc.Base.{
  ℕ, ◌≡◌, refl, sym, subst, Bool, true, false, not, ◌||◌, ◌&&◌, Option, none, some, List, [], ◌∷◌,
  ◌++◌, if◌then◌else◌, list_eq, Text, arith, if_either, Bool-cases, inl, inr,
}
use lortnoc_tahc.Gate.{Answer, thrown, denied, given, banned, not_signed, is_hex}
use lortnoc_tahc.Gate.Spaces.{
  Signing, Space, Member, SpaceDb, find_space, find_member, register, register_row,
  register_message, is_space, has_at, admit, admit_row, new_key, attest, attest_row, signed_by,
  author_request, attestation, is_member_id, member_id_for, ban, ban_owned, ban_row,
}
use lortnoc_tahc.Gate.Bans.{Request, registering, admitting, banning, serve, serve_all}

find_space-append :
    (rows more : List Space) (s : Text) (row : Space)
    → find_space rows s ≡ some row
    → find_space (rows ++ more) s ≡ some row
unfolding find_space
find_space-append [] more s row h = absurd cc
find_space-append (n ∷ rest) more s row h = elim (Bool-cases (list_eq n.name s)) [
  | inl found ↦ rw found (rw found at h)
  | inr other ↦ rw other (find_space-append rest more s row (rw other at h))
]

module _ (c : Signing) where
  new_key-spaces :
      (db : SpaceDb) (space id : Text) (key : Option Text)
      → (new_key c db space id key).spaces ≡ db.spaces
  unfolding new_key
  new_key-spaces db space id none = refl
  new_key-spaces db space id (some key) = ground arith

  admit_row-spaces :
      (db : SpaceDb) (now : ℕ) (space id nullifier : Text) (key : Option Text) (row : Option Member)
      → (admit_row c db now space id nullifier key row).0.spaces ≡ db.spaces
  unfolding admit_row
  admit_row-spaces db now space id nullifier key (some m) =
      ground (arith, new_key-spaces db space id key)
  admit_row-spaces db now space id nullifier key none = ground arith

  ban_row-spaces :
      (db : SpaceDb) (space id : Text) (unban : Bool) (row : Option Member)
      → (ban_row c db space id unban row).0.spaces ≡ db.spaces
  unfolding ban_row
  ban_row-spaces db space id unban none = refl
  ban_row-spaces db space id unban (some m) = refl

  ban_owned-spaces :
      (db : SpaceDb) (space id sig : Text) (unban : Bool) (row : Option Space)
      → (ban_owned c db space id sig unban row).0.spaces ≡ db.spaces
  unfolding ban_owned
  ban_owned-spaces db space id sig unban none = refl
  ban_owned-spaces db space id sig unban (some o) =
      ground (arith, ban_row-spaces db space id unban (find_member db.members space id))

  module _ (s : Text) (row : Space) where
    -- The table keeps the space as it is.
    abbrev Keeps : SpaceDb → Type 0
    Keeps db = find_space db.spaces s ≡ some row

    register_row-Keeps :
        (db : SpaceDb) (now : ℕ) (space owner : Text) (found : Option Space)
        → Keeps db
        → Keeps (register_row c db now space owner found).0
    unfolding register_row
    register_row-Keeps db now space owner (some r) h = ground (arith, h)
    register_row-Keeps db now space owner none h = find_space-append db.spaces _ s row h

    register-Keeps :
        (db : SpaceDb) (now : ℕ) (space owner sig : Text)
        → Keeps db
        → Keeps (register c db now space owner sig).0
    unfolding register
    register-Keeps db now space owner sig h =
        let made = register_row c db now space owner (find_space db.spaces space) in
        let signed = not (c.verify owner (register_message space owner) sig) in
        let keyed = not (is_hex 64 owner) in
        if_either Kept (not (is_space space) || has_at space)
          {y = if keyed then (db, thrown 400) else if signed then (db, thrown 403) else made} h
          (if_either Kept keyed {y = if signed then (db, thrown 403) else made} h (
            if_either Kept signed {y = made} h
              (register_row-Keeps db now space owner (find_space db.spaces space) h)))
      where
        Kept : SpaceDb × Answer (Text × Text) → Type 0
        Kept r = find_space r.0.spaces s ≡ some row

    serve-Keeps : (db : SpaceDb) (r : Request) → Keeps db → Keeps (serve c db r)
    unfolding serve admit ban
    serve-Keeps db (registering now space owner sig) h = register-Keeps db now space owner sig h
    serve-Keeps db (admitting now space nullifier key) h =
        let id = member_id_for c space nullifier in
        subst (λ spaces. find_space spaces s ≡ some row)
          (sym (admit_row-spaces db now space id nullifier key (find_member db.members space id))) h
    serve-Keeps db (banning space id sig unban) h =
        subst (λ spaces. find_space spaces s ≡ some row)
          (sym (ban_owned-spaces db space id sig unban (find_space db.spaces space))) h

    -- A space that is registered keeps its row, and so its owner, whatever the gate is asked
    -- afterwards and by whom.
    pub serve_all-keeps_owner :
        (db : SpaceDb) (requests : List Request)
        → find_space db.spaces s ≡ some row
        → find_space (serve_all c db requests).spaces s ≡ some row
    unfolding serve_all
    serve_all-keeps_owner db [] h = h
    serve_all-keeps_owner db (r ∷ rest) h =
        serve_all-keeps_owner (serve c db r) rest (serve-Keeps db r h)

  -- What a countersignature takes: the row of a member who is not banned and whose key signed it.
  pub record Signed (db : SpaceDb) (space id hash sig answer : Text) : Type 0 where
    pub member : Member
    pub joined : find_member db.members space id ≡ some member
    pub not_out : member.is_out ≡ false
    pub by_member : signed_by c member.member_pub (author_request space id hash) sig ≡ true
    pub the_answer : answer ≡ c.sign (attestation space id hash)

  attest_row-given :
      (m : Member) (space id hash sig answer : Text) (ens_banned : Bool)
      → attest_row c space id hash sig ens_banned (some m) ≡ given answer
      → (m.is_out ≡ false)
        × ((has_at space && ens_banned) ≡ false)
        × (signed_by c m.member_pub (author_request space id hash) sig ≡ true)
        × (answer ≡ c.sign (attestation space id hash))
  unfolding attest_row
  attest_row-given m space id hash sig answer ens_banned h = elim (Bool-cases m.is_out) [
    | inl out ↦ absurd (no_answer (rw out at h))
    | inr stays ↦ elim (Bool-cases (has_at space && ens_banned)) [
      | inl out ↦ absurd (no_answer (rw (stays, out) at h))
      | inr kept ↦ elim (Bool-cases (signed_by c m.member_pub (author_request space id hash) sig)) [
        | inl signed ↦ (stays, kept, signed, sym (answer_of (rw (stays, kept, signed) at h)))
        | inr other ↦ absurd (not_signed_answer (rw (stays, kept, other) at h))
      ]
    ]
  ]
    where
      no_answer : denied banned ≡ given answer → ⊥
      no_answer e = cc

      not_signed_answer : denied not_signed ≡ given answer → ⊥
      not_signed_answer e = cc

      answer_of : {x : Text} → given x ≡ given answer → x ≡ answer
      answer_of e = cc

  -- A post is countersigned only for a member of the space who is not banned, whose request is signed
  -- under the key in the member's row, and not for one whom an ENS space has banned.
  pub attest-Signed :
      (db : SpaceDb) (space id hash sig answer : Text) (ens_banned : Bool)
      → attest c db space id hash sig ens_banned ≡ given answer
      → Signed db space id hash sig answer × ((has_at space && ens_banned) ≡ false)
  unfolding attest
  attest-Signed db space id hash sig answer ens_banned h = elim (Bool-cases guard) [
    | inl bad ↦ absurd (refused (rw bad at h))
    | inr good ↦ row (find_member db.members space id) refl (rw good at h)
  ]
    where
      guard : Bool
      guard = not (is_space space) || not (is_member_id id) || not (is_hex 64 hash)

      refused : thrown 400 ≡ given answer → ⊥
      refused e = cc

      row :
          (o : Option Member)
          → find_member db.members space id ≡ o
          → attest_row c space id hash sig ens_banned o ≡ given answer
          → Signed db space id hash sig answer × ((has_at space && ens_banned) ≡ false)
      row none found answered = absurd cc
      row (some m) found answered =
          let parts = attest_row-given m space id hash sig answer ens_banned answered in
          (
            record {
              member = m;
              joined = found;
              not_out = parts.0;
              by_member = parts.2;
              the_answer = parts.3;
            },
            parts.1,
          )
