-- ===== src/Gate/Attests.antt =====
-- gate/spaces.mjs: a countersignature takes the key that the member brought with the last admission.
use lortnoc_tahc.Base.{
  ℕ, ◌≡◌, refl, ap, sym, subst, some_inj, both_true, ◌∙◌, Bool, true, false, not, ◌&&◌, Option,
  none, some, List, [], ◌∷◌, ◌++◌, list_eq, list_eq_self, Text, arith, Bool-cases, inl, inr, length,
  if_cases, ◌==◌,
}
use lortnoc_tahc.Gate.{Answer, denied, given, banned, bad_member_key}
use lortnoc_tahc.Gate.Spaces.{
  Signing, Space, Member, SpaceDb, find_space, find_member, is_row, update, set_pub, set_out,
  register, register_row, has_at, admit, admit_row, new_key, is_bad_key, attest, signed_by,
  author_request, attestation, member_id_for, ban, ban_owned, ban_row, ban_message,
}
use lortnoc_tahc.Gate.Bans.{
  Request, registering, admitting, banning, serve, serve_all, KeepsKeys, find_member-append,
  lifts_both, is_banned, is_out_row,
}
use lortnoc_tahc.Gate.Owners.{attest-Signed}

-- The key in the row found.
abbrev key_of : Option Member → Option (Option Text)
key_of none = none
key_of (some m) = some m.member_pub

-- A change that keeps the key of one row keeps the key found.
update-key :
    (change : Member → Member) (rows : List Member) (space id s i : Text)
    → KeepsKeys change
    → ((m : Member)
        → is_row s i m ≡ true
        → is_row space id m ≡ true
        → (change m).member_pub ≡ m.member_pub)
    → key_of (find_member (update change rows space id) s i) ≡ key_of (find_member rows s i)
unfolding find_member update
update-key change [] space id s i keeps same = refl
update-key change (m ∷ rest) space id s i keeps same =
    let later = update-key change rest space id s i keeps same in
    elim (Bool-cases (is_row space id m)) [
      | inl changed ↦ elim (Bool-cases (is_row s i m)) [
        | inl mine ↦ rw (changed, keeps m s i, mine) (ap some (same m mine changed))
        | inr other ↦ rw (changed, keeps m s i, other) later
      ]
      | inr kept ↦ elim (Bool-cases (is_row s i m)) [
        | inl mine ↦ rw (kept, mine) refl
        | inr other ↦ rw (kept, other) later
      ]
    ]

-- A row that is found has the key it is changed to.
update-set_pub :
    (rows : List Member) (s i key : Text) (m : Member)
    → find_member rows s i ≡ some m
    → key_of (find_member (update (set_pub key) rows s i) s i) ≡ some (some key)
unfolding find_member update
update-set_pub [] s i key m h = absurd cc
update-set_pub (n ∷ rest) s i key m h = elim (Bool-cases (is_row s i n)) [
  | inl mine ↦ rw (mine, mine) refl
  | inr other ↦ rw (other, other) (update-set_pub rest s i key m (rw other at h))
]

append_new :
    (rows : List Member) (m : Member)
    → find_member rows m.space m.member_id ≡ none
    → find_member (rows ++ m ∷ []) m.space m.member_id ≡ some m
unfolding find_member
append_new [] m h = rw (list_eq_self m.space, list_eq_self m.member_id) refl
append_new (n ∷ rest) m h = elim (Bool-cases (is_row m.space m.member_id n)) [
  | inl mine ↦ absurd (found (rw mine at h))
  | inr other ↦ rw other (append_new rest m (rw other at h))
]
  where
    found : some n ≡ none → ⊥
    found e = cc

module _ (c : Signing) where
  -- The request is an admission of this member to this space.
  abbrev pub admits : Text → Text → Request → Bool
  admits space id (admitting now s nullifier key) =
      list_eq s space && list_eq (member_id_for c s nullifier) id
  admits space id _ = false

  abbrev pub NoneAdmits : Text → Text → List Request → Type 0
  NoneAdmits space id [] = Unit
  NoneAdmits space id (r ∷ rest) = (admits space id r ≡ false) × NoneAdmits space id rest

  -- Whoever is admitted with a key has it in their row.
  admit_row-key :
      (db : SpaceDb) (now : ℕ) (space id nullifier key answer : Text) (row : Option Member)
      → find_member db.members space id ≡ row
      → (length key == 0) ≡ false
      → (admit_row c db now space id nullifier (some key) row).1 ≡ given answer
      → key_of
          (find_member (admit_row c db now space id nullifier (some key) row).0.members space id)
        ≡ some (some key)
  unfolding admit_row new_key
  admit_row-key db now space id nullifier key answer (some m) found filled h =
      elim (Bool-cases m.is_out) [
        | inl out ↦ absurd (not_out (rw out at h))
        | inr stays ↦ elim (Bool-cases (is_bad_key c (some key))) [
          | inl bad ↦ absurd (not_bad (rw (stays, bad) at h))
          | inr good ↦ rw (stays, good, filled) (update-set_pub db.members space id key m found)
        ]
      ]
    where
      not_out : denied banned ≡ given answer → ⊥
      not_out e = cc

      not_bad : denied bad_member_key ≡ given answer → ⊥
      not_bad e = cc
  admit_row-key db now space id nullifier key answer none found filled h =
      elim (Bool-cases (is_bad_key c (some key))) [
        | inl bad ↦ absurd (not_bad (rw bad at h))
        | inr good ↦ rw good (ap key_of (append_new db.members joining found))
      ]
    where
      joining : Member
      joining = record {
        space = space;
        member_id = id;
        nullifier = nullifier;
        member_pub = some key;
        joined_at = now;
        is_out = false;
      }

      not_bad : denied bad_member_key ≡ given answer → ⊥
      not_bad e = cc

  module _ (space id key : Text) where
    -- The member's row has the key.
    abbrev Holds : List Member → Type 0
    Holds rows = key_of (find_member rows space id) ≡ some (some key)

    append-Holds : (rows more : List Member) → Holds rows → Holds (rows ++ more)
    append-Holds rows more h = go (find_member rows space id) refl h
      where
        go :
            (o : Option Member)
            → find_member rows space id ≡ o
            → key_of o ≡ some (some key)
            → Holds (rows ++ more)
        go none e k = absurd cc
        go (some m) e k = ap key_of (find_member-append rows more space id m e) ∙ k

    new_key-Holds :
        (db : SpaceDb) (s i : Text) (k : Option Text)
        → (list_eq s space && list_eq i id) ≡ false
        → Holds db.members
        → Holds (new_key c db s i k).members
    unfolding new_key
    new_key-Holds db s i none away h = h
    new_key-Holds db s i (some k) away h =
        if_cases (λ (d : SpaceDb). Holds d.members) (length k == 0) (λ _. h)
          (λ _.
            update-key (set_pub k) db.members s i space id (λ m t j. refl)
              (λ m mine its. absurd (both (lifts_both m space id s i mine its)))
            ∙ h)
      where
        both : (list_eq s space && list_eq i id) ≡ true → ⊥
        both e = ground (arith, away)

    admit_row-Holds :
        (db : SpaceDb) (now : ℕ) (s i nullifier : Text) (k : Option Text) (row : Option Member)
        → (list_eq s space && list_eq i id) ≡ false
        → Holds db.members
        → Holds (admit_row c db now s i nullifier k row).0.members
    unfolding admit_row
    admit_row-Holds db now s i nullifier k (some m) away h =
        if_cases Kept m.is_out (λ _. h)
          (λ _. if_cases Kept (is_bad_key c k) (λ _. h) (λ _. new_key-Holds db s i k away h))
      where
        Kept : SpaceDb × Answer Text → Type 0
        Kept r = Holds r.0.members
    admit_row-Holds db now s i nullifier k none away h =
        if_cases (λ (r : SpaceDb × Answer Text). Holds r.0.members) (is_bad_key c k) (λ _. h)
          (λ _. append-Holds db.members _ h)

    ban_owned-Holds :
        (db : SpaceDb) (s i sig : Text) (unban : Bool) (owned : Option Space)
        → Holds db.members
        → Holds (ban_owned c db s i sig unban owned).0.members
    unfolding ban_owned ban_row
    ban_owned-Holds db s i sig unban none h = h
    ban_owned-Holds db s i sig unban (some o) h =
        if_cases Kept (not (c.verify o.owner (ban_message s i unban) sig)) (λ _. h)
          (λ _. go (find_member db.members s i))
      where
        Kept : SpaceDb × Answer Bool → Type 0
        Kept r = Holds r.0.members

        go : (row : Option Member) → Kept (ban_row c db s i unban row)
        go none = h
        go (some m) =
            update-key (set_out (not unban)) db.members s i space id (λ n t j. refl)
              (λ n mine its. refl)
            ∙ h

    register_row-members :
        (db : SpaceDb) (now : ℕ) (s owner : Text) (row : Option Space)
        → (register_row c db now s owner row).0.members ≡ db.members
    unfolding register_row
    register_row-members db now s owner none = refl
    register_row-members db now s owner (some r) = ground arith

    register-members :
        (db : SpaceDb) (now : ℕ) (s owner sig : Text)
        → (register c db now s owner sig).0.members ≡ db.members
    unfolding register
    register-members db now s owner sig =
        ground (arith, register_row-members db now s owner (find_space db.spaces s))

    serve_all-Holds :
        (db : SpaceDb) (requests : List Request)
        → NoneAdmits space id requests
        → Holds db.members
        → Holds (serve_all c db requests).members
    unfolding serve_all serve admit ban
    serve_all-Holds db [] away h = h
    serve_all-Holds db (registering now s owner sig ∷ rest) (a, away) h =
        serve_all-Holds (serve c db (registering now s owner sig)) rest away (
          ap (λ rows. key_of (find_member rows space id)) (register-members db now s owner sig) ∙ h)
    serve_all-Holds db (admitting now s nullifier k ∷ rest) (a, away) h =
        serve_all-Holds (serve c db (admitting now s nullifier k)) rest away (
          admit_row-Holds db now s (member_id_for c s nullifier) nullifier k
            (find_member db.members s (member_id_for c s nullifier)) a h)
    serve_all-Holds db (banning s i sig unban ∷ rest) (a, away) h =
        serve_all-Holds (serve c db (banning s i sig unban)) rest away
          (ban_owned-Holds db s i sig unban (find_space db.spaces s) h)

  -- The gate has admitted a member to a space with a key that is not empty. Whatever it is asked
  -- afterwards, as long as it is no further admission of that member: if it countersigns a post for
  -- that member, the member is not banned then, by the gate or by an ENS space, the post's request is
  -- signed under that key, and the answer is the signature of the space, the member and the hash of
  -- the post.
  pub attest-last_key :
      (db : SpaceDb) (now : ℕ) (space nullifier key hash sig answer : Text) (ens_banned : Bool)
      (requests : List Request)
      → (length key == 0) ≡ false
      → let id = member_id_for c space nullifier in
        let later = serve_all c (admit c db now space nullifier (some key)).0 requests in
        (admit c db now space nullifier (some key)).1 ≡ given id
        → NoneAdmits space id requests
        → attest c later space id hash sig ens_banned ≡ given answer
        → (c.verify key (author_request space id hash) sig ≡ true)
          × (is_banned later space id ≡ false)
          × ((has_at space && ens_banned) ≡ false)
          × (answer ≡ c.sign (attestation space id hash))
  unfolding admit is_banned signed_by
  attest-last_key db now space nullifier key hash sig answer ens requests filled came away h =
      let id = member_id_for c space nullifier in
      let first = admit c db now space nullifier (some key) in
      let later = serve_all c first.0 requests in
      let held = serve_all-Holds space id key first.0 requests away (
        admit_row-key db now space id nullifier key id (find_member db.members space id) refl filled
          came) in
      let (signed, kept) = attest-Signed c later space id hash sig answer ens h in
      let same : some signed.member.member_pub ≡ some (some key) =
        sym (ap key_of signed.joined) ∙ held in
      (
        verified key (author_request space id hash) sig signed.member.member_pub (some_inj same)
            signed.by_member,
        ap is_out_row signed.joined ∙ signed.not_out,
        kept,
        signed.the_answer,
      )
    where
      verified :
          (key message sig : Text) (k : Option Text)
          → k ≡ some key
          → signed_by c k message sig ≡ true
          → c.verify key message sig ≡ true
      verified key message sig none e s = absurd cc
      verified key message sig (some l) e s =
          subst (λ k. c.verify k message sig ≡ true) (some_inj e)
            (both_true (not (length l == 0)) (c.verify l message sig) s).1
