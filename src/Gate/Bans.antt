-- ===== src/Gate/Bans.antt =====
-- gate/spaces.mjs: a ban sticks and a space keeps its owner, whatever the gate is asked afterwards.
use lortnoc_tahc.Base.{
  ℕ, ◌≡◌, refl, sym, ◌∙◌, Bool, true, false, not, ◌||◌, ◌&&◌, Option, none, some, List, [], ◌∷◌,
  ◌++◌, All, if◌then◌else◌, length, ◌==◌, list_eq, list_eq_self, list_eq_sound, Text, arith,
  both_true, if_either, Bool-cases, Option-cases, inl, inr,
}
use lortnoc_tahc.Gate.{Answer, thrown, denied, banned, is_hex}
use lortnoc_tahc.Gate.Spaces.{
  Signing, Space, Member, SpaceDb, find_space, find_member, is_row, update, set_pub, set_out,
  member_id_for, is_bad_key, ban_message, register_message, is_space, has_at, register,
  register_row, admit, admit_row, new_key, ban, ban_owned, ban_row,
}

-- What the gate is asked.
pub data Request : Type 0 where
  registering : ℕ → Text → Text → Text → Request
  admitting : ℕ → Text → Text → Option Text → Request
  banning : Text → Text → Text → Bool → Request

module _ (c : Signing) where
  unfoldable pub serve : SpaceDb → Request → SpaceDb
  serve db (registering now space owner sig) = (register c db now space owner sig).0
  serve db (admitting now space nullifier key) = (admit c db now space nullifier key).0
  serve db (banning space id sig unban) = (ban c db space id sig unban).0

  unfoldable pub serve_all : SpaceDb → List Request → SpaceDb
  unfolding serve
  serve_all db [] = db
  serve_all db (r ∷ rest) = serve_all (serve db r) rest

-- The request lifts the ban on this member of this space.
abbrev pub lifts : Text → Text → Request → Bool
lifts space id (banning s m sig unban) = unban && (list_eq s space && list_eq m id)
lifts space id _ = false

abbrev pub is_out_row : Option Member → Bool
is_out_row none = false
is_out_row (some m) = m.is_out

unfoldable pub is_banned : SpaceDb → Text → Text → Bool
is_banned db space id = is_out_row (find_member db.members space id)

-- Every change of a row keeps its keys.
abbrev pub KeepsKeys : (Member → Member) → Type 0
KeepsKeys change = (m : Member) (s i : Text) → is_row s i (change m) ≡ is_row s i m

-- A change of other rows, or one that never lifts a ban, leaves a member out.
find_member-update :
    (change : Member → Member) (rows : List Member) (space id s i : Text)
    → KeepsKeys change
    → ((m : Member)
        → is_row s i m ≡ true
        → is_row space id m ≡ true
        → m.is_out ≡ true
        → (change m).is_out ≡ true)
    → is_out_row (find_member rows s i) ≡ true
    → is_out_row (find_member (update change rows space id) s i) ≡ true
unfolding find_member update
find_member-update change [] space id s i keeps out h = h
find_member-update change (m ∷ rest) space id s i keeps out h = elim (Bool-cases (is_row s i m)) [
  | inl mine ↦ elim (Bool-cases (is_row space id m)) [
    | inl changed ↦ rw (changed, keeps m s i, mine) (out m mine changed (rw (mine) at h))
    | inr kept ↦ rw (kept, mine) (rw mine at h)
  ]
  | inr other ↦
      let later = find_member-update change rest space id s i keeps out (rw other at h) in
      elim (Bool-cases (is_row space id m)) [
        | inl changed ↦ rw (changed, keeps m s i, other) later
        | inr kept ↦ rw (kept, other) later
      ]
]

pub find_member-append :
    (rows more : List Member) (s i : Text) (m : Member)
    → find_member rows s i ≡ some m
    → find_member (rows ++ more) s i ≡ some m
unfolding find_member
find_member-append [] more s i m h = absurd cc
find_member-append (n ∷ rest) more s i m h = ground (arith, h, find_member-append rest more s i m)

set_pub-KeepsKeys : (key : Text) → KeepsKeys (set_pub key)
set_pub-KeepsKeys key m s i = refl

set_out-KeepsKeys : (out : Bool) → KeepsKeys (set_out out)
set_out-KeepsKeys out m s i = refl

is_banned-append :
    (rows more : List Member) (s i : Text)
    → is_out_row (find_member rows s i) ≡ true
    → is_out_row (find_member (rows ++ more) s i) ≡ true
is_banned-append rows more s i h = elim (Option-cases (find_member rows s i)) [
  | inl missing ↦ absurd cc
  | inr found ↦ rw (find_member-append rows more s i found.0 found.1) (rw found.1 at h)
]

-- Two keys of one row are the same.
pub lifts_both :
    (m : Member) (s i space id : Text)
    → is_row s i m ≡ true
    → is_row space id m ≡ true
    → (list_eq space s && list_eq id i) ≡ true
lifts_both m s i space id mine its =
    let a = both_true (list_eq m.space s) (list_eq m.member_id i) mine in
    let b = both_true (list_eq m.space space) (list_eq m.member_id id) its in
    let e = sym (list_eq_sound m.space space b.0) ∙ list_eq_sound m.space s a.0 in
    let f = sym (list_eq_sound m.member_id id b.1) ∙ list_eq_sound m.member_id i a.1 in
    rw (e, f) (ground (arith, list_eq_self s, list_eq_self i))

abbrev Out : Text → Text → {A : Type 0} → SpaceDb × A → Type 0
Out s i r = is_banned r.0 s i ≡ true

module _ (c : Signing) where
  admit_banned :
      (db : SpaceDb) (now : ℕ) (space id nullifier : Text) (key : Option Text)
      → is_banned db space id ≡ true
      → admit_row c db now space id nullifier key (find_member db.members space id)
        ≡ (db, denied banned)
  unfolding is_banned admit_row
  admit_banned db now space id nullifier key h = go (find_member db.members space id) h
    where
      go :
          (row : Option Member)
          → is_out_row row ≡ true
          → admit_row c db now space id nullifier key row ≡ (db, denied banned)
      go none out = absurd cc
      go (some m) out = rw out refl

  new_key-is_banned :
      (db : SpaceDb) (space id : Text) (key : Option Text) (s i : Text)
      → is_banned db s i ≡ true
      → is_banned (new_key c db space id key) s i ≡ true
  unfolding new_key is_banned
  new_key-is_banned db space id none s i h = h
  new_key-is_banned db space id (some key) s i h =
      let updated =
        find_member-update (set_pub key) db.members space id s i (set_pub-KeepsKeys key)
          (λ m mine its out. out) h in
      elim (Bool-cases (length key == 0)) [ inl empty ↦ rw empty h | inr sent ↦ rw sent updated ]

  admit-is_banned :
      (db : SpaceDb) (now : ℕ) (space id nullifier : Text) (key : Option Text) (row : Option Member)
      (s i : Text)
      → is_banned db s i ≡ true
      → is_banned (admit_row c db now space id nullifier key row).0 s i ≡ true
  unfolding admit_row is_banned
  admit-is_banned db now space id nullifier key (some m) s i h =
      if_either (Out s i) m.is_out h
        (if_either (Out s i) (is_bad_key c key) h (new_key-is_banned db space id key s i h))
  admit-is_banned db now space id nullifier key none s i h =
      if_either (Out s i) (is_bad_key c key) h (is_banned-append db.members _ s i h)

  ban-is_banned :
      (db : SpaceDb) (space id sig : Text) (unban : Bool) (row : Option Space) (s i : Text)
      → lifts s i (banning space id sig unban) ≡ false
      → is_banned db s i ≡ true
      → is_banned (ban_owned c db space id sig unban row).0 s i ≡ true
  unfolding ban_owned ban_row is_banned
  ban-is_banned db space id sig unban none s i stays h = h
  ban-is_banned db space id sig unban (some owned) s i stays h =
      if_either (Out s i) (not (c.verify owned.owner (ban_message space id unban) sig)) h
        (row_stays (find_member db.members space id))
    where
      still : (m : Member) → is_row s i m ≡ true → is_row space id m ≡ true → not unban ≡ true
      still m mine its = ground (arith, stays, lifts_both m s i space id mine its)

      row_stays : (row : Option Member) → is_banned (ban_row c db space id unban row).0 s i ≡ true
      row_stays none = h
      row_stays (some m) =
          find_member-update (set_out (not unban)) db.members space id s i
            (set_out-KeepsKeys (not unban)) (λ m mine its out. still m mine its) h

  register-is_banned :
      (db : SpaceDb) (now : ℕ) (space owner : Text) (row : Option Space) (s i : Text)
      → is_banned db s i ≡ true
      → is_banned (register_row c db now space owner row).0 s i ≡ true
  unfolding register_row is_banned
  register-is_banned db now space owner (some r) s i h =
      if_either (Out s i) (list_eq r.owner owner) h h
  register-is_banned db now space owner none s i h = h

  serve-is_banned :
      (db : SpaceDb) (r : Request) (s i : Text)
      → lifts s i r ≡ false
      → is_banned db s i ≡ true
      → is_banned (serve c db r) s i ≡ true
  unfolding serve register admit ban
  serve-is_banned db (registering now space owner sig) s i stays h =
      let row = register_row c db now space owner (find_space db.spaces space) in
      let signed = not (c.verify owner (register_message space owner) sig) in
      let keyed = not (is_hex 64 owner) in
      if_either Kept (not (is_space space) || has_at space)
        {y = if keyed then (db, thrown 400) else if signed then (db, thrown 403) else row} h
        (if_either Kept keyed {y = if signed then (db, thrown 403) else row} h (
          if_either Kept signed {y = row} h
            (register-is_banned db now space owner (find_space db.spaces space) s i h)))
    where
      Kept : SpaceDb × Answer (Text × Text) → Type 0
      Kept r = is_banned r.0 s i ≡ true
  serve-is_banned db (admitting now space nullifier key) s i stays h =
      admit-is_banned db now space _ nullifier key _ s i h
  serve-is_banned db (banning space id sig unban) s i stays h =
      ban-is_banned db space id sig unban _ s i stays h

  serve_all-is_banned :
      (db : SpaceDb) (requests : List Request) (s i : Text)
      → All (λ r. lifts s i r ≡ false) requests
      → is_banned db s i ≡ true
      → is_banned (serve_all c db requests) s i ≡ true
  unfolding serve_all
  serve_all-is_banned db [] s i stays h = h
  serve_all-is_banned db (r ∷ rest) s i stays h =
      serve_all-is_banned (serve c db r) rest s i stays.1 (serve-is_banned db r s i stays.0 h)

  -- A banned member stays out: after any requests of which none lifts the ban, whoever comes with the
  -- nullifier of that member, under whatever key and at whatever time, is denied as banned, and the
  -- tables stay as they are.
  pub ban_sticks :
      (db : SpaceDb) (requests : List Request) (space nullifier : Text) (now : ℕ)
      (key : Option Text)
      → is_banned db space (member_id_for c space nullifier) ≡ true
      → All (λ r. lifts space (member_id_for c space nullifier) r ≡ false) requests
      → admit c (serve_all c db requests) now space nullifier key
        ≡ (serve_all c db requests, denied banned)
  unfolding admit
  ban_sticks db requests space nullifier now key out stays =
      admit_banned (serve_all c db requests) now space (member_id_for c space nullifier) nullifier
        key (serve_all-is_banned db requests space (member_id_for c space nullifier) stays out)
