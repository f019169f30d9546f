-- ===== src/Session/Storage.antt =====
-- `persist` and `loadSession`: a reload of the content script gives the session back.
use lortnoc_tahc.Base.{
  ◌≡◌, ◌≢◌, refl, Option, none, some, [], ◌∷◌, Bytes, IsBytes, from_b64-to_b64, to_b64-cons, ap,
}
use lortnoc_tahc.Keys.{KeyPair}
use lortnoc_tahc.Session.{
  Session, stored, bytes_or_null, load_session, b64_or_null, public_of, private_of, pair_or_null,
}

-- Bytes that survive storage: an empty array would be read back as null.
abbrev pub IsStorable : Option Bytes → Type 0
IsStorable none = Unit {0}
IsStorable (some bs) = IsBytes bs × (bs ≢ [])

pub record IsStorableSession (s : Session) : Type 0 where
  pub private : IsStorable (private_of s.key_pair)
  pub public : IsStorable (public_of s.key_pair)
  pub peer_pub : IsStorable s.peer_pub
  pub conv_key : IsStorable s.conv_key

bytes_or_null-b64 : (o : Option Bytes) → IsStorable o → bytes_or_null (b64_or_null o) ≡ o
unfolding bytes_or_null
bytes_or_null-b64 none h = refl
bytes_or_null-b64 (some []) h = absurd (h.1 refl)
bytes_or_null-b64 (some (b ∷ bs)) h =
    let (c, t, e) = to_b64-cons b bs in rw e (rw (← e) (ap some (from_b64-to_b64 (b ∷ bs) h.0)))

pair_or_null-parts : (kp : Option KeyPair) → pair_or_null (private_of kp) (public_of kp) ≡ kp
unfolding pair_or_null
pair_or_null-parts none = refl
pair_or_null-parts (some kp) = refl

-- Loading what was stored restores the key pair, the peer, the conversation key and the status, for
-- byte arrays that are not empty; the replay guard stays that of the session loaded into.
pub load_session-stored :
    (s t : Session)
    → IsStorableSession s
    → load_session (some (stored s)) t ≡ record s { handled_frames = t.handled_frames }
unfolding load_session stored
load_session-stored s t v = rw (
  bytes_or_null-b64 (private_of s.key_pair) v.private,
  bytes_or_null-b64 (public_of s.key_pair) v.public,
  bytes_or_null-b64 s.peer_pub v.peer_pub,
  bytes_or_null-b64 s.conv_key v.conv_key,
  pair_or_null-parts s.key_pair,
)
