-- ===== src/Session.antt =====
-- extension/src/content/session.ts: our key pair, the conversation key and the replay guard of one
-- content script. The module's variables `s` and `handledFrames` are the fields of one record, which
-- every operation takes and returns. `persist` writes `storage.session`: `stored` is what it writes.
-- Where the source makes a fresh key pair the operation takes the 32 random bytes as an argument.
pub mod Laws
pub mod Replay
pub mod Storage
pub mod Tests
use lortnoc_tahc.Base.{
  ℕ, ◌+◌, ◌/◌, ◌%◌, Bool, true, false, ◌||◌, Option, none, some, List, [], ◌∷◌, ◌++◌, if◌then◌else◌,
  ltb, list_eq, Bytes, Text, to_b64, from_b64,
}
use lortnoc_tahc.Frame.{FrameType, offer, ack, type_code, build_frame}
use lortnoc_tahc.Keys.{Crypto, KeyPair, gen_key_pair, derive_conv_key}

-- `idle` is the source's 'none'.
pub data Status : Type 0 where
  idle offered established : Status

abbrev pub is_established : Status → Bool
is_established established = true
is_established _ = false

pub record Session : Type 0 where
  pub key_pair : Option KeyPair
  pub peer_pub : Option Bytes
  pub conv_key : Option Bytes
  pub status : Status
  pub handled_frames : List Text

-- The state at module load.
abbrev pub fresh : Session
fresh = record {
  key_pair = none;
  peer_pub = none;
  conv_key = none;
  status = idle;
  handled_frames = [];
}

-- A hexadecimal digit below 16, and `b.toString(16).padStart(2, '0')` of a byte.
unfoldable pub hex_digit : ℕ → ℕ
hex_digit n = if ltb n 10 then n + b'0' else n + 87

unfoldable pub to_hex : Bytes → Text
unfolding hex_digit
to_hex [] = []
to_hex (b ∷ bs) = hex_digit (b / 16) ∷ hex_digit (b % 16) ∷ to_hex bs

-- `${type}:${hex}`; a frame type has one decimal digit.
unfoldable pub frame_key : FrameType → Bytes → Text
unfolding to_hex type_code
frame_key type public = (type_code type + b'0') ∷ b':' ∷ to_hex public

unfoldable pub has : List Text → Text → Bool
unfolding list_eq
has [] k = false
has (j ∷ js) k = list_eq j k || has js k

-- The session afterwards, and whether the frame was already acted on.
unfoldable pub already_handled : Session → FrameType → Bytes → Session × Bool
unfolding has frame_key
already_handled s type public =
    let k = frame_key type public in
    if has s.handled_frames k
    then (s, true)
    else (record s { handled_frames = k ∷ s.handled_frames }, false)

unfoldable pub clear_handled_frames : Session → Session
clear_handled_frames s = record s { handled_frames = [] }

unfoldable pub matches : Option Bytes → Bytes → Bool
unfolding list_eq
matches none public = false
matches (some mine) public = list_eq mine public

abbrev pub public_of : Option KeyPair → Option Bytes
public_of none = none
public_of (some kp) = some kp.public

unfoldable pub is_mine : Session → Bytes → Bool
unfolding matches
is_mine s public = matches (public_of s.key_pair) public

unfoldable pub is_peer : Session → Bytes → Bool
unfolding matches
is_peer s public = matches s.peer_pub public

module _ (c : Crypto) where
  -- The key pair that there is, or a new one.
  abbrev pub key_pair_or : Option KeyPair → Bytes → KeyPair
  key_pair_or none random = gen_key_pair c random
  key_pair_or (some kp) random = kp

  unfoldable pub ensure_key_pair : Session → Bytes → Session × KeyPair
  ensure_key_pair s random =
      let kp = key_pair_or s.key_pair random in (record s { key_pair = some kp }, kp)

  unfoldable pub start_offer : Session → Bytes → Session × Bytes
  unfolding ensure_key_pair
  start_offer s random =
      let (s', kp) = ensure_key_pair s random in
      (record s' { status = offered }, build_frame offer kp.public)

  -- The assignments that `onAck` and `acceptOffer` share; `deriveConvKey` throws between the first and
  -- the second of them for a peer key of low order.
  unfoldable pub establish : Session → KeyPair → Bytes → Session
  establish s kp peer = if c.low_order peer then record s { peer_pub = some peer } else record s {
    peer_pub = some peer;
    conv_key = some (derive_conv_key c kp.private peer kp.public);
    status = established;
  }

  unfoldable pub on_ack : Session → Bytes → Bytes → Session
  unfolding ensure_key_pair establish
  on_ack s random peer = let (s', kp) = ensure_key_pair s random in establish s' kp peer

  -- No frame when it throws.
  unfoldable pub accept_offer : Session → Bytes → Bytes → Session × Option Bytes
  unfolding ensure_key_pair establish
  accept_offer s random peer =
      let (s', kp) = ensure_key_pair s random in
      (establish s' kp peer, if c.low_order peer then none else some (build_frame ack kp.public))

unfoldable pub reset : Session → Session
reset s = record s {
  key_pair = none;
  peer_pub = none;
  conv_key = none;
  status = idle;
  handled_frames = [];
}

-- The record under `hs` in `storage.session`.
pub record Stored : Type 0 where
  pub priv : Option Text
  pub public : Option Text
  pub peer_pub : Option Text
  pub conv_key : Option Text
  pub status : Status

abbrev pub b64_or_null : Option Bytes → Option Text
b64_or_null none = none
b64_or_null (some bs) = some (to_b64 bs)

abbrev pub private_of : Option KeyPair → Option Bytes
private_of none = none
private_of (some kp) = some kp.private

unfoldable pub stored : Session → Stored
stored s = record {
  priv = b64_or_null (private_of s.key_pair);
  public = b64_or_null (public_of s.key_pair);
  peer_pub = b64_or_null s.peer_pub;
  conv_key = b64_or_null s.conv_key;
  status = s.status;
}

-- `x ? unb64(x) : null`: null and the empty text are false.
unfoldable pub bytes_or_null : Option Text → Option Bytes
bytes_or_null none = none
bytes_or_null (some []) = none
bytes_or_null (some (c ∷ t)) = some (from_b64 (c ∷ t))

unfoldable pub pair_or_null : Option Bytes → Option Bytes → Option KeyPair
pair_or_null none public = none
pair_or_null (some priv) none = none
pair_or_null (some priv) (some public) = some (record { private = priv; public = public })

-- Nothing stored leaves the session as it is.
unfoldable pub load_session : Option Stored → Session → Session
unfolding bytes_or_null pair_or_null
load_session none s = s
load_session (some got) s = record s {
  key_pair = pair_or_null (bytes_or_null got.priv) (bytes_or_null got.public);
  peer_pub = bytes_or_null got.peer_pub;
  conv_key = bytes_or_null got.conv_key;
  status = got.status;
}
