-- ===== src/Broker.antt =====
-- extension/src/background/index.ts: the service worker between the content script and the codec.
-- What `fetch` did is an argument: it threw, with the text of the exception, or it answered with a
-- status and the parsed body. A status has three decimal digits.
pub mod Laws
pub mod Tests
use lortnoc_tahc.Base.{
  ℕ, ◌+◌, ◌/◌, ◌%◌, Bool, false, ◌&&◌, ◌||◌, Option, none, some, List, [], ◌∷◌, ◌++◌, if◌then◌else◌,
  leb, ltb, ◌==◌, Bytes, Text, from_b64,
}
use lortnoc_tahc.Keys.{codes}
use lortnoc_tahc.Connect.{DecodeReply, failed, decoded}
use lortnoc_tahc.Swap.{EncodeReply, EncodeData, refused, encoded}

abbrev pub default_codec_url : Text
default_codec_url = codes "https://lortnoc-codec.fly.dev"

-- `url.replace(/\/+$/, '')`, from the right end.
unfoldable pub cons_stripped : ℕ → Text → Text
cons_stripped c [] = if c == b'/' then [] else c ∷ []
cons_stripped c (d ∷ u) = c ∷ d ∷ u

unfoldable pub strip_slashes : Text → Text
unfolding cons_stripped
strip_slashes [] = []
strip_slashes (c ∷ t) = cons_stripped c (strip_slashes t)

-- `(got as string) || DEFAULT_CODEC_URL`
unfoldable pub codec_base : Option Text → Text
unfolding strip_slashes
codec_base none = strip_slashes default_codec_url
codec_base (some []) = strip_slashes default_codec_url
codec_base (some (c ∷ t)) = strip_slashes (c ∷ t)

pub data Fetched (A : Type 0) : Type 0 where
  unreachable : Text → Fetched A
  answered : ℕ → A → Fetched A

-- `r.ok`
abbrev pub is_ok : ℕ → Bool
is_ok status = leb 200 status && ltb status 300

abbrev pub status_text : ℕ → Text
status_text n = (n / 100 % 10 + b'0') ∷ (n / 10 % 10 + b'0') ∷ (n % 10 + b'0') ∷ []

-- The ENCODE branch, as the content script reads it: only a failure of the codec carries a status.
unfoldable pub handle_encode : Fetched EncodeData → EncodeReply
handle_encode (unreachable e) = refused none
handle_encode (answered status body) = if is_ok status then encoded body else refused (some status)

-- The DECODE branch: the body holds the bytes in base64.
unfoldable pub handle_decode : Fetched Text → DecodeReply
handle_decode (unreachable e) = failed (codes "codec unreachable: " ++ e)
handle_decode (answered status body) =
    if is_ok status then decoded (from_b64 body) else failed (codes "decode " ++ status_text status)

-- What the popup reads of the answer to HEALTH.
pub data HealthReply (A : Type 0) : Type 0 where
  unhealthy : Text → HealthReply A
  healthy : A → HealthReply A

-- The HEALTH branch.
unfoldable pub handle_health : {A : Type 0} → Fetched A → HealthReply A
handle_health (unreachable e) = unhealthy (codes "codec unreachable: " ++ e)
handle_health (answered status body) =
    if is_ok status then healthy body else unhealthy (codes "health " ++ status_text status)

-- `iconSet`, by the size of the icon.
unfoldable pub icon_set : Bool → List (ℕ × Text)
icon_set on =
    let v = if on then codes "on" else codes "off" in
    (16, codes "icons/" ++ (v ++ codes "-16.png"))
    ∷ (32, codes "icons/" ++ (v ++ codes "-32.png"))
    ∷ (48, codes "icons/" ++ (v ++ codes "-48.png"))
    ∷ (128, codes "icons/" ++ (v ++ codes "-128.png"))
    ∷ []

-- `got[LOCAL.enabled] === true`, none for a value that is no Boolean.
abbrev pub is_enabled : Option Bool → Bool
is_enabled none = false
is_enabled (some b) = b

-- The icons and the title that `reflectState` sets for what is stored.
unfoldable pub reflect_state : Option Bool → List (ℕ × Text) × Text
unfolding icon_set
reflect_state stored =
    let on = is_enabled stored in
    (
      icon_set on,
      if on
          then codes "lortnoc tahc — PrivacyMaxxing ON"
          else codes "lortnoc tahc — PrivacyMaxxing off",
    )
