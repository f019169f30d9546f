-- ===== src/XPost.antt =====
-- extension-x/src/content/index.ts: `swap`, from the text of a post to the posts to publish, with
-- `resolveRecipients` and `coverFor`, and `derivePublicChannelKey` of shared/keys.mjs. The answers of the
-- service worker and what `sealTo` draws at random are fields of `XWorld`. The chunk size is computed on
-- exact fractions where the source rounds a double.
pub mod Reading
pub mod Built
pub mod Parts
pub mod Arrives
pub mod Posts
pub mod Recipients
pub mod Tests
pub mod ReadTests
use lortnoc_tahc.Base.{
  ℕ, zero, suc, ◌+◌, ◌*◌, ◌-◌, ◌/◌, ◌^◌, max, Bool, Option, none, some, List, [], ◌∷◌, ◌++◌,
  if◌then◌else◌, ltb, leb, length, Bytes, Text,
}
use lortnoc_tahc.Keys.{Crypto, codes}
use lortnoc_tahc.Squeeze.{squeeze_if_smaller}
use lortnoc_tahc.Envelope.{encrypt_bytes, seal_for}
use lortnoc_tahc.XFrame.{
  XMode, public_channel, recipients, max_parts, hashtag, ceil_div, build_x_frames, append_tag,
}

abbrev pub post_limit : ℕ
post_limit = 280

abbrev pub tag_cost : ℕ
tag_cost = length hashtag + 1

-- What the extension is built with: third-party cryptography, and the table of shared/squeeze.mjs.
pub record XBuild : Type 0 where
  pub crypto : Crypto
  pub table : List Text

-- `K_PUBLIC`
unfoldable pub derive_public_channel_key : Crypto → Bytes
derive_public_channel_key c =
    c.hkdf (codes "lortnoc tahc public channel v1") (codes "lortnoc/x/public/v1") (codes "x-public")
      64

-- What `swap` calls. `resolve` is the key of a handle as `fromHex` reads it, nothing if RESOLVE failed
-- or found no key: `fromHex` takes any text, a digit that is none becoming a byte 0. `configured` is what `configuredRecipients` returns.
pub record XWorld : Type 0 where
  pub build : XBuild
  pub configured : List Text
  pub resolve : Text → Option Bytes
  -- the private ephemeral key and the seed that `sealTo` draws
  pub ephemeral : Bytes
  pub seed : Bytes
  -- the cover text for a frame, nothing if the codec refused or failed
  pub encode : Bytes → Option Text

-- `Math.max(2, Math.floor(budget * shrink / charsPerByte) - THREADED_HEADER)`, where the first cover
-- had `chars` characters for a frame of `frame_bytes` bytes.
abbrev pub chunk_for : ℕ → ℕ → ℕ → ℕ
chunk_for attempt chars frame_bytes = max 2 (
    ((post_limit - tag_cost) * 78 ^ (attempt + 1) * frame_bytes)
      / (100 ^ (attempt + 1) * (chars - tag_cost))
    - 4)

abbrev pub max_attempts : ℕ
max_attempts = 3

module _ (w : XWorld) where
  unfoldable pub add_key : Text → Option Bytes → List Bytes × List Text → List Bytes × List Text
  add_key h none (pubs, missing) = (pubs, h ∷ missing)
  add_key h (some key) (pubs, missing) = (key ∷ pubs, missing)

  -- The keys found and the handles without one.
  unfoldable pub resolve_recipients : List Text → List Bytes × List Text
  unfolding add_key
  resolve_recipients [] = ([], [])
  resolve_recipients (h ∷ hs) = add_key h (w.resolve h) (resolve_recipients hs)

  abbrev tagged : Option Text → Option Text
  tagged none = none
  tagged (some t) = some (append_tag t)

  unfoldable pub cover_for : Bytes → Option Text
  cover_for frame = tagged (w.encode frame)

  pub data Covers : Type 0 where
    refused overflow : Covers
    fitted : List Text → Covers

  abbrev with_cover : Text → Covers → Covers
  with_cover c (fitted cs) = fitted (c ∷ cs)
  with_cover c refused = refused
  with_cover c overflow = overflow

  unfoldable pub cover_next : Option Text → Covers → Covers
  cover_next none rest = refused
  cover_next (some c) rest = if ltb post_limit (length c) then overflow else with_cover c rest

  -- The loop over the frames of one attempt.
  unfoldable pub cover_all : List Bytes → Covers
  unfolding cover_next cover_for
  cover_all [] = fitted []
  cover_all (f ∷ fs) = cover_next (cover_for f) (cover_all fs)

  abbrev pub cover_frames : Option (List Bytes) → Covers
  cover_frames none = refused
  cover_frames (some frames) = cover_all frames

  -- One attempt of the loop.
  unfoldable pub split_once : XMode → Bytes → Bool → ℕ → Covers
  unfolding cover_all build_x_frames
  split_once mode cipher squeezed chunk =
      if ltb max_parts (ceil_div (length cipher) chunk)
      then refused
      else cover_frames (build_x_frames mode cipher squeezed (some chunk))

  abbrev pub or_retry : Covers → Option (List Text) → Option (List Text)
  or_retry refused rest = none
  or_retry (fitted posts) rest = some posts
  or_retry overflow rest = rest

  -- `n` attempts from this one on.
  unfoldable pub split : ℕ → ℕ → XMode → Bytes → Bool → ℕ → ℕ → Option (List Text)
  split zero attempt mode cipher squeezed chars frame_bytes = none
  split (suc n) attempt mode cipher squeezed chars frame_bytes =
      or_retry (split_once mode cipher squeezed (chunk_for attempt chars frame_bytes))
        (split n (attempt + 1) mode cipher squeezed chars frame_bytes)

  -- What follows the first cover.
  unfoldable pub after_first : XMode → Bytes → Bool → Bytes → Option Text → Option (List Text)
  unfolding split
  after_first mode cipher squeezed single none = none
  after_first mode cipher squeezed single (some cover) =
      if leb (length cover) post_limit
      then some (cover ∷ [])
      else split max_attempts 0 mode cipher squeezed (length cover) (length single)

  unfoldable pub post_frames : XMode → Bytes → Bool → Option (List Bytes) → Option (List Text)
  unfolding after_first cover_for
  post_frames mode cipher squeezed none = none
  post_frames mode cipher squeezed (some []) = none
  post_frames mode cipher squeezed (some (single ∷ fs)) =
      after_first mode cipher squeezed single (cover_for single)

  unfoldable pub post_cipher : Bool → Option (XMode × Bytes) → Option (List Text)
  unfolding post_frames build_x_frames
  post_cipher squeezed none = none
  post_cipher squeezed (some (mode, cipher)) =
      post_frames mode cipher squeezed (build_x_frames mode cipher squeezed none)

  abbrev pub with_mode : XMode → Option Bytes → Option (XMode × Bytes)
  with_mode mode none = none
  with_mode mode (some cipher) = some (mode, cipher)

  -- Fails closed if a handle has no key, and where `sealTo` throws.
  unfoldable pub sealed_for : List Bytes → List Text → Bytes → Option (XMode × Bytes)
  sealed_for pubs [] bytes =
      with_mode recipients (seal_for w.build.crypto w.ephemeral w.seed pubs bytes)
  sealed_for pubs (h ∷ hs) bytes = none

  unfoldable pub encrypt_for : List Text → Bytes → Option (XMode × Bytes)
  unfolding sealed_for resolve_recipients
  encrypt_for [] bytes = some (
    public_channel,
    encrypt_bytes w.build.crypto (derive_public_channel_key w.build.crypto) bytes,
  )
  encrypt_for (h ∷ hs) bytes =
      let (pubs, missing) = resolve_recipients (h ∷ hs) in sealed_for pubs missing bytes

  unfoldable pub post_squeezed : Option (Bytes × Bool) → Option (List Text)
  unfolding post_cipher encrypt_for
  post_squeezed none = none
  post_squeezed (some (bytes, squeezed)) = post_cipher squeezed (encrypt_for w.configured bytes)

  unfoldable pub swap : Text → Option (List Text)
  unfolding post_squeezed
  swap real = post_squeezed (squeeze_if_smaller w.build.table real)
