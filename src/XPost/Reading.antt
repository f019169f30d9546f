-- ===== src/XPost/Reading.antt =====
-- extension-x/src/content/index.ts: `decode` and `openCipher`, and extension-x/src/content/inbound.ts: what
-- the scan does with the text of a post that is new to it, until `decode` has answered. The answers of the
-- service worker and the identity are fields of `XReader`; an exception of `sendMessage` is not modelled.
use lortnoc_tahc.Base.{
  ℕ, Bool, true, false, Option, none, some, List, [], ◌∷◌, if◌then◌else◌, includes, Bytes, Text,
}
use lortnoc_tahc.Keys.{KeyPair, codes}
use lortnoc_tahc.Squeeze.{unsqueeze_maybe}
use lortnoc_tahc.Envelope.{try_decrypt_bytes, open_sealed}
use lortnoc_tahc.XPost.{XBuild, derive_public_channel_key}
use lortnoc_tahc.XFrame.{XMode, public_channel, shared, recipients, XPart, parse_x_frame}
use lortnoc_tahc.XFrame.Tags.{strip_tag}
use lortnoc_tahc.XThread.{Thread, offer}

-- The answer to DECODE.
pub data XReply : Type 0 where
  not_decoded : Text → XReply
  bytes_of : Bytes → XReply

pub record XReader : Type 0 where
  pub build : XBuild
  pub ask : Text → XReply
  -- `identity.current()`, nothing while it is locked
  pub identity : Option KeyPair

-- What `openCipher` gives: null, RETRY, or the text.
pub data XText : Type 0 where
  illegible identity_locked : XText
  legible : Text → XText

-- What `decode` gives: null, RETRY, the text of a post, or of a thread's part its thread, its place, the
-- text where the thread is complete, and whether it failed.
pub data XRead : Type 0 where
  nothing_shown try_again : XRead
  shown : Text → XRead
  thread_part : Option ℕ → ℕ → ℕ → Option Text → Bool → XRead

abbrev pub text_or_illegible : Option Text → XText
text_or_illegible none = illegible
text_or_illegible (some text) = legible text

abbrev pub read_text : XText → XRead
read_text illegible = nothing_shown
read_text identity_locked = try_again
read_text (legible text) = shown text

abbrev pub read_part_text : XPart → XText → XRead
read_part_text p illegible = thread_part p.tid p.total p.seq none true
read_part_text p identity_locked = try_again
read_part_text p (legible text) = thread_part p.tid p.total p.seq (some text) false

abbrev pub open_plain : XBuild → Option Bytes → Bool → XText
open_plain build none squeezed = illegible
open_plain build (some plain) squeezed =
    text_or_illegible (unsqueeze_maybe build.table plain squeezed)

abbrev pub open_as : XBuild → Option KeyPair → Bytes → Bool → XText
open_as build none cipher squeezed = identity_locked
open_as build (some me) cipher squeezed =
    open_plain build (open_sealed build.crypto me.private me.public cipher) squeezed

abbrev pub open_public : XBuild → Bytes → Bool → XText
open_public build cipher squeezed =
    open_plain build
      (try_decrypt_bytes build.crypto (derive_public_channel_key build.crypto) cipher) squeezed

module _ (r : XReader) where
  -- `openCipher`
  unfoldable pub open_cipher : Bytes → XMode → Bool → XText
  open_cipher cipher recipients squeezed = open_as r.build r.identity cipher squeezed
  open_cipher cipher public_channel squeezed = open_public r.build cipher squeezed
  open_cipher cipher shared squeezed = open_public r.build cipher squeezed

  abbrev pub on_offered : XPart → List Thread × Option Bytes → List Thread × XRead
  on_offered p (threads, none) = (threads, thread_part p.tid p.total p.seq none false)
  on_offered p (threads, some cipher) =
      (threads, read_part_text p (open_cipher cipher p.mode p.squeezed))

  unfoldable pub on_part : List Thread → XPart → List Thread × XRead
  unfolding open_cipher offer
  on_part threads p =
      if p.threaded
      then on_offered p (offer threads p)
      else (threads, read_text (open_cipher p.payload p.mode p.squeezed))

  -- The second mode is not built.
  unfoldable pub on_mode : List Thread → XPart → XMode → List Thread × XRead
  unfolding on_part
  on_mode threads p public_channel = on_part threads p
  on_mode threads p recipients = on_part threads p
  on_mode threads p shared = (threads, nothing_shown)

  unfoldable pub on_frame : List Thread → Option XPart → List Thread × XRead
  unfolding on_mode
  on_frame threads none = (threads, nothing_shown)
  on_frame threads (some p) = on_mode threads p p.mode

  unfoldable pub on_reply : List Thread → XReply → List Thread × XRead
  unfolding on_frame parse_x_frame
  on_reply threads (not_decoded error) =
      (threads, if includes (codes "422") error then nothing_shown else try_again)
  on_reply threads (bytes_of bytes) = on_frame threads (parse_x_frame bytes)

  -- `decode`, with the collector of the threads before and after.
  unfoldable pub decode_cover : List Thread → Text → List Thread × XRead
  unfolding on_reply
  decode_cover threads cover = on_reply threads (r.ask cover)

  -- A post without the hashtag, or with nothing but it, is not asked about.
  unfoldable pub on_stripped : List Thread → Option Text → List Thread × XRead
  unfolding decode_cover
  on_stripped threads none = (threads, nothing_shown)
  on_stripped threads (some []) = (threads, nothing_shown)
  on_stripped threads (some (c ∷ cover)) = decode_cover threads (c ∷ cover)

  unfoldable pub read_post : List Thread → Text → List Thread × XRead
  unfolding on_stripped strip_tag
  read_post threads post = on_stripped threads (strip_tag post)

  -- A reader who meets posts one after the other, each for the first time: what the last one gives.
  unfoldable pub read_posts : List Thread → List Text → XRead
  unfolding read_post
  read_posts threads [] = nothing_shown
  read_posts threads (post ∷ []) = (read_post threads post).1
  read_posts threads (post ∷ next ∷ posts) = read_posts (read_post threads post).0 (next ∷ posts)
