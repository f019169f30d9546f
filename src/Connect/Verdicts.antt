-- ===== src/Connect/Verdicts.antt =====
-- What the inbound decision decides, and when a key mismatch is announced.
use lortnoc_tahc.Base.{
  ℕ, zero, suc, ◌+◌, ◌≡◌, ◌↔◌, refl, Bool, true, false, not, ◌&&◌, Option, none, some, List, [],
  ◌∷◌, ◌++◌, leb, if◌then◌else◌, includes, Bytes, arith,
}
use lortnoc_tahc.Frame.{Frame, parse_frame}
use lortnoc_tahc.Keys.{Crypto, try_decrypt, codes}
use lortnoc_tahc.Session.{is_established}
use lortnoc_tahc.Connect.{
  World, Content, Effect, toasted, delivered, rescanned, raised, after_frame, handle_frame,
  key_mismatch, note_tag_failure, DecodeReply, thrown, failed, decoded, retry, not_ours, message,
  open_message, on_bytes, on_decode,
}

after_frame-message : (es : List Effect) (text : Bytes) → after_frame es ≡ message text → ⊥
after_frame-message [] text e = cc
after_frame-message (raised ∷ es) text e = cc
after_frame-message (toasted t ∷ es) text e = cc
after_frame-message (delivered t ∷ es) text e = cc
after_frame-message (rescanned ∷ es) text e = cc

after_frame-retry : (es : List Effect) → after_frame es ≡ retry → ⊥
after_frame-retry [] e = cc
after_frame-retry (raised ∷ es) e = cc
after_frame-retry (toasted t ∷ es) e = cc
after_frame-retry (delivered t ∷ es) e = cc
after_frame-retry (rescanned ∷ es) e = cc

module _ (c : Crypto) (w : World) where
  open_message_shows :
      (s : Content) (bytes : Bytes) (ko : Option Bytes) (text : Bytes)
      → (open_message c w s bytes ko).2 ≡ message text
      → (key : Bytes) × (ko ≡ some key) × (try_decrypt c key bytes ≡ some text)
  unfolding open_message
  open_message_shows s bytes none text e = cc
  open_message_shows s bytes (some key) text e = (key, refl, ground arith)

  open_message_hit :
      (s : Content) (bytes : Bytes) (ko : Option Bytes) (key text : Bytes)
      → ko ≡ some key
      → try_decrypt c key bytes ≡ some text
      → (open_message c w s bytes ko).2 ≡ message text
  unfolding open_message
  open_message_hit s bytes none key text k d = cc
  open_message_hit s bytes (some key') key text k d = ground arith

  abbrev Opens : Content → Bytes → Option Frame → Bytes → Type 0
  Opens s bytes frame text =
      (key : Bytes) × (frame ≡ none)
      × (s.session.conv_key ≡ some key)
      × (try_decrypt c key bytes ≡ some text)

  on_bytes_shows :
      (s : Content) (bytes : Bytes) (frame : Option Frame) (old : Bool) (text : Bytes)
      → (on_bytes c w s bytes frame old).2 ≡ message text
      → Opens s bytes frame text
  unfolding on_bytes
  on_bytes_shows s bytes none old text e =
      let (key, k, d) = open_message_shows s bytes s.session.conv_key text e in (key, refl, k, d)
  on_bytes_shows s bytes (some frame) true text e = cc
  on_bytes_shows s bytes (some frame) false text e =
      absurd (after_frame-message (handle_frame c w s frame.type frame.pubkey).1 text e)

  abbrev Shows : Content → DecodeReply → Bytes → Type 0
  Shows s reply text =
      (bytes : Bytes) × (key : Bytes) × (reply ≡ decoded bytes)
      × (parse_frame bytes ≡ none)
      × (s.session.conv_key ≡ some key)
      × (try_decrypt c key bytes ≡ some text)

  on_decode-Shows :
      (s : Content) (reply : DecodeReply) (old : Bool) (text : Bytes)
      → (on_decode c w s reply old).2 ≡ message text
      → Shows s reply text
  unfolding on_decode
  on_decode-Shows s thrown old text e = cc
  on_decode-Shows s (failed error) old text e = ground arith
  on_decode-Shows s (decoded bytes) old text e =
      let (key, p, k, d) = on_bytes_shows s bytes (parse_frame bytes) old text e in
      (bytes, key, refl, p, k, d)

  on_decode_hit :
      (s : Content) (bytes key text : Bytes) (old : Bool)
      → parse_frame bytes ≡ none
      → s.session.conv_key ≡ some key
      → try_decrypt c key bytes ≡ some text
      → (on_decode c w s (decoded bytes) old).2 ≡ message text
  unfolding on_decode on_bytes
  on_decode_hit s bytes key text old p k d =
      rw (p, on_bytes) (open_message_hit s bytes s.session.conv_key key text k d)

  -- A message is shown exactly if the codec gave bytes that are no frame, there is a conversation key,
  -- and the bytes decrypt to it under that key.
  pub on_decode_message :
      (s : Content) (reply : DecodeReply) (from_history : Bool) (text : Bytes)
      → ((on_decode c w s reply from_history).2 ≡ message text) ↔ (
          (bytes : Bytes) × (key : Bytes) × (reply ≡ decoded bytes)
          × (parse_frame bytes ≡ none)
          × (s.session.conv_key ≡ some key)
          × (try_decrypt c key bytes ≡ some text))
  on_decode_message s reply from_history text = (
    on_decode-Shows s reply from_history text,
    λ h. rw (h.2) (on_decode_hit s h.0 h.1 text from_history h.3 h.4 h.5),
  )

  -- The replies that a later scan should ask for again.
  abbrev pub Undecided : Content → DecodeReply → Type 0
  Undecided s thrown = Unit {0}
  Undecided s (failed error) = includes (codes "422") error ≡ false
  Undecided s (decoded bytes) = (parse_frame bytes ≡ none) × (s.session.conv_key ≡ none)

  open_message_retry :
      (s : Content) (bytes : Bytes) (ko : Option Bytes)
      → ((open_message c w s bytes ko).2 ≡ retry) ↔ (ko ≡ none)
  unfolding open_message
  open_message_retry s bytes none = (λ e. refl, λ e. refl)
  open_message_retry s bytes (some key) = (λ e. ground arith, λ e. cc)

  on_bytes_retry :
      (s : Content) (bytes : Bytes) (frame : Option Frame) (old : Bool)
      → ((on_bytes c w s bytes frame old).2 ≡ retry)
        ↔ ((frame ≡ none) × (s.session.conv_key ≡ none))
  unfolding on_bytes
  on_bytes_retry s bytes none old =
      let (into, back) = open_message_retry s bytes s.session.conv_key in
      (λ e. (refl, into e), λ e. back e.1)
  on_bytes_retry s bytes (some frame) true = (λ e. cc, λ e. cc (e.0))
  on_bytes_retry s bytes (some frame) false = (
    λ e. absurd (after_frame-retry (handle_frame c w s frame.type frame.pubkey).1 e),
    λ e. cc (e.0),
  )

  -- The verdict is RETRY exactly if the call to the codec threw, or it failed with an error that
  -- does not name 422, or its bytes are no frame and there is no conversation key.
  pub on_decode_retry :
      (s : Content) (reply : DecodeReply) (from_history : Bool)
      → ((on_decode c w s reply from_history).2 ≡ retry) ↔ Undecided s reply
  unfolding on_decode
  on_decode_retry s thrown old = (λ e. tt, λ e. refl)
  on_decode_retry s (failed error) old = (λ e. ground arith, λ e. rw e)
  on_decode_retry s (decoded bytes) old = on_bytes_retry s bytes (parse_frame bytes) old

  -- A frame that was in the chat before we watched changes nothing and sends nothing.
  pub on_decode_fossil :
      (s : Content) (bytes : Bytes) (frame : Frame)
      → parse_frame bytes ≡ some frame
      → on_decode c w s (decoded bytes) true ≡ (s, [], not_ours)
  unfolding on_decode on_bytes
  on_decode_fossil s bytes frame e = rw (e, on_bytes)

-- `n` messages in a row that fail their tag, with the effects of all of them.
pub tag_failures : ℕ → Content → Content × List Effect
tag_failures zero s = (s, [])
tag_failures (suc n) s =
    let (s', effects) = note_tag_failure s in
    let (t, more) = tag_failures n s' in (t, effects ++ more)

-- A run of failures announces the key mismatch once, as soon as three were counted in an established
-- session that has not announced it, and otherwise never.
pub tag_failures_announce :
    (n : ℕ) (s : Content)
    → (tag_failures n s).1 ≡ (
        if leb 1 n
          && leb 3 (s.tag_failures + n)
          && not s.mismatch_warned
          && is_established s.session.status
        then toasted key_mismatch ∷ []
        else [])
unfolding tag_failures note_tag_failure
tag_failures_announce zero s = refl
tag_failures_announce (suc n) s = ground (arith, tag_failures_announce n (note_tag_failure s).0)
