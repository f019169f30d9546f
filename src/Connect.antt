-- ===== src/Connect.antt =====
-- extension/src/content/index.ts: the handshake controller and the inbound decision of the content
-- script. The module's variables are the fields of `Content`; an operation returns the new state and
-- its effects in order. An `async` function is one step with its waits in it; Connect/Sound lets
-- other steps in at a wait. `World` holds what the step meets outside: the random bytes, the codec's
-- reply to ENCODE and the outcome of `sendCoverText`.
pub mod Verdicts
pub mod Sessions
pub mod Sound
pub mod Wire
pub mod Sides
pub mod Parties
pub mod Handshake
pub mod Glare
pub mod Restart
pub mod Lost
pub mod Tests
use lortnoc_tahc.Base.{
  ℕ, ◌+◌, Bool, true, false, not, ◌&&◌, Option, none, some, List, [], ◌∷◌, ◌++◌, if◌then◌else◌, leb,
  is_some, includes, list_eq, take, Bytes, Text,
}
use lortnoc_tahc.Frame.{FrameType, offer, ack, Frame, parse_frame}
use lortnoc_tahc.Keys.{Crypto, try_decrypt, codes}
use lortnoc_tahc.Session.{
  Status, idle, offered, established, Session, already_handled, clear_handled_frames, is_mine,
  is_peer, start_offer, on_ack, accept_offer, reset, to_hex, is_established,
}

pub data Toast : Type 0 where
  already_connected invite_sent invite_failed still_waiting key_mismatch : Toast
  connected they_accepted no_session_yet : Toast
  free_left : ℕ → Toast

-- `delivered` is a cover text that went out as a message of ours; `rescanned` is `inbound.reset()`.
pub data Effect : Type 0 where
  toasted : Toast → Effect
  delivered : Text → Effect
  rescanned : Effect
  -- an exception that leaves the handler
  raised : Effect

pub record World : Type 0 where
  pub random : Bytes
  -- `bytesToCover(bytes, true)`
  pub bytes_to_cover : Bytes → Option Text
  -- `sendCoverText(cover)`
  pub send_cover_text : Text → Bool

-- `invites` are the accept banners on the screen, by the public key of each.
pub record Content : Type 0 where
  pub session : Session
  pub answer_watch : Bool
  pub tag_failures : ℕ
  pub mismatch_warned : Bool
  pub invites : List Bytes

abbrev pub is_offered : Status → Bool
is_offered offered = true
is_offered _ = false

abbrev pub is_offer : FrameType → Bool
is_offer offer = true
is_offer ack = false

abbrev pub have_key : Content → Bool
have_key s = is_some s.session.conv_key

-- The reply to HS_STATUS, less the client: the status, whether there is a key, and its fingerprint.
unfoldable pub hs_status : Content → Status × Bool × Option Text
hs_status s = (
  s.session.status,
  have_key s,
  elim s.session.conv_key [ none ↦ none | some key ↦ some (to_hex (take 6 key)) ],
)

-- `cover && (await sendCoverText(cover))`: null and the empty text are false.
unfoldable pub try_send : World → Option Text → Bool × List Effect
try_send w none = (false, [])
try_send w (some []) = (false, [])
try_send w (some (x ∷ cover)) =
    if w.send_cover_text (x ∷ cover) then (true, delivered (x ∷ cover) ∷ []) else (false, [])

unfoldable pub remove_first : Bytes → List Bytes → List Bytes
unfolding list_eq
remove_first pubkey [] = []
remove_first pubkey (p ∷ ps) = if list_eq p pubkey then ps else p ∷ remove_first pubkey ps

module _ (c : Crypto) (w : World) where
  -- START_HANDSHAKE
  unfoldable pub send_offer : Content → Content × List Effect
  send_offer s =
      if is_established s.session.status
      then (s, toasted already_connected ∷ [])
      else (let (session, frame) = start_offer c s.session w.random in
          let (sent, effects) = try_send w (w.bytes_to_cover frame) in
          if sent
          then (
            record s { session = session; answer_watch = true },
            effects ++ toasted invite_sent ∷ [],
          )
          else (record s { session = session }, effects ++ toasted invite_failed ∷ []))

  -- `establishFromOffer` from the outcome of `acceptOffer` on.
  unfoldable pub finish_offer : Content → Session → Option Bytes → Content × List Effect
  finish_offer s session none = (record s { session = session }, raised ∷ [])
  finish_offer s session (some frame) =
      let (sent, effects) = try_send w (w.bytes_to_cover frame) in
      (
        record s {
          session = session;
          answer_watch = false;
          tag_failures = 0;
          mismatch_warned = false;
        },
        effects ++ rescanned ∷ toasted connected ∷ [],
      )

  unfoldable pub establish_from_offer : Content → Bytes → Content × List Effect
  unfolding finish_offer
  establish_from_offer s pubkey =
      let (session, frame) = accept_offer c s.session w.random pubkey in
      finish_offer s session frame

  -- The branch of an ACK that is acted on; `onAck` throws for a peer key of low order.
  unfoldable pub establish_from_ack : Content → Bytes → Content × List Effect
  establish_from_ack s pubkey =
      let session = on_ack c s.session w.random pubkey in
      if c.low_order pubkey then (record s { session = session }, raised ∷ []) else (
        record s {
          session = session;
          answer_watch = false;
          tag_failures = 0;
          mismatch_warned = false;
        },
        rescanned ∷ toasted they_accepted ∷ [],
      )

  -- The frames that pass the replay guard.
  unfoldable pub act_on_frame : Content → FrameType → Bytes → Content × List Effect
  act_on_frame s offer pubkey =
      if is_offered s.session.status
      then establish_from_offer s pubkey
      else (record s { invites = pubkey ∷ s.invites }, [])
  act_on_frame s ack pubkey = establish_from_ack s pubkey

  unfoldable pub handle_frame : Content → FrameType → Bytes → Content × List Effect
  handle_frame s type pubkey =
      if is_mine s.session pubkey
      then (s, [])
      else if is_established s.session.status
      then (if is_offer type && not (is_peer s.session pubkey)
          then establish_from_offer (record s { session = clear_handled_frames s.session }) pubkey
          else (s, []))
      else (let (session, seen) = already_handled s.session type pubkey in
          if seen then (s, []) else act_on_frame (record s { session = session }) type pubkey)

  -- A tap on the banner: the banner goes, and the closure runs in the state of that moment.
  unfoldable pub tap_invite : Content → Bytes → Content × List Effect
  tap_invite s pubkey =
      establish_from_offer (record s { invites = remove_first pubkey s.invites }) pubkey

-- 25 seconds after an invite.
unfoldable pub answer_timeout : Content → Content × List Effect
answer_timeout s =
    if is_established s.session.status
    then (record s { answer_watch = false }, [])
    else (record s { answer_watch = false }, toasted still_waiting ∷ [])

-- HS_RESET
unfoldable pub disconnect : Content → Content
disconnect s = record s { session = reset s.session }

unfoldable pub note_tag_failure : Content → Content × List Effect
note_tag_failure s =
    let failures = s.tag_failures + 1 in
    if leb 3 failures && not s.mismatch_warned && is_established s.session.status
    then (record s { tag_failures = failures; mismatch_warned = true }, toasted key_mismatch ∷ [])
    else (record s { tag_failures = failures }, [])

-- The service worker's reply to DECODE: the call threw, it failed with a text, or it gave bytes.
pub data DecodeReply : Type 0 where
  thrown : DecodeReply
  failed : Text → DecodeReply
  decoded : Bytes → DecodeReply

-- `DecodeFn`'s result: RETRY, null, or the decoded message; or it threw.
pub data Verdict : Type 0 where
  retry not_ours broke : Verdict
  message : Bytes → Verdict

-- After `handleFrame` with these effects.
abbrev pub after_frame : List Effect → Verdict
after_frame (raised ∷ es) = broke
after_frame _ = not_ours

module _ (c : Crypto) (w : World) where
  -- The bytes are no frame.
  unfoldable pub open_message : Content → Bytes → Option Bytes → Content × List Effect × Verdict
  open_message s bytes none = (s, [], retry)
  open_message s bytes (some key) = elim (try_decrypt c key bytes) [
    | none ↦ (let (s', effects) = note_tag_failure s in (s', effects, not_ours))
    | some text ↦ (record s { tag_failures = 0 }, [], message text)
  ]

  unfoldable pub on_bytes : Content → Bytes → Option Frame → Bool → Content × List Effect × Verdict
  on_bytes s bytes none from_history = open_message s bytes s.session.conv_key
  on_bytes s bytes (some frame) true = (s, [], not_ours)
  on_bytes s bytes (some frame) false =
      let (s', effects) = handle_frame c w s frame.type frame.pubkey in
      (s', effects, after_frame effects)

  -- The `onDecode` that `main` hands to `startInbound`.
  unfoldable pub on_decode : Content → DecodeReply → Bool → Content × List Effect × Verdict
  on_decode s thrown from_history = (s, [], retry)
  on_decode s (failed error) from_history =
      (s, [], if includes (codes "422") error then not_ours else retry)
  on_decode s (decoded bytes) from_history = on_bytes s bytes (parse_frame bytes) from_history
