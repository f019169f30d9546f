-- ===== src/Connect/Sound.antt =====
-- Every handler of the content script keeps the session's invariant.
use lortnoc_tahc.Base.{
  inl, inr, Bool, true, false, Option, none, some, List, Option-cases, if_cases, Bytes, not, ◌&&◌,
  arith,
}
use lortnoc_tahc.Frame.{FrameType, offer, ack, Frame, parse_frame}
use lortnoc_tahc.Keys.{Crypto, try_decrypt}
use lortnoc_tahc.Session.{Session, is_mine, is_peer, is_established, already_handled}
use lortnoc_tahc.Session.Laws.{
  IsSound, offering, acked, accepting, seen, cleared, forgotten, Step-IsSound,
}
use lortnoc_tahc.Connect.{
  World, Content, Effect, is_offered, is_offer, handle_frame, send_offer, finish_offer,
  establish_from_offer, establish_from_ack, act_on_frame, tap_invite, answer_timeout, disconnect,
  note_tag_failure, DecodeReply, thrown, failed, decoded, open_message, on_bytes, on_decode,
}

module _ (c : Crypto) where
  abbrev pub Sound : Content → Type 0
  Sound s = IsSound c s.session

  abbrev Keeps : Content × List Effect → Type 0
  Keeps r = IsSound c r.0.session

  module _ (w : World) where
    send_offer-Sound : (s : Content) → Sound s → Sound (send_offer c w s).0
    unfolding send_offer
    send_offer-Sound s v =
        if_cases Keeps (is_established s.session.status) (λ _. v)
          λ unset.
            let kept = Step-IsSound c (offering s.session w.random (λ e. ground arith)) v in
            if_cases Keeps _ (λ _. kept) (λ _. kept)

    finish_offer-Sound :
        (s : Content) (session : Session) (frame : Option Bytes)
        → IsSound c session
        → Sound (finish_offer c w s session frame).0
    unfolding finish_offer
    finish_offer-Sound s session none v = v
    finish_offer-Sound s session (some frame) v = v

    establish_from_offer-Sound :
        (s : Content) (pubkey : Bytes) → Sound s → Sound (establish_from_offer c w s pubkey).0
    unfolding establish_from_offer
    establish_from_offer-Sound s pubkey v =
        finish_offer-Sound s _ _ (Step-IsSound c (accepting s.session w.random pubkey) v)

    act_on_frame-Sound :
        (s : Content) (type : FrameType) (pubkey : Bytes)
        → Sound s
        → Sound (act_on_frame c w s type pubkey).0
    unfolding act_on_frame establish_from_ack
    act_on_frame-Sound s ack pubkey v =
        let kept = Step-IsSound c (acked s.session w.random pubkey) v in
        if_cases Keeps (c.low_order pubkey) (λ _. kept) (λ _. kept)
    act_on_frame-Sound s offer pubkey v =
        if_cases Keeps (is_offered s.session.status) (λ _. establish_from_offer-Sound s pubkey v)
          (λ _. v)

    handle_frame-Sound :
        (s : Content) (type : FrameType) (pubkey : Bytes)
        → Sound s
        → Sound (handle_frame c w s type pubkey).0
    unfolding handle_frame
    handle_frame-Sound s type pubkey v =
        if_cases Keeps (is_mine s.session pubkey) (λ _. v)
          λ _.
            if_cases Keeps (is_established s.session.status)
              (λ _.
                if_cases Keeps (is_offer type && not (is_peer s.session pubkey))
                  (λ _. establish_from_offer-Sound _ pubkey (Step-IsSound c (cleared s.session) v))
                  (λ _. v))
              λ _.
                if_cases Keeps (already_handled s.session type pubkey).1 (λ _. v)
                  (λ _.
                    act_on_frame-Sound _ type pubkey
                      (Step-IsSound c (seen s.session type pubkey) v))

    tap_invite-Sound : (s : Content) (pubkey : Bytes) → Sound s → Sound (tap_invite c w s pubkey).0
    unfolding tap_invite
    tap_invite-Sound s pubkey v = establish_from_offer-Sound _ pubkey v

    note_tag_failure-Sound : (s : Content) → Sound s → Sound (note_tag_failure s).0
    unfolding note_tag_failure
    note_tag_failure-Sound s v = if_cases Keeps _ (λ _. v) (λ _. v)

    open_message-Sound :
        (s : Content) (bytes : Bytes) (key : Option Bytes)
        → Sound s
        → Sound (open_message c w s bytes key).0
    unfolding open_message
    open_message-Sound s bytes none v = v
    open_message-Sound s bytes (some key) v = elim (Option-cases (try_decrypt c key bytes)) [
      | inl e ↦ rw (e, open_message) (note_tag_failure-Sound s v)
      | inr (text, e) ↦ rw (e, open_message) v
    ]

    on_bytes-Sound :
        (s : Content) (bytes : Bytes) (frame : Option Frame) (old : Bool)
        → Sound s
        → Sound (on_bytes c w s bytes frame old).0
    unfolding on_bytes
    on_bytes-Sound s bytes none old v = open_message-Sound s bytes s.session.conv_key v
    on_bytes-Sound s bytes (some frame) true v = v
    on_bytes-Sound s bytes (some frame) false v = handle_frame-Sound s frame.type frame.pubkey v

    on_decode-Sound :
        (s : Content) (reply : DecodeReply) (old : Bool)
        → Sound s
        → Sound (on_decode c w s reply old).0
    unfolding on_decode
    on_decode-Sound s thrown old v = v
    on_decode-Sound s (failed error) old v = v
    on_decode-Sound s (decoded bytes) old v = on_bytes-Sound s bytes (parse_frame bytes) old v

  answer_timeout-Sound : (s : Content) → Sound s → Sound (answer_timeout s).0
  unfolding answer_timeout
  answer_timeout-Sound s v = if_cases Keeps _ (λ _. v) (λ _. v)

  -- Where a handler waits on the codec its session is changed, and the watch and the counters are not
  -- yet.
  abbrev pub at_wait : Content → Content → Content
  at_wait s t = record t {
    answer_watch = s.answer_watch;
    tag_failures = s.tag_failures;
    mismatch_warned = s.mismatch_warned;
  }

  -- One turn of the content script, in whatever world it runs. A handler may stop at its wait, other
  -- turns come in, and `establishFromOffer` or `sendOffer` goes on after them.
  pub data Turn : Content → Content → Type 0 where
    connects : (w : World) (s : Content) → Turn s (send_offer c w s).0
    reads :
        (w : World) (s : Content) (reply : DecodeReply) (from_history : Bool)
        → Turn s (on_decode c w s reply from_history).0
    taps : (w : World) (s : Content) (pubkey : Bytes) → Turn s (tap_invite c w s pubkey).0
    waits : (s : Content) → Turn s (answer_timeout s).0
    disconnects : (s : Content) → Turn s (disconnect s)
    stops : {s t : Content} → Turn s t → Turn s (at_wait s t)
    goes_on :
        (s : Content)
        → Turn s (record s { answer_watch = false; tag_failures = 0; mismatch_warned = false })
    watches : (s : Content) → Turn s (record s { answer_watch = true })

  pub data Run (s : Content) : Content → Type 0 where
    here : Run s s
    next : {t u : Content} → Run s t → Turn t u → Run s u

  pub Turn-Sound : {s t : Content} → Turn s t → Sound s → Sound t
  unfolding disconnect
  Turn-Sound (connects w s) v = send_offer-Sound w s v
  Turn-Sound (reads w s reply old) v = on_decode-Sound w s reply old v
  Turn-Sound (taps w s pubkey) v = tap_invite-Sound w s pubkey v
  Turn-Sound (waits s) v = answer_timeout-Sound s v
  Turn-Sound (disconnects s) v = Step-IsSound c (forgotten s.session) v
  Turn-Sound (stops turn) v = Turn-Sound turn v
  Turn-Sound (goes_on s) v = v
  Turn-Sound (watches s) v = v

  -- Three facts are kept by any number of turns, whatever the codec replies and whatever the chat
  -- shows, with other turns at each wait of a handler on the codec: there is a conversation key exactly when the session is established; it is the one derived
  -- from our private key and a peer key, which is the recorded peer key unless that one is of low
  -- order; and our public key belongs to our private key.
  pub Run-Sound : {s t : Content} → Run s t → Sound s → Sound t
  Run-Sound here v = v
  Run-Sound (next r turn) v = Turn-Sound turn (Run-Sound r v)
