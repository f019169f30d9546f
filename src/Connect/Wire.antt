-- ===== src/Connect/Wire.antt =====
-- One side of the handshake over a chat that carries its frames.
use lortnoc_tahc.Base.{
  ◌≡◌, ◌≢◌, refl, ap, ◌∙◌, true, false, some, List, [], ◌∷◌, ◌++◌, append-nil, Bytes, Text, length,
  arith,
}
use lortnoc_tahc.Frame.{FrameType, offer, ack, build_frame}
use lortnoc_tahc.Frame.Laws.{parse_frame-build_frame}
use lortnoc_tahc.Keys.{Crypto, CryptoLaws, KeyPair, derive_conv_key}
use lortnoc_tahc.Session.{
  Session, established, frame_key, is_established, key_pair_or, start_offer, on_ack, accept_offer,
  already_handled,
}
use lortnoc_tahc.Connect.{
  World, Content, Effect, delivered, toasted, rescanned, raised, invite_sent, connected,
  handle_frame, try_send, send_offer, finish_offer, establish_from_offer, DecodeReply, decoded,
  on_bytes, on_decode,
}

-- A world in which the codec encodes every frame to a text that is not empty, Telegram sends it, and
-- the codec of the reader gives the bytes back.
pub record Carries (w : World) (read : Text → DecodeReply) : Type 0 where
  pub cover : Bytes → Text
  pub filled : (bytes : Bytes) → cover bytes ≢ []
  pub covers : (bytes : Bytes) → w.bytes_to_cover bytes ≡ some (cover bytes)
  pub sends : (text : Text) → w.send_cover_text text ≡ true
  pub reads : (bytes : Bytes) → read (cover bytes) ≡ decoded bytes

try_send-some :
    (w : World) (text : Text)
    → text ≢ []
    → w.send_cover_text text ≡ true
    → try_send w (some text) ≡ (true, delivered text ∷ [])
unfolding try_send
try_send-some w [] h e = absurd (h refl)
try_send-some w (x ∷ text) h e = rw e

-- The guard records the frame and touches nothing else.
pub already_handled_new :
    (s : Session) (type : FrameType) (pubkey : Bytes)
    → (already_handled s type pubkey).1 ≡ false
    → (already_handled s type pubkey).0
      ≡ record s { handled_frames = frame_key type pubkey ∷ s.handled_frames }
unfolding already_handled
already_handled_new s type pubkey h = ground arith

-- The session that a peer key leaves which is not of low order.
abbrev pub met : Crypto → Session → Bytes → Bytes → Session
met c s random peer = record s {
  key_pair = some (key_pair_or c s.key_pair random);
  peer_pub = some peer;
  conv_key =
      some
        (let kp = key_pair_or c s.key_pair random in derive_conv_key c kp.private peer kp.public);
  status = established;
}

accept_offer-met :
    (c : Crypto) (s : Session) (random peer : Bytes)
    → c.low_order peer ≡ false
    → accept_offer c s random peer
      ≡ (met c s random peer, some (build_frame ack (key_pair_or c s.key_pair random).public))
unfolding accept_offer
accept_offer-met c s random peer regular = rw (accept_offer, regular) refl

pub on_ack-met :
    (c : Crypto) (s : Session) (random peer : Bytes)
    → c.low_order peer ≡ false
    → on_ack c s random peer ≡ met c s random peer
unfolding on_ack
on_ack-met c s random peer regular = rw (on_ack, regular) refl

module _ (c : Crypto) (read : Text → DecodeReply) where
  -- A content script reads, live and in order, the texts that the other side delivered.
  unfoldable pub hear : World → List Effect → Content → Content × List Effect
  hear w [] s = (s, [])
  hear w (delivered text ∷ es) s =
      let (s', effects, _) = on_decode c w s (read text) false in
      let (t, more) = hear w es s' in (t, effects ++ more)
  hear w (toasted t ∷ es) s = hear w es s
  hear w (rescanned ∷ es) s = hear w es s
  hear w (raised ∷ es) s = hear w es s

  abbrev pub own_key : World → Content → KeyPair
  own_key w s = key_pair_or c s.session.key_pair w.random

  module _ (laws : CryptoLaws c) (w : World) (up : Carries w read) where
    sent_up :
        (bytes : Bytes)
        → try_send w (w.bytes_to_cover bytes) ≡ (true, delivered (up.cover bytes) ∷ [])
    sent_up bytes = rw (up.covers bytes) (try_send-some w _ (up.filled bytes) (up.sends _))

    pub send_offer_up :
        (s : Content)
        → is_established s.session.status ≡ false
        → send_offer c w s ≡ (
          record s { session = (start_offer c s.session w.random).0; answer_watch = true },
          delivered (up.cover (build_frame offer (own_key w s).public)) ∷ toasted invite_sent ∷ [],
        )
    unfolding send_offer start_offer
    send_offer_up s unset = rw (unset, send_offer, sent_up (build_frame offer (own_key w s).public))

    pub establish_up :
        (s : Content) (pubkey : Bytes)
        → c.low_order pubkey ≡ false
        → establish_from_offer c w s pubkey ≡ (
          record s {
            session = met c s.session w.random pubkey;
            answer_watch = false;
            tag_failures = 0;
            mismatch_warned = false;
          },
          delivered (up.cover (build_frame ack (own_key w s).public))
              ∷ rescanned
              ∷ toasted connected
              ∷ [],
        )
    unfolding establish_from_offer finish_offer
    establish_up s pubkey regular =
        ap (λ r. finish_offer c w s r.0 r.1) (accept_offer-met c s.session w.random pubkey regular)
        ∙ rw (finish_offer, sent_up (build_frame ack (own_key w s).public))

    -- A frame that arrives is handled.
    pub hear_frame :
        (v : World) (s : Content) (type : FrameType) (pubkey : Bytes) (es : List Effect)
        → length pubkey ≡ 32
        → hear v (delivered (up.cover (build_frame type pubkey)) ∷ es) s ≡ (
            let (s', effects) = handle_frame c v s type pubkey in
            let (t, more) = hear v es s' in (t, effects ++ more))
    unfolding hear on_decode on_bytes
    hear_frame v s type pubkey es sized =
        rw (up.reads, hear, on_decode, parse_frame-build_frame type pubkey sized)

    -- The one frame among some effects arrives, and the rest of them carry nothing.
    pub hear_only :
        (v : World) (s t : Content) (type : FrameType) (pubkey : Bytes) (es sent : List Effect)
        → length pubkey ≡ 32
        → handle_frame c v s type pubkey ≡ (t, sent)
        → hear v es t ≡ (t, [])
        → hear v (delivered (up.cover (build_frame type pubkey)) ∷ es) s ≡ (t, sent)
    hear_only v s t type pubkey es sent sized e quiet =
        hear_frame v s type pubkey es sized ∙ rw (e, quiet) (ap (λ l. (t, l)) (append-nil sent))
