-- ===== src/Connect/Sessions.antt =====
-- What an established session ignores, and what replaces it.
use lortnoc_tahc.Base.{◌≡◌, ◌⊎◌, true, false, [], Bytes, arith}
use lortnoc_tahc.Frame.{FrameType, offer, ack}
use lortnoc_tahc.Keys.{Crypto}
use lortnoc_tahc.Session.{
  established, is_mine, is_peer, is_established, clear_handled_frames, already_handled,
}
use lortnoc_tahc.Connect.{World, Content, handle_frame, establish_from_offer, act_on_frame}

module _ (c : Crypto) (w : World) where
  -- An established session is left as it is, and nothing is sent, by every frame but an offer from a
  -- public key that is neither ours nor the recorded peer's: by our own frames, by every ACK, and by
  -- a repeated offer of the peer.
  pub handle_frame_established :
      (s : Content) (type : FrameType) (pubkey : Bytes)
      → s.session.status ≡ established
      → ((is_mine s.session pubkey ≡ true) ⊎ ((type ≡ ack) ⊎ (is_peer s.session pubkey ≡ true)))
      → handle_frame c w s type pubkey ≡ (s, [])
  unfolding handle_frame
  handle_frame_established s type pubkey est why = ground arith

  -- An offer from a key that is neither ours nor the recorded peer's replaces an established session:
  -- the frames seen are forgotten and the session is established with that key.
  pub handle_frame_restarted :
      (s : Content) (pubkey : Bytes)
      → s.session.status ≡ established
      → is_mine s.session pubkey ≡ false
      → is_peer s.session pubkey ≡ false
      → handle_frame c w s offer pubkey
        ≡ establish_from_offer c w (record s { session = clear_handled_frames s.session }) pubkey
  unfolding handle_frame
  handle_frame_restarted s pubkey est other new = ground arith

  -- In a session that is not established, a frame of another that the guard has not seen is acted on.
  pub handle_frame_new :
      (s : Content) (type : FrameType) (pubkey : Bytes)
      → is_established s.session.status ≡ false
      → is_mine s.session pubkey ≡ false
      → (already_handled s.session type pubkey).1 ≡ false
      → handle_frame c w s type pubkey
        ≡ act_on_frame c w
            (record s { session = (already_handled s.session type pubkey).0 })
            type
            pubkey
  unfolding handle_frame
  handle_frame_new s type pubkey unset other new = ground arith
