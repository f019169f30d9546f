-- ===== src/Connect/Sides.antt =====
-- One side of a handshake, frame by frame: what it leaves behind and what it sends.
use lortnoc_tahc.Base.{
  inl, inr, ◌≡◌, refl, sym, ◌∙◌, true, false, List, [], ◌∷◌, list_eq, Bytes, Text, length, arith,
}
use lortnoc_tahc.Frame.{FrameType, offer, ack, build_frame}
use lortnoc_tahc.Keys.{Crypto, CryptoLaws, KeyPair}
use lortnoc_tahc.Session.{
  idle, offered, established, frame_key, is_mine, is_established, start_offer, already_handled,
  matches,
}
use lortnoc_tahc.Connect.{
  World, Content, Effect, delivered, toasted, rescanned, invite_sent, connected, handle_frame,
  they_accepted, establish_from_offer, establish_from_ack, act_on_frame, DecodeReply,
}
use lortnoc_tahc.Connect.Sessions.{handle_frame_new, handle_frame_established}
use lortnoc_tahc.Session.Replay.{already_handled-has}
use lortnoc_tahc.Connect.Wire.{
  Carries, hear, own_key, already_handled_new, establish_up, hear_only, met, on_ack-met,
}

-- The effects of a sent offer and of a sent ACK.
abbrev pub offer_of : KeyPair → (Bytes → Text) → List Effect
offer_of k cover = delivered (cover (build_frame offer k.public)) ∷ toasted invite_sent ∷ []

abbrev pub ack_of : KeyPair → (Bytes → Text) → List Effect
ack_of k cover = delivered (cover (build_frame ack k.public)) ∷ rescanned ∷ toasted connected ∷ []

module _ (c : Crypto) where
  -- What `send_offer` leaves, and what an established side leaves.
  abbrev pub started : World → Content → Content
  started w s = record s { session = (start_offer c s.session w.random).0; answer_watch = true }

  abbrev pub noted : World → Content → FrameType → Bytes → Content
  noted w s type pubkey = record (started w s) {
    session = record (started w s).session {
      handled_frames = frame_key type pubkey ∷ (started w s).session.handled_frames;
    };
  }

  abbrev pub joined : World → Content → Bytes → Content
  joined w s pubkey = record s {
    session = met c s.session w.random pubkey;
    answer_watch = false;
    tag_failures = 0;
    mismatch_warned = false;
  }

  -- The guard of a side that has sent its offer is the guard from before.
  unseen :
      (w : World) (s : Content) (type : FrameType) (pubkey : Bytes)
      → (already_handled s.session type pubkey).1 ≡ false
      → (already_handled (started w s).session type pubkey).1 ≡ false
  unfolding start_offer
  unseen w s type pubkey new =
      already_handled-has (started w s).session type pubkey
      ∙ sym (already_handled-has s.session type pubkey)
      ∙ new

  module _ (w : World) (s : Content) (pubkey : Bytes)
      (other : is_mine s.session pubkey ≡ false) where
    abbrev pub guarded : FrameType → Content
    guarded type = record s {
      session = record s.session {
        handled_frames = frame_key type pubkey ∷ s.session.handled_frames;
      };
    }

    -- An offer that reaches an idle side raises the banner.
    pub offer_to_idle :
        s.session.status ≡ idle
        → (already_handled s.session offer pubkey).1 ≡ false
        → handle_frame c w s offer pubkey
          ≡ (record (guarded offer) { invites = pubkey ∷ s.invites }, [])
    unfolding act_on_frame
    offer_to_idle still new =
        handle_frame_new c w s offer pubkey (ground arith) other new
        ∙ rw (already_handled_new s.session offer pubkey new, act_on_frame) (rw still refl)

    -- An offer that reaches a side which has offered as well is accepted at once.
    pub offer_to_offered :
        s.session.status ≡ offered
        → (already_handled s.session offer pubkey).1 ≡ false
        → handle_frame c w s offer pubkey ≡ establish_from_offer c w (guarded offer) pubkey
    unfolding act_on_frame
    offer_to_offered still new =
        handle_frame_new c w s offer pubkey (ground arith) other new
        ∙ rw (already_handled_new s.session offer pubkey new, act_on_frame) (rw still refl)

    pub ack_to_offered :
        s.session.status ≡ offered
        → (already_handled s.session ack pubkey).1 ≡ false
        → handle_frame c w s ack pubkey ≡ establish_from_ack c w (guarded ack) pubkey
    unfolding act_on_frame
    ack_to_offered still new =
        handle_frame_new c w s ack pubkey (ground arith) other new
        ∙ rw (already_handled_new s.session ack pubkey new, act_on_frame)

module _ (c : Crypto) (laws : CryptoLaws c) (read : Text → DecodeReply) where
  -- A side that has offered reads the offer of the other.
  pub crossing :
      (w : World) (up : Carries w read) (s : Content) (v : World) (from : Carries v read)
      (k : KeyPair)
      → is_established s.session.status ≡ false
      → length k.public ≡ 32
      → list_eq (own_key c read w s).public k.public ≡ false
      → c.low_order k.public ≡ false
      → (already_handled s.session offer k.public).1 ≡ false
      → hear c read w (offer_of k from.cover) (started c w s)
        ≡ (joined c w (noted c w s offer k.public) k.public, ack_of (own_key c read w s) up.cover)
  unfolding start_offer is_mine matches hear
  crossing w up s v from k unset sized differ regular new =
      hear_only c read laws v from w (started c w s) _ offer k.public (toasted invite_sent ∷ []) _
        sized
        (offer_to_offered c w (started c w s) k.public differ refl (unseen c w s offer k.public new)
          ∙ establish_up c read laws w up (noted c w s offer k.public) k.public regular)
        refl

  -- An established side reads the ACK of the other.
  pub late_ack :
      (w : World) (s : Content) (v : World) (from : Carries v read) (k : KeyPair)
      → s.session.status ≡ established
      → length k.public ≡ 32
      → hear c read w (ack_of k from.cover) s ≡ (s, [])
  unfolding hear
  late_ack w s v from k est sized =
      hear_only c read laws v from w s s ack k.public (rescanned ∷ toasted connected ∷ []) [] sized
        (handle_frame_established c w s ack k.public est (inr (inl refl))) refl

  -- A side that has offered reads the ACK of the other.
  pub answering :
      (w : World) (s : Content) (v : World) (from : Carries v read) (k : KeyPair)
      → length k.public ≡ 32
      → list_eq (own_key c read w s).public k.public ≡ false
      → c.low_order k.public ≡ false
      → (already_handled s.session ack k.public).1 ≡ false
      → hear c read w (ack_of k from.cover) (started c w s)
        ≡ (joined c w (noted c w s ack k.public) k.public, rescanned ∷ toasted they_accepted ∷ [])
  unfolding hear start_offer is_mine matches establish_from_ack
  answering w s v from k sized differ regular new =
      hear_only c read laws v from w (started c w s) _ ack k.public
        (rescanned ∷ toasted connected ∷ []) _ sized
        (ack_to_offered c w (started c w s) k.public differ refl (unseen c w s ack k.public new)
          ∙ rw (establish_from_ack, regular, on_ack-met c _ w.random k.public regular) refl)
        refl
