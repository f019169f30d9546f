-- ===== src/Connect/Restart.antt =====
-- A side that starts over reaches a side that is still established.
use lortnoc_tahc.Base.{◌≡◌, refl, ap, ◌∙◌, false, some, [], ◌∷◌, list_eq, Text, length}
use lortnoc_tahc.Frame.{offer, ack}
use lortnoc_tahc.Keys.{Crypto, CryptoLaws, KeyPair, derive_conv_key}
use lortnoc_tahc.Session.{
  established, is_mine, is_peer, is_established, start_offer, clear_handled_frames, already_handled,
}
use lortnoc_tahc.Connect.{World, Content, toasted, invite_sent, send_offer, DecodeReply}
use lortnoc_tahc.Connect.Sessions.{handle_frame_restarted}
use lortnoc_tahc.Connect.Sound.{Sound}
use lortnoc_tahc.Connect.Wire.{Carries, hear, own_key, send_offer_up, establish_up, hear_only}
use lortnoc_tahc.Connect.Sides.{offer_of, ack_of, joined, noted, answering}
use lortnoc_tahc.Connect.Parties
use lortnoc_tahc.Connect.Parties.{Connected, same_keys}

module _ (c : Crypto) (laws : CryptoLaws c) (read : Text → DecodeReply) (wa wb : World)
    (ua : Carries wa read) (ub : Carries wb read) (a b : Content) (va : Sound c a)
    (vb : Sound c b) where
  abbrev left_key : KeyPair
  left_key = own_key c read wa a

  abbrev right_key : KeyPair
  right_key = own_key c read wb b

  same :
      derive_conv_key c left_key.private right_key.public left_key.public
      ≡ derive_conv_key c right_key.private left_key.public right_key.public
  same = same_keys c laws read wa wb ua ub a b va vb

  left_sized : length left_key.public ≡ 32
  left_sized = Parties.left_sized c laws read wa wb ua ub a b va vb

  right_sized : length right_key.public ≡ 32
  right_sized = Parties.right_sized c laws read wa wb ua ub a b va vb

  left_regular : c.low_order left_key.public ≡ false
  left_regular = Parties.left_regular c laws read wa wb ua ub a b va vb

  right_regular : c.low_order right_key.public ≡ false
  right_regular = Parties.right_regular c laws read wa wb ua ub a b va vb

  module _ (unset : is_established a.session.status ≡ false) (est : b.session.status ≡ established)
      (other : is_mine b.session left_key.public ≡ false)
      (fresh_key : is_peer b.session left_key.public ≡ false)
      (differ : list_eq left_key.public right_key.public ≡ false)
      (new_ack : (already_handled a.session ack right_key.public).1 ≡ false) where
    abbrev cleared : Content
    cleared = record b { session = clear_handled_frames b.session }

    -- The established side accepts the new key with no tap.
    replacing :
        hear c read wb (offer_of left_key ua.cover) b
        ≡ (joined c wb cleared left_key.public, ack_of right_key ub.cover)
    unfolding hear clear_handled_frames
    replacing =
        hear_only c read laws wa ua wb b _ offer left_key.public (toasted invite_sent ∷ []) _
          left_sized
          (handle_frame_restarted c wb b left_key.public est other fresh_key
            ∙ establish_up c read laws wb ub cleared left_key.public left_regular)
          refl

    meeting :
        Connected
          (joined c wa (noted c wa a ack right_key.public) right_key.public)
          (joined c wb cleared left_key.public)
    unfolding start_offer clear_handled_frames
    meeting = record { here = refl; there = refl; keyed = refl; same_key = ap some same }

    -- A side that is not established connects while the other is still established with another key:
    -- the established side replaces its session with no tap and answers, and both are established on
    -- one conversation key. The new public key is neither the established side's own nor that of its
    -- recorded peer, the first side has not seen that ACK, and the chat carries the frames.
    pub restart_completes :
        let sent = send_offer c wa a in
        let replaced = hear c read wb sent.1 b in
        let done = hear c read wa replaced.1 sent.0 in Connected done.0 replaced.0
    restart_completes =
        rw
          (
            send_offer_up c read laws wa ua a unset,
            replacing,
            answering c laws read wa a wb ub right_key right_sized differ right_regular new_ack,
          )
          meeting
