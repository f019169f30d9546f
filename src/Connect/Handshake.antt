-- ===== src/Connect/Handshake.antt =====
-- An invite and its acceptance.
use lortnoc_tahc.Base.{◌≡◌, refl, ap, false, some, [], ◌∷◌, list_eq, Text, length}
use lortnoc_tahc.Frame.{offer, ack}
use lortnoc_tahc.Keys.{Crypto, CryptoLaws, KeyPair, derive_conv_key}
use lortnoc_tahc.Session.{idle, is_mine, is_established, start_offer, already_handled}
use lortnoc_tahc.Connect.{
  World, Content, toasted, invite_sent, send_offer, tap_invite, DecodeReply, remove_first,
}
use lortnoc_tahc.Connect.Sound.{Sound}
use lortnoc_tahc.Connect.Wire.{Carries, hear, own_key, send_offer_up, establish_up, hear_only}
use lortnoc_tahc.Connect.Sides.{offer_of, ack_of, joined, noted, guarded, offer_to_idle, answering}
use lortnoc_tahc.Connect.Parties
use lortnoc_tahc.Connect.Parties.{Connected, same_keys}

module _ (c : Crypto) (laws : CryptoLaws c) (read : Text → DecodeReply) (wa wb : World)
    (ua : Carries wa read) (ub : Carries wb read) (a b : Content) (va : Sound c a)
    (vb : Sound c b) where
  abbrev left_key : KeyPair
  left_key = own_key c read wa a

  abbrev right_key : KeyPair
  right_key = own_key c read wb b

  same :
      derive_conv_key c left_key.private right_key.public left_key.public
      ≡ derive_conv_key c right_key.private left_key.public right_key.public
  same = same_keys c laws read wa wb ua ub a b va vb

  left_sized : length left_key.public ≡ 32
  left_sized = Parties.left_sized c laws read wa wb ua ub a b va vb

  right_sized : length right_key.public ≡ 32
  right_sized = Parties.right_sized c laws read wa wb ua ub a b va vb

  left_regular : c.low_order left_key.public ≡ false
  left_regular = Parties.left_regular c laws read wa wb ua ub a b va vb

  right_regular : c.low_order right_key.public ≡ false
  right_regular = Parties.right_regular c laws read wa wb ua ub a b va vb

  module _ (unset : is_established a.session.status ≡ false) (still : b.session.status ≡ idle)
      (other : is_mine b.session left_key.public ≡ false)
      (differ : list_eq left_key.public right_key.public ≡ false)
      (new_offer : (already_handled b.session offer left_key.public).1 ≡ false)
      (new_ack : (already_handled a.session ack right_key.public).1 ≡ false) where
    abbrev invited : Content
    invited = record (guarded c wb b left_key.public other offer) {
      invites = left_key.public ∷ b.invites;
    }

    asking : hear c read wb (offer_of left_key ua.cover) b ≡ (invited, [])
    unfolding hear
    asking =
        hear_only c read laws wa ua wb b invited offer left_key.public (toasted invite_sent ∷ []) []
          left_sized (offer_to_idle c wb b left_key.public other still new_offer) refl

    abbrev tapped : Content
    tapped = record invited { invites = remove_first left_key.public invited.invites }

    agreeing :
        tap_invite c wb invited left_key.public
        ≡ (joined c wb tapped left_key.public, ack_of right_key ub.cover)
    unfolding tap_invite
    agreeing = establish_up c read laws wb ub tapped left_key.public left_regular

    abbrev answered : Content
    answered = joined c wa (noted c wa a ack right_key.public) right_key.public

    meeting : Connected answered (joined c wb tapped left_key.public)
    unfolding start_offer
    meeting = record { here = refl; there = refl; keyed = refl; same_key = ap some same }

    -- One side connects, the other side reads the offer and taps Accept, and the first side reads
    -- the ACK: then both are established on one conversation key. The first side is not established
    -- before, the second is idle, the two public keys differ, neither guard has seen the frame that
    -- it reads, and the chat carries the frames.
    pub invite_completes :
        let sent = send_offer c wa a in
        let asked = hear c read wb sent.1 b in
        let agreed = tap_invite c wb asked.0 left_key.public in
        let done = hear c read wa agreed.1 sent.0 in Connected done.0 agreed.0
    invite_completes =
        rw
          (
            send_offer_up c read laws wa ua a unset,
            asking,
            agreeing,
            answering c laws read wa a wb ub right_key right_sized differ right_regular new_ack,
          )
          meeting
