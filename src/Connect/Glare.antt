-- ===== src/Connect/Glare.antt =====
-- Two invites that cross.
use lortnoc_tahc.Base.{◌≡◌, refl, ap, false, some, [], list_eq, Text, length}
use lortnoc_tahc.Frame.{offer}
use lortnoc_tahc.Keys.{Crypto, CryptoLaws, KeyPair, derive_conv_key}
use lortnoc_tahc.Session.{is_established, start_offer, already_handled}
use lortnoc_tahc.Connect.{World, Content, send_offer, DecodeReply}
use lortnoc_tahc.Connect.Sound.{Sound}
use lortnoc_tahc.Connect.Wire.{Carries, hear, own_key, send_offer_up}
use lortnoc_tahc.Connect.Sides.{joined, noted, crossing, late_ack}
use lortnoc_tahc.Connect.Parties
use lortnoc_tahc.Connect.Parties.{Connected, same_keys}

module _ (c : Crypto) (laws : CryptoLaws c) (read : Text → DecodeReply) (wa wb : World)
    (ua : Carries wa read) (ub : Carries wb read) (a b : Content) (va : Sound c a)
    (vb : Sound c b) where
  abbrev left_key : KeyPair
  left_key = own_key c read wa a

  abbrev right_key : KeyPair
  right_key = own_key c read wb b

  same :
      derive_conv_key c left_key.private right_key.public left_key.public
      ≡ derive_conv_key c right_key.private left_key.public right_key.public
  same = same_keys c laws read wa wb ua ub a b va vb

  left_sized : length left_key.public ≡ 32
  left_sized = Parties.left_sized c laws read wa wb ua ub a b va vb

  right_sized : length right_key.public ≡ 32
  right_sized = Parties.right_sized c laws read wa wb ua ub a b va vb

  left_regular : c.low_order left_key.public ≡ false
  left_regular = Parties.left_regular c laws read wa wb ua ub a b va vb

  right_regular : c.low_order right_key.public ≡ false
  right_regular = Parties.right_regular c laws read wa wb ua ub a b va vb

  module _ (unset : is_established a.session.status ≡ false)
      (unset' : is_established b.session.status ≡ false)
      (differ : list_eq left_key.public right_key.public ≡ false)
      (differ' : list_eq right_key.public left_key.public ≡ false)
      (new : (already_handled b.session offer left_key.public).1 ≡ false)
      (new' : (already_handled a.session offer right_key.public).1 ≡ false) where
    abbrev left : Content
    left = joined c wa (noted c wa a offer right_key.public) right_key.public

    abbrev right : Content
    right = joined c wb (noted c wb b offer left_key.public) left_key.public

    glare_meeting : Connected left right
    unfolding start_offer
    glare_meeting = record { here = refl; there = refl; keyed = refl; same_key = ap some same }

    -- Both sides connect before either reads: each accepts the offer of the other with no tap, both
    -- are established on one conversation key, and the two ACKs that cross change nothing. Neither
    -- side is established before, the two public keys differ, neither guard has seen the offer, and
    -- the chat carries the frames.
    pub glare_completes :
        let sent = send_offer c wa a in
        let sent' = send_offer c wb b in
        let met = hear c read wa sent'.1 sent.0 in
        let met' = hear c read wb sent.1 sent'.0 in
        Connected met.0 met'.0
        × (hear c read wa met'.1 met.0 ≡ (met.0, []))
        × (hear c read wb met.1 met'.0 ≡ (met'.0, []))
    glare_completes =
        rw
          (
            send_offer_up c read laws wa ua a unset,
            send_offer_up c read laws wb ub b unset',
            crossing c laws read wa ua a wb ub right_key unset right_sized differ right_regular
                new',
            crossing c laws read wb ub b wa ua left_key unset' left_sized differ' left_regular new,
          )
          (
            glare_meeting,
            late_ack c laws read wa left wb ub right_key glare_meeting.here right_sized,
            late_ack c laws read wb right wa ua left_key glare_meeting.there left_sized,
          )
