-- ===== src/Connect/Parties.antt =====
-- The two ends of a chat, their key pairs and the key on which they meet.
use lortnoc_tahc.Base.{◌≡◌, true, is_some, Text, length, false}
use lortnoc_tahc.Keys.{Crypto, CryptoLaws, KeyPair, derive_conv_key}
use lortnoc_tahc.Session.{established}
use lortnoc_tahc.Connect.{World, Content, DecodeReply}
use lortnoc_tahc.Session.Laws.{IsHonest-key_pair_or}
use lortnoc_tahc.Connect.Sound.{Sound}
use lortnoc_tahc.Connect.Wire.{Carries, own_key}
use lortnoc_tahc.Keys.Laws.{derive_conv_key_agree}

-- Both sides are established and hold one conversation key.
pub record Connected (a b : Content) : Type 0 where
  pub here : a.session.status ≡ established
  pub there : b.session.status ≡ established
  pub keyed : is_some a.session.conv_key ≡ true
  pub same_key : a.session.conv_key ≡ b.session.conv_key

module _ (c : Crypto) (laws : CryptoLaws c) (read : Text → DecodeReply) (wa wb : World)
    (ua : Carries wa read) (ub : Carries wb read) (a b : Content) (va : Sound c a)
    (vb : Sound c b) where
  abbrev pub left_key : KeyPair
  left_key = own_key c read wa a

  abbrev pub right_key : KeyPair
  right_key = own_key c read wb b

  left_honest : left_key.public ≡ c.public_key left_key.private
  left_honest = IsHonest-key_pair_or c a.session.key_pair wa.random va.honest

  right_honest : right_key.public ≡ c.public_key right_key.private
  right_honest = IsHonest-key_pair_or c b.session.key_pair wb.random vb.honest

  pub left_sized : length left_key.public ≡ 32
  left_sized = rw left_honest (laws.key_size left_key.private)

  pub right_sized : length right_key.public ≡ 32
  right_sized = rw right_honest (laws.key_size right_key.private)

  pub left_regular : c.low_order left_key.public ≡ false
  left_regular = rw left_honest (laws.regular left_key.private)

  pub right_regular : c.low_order right_key.public ≡ false
  right_regular = rw right_honest (laws.regular right_key.private)

  -- Two sides that record the public key of each other hold one key.
  pub same_keys :
      derive_conv_key c left_key.private right_key.public left_key.public
      ≡ derive_conv_key c right_key.private left_key.public right_key.public
  same_keys =
      rw (left_honest, right_honest)
        (derive_conv_key_agree c laws left_key.private right_key.private)
