-- ===== src/Connect/Lost.antt =====
-- An ACK that is lost: `establishFromOffer` establishes whether or not its ACK went out.
use lortnoc_tahc.Base.{ℕ, zero, suc, ◌≡◌, refl, inr, true, [], ◌∷◌, length, Text, arith}
use lortnoc_tahc.Frame.{offer}
use lortnoc_tahc.Keys.{Crypto, CryptoLaws}
use lortnoc_tahc.Session.{offered, established, is_peer, start_offer}
use lortnoc_tahc.Session.Laws.{IsHonest-key_pair_or, Step-IsSound, offering}
use lortnoc_tahc.Connect.{World, Content, toasted, invite_sent, DecodeReply, send_offer}
use lortnoc_tahc.Connect.Sessions.{handle_frame_established}
use lortnoc_tahc.Connect.Sound.{Sound}
use lortnoc_tahc.Connect.Wire.{Carries, hear, own_key, send_offer_up, hear_only}
use lortnoc_tahc.Connect.Sides.{offer_of, started}

module _ (c : Crypto) (read : Text → DecodeReply) (wa wb : World) where
  -- The first side clicks Connect `n` times, and the other side reads each offer.
  pub invites : ℕ → Content → Content → Content × Content
  invites zero a b = (a, b)
  invites (suc n) a b =
      let (a', sent) = send_offer c wa a in let (b', _) = hear c read wb sent b in invites n a' b'

  module _ (laws : CryptoLaws c) (ua : Carries wa read) where
    invite_ignored :
        (a b : Content)
        → Sound c a
        → b.session.status ≡ established
        → is_peer b.session (own_key c read wa a).public ≡ true
        → hear c read wb (offer_of (own_key c read wa a) ua.cover) b ≡ (b, [])
    unfolding hear
    invite_ignored a b va est peer =
        hear_only c read laws wa ua wb b b offer _ (toasted invite_sent ∷ []) [] sized
          (handle_frame_established c wb b offer _ est (inr (inr peer))) refl
      where
        sized : length (own_key c read wa a).public ≡ 32
        sized =
            rw (IsHonest-key_pair_or c a.session.key_pair wa.random va.honest)
              (laws.key_size (own_key c read wa a).private)

    -- When a side waits for an answer while the other is already established with its key, as after a
    -- lost ACK, no number of further invites with that key changes the established side, and the
    -- waiting side goes on waiting.
    pub lost_ack_waits :
        (n : ℕ) (a b : Content)
        → Sound c a
        → a.session.status ≡ offered
        → b.session.status ≡ established
        → is_peer b.session (own_key c read wa a).public ≡ true
        → ((invites n a b).0.session.status ≡ offered) × ((invites n a b).1 ≡ b)
    unfolding invites start_offer
    lost_ack_waits zero a b va wait est peer = (wait, refl)
    lost_ack_waits (suc n) a b va wait est peer =
        rw
          (
            invites,
            send_offer_up c read laws wa ua a (ground arith),
            invite_ignored a b va est peer,
          )
          (lost_ack_waits n (started c wa a) b kept refl est peer)
      where
        kept : Sound c (started c wa a)
        kept = Step-IsSound c (offering a.session wa.random (λ e. cc)) va
