-- ===== src/Session/Laws.antt =====
-- The session's invariant and the agreement of two sessions.
use lortnoc_tahc.Base.{
  ◌≡◌, ◌≢◌, ◌⊎◌, inl, inr, refl, sym, ap, subst, ◌∙◌, true, Option, none, some, is_some, Bool-cases,
  Bytes, arith,
}
use lortnoc_tahc.Frame.{FrameType}
use lortnoc_tahc.Keys.{Crypto, CryptoLaws, KeyPair, derive_conv_key}
use lortnoc_tahc.Keys.Laws.{derive_conv_key_agree}
use lortnoc_tahc.Session.{
  Status, idle, offered, established, Session, fresh, frame_key, has, already_handled,
  clear_handled_frames, public_of, key_pair_or, start_offer, on_ack, accept_offer, reset,
  is_established,
}

module _ (c : Crypto) where
  -- The one key that a session may hold.
  abbrev pub session_key : Status → Option KeyPair → Option Bytes → Option Bytes
  session_key established (some kp) (some peer) = some (derive_conv_key c kp.private peer kp.public)
  session_key _ _ _ = none

  abbrev pub IsHonest : Option KeyPair → Type 0
  IsHonest none = Unit {0}
  IsHonest (some kp) = kp.public ≡ c.public_key kp.private

  abbrev pub IsLowOrder : Option Bytes → Type 0
  IsLowOrder none = ⊥
  IsLowOrder (some peer) = c.low_order peer ≡ true

  -- The key is the one of our private key and a peer key, which is the recorded one unless a key of
  -- low order was recorded since.
  abbrev pub IsKeyed : Session → Type 0
  IsKeyed s =
      (peer : Option Bytes) × (s.conv_key ≡ session_key s.status s.key_pair peer)
      × ((peer ≡ s.peer_pub) ⊎ IsLowOrder s.peer_pub)

  pub record IsSound (s : Session) : Type 0 where
    pub honest : IsHonest s.key_pair
    pub keyed : IsKeyed s
    pub live : is_some s.conv_key ≡ is_established s.status

  -- The operations that the content script calls, `startOffer` under its guard.
  pub data Step : Session → Session → Type 0 where
    offering :
        (s : Session) (random : Bytes) → s.status ≢ established → Step s (start_offer c s random).0
    acked : (s : Session) (random peer : Bytes) → Step s (on_ack c s random peer)
    accepting : (s : Session) (random peer : Bytes) → Step s (accept_offer c s random peer).0
    seen : (s : Session) (type : FrameType) (peer : Bytes) → Step s (already_handled s type peer).0
    cleared : (s : Session) → Step s (clear_handled_frames s)
    forgotten : (s : Session) → Step s (reset s)

  pub data Reach : Session → Type 0 where
    start : Reach fresh
    later : {s t : Session} → Reach s → Step s t → Reach t

  pub IsHonest-key_pair_or :
      (kp : Option KeyPair) (random : Bytes)
      → IsHonest kp
      → IsHonest (some (key_pair_or c kp random))
  IsHonest-key_pair_or none random h = refl
  IsHonest-key_pair_or (some kp) random h = h

  -- An established session has a key pair already.
  key_pair_kept :
      (st : Status) (kp : Option KeyPair) (random : Bytes) (peer : Option Bytes)
      → is_some (session_key st kp peer) ≡ is_established st
      → session_key st (some (key_pair_or c kp random)) peer ≡ session_key st kp peer
  key_pair_kept idle kp random peer h = refl
  key_pair_kept offered kp random peer h = refl
  key_pair_kept established none random peer h = cc
  key_pair_kept established (some kp) random peer h = refl

  establish-IsSound :
      (s : Session) (random peer : Bytes) → IsSound s → IsSound (on_ack c s random peer)
  unfolding on_ack
  establish-IsSound s random peer v = elim (Bool-cases (c.low_order peer)) [
    | inl low ↦
        let (p, e, why) = v.keyed in
        rw (low, on_ack)
          (record {
            honest = IsHonest-key_pair_or s.key_pair random v.honest;
            keyed = (
              p,
              e ∙ sym (key_pair_kept s.status s.key_pair random p (sym (ap is_some e) ∙ v.live)),
              inr low,
            );
            live = v.live;
          })
    | inr regular ↦
        rw (regular, on_ack)
          (record {
            honest = IsHonest-key_pair_or s.key_pair random v.honest;
            keyed = (some peer, refl, inl refl);
            live = refl;
          })
  ]

  seen-IsSound :
      (s : Session) (type : FrameType) (peer : Bytes)
      → IsSound s
      → IsSound (already_handled s type peer).0
  unfolding already_handled
  seen-IsSound s type peer v = elim (Bool-cases (has s.handled_frames (frame_key type peer))) [
    | inl old ↦ rw (old, already_handled) v
    | inr new ↦
        rw (new, already_handled) (record { honest = v.honest; keyed = v.keyed; live = v.live })
  ]

  pub Step-IsSound : {s t : Session} → Step s t → IsSound s → IsSound t
  unfolding start_offer on_ack accept_offer already_handled clear_handled_frames reset
  Step-IsSound (offering s random h) v = record {
    honest = IsHonest-key_pair_or s.key_pair random v.honest;
    keyed = (s.peer_pub, ground arith, inl refl);
    live = ground arith;
  }
  Step-IsSound (acked s random peer) v = establish-IsSound s random peer v
  Step-IsSound (accepting s random peer) v = establish-IsSound s random peer v
  Step-IsSound (seen s type peer) v = seen-IsSound s type peer v
  Step-IsSound (cleared s) v = record { honest = v.honest; keyed = v.keyed; live = v.live }
  Step-IsSound (forgotten s) v = record { honest = tt; keyed = (none, refl, inl refl); live = refl }

  pub fresh-IsSound : IsSound fresh
  fresh-IsSound = record { honest = tt; keyed = (none, refl, inl refl); live = refl }

  -- In every session that the operations reach the key pair is honest, there is a conversation key
  -- exactly when the status is established, and it is the one derived from our private key and the
  -- recorded peer key, or an earlier one if the recorded key is of low order.
  pub Reach-IsSound : {s : Session} → Reach s → IsSound s
  Reach-IsSound start = fresh-IsSound
  Reach-IsSound (later r st) = Step-IsSound st (Reach-IsSound r)

  pairs_agree :
      CryptoLaws c
      → (kp kt : Option KeyPair) → IsHonest kp
      → IsHonest kt
      → session_key established kp (public_of kt) ≡ session_key established kt (public_of kp)
  pairs_agree laws none none h k = refl
  pairs_agree laws none (some kt) h k = refl
  pairs_agree laws (some kp) none h k = refl
  pairs_agree laws (some kp) (some kt) h k =
      rw (h, k) (ap some (derive_conv_key_agree c laws kp.private kt.private))

  -- With the public key of an honest pair as the recorded one, the key is that of the recorded one.
  keyed_honest :
      (s : Session) (kt : Option KeyPair)
      → CryptoLaws c
      → IsSound s
      → IsHonest kt
      → s.peer_pub ≡ public_of kt
      → s.conv_key ≡ session_key s.status s.key_pair s.peer_pub
  keyed_honest s kt laws v honest e = go v.keyed.2
    where
      no_low : (k : Option KeyPair) → IsHonest k → IsLowOrder (public_of k) → ⊥
      no_low none h low = low
      no_low (some k) h low = cc (laws.regular k.private, h, low)

      go :
          ((v.keyed.0 ≡ s.peer_pub) ⊎ IsLowOrder s.peer_pub)
          → s.conv_key ≡ session_key s.status s.key_pair s.peer_pub
      go (inl same) = v.keyed.1 ∙ ap (session_key s.status s.key_pair) same
      go (inr low) = absurd (no_low kt honest (subst IsLowOrder e low))

  -- Two established sessions that each recorded the public key of the other hold one key.
  pub keys_agree :
      (s t : Session)
      → CryptoLaws c
      → Reach s
      → Reach t
      → s.status ≡ established
      → t.status ≡ established
      → s.peer_pub ≡ public_of t.key_pair
      → t.peer_pub ≡ public_of s.key_pair
      → s.conv_key ≡ t.conv_key
  keys_agree s t laws r q es et ps pt =
      keyed_honest s t.key_pair laws (Reach-IsSound r) (Reach-IsSound q).honest ps
      ∙ rw (es, ps)
          (pairs_agree laws s.key_pair t.key_pair (Reach-IsSound r).honest (Reach-IsSound q).honest
            ∙ sym (
                keyed_honest t s.key_pair laws (Reach-IsSound q) (Reach-IsSound r).honest pt
                ∙ rw (et, pt)))
