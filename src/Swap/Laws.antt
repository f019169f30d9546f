-- ===== src/Swap/Laws.antt =====
-- What the callback lets out, and what it does to the meter.
use lortnoc_tahc.Base.{
  ◌≡◌, ap, ◌∙◌, ◌↔◌, inl, inr, refl, true, false, not, ◌&&◌, Option, none, some, is_some,
  Bool-cases, Bytes, Text, arith,
}
use lortnoc_tahc.Keys.{Crypto}
use lortnoc_tahc.Meter.{Meter, is_blocked, mark_blocked}
use lortnoc_tahc.Swap.{
  SwapWorld, EncodeReply, EncodeData, thrown, refused, encoded, encode_request, on_success,
  on_reply, with_key, on_swap,
}

module _ (c : Crypto) (w : SwapWorld) where
  on_reply_cover :
      (m : Meter) (reply : EncodeReply) (cover : Text)
      → (on_reply c w m reply).cover ≡ some cover
      → (d : EncodeData) × (reply ≡ encoded d) × (d.cover_text ≡ cover)
  unfolding on_reply on_success
  on_reply_cover m thrown cover e = cc
  on_reply_cover m (refused none) cover e = cc
  on_reply_cover m (refused (some status)) cover e = ground arith
  on_reply_cover m (encoded d) cover e = (d, refl, ground arith)

  -- The one way to a cover text.
  pub record Lets (m : Meter) (key : Option Bytes) (real cover : Bytes) : Type 0 where
    pub used : Bytes
    pub reply_data : EncodeData
    pub keyed : key ≡ some used
    pub free : (not (is_some w.token) && is_blocked m) ≡ false
    pub replied : w.send_to_codec (encode_request c w used real) ≡ encoded reply_data
    pub covers : reply_data.cover_text ≡ cover

  with_key_cover :
      (m : Meter) (key : Option Bytes) (real : Bytes) (cover : Text)
      → (with_key c w m key real).cover ≡ some cover
      → (used : Bytes) × (d : EncodeData) × (key ≡ some used)
        × (w.send_to_codec (encode_request c w used real) ≡ encoded d)
        × (d.cover_text ≡ cover)
  unfolding with_key
  with_key_cover m none real cover e = cc
  with_key_cover m (some used) real cover e =
      let (d, r, t) = on_reply_cover m _ cover e in (used, d, refl, r, t)

  Lets-on_swap :
      (m : Meter) (key : Option Bytes) (real : Bytes) (cover : Text)
      → (on_swap c w m key real).cover ≡ some cover
      → Lets m key real cover
  unfolding on_swap
  Lets-on_swap m key real cover e = elim (Bool-cases (not (is_some w.token) && is_blocked m)) [
    | inl blocked ↦ absurd (cc (rw (blocked, on_swap) at e))
    | inr free ↦
        (let (used, d, k, r, t) = with_key_cover m key real cover (rw (free, on_swap) at e) in
          record { used = used; reply_data = d; keyed = k; free = free; replied = r; covers = t })
  ]

  on_swap-Lets :
      (m : Meter) (key : Option Bytes) (real : Bytes) (cover : Text)
      → Lets m key real cover
      → (on_swap c w m key real).cover ≡ some cover
  unfolding on_swap with_key on_reply on_success
  on_swap-Lets m key real cover l =
      rw (l.free, on_swap, l.keyed, with_key, l.replied, on_reply, l.covers)

  -- A text is handed to the interceptor exactly if there is a conversation key, the local gate is open
  -- (a membership token, or an unpaid count below ten, or a paid meter), and the codec answered the
  -- request that carries the message encrypted under that key; the text is the codec's cover text. On
  -- every other branch the send is aborted.
  pub on_swap_iff :
      (m : Meter) (key : Option Bytes) (real : Bytes) (cover : Text)
      → ((on_swap c w m key real).cover ≡ some cover) ↔ Lets m key real cover
  on_swap_iff m key real cover = (Lets-on_swap m key real cover, on_swap-Lets m key real cover)

  gate : (m : Meter) → w.token ≡ none → (not (is_some w.token) && is_blocked m) ≡ is_blocked m
  gate m t = ap (λ o. not (is_some o) && is_blocked m) t

  payment_required :
      (m : Meter) (key real : Bytes)
      → w.token ≡ none
      → is_blocked m ≡ false
      → w.send_to_codec (encode_request c w key real) ≡ refused (some 402)
      → ((on_swap c w m (some key) real).cover ≡ none)
        × ((on_swap c w m (some key) real).meter ≡ mark_blocked m)
  unfolding on_swap with_key on_reply
  payment_required m key real t b e = rw (gate m t ∙ b, on_swap, with_key, e, on_reply) (refl, refl)

  gate_closed :
      (m : Meter) (key : Option Bytes) (real : Bytes)
      → w.token ≡ none
      → is_blocked m ≡ true
      → ((on_swap c w m key real).cover ≡ none) × ((on_swap c w m key real).meter ≡ m)
  unfolding on_swap
  gate_closed m key real t b = rw (gate m t ∙ b, on_swap) (refl, refl)

mark_blocked-blocked : (m : Meter) → m.paid ≡ false → is_blocked (mark_blocked m) ≡ true
unfolding mark_blocked is_blocked
mark_blocked-blocked m p = ground arith

-- When the codec answers 402 to an unpaid sender with no token, the send is aborted and the meter is
-- blocked at ten, and a later send with no token is aborted and leaves the meter, whatever the
-- message, the key and the codec.
pub on_swap_payment_required :
    (c : Crypto) (w v : SwapWorld) (m : Meter) (key real later : Bytes) (k : Option Bytes)
    → w.token ≡ none
    → v.token ≡ none
    → m.paid ≡ false
    → is_blocked m ≡ false
    → w.send_to_codec (encode_request c w key real) ≡ refused (some 402)
    → let r = on_swap c w m (some key) real in
      (r.cover ≡ none)
      × (r.meter ≡ mark_blocked m)
      × ((on_swap c v r.meter k later).cover ≡ none)
      × ((on_swap c v r.meter k later).meter ≡ r.meter)
on_swap_payment_required c w v m key real later k t u p b e =
    let (aborted, blocked) = payment_required c w m key real t b e in
    let shut = gate_closed c v (mark_blocked m) k later u (mark_blocked-blocked m p) in
    (aborted, blocked, rw blocked shut.0, rw blocked shut.1)
