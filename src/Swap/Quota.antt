-- ===== src/Swap/Quota.antt =====
-- The free quota under a codec that does not meter.
use lortnoc_tahc.Base.{
  ℕ, ◌+◌, ◌≤◌, ◌<◌, ◌≡◌, false, not, ◌&&◌, Option, none, some, List, [], ◌∷◌, is_some, if_cases,
  Bytes, Text, arith,
}
use lortnoc_tahc.Keys.{Crypto}
use lortnoc_tahc.Meter.{Meter, value_or, is_blocked, mark_blocked, increment}
use lortnoc_tahc.Swap.{
  SwapWorld, SwapResult, EncodeRequest, EncodeReply, thrown, refused, encoded, on_success, on_reply,
  with_key, on_swap, metered, enforced,
}

-- The codec's answers carry no count to mirror: none at all, or a negative one for a non-member.
abbrev pub Unmetered : EncodeReply → Type 0
Unmetered (encoded d) = enforced d.remaining (value_or false d.member) ≡ none
Unmetered _ = Unit {0}

abbrev pub sent : Option Text → ℕ
sent none = 0
sent (some t) = 1

-- What one send keeps of an unpaid meter.
abbrev Within : Meter → SwapResult → Type 0
Within m r =
    (r.meter.paid ≡ false) × (sent r.cover + m.sends ≤ r.meter.sends) × (r.meter.sends ≤ 10)

module _ (c : Crypto) (w : SwapWorld) where
  on_reply-Within :
      (m : Meter) (reply : EncodeReply)
      → m.paid ≡ false
      → m.sends < 10
      → Unmetered reply
      → Within m (on_reply c w m reply)
  unfolding on_reply on_success metered increment mark_blocked
  on_reply-Within m thrown p h u = ground arith
  on_reply-Within m (refused none) p h u = ground arith
  on_reply-Within m (refused (some status)) p h u = ground arith
  on_reply-Within m (encoded d) p h u = rw (u, metered) (ground arith)

  with_key-Within :
      (m : Meter) (key : Option Bytes) (real : Bytes)
      → m.paid ≡ false
      → m.sends < 10
      → ((request : EncodeRequest) → Unmetered (w.send_to_codec request))
      → Within m (with_key c w m key real)
  unfolding with_key
  with_key-Within m none real p h u = (p, omega arith, omega arith)
  with_key-Within m (some key) real p h u = on_reply-Within m _ p h (u _)

  on_swap-Within :
      (m : Meter) (key : Option Bytes) (real : Bytes)
      → w.token ≡ none
      → m.paid ≡ false
      → m.sends ≤ 10
      → ((request : EncodeRequest) → Unmetered (w.send_to_codec request))
      → Within m (on_swap c w m key real)
  unfolding on_swap is_blocked
  on_swap-Within m key real t p h u =
      if_cases (Within m) (not (is_some w.token) && is_blocked m) (λ _. (p, omega arith, h))
        (λ gate. with_key-Within m key real p (ground arith) u)

  -- A sequence of sends, with the number of cover texts handed out.
  pub swap_all : Meter → Option Bytes → List Bytes → Meter × ℕ
  swap_all m key [] = (m, 0)
  swap_all m key (real ∷ rs) =
      let r = on_swap c w m key real in
      let (m', n) = swap_all r.meter key rs in (m', sent r.cover + n)

  swap_all-within :
      (m : Meter) (key : Option Bytes) (reals : List Bytes)
      → w.token ≡ none
      → m.paid ≡ false
      → m.sends ≤ 10
      → ((request : EncodeRequest) → Unmetered (w.send_to_codec request))
      → ((swap_all m key reals).1 + m.sends ≤ (swap_all m key reals).0.sends)
        × ((swap_all m key reals).0.sends ≤ 10)
  unfolding swap_all
  swap_all-within m key [] t p h u = (omega arith, h)
  swap_all-within m key (real ∷ rs) t p h u =
      let here = on_swap-Within m key real t p h u in
      let there = swap_all-within (on_swap c w m key real).meter key rs t here.0 here.2 u in
      (omega (arith, here, there), there.1)

  -- With no token, an unpaid meter at ten or less and a codec that does not meter, any sequence of
  -- sends gives out at most as many cover texts as remain of the ten free ones, and the meter counts
  -- each of them.
  pub free_quota :
      (m : Meter) (key : Option Bytes) (reals : List Bytes)
      → w.token ≡ none
      → m.paid ≡ false
      → m.sends ≤ 10
      → ((request : EncodeRequest) → Unmetered (w.send_to_codec request))
      → ((swap_all m key reals).1 + m.sends ≤ (swap_all m key reals).0.sends)
        × ((swap_all m key reals).1 + m.sends ≤ 10)
  free_quota m key reals t p h u =
      let v = swap_all-within m key reals t p h u in (v.0, omega (arith, v))
