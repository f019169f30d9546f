-- ===== src/Compose/Waits.antt =====
-- While a swap waits on the codec nothing else happens.
use lortnoc_tahc.Base.{
  ℕ, suc, zero, ◌≡◌, refl, Bool, true, false, Option, none, some, List, [], if_cases, Text, arith,
}
use lortnoc_tahc.Compose.{
  Key, is_send_shortcut, Page, Await, Compose, Sent, Event, pressed, clicked, edited, resolved,
  framed, released, expired, begin_swap, on_keydown, on_click, send_cover_text, release, expire,
  handle_event,
}
use lortnoc_tahc.Compose.Flight.{IsOneSwap}

abbrev pub is_answer : Event → Bool
is_answer (resolved o) = true
is_answer _ = false

-- An event that lets nothing out and leaves the swap in flight alone.
abbrev pub Waits : Option Await → Compose × List Sent → Type 0
Waits w r = (r.0.awaiting ≡ w) × (r.1 ≡ [])

module _ (c : Compose) (w : Await) (h : IsOneSwap c) (a : c.awaiting ≡ some w) where
  marked : c.swapping ≡ true
  marked = ground arith

  begin_swap-marked : (page : Page) → begin_swap page c ≡ c
  unfolding begin_swap
  begin_swap-marked page = rw (marked, begin_swap) refl

  on_click-Waits :
      (page : Page) (pane : ℕ)
      → c.allow_next_click ≡ false
      → Waits (some w) (on_click true page c pane)
  unfolding on_click
  on_click-Waits page pane f =
      if_cases (Waits (some w)) c.allow_next_click (λ e. absurd (ground arith))
        (λ _. (rw (begin_swap-marked page) a, refl))

  on_keydown-Waits :
      (page : Page) (pane : ℕ) (k : Key) → Waits (some w) (on_keydown true page c pane k)
  unfolding on_keydown
  on_keydown-Waits page pane k =
      if_cases (Waits (some w)) (is_send_shortcut k) (λ _. (rw (begin_swap-marked page) a, refl))
        (λ _. (a, refl))

  send_cover_text-Waits :
      (page : Page) (found : Option ℕ) (t : Text)
      → Waits (some w) (send_cover_text true page c found t)
  unfolding send_cover_text
  send_cover_text-Waits page none t = (a, refl)
  send_cover_text-Waits page (some pane) t =
      if_cases (Waits (some w)) c.swapping (λ _. (a, refl)) (λ e. absurd (cc (marked, e)))

  release-Waits : Waits (some w) (release c, [])
  unfolding release
  release-Waits =
      if_cases (λ (d : Compose). Waits (some w) (d, [])) c.release_due (λ _. (a, refl))
        (λ _. (a, refl))

  expire-Waits : (n : ℕ) → Waits (some w) (expire c n, [])
  unfolding expire
  expire-Waits zero = (a, refl)
  expire-Waits (suc n) = (a, refl)

  handle_event-Waits :
      (page : Page) (e : Event)
      → c.allow_next_click ≡ false
      → is_answer e ≡ false
      → Waits (some w) (handle_event true page c e)
  unfolding handle_event
  handle_event-Waits page (pressed pane k) f n = on_keydown-Waits page pane k
  handle_event-Waits page (clicked pane) f n = on_click-Waits page pane f
  handle_event-Waits page (edited pane t) f n = (a, refl)
  handle_event-Waits page (resolved o) f n = absurd (cc n)
  handle_event-Waits page (framed t) f n = send_cover_text-Waits page page.compose t
  handle_event-Waits page released f n = release-Waits
  handle_event-Waits page expired f n = expire-Waits c.expiries

-- While a swap waits on the codec, there is a key, the flags are those of one swap, and no click
-- of ours still has its pass: no event but the codec's answer lets anything reach Telegram, begins
-- another swap or changes what this one is about. An Enter, a click and a handshake frame are all
-- held back.
pub in_flight_waits :
    (c : Compose) (w : Await) (page : Page) (e : Event)
    → IsOneSwap c
    → c.awaiting ≡ some w
    → c.allow_next_click ≡ false
    → is_answer e ≡ false
    → ((handle_event true page c e).0.awaiting ≡ some w) × ((handle_event true page c e).1 ≡ [])
in_flight_waits c w page e h a f n = handle_event-Waits c w h a page e f n
