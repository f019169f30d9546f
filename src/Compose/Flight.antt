-- ===== src/Compose/Flight.antt =====
-- One swap at a time: how the flags follow the swap in flight and the timer that ends it.
use lortnoc_tahc.Base.{
  ℕ, suc, zero, ◌≡◌, refl, Bool, true, false, ◌&&◌, ◌||◌, Option, none, some, List, [], ◌∷◌,
  is_some, if_cases, Option-cases, Text, inl, inr, arith,
}
use lortnoc_tahc.Compose.{
  Key, is_send_shortcut, Button, missing, disabled, sends, Page, Await, Compose, Sent, Outcome,
  threw, covered, Event, pressed, clicked, edited, resolved, framed, released, expired, Input,
  await_cover, do_swap, begin_swap, on_keydown, on_click, click_button, send_cover, on_outcome,
  send_cover_text, release, expire, handle_event, step, run, read_compose,
}

-- A swap is marked exactly while one waits on the codec or its end is due, never both.
abbrev pub IsOneSwap : Compose → Type 0
IsOneSwap c =
    (c.swapping ≡ (is_some c.awaiting || c.release_due))
    × ((is_some c.awaiting && c.release_due) ≡ false)

await_cover-IsOneSwap :
    (c : Compose) (pane : ℕ) (t : Text)
    → c.swapping ≡ true
    → c.awaiting ≡ none
    → c.release_due ≡ false
    → IsOneSwap (await_cover c pane t)
unfolding await_cover
await_cover-IsOneSwap c pane [] s a r = rw (a, r) (refl, refl)
await_cover-IsOneSwap c pane (x ∷ t) s a r = rw (s, r) (refl, refl)

do_swap-IsOneSwap :
    (c : Compose) (found : Option ℕ)
    → c.swapping ≡ true
    → c.awaiting ≡ none
    → c.release_due ≡ false
    → IsOneSwap (do_swap c found)
unfolding do_swap
do_swap-IsOneSwap c none s a r = rw (a, r) (refl, refl)
do_swap-IsOneSwap c (some pane) s a r =
    await_cover-IsOneSwap c pane (read_compose (c.drafts pane)) s a r

free :
    (c : Compose) → IsOneSwap c → c.swapping ≡ false → (c.awaiting ≡ none) × (c.release_due ≡ false)
free c (s, o) e = elim (Option-cases c.awaiting) [
  | inl a ↦ (a, ground (arith))
  | inr (w, a) ↦ absurd (ground arith)
]

begin_swap-IsOneSwap : (page : Page) (c : Compose) → IsOneSwap c → IsOneSwap (begin_swap page c)
unfolding begin_swap
begin_swap-IsOneSwap page c h =
    if_cases IsOneSwap c.swapping (λ _. h)
      (λ e.
        let (a, r) = free c h e in
        do_swap-IsOneSwap (record c { swapping = true }) page.compose refl a r)

abbrev Stays : Compose × List Sent → Type 0
Stays o = IsOneSwap o.0

on_click-IsOneSwap :
    (ready : Bool) (page : Page) (c : Compose) (pane : ℕ)
    → IsOneSwap c
    → IsOneSwap (on_click ready page c pane).0
unfolding on_click
on_click-IsOneSwap true page c pane h =
    if_cases Stays c.allow_next_click (λ _. h) (λ _. begin_swap-IsOneSwap page c h)
on_click-IsOneSwap false page c pane h = if_cases Stays c.allow_next_click (λ _. h) (λ _. h)

on_keydown-IsOneSwap :
    (ready : Bool) (page : Page) (c : Compose) (pane : ℕ) (k : Key)
    → IsOneSwap c
    → IsOneSwap (on_keydown ready page c pane k).0
unfolding on_keydown
on_keydown-IsOneSwap true page c pane k h =
    if_cases Stays (is_send_shortcut k) (λ _. begin_swap-IsOneSwap page c h) (λ _. h)
on_keydown-IsOneSwap false page c pane k h = if_cases Stays (is_send_shortcut k) (λ _. h) (λ _. h)

click_button-IsOneSwap :
    (ready : Bool) (page : Page) (c : Compose) (b : Button)
    → IsOneSwap c
    → IsOneSwap (click_button ready page c b).0
unfolding click_button
click_button-IsOneSwap ready page c missing h = h
click_button-IsOneSwap ready page c disabled h = h
click_button-IsOneSwap ready page c (sends pane) h = on_click-IsOneSwap ready page _ pane h

send_cover-IsOneSwap :
    (ready : Bool) (page : Page) (c : Compose) (pane : ℕ) (o : Outcome)
    → IsOneSwap c
    → IsOneSwap (send_cover ready page c pane o).0
unfolding send_cover
send_cover-IsOneSwap ready page c pane threw h = h
send_cover-IsOneSwap ready page c pane (covered none) h = h
send_cover-IsOneSwap ready page c pane (covered (some t)) h =
    click_button-IsOneSwap ready page _ page.button h

on_outcome-IsOneSwap :
    (ready : Bool) (page : Page) (c : Compose) (o : Outcome)
    → IsOneSwap c
    → IsOneSwap (on_outcome ready page c c.awaiting o).0
unfolding on_outcome
on_outcome-IsOneSwap ready page c o h = elim (Option-cases c.awaiting) [
  | inl a ↦ rw (a, on_outcome) h
  | inr (w, a) ↦ rw (a, on_outcome) (send_cover-IsOneSwap ready page _ w.pane o (marked a h, refl))
]
  where
    marked : {w : Await} → c.awaiting ≡ some w → IsOneSwap c → c.swapping ≡ true
    marked a k = ground arith

send_cover_text-IsOneSwap :
    (ready : Bool) (page : Page) (c : Compose) (found : Option ℕ) (t : Text)
    → IsOneSwap c
    → IsOneSwap (send_cover_text ready page c found t).0
unfolding send_cover_text
send_cover_text-IsOneSwap ready page c none t h = h
send_cover_text-IsOneSwap ready page c (some pane) t h =
    if_cases Stays c.swapping (λ _. h)
      (λ e. click_button-IsOneSwap ready page _ page.button (idle e))
  where
    idle :
        c.swapping ≡ false
        → (true ≡ (is_some c.awaiting || true)) × ((is_some c.awaiting && true) ≡ false)
    idle e = let (a, r) = free c h e in rw a (refl, refl)

release-IsOneSwap : (c : Compose) → IsOneSwap c → IsOneSwap (release c)
unfolding release
release-IsOneSwap c h = if_cases IsOneSwap c.release_due (λ e. ground arith) (λ _. h)

expire-IsOneSwap : (c : Compose) (n : ℕ) → IsOneSwap c → IsOneSwap (expire c n)
unfolding expire
expire-IsOneSwap c zero h = h
expire-IsOneSwap c (suc n) h = h

step-IsOneSwap :
    (ready : Bool) (page : Page) (c : Compose) (e : Event)
    → IsOneSwap c
    → IsOneSwap (handle_event ready page c e).0
unfolding handle_event
step-IsOneSwap ready page c (pressed pane k) h = on_keydown-IsOneSwap ready page c pane k h
step-IsOneSwap ready page c (clicked pane) h = on_click-IsOneSwap ready page c pane h
step-IsOneSwap ready page c (edited pane t) h = h
step-IsOneSwap ready page c (resolved o) h = on_outcome-IsOneSwap ready page c o h
step-IsOneSwap ready page c (framed t) h = send_cover_text-IsOneSwap ready page c page.compose t h
step-IsOneSwap ready page c released h = release-IsOneSwap c h
step-IsOneSwap ready page c expired h = expire-IsOneSwap c c.expiries h

-- Whatever events come in whatever order, with a key or not, a swap is marked exactly while one waits
-- on the codec or its end is due, never both, if this holds at first.
pub run-IsOneSwap : (c : Compose) (inputs : List Input) → IsOneSwap c → IsOneSwap (run c inputs).0
unfolding run
run-IsOneSwap c [] h = h
run-IsOneSwap c (i ∷ is) h =
    run-IsOneSwap (step c i).0 is (step-IsOneSwap i.ready i.page c i.event h)
