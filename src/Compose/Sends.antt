-- ===== src/Compose/Sends.antt =====
-- One send from the keystroke to Telegram, and its failures.
use lortnoc_tahc.Base.{
  ℕ, ◌+◌, ◌≡◌, ap, ◌∙◌, ◌≢◌, ◌⊎◌, refl, Bool, true, false, none, some, [], ◌∷◌, Text, inl, inr,
  arith,
}
use lortnoc_tahc.Compose.{
  Key, is_send_shortcut, sends, Page, Await, Compose, Outcome, threw, covered, pressed, resolved,
  released, replace_compose, await_cover, do_swap, begin_swap, on_keydown, on_click, click_button,
  send_cover, on_outcome, release, handle_event, read_compose,
}

-- A swap marked, waiting on the codec for what the pane holds.
abbrev begun : Compose → ℕ → Text → Compose
begun c pane real = record c {
  swapping = true;
  awaiting = some (record { pane = pane; real = real });
}

await_cover-filled :
    (c : Compose) (pane : ℕ) (real : Text)
    → real ≢ []
    → await_cover c pane real ≡ record c { awaiting = some (record { pane = pane; real = real }) }
unfolding await_cover
await_cover-filled c pane [] filled = absurd (filled refl)
await_cover-filled c pane (x ∷ t) filled = refl

module _ (page : Page) (c : Compose) (pane : ℕ) (found : page.compose ≡ some pane)
    (idle : c.swapping ≡ false) (filled : read_compose (c.drafts pane) ≢ []) where
  begins : begin_swap page c ≡ begun c pane (read_compose (c.drafts pane))
  unfolding begin_swap do_swap
  begins =
      rw (idle, begin_swap, found, do_swap)
        (await_cover-filled (record c { swapping = true }) pane (read_compose (c.drafts pane))
          filled)

  keydown_begins :
      (k : Key)
      → is_send_shortcut k ≡ true
      → on_keydown true page c pane k ≡ (begun c pane (read_compose (c.drafts pane)), [])
  unfolding on_keydown
  keydown_begins k s = rw (s, on_keydown, begins) refl

abbrev cover_sent : Compose → ℕ → Text → ℕ → Text → Compose
cover_sent c pane cover q left = record c {
  allow_next_click = false;
  drafts = replace_compose (replace_compose c.drafts pane cover) q left;
  awaiting = none;
  release_due = true;
  expiries = c.expiries + 1;
}

-- The answer's own click is let through with a key or without, and sends what the button's pane holds.
outcome_clicks :
    (ready : Bool) (page : Page) (c : Compose) (w : Await) (cover : Text) (q : ℕ)
    → page.button ≡ sends q
    → on_outcome ready page c (some w) (covered (some cover)) ≡ (
      cover_sent c w.pane cover q page.left,
      record { pane = q; text = replace_compose c.drafts w.pane cover q } ∷ [],
    )
unfolding on_outcome send_cover click_button on_click
outcome_clicks ready page c w cover q b = rw (b, click_button) refl

pane_gets : (drafts : ℕ → Text) (pane : ℕ) (t : Text) → replace_compose drafts pane t pane ≡ t
unfolding replace_compose
pane_gets drafts pane t = ground arith

other_keeps :
    (drafts : ℕ → Text) (pane q : ℕ) (t : Text)
    → q ≢ pane
    → replace_compose drafts pane t q ≡ drafts q
unfolding replace_compose
other_keeps drafts pane q t h = ground arith

-- With a key and no swap running, an Enter in a compose box with text begins a swap and is held back;
-- when the codec has answered with a cover text and the button of the same pane is there, exactly the
-- cover text is sent from that pane, and once the timer has run the next send can begin.
pub enter_sends_cover :
    (page later : Page) (c : Compose) (pane : ℕ) (k : Key) (cover : Text) (ready any : Bool)
    → page.compose ≡ some pane
    → c.swapping ≡ false
    → read_compose (c.drafts pane) ≢ []
    → is_send_shortcut k ≡ true
    → later.button ≡ sends pane
    → let pressing = handle_event true page c (pressed pane k) in
      let answering = handle_event ready later pressing.0 (resolved (covered (some cover))) in
      let ending = handle_event any later answering.0 released in
      (pressing.1 ≡ [])
      × (pressing.0.awaiting ≡ some (record { pane = pane; real = read_compose (c.drafts pane) }))
      × (answering.1 ≡ record { pane = pane; text = cover } ∷ [])
      × (ending.0.swapping ≡ false)
unfolding handle_event release
enter_sends_cover page later c pane k cover ready any found idle filled s live =
    rw (keydown_begins page c pane found idle filled k s, outcome_clicks, live, pane_gets)
      (refl, refl, refl, refl)

-- A swap that the codec fails, by an exception or by no cover text, sends nothing and leaves every
-- draft as it is, and once the timer has run the next send can begin.
pub no_cover_no_send :
    (ready any : Bool) (page later : Page) (c : Compose) (w : Await) (o : Outcome)
    → c.awaiting ≡ some w
    → (o ≡ threw) ⊎ (o ≡ covered none)
    → let failing = handle_event ready page c (resolved o) in
      (failing.1 ≡ [])
      × (failing.0.drafts ≡ c.drafts)
      × ((handle_event any later failing.0 released).0.swapping ≡ false)
unfolding handle_event on_outcome send_cover release
no_cover_no_send ready any page later c w o a (inl e) =
    rw (a, on_outcome, e, send_cover) (refl, refl, refl)
no_cover_no_send ready any page later c w o a (inr e) =
    rw (a, on_outcome, e, send_cover) (refl, refl, refl)

-- If the visible send button is that of another pane when the codec answers, the draft of that pane is
-- sent as the user typed it, with a key or without, and not the cover text.
pub switched_pane_sends_draft :
    (ready : Bool) (page : Page) (c : Compose) (w : Await) (q : ℕ) (cover : Text)
    → c.awaiting ≡ some w
    → page.button ≡ sends q
    → q ≢ w.pane
    → (handle_event ready page c (resolved (covered (some cover)))).1
      ≡ record { pane = q; text = c.drafts q } ∷ []
unfolding handle_event
switched_pane_sends_draft ready page c w q cover a b h =
    ap (λ f. (on_outcome ready page c f (covered (some cover))).1) a
    ∙ rw (outcome_clicks ready page c w cover q b, other_keeps c.drafts w.pane q cover h) refl
