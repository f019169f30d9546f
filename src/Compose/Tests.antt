-- ===== src/Compose/Tests.antt =====
-- Sends at concrete inputs, and the theorems applied to them.
use lortnoc_tahc.Base.{◌≡◌, refl, true, false, some, List, [], ◌∷◌, arith}
use lortnoc_tahc.Keys.{codes}
use lortnoc_tahc.Compose.{
  Key, sends, Page, Compose, covered, pressed, clicked, edited, resolved, framed, released, expired,
  Input, Event, handle_event, run, quiet, read_compose, on_keydown, on_click, begin_swap, do_swap,
  await_cover, replace_compose, on_outcome, send_cover, click_button, send_cover_text, expire,
  release,
}
use lortnoc_tahc.Compose.Safety.{IsPart, texts, covers_of, sends_are_covers}
use lortnoc_tahc.Compose.Waits.{in_flight_waits}
use lortnoc_tahc.Compose.Sends.{enter_sends_cover, switched_pane_sends_draft}

abbrev enter : Key
enter = record { enter = true; shift = false; composing = false }

abbrev page : Page
page = record { compose = some 1; button = sends 1; left = [] }

abbrev on_page : Event → Input
on_page e = record { ready = true; page = page; event = e }

abbrev typed : Compose
typed = record quiet { drafts = λ p. codes " hi\n" }

abbrev waiting : Compose
waiting = record typed { swapping = true; awaiting = some (record { pane = 1; real = codes "hi" }) }

-- A second Enter and a click during the wait are held back, the cover text goes out once, and a
-- handshake frame after it too.
abbrev session : List Input
session =
    on_page (edited 1 (codes "hi "))
    ∷ on_page (pressed 1 enter)
    ∷ on_page (pressed 1 enter)
    ∷ on_page (clicked 1)
    ∷ on_page (resolved (covered (some (codes "nice day"))))
    ∷ on_page (framed (codes "dropped"))
    ∷ on_page released
    ∷ on_page expired
    ∷ on_page (framed (codes "see you"))
    ∷ []

session_sends : texts (run quiet session).1 ≡ codes "nice day" ∷ codes "see you" ∷ []
unfolding run handle_event on_keydown on_click begin_swap do_swap await_cover read_compose
    replace_compose on_outcome send_cover click_button send_cover_text expire release
session_sends = refl

sends_are_covers_example : IsPart (texts (run quiet session).1) (covers_of session)
unfolding handle_event on_keydown on_click begin_swap do_swap await_cover read_compose
    replace_compose on_outcome send_cover click_button send_cover_text expire release
sends_are_covers_example = sends_are_covers quiet session refl (
  (refl, tt),
  (
    (refl, tt),
    (
      (refl, tt),
      ((refl, tt), ((refl, refl), ((refl, refl), ((refl, tt), ((refl, tt), ((refl, refl), tt)))))),
    ),
  ),
)

in_flight_waits_example :
    ((handle_event true page waiting (clicked 1)).0.awaiting ≡ waiting.awaiting)
    × ((handle_event true page waiting (clicked 1)).1 ≡ [])
in_flight_waits_example =
    in_flight_waits waiting (record { pane = 1; real = codes "hi" }) page (clicked 1) (refl, refl)
      refl refl refl

enter_sends_cover_example :
    let pressing = handle_event true page typed (pressed 1 enter) in
    let answering = handle_event false page pressing.0 (resolved (covered (some (codes "nice")))) in
    let ending = handle_event true page answering.0 released in
    (pressing.1 ≡ [])
    × (pressing.0.awaiting ≡ some (record { pane = 1; real = read_compose (typed.drafts 1) }))
    × (answering.1 ≡ record { pane = 1; text = codes "nice" } ∷ [])
    × (ending.0.swapping ≡ false)
unfolding read_compose
enter_sends_cover_example =
    enter_sends_cover page page typed 1 enter (codes "nice") false true refl refl (λ e. cc) refl
      refl

switched_pane_sends_draft_example :
    (handle_event true
      (record { compose = some 2; button = sends 2; left = [] })
      waiting
      (resolved (covered (some (codes "nice"))))).1
    ≡ record { pane = 2; text = waiting.drafts 2 } ∷ []
switched_pane_sends_draft_example =
    switched_pane_sends_draft true (record { compose = some 2; button = sends 2; left = [] })
      waiting (record { pane = 1; real = codes "hi" }) 2 (codes "nice") refl refl
      (λ e. absurd (omega arith))
