-- ===== src/Compose.antt =====
-- extension/src/content/compose.ts: the interceptor of sends and `sendCoverText`. A pane is one chat's
-- compose box, known by a number. What the page holds when an event is handled is an argument; the two
-- timers are events of their own. The busy mark and the progress stepper are not modelled.
pub mod Safety
pub mod Flight
pub mod Waits
pub mod Sends
pub mod Tests
use lortnoc_tahc.Base.{
  ℕ, zero, suc, between, ◌+◌, Bool, true, false, not, ◌&&◌, ◌||◌, Option, none, some, List, [], ◌∷◌,
  ◌++◌, if◌then◌else◌, leb, ◌==◌, Text, trim_start, trim_end,
}

unfoldable pub plain_spaces : Text → Text
plain_spaces [] = []
plain_spaces (c ∷ t) = (if c == 160 then 32 else c) ∷ plain_spaces t

unfoldable pub read_compose : Text → Text
unfolding trim_start trim_end plain_spaces
read_compose t = trim_end (trim_start (plain_spaces t))

pub record Key : Type 0 where
  pub enter : Bool
  pub shift : Bool
  pub composing : Bool

abbrev pub is_send_shortcut : Key → Bool
is_send_shortcut k = k.enter && not k.shift && not k.composing

-- What `visibleSendButton` finds: a click on a disabled button is no event, and a live one sends what
-- its own pane holds.
pub data Button : Type 0 where
  missing disabled : Button
  sends : ℕ → Button

-- `compose` is what `activeCompose` finds, and `left` what Telegram leaves in a box when it has sent
-- what the box held.
pub record Page : Type 0 where
  pub compose : Option ℕ
  pub button : Button
  pub left : Text

-- A swap that waits on the codec: its pane and the text the user wrote.
pub record Await : Type 0 where
  pub pane : ℕ
  pub real : Text

-- The module's variables, the draft of every pane, the swap in flight, whether the timer that ends a
-- swap is set, and how many timers that withdraw the pass of a click are.
pub record Compose : Type 0 where
  pub swapping : Bool
  pub allow_next_click : Bool
  pub drafts : ℕ → Text
  pub awaiting : Option Await
  pub release_due : Bool
  pub expiries : ℕ

-- A send that reaches Telegram: the pane and what it holds.
pub record Sent : Type 0 where
  pub pane : ℕ
  pub text : Text

abbrev pub quiet : Compose
quiet = record {
  swapping = false;
  allow_next_click = false;
  drafts = λ p. [];
  awaiting = none;
  release_due = false;
  expiries = 0;
}

unfoldable pub replace_compose : (ℕ → Text) → ℕ → Text → ℕ → Text
replace_compose drafts pane text p = if p == pane then text else drafts p

-- `doSwapAndSend` up to its wait on the codec.
unfoldable pub await_cover : Compose → ℕ → Text → Compose
await_cover c pane [] = record c { swapping = false }
await_cover c pane (x ∷ t) = record c { awaiting = some (record { pane = pane; real = x ∷ t }) }

unfoldable pub do_swap : Compose → Option ℕ → Compose
do_swap c none = record c { swapping = false }
do_swap c (some pane) = await_cover c pane (read_compose (c.drafts pane))

unfoldable pub begin_swap : Page → Compose → Compose
begin_swap page c = if c.swapping then c else do_swap (record c { swapping = true }) page.compose

-- The event goes on to Telegram, which sends the draft.
abbrev pub passes : Page → Compose → ℕ → Compose × List Sent
passes page c pane = (
  record c { drafts = replace_compose c.drafts pane page.left },
  record { pane = pane; text = c.drafts pane } ∷ [],
)

-- The keydown listener, for a key in the compose box of a pane.
unfoldable pub on_keydown : Bool → Page → Compose → ℕ → Key → Compose × List Sent
on_keydown ready page c pane k =
    if is_send_shortcut k
    then if ready then (begin_swap page c, []) else passes page c pane
    else (c, [])

-- The click listener, for a click on the send button of a pane.
unfoldable pub on_click : Bool → Page → Compose → ℕ → Compose × List Sent
on_click ready page c pane =
    if c.allow_next_click
    then passes page (record c { allow_next_click = false }) pane
    else if ready
    then (begin_swap page c, [])
    else passes page c pane

-- Our click on the button found, with its pass and the timer that withdraws the pass.
unfoldable pub click_button : Bool → Page → Compose → Button → Compose × List Sent
click_button ready page c missing = (c, [])
click_button ready page c disabled =
    (record c { allow_next_click = true; expiries = c.expiries + 1 }, [])
click_button ready page c (sends pane) =
    on_click ready page (record c { allow_next_click = true; expiries = c.expiries + 1 }) pane

-- What `onSwap` did: an exception, or a cover text or null.
pub data Outcome : Type 0 where
  threw : Outcome
  covered : Option Text → Outcome

-- `doSwapAndSend` from the codec's answer on, with the `finally` block.
unfoldable pub send_cover : Bool → Page → Compose → ℕ → Outcome → Compose × List Sent
send_cover ready page c pane threw = (c, [])
send_cover ready page c pane (covered none) = (c, [])
send_cover ready page c pane (covered (some cover)) =
    click_button ready page (record c { drafts = replace_compose c.drafts pane cover }) page.button

-- An answer with no swap in flight does nothing.
unfoldable pub on_outcome : Bool → Page → Compose → Option Await → Outcome → Compose × List Sent
on_outcome ready page c none o = (c, [])
on_outcome ready page c (some a) o =
    send_cover ready page (record c { awaiting = none; release_due = true }) a.pane o

-- `sendCoverText` of a supported client, from the compose box it found on.
unfoldable pub send_cover_text : Bool → Page → Compose → Option ℕ → Text → Compose × List Sent
send_cover_text ready page c none cover = (c, [])
send_cover_text ready page c (some pane) cover =
    if c.swapping
    then (c, [])
    else click_button ready page
        (record c {
          swapping = true;
          release_due = true;
          drafts = replace_compose c.drafts pane cover;
        })
        page.button

pub data Event : Type 0 where
  pressed : ℕ → Key → Event
  clicked : ℕ → Event
  edited : ℕ → Text → Event
  resolved : Outcome → Event
  framed : Text → Event
  released expired : Event

pub record Input : Type 0 where
  pub ready : Bool
  pub page : Page
  pub event : Event

unfoldable pub release : Compose → Compose
release c = if c.release_due then record c { swapping = false; release_due = false } else c

unfoldable pub expire : Compose → ℕ → Compose
expire c zero = c
expire c (suc n) = record c { allow_next_click = false; expiries = n }

unfoldable pub handle_event : Bool → Page → Compose → Event → Compose × List Sent
handle_event ready page c (pressed pane k) = on_keydown ready page c pane k
handle_event ready page c (clicked pane) = on_click ready page c pane
handle_event ready page c (edited pane t) =
    (record c { drafts = replace_compose c.drafts pane t }, [])
handle_event ready page c (resolved o) = on_outcome ready page c c.awaiting o
handle_event ready page c (framed cover) = send_cover_text ready page c page.compose cover
handle_event ready page c released = (release c, [])
handle_event ready page c expired = (expire c c.expiries, [])

abbrev pub step : Compose → Input → Compose × List Sent
step c i = handle_event i.ready i.page c i.event

unfoldable pub run : Compose → List Input → Compose × List Sent
run c [] = (c, [])
run c (i ∷ is) = let (c1, out) = step c i in let (c2, rest) = run c1 is in (c2, out ++ rest)
