-- ===== src/Compose/Safety.antt =====
-- What reaches Telegram while there is a key: cover texts only.
use lortnoc_tahc.Base.{
  ℕ, suc, zero, ◌≡◌, refl, Bool, true, false, Option, none, some, List, [], ◌∷◌, ◌++◌, if_cases,
  Text, arith,
}
use lortnoc_tahc.Compose.{
  Key, is_send_shortcut, Button, missing, disabled, sends, Page, Await, Compose, Sent, Outcome,
  threw, covered, Event, pressed, clicked, edited, resolved, framed, released, expired, Input,
  replace_compose, await_cover, do_swap, begin_swap, on_keydown, on_click, click_button, send_cover,
  on_outcome, send_cover_text, release, expire, handle_event, step, run, read_compose,
}

-- The first list is part of the second, in order and with no element used twice.
pub data IsPart : List Text → List Text → Type 0 where
  nothing : IsPart [] []
  skip : {t : Text} {xs ys : List Text} → IsPart xs ys → IsPart xs (t ∷ ys)
  keep_one : {t : Text} {xs ys : List Text} → IsPart xs ys → IsPart (t ∷ xs) (t ∷ ys)

pub IsPart-append :
    {xs ys us vs : List Text} → IsPart xs ys → IsPart us vs → IsPart (xs ++ us) (ys ++ vs)
IsPart-append nothing q = q
IsPart-append (skip p) q = skip (IsPart-append p q)
IsPart-append (keep_one p) q = keep_one (IsPart-append p q)

abbrev pub texts : List Sent → List Text
texts [] = []
texts (s ∷ ss) = s.text ∷ texts ss

texts-append : (xs ys : List Sent) → texts (xs ++ ys) ≡ texts xs ++ texts ys
texts-append [] ys = refl
texts-append (x ∷ xs) ys = rw (texts-append xs ys)

-- The cover text that an event brings.
abbrev pub cover_of : Event → List Text
cover_of (resolved (covered (some t))) = t ∷ []
cover_of (framed t) = t ∷ []
cover_of _ = []

abbrev pub covers_of : List Input → List Text
covers_of [] = []
covers_of (i ∷ is) = cover_of i.event ++ covers_of is

-- The button found, if any, is live and sends the pane that the cover text was put into.
abbrev pub IsAimed : Button → ℕ → Type 0
IsAimed missing pane = Unit
IsAimed disabled pane = ⊥
IsAimed (sends p) pane = p ≡ pane

abbrev pub IsAimedIn : Button → Option ℕ → Type 0
IsAimedIn b none = Unit
IsAimedIn b (some pane) = IsAimed b pane

abbrev pub pane_of : Option Await → Option ℕ
pane_of none = none
pane_of (some a) = some a.pane

-- There is a key, and the button found belongs to the compose box that the cover text is put into.
abbrev pub Fits : Compose → Input → Type 0
Fits c i = (i.ready ≡ true) × aimed i.event
  where
    aimed : Event → Type 0
    aimed (resolved o) = IsAimedIn i.page.button (pane_of c.awaiting)
    aimed (framed t) = IsAimedIn i.page.button i.page.compose
    aimed _ = Unit

abbrev pub AllFit : Compose → List Input → Type 0
AllFit c [] = Unit
AllFit c (i ∷ is) = Fits c i × AllFit (step c i).0 is

-- What a handler does right: no pass is left, and all it lets through is in the list.
abbrev pub Covers : List Text → Compose × List Sent → Type 0
Covers ts r = (r.0.allow_next_click ≡ false) × IsPart (texts r.1) ts

await_cover-allow :
    (c : Compose) (pane : ℕ) (t : Text)
    → (await_cover c pane t).allow_next_click ≡ c.allow_next_click
unfolding await_cover
await_cover-allow c pane [] = refl
await_cover-allow c pane (x ∷ t) = refl

do_swap-allow :
    (c : Compose) (found : Option ℕ) → (do_swap c found).allow_next_click ≡ c.allow_next_click
unfolding do_swap
do_swap-allow c none = refl
do_swap-allow c (some pane) = await_cover-allow c pane (read_compose (c.drafts pane))

begin_swap-allow :
    (page : Page) (c : Compose) → (begin_swap page c).allow_next_click ≡ c.allow_next_click
unfolding begin_swap
begin_swap-allow page c =
    if_cases (λ (d : Compose). d.allow_next_click ≡ c.allow_next_click) c.swapping (λ _. refl)
      (λ _. do_swap-allow (record c { swapping = true }) page.compose)

on_click-Covers :
    (page : Page) (c : Compose) (pane : ℕ)
    → c.allow_next_click ≡ false
    → Covers [] (on_click true page c pane)
unfolding on_click
on_click-Covers page c pane a =
    if_cases (Covers []) c.allow_next_click (λ e. absurd (ground arith))
      (λ _. (rw (begin_swap-allow page c) a, nothing))

on_keydown-Covers :
    (page : Page) (c : Compose) (pane : ℕ) (k : Key)
    → c.allow_next_click ≡ false
    → Covers [] (on_keydown true page c pane k)
unfolding on_keydown
on_keydown-Covers page c pane k a =
    if_cases (Covers []) (is_send_shortcut k) (λ _. (rw (begin_swap-allow page c) a, nothing))
      (λ _. (a, nothing))

replaced : (drafts : ℕ → Text) (pane : ℕ) (t : Text) → replace_compose drafts pane t pane ≡ t
unfolding replace_compose
replaced drafts pane t = ground arith

-- Our click sends what the pane holds.
click_button-Covers :
    (page : Page) (c : Compose) (b : Button) (pane : ℕ) (cover : Text)
    → c.allow_next_click ≡ false
    → IsAimed b pane
    → c.drafts pane ≡ cover
    → Covers (cover ∷ []) (click_button true page c b)
unfolding click_button on_click
click_button-Covers page c missing pane cover a aim d = (a, skip nothing)
click_button-Covers page c disabled pane cover a aim d = absurd aim
click_button-Covers page c (sends p) pane cover a aim d = rw (aim, d) (refl, keep_one nothing)

on_outcome-Covers :
    (page : Page) (c : Compose) (found : Option Await) (o : Outcome)
    → c.allow_next_click ≡ false
    → IsAimedIn page.button (pane_of found)
    → Covers (cover_of (resolved o)) (on_outcome true page c found o)
unfolding on_outcome send_cover
on_outcome-Covers page c none threw a aim = (a, nothing)
on_outcome-Covers page c none (covered none) a aim = (a, nothing)
on_outcome-Covers page c none (covered (some t)) a aim = (a, skip nothing)
on_outcome-Covers page c (some w) threw a aim = (a, nothing)
on_outcome-Covers page c (some w) (covered none) a aim = (a, nothing)
on_outcome-Covers page c (some w) (covered (some t)) a aim =
    click_button-Covers page _ page.button w.pane t a aim (replaced c.drafts w.pane t)

send_cover_text-Covers :
    (page : Page) (c : Compose) (found : Option ℕ) (t : Text)
    → c.allow_next_click ≡ false
    → IsAimedIn page.button found
    → Covers (t ∷ []) (send_cover_text true page c found t)
unfolding send_cover_text
send_cover_text-Covers page c none t a aim = (a, skip nothing)
send_cover_text-Covers page c (some pane) t a aim =
    if_cases (Covers (t ∷ [])) c.swapping (λ _. (a, skip nothing))
      (λ _. click_button-Covers page _ page.button pane t a aim (replaced c.drafts pane t))

release-allow : (c : Compose) → (release c).allow_next_click ≡ c.allow_next_click
unfolding release
release-allow c =
    if_cases (λ (d : Compose). d.allow_next_click ≡ c.allow_next_click) c.release_due (λ _. refl)
      (λ _. refl)

expire-allow :
    (c : Compose) (n : ℕ) → c.allow_next_click ≡ false → (expire c n).allow_next_click ≡ false
unfolding expire
expire-allow c zero a = a
expire-allow c (suc n) a = refl

step-Covers :
    (c : Compose) (ready : Bool) (page : Page) (e : Event)
    → c.allow_next_click ≡ false
    → Fits c (record { ready = ready; page = page; event = e })
    → Covers (cover_of e) (handle_event ready page c e)
unfolding handle_event
step-Covers c ready page (pressed pane k) a (r, f) = rw r (on_keydown-Covers page c pane k a)
step-Covers c ready page (clicked pane) a (r, f) = rw r (on_click-Covers page c pane a)
step-Covers c ready page (edited pane t) a f = (a, nothing)
step-Covers c ready page (resolved o) a (r, f) = rw r (on_outcome-Covers page c c.awaiting o a f)
step-Covers c ready page (framed t) a (r, f) =
    rw r (send_cover_text-Covers page c page.compose t a f)
step-Covers c ready page released a f = (rw (release-allow c) a, nothing)
step-Covers c ready page expired a f = (expire-allow c c.expiries a, nothing)

-- From a state where no click has a pass, with a key throughout, and whenever a cover text is put
-- into a pane with the button found, if any, live and that pane's: whatever the user types and
-- clicks and whenever the codec answers, what reaches Telegram is a part, in order, of the cover
-- texts that the codec answered and the handshake gave, each at most once. Nothing else is sent.
pub sends_are_covers :
    (c : Compose) (inputs : List Input)
    → c.allow_next_click ≡ false
    → AllFit c inputs
    → IsPart (texts (run c inputs).1) (covers_of inputs)
unfolding run
sends_are_covers c [] a f = nothing
sends_are_covers c (i ∷ is) a (f, fs) =
    let (b, p) = step-Covers c i.ready i.page i.event a f in
    rw (texts-append (step c i).1 _) (IsPart-append p (sends_are_covers (step c i).0 is b fs))
