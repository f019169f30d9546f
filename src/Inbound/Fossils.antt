-- ===== src/Inbound/Fossils.antt =====
-- Which bubbles count as from the history.
use lortnoc_tahc.Base.{
  not, ◌&&◌, ◌||◌, ℕ, zero, suc, ◌≡◌, refl, ap, ◌∙◌, Bool, true, false, Option, none, some, List,
  [], ◌∷◌, if_cases, All, All-append, Text, arith,
}
use lortnoc_tahc.Connect.{Verdict, not_ours, retry, broke, message}
use lortnoc_tahc.Inbound.{
  Bubble, Screen, Shown, Inbound, History, is_known, has_mid, backlog, max_restarts, Action, skip,
  reject, reuse, ask, decide, settle, remember, after_wait, Answer, Did, asked, shown, act, visit,
  pass, passes_of, scan, enter_chat, from_history,
}

-- A question says whether its bubble is among the ids.
abbrev pub Flagged : List Text → Did → Type 0
Flagged mids (asked mid t old) = old ≡ has_mid mid mids
Flagged mids (shown mid it) = Unit

-- The history stays, and every question is flagged by it.
abbrev pub Flags : History → Inbound × List Did → Type 0
Flags h r = (r.0.history ≡ some h) × All (Flagged h.mids) r.1

remember-history :
    (s : Inbound) (mid : Text) (v : Option Shown) → (remember s mid v).history ≡ s.history
unfolding remember
remember-history s [] v = refl
remember-history s (c ∷ mid) v = refl

settle-Flags :
    (h : History) (s : Inbound) (mid t : Text) (v : Verdict)
    → s.history ≡ some h
    → Flags h (settle s mid t v)
unfolding settle
settle-Flags h s mid t retry e = (e, tt)
settle-Flags h s mid t broke e = (e, tt)
settle-Flags h s mid t not_ours e = (remember-history s mid none ∙ e, tt)
settle-Flags h s mid t (message m) e = (remember-history s mid _ ∙ e, (tt, tt))

pub from_history-known :
    (h : History) (s : Inbound) (mid : Text)
    → s.history ≡ some h
    → from_history s mid ≡ has_mid mid h.mids
from_history-known h s mid e = rw e refl

-- The pages show this container, or none is visible.
abbrev pub IsIn : ℕ → Option Screen → Type 0
IsIn container none = Unit
IsIn container (some screen) = screen.container ≡ container

module _ (on_decode : ℕ → Text → Bool → Answer) (h : History) where
  pub act-Flags :
      (s : Inbound) (b : Bubble) (a : Action) → s.history ≡ some h → Flags h (act on_decode s b a)
  unfolding act after_wait
  act-Flags s b skip e = (e, tt)
  act-Flags s b reject e = (remember-history s b.mid none ∙ e, tt)
  act-Flags s b (reuse it) e = (e, (tt, tt))
  act-Flags s b (ask t) e =
      let a = on_decode s.calls t (from_history s b.mid) in
      let (k, f) = settle-Flags h (after_wait s a) b.mid t a.verdict e in
      (k, (from_history-known h s b.mid e, f))

  pub visit-Flags :
      (s : Inbound) (bs : List Bubble) → s.history ≡ some h → Flags h (visit on_decode s bs)
  unfolding visit
  visit-Flags s [] e = (e, tt)
  visit-Flags s (b ∷ bs) e =
      let (k, f) = act-Flags s b (decide s b) e in
      let (l, g) = visit-Flags (act on_decode s b (decide s b)).0 bs k in
      if_cases (Flags h) (s.dirty || s.stopped) (λ _. (e, tt))
        (λ _. (l, All-append (Flagged h.mids) _ _ f g))

  enter_chat-known :
      (s : Inbound) (screen : Screen)
      → s.history ≡ some h
      → screen.container ≡ h.container
      → enter_chat s screen ≡ s
  unfolding enter_chat
  enter_chat-known s screen e c = rw (known, enter_chat) refl
    where
      known : is_known s.history screen.container ≡ true
      known = ap (λ f. is_known f screen.container) e ∙ ground arith

  pass-Flags :
      (s : Inbound) (screen : Option Screen)
      → s.history ≡ some h
      → IsIn h.container screen
      → Flags h (pass on_decode s screen)
  unfolding pass
  pass-Flags s none e i = (e, tt)
  pass-Flags s (some screen) e i =
      visit-Flags (enter_chat s screen) (backlog screen.bubbles)
        (ap (λ r. r.history) (enter_chat-known s screen e i) ∙ e)

  pub passes_of-Flags :
      (s : Inbound) (page : ℕ → Option Screen) (n : ℕ)
      → s.history ≡ some h
      → ((i : ℕ) → IsIn h.container (page i))
      → Flags h (passes_of on_decode s page n)
  unfolding passes_of
  passes_of-Flags s page zero e i = (e, tt)
  passes_of-Flags s page (suc n) e i =
      let s1 = pass on_decode (record s { dirty = false }) (page n) in
      let (k, f) = pass-Flags (record s { dirty = false }) (page n) e (i n) in
      let (l, g) = passes_of-Flags s1.0 page n k i in
      if_cases (Flags h) (s1.0.dirty && not s1.0.stopped)
        (λ _. (l, All-append (Flagged h.mids) _ _ f g)) (λ _. (k, f))

-- In a chat whose history was taken, and with every page of the scan in that chat or in none, a
-- scan keeps that history, and a question counts as from the history exactly if its id is in it.
pub scan_history :
    (on_decode : ℕ → Text → Bool → Answer) (h : History) (s : Inbound) (page : ℕ → Option Screen)
    → s.history ≡ some h
    → ((i : ℕ) → IsIn h.container (page i))
    → ((scan on_decode s page).0.history ≡ some h) × All (Flagged h.mids) (scan on_decode s page).1
unfolding scan
scan_history on_decode h s page e i =
    passes_of-Flags on_decode h (record s { stopped = false }) page max_restarts e i
