-- ===== src/Inbound/FirstSight.antt =====
-- What is on screen at the first sight of a chat counts as from the history.
use lortnoc_tahc.Base.{
  not, ◌||◌, ℕ, ◌≡◌, refl, ◌∙◌, Bool, true, false, some, List, [], ◌∷◌, if_cases, list_eq,
  list_eq_self, All, All-append, All-take, Text, arith,
}
use lortnoc_tahc.Connect.{Verdict, not_ours, retry, broke, message}
use lortnoc_tahc.Inbound.{
  Bubble, Screen, Inbound, History, is_empty, is_known, mids_of, has_mid, backlog, reverse_onto,
  max_backlog, Action, skip, reject, reuse, ask, decide, settle, Answer, Did, asked, shown, act,
  visit, pass, enter_chat,
}
use lortnoc_tahc.Inbound.Fossils.{from_history-known, act-Flags}

-- An id is found in the list exactly if it is one.
abbrev Found : List Text → Bubble → Type 0
Found mids b = has_mid b.mid mids ≡ not (is_empty b.mid)

has_mid-more :
    (mid k : Text) (ks : List Text)
    → is_empty k ≡ false
    → has_mid mid ks ≡ not (is_empty mid)
    → has_mid mid (k ∷ ks) ≡ not (is_empty mid)
unfolding has_mid list_eq
has_mid-more mid [] ks e f = absurd (cc e)
has_mid-more [] (d ∷ k) ks e f = f
has_mid-more (c ∷ mid) (d ∷ k) ks e f = ground arith

Found-more :
    (k : Text) (ks : List Text) (bs : List Bubble)
    → is_empty k ≡ false
    → All (Found ks) bs
    → All (Found (k ∷ ks)) bs
Found-more k ks [] e f = tt
Found-more k ks (b ∷ bs) e (f, fs) = (has_mid-more b.mid k ks e f, Found-more k ks bs e fs)

Found-none : (bs : List Bubble) → has_mid [] (mids_of bs) ≡ false
unfolding mids_of has_mid
Found-none [] = refl
Found-none (b ∷ bs) =
    if_cases (λ ks. has_mid [] ks ≡ false) (is_empty b.mid) (λ _. Found-none bs)
      (λ e. has_mid-more [] b.mid (mids_of bs) e (Found-none bs))

Found-self :
    (mid : Text) (ks : List Text)
    → is_empty mid ≡ false
    → has_mid mid (mid ∷ ks) ≡ not (is_empty mid)
unfolding has_mid
Found-self [] ks e = absurd (cc e)
Found-self (c ∷ mid) ks e = rw (list_eq_self (c ∷ mid)) refl

mids_of-Found : (bs : List Bubble) → All (Found (mids_of bs)) bs
unfolding mids_of
mids_of-Found [] = tt
mids_of-Found (b ∷ bs) =
    if_cases (λ ks. All (Found ks) (b ∷ bs)) (is_empty b.mid)
      (λ e. (nameless b.mid e, mids_of-Found bs))
      (λ e.
        (Found-self b.mid (mids_of bs) e, Found-more b.mid (mids_of bs) bs e (mids_of-Found bs)))
  where
    nameless : (mid : Text) → is_empty mid ≡ true → has_mid mid (mids_of bs) ≡ not (is_empty mid)
    nameless [] e = Found-none bs
    nameless (c ∷ mid) e = absurd (cc e)

All-reverse_onto :
    (P : Bubble → Type 0) (bs acc : List Bubble)
    → All P bs
    → All P acc
    → All P (reverse_onto bs acc)
unfolding reverse_onto
All-reverse_onto P [] acc h k = k
All-reverse_onto P (b ∷ bs) acc (h, hs) k = All-reverse_onto P bs (b ∷ acc) hs (h, k)

All-backlog : (P : Bubble → Type 0) (bs : List Bubble) → All P bs → All P (backlog bs)
unfolding backlog
All-backlog P bs h = All-take P max_backlog (reverse_onto bs []) (All-reverse_onto P bs [] h tt)

-- A question that counts as from the history exactly if its bubble has an id.
abbrev pub IsOld : Did → Type 0
IsOld (asked mid t old) = old ≡ not (is_empty mid)
IsOld (shown mid it) = Unit

settle-IsOld : (s : Inbound) (mid t : Text) (v : Verdict) → All IsOld (settle s mid t v).1
unfolding settle
settle-IsOld s mid t retry = tt
settle-IsOld s mid t broke = tt
settle-IsOld s mid t not_ours = tt
settle-IsOld s mid t (message m) = (tt, tt)

module _ (on_decode : ℕ → Text → Bool → Answer) (h : History) where
  act-IsOld :
      (s : Inbound) (b : Bubble) (a : Action)
      → s.history ≡ some h
      → Found h.mids b
      → All IsOld (act on_decode s b a).1
  unfolding act
  act-IsOld s b skip e f = tt
  act-IsOld s b reject e f = tt
  act-IsOld s b (reuse it) e f = (tt, tt)
  act-IsOld s b (ask t) e f = (from_history-known h s b.mid e ∙ f, settle-IsOld _ b.mid t _)

  visit-IsOld :
      (s : Inbound) (bs : List Bubble)
      → s.history ≡ some h
      → All (Found h.mids) bs
      → All IsOld (visit on_decode s bs).1
  unfolding visit
  visit-IsOld s [] e f = tt
  visit-IsOld s (b ∷ bs) e (f, fs) =
      let k = act-Flags on_decode h s b (decide s b) e in
      let rest = visit-IsOld (act on_decode s b (decide s b)).0 bs k.0 fs in
      if_cases (λ (r : Inbound × List Did). All IsOld r.1) (s.dirty || s.stopped) (λ _. tt)
        (λ _. All-append IsOld _ _ (act-IsOld s b (decide s b) e f) rest)

-- In a pass over a chat that is not the one whose history was taken, a question counts as from the
-- history exactly if its bubble has an id.
pub pass-IsOld :
    (on_decode : ℕ → Text → Bool → Answer) (s : Inbound) (screen : Screen)
    → is_known s.history screen.container ≡ false
    → All IsOld (pass on_decode s (some screen)).1
unfolding pass enter_chat
pass-IsOld on_decode s screen new =
    rw (new, enter_chat)
      (visit-IsOld on_decode
        (record { container = screen.container; mids = mids_of screen.bubbles }) _
        (backlog screen.bubbles) refl (All-backlog _ screen.bubbles (mids_of-Found screen.bubbles)))
