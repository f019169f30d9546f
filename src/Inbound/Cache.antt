-- ===== src/Inbound/Cache.antt =====
-- A cached verdict is final until the cache is cleared.
use lortnoc_tahc.Base.{
  not, ◌&&◌, ◌||◌, ℕ, zero, suc, ◌≡◌, ◌≢◌, inl, inr, refl, ap, sym, subst, ◌∙◌, Bool, true, false,
  Option, none, some, List, [], ◌∷◌, if◌then◌else◌, if_cases, Bool-cases, list_eq, list_eq_sound,
  list_eq_self, All, All-append, Text,
}
use lortnoc_tahc.Connect.{Verdict, not_ours, retry, broke, message}
use lortnoc_tahc.Inbound.{
  Bubble, Screen, Shown, Inbound, is_empty, backlog, max_restarts, lookup, Action, skip, reject,
  reuse, ask, decide_cached, decide_bubble, decide, cached, settle, remember, after_wait, Answer,
  Did, asked, shown, act, visit, pass, passes_of, scan, enter_chat, is_known, from_history,
}

-- No question about this id.
abbrev pub IsNotAbout : Text → Did → Type 0
IsNotAbout mid (asked k t old) = list_eq k mid ≡ false
IsNotAbout mid (shown k it) = Unit

-- The verdict is still there, and no question was about the id.
abbrev pub Keeps : Text → Option Shown → Inbound × List Did → Type 0
Keeps mid v r = (lookup mid r.0.seen ≡ some v) × All (IsNotAbout mid) r.1

-- The bubble of a cached verdict is shown again or left alone.
act_cached :
    (mid : Text) (on_decode : ℕ → Text → Bool → Answer) (s : Inbound) (b : Bubble)
    (content : Option Text) (v : Option Shown)
    → lookup mid s.seen ≡ some v
    → Keeps mid v (act on_decode s b (decide_bubble b content (some v)))
unfolding act decide_bubble decide_cached
act_cached mid on_decode s b none v h = (h, tt)
act_cached mid on_decode s b (some raw) none h = (h, tt)
act_cached mid on_decode s b (some raw) (some it) h =
    if_cases (λ (a : Action). Keeps mid (some it) (act on_decode s b a)) b.rendered (λ _. (h, tt))
      (λ _. (h, (tt, tt)))

cached_here :
    (s : Inbound) (b : Bubble) (mid : Text) (v : Option Shown)
    → b.mid ≡ mid
    → mid ≢ []
    → lookup mid s.seen ≡ some v
    → cached s b ≡ some v
cached_here s b [] v e f h = absurd (f refl)
cached_here s b (c ∷ mid) v e f h = ap (λ k. if is_empty k then none else lookup k s.seen) e ∙ h

enter_chat-seen : (s : Inbound) (screen : Screen) → (enter_chat s screen).seen ≡ s.seen
unfolding enter_chat
enter_chat-seen s screen =
    if_cases (λ (r : Inbound). r.seen ≡ s.seen) (is_known s.history screen.container) (λ _. refl)
      (λ _. refl)

module _ (mid : Text) (v : Option Shown) where
  remember-other :
      (s : Inbound) (k : Text) (u : Option Shown)
      → list_eq k mid ≡ false
      → lookup mid (remember s k u).seen ≡ lookup mid s.seen
  unfolding remember lookup
  remember-other s [] u e = refl
  remember-other s (c ∷ k) u e = rw (e, lookup) refl

  settle-Keeps :
      (s : Inbound) (k t : Text) (u : Verdict)
      → list_eq k mid ≡ false
      → lookup mid s.seen ≡ some v
      → Keeps mid v (settle s k t u)
  unfolding settle
  settle-Keeps s k t retry e h = (h, tt)
  settle-Keeps s k t broke e h = (h, tt)
  settle-Keeps s k t not_ours e h = (remember-other s k none e ∙ h, tt)
  settle-Keeps s k t (message m) e h =
      (remember-other s k (some (record { decoded = m; cover = t })) e ∙ h, (tt, tt))

  module _ (on_decode : ℕ → Text → Bool → Answer)
      (uncleared : (n : ℕ) (t : Text) (old : Bool) → (on_decode n t old).cleared ≡ false) where
    -- A bubble of another id.
    other-Keeps :
        (s : Inbound) (b : Bubble) (a : Action)
        → list_eq b.mid mid ≡ false
        → lookup mid s.seen ≡ some v
        → Keeps mid v (act on_decode s b a)
    unfolding act after_wait
    other-Keeps s b skip e h = (h, tt)
    other-Keeps s b reject e h = (remember-other s b.mid none e ∙ h, tt)
    other-Keeps s b (reuse it) e h = (h, (tt, tt))
    other-Keeps s b (ask t) e h =
        let a = on_decode s.calls t (from_history s b.mid) in
        let (k, n) =
          settle-Keeps (after_wait s a) b.mid t a.verdict e
            (rw (uncleared s.calls t (from_history s b.mid)) h) in
        (k, (e, n))

    act-Keeps :
        (s : Inbound) (b : Bubble)
        → mid ≢ []
        → lookup mid s.seen ≡ some v
        → Keeps mid v (act on_decode s b (decide s b))
    unfolding decide
    act-Keeps s b filled h = elim (Bool-cases (list_eq b.mid mid)) [
      | inl e ↦
          subst
            (λ (f : Option (Option Shown)).
              Keeps mid v (act on_decode s b (decide_bubble b b.content f)))
            (sym (cached_here s b mid v (list_eq_sound b.mid mid e) filled h))
            (act_cached mid on_decode s b b.content v h)
      | inr e ↦ other-Keeps s b (decide s b) e h
    ]

    visit-Keeps :
        (s : Inbound) (bs : List Bubble)
        → mid ≢ []
        → lookup mid s.seen ≡ some v
        → Keeps mid v (visit on_decode s bs)
    unfolding visit
    visit-Keeps s [] f h = (h, tt)
    visit-Keeps s (b ∷ bs) f h =
        let (k, n) = act-Keeps s b f h in
        let (l, m) = visit-Keeps (act on_decode s b (decide s b)).0 bs f k in
        if_cases (Keeps mid v) (s.dirty || s.stopped) (λ _. (h, tt))
          (λ _. (l, All-append (IsNotAbout mid) _ _ n m))

    pass-Keeps :
        (s : Inbound) (screen : Option Screen)
        → mid ≢ []
        → lookup mid s.seen ≡ some v
        → Keeps mid v (pass on_decode s screen)
    unfolding pass
    pass-Keeps s none f h = (h, tt)
    pass-Keeps s (some screen) f h =
        visit-Keeps (enter_chat s screen) (backlog screen.bubbles) f
          (ap (lookup mid) (enter_chat-seen s screen) ∙ h)

    passes_of-Keeps :
        (s : Inbound) (page : ℕ → Option Screen) (n : ℕ)
        → mid ≢ []
        → lookup mid s.seen ≡ some v
        → Keeps mid v (passes_of on_decode s page n)
    unfolding passes_of
    passes_of-Keeps s page zero f h = (h, tt)
    passes_of-Keeps s page (suc n) f h =
        let s1 = pass on_decode (record s { dirty = false }) (page n) in
        let (k, a) = pass-Keeps (record s { dirty = false }) (page n) f h in
        let (l, b) = passes_of-Keeps s1.0 page n f k in
        if_cases (Keeps mid v) (s1.0.dirty && not s1.0.stopped)
          (λ _. (l, All-append (IsNotAbout mid) _ _ a b)) (λ _. (k, a))

-- Once a verdict about an id is cached, a scan asks no question about that id and leaves the verdict as
-- it is, whatever its passes see, as long as nothing clears the cache meanwhile.
pub cached_verdict_final :
    (on_decode : ℕ → Text → Bool → Answer) (s : Inbound) (page : ℕ → Option Screen) (mid : Text)
    (v : Option Shown)
    → ((n : ℕ) (t : Text) (old : Bool) → (on_decode n t old).cleared ≡ false)
    → mid ≢ []
    → lookup mid s.seen ≡ some v
    → (lookup mid (scan on_decode s page).0.seen ≡ some v)
      × All (IsNotAbout mid) (scan on_decode s page).1
unfolding scan
cached_verdict_final on_decode s page mid v uncleared f h =
    passes_of-Keeps mid v on_decode uncleared (record s { stopped = false }) page max_restarts f h

-- What an answer leaves in the cache.
abbrev pub verdict_entry : Text → Verdict → Option (Option Shown) → Option (Option Shown)
verdict_entry t retry before = before
verdict_entry t broke before = before
verdict_entry t not_ours before = some none
verdict_entry t (message m) before = some (some (record { decoded = m; cover = t }))

settle-lookup :
    (s : Inbound) (c : ℕ) (k t : Text) (v : Verdict)
    → lookup (c ∷ k) (settle s (c ∷ k) t v).0.seen ≡ verdict_entry t v (lookup (c ∷ k) s.seen)
unfolding settle remember lookup
settle-lookup s c k t retry = refl
settle-lookup s c k t broke = refl
settle-lookup s c k t not_ours = rw (list_eq_self (c ∷ k)) refl
settle-lookup s c k t (message m) = rw (list_eq_self (c ∷ k)) refl

settled :
    (s : Inbound) (mid t : Text) (v : Verdict)
    → mid ≢ []
    → lookup mid (settle s mid t v).0.seen ≡ verdict_entry t v (lookup mid s.seen)
settled s [] t v f = absurd (f refl)
settled s (c ∷ k) t v f = settle-lookup s c k t v

cleared_lookup :
    (s : Inbound) (a : Answer) (mid : Text)
    → lookup mid (after_wait s a).seen ≡ (if a.cleared then none else lookup mid s.seen)
unfolding after_wait lookup
cleared_lookup s a mid = go a.cleared
  where
    go :
        (b : Bool) → lookup mid (if b then [] else s.seen) ≡ (if b then none else lookup mid s.seen)
    go true = refl
    go false = refl

-- An answer about a bubble with an id is cached exactly if it is definite: a message with its cover
-- text, "not ours" as such, and RETRY or an exception leaves what was there, which a `reset` during the wait removed.
pub answer_cached :
    (on_decode : ℕ → Text → Bool → Answer) (s : Inbound) (b : Bubble) (t : Text)
    → b.mid ≢ []
    → decide s b ≡ ask t
    → let a = on_decode s.calls t (from_history s b.mid) in
      lookup b.mid (act on_decode s b (decide s b)).0.seen
      ≡ verdict_entry t a.verdict (if a.cleared then none else lookup b.mid s.seen)
unfolding act
answer_cached on_decode s b t f d =
    rw (d, act) (settled _ b.mid t _ f ∙ ap (verdict_entry t _) (cleared_lookup s _ b.mid))
