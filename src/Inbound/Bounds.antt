-- ===== src/Inbound/Bounds.antt =====
-- How many questions a scan asks the codec, and about which texts.
use lortnoc_tahc.Base.{
  not, ◌&&◌, ◌||◌, trim_start, trim_end, ℕ, zero, suc, ◌+◌, ◌*◌, ◌≤◌, ◌≡◌, refl, Bool, false,
  Option, none, some, List, [], ◌∷◌, ◌++◌, if_cases, ltb, length, length-take, All, All-append,
  Text, arith,
}
use lortnoc_tahc.Connect.{Verdict, not_ours, retry, broke, message}
use lortnoc_tahc.Inbound.{
  Bubble, Screen, Shown, Inbound, word_count, is_empty, backlog, reverse_onto, reverse_onto,
  max_restarts, min_cover_words, Action, skip, reject, reuse, ask, decide_text, decide_cached,
  decide_new, decide_bubble, decide, cached, settle, after_wait, Answer, Did, asked, shown, act,
  visit, pass, passes_of, scan, enter_chat, from_history,
}

abbrev pub questions : List Did → ℕ
questions [] = 0
questions (asked mid t old ∷ ds) = questions ds + 1
questions (shown mid it ∷ ds) = questions ds

pub questions-append : (xs ys : List Did) → questions (xs ++ ys) ≡ questions xs + questions ys
questions-append [] ys = omega arith
questions-append (asked mid t old ∷ xs) ys = omega (arith, questions-append xs ys)
questions-append (shown mid it ∷ xs) ys = questions-append xs ys

-- A text that is worth asking about.
abbrev pub IsLong : Did → Type 0
IsLong (asked mid t old) = min_cover_words ≤ word_count t
IsLong (shown mid it) = Unit

settle-questions : (s : Inbound) (mid t : Text) (v : Verdict) → questions (settle s mid t v).1 ≡ 0
unfolding settle
settle-questions s mid t retry = refl
settle-questions s mid t broke = refl
settle-questions s mid t not_ours = refl
settle-questions s mid t (message m) = refl

settle-IsLong : (s : Inbound) (mid t : Text) (v : Verdict) → All IsLong (settle s mid t v).1
unfolding settle
settle-IsLong s mid t retry = tt
settle-IsLong s mid t broke = tt
settle-IsLong s mid t not_ours = tt
settle-IsLong s mid t (message m) = (tt, tt)

-- An action that asks only about a long text.
abbrev IsLongAction : Action → Type 0
IsLongAction (ask t) = min_cover_words ≤ word_count t
IsLongAction _ = Unit

decide_text-IsLongAction : (t : Text) → IsLongAction (decide_text t)
unfolding decide_text
decide_text-IsLongAction t =
    if_cases IsLongAction (is_empty t) (λ _. tt)
      (λ _.
        if_cases IsLongAction (ltb (word_count t) min_cover_words) (λ _. tt) (λ e. ground arith))

decide_bubble-IsLongAction :
    (b : Bubble) (content : Option Text) (found : Option (Option Shown))
    → IsLongAction (decide_bubble b content found)
unfolding decide_bubble decide_cached decide_new
decide_bubble-IsLongAction b none found = tt
decide_bubble-IsLongAction b (some raw) (some none) = tt
decide_bubble-IsLongAction b (some raw) (some (some it)) =
    if_cases IsLongAction b.rendered (λ _. tt) (λ _. tt)
decide_bubble-IsLongAction b (some raw) none =
    if_cases IsLongAction (b.rendered || b.pending) (λ _. tt)
      (λ _. decide_text-IsLongAction (trim_end (trim_start raw)))

decide-IsLongAction : (s : Inbound) (b : Bubble) → IsLongAction (decide s b)
unfolding decide
decide-IsLongAction s b = decide_bubble-IsLongAction b b.content (cached s b)

length-backlog : (bs : List Bubble) → length (backlog bs) ≤ 15
unfolding backlog
length-backlog bs = omega (arith, length-take 15 (reverse_onto bs []))

module _ (on_decode : ℕ → Text → Bool → Answer) where
  -- At most `n` questions, each about a long text.
  abbrev Asks : ℕ → Inbound × List Did → Type 0
  Asks n r = (questions r.1 ≤ n) × All IsLong r.1

  act-Asks : (s : Inbound) (b : Bubble) (a : Action) → IsLongAction a → Asks 1 (act on_decode s b a)
  unfolding act
  act-Asks s b skip l = (omega arith, tt)
  act-Asks s b reject l = (omega arith, tt)
  act-Asks s b (reuse it) l = (omega arith, (tt, tt))
  act-Asks s b (ask t) l =
      let a = on_decode s.calls t (from_history s b.mid) in
      (
        omega (arith, settle-questions (after_wait s a) b.mid t a.verdict),
        (l, settle-IsLong (after_wait s a) b.mid t a.verdict),
      )

  visit-Asks : (s : Inbound) (bs : List Bubble) → Asks (length bs) (visit on_decode s bs)
  unfolding visit
  visit-Asks s [] = (omega arith, tt)
  visit-Asks s (b ∷ bs) =
      let (n, l) = act-Asks s b (decide s b) (decide-IsLongAction s b) in
      let (m, k) = visit-Asks (act on_decode s b (decide s b)).0 bs in
      if_cases (Asks (length (b ∷ bs))) (s.dirty || s.stopped) (λ _. (omega arith, tt))
        (λ _. (omega (arith, questions-append, n, m), All-append IsLong _ _ l k))

  pass-Asks : (s : Inbound) (screen : Option Screen) → Asks 15 (pass on_decode s screen)
  unfolding pass
  pass-Asks s none = (omega arith, tt)
  pass-Asks s (some screen) =
      let (n, l) = visit-Asks (enter_chat s screen) (backlog screen.bubbles) in
      (omega (arith, n, length-backlog screen.bubbles), l)

  passes_of-Asks :
      (s : Inbound) (page : ℕ → Option Screen) (n : ℕ)
      → Asks (15 * n) (passes_of on_decode s page n)
  unfolding passes_of
  passes_of-Asks s page zero = (omega arith, tt)
  passes_of-Asks s page (suc n) =
      let s1 = pass on_decode (record s { dirty = false }) (page n) in
      let (k, l) = pass-Asks (record s { dirty = false }) (page n) in
      let (m, r) = passes_of-Asks s1.0 page n in
      if_cases (Asks (15 * suc n)) (s1.0.dirty && not s1.0.stopped)
        (λ _. (omega (arith, questions-append, k, m), All-append IsLong _ _ l r))
        (λ _. (omega (arith, k), l))

  -- One scan asks the codec at most sixty times, whatever the pages that its passes see and however
  -- often they change, and only about texts of thirteen words or more.
  pub scan-questions :
      (s : Inbound) (page : ℕ → Option Screen)
      → (questions (scan on_decode s page).1 ≤ 60) × All IsLong (scan on_decode s page).1
  unfolding scan
  scan-questions s page = passes_of-Asks (record s { stopped = false }) page max_restarts
