-- ===== src/Inbound.antt =====
-- extension/src/content/inbound.ts: the scan of message bubbles. A pass sees the page as an argument.
-- `onDecode` is the answer to the n-th question so far, with what happened during the wait: a change
-- of the page, or a `reset`. An empty id stands for a bubble that has none. The scan is taken from
-- behind its guard on: one runs at a time, and only while `isReady()`. Drawing a decoded text changes the
-- page, which the observer notes at the next wait: `touched` until then. An exception of `onDecode`, `broke`, ends the scan.
pub mod Cache
pub mod Fossils
pub mod FirstSight
pub mod Bounds
pub mod Known
pub mod Tests
use lortnoc_tahc.Base.{
  is_space, trim_start, trim_end, ℕ, zero, suc, ◌+◌, Bool, true, false, not, ◌&&◌, ◌||◌, Option,
  none, some, List, [], ◌∷◌, ◌++◌, if◌then◌else◌, ltb, ◌==◌, list_eq, is_some, take, Text,
}
use lortnoc_tahc.Connect.{Verdict, not_ours, retry, broke, message}

abbrev pub max_backlog : ℕ
max_backlog = 15

abbrev pub min_cover_words : ℕ
min_cover_words = 13

abbrev pub max_restarts : ℕ
max_restarts = 4

-- A bubble: its id, what its message node holds without the time and the reactions, whether a decoded
-- text stands in it, and whether it waits for an answer.
pub record Bubble : Type 0 where
  pub mid : Text
  pub content : Option Text
  pub rendered : Bool
  pub pending : Bool

-- The visible container and its bubbles, oldest first.
pub record Screen : Type 0 where
  pub container : ℕ
  pub bubbles : List Bubble

-- A decoded text and the cover text that it replaces.
pub record Shown : Type 0 where
  pub decoded : Text
  pub cover : Text

pub record History : Type 0 where
  pub container : ℕ
  pub mids : List Text

-- `seen` holds what was set last in front; no entry in it is the null verdict of the source.
pub record Inbound : Type 0 where
  pub dirty : Bool
  -- the page was changed by the scan itself, and the observer has not run since
  pub touched : Bool
  pub history : Option History
  pub seen : List (Text × Option Shown)
  -- an exception of `onDecode` has ended the scan
  pub stopped : Bool
  -- the questions asked so far
  pub calls : ℕ

abbrev pub starting : Inbound
starting = record {
  dirty = false;
  touched = false;
  history = none;
  seen = [];
  stopped = false;
  calls = 0;
}

-- `seen.get`
unfoldable pub lookup : Text → List (Text × Option Shown) → Option (Option Shown)
lookup mid [] = none
lookup mid ((k, v) ∷ rest) = if list_eq k mid then some v else lookup mid rest

unfoldable pub has_mid : Text → List Text → Bool
has_mid mid [] = false
has_mid mid (k ∷ ks) = list_eq k mid || has_mid mid ks

abbrev pub is_empty : Text → Bool
is_empty [] = true
is_empty (c ∷ t) = false

unfoldable pub mids_of : List Bubble → List Text
mids_of [] = []
mids_of (b ∷ bs) = let rest = mids_of bs in if is_empty b.mid then rest else b.mid ∷ rest

-- `text.split(/\s+/).length` of a text that neither begins nor ends in a space.
unfoldable pub words_after : Bool → Text → ℕ
words_after in_space [] = 1
words_after in_space (c ∷ t) =
    if is_space c then (if in_space then 0 else 1) + words_after true t else words_after false t

abbrev pub word_count : Text → ℕ
word_count t = words_after false t

abbrev pub is_known : Option History → ℕ → Bool
is_known none container = false
is_known (some h) container = h.container == container

-- The first sight of a chat keeps the ids on screen.
unfoldable pub enter_chat : Inbound → Screen → Inbound
enter_chat s screen = if is_known s.history screen.container then s else record s {
  history = some (record { container = screen.container; mids = mids_of screen.bubbles });
}

unfoldable pub reverse_onto : List Bubble → List Bubble → List Bubble
reverse_onto [] acc = acc
reverse_onto (b ∷ bs) acc = reverse_onto bs (b ∷ acc)

-- Newest first, and only the newest.
unfoldable pub backlog : List Bubble → List Bubble
unfolding reverse_onto
backlog bs = take max_backlog (reverse_onto bs [])

pub data Action : Type 0 where
  skip reject : Action
  reuse : Shown → Action
  ask : Text → Action

unfoldable pub decide_text : Text → Action
decide_text t =
    if is_empty t then skip else if ltb (word_count t) min_cover_words then reject else ask t

-- A cached verdict of a bubble with an id.
abbrev pub cached : Inbound → Bubble → Option (Option Shown)
cached s b = if is_empty b.mid then none else lookup b.mid s.seen

unfoldable pub decide_cached : Bool → Option Shown → Action
decide_cached rendered none = skip
decide_cached rendered (some shown) = if rendered then skip else reuse shown

unfoldable pub decide_new : Bubble → Text → Action
unfolding decide_text
decide_new b raw = if b.rendered || b.pending then skip else decide_text (trim_end (trim_start raw))

unfoldable pub decide_bubble : Bubble → Option Text → Option (Option Shown) → Action
decide_bubble b none found = skip
decide_bubble b (some raw) (some hit) = decide_cached b.rendered hit
decide_bubble b (some raw) none = decide_new b raw

unfoldable pub decide : Inbound → Bubble → Action
decide s b = decide_bubble b b.content (cached s b)

-- `if (mid) seen.set(mid, ...)`
unfoldable pub remember : Inbound → Text → Option Shown → Inbound
remember s [] v = s
remember s (c ∷ mid) v = record s { seen = (c ∷ mid, v) ∷ s.seen }

pub data Did : Type 0 where
  -- the id, the text and whether the bubble is from the history
  asked : Text → Text → Bool → Did
  shown : Text → Shown → Did

unfoldable pub settle : Inbound → Text → Text → Verdict → Inbound × List Did
unfolding remember
settle s mid t retry = (s, [])
settle s mid t broke = (record s { stopped = true }, [])
settle s mid t not_ours = (remember s mid none, [])
settle s mid t (message m) =
    let it : Shown = record { decoded = m; cover = t } in
    let kept = remember s mid (some it) in (record kept { touched = true }, shown mid it ∷ [])

abbrev pub from_history : Inbound → Text → Bool
from_history s mid = elim s.history [ none ↦ false | some h ↦ has_mid mid h.mids ]

pub record Answer : Type 0 where
  pub verdict : Verdict
  pub mutated : Bool
  pub cleared : Bool

-- The observer runs: `debouncedScan` during a scan.
abbrev pub observe : Inbound → Inbound
observe s = record s { dirty = s.dirty || s.touched; touched = false }

-- What the wait left behind, and the call counted.
unfoldable pub after_wait : Inbound → Answer → Inbound
after_wait s a = record s {
  dirty = s.dirty || s.touched || a.mutated;
  touched = false;
  seen = if a.cleared then [] else s.seen;
  calls = s.calls + 1;
}

module _ (on_decode : ℕ → Text → Bool → Answer) where
  unfoldable pub act : Inbound → Bubble → Action → Inbound × List Did
  act s b skip = (s, [])
  act s b reject = (remember s b.mid none, [])
  act s b (reuse it) = (record s { touched = true }, shown b.mid it ∷ [])
  act s b (ask t) =
      let old = from_history s b.mid in
      let a = on_decode s.calls t old in
      let (s', did) = settle (after_wait s a) b.mid t a.verdict in (s', asked b.mid t old ∷ did)

  -- The loop of `pass`.
  unfoldable pub visit : Inbound → List Bubble → Inbound × List Did
  visit s [] = (s, [])
  visit s (b ∷ bs) =
      let (s1, did) = act s b (decide s b) in
      let (s2, rest) = visit s1 bs in if s.dirty || s.stopped then (s, []) else (s2, did ++ rest)

  unfoldable pub pass : Inbound → Option Screen → Inbound × List Did
  pass s none = (s, [])
  pass s (some screen) =
      let (s', did) = visit (enter_chat s screen) (backlog screen.bubbles) in (observe s', did)

  -- The loop of `scan`, with what each pass sees: `page n` when `n` more passes may follow.
  unfoldable pub passes_of : Inbound → (ℕ → Option Screen) → ℕ → Inbound × List Did
  passes_of s page zero = (s, [])
  passes_of s page (suc n) =
      let (s1, did) = pass (record s { dirty = false }) (page n) in
      let (s2, rest) = passes_of s1 page n in
      if s1.dirty && not s1.stopped then (s2, did ++ rest) else (s1, did)

  unfoldable pub scan : Inbound → (ℕ → Option Screen) → Inbound × List Did
  scan s page = passes_of (record s { stopped = false }) page max_restarts

-- `reset`, less its scan.
unfoldable pub reset_seen : Inbound → Inbound
reset_seen s = record s { seen = [] }
