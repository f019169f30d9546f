-- ===== src/XThread.antt =====
-- shared/xframe.mjs: `ThreadCollector`, which gathers the parts of a thread. Its two maps are lists in
-- the order of insertion. The key of a thread is its id and its number of parts.
pub mod Complete
pub mod Keys
pub mod Laws
pub mod Tests
pub mod Whole
use lortnoc_tahc.Base.{
  ℕ, zero, suc, ◌+◌, Bool, true, false, not, ◌&&◌, Option, none, some, List, [], ◌∷◌, ◌++◌,
  if◌then◌else◌, ltb, leb, ◌==◌, is_some, length, drop, Bytes,
}
use lortnoc_tahc.XFrame.{XPart}

pub record Thread : Type 0 where
  pub tid : Option ℕ
  pub total : ℕ
  pub parts : List (ℕ × Bytes)

abbrev pub max_threads : ℕ
max_threads = 32

abbrev pub same_tid : Option ℕ → Option ℕ → Bool
same_tid none none = true
same_tid (some a) (some b) = a == b
same_tid _ _ = false

abbrev pub has_key : Option ℕ → ℕ → Thread → Bool
has_key tid total t = same_tid t.tid tid && t.total == total

unfoldable pub find_parts : Option ℕ → ℕ → List Thread → Option (List (ℕ × Bytes))
find_parts tid total [] = none
find_parts tid total (t ∷ ts) =
    let found = find_parts tid total ts in if has_key tid total t then some t.parts else found

unfoldable pub put_parts : Option ℕ → ℕ → List (ℕ × Bytes) → List Thread → List Thread
put_parts tid total parts [] = record { tid = tid; total = total; parts = parts } ∷ []
put_parts tid total parts (t ∷ ts) =
    let later = put_parts tid total parts ts in
    if has_key tid total t then record t { parts = parts } ∷ ts else t ∷ later

-- `entry.parts.set`
unfoldable pub set_part : ℕ → Bytes → List (ℕ × Bytes) → List (ℕ × Bytes)
set_part seq payload [] = (seq, payload) ∷ []
set_part seq payload ((s, p) ∷ parts) =
    let later = set_part seq payload parts in
    if s == seq then (s, payload) ∷ parts else (s, p) ∷ later

unfoldable pub get_part : ℕ → List (ℕ × Bytes) → Option Bytes
get_part seq [] = none
get_part seq ((s, p) ∷ parts) = let found = get_part seq parts in if s == seq then some p else found

abbrev pub join_part : Option Bytes → Option Bytes → Option Bytes
join_part none rest = none
join_part (some p) none = none
join_part (some p) (some rest) = some (p ++ rest)

-- The parts from `s` on, `n` of them.
unfoldable pub join_parts : List (ℕ × Bytes) → ℕ → ℕ → Option Bytes
unfolding get_part
join_parts parts s zero = some []
join_parts parts s (suc n) = join_part (get_part s parts) (join_parts parts (s + 1) n)

-- A new thread pushes out the oldest of too many.
unfoldable pub make_room : Option (List (ℕ × Bytes)) → List Thread → List Thread
make_room (some parts) threads = threads
make_room none threads = if leb max_threads (length threads) then drop 1 threads else threads

abbrev pub parts_or_none : Option (List (ℕ × Bytes)) → List (ℕ × Bytes)
parts_or_none none = []
parts_or_none (some parts) = parts

unfoldable pub whole : ℕ → List (ℕ × Bytes) → Option Bytes
unfolding join_parts
whole total parts = if length parts == total then join_parts parts 0 total else none

unfoldable pub offer : List Thread → XPart → List Thread × Option Bytes
unfolding find_parts put_parts set_part make_room whole
offer threads part =
    let found = find_parts part.tid part.total threads in
    let parts = set_part part.seq part.payload (parts_or_none found) in
    if part.threaded
    then (put_parts part.tid part.total parts (make_room found threads), whole part.total parts)
    else (threads, some part.payload)
