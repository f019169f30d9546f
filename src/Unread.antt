-- ===== src/Unread.antt =====
-- app/src/lib/unread.ts, and the part of `tick` and `openPeer` of app/src/ui/Messenger.tsx that keeps
-- the watermarks. An object of the source is a list of its entries in order. `localStorage` itself is
-- an argument: what was stored, or nothing.
pub mod Dict
pub mod Seed
pub mod Threads
pub mod Tests
use lortnoc_tahc.Base.{
  ℕ, ◌+◌, Bool, true, false, not, ◌&&◌, ◌||◌, Option, none, some, List, [], ◌∷◌, ◌++◌,
  if◌then◌else◌, ltb, leb, ◌==◌, list_eq, keep, length, Text,
}
use lortnoc_tahc.Keys.{codes}

-- `v` is always 1.
pub record Message : Type 0 where
  pub from : Text
  pub to : Text
  pub ts : ℕ
  pub body : Text

pub record Conversation : Type 0 where
  pub conv_id : Text
  pub peer : Text
  pub head_blob_id : Option Text
  pub seq : ℕ
  pub updated_at : ℕ
  pub messages : List Message

-- `o[key]` and `o[key] = value`: a new key goes last.
module _ {ℓ} {A : Type ℓ} where
  unfoldable pub get : Text → List (Text × A) → Option A
  get key [] = none
  get key ((k, a) ∷ rest) = let found = get key rest in if list_eq k key then some a else found

  unfoldable pub put : Text → A → List (Text × A) → List (Text × A)
  put key value [] = (key, value) ∷ []
  put key value ((k, a) ∷ rest) =
      let later = put key value rest in if list_eq k key then (k, value) ∷ rest else (k, a) ∷ later

abbrev pub Watermarks : Type 0
Watermarks = List (Text × ℕ)

abbrev pub mark_or_zero : Option ℕ → ℕ
mark_or_zero none = 0
mark_or_zero (some n) = n

-- The sort by time, which keeps the order of equal times.
unfoldable pub insert_by_ts : Message → List Message → List Message
insert_by_ts m [] = m ∷ []
insert_by_ts m (x ∷ xs) =
    let later = insert_by_ts m xs in if ltb x.ts m.ts then x ∷ later else m ∷ x ∷ xs

unfoldable pub sort_by_ts : List Message → List Message
unfolding insert_by_ts
sort_by_ts [] = []
sort_by_ts (m ∷ ms) = insert_by_ts m (sort_by_ts ms)

abbrev pub is_inbound : Text → Message → Bool
is_inbound me m = not (list_eq m.from me)

unfoldable pub newest_next : Text → Option Message → Message → Option Message
newest_next me none m = if list_eq m.from me then none else some m
newest_next me (some n) m = if not (list_eq m.from me) && ltb n.ts m.ts then some m else some n

unfoldable pub newest_from : Text → Option Message → List Message → Option Message
unfolding newest_next
newest_from me newest [] = newest
newest_from me newest (m ∷ ms) = newest_from me (newest_next me newest m) ms

abbrev pub newest_inbound : Conversation → Text → Option Message
newest_inbound conv me = newest_from me none conv.messages

abbrev pub is_unread : Text → ℕ → Message → Bool
is_unread me mark m = is_inbound me m && ltb mark m.ts

unfoldable pub fresh : Text → ℕ → Conversation → List Message
unfolding sort_by_ts
fresh me mark c = sort_by_ts (keep (is_unread me mark) c.messages)

unfoldable pub put_fresh :
    Text → List Message → List (Text × List Message) → List (Text × List Message)
unfolding put
put_fresh peer [] out = out
put_fresh peer (m ∷ ms) out = put peer (m ∷ ms) out

unfoldable pub unread_into :
    Text → Watermarks → List (Text × List Message) → List Conversation → List (Text × List Message)
unfolding put_fresh fresh get
unread_into me marks out [] = out
unread_into me marks out (c ∷ cs) =
    unread_into me marks (put_fresh c.peer (fresh me (mark_or_zero (get c.peer marks)) c) out) cs

abbrev pub unread_by_peer : List Conversation → Text → Watermarks → List (Text × List Message)
unread_by_peer convos me marks = unread_into me marks [] convos

-- `FRESH_MS`
abbrev pub fresh_ms : ℕ
fresh_ms = 300000

-- `m.ts > cutoff` is `now < m.ts + FRESH_MS`.
unfoldable pub seed_next : Text → ℕ → ℕ → Message → ℕ
seed_next me now mark m =
    if list_eq m.from me || ltb now (m.ts + fresh_ms)
    then mark
    else if ltb mark m.ts
    then m.ts
    else mark

unfoldable pub seed_mark : Text → ℕ → ℕ → List Message → ℕ
unfolding seed_next
seed_mark me now mark [] = mark
seed_mark me now mark (m ∷ ms) = seed_mark me now (seed_next me now mark m) ms

unfoldable pub seed_into : Text → ℕ → Watermarks → List Conversation → Watermarks
unfolding put seed_mark
seed_into me now marks [] = marks
seed_into me now marks (c ∷ cs) =
    seed_into me now (put c.peer (seed_mark me now 0 c.messages) marks) cs

abbrev pub seed_watermarks : List Conversation → Text → ℕ → Watermarks
seed_watermarks convos me now = seed_into me now [] convos

-- The watermarks that a poll compares with: those stored, or the seed of a device that has none.
abbrev pub marks_or_seed : Option Watermarks → List Conversation → Text → ℕ → Watermarks
marks_or_seed none convos me now = seed_watermarks convos me now
marks_or_seed (some marks) convos me now = marks

unfoldable pub put_newest : Watermarks → Text → Option Message → Watermarks
unfolding put
put_newest marks peer none = marks
put_newest marks peer (some m) = put peer m.ts marks

-- `openPeer` on a conversation that was found.
unfoldable pub acknowledge : Watermarks → Conversation → Text → Watermarks
unfolding put_newest newest_from
acknowledge marks c me = put_newest marks c.peer (newest_inbound c me)
