-- ===== src/Unread/Threads.antt =====
-- What the inbox finds unread in one conversation among others.
use lortnoc_tahc.Base.{
  ℕ, ◌≡◌, refl, Bool, false, not, ◌&&◌, Option, none, some, List, [], ◌∷◌, ◌++◌, if_cases, list_eq,
  ltb, keep, All, Text, ap, ◌∙◌, arith,
}
use lortnoc_tahc.Unread.{
  Message, Conversation, Watermarks, get, mark_or_zero, sort_by_ts, is_inbound, is_unread, fresh,
  put_fresh, unread_into, unread_by_peer, seed_mark, seed_into, seed_watermarks, newest_next,
  newest_from, newest_inbound, put_newest, acknowledge,
}
use lortnoc_tahc.Unread.Dict.{get-put, get-put_other}
use lortnoc_tahc.Unread.Seed.{is_recent, fresh-seed_mark}

-- The conversation is with someone else.
abbrev pub IsOther : Text → Conversation → Type 0
IsOther peer c = list_eq c.peer peer ≡ false

-- An entry for what is unread, none if nothing is.
abbrev pub entry : List Message → Option (List Message)
entry [] = none
entry (m ∷ ms) = some (m ∷ ms)

get-put_fresh_other :
    (peer other : Text) (ms : List Message) (out : List (Text × List Message))
    → list_eq other peer ≡ false
    → get peer (put_fresh other ms out) ≡ get peer out
unfolding put_fresh
get-put_fresh_other peer other [] out n = refl
get-put_fresh_other peer other (m ∷ ms) out n = get-put_other peer other (m ∷ ms) out n

get-put_fresh :
    (peer : Text) (ms : List Message) (out : List (Text × List Message))
    → get peer out ≡ none
    → get peer (put_fresh peer ms out) ≡ entry ms
unfolding put_fresh
get-put_fresh peer [] out n = n
get-put_fresh peer (m ∷ ms) out n = get-put peer (m ∷ ms) out

module _ (me : Text) (marks : Watermarks) (peer : Text) where
  unread_into-other :
      (cs : List Conversation) (out : List (Text × List Message))
      → All (IsOther peer) cs
      → get peer (unread_into me marks out cs) ≡ get peer out
  unfolding unread_into
  unread_into-other [] out h = refl
  unread_into-other (c ∷ cs) out (h, hs) =
      unread_into-other cs _ hs ∙ get-put_fresh_other peer c.peer _ out h

-- In a list with one conversation per peer, what is found unread for a peer is what is fresh in the
-- conversation with that peer, past the watermark of that peer.
pub unread_by_peer-fresh :
    (me : Text) (marks : Watermarks) (c : Conversation) (before after : List Conversation)
    (out : List (Text × List Message))
    → All (IsOther c.peer) before
    → All (IsOther c.peer) after
    → get c.peer out ≡ none
    → get c.peer (unread_into me marks out (before ++ (c ∷ after)))
      ≡ entry (fresh me (mark_or_zero (get c.peer marks)) c)
unfolding unread_into
unread_by_peer-fresh me marks c [] after out hb ha n =
    unread_into-other me marks c.peer after _ ha ∙ get-put_fresh c.peer _ out n
unread_by_peer-fresh me marks c (b ∷ before) after out (h, hb) ha n =
    unread_by_peer-fresh me marks c before after _ hb ha
      (get-put_fresh_other c.peer b.peer _ out h ∙ n)

seed_into-other :
    (me : Text) (now : ℕ) (peer : Text) (cs : List Conversation) (marks : Watermarks)
    → All (IsOther peer) cs
    → get peer (seed_into me now marks cs) ≡ get peer marks
unfolding seed_into
seed_into-other me now peer [] marks h = refl
seed_into-other me now peer (c ∷ cs) marks (h, hs) =
    seed_into-other me now peer cs _ hs ∙ get-put_other peer c.peer _ marks h

get-seed_into :
    (me : Text) (now : ℕ) (c : Conversation) (before after : List Conversation) (marks : Watermarks)
    → All (IsOther c.peer) after
    → get c.peer (seed_into me now marks (before ++ (c ∷ after)))
      ≡ some (seed_mark me now 0 c.messages)
unfolding seed_into
get-seed_into me now c [] after marks h =
    seed_into-other me now c.peer after _ h ∙ get-put c.peer _ marks
get-seed_into me now c (b ∷ before) after marks h = get-seed_into me now c before after _ h

-- On the first sign-in of a device, with one conversation per peer, what is found unread is
-- exactly the messages of others in the last five minutes whose time is not zero, in the order of
-- their times.
pub seeded_unread :
    (me : Text) (now : ℕ) (c : Conversation) (before after : List Conversation)
    → All (IsOther c.peer) before
    → All (IsOther c.peer) after
    → get c.peer
        (unread_by_peer (before ++ (c ∷ after)) me (seed_watermarks (before ++ (c ∷ after)) me now))
      ≡ entry (sort_by_ts (keep (is_recent me now) c.messages))
unfolding get
seeded_unread me now c before after hb ha =
    unread_by_peer-fresh me (seed_watermarks (before ++ (c ∷ after)) me now) c before after [] hb ha
      refl
    ∙ ap (λ o. entry (fresh me (mark_or_zero o) c)) (get-seed_into me now c before after [] ha)
    ∙ ap entry (fresh-seed_mark me now c)

keep_none {ℓ} :
    {A : Type ℓ} (p : A → Bool) (xs : List A) → All (λ x. p x ≡ false) xs → keep p xs ≡ []
keep_none p [] h = refl
keep_none p (x ∷ xs) (h, hs) = rw (h, keep_none p xs hs) refl

-- Nothing is newer than the newest message of others; with none, there is no message of others.
abbrev IsPast : Text → Option Message → Message → Type 0
IsPast me none m = is_inbound me m ≡ false
IsPast me (some n) m = is_unread me n.ts m ≡ false

module _ (me : Text) where
  newest_next-IsPast : (o : Option Message) (m : Message) → IsPast me (newest_next me o m) m
  unfolding newest_next
  newest_next-IsPast none m =
      if_cases (λ (o : Option Message). IsPast me o m) (list_eq m.from me) (λ e. ground arith)
        (λ e. ground arith)
  newest_next-IsPast (some n) m =
      if_cases (λ (o : Option Message). IsPast me o m) (not (list_eq m.from me) && ltb n.ts m.ts)
        (λ e. ground arith) (λ e. e)

  newest_next-keeps :
      (o : Option Message) (x m : Message) → IsPast me o x → IsPast me (newest_next me o m) x
  unfolding newest_next
  newest_next-keeps none x m h =
      if_cases (λ (o : Option Message). IsPast me o x) (list_eq m.from me) (λ e. h)
        (λ e. ground arith)
  newest_next-keeps (some n) x m h =
      if_cases (λ (o : Option Message). IsPast me o x) (not (list_eq m.from me) && ltb n.ts m.ts)
        (λ e. ground arith) (λ e. h)

  newest_from-keeps :
      (ms : List Message) (o : Option Message) (x : Message)
      → IsPast me o x
      → IsPast me (newest_from me o ms) x
  unfolding newest_from
  newest_from-keeps [] o x h = h
  newest_from-keeps (m ∷ ms) o x h =
      newest_from-keeps ms (newest_next me o m) x (newest_next-keeps o x m h)

  newest_from-IsPast :
      (ms : List Message) (o : Option Message) → All (IsPast me (newest_from me o ms)) ms
  unfolding newest_from
  newest_from-IsPast [] o = tt
  newest_from-IsPast (m ∷ ms) o = (
    newest_from-keeps ms (newest_next me o m) m (newest_next-IsPast o m),
    newest_from-IsPast ms (newest_next me o m),
  )

  past_unread :
      (ms : List Message) (o : Option Message) (peer : Text) (marks : Watermarks)
      → All (IsPast me o) ms
      → All (λ m. is_unread me (mark_or_zero (get peer (put_newest marks peer o))) m ≡ false) ms
  unfolding put_newest
  past_unread [] o peer marks h = tt
  past_unread (m ∷ ms) none peer marks (h, hs) = (ground arith, past_unread ms none peer marks hs)
  past_unread (m ∷ ms) (some n) peer marks (h, hs) = (
    ap (λ k. is_unread me (mark_or_zero k) m) (get-put peer n.ts marks) ∙ h,
    past_unread ms (some n) peer marks hs,
  )

-- Opening a conversation acknowledges it: right after, with one conversation per peer, nothing in it is
-- found unread, whatever it holds and whatever the watermarks were.
pub opened_read :
    (me : Text) (marks : Watermarks) (c : Conversation) (before after : List Conversation)
    → All (IsOther c.peer) before
    → All (IsOther c.peer) after
    → get c.peer (unread_by_peer (before ++ (c ∷ after)) me (acknowledge marks c me)) ≡ none
unfolding acknowledge get fresh sort_by_ts
opened_read me marks c before after hb ha =
    unread_by_peer-fresh me (acknowledge marks c me) c before after [] hb ha refl
    ∙ ap (λ ms. entry (sort_by_ts ms))
        (keep_none _ c.messages (
          past_unread me c.messages (newest_inbound c me) c.peer marks
            (newest_from-IsPast me c.messages none)))
