-- ===== src/Unread/Seed.antt =====
-- The first sign-in on a device: what is left unread.
use lortnoc_tahc.Base.{
  ℕ, ◌+◌, ◌≤◌, ◌≡◌, ◌⊎◌, refl, Bool, false, not, ◌&&◌, List, [], ◌∷◌, inl, ltb, keep, All, Text, ap,
  arith,
}
use lortnoc_tahc.Unread.{
  Message, Conversation, sort_by_ts, is_inbound, is_unread, fresh, fresh_ms, seed_next, seed_mark,
}

pub keep_congruence {ℓ} :
    {A : Type ℓ} (p q : A → Bool) (xs : List A) → All (λ x. p x ≡ q x) xs → keep p xs ≡ keep q xs
keep_congruence p q [] h = refl
keep_congruence p q (x ∷ xs) (h, hs) = rw (h, keep_congruence p q xs hs) refl

-- A message from someone else in the last five minutes.
abbrev pub is_recent : Text → ℕ → Message → Bool
is_recent me now m = is_inbound me m && ltb now (m.ts + fresh_ms) && ltb 0 m.ts

-- A message that is no longer recent is at the mark or below it.
abbrev IsCaught : Text → ℕ → ℕ → Message → Type 0
IsCaught me now mark m =
    (is_inbound me m && not (ltb now (m.ts + fresh_ms)) && ltb mark m.ts) ≡ false

-- The mark itself is no recent time.
abbrev IsOldMark : ℕ → ℕ → Type 0
IsOldMark now mark = (mark ≡ 0) ⊎ (mark + fresh_ms ≤ now)

module _ (me : Text) (now : ℕ) where
  seed_next-above : (mark : ℕ) (m : Message) → mark ≤ seed_next me now mark m
  unfolding seed_next
  seed_next-above mark m = ground arith

  seed_next-IsCaught : (mark : ℕ) (m : Message) → IsCaught me now (seed_next me now mark m) m
  unfolding seed_next
  seed_next-IsCaught mark m = ground arith

  seed_next-IsOldMark :
      (mark : ℕ) (m : Message) → IsOldMark now mark → IsOldMark now (seed_next me now mark m)
  unfolding seed_next
  seed_next-IsOldMark mark m h = ground arith

  seed_mark-above : (mark : ℕ) (ms : List Message) → mark ≤ seed_mark me now mark ms
  unfolding seed_mark
  seed_mark-above mark [] = omega arith
  seed_mark-above mark (m ∷ ms) =
      omega (arith, seed_next-above mark m, seed_mark-above (seed_next me now mark m) ms)

  IsCaught-more : (m : Message) (a b : ℕ) → a ≤ b → IsCaught me now a m → IsCaught me now b m
  IsCaught-more m a b h k = ground arith

  seed_mark-IsCaught :
      (mark : ℕ) (ms : List Message) → All (IsCaught me now (seed_mark me now mark ms)) ms
  unfolding seed_mark
  seed_mark-IsCaught mark [] = tt
  seed_mark-IsCaught mark (m ∷ ms) =
      let next = seed_next me now mark m in
      (
        IsCaught-more m next _ (seed_mark-above next ms) (seed_next-IsCaught mark m),
        seed_mark-IsCaught next ms,
      )

  seed_mark-IsOldMark :
      (mark : ℕ) (ms : List Message) → IsOldMark now mark → IsOldMark now (seed_mark me now mark ms)
  unfolding seed_mark
  seed_mark-IsOldMark mark [] h = h
  seed_mark-IsOldMark mark (m ∷ ms) h =
      seed_mark-IsOldMark (seed_next me now mark m) ms (seed_next-IsOldMark mark m h)

  unread_recent :
      (mark : ℕ) (m : Message)
      → IsOldMark now mark
      → IsCaught me now mark m
      → is_unread me mark m ≡ is_recent me now m
  unread_recent mark m h k = ground arith

  recent_each :
      (mark : ℕ) (ms : List Message)
      → IsOldMark now mark
      → All (IsCaught me now mark) ms
      → All (λ m. is_unread me mark m ≡ is_recent me now m) ms
  recent_each mark [] h k = tt
  recent_each mark (m ∷ ms) h (k, ks) = (unread_recent mark m h k, recent_each mark ms h ks)

  pub fresh-seed_mark :
      (c : Conversation)
      → fresh me (seed_mark me now 0 c.messages) c ≡ sort_by_ts (keep (is_recent me now) c.messages)
  unfolding fresh
  fresh-seed_mark c = ap sort_by_ts (
      keep_congruence _ _ c.messages (
        recent_each _ c.messages (seed_mark-IsOldMark 0 c.messages (inl refl))
          (seed_mark-IsCaught 0 c.messages)))
