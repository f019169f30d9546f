-- ===== src/Inbound/Known.antt =====
-- From the first sight of a chat on, a bubble counts as from the history exactly if it was on screen.
use lortnoc_tahc.Base.{
  not, ◌&&◌, ◌||◌, ℕ, suc, ◌≡◌, refl, ap, ◌∙◌, Bool, false, Option, some, List, [], ◌∷◌, ◌++◌,
  if◌then◌else◌, if_cases, list_eq, All, All-append, Text,
}
use lortnoc_tahc.Inbound.{
  Bubble, Screen, Inbound, History, is_empty, is_known, mids_of, has_mid, backlog, Answer, Did,
  asked, shown, pass, passes_of, scan, enter_chat,
}
use lortnoc_tahc.Inbound.Fossils.{Flagged, Flags, IsIn, visit-Flags, passes_of-Flags, scan_history}

-- Some bubble has this id.
abbrev pub on_screen : Text → List Bubble → Bool
on_screen mid [] = false
on_screen mid (b ∷ bs) = list_eq b.mid mid || on_screen mid bs

-- A bubble with this id was among the bubbles; one without an id never counts as there.
abbrev pub was_there : List Bubble → Text → Bool
was_there bs mid = not (is_empty mid) && on_screen mid bs

-- A question says whether its bubble was there.
abbrev pub IsMarked : List Bubble → Did → Type 0
IsMarked bs (asked mid t old) = old ≡ was_there bs mid
IsMarked bs (shown mid it) = Unit

has_mid-next :
    (mid k : Text) (rest : List Text) (bs : List Bubble)
    → has_mid mid rest ≡ was_there bs mid
    → has_mid mid (if is_empty k then rest else k ∷ rest)
      ≡ (not (is_empty mid) && (list_eq k mid || on_screen mid bs))
unfolding has_mid list_eq
has_mid-next [] [] rest bs h = h
has_mid-next [] (d ∷ k) rest bs h = h
has_mid-next (c ∷ mid) [] rest bs h = h
has_mid-next (c ∷ mid) (d ∷ k) rest bs h = ap (λ r. list_eq (d ∷ k) (c ∷ mid) || r) h

has_mid-mids_of : (bs : List Bubble) (mid : Text) → has_mid mid (mids_of bs) ≡ was_there bs mid
unfolding has_mid mids_of
has_mid-mids_of [] [] = refl
has_mid-mids_of [] (c ∷ mid) = refl
has_mid-mids_of (b ∷ bs) mid = has_mid-next mid b.mid (mids_of bs) bs (has_mid-mids_of bs mid)

marked :
    (bs : List Bubble) (did : List Did) → All (Flagged (mids_of bs)) did → All (IsMarked bs) did
marked bs [] h = tt
marked bs (asked mid t old ∷ did) (h, hs) = (h ∙ has_mid-mids_of bs mid, marked bs did hs)
marked bs (shown mid it ∷ did) (h, hs) = (tt, marked bs did hs)

module _ (on_decode : ℕ → Text → Bool → Answer) (screen : Screen) where
  -- What the first sight of the chat notes.
  abbrev noted : History
  noted = record { container = screen.container; mids = mids_of screen.bubbles }

  entering :
      (s : Inbound)
      → is_known s.history screen.container ≡ false
      → Flags noted (pass on_decode s (some screen))
  unfolding pass enter_chat
  entering s new =
      rw (new, enter_chat) (visit-Flags on_decode noted _ (backlog screen.bubbles) refl)

  first_pass :
      (s : Inbound) (page : ℕ → Option Screen) (n : ℕ)
      → is_known s.history screen.container ≡ false
      → page n ≡ some screen
      → ((i : ℕ) → IsIn screen.container (page i))
      → Flags noted (passes_of on_decode s page (suc n))
  unfolding passes_of
  first_pass s page n new e i =
      let s1 = pass on_decode (record s { dirty = false }) (page n) in
      let (k, f) : Flags noted s1 = rw e (entering (record s { dirty = false }) new) in
      let (l, g) = passes_of-Flags on_decode noted s1.0 page n k i in
      if_cases (Flags noted) (s1.0.dirty && not s1.0.stopped)
        (λ _. (l, All-append (Flagged noted.mids) _ _ f g)) (λ _. (k, f))

  -- A scan enters a chat: the chat is not the one whose history was taken, its first pass sees this
  -- screen, and the pages of its other passes and of the scan after it show that chat or none. Then
  -- in both scans a question counts as from the history exactly if its bubble has an id that was on
  -- that screen.
  pub first_sight_decides :
      (s : Inbound) (page later : ℕ → Option Screen)
      → is_known s.history screen.container ≡ false
      → page 3 ≡ some screen
      → ((i : ℕ) → IsIn screen.container (page i))
      → ((i : ℕ) → IsIn screen.container (later i))
      → All
          (IsMarked screen.bubbles)
          ((scan on_decode s page).1 ++ (scan on_decode (scan on_decode s page).0 later).1)
  unfolding scan
  first_sight_decides s page later new e i j =
      let (k, f) = first_pass (record s { stopped = false }) page 3 new e i in
      let (l, g) = scan_history on_decode noted (scan on_decode s page).0 later k j in
      marked screen.bubbles _ (All-append (Flagged noted.mids) _ _ f g)
