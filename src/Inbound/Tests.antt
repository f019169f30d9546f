-- ===== src/Inbound/Tests.antt =====
-- Scans of concrete pages, and the theorems applied to them.
use lortnoc_tahc.Base.{
  is_space, trim_start, trim_end, cons_trimmed, ℕ, zero, suc, ◌≡◌, ◌≤◌, refl, Bool, true, false,
  some, Option, [], ◌∷◌, if◌then◌else◌, if_cases, All, Text, list_eq, ◌==◌, ◌++◌,
}
use lortnoc_tahc.Keys.{codes}
use lortnoc_tahc.Connect.{retry, message}
use lortnoc_tahc.Inbound.{
  Bubble, Screen, Shown, Inbound, Answer, asked, shown, starting, scan, visit, act, pass, passes_of,
  decide, decide_bubble, decide_new, decide_text, decide_cached, lookup, has_mid, mids_of,
  words_after, enter_chat, backlog, reverse_onto, settle, remember, after_wait,
}
use lortnoc_tahc.Inbound.Bounds.{questions, IsLong, scan-questions}
use lortnoc_tahc.Inbound.Cache.{IsNotAbout, cached_verdict_final}
use lortnoc_tahc.Inbound.Fossils.{IsIn}
use lortnoc_tahc.Inbound.Known.{IsMarked, first_sight_decides}

abbrev thirteen : Text
thirteen = codes "a b c d e f g h i j k l m"

abbrev bubble : Text → Text → Bubble
bubble mid t = record { mid = mid; content = some t; rendered = false; pending = false }

abbrev first : Screen
first = record {
  container = 1;
  bubbles = bubble (codes "1") thirteen ∷ bubble (codes "2") (codes "short") ∷ [];
}

abbrev second : Screen
second = record {
  container = 1;
  bubbles =
      bubble (codes "1") thirteen
      ∷ bubble (codes "2") (codes "short")
      ∷ bubble (codes "3") thirteen
      ∷ bubble [] thirteen
      ∷ [];
}

abbrev drawn : Bubble → Bubble
drawn b = record b { rendered = true }

-- The second screen once the texts of its newest two bubbles are drawn.
abbrev third : Screen
third = record {
  container = 1;
  bubbles =
      bubble (codes "1") thirteen
      ∷ bubble (codes "2") (codes "short")
      ∷ drawn (bubble (codes "3") thirteen)
      ∷ drawn (bubble [] thirteen)
      ∷ [];
}

-- The first question is undecided and changes the page, all others are messages.
abbrev answers : ℕ → Text → Bool → Answer
answers n t old = record {
  verdict = elim n [ zero ↦ retry | suc m ↦ message (codes "hello") ];
  mutated = elim n [ zero ↦ true | suc m ↦ false ];
  cleared = false;
}

abbrev two_pages : ℕ → Option Screen
two_pages n = if n == 3 then some first else if n == 2 then some second else some third

abbrev hello : Shown
hello = record { decoded = codes "hello"; cover = thirteen }

-- The newest is asked first, and the undecided one again; a text that was drawn begins a new pass,
-- and what is not drawn in it comes from the cache.
two_passes :
    (scan answers starting two_pages).1
    ≡ asked (codes "1") thirteen true
      ∷ asked [] thirteen false
      ∷ shown [] hello
      ∷ asked (codes "3") thirteen false
      ∷ shown (codes "3") hello
      ∷ asked (codes "1") thirteen true
      ∷ shown (codes "1") hello
      ∷ shown (codes "1") hello
      ∷ []
unfolding scan passes_of pass visit backlog enter_chat act decide decide_bubble lookup decide_new
    trim_end trim_start words_after remember list_eq settle after_wait cons_trimmed is_space
    decide_cached decide_text has_mid mids_of reverse_onto
two_passes = refl

scan-questions_example :
    (questions (scan answers starting two_pages).1 ≤ 60)
    × All IsLong (scan answers starting two_pages).1
scan-questions_example = scan-questions answers starting two_pages

abbrev known : Inbound
known = record starting {
  history = some (record { container = 1; mids = codes "1" ∷ codes "2" ∷ [] });
  seen = (codes "1", some hello) ∷ [];
}

cached_verdict_final_example :
    (lookup (codes "1") (scan answers known two_pages).0.seen ≡ some (some hello))
    × All (IsNotAbout (codes "1")) (scan answers known two_pages).1
unfolding lookup list_eq
cached_verdict_final_example =
    cached_verdict_final answers known two_pages (codes "1") (some hello) (λ n t old. refl)
      (λ e. cc) refl

-- The first screen is seen by the first pass.
first_sight_decides_example : All (IsMarked first.bubbles) (
    (scan answers starting two_pages).1
    ++ (scan answers (scan answers starting two_pages).0 two_pages).1)
first_sight_decides_example =
    first_sight_decides answers first starting two_pages two_pages refl refl (λ i. shows i)
      (λ i. shows i)
  where
    shows : (i : ℕ) → IsIn 1 (two_pages i)
    shows i =
        if_cases (IsIn 1) (i == 3) (λ _. refl)
          (λ _. if_cases (IsIn 1) (i == 2) (λ _. refl) (λ _. refl))
