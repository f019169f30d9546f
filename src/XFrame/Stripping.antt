-- ===== src/XFrame/Stripping.antt =====
-- What `stripTag` gives back of a post with its hashtag, shared/xframe.mjs.
use lortnoc_tahc.Base.{
  ℕ, zero, suc, ◌-◌, ◌≤◌, ◌<◌, ◌≡◌, ◌≢◌, refl, sym, ap, subst, ◌∙◌, Bool, true, false, Bool-cases,
  inl, inr, none, some, some_inj, List, [], ◌∷◌, ◌++◌, map, if◌then◌else◌, length, length-append,
  length-take, length-drop, take, drop, take_at, drop_at, append_assoc, list_eq, list_eq_sound,
  trim, trim_end, trim_start, cons_trimmed, is_space, length-trim, trimmed_first, trim-spaces,
  trim-append, Text, arith,
}
use lortnoc_tahc.Keys.{codes}
use lortnoc_tahc.XFrame.{hashtag, append_tag}
use lortnoc_tahc.XFrame.Tags.{lower_case, ends_with_tag, strip_rounds, strip_tag}

-- So many spaces.
abbrev pub spaces : ℕ → Text
spaces zero = []
spaces (suc k) = b' ' ∷ spaces k

-- A text with hashtags behind it, the last one first, each after so many spaces.
abbrev pub with_tags : Text → List ℕ → Text
with_tags t [] = t
with_tags t (k ∷ ks) = (with_tags t ks ++ spaces k) ++ hashtag

trim_end-spaces_only : (k : ℕ) → trim_end (spaces k) ≡ []
unfolding trim_end cons_trimmed is_space
trim_end-spaces_only zero = refl
trim_end-spaces_only (suc k) = ap (cons_trimmed 32) (trim_end-spaces_only k)

ends_with_tag-append : (t : Text) → ends_with_tag (t ++ hashtag) ≡ true
unfolding ends_with_tag list_eq
ends_with_tag-append t =
    ap (λ s. list_eq (map lower_case s) hashtag)
      (drop_at t hashtag (length (t ++ hashtag) - 12) (omega (arith, length-append t hashtag)))

tag_trimmed : trim_end hashtag ≡ hashtag
unfolding trim_end cons_trimmed is_space
tag_trimmed = refl

before_tag : (t : Text) → take (length (t ++ hashtag) - 12) (t ++ hashtag) ≡ t
before_tag t =
    take_at t hashtag (length (t ++ hashtag) - 12) (omega (arith, length-append t hashtag))

-- A text that is not empty and trimmed, and what stands behind it.
module _ (c : ℕ) (t : Text) (trimmed : trim (c ∷ t) ≡ c ∷ t) where
  trim-with_tags : (ks : List ℕ) → trim (c ∷ with_tags t ks) ≡ c ∷ with_tags t ks
  trim-with_tags [] = trimmed
  trim-with_tags (k ∷ ks) =
      trim-append c (with_tags t ks ++ spaces k) (codes "lortnoctahc") b'#'
        (trimmed_first c t trimmed) tag_trimmed

  strip_round :
      (fuel k : ℕ) (ks : List ℕ) (found : Bool)
      → strip_rounds (suc fuel) (c ∷ with_tags t (k ∷ ks)) found
        ≡ strip_rounds fuel (c ∷ with_tags t ks) true
  unfolding strip_rounds
  strip_round fuel k ks found =
      let text = c ∷ (with_tags t ks ++ spaces k) in
      rw
        (
          ends_with_tag-append text,
          before_tag text,
          trim-spaces c (with_tags t ks) (spaces k) (trim_end-spaces_only k) (trim-with_tags ks),
        )
        refl

  module _ (untagged : ends_with_tag (c ∷ t) ≡ false) where
    strip_rounds-with_tags :
        (fuel : ℕ) (ks : List ℕ)
        → length ks ≤ fuel
        → strip_rounds fuel (c ∷ with_tags t ks) true ≡ (c ∷ t, true)
    unfolding strip_rounds
    strip_rounds-with_tags zero [] h = refl
    strip_rounds-with_tags zero (k ∷ ks) h = absurd (omega (arith, h))
    strip_rounds-with_tags (suc fuel) [] h = rw untagged refl
    strip_rounds-with_tags (suc fuel) (k ∷ ks) h =
        strip_round fuel k ks true ∙ strip_rounds-with_tags fuel ks (omega (arith, h))

    strip_rounds_all :
        (fuel k : ℕ) (ks : List ℕ)
        → length ks < fuel
        → strip_rounds fuel (c ∷ with_tags t (k ∷ ks)) false ≡ (c ∷ t, true)
    strip_rounds_all zero k ks h = absurd (omega (arith, h))
    strip_rounds_all (suc fuel) k ks h =
        strip_round fuel k ks false ∙ strip_rounds-with_tags fuel ks (omega (arith, h))

length-map_lower : (t : Text) → length (map lower_case t) ≡ length t
length-map_lower [] = refl
length-map_lower (c ∷ t) = ap suc (length-map_lower t)

ends_with_tag_long : (t : Text) → ends_with_tag t ≡ true → 12 ≤ length t
unfolding ends_with_tag
ends_with_tag_long t h = omega (
  arith,
  ap length (list_eq_sound (map lower_case (drop (length t - 12) t)) hashtag h),
  length-map_lower (drop (length t - 12) t),
  length-drop (length t - 12) t,
)

-- The fuel is enough: no hashtag is left at the end.
strip_rounds_enough :
    (fuel : ℕ) (t : Text) (found : Bool)
    → length t ≤ fuel
    → ends_with_tag ((strip_rounds fuel t found).0) ≡ false
unfolding strip_rounds ends_with_tag list_eq
strip_rounds_enough zero [] found h = refl
strip_rounds_enough zero (c ∷ t) found h = absurd (omega (arith, h))
strip_rounds_enough (suc fuel) t found h =
    let next = trim (take (length t - 12) t) in
    elim (Bool-cases (ends_with_tag t)) [
      | inl tagged ↦
          let long = ends_with_tag_long t tagged in
          let shorter : length next ≤ fuel =
            omega (arith, length-trim (take (length t - 12) t), length-take (length t - 12) t) in
          rw tagged (strip_rounds_enough fuel next true shorter)
      | inr other ↦ rw other other
    ]

strip_tag_clean : (t u : Text) → strip_tag t ≡ some u → ends_with_tag u ≡ false
unfolding strip_tag
strip_tag_clean t u h = given (strip_rounds (length t) (trim t) false) refl h
  where
    given :
        (r : Text × Bool)
        → strip_rounds (length t) (trim t) false ≡ r
        → (if r.1 then some r.0 else none) ≡ some u
        → ends_with_tag u ≡ false
    given (v, true) made e =
        subst (λ w. ends_with_tag w ≡ false) (ap (λ r. r.0) made ∙ some_inj e)
          (strip_rounds_enough (length t) (trim t) false (length-trim t))
    given (v, false) made e = absurd cc

trim_start-spaces : (a : ℕ) (t : Text) → trim_start (spaces a ++ t) ≡ trim_start t
unfolding trim_start is_space
trim_start-spaces zero t = refl
trim_start-spaces (suc a) t = trim_start-spaces a t

length-with_tags : (t : Text) (ks : List ℕ) → length ks ≤ length (with_tags t ks)
length-with_tags t [] = omega arith
length-with_tags t (k ∷ ks) = omega (
  arith,
  length-with_tags t ks,
  length-append (with_tags t ks ++ spaces k) hashtag,
  length-append (with_tags t ks) (spaces k),
)

with_tags_first : (c : ℕ) (t : Text) (ks : List ℕ) → with_tags (c ∷ t) ks ≡ c ∷ with_tags t ks
with_tags_first c t [] = refl
with_tags_first c t (k ∷ ks) = ap (λ u. (u ++ spaces k) ++ hashtag) (with_tags_first c t ks)

-- What is shown of a post whose cover has the hashtags behind it and spaces around.
strip_tag_shown :
    (c : ℕ) (t : Text) (a b k : ℕ) (ks : List ℕ)
    → trim (c ∷ t) ≡ c ∷ t
    → ends_with_tag (c ∷ t) ≡ false
    → strip_tag (spaces a ++ (c ∷ (with_tags t (k ∷ ks) ++ spaces b))) ≡ some (c ∷ t)
unfolding strip_tag
strip_tag_shown c t a b k ks trimmed untagged =
    let tags = with_tags t (k ∷ ks) in
    let shown = spaces a ++ (c ∷ (tags ++ spaces b)) in
    let whole : trim shown ≡ c ∷ tags =
      ap trim_end (trim_start-spaces a (c ∷ (tags ++ spaces b)))
      ∙ trim-spaces c tags (spaces b) (trim_end-spaces_only b)
          (trim-with_tags c t trimmed (k ∷ ks)) in
    let enough : length ks < length shown = omega (
      arith,
      length-append (spaces a) (c ∷ (tags ++ spaces b)),
      length-append tags (spaces b),
      length-with_tags t (k ∷ ks),
    ) in
    ap (λ r. if r.1 then some r.0 else none)
      (ap (λ u. strip_rounds (length shown) u false) whole
        ∙ strip_rounds_all c t trimmed untagged (length shown) k ks enough)

with_tags-append_tag :
    (cover : Text) (ks : List ℕ) → with_tags (append_tag cover) ks ≡ with_tags cover (ks ++ 1 ∷ [])
unfolding append_tag
with_tags-append_tag cover [] = sym (append_assoc cover (spaces 1) hashtag)
with_tags-append_tag cover (k ∷ ks) =
    ap (λ u. (u ++ spaces k) ++ hashtag) (with_tags-append_tag cover ks)

-- The text of a post with its hashtag gives back the cover text exactly, whatever further hashtags X puts
-- behind it, each after some spaces or none, and whatever spaces stand around. The cover is not empty, has
-- no space in front or behind, and does not end with the hashtag itself.
pub strip_tag-append_tag :
    (cover : Text) (before after : ℕ) (more : List ℕ)
    → cover ≢ []
    → trim cover ≡ cover
    → ends_with_tag cover ≡ false
    → strip_tag (spaces before ++ (with_tags (append_tag cover) more ++ spaces after)) ≡ some cover
strip_tag-append_tag [] before after more filled trimmed untagged = absurd (filled refl)
strip_tag-append_tag (c ∷ t) before after more filled trimmed untagged =
    ap (λ u. strip_tag (spaces before ++ (u ++ spaces after)))
      (with_tags-append_tag (c ∷ t) more ∙ with_tags_first c t (more ++ 1 ∷ []))
    ∙ split more
  where
    split :
        (ks : List ℕ)
        → strip_tag (spaces before ++ (c ∷ (with_tags t (ks ++ 1 ∷ []) ++ spaces after)))
          ≡ some (c ∷ t)
    split [] = strip_tag_shown c t before after 1 [] trimmed untagged
    split (k ∷ ks) = strip_tag_shown c t before after k (ks ++ 1 ∷ []) trimmed untagged
