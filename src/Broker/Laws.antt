-- ===== src/Broker/Laws.antt =====
-- What a codec's answer becomes in the content script.
use lortnoc_tahc.Base.{
  ℕ, ◌<◌, ◌≡◌, refl, Bool, true, false, not, Option, none, some, [], ◌∷◌, ◌++◌, if◌then◌else◌, ◌==◌,
  includes, passes_under, passes_under_lem, Text, arith,
}
use lortnoc_tahc.Keys.{Crypto, codes}
use lortnoc_tahc.Connect.{World, Content, not_ours, retry, on_decode}
use lortnoc_tahc.Broker.{
  answered, status_text, strip_slashes, codec_base, cons_stripped, default_codec_url, is_ok,
  handle_decode,
}

abbrev same : Bool → Bool → Bool
same true b = b
same false b = not b

-- Among the statuses of three digits only 422 puts "422" into the error.
status_table :
    passes_under
      (λ n. same (includes (codes "422") (codes "decode " ++ status_text n)) (n == 422))
      1000
    ≡ true
unfolding passes_under includes
status_table = refl

includes_422 :
    (n : ℕ) → n < 1000 → includes (codes "422") (codes "decode " ++ status_text n) ≡ (n == 422)
includes_422 n h = agree _ _ (passes_under_lem _ 1000 n h status_table)
  where
    agree : (a b : Bool) → same a b ≡ true → a ≡ b
    agree true true e = refl
    agree false false e = refl
    agree true false e = cc
    agree false true e = cc

-- A codec's answer with a status below 1000 that is not OK changes nothing, and it is a final "not
-- ours" exactly for 422; every other such status is asked again.
pub on_decode-handle_decode :
    (c : Crypto) (w : World) (s : Content) (status : ℕ) (body : Text) (from_history : Bool)
    → status < 1000
    → is_ok status ≡ false
    → on_decode c w s (handle_decode (answered status body)) from_history
      ≡ (s, [], if status == 422 then not_ours else retry)
unfolding on_decode handle_decode
on_decode-handle_decode c w s status body old h bad =
    rw (bad, handle_decode, on_decode, includes_422 status h)

abbrev pub ends_in_slash : Text → Bool
ends_in_slash [] = false
ends_in_slash (c ∷ []) = c == b'/'
ends_in_slash (c ∷ d ∷ t) = ends_in_slash (d ∷ t)

cons_stripped-ends :
    (c : ℕ) (t : Text) → ends_in_slash t ≡ false → ends_in_slash (cons_stripped c t) ≡ false
unfolding cons_stripped
cons_stripped-ends c [] h = ground arith
cons_stripped-ends c (d ∷ u) h = h

strip_slashes-ends : (t : Text) → ends_in_slash (strip_slashes t) ≡ false
unfolding strip_slashes
strip_slashes-ends [] = refl
strip_slashes-ends (c ∷ t) = cons_stripped-ends c (strip_slashes t) (strip_slashes-ends t)

cons_stripped-keeps : (c : ℕ) (t : Text) → ends_in_slash (c ∷ t) ≡ false → cons_stripped c t ≡ c ∷ t
unfolding cons_stripped
cons_stripped-keeps c [] h = ground arith
cons_stripped-keeps c (d ∷ u) h = refl

strip_slashes-keeps : (t : Text) → ends_in_slash t ≡ false → strip_slashes t ≡ t
unfolding strip_slashes
strip_slashes-keeps [] h = refl
strip_slashes-keeps (c ∷ []) h = cons_stripped-keeps c [] h
strip_slashes-keeps (c ∷ d ∷ t) h =
    rw (strip_slashes-keeps (d ∷ t) h) (cons_stripped-keeps c (d ∷ t) h)

-- The base never ends in a slash, so that a path can be put behind it.
pub codec_base-ends_in_slash : (url : Option Text) → ends_in_slash (codec_base url) ≡ false
unfolding codec_base
codec_base-ends_in_slash none = strip_slashes-ends default_codec_url
codec_base-ends_in_slash (some []) = strip_slashes-ends default_codec_url
codec_base-ends_in_slash (some (c ∷ t)) = strip_slashes-ends (c ∷ t)

-- A url that is set and does not end in a slash is the base as it is.
codec_base_kept :
    (c : ℕ) (t : Text) → ends_in_slash (c ∷ t) ≡ false → codec_base (some (c ∷ t)) ≡ c ∷ t
unfolding codec_base
codec_base_kept c t h = strip_slashes-keeps (c ∷ t) h
