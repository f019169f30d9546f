-- ===== src/XPost/ReadTests.antt =====
-- A thread of two posts, and the theorem applied to it. A character of the toy codec's cover texts is a
-- number over all that are a space or in the hashtag.
use lortnoc_tahc.Base.{
  xor, inr, if◌then◌else◌, ◌==◌, ℕ, zero, suc, ◌+◌, ◌-◌, ◌≤◌, ◌≡◌, ◌≢◌, refl, sym, ap, subst, ◌∙◌,
  false, Option, none, some, some_inj, List, [], ◌∷◌, ◌++◌, map, length, drop, list_eq, All,
  All-drop, trim, trim_end, cons_trimmed, trim-append, Text, Bytes, arith, is_space, includes,
  starts_with, count_up,
}
use lortnoc_tahc.Keys.{KeyPair, codes, derive_conv_key}
use lortnoc_tahc.Keys.Tests.{fit, length-fit}
use lortnoc_tahc.Envelope.{derive_content_key, derive_wrap_mask, seal_for, all_keys}
use lortnoc_tahc.Squeeze.Utf8.{encode_unit, basic, encode_text}
use lortnoc_tahc.Envelope.Tests.{toy, toy_laws, toy_siv}
use lortnoc_tahc.Squeeze.{squeeze_if_smaller, squeeze, by_length}
use lortnoc_tahc.Squeeze.Characters.{IsPlain}
use lortnoc_tahc.Squeeze.Tests.{is_plain, all_plain, all_plain-IsPlain}
use lortnoc_tahc.XFrame.{hashtag, part_frame, build_x_frames, append_tag}
use lortnoc_tahc.XFrame.Tags.{lower_case, ends_with_tag}
use lortnoc_tahc.XPost.{
  XBuild, post_squeezed, XWorld, cover_for, cover_next, cover_all, split_once, split, after_first,
  post_frames, post_cipher, encrypt_for, sealed_for, resolve_recipients, add_key, swap,
}
use lortnoc_tahc.XPost.Reading.{
  XReader, not_decoded, bytes_of, nothing_shown, try_again, decode_cover, read_posts,
}
use lortnoc_tahc.XPost.Parts.{CodecLaws, text_of}
use lortnoc_tahc.XPost.Arrives.{IsReader, read_posts-swap}

abbrev letter : ℕ → ℕ
letter b = b + 70000

abbrev cover_of : Bytes → Text
cover_of f = letter 0 ∷ map letter (f ++ 0 ∷ [])

abbrev unletter : ℕ → ℕ
unletter c = c - 70000

abbrev but_last : Bytes → Bytes
but_last [] = []
but_last (b ∷ []) = []
but_last (b ∷ c ∷ bs) = b ∷ but_last (c ∷ bs)

abbrev build : XBuild
build = record { crypto = toy; table = codes " the " ∷ [] }

abbrev alice : KeyPair
alice = record { private = 2 ∷ []; public = toy.public_key (2 ∷ []) }

abbrev author : XWorld
author = record {
  build = build;
  configured = codes "bob" ∷ codes "alice" ∷ [];
  resolve = λ h. some (toy.public_key (if length h == 3 then 1 ∷ [] else 2 ∷ []));
  ephemeral = 5 ∷ [];
  seed = fit 16 (7 ∷ 8 ∷ []);
  encode = λ f. some (cover_of f);
}

abbrev reader : XReader
reader = record {
  build = build;
  ask = λ t. bytes_of (but_last (drop 1 (map unletter t)));
  identity = some alice;
}

IsLetter : ℕ → Type 0
IsLetter c = 70000 ≤ c

letters : (f : Bytes) → All IsLetter (map letter f)
unfolding IsLetter
letters [] = tt
letters (b ∷ f) = (omega arith, letters f)

unlettered : (f : Bytes) → map unletter (map letter f) ≡ f
unlettered [] = refl
unlettered (b ∷ f) = rw (unlettered f) (ap (λ x. x ∷ f) (omega arith))

but_last-append : (f : Bytes) (b : ℕ) → but_last (f ++ b ∷ []) ≡ f
but_last-append [] b = refl
but_last-append (c ∷ []) b = refl
but_last-append (c ∷ d ∷ f) b = ap (◌∷◌ c) (but_last-append (d ∷ f) b)

no_tag : (t : Text) → All IsLetter t → list_eq (map lower_case t) hashtag ≡ false
unfolding list_eq IsLetter
no_tag [] h = refl
no_tag (c ∷ t) h = ground (arith, h.0)

map-append : (f g : Bytes) → map letter (f ++ g) ≡ map letter f ++ map letter g
map-append [] g = refl
map-append (b ∷ f) g = ap (◌∷◌ (letter b)) (map-append f g)

codec_laws : CodecLaws author reader
unfolding ends_with_tag is_space trim_end cons_trimmed
codec_laws = record {
  answers = λ f t e.
      subst (λ u. reader.ask u ≡ bytes_of f) (some_inj e)
        (ap (λ u. bytes_of (but_last u)) (unlettered (f ++ 0 ∷ []))
          ∙ ap bytes_of (but_last-append f 0));
  filled = λ f t e. subst (λ u. u ≢ []) (some_inj e) (λ n. cc);
  trimmed = λ f t e.
      subst (λ u. trim u ≡ u) (some_inj e)
        (subst (λ u. trim (letter 0 ∷ u) ≡ letter 0 ∷ u) (sym (map-append f (0 ∷ [])))
          (trim-append (letter 0) (map letter f) [] (letter 0) refl refl));
  untagged = λ f t e.
      subst (λ u. ends_with_tag u ≡ false) (some_inj e)
        (no_tag (drop (length (cover_of f) - 12) (cover_of f)) (
          All-drop IsLetter (length (cover_of f) - 12) (cover_of f) (letters (0 ∷ (f ++ 0 ∷ [])))));
}

named : IsReader author reader
unfolding resolve_recipients add_key
named = record {
  same_build = refl;
  named = inr (alice, refl, (refl, (toy.public_key (1 ∷ []) ∷ [], [], refl)));
}

abbrev repeat : ℕ → List ℕ → List ℕ
repeat zero t = []
repeat (suc n) t = t ++ repeat n t

abbrev long : Text
long = repeat 20 (codes "0123456789")

abbrev posts_or_none : Option (List Text) → List Text
posts_or_none none = []
posts_or_none (some posts) = posts

abbrev posts : List Text
posts = posts_or_none (swap author long)

two_posts : length posts ≡ 2
unfolding xor derive_content_key derive_wrap_mask derive_conv_key encode_unit basic encode_text swap
    post_squeezed squeeze_if_smaller squeeze by_length starts_with seal_for all_keys post_cipher
    encrypt_for sealed_for resolve_recipients add_key post_frames build_x_frames part_frame count_up
    after_first cover_for append_tag split split_once cover_all cover_next
two_posts = refl

published : swap author long ≡ some posts
unfolding xor derive_content_key derive_wrap_mask derive_conv_key encode_unit basic encode_text swap
    post_squeezed squeeze_if_smaller squeeze by_length starts_with seal_for all_keys post_cipher
    encrypt_for sealed_for resolve_recipients add_key post_frames build_x_frames part_frame count_up
    after_first cover_for append_tag split split_once cover_all cover_next
published = refl

unavailable :
    (decode_cover (record reader { ask = λ t. not_decoded (codes "http 503") }) [] []).1 ≡ try_again
unfolding decode_cover includes starts_with
unavailable = refl

not_cover :
    (decode_cover (record reader { ask = λ t. not_decoded (codes "decode 422") }) [] []).1
    ≡ nothing_shown
unfolding decode_cover includes starts_with
not_cover = refl

long-IsPlain : All IsPlain long
unfolding all_plain is_plain
long-IsPlain = all_plain-IsPlain long refl

read_posts-swap_example : text_of (read_posts reader [] posts) ≡ some long
read_posts-swap_example =
    read_posts-swap author reader codec_laws named toy_laws toy_siv (omega arith, tt)
      (length-fit 16 (7 ∷ 8 ∷ [])) long posts long-IsPlain published
