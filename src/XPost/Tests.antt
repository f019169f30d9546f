-- ===== src/XPost/Tests.antt =====
-- Posts of concrete texts, and the theorems applied to them.
use lortnoc_tahc.Base.{
  Bool, starts_with, ℕ, zero, suc, ◌≡◌, refl, none, some, Option, List, [], ◌∷◌, ◌++◌, length,
  count_up, Text, Bytes,
}
use lortnoc_tahc.Keys.{codes}
use lortnoc_tahc.Squeeze.{squeeze_if_smaller, squeeze, by_length}
use lortnoc_tahc.Squeeze.Utf8.{encode_unit, basic, encode_text}
use lortnoc_tahc.Envelope.Tests.{toy}
use lortnoc_tahc.XFrame.{XMode, part_frame, build_x_frames, append_tag}
use lortnoc_tahc.XPost.{
  XWorld, cover_for, cover_next, cover_all, split_once, split, after_first, post_frames,
  post_cipher, post_squeezed, encrypt_for, swap,
}
use lortnoc_tahc.XPost.Posts.{ArePosts, swap_posts}

abbrev repeat : ℕ → List ℕ → List ℕ
repeat zero t = []
repeat (suc n) t = t ++ repeat n t

-- Ten characters a byte, and no handle has a key.
abbrev codec : List Text → XWorld
codec handles = record {
  build = record {
    crypto = record toy { siv_encrypt = λ key m. m; siv_decrypt = λ key m. some m };
    table = codes " the " ∷ [];
  };
  configured = handles;
  resolve = λ h. none;
  ephemeral = 5 ∷ [];
  seed = 7 ∷ [];
  encode = λ f. some (repeat (length f) (codes "a cover te"));
}

abbrev short : Text
short = codes "meet at 8"

abbrev short_post : Text
short_post = append_tag (repeat 11 (codes "a cover te"))

short_posts : swap (codec []) short ≡ some (short_post ∷ [])
unfolding encode_unit basic encode_text swap post_squeezed squeeze_if_smaller squeeze by_length
    starts_with post_cipher encrypt_for post_frames build_x_frames part_frame count_up after_first
    cover_for append_tag
short_posts = refl

-- Forty bytes need three posts.
abbrev long : Text
long = repeat 4 (codes "0123456789")

abbrev numbers : List Text → List ℕ
numbers [] = []
numbers (t ∷ ts) = length t ∷ numbers ts

abbrev lengths_of : Option (List Text) → List ℕ
lengths_of none = []
lengths_of (some ts) = numbers ts

long_posts : lengths_of (swap (codec []) long) ≡ 213 ∷ 213 ∷ 133 ∷ []
unfolding encode_unit basic encode_text swap post_squeezed squeeze_if_smaller squeeze by_length
    starts_with post_cipher encrypt_for post_frames build_x_frames part_frame count_up after_first
    cover_for append_tag split split_once cover_all cover_next
long_posts = refl

swap_posts_example :
    (sent : Bytes × Bool) × (squeeze_if_smaller (codes " the " ∷ []) short ≡ some sent)
    × ((mode : XMode) × (cipher : Bytes) × (encrypt_for (codec []) [] sent.0 ≡ some (mode, cipher))
        × ArePosts (codec []) mode cipher sent.1 (short_post ∷ []))
swap_posts_example = swap_posts (codec []) short (short_post ∷ []) short_posts
