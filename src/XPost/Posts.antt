-- ===== src/XPost/Posts.antt =====
-- What `swap` publishes.
use lortnoc_tahc.Base.{
  ltb_not, ℕ, zero, suc, ◌+◌, ◌≤◌, ◌≡◌, refl, ap, subst, Bool, Option, none, some, List, [], ◌∷◌,
  if_cases, ltb, leb, length, All, Bytes, Text, arith,
}
use lortnoc_tahc.XFrame.{XMode, max_parts, ceil_div, build_x_frames}
use lortnoc_tahc.Squeeze.{squeeze_if_smaller}
use lortnoc_tahc.XPost.{
  XWorld, post_limit, cover_for, Covers, refused, overflow, fitted, cover_next, cover_all,
  cover_frames, chunk_for, split_once, or_retry, split, max_attempts, after_first, post_frames,
  post_cipher, post_squeezed, encrypt_for, swap,
}
use lortnoc_tahc.XFrame.Count.{AtMost16, build_x_frames-AtMost16, IsOne, build_x_frames-IsOne}

module _ (w : XWorld) where
  -- Each post is the cover text of its frame.
  abbrev pub AreCovers : List Bytes → List Text → Type 0
  AreCovers [] [] = Unit
  AreCovers (f ∷ fs) (c ∷ cs) = (cover_for w f ≡ some c) × AreCovers fs cs
  AreCovers _ _ = ⊥

  abbrev pub Fits : Text → Type 0
  Fits post = length post ≤ post_limit

  abbrev AllCovered : List Bytes → Covers w → Type 0
  AllCovered fs (fitted cs) = AreCovers fs cs × All Fits cs × (length cs ≡ length fs)
  AllCovered fs _ = Unit

  AllCovered-next :
      (f : Bytes) (fs : List Bytes) (c : Option Text) (rest : Covers w)
      → cover_for w f ≡ c
      → AllCovered fs rest
      → AllCovered (f ∷ fs) (cover_next w c rest)
  unfolding cover_next
  AllCovered-next f fs none rest e h = tt
  AllCovered-next f fs (some c) refused e h =
      if_cases (AllCovered (f ∷ fs)) (ltb post_limit (length c)) (λ _. tt) (λ _. tt)
  AllCovered-next f fs (some c) overflow e h =
      if_cases (AllCovered (f ∷ fs)) (ltb post_limit (length c)) (λ _. tt) (λ _. tt)
  AllCovered-next f fs (some c) (fitted cs) e (a, b, n) =
      if_cases (AllCovered (f ∷ fs)) (ltb post_limit (length c)) (λ _. tt)
        (λ l. ((e, a), (ltb_not post_limit (length c) l, b), ap suc n))

  cover_all-AllCovered : (fs : List Bytes) → AllCovered fs (cover_all w fs)
  unfolding cover_all
  cover_all-AllCovered [] = (tt, tt, refl)
  cover_all-AllCovered (f ∷ fs) =
      AllCovered-next f fs (cover_for w f) (cover_all w fs) refl (cover_all-AllCovered fs)

  -- The posts are the covers of the frames of one ciphertext, each within the limit, at most sixteen.
  abbrev pub ArePosts : XMode → Bytes → Bool → List Text → Type 0
  ArePosts mode cipher squeezed posts =
      ((chunk : Option ℕ) × (frames : List Bytes) × (build_x_frames mode cipher squeezed chunk
          ≡ some frames)
        × AreCovers frames posts)
      × All Fits posts
      × (length posts ≤ 16)

  abbrev IfPosts : XMode → Bytes → Bool → Option (List Text) → Type 0
  IfPosts mode cipher squeezed none = Unit
  IfPosts mode cipher squeezed (some posts) = ArePosts mode cipher squeezed posts

  abbrev IfFitted : XMode → Bytes → Bool → Covers w → Type 0
  IfFitted mode cipher squeezed (fitted posts) = ArePosts mode cipher squeezed posts
  IfFitted mode cipher squeezed _ = Unit

  covers_built :
      (mode : XMode) (cipher : Bytes) (squeezed : Bool) (chunk : Option ℕ) (frames : List Bytes)
      (cs : Covers w)
      → build_x_frames mode cipher squeezed chunk ≡ some frames
      → length frames ≤ 16
      → AllCovered frames cs
      → IfFitted mode cipher squeezed cs
  covers_built mode cipher squeezed chunk frames refused e n h = tt
  covers_built mode cipher squeezed chunk frames overflow e n h = tt
  covers_built mode cipher squeezed chunk frames (fitted posts) e n (a, b, l) =
      ((chunk, frames, e, a), b, omega arith)

  cover_frames-IfFitted :
      (mode : XMode) (cipher : Bytes) (squeezed : Bool) (chunk : Option ℕ) (o : Option (List Bytes))
      → build_x_frames mode cipher squeezed chunk ≡ o
      → AtMost16 o
      → IfFitted mode cipher squeezed (cover_frames w o)
  cover_frames-IfFitted mode cipher squeezed chunk none e n = tt
  cover_frames-IfFitted mode cipher squeezed chunk (some frames) e n =
      covers_built mode cipher squeezed chunk frames (cover_all w frames) e n
        (cover_all-AllCovered frames)

  split_once-IfFitted :
      (mode : XMode) (cipher : Bytes) (squeezed : Bool) (chunk : ℕ)
      → IfFitted mode cipher squeezed (split_once w mode cipher squeezed chunk)
  unfolding split_once
  split_once-IfFitted mode cipher squeezed chunk =
      if_cases (IfFitted mode cipher squeezed) (ltb max_parts (ceil_div (length cipher) chunk))
        (λ _. tt)
        (λ _.
          cover_frames-IfFitted mode cipher squeezed (some chunk) _ refl
            (build_x_frames-AtMost16 mode cipher squeezed (some chunk)))

  or_retry-IfPosts :
      (mode : XMode) (cipher : Bytes) (squeezed : Bool) (cs : Covers w) (rest : Option (List Text))
      → IfFitted mode cipher squeezed cs
      → IfPosts mode cipher squeezed rest
      → IfPosts mode cipher squeezed (or_retry w cs rest)
  or_retry-IfPosts mode cipher squeezed refused rest h k = tt
  or_retry-IfPosts mode cipher squeezed overflow rest h k = k
  or_retry-IfPosts mode cipher squeezed (fitted posts) rest h k = h

  split-IfPosts :
      (n attempt : ℕ) (mode : XMode) (cipher : Bytes) (squeezed : Bool) (chars frame_bytes : ℕ)
      → IfPosts mode cipher squeezed (split w n attempt mode cipher squeezed chars frame_bytes)
  unfolding split
  split-IfPosts zero attempt mode cipher squeezed chars frame_bytes = tt
  split-IfPosts (suc n) attempt mode cipher squeezed chars frame_bytes =
      or_retry-IfPosts mode cipher squeezed _ _
        (split_once-IfFitted mode cipher squeezed (chunk_for attempt chars frame_bytes))
        (split-IfPosts n (attempt + 1) mode cipher squeezed chars frame_bytes)

  after_first-IfPosts :
      (mode : XMode) (cipher : Bytes) (squeezed : Bool) (single : Bytes) (c : Option Text)
      → build_x_frames mode cipher squeezed none ≡ some (single ∷ [])
      → cover_for w single ≡ c
      → IfPosts mode cipher squeezed (after_first w mode cipher squeezed single c)
  unfolding after_first
  after_first-IfPosts mode cipher squeezed single none e h = tt
  after_first-IfPosts mode cipher squeezed single (some cover) e h =
      if_cases (IfPosts mode cipher squeezed) (leb (length cover) post_limit)
        (λ l. ((none, single ∷ [], e, (h, tt)), (ground arith, tt), omega arith))
        (λ _. split-IfPosts max_attempts 0 mode cipher squeezed (length cover) (length single))

  post_frames-IfPosts :
      (mode : XMode) (cipher : Bytes) (squeezed : Bool) (o : Option (List Bytes))
      → build_x_frames mode cipher squeezed none ≡ o
      → IsOne o
      → IfPosts mode cipher squeezed (post_frames w mode cipher squeezed o)
  unfolding post_frames
  post_frames-IfPosts mode cipher squeezed none e h = tt
  post_frames-IfPosts mode cipher squeezed (some []) e h = tt
  post_frames-IfPosts mode cipher squeezed (some (single ∷ [])) e h =
      after_first-IfPosts mode cipher squeezed single (cover_for w single) e refl
  post_frames-IfPosts mode cipher squeezed (some (single ∷ f ∷ fs)) e h = absurd (omega arith)

  post_cipher-posts :
      (squeezed : Bool) (o : Option (XMode × Bytes)) (posts : List Text)
      → post_cipher w squeezed o ≡ some posts
      → (mode : XMode) × (cipher : Bytes) × (o ≡ some (mode, cipher))
        × ArePosts mode cipher squeezed posts
  unfolding post_cipher
  post_cipher-posts squeezed none posts e = cc
  post_cipher-posts squeezed (some (mode, cipher)) posts e = (
    mode,
    cipher,
    refl,
    subst (IfPosts mode cipher squeezed) e (
        post_frames-IfPosts mode cipher squeezed _ refl
          (build_x_frames-IsOne mode cipher squeezed)),
  )

  squeezed_posts :
      (o : Option (Bytes × Bool)) (posts : List Text)
      → post_squeezed w o ≡ some posts
      → (sent : Bytes × Bool) × (o ≡ some sent)
        × ((mode : XMode) × (cipher : Bytes) × (encrypt_for w w.configured sent.0
              ≡ some (mode, cipher))
            × ArePosts mode cipher sent.1 posts)
  unfolding post_squeezed
  squeezed_posts none posts e = cc
  squeezed_posts (some sent) posts e = (sent, refl, post_cipher-posts _ _ posts e)

  -- Whatever is published for a text: the text was squeezed and encrypted once, for the recipients if any
  -- are set, and the posts are, in order, the cover texts with the hashtag of all the frames of that one
  -- ciphertext, each of 280 characters or less, and there are at most sixteen.
  pub swap_posts :
      (real : Text) (posts : List Text)
      → swap w real ≡ some posts
      → (sent : Bytes × Bool) × (squeeze_if_smaller w.build.table real ≡ some sent)
        × ((mode : XMode) × (cipher : Bytes) × (encrypt_for w w.configured sent.0
              ≡ some (mode, cipher))
            × ArePosts mode cipher sent.1 posts)
  unfolding swap
  swap_posts real posts e = squeezed_posts (squeeze_if_smaller w.build.table real) posts e
