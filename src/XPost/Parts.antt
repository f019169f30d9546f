-- ===== src/XPost/Parts.antt =====
-- The posts of a thread as a reader meets them, extension-x/src/content/index.ts.
use native.Mathlib.Nat.{zero-mul, one-mul}
use lortnoc_tahc.Base.{
  ℕ, zero, suc, ◌+◌, ◌*◌, ◌-◌, ◌≤◌, ◌<◌, ◌≡◌, ◌≢◌, refl, sym, ap, subst, ◌∙◌, inl, inr, Bool, true,
  false, Bool-cases, if_cases, Option, none, some, some_inj, List, [], ◌∷◌, map, append-nil, ltb,
  length, take, drop, take_enough, count_up, trim, Bytes, Text, arith,
}
use lortnoc_tahc.XFrame.{
  XMode, public_channel, shared, recipients, part_frame, XPart, parse_x_frame, append_tag,
}
use lortnoc_tahc.XFrame.Laws.{part_of, parse_x_frame-part_frame}
use lortnoc_tahc.XFrame.Tags.{ends_with_tag, strip_tag}
use lortnoc_tahc.XFrame.Stripping.{strip_tag-append_tag}
use lortnoc_tahc.XThread.{Thread, find_parts, offer}
use lortnoc_tahc.XThread.Whole.{offer_all, in_order, offer-in_order}
use lortnoc_tahc.XPost.{XWorld, tagged, cover_for}
use lortnoc_tahc.XPost.Reading.{
  bytes_of, XReader, XRead, nothing_shown, try_again, shown, thread_part, legible, open_cipher,
  on_part, on_frame, on_stripped, decode_cover, on_reply, on_mode, read_post, read_posts, read_text,
  read_part_text, on_offered,
}
use lortnoc_tahc.XPost.Posts.{AreCovers}

-- What is relied on of the codec: the reader's codec gives back the frame of a cover text, which is not
-- empty, has no space in front or behind, and does not end with the hashtag.
pub record CodecLaws (w : XWorld) (r : XReader) : Type 0 where
  pub answers : (frame cover : Bytes) → w.encode frame ≡ some cover → r.ask cover ≡ bytes_of frame
  pub filled : (frame cover : Bytes) → w.encode frame ≡ some cover → cover ≢ []
  pub trimmed : (frame cover : Bytes) → w.encode frame ≡ some cover → trim cover ≡ cover
  pub untagged : (frame cover : Bytes) → w.encode frame ≡ some cover → ends_with_tag cover ≡ false

abbrev pub text_of : XRead → Option Text
text_of nothing_shown = none
text_of try_again = none
text_of (shown text) = some text
text_of (thread_part tid total seq text failed) = text

-- A mode that `swap` uses.
abbrev pub IsUsed : XMode → Type 0
IsUsed public_channel = Unit
IsUsed recipients = Unit
IsUsed shared = ⊥

module _ (w : XWorld) (r : XReader) (codec : CodecLaws w r) where
  asked :
      (threads : List Thread) (frame : Bytes) (t : Text)
      → t ≢ []
      → r.ask t ≡ bytes_of frame
      → on_stripped r threads (some t) ≡ on_frame r threads (parse_x_frame frame)
  unfolding on_stripped decode_cover
  asked threads frame [] full e = absurd (full refl)
  asked threads frame (c ∷ t) full e = ap (on_reply r threads) e

  on_tagged :
      (threads : List Thread) (frame post : Bytes) (o : Option Text)
      → w.encode frame ≡ o
      → tagged w o ≡ some post
      → read_post r threads post ≡ on_frame r threads (parse_x_frame frame)
  unfolding read_post
  on_tagged threads frame post none made e = absurd cc
  on_tagged threads frame post (some cover) made e =
      ap (λ t. on_stripped r threads (strip_tag t))
        (sym (some_inj e) ∙ sym (append-nil (append_tag cover)))
      ∙ ap (on_stripped r threads) (
          strip_tag-append_tag cover 0 0 [] (codec.filled frame cover made)
            (codec.trimmed frame cover made) (codec.untagged frame cover made))
      ∙ asked threads frame cover (codec.filled frame cover made) (codec.answers frame cover made)

  -- A post is read as the frame that it covers.
  read_post-cover :
      (threads : List Thread) (frame post : Bytes)
      → cover_for w frame ≡ some post
      → read_post r threads post ≡ on_frame r threads (parse_x_frame frame)
  unfolding cover_for
  read_post-cover threads frame post e = on_tagged threads frame post (w.encode frame) refl e

  module _ (mode : XMode) (used : IsUsed mode) (cipher : Bytes) (squeezed : Bool)
      (chunk total : ℕ) where
    abbrev part : ℕ → XPart
    part = part_of mode cipher squeezed chunk total

    abbrev frame_at : ℕ → Bytes
    frame_at = part_frame mode cipher squeezed chunk total

    on_used :
        (m : XMode) (threads : List Thread) (p : XPart)
        → IsUsed m
        → on_mode r threads p m ≡ on_part r threads p
    unfolding on_mode
    on_used public_channel threads p u = refl
    on_used recipients threads p u = refl
    on_used shared threads p u = absurd u

    read_frame :
        (threads : List Thread) (i : ℕ) (post : Text)
        → i < total
        → total ≤ 16
        → cover_for w (frame_at i) ≡ some post
        → read_post r threads post ≡ on_part r threads (part i)
    unfolding on_frame
    read_frame threads i post inside few e =
        read_post-cover threads (frame_at i) post e
        ∙ ap (on_frame r threads)
            (parse_x_frame-part_frame mode cipher squeezed chunk total i inside few)
        ∙ on_used mode threads (part i) used

    collected :
        (threads : List Thread) (p : XPart)
        → p.threaded ≡ true
        → (on_part r threads p).0 ≡ (offer threads p).0
    unfolding on_part
    collected threads p t =
        if_cases (λ (x : List Thread × XRead). x.0 ≡ (offer threads p).0) p.threaded
          (λ _. either (offer threads p)) (λ f. absurd cc)
      where
        either : (o : List Thread × Option Bytes) → (on_offered r p o).0 ≡ o.0
        either (ts, none) = refl
        either (ts, some c) = refl

    -- The posts from an index on are read as their parts, one after the other.
    read_posts-covers :
        (many : ltb 1 total ≡ true) (n i : ℕ) (threads : List Thread) (posts : List Text)
        → i + n < total
        → total ≤ 16
        → AreCovers w (map frame_at (count_up i (suc n))) posts
        → read_posts r threads posts
          ≡ (on_part r
              (offer_all threads (in_order mode cipher squeezed chunk total many i n))
              (part (i + n))).1
    unfolding read_posts count_up offer_all
    read_posts-covers many zero i threads (post ∷ []) inside few h =
        ap (λ x. x.1) (read_frame threads i post (omega (arith, inside)) few h.0)
        ∙ ap (λ j. (on_part r threads (part j)).1) (omega arith)
    read_posts-covers many zero i threads (post ∷ next ∷ posts) inside few h = absurd h.1
    read_posts-covers many zero i threads [] inside few h = absurd h
    read_posts-covers many (suc n) i threads [] inside few h = absurd h
    read_posts-covers many (suc n) i threads (post ∷ []) inside few h = absurd h.1
    read_posts-covers many (suc n) i threads (post ∷ next ∷ posts) inside few h =
        ap (λ ts. read_posts r ts (next ∷ posts))
          (ap (λ x. x.0) (read_frame threads i post (omega (arith, inside)) few h.0)
            ∙ collected threads (part i) many)
        ∙ read_posts-covers many n (i + 1) (offer threads (part i)).0 (next ∷ posts)
            (omega (arith, inside)) few h.1
        ∙ ap
            (λ j.
              (on_part r
                (offer_all (offer threads (part i)).0
                  (in_order mode cipher squeezed chunk total many (i + 1) n))
                (part j)).1)
            (omega arith)

    module _ (real : Text) (opens : open_cipher r cipher mode squeezed ≡ legible real)
        (held : length cipher ≤ total * chunk) where
      -- The one post of a text.
      one_post :
          (threads : List Thread) → total ≡ 1 → text_of (on_part r threads (part 0)).1 ≡ some real
      unfolding on_part
      one_post threads single =
          if_cases (λ (x : List Thread × XRead). text_of x.1 ≡ some real) (ltb 1 total)
            (λ t. absurd (ground (arith, t, single)))
            (λ _.
              ap (λ c. text_of (read_text (open_cipher r c mode squeezed))) payload_whole
              ∙ ap (λ x. text_of (read_text x)) opens)
        where
          one_chunk : total * chunk ≡ chunk
          one_chunk = ap (λ n. n * chunk) single ∙ one-mul chunk

          payload_whole : take chunk (drop (0 * chunk) cipher) ≡ cipher
          payload_whole =
              ap (λ k. take chunk (drop k cipher)) (zero-mul chunk)
              ∙ take_enough chunk cipher (subst (λ n. length cipher ≤ n) one_chunk held)

      -- The last part of a thread.
      last_post :
          (many : ltb 1 total ≡ true) (n : ℕ)
          → total ≡ suc n
          → text_of
              (on_part r
                (offer_all [] (in_order mode cipher squeezed chunk total many 0 n))
                (part n)).1
            ≡ some real
      unfolding on_part find_parts
      last_post many n t =
          let threads = offer_all [] (in_order mode cipher squeezed chunk total many 0 n) in
          if_cases (λ (x : List Thread × XRead). text_of x.1 ≡ some real) (ltb 1 total)
            (λ _.
              offered (offer threads (part n))
                (offer-in_order mode cipher squeezed chunk total many [] n t held refl))
            (λ f. absurd (ground (arith, f, many)))
        where
          offered :
              (o : List Thread × Option Bytes)
              → o.1 ≡ some cipher
              → text_of (on_offered r (part n) o).1 ≡ some real
          offered (ts, none) e = absurd cc
          offered (ts, some c) e =
              ap (λ b. text_of (read_part_text (part n) (open_cipher r b mode squeezed)))
                (some_inj e)
              ∙ ap (λ x. text_of (read_part_text (part n) x)) opens

      pub all_posts :
          (posts : List Text)
          → 1 ≤ total
          → total ≤ 16
          → AreCovers w (map frame_at (count_up 0 total)) posts
          → text_of (read_posts r [] posts) ≡ some real
      unfolding count_up read_posts
      all_posts posts some_part few h = elim (Bool-cases (ltb 1 total)) [
        | inl many ↦
            let n = total - 1 in
            let t : total ≡ suc n = omega (arith, some_part) in
            ap text_of (
              read_posts-covers many n 0 [] posts (omega (arith, some_part)) few
                (subst (λ k. AreCovers w (map frame_at (count_up 0 k)) posts) t h)
              ∙ ap
                  (λ j.
                    (on_part r (offer_all [] (in_order mode cipher squeezed chunk total many 0 n))
                      (part j)).1)
                  (omega arith))
            ∙ last_post many n t
        | inr single ↦
            let t : total ≡ 1 = ground (arith, single, some_part) in
            only posts t (subst (λ k. AreCovers w (map frame_at (count_up 0 k)) posts) t h)
      ]
        where
          only :
              (ps : List Text)
              → total ≡ 1
              → AreCovers w (map frame_at (count_up 0 1)) ps
              → text_of (read_posts r [] ps) ≡ some real
          only [] t g = absurd g
          only (post ∷ []) t g =
              ap (λ x. text_of x.1) (read_frame [] 0 post (omega (arith, t)) few g.0)
              ∙ one_post [] t
          only (post ∷ next ∷ ps) t g = absurd g.1
