-- ===== src/XPost/Arrives.antt =====
-- What is published for a text arrives with its readers: extension-x/src/content/index.ts, both ways, over
-- shared/squeeze.mjs, shared/envelope.mjs and shared/xframe.mjs.
use lortnoc_tahc.Base.{
  ◌≡◌, refl, sym, ap, subst, ◌∙◌, ◌⊎◌, inl, inr, Bool, Option, none, some, some_inj, List, [], ◌∷◌,
  ◌++◌, length, All, Bytes, Text,
}
use lortnoc_tahc.Keys.{Crypto, CryptoLaws, KeyPair}
use lortnoc_tahc.Squeeze.{unsqueeze_maybe}
use lortnoc_tahc.Squeeze.Characters.{IsPlain}
use lortnoc_tahc.Squeeze.Entries.{IsTable}
use lortnoc_tahc.Squeeze.RoundTrip.{unsqueeze_maybe-squeeze_if_smaller}
use lortnoc_tahc.Envelope.{SivLaws, seal_for, open_sealed}
use lortnoc_tahc.Envelope.Opening.{open_sealed-seal_for}
use lortnoc_tahc.XFrame.{XMode, recipients}
use lortnoc_tahc.XPost.{
  XWorld, derive_public_channel_key, resolve_recipients, with_mode, sealed_for, encrypt_for, swap,
}
use lortnoc_tahc.XPost.Reading.{
  text_or_illegible, XReader, legible, open_plain, open_as, open_public, open_cipher, read_posts,
}
use lortnoc_tahc.XPost.Parts.{CodecLaws, text_of, IsUsed, all_posts}
use lortnoc_tahc.XPost.Built.{build_x_frames-AreFrames}
use lortnoc_tahc.XPost.Posts.{AreCovers, swap_posts}

-- The public key of this pair is its own, and one of those that are named.
abbrev IsAmong : Crypto → KeyPair → List Bytes → Type 0
IsAmong c me pubs =
    (c.public_key me.private ≡ me.public)
    × ((before : List Bytes) × (after : List Bytes) × (pubs ≡ before ++ me.public ∷ after))

-- A reader with the same build, for whom a post with recipients is meant: their identity is unlocked and is
-- one that the author's recipients resolve to.
pub record IsReader (w : XWorld) (r : XReader) : Type 0 where
  pub same_build : r.build ≡ w.build
  pub named :
      (w.configured ≡ [])
      ⊎ ((me : KeyPair) × (r.identity ≡ some me)
          × IsAmong w.build.crypto me (resolve_recipients w w.configured).0)

module _ (w : XWorld) (r : XReader) (laws : CryptoLaws w.build.crypto)
    (siv : SivLaws w.build.crypto) (sized : length w.seed ≡ 16)
    (same_build : r.build ≡ w.build) where
  module _ (real : Text) (bytes : Bytes) (squeezed : Bool)
      (back : unsqueeze_maybe w.build.table bytes squeezed ≡ some real) where
    -- The mode is one that is used, and the reader opens the ciphertext to the text.
    abbrev IsLegible : XMode × Bytes → Type 0
    IsLegible x = IsUsed x.0 × (open_cipher r x.1 x.0 squeezed ≡ legible real)

    opened_plain :
        (o : Option Bytes) → o ≡ some bytes → open_plain w.build o squeezed ≡ legible real
    opened_plain o e = ap (λ p. open_plain w.build p squeezed) e ∙ ap text_or_illegible back

    public-IsLegible : (out : XMode × Bytes) → encrypt_for w [] bytes ≡ some out → IsLegible out
    unfolding encrypt_for open_cipher
    public-IsLegible out e = subst IsLegible (some_inj e) (
      tt,
      ap (λ b. open_public b (encrypted) squeezed) same_build
          ∙ opened_plain _ (laws.opens (derive_public_channel_key w.build.crypto) bytes),
    )
      where
        encrypted : Bytes
        encrypted = w.build.crypto.siv_encrypt (derive_public_channel_key w.build.crypto) bytes

    sealed-IsLegible :
        (o : Option Bytes) (out : XMode × Bytes) (me : KeyPair) (pubs : List Bytes)
        → seal_for w.build.crypto w.ephemeral w.seed pubs bytes ≡ o
        → with_mode w recipients o ≡ some out
        → r.identity ≡ some me
        → IsAmong w.build.crypto me pubs
        → IsLegible out
    unfolding open_cipher
    sealed-IsLegible none out me pubs made e unlocked among = absurd cc
    sealed-IsLegible (some cipher) out me pubs made e unlocked (own, (before, after, found)) =
        subst IsLegible (some_inj e) (
          tt,
          ap (λ b. open_as b r.identity cipher squeezed) same_build
              ∙ ap (λ i. open_as w.build i cipher squeezed) unlocked
              ∙ opened_plain _ own_opens,
        )
      where
        own_seals :
            seal_for w.build.crypto w.ephemeral w.seed
              (before ++ w.build.crypto.public_key me.private ∷ after)
              bytes
            ≡ some cipher
        own_seals =
            subst (λ ps. seal_for w.build.crypto w.ephemeral w.seed ps bytes ≡ some cipher)
              (found ∙ ap (λ k. before ++ k ∷ after) (sym own)) made

        own_opens : open_sealed w.build.crypto me.private me.public cipher ≡ some bytes
        own_opens =
            subst (λ k. open_sealed w.build.crypto me.private k cipher ≡ some bytes) own
              (open_sealed-seal_for w.build.crypto laws siv w.ephemeral w.seed bytes cipher
                me.private before after sized own_seals)

    sealed_for-IsLegible :
        (pubs : List Bytes) (missing : List Text) (out : XMode × Bytes) (me : KeyPair)
        → sealed_for w pubs missing bytes ≡ some out
        → r.identity ≡ some me
        → IsAmong w.build.crypto me pubs
        → IsLegible out
    unfolding sealed_for
    sealed_for-IsLegible pubs (h ∷ hs) out me e unlocked among = absurd cc
    sealed_for-IsLegible pubs [] out me e unlocked among =
        sealed-IsLegible (seal_for w.build.crypto w.ephemeral w.seed pubs bytes) out me pubs refl e
          unlocked among

    encrypt_for-IsLegible :
        (handles : List Text) (out : XMode × Bytes)
        → (handles ≡ [])
          ⊎ ((me : KeyPair) × (r.identity ≡ some me)
              × IsAmong w.build.crypto me (resolve_recipients w handles).0)
        → encrypt_for w handles bytes ≡ some out
        → IsLegible out
    unfolding encrypt_for
    encrypt_for-IsLegible [] out named e = public-IsLegible out e
    encrypt_for-IsLegible (h ∷ hs) out (inl none_set) e = absurd cc
    encrypt_for-IsLegible (h ∷ hs) out (inr (me, unlocked, among)) e =
        let found = resolve_recipients w (h ∷ hs) in
        sealed_for-IsLegible found.0 found.1 out me e unlocked among

-- What is published for a text arrives: a reader who goes through the posts in order, from the first on and
-- with no thread begun, is shown that text at the last, through squeezing, encryption, the envelope, the
-- frames and the hashtag and back. The reader's codec gives back the frame of a cover text, and a cover text
-- is trimmed, not empty and without the hashtag; the reader has the same build and, if recipients are set, is
-- one of them, with their identity unlocked; the text consists of characters of the basic plane without the
-- byte order mark, and the table's fragments are not empty; the seed has its size, and the cryptography keeps
-- its documented laws.
pub read_posts-swap :
    (w : XWorld) (r : XReader)
    → CodecLaws w r
    → IsReader w r
    → CryptoLaws w.build.crypto
    → SivLaws w.build.crypto
    → IsTable w.build.table
    → length w.seed ≡ 16
    → (real : Text) (posts : List Text) → All IsPlain real
    → swap w real ≡ some posts
    → text_of (read_posts r [] posts) ≡ some real
read_posts-swap w r codec reader laws siv filled sized real posts plain made =
    let (sent, squeezed, (mode, cipher, encrypted, ((chunk, frames, built, covers), fit, few))) =
      swap_posts w real posts made in
    let back = unsqueeze_maybe-squeeze_if_smaller w.build.table filled real plain in
    let same_sent : back.0 ≡ sent = some_inj (sym back.1 ∙ squeezed) in
    let (part_size, total, (same, some_part, at_most, held)) =
      build_x_frames-AreFrames mode cipher sent.1 chunk frames built in
    let readable =
      encrypt_for-IsLegible w r laws siv sized reader.same_build real sent.0 sent.1
        (subst (λ x. unsqueeze_maybe w.build.table x.0 x.1 ≡ some real) same_sent back.2)
        w.configured (mode, cipher) reader.named encrypted in
    all_posts w r codec mode readable.0 cipher sent.1 part_size total real readable.1 held posts
      some_part at_most (subst (λ fs. AreCovers w fs posts) (sym same) covers)
