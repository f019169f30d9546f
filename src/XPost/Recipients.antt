-- ===== src/XPost/Recipients.antt =====
-- A recipient without a key stops the post.
use lortnoc_tahc.Squeeze.{squeeze_if_smaller}
use lortnoc_tahc.Base.{
  Bool, ◌≡◌, ◌≢◌, refl, ap, ◌∙◌, Option, none, some, List, [], ◌∷◌, ◌++◌, Bytes, Text,
}
use lortnoc_tahc.XPost.{
  XWorld, add_key, resolve_recipients, post_cipher, post_squeezed, sealed_for, encrypt_for, swap,
}

module _ (w : XWorld) where
  -- A handle without a key is missing.
  missing_here :
      (h : Text) (rest : List Bytes × List Text)
      → w.resolve h ≡ none
      → (add_key w h (w.resolve h) rest).1 ≢ []
  unfolding add_key
  missing_here h rest n e = cc (rw (n, add_key) at e)

  missing_there :
      (h : Text) (key : Option Bytes) (rest : List Bytes × List Text)
      → rest.1 ≢ []
      → (add_key w h key rest).1 ≢ []
  unfolding add_key
  missing_there h none rest m e = cc
  missing_there h (some key) rest m e = m e

  missing_found :
      (before : List Text) (h : Text) (after : List Text)
      → w.resolve h ≡ none
      → (resolve_recipients w (before ++ (h ∷ after))).1 ≢ []
  unfolding resolve_recipients
  missing_found [] h after n = missing_here h (resolve_recipients w after) n
  missing_found (b ∷ before) h after n =
      missing_there b (w.resolve b) (resolve_recipients w (before ++ (h ∷ after)))
        (missing_found before h after n)

  sealed_for_missing :
      (pubs : List Bytes) (missing : List Text) (bytes : Bytes)
      → missing ≢ []
      → sealed_for w pubs missing bytes ≡ none
  unfolding sealed_for
  sealed_for_missing pubs [] bytes m = absurd (m refl)
  sealed_for_missing pubs (h ∷ hs) bytes m = refl

  encrypt_for_unresolved :
      (before : List Text) (h : Text) (after : List Text) (bytes : Bytes)
      → w.resolve h ≡ none
      → encrypt_for w (before ++ (h ∷ after)) bytes ≡ none
  unfolding encrypt_for
  encrypt_for_unresolved [] h after bytes n =
      sealed_for_missing _ _ bytes (missing_found [] h after n)
  encrypt_for_unresolved (b ∷ before) h after bytes n =
      sealed_for_missing _ _ bytes (missing_found (b ∷ before) h after n)

  squeezed_unresolved :
      (o : Option (Bytes × Bool)) (before : List Text) (h : Text) (after : List Text)
      → w.configured ≡ before ++ (h ∷ after)
      → w.resolve h ≡ none
      → post_squeezed w o ≡ none
  unfolding post_squeezed post_cipher
  squeezed_unresolved none before h after e n = refl
  squeezed_unresolved (some (bytes, squeezed)) before h after e n =
      ap (λ hs. post_cipher w squeezed (encrypt_for w hs bytes)) e
      ∙ ap (post_cipher w squeezed) (encrypt_for_unresolved before h after bytes n)

  -- If any of the configured recipients has no key, nothing is published.
  pub swap_unresolved :
      (real : Text) (before : List Text) (h : Text) (after : List Text)
      → w.configured ≡ before ++ (h ∷ after)
      → w.resolve h ≡ none
      → swap w real ≡ none
  unfolding swap
  swap_unresolved real before h after e n =
      squeezed_unresolved (squeeze_if_smaller w.build.table real) before h after e n
