-- ===== src/Keys/Laws.antt =====
-- Both ends of a conversation derive one key.
use lortnoc_tahc.Base.{◌≡◌, refl, sym, not, some, ◌⊎◌, inl, inr, ◌∙◌, [], ◌∷◌, length, Bytes, arith}
use lortnoc_tahc.Keys.{
  Crypto, CryptoLaws, greater, sort_pair, derive_conv_key, encrypt, try_decrypt,
}

-- On arrays of one length the comparison is antisymmetric and total.
greater_swap : (a b : Bytes) → length a ≡ length b → (greater a b ≡ not (greater b a)) ⊎ (a ≡ b)
unfolding greater
greater_swap [] [] h = inr refl
greater_swap [] (y ∷ ys) h = absurd (omega arith)
greater_swap (x ∷ xs) [] h = absurd (omega arith)
greater_swap (x ∷ xs) (y ∷ ys) h = ground (arith, greater_swap xs ys (omega arith))

sort_pair_comm : (a b : Bytes) → length a ≡ length b → sort_pair a b ≡ sort_pair b a
unfolding sort_pair
sort_pair_comm a b h = elim (greater_swap a b h) [
  | inl swapped ↦ ground (arith, swapped)
  | inr same ↦ rw same
]

module _ (c : Crypto) (laws : CryptoLaws c) where
  -- Two parties with honest key pairs derive one conversation key, whichever of them is which: the
  -- key does not depend on who offered and who answered.
  pub derive_conv_key_agree :
      (a b : Bytes)
      → derive_conv_key c a (c.public_key b) (c.public_key a)
        ≡ derive_conv_key c b (c.public_key a) (c.public_key b)
  unfolding derive_conv_key
  derive_conv_key_agree a b =
      rw (
        derive_conv_key,
        laws.agreement a b,
        sort_pair_comm (c.public_key a) (c.public_key b) sized,
      )
    where
      sized : length (c.public_key a) ≡ length (c.public_key b)
      sized = laws.key_size a ∙ sym (laws.key_size b)

  -- What one end encrypts under its key, the other end decrypts under its own.
  pub try_decrypt-encrypt :
      (a b text : Bytes)
      → try_decrypt c
          (derive_conv_key c b (c.public_key a) (c.public_key b))
          (encrypt c (derive_conv_key c a (c.public_key b) (c.public_key a)) text)
        ≡ some text
  unfolding try_decrypt encrypt
  try_decrypt-encrypt a b text = rw (derive_conv_key_agree a b) (laws.opens _ text)
