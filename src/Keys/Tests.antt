-- ===== src/Keys/Tests.antt =====
-- A concrete instance of the third-party operations, for the tests of every module: the public key is
-- the private key cut or padded to 32 bytes, the shared secret is a sum, and a key is its own tag.
use lortnoc_tahc.Base.{
  ℕ, zero, suc, ◌+◌, ◌%◌, ◌≡◌, refl, ap, Option, none, some, [], ◌∷◌, ◌++◌, if◌then◌else◌, ◌==◌,
  length, Bytes, IsBytes, arith,
}
use native.Mathlib.Nat.{add_comm}
use lortnoc_tahc.Keys.{Crypto, CryptoLaws, derive_conv_key, sort_pair}
use lortnoc_tahc.Keys.Laws.{derive_conv_key_agree}

abbrev pub fit : ℕ → Bytes → Bytes
fit zero bs = []
fit (suc n) [] = 0 ∷ fit n []
fit (suc n) (b ∷ bs) = (b % 256) ∷ fit n bs

abbrev pub sums : Bytes → Bytes → Bytes
sums [] ys = []
sums (x ∷ xs) [] = []
sums (x ∷ xs) (y ∷ ys) = (x + y) ∷ sums xs ys

abbrev pub strip : Bytes → Bytes → Option Bytes
strip [] m = some m
strip (k ∷ ks) [] = none
strip (k ∷ ks) (b ∷ m) = let rest = strip ks m in if k == b then rest else none

abbrev pub toy : Crypto
toy = record {
  public_key = fit 32;
  shared_secret = λ private public. sums (fit 32 private) public;
  low_order = λ public. length public == 0;
  hkdf = λ ikm salt info size. ikm ++ info;
  siv_encrypt = λ key m. key ++ m;
  siv_decrypt = strip;
}

pub length-fit : (n : ℕ) (bs : Bytes) → length (fit n bs) ≡ n
length-fit zero bs = refl
length-fit (suc n) [] = ap suc (length-fit n [])
length-fit (suc n) (b ∷ bs) = ap suc (length-fit n bs)

pub fit-IsBytes : (n : ℕ) (bs : Bytes) → IsBytes (fit n bs)
fit-IsBytes zero bs = tt
fit-IsBytes (suc n) [] = (omega arith, fit-IsBytes n [])
fit-IsBytes (suc n) (b ∷ bs) = (omega arith, fit-IsBytes n bs)

pub sums_comm : (xs ys : Bytes) → sums xs ys ≡ sums ys xs
sums_comm [] [] = refl
sums_comm [] (y ∷ ys) = refl
sums_comm (x ∷ xs) [] = refl
sums_comm (x ∷ xs) (y ∷ ys) = rw (add_comm x y, sums_comm xs ys)

pub strip-append : (key m : Bytes) → strip key (key ++ m) ≡ some m
strip-append [] m = refl
strip-append (k ∷ ks) m = ground (arith, strip-append ks m)

pub toy_laws : CryptoLaws toy
toy_laws = record {
  key_size = length-fit 32;
  key_bytes = fit-IsBytes 32;
  agreement = λ a b. sums_comm (fit 32 a) (fit 32 b);
  regular = λ priv. ap (λ n. n == 0) (length-fit 32 priv);
  opens = strip-append;
}

-- The smaller public key comes first, whichever of the two is ours.
sorted : sort_pair (1 ∷ 9 ∷ []) (1 ∷ 3 ∷ []) ≡ (1 ∷ 3 ∷ [], 1 ∷ 9 ∷ [])
unfolding sort_pair
sorted = refl

derive_conv_key_agree_example :
    derive_conv_key toy (7 ∷ []) (toy.public_key (5 ∷ [])) (toy.public_key (7 ∷ []))
    ≡ derive_conv_key toy (5 ∷ []) (toy.public_key (7 ∷ [])) (toy.public_key (5 ∷ []))
derive_conv_key_agree_example = derive_conv_key_agree toy toy_laws (7 ∷ []) (5 ∷ [])
