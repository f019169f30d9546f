-- ===== src/Keys.antt =====
-- shared/keys.mjs: the conversation key, the envelope and the key pairs. A string stands for its
-- UTF-8 bytes. X25519, HKDF and AES-SIV are third-party code: `Crypto` holds them as parameters and
-- `CryptoLaws` the documented behaviour that the code relies on.
pub mod Laws
pub mod Tests
use Prim.Native.Char.{code}
use Prim.Native.String.{String}
use Prim.Native.String
use lortnoc_tahc.Base.{
  ℕ, ◌<◌, ◌≡◌, Bool, false, Option, List, [], ◌∷◌, ◌++◌, if◌then◌else◌, ltb, ◌==◌, length, Bytes,
  IsBytes, some,
}

pub record Crypto : Type 0 where
  -- `x25519.getPublicKey`
  pub public_key : Bytes → Bytes
  -- `x25519.getSharedSecret`, which throws for a peer key of low order
  pub shared_secret : Bytes → Bytes → Bytes
  pub low_order : Bytes → Bool
  -- `hkdf(sha256, ikm, salt, info, length)`
  pub hkdf : Bytes → Bytes → Bytes → ℕ → Bytes
  -- `aessiv(key).encrypt` and `aessiv(key).decrypt`, which throws when the tag does not verify
  pub siv_encrypt : Bytes → Bytes → Bytes
  pub siv_decrypt : Bytes → Bytes → Option Bytes

pub record CryptoLaws (c : Crypto) : Type 0 where
  pub key_size : (priv : Bytes) → length (c.public_key priv) ≡ 32
  pub key_bytes : (priv : Bytes) → IsBytes (c.public_key priv)
  pub agreement :
      (a b : Bytes) → c.shared_secret a (c.public_key b) ≡ c.shared_secret b (c.public_key a)
  -- the public key of a private key is not of low order
  pub regular : (priv : Bytes) → c.low_order (c.public_key priv) ≡ false
  pub opens : (key m : Bytes) → c.siv_decrypt key (c.siv_encrypt key m) ≡ some m

pub record KeyPair : Type 0 where
  pub private : Bytes
  pub public : Bytes

abbrev pub codes : String → Bytes
codes String.[] = []
codes (String.◌∷◌ c s) = code c ∷ codes s

-- `LABEL.conv`, the salt of the conversation key.
pub ecdh_salt : Bytes
ecdh_salt = codes "lortnoc/conv/x25519/v1"

-- `cmpBytes(a, b) > 0`: the first place where the two differ decides. A byte against the end of the
-- other array compares as NaN, which `sort` takes for 0.
unfoldable pub greater : Bytes → Bytes → Bool
greater [] b = false
greater (x ∷ xs) [] = false
greater (x ∷ xs) (y ∷ ys) = if x == y then greater xs ys else ltb y x

-- `[a, b].sort(cmpBytes)`
unfoldable pub sort_pair : Bytes → Bytes → Bytes × Bytes
unfolding greater
sort_pair a b = if greater a b then (b, a) else (a, b)

module _ (c : Crypto) where
  -- `genKeyPair`, over the 32 bytes that the random source gives.
  abbrev pub gen_key_pair : Bytes → KeyPair
  gen_key_pair random = record { private = random; public = c.public_key random }

  unfoldable pub derive_conv_key : Bytes → Bytes → Bytes → Bytes
  derive_conv_key my_priv their_pub my_pub =
      let shared = c.shared_secret my_priv their_pub in
      let info = sort_pair my_pub their_pub in c.hkdf shared ecdh_salt (info.0 ++ info.1) 64

  pub encrypt : Bytes → Bytes → Bytes
  encrypt key plaintext = c.siv_encrypt key plaintext

  -- `null` when the tag does not verify.
  pub try_decrypt : Bytes → Bytes → Option Bytes
  try_decrypt key ciphertext = c.siv_decrypt key ciphertext
