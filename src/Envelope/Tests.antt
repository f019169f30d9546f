-- ===== src/Envelope/Tests.antt =====
-- An envelope for two readers.
use lortnoc_tahc.Base.{
  ◌≡◌, refl, ◌⊎◌, Option, none, some, List, [], ◌∷◌, ◌++◌, length-append, Bytes, arith,
}
use lortnoc_tahc.Keys.{Crypto, CryptoLaws}
use lortnoc_tahc.Keys.Tests.{fit, length-fit}
use lortnoc_tahc.Policy.Tests.{toy_primitives, toy_primitives_laws, strip-other}
use lortnoc_tahc.Envelope.{SivLaws, all_keys, seal_for, open_sealed}
use lortnoc_tahc.Envelope.Opening.{open_sealed_only, open_sealed-seal_for}

abbrev pub toy : Crypto
toy = toy_primitives.curve

pub toy_laws : CryptoLaws toy
toy_laws = toy_primitives_laws.curve_laws

pub toy_siv : SivLaws toy
toy_siv = record {
  hkdf_size = λ ikm salt info n. length-fit n (ikm ++ info);
  tag_size = λ key m h. omega (arith, length-append key m, h);
  rejects = strip-other;
}

abbrev seed : Bytes
seed = fit 16 (7 ∷ 8 ∷ [])

abbrev text : Bytes
text = 104 ∷ 105 ∷ []

abbrev readers : List Bytes
readers = toy.public_key (1 ∷ []) ∷ toy.public_key (2 ∷ []) ∷ []

abbrev or_empty : Option Bytes → Bytes
or_empty none = []
or_empty (some b) = b

abbrev payload : Bytes
payload = or_empty (seal_for toy (5 ∷ []) seed readers text)

made : seal_for toy (5 ∷ []) seed readers text ≡ some payload
unfolding seal_for all_keys
made = refl

open_sealed_only_example :
    (open_sealed toy (9 ∷ []) (toy.public_key (9 ∷ [])) payload ≡ none)
    ⊎ (open_sealed toy (9 ∷ []) (toy.public_key (9 ∷ [])) payload ≡ some text)
open_sealed_only_example =
    open_sealed_only toy toy_laws toy_siv (5 ∷ []) seed text payload (9 ∷ [])
      (toy.public_key (9 ∷ [])) readers (length-fit 16 (7 ∷ 8 ∷ [])) made

open_sealed-seal_for_example :
    open_sealed toy (2 ∷ []) (toy.public_key (2 ∷ [])) payload ≡ some text
open_sealed-seal_for_example =
    open_sealed-seal_for toy toy_laws toy_siv (5 ∷ []) seed text payload (2 ∷ [])
      (toy.public_key (1 ∷ []) ∷ []) [] (length-fit 16 (7 ∷ 8 ∷ [])) made
