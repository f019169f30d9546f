-- ===== src/Policy/Tests.antt =====
-- A small policy, sealed and opened: a passphrase, and either anyone or a moment in time. The
-- cryptography is that of the tests of the keys, with a tag that holds the key.
use lortnoc_tahc.Base.{
  ap, ◌==◌, ◌≡◌, refl, ◌⊎◌, inl, inr, true, false, Option, none, some, [], ◌∷◌, ◌++◌, ◌==◌, length,
  length-append, zeros, xor, list_eq, Bytes, arith, Bool-cases, length-zeros,
}
use lortnoc_tahc.Keys.Tests.{toy, fit, length-fit, fit-IsBytes, sums_comm, strip, strip-append}
use lortnoc_tahc.Policy.{Tree, check, and, or, no_kids, kid, satisfied, tree_map, leaves}
use lortnoc_tahc.Policy.Checks.{
  Spec, public_spec, passphrase_spec, after_spec, passphrase_params, by_tag, flags, or_empty,
  encode_params, tag, spec_id, valid_spec, params_id,
}
use lortnoc_tahc.Policy.Decode.{found, decode_params}
use lortnoc_tahc.Policy.CheckLaws.{public_part}
use lortnoc_tahc.Policy.Rules.{validate, inner_fault, honesty}
use lortnoc_tahc.Policy.Shape.{max_depth, node_byte, encode_shape, decode_shape}
use lortnoc_tahc.Policy.Seal.{
  Primitives, PrimitivesLaws, Author, AuthorSizes, kdf_profiles, compile, seal, mask,
  public_channel_key, seal_tree, assign,
}
use lortnoc_tahc.Policy.Open.{Reader, read_tree, Parsed, parsed, parse, open_payload, open_leaf}
use lortnoc_tahc.Policy.Candidates.{candidates}
use lortnoc_tahc.Policy.Contents.{shares, tries}
use lortnoc_tahc.Policy.Fan.{fan}
use lortnoc_tahc.Policy.Recovery.{gives}
use lortnoc_tahc.Policy.Denied.{has_some, opens_leaf, has_some-candidates}
use lortnoc_tahc.Policy.Honest.{leaf_id, gate_can_read-open_payload}
use lortnoc_tahc.Policy.Material.{view}
use lortnoc_tahc.Policy.RoundTrip.{decode_shape-encode_shape}
use lortnoc_tahc.Policy.Opened.{open_payload-compile}

abbrev after_key : Option Bytes → Bytes → Option Bytes
after_key none ad = none
after_key (some m) ad = strip ad m

abbrev after_zeros : Option Bytes → Bytes → Bytes → Option Bytes
after_zeros none key ad = none
after_zeros (some m) key ad = after_key (strip key m) ad

abbrev toy_open : Bytes → Bytes → Bytes → Option Bytes
toy_open key ad m = after_zeros (strip (zeros 16) m) key ad

abbrev toy_seal : Bytes → Bytes → Bytes → Bytes
toy_seal key ad m = zeros 16 ++ (key ++ (ad ++ m))

abbrev pub toy_primitives : Primitives
toy_primitives = record {
  curve = record toy { hkdf = λ ikm salt info size. fit size (ikm ++ info) };
  siv_seal = toy_seal;
  siv_open = toy_open;
  sha256 = λ m. m;
  argon2id = λ words salt kdf. words;
  normalise = λ words. words;
}

toy_open-toy_seal : (key ad m : Bytes) → toy_open key ad (toy_seal key ad m) ≡ some m
toy_open-toy_seal key ad m =
    rw (strip-append (zeros 16) (key ++ (ad ++ m)), strip-append key (ad ++ m), strip-append ad m)
      refl

pub strip-other :
    (key other m : Bytes)
    → length key ≡ length other
    → (strip other (key ++ m) ≡ none) ⊎ (key ≡ other)
strip-other [] [] m h = inr refl
strip-other [] (o ∷ os) m h = absurd (omega arith)
strip-other (k ∷ ks) [] m h = absurd (omega arith)
strip-other (k ∷ ks) (o ∷ os) m h = elim (Bool-cases (o == k)) [
  | inl same ↦ elim (strip-other ks os m (omega arith)) [
    | inl refused ↦ inl (rw (same, refused) refl)
    | inr equal ↦ inr (ground (arith, same, equal))
  ]
  | inr other ↦ inl (rw other refl)
]

toy_open-other :
    (key other ad m : Bytes)
    → length key ≡ length other
    → (toy_open other ad (toy_seal key ad m) ≡ none) ⊎ (key ≡ other)
toy_open-other key other ad m h = elim (strip-other key other (ad ++ m) h) [
  | inl refused ↦ inl (rw (strip-append (zeros 16) (key ++ (ad ++ m)), refused) refl)
  | inr equal ↦ inr equal
]

pub toy_primitives_laws : PrimitivesLaws toy_primitives
toy_primitives_laws = record {
  hkdf_size = λ ikm salt info n. length-fit n (ikm ++ info);
  curve_laws = record {
    key_size = length-fit 32;
    key_bytes = fit-IsBytes 32;
    agreement = λ a b. sums_comm (fit 32 a) (fit 32 b);
    regular = λ priv. ap (λ n. n == 0) (length-fit 32 priv);
    opens = strip-append;
  };
  tag_size =
      λ key ad m. omega (arith, length-append (zeros 16) (key ++ (ad ++ m)), length-zeros 16);
  opens = toy_open-toy_seal;
  rejects = toy_open-other;
}

abbrev author : Author
author = record {
  nonce = 1 ∷ 2 ∷ 3 ∷ 4 ∷ 5 ∷ 6 ∷ 7 ∷ 8 ∷ [];
  root = fit 16 (9 ∷ 9 ∷ []);
  draw = λ path. fit 16 (5 ∷ path);
  ephemeral = λ path. 7 ∷ path;
  profiles = kdf_profiles;
  deposit = λ request share hash path. some (fit 8 (3 ∷ path));
}

author_sizes : AuthorSizes author
author_sizes = record {
  nonce_size = refl;
  root_size = refl;
  draw_size = λ path. length-fit 16 (5 ∷ path);
}

-- Knows the passphrase, and has no answer of the gate.
abbrev reader : Reader
reader = record {
  use_public = true;
  passphrases = (1 ∷ []) ∷ (97 ∷ 98 ∷ []) ∷ [];
  msg_key = none;
  release = λ request ref hash. none;
  profiles = kdf_profiles;
}

-- AND(passphrase, OR(public, after))
abbrev policy : Tree Spec
policy = and (
    kid (check (passphrase_spec none (104 ∷ []) (97 ∷ 98 ∷ []) none))
      (kid (or (kid (check public_spec) (kid (check (after_spec 1500)) no_kids))) no_kids))

encoded : encode_shape policy ≡ 2 ∷ 66 ∷ 0 ∷ 1 ∷ 104 ∷ 34 ∷ 65 ∷ 80 ∷ 0 ∷ 0 ∷ 0 ∷ 1 ∷ []
unfolding encode_shape node_byte encode_params tag spec_id
encoded = refl

policy_valid : validate toy_primitives.normalise policy 0 ≡ none
unfolding validate inner_fault leaves valid_spec
policy_valid = refl

decode_shape-encode_shape_example :
    decode_shape max_depth (encode_shape policy ++ 200 ∷ [])
    ≡ found (tree_map public_part policy) (some (200 ∷ []))
decode_shape-encode_shape_example =
    decode_shape-encode_shape toy_primitives.normalise policy (200 ∷ []) policy_valid

abbrev payload : Bytes
payload = or_empty (compile toy_primitives author false (104 ∷ 105 ∷ []) policy)

compiles : compile toy_primitives author false (104 ∷ 105 ∷ []) policy ≡ some payload
unfolding compile validate valid_spec leaves seal_tree assign
compiles = refl

reader_satisfies :
    satisfied (shares author policy) (gives (tries toy_primitives author policy reader)) [] ≡ true
unfolding satisfied assign open_leaf view public_part list_eq xor seal mask public_channel_key
reader_satisfies = refl

reader_small : fan (tries toy_primitives author policy reader) (shares author policy) ≡ 2
unfolding fan assign open_leaf view seal public_part
reader_small = refl

open_payload-compile_example :
    open_payload toy_primitives reader false payload ≡ some (104 ∷ 105 ∷ [])
open_payload-compile_example =
    open_payload-compile toy_primitives toy_primitives_laws author author_sizes reader false
      (104 ∷ 105 ∷ []) payload policy reader_satisfies (omega (arith, reader_small)) compiles

has_some-candidates_example :
    has_some (candidates (tries toy_primitives author policy reader) (shares author policy))
    ≡ satisfied (shares author policy) (opens_leaf (tries toy_primitives author policy reader)) []
has_some-candidates_example =
    has_some-candidates (tries toy_primitives author policy reader) (shares author policy)

abbrev named : Reader
named = record reader {
  passphrases = [];
  msg_key = some (record { private = 4 ∷ []; public = toy_primitives.public_key (4 ∷ []) });
}

-- The gate's operator: whatever the gate would answer, no passphrase and no messaging key.
abbrev operator : Reader
operator = record reader { passphrases = []; release = λ request ref hash. some (fit 16 (9 ∷ [])) }

abbrev locked_shape : Bytes
locked_shape = 1 ∷ 2 ∷ 3 ∷ 4 ∷ 5 ∷ 6 ∷ 7 ∷ 8 ∷ 66 ∷ 0 ∷ 0 ∷ []

-- A post under a passphrase alone.
abbrev locked : Bytes
locked = locked_shape ++ (fit 16 (7 ∷ []) ++ fit 16 (8 ∷ []))

abbrev in_post : Parsed
in_post = record {
  nonce = fit 8 locked_shape;
  shape =
      check
        (record { params = passphrase_params (some 0) []; path = []; material = fit 16 (7 ∷ []) });
  policy_hash = locked_shape;
  header = locked_shape ++ fit 16 (7 ∷ []);
  body = fit 16 (8 ∷ []);
}

locked_parsed : parse toy_primitives locked ≡ parsed in_post
unfolding parse leaves decode_shape by_tag decode_params read_tree
locked_parsed = refl

chip : (honesty leaf_id in_post.shape).gate_can_read ≡ false
unfolding honesty satisfied flags params_id
chip = refl

gate_can_read-open_payload_example : open_payload toy_primitives operator false locked ≡ none
gate_can_read-open_payload_example =
    gate_can_read-open_payload toy_primitives operator refl refl false locked in_post locked_parsed
      chip
