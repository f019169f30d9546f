-- ===== src/Sealed/Tests.antt =====
-- A post for everyone who also knows a passphrase.
use lortnoc_tahc.Base.{
  ◌⊎◌, ◌≤◌, ◌<◌, ◌≡◌, ◌≢◌, refl, Option, none, some, List, [], ◌∷◌, true, ◌++◌, length,
  length-append, length-zeros, zeros, starts_with, list_eq, xor, sym, subst, Bytes, Text, All,
  arith,
}
use lortnoc_tahc.Keys.{codes}
use lortnoc_tahc.Keys.Tests.{fit, length-fit}
use lortnoc_tahc.Policy.{leaves, Tree, check, and, no_kids, kid, tree_map}
use lortnoc_tahc.Policy.Checks.{
  encode_params, valid_spec, spec_id, Spec, public_spec, passphrase_spec,
}
use lortnoc_tahc.Policy.CheckLaws.{public_part}
use lortnoc_tahc.Policy.Rules.{validate}
use lortnoc_tahc.Policy.Seal.{Primitives, PrimitivesLaws}
use lortnoc_tahc.Policy.Shape.{encode_shape}
use lortnoc_tahc.Policy.Tests.{toy_primitives, toy_primitives_laws}
use lortnoc_tahc.Squeeze.{squeeze_if_smaller, squeeze, by_length}
use lortnoc_tahc.Squeeze.Characters.{IsPlain}
use lortnoc_tahc.Squeeze.Tests.{is_plain, all_plain, all_plain-IsPlain}
use lortnoc_tahc.Sealed.Provided.{provided}
use lortnoc_tahc.Sealed.Rows.{is_inline, to_rows, tree_of}
use lortnoc_tahc.Sealed.Post.{
  Draws, share_rows, seal_post, place_rows, post_ref, unwrap_slot, wrap_slot, slot_mask,
  public_key_of_all,
}
use lortnoc_tahc.Sealed.Reading.{closed, opened, found_shares, open_post}
use lortnoc_tahc.Sealed.Slots.{SealedLaws}
use lortnoc_tahc.Sealed.RoundTrip.{open_post-seal_post, open_post_only}

abbrev hashing : Primitives
hashing = record toy_primitives { sha256 = λ m. fit 32 m }

hashing_laws : PrimitivesLaws hashing
hashing_laws = record {
  hkdf_size = toy_primitives_laws.hkdf_size;
  curve_laws = toy_primitives_laws.curve_laws;
  tag_size = toy_primitives_laws.tag_size;
  opens = toy_primitives_laws.opens;
  rejects = toy_primitives_laws.rejects;
}

abbrev draws : Draws
draws = record {
  root = fit 16 (9 ∷ 8 ∷ []);
  row_share = λ i. fit 16 (i ∷ 5 ∷ []);
  salt = fit 8 (1 ∷ []);
  blank = λ i. fit 20 [];
  random_ref = fit 8 (2 ∷ []);
  gate_seal = λ items. none;
}

draws_laws : SealedLaws hashing draws
draws_laws = record {
  sha_size = λ m. length-fit 32 m;
  seal_size = λ key ad m. omega (
    arith,
    length-append (zeros 16) (key ++ (ad ++ m)),
    length-zeros 16,
    length-append key (ad ++ m),
    length-append ad m,
  );
  root_size = length-fit 16 (9 ∷ 8 ∷ []);
  row_share_size = λ i. length-fit 16 (i ∷ 5 ∷ []);
  salt_size = length-fit 8 (1 ∷ []);
  blank_size = λ i. length-fit 20 [];
  random_ref_size = length-fit 8 (2 ∷ []);
}

abbrev table : List Text
table = codes " the " ∷ []

abbrev text : Text
text = codes "hi the cat"

abbrev rows : List (List Spec)
rows = (public_spec ∷ []) ∷ (passphrase_spec none [] [] (some (7 ∷ [])) ∷ []) ∷ []

abbrev policy : Tree Spec
policy =
    and (kid (check public_spec) (kid (check (passphrase_spec none [] [] (some (7 ∷ [])))) no_kids))

abbrev frame_or_none : Option Bytes → Bytes
frame_or_none none = []
frame_or_none (some f) = f

abbrev frame : Bytes
frame = frame_or_none (seal_post hashing table draws text policy)

rowed : to_rows hashing.normalise policy ≡ some rows
unfolding to_rows valid_spec spec_id is_inline
rowed = refl

made : seal_post hashing table draws text policy ≡ some frame
unfolding seal_post to_rows valid_spec spec_id is_inline place_rows share_rows post_ref
    squeeze_if_smaller squeeze by_length starts_with
made = refl

valid : validate hashing.normalise (tree_of rows) 0 ≡ none
unfolding validate tree_of valid_spec leaves
valid = refl

found : found_shares hashing frame ((7 ∷ []) ∷ []) [] ≡ share_rows draws.row_share draws.root 0 2
unfolding found_shares seal_post share_rows unwrap_slot list_eq slot_mask public_key_of_all to_rows
    valid_spec spec_id is_inline place_rows post_ref squeeze_if_smaller squeeze by_length
    starts_with wrap_slot xor
found = refl

few : length (found_shares hashing frame ((7 ∷ []) ∷ []) []) ≤ 10
unfolding share_rows
few = subst (λ x. length x ≤ 10) (sym found) (omega arith)

held : provided hashing ((7 ∷ []) ∷ []) [] rows (share_rows draws.row_share draws.root 0 2) ≡ true
unfolding share_rows list_eq
held = refl

small : length (encode_shape (tree_of rows)) < 65536
unfolding encode_shape tree_of encode_params
small = omega arith

root_filled : draws.root ≢ zeros 16
unfolding zeros
root_filled = λ e. cc

text-IsPlain : All IsPlain text
unfolding all_plain is_plain
text-IsPlain = all_plain-IsPlain text refl

open_post-seal_post_example :
    open_post hashing table frame ((7 ∷ []) ∷ []) []
    ≡ opened (some text) (tree_map public_part (tree_of rows))
open_post-seal_post_example =
    open_post-seal_post hashing hashing_laws draws draws_laws table (omega arith, tt) text
      text-IsPlain policy rows frame ((7 ∷ []) ∷ []) [] rowed made valid small root_filled few held

open_post_only_example :
    (open_post hashing table frame [] [] ≡ closed)
    ⊎ (open_post hashing table frame [] []
        ≡ opened (some text) (tree_map public_part (tree_of rows)))
open_post_only_example =
    open_post_only hashing hashing_laws draws draws_laws table (omega arith, tt) text text-IsPlain
      policy rows frame [] [] rowed made valid small
