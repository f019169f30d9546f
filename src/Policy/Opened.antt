-- ===== src/Policy/Opened.antt =====
-- shared/policy.mjs: `open` gives back what `compile` locked, to a reader who satisfies the policy,
-- and nothing to a reader who has no candidate for it.
use lortnoc_tahc.Base.{
  some_inj, ◌≤◌, ◌≡◌, refl, ap, sym, ◌∙◌, subst, Bool, true, Option, none, some, List, [], ◌∷◌,
  ◌++◌, Bytes, list_eq, list_eq_sound, arith, Bool-cases, inl, inr,
}
use lortnoc_tahc.Policy.{Tree, tree_map, satisfied}
use lortnoc_tahc.Policy.Checks.{Spec}
use lortnoc_tahc.Policy.Rules.{validate, Fault}
use lortnoc_tahc.Policy.Candidates.{contains, candidates, max_candidates}
use lortnoc_tahc.Policy.Seal.{
  Primitives, PrimitivesLaws, Author, AuthorSizes, seal_tree, compile, compile_valid, container,
  cek, ad,
}
use lortnoc_tahc.Policy.Open.{Reader, open_leaf, first_opened, open_parsed, open_payload}
use lortnoc_tahc.Policy.Material.{view}
use lortnoc_tahc.Policy.Fan.{fan}
use lortnoc_tahc.Policy.Contents.{head, hash, shares, tries, candidates-tree_map, parse-container}
use lortnoc_tahc.Policy.Recovery.{gives, key_recovered}

module _ (c : Primitives) (laws : PrimitivesLaws c) (author : Author) (sizes : AuthorSizes author)
    (t : Tree Spec) (ok : validate c.normalise t 0 ≡ none) where
  -- The first key that verifies the tag of the body is as good as the root.
  first_opened-contains :
      (squeezed : Bool) (text header : Bytes) (keys : List Bytes)
      → contains author.root keys ≡ true
      → first_opened c author.nonce
          (ad header squeezed)
          (c.siv_seal (cek c author.root author.nonce) (ad header squeezed) text)
          keys
        ≡ some text
  unfolding first_opened cek
  first_opened-contains squeezed text header [] h = absurd cc
  first_opened-contains squeezed text header (k ∷ ks) h =
      elim (Bool-cases (list_eq author.root k)) [
        | inl same ↦
            let opened =
              opens_under (cek c k author.nonce)
                (ap (λ r. cek c r author.nonce) (list_eq_sound author.root k same)) in
            rw (first_opened, opened) refl
        | inr other ↦
            elim (laws.rejects (cek c author.root author.nonce) (cek c k author.nonce)
              (ad header squeezed) text (laws.hkdf_size _ _ _ 64 ∙ sym (laws.hkdf_size _ _ _ 64))) [
                | inl refused ↦
                    rw (first_opened, refused)
                      (first_opened-contains squeezed text header ks (ground (arith, other, h)))
                | inr equal ↦ rw (first_opened, opens_under (cek c k author.nonce) equal) refl
              ]
      ]
    where
      opens_under :
          (key : Bytes)
          → cek c author.root author.nonce ≡ key
          → c.siv_open key
              (ad header squeezed)
              (c.siv_seal (cek c author.root author.nonce) (ad header squeezed) text)
            ≡ some text
      opens_under key e =
          subst
            (λ x.
              c.siv_open x (ad header squeezed)
                (c.siv_seal (cek c author.root author.nonce) (ad header squeezed) text)
              ≡ some text)
            e (laws.opens (cek c author.root author.nonce) (ad header squeezed) text)

  candidates_contain :
      (reader : Reader)
      → satisfied (shares author t) (gives (tries c author t reader)) [] ≡ true
      → fan (tries c author t reader) (shares author t) ≤ max_candidates
      → contains author.root (
          candidates
            (open_leaf c reader author.nonce (hash c author t))
            (tree_map (view c author (hash c author t)) (shares author t)))
        ≡ true
  candidates_contain reader sat small =
      rw
        (candidates-tree_map (view c author (hash c author t))
          (open_leaf c reader author.nonce (hash c author t)) (shares author t))
        (key_recovered author.draw sizes.draw_size (tries c author t reader) c.normalise t 0
          author.root [] [] ok sizes.root_size sat small)

  open_container :
      (reader : Reader) (squeezed : Bool) (text material : Bytes)
      → seal_tree c author (hash c author t) (shares author t) ≡ some material
      → satisfied (shares author t) (gives (tries c author t reader)) [] ≡ true
      → fan (tries c author t reader) (shares author t) ≤ max_candidates
      → open_payload c reader squeezed (
          ((head author t) ++ material)
          ++ c.siv_seal
              (cek c author.root author.nonce)
              (ad ((head author t) ++ material) squeezed)
              text)
        ≡ some text
  unfolding open_payload open_parsed
  open_container reader squeezed text material sealed sat small =
      rw
        (parse-container c laws author sizes t ok material
          (c.siv_seal (cek c author.root author.nonce) (ad ((head author t) ++ material) squeezed)
            text)
          sealed (laws.tag_size _ _ _))
        (first_opened-contains squeezed text ((head author t) ++ material)
          (candidates (open_leaf c reader author.nonce (hash c author t))
            (tree_map (view c author (hash c author t)) (shares author t)))
          (candidates_contain reader sat small))

  open_sealed :
      (reader : Reader) (squeezed : Bool) (text payload : Bytes) (material : Option Bytes)
      → seal_tree c author (hash c author t) (shares author t) ≡ material
      → container c author.root author.nonce squeezed text (head author t) material ≡ some payload
      → satisfied (shares author t) (gives (tries c author t reader)) [] ≡ true
      → fan (tries c author t reader) (shares author t) ≤ max_candidates
      → open_payload c reader squeezed payload ≡ some text
  unfolding container
  open_sealed reader squeezed text payload none sealed whole sat small = absurd cc
  open_sealed reader squeezed text payload (some material) sealed whole sat small =
      subst (λ p. open_payload c reader squeezed p ≡ some text) (some_inj whole)
        (open_container reader squeezed text material sealed sat small)

module _ (c : Primitives) (laws : PrimitivesLaws c) (author : Author) (sizes : AuthorSizes author)
    (reader : Reader) (squeezed : Bool) (text payload : Bytes) (policy : Tree Spec)
    (sat : satisfied (shares author policy) (gives (tries c author policy reader)) [] ≡ true)
    (small : fan (tries c author policy reader) (shares author policy) ≤ max_candidates) where
  open_valid :
      (fault : Option Fault)
      → validate c.normalise policy 0 ≡ fault
      → compile_valid c author squeezed text policy fault ≡ some payload
      → open_payload c reader squeezed payload ≡ some text
  unfolding compile_valid
  open_valid (some f) ok whole = absurd cc
  open_valid none ok whole =
      open_sealed c laws author sizes policy ok reader squeezed text payload
        (seal_tree c author (hash c author policy) (shares author policy)) refl whole sat small

  -- A payload that `compile` made opens to its text, for a reader whose own leaf attempts satisfy the
  -- policy: to the leaves whose share is among what opening them yields. The reader's attempts give at
  -- most 256 candidates, counted before equal ones are dropped; the cryptography keeps its documented
  -- laws, and the author's random source gives the sizes asked for.
  pub open_payload-compile :
      compile c author squeezed text policy ≡ some payload
      → open_payload c reader squeezed payload ≡ some text
  unfolding compile
  open_payload-compile whole = open_valid (validate c.normalise policy 0) refl whole
