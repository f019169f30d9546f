-- ===== src/Policy/Contents.antt =====
-- shared/policy.mjs: a reader parses a container into what its author put there.
use lortnoc_tahc.Base.{
  ℕ, ◌+◌, ◌≤◌, ◌≡◌, refl, ap, sym, ◌∙◌, subst, false, Option, none, some, List, [], ◌∷◌, ◌++◌,
  append_assoc, ltb, length, length-append, take, take_left, drop, drop_at, take_at, Bytes, zeros,
  arith,
}
use lortnoc_tahc.Policy.{
  Tree, Trees, check, and, or, no_kids, kid, under, count_kids, leaves, leaves_from, tree_map,
  trees_map,
}
use lortnoc_tahc.Policy.Checks.{Spec}
use lortnoc_tahc.Policy.CheckLaws.{public_part}
use lortnoc_tahc.Policy.Rules.{validate, validate_kids, Fault, inner_fault}
use lortnoc_tahc.Policy.Shape.{encode_shape}
use lortnoc_tahc.Policy.RoundTrip.{decode_shape-encode_shape}
use lortnoc_tahc.Policy.Candidates.{candidates, candidates_or, candidates_and, cap}
use lortnoc_tahc.Policy.Seal.{
  Primitives, PrimitivesLaws, Author, AuthorSizes, Held, share_len, assign, seal_tree,
}
use lortnoc_tahc.Policy.Open.{
  Reader, open_leaf, parsed, Parsed, parse, parse_shape, parse_material, before,
}
use lortnoc_tahc.Policy.Material.{view, read_tree-seal_tree}

module _ {ℓ κ} {A : Type ℓ} {B : Type κ} (f : A → B) (open_leaf : B → List Bytes) where
  mutual
    unfolding candidates tree_map

    pub candidates-tree_map :
        (t : Tree A) → candidates open_leaf (tree_map f t) ≡ candidates (λ a. open_leaf (f a)) t
    candidates-tree_map (check a) = refl
    candidates-tree_map (or ts) = ap cap (candidates-or_map ts)
    candidates-tree_map (and ts) = candidates-and_map ts (some (zeros share_len ∷ []))

    candidates-or_map :
        (ts : Trees A)
        → candidates_or open_leaf (trees_map f ts) ≡ candidates_or (λ a. open_leaf (f a)) ts
    candidates-or_map no_kids = refl
    candidates-or_map (kid t ts) = rw (candidates-tree_map t, candidates-or_map ts)

    candidates-and_map :
        (ts : Trees A) (acc : Option (List Bytes))
        → candidates_and open_leaf (trees_map f ts) acc
          ≡ candidates_and (λ a. open_leaf (f a)) ts acc
    candidates-and_map no_kids none = refl
    candidates-and_map no_kids (some acc) = refl
    candidates-and_map (kid t ts) none = refl
    candidates-and_map (kid t ts) (some acc) = rw (candidates-tree_map t) (candidates-and_map ts _)

  mutual
    unfolding leaves tree_map

    length-leaves_map :
        (t : Tree A) (path : List ℕ) → length (leaves (tree_map f t) path) ≡ length (leaves t path)
    length-leaves_map (check a) path = refl
    length-leaves_map (or ts) path = length-leaves_from_map ts path 0
    length-leaves_map (and ts) path = length-leaves_from_map ts path 0

    length-leaves_from_map :
        (ts : Trees A) (path : List ℕ) (i : ℕ)
        → length (leaves_from (trees_map f ts) path i) ≡ length (leaves_from ts path i)
    length-leaves_from_map no_kids path i = refl
    length-leaves_from_map (kid t ts) path i = omega (
      arith,
      length-append (leaves (tree_map f t) (under path i))
          (leaves_from (trees_map f ts) path (i + 1)),
      length-append (leaves t (under path i)) (leaves_from ts path (i + 1)),
      length-leaves_map t (under path i),
      length-leaves_from_map ts path (i + 1),
    )

-- The public part at the front of a container, what the gate knows it by, and the shares.
abbrev pub head : Author → Tree Spec → Bytes
head author policy = author.nonce ++ encode_shape policy

abbrev pub hash : Primitives → Author → Tree Spec → Bytes
hash c author policy = c.sha256 (head author policy)

abbrev pub shares : Author → Tree Spec → Tree Held
shares author policy = assign author.draw policy author.root []

-- What a reader's device makes of a leaf of the post.
abbrev pub tries : Primitives → Author → Tree Spec → Reader → Held → List Bytes
tries c author policy reader held =
    open_leaf c reader author.nonce (hash c author policy)
      (view c author (hash c author policy) held)

root_leaves : (kids n : ℕ) (below : Option Fault) → inner_fault kids n 0 below ≡ none → n ≤ 8
unfolding inner_fault
root_leaves kids n none h = ground (arith, h)
root_leaves kids n (some f) h = ground (arith, h)

few_leaves :
    (normalise : Bytes → Bytes) (t : Tree Spec)
    → validate normalise t 0 ≡ none
    → length (leaves t []) ≤ 8
unfolding validate leaves
few_leaves normalise (check a) h = omega arith
few_leaves normalise (and ts) h =
    root_leaves (count_kids ts) (length (leaves (and ts) [])) (validate_kids normalise ts 1) h
few_leaves normalise (or ts) h =
    root_leaves (count_kids ts) (length (leaves (or ts) [])) (validate_kids normalise ts 1) h

encode_shape_pos : (t : Tree Spec) → 1 ≤ length (encode_shape t)
unfolding encode_shape
encode_shape_pos (check a) = omega arith
encode_shape_pos (and ts) = omega arith
encode_shape_pos (or ts) = omega arith

-- What stands before a suffix.
before_left : (xs ys : Bytes) → before (xs ++ ys) (some ys) ≡ xs
before_left xs ys =
    subst (λ n. take n (xs ++ ys) ≡ xs) (sym (omega (arith, length-append xs ys))) (take_left xs ys)

module _ (c : Primitives) (laws : PrimitivesLaws c) (author : Author) (sizes : AuthorSizes author)
    (t : Tree Spec) (ok : validate c.normalise t 0 ≡ none) where
  -- What a reader parses of a container.
  abbrev pub contents : Bytes → Bytes → Parsed
  contents material body = record {
    nonce = author.nonce;
    shape = tree_map (view c author (hash c author t)) (shares author t);
    policy_hash = (hash c author t);
    header = (head author t) ++ material;
    body = body;
  }

  module _ (material body : Bytes)
      (sealed : seal_tree c author (hash c author t) (shares author t) ≡ some material)
      (tagged : 16 ≤ length body) where
    abbrev payload : Bytes
    payload = ((head author t) ++ material) ++ body

    payload_parts : payload ≡ author.nonce ++ (encode_shape t ++ (material ++ body))
    payload_parts =
        append_assoc (head author t) material body
        ∙ append_assoc author.nonce (encode_shape t) (material ++ body)

    parse_material-container :
        parse_material c payload (some (material ++ body)) (tree_map public_part t)
        ≡ parsed (contents material body)
    unfolding parse_material
    parse_material-container =
        rw
          (
            few,
            read_tree-seal_tree c laws author sizes (hash c author t) t author.root [] material body
                sizes.root_size sealed,
            whole_tag,
            nonce_first,
            before_body,
            before_material,
          )
          refl
      where
        few : ltb 8 (length (leaves (tree_map public_part t) [])) ≡ false
        few =
            ground
              (arith, length-leaves_map public_part (λ _. []) t [], few_leaves c.normalise t ok)

        whole_tag : ltb (length body) 16 ≡ false
        whole_tag = ground (arith, tagged)

        nonce_first : take 8 payload ≡ author.nonce
        nonce_first =
            subst (λ p. take 8 p ≡ author.nonce) (sym payload_parts)
              (take_at author.nonce (encode_shape t ++ (material ++ body)) 8 sizes.nonce_size)

        before_body : before payload (some body) ≡ (head author t) ++ material
        before_body = before_left ((head author t) ++ material) body

        before_material : before payload (some (material ++ body)) ≡ (head author t)
        before_material =
            subst (λ p. before p (some (material ++ body)) ≡ (head author t))
              (sym (append_assoc (head author t) material body))
              (before_left (head author t) (material ++ body))

    pub parse-container : parse c payload ≡ parsed (contents material body)
    unfolding parse parse_shape
    parse-container =
        rw (long, after_nonce, decode_shape-encode_shape c.normalise t (material ++ body) ok)
          parse_material-container
      where
        long : ltb (length payload) 25 ≡ false
        long = ground (
          arith,
          tagged,
          sizes.nonce_size,
          encode_shape_pos t,
          length-append ((head author t) ++ material) body,
          length-append (head author t) material,
          length-append author.nonce (encode_shape t),
        )

        after_nonce : drop 8 payload ≡ encode_shape t ++ (material ++ body)
        after_nonce =
            subst (λ p. drop 8 p ≡ encode_shape t ++ (material ++ body)) (sym payload_parts)
              (drop_at author.nonce (encode_shape t ++ (material ++ body)) 8 sizes.nonce_size)
