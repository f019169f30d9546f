-- ===== src/Policy/Denied.antt =====
-- shared/policy.mjs: a reader gets a candidate exactly when the leaves that give one satisfy the policy,
-- so that who satisfies no branch of it opens nothing.
use lortnoc_tahc.Base.{
  ℕ, ◌+◌, ◌≡◌, refl, ap, ◌∙◌, Bool, true, false, none, some, List, [], ◌∷◌, ◌++◌, ◌||◌, ◌&&◌, Bytes,
  zeros,
}
use lortnoc_tahc.Policy.{
  Tree, Trees, check, and, or, no_kids, kid, under, satisfied, satisfied_every, satisfied_some,
}
use lortnoc_tahc.Policy.Candidates.{
  cap, dedupe, dedupe_seen, combine, combine_some, candidates, candidates_or, candidates_and,
}
use lortnoc_tahc.Policy.Seal.{Primitives, share_len}
use lortnoc_tahc.Policy.Open.{
  Reader, parsed, Parsed, parse, open_leaf, open_parsed, open_payload, first_opened,
}

abbrev pub has_some : List Bytes → Bool
has_some [] = false
has_some (x ∷ xs) = true

has_some-cap : (xs : List Bytes) → has_some (cap xs) ≡ has_some xs
unfolding dedupe dedupe_seen
has_some-cap [] = refl
has_some-cap (x ∷ xs) = refl

has_some-append : (xs ys : List Bytes) → has_some (xs ++ ys) ≡ (has_some xs || has_some ys)
has_some-append [] ys = refl
has_some-append (x ∷ xs) ys = refl

has_some-combine :
    (acc : List Bytes) (c : Bytes) (cs : List Bytes)
    → has_some (combine acc (c ∷ cs)) ≡ has_some acc
unfolding combine
has_some-combine [] c cs = refl
has_some-combine (a ∷ acc) c cs = refl

module _ {ℓ} {A : Type ℓ} (open_leaf : A → List Bytes) where
  abbrev pub opens_leaf : A → List ℕ → Bool
  opens_leaf a path = has_some (open_leaf a)

  none_left : (ts : Trees A) → candidates_and open_leaf ts none ≡ []
  unfolding candidates
  none_left no_kids = refl
  none_left (kid t ts) = refl

  and_rest :
      (cs acc : List Bytes) (ts : Trees A) (b : Bool)
      → has_some acc ≡ true
      → ((next : List Bytes)
          → has_some next ≡ true
          → has_some (candidates_and open_leaf ts (some next)) ≡ b)
      → has_some (candidates_and open_leaf ts (combine_some acc cs)) ≡ (has_some cs && b)
  unfolding combine_some
  and_rest [] acc ts b held others = ap has_some (none_left ts)
  and_rest (c ∷ cs) acc ts b held others =
      others (cap (combine acc (c ∷ cs)))
        (has_some-cap (combine acc (c ∷ cs)) ∙ has_some-combine acc c cs ∙ held)

  mutual
    unfolding candidates satisfied

    has_some-candidates_tree :
        (t : Tree A) (path : List ℕ)
        → has_some (candidates open_leaf t) ≡ satisfied t opens_leaf path
    has_some-candidates_tree (check a) path = refl
    has_some-candidates_tree (or ts) path =
        has_some-cap (candidates_or open_leaf ts) ∙ has_some_or ts path 0
    has_some-candidates_tree (and ts) path = has_some_and ts path 0 (zeros share_len ∷ []) refl

    has_some_or :
        (ts : Trees A) (path : List ℕ) (i : ℕ)
        → has_some (candidates_or open_leaf ts) ≡ satisfied_some ts opens_leaf path i
    has_some_or no_kids path i = refl
    has_some_or (kid t ts) path i =
        rw
          (
            has_some-append (candidates open_leaf t) (candidates_or open_leaf ts),
            has_some-candidates_tree t (under path i),
            has_some_or ts path (i + 1),
          )
          refl

    has_some_and :
        (ts : Trees A) (path : List ℕ) (i : ℕ) (acc : List Bytes)
        → has_some acc ≡ true
        → has_some (candidates_and open_leaf ts (some acc)) ≡ satisfied_every ts opens_leaf path i
    has_some_and no_kids path i acc held = held
    has_some_and (kid t ts) path i acc held =
        and_rest (candidates open_leaf t) acc ts (satisfied_every ts opens_leaf path (i + 1)) held
          (λ next more. has_some_and ts path (i + 1) next more)
        ∙ ap (λ b. b && satisfied_every ts opens_leaf path (i + 1))
            (has_some-candidates_tree t (under path i))

  -- A reader has a candidate for the key exactly when the leaves that give one satisfy the policy, for
  -- every tree and whatever a leaf gives: the caps on the candidates never lose the last one.
  pub has_some-candidates :
      (t : Tree A) → has_some (candidates open_leaf t) ≡ satisfied t opens_leaf []
  has_some-candidates t = has_some-candidates_tree t []

no_candidate : (xs : List Bytes) → has_some xs ≡ false → xs ≡ []
no_candidate [] h = refl
no_candidate (x ∷ xs) h = absurd cc

module _ (c : Primitives) where
  -- A payload whose policy the leaves that give the reader anything do not satisfy opens to nothing,
  -- whatever its header and its body are.
  pub open_payload_denied :
      (reader : Reader) (squeezed : Bool) (payload : Bytes) (p : Parsed)
      → parse c payload ≡ parsed p
      → satisfied p.shape (opens_leaf (open_leaf c reader p.nonce p.policy_hash)) [] ≡ false
      → open_payload c reader squeezed payload ≡ none
  unfolding open_payload open_parsed first_opened
  open_payload_denied reader squeezed payload p read denied =
      rw
        (
          read,
          no_candidate (candidates (open_leaf c reader p.nonce p.policy_hash) p.shape)
              (has_some-candidates (open_leaf c reader p.nonce p.policy_hash) p.shape ∙ denied),
        )
        refl
