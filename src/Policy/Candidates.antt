-- ===== src/Policy/Candidates.antt =====
-- shared/policy.mjs: the keys that a reader tries, from what each leaf gives (`candidates` of `open`).
use lortnoc_tahc.Base.{
  Bool, false, Option, none, some, List, [], ◌∷◌, ◌++◌, ℕ, map, if◌then◌else◌, take, Bytes, list_eq,
  ◌||◌, xor, zeros,
}
use lortnoc_tahc.Policy.{Tree, Trees, check, and, or, no_kids, kid}
use lortnoc_tahc.Policy.Seal.{share_len}

abbrev pub contains : Bytes → List Bytes → Bool
contains a [] = false
contains a (x ∷ xs) = list_eq a x || contains a xs

-- `dedupe`: the first of equal arrays stays.
unfoldable pub dedupe_seen : List Bytes → List Bytes → List Bytes
dedupe_seen [] seen = []
dedupe_seen (a ∷ rest) seen =
    let fresh = dedupe_seen rest (a ∷ seen) in
    let old = dedupe_seen rest seen in if contains a seen then old else a ∷ fresh

unfoldable pub dedupe : List Bytes → List Bytes
unfolding dedupe_seen
dedupe xs = dedupe_seen xs []

abbrev pub max_candidates : ℕ
max_candidates = 256

abbrev pub cap : List Bytes → List Bytes
cap xs = take max_candidates (dedupe xs)

-- `acc.flatMap((a) => cs.map((c) => xor(a, c)))`
unfoldable pub combine : List Bytes → List Bytes → List Bytes
combine [] cs = []
combine (a ∷ rest) cs = map (xor a) cs ++ combine rest cs

-- An AND ends with no candidate at the first child that has none.
unfoldable pub combine_some : List Bytes → List Bytes → Option (List Bytes)
unfolding combine
combine_some acc [] = none
combine_some acc (c ∷ cs) = some (cap (combine acc (c ∷ cs)))

module _ {ℓ} {A : Type ℓ} (open_leaf : A → List Bytes) where
  unfoldable mutual
    unfolding combine_some

    pub candidates : Tree A → List Bytes
    candidates (check a) = open_leaf a
    candidates (or ts) = cap (candidates_or ts)
    candidates (and ts) = candidates_and ts (some (zeros share_len ∷ []))

    pub candidates_or : Trees A → List Bytes
    candidates_or no_kids = []
    candidates_or (kid t ts) = candidates t ++ candidates_or ts

    pub candidates_and : Trees A → Option (List Bytes) → List Bytes
    candidates_and ts none = []
    candidates_and no_kids (some acc) = acc
    candidates_and (kid t ts) (some acc) = candidates_and ts (combine_some acc (candidates t))
