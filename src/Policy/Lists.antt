-- ===== src/Policy/Lists.antt =====
-- shared/policy.mjs: what `dedupe`, `slice` and the combination of candidates keep.
use lortnoc_tahc.Base.{
  take_enough, ℕ, suc, ◌*◌, ◌≤◌, ◌≡◌, refl, ap, sym, subst, true, List, [], ◌∷◌, ◌++◌, map, ◌||◌,
  take, length, length-append, length-take, Bytes, list_eq, list_eq_self, list_eq_sound, xor, arith,
  Bool-cases, inl, inr,
}
use lortnoc_tahc.Policy.Candidates.{contains, dedupe_seen, dedupe, max_candidates, cap, combine}

pub contains-append :
    (a : Bytes) (xs ys : List Bytes) → contains a (xs ++ ys) ≡ (contains a xs || contains a ys)
contains-append a [] ys = refl
contains-append a (x ∷ xs) ys = ground (arith, contains-append a xs ys)

contains-dedupe_seen :
    (a : Bytes) (xs seen : List Bytes)
    → contains a xs ≡ true
    → (contains a (dedupe_seen xs seen) || contains a seen) ≡ true
unfolding dedupe_seen
contains-dedupe_seen a [] seen h = absurd cc
contains-dedupe_seen a (x ∷ xs) seen h = elim (Bool-cases (list_eq a x)) [
  | inl same ↦
      let seen_too : contains x seen ≡ contains a seen =
        ap (λ y. contains y seen) (sym (list_eq_sound a x same)) in
      ground (arith, seen_too, same)
  | inr other ↦
      ground (arith, other, h, contains-dedupe_seen a xs seen, contains-dedupe_seen a xs (x ∷ seen))
]

length-dedupe_seen : (xs seen : List Bytes) → length (dedupe_seen xs seen) ≤ length xs
unfolding dedupe_seen
length-dedupe_seen [] seen = omega arith
length-dedupe_seen (x ∷ xs) seen =
    ground (arith, length-dedupe_seen xs seen, length-dedupe_seen xs (x ∷ seen))

-- Under the limit nothing is lost.
pub contains-take-dedupe :
    (n : ℕ) (a : Bytes) (xs : List Bytes)
    → length xs ≤ n
    → contains a xs ≡ true
    → contains a (take n (dedupe xs)) ≡ true
unfolding dedupe
contains-take-dedupe n a xs small h =
    rw (take_enough n (dedupe_seen xs []) (omega (arith, length-dedupe_seen xs [])))
      (ground (arith, contains-dedupe_seen a xs [] h))

pub contains-cap :
    (a : Bytes) (xs : List Bytes)
    → length xs ≤ max_candidates
    → contains a xs ≡ true
    → contains a (cap xs) ≡ true
contains-cap a xs small h = contains-take-dedupe max_candidates a xs small h

pub length-cap : (xs : List Bytes) → length (cap xs) ≤ length xs
unfolding dedupe
length-cap xs =
    omega (arith, length-take max_candidates (dedupe_seen xs []), length-dedupe_seen xs [])

contains-map-xor :
    (a c : Bytes) (cs : List Bytes)
    → contains c cs ≡ true
    → contains (xor a c) (map (xor a) cs) ≡ true
contains-map-xor a c [] h = absurd cc
contains-map-xor a c (d ∷ cs) h = elim (Bool-cases (list_eq c d)) [
  | inl same ↦
      let equal : list_eq (xor a c) (xor a d) ≡ true =
        subst (λ y. list_eq (xor a c) (xor a y) ≡ true) (list_eq_sound c d same)
          (list_eq_self (xor a c)) in
      ground (arith, equal)
  | inr other ↦ ground (arith, other, h, contains-map-xor a c cs)
]

length-map : (f : Bytes → Bytes) (xs : List Bytes) → length (map f xs) ≡ length xs
length-map f [] = refl
length-map f (x ∷ xs) = ap suc (length-map f xs)

pub length-combine : (acc cs : List Bytes) → length (combine acc cs) ≡ length acc * length cs
unfolding combine
length-combine [] cs = omega arith
length-combine (a ∷ acc) cs = omega (
  arith,
  length-append (map (xor a) cs) (combine acc cs),
  length-map (xor a) cs,
  length-combine acc cs,
)

pub contains-combine :
    (a c : Bytes) (acc cs : List Bytes)
    → contains a acc ≡ true
    → contains c cs ≡ true
    → contains (xor a c) (combine acc cs) ≡ true
unfolding combine
contains-combine a c [] cs h k = absurd cc
contains-combine a c (b ∷ acc) cs h k = elim (Bool-cases (list_eq a b)) [
  | inl same ↦
      let first : contains (xor a c) (map (xor b) cs) ≡ true =
        subst (λ y. contains (xor a c) (map (xor y) cs) ≡ true) (list_eq_sound a b same)
          (contains-map-xor a c cs k) in
      ground (arith, first, contains-append (xor a c) (map (xor b) cs) (combine acc cs))
  | inr other ↦ ground (
    arith,
    other,
    h,
    contains-combine a c acc cs,
    contains-append (xor a c) (map (xor b) cs) (combine acc cs),
  )
]
