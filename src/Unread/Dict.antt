-- ===== src/Unread/Dict.antt =====
-- Entries of an object: what a `put` changes.
use lortnoc_tahc.Base.{
  ◌≡◌, refl, false, some, List, [], ◌∷◌, if◌then◌else◌, Bool-cases, inl, inr, list_eq, list_eq_self,
  list_eq_sound, Text, ap, ◌∙◌,
}
use lortnoc_tahc.Unread.{get, put}

module _ {ℓ} {A : Type ℓ} where
  pub get-put : (key : Text) (a : A) (d : List (Text × A)) → get key (put key a d) ≡ some a
  unfolding get put
  get-put key a [] = rw (list_eq_self key) refl
  get-put key a ((k, b) ∷ rest) = elim (Bool-cases (list_eq k key)) [
    | inl e ↦ rw (e, put, e) refl
    | inr e ↦ rw (e, put, e) (get-put key a rest)
  ]

  pub get-put_other :
      (key other : Text) (a : A) (d : List (Text × A))
      → list_eq other key ≡ false
      → get key (put other a d) ≡ get key d
  unfolding get put
  get-put_other key other a [] n = rw n refl
  get-put_other key other a ((k, b) ∷ rest) n = elim (Bool-cases (list_eq k other)) [
    | inl e ↦ rw (e, put, ap (λ z. list_eq z key) (list_eq_sound k other e) ∙ n) refl
    | inr e ↦
        rw (e, put)
          (ap (λ o. if list_eq k key then some b else o) (get-put_other key other a rest n))
  ]
