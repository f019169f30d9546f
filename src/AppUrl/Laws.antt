-- ===== src/AppUrl/Laws.antt =====
-- The handle in the address is a claim label.
use lortnoc_tahc.Base.{
  ℕ, ◌≡◌, ◌⊎◌, inl, inr, refl, true, Option, none, some, [], ◌∷◌, ◌++◌, map, if◌then◌else◌, keep,
  Text, All, arith,
}
use lortnoc_tahc.AppUrl.{
  lower, is_label, drop_at_sign, clean_handle, has_char, with_handle, app_url_with_handle,
}
use lortnoc_tahc.Keys.{codes}

abbrev pub IsLabel : Text → Type 0
IsLabel = All (λ c. is_label c ≡ true)

keep-IsLabel : (t : Text) → IsLabel (keep is_label t)
keep-IsLabel [] = tt
keep-IsLabel (c ∷ t) = ground (arith, keep-IsLabel t)

lower-label : (c : ℕ) → is_label c ≡ true → lower c ≡ c
unfolding lower is_label
lower-label c h = ground arith

keep-label : (t : Text) → IsLabel t → keep is_label (map lower t) ≡ t
keep-label [] h = refl
keep-label (c ∷ t) (h, k) = rw (lower-label c h, h, keep-label t k)

drop_at_sign-label : (t : Text) → IsLabel t → drop_at_sign t ≡ t
unfolding drop_at_sign is_label
drop_at_sign-label [] h = refl
drop_at_sign-label (c ∷ t) (h, k) = ground arith

clean_handle-IsLabel : (handle : Text) → IsLabel (clean_handle handle)
unfolding clean_handle
clean_handle-IsLabel handle = keep-IsLabel (map lower (drop_at_sign handle))

-- A handle that is a claim label already is not changed.
clean_handle_id : (handle : Text) → IsLabel handle → clean_handle handle ≡ handle
unfolding clean_handle
clean_handle_id handle h = rw (drop_at_sign-label handle h) (keep-label handle h)

-- The address is the base itself, exactly as given, or the base followed by one parameter whose value
-- is a claim label that is not empty.
pub app_url_with_handle_shape :
    (base : Text) (handle : Option Text)
    → (app_url_with_handle base handle ≡ base)
      ⊎ ((c : ℕ) × (clean : Text) × IsLabel (c ∷ clean)
          × (app_url_with_handle base handle
              ≡ base
                ++ ((if has_char b'?' base then b'&' else b'?') ∷ (codes "handle=" ++ c ∷ clean))))
unfolding app_url_with_handle
app_url_with_handle_shape base none = inl refl
app_url_with_handle_shape base (some handle) =
    shape (clean_handle handle) (clean_handle-IsLabel handle)
  where
    shape :
        (t : Text)
        → IsLabel t
        → (with_handle base t ≡ base)
          ⊎ ((c : ℕ) × (clean : Text) × IsLabel (c ∷ clean)
              × (with_handle base t
                  ≡ base
                    ++ ((if has_char b'?' base then b'&' else b'?')
                        ∷ (codes "handle=" ++ c ∷ clean))))
    shape [] h = inl refl
    shape (c ∷ clean) h = inr (c, clean, h, refl)
