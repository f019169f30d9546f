-- ===== src/Gate/State.antt =====
-- gate/keyring.mjs: the table of challenges, and a nonce that was answered.
use lortnoc_tahc.Base.{
  ℕ, ◌≡◌, refl, ap, sym, subst, Bool, true, false, Option, some, List, [], ◌∷◌, if◌then◌else◌,
  list_eq, list_eq_self, list_eq_sound, Text, Bool-cases, inl, inr,
}
use lortnoc_tahc.Gate.Keyring.{
  KeyringDb, StateKey, StateValue, sid, wallet, issued, same_key, get_state, set_state,
}

pub same_key_sound : (j k : StateKey) → same_key j k ≡ true → j ≡ k
unfolding same_key
same_key_sound (sid a) (sid b) h = ap sid (list_eq_sound a b h)
same_key_sound (wallet a) (wallet b) h = ap wallet (list_eq_sound a b h)
same_key_sound (sid a) (wallet b) h = absurd cc
same_key_sound (wallet a) (sid b) h = absurd cc

pub same_key_self : (k : StateKey) → same_key k k ≡ true
unfolding same_key
same_key_self (sid a) = list_eq_self a
same_key_self (wallet a) = list_eq_self a

-- Reading back what was written, under the same key and under another.
pub get_state-set_state :
    (rows : List (StateKey × StateValue)) (k : StateKey) (v : StateValue)
    → get_state (set_state rows k v) k ≡ some v
unfolding get_state set_state
get_state-set_state [] k v = rw (same_key_self k) refl
get_state-set_state ((j, w) ∷ rest) k v = elim (Bool-cases (same_key j k)) [
  | inl same ↦ rw (same, same_key_self k) refl
  | inr other ↦ rw (other, other) (get_state-set_state rest k v)
]

pub get_state-set_other :
    (rows : List (StateKey × StateValue)) (k l : StateKey) (v : StateValue)
    → same_key k l ≡ false
    → get_state (set_state rows k v) l ≡ get_state rows l
unfolding get_state set_state
get_state-set_other [] k l v h = rw h refl
get_state-set_other ((j, w) ∷ rest) k l v h = elim (Bool-cases (same_key j k)) [
  | inl same ↦
      let differs : same_key j l ≡ false =
        subst (λ x. same_key x l ≡ false) (sym (same_key_sound j k same)) h in
      rw (same, h, differs) refl
  | inr other ↦
      rw other (ap (λ o. if same_key j l then some w else o) (get_state-set_other rest k l v h))
]

abbrev pub is_used : Option StateValue → Bool
is_used (some (issued reader at_time used)) = used
is_used _ = false

-- The nonce was answered.
unfoldable pub is_spent : KeyringDb → Text → Bool
is_spent db nonce = is_used (get_state db.state (wallet nonce))

-- Marking a nonce as used keeps every nonce that was.
pub spend_keeps :
    (rows : List (StateKey × StateValue)) (n reader nonce : Text) (at_time : ℕ)
    → is_used (get_state rows (wallet nonce)) ≡ true
    → is_used (get_state (set_state rows (wallet n) (issued reader at_time true)) (wallet nonce))
      ≡ true
unfolding same_key
spend_keeps rows n reader nonce at_time h = elim (Bool-cases (list_eq n nonce)) [
  | inl same ↦
      subst
        (λ m.
          is_used (get_state (set_state rows (wallet n) (issued reader at_time true)) (wallet m))
          ≡ true)
        (list_eq_sound n nonce same)
        (subst (λ o. is_used o ≡ true)
          (sym (get_state-set_state rows (wallet n) (issued reader at_time true))) refl)
  | inr other ↦
      subst (λ o. is_used o ≡ true)
        (sym
          (get_state-set_other rows (wallet n) (wallet nonce) (issued reader at_time true) other))
        h
]

-- A challenge with another nonce changes none of this one.
pub asks_kept :
    (db : KeyringDb) (now : ℕ) (n reader nonce : Text)
    → list_eq n nonce ≡ false
    → is_spent db nonce ≡ true
    → is_spent (record db { state = set_state db.state (wallet n) (issued reader now false) }) nonce
      ≡ true
unfolding is_spent same_key
asks_kept db now n reader nonce other h =
    subst (λ o. is_used o ≡ true)
      (sym (get_state-set_other db.state (wallet n) (wallet nonce) (issued reader now false) other))
      h
