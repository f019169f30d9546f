-- ===== src/Policy/Honest.antt =====
-- shared/policy.mjs: the honesty chips against what a reader can do.
use lortnoc_tahc.Base.{
  ℕ, ◌+◌, ◌≡◌, refl, subst, Bool, true, false, none, List, [], Bytes, arith, Bool-cases, inl, inr,
}
use lortnoc_tahc.Policy.{
  Tree, Trees, check, and, or, no_kids, kid, under, satisfied, satisfied_every, satisfied_some,
}
use lortnoc_tahc.Policy.Checks.{
  CheckId, flags, Params, public_params, passphrase_params, recipients_params, after_params,
  human_params, nft_params, params_id, or_zero,
}
use lortnoc_tahc.Policy.Rules.{honesty, everyone, gate_holds}
use lortnoc_tahc.Policy.Seal.{Primitives}
use lortnoc_tahc.Policy.Open.{
  Reader, Sealed, parsed, Parsed, parse, open_leaf, open_payload, open_words, open_wraps,
  or_nothing,
}
use lortnoc_tahc.Policy.Denied.{has_some, opens_leaf, open_payload_denied}

-- More leaves never satisfy less.
module _ {ℓ} {A : Type ℓ} (p q : A → List ℕ → Bool)
    (implied : (a : A) (path : List ℕ) → p a path ≡ true → q a path ≡ true) where
  mutual
    unfolding satisfied

    pub satisfied_mono :
        (t : Tree A) (path : List ℕ) → satisfied t p path ≡ true → satisfied t q path ≡ true
    satisfied_mono (check a) path h = implied a path h
    satisfied_mono (and ts) path h = satisfied_every_mono ts path 0 h
    satisfied_mono (or ts) path h = satisfied_some_mono ts path 0 h

    satisfied_every_mono :
        (ts : Trees A) (path : List ℕ) (i : ℕ)
        → satisfied_every ts p path i ≡ true
        → satisfied_every ts q path i ≡ true
    satisfied_every_mono no_kids path i h = refl
    satisfied_every_mono (kid t ts) path i h =
        ground (arith, h, satisfied_mono t (under path i), satisfied_every_mono ts path (i + 1))

    satisfied_some_mono :
        (ts : Trees A) (path : List ℕ) (i : ℕ)
        → satisfied_some ts p path i ≡ true
        → satisfied_some ts q path i ≡ true
    satisfied_some_mono no_kids path i h = h
    satisfied_some_mono (kid t ts) path i h =
        ground (arith, h, satisfied_mono t (under path i), satisfied_some_mono ts path (i + 1))

abbrev pub leaf_id : Sealed → CheckId
leaf_id leaf = params_id leaf.params

module _ (c : Primitives) (reader : Reader) (no_words : reader.passphrases ≡ [])
    (no_key : reader.msg_key ≡ none) where
  -- Without a passphrase and a messaging key, only what everyone holds or the gate holds opens.
  gate_opens_parts :
      (nonce hash : Bytes) (params : Params) (at_path path : List ℕ) (material : Bytes)
      → has_some (
          open_leaf c reader nonce hash
            (record { params = params; path = at_path; material = material }))
        ≡ true
      → gate_holds params_id params path ≡ true
  unfolding gate_holds everyone flags open_leaf open_words open_wraps params_id
  gate_opens_parts nonce hash public_params at_path path material h = refl
  gate_opens_parts nonce hash (passphrase_params profile hint) at_path path material h =
      let shut =
        subst
          (λ ws.
            has_some (
              or_nothing c
                (open_words c reader.profiles nonce at_path material (or_zero profile) ws))
            ≡ true)
          no_words h in
      absurd (unfold open_words in cc)
  gate_opens_parts nonce hash (recipients_params count) at_path path material h =
      let shut =
        subst (λ key. has_some (open_wraps c nonce at_path material count key) ≡ true) no_key h in
      absurd (unfold open_wraps in cc)
  gate_opens_parts nonce hash (after_params ms) at_path path material h = refl
  gate_opens_parts nonce hash (human_params preset space country) at_path path material h = refl
  gate_opens_parts nonce hash (nft_params space) at_path path material h = refl

  gate_opens :
      (nonce hash : Bytes) (leaf : Sealed) (path : List ℕ)
      → opens_leaf (open_leaf c reader nonce hash) leaf path ≡ true
      → gate_holds leaf_id leaf path ≡ true
  unfolding gate_holds everyone
  gate_opens nonce hash leaf path h =
      unfold gate_holds in gate_opens_parts nonce hash leaf.params leaf.path path leaf.material h

  -- When the chip says that the gate cannot read a post, the gate's operator cannot open it: a reader
  -- with every answer that a gate can give, and neither a passphrase nor a messaging key.
  pub gate_can_read-open_payload :
      (squeezed : Bool) (payload : Bytes) (p : Parsed)
      → parse c payload ≡ parsed p
      → (honesty leaf_id p.shape).gate_can_read ≡ false
      → open_payload c reader squeezed payload ≡ none
  unfolding honesty
  gate_can_read-open_payload squeezed payload p read chip =
      open_payload_denied c reader squeezed payload p read
        (elim (Bool-cases
          (satisfied p.shape (opens_leaf (open_leaf c reader p.nonce p.policy_hash)) [])) [
            | inr denied ↦ denied
            | inl opened ↦
                let read_too =
                  satisfied_mono (opens_leaf (open_leaf c reader p.nonce p.policy_hash))
                    (gate_holds leaf_id) (gate_opens p.nonce p.policy_hash) p.shape [] opened in
                absurd cc
          ])
