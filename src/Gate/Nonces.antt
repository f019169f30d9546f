-- ===== src/Gate/Nonces.antt =====
-- gate/keyring.mjs: the challenge of a wallet is answered once.
use lortnoc_tahc.Base.{
  ℕ, ◌-◌, ◌≡◌, refl, ap, sym, subst, Bool, true, false, not, Option, none, some, List, [], ◌∷◌, All,
  ltb, list_eq, Text, if_either,
}
use lortnoc_tahc.Policy.Checks.{Preset, poh, selfie, identity, is_country}
use lortnoc_tahc.Gate.{
  Denial, Answer, denied, given, is_hex, challenge_used, no_challenge, challenge_expired,
  bad_address, not_from_wallet,
}
use lortnoc_tahc.Gate.Keyring.{
  KeyringDb, StateValue, sid, wallet, asked, issued, same_key, get_state, set_state, grant, forget,
  Summary,
}
use lortnoc_tahc.Gate.State.{
  get_state-set_state, get_state-set_other, is_used, is_spent, spend_keeps, asks_kept,
}
use lortnoc_tahc.Gate.Challenges.{
  Kind, World, preset_for, world_challenge, world_kind, world_connect, world_answered,
  world_granted, wallet_challenge, wallet_connect, wallet_answered, wallet_used, ten_minutes,
  connect_text, is_address,
}

abbrev Connected : Type 0
Connected = KeyringDb × Answer (Text × Summary)

no_given :
    (d : Denial) (g : Text × Summary) (x y : Answer (Text × Summary))
    → x ≡ denied d
    → y ≡ given g
    → x ≡ y
    → ⊥
no_given d g x y p q e = cc

no_answer :
    (d : Denial) (db after : KeyringDb) (g : Text × Summary)
    → ◌≡◌ {A = Connected} (db, denied d) (after, given g)
    → ⊥
no_answer d db after g e =
    no_given d g (denied d) (given g) refl refl (ap (λ (r : Connected). r.1) e)

pub data KeyringRequest (Proof : Type 0) : Type 0 where
  world_asks : Text → Kind → Text → Text → KeyringRequest Proof
  world_answers : ℕ → Text → Text → Text → Proof → Option Text → KeyringRequest Proof
  wallet_asks : ℕ → Text → Text → KeyringRequest Proof
  wallet_answers : ℕ → Text → Text → Text → Proof → Option Text → KeyringRequest Proof
  forgets : Text → KeyringRequest Proof

-- The request draws this nonce anew.
abbrev pub draws : {Proof : Type 0} → Text → KeyringRequest Proof → Bool
draws nonce (wallet_asks now n reader) = list_eq n nonce
draws nonce _ = false

module _ {Proof : Type 0} (hash : Text → Text) (recovers : Text → Text → Proof → Bool)
    (world : Option (World Proof)) where
  unfoldable pub serve : KeyringDb → KeyringRequest Proof → KeyringDb
  serve db (world_asks id kind country reader) =
      (world_challenge hash recovers db world id kind country reader).0
  serve db (world_answers now fresh id reader proof token) =
      (world_connect hash recovers db world now fresh id reader proof token).0
  serve db (wallet_asks now nonce reader) = (wallet_challenge hash recovers db now nonce reader).0
  serve db (wallet_answers now fresh nonce address sig token) =
      (wallet_connect hash recovers db now fresh nonce address sig token).0
  serve db (forgets token) = forget hash db token

  unfoldable pub serve_all : KeyringDb → List (KeyringRequest Proof) → KeyringDb
  unfolding serve
  serve_all db [] = db
  serve_all db (r ∷ rest) = serve_all (serve db r) rest

  wallet_row-is_spent :
      (db : KeyringDb) (now : ℕ) (fresh n address nonce : Text) (sig : Proof) (token : Option Text)
      (row : Option StateValue)
      → is_spent db nonce ≡ true
      → is_spent (wallet_answered hash recovers db now fresh n address sig token row).0 nonce ≡ true
  unfolding is_spent wallet_answered wallet_used grant
  wallet_row-is_spent db now fresh n address nonce sig token none h = h
  wallet_row-is_spent db now fresh n address nonce sig token (some (asked p c w)) h = h
  wallet_row-is_spent db now fresh n address nonce sig token (some (issued reader at_time used)) h =
      let spent = spend_keeps db.state n reader nonce at_time h in
      if_either Kept used h (
        if_either Kept (ltb ten_minutes (now - at_time)) h (
          if_either Kept (not (is_address address)) spent
            (if_either Kept (not (recovers (connect_text reader n) address sig)) spent spent)))
    where
      Kept : KeyringDb × Answer (Text × Summary) → Type 0
      Kept r = is_used (get_state r.0.state (wallet nonce)) ≡ true

  world_row-is_spent :
      (db : KeyringDb) (w : World Proof) (now : ℕ) (fresh id reader : Text) (proof : Proof)
      (token : Option Text) (row : Option StateValue) (nonce : Text)
      → is_spent db nonce ≡ true
      → is_spent (world_answered hash recovers db w now fresh id reader proof token row).0 nonce
        ≡ true
  unfolding is_spent world_answered world_granted grant
  world_row-is_spent db w now fresh id reader proof token none nonce h = h
  world_row-is_spent db w now fresh id reader proof token (some (issued r t u)) nonce h = h
  world_row-is_spent db w now fresh id reader proof token (some (asked preset country want)) nonce
        h =
      if_either Kept (not (list_eq want reader)) h (verdict (w.verify proof id reader preset))
    where
      Kept : KeyringDb × Answer (Text × Summary) → Type 0
      Kept r = is_used (get_state r.0.state (wallet nonce)) ≡ true

      verdict :
          (v : Option Text) → Kept (world_granted hash recovers db now fresh token preset country v)
      verdict none = h
      verdict (some nullifier) = h

  asked-is_spent :
      (db : KeyringDb) (id country reader : Text) (preset : Option Preset) (nonce : Text)
      → is_spent db nonce ≡ true
      → is_spent (world_kind hash recovers db id country reader preset).0 nonce ≡ true
  unfolding is_spent world_kind same_key
  asked-is_spent db id country reader none nonce h = h
  asked-is_spent db id country reader (some preset) nonce h = go preset
    where
      kept :
          (p : Preset)
          → is_used
              (get_state (set_state db.state (sid id) (asked p country reader)) (wallet nonce))
            ≡ true
      kept p =
          subst (λ o. is_used o ≡ true)
            (sym
              (get_state-set_other db.state (sid id) (wallet nonce) (asked p country reader) refl))
            h

      Kept : KeyringDb × Answer Text → Type 0
      Kept r = is_used (get_state r.0.state (wallet nonce)) ≡ true

      go : (p : Preset) → Kept (world_kind hash recovers db id country reader (some p))
      go poh = kept poh
      go selfie = kept selfie
      go identity = if_either Kept (not (is_country country)) h (kept identity)

  serve-is_spent :
      (db : KeyringDb) (r : KeyringRequest Proof) (nonce : Text)
      → draws nonce r ≡ false
      → is_spent db nonce ≡ true
      → is_spent (serve db r) nonce ≡ true
  unfolding serve world_challenge world_connect wallet_challenge wallet_connect forget is_spent
  serve-is_spent db (world_asks id kind country reader) nonce other h = asks world
    where
      Kept : KeyringDb × Answer Text → Type 0
      Kept r = is_spent r.0 nonce ≡ true

      asks :
          (w : Option (World Proof))
          → Kept (world_challenge hash recovers db w id kind country reader)
      asks none = h
      asks (some w) =
          if_either Kept (not (is_hex 64 reader)) h
            (asked-is_spent db id country reader (preset_for kind) nonce h)
  serve-is_spent db (world_answers now fresh id reader proof token) nonce other h = answers world
    where
      answers :
          (w : Option (World Proof))
          → is_spent (world_connect hash recovers db w now fresh id reader proof token).0 nonce
            ≡ true
      answers none = h
      answers (some w) =
          world_row-is_spent db w now fresh id reader proof token (get_state db.state (sid id))
            nonce h
  serve-is_spent db (wallet_asks now n reader) nonce other h =
      if_either Kept (not (is_hex 64 reader)) h (asks_kept db now n reader nonce other h)
    where
      Kept : KeyringDb × Answer (Text × Text) → Type 0
      Kept r = is_spent r.0 nonce ≡ true
  serve-is_spent db (wallet_answers now fresh n address sig token) nonce other h =
      wallet_row-is_spent db now fresh n address nonce sig token (get_state db.state (wallet n)) h
  serve-is_spent db (forgets token) nonce other h = h

  serve_all-is_spent :
      (db : KeyringDb) (requests : List (KeyringRequest Proof)) (nonce : Text)
      → All (λ r. draws nonce r ≡ false) requests
      → is_spent db nonce ≡ true
      → is_spent (serve_all db requests) nonce ≡ true
  unfolding serve_all
  serve_all-is_spent db [] nonce others h = h
  serve_all-is_spent db (r ∷ rest) nonce others h =
      serve_all-is_spent (serve db r) rest nonce others.1 (serve-is_spent db r nonce others.0 h)

  -- An answer that is given has used up its nonce.
  given-is_spent :
      (db after : KeyringDb) (now : ℕ) (fresh nonce address : Text) (sig : Proof)
      (token : Option Text) (row : Option StateValue) (g : Text × Summary)
      → wallet_answered hash recovers db now fresh nonce address sig token row ≡ (after, given g)
      → is_spent after nonce ≡ true
  unfolding wallet_answered wallet_used grant is_spent
  given-is_spent db after now fresh nonce address sig token none g h =
      absurd (no_answer no_challenge db after g h)
  given-is_spent db after now fresh nonce address sig token (some (asked p c w)) g h =
      absurd (no_answer no_challenge db after g h)
  given-is_spent db after now fresh nonce address sig token (some (issued reader at_time used)) g
        h =
      if_either Answers used (λ e. absurd (no_answer challenge_used db after g e))
        (if_either Answers (ltb ten_minutes (now - at_time))
          (λ e. absurd (no_answer challenge_expired db after g e))
          (if_either Answers (not (is_address address))
            (λ e. absurd (no_answer bad_address spent after g e))
            (if_either Answers (not (recovers (connect_text reader nonce) address sig))
              (λ e. absurd (no_answer not_from_wallet spent after g e))
              (λ e. subst (λ d. is_spent d nonce ≡ true) (ap (λ r. r.0) e) marked))))
        h
    where
      spent : KeyringDb
      spent = record db { state = set_state db.state (wallet nonce) (issued reader at_time true) }

      Answers : KeyringDb × Answer (Text × Summary) → Type 0
      Answers r = r ≡ (after, given g) → is_spent after nonce ≡ true

      marked :
          is_used (
            get_state
              (set_state db.state (wallet nonce) (issued reader at_time true))
              (wallet nonce))
          ≡ true
      marked =
          subst (λ o. is_used o ≡ true)
            (sym (get_state-set_state db.state (wallet nonce) (issued reader at_time true))) refl

  spent-denied :
      (db : KeyringDb) (now : ℕ) (fresh nonce address : Text) (sig : Proof) (token : Option Text)
      (row : Option StateValue)
      → is_used row ≡ true
      → wallet_answered hash recovers db now fresh nonce address sig token row
        ≡ (db, denied challenge_used)
  unfolding wallet_answered
  spent-denied db now fresh nonce address sig token none h = absurd cc
  spent-denied db now fresh nonce address sig token (some (asked p c w)) h = absurd cc
  spent-denied db now fresh nonce address sig token (some (issued reader at_time used)) h =
      rw h refl

  -- The nonce of a wallet's challenge connects a wallet once: after an answer to it was accepted, and
  -- any requests of which none draws the same nonce anew, every answer to it is denied as used.
  pub wallet_connect_once :
      (db after : KeyringDb) (now : ℕ) (fresh nonce address : Text) (sig : Proof)
      (token : Option Text) (g : Text × Summary) (requests : List (KeyringRequest Proof))
      (later : ℕ) (fresh2 address2 : Text) (sig2 : Proof) (token2 : Option Text)
      → wallet_connect hash recovers db now fresh nonce address sig token ≡ (after, given g)
      → All (λ r. draws nonce r ≡ false) requests
      → wallet_connect hash recovers
          (serve_all after requests)
          later
          fresh2
          nonce
          address2
          sig2
          token2
        ≡ (serve_all after requests, denied challenge_used)
  unfolding wallet_connect is_spent
  wallet_connect_once db after now fresh nonce address sig token g requests later fresh2 address2
        sig2 token2 h others =
      spent-denied (serve_all after requests) later fresh2 nonce address2 sig2 token2
        (get_state (serve_all after requests).state (wallet nonce))
        (serve_all-is_spent after requests nonce others (
          given-is_spent db after now fresh nonce address sig token
            (get_state db.state (wallet nonce)) g h))
