-- ===== src/Gate/Claims.antt =====
-- gate/keyring.mjs: what a session claims.
use lortnoc_tahc.Base.{
  ℕ, ◌+◌, ◌≤◌, ◌<◌, ◌≡◌, refl, false, Option, none, some, List, [], ◌∷◌, length, ◌==◌, list_eq,
  list_eq_self, Text, arith, Bool-cases, inl, inr,
}
use lortnoc_tahc.Gate.Keyring.{
  KeyringDb, SessionRow, Claims, no_claims, find_session, put_session, drop_session, live_claims,
  claims_of, known_token, grant, forget, merge_claims, ttl_ms,
}

find_session-put_session :
    (rows : List SessionRow) (new : SessionRow)
    → find_session (put_session rows new) new.token_hash ≡ some new
unfolding find_session put_session
find_session-put_session [] new = rw (list_eq_self new.token_hash) refl
find_session-put_session (r ∷ rest) new = elim (Bool-cases (list_eq r.token_hash new.token_hash)) [
  | inl same ↦ rw (same, list_eq_self new.token_hash) refl
  | inr other ↦ rw (other, other) (find_session-put_session rest new)
]

find_session-drop_session :
    (rows : List SessionRow) (h : Text) → find_session (drop_session rows h) h ≡ none
unfolding find_session drop_session
find_session-drop_session [] h = refl
find_session-drop_session (r ∷ rest) h = elim (Bool-cases (list_eq r.token_hash h)) [
  | inl same ↦ rw same (find_session-drop_session rest h)
  | inr other ↦ rw (other, other) (find_session-drop_session rest h)
]

module _ (hash : Text → Text) where
  claims_of_put :
      (db : KeyringDb) (now : ℕ) (t : Text) (row : SessionRow)
      → (length t == 0) ≡ false
      → row.token_hash ≡ hash t
      → now < row.expires_at
      → claims_of hash (record db { sessions = put_session db.sessions row }) now (some t)
        ≡ row.claims
  unfolding claims_of live_claims
  claims_of_put db now t row named hashed live =
      rw (named, ← hashed, find_session-put_session db.sessions row) (ground (arith, live))

  -- The token of a grant, the one that was sent if it names a session and the fresh one otherwise,
  -- claims for a day what it claimed before, as far as that had not expired, with what was added.
  pub claims_of-grant :
      (db : KeyringDb) (now later : ℕ) (fresh : Text) (token : Option Text) (add : Claims)
      → (length (known_token hash db fresh token) == 0) ≡ false
      → later < now + ttl_ms
      → claims_of hash
          (grant hash db now fresh token add).0
          later
          (some (known_token hash db fresh token))
        ≡ merge_claims (claims_of hash db now (some (known_token hash db fresh token))) add
  unfolding grant
  claims_of-grant db now later fresh token add named soon =
      claims_of_put db later (known_token hash db fresh token)
        (record {
          token_hash = hash (known_token hash db fresh token);
          claims =
              merge_claims (claims_of hash db now (some (known_token hash db fresh token))) add;
          expires_at = now + ttl_ms;
        })
        named refl soon

  -- A token that was forgotten claims nothing.
  pub claims_of-forget :
      (db : KeyringDb) (now : ℕ) (token : Text)
      → claims_of hash (forget hash db token) now (some token) ≡ no_claims
  unfolding claims_of forget live_claims
  claims_of-forget db now token =
      rw (find_session-drop_session db.sessions (hash token)) (ground arith)

  -- After its time a session claims nothing.
  pub claims_of_expired :
      (db : KeyringDb) (now : ℕ) (token : Text) (row : SessionRow)
      → find_session db.sessions (hash token) ≡ some row
      → row.expires_at ≤ now
      → claims_of hash db now (some token) ≡ no_claims
  unfolding claims_of live_claims
  claims_of_expired db now token row found over = rw found (ground (arith, over))
