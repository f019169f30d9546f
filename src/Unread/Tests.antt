-- ===== src/Unread/Tests.antt =====
-- An inbox of two conversations, and the theorems applied to it.
use lortnoc_tahc.Base.{ℕ, ◌≡◌, refl, none, [], ◌∷◌, Text, list_eq}
use lortnoc_tahc.Keys.{codes}
use lortnoc_tahc.Unread.{
  Message, Conversation, get, put, unread_by_peer, seed_watermarks, seed_into, seed_mark, seed_next,
  unread_into, put_fresh, fresh, sort_by_ts, insert_by_ts,
}

abbrev said : Text → ℕ → Message
said who ts = record { from = who; to = codes "x"; ts = ts; body = codes "hi" }

-- Ann's messages came out of order; Bob's is old.
abbrev ann : Conversation
ann = record {
  conv_id = codes "a|me";
  peer = codes "a";
  head_blob_id = none;
  seq = 4;
  updated_at = 990000;
  messages =
      said (codes "a") 100
      ∷ said (codes "a") 990000
      ∷ said (codes "me") 995000
      ∷ said (codes "a") 980000
      ∷ [];
}

abbrev bob : Conversation
bob = record {
  conv_id = codes "b|me";
  peer = codes "b";
  head_blob_id = none;
  seq = 1;
  updated_at = 5000;
  messages = said (codes "b") 5000 ∷ [];
}

first_sign_in :
    unread_by_peer
      (bob ∷ ann ∷ [])
      (codes "me")
      (seed_watermarks (bob ∷ ann ∷ []) (codes "me") 1000000)
    ≡ (codes "a", said (codes "a") 980000 ∷ said (codes "a") 990000 ∷ []) ∷ []
unfolding unread_into seed_into seed_mark seed_next put_fresh put get fresh sort_by_ts insert_by_ts
    list_eq
first_sign_in = refl
