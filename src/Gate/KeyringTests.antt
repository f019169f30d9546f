-- ===== src/Gate/KeyringTests.antt =====
-- A wallet that is connected once, and what its session claims.
use lortnoc_tahc.Base.{◌≡◌, refl, Bool, false, none, List, [], ◌∷◌, list_eq, Text}
use lortnoc_tahc.Keys.{codes}
use lortnoc_tahc.Gate.{denied, given, Answer, challenge_used, every_char}
use lortnoc_tahc.Gate.Keyring.{KeyringDb, no_claims, wallet, issued, get_state, Summary, summary}
use lortnoc_tahc.Gate.Challenges.{wallet_connect, is_address}
use lortnoc_tahc.Gate.Nonces.{
  KeyringRequest, wallet_answers, forgets, serve_all, wallet_connect_once,
}

abbrev hash_id : Text → Text
hash_id t = t

-- A signature is good when it is the address.
abbrev recovers_toy : Text → Text → Text → Bool
recovers_toy message address sig = list_eq address sig

abbrev address : Text
address = codes "0xAbababababababababababababababababababab"

abbrev before : KeyringDb
before = record {
  sessions = [];
  state = (wallet (codes "n1"), issued (codes "reader") 5 false) ∷ [];
}

abbrev requests : List (KeyringRequest Text)
requests =
    forgets (codes "t1") ∷ wallet_answers 8 (codes "t2") (codes "n1") address address none ∷ []

abbrev first : KeyringDb × Answer (Text × Summary)
first = wallet_connect hash_id recovers_toy before 6 (codes "t1") (codes "n1") address address none

abbrev what : Answer (Text × Summary) → Text × Summary
what (given g) = g
what _ = ([], summary no_claims)

first_given : first ≡ (first.0, given (what first.1))
unfolding wallet_connect get_state is_address every_char list_eq
first_given = refl

wallet_connect_once_example :
    wallet_connect hash_id recovers_toy
      (serve_all hash_id recovers_toy none first.0 requests)
      9
      (codes "t3")
      (codes "n1")
      address
      address
      none
    ≡ (serve_all hash_id recovers_toy none first.0 requests, denied challenge_used)
wallet_connect_once_example =
    wallet_connect_once hash_id recovers_toy none before first.0 6 (codes "t1") (codes "n1") address
      address none (what first.1) requests 9 (codes "t3") address address none first_given
      (refl, (refl, tt))
