-- ===== src/Gate.antt =====
-- gate/*.mjs: the gate, which holds key shares for attested checks and releases them to readers who
-- pass. Gate/Spaces is the members of spaces and their bans, Gate/Keyring what a reader has connected,
-- Gate/Release single shares, Gate/Sealed the posts sealed with it, Gate/Verdicts what a reader's claims
-- open.
pub mod Spaces
pub mod Bans
pub mod Owners
pub mod Attests
pub mod Keyring
pub mod Challenges
pub mod Claims
pub mod State
pub mod Sealed
pub mod Verdicts
pub mod Unlock
pub mod Barred
pub mod SealedTests
pub mod Release
pub mod Deposits
pub mod Nonces
pub mod KeyringTests
pub mod SpaceTests
use lortnoc_tahc.Base.{ℕ, Bool, true, false, ◌&&◌, ◌||◌, between, ◌==◌, length, Text, [], ◌∷◌}

-- What a handler answers: it throws an HTTP error, denies with a reason, or gives something.
pub data Denial : Type 0 where
  banned bad_member_key not_a_member not_signed : Denial
  no_world unknown_request other_key world_refused : Denial
  no_challenge challenge_used challenge_expired bad_address not_from_wallet : Denial
  unknown_reference other_post no_holders : Denial
  not_yet : ℕ → Denial

pub data Answer {ℓ} (A : Type ℓ) : Type ℓ where
  thrown : ℕ → Answer A
  denied : Denial → Answer A
  given : A → Answer A

-- `[0-9a-f]`
abbrev pub is_hex_char : ℕ → Bool
is_hex_char c = between 48 57 c || between 97 102 c

-- `/^[0-9a-f]{n}$/`
unfoldable pub every_char : (ℕ → Bool) → Text → Bool
every_char p [] = true
every_char p (c ∷ cs) = p c && every_char p cs

unfoldable pub is_hex : ℕ → Text → Bool
unfolding every_char
is_hex n t = length t == n && every_char is_hex_char t
