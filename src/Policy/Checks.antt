-- ===== src/Policy/Checks.antt =====
-- shared/checks/*.mjs: the registry of checks, and what each check writes into a post's shape and
-- reads from it. A text is the list of its UTF-8 bytes, and the empty text stands for a missing one
-- where the source treats both alike. `normalise` stands for `normalisePassphrase`, whose Unicode
-- tables are not in the repository.
use lortnoc_tahc.Base.{
  ℕ, ◌/◌, ◌%◌, ◌^◌, Bool, true, false, not, ◌&&◌, ◌||◌, Option, none, some, List, [], ◌∷◌, ◌++◌,
  if◌then◌else◌, ltb, leb, ◌==◌, between, length, is_some, Bytes,
}

pub data CheckId : Type 0 where
  public passphrase recipients after human nft : CheckId

pub data Preset : Type 0 where
  poh selfie identity : Preset

-- What the author of a post writes, secrets included.
pub data Spec : Type 0 where
  public_spec : Spec
  -- profile, hint, passphrase, or in its place the key that was stretched from it
  passphrase_spec : Option ℕ → Bytes → Bytes → Option Bytes → Spec
  -- the messaging keys of the people
  recipients_spec : List Bytes → Spec
  -- milliseconds since the epoch
  after_spec : ℕ → Spec
  -- preset, space, country
  human_spec : Option Preset → Option Bytes → Bytes → Spec
  -- space
  nft_spec : Bytes → Spec

-- What a reader finds in a post: the public part. Profile `none` is one that the bytes lack.
pub data Params : Type 0 where
  public_params : Params
  passphrase_params : Option ℕ → Bytes → Params
  recipients_params : ℕ → Params
  after_params : ℕ → Params
  human_params : Preset → Option Bytes → Bytes → Params
  nft_params : Bytes → Params

unfoldable pub spec_id : Spec → CheckId
spec_id public_spec = public
spec_id (passphrase_spec profile hint words key) = passphrase
spec_id (recipients_spec keys) = recipients
spec_id (after_spec ms) = after
spec_id (human_spec preset space country) = human
spec_id (nft_spec space) = nft

unfoldable pub params_id : Params → CheckId
params_id public_params = public
params_id (passphrase_params profile hint) = passphrase
params_id (recipients_params count) = recipients
params_id (after_params ms) = after
params_id (human_params preset space country) = human
params_id (nft_params space) = nft

unfoldable pub tag : CheckId → ℕ
tag public = 1
tag passphrase = 2
tag recipients = 3
tag after = 16
tag human = 17
tag nft = 18

-- `TAGS.get(tag)`
unfoldable pub by_tag : ℕ → Option CheckId
by_tag t =
    if t == 1
    then some public
    else if t == 2
    then some passphrase
    else if t == 3
    then some recipients
    else if t == 16
    then some after
    else if t == 17
    then some human
    else if t == 18
    then some nft
    else none

-- `flags` of a check: a flag that the source does not name is false.
pub record Flags : Type 0 where
  pub anyone_can_open : Bool
  pub gate_holds_share : Bool
  pub offline_guessable : Bool

unfoldable pub flags : CheckId → Flags
flags public = record {
  anyone_can_open = true;
  gate_holds_share = false;
  offline_guessable = false;
}
flags passphrase = record {
  anyone_can_open = false;
  gate_holds_share = false;
  offline_guessable = true;
}
flags recipients = record {
  anyone_can_open = false;
  gate_holds_share = false;
  offline_guessable = false;
}
flags after = record { anyone_can_open = false; gate_holds_share = true; offline_guessable = false }
flags human = record { anyone_can_open = false; gate_holds_share = true; offline_guessable = false }
flags nft = record { anyone_can_open = false; gate_holds_share = true; offline_guessable = false }

abbrev pub max_hint : ℕ
max_hint = 60

abbrev pub max_recipients : ℕ
max_recipients = 16

-- `[a-z0-9-]`
abbrev pub is_name_char : ℕ → Bool
is_name_char c = between 97 122 c || between 48 57 c || c == 45

abbrev pub every : (ℕ → Bool) → Bytes → Bool
every p [] = true
every p (c ∷ cs) = p c && every p cs

-- `/^[a-z0-9-]{3,32}$/` and `/^@[a-z0-9-]{3,32}$/`
unfoldable pub is_plain_space : Bytes → Bool
is_plain_space s = between 3 32 (length s) && every is_name_char s

unfoldable pub is_ens_space : Bytes → Bool
unfolding is_plain_space
is_ens_space [] = false
is_ens_space (c ∷ s) = c == 64 && is_plain_space s

-- `/^[A-Z]{3}$/`
unfoldable pub is_country : Bytes → Bool
is_country s = length s == 3 && every (between 65 90) s

abbrev pub is_identity : Option Preset → Bool
is_identity (some identity) = true
is_identity _ = false

unfoldable pub is_space_or_missing : Option Bytes → Bool
unfolding is_plain_space is_ens_space
is_space_or_missing none = true
is_space_or_missing (some s) = is_plain_space s || is_ens_space s

abbrev pub every_key : (Bytes → Bool) → List Bytes → Bool
every_key p [] = true
every_key p (k ∷ ks) = p k && every_key p ks

-- `validate` of each check: false where it throws. An author's leaf is never marked `fromWire`.
abbrev pub valid_passphrase : (Bytes → Bytes) → Bytes → Bytes → Option Bytes → Bool
valid_passphrase normalise hint words key =
    (not (length (normalise words) == 0) || is_some key) && leb (length hint) max_hint

abbrev pub valid_recipients : List Bytes → Bool
valid_recipients keys =
    between 1 max_recipients (length keys) && every_key (λ k. length k == 32) keys

abbrev pub valid_human : Option Preset → Option Bytes → Bytes → Bool
valid_human preset space country =
    is_space_or_missing space && (not (is_identity preset) || is_country country)

unfoldable pub valid_spec : (Bytes → Bytes) → Spec → Bool
valid_spec normalise public_spec = true
valid_spec normalise (passphrase_spec profile hint words key) =
    valid_passphrase normalise hint words key
valid_spec normalise (recipients_spec keys) = valid_recipients keys
valid_spec normalise (after_spec ms) = ltb 0 ms
valid_spec normalise (human_spec preset space country) = valid_human preset space country
valid_spec normalise (nft_spec space) = is_ens_space space

abbrev pub or_zero : Option ℕ → ℕ
or_zero none = 0
or_zero (some n) = n

abbrev pub or_empty : Option Bytes → Bytes
or_empty none = []
or_empty (some s) = s

abbrev pub or_poh : Option Preset → Preset
or_poh none = poh
or_poh (some p) = p

-- `PRESETS.indexOf(preset)`
abbrev pub preset_index : Preset → ℕ
preset_index poh = 0
preset_index selfie = 1
preset_index identity = 2

unfoldable pub country_part : Preset → Bytes → Bytes
country_part identity country = country
country_part _ country = []

-- `encodeParams` of each check. The numbers are written as bytes, so each is taken below 256.
abbrev pub encode_passphrase : Option ℕ → Bytes → Bytes
encode_passphrase profile hint = or_zero profile % 256 ∷ length hint % 256 ∷ hint

abbrev pub encode_recipients : List Bytes → Bytes
encode_recipients keys = length keys % 256 ∷ []

abbrev pub encode_after : ℕ → Bytes
encode_after ms =
    let s = ms / 1000 in s / 2 ^ 24 % 256 ∷ s / 2 ^ 16 % 256 ∷ s / 2 ^ 8 % 256 ∷ s % 256 ∷ []

abbrev pub encode_human : Option Preset → Option Bytes → Bytes → Bytes
encode_human preset space country =
    preset_index (or_poh preset) ∷ length (or_empty space) % 256 ∷ or_empty space
    ++ country_part (or_poh preset) country

abbrev pub encode_nft : Bytes → Bytes
encode_nft space = length space % 256 ∷ space

unfoldable pub encode_params : Spec → Bytes
encode_params public_spec = []
encode_params (passphrase_spec profile hint words key) = encode_passphrase profile hint
encode_params (recipients_spec keys) = encode_recipients keys
encode_params (after_spec ms) = encode_after ms
encode_params (human_spec preset space country) = encode_human preset space country
encode_params (nft_spec space) = encode_nft space
