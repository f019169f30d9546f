-- ===== src/Policy/Decode.antt =====
-- shared/checks/*.mjs: what each check reads of its parameters from a post's shape.
use lortnoc_tahc.Base.{
  ℕ, ◌+◌, ◌*◌, ◌^◌, not, ◌||◌, Option, none, some, [], ◌∷◌, if◌then◌else◌, ltb, ◌==◌, between,
  length, take, drop, Bytes,
}
use lortnoc_tahc.Policy.Checks.{
  CheckId, public, passphrase, recipients, after, human, nft, Preset, poh, selfie, identity, Params,
  public_params, passphrase_params, recipients_params, after_params, human_params, nft_params,
  max_hint, max_recipients,
}

-- What `decodeParams` and `decodeShape` give: they throw, or meet a check that this version does not
-- know, or find something and go on after it. The position behind it is `none` when a length byte is
-- missing: `undefined` makes it NaN, and the tests that compare with it do not throw.
pub data Decoded {ℓ} (A : Type ℓ) : Type ℓ where
  malformed : Decoded A
  unknown : ℕ → Decoded A
  found : A → Option Bytes → Decoded A

-- The bytes from `at` on are the argument: `at + n > bytes.length` is `length bytes < n`.
abbrev pub optional : Bytes → Option Bytes
optional [] = none
optional (c ∷ s) = some (c ∷ s)

unfoldable pub preset_of : ℕ → Option Preset
preset_of n =
    if n == 0
    then some poh
    else if n == 1
    then some selfie
    else if n == 2
    then some identity
    else none

unfoldable pub decode_passphrase : Bytes → Decoded Params
decode_passphrase [] = found (passphrase_params none []) none
decode_passphrase (profile ∷ []) = found (passphrase_params (some profile) []) none
decode_passphrase (profile ∷ n ∷ rest) =
    if ltb max_hint n || ltb (length rest) n
    then malformed
    else found (passphrase_params (some profile) (take n rest)) (some (drop n rest))

unfoldable pub decode_recipients : Bytes → Decoded Params
decode_recipients [] = malformed
decode_recipients (count ∷ rest) =
    if between 1 max_recipients count
    then found (recipients_params count) (some rest)
    else malformed

unfoldable pub decode_after : Bytes → Decoded Params
decode_after (a ∷ b ∷ c ∷ d ∷ rest) =
    found (after_params ((a * 2 ^ 24 + b * 2 ^ 16 + c * 2 ^ 8 + d) * 1000)) (some rest)
decode_after _ = malformed

-- The country, after the space.
unfoldable pub decode_country : Preset → Option Bytes → Bytes → Decoded Params
decode_country identity space rest =
    if ltb (length rest) 3
    then malformed
    else found (human_params identity space (take 3 rest)) (some (drop 3 rest))
decode_country preset space rest = found (human_params preset space []) (some rest)

unfoldable pub decode_space : Option Preset → ℕ → Bytes → Decoded Params
unfolding decode_country
decode_space none n rest = malformed
decode_space (some preset) n rest =
    let tail = decode_country preset (optional (take n rest)) (drop n rest) in
    if ltb 33 n || ltb (length rest) n then malformed else tail

abbrev pub lost_human : Option Preset → Decoded Params
lost_human none = malformed
lost_human (some preset) = found (human_params preset none []) none

unfoldable pub decode_human : Bytes → Decoded Params
unfolding preset_of decode_space
decode_human [] = malformed
decode_human (preset ∷ []) = lost_human (preset_of preset)
decode_human (preset ∷ n ∷ rest) = decode_space (preset_of preset) n rest

unfoldable pub decode_nft : Bytes → Decoded Params
decode_nft [] = malformed
decode_nft (n ∷ rest) =
    if not (between 4 33 n) || ltb (length rest) n
    then malformed
    else found (nft_params (take n rest)) (some (drop n rest))

unfoldable pub decode_params : CheckId → Bytes → Decoded Params
unfolding decode_passphrase decode_recipients decode_after decode_human decode_nft
decode_params public bytes = found public_params (some bytes)
decode_params passphrase bytes = decode_passphrase bytes
decode_params recipients bytes = decode_recipients bytes
decode_params after bytes = decode_after bytes
decode_params human bytes = decode_human bytes
decode_params nft bytes = decode_nft bytes
