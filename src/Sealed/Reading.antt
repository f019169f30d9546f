-- ===== src/Sealed/Reading.antt =====
-- shared/sealed.mjs: `sealedRef` and `openPost`. The labels of `describe` and the label of `honesty` are
-- made from the shape that is given back.
use lortnoc_tahc.Base.{
  ℕ, zero, suc, ◌+◌, ◌-◌, ◌*◌, ◌/◌, ◌%◌, ◌^◌, Bool, Option, none, some, List, [], ◌∷◌, ◌++◌,
  if◌then◌else◌, length, leb, ◌==◌, get_or, take, drop, keep, xor, zeros, Bytes, Text,
}
use lortnoc_tahc.Squeeze.{unsqueeze_maybe}
use lortnoc_tahc.Policy.{Tree}
use lortnoc_tahc.Policy.Checks.{Params}
use lortnoc_tahc.Policy.Candidates.{dedupe}
use lortnoc_tahc.Policy.Decode.{Decoded, malformed, unknown, found}
use lortnoc_tahc.Policy.Seal.{Primitives, share_len}
use lortnoc_tahc.Policy.Shape.{decode_shape, max_depth}
use lortnoc_tahc.Sealed.Rows.{slot_count}
use lortnoc_tahc.Sealed.Post.{
  salt_len, ref_len, slot_len, head_len, sealed_version, public_key_of_all, unwrap_slot, sealed_cek,
}

-- `sealedRef`
unfoldable pub sealed_ref : Bytes → Option Bytes
sealed_ref frame =
    if leb (length frame) (head_len + 16) then none else some (take ref_len (drop salt_len frame))

abbrev pub max_shares : ℕ
max_shares = 10

-- What a reader gets: nothing, an error that is thrown, or the text, if it decodes, with the shape.
pub data Opening : Type 0 where
  closed : Opening
  broken : Opening
  opened : Option Text → Tree Params → Opening

-- The XOR of the shares at the digits of the mask.
unfoldable pub mask_key : Bytes → ℕ → List Bytes → Bytes
mask_key k mask [] = k
mask_key k mask (s ∷ ss) = mask_key (if mask % 2 == 1 then xor k s else k) (mask / 2) ss

abbrev pub with_share : Option Bytes → List Bytes → List Bytes
with_share none found_so = found_so
with_share (some s) found_so = s ∷ found_so

abbrev pub is_share : Bytes → Bool
is_share s = length s == share_len

abbrev pub held_shares : List Bytes → List Bytes
held_shares shares = take max_shares (dedupe shares)

abbrev pub read_shape : Option Text → Decoded (Tree Params) → Opening
read_shape text malformed = broken
read_shape text (unknown t) = broken
read_shape text (found shape place) = opened text shape

-- What the plaintext of a body says.
unfoldable pub read_inner : List Text → Bytes → Opening
read_inner table inner =
    let size = get_or inner 2 0 * 256 + get_or inner 3 0 in
    if get_or inner 0 0 == sealed_version
    then read_shape (unsqueeze_maybe table (drop (4 + size) inner) (get_or inner 1 0 % 2 == 1))
        (decode_shape max_depth (take size (drop 4 inner)))
    else closed

abbrev pub or_next_mask : List Text → Option Bytes → Opening → Opening
or_next_mask table none later = later
or_next_mask table (some inner) later = read_inner table inner

module _ (c : Primitives) where
  unfoldable pub try_keys : Bytes → ℕ → Bytes → List Bytes → List Bytes
  try_keys salt i slot [] = []
  try_keys salt i slot (k ∷ ks) = with_share (unwrap_slot c k salt i slot) (try_keys salt i slot ks)

  -- The loop over the slots, from the index `i` on.
  unfoldable pub try_slots : Bytes → ℕ → ℕ → Bytes → List Bytes → List Bytes
  unfolding try_keys
  try_slots salt i zero slots keys = []
  try_slots salt i (suc n) slots keys =
      try_keys salt i (take slot_len slots) keys
      ++ try_slots salt (i + 1) n (drop slot_len slots) keys

  -- Every share that the keys and the gate give, before equal ones are dropped.
  unfoldable pub found_shares : Bytes → List Bytes → List Bytes → List Bytes
  unfolding try_slots
  found_shares frame keys gate_shares =
      try_slots (take salt_len frame) 0 slot_count (drop (salt_len + ref_len) frame)
        (public_key_of_all c ∷ keys)
      ++ keep is_share gate_shares

  abbrev pub try_mask : Bytes → List Bytes → ℕ → Option Bytes
  try_mask frame shares mask =
      let key = mask_key (zeros share_len) mask shares in
      c.siv_open (sealed_cek c key (take salt_len frame)) (take head_len frame)
        (drop head_len frame)

  -- The loop over the masks: from `mask` on, `n` of them.
  unfoldable pub try_masks : List Text → Bytes → List Bytes → ℕ → ℕ → Opening
  unfolding read_inner mask_key
  try_masks table frame shares mask zero = closed
  try_masks table frame shares mask (suc n) =
      or_next_mask table (try_mask frame shares mask) (try_masks table frame shares (mask + 1) n)

  -- `openPost`
  unfoldable pub open_post : List Text → Bytes → List Bytes → List Bytes → Opening
  unfolding try_masks found_shares
  open_post table frame keys gate_shares =
      let shares = held_shares (found_shares frame keys gate_shares) in
      if leb (length frame) (head_len + 16)
      then closed
      else try_masks table frame shares 1 (2 ^ length shares - 1)
