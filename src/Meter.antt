-- ===== src/Meter.antt =====
-- extension/src/content/metering.ts: the local count of hidden sends. An operation returns the new
-- state, which `persist` also writes to `storage.local` as it is.
pub mod Laws
pub mod Tests
use lortnoc_tahc.Base.{
  ℕ, ◌+◌, ◌-◌, Bool, true, false, not, ◌&&◌, Option, none, some, if◌then◌else◌, leb, ltb, ℤ, monus,
  [], ◌∷◌, Text,
}

-- `FREE_LIMIT` and `WARN_AT` of shared/config.ts.
abbrev pub free_limit : ℕ
free_limit = 10

abbrev pub warn_at : ℕ
warn_at = 8

pub record Meter : Type 0 where
  pub sends : ℕ
  pub paid : Bool

-- What `storage.local` may hold under `meter`: either field may be missing.
pub record StoredMeter : Type 0 where
  pub sends : Option ℕ
  pub paid : Option Bool

abbrev pub value_or {ℓ} : {A : Type ℓ} → A → Option A → A
value_or d none = d
value_or d (some a) = a

unfoldable pub load_meter : Meter → Option StoredMeter → Meter
load_meter m none = m
load_meter m (some got) = record { sends = value_or 0 got.sends; paid = value_or false got.paid }

unfoldable pub remaining : Meter → ℕ
remaining m = free_limit - m.sends

unfoldable pub is_blocked : Meter → Bool
is_blocked m = not m.paid && leb free_limit m.sends

unfoldable pub is_running_low : Meter → Bool
is_running_low m = not m.paid && leb warn_at m.sends && ltb m.sends free_limit

unfoldable pub increment : Meter → Meter
increment m = record m { sends = m.sends + 1 }

unfoldable pub set_paid : Meter → Bool → Meter
set_paid m paid = record m { paid = paid }

unfoldable pub sync_from_server : Meter → ℤ → Bool → Meter
sync_from_server m left member =
    if member then record m { paid = true } else record m { sends = monus free_limit left }

unfoldable pub mark_blocked : Meter → Meter
mark_blocked m = record m { sends = free_limit }

-- `tok || undefined`: the empty text counts as no token.
unfoldable pub membership_token : Option Text → Option Text
membership_token none = none
membership_token (some []) = none
membership_token (some (c ∷ t)) = some (c ∷ t)
