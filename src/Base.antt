-- ===== src/Base.antt =====
-- Names that every module shares: the libraries', passed on, and those of the children.
mod Tests
mod Lists
mod Base64
mod Int
mod Xor
mod Trim
unfoldable pub use Tests.*
unfoldable pub use Lists.*
unfoldable pub use Xor.{xor, zeros}
unfoldable pub use Trim.{is_space, trim_start, cons_trimmed, trim_end, trim}
pub use Trim.{length-trim, trimmed_first, trim-spaces, trim-append}
pub use Xor.{length-xor, length-zeros, xor_twice, xor_cancel, zeros-xor, xor_swap}
pub use Int.{ℤ, pos, negsuc, is_pos, monus}
pub use Base64.{Text, to_b64, from_b64, from_b64-to_b64, to_b64-cons}
pub use Prim.Native.Nat.{
  ℕ, zero, suc, ◌+◌, ◌-◌, ◌*◌, ◌/◌, ◌%◌, ◌^◌, ◌≤◌, ◌<◌, min, max, bit_xor, bit_and,
}
pub use mathlib.Core.Path.{◌≡◌, refl, sym, ap, subst, ◌∙◌}
pub use mathlib.Core.Logic.{◌≢◌, ◌↔◌, ◌⊎◌, inl, inr}
pub use mathlib.Core.Bool.{Bool, true, false, not, ◌&&◌, ◌||◌}
pub use mathlib.Core.Option.{Option, none, some}
pub use mathlib.Core.List.{Mem, List, [], ◌∷◌, ◌++◌, map, append_assoc, append-nil}
pub use native.Mathlib.Omega.{arith}
