-- ===== src/AppUrl.antt =====
-- extension/src/shared/config.ts: the app's address with the Telegram handle filled in. A text is the
-- list of its character codes; `toLowerCase` is modelled on the ASCII letters, and the characters
-- that are kept are written by `encodeURIComponent` as they are.
pub mod Laws
pub mod Tests
use lortnoc_tahc.Base.{
  ℕ, ◌+◌, Bool, true, false, ◌&&◌, ◌||◌, Option, none, some, List, [], ◌∷◌, ◌++◌, map,
  if◌then◌else◌, between, ◌==◌, keep, Text,
}
use lortnoc_tahc.Keys.{codes}

pub app_url : Text
app_url = codes "https://app.lortnoctahc.com"

pub upgrade_url : Text
upgrade_url = codes "https://app.lortnoctahc.com/upgrade"

unfoldable pub lower : ℕ → ℕ
lower c = if between b'A' b'Z' c then c + 32 else c

-- `[a-z0-9-]`
unfoldable pub is_label : ℕ → Bool
is_label c = between b'a' b'z' c || between b'0' b'9' c || c == b'-'

unfoldable pub drop_at_sign : Text → Text
drop_at_sign [] = []
drop_at_sign (c ∷ t) = if c == b'@' then t else c ∷ t

unfoldable pub clean_handle : Text → Text
unfolding drop_at_sign lower is_label
clean_handle handle = keep is_label (map lower (drop_at_sign handle))

unfoldable pub has_char : ℕ → Text → Bool
has_char c [] = false
has_char c (d ∷ t) = d == c || has_char c t

unfoldable pub with_handle : Text → Text → Text
unfolding has_char
with_handle base [] = base
with_handle base (c ∷ clean) =
    base ++ ((if has_char b'?' base then b'&' else b'?') ∷ (codes "handle=" ++ c ∷ clean))

unfoldable pub app_url_with_handle : Text → Option Text → Text
unfolding clean_handle with_handle
app_url_with_handle base none = with_handle base []
app_url_with_handle base (some handle) = with_handle base (clean_handle handle)
