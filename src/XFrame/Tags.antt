-- ===== src/XFrame/Tags.antt =====
-- shared/xframe.mjs: `stripTag`, which undoes `appendTag` on what X shows of a post.
use lortnoc_tahc.Base.{
  ℕ, zero, suc, ◌+◌, ◌-◌, Bool, true, false, Option, none, some, map, if◌then◌else◌, between,
  length, take, drop, list_eq, trim, Text,
}
use lortnoc_tahc.XFrame.{hashtag}

-- `toLowerCase` as far as it can give a letter of the hashtag.
abbrev pub lower_case : ℕ → ℕ
lower_case c = if between b'A' b'Z' c then c + 32 else c

abbrev pub tag_len : ℕ
tag_len = 12

-- `t.slice(-HASHTAG.length).toLowerCase() === HASHTAG`
unfoldable pub ends_with_tag : Text → Bool
ends_with_tag t = list_eq (map lower_case (drop (length t - tag_len) t)) hashtag

-- The loop, on fuel: the text that is left, and whether a tag was found.
unfoldable pub strip_rounds : ℕ → Text → Bool → Text × Bool
unfolding ends_with_tag
strip_rounds zero t found = (t, found)
strip_rounds (suc fuel) t found =
    let rest = strip_rounds fuel (trim (take (length t - tag_len) t)) true in
    if ends_with_tag t then rest else (t, found)

-- `stripTag`. Each round takes twelve characters, so that the length of the text is fuel enough.
unfoldable pub strip_tag : Text → Option Text
unfolding strip_rounds
strip_tag tweet_text =
    let r = strip_rounds (length tweet_text) (trim tweet_text) false in
    if r.1 then some r.0 else none
