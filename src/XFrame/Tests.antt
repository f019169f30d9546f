-- ===== src/XFrame/Tests.antt =====
-- The middle frame of a thread, and a post whose hashtag X has doubled.
use lortnoc_tahc.Base.{
  false, trim, trim_start, trim_end, cons_trimmed, is_space, list_eq, ◌++◌, Text, ◌≡◌, refl, true,
  some, [], ◌∷◌, Bytes, arith,
}
use lortnoc_tahc.Keys.{codes}
use lortnoc_tahc.XFrame.{recipients, part_frame, parse_x_frame, append_tag}
use lortnoc_tahc.XFrame.Tags.{ends_with_tag, strip_rounds, strip_tag}
use lortnoc_tahc.XFrame.Stripping.{spaces, with_tags, strip_tag-append_tag}
use lortnoc_tahc.XFrame.Laws.{part_of, parse_x_frame-part_frame}

abbrev cipher : Bytes
cipher = 9 ∷ 8 ∷ 7 ∷ 6 ∷ 5 ∷ []

middle_frame : part_frame recipients cipher true 2 3 1 ≡ 67 ∷ 18 ∷ 9 ∷ 8 ∷ 7 ∷ 6 ∷ []
unfolding part_frame
middle_frame = refl

parse_x_frame-part_frame_example :
    parse_x_frame (part_frame recipients cipher true 2 3 1)
    ≡ some (part_of recipients cipher true 2 3 1)
parse_x_frame-part_frame_example =
    parse_x_frame-part_frame recipients cipher true 2 3 1 (omega arith) (omega arith)

abbrev cover : Text
cover = codes "no time at all"

doubled : strip_tag (codes "no time at all #lortnoctahc#LortnocTahc ") ≡ some cover
unfolding strip_tag strip_rounds ends_with_tag list_eq trim_start trim_end cons_trimmed is_space
doubled = refl

cover_trimmed : trim cover ≡ cover
unfolding trim_start trim_end cons_trimmed is_space
cover_trimmed = refl

cover_untagged : ends_with_tag cover ≡ false
unfolding ends_with_tag list_eq
cover_untagged = refl

strip_tag-append_tag_example :
    strip_tag (spaces 1 ++ (with_tags (append_tag cover) (0 ∷ 2 ∷ []) ++ spaces 3)) ≡ some cover
strip_tag-append_tag_example =
    strip_tag-append_tag cover 1 3 (0 ∷ 2 ∷ []) (λ e. cc) cover_trimmed cover_untagged
