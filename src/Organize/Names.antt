-- ===== src/Organize/Names.antt =====
-- organize/file_organizer.go: what is read out of the name of a release. The regular expressions of
-- the source are written out as functions that find the match that they find, on names of ASCII
-- characters without line breaks.
pub mod Detect
pub mod Markers
use Prim.Native.Nat.{◌+◌}
use mathlib.Core.List.{reverse}
use mediarr.Common.{
  leb, ◌==◌, if◌then◌else◌, length, get_or, take, nat_eq, string_eq, ℕ, zero, suc, ◌+◌, ◌-◌, Bool,
  true, false, not, ◌&&◌, ◌||◌, Option, none, some, List, [], ◌∷◌, ◌++◌, map,
}
use mediarr.Common.Bytes.{Bytes, bytes_eq, codes}

abbrev pub lower : ℕ → ℕ
lower c = if leb 65 c && leb c 90 then c + 32 else c

abbrev pub upper : ℕ → ℕ
upper c = if leb 97 c && leb c 122 then c - 32 else c

abbrev pub to_lower : Bytes → Bytes
to_lower s = map lower s

abbrev pub to_upper : Bytes → Bytes
to_upper s = map upper s

-- `strings.HasPrefix(s, t)`.
unfoldable pub has_prefix : Bytes → Bytes → Bool
has_prefix s [] = true
has_prefix [] (t ∷ ts) = false
has_prefix (c ∷ s) (t ∷ ts) = c == t && has_prefix s ts

-- `strings.Contains(s, t)`.
unfoldable pub contains : Bytes → Bytes → Bool
unfolding has_prefix
contains [] t = has_prefix [] t
contains (c ∷ s) t = has_prefix (c ∷ s) t || contains s t

-- The first of the alternatives that stands here in any case of its letters.
unfoldable pub tag_at : List Bytes → Bytes → Option Bytes
unfolding has_prefix
tag_at [] s = none
tag_at (t ∷ ts) s = if has_prefix (to_lower s) t then some (take (length t) s) else tag_at ts s

abbrev pub or_else : Option Bytes → Option Bytes → Option Bytes
or_else none b = b
or_else (some a) b = some a

unfoldable pub find_tag : List Bytes → Bytes → Option Bytes
unfolding tag_at
find_tag ts [] = none
find_tag ts (c ∷ s) = or_else (tag_at ts (c ∷ s)) (find_tag ts s)

-- `qualityRegexp`, `codecRegexp`, `extensionRegex`.
abbrev pub quality_tags : List Bytes
quality_tags = map codes (
    "720p" ∷ "1080p" ∷ "2160p" ∷ "4k" ∷ "uhd" ∷ "hdr" ∷ "bluray" ∷ "webrip" ∷ "webdl" ∷ "web-dl"
    ∷ "hdtv" ∷ "dvdrip" ∷ "brrip" ∷ "bdrip" ∷ [])

abbrev pub codec_tags : List Bytes
codec_tags = map codes ("x264" ∷ "x265" ∷ "hevc" ∷ "h264" ∷ "h265" ∷ "av1" ∷ "xvid" ∷ "divx" ∷ [])

abbrev pub extensions : List Bytes
extensions = map codes ("mkv" ∷ "mp4" ∷ "avi" ∷ "m4v" ∷ "mov" ∷ "wmv" ∷ "flv" ∷ "webm" ∷ [])

abbrev upper_or : Bytes → Option Bytes → Bytes
upper_or d none = d
upper_or d (some t) = to_upper t

unfoldable pub extract_quality : Bytes → Bytes
unfolding find_tag
extract_quality s = upper_or (codes "Unknown") (find_tag quality_tags s)

unfoldable pub extract_codec : Bytes → Bytes
unfolding find_tag
extract_codec s = upper_or [] (find_tag codec_tags s)

unfoldable pub extract_resolution : Bytes → Bytes
unfolding contains
extract_resolution name =
    let s = to_upper name in
    if contains s (codes "2160") || contains s (codes "4K") || contains s (codes "UHD")
    then codes "2160p"
    else if contains s (codes "1080")
    then codes "1080p"
    else if contains s (codes "720")
    then codes "720p"
    else if contains s (codes "480") || contains s (codes "SD")
    then codes "480p"
    else []

-- `\s` of a regular expression, and what `strings.TrimSpace` takes away besides.
abbrev pub is_space : ℕ → Bool
is_space c = c == 32 || c == 9 || c == 10 || c == 12 || c == 13

unfoldable pub all_space : Bytes → Bool
all_space [] = true
all_space (c ∷ s) = is_space c && all_space s

abbrev is_nil : Bytes → Bool
is_nil [] = true
is_nil (x ∷ xs) = false

-- Behind a `[`: the text up to the `]`, if there is some and only space is left behind it.
unfoldable pub group_at : Bytes → Bytes → Option Bytes
unfolding all_space
group_at inside [] = none
group_at inside (c ∷ s) =
    let further = group_at (inside ++ c ∷ []) s in
    if c == 93 then (if is_nil inside || not (all_space s) then none else some inside) else further

abbrev or_nil : Option Bytes → Bytes
or_nil none = []
or_nil (some s) = s

unfoldable pub find_group : Bytes → Option Bytes
unfolding group_at
find_group [] = none
find_group (c ∷ s) = or_else (if c == 91 then group_at [] s else none) (find_group s)

unfoldable pub extract_group : Bytes → Bytes
unfolding find_group
extract_group s = or_nil (find_group s)

abbrev is_some : Option Bytes → Bool
is_some none = false
is_some (some s) = true

-- `ReplaceAllString` of a group: it stands at the end.
unfoldable pub cut_group : Bytes → Bytes
unfolding group_at
cut_group [] = []
cut_group (c ∷ s) =
    let rest = cut_group s in if c == 91 && is_some (group_at [] s) then [] else c ∷ rest

-- The length of a tag with the bracket behind it, and of one that has a bracket before it too.
abbrev closed_width : Bytes → Option Bytes → ℕ
closed_width s none = 0
closed_width s (some t) = length t + (if get_or s (length t) 0 == 93 then 1 else 0)

abbrev opened_width : ℕ → ℕ
opened_width zero = 0
opened_width (suc n) = suc (suc n)

unfoldable pub tag_width : List Bytes → Bytes → ℕ
unfolding tag_at
tag_width ts [] = 0
tag_width ts (c ∷ s) =
    if c == 91
    then opened_width (closed_width s (tag_at ts s))
    else closed_width (c ∷ s) (tag_at ts (c ∷ s))

-- `ReplaceAllString` of the tags; `n` more bytes belong to the last match.
unfoldable pub cut_tags : List Bytes → ℕ → Bytes → Bytes
unfolding tag_width
cut_tags ts n [] = []
cut_tags ts (suc n) (c ∷ s) = cut_tags ts n s
cut_tags ts zero (c ∷ s) =
    let w = tag_width ts (c ∷ s) in
    let rest = cut_tags ts (w - 1) s in if w == 0 then c ∷ rest else rest

-- `strings.TrimSpace`.
unfoldable pub trim_left : Bytes → Bytes
trim_left [] = []
trim_left (c ∷ s) = let rest = trim_left s in if is_space c || c == 11 then rest else c ∷ s

unfoldable pub trim_space : Bytes → Bytes
unfolding trim_left
trim_space s = reverse (trim_left (reverse (trim_left s)))

-- Each run of space becomes one; `b` says whether the byte before was a space.
unfoldable pub collapse : Bool → Bytes → Bytes
collapse b [] = []
collapse b (c ∷ s) =
    let rest = collapse (is_space c) s in
    if is_space c then (if b then rest else 32 ∷ rest) else c ∷ rest

abbrev dots_to_spaces : Bytes → Bytes
dots_to_spaces s = map (λ c. if c == b'.' || c == b'_' then 32 else c) s

unfoldable pub clean_title : Bytes → Bytes
unfolding cut_group cut_tags trim_space collapse
clean_title s =
    collapse false
      (trim_space (dots_to_spaces (cut_group (cut_tags codec_tags 0 (cut_tags quality_tags 0 s)))))
