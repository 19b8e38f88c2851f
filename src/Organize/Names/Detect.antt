-- ===== src/Organize/Names/Detect.antt =====
-- organize/file_organizer.go: `DetectMedia` and `guessEpisodeNumber`.
use mathlib.Core.Option
use mediarr.Common.{
  ltb, leb, ◌==◌, if◌then◌else◌, length, drop, nat_eq, string_eq, ℕ, ◌+◌, ◌-◌, ◌*◌, ◌%◌, ◌^◌, Bool,
  false, not, ◌&&◌, ◌||◌, Option, none, some, List, [], ◌∷◌,
}
use mediarr.Common.Int.{ℤ, pos, ◌-ℤ◌}
use mediarr.Common.Bytes.{Bytes, eq_bytes, bytes_eq, codes}
use mediarr.Common.Decimal.{is_digit, scan_digits}
use mediarr.Organize.Names.{
  lower, to_lower, has_prefix, or_else, extensions, extract_quality, extract_codec,
  extract_resolution, is_space, extract_group, clean_title,
}

pub record MediaInfo : Type 0 where
  pub title : Bytes
  pub year : ℕ
  pub season : ℕ
  pub episode : ℕ
  pub quality : Bytes
  pub codec : Bytes
  pub group : Bytes
  pub resolution : Bytes

abbrev pub is_extension : List Bytes → Bytes → Bool
is_extension [] s = false
is_extension (e ∷ es) s = eq_bytes e s || is_extension es s

-- `ReplaceAllString` of `extensionRegex`.
unfoldable pub strip_extension : Bytes → Bytes
strip_extension [] = []
strip_extension (c ∷ s) =
    let rest = strip_extension s in if c == b'.' && is_extension extensions s then [] else c ∷ rest

-- `strings.TrimSuffix(s, ".")`.
unfoldable pub trim_dot : Bytes → Bytes
trim_dot [] = []
trim_dot (c ∷ []) = if c == b'.' then [] else c ∷ []
trim_dot (c ∷ d ∷ s) = c ∷ trim_dot (d ∷ s)

-- `\d{1,2}`, with what is left.
unfoldable pub short_number : Bytes → Option (ℕ × Bytes)
short_number [] = none
short_number (a ∷ []) = if is_digit a then some (a - 48, []) else none
short_number (a ∷ b ∷ s) =
    if is_digit a
    then (if is_digit b then some ((a - 48) * 10 + (b - 48), s) else some (a - 48, b ∷ s))
    else none

abbrev after_season : ℕ → Bytes → Option (ℕ × ℕ)
unfolding short_number
after_season n [] = none
after_season n (c ∷ s) =
    if lower c == b'e' then Option.map (λ (m, rest). (n, m)) (short_number s) else none

abbrev numbers_at : Option (ℕ × Bytes) → Option (ℕ × ℕ)
unfolding after_season
numbers_at none = none
numbers_at (some (n, s)) = after_season n s

-- `s(\d{1,2})e(\d{1,2})` here.
unfoldable pub marker_at : Bytes → Option (ℕ × ℕ)
unfolding after_season
marker_at [] = none
marker_at (c ∷ s) = if lower c == b's' then numbers_at (short_number s) else none

-- `(\d{4})` here.
unfoldable pub year_at : Bytes → Option ℕ
year_at (a ∷ b ∷ c ∷ d ∷ s) =
    if is_digit a && is_digit b && is_digit c && is_digit d
    then some ((((a - 48) * 10 + (b - 48)) * 10 + (c - 48)) * 10 + (d - 48))
    else none
year_at s = none

module _ {A : Type 0} (at : Bytes → Option A) where
  abbrev here_or_later : ℕ → Option A → Option (Bytes × A) → Option (Bytes × A)
  here_or_later c here none = Option.map (λ a. ([], a)) here
  here_or_later c here (some (before, a)) = some (c ∷ before, a)

  -- What `(.*)` before a part that matches `at` finds: the last place of it, and all before that.
  unfoldable pub find_last : Bytes → Option (Bytes × A)
  find_last [] = none
  find_last (c ∷ s) = here_or_later c (at (c ∷ s)) (find_last s)

abbrev as_episode : Bytes → Bytes → ℕ × ℕ → MediaInfo
unfolding clean_title extract_quality extract_codec extract_group extract_resolution
as_episode base before (season, episode) = record {
  title = clean_title before;
  year = 0;
  season = season;
  episode = episode;
  quality = extract_quality base;
  codec = extract_codec base;
  group = extract_group base;
  resolution = extract_resolution base;
}

abbrev as_movie : Bytes → Option (Bytes × ℕ) → MediaInfo
unfolding clean_title extract_quality extract_codec extract_group extract_resolution
as_movie base (some (before, year)) = record {
  title = clean_title before;
  year = year;
  season = 0;
  episode = 0;
  quality = extract_quality base;
  codec = extract_codec base;
  group = extract_group base;
  resolution = extract_resolution base;
}
as_movie base none = record {
  title = clean_title base;
  year = 0;
  season = 0;
  episode = 0;
  quality = extract_quality base;
  codec = [];
  group = [];
  resolution = [];
}

unfoldable pub episode_or_movie : Bytes → Option (Bytes × (ℕ × ℕ)) → MediaInfo
unfolding as_episode as_movie find_last year_at
episode_or_movie base (some (before, numbers)) = as_episode base before numbers
episode_or_movie base none = as_movie base (find_last year_at base)

unfoldable pub detect_media : Bytes → MediaInfo
unfolding episode_or_movie strip_extension trim_dot find_last marker_at
detect_media file_name =
    let base = trim_dot (strip_extension file_name) in
    episode_or_movie base (find_last marker_at base)

-- `\s*(\d+)` here: the digits.
unfoldable pub digits_of : Bytes → Bytes
digits_of [] = []
digits_of (c ∷ s) = let rest = digits_of s in if is_digit c then c ∷ rest else []

abbrev some_digits : Bytes → Option Bytes
some_digits [] = none
some_digits (c ∷ s) = some (c ∷ s)

unfoldable pub number_here : Bytes → Option Bytes
unfolding digits_of
number_here [] = none
number_here (c ∷ s) =
    let later = number_here s in if is_space c then later else some_digits (digits_of (c ∷ s))

abbrev after_word : Bytes → Bytes → Option Bytes
unfolding number_here has_prefix
after_word s w = if has_prefix s w then number_here (drop (length w) s) else none

-- `(?:e|ep|episode)\s*(\d+)` here.
unfoldable pub episode_at : Bytes → Option Bytes
unfolding after_word
episode_at s =
    or_else (after_word s (codes "e"))
      (or_else (after_word s (codes "ep")) (after_word s (codes "episode")))

-- A text of digits whose number is at most the bound.
abbrev natural : ℕ → Bytes → Option ℕ
unfolding digits_of scan_digits
natural bound s =
    if eq_bytes (digits_of s) s && not (eq_bytes s []) && leb (scan_digits 0 s) bound
    then some (scan_digits 0 s)
    else none

-- `strconv.Atoi` of a text, as far as 64 bits go.
unfoldable pub atoi : Bytes → Option ℤ
unfolding natural ◌-ℤ◌
atoi [] = none
atoi (c ∷ s) =
    if c == b'-'
    then Option.map (λ n. pos 0 -ℤ pos n) (natural (2 ^ 63) s)
    else if c == b'+'
    then Option.map pos (natural (2 ^ 63 - 1) s)
    else Option.map pos (natural (2 ^ 63 - 1) (c ∷ s))

abbrev small_number : Option ℤ → Option ℕ
small_number (some (pos n)) = if ltb 0 n && ltb n 1000 then some n else none
small_number r = none

abbrev or_number : Option ℕ → Option ℕ → Option ℕ
or_number none b = b
or_number (some n) b = some n

abbrev onto_first : ℕ → List Bytes → List Bytes
onto_first c [] = (c ∷ []) ∷ []
onto_first c (p ∷ ps) = (c ∷ p) ∷ ps

-- `strings.Split(s, ".")`.
unfoldable pub parts_of : Bytes → List Bytes
parts_of [] = [] ∷ []
parts_of (c ∷ s) = let rest = parts_of s in if c == b'.' then [] ∷ rest else onto_first c rest

-- The last part of the name that is a number from 1 to 999.
unfoldable pub last_number : List Bytes → Option ℕ
unfolding atoi
last_number [] = none
last_number (s ∷ parts) = or_number (last_number parts) (small_number (atoi s))

abbrev or_zero : Option ℕ → ℕ
or_zero none = 0
or_zero (some n) = n

abbrev word_number : Bytes → Option ℤ → ℕ
unfolding last_number parts_of
word_number name (some (pos n)) = n % 2 ^ 32
word_number name r = or_zero (last_number (parts_of name))

abbrev guess_from : Bytes → Option (Bytes × Bytes) → ℕ
unfolding word_number atoi
guess_from name none = or_zero (last_number (parts_of name))
guess_from name (some (before, digits)) = word_number name (atoi digits)

unfoldable pub guess_episode_number : Bytes → ℕ
unfolding strip_extension find_last episode_at guess_from
guess_episode_number file_name =
    let name = strip_extension file_name in guess_from name (find_last episode_at (to_lower name))
