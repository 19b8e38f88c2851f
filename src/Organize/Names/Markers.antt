-- ===== src/Organize/Names/Markers.antt =====
-- organize/file_organizer.go: what `DetectMedia` finds in names of a form.
use mediarr.Common.{
  nat_eq, string_eq, ℕ, ◌+◌, ◌/◌, ◌%◌, ◌<◌, ◌≡◌, refl, ap, ◌≢◌, true, false, Option, none, some,
  List, [], ◌∷◌, ◌++◌, arith,
}
use mediarr.Common.Bytes.{Bytes, eq_bytes, bytes_eq}
use mediarr.Organize.Names.{extensions, clean_title}
use mediarr.Organize.Names.Detect.{
  is_extension, strip_extension, trim_dot, marker_at, year_at, find_last, detect_media,
}

pub find_last_append :
    {A : Type 0} (at : Bytes → Option A) (a : A) (xs ys : Bytes)
    → find_last at ys ≡ some ([], a)
    → find_last at (xs ++ ys) ≡ some (xs, a)
unfolding find_last
find_last_append at a [] ys h = h
find_last_append at a (x ∷ xs) ys h = rw (find_last_append at a xs ys h) refl

-- The first place of a text is the last one where it matches, if it matches there and not behind it.
find_last_first :
    {A : Type 0} (at : Bytes → Option A) (a : A) (c : ℕ) (s : Bytes)
    → at (c ∷ s) ≡ some a
    → find_last at s ≡ none
    → find_last at (c ∷ s) ≡ some ([], a)
unfolding find_last
find_last_first at a c s h later = rw (later, h) refl

unfoldable pub digit : ℕ → ℕ
digit n = 48 + n % 10

-- `S%02dE%02d` of numbers below 100.
unfoldable pub marker : ℕ → ℕ → Bytes
unfolding digit
marker s e = b'S' ∷ digit (s / 10) ∷ digit s ∷ b'E' ∷ digit (e / 10) ∷ digit e ∷ []

find_last_skip :
    {A : Type 0} (at : Bytes → Option A) (c : ℕ) (s : Bytes)
    → at (c ∷ s) ≡ none
    → find_last at s ≡ none
    → find_last at (c ∷ s) ≡ none
unfolding find_last
find_last_skip at c s h later = rw (later, h) refl

find_last-digit :
    (n : ℕ) (s : Bytes) → find_last marker_at s ≡ none → find_last marker_at (digit n ∷ s) ≡ none
unfolding marker_at digit
find_last-digit n s h = find_last_skip marker_at (digit n) s (ground arith) h

marker_at-marker :
    (s e : ℕ) (rest : Bytes) → s < 100 → e < 100 → marker_at (marker s e ++ rest) ≡ some (s, e)
unfolding marker_at digit marker
marker_at-marker s e rest hs he = ground arith

pub find_last-marker :
    (s e : ℕ) (rest : Bytes)
    → s < 100
    → e < 100
    → find_last marker_at rest ≡ none
    → find_last marker_at (marker s e ++ rest) ≡ some ([], (s, e))
unfolding marker marker_at
find_last-marker s e rest hs he h =
    find_last_first marker_at (s, e) _ _ (marker_at-marker s e rest hs he)
      (find_last-digit (s / 10) _ (
        find_last-digit s _ (
          find_last_skip marker_at _ _ refl
            (find_last-digit (e / 10) _ (find_last-digit e rest h)))))

abbrev NoDots : Bytes → Type 0
NoDots [] = Unit
NoDots (c ∷ s) = (c ≢ b'.') × NoDots s

eq_bytes-dot : (t ys e : Bytes) → NoDots t → eq_bytes t (ys ++ b'.' ∷ e) ≡ false
eq_bytes-dot [] [] e h = refl
eq_bytes-dot [] (y ∷ ys) e h = refl
eq_bytes-dot (c ∷ t) [] e (h, hs) = ground arith
eq_bytes-dot (c ∷ t) (y ∷ ys) e (h, hs) = ground (arith, eq_bytes-dot t ys e hs)

abbrev AllNoDots : List Bytes → Type 0
AllNoDots [] = Unit
AllNoDots (t ∷ ts) = NoDots t × AllNoDots ts

is_extension-dot :
    (ts : List Bytes) (ys e : Bytes) → AllNoDots ts → is_extension ts (ys ++ b'.' ∷ e) ≡ false
is_extension-dot [] ys e h = refl
is_extension-dot (t ∷ ts) ys e (h, hs) = rw (eq_bytes-dot t ys e h) (is_extension-dot ts ys e hs)

extensions-AllNoDots : AllNoDots extensions
extensions-AllNoDots = omega arith

pub strip_extension_append :
    (xs e : Bytes) → is_extension extensions e ≡ true → strip_extension (xs ++ b'.' ∷ e) ≡ xs
unfolding strip_extension
strip_extension_append [] e h = rw h refl
strip_extension_append (x ∷ xs) e h =
    rw (is_extension-dot extensions xs e extensions-AllNoDots, strip_extension_append xs e h)
      (ground arith)

pub trim_dot_append : (xs : Bytes) (c : ℕ) → c ≢ b'.' → trim_dot (xs ++ c ∷ []) ≡ xs ++ c ∷ []
unfolding trim_dot
trim_dot_append [] c h = ground arith
trim_dot_append (x ∷ []) c h = ground arith
trim_dot_append (x ∷ y ∷ xs) c h = ap (λ s. x ∷ s) (trim_dot_append (y ∷ xs) c h)

-- A name without such a marker that has four digits in a row: the last four, in whatever number they
-- stand, are the year, and the title is the cleaned text before them.
pub detect_media-year :
    (file_name before rest : Bytes) (a b c d : ℕ) (year : ℕ)
    → trim_dot (strip_extension file_name) ≡ before ++ a ∷ b ∷ c ∷ d ∷ rest
    → find_last marker_at (trim_dot (strip_extension file_name)) ≡ none
    → year_at (a ∷ b ∷ c ∷ d ∷ rest) ≡ some year
    → find_last year_at (b ∷ c ∷ d ∷ rest) ≡ none
    → ((detect_media file_name).year ≡ year) × ((detect_media file_name).title ≡ clean_title before)
unfolding detect_media
detect_media-year file_name before rest a b c d year name no_marker four later =
    let found : find_last year_at (trim_dot (strip_extension file_name)) ≡ some (before, year) =
      rw name (
        find_last_append year_at year before (a ∷ b ∷ c ∷ d ∷ rest)
          (find_last_first year_at year a (b ∷ c ∷ d ∷ rest) four later)) in
    rw (no_marker, found) (refl, refl)
