-- ===== src/Organize/Library/Named.antt =====
-- organize/file_organizer.go: the names that the organizer gives.
use native.Mathlib.Decide.{dec_lt}
use mediarr.Common.{
  ltb, ◌==◌, if◌then◌else◌, Bool-cases, nat_eq, string_eq, ℕ, suc, ◌/◌, ◌<◌, ◌≡◌, refl, sym, ap,
  ◌∙◌, inl, inr, true, false, ◌&&◌, ◌||◌, none, List, [], ◌∷◌, ◌++◌, append_assoc, arith,
}
use mediarr.Common.Bytes.{Bytes, eq_bytes, bytes_eq, codes}
use mediarr.Common.Decimal.{print_digits, print_nat, AllDigits, print_nat-AllDigits}
use mediarr.Organize.Paths.{slash, is_empty, join, split_path, ext_of, ext}
use mediarr.Organize.Paths.Normal.{
  NoSlash, IsElement, AllElements, root_path, append-AllElements, join-root_path,
}
use mediarr.Organize.Names.{extensions, extract_quality, clean_title}
use mediarr.Organize.Names.Detect.{
  is_extension, strip_extension, trim_dot, marker_at, find_last, detect_media,
}
use mediarr.Organize.Names.Markers.{
  find_last_append, digit, marker, find_last-marker, strip_extension_append, trim_dot_append,
}
use mediarr.Organize.Place.{Movie, TvShow, TvEpisode}
use mediarr.Organize.Library.{
  print_two, movie_quality, movie_folder, movie_file, movie_dir, movie_target, episode_file,
}

print_one_digit : (n x : ℕ) → x < 10 → print_digits (suc n) x ≡ digit x ∷ []
unfolding print_digits digit
print_one_digit n x h = ground arith

print_two_digits :
    (n x : ℕ) → 9 < x → x < 100 → print_digits (suc (suc n)) x ≡ digit (x / 10) ∷ digit x ∷ []
unfolding print_digits digit
print_two_digits n x h k =
    let long : (x / 10 == 0) ≡ false = ground arith in
    let short : (x / 10 / 10 == 0) ≡ true = ground arith in rw (long, short) refl

print_two_lem : (n : ℕ) → n < 100 → print_two n ≡ digit (n / 10) ∷ digit n ∷ []
unfolding print_two print_nat digit
print_two_lem n h = elim (dec_lt n 10) [
  | yes small ↦
      let t : ltb n 10 ≡ true = ground arith in
      ap (λ b. if b then b'0' ∷ print_nat n else print_nat n) t
      ∙ ap (λ s. 48 ∷ s) (print_one_digit 19 n small)
      ∙ ap (λ c. c ∷ digit n ∷ []) (zero_digit small)
  | no large ↦
      let t : ltb n 10 ≡ false = ground arith in
      ap (λ b. if b then b'0' ∷ print_nat n else print_nat n) t
      ∙ print_two_digits 18 n (ground arith) h
]
  where
    zero_digit : n < 10 → 48 ≡ digit (n / 10)
    zero_digit small = omega arith

-- The part of an episode's file name behind its marker.
abbrev behind_marker : TvEpisode → Bytes → Bytes
behind_marker e quality = codes " - " ++ (e.title ++ (codes " [" ++ (quality ++ codes "]")))

episode_file_parts :
    (show : TvShow) (e : TvEpisode) (source x : Bytes)
    → e.season < 100
    → e.episode < 100
    → ext source ≡ b'.' ∷ x
    → episode_file show e source
      ≡ ((show.title ++ codes " - ")
          ++ (marker e.season e.episode ++ behind_marker e (extract_quality source)))
        ++ b'.' ∷ x
unfolding episode_file marker
episode_file_parts show e source x hs he dot =
    rw (print_two_lem e.season hs, print_two_lem e.episode he, dot) (simp append_assoc)

-- The name of an episode's file is read back: `DetectMedia` finds the season and the episode, below
-- 100, and the show's title with the hyphen behind it, cleaned, if the file has one of the extensions
-- that `DetectMedia` strips and no marker `S01E02` stands in the episode's title or quality.
pub detect_media-episode_file :
    (show : TvShow) (e : TvEpisode) (source x : Bytes)
    → e.season < 100
    → e.episode < 100
    → ext source ≡ b'.' ∷ x
    → is_extension extensions x ≡ true
    → find_last marker_at (behind_marker e (extract_quality source)) ≡ none
    → ((detect_media (episode_file show e source)).season ≡ e.season)
      × ((detect_media (episode_file show e source)).episode ≡ e.episode)
      × ((detect_media (episode_file show e source)).title
          ≡ clean_title (show.title ++ codes " - "))
unfolding detect_media
detect_media-episode_file show e source x hs he dot known no_marker =
    let behind = behind_marker e (extract_quality source) in
    let front = show.title ++ codes " - " in
    let base = front ++ (marker e.season e.episode ++ behind) in
    let stripped : strip_extension (episode_file show e source) ≡ base =
      ap strip_extension (episode_file_parts show e source x hs he dot)
      ∙ strip_extension_append base x known in
    let found =
      find_last_append marker_at (e.season, e.episode) front (marker e.season e.episode ++ behind)
        (find_last-marker e.season e.episode behind hs he no_marker) in
    let whole =
      show.title
      ++ (codes " - "
          ++ (marker e.season e.episode
              ++ (codes " - " ++ (e.title ++ (codes " [" ++ extract_quality source))))) in
    let shape : base ≡ whole ++ 93 ∷ [] = simp append_assoc in
    let trimmed : trim_dot base ≡ base =
      ap trim_dot shape ∙ trim_dot_append whole 93 (ground arith) ∙ sym shape in
    rw (stripped, trimmed, found) (refl, refl, refl)

append-NoSlash : (xs ys : Bytes) → NoSlash xs → NoSlash ys → NoSlash (xs ++ ys)
append-NoSlash [] ys h k = k
append-NoSlash (x ∷ xs) ys (h, hs) k = (h, append-NoSlash xs ys hs k)

AllDigits-NoSlash : (xs : Bytes) → AllDigits xs → NoSlash xs
AllDigits-NoSlash [] h = tt
AllDigits-NoSlash (x ∷ xs) (h, hs) = (ground arith, AllDigits-NoSlash xs hs)

ext_of-NoSlash : (file : Bytes) → NoSlash file → NoSlash (ext_of file)
unfolding ext_of
ext_of-NoSlash [] h = tt
ext_of-NoSlash (c ∷ file) (h, hs) = elim (Bool-cases (is_empty (ext_of file) && c == b'.')) [
  | inl e ↦ rw e (h, hs)
  | inr e ↦ rw e (ext_of-NoSlash file hs)
]

split_path-NoSlash : (path : Bytes) → NoSlash (split_path path).1
unfolding split_path
split_path-NoSlash [] = tt
split_path-NoSlash (c ∷ path) =
    let rest = split_path-NoSlash path in
    elim (Bool-cases (is_empty (split_path path).0)) [
      | inl e ↦ elim (Bool-cases (c == slash)) [
        | inl s ↦ rw (e, s) rest
        | inr s ↦ rw (e, s) (s, rest)
      ]
      | inr e ↦ elim (Bool-cases (c == slash)) [ inl s ↦ rw (e, s) rest | inr s ↦ rw (e, s) rest ]
    ]

ext-NoSlash : (path : Bytes) → NoSlash (ext path)
unfolding ext
ext-NoSlash path = ext_of-NoSlash _ (split_path-NoSlash path)

-- A text with a space and a bracket in it is an element of a path, if no slash is in it.
spaced-IsElement : (xs ys : Bytes) → NoSlash (xs ++ 32 ∷ ys) → IsElement (xs ++ 32 ∷ ys)
spaced-IsElement xs ys h = record { no_slash = h; is_name = named xs; not_up = up xs }
  where
    named :
        (xs : Bytes) → (eq_bytes (xs ++ 32 ∷ ys) [] || eq_bytes (xs ++ 32 ∷ ys) (codes ".")) ≡ false
    named [] = refl
    named (x ∷ []) = ground arith
    named (x ∷ y ∷ xs) = ground arith

    up : (xs : Bytes) → eq_bytes (xs ++ 32 ∷ ys) (codes "..") ≡ false
    up [] = refl
    up (x ∷ []) = ground arith
    up (x ∷ y ∷ []) = ground arith
    up (x ∷ y ∷ z ∷ xs) = ground arith

movie_folder-NoSlash : (movie : Movie) → NoSlash movie.title → NoSlash (movie_folder movie)
unfolding movie_folder
movie_folder-NoSlash movie h = append-NoSlash movie.title _ h (
    append-NoSlash (codes " (") _ (ground arith) (
      append-NoSlash (print_nat movie.year) (codes ")")
        (AllDigits-NoSlash _ (print_nat-AllDigits movie.year)) (ground arith)))

movie_folder-IsElement : (movie : Movie) → NoSlash movie.title → IsElement (movie_folder movie)
unfolding movie_folder
movie_folder-IsElement movie h =
    spaced-IsElement movie.title (b'(' ∷ (print_nat movie.year ++ codes ")"))
      (movie_folder-NoSlash movie h)

movie_file-IsElement :
    (movie : Movie) (source : Bytes)
    → NoSlash movie.title
    → NoSlash (movie_quality movie source)
    → IsElement (movie_file movie source)
unfolding movie_file
movie_file-IsElement movie source h q =
    let behind = movie_quality movie source ++ (codes "]" ++ ext source) in
    spaced-IsElement (movie_folder movie) (b'[' ∷ behind) (
      append-NoSlash (movie_folder movie) _ (movie_folder-NoSlash movie h) (
        append-NoSlash (codes " [") _ (ground arith) (
          append-NoSlash (movie_quality movie source) _ q
            (append-NoSlash (codes "]") _ (ground arith) (ext-NoSlash source)))))

-- A movie whose title and quality have no slash goes into the folder of its title and year, which
-- stands in the library, whatever the path of its source is: under a library that is an absolute path
-- of names, the target is the library's path with these two names behind it.
pub movie_target-root_path :
    (movie : Movie) (source : Bytes) (library : List Bytes)
    → AllElements library
    → NoSlash movie.title
    → NoSlash (movie_quality movie source)
    → movie_target movie source (root_path library)
      ≡ root_path (library ++ (movie_folder movie ∷ movie_file movie source ∷ []))
unfolding movie_target movie_dir
movie_target-root_path movie source library hs h q =
    let folder = movie_folder-IsElement movie h in
    ap (λ d. join d (movie_file movie source))
      (join-root_path library (movie_folder movie) hs folder)
    ∙ join-root_path (library ++ movie_folder movie ∷ []) (movie_file movie source)
        (append-AllElements library _ hs folder) (movie_file-IsElement movie source h q)
    ∙ ap root_path (append_assoc library (movie_folder movie ∷ []) (movie_file movie source ∷ []))
