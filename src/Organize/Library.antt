-- ===== src/Organize/Library.antt =====
-- organize/file_organizer.go: `OrganizeMovie`, `OrganizeEpisode`, `OrganizeSeason`, `FindMediaFiles`
-- and `OrganizeDownloadedFiles`.
pub mod Kept
pub mod Named
pub mod Season
pub mod Examples
use mediarr.Common.{ltb, if◌then◌else◌, nat_eq, string_eq, ℕ, Option, none, some, [], ◌∷◌, ◌++◌}
use mediarr.Common.Bytes.{Bytes, eq_bytes, bytes_eq, codes}
use mediarr.Common.Decimal.{print_nat}
use mediarr.Organize.Paths.{join, ext}
use mediarr.Organize.Names.{extract_quality}
use mediarr.Organize.FileSystem.{FileSystem}
use mediarr.Organize.Place.{
  available, Movie, TvShow, TvEpisode, OrganizeOptions, OrganizeResult, failure, success, Placed,
  refused, already, placed, place_file,
}

-- `%02d`.
unfoldable pub print_two : ℕ → Bytes
unfolding print_nat
print_two n = if ltb n 10 then b'0' ∷ print_nat n else print_nat n

unfoldable pub movie_quality : Movie → Bytes → Bytes
unfolding extract_quality
movie_quality movie source =
    if eq_bytes movie.quality [] then extract_quality source else movie.quality

-- `%s (%d)`.
unfoldable pub movie_folder : Movie → Bytes
unfolding print_nat
movie_folder movie = movie.title ++ (codes " (" ++ (print_nat movie.year ++ codes ")"))

-- `%s (%d) [%s]%s`.
unfoldable pub movie_file : Movie → Bytes → Bytes
unfolding movie_folder movie_quality ext
movie_file movie source =
    movie_folder movie ++ (codes " [" ++ (movie_quality movie source ++ (codes "]" ++ ext source)))

unfoldable pub movie_dir : Movie → Bytes → Bytes
unfolding movie_folder join
movie_dir movie dest = join dest (movie_folder movie)

unfoldable pub movie_target : Movie → Bytes → Bytes → Bytes
unfolding movie_dir movie_file join
movie_target movie source dest = join (movie_dir movie dest) (movie_file movie source)

unfoldable pub season_dir : TvShow → ℕ → Bytes → Bytes
unfolding join print_nat
season_dir show season dest = join (join dest show.title) (codes "Season " ++ print_nat season)

-- `%s - S%02dE%02d - %s [%s]%s`.
unfoldable pub episode_file : TvShow → TvEpisode → Bytes → Bytes
unfolding print_two extract_quality ext
episode_file show e source =
    show.title
    ++ (codes " - "
        ++ ((b'S' ∷ print_two e.season ++ b'E' ∷ print_two e.episode)
            ++ (codes " - "
                ++ (e.title
                    ++ (codes " [" ++ (extract_quality source ++ (codes "]" ++ ext source)))))))

unfoldable pub episode_target : TvShow → TvEpisode → Bytes → Bytes → Bytes
unfolding season_dir episode_file join
episode_target show e source dest =
    join (season_dir show e.season dest) (episode_file show e source)

-- What a call leaves: the disk, the table, and the movie or episode, which it changes in place.
pub record Library (Disk Rows Item : Type 0) : Type 0 where
  pub disk : Disk
  pub rows : Option Rows
  pub item : Item

module _ (fs : FileSystem) {Rows : Type 0} (update : Rows → ℕ → Movie → Option Rows) where
  -- The row is written, and an error is dropped.
  abbrev pub write_movie : Option Rows → Movie → Option Rows
  write_movie none movie = none
  write_movie (some rows) movie = elim (update rows movie.id movie) [
    | none ↦ some rows
    | some after ↦ some after
  ]

  unfoldable pub note_movie :
      Option Rows
      → Movie
      → Bytes
      → Bytes
      → fs.Disk × Placed
      → Library fs.Disk Rows Movie × OrganizeResult
  note_movie rows movie quality target (d, refused e) =
      (record { disk = d; rows = rows; item = movie }, failure e)
  note_movie rows movie quality target (d, already) =
      (record { disk = d; rows = rows; item = movie }, success 0 target)
  note_movie rows movie quality target (d, placed) =
      let changed = record movie { path = target; quality = quality; status = available } in
      (record { disk = d; rows = write_movie rows changed; item = changed }, success 1 target)

  unfoldable pub organize_movie :
      Option Rows
      → fs.Disk
      → Movie
      → Bytes
      → Bytes
      → OrganizeOptions
      → Library fs.Disk Rows Movie × OrganizeResult
  unfolding note_movie place_file movie_target movie_quality
  organize_movie rows d movie source dest opts =
      let target = movie_target movie source dest in
      note_movie rows movie (movie_quality movie source) target
        (place_file fs source (movie_dir movie dest) target opts d)

module _ (fs : FileSystem) {Rows : Type 0} (update : Rows → ℕ → TvEpisode → Option Rows) where
  abbrev pub write_episode : Option Rows → TvEpisode → Option Rows
  write_episode none e = none
  write_episode (some rows) e = elim (update rows e.id e) [
    | none ↦ some rows
    | some after ↦ some after
  ]

  unfoldable pub note_episode :
      Option Rows
      → TvEpisode
      → Bytes
      → fs.Disk × Placed
      → Library fs.Disk Rows TvEpisode × OrganizeResult
  note_episode rows e target (d, refused message) =
      (record { disk = d; rows = rows; item = e }, failure message)
  note_episode rows e target (d, already) =
      (record { disk = d; rows = rows; item = e }, success 0 target)
  note_episode rows e target (d, placed) =
      let changed = record e { path = target; status = available } in
      (record { disk = d; rows = write_episode rows changed; item = changed }, success 1 target)

  unfoldable pub organize_episode :
      Option Rows
      → fs.Disk
      → TvShow
      → TvEpisode
      → Bytes
      → Bytes
      → OrganizeOptions
      → Library fs.Disk Rows TvEpisode × OrganizeResult
  unfolding note_episode place_file episode_target
  organize_episode rows d show e source dest opts =
      let target = episode_target show e source dest in
      note_episode rows e target
        (place_file fs source (season_dir show e.season dest) target opts d)
