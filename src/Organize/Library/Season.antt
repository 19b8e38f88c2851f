-- ===== src/Organize/Library/Season.antt =====
-- organize/file_organizer.go: `IsMediaFile`, `FindMediaFiles`, `OrganizeSeason` and
-- `OrganizeDownloadedFiles`. What they make for an episode or a movie that is not in a table is
-- written to the row 0.
use mediarr.Common.{
  ltb, ◌==◌, if◌then◌else◌, nat_eq, string_eq, ℕ, Bool, true, false, not, ◌&&◌, ◌||◌, Option, none,
  some, List, [], ◌∷◌, map,
}
use mediarr.Common.Bytes.{Bytes, eq_bytes, bytes_eq, codes}
use mediarr.Organize.Paths.{join, dir, base, ext}
use mediarr.Organize.Names.{to_lower, extensions}
use mediarr.Organize.Names.Detect.{MediaInfo, is_extension, detect_media, guess_episode_number}
use mediarr.Organize.FileSystem.{Failure, DirEntry, FileSystem}
use mediarr.Organize.Moves.{cleanup_leftovers}
use mediarr.Organize.Place.{
  missing, Movie, TvShow, TvEpisode, OrganizeOptions, OrganizeResult, failure,
}
use mediarr.Organize.Library.{season_dir, Library, organize_movie, organize_episode}

abbrev media_exts : List Bytes
media_exts =
    map codes (
      ".mkv" ∷ ".mp4" ∷ ".avi" ∷ ".m4v" ∷ ".mov" ∷ ".wmv" ∷ ".flv" ∷ ".webm" ∷ ".ts" ∷ ".m2ts" ∷ [])

-- `FindStringSubmatch` of `extensionRegex`: it matches exactly where there is something to strip.
unfoldable pub has_extension : Bytes → Bool
has_extension [] = false
has_extension (c ∷ s) = c == b'.' && is_extension extensions s || has_extension s

unfoldable pub is_media_file : Bytes → Bool
unfolding ext has_extension
is_media_file file_name =
    is_extension media_exts (to_lower (ext file_name)) || has_extension (to_lower file_name)

unfoldable pub media_files_of : Bytes → List DirEntry → List Bytes
unfolding is_media_file join
media_files_of dir [] = []
media_files_of dir (e ∷ entries) =
    let rest = media_files_of dir entries in
    if not e.is_directory && is_media_file e.name then join dir e.name ∷ rest else rest

abbrev entries_or_none : Option (List DirEntry) → List DirEntry
entries_or_none none = []
entries_or_none (some entries) = entries

abbrev pub no_show : Bytes → TvShow
no_show title = record { id = 0; title = title }

abbrev pub new_episode : ℕ → ℕ → ℕ → Bytes → TvEpisode
new_episode show season number title = record {
  id = 0;
  show_id = show;
  season = season;
  episode = number;
  title = title;
  status = missing;
  path = [];
}

abbrev pub new_movie : Bytes → ℕ → Movie
new_movie title year = record {
  id = 0;
  title = title;
  year = year;
  status = missing;
  path = [];
  quality = [];
}

-- The disk and the rows behind a run over files, and its results.
pub record Run (Disk Rows : Type 0) : Type 0 where
  pub disk : Disk
  pub rows : Option Rows
  pub results : List OrganizeResult

module _ (fs : FileSystem) where
  unfoldable pub find_media_files : fs.Disk → Bytes → List Bytes
  unfolding media_files_of
  find_media_files d dir = media_files_of dir (entries_or_none (fs.read_dir d dir))

  abbrev clean_if : Bool → Bytes → fs.Disk → fs.Disk
  unfolding cleanup_leftovers
  clean_if true dir d = cleanup_leftovers fs dir d
  clean_if false dir d = d

  module _ {Rows : Type 0} (update : Rows → ℕ → TvEpisode → Option Rows) (opts : OrganizeOptions)
      (show : TvShow) where
    -- One file that is an episode, and then the others.
    abbrev with_result :
        Library fs.Disk Rows TvEpisode × OrganizeResult
        → (Option Rows → fs.Disk → Run fs.Disk Rows)
        → Run fs.Disk Rows
    with_result (lib, r) later =
        let rest = later lib.rows lib.disk in record rest { results = r ∷ rest.results }

    unfoldable pub season_loop :
        ℕ → Bytes → Bytes → List DirEntry → Option Rows → fs.Disk → Run fs.Disk Rows
    unfolding detect_media guess_episode_number organize_episode join
    season_loop season source_dir dest [] rows d = record { disk = d; rows = rows; results = [] }
    season_loop season source_dir dest (entry ∷ entries) rows d =
        let rest = season_loop season source_dir dest entries in
        let info = detect_media entry.name in
        let number = if info.episode == 0 then guess_episode_number entry.name else info.episode in
        let done =
          with_result
            (organize_episode fs update rows d show (new_episode show.id season number info.title)
              (join source_dir entry.name) dest opts)
            rest in
        if entry.is_directory
        then rest rows d
        else if info.season == season
        then done
        else rest rows d

    unfoldable pub after_season_dir :
        ℕ → Bytes → Bytes → List DirEntry → Option Rows → fs.Disk × Failure → Run fs.Disk Rows
    unfolding season_loop clean_if
    after_season_dir season source_dir dest entries rows (d, some e) = record {
      disk = d;
      rows = rows;
      results = failure e ∷ [];
    }
    after_season_dir season source_dir dest entries rows (d, none) =
        let run = season_loop season source_dir dest entries rows d in
        record run { disk = clean_if opts.delete_leftovers source_dir run.disk }

    unfoldable pub organize_found :
        ℕ → Bytes → Bytes → Option Rows → fs.Disk → Option (List DirEntry) → Run fs.Disk Rows
    unfolding after_season_dir season_dir
    organize_found season source_dir dest rows d none = record {
      disk = d;
      rows = rows;
      results = failure "read directory" ∷ [];
    }
    organize_found season source_dir dest rows d (some entries) =
        after_season_dir season source_dir dest entries rows
          (fs.mkdir_all (season_dir show season dest) d)

    unfoldable pub organize_season : ℕ → Bytes → Bytes → Option Rows → fs.Disk → Run fs.Disk Rows
    unfolding organize_found
    organize_season season source_dir dest rows d =
        organize_found season source_dir dest rows d (fs.read_dir d source_dir)

    -- The numbers of a file of a season: those of its name, or else those that the caller gave.
    abbrev downloaded_episode : ℕ → ℕ → MediaInfo → TvEpisode
    downloaded_episode season number info =
        new_episode 0 (if info.season == 0 then season else info.season)
          (if info.episode == 0 && ltb 0 number then number else info.episode) info.title

    unfoldable pub downloaded_loop :
        ℕ → ℕ → Bytes → List Bytes → Option Rows → fs.Disk → Run fs.Disk Rows
    unfolding detect_media base organize_episode
    downloaded_loop season number dest [] rows d = record { disk = d; rows = rows; results = [] }
    downloaded_loop season number dest (source ∷ files) rows d =
        with_result
          (organize_episode fs update rows d show
            (downloaded_episode season number (detect_media (base source))) source dest opts)
          (downloaded_loop season number dest files)

-- What `OrganizeDownloadedFiles` leaves: the disk, both tables, and the results.
pub record Downloaded (Disk Episodes Movies : Type 0) : Type 0 where
  pub disk : Disk
  pub episodes : Option Episodes
  pub movies : Option Movies
  pub results : List OrganizeResult

abbrev no_results : List OrganizeResult → Bool
no_results [] = true
no_results (r ∷ rs) = false

abbrev no_files : List Bytes → Bool
no_files [] = true
no_files (f ∷ files) = false

module _ (fs : FileSystem) {Episodes Movies : Type 0}
    (update_episode : Episodes → ℕ → TvEpisode → Option Episodes)
    (update_movie : Movies → ℕ → Movie → Option Movies) (opts : OrganizeOptions)
    (dest title : Bytes) (season number : ℕ) (episodes : Option Episodes)
    (movies : Option Movies) where
  abbrev after_episodes : Run fs.Disk Episodes → Downloaded fs.Disk Episodes Movies
  after_episodes run = record {
    disk = run.disk;
    episodes = run.rows;
    movies = movies;
    results = run.results;
  }

  abbrev after_movie :
      Library fs.Disk Movies Movie × OrganizeResult → Downloaded fs.Disk Episodes Movies
  after_movie (lib, r) = record {
    disk = lib.disk;
    episodes = episodes;
    movies = lib.rows;
    results = r ∷ [];
  }

  unfoldable pub organize_files : Bytes → fs.Disk → List Bytes → Downloaded fs.Disk Episodes Movies
  unfolding downloaded_loop detect_media base organize_movie
  organize_files media_type d [] = record {
    disk = d;
    episodes = episodes;
    movies = movies;
    results = failure "no media files found" ∷ [];
  }
  organize_files media_type d (source ∷ files) =
      if eq_bytes media_type (codes "tv") && ltb 0 season
      then after_episodes (
          downloaded_loop fs update_episode opts (no_show title) season number dest (source ∷ files)
            episodes d)
      else if eq_bytes media_type (codes "movie")
      then after_movie (
          organize_movie fs update_movie movies d
            (new_movie title (detect_media (base source)).year) source dest opts)
      else record { disk = d; episodes = episodes; movies = movies; results = [] }

  abbrev clean_downloaded :
      Bytes → Bool → Downloaded fs.Disk Episodes Movies → Downloaded fs.Disk Episodes Movies
  unfolding clean_if
  clean_downloaded source_dir none_found r = record r {
    disk =
        clean_if fs (opts.delete_leftovers && not none_found && not (no_results r.results))
          source_dir r.disk;
  }

  unfoldable pub organize_downloaded_files :
      Bytes → Bytes → fs.Disk → Downloaded fs.Disk Episodes Movies
  unfolding find_media_files organize_files clean_downloaded
  organize_downloaded_files source_dir media_type d =
      let files = find_media_files fs d source_dir in
      clean_downloaded source_dir (no_files files) (organize_files media_type d files)
