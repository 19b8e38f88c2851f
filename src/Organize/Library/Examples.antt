-- ===== src/Organize/Library/Examples.antt =====
-- organize/file_organizer.go at concrete inputs.
use mediarr.Common.{
  nat_eq, string_eq, lookup, insert, ℕ, ◌≡◌, refl, true, false, Option, none, some, List, [], ◌∷◌,
  arith,
}
use mediarr.Common.Bytes.{Bytes, bytes_eq, codes}
use mediarr.Organize.Paths.{clean, base, ext}
use mediarr.Organize.Paths.Normal.{root_path}
use mediarr.Organize.Names.{extract_quality, clean_title}
use mediarr.Organize.Names.Detect.{
  strip_extension, trim_dot, marker_at, year_at, find_last, detect_media, guess_episode_number,
}
use mediarr.Organize.Names.Markers.{detect_media-year}
use mediarr.Organize.FileSystem.{succeeded}
use mediarr.Organize.FileSystem.Memory.{directory, file, memory, memory-IsLawful}
use mediarr.Organize.Moves.{move_or_link}
use mediarr.Organize.Moves.Kept.{move_or_link_onto_self}
use mediarr.Organize.Place.{queued, available, Movie, TvShow, TvEpisode, OrganizeOptions, success}
use mediarr.Organize.Library.{
  movie_quality, movie_folder, movie_file, movie_target, episode_file, organize_movie,
}
use mediarr.Organize.Library.Named.{detect_media-episode_file, movie_target-root_path}

abbrev download : Bytes
download = codes "/dl/Big.Buck.Bunny.2008.1080p.mkv"

abbrev disk : memory.Disk
unfolding memory
disk =
    (codes "/dl", directory)
    ∷ (download, file (1 ∷ 2 ∷ []))
    ∷ (codes "/dl/cover.jpg", file (3 ∷ []))
    ∷ (codes "/lib/a.jpg", file (4 ∷ []))
    ∷ []

abbrev bunny : Movie
bunny = record {
  id = 1;
  title = codes "Bunny";
  year = 2008;
  status = queued;
  path = [];
  quality = [];
}

abbrev options : OrganizeOptions
options = record { use_hardlink = false; delete_leftovers = true; overwrite = false }

-- The rows in an association list.
abbrev get_movie : List (ℕ × Movie) → ℕ → Option Movie
get_movie rows i = lookup i rows

abbrev update_movie : List (ℕ × Movie) → ℕ → Movie → Option (List (ℕ × Movie))
update_movie rows i movie = some (insert i movie rows)

abbrev rows_of : Option (List (ℕ × Movie)) → List (ℕ × Movie)
rows_of none = []
rows_of (some rows) = rows

abbrev movies : List (ℕ × Movie)
movies = (1, bunny) ∷ (2, record bunny { id = 2 }) ∷ []

abbrev bunny_target : Bytes
bunny_target = codes "/lib/Bunny (2008)/Bunny (2008) [1080P].mkv"

abbrev disk_after : memory.Disk
unfolding memory
disk_after =
    (codes "/dl", directory)
    ∷ (codes "/lib/a.jpg", file (4 ∷ []))
    ∷ (codes "/lib/Bunny (2008)", directory)
    ∷ (bunny_target, file (1 ∷ 2 ∷ []))
    ∷ []

abbrev bunny_after : Movie
bunny_after = record bunny { path = bunny_target; quality = codes "1080P"; status = available }

organized :
    organize_movie memory update_movie (some movies) disk bunny download (codes "/lib") options ≡ (
      record {
        disk = disk_after;
        rows = some ((1, bunny_after) ∷ (2, record bunny { id = 2 }) ∷ []);
        item = bunny_after;
      },
      success 1 bunny_target,
    )
unfolding organize_movie memory disk disk_after insert
organized = refl

-- The last four digits in a row are those of the resolution.
wrong_year : (detect_media (codes "Big.Buck.Bunny.2008.1080p.mkv")).year ≡ 1080
unfolding detect_media
wrong_year = refl

wrong_title : (detect_media (codes "Movie Title (2024).mkv")).title ≡ codes "Movie Title ("
unfolding detect_media
wrong_title = refl

an_episode : detect_media (codes "Show.Name.s02e7.720p.x264[grp].mkv") ≡ record {
  title = codes "Show Name";
  year = 0;
  season = 2;
  episode = 7;
  quality = codes "720P";
  codec = codes "X264";
  group = codes "grp";
  resolution = codes "720p";
}
unfolding detect_media
an_episode = refl

guessed : guess_episode_number (codes "show.ep 12.mkv") ≡ 12
unfolding guess_episode_number
guessed = refl

-- A title with `..` in it leaves the library.
escaped :
    movie_target (record bunny { title = codes "../../etc/x" }) download (codes "/lib/movies")
    ≡ codes "/etc/x (2008) [1080P].mkv"
unfolding movie_target
escaped = refl

cleaned : clean (codes "/a//b/./c/../d/") ≡ codes "/a/b/d"
unfolding clean
cleaned = refl

base_and_ext : (base (codes "/a/b.tar.gz/") ≡ codes "b.tar.gz") × (ext (codes "/a.x/b") ≡ [])
unfolding base ext
base_and_ext = (refl, refl)

move_or_link_onto_self_example :
    (memory.content (move_or_link memory download download true disk).0 download ≡ none)
    × (succeeded (move_or_link memory download download true disk).1 ≡ false)
unfolding memory disk
move_or_link_onto_self_example =
    move_or_link_onto_self memory memory-IsLawful disk download true false refl refl

abbrev show : TvShow
show = record { id = 1; title = codes "The.Show" }

abbrev pilot : TvEpisode
pilot = record {
  id = 3;
  show_id = 1;
  season = 1;
  episode = 12;
  title = codes "Pilot";
  status = queued;
  path = [];
}

detect_media-episode_file_example :
    ((detect_media (episode_file show pilot download)).season ≡ 1)
    × ((detect_media (episode_file show pilot download)).episode ≡ 12)
    × ((detect_media (episode_file show pilot download)).title ≡ clean_title (codes "The.Show - "))
unfolding ext extract_quality find_last marker_at
detect_media-episode_file_example =
    detect_media-episode_file show pilot download (codes "mkv") (omega arith) (omega arith) refl
      refl refl

detect_media-year_example :
    ((detect_media (codes "Big.Buck.Bunny.2008.1080p.mkv")).year ≡ 1080)
    × ((detect_media (codes "Big.Buck.Bunny.2008.1080p.mkv")).title
        ≡ clean_title (codes "Big.Buck.Bunny.2008."))
unfolding strip_extension trim_dot find_last marker_at year_at
detect_media-year_example =
    detect_media-year (codes "Big.Buck.Bunny.2008.1080p.mkv") (codes "Big.Buck.Bunny.2008.")
      (codes "p") 49 48 56 48 1080 refl refl refl refl

movie_target-root_path_example :
    movie_target bunny download (root_path (codes "media" ∷ codes "lib" ∷ []))
    ≡ root_path (codes "media" ∷ codes "lib" ∷ movie_folder bunny ∷ movie_file bunny download ∷ [])
unfolding movie_quality
movie_target-root_path_example =
    movie_target-root_path bunny download (codes "media" ∷ codes "lib" ∷ [])
      (ground arith, (ground arith, tt)) (ground arith) (ground arith)
