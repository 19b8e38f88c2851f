-- ===== src/Organize/Place.antt =====
-- organize/file_organizer.go: `OrganizeMovie` and `OrganizeEpisode`. The tables of movies and of
-- episodes come from the embeddb package: a worker without a table is one whose `db.Movies` fails, and
-- `update` writes a row or fails.
pub mod Outcome
use mediarr.Common.{
  if◌then◌else◌, nat_eq, string_eq, ℕ, String, Bool, true, false, not, ◌&&◌, Option, none, some, [],
}
use mediarr.Common.Bytes.{Bytes, bytes_eq}
use mediarr.Organize.Paths.{dir}
use mediarr.Organize.FileSystem.{Failure, FileSystem}
use mediarr.Organize.Moves.{move_or_link, cleanup_leftovers}

pub data MediaStatus : Type 0 where
  missing queued searching downloading available failed_media : MediaStatus

pub record Movie : Type 0 where
  pub id : ℕ
  pub title : Bytes
  pub year : ℕ
  pub status : MediaStatus
  pub path : Bytes
  pub quality : Bytes

pub record TvShow : Type 0 where
  pub id : ℕ
  pub title : Bytes

pub record TvEpisode : Type 0 where
  pub id : ℕ
  pub show_id : ℕ
  pub season : ℕ
  pub episode : ℕ
  pub title : Bytes
  pub status : MediaStatus
  pub path : Bytes

pub record OrganizeOptions : Type 0 where
  pub use_hardlink : Bool
  pub delete_leftovers : Bool
  pub overwrite : Bool

pub record OrganizeResult : Type 0 where
  pub success : Bool
  pub files_moved : ℕ
  pub dest_path : Bytes
  pub error : Failure

abbrev pub failure : String → OrganizeResult
failure e = record { success = false; files_moved = 0; dest_path = []; error = some e }

abbrev pub success : ℕ → Bytes → OrganizeResult
success n path = record { success = true; files_moved = n; dest_path = path; error = none }

-- How far the shared part of the two functions came.
pub data Placed : Type 0 where
  refused : String → Placed
  already : Placed
  placed : Placed

abbrev pub is_there : Option Bool → Bool
is_there none = false
is_there (some is_directory) = true

module _ (fs : FileSystem) (source target_dir target : Bytes) (opts : OrganizeOptions) where
  unfoldable pub after_move : fs.Disk × Failure → fs.Disk × Placed
  unfolding cleanup_leftovers
  after_move (d, some e) = (d, refused e)
  after_move (d, none) =
      ((if opts.delete_leftovers then cleanup_leftovers fs (dir source) d else d), placed)

  unfoldable pub after_mkdir : fs.Disk × Failure → fs.Disk × Placed
  unfolding after_move move_or_link
  after_mkdir (d, some e) = (d, refused "create directory")
  after_mkdir (d, none) =
      if not opts.overwrite && is_there (fs.stat d target)
      then (d, already)
      else after_move (move_or_link fs source target opts.use_hardlink d)

  unfoldable pub place_found : fs.Disk → Option Bool → fs.Disk × Placed
  unfolding after_mkdir
  place_found d none = (d, refused "source path stat failed")
  place_found d (some true) = (d, refused "source path is a directory, not a file")
  place_found d (some false) = after_mkdir (fs.mkdir_all target_dir d)

  -- The steps on the disk that `OrganizeMovie` and `OrganizeEpisode` have in common.
  unfoldable pub place_file : fs.Disk → fs.Disk × Placed
  unfolding place_found
  place_file d = place_found d (fs.stat d source)
