-- ===== src/Organize/Moves.antt =====
-- organize/file_organizer.go: `moveOrLink`, `moveFile` and `CleanupLeftovers`.
pub mod Cleaned
pub mod Kept
use mediarr.Common.{
  ◌==◌, if◌then◌else◌, nat_eq, string_eq, ℕ, ◌*◌, Bool, true, false, not, ◌&&◌, Option, none, some,
  List, [], ◌∷◌, map,
}
use mediarr.Common.Bytes.{Bytes, bytes_eq, codes}
use mediarr.Organize.Paths.{join, dir}
use mediarr.Organize.FileSystem.{Failure, DirEntry, FileSystem}

abbrev pub patterns : List Bytes
patterns = map codes (
    "*.part" ∷ "*.part.*" ∷ "*.tmp" ∷ "*.temp" ∷ "*.!qb" ∷ "*.bak" ∷ "*.aria2" ∷ "*.download"
    ∷ "*.missing" ∷ "*.txt" ∷ "*.nfo" ∷ "*.jpg" ∷ "*.png" ∷ "*.sfv" ∷ "*sample*.*" ∷ [])

abbrev no_bytes : Option ℕ → Bool
no_bytes none = false
no_bytes (some n) = n == 0

abbrev is_empty_file : DirEntry → Bool
is_empty_file e = not e.is_directory && no_bytes e.size

module _ (fs : FileSystem) where
  -- The end of the copy that `moveFile` makes where the rename fails: the mode of the source is looked
  -- up, its error is returned, the error of `Chmod` is not, and the source is removed.
  unfoldable pub finish_copy : Bytes → Bytes → fs.Disk → Option Bool → fs.Disk × Failure
  finish_copy source target d none = (d, some "stat")
  finish_copy source target d (some is_directory) = fs.remove source (fs.chmod target d).0

  unfoldable pub after_copy : Bytes → Bytes → fs.Disk × Failure → fs.Disk × Failure
  unfolding finish_copy
  after_copy source target (d, some e) = (d, some e)
  after_copy source target (d, none) = finish_copy source target d (fs.stat d source)

  unfoldable pub after_create : Bytes → Bytes → fs.Disk × Failure → fs.Disk × Failure
  unfolding after_copy
  after_create source target (d, some e) = (d, some e)
  after_create source target (d, none) = after_copy source target (fs.copy source target d)

  unfoldable pub after_open : Bytes → Bytes → fs.Disk → Failure → fs.Disk × Failure
  unfolding after_create
  after_open source target d (some e) = (d, some e)
  after_open source target d none = after_create source target (fs.create target d)

  unfoldable pub after_rename : Bytes → Bytes → fs.Disk × Failure → fs.Disk × Failure
  unfolding after_open
  after_rename source target (d, none) = (d, none)
  after_rename source target (d, some e) = after_open source target d (fs.open_file d source)

  unfoldable pub move_file : Bytes → Bytes → fs.Disk → fs.Disk × Failure
  unfolding after_rename
  move_file source target d = after_rename source target (fs.rename source target d)

  unfoldable pub after_link : Bytes → Bytes → fs.Disk × Failure → fs.Disk × Failure
  unfolding move_file
  after_link source target (d, none) = (d, none)
  after_link source target (d, some e) = move_file source target d

  unfoldable pub link_or_move : Bytes → Bytes → Bool → fs.Disk → fs.Disk × Failure
  unfolding after_link move_file
  link_or_move source target true d = after_link source target (fs.link source target d)
  link_or_move source target false d = move_file source target d

  unfoldable pub after_remove : Bytes → Bytes → Bool → fs.Disk × Failure → fs.Disk × Failure
  unfolding link_or_move
  after_remove source target use_hardlink (d, some e) = (d, some "remove existing")
  after_remove source target use_hardlink (d, none) = link_or_move source target use_hardlink d

  unfoldable pub replace : Bytes → Bytes → Bool → fs.Disk → Option Bool → fs.Disk × Failure
  unfolding after_remove link_or_move
  replace source target use_hardlink d none = link_or_move source target use_hardlink d
  replace source target use_hardlink d (some is_directory) =
      after_remove source target use_hardlink (fs.remove target d)

  unfoldable pub move_or_link : Bytes → Bytes → Bool → fs.Disk → fs.Disk × Failure
  unfolding replace
  move_or_link source target use_hardlink d =
      replace source target use_hardlink d (fs.stat d target)

  -- The files that match are removed; an error is only logged.
  unfoldable pub remove_each : List Bytes → fs.Disk → fs.Disk
  remove_each [] d = d
  remove_each (p ∷ ps) d = remove_each ps (fs.remove p d).0

  unfoldable pub remove_matches : Bytes → List Bytes → fs.Disk → fs.Disk
  unfolding remove_each
  remove_matches dir [] d = d
  remove_matches dir (pattern ∷ patterns) d =
      remove_matches dir patterns (remove_each (fs.glob d (join dir pattern)) d)

  unfoldable pub remove_empty : Bytes → List DirEntry → fs.Disk → fs.Disk
  remove_empty dir [] d = d
  remove_empty dir (e ∷ entries) d =
      remove_empty dir entries (if is_empty_file e then (fs.remove (join dir e.name) d).0 else d)

  unfoldable pub remove_empty_files : Bytes → Option (List DirEntry) → fs.Disk → fs.Disk
  unfolding remove_empty
  remove_empty_files dir none d = d
  remove_empty_files dir (some entries) d = remove_empty dir entries d

  unfoldable pub cleanup_leftovers : Bytes → fs.Disk → fs.Disk
  unfolding remove_matches remove_empty_files
  cleanup_leftovers dir d =
      let u = remove_matches dir patterns d in remove_empty_files dir (fs.read_dir u dir) u
