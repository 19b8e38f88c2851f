-- ===== src/Organize/FileSystem.antt =====
-- The calls of Go's `os`, `io` and `filepath` packages that organize/file_organizer.go makes. The
-- file system is not code of the program: it is an interface over an unknown disk, and what the
-- organizer relies on are laws about what a reader of a path finds.
pub mod Memory
use mediarr.Common.{
  ◌==◌, if◌then◌else◌, nat_eq, string_eq, ℕ, ◌-◌, ◌*◌, String, ◌≡◌, ◌≢◌, ◌⊎◌, Bool, true, false,
  ◌&&◌, ◌||◌, Option, none, some, List, [], ◌∷◌,
}
use mediarr.Common.Bytes.{Bytes, eq_bytes, bytes_eq}
use mediarr.Organize.Paths.Normal.{IsElement, AllElements, root_path}
use mediarr.Organize.Paths.{dir, join}

abbrev pub Failure : Type 0
Failure = Option String

abbrev pub succeeded : Failure → Bool
succeeded none = true
succeeded (some message) = false

pub record DirEntry : Type 0 where
  pub name : Bytes
  pub is_directory : Bool
  pub size : Option ℕ

-- `stat` says whether the path is a directory, and fails with none. A call that changes the disk
-- gives the disk behind it and its error; `copy` is `io.Copy` from an open file to a created one.
-- `content` is what a reader of a regular file finds. `IsPlain` says that a path is absolute and clean
-- and that no symbolic link stands in it, so that it names a file by its only path, but for hard links;
-- `IsEntry` that it is absolute and clean and that no link stands in its directory, so that it names an
-- entry there, which can be a link. Both are meant for as long as the program runs: the organizer makes
-- no symbolic link of its own. `IsAbsent` says that nothing stands at a path, not even a link, and
-- `IsAlone` that the file at a path, if there is one, has no hard link.
pub record FileSystem : Type 1 where
  pub Disk : Type 0
  pub content : Disk → Bytes → Option Bytes
  pub IsPlain : Bytes → Type 0
  pub IsEntry : Bytes → Type 0
  pub IsAbsent : Disk → Bytes → Type 0
  pub IsAlone : Disk → Bytes → Type 0
  pub stat : Disk → Bytes → Option Bool
  pub read_dir : Disk → Bytes → Option (List DirEntry)
  pub glob : Disk → Bytes → List Bytes
  pub open_file : Disk → Bytes → Failure
  pub mkdir_all : Bytes → Disk → Disk × Failure
  pub remove : Bytes → Disk → Disk × Failure
  pub link : Bytes → Bytes → Disk → Disk × Failure
  pub rename : Bytes → Bytes → Disk → Disk × Failure
  pub create : Bytes → Disk → Disk × Failure
  pub copy : Bytes → Bytes → Disk → Disk × Failure
  pub chmod : Bytes → Disk → Disk × Failure

-- `filepath.Glob` takes the directory in a pattern for a pattern as well.
abbrev pub has_meta : Bytes → Bool
has_meta [] = false
has_meta (c ∷ path) = c == b'*' || c == b'?' || c == b'[' || c == 92 || has_meta path

abbrev pub Listed : Bytes → List Bytes → Type 0
Listed p [] = ⊥
Listed p (q ∷ qs) = (p ≡ q) ⊎ Listed p qs

abbrev pub AllNames : List DirEntry → Type 0
AllNames [] = Unit
AllNames (e ∷ entries) = IsElement e.name × AllNames entries

-- The documented behaviour on such paths. A call that fails leaves every file as it is, but for a copy,
-- which can leave a part in its target.
pub record IsLawful (fs : FileSystem) : Type 0 where
  pub plain-IsEntry : (p : Bytes) → fs.IsPlain p → fs.IsEntry p
  pub join-IsEntry :
      (es : List Bytes) (e : Bytes)
      → AllElements es
      → IsElement e
      → fs.IsPlain (root_path es)
      → fs.IsEntry (join (root_path es) e)
  pub stat-content : (d : fs.Disk) (p : Bytes) → fs.stat d p ≡ none → fs.content d p ≡ none
  pub absent-content : (d : fs.Disk) (p : Bytes) → fs.IsAbsent d p → fs.content d p ≡ none
  pub content-mkdir_all :
      (p : Bytes) (d : fs.Disk) (k : Bytes) → fs.content (fs.mkdir_all p d).0 k ≡ fs.content d k
  pub content-chmod :
      (p : Bytes) (d : fs.Disk) (k : Bytes) → fs.content (fs.chmod p d).0 k ≡ fs.content d k
  pub content-remove :
      (p : Bytes) (d : fs.Disk) (k : Bytes)
      → fs.IsEntry p
      → fs.IsPlain k
      → fs.content (fs.remove p d).0 k
        ≡ (if succeeded (fs.remove p d).1 && eq_bytes p k then none else fs.content d k)
  pub remove-IsAbsent :
      (p : Bytes) (d : fs.Disk)
      → succeeded (fs.remove p d).1 ≡ true
      → fs.IsAbsent (fs.remove p d).0 p
  pub content-link :
      (p q : Bytes) (d : fs.Disk) (k : Bytes)
      → fs.IsPlain p
      → fs.IsPlain q
      → fs.IsPlain k
      → fs.content (fs.link p q d).0 k
        ≡ (if succeeded (fs.link p q d).1 && eq_bytes q k then fs.content d p else fs.content d k)
  pub link_absent :
      (p q : Bytes) (d : fs.Disk)
      → fs.IsAbsent d p
      → (succeeded (fs.link p q d).1 ≡ false) × fs.IsAbsent (fs.link p q d).0 p
  pub rename_absent :
      (p q : Bytes) (d : fs.Disk)
      → fs.IsAbsent d p
      → (succeeded (fs.rename p q d).1 ≡ false) × fs.IsAbsent (fs.rename p q d).0 p
  pub open_absent :
      (p : Bytes) (d : fs.Disk) → fs.IsAbsent d p → succeeded (fs.open_file d p) ≡ false
  pub content-rename :
      (p q : Bytes) (d : fs.Disk) (k : Bytes)
      → fs.IsPlain p
      → fs.IsPlain q
      → fs.IsPlain k
      → fs.content d p ≢ none
      → fs.content d q ≡ none
      → fs.content (fs.rename p q d).0 k ≡ (
          if succeeded (fs.rename p q d).1
          then (if eq_bytes q k
              then fs.content d p
              else if eq_bytes p k
              then none
              else fs.content d k)
          else fs.content d k)
  pub content-create :
      (p : Bytes) (d : fs.Disk) (k : Bytes)
      → fs.IsPlain p
      → fs.IsPlain k
      → fs.content d p ≡ none
      → fs.content (fs.create p d).0 k
        ≡ (if succeeded (fs.create p d).1 && eq_bytes p k then some [] else fs.content d k)
  pub create-IsAlone :
      (p : Bytes) (d : fs.Disk)
      → fs.IsPlain p
      → fs.content d p ≡ none
      → succeeded (fs.create p d).1 ≡ true
      → fs.IsAlone (fs.create p d).0 p
  pub content-copy :
      (p q : Bytes) (d : fs.Disk) (k : Bytes)
      → fs.IsPlain q
      → fs.IsPlain k
      → fs.IsAlone d q
      → eq_bytes q k ≡ false
      → fs.content (fs.copy p q d).0 k ≡ fs.content d k
  pub copy_done :
      (p q : Bytes) (d : fs.Disk)
      → fs.IsPlain p
      → fs.IsPlain q
      → fs.IsAlone d q
      → p ≢ q
      → succeeded (fs.copy p q d).1 ≡ true
      → fs.content (fs.copy p q d).0 q ≡ fs.content d p
  pub glob_within :
      (d : fs.Disk) (pattern p : Bytes)
      → fs.IsEntry pattern
      → has_meta (dir pattern) ≡ false
      → Listed p (fs.glob d pattern)
      → fs.IsEntry p × (dir p ≡ dir pattern)
  pub read_dir_names :
      (d : fs.Disk) (p : Bytes) {entries : List DirEntry}
      → fs.read_dir d p ≡ some entries
      → AllNames entries
