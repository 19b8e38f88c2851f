-- ===== src/Torrent/Session/Files.antt =====
-- download/torrent/torrent.go: `WritePiece` and `WriteAllPieces`. The disk is a map from paths to
-- contents. `open_error` gives the error of `MkdirAll`, `OpenFile` or `Seek` on a path, and
-- `write_count` the bytes that a write of a path can take; fewer than asked for is an error.
pub mod Contents
pub mod InOrder
pub mod AllPieces
use Prim.Native.Nat.{min}
use mediarr.Common.{
  ltb, leb, ◌==◌, if◌then◌else◌, length, take, drop, replicate, nat_eq, string_eq, lookup, insert,
  ℕ, zero, suc, ◌+◌, ◌-◌, ◌*◌, String, Bool, true, false, ◌&&◌, Option, none, some, List, [], ◌∷◌,
  ◌++◌,
}
use mediarr.Common.Int.{pos}
use mediarr.Common.Bytes.{Bytes, bytes_eq}
use mediarr.Common.Result.{Result, ok, err, panic, ◌>>◌}
use mediarr.Torrent.Pieces.{PieceManager}
use mediarr.Torrent.Pieces.Store.{get_piece_data}
use mediarr.Torrent.Session.{Torrent, FileWrite, TorrentInfo}

-- A file that is not there has no bytes.
abbrev pub or_no_bytes : Option Bytes → Bytes
or_no_bytes none = []
or_no_bytes (some bs) = bs

unfoldable pub content : Bytes → List (Bytes × Bytes) → Bytes
content path disk = or_no_bytes (lookup path disk)

-- A write at an offset; a gap before it reads as zeros.
unfoldable pub write_at : ℕ → Bytes → Bytes → Bytes
write_at offset [] old = old
write_at offset (b ∷ bs) old =
    take offset (old ++ replicate offset 0) ++ (b ∷ bs ++ drop (offset + suc (length bs)) old)

-- What the loop over the files leaves, with the bytes that it has written.
pub record Written : Type 0 where
  pub files : List FileWrite
  pub count : ℕ
  pub disk : List (Bytes × Bytes)
  pub failure : Option String

abbrev pub is_nil : Bytes → Bool
is_nil [] = true
is_nil (x ∷ xs) = false

module _ (open_error : Bytes → Option String) (write_count : Bytes → ℕ → ℕ) where
  -- One round of the loop, in the order of its tests: whether the file ends before the offset, whether
  -- it opens, whether all was written, whether nothing is left. `later` is the rest of the loop.
  module _ (later : ℕ → Bytes → List (Bytes × Bytes) → Written) (fw : FileWrite)
      (files : List FileWrite) where
    unfoldable pub after_write : ℕ → Bytes → List (Bytes × Bytes) → Bool → Written
    after_write n rest disk true = record {
      files = record fw { bytes_written = fw.bytes_written + n } ∷ files;
      count = n;
      disk = disk;
      failure = none;
    }
    after_write n rest disk false =
        let r = later 0 rest disk in
        record r {
          files = record fw { bytes_written = fw.bytes_written + n } ∷ r.files;
          count = n + r.count;
        }

    unfoldable pub check_write : ℕ → Bytes → List (Bytes × Bytes) → Bool → Written
    unfolding after_write
    check_write n bs disk true = record {
      files = fw ∷ files;
      count = 0;
      disk = disk;
      failure = some "write";
    }
    check_write n bs disk false = after_write n (drop n bs) disk (is_nil (drop n bs))

    unfoldable pub write_open : ℕ → Bytes → List (Bytes × Bytes) → Option String → Written
    unfolding check_write write_at content
    write_open offset bs disk (some e) = record {
      files = fw ∷ files;
      count = 0;
      disk = disk;
      failure = some e;
    }
    write_open offset bs disk none =
        let asked = min (length bs) (fw.length - fw.bytes_written) in
        let n = min asked (write_count fw.path asked) in
        let old = content fw.path disk in
        check_write n bs (insert fw.path (write_at offset (take n bs) old) disk) (ltb n asked)

    unfoldable pub write_file : ℕ → Bytes → List (Bytes × Bytes) → Bool → Written
    unfolding write_open
    write_file offset bs disk true =
        let r = later (offset - fw.length) bs disk in record r { files = fw ∷ r.files }
    write_file offset bs disk false = write_open offset bs disk (open_error fw.path)

  unfoldable pub write_files : List FileWrite → ℕ → Bytes → List (Bytes × Bytes) → Written
  unfolding write_file
  write_files [] offset bs disk = record { files = []; count = 0; disk = disk; failure = none }
  write_files (fw ∷ files) offset bs disk =
      write_file (write_files files) fw files offset bs disk (leb fw.length offset)

  abbrev pub outcome : Option String → Result (Unit {0})
  outcome none = ok tt
  outcome (some e) = err e

  unfoldable pub write_data :
      Torrent
      → ℕ
      → Bytes
      → List (Bytes × Bytes)
      → (Torrent × List (Bytes × Bytes)) × Result (Unit {0})
  unfolding write_files
  write_data t offset bs disk =
      let r = write_files t.files offset bs disk in
      (
        (record t { files = r.files; bytes_done = t.bytes_done + r.count }, r.disk),
        outcome r.failure,
      )

  -- The checks of `WritePiece` in their order. The remainder for the last piece is computed and not
  -- used; a piece length of 0 panics there, and so does a session without its info.
  unfoldable pub write_to_files :
      Torrent
      → PieceManager
      → ℕ
      → Bytes
      → List (Bytes × Bytes)
      → List FileWrite
      → Option TorrentInfo
      → (Torrent × List (Bytes × Bytes)) × Result (Unit {0})
  unfolding write_data
  write_to_files t pm i bs disk [] info = ((t, disk), ok tt)
  write_to_files t pm i bs disk (fw ∷ files) none = ((t, disk), panic)
  write_to_files t pm i bs disk (fw ∷ files) (some info) =
      if i + 1 == pm.num_pieces && info.piece_length == 0
      then ((t, disk), panic)
      else write_data t (i * info.piece_length) bs disk

  unfoldable pub write_piece_data :
      Torrent
      → PieceManager
      → ℕ
      → List (Bytes × Bytes)
      → Result Bytes
      → (Torrent × List (Bytes × Bytes)) × Result (Unit {0})
  unfolding write_to_files
  write_piece_data t pm i disk (err e) = ((t, disk), err "get piece data")
  write_piece_data t pm i disk panic = ((t, disk), panic)
  write_piece_data t pm i disk (ok bs) = write_to_files t pm i bs disk t.files t.info

  unfoldable pub write_piece_of :
      Torrent
      → ℕ
      → List (Bytes × Bytes)
      → Option PieceManager
      → (Torrent × List (Bytes × Bytes)) × Result (Unit {0})
  unfolding write_piece_data
  write_piece_of t i disk none = ((t, disk), err "no piece manager")
  write_piece_of t i disk (some pm) = write_piece_data t pm i disk (get_piece_data pm (pos i))

  unfoldable pub write_piece :
      Torrent → ℕ → List (Bytes × Bytes) → (Torrent × List (Bytes × Bytes)) × Result (Unit {0})
  unfolding write_piece_of
  write_piece t i disk = write_piece_of t i disk t.piece_manager

  abbrev pub then_pieces :
      (Torrent → List (Bytes × Bytes) → (Torrent × List (Bytes × Bytes)) × Result (Unit {0}))
      → (Torrent × List (Bytes × Bytes)) × Result (Unit {0})
      → (Torrent × List (Bytes × Bytes)) × Result (Unit {0})
  then_pieces rest ((t, disk), ok u) = rest t disk
  then_pieces rest ((t, disk), err e) = ((t, disk), err "write piece")
  then_pieces rest ((t, disk), panic) = ((t, disk), panic)

  -- `rounds` pieces from piece `i` on, up to the first that fails.
  unfoldable pub write_pieces :
      ℕ → ℕ → Torrent → List (Bytes × Bytes) → (Torrent × List (Bytes × Bytes)) × Result (Unit {0})
  unfolding write_piece
  write_pieces zero i t disk = ((t, disk), ok tt)
  write_pieces (suc rounds) i t disk =
      then_pieces (write_pieces rounds (i + 1)) (write_piece t i disk)

  unfoldable pub write_all_of :
      Torrent
      → List (Bytes × Bytes)
      → Option PieceManager
      → (Torrent × List (Bytes × Bytes)) × Result (Unit {0})
  unfolding write_pieces
  write_all_of t disk none = ((t, disk), err "no piece manager")
  write_all_of t disk (some pm) = write_pieces pm.num_pieces 0 t disk

  unfoldable pub write_all_pieces :
      Torrent → List (Bytes × Bytes) → (Torrent × List (Bytes × Bytes)) × Result (Unit {0})
  unfolding write_all_of
  write_all_pieces t disk = write_all_of t disk t.piece_manager
