-- ===== src/Torrent/Pieces/Files.antt =====
-- download/torrent/piece_manager.go: the priorities of the files and what they want of the pieces.
pub mod InRange
use mediarr.Common.{
  leb, ◌==◌, if◌then◌else◌, length, get_elem?, set, get_or, nat_eq, string_eq, ℕ, Bool, true, false,
  not, Option, none, some, List, [], ◌∷◌,
}
use mediarr.Common.Int.{ℤ, pos, negsuc}
use mediarr.Common.Result.{Result, ok, ◌>>=◌, or_panic}
use mediarr.Torrent.Pieces.{priority_skip, PieceManager}

-- `fileIdx < 0 || fileIdx >= len(...)` returns at once.
unfoldable pub set_file_priority : PieceManager → ℤ → ℤ → PieceManager
set_file_priority pm (negsuc i) priority = pm
set_file_priority pm (pos i) priority =
    if leb (length pm.file_priorities) i
    then pm
    else record pm { file_priorities = set pm.file_priorities i priority }

unfoldable pub get_file_priority : PieceManager → ℤ → ℤ
get_file_priority pm (negsuc i) = priority_skip
get_file_priority pm (pos i) = get_or pm.file_priorities i priority_skip

abbrev pub is_skip : ℤ → Bool
is_skip (pos n) = false
is_skip (negsuc n) = n == 0

unfoldable pub is_file_wanted : PieceManager → ℤ → Bool
is_file_wanted pm (negsuc i) = false
is_file_wanted pm (pos i) =
    if leb (length pm.file_priorities) i
    then false
    else not (is_skip (get_or pm.file_priorities i priority_skip))

-- The loop of `pieceIsWanted` over the files of the piece.
unfoldable pub any_wanted : List ℤ → List ℕ → Result Bool
any_wanted priorities [] = ok false
any_wanted priorities (file ∷ files) =
    let rest = any_wanted priorities files in
    do
      priority ← or_panic (get_elem? priorities file)
      if not (is_skip priority) then ok true else rest

unfoldable pub wanted_files : PieceManager → Option (List ℕ) → Result Bool
unfolding any_wanted
wanted_files pm none = ok false
wanted_files pm (some files) = any_wanted pm.file_priorities files

unfoldable pub piece_is_wanted : PieceManager → ℕ → Result Bool
unfolding wanted_files
piece_is_wanted pm i = wanted_files pm (get_elem? pm.piece_to_files i)
