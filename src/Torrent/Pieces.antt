-- ===== src/Torrent/Pieces.antt =====
-- download/torrent/piece_manager.go. The mutexes make each method one step on the state. Indices
-- that a caller may give below 0 are ℤ; sizes of a torrent are taken as not negative and below
-- 2 ^ 63, as are counts of entries. `[]byte` is a list of bytes, and its `nil` is the empty list.
pub mod Files
pub mod Peers
pub mod Rarest
pub mod Store
mod Examples
pub mod Blocks
use mediarr.Common.{
  ltb, ◌==◌, if◌then◌else◌, length, replicate, nat_eq, string_eq, ℕ, zero, suc, ◌+◌, ◌-◌, ◌*◌, ◌/◌,
  ◌%◌, String, Bool, false, ◌&&◌, List, [], ◌∷◌, ◌++◌,
}
use mediarr.Common.Int.{ℤ, pos, negsuc}
use mediarr.Common.Result.{Result, ok, panic, ◌>>=◌, ◌>>◌}

abbrev pub block_size : ℕ
block_size = 16384

pub data PieceState : Type 0 where
  not_downloaded downloading verified failed : PieceState

abbrev pub priority_skip : ℤ
priority_skip = negsuc 0

abbrev pub priority_normal : ℤ
priority_normal = pos 1

pub record Block : Type 0 where
  pub piece : ℕ
  pub offset : ℕ
  pub length : ℕ
  pub bytes : List ℕ
  pub done : Bool

pub record Piece : Type 0 where
  pub index : ℕ
  pub hash : List ℕ
  pub length : ℕ
  pub state : PieceState
  pub blocks : List Block
  pub blocks_got : ℕ
  pub bytes : List ℕ

unfoldable pub new_block : ℕ → ℕ → ℕ → Block
new_block index length i =
    let offset = i * block_size in
    record {
      piece = index;
      offset = offset;
      length = (if ltb length (offset + block_size) then length - offset else block_size);
      bytes = [];
      done = false;
    }

-- The loop of `newPiece`: `rounds` blocks from the number `i` on.
unfoldable pub new_blocks : ℕ → ℕ → ℕ → ℕ → List Block
new_blocks index length zero i = []
new_blocks index length (suc rounds) i =
    new_block index length i ∷ new_blocks index length rounds (i + 1)

unfoldable pub new_piece : ℕ → List ℕ → ℕ → Piece
new_piece index hash length = record {
  index = index;
  hash = hash;
  length = length;
  state = not_downloaded;
  blocks = new_blocks index length ((length + block_size - 1) / block_size) 0;
  blocks_got = 0;
  bytes = [];
}

-- `downloadedFiles`, `TotalSize` and `numVerifying` are never read or written by the manager.
pub record PieceManager : Type 0 where
  pub pieces : List Piece
  pub num_pieces : ℕ
  pub piece_length : ℕ
  pub file_priorities : List ℤ
  pub piece_to_files : List (List ℕ)
  pub peer_pieces : List (String × List Bool)
  pub piece_counts : List ℤ

-- What `NewPieceManager` reads of a `metainfo.InfoDict`; `files` holds the lengths of the files.
pub record InfoDict : Type 0 where
  pub pieces_hashes : List (List ℕ)
  pub piece_length : ℕ
  pub length : ℕ
  pub files : List ℕ
  pub total_size : ℕ

-- `mapping[p] = append(mapping[p], file)` for `rounds` pieces from `p` on, inside the mapping.
unfoldable pub mark_pieces : ℕ → ℕ → ℕ → List (List ℕ) → List (List ℕ)
mark_pieces file rounds zero [] = []
mark_pieces file zero zero (fs ∷ mapping) = fs ∷ mapping
mark_pieces file (suc rounds) zero (fs ∷ mapping) =
    (fs ++ file ∷ []) ∷ mark_pieces file rounds zero mapping
mark_pieces file rounds (suc p) [] = []
mark_pieces file rounds (suc p) (fs ∷ mapping) = fs ∷ mark_pieces file rounds p mapping

-- One more than Go's `(endOffset - 1) / pieceLen`, which rounds towards 0: an end of 0 gives piece -1
-- where a piece has one byte, and piece 0 where it has more.
abbrev pub after_last : ℕ → ℕ → ℕ
after_last piece_len zero = if piece_len == 1 then 0 else 1
after_last piece_len (suc n) = n / piece_len + 1

unfoldable pub map_files : ℕ → List ℕ → ℕ → ℕ → List (List ℕ) → List (List ℕ)
unfolding mark_pieces
map_files piece_len [] file offset mapping = mapping
map_files piece_len (len ∷ files) file offset mapping =
    let end_offset = offset + len in
    let first_piece = offset / piece_len in
    map_files piece_len files (file + 1) end_offset
      (mark_pieces file (after_last piece_len end_offset - first_piece) first_piece mapping)

unfoldable pub build_piece_to_file_map : InfoDict → Result (List (List ℕ))
unfolding map_files
build_piece_to_file_map info =
    let num_pieces = length info.pieces_hashes in
    if ltb 0 info.length
    then ok (replicate num_pieces (0 ∷ []))
    else if info.piece_length == 0 && ltb 0 (length info.files)
    then panic
    else ok (map_files info.piece_length info.files 0 0 (replicate num_pieces []))

-- The length of piece `i` of `num_pieces`; the last one has what is left.
unfoldable pub piece_len : InfoDict → ℕ → ℕ → ℕ
piece_len info num_pieces i =
    if i + 1 == num_pieces
    then (let remainder = info.total_size % info.piece_length in
        if ltb 0 remainder then remainder else info.piece_length)
    else info.piece_length

unfoldable pub new_pieces : InfoDict → ℕ → List (List ℕ) → ℕ → List Piece
unfolding piece_len new_piece
new_pieces info num_pieces [] i = []
new_pieces info num_pieces (hash ∷ hashes) i =
    new_piece i hash (piece_len info num_pieces i) ∷ new_pieces info num_pieces hashes (i + 1)

unfoldable pub new_piece_manager : InfoDict → Result PieceManager
unfolding new_pieces build_piece_to_file_map
new_piece_manager info = do
  let num_pieces = length info.pieces_hashes
  let num_files = (if ltb 0 info.length then 1 else length info.files)
  mapping ← build_piece_to_file_map info
  (if info.piece_length == 0 && ltb 0 num_pieces
      then panic
      else ok (record {
        pieces = new_pieces info num_pieces info.pieces_hashes 0;
        num_pieces = num_pieces;
        piece_length = info.piece_length;
        file_priorities = replicate num_files priority_normal;
        piece_to_files = mapping;
        peer_pieces = [];
        piece_counts = replicate num_pieces (pos 0);
      }))
