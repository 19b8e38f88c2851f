-- ===== src/Torrent/Pieces/Store.antt =====
-- download/torrent/piece_manager.go: storing, verifying and reading back the blocks of a piece.
-- `sha1.Sum` is the parameter `sha1`. A method returns the new state beside its outcome.
pub mod Assembly
pub mod Outcome
use mediarr.Common.{
  ltb, leb, ◌==◌, if◌then◌else◌, length, get_elem?, set, nat_eq, string_eq, ℕ, ◌+◌, ◌/◌, Bool, true,
  false, not, Option, none, some, List, [], ◌∷◌, ◌++◌, map,
}
use mediarr.Common.Bytes.{eq_bytes}
use mediarr.Common.Int.{ℤ, pos, negsuc}
use mediarr.Common.Result.{Result, ok, err, panic}
use mediarr.Torrent.Pieces.{
  block_size, PieceState, not_downloaded, downloading, verified, failed, Block, Piece, PieceManager,
}

-- The loop of `NextRequest`.
unfoldable pub first_open : List Block → Option Block
first_open [] = none
first_open (b ∷ blocks) = if not b.done then some b else first_open blocks

unfoldable pub blocks_of : Option Piece → List Block
blocks_of none = []
blocks_of (some p) = p.blocks

-- `pieceIndex < 0 || pieceIndex >= NumPieces` gives nil.
unfoldable pub next_request : PieceManager → ℤ → Option Block
unfolding first_open blocks_of
next_request pm (negsuc i) = none
next_request pm (pos i) =
    if leb pm.num_pieces i then none else first_open (blocks_of (get_elem? pm.pieces i))

-- The state change at the head of `StoreBlock`; a verified piece keeps its state.
unfoldable pub begin_download : Piece → Piece
begin_download p = elim p.state [
  | not_downloaded ↦ record p { state = downloading }
  | failed ↦ record p { state = downloading }
  | _ ↦ p
]

-- `offset / BlockSize` rounds towards 0, and a negative index panics.
unfoldable pub block_index : ℤ → Result ℕ
block_index (pos offset) = ok (offset / block_size)
block_index (negsuc n) = if ltb (n + 1) block_size then ok 0 else panic

abbrev pub eq_offset : ℤ → ℕ → Bool
eq_offset (pos offset) o = offset == o
eq_offset (negsuc n) o = false

-- The tests of `StoreBlock` behind the state change, on block `i`, and its writes.
unfoldable pub put_block : Piece → ℕ → ℤ → List ℕ → Option Block → Piece × Result (Unit {0})
put_block p i offset bytes none = (p, err "invalid block index")
put_block p i offset bytes (some b) =
    if not (eq_offset offset b.offset)
    then (p, err "offset mismatch")
    else if not (length bytes == b.length)
    then (p, err "block length mismatch")
    else (
      record p {
        blocks = set p.blocks i (record b { done = true });
        blocks_got = p.blocks_got + 1;
        bytes = p.bytes ++ bytes;
      },
      ok tt,
    )

unfoldable pub store_in : Piece → ℤ → List ℕ → Piece × Result (Unit {0})
unfolding begin_download block_index put_block
store_in p offset bytes =
    let q = begin_download p in
    elim (block_index offset) [
      | ok i ↦ put_block q i offset bytes (get_elem? q.blocks i)
      | err e ↦ (q, err e)
      | panic ↦ (q, panic)
    ]

-- A method on piece `i`: the piece that it leaves is put back.
unfoldable pub at_piece {ℓ} :
    {A : Type ℓ} → PieceManager → ℕ → (Piece → Piece × Result A) → PieceManager × Result A
at_piece pm i f = elim (get_elem? pm.pieces i) [
  | none ↦ (pm, panic)
  | some p ↦ (record pm { pieces = set pm.pieces i (f p).0 }, (f p).1)
]

unfoldable pub store_block : PieceManager → ℤ → ℤ → List ℕ → PieceManager × Result (Unit {0})
unfolding store_in at_piece
store_block pm (negsuc i) offset bytes = (pm, err "invalid piece index")
store_block pm (pos i) offset bytes =
    if leb pm.num_pieces i
    then (pm, err "invalid piece index")
    else at_piece pm i (λ p. store_in p offset bytes)

abbrev pub reopen : Block → Block
reopen b = record b { done = false }

module _ (sha1 : List ℕ → List ℕ) where
  unfoldable pub verify : Piece → Piece × Result Bool
  verify p =
      if not (length p.bytes == p.length)
      then (p, err "piece data length mismatch")
      else if not (eq_bytes (sha1 p.bytes) p.hash)
      then (
        record p { state = failed; bytes = []; blocks_got = 0; blocks = map reopen p.blocks },
        ok false,
      )
      else (record p { state = verified }, ok true)

  unfoldable pub verify_piece : PieceManager → ℤ → PieceManager × Result Bool
  unfolding verify at_piece
  verify_piece pm (negsuc i) = (pm, err "invalid piece index")
  verify_piece pm (pos i) =
      if leb pm.num_pieces i then (pm, err "invalid piece index") else at_piece pm i verify

abbrev pub state_of : Option Piece → Result PieceState
state_of none = panic
state_of (some p) = ok p.state

unfoldable pub get_piece_state : PieceManager → ℤ → Result PieceState
get_piece_state pm (negsuc i) = ok not_downloaded
get_piece_state pm (pos i) =
    if leb pm.num_pieces i then ok not_downloaded else state_of (get_elem? pm.pieces i)

abbrev pub is_verified : PieceState → Bool
is_verified verified = true
is_verified not_downloaded = false
is_verified downloading = false
is_verified failed = false

unfoldable pub all_verified : List Piece → Bool
all_verified [] = true
all_verified (p ∷ pieces) = if not (is_verified p.state) then false else all_verified pieces

unfoldable pub is_complete : PieceManager → Bool
unfolding all_verified
is_complete pm = all_verified pm.pieces

unfoldable pub count_verified : List Piece → ℕ → ℕ
count_verified [] count = count
count_verified (p ∷ pieces) count =
    count_verified pieces (if is_verified p.state then count + 1 else count)

unfoldable pub completed_count : PieceManager → ℕ
unfolding count_verified
completed_count pm = count_verified pm.pieces 0

abbrev pub data_of : Option Piece → Result (List ℕ)
data_of none = panic
data_of (some p) = if is_verified p.state then ok p.bytes else err "piece not verified"

unfoldable pub get_piece_data : PieceManager → ℤ → Result (List ℕ)
get_piece_data pm (negsuc i) = err "invalid piece index"
get_piece_data pm (pos i) =
    if leb pm.num_pieces i then err "invalid piece index" else data_of (get_elem? pm.pieces i)

unfoldable pub reset : Piece → Piece × Result (Unit {0})
reset p = (
  record p { state = not_downloaded; bytes = []; blocks_got = 0; blocks = map reopen p.blocks },
  ok tt,
)

unfoldable pub reset_piece : PieceManager → ℤ → PieceManager × Result (Unit {0})
unfolding reset at_piece
reset_piece pm (negsuc i) = (pm, ok tt)
reset_piece pm (pos i) = if leb pm.num_pieces i then (pm, ok tt) else at_piece pm i reset
