-- ===== src/Torrent/Pieces/Examples.antt =====
-- The piece manager at concrete inputs: a torrent of one file of 5 bytes in pieces of 2 bytes.
use mediarr.Common.{
  nat_eq, string_eq, lookup, ℕ, ◌+◌, ◌≡◌, refl, ◌↔◌, true, false, none, List, [], ◌∷◌, map, arith,
}
use mediarr.Common.Int.{pos}
use mediarr.Common.Result.{ok}
use mediarr.Torrent.Pieces.{
  downloading, verified, priority_normal, Block, Piece, new_piece, PieceManager, InfoDict,
  build_piece_to_file_map, piece_len, new_pieces, new_piece_manager,
}
use mediarr.Torrent.Pieces.Peers.Invariant.{
  Message, bitfield, have, gone, Keeps, receive_all, receive_all-Keeps, new_piece_manager-IsCounted,
}
use mediarr.Torrent.Pieces.Rarest.{rarest_piece}
use mediarr.Torrent.Pieces.Store.{first_open, verify}
use mediarr.Torrent.Pieces.Store.Assembly.{fetch}
use mediarr.Torrent.Pieces.Store.Outcome.{fetch-verify}

abbrev info : InfoDict
info = record {
  pieces_hashes = (1 ∷ []) ∷ (2 ∷ []) ∷ (3 ∷ []) ∷ [];
  piece_length = 2;
  length = 5;
  files = [];
  total_size = 5;
}

abbrev pieces : PieceManager
pieces = record {
  pieces = new_piece 0 (1 ∷ []) 2 ∷ new_piece 1 (2 ∷ []) 2 ∷ new_piece 2 (3 ∷ []) 1 ∷ [];
  num_pieces = 3;
  piece_length = 2;
  file_priorities = priority_normal ∷ [];
  piece_to_files = (0 ∷ []) ∷ (0 ∷ []) ∷ (0 ∷ []) ∷ [];
  peer_pieces = [];
  piece_counts = pos 0 ∷ pos 0 ∷ pos 0 ∷ [];
}

new_piece_manager_lem : new_piece_manager info ≡ ok pieces
unfolding new_piece_manager new_pieces build_piece_to_file_map piece_len
new_piece_manager_lem = refl

-- The sum of the bytes, as a stand-in for the hash.
abbrev sum : List ℕ → List ℕ
sum [] = 0 ∷ []
sum (x ∷ xs) = map (λ s. s + x) (sum xs)

fetch-verify_example :
    let q = fetch (4 ∷ 5 ∷ []) 2 (new_piece 1 (9 ∷ []) 2) in
    (q.bytes ≡ 4 ∷ 5 ∷ [])
    × (first_open q.blocks ≡ none)
    × ((verify sum q).1 ≡ ok true)
    × (((verify sum q).0.state ≡ verified) ↔ (sum (4 ∷ 5 ∷ []) ≡ 9 ∷ []))
fetch-verify_example = fetch-verify sum (4 ∷ 5 ∷ []) (9 ∷ []) 1 2 (omega arith) (omega arith)

abbrev messages : List Message
messages =
    bitfield "p" (160 ∷ []) ∷ have "q" 2 ∷ have "q" 7 ∷ bitfield "p" (64 ∷ []) ∷ gone "q" ∷ []

receive_all-Keeps_example : Keeps pieces (receive_all pieces messages)
receive_all-Keeps_example =
    receive_all-Keeps pieces messages
      (new_piece_manager-IsCounted info pieces new_piece_manager_lem)

-- The peer "p" has the pieces 0 and 2, the peer "q" has piece 2.
abbrev shared : PieceManager
shared = record pieces {
  peer_pieces = ("p", true ∷ false ∷ true ∷ []) ∷ ("q", false ∷ false ∷ true ∷ []) ∷ [];
  piece_counts = pos 1 ∷ pos 0 ∷ pos 2 ∷ [];
}

rarest_piece-shared : rarest_piece shared "p" ≡ ok 0
unfolding rarest_piece lookup new_piece
rarest_piece-shared = refl

abbrev block : Block
block = record { piece = 0; offset = 0; length = 2; bytes = 4 ∷ 5 ∷ []; done = true }

abbrev full : Piece
full = record {
  index = 0;
  hash = 9 ∷ [];
  length = 2;
  state = downloading;
  blocks = block ∷ [];
  blocks_got = 1;
  bytes = 4 ∷ 5 ∷ [];
}
