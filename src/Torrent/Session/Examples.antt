-- ===== src/Torrent/Session/Examples.antt =====
-- download/torrent/torrent.go at concrete inputs: two files of 6 and 2 bytes in pieces of 4 bytes.
use mediarr.Torrent.Session.Messages.{piece_message, handle_request, on_piece}
use mediarr.Torrent.Session.Messages.Serving.{handle_request_lem}
use mediarr.Torrent.Peer.{write_message, parse_piece}
use mathlib.Core.Bool.{true≢false}
use mediarr.Common.{
  length, nat_eq, string_eq, lookup, insert, ℕ, ◌≤◌, String, ◌≡◌, refl, sym, ap, ◌≢◌, true, false,
  Option, none, some, List, [], ◌∷◌, ◌++◌, arith, HasUniqueKeys,
}
use mediarr.Common.Int.{pos}
use mediarr.Common.Bytes.{Bytes, eq_bytes, bytes_eq}
use mediarr.Common.Result.{Result, ok}
use mediarr.Torrent.Pieces.{
  verified, failed, priority_normal, Piece, new_block, new_blocks, new_piece, PieceManager,
  new_piece_manager,
}
use mediarr.Torrent.Pieces.Store.{get_piece_data}
use mediarr.Torrent.Session.{
  metadata_state, downloading_state, FileWrite, TorrentInfo, Torrent, TorrentConfig, calc_files,
  new_torrent,
}
use mediarr.Torrent.Session.States.{
  Call, call_set_info, call_add_peer, call_start, call_resume, calls, calls_lem,
}
use mediarr.Torrent.Session.Files.{content, write_piece, write_all_pieces}
use mediarr.Torrent.Session.Files.Contents.{Holds}
use mediarr.Torrent.Session.Files.AllPieces.{HasData, write_all_pieces-Holds}

-- The first name is enough to tell the paths apart here.
abbrev last_of : List Bytes → Bytes
last_of [] = []
last_of (p ∷ []) = p
last_of (p ∷ q ∷ ps) = last_of (q ∷ ps)

abbrev info : TorrentInfo
info = record {
  name = 110 ∷ [];
  pieces_hashes = (1 ∷ []) ∷ (2 ∷ []) ∷ [];
  piece_length = 4;
  length = 0;
  files =
      record { path = (97 ∷ []) ∷ []; length = 6 }
      ∷ record { path = (98 ∷ []) ∷ []; length = 2 }
      ∷ [];
  total_size = 8;
}

abbrev config : TorrentConfig
config = record { name = []; info = some info; data_dir = []; max_peers = pos 1; seeding = false }

abbrev first_piece : Bytes
first_piece = 1 ∷ 2 ∷ 3 ∷ 4 ∷ []

abbrev second_piece : Bytes
second_piece = 5 ∷ 6 ∷ 7 ∷ 8 ∷ []

abbrev verified_piece : ℕ → Bytes → Piece
verified_piece i bs = record (new_piece i (i ∷ []) 4) { state = verified; bytes = bs }

abbrev pieces : PieceManager
pieces = record {
  pieces = verified_piece 0 first_piece ∷ verified_piece 1 second_piece ∷ [];
  num_pieces = 2;
  piece_length = 4;
  file_priorities = [];
  piece_to_files = [];
  peer_pieces = [];
  piece_counts = [];
}

abbrev session_files : List FileWrite
session_files =
    record { path = 97 ∷ []; length = 6; bytes_written = 0; priority = 0 }
    ∷ record { path = 98 ∷ []; length = 2; bytes_written = 0; priority = 1 }
    ∷ []

session_files_lem : calc_files last_of [] (some info) ≡ session_files
unfolding calc_files
session_files_lem = refl

abbrev session : Torrent
session = record {
  name = 110 ∷ [];
  state = downloading_state;
  info = some info;
  piece_manager = some pieces;
  peers = [];
  max_peers = 1;
  data_dir = [];
  files = session_files;
  total_size = 8;
  bytes_done = 0;
  seeding = false;
  uploaded = 0;
  downloaded = 0;
  closed = [];
  loops = 0;
  completions = 0;
}

abbrev never_fails : Bytes → Option String
never_fails p = none

abbrev takes_all : Bytes → ℕ → ℕ
takes_all p n = n

pieces-HasData : HasData pieces 0 (first_piece ∷ second_piece ∷ [])
unfolding get_piece_data
pieces-HasData = (refl, (refl, tt))

abbrev path_a : Bytes
path_a = 97 ∷ []

abbrev path_b : Bytes
path_b = 98 ∷ []

files_differ : path_a ≢ path_b
files_differ p = true≢false (ap (λ q. eq_bytes q path_a) p)

session-Holds : Holds session_files [] []
unfolding content lookup
session-Holds = (refl, refl, (refl, refl, tt))

write_all_pieces-Holds_example :
    let r = write_all_pieces never_fails takes_all session [] in
    (r.1 ≡ ok tt) × Holds r.0.0.files (first_piece ++ second_piece) r.0.1 × (r.0.0.bytes_done ≡ 8)
write_all_pieces-Holds_example =
    write_all_pieces-Holds never_fails takes_all session pieces info
      (first_piece ∷ second_piece ∷ []) [] (λ p. refl) (λ p n. omega arith) refl refl (omega arith)
      refl pieces-HasData (refl, tt) ((λ p. files_differ (sym p), tt), (tt, tt)) (omega arith)
      (omega arith) session-Holds

-- The second piece before the first. It is written past the end of the first file, and the first piece
-- then goes to both files in part.
abbrev out_of_order : (Torrent × List (Bytes × Bytes)) × Result (Unit {0})
out_of_order =
    let r = write_piece never_fails takes_all session 1 [] in
    write_piece never_fails takes_all r.0.0 0 r.0.1

out_of_order_first : content (97 ∷ []) out_of_order.0.1 ≡ 1 ∷ 2 ∷ 0 ∷ 0 ∷ 5 ∷ 6 ∷ 7 ∷ 8 ∷ []
unfolding content lookup write_piece get_piece_data insert
out_of_order_first = refl

out_of_order_second : content (98 ∷ []) out_of_order.0.1 ≡ 3 ∷ 4 ∷ []
unfolding content lookup write_piece get_piece_data insert
out_of_order_second = refl

abbrev magnet : TorrentConfig
magnet = record { name = []; info = none; data_dir = []; max_peers = pos 1; seeding = false }

abbrev blank : Torrent
blank = record session {
  name = [];
  state = metadata_state;
  info = none;
  piece_manager = none;
  files = [];
  total_size = 0;
}

abbrev some_calls : List Call
some_calls =
    call_add_peer "a" 1
    ∷ call_start
    ∷ call_set_info (some info)
    ∷ call_add_peer "b" 2
    ∷ call_start
    ∷ call_resume
    ∷ []

abbrev new_pieces_of : PieceManager
new_pieces_of = record {
  pieces = new_piece 0 (1 ∷ []) 4 ∷ new_piece 1 (2 ∷ []) 4 ∷ [];
  num_pieces = 2;
  piece_length = 4;
  file_priorities = priority_normal ∷ priority_normal ∷ [];
  piece_to_files = (0 ∷ []) ∷ (0 ∷ 1 ∷ []) ∷ [];
  peer_pieces = [];
  piece_counts = pos 0 ∷ pos 0 ∷ [];
}

-- The second peer is above the limit of one, and its connection is closed.
abbrev called : Torrent
called = record session {
  name = [];
  piece_manager = some new_pieces_of;
  peers = ("a", 1) ∷ [];
  closed = 2 ∷ [];
}

new_session : new_torrent last_of magnet ≡ ok blank
unfolding new_torrent
new_session = refl

called_lem : calls last_of blank some_calls ≡ ok called
unfolding calls lookup new_piece_manager insert
called_lem = refl

calls_lem_example :
    (called.loops ≡ 0) × (length called.peers ≤ called.max_peers) × HasUniqueKeys called.peers
calls_lem_example = calls_lem last_of magnet some_calls new_session called_lem

abbrev seeder : Torrent
seeder = record session { seeding = true }

-- A connection as the bytes that were written to it.
abbrev write_bytes : Bytes → Bytes → Result Bytes
write_bytes w bs = ok (w ++ bs)

abbrev answer : Bytes
answer = 0 ∷ 0 ∷ 0 ∷ 11 ∷ 7 ∷ 0 ∷ 0 ∷ 0 ∷ 1 ∷ 0 ∷ 0 ∷ 0 ∷ 1 ∷ 6 ∷ 7 ∷ []

second_data : get_piece_data pieces (pos 1) ≡ ok second_piece
unfolding get_piece_data
second_data = refl

answer_lem : write_message write_bytes [] (piece_message 1 1 (6 ∷ 7 ∷ [])) ≡ ok answer
unfolding piece_message write_message
answer_lem = refl

handle_request_lem_example :
    (parse_piece (piece_message 1 1 (6 ∷ 7 ∷ [])) ≡ ok (1, 1, 6 ∷ 7 ∷ []))
    × (handle_request write_bytes none seeder [] 1 1 2
        ≡ ((record seeder { uploaded = 2 }, answer), ok tt))
handle_request_lem_example =
    handle_request_lem write_bytes none seeder pieces [] answer 1 1 2 second_piece refl refl
      second_data (omega arith) (omega arith) (omega arith) answer_lem

-- A block that completes a piece with a bad hash: the piece is thrown away and nothing is written.
abbrev loading : Torrent
loading = record session { piece_manager = some new_pieces_of }

on_piece_bad_hash :
    on_piece never_fails takes_all (λ bs. []) loading [] loading.piece_manager (0, 0, first_piece)
    ≡ ok (
      record loading {
        downloaded = 4;
        piece_manager = some (record new_pieces_of {
          pieces = record (new_piece 0 (1 ∷ []) 4) { state = failed } ∷ new_piece 1 (2 ∷ []) 4 ∷ [];
        });
      },
      [],
    )
unfolding on_piece new_piece new_blocks new_block
on_piece_bad_hash = refl
