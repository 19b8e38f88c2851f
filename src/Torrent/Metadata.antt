-- ===== src/Torrent/Metadata.antt =====
-- download/torrent/extensions.go, the exchange of a torrent's metadata: the messages for one piece
-- and the manager that collects the pieces. `GetInfoDict`, which hashes and decodes what was
-- collected, and the handshake's dictionary are not here.
pub mod Messages
pub mod Collected
use mediarr.Common.{
  ltb, if◌then◌else◌, length, get_elem?, set, drop, replicate, nat_eq, string_eq, ℕ, suc, ◌+◌, ◌-◌,
  ◌/◌, ◌^◌, Bool, true, false, ◌&&◌, ◌||◌, Option, none, some, List, [], ◌∷◌, ◌++◌,
}
use mediarr.Common.Int.{ℤ, pos, negsuc, pos_part, sub_ℕ, ◌+ℤ◌, ◌-ℤ◌, ltb_ℤ, leb_ℤ, bits, int64}
use mediarr.Common.Bytes.{Bytes, put_u32, get_u32, bytes_eq}
use mediarr.Common.Result.{Result, ok, err, panic}

abbrev pub metadata_piece_size : ℕ
metadata_piece_size = 16384

pub record MetadataManager : Type 0 where
  pub info_bytes : Bytes
  pub info_hash : Bytes
  pub piece_size : ℕ
  pub total_pieces : ℤ
  pub received_pieces : List Bool
  pub completed : Bool

unfoldable pub new_metadata_manager : Bytes → MetadataManager
new_metadata_manager info_hash = record {
  info_bytes = [];
  info_hash = info_hash;
  piece_size = 0;
  total_pieces = pos 0;
  received_pieces = [];
  completed = false;
}

-- `size / k` of Go, which rounds towards zero.
abbrev pub quotient : ℤ → ℕ → ℤ
quotient (pos n) k = pos (n / k)
quotient (negsuc n) k = sub_ℕ 0 (suc n / k)

-- What `make` can give at most on a 64-bit machine, in bytes; where less memory is left the program
-- ends, which is not modelled.
abbrev pub max_alloc : ℤ
max_alloc = pos (2 ^ 48)

-- `SetSize`. `make` panics on a length or capacity that is negative or too large.
unfoldable pub set_size : MetadataManager → ℤ → Result MetadataManager
set_size mm size =
    let total =
      quotient (int64 (int64 (size +ℤ pos metadata_piece_size) -ℤ pos 1)) metadata_piece_size in
    if ltb_ℤ total (pos 0) || ltb_ℤ max_alloc total
    then panic
    else if ltb_ℤ size (pos 0) || ltb_ℤ max_alloc size
    then panic
    else ok (record mm {
      piece_size = metadata_piece_size;
      total_pieces = total;
      received_pieces = replicate (pos_part total) false;
      info_bytes = [];
    })

unfoldable pub all_received : List Bool → Bool
all_received [] = true
all_received (r ∷ rs) = r && all_received rs

-- The piece is appended to what has been collected, in the order of arrival.
unfoldable pub collect : MetadataManager → Option Bool → ℕ → Bytes → Result MetadataManager
unfolding all_received
collect mm none piece payload = panic
collect mm (some true) piece payload = ok mm
collect mm (some false) piece payload =
    let received = set mm.received_pieces piece true in
    ok (record mm {
      received_pieces = received;
      info_bytes = mm.info_bytes ++ payload;
      completed = mm.completed || all_received received;
    })

unfoldable pub store_piece : MetadataManager → ℤ → Bytes → Result MetadataManager
unfolding collect
store_piece mm piece payload =
    if ltb_ℤ piece (pos 0) || leb_ℤ mm.total_pieces piece
    then err "invalid piece index"
    else collect mm (get_elem? mm.received_pieces (pos_part piece)) (pos_part piece) payload

unfoldable pub is_complete : MetadataManager → Bool
is_complete mm = mm.completed

unfoldable pub missing_from : ℕ → List Bool → List ℕ
missing_from i [] = []
missing_from i (r ∷ rs) = let rest = missing_from (suc i) rs in if r then rest else i ∷ rest

unfoldable pub missing_pieces : MetadataManager → List ℕ
unfolding missing_from
missing_pieces mm = missing_from 0 mm.received_pieces

unfoldable pub build_metadata_request : ℤ → Bytes
build_metadata_request piece = put_u32 0 ++ put_u32 (bits piece)

-- The message type, the piece and the payload.
unfoldable pub parse_metadata_message : Bytes → Result (ℕ × ℕ × Bytes)
parse_metadata_message message =
    if ltb (length message) 8
    then err "metadata message too short"
    else ok (get_u32 message, get_u32 (drop 4 message), drop 8 message)

-- For the first piece the total size goes in front of the message.
unfoldable pub with_size : Bool → ℤ → Bytes → Bytes
with_size false total_size payload = payload
with_size true total_size payload = put_u32 (bits total_size) ++ payload

unfoldable pub build_metadata_data : ℤ → ℤ → Bytes → Bytes
unfolding with_size
build_metadata_data piece total_size payload =
    with_size (leb_ℤ piece (pos 0) && leb_ℤ (pos 0) piece) total_size
      (put_u32 1 ++ put_u32 (bits piece) ++ payload)
