-- ===== src/Torrent/Examples.antt =====
-- The wire protocol, the metadata and the rate limits at concrete inputs.
use mediarr.Common.{
  if◌then◌else◌, replicate, nat_eq, string_eq, ℕ, ◌≡◌, refl, ◌↔◌, true, false, some, List, [], ◌∷◌,
  ◌++◌, arith,
}
use mediarr.Common.Int.{pos, ◌+ℤ◌, leb_ℤ, int64}
use mediarr.Common.Bytes.{Bytes, put_u32, eq_bytes, bytes_eq}
use mediarr.Common.Result.{ok, err, ◌>>=◌}
use mediarr.Torrent.Peer.{
  msg_have, msg_request, msg_cancel, Conn, handshake_bytes, read_message, write_message,
  send_request, send_cancel, send_have, handshake_with_extensions, parse_have, parse_request,
}
use mediarr.Torrent.Peer.Framing.{append_to, frame, message, read_message-write_message, parse-send}
use mediarr.Torrent.Peer.Handshakes.{own, handshake_pair}
use mediarr.Torrent.Metadata.{
  MetadataManager, new_metadata_manager, set_size, is_complete, missing_pieces,
}
use mediarr.Torrent.Metadata.Collected.{Delivery, deliver_all, is_complete_iff}
use mediarr.Torrent.RateLimiter.{
  RateLimiter, can_download, record_download, get_current_download_rate,
}
use mediarr.Torrent.RateLimiter.Window.{recent, can_download_within}

abbrev twenty : ℕ → Bytes
twenty x = replicate 20 x

abbrev connection : Bytes → Bytes → Conn
connection info_hash peer_id = record {
  info_hash = info_hash;
  peer_id = peer_id;
  am_choking = true;
  am_interested = false;
  peer_choking = true;
  peer_interested = false;
  bitfield = [];
}

abbrev own_id : Conn
own_id = connection (twenty 7) (twenty 1)

abbrev other_id : Conn
other_id = connection (twenty 7) (twenty 2)

abbrev limiter : RateLimiter
limiter = record {
  download_limit = pos 100;
  upload_limit = pos 0;
  bytes_downloaded = pos 0;
  bytes_uploaded = pos 0;
  window = [];
}

handshake_pair_example :
    (handshake_with_extensions append_to own_id true []
        (handshake_bytes (own other_id false) ++ 5 ∷ [])
      ≡ (if eq_bytes (twenty 7) (twenty 7)
          then ok (handshake_bytes (own own_id true), 5 ∷ [])
          else err "info hash mismatch"))
    × (handshake_with_extensions append_to other_id false []
          (handshake_bytes (own own_id true) ++ 6 ∷ [])
        ≡ (if eq_bytes (twenty 7) (twenty 7)
            then ok (handshake_bytes (own other_id false), 6 ∷ [])
            else err "info hash mismatch"))
handshake_pair_example =
    handshake_pair own_id other_id true false [] [] (5 ∷ []) (6 ∷ []) (refl, refl) (refl, refl)

read_message-write_message_example :
    (write_message append_to [] (message 4 (1 ∷ 2 ∷ 3 ∷ []))
      ≡ ok (frame (message 4 (1 ∷ 2 ∷ 3 ∷ []))))
    × (read_message (frame (message 4 (1 ∷ 2 ∷ 3 ∷ [])) ++ [])
        ≡ ok (message 4 (1 ∷ 2 ∷ []), 3 ∷ []))
read_message-write_message_example = read_message-write_message [] 4 (1 ∷ 2 ∷ []) 3 [] (omega arith)

parse-send_example :
    let h = message msg_have (put_u32 3) in
    let numbers = put_u32 3 ++ (put_u32 16384 ++ put_u32 100) in
    let r = message msg_request numbers in
    let c = message msg_cancel numbers in
    (send_have append_to [] 3 ≡ ok (frame h))
    × (parse_have h ≡ ok 3)
    × (send_request append_to [] 3 16384 100 ≡ ok (frame r))
    × (parse_request r ≡ ok (3, 16384, 100))
    × (send_cancel append_to [] 3 16384 100 ≡ ok (frame c))
    × (parse_request c ≡ ok (3, 16384, 100))
parse-send_example = parse-send [] 3 16384 100 (omega arith) (omega arith) (omega arith)

abbrev deliveries : List Delivery
deliveries = (pos 1, 8 ∷ []) ∷ (pos 5, []) ∷ (pos 0, 9 ∷ []) ∷ []

is_complete_iff_example :
    (mm : MetadataManager) × ((set_size (new_metadata_manager []) (pos 20000) >>= λ mm'.
    deliver_all mm' deliveries)
      ≡ ok mm)
    × ((is_complete mm ≡ true) ↔ (missing_pieces mm ≡ []))
is_complete_iff_example = is_complete_iff [] 20000 deliveries (omega arith) (omega arith)

abbrev collecting : MetadataManager
collecting = record {
  info_bytes = [];
  info_hash = [];
  piece_size = 16384;
  total_pieces = pos 2;
  received_pieces = false ∷ false ∷ [];
  completed = false;
}

can_download_within_example :
    (rl' : RateLimiter) × (can_download false limiter (pos 60) (pos 0)
      ≡ some (rl', leb_ℤ (int64 (recent limiter (pos 0) +ℤ pos 60)) (pos 100)))
    × ((get_current_download_rate (record_download rl' (pos 60) (pos 0)) (pos 0)).1
        ≡ int64 (recent limiter (pos 0) +ℤ pos 60))
can_download_within_example = can_download_within limiter (pos 60) (pos 0) refl
