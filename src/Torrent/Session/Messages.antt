-- ===== src/Torrent/Session/Messages.antt =====
-- download/torrent/torrent.go: what a session does with the messages of a peer, and what it sends.
-- `callback` is the piece reader that the client may have set, `write` what writes to a connection,
-- and `sha1` is the hash of the pieces.
pub mod Serving
use mediarr.Common.{
  leb, ◌==◌, if◌then◌else◌, length, get_elem?, take, drop, nat_eq, string_eq, ℕ, ◌+◌, String, Bool,
  true, false, not, ◌&&◌, Option, none, some, List, [], ◌∷◌, ◌++◌,
}
use mediarr.Common.Int.{pos, bits}
use mediarr.Common.Bytes.{Bytes, put_u32, bytes_eq}
use mediarr.Common.Result.{Result, ok, err, panic, ◌>>=◌, ◌>>◌}
use mediarr.Torrent.Pieces.{PieceState, Block, Piece, PieceManager}
use mediarr.Torrent.Pieces.Peers.{set_peer_bitfield, peer_have}
use mediarr.Torrent.Pieces.Rarest.{rarest_piece}
use mediarr.Torrent.Pieces.Store.{
  store_block, verify_piece, get_piece_state, get_piece_data, is_verified,
}
use mediarr.Torrent.Peer.{
  Message, msg_have, msg_bitfield, msg_request, msg_unchoke, parse_have, parse_piece, parse_request,
  write_message, send_interested, send_request,
}
use mediarr.Torrent.Session.{Torrent, TorrentInfo}
use mediarr.Torrent.Session.Files.{write_piece}

abbrev pub msg_piece : ℕ
msg_piece = 7

abbrev pub Callback : Type 0
Callback = Option (ℕ → ℕ → ℕ → Result Bytes)

unfoldable pub from_callback : Callback → ℕ → ℕ → ℕ → Result Bytes
from_callback none i offset len = err "piece not available"
from_callback (some read) i offset len = read i offset len

-- The data of a verified piece, if it is long enough.
unfoldable pub from_piece : Callback → ℕ → ℕ → ℕ → Result Bytes → Result Bytes
unfolding from_callback
from_piece callback i offset len (err e) = from_callback callback i offset len
from_piece callback i offset len panic = panic
from_piece callback i offset len (ok bs) =
    if leb (offset + len) (length bs)
    then ok (take len (drop offset bs))
    else from_callback callback i offset len

unfoldable pub from_state : Callback → PieceManager → ℕ → ℕ → ℕ → Result PieceState → Result Bytes
unfolding from_piece
from_state callback pm i offset len (err e) = err e
from_state callback pm i offset len panic = panic
from_state callback pm i offset len (ok s) =
    if is_verified s
    then from_piece callback i offset len (get_piece_data pm (pos i))
    else from_callback callback i offset len

unfoldable pub read_from : Callback → Option PieceManager → ℕ → ℕ → ℕ → Result Bytes
unfolding from_state
read_from callback none i offset len = from_callback callback i offset len
read_from callback (some pm) i offset len =
    from_state callback pm i offset len (get_piece_state pm (pos i))

unfoldable pub read_piece_data : Callback → Torrent → ℕ → ℕ → ℕ → Result Bytes
unfolding read_from
read_piece_data callback t i offset len = read_from callback t.piece_manager i offset len

unfoldable pub piece_message : ℕ → ℕ → Bytes → Message
piece_message i offset bs = record {
  kind = msg_piece;
  payload = put_u32 i ++ (put_u32 offset ++ bs);
}

module _ {W : Type 0} (write : W → Bytes → Result W) (callback : Callback) where
  -- A write that fails leaves the session as it was.
  abbrev pub after_send : Torrent → W → ℕ → Result W → (Torrent × W) × Result (Unit {0})
  after_send t w n (ok v) = ((record t { uploaded = t.uploaded + n }, v), ok tt)
  after_send t w n (err e) = ((t, w), err e)
  after_send t w n panic = ((t, w), panic)

  unfoldable pub send_data : Torrent → W → ℕ → ℕ → Result Bytes → (Torrent × W) × Result (Unit {0})
  unfolding piece_message write_message
  send_data t w i offset (ok bs) =
      after_send t w (length bs) (write_message write w (piece_message i offset bs))
  send_data t w i offset (err e) = ((t, w), err e)
  send_data t w i offset panic = ((t, w), panic)

  unfoldable pub handle_request : Torrent → W → ℕ → ℕ → ℕ → (Torrent × W) × Result (Unit {0})
  unfolding send_data read_piece_data
  handle_request t w i offset len =
      if not t.seeding
      then ((t, w), ok tt)
      else send_data t w i offset (read_piece_data callback t i offset len)

  abbrev pub sent : W → Result W → W
  sent w (ok v) = v
  sent w (err e) = w
  sent w panic = w

  -- The loop of `RequestPiece`; a request that cannot be sent is passed over.
  unfoldable pub request_blocks : W → ℕ → List Block → W
  unfolding send_request
  request_blocks w i [] = w
  request_blocks w i (b ∷ blocks) =
      let v = sent w (send_request write w i b.offset b.length) in
      request_blocks (if b.done then w else v) i blocks

  unfoldable pub request_open : W → ℕ → Option Piece → Result W → Result W
  unfolding request_blocks
  request_open w i p (err e) = ok w
  request_open w i p panic = panic
  request_open w i none (ok v) = panic
  request_open w i (some p) (ok v) = ok (request_blocks v i p.blocks)

  unfoldable pub request_rarest : PieceManager → W → Result ℕ → Result W
  unfolding request_open send_interested
  request_rarest pm w (err e) = ok w
  request_rarest pm w panic = panic
  request_rarest pm w (ok i) = request_open w i (get_elem? pm.pieces i) (send_interested write w)

  abbrev pub request_with : Option TorrentInfo → Option PieceManager → W → String → Result W
  unfolding request_rarest rarest_piece
  request_with none pm w addr = ok w
  request_with (some info) none w addr = panic
  request_with (some info) (some pm) w addr = request_rarest pm w (rarest_piece pm addr)

  unfoldable pub request_piece : Torrent → W → String → Result W
  unfolding request_with
  request_piece t w addr = request_with t.info t.piece_manager w addr

-- The fields of a message whose parse failed are 0 and nil.
abbrev pub have_or_zero : Result ℕ → ℕ
have_or_zero (ok i) = i
have_or_zero (err e) = 0
have_or_zero panic = 0

abbrev pub piece_or_zero : Result (ℕ × ℕ × Bytes) → ℕ × ℕ × Bytes
piece_or_zero (ok r) = r
piece_or_zero (err e) = (0, 0, [])
piece_or_zero panic = (0, 0, [])

abbrev pub request_or_zero : Result (ℕ × ℕ × ℕ) → ℕ × ℕ × ℕ
request_or_zero (ok r) = r
request_or_zero (err e) = (0, 0, 0)
request_or_zero panic = (0, 0, 0)

abbrev pub Disk : Type 0
Disk = List (Bytes × Bytes)

module _ (open_error : Bytes → Option String) (write_count : Bytes → ℕ → ℕ)
    (sha1 : Bytes → Bytes) where
  -- The error of `WritePiece` goes to the error callback, and a panic goes on.
  abbrev pub report_error : (Torrent × Disk) × Result (Unit {0}) → Result (Torrent × Disk)
  report_error (s, ok u) = ok s
  report_error (s, err e) = ok s
  report_error (s, panic) = panic

  abbrev pub after_verify :
      Torrent → Disk → ℕ → PieceManager × Result Bool → Result (Torrent × Disk)
  unfolding write_piece
  after_verify t disk i (pm, ok true) =
      report_error
        (write_piece open_error write_count (record t { piece_manager = some pm }) i disk)
  after_verify t disk i (pm, ok false) = ok (record t { piece_manager = some pm }, disk)
  after_verify t disk i (pm, err e) = ok (record t { piece_manager = some pm }, disk)
  after_verify t disk i (pm, panic) = panic

  -- `t.PieceManager.Pieces[index]` behind a block that was stored.
  unfoldable pub check_piece :
      Torrent → Disk → PieceManager → ℕ → Option Piece → Result (Torrent × Disk)
  unfolding after_verify verify_piece
  check_piece t disk pm i none = panic
  check_piece t disk pm i (some p) =
      if p.blocks_got == length p.blocks
      then after_verify t disk i (verify_piece sha1 pm (pos i))
      else ok (record t { piece_manager = some pm }, disk)

  unfoldable pub after_store :
      Torrent → Disk → ℕ → PieceManager × Result (Unit {0}) → Result (Torrent × Disk)
  unfolding check_piece
  after_store t disk i (pm, ok u) = check_piece t disk pm i (get_elem? pm.pieces i)
  after_store t disk i (pm, err e) = ok (record t { piece_manager = some pm }, disk)
  after_store t disk i (pm, panic) = panic

  unfoldable pub on_piece :
      Torrent → Disk → Option PieceManager → ℕ × ℕ × Bytes → Result (Torrent × Disk)
  unfolding after_store store_block
  on_piece t disk none (i, begin, bs) = panic
  on_piece t disk (some pm) (i, begin, bs) =
      after_store (record t { downloaded = t.downloaded + length bs }) disk i
        (store_block pm (pos i) (pos begin) bs)

  abbrev pub on_have : Torrent → String → Option PieceManager → ℕ → Result Torrent
  unfolding peer_have
  on_have t addr none i = panic
  on_have t addr (some pm) i =
      peer_have pm addr (pos i) >>= λ pm. ok (record t { piece_manager = some pm })

  abbrev pub on_bitfield : Torrent → String → Option PieceManager → Bytes → Result Torrent
  unfolding set_peer_bitfield
  on_bitfield t addr none bits = panic
  on_bitfield t addr (some pm) bits =
      set_peer_bitfield pm addr bits >>= λ pm. ok (record t { piece_manager = some pm })

  -- One message in `ProcessPeer`, from the peer at `addr` with the connection `w`. The goroutine that
  -- answers a request is run at once, and its error is dropped.
  module _ {W : Type 0} (write : W → Bytes → Result W) (callback : Callback) where
    abbrev pub drop_error : Disk → (Torrent × W) × Result (Unit {0}) → Result ((Torrent × Disk) × W)
    drop_error disk ((t, w), ok u) = ok ((t, disk), w)
    drop_error disk ((t, w), err e) = ok ((t, disk), w)
    drop_error disk ((t, w), panic) = panic

    abbrev pub on_request : Torrent → Disk → W → ℕ × ℕ × ℕ → Result ((Torrent × Disk) × W)
    unfolding handle_request
    on_request t disk w (i, begin, len) =
        drop_error disk (handle_request write callback t w i begin len)

    unfoldable pub process_message :
        Torrent → Disk → String → W → Message → Result ((Torrent × Disk) × W)
    unfolding on_have on_bitfield on_piece request_piece on_request
    process_message t disk addr w m =
        if m.kind == msg_have
        then (on_have t addr t.piece_manager (have_or_zero (parse_have m)) >>= λ t.
            ok ((t, disk), w))
        else if m.kind == msg_bitfield
        then (on_bitfield t addr t.piece_manager m.payload >>= λ t. ok ((t, disk), w))
        else if m.kind == msg_piece
        then (on_piece t disk t.piece_manager (piece_or_zero (parse_piece m)) >>= λ s. ok (s, w))
        else if m.kind == msg_unchoke
        then (request_piece write callback t w addr >>= λ w. ok ((t, disk), w))
        else if m.kind == msg_request && t.seeding
        then on_request t disk w (request_or_zero (parse_request m))
        else ok ((t, disk), w)
