-- ===== src/Torrent/Session/Messages/Serving.antt =====
-- download/torrent/torrent.go: the answer to a request of a peer.
use mathlib.Core.Path.{ap₂}
use mediarr.Common.{
  ltb, leb, if◌then◌else◌, Bool-cases, length, get_elem?, take, drop, length-take, length-drop,
  nat_eq, string_eq, ℕ, ◌+◌, ◌^◌, ◌≤◌, ◌<◌, String, ◌≡◌, refl, ap, ◌∙◌, inl, inr, true, false, not,
  Option, none, some, ◌++◌, arith,
}
use mediarr.Common.Int.{pos}
use mediarr.Common.Bytes.{Bytes, put_u32, get-put_u32, bytes_eq}
use mediarr.Common.Result.{Result, ok, err}
use mediarr.Torrent.Pieces.{
  PieceState, not_downloaded, downloading, verified, failed, Piece, PieceManager,
}
use mediarr.Torrent.Pieces.Store.{get_piece_data, get_piece_state, data_of, state_of, is_verified}
use mediarr.Torrent.Peer.{write_message, parse_piece}
use mediarr.Torrent.Session.{Torrent}
use mediarr.Torrent.Session.Messages.{
  Callback, from_piece, from_state, read_from, read_piece_data, piece_message, after_send,
  send_data, handle_request,
}

-- A message that holds a block is parsed back as this block.
parse_piece-piece_message :
    (i offset : ℕ) (bs : Bytes)
    → i < 2 ^ 32
    → offset < 2 ^ 32
    → parse_piece (piece_message i offset bs) ≡ ok (i, offset, bs)
unfolding parse_piece piece_message
parse_piece-piece_message i offset bs h k =
    let a = get-put_u32 i (put_u32 offset ++ bs) h in
    let b = get-put_u32 offset bs k in
    let g : ltb (length (put_u32 i ++ (put_u32 offset ++ bs))) 8 ≡ false = ground arith in
    rw g (ap₂ (λ x y. ok (x, y, bs)) a b)

verified_here :
    (s : PieceState) (bs cs : Bytes)
    → (if is_verified s then ok bs else err "piece not verified") ≡ ok cs
    → ok s ≡ ok verified
verified_here verified bs cs h = refl
verified_here not_downloaded bs cs h = absurd cc
verified_here downloading bs cs h = absurd cc
verified_here failed bs cs h = absurd cc

verified_state : (p : Option Piece) (bs : Bytes) → data_of p ≡ ok bs → state_of p ≡ ok verified
verified_state none bs h = cc
verified_state (some p) bs h = verified_here p.state p.bytes bs h

refused : {bs : Bytes} {e : String} → err e ≡ ok bs → ⊥
refused h = cc

-- A piece whose data can be had is verified.
get_piece_state_verified :
    (pm : PieceManager) (i : ℕ) (bs : Bytes)
    → get_piece_data pm (pos i) ≡ ok bs
    → get_piece_state pm (pos i) ≡ ok verified
unfolding get_piece_state get_piece_data
get_piece_state_verified pm i bs h = elim (Bool-cases (leb pm.num_pieces i)) [
  | inl e ↦ absurd (refused (rw e at h))
  | inr e ↦ rw e (verified_state (get_elem? pm.pieces i) bs (rw e at h))
]

read_piece_data_lem :
    (callback : Callback) (t : Torrent) (pm : PieceManager) (i offset len : ℕ) (bs : Bytes)
    → t.piece_manager ≡ some pm
    → get_piece_data pm (pos i) ≡ ok bs
    → offset + len ≤ length bs
    → read_piece_data callback t i offset len ≡ ok (take len (drop offset bs))
unfolding read_piece_data
read_piece_data_lem callback t pm i offset len bs hp hd fit =
    let e : leb (offset + len) (length bs) ≡ true = ground arith in
    ap (λ o. read_from callback o i offset len) hp
    ∙ ap (from_state callback pm i offset len) (get_piece_state_verified pm i bs hd)
    ∙ ap (from_piece callback i offset len) hd
    ∙ rw e refl

-- A seeding session that has a verified piece, and is asked for a block that lies within it, with an
-- index and an offset below 2 ^ 32, and whose connection takes the message: it answers with the message
-- in which `ParsePiece` finds the index, the offset and exactly the bytes of the block, before the
-- message is framed, and counts these bytes as uploaded.
pub handle_request_lem :
    {W : Type 0} (write : W → Bytes → Result W) (callback : Callback) (t : Torrent)
    (pm : PieceManager) (w v : W) (i offset len : ℕ) (bs : Bytes)
    → t.seeding ≡ true
    → t.piece_manager ≡ some pm
    → get_piece_data pm (pos i) ≡ ok bs
    → offset + len ≤ length bs
    → i < 2 ^ 32
    → offset < 2 ^ 32
    → write_message write w (piece_message i offset (take len (drop offset bs))) ≡ ok v
    → (parse_piece (piece_message i offset (take len (drop offset bs)))
        ≡ ok (i, offset, take len (drop offset bs)))
      × (handle_request write callback t w i offset len
          ≡ ((record t { uploaded = t.uploaded + len }, v), ok tt))
unfolding handle_request send_data
handle_request_lem write callback t pm w v i offset len bs hs hp hd fit hi ho hw =
    let l : length (take len (drop offset bs)) ≡ len =
      omega (arith, length-take len (drop offset bs), length-drop offset bs) in
    let r = read_piece_data_lem callback t pm i offset len bs hp hd fit in
    (
      parse_piece-piece_message i offset (take len (drop offset bs)) hi ho,
      ap
            (λ b.
              if not b
              then ((t, w), ok tt)
              else send_data write callback t w i offset (read_piece_data callback t i offset len))
            hs
          ∙ ap (send_data write callback t w i offset) r
          ∙ ap (after_send write callback t w (length (take len (drop offset bs)))) hw
          ∙ ap (λ n. ((record t { uploaded = t.uploaded + n }, v), ok tt)) l,
    )
