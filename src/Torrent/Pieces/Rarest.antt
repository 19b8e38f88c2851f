-- ===== src/Torrent/Pieces/Rarest.antt =====
-- download/torrent/piece_manager.go: `RarestPiece`.
pub mod Choice
use mediarr.Common.{
  if◌then◌else◌, get_elem?, nat_eq, string_eq, lookup, ℕ, zero, suc, ◌+◌, String, Bool, true, false,
  not, ◌||◌, Option, none, some, List, [], ◌∷◌, ◌++◌,
}
use mediarr.Common.Int.{ℤ, pos, negsuc, ltb_ℤ, leb_ℤ}
use mediarr.Common.Result.{Result, ok, err, ◌>>=◌, or_panic}
use mediarr.Torrent.Pieces.{PieceState, not_downloaded, downloading, verified, failed, PieceManager}
use mediarr.Torrent.Pieces.Files.{piece_is_wanted}

abbrev pub is_missing : PieceState → Bool
is_missing not_downloaded = true
is_missing failed = true
is_missing downloading = false
is_missing verified = false

-- `hasPeer && !pieces[i]`, negated.
unfoldable pub peer_offers : Option (List Bool) → ℕ → Result Bool
peer_offers none i = ok true
peer_offers (some pieces) i = or_panic (get_elem? pieces i)

-- The three `continue` tests of `RarestPiece` on piece `i`, in their order.
unfoldable pub is_candidate : PieceManager → Option (List Bool) → ℕ → Result Bool
unfolding piece_is_wanted peer_offers
is_candidate pm offered i = do
  p ← or_panic (get_elem? pm.pieces i)
  (if not (is_missing p.state) then ok false else (do
    wanted ← piece_is_wanted pm i
    if not wanted then ok false else peer_offers offered i))

-- One candidate with `count` peers: the new `minCount` and `candidates`.
unfoldable pub consider : ℕ → ℤ → ℤ → List ℕ → ℤ × List ℕ
consider i count min_count candidates =
    if ltb_ℤ min_count (pos 0) || ltb_ℤ count min_count
    then (count, i ∷ [])
    else if leb_ℤ count min_count
    then (min_count, candidates ++ i ∷ [])
    else (min_count, candidates)

unfoldable pub scan_rarest :
    PieceManager → Option (List Bool) → ℕ → ℕ → ℤ → List ℕ → Result (List ℕ)
unfolding is_candidate consider
scan_rarest pm offered zero i min_count candidates = ok candidates
scan_rarest pm offered (suc rounds) i min_count candidates = do
  candidate ← is_candidate pm offered i
  count ← (if candidate then or_panic (get_elem? pm.piece_counts i) else ok (pos 0))
  let next = (if candidate then consider i count min_count candidates else (min_count, candidates))
  scan_rarest pm offered rounds (i + 1) next.0 next.1

abbrev pub first_candidate : List ℕ → Result ℕ
first_candidate [] = err "no available pieces"
first_candidate (i ∷ candidates) = ok i

unfoldable pub rarest_piece : PieceManager → String → Result ℕ
unfolding scan_rarest
rarest_piece pm peer = do
  candidates ← scan_rarest pm (lookup peer pm.peer_pieces) pm.num_pieces 0 (negsuc 0) []
  first_candidate candidates
