-- ===== src/Torrent/Pieces/Peers.antt =====
-- download/torrent/piece_manager.go: which peer has which piece, and how many peers have one.
pub mod Counts
pub mod Invariant
use mediarr.Common.{
  ltb, ◌==◌, if◌then◌else◌, length, get_elem?, set, get_or, replicate, nat_eq, string_eq, lookup,
  insert, delete, ℕ, zero, suc, ◌+◌, ◌-◌, ◌*◌, ◌/◌, ◌%◌, ◌^◌, String, Bool, true, false, not, ◌&&◌,
  Option, none, some, List, [], ◌∷◌,
}
use mediarr.Common.Int.{ℤ, pos, negsuc, ◌+ℤ◌, ◌-ℤ◌}
use mediarr.Common.Result.{Result, ok, panic, ◌>>=◌, or_panic}
use mediarr.Torrent.Pieces.{PieceManager}

-- Bit `i` of a bitfield, the highest bit of a byte first: `bitfield[i/8] & (1 << (7 - i%8)) != 0`.
unfoldable pub bit_at : List ℕ → ℕ → Bool
bit_at bitfield i = get_or bitfield (i / 8) 0 / 2 ^ (7 - i % 8) % 2 == 1

-- The loop over `i < NumPieces && i < len(bitfield)*8`; the other entries keep `false`.
unfoldable pub read_bits : List ℕ → ℕ → ℕ → List Bool
unfolding bit_at
read_bits bitfield zero i = []
read_bits bitfield (suc rounds) i =
    (ltb i (length bitfield * 8) && bit_at bitfield i) ∷ read_bits bitfield rounds (i + 1)

-- `pieceCounts[i]--` where the old pieces have `i` and the new ones do not.
unfoldable pub lower_counts : List Bool → List Bool → List ℤ → List ℤ
lower_counts (o ∷ old) (n ∷ new) (c ∷ counts) =
    (if o && not n then c -ℤ pos 1 else c) ∷ lower_counts old new counts
lower_counts _ _ counts = counts

-- `pieceCounts[i]++` where the new pieces have `i` and the old ones, if there are any, do not.
unfoldable pub raise_counts : Option (List Bool) → List Bool → List ℤ → Result (List ℤ)
raise_counts old [] counts = ok counts
raise_counts old (n ∷ new) [] = if n then panic else raise_counts old new []
raise_counts none (n ∷ new) (c ∷ counts) = do
  rest ← raise_counts none new counts
  ok ((if n then c +ℤ pos 1 else c) ∷ rest)
raise_counts (some []) (n ∷ new) (c ∷ counts) = do
  rest ← raise_counts (some []) new counts
  if n then panic else ok (c ∷ rest)
raise_counts (some (o ∷ old)) (n ∷ new) (c ∷ counts) = do
  rest ← raise_counts (some old) new counts
  ok ((if n && not o then c +ℤ pos 1 else c) ∷ rest)

abbrev pub or_nil {ℓ} : {A : Type ℓ} → Option (List A) → List A
or_nil none = []
or_nil (some xs) = xs

unfoldable pub set_peer_bitfield : PieceManager → String → List ℕ → Result PieceManager
unfolding read_bits lower_counts raise_counts
set_peer_bitfield pm peer bitfield = do
  let new = read_bits bitfield pm.num_pieces 0
  let old = lookup peer pm.peer_pieces
  counts ← raise_counts old new (lower_counts (or_nil old) new pm.piece_counts)
  ok (record pm { peer_pieces = insert peer new pm.peer_pieces; piece_counts = counts })

-- The pieces of a peer; one that is not known yet has none of them.
abbrev pub or_none_of : ℕ → Option (List Bool) → List Bool
or_none_of n none = replicate n false
or_none_of n (some pieces) = pieces

-- The `if` of `PeerHave` on `pieces[i]`. A known peer is put back with the pieces that it has.
unfoldable pub note_have : PieceManager → String → ℕ → List Bool → Bool → Result PieceManager
note_have pm peer i pieces true = ok (record pm { peer_pieces = insert peer pieces pm.peer_pieces })
note_have pm peer i pieces false = do
  c ← or_panic (get_elem? pm.piece_counts i)
  ok (record pm {
    peer_pieces = insert peer (set pieces i true) pm.peer_pieces;
    piece_counts = set pm.piece_counts i (c +ℤ pos 1);
  })

unfoldable pub peer_have : PieceManager → String → ℤ → Result PieceManager
unfolding note_have
peer_have pm peer (negsuc i) = panic
peer_have pm peer (pos i) =
    let pieces = or_none_of pm.num_pieces (lookup peer pm.peer_pieces) in
    let known = record pm { peer_pieces = insert peer pieces pm.peer_pieces } in
    if ltb i pm.num_pieces
    then (do has ← or_panic (get_elem? pieces i); note_have pm peer i pieces has)
    else ok known

abbrev pub at_least_zero : ℤ → ℤ
at_least_zero (pos n) = pos n
at_least_zero (negsuc n) = pos 0

-- `pieceCounts[i]--` for each piece of the peer, and not below 0.
unfoldable pub drop_counts : List Bool → List ℤ → List ℤ
drop_counts (b ∷ pieces) (c ∷ counts) =
    (if b then at_least_zero (c -ℤ pos 1) else c) ∷ drop_counts pieces counts
drop_counts _ counts = counts

unfoldable pub remove_pieces : PieceManager → String → Option (List Bool) → PieceManager
unfolding drop_counts
remove_pieces pm peer none = pm
remove_pieces pm peer (some pieces) = record pm {
  peer_pieces = delete peer pm.peer_pieces;
  piece_counts = drop_counts pieces pm.piece_counts;
}

unfoldable pub remove_peer : PieceManager → String → PieceManager
unfolding remove_pieces
remove_peer pm peer = remove_pieces pm peer (lookup peer pm.peer_pieces)
