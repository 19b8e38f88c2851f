-- ===== src/Torrent/Pieces/Peers/Invariant.antt =====
-- The counts under sequences of messages about peers.
use mediarr.Common.{
  ltb, Bool-cases, Option-cases, length, get_elem?, set, replicate, length-set, nat_eq, string_eq,
  lookup, insert, delete, ℕ, zero, suc, ◌<◌, String, ◌≡◌, refl, ap, ◌∙◌, inl, inr, Bool, true,
  false, some, List, [], ◌∷◌, map, arith, delete-HasUniqueKeys, get_elem?_total,
}
use mediarr.Common.Int.{ℤ, pos, ◌+ℤ◌, bits}
use mediarr.Common.Result.{Result, ok, ◌>>=◌}
use mediarr.Torrent.Pieces.{PieceManager, InfoDict, new_piece_manager}
use mediarr.Torrent.Pieces.Peers.{
  read_bits, set_peer_bitfield, or_none_of, note_have, peer_have, remove_peer,
}
use mediarr.Torrent.Pieces.Peers.Counts.{
  IsCounted, totals, add_bits, new_counts, IsCounted-insert, current_counts, length-or_none_of,
  set_bit, drop-add, length-piece_counts, delete-AllSized, totals_known, length-read_bits,
}

-- The operation does not panic or fail, and leaves a manager of as many pieces with right counts.
abbrev pub Keeps : PieceManager → Result PieceManager → Type 0
Keeps pm r = (pm' : PieceManager) × (r ≡ ok pm') × IsCounted pm' × (pm'.num_pieces ≡ pm.num_pieces)

-- `SetPeerBitfield` does not panic, records the bits of the field, and keeps the counts right.
pub set_peer_bitfield-IsCounted :
    (pm : PieceManager) (p : String) (bitfield : List ℕ)
    → IsCounted pm
    → (pm' : PieceManager) × (set_peer_bitfield pm p bitfield ≡ ok pm')
      × IsCounted pm'
      × (pm'.num_pieces ≡ pm.num_pieces)
unfolding set_peer_bitfield
set_peer_bitfield-IsCounted pm p bitfield v =
    let new : List Bool = read_bits bitfield pm.num_pieces 0 in
    let l : length new ≡ pm.num_pieces = length-read_bits bitfield pm.num_pieces 0 in
    let counts : List ℤ = map pos (add_bits new (totals pm.num_pieces (delete p pm.peer_pieces))) in
    (
      record pm { peer_pieces = insert p new pm.peer_pieces; piece_counts = counts },
      rw (new_counts pm p new v l),
      IsCounted-insert pm p new counts v l refl,
      refl,
    )

-- The pieces that a peer has, or would begin with.
abbrev held : PieceManager → String → List Bool
held pm p = or_none_of pm.num_pieces (lookup p pm.peer_pieces)

put_back :
    (pm : PieceManager) (p : String)
    → IsCounted pm
    → IsCounted (record pm { peer_pieces = insert p (held pm p) pm.peer_pieces })
put_back pm p v =
    IsCounted-insert pm p (held pm p) pm.piece_counts v (length-or_none_of pm p v)
      (current_counts pm p v)

note_have-Keeps :
    (pm : PieceManager) (p : String) (i : ℕ) (has : Bool)
    → IsCounted pm
    → i < pm.num_pieces
    → get_elem? (held pm p) i ≡ some has
    → Keeps pm (note_have pm p i (held pm p) has)
unfolding note_have
note_have-Keeps pm p i true v lt h = (_, refl, put_back pm p v, refl)
note_have-Keeps pm p i false v lt h =
    let ts : List ℕ = totals pm.num_pieces (delete p pm.peer_pieces) in
    let (c, found) = get_elem?_total pm.piece_counts i (rw (length-piece_counts pm v) lt) in
    let counts : List ℤ = set pm.piece_counts i (c +ℤ pos 1) in
    (
      record pm {
        peer_pieces = insert p (set (held pm p) i true) pm.peer_pieces;
        piece_counts = counts;
      },
      rw found,
      IsCounted-insert pm p (set (held pm p) i true) counts v
          (length-set (held pm p) i true ∙ length-or_none_of pm p v)
          (rw (current_counts pm p v)
            (set_bit (held pm p) ts i c h (rw (current_counts pm p v) at found))),
      refl,
    )

-- For a piece of the torrent or beyond it `PeerHave` does not panic, and keeps the counts right.
pub peer_have-IsCounted :
    (pm : PieceManager) (p : String) (i : ℕ)
    → IsCounted pm
    → (pm' : PieceManager) × (peer_have pm p (pos i) ≡ ok pm')
      × IsCounted pm'
      × (pm'.num_pieces ≡ pm.num_pieces)
unfolding peer_have
peer_have-IsCounted pm p i v = elim (Bool-cases (ltb i pm.num_pieces)) [
  | inr beyond ↦ rw beyond (_, refl, put_back pm p v, refl)
  | inl inside ↦
      let lt : i < pm.num_pieces = ground (arith, inside) in
      let (has, found) = get_elem?_total (held pm p) i (rw (length-or_none_of pm p v) lt) in
      rw (inside, found) (note_have-Keeps pm p i has v lt found)
]

-- `RemovePeer` keeps the counts right: its test for a count below 0 never fires.
pub remove_peer-IsCounted :
    (pm : PieceManager) (p : String) → IsCounted pm → IsCounted (remove_peer pm p)
unfolding remove_peer
remove_peer-IsCounted pm p v = elim (Option-cases (lookup p pm.peer_pieces)) [
  | inl absent ↦ rw absent v
  | inr (old, found) ↦ rw found (record {
    counted =
        rw (v.counted, totals_known pm.num_pieces p old pm.peer_pieces v.unique found)
          (drop-add old (totals pm.num_pieces (delete p pm.peer_pieces)));
    sized = delete-AllSized pm.num_pieces p pm.peer_pieces v.sized;
    unique = delete-HasUniqueKeys p pm.peer_pieces v.unique;
  })
]

totals_none : (n : ℕ) → replicate n (pos 0) ≡ map pos (totals n [])
unfolding totals
totals_none zero = refl
totals_none (suc n) = ap (λ r. pos 0 ∷ r) (totals_none n)

fresh_IsCounted :
    (pm : PieceManager)
    → (pm.peer_pieces ≡ []) × (pm.piece_counts ≡ replicate pm.num_pieces (pos 0))
    → IsCounted pm
fresh_IsCounted pm (none_known, zeros) = record {
  counted = rw (none_known, zeros) (totals_none pm.num_pieces);
  sized = rw none_known tt;
  unique = rw none_known tt;
}

new_piece_manager_fresh :
    (info : InfoDict) (pm : PieceManager)
    → new_piece_manager info ≡ ok pm
    → (pm.peer_pieces ≡ []) × (pm.piece_counts ≡ replicate pm.num_pieces (pos 0))
unfolding new_piece_manager
new_piece_manager_fresh info pm h = ground arith

-- A new manager has no peers and counts 0 everywhere.
pub new_piece_manager-IsCounted :
    (info : InfoDict) (pm : PieceManager) → new_piece_manager info ≡ ok pm → IsCounted pm
new_piece_manager-IsCounted info pm h = fresh_IsCounted pm (new_piece_manager_fresh info pm h)

-- What the client tells the manager of its peers; `have` is sent a uint32.
pub data Message : Type 0 where
  bitfield : String → List ℕ → Message
  have : String → ℕ → Message
  gone : String → Message

pub receive : PieceManager → Message → Result PieceManager
receive pm (bitfield p bits) = set_peer_bitfield pm p bits
receive pm (have p i) = peer_have pm p (pos i)
receive pm (gone p) = ok (remove_peer pm p)

pub receive_all : PieceManager → List Message → Result PieceManager
unfolding receive
receive_all pm [] = ok pm
receive_all pm (m ∷ ms) = do pm' ← receive pm m; receive_all pm' ms

remove_peer-num_pieces :
    (pm : PieceManager) (p : String) → (remove_peer pm p).num_pieces ≡ pm.num_pieces
unfolding remove_peer
remove_peer-num_pieces pm p = ground arith

receive-Keeps : (pm : PieceManager) (m : Message) → IsCounted pm → Keeps pm (receive pm m)
unfolding receive
receive-Keeps pm (bitfield p bits) v = set_peer_bitfield-IsCounted pm p bits v
receive-Keeps pm (have p i) v = peer_have-IsCounted pm p i v
receive-Keeps pm (gone p) v =
    (remove_peer pm p, refl, remove_peer-IsCounted pm p v, remove_peer-num_pieces pm p)

-- From a manager whose counts are right, for example a new one, any sequence of bitfields, `have`s
-- and departures of peers is handled with no panic and no error, and leaves each count the number
-- of peers that have the piece.
pub receive_all-Keeps :
    (pm : PieceManager) (ms : List Message) → IsCounted pm → Keeps pm (receive_all pm ms)
unfolding receive_all
receive_all-Keeps pm [] v = (pm, refl, v, refl)
receive_all-Keeps pm (m ∷ ms) v =
    let (pm', e, v', n) = receive-Keeps pm m v in
    let (pm'', e', v'', n') = receive_all-Keeps pm' ms v' in (pm'', rw e e', v'', n' ∙ n)
