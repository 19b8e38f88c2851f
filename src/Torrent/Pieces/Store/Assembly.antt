-- ===== src/Torrent/Pieces/Store/Assembly.antt =====
-- What the stored blocks make of a piece.
use Prim.Native.Nat.{min}
use mediarr.Common.{
  length, get_elem?, set, take, drop, length-append, length-take, length-drop, nat_eq, string_eq, ℕ,
  zero, suc, ◌+◌, ◌-◌, ◌*◌, ◌/◌, ◌≤◌, ◌<◌, ◌≡◌, refl, ◌∙◌, true, Option, none, some, List, [], ◌∷◌,
  ◌++◌, arith, get_elem?_append, set_append, take-drop, take_all, take-min, take_all,
}
use mediarr.Common.Int.{pos}
use mediarr.Common.Result.{ok}
use mediarr.Torrent.Pieces.{block_size, Block, Piece, new_block, new_blocks, new_piece}
use mediarr.Torrent.Pieces.Blocks.{block_facts}
use mediarr.Torrent.Pieces.Store.{first_open, begin_download, put_block, store_in}

-- The bytes of `source` at which the block `b` lies.
pub slice : List ℕ → Block → List ℕ
slice source b = take b.length (drop b.offset source)

-- The answer to a request, and what goes on behind it.
answer : (Piece → Piece) → List ℕ → Piece → Option Block → Piece
unfolding slice
answer go_on source p none = p
answer go_on source p (some b) = go_on (store_in p (pos b.offset) (slice source b)).0

-- A peer that answers each request of `NextRequest` with its block of `source`, before the next.
pub fetch : List ℕ → ℕ → Piece → Piece
unfolding answer
fetch source zero p = p
fetch source (suc fuel) p = answer (fetch source fuel) source p (first_open p.blocks)

AllDone : List Block → Type 0
AllDone [] = Unit
AllDone (b ∷ blocks) = (b.done ≡ true) × AllDone blocks

-- `closed` blocks are stored; the rest begins with block number `i`.
record IsReading (source : List ℕ) (p : Piece) (closed : List Block) (rounds i : ℕ) : Type 0 where
  order : p.blocks ≡ closed ++ new_blocks p.index p.length rounds i
  closed_done : AllDone closed
  closed_count : length closed ≡ i
  read : p.bytes ≡ take (i * block_size) source

first_open_done :
    (closed rest : List Block) → AllDone closed → first_open (closed ++ rest) ≡ first_open rest
unfolding first_open AllDone
first_open_done [] rest h = refl
first_open_done (b ∷ closed) rest h = rw h.0 (first_open_done closed rest h.1)

AllDone-snoc :
    (closed : List Block) (b : Block) → AllDone closed → b.done ≡ true → AllDone (closed ++ b ∷ [])
unfolding AllDone
AllDone-snoc [] b h e = (e, tt)
AllDone-snoc (c ∷ closed) b h e = (h.0, AllDone-snoc closed b h.1 e)

-- The state change at the head of `StoreBlock` leaves all but the state.
pub begin_download_keeps :
    (p : Piece)
    → ((begin_download p).blocks ≡ p.blocks)
      × ((begin_download p).bytes ≡ p.bytes)
      × ((begin_download p).index ≡ p.index)
      × ((begin_download p).length ≡ p.length)
      × ((begin_download p).hash ≡ p.hash)
unfolding begin_download
begin_download_keeps p = ground arith

-- A block of its right length, at its own offset, is stored: its bytes are appended.
pub store_in_stored :
    (p : Piece) (i : ℕ) (b : Block) (bytes : List ℕ)
    → get_elem? p.blocks i ≡ some b
    → b.offset ≡ i * block_size
    → length bytes ≡ b.length
    → store_in p (pos b.offset) bytes ≡ (
      record (begin_download p) {
        blocks = set p.blocks i (record b { done = true });
        blocks_got = (begin_download p).blocks_got + 1;
        bytes = p.bytes ++ bytes;
      },
      ok tt,
    )
unfolding store_in put_block
store_in_stored p i b bytes found at l =
    let e : b.offset / block_size ≡ i = omega arith in
    rw (e, (begin_download_keeps p).0, found) (ground (arith, begin_download_keeps p))

-- the piece behind the next block
next_piece : List ℕ → Piece → ℕ → Piece
next_piece source p i =
    let b = new_block p.index p.length i in
    record (begin_download p) {
      blocks = set p.blocks i (record b { done = true });
      blocks_got = (begin_download p).blocks_got + 1;
      bytes = p.bytes ++ slice source b;
    }

slice_length :
    (source : List ℕ) (p : Piece) (i : ℕ)
    → i * block_size < p.length
    → p.length ≡ length source
    → length (slice source (new_block p.index p.length i)) ≡ (new_block p.index p.length i).length
unfolding slice
slice_length source p i lt l =
    let b = new_block p.index p.length i in
    omega (
      arith,
      length-take b.length (drop b.offset source),
      length-drop b.offset source,
      block_facts p.index p.length i lt,
    )

found_block :
    (source : List ℕ) (p : Piece) (closed : List Block) (rounds i : ℕ)
    → IsReading source p closed (suc rounds) i
    → (first_open p.blocks ≡ some (new_block p.index p.length i))
      × (get_elem? p.blocks i ≡ some (new_block p.index p.length i))
unfolding new_blocks
found_block source p closed rounds i r =
    let b = new_block p.index p.length i in
    let rest = new_blocks p.index p.length rounds (i + 1) in
    (
      rw (r.order, first_open_done closed (b ∷ rest) r.closed_done)
          (unfold first_open new_block in refl),
      rw r.order (rw r.closed_count at (get_elem?_append closed rest b)),
    )

-- the bytes read so far and those of the next block
read_on :
    (source : List ℕ) (p : Piece) (i n : ℕ)
    → p.bytes ≡ take (i * block_size) source
    → p.length ≡ length source
    → i * block_size + n ≡ min p.length ((i + 1) * block_size)
    → p.bytes ++ take n (drop (i * block_size) source) ≡ take ((i + 1) * block_size) source
read_on source p i n h l e =
    rw (h, take-drop (i * block_size) n source, e, l) (take-min ((i + 1) * block_size) source)

next_piece-IsReading :
    (source : List ℕ) (p : Piece) (closed : List Block) (rounds i : ℕ)
    → IsReading source p closed (suc rounds) i
    → i * block_size < p.length
    → p.length ≡ length source
    → IsReading source
        (next_piece source p i)
        (closed ++ record (new_block p.index p.length i) { done = true } ∷ [])
        rounds
        (i + 1)
unfolding next_piece new_blocks slice new_block
next_piece-IsReading source p closed rounds i r lt l =
    let b = new_block p.index p.length i in
    let rest = new_blocks p.index p.length rounds (i + 1) in
    record {
      order =
          rw ((begin_download_keeps p).2, (begin_download_keeps p).3, r.order)
            (rw r.closed_count at (set_append closed rest b (record b { done = true })));
      closed_done = AllDone-snoc closed _ r.closed_done refl;
      closed_count = length-append closed _ ∙ omega (arith, r.closed_count);
      read =
          read_on source p i (new_block p.index p.length i).length r.read l
            (block_facts p.index p.length i lt).3;
    }

-- the next round of the fetch
fetch_step :
    (source : List ℕ) (p : Piece) (closed : List Block) (rounds i fuel : ℕ)
    → IsReading source p closed (suc rounds) i
    → i * block_size < p.length
    → p.length ≡ length source
    → fetch source (suc fuel) p ≡ fetch source fuel (next_piece source p i)
unfolding fetch
fetch_step source p closed rounds i fuel r lt l =
    let b = new_block p.index p.length i in
    let (next, found) = found_block source p closed rounds i r in
    rw
      (
        next,
        store_in_stored p i b (slice source b) found (block_facts p.index p.length i lt).0
            (slice_length source p i lt l),
      )
      (unfold next_piece in refl)

next_piece_keeps :
    (source : List ℕ) (p : Piece) (i : ℕ)
    → ((next_piece source p i).length ≡ p.length) × ((next_piece source p i).hash ≡ p.hash)
unfolding next_piece
next_piece_keeps source p i = ((begin_download_keeps p).3, (begin_download_keeps p).4)

-- The outcome of a whole fetch.
pub record IsFetched (source hash : List ℕ) (q : Piece) : Type 0 where
  pub bytes_eq : q.bytes ≡ source
  pub hash_eq : q.hash ≡ hash
  pub length_eq : q.length ≡ length source
  pub no_request : first_open q.blocks ≡ none

fetch-IsFetched :
    (source hash : List ℕ) (p : Piece) (closed : List Block) (rounds i fuel : ℕ)
    → IsReading source p closed rounds i
    → p.hash ≡ hash
    → p.length ≡ length source
    → p.length ≤ (i + rounds) * block_size
    → (i + rounds) * block_size < p.length + block_size
    → rounds < fuel
    → IsFetched source hash (fetch source fuel p)
fetch-IsFetched source hash p closed rounds i zero r k l lo hi f = absurd (omega arith)
fetch-IsFetched source hash p closed zero i (suc fuel) r k l lo hi f =
    let none_left : first_open p.blocks ≡ none =
      unfold new_blocks in
      rw (r.order, first_open_done closed [] r.closed_done) (unfold first_open in refl) in
    let stays : fetch source (suc fuel) p ≡ p = unfold fetch in rw none_left in
    rw stays (record {
      bytes_eq = r.read ∙ take_all (i * block_size) source (omega arith);
      hash_eq = k;
      length_eq = l;
      no_request = none_left;
    })
fetch-IsFetched source hash p closed (suc rounds) i (suc fuel) r k l lo hi f =
    let lt : i * block_size < p.length = omega arith in
    let (kl, kh) = next_piece_keeps source p i in
    rw (fetch_step source p closed rounds i fuel r lt l) (
      fetch-IsFetched source hash (next_piece source p i) _ rounds (i + 1) fuel
        (next_piece-IsReading source p closed rounds i r lt l) (kh ∙ k) (kl ∙ l) (omega arith)
        (omega arith) (omega arith))

-- The blocks of a new piece: as many as are needed to hold its bytes.
abbrev pub num_blocks : ℕ → ℕ
num_blocks n = (n + block_size - 1) / block_size

pub new_piece-IsFetched :
    (source hash : List ℕ) (index fuel : ℕ)
    → 0 < length source
    → num_blocks (length source) < fuel
    → IsFetched source hash (fetch source fuel (new_piece index hash (length source)))
unfolding new_piece AllDone
new_piece-IsFetched source hash index fuel h f =
    fetch-IsFetched source hash (new_piece index hash (length source)) []
      (num_blocks (length source)) 0 fuel
      (record { order = refl; closed_done = tt; closed_count = refl; read = refl }) refl refl
      (omega arith) (omega arith) f
