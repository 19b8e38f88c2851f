-- ===== src/Torrent/Pieces/Store/Outcome.antt =====
-- Pieces that are fetched in order, and blocks that come twice.
use mediarr.Common.{
  length, get_elem?, set, length-append, nat_eq, string_eq, ℕ, ◌*◌, ◌<◌, ◌≡◌, refl, sym, ap, ◌∙◌,
  ◌≢◌, ◌↔◌, true, none, some, List, ◌++◌, arith, set_same,
}
use mediarr.Common.Bytes.{eq_bytes, eq_bytes_iff}
use mediarr.Common.Int.{pos}
use mediarr.Common.Result.{ok, err}
use mediarr.Torrent.Pieces.{block_size, verified, Block, Piece, new_piece}
use mediarr.Torrent.Pieces.Store.{first_open, store_in, verify}
use mediarr.Torrent.Pieces.Store.Assembly.{
  fetch, IsFetched, new_piece-IsFetched, num_blocks, store_in_stored, begin_download_keeps,
}

verify_fetched :
    (sha1 : List ℕ → List ℕ) (source hash : List ℕ) (q : Piece)
    → IsFetched source hash q
    → ((verify sha1 q).1 ≡ ok (eq_bytes (sha1 source) hash))
      × (((verify sha1 q).0.state ≡ verified) ↔ (sha1 source ≡ hash))
unfolding verify
verify_fetched sha1 source hash q r =
    let same_length : length q.bytes ≡ q.length = rw r.bytes_eq (sym r.length_eq) in
    let same_sum : eq_bytes (sha1 q.bytes) q.hash ≡ eq_bytes (sha1 source) hash =
      ap (λ b. eq_bytes (sha1 b) q.hash) r.bytes_eq ∙ ap (eq_bytes (sha1 source)) r.hash_eq in
    ground (arith, same_length, same_sum, eq_bytes_iff (sha1 source) hash)

-- A piece that is fetched in the order of `NextRequest`, from a peer that sends the bytes `source`,
-- holds exactly `source`, has no block left to ask for, and is verified exactly if the hash of
-- `source` is the hash in the torrent. The piece has at least one byte.
pub fetch-verify :
    (sha1 : List ℕ → List ℕ) (source hash : List ℕ) (index fuel : ℕ)
    → 0 < length source
    → num_blocks (length source) < fuel
    → let q = fetch source fuel (new_piece index hash (length source)) in
      (q.bytes ≡ source)
      × (first_open q.blocks ≡ none)
      × ((verify sha1 q).1 ≡ ok (eq_bytes (sha1 source) hash))
      × (((verify sha1 q).0.state ≡ verified) ↔ (sha1 source ≡ hash))
fetch-verify sha1 source hash index fuel h f =
    let r = new_piece-IsFetched source hash index fuel h f in
    let v = verify_fetched sha1 source hash _ r in (r.bytes_eq, r.no_request, v.0, v.1)

-- Any block of its right length is appended behind the bytes stored so far, wherever its offset lies.
pub store_in-appends :
    (p : Piece) (i : ℕ) (b : Block) (bytes : List ℕ)
    → get_elem? p.blocks i ≡ some b
    → b.offset ≡ i * block_size
    → length bytes ≡ b.length
    → ((store_in p (pos b.offset) bytes).1 ≡ ok tt)
      × ((store_in p (pos b.offset) bytes).0.bytes ≡ p.bytes ++ bytes)
store_in-appends p i b bytes found at l = rw (store_in_stored p i b bytes found at l) (refl, refl)

store_in_length :
    (p : Piece) (i : ℕ) (b : Block) (bytes : List ℕ)
    → get_elem? p.blocks i ≡ some b
    → b.offset ≡ i * block_size
    → length bytes ≡ b.length
    → (store_in p (pos b.offset) bytes).0.length ≡ p.length
store_in_length p i b bytes found at l =
    rw (store_in_stored p i b bytes found at l) (begin_download_keeps p).3

store_in_done :
    (p : Piece) (i : ℕ) (b : Block) (bytes : List ℕ)
    → get_elem? p.blocks i ≡ some b
    → b.offset ≡ i * block_size
    → length bytes ≡ b.length
    → b.done ≡ true
    → (store_in p (pos b.offset) bytes).0.blocks ≡ p.blocks
store_in_done p i b bytes found at l done =
    let same : record b { done = true } ≡ b = ap (λ d. record b { done = d }) (sym done) in
    rw (store_in_stored p i b bytes found at l)
      (ap (set p.blocks i) same ∙ set_same p.blocks i b found)

verify_mismatch :
    (sha1 : List ℕ → List ℕ) (p : Piece)
    → length p.bytes ≢ p.length
    → verify sha1 p ≡ (p, err "piece data length mismatch")
unfolding verify
verify_mismatch sha1 p h = ground arith

-- A block that comes twice is taken twice: with the block `b` of number `i` stored once, the same
-- block is stored again without an error; if the piece held all its bytes before, then
-- `VerifyPiece` fails from then on with a length mismatch and leaves the piece as it is.
pub store_twice :
    (sha1 : List ℕ → List ℕ) (p : Piece) (i : ℕ) (b : Block) (bytes : List ℕ)
    → get_elem? p.blocks i ≡ some b
    → b.offset ≡ i * block_size
    → length bytes ≡ b.length
    → b.done ≡ true
    → 0 < b.length
    → length p.bytes ≡ p.length
    → let q = (store_in p (pos b.offset) bytes).0 in
      ((store_in p (pos b.offset) bytes).1 ≡ ok tt)
      × ((verify sha1 q).1 ≡ err "piece data length mismatch")
      × ((verify sha1 q).0 ≡ q)
      × (q.blocks ≡ p.blocks)
store_twice sha1 p i b bytes found at l done some_bytes full =
    let (stored, appended) = store_in-appends p i b bytes found at l in
    let q : Piece = (store_in p (pos b.offset) bytes).0 in
    let longer : length q.bytes ≢ q.length =
      rw (appended, length-append p.bytes bytes, store_in_length p i b bytes found at l)
        (omega arith) in
    let refused = verify_mismatch sha1 q longer in
    (
      stored,
      ap (λ r. r.1) refused,
      ap (λ r. r.0) refused,
      store_in_done p i b bytes found at l done,
    )
