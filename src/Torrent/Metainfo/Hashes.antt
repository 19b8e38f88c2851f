-- ===== src/Torrent/Metainfo/Hashes.antt =====
-- What is read back from a torrent's hashes.
use mediarr.Common.{
  ◌==◌, length, length-append, nat_eq, string_eq, ℕ, ◌+◌, ◌*◌, ◌/◌, ◌%◌, ◌<◌, ◌≡◌, refl, ap, true,
  List, [], ◌∷◌, ◌++◌, arith, split_append,
}
use mediarr.Common.Bytes.{Bytes, AllBytes}
use mediarr.Common.Result.{ok}
use mediarr.Torrent.Metainfo.{
  split_pieces, parse_pieces, hex_char, hex_pairs, hex_to_bytes, hex_digit, info_hash_hex,
}

abbrev pub AllHashes : List Bytes → Type 0
AllHashes [] = Unit
AllHashes (h ∷ hs) = (length h ≡ 20) × AllHashes hs

unfoldable pub joined : List Bytes → Bytes → Bytes
joined [] tail = tail
joined (h ∷ hs) tail = h ++ joined hs tail

length-joined :
    (hs : List Bytes) (tail : Bytes)
    → AllHashes hs
    → length (joined hs tail) ≡ 20 * length hs + length tail
unfolding joined
length-joined [] tail sized = omega arith
length-joined (h ∷ hs) tail (s, sized) =
    omega (arith, length-append h (joined hs tail), length-joined hs tail sized, s)

split_pieces-joined :
    (hs : List Bytes) (tail : Bytes) → AllHashes hs → split_pieces (length hs) (joined hs tail) ≡ hs
unfolding split_pieces joined
split_pieces-joined [] tail sized = refl
split_pieces-joined (h ∷ hs) tail (s, sized) =
    (let (a, b) = split_append 20 h (joined hs tail) s in
      rw a (rw b (ap (λ r. h ∷ r) (split_pieces-joined hs tail sized))))

-- The hashes of the pieces are read back from their concatenation, in order; what is left of a
-- piece hash behind them is dropped.
pub parse_pieces-joined :
    (hs : List Bytes) (tail : Bytes)
    → AllHashes hs
    → length tail < 20
    → parse_pieces (joined hs tail) ≡ hs
unfolding parse_pieces
parse_pieces-joined hs tail sized short =
    let n : length (joined hs tail) / 20 ≡ length hs = omega (arith, length-joined hs tail sized) in
    rw n (split_pieces-joined hs tail sized)

hex_char-hex_digit : (d : ℕ) → d < 16 → hex_char (hex_digit d) ≡ ok d
unfolding hex_char
hex_char-hex_digit d h = ground arith

length-info_hash_hex : (bs : Bytes) → length (info_hash_hex bs) ≡ 2 * length bs
unfolding info_hash_hex
length-info_hash_hex [] = refl
length-info_hash_hex (b ∷ bs) = omega (arith, length-info_hash_hex bs)

hex_pairs-info_hash_hex : (bs : Bytes) → AllBytes bs → hex_pairs (info_hash_hex bs) ≡ ok bs
unfolding hex_pairs info_hash_hex
hex_pairs-info_hash_hex [] fits = refl
hex_pairs-info_hash_hex (b ∷ bs) (fit, fits) = rw (hex_char-hex_digit (b / 16) (omega arith)) (
    rw (hex_char-hex_digit (b % 16) (omega arith))
      (rw (hex_pairs-info_hash_hex bs fits) (ap (λ x. ok (x ∷ bs)) (omega arith))))

-- An info hash that is printed in hexadecimal is read back.
pub hex_to_bytes-info_hash_hex :
    (bs : Bytes) → AllBytes bs → hex_to_bytes (info_hash_hex bs) ≡ ok bs
unfolding hex_to_bytes
hex_to_bytes-info_hash_hex bs fits =
    let even : (length (info_hash_hex bs) % 2 == 0) ≡ true =
      rw (length-info_hash_hex bs) (ground arith) in
    rw even (hex_pairs-info_hash_hex bs fits)
