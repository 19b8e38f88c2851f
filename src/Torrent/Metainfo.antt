-- ===== src/Torrent/Metainfo.antt =====
-- download/torrent/metainfo/torrent.go: the sizes and hashes of a torrent, and info hashes as text.
-- A string is its bytes. The info dictionary as a value of the
-- bencoding is in Info; the rest of a torrent file is not here.
pub mod Hashes
pub mod Info
use mediarr.Common.{
  ltb, leb, ◌==◌, if◌then◌else◌, length, take, drop, nat_eq, string_eq, ℕ, zero, suc, ◌+◌, ◌-◌, ◌*◌,
  ◌/◌, ◌%◌, ◌&&◌, List, [], ◌∷◌,
}
use mediarr.Common.Int.{ℤ, pos, ◌+ℤ◌, ltb_ℤ, int64}
use mediarr.Common.Bytes.{Bytes}
use mediarr.Common.Result.{Result, ok, err, panic, ◌>>=◌, ◌>>◌}

-- `CalcTotalSize`, of the single length or of the files' lengths.
unfoldable pub sum_lengths : ℤ → List ℤ → ℤ
sum_lengths total [] = total
sum_lengths total (l ∷ lengths) = sum_lengths (int64 (total +ℤ l)) lengths

unfoldable pub calc_total_size : ℤ → List ℤ → ℤ
unfolding sum_lengths
calc_total_size len files = if ltb_ℤ (pos 0) len then len else sum_lengths (pos 0) files

unfoldable pub split_pieces : ℕ → Bytes → List Bytes
split_pieces zero pieces = []
split_pieces (suc n) pieces = take 20 pieces ∷ split_pieces n (drop 20 pieces)

unfoldable pub parse_pieces : Bytes → List Bytes
unfolding split_pieces
parse_pieces pieces = split_pieces (length pieces / 20) pieces

unfoldable pub hex_char : ℕ → Result ℕ
hex_char c =
    if leb 48 c && leb c 57
    then ok (c - 48)
    else if leb 97 c && leb c 102
    then ok (c - 97 + 10)
    else if leb 65 c && leb c 70
    then ok (c - 65 + 10)
    else err "invalid hex char"

-- `(b1 << 4) | b2` of two digits below 16.
unfoldable pub hex_pairs : Bytes → Result Bytes
unfolding hex_char
hex_pairs [] = ok []
hex_pairs (c ∷ []) = panic
hex_pairs (c1 ∷ c2 ∷ s) =
    let rest = hex_pairs s in
    hex_char c1 >>= λ b1. hex_char c2 >>= λ b2. rest >>= λ bs. ok ((b1 * 16 + b2) ∷ bs)

unfoldable pub hex_to_bytes : Bytes → Result Bytes
unfolding hex_pairs
hex_to_bytes s = if length s % 2 == 0 then hex_pairs s else err "odd length hex string"

-- `%x`: two lower-case digits for each byte.
abbrev pub hex_digit : ℕ → ℕ
hex_digit d = if ltb d 10 then 48 + d else 87 + d

unfoldable pub info_hash_hex : Bytes → Bytes
info_hash_hex [] = []
info_hash_hex (b ∷ bs) = hex_digit (b / 16) ∷ hex_digit (b % 16) ∷ info_hash_hex bs

abbrev pub pack_info_hash : Bytes → Bytes
pack_info_hash hash = hash

unfoldable pub unpack_info_hash : Bytes → Result Bytes
unpack_info_hash s = if length s == 20 then ok s else err "expected 20 byte info hash"
