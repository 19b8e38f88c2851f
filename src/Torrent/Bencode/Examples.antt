-- ===== src/Torrent/Bencode/Examples.antt =====
-- download/torrent/bencode/decode.go at concrete inputs.
use mediarr.Torrent.Bencode.Canonical.{IsCanonical}
use mediarr.Torrent.Bencode.RoundTrip.{or_nil, decode-encode}
use mediarr.Torrent.Bencode.Progress.{Ends, decode-Ends}
use mediarr.Common.{
  length, nat_eq, string_eq, lookup, insert, ◌^◌, ◌<◌, ◌≡◌, refl, ◌≢◌, none, some, [], ◌∷◌, ◌++◌,
  arith,
}
use mediarr.Common.Int.{pos, negsuc, ◌+ℤ◌, int64}
use mediarr.Common.Bytes.{Bytes, bytes_eq, greater_bytes}
use mediarr.Common.Decimal.{scan_int, print_nat, print_int}
use mediarr.Common.ExchangeSort.{exchange_sort}
use mediarr.Torrent.Bencode.{
  Value, string, int, list, dict, unsupported, nil, cons, Entries, end, field, get, encode,
}
use mediarr.Torrent.Bencode.Decode.{value, panics, out_of_fuel, decode, info_key}

-- `d1:ai-15e1:bl2:xyee`.
abbrev torrent_bytes : Bytes
torrent_bytes =
    100 ∷ 49 ∷ 58 ∷ 97 ∷ 105 ∷ 45 ∷ 49 ∷ 53 ∷ 101 ∷ 49 ∷ 58 ∷ 98 ∷ 108 ∷ 50 ∷ 58 ∷ 120 ∷ 121 ∷ 101
    ∷ 101 ∷ []

abbrev torrent_entries : Entries
torrent_entries =
    field (97 ∷ []) (int (negsuc 14))
      (field (98 ∷ []) (list (cons (string (120 ∷ 121 ∷ [])) nil)) end)

abbrev torrent : Value
torrent = dict torrent_entries

written : encode torrent ≡ some torrent_bytes
unfolding encode print_nat print_int lookup exchange_sort greater_bytes
written = refl

read_back : decode torrent_bytes ≡ value torrent (record { position = 19; rest = [] })
unfolding decode scan_int int64 ◌+ℤ◌ insert
read_back = refl

-- ` +7x` is scanned as 7, and a text with a newline before its digits as none.
scan_int_junk : scan_int (32 ∷ 43 ∷ 55 ∷ 120 ∷ []) ≡ some (pos 7)
unfolding scan_int
scan_int_junk = refl

scan_int_newline : scan_int (32 ∷ 10 ∷ 55 ∷ []) ≡ none
unfolding scan_int
scan_int_newline = refl

-- `d-1:` as the whole input: the length of the key is below 0, and the slice panics.
decode_negative_length : decode (100 ∷ 45 ∷ 49 ∷ 58 ∷ []) ≡ panics
unfolding decode scan_int int64 ◌+ℤ◌ insert
decode_negative_length = refl

-- A list that holds a value without an encoding is encoded as no bytes, without an error.
encode_unsupported : encode (list (cons unsupported nil)) ≡ some []
unfolding encode
encode_unsupported = refl

torrent-IsCanonical : IsCanonical torrent
unfolding IsCanonical greater_bytes
torrent-IsCanonical = ((refl, tt), (omega arith, omega arith), (tt, (tt, tt), tt))

torrent_fits : length (or_nil (encode torrent)) < 2 ^ 63
torrent_fits = rw written (omega arith)

decode-encode_example :
    (b : Bytes) × (encode torrent ≡ some b)
    × (decode b ≡ value torrent (record { position = length b; rest = [] }))
decode-encode_example = decode-encode torrent torrent-IsCanonical torrent_fits

decode-Ends_example :
    (decode torrent_bytes ≢ out_of_fuel)
    × Ends (record { position = 0; rest = torrent_bytes }) (decode torrent_bytes)
decode-Ends_example = decode-Ends torrent_bytes

-- `d4:info`, the torrent, and `e`.
abbrev metainfo : Entries
metainfo = field info_key torrent end

abbrev metainfo_bytes : Bytes
metainfo_bytes = 100 ∷ 52 ∷ 58 ∷ info_key ++ torrent_bytes ++ 101 ∷ []

metainfo-IsCanonical : IsCanonical (dict metainfo)
unfolding IsCanonical greater_bytes
metainfo-IsCanonical = (tt, torrent-IsCanonical, tt)

metainfo_written : encode (dict metainfo) ≡ some metainfo_bytes
unfolding encode print_nat print_int lookup exchange_sort greater_bytes
metainfo_written = refl

get_info : get info_key metainfo ≡ some torrent
unfolding get
get_info = refl
