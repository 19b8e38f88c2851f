-- ===== src/Torrent/Metainfo/Info/Examples.antt =====
-- download/torrent/metainfo/torrent.go: an info dictionary at concrete inputs.
use mediarr.Common.{
  length, nat_eq, string_eq, lookup, ◌^◌, ◌<◌, ◌≡◌, refl, inl, none, some, [], ◌∷◌, arith,
}
use mediarr.Common.Int.{pos, negsuc}
use mediarr.Common.Bytes.{Bytes, bytes_eq, greater_bytes}
use mediarr.Common.Decimal.{print_nat, print_int}
use mediarr.Common.Result.{ok}
use mediarr.Common.ExchangeSort.{exchange_sort}
use mediarr.Torrent.Bencode.{Value, int, dict, end, field, encode, get}
use mediarr.Torrent.Bencode.Decode.{decode, value}
use mediarr.Torrent.Bencode.RoundTrip.{or_nil}
use mediarr.Torrent.Metainfo.Info.{Info, key_length, to_dict, parse_info_dict}
use mediarr.Torrent.Metainfo.Info.RoundTrip.{parse_info_dict-encode-to_dict}

-- A private torrent of two files, `a/b` of 5 bytes and `c` of 7.
abbrev two_files : Info
two_files = record {
  piece_length = pos 16_384;
  pieces = 1 ∷ 2 ∷ [];
  private_flag = pos 1;
  name = 116 ∷ [];
  length = pos 0;
  files =
      record { length = pos 5; path = (97 ∷ []) ∷ (98 ∷ []) ∷ [] }
      ∷ record { length = pos 7; path = (99 ∷ []) ∷ [] }
      ∷ [];
}

two_files_fit : length (or_nil (encode (dict (to_dict two_files)))) < 2 ^ 63
unfolding encode print_nat print_int lookup exchange_sort greater_bytes to_dict
two_files_fit = omega arith

-- A negative length is kept by `parseInfoDict` and not written by `toDict`.
abbrev negative : Info
negative = record {
  piece_length = pos 0;
  pieces = [];
  private_flag = pos 0;
  name = [];
  length = negsuc 0;
  files = [];
}

parse_negative : parse_info_dict (dict (field key_length (int (negsuc 0)) end)) ≡ ok negative
unfolding parse_info_dict get
parse_negative = refl

get_length_negative : get key_length (to_dict negative) ≡ none
unfolding to_dict get
get_length_negative = refl

parse_info_dict-encode-to_dict_example :
    (b : Bytes) × (v : Value) × (encode (dict (to_dict two_files)) ≡ some b)
    × (decode b ≡ value v (record { position = length b; rest = [] }))
    × (parse_info_dict v ≡ ok two_files)
parse_info_dict-encode-to_dict_example =
    parse_info_dict-encode-to_dict two_files (omega arith, omega arith, inl refl)
      (
        (omega arith, omega arith),
        (omega arith, omega arith),
        (omega arith, omega arith),
        ((omega arith, omega arith), ((omega arith, omega arith), tt)),
      )
      two_files_fit
