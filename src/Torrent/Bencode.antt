-- ===== src/Torrent/Bencode.antt =====
-- download/torrent/bencode/decode.go: the values and their encoding.
pub mod Decode
pub mod Progress
pub mod Tokens
pub mod Canonical
pub mod Reading
pub mod RoundTrip
mod Examples
use mediarr.Common.{
  if◌then◌else◌, length, nat_eq, string_eq, lookup, ℕ, ◌+◌, Option, none, some, List, [], ◌∷◌, ◌++◌,
}
use mediarr.Common.Int.{ℤ}
use mediarr.Common.Bytes.{Bytes, eq_bytes, bytes_eq, greater_bytes}
use mediarr.Common.Decimal.{print_nat, print_int}
use mediarr.Common.ExchangeSort.{exchange_sort}

-- `String` and `[]byte`, the integer types, `List`, `Dict`, and any other Go value.
mutual
  pub data Value : Type 0 where
    string : Bytes → Value
    int : ℤ → Value
    list : Values → Value
    dict : Entries → Value
    unsupported : Value

  pub data Values : Type 0 where
    nil : Values
    cons : Value → Values → Values

  pub data Entries : Type 0 where
    end : Entries
    field : Bytes → Value → Entries → Entries

-- A dictionary as the association list that it is filled from.
unfoldable pub entries : List (Bytes × Value) → Entries
entries [] = end
entries ((k, v) ∷ es) = field k v (entries es)

unfoldable pub get : Bytes → Entries → Option Value
get k end = none
get k (field j v es) = let rest = get k es in if eq_bytes j k then some v else rest

unfoldable pub encode_string : Bytes → Bytes
encode_string s = print_nat (length s) ++ 58 ∷ s

unfoldable pub encode_int : ℤ → Bytes
encode_int i = 105 ∷ print_int i ++ 101 ∷ []

-- The bytes of a list or a dictionary around those of its content; nil where a part has no encoding.
unfoldable pub enclose : ℕ → Option Bytes → Bytes
enclose opening none = []
enclose opening (some content) = opening ∷ content ++ 101 ∷ []

unfoldable pub join : Option Bytes → Option Bytes → Option Bytes
join none later = none
join (some first) none = none
join (some first) (some later) = some (first ++ later)

-- `d[k]`, encoded; a missing key gives the nil value, which has no encoding.
abbrev pub encoded : Option (Option Bytes) → Option Bytes
encoded none = none
encoded (some e) = e

abbrev pub keys : List (Bytes × Option Bytes) → List Bytes
keys [] = []
keys ((k, e) ∷ es) = k ∷ keys es

unfoldable pub sorted_keys : List (Bytes × Option Bytes) → List Bytes
sorted_keys es = exchange_sort greater_bytes (keys es)

unfoldable pub encode_fields : List Bytes → List (Bytes × Option Bytes) → Option Bytes
unfolding encode_string join
encode_fields [] es = some []
encode_fields (k ∷ ks) es =
    join (some (encode_string k)) (join (encoded (lookup k es)) (encode_fields ks es))

unfoldable pub encode_dict : List (Bytes × Option Bytes) → Bytes
unfolding encode_fields sorted_keys enclose
encode_dict es = enclose 100 (encode_fields (sorted_keys es) es)

unfoldable mutual
  unfolding encode_string encode_int enclose join encode_dict

  pub encode : Value → Option Bytes
  encode (string s) = some (encode_string s)
  encode (int i) = some (encode_int i)
  encode (list vs) = some (enclose 108 (encode_values vs))
  encode (dict es) = some (encode_dict (encode_entries es))
  encode unsupported = none

  pub encode_values : Values → Option Bytes
  encode_values nil = some []
  encode_values (cons v vs) = join (encode v) (encode_values vs)

  pub encode_entries : Entries → List (Bytes × Option Bytes)
  encode_entries end = []
  encode_entries (field k v es) = (k, encode v) ∷ encode_entries es
