-- ===== src/Torrent/Bencode/Decode.antt =====
-- download/torrent/bencode/decode.go: the reader. It keeps its position and the bytes from there on.
-- Reading a value, a list and a dictionary runs on fuel, and out of fuel is an outcome of its own;
-- `decode` gives 2 units for a byte and one more.
use mediarr.Common.{
  ◌==◌, if◌then◌else◌, length, take, drop, nat_eq, string_eq, insert, ℕ, zero, suc, ◌+◌, ◌-◌, ◌*◌,
  String, Option, none, some, List, [], ◌∷◌,
}
use mediarr.Common.Int.{ℤ, pos, pos_part, ◌+ℤ◌, ltb_ℤ, int64}
use mediarr.Common.Bytes.{Bytes, bytes_eq}
use mediarr.Common.Decimal.{is_digit, scan_int}
use mediarr.Torrent.Bencode.{
  Value, string, int, list, dict, Values, nil, cons, Entries, entries, get,
}

pub record Reader : Type 0 where
  pub position : ℕ
  pub rest : Bytes

-- The outcome of a read: a value and the reader behind it, an error, a panic, or no fuel.
pub data Parse {ℓ} (A : Type ℓ) : Type ℓ where
  value : A → Reader → Parse A
  error : String → Parse A
  panics : Parse A
  out_of_fuel : Parse A

infixl 5 ◌>>>◌
abbrev pub ◌>>>◌ {ℓ κ} : {A : Type ℓ} {B : Type κ} → Parse A → (A → Reader → Parse B) → Parse B
value a r >>> later = later a r
error message >>> later = error message
panics >>> later = panics
out_of_fuel >>> later = out_of_fuel

-- `r.pos++`.
abbrev pub skip : Reader → Reader
skip r = record { position = suc r.position; rest = drop 1 r.rest }

unfoldable pub before : ℕ → Option (Bytes × Bytes) → Option (Bytes × Bytes)
before x none = none
before x (some (xs, behind)) = some (x ∷ xs, behind)

-- The bytes up to the first `c` and those behind it.
unfoldable pub until : ℕ → Bytes → Option (Bytes × Bytes)
unfolding before
until c [] = none
until c (x ∷ xs) = let rest = until c xs in if x == c then some ([], xs) else before x rest

abbrev pub unexpected_end : String
unexpected_end = "unexpected end of data"

abbrev pub scanned_int : Option ℤ → Reader → Parse Value
scanned_int none r = error "invalid integer"
scanned_int (some i) r = value (int i) r

abbrev pub int_text : ℕ → Option (Bytes × Bytes) → Parse Value
int_text p none = error unexpected_end
int_text p (some (text, behind)) =
    scanned_int (scan_int text) (record { position = p + length text + 1; rest = behind })

-- `readInt`, behind the `i`.
unfoldable pub read_int : Reader → Parse Value
unfolding until
read_int r = int_text r.position (until 101 r.rest)

-- `r.data[r.pos : r.pos+length]`, with the check before it and the wrap-around of its sum.
unfoldable pub read_exactly : Option ℤ → Reader → Parse Bytes
read_exactly none r = error "invalid string length"
read_exactly (some n) r =
    let stop = int64 (pos r.position +ℤ n) in
    let size = pos_part stop - r.position in
    if ltb_ℤ (pos (r.position + length r.rest)) stop
    then error unexpected_end
    else if ltb_ℤ stop (pos r.position)
    then panics
    else value (take size r.rest) (record { position = pos_part stop; rest = drop size r.rest })

unfoldable pub bytes_text : ℕ → Option (Bytes × Bytes) → Parse Bytes
unfolding read_exactly
bytes_text p none = error unexpected_end
bytes_text p (some (text, behind)) =
    read_exactly (scan_int text) (record { position = p + length text + 1; rest = behind })

unfoldable pub read_bytes : Reader → Parse Bytes
unfolding bytes_text until
read_bytes r = bytes_text r.position (until 58 r.rest)

-- What the byte at the position says, for a value and in a list or a dictionary.
pub data Kind : Type 0 where
  past_end : Kind
  an_int : Kind
  a_list : Kind
  a_dict : Kind
  a_string : Kind
  an_invalid_byte : Kind

unfoldable pub kind : Bytes → Kind
kind [] = past_end
kind (c ∷ _) =
    if c == 105
    then an_int
    else if c == 108
    then a_list
    else if c == 100
    then a_dict
    else if is_digit c
    then a_string
    else an_invalid_byte

pub data Next : Type 0 where
  missing : Next
  closing : Next
  element : Next

unfoldable pub next : Bytes → Next
next [] = missing
next (c ∷ _) = if c == 101 then closing else element

abbrev pub Found : Type 0
Found = List (Bytes × Value)

-- The body of each of the three loops, with the readers that it calls.
unfoldable pub read_value_at :
    (Reader → Parse Values) → (Reader → Parse Found) → Kind → Reader → Parse Value
unfolding read_int read_bytes entries
read_value_at lists dicts past_end r = error unexpected_end
read_value_at lists dicts an_int r = read_int (skip r)
read_value_at lists dicts a_list r = lists (skip r) >>> λ vs r. value (list vs) r
read_value_at lists dicts a_dict r = dicts (skip r) >>> λ es r. value (dict (entries es)) r
read_value_at lists dicts a_string r = read_bytes r >>> λ s r. value (string s) r
read_value_at lists dicts an_invalid_byte r = error "invalid bencode format"

unfoldable pub read_list_at :
    (Reader → Parse Value) → (Reader → Parse Values) → Next → Reader → Parse Values
read_list_at values more missing r = error unexpected_end
read_list_at values more closing r = value nil (skip r)
read_list_at values more element r = values r >>> λ v r. more r >>> λ vs r. value (cons v vs) r

unfoldable pub read_dict_at :
    (Reader → Parse Value) → (Found → Reader → Parse Found) → Found → Next → Reader → Parse Found
unfolding read_bytes
read_dict_at values more es missing r = error unexpected_end
read_dict_at values more es closing r = value es (skip r)
read_dict_at values more es element r =
    read_bytes r >>> λ k r. values r >>> λ v r. more (insert k v es) r

unfoldable mutual
  unfolding read_value_at read_list_at read_dict_at kind next

  pub read_value : ℕ → Reader → Parse Value
  read_value zero r = out_of_fuel
  read_value (suc n) r = read_value_at (read_list n) (read_dict n []) (kind r.rest) r

  pub read_list : ℕ → Reader → Parse Values
  read_list zero r = out_of_fuel
  read_list (suc n) r = read_list_at (read_value n) (read_list n) (next r.rest) r

  pub read_dict : ℕ → Found → Reader → Parse Found
  read_dict zero es r = out_of_fuel
  read_dict (suc n) es r = read_dict_at (read_value n) (read_dict n) es (next r.rest) r

unfoldable pub decode : Bytes → Parse Value
unfolding read_value
decode data_bytes =
    read_value (2 * length data_bytes + 1) (record { position = 0; rest = data_bytes })

-- `info`.
abbrev pub info_key : Bytes
info_key = 105 ∷ 110 ∷ 102 ∷ 111 ∷ []

abbrev pub as_info : Option Value → Reader → Parse Entries
as_info none r = error "missing info dict"
as_info (some (dict es)) r = value es r
as_info (some v) r = error "expected dict for info"

unfoldable pub info_of : Value → Reader → Parse Entries
unfolding get
info_of (dict es) r = as_info (get info_key es) r
info_of v r = error "expected dict at root"

unfoldable pub decode_info_dict : Bytes → Parse Entries
unfolding decode info_of
decode_info_dict data_bytes = decode data_bytes >>> info_of
