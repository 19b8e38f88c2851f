-- ===== src/Torrent/Metainfo/Info.antt =====
-- download/torrent/metainfo/torrent.go: the info dictionary and its bencoded form. The dictionary of
-- `toDict` is listed in the order of its keys.
pub mod Examples
pub mod Fields
pub mod RoundTrip
use mediarr.Common.{nat_eq, string_eq, Bool, true, false, not, ◌&&◌, Option, some, List, [], ◌∷◌}
use mediarr.Common.Int.{ℤ, pos, ltb_ℤ}
use mediarr.Common.Bytes.{Bytes, bytes_eq}
use mediarr.Common.Result.{Result, ok, err}
use mediarr.Torrent.Bencode.{
  Value, string, int, list, dict, Values, nil, cons, Entries, end, field, get,
}

pub record InfoFile : Type 0 where
  pub length : ℤ
  pub path : List Bytes

pub record Info : Type 0 where
  pub piece_length : ℤ
  pub pieces : Bytes
  pub private_flag : ℤ
  pub name : Bytes
  pub length : ℤ
  pub files : List InfoFile

-- `files`, `length`, `name`, `path`, `piece length`, `pieces` and `private`.
abbrev pub key_files : Bytes
key_files = 102 ∷ 105 ∷ 108 ∷ 101 ∷ 115 ∷ []

abbrev pub key_length : Bytes
key_length = 108 ∷ 101 ∷ 110 ∷ 103 ∷ 116 ∷ 104 ∷ []

abbrev pub key_name : Bytes
key_name = 110 ∷ 97 ∷ 109 ∷ 101 ∷ []

abbrev pub key_path : Bytes
key_path = 112 ∷ 97 ∷ 116 ∷ 104 ∷ []

abbrev pub key_piece_length : Bytes
key_piece_length = 112 ∷ 105 ∷ 101 ∷ 99 ∷ 101 ∷ 32 ∷ 108 ∷ 101 ∷ 110 ∷ 103 ∷ 116 ∷ 104 ∷ []

abbrev pub key_pieces : Bytes
key_pieces = 112 ∷ 105 ∷ 101 ∷ 99 ∷ 101 ∷ 115 ∷ []

abbrev pub key_private : Bytes
key_private = 112 ∷ 114 ∷ 105 ∷ 118 ∷ 97 ∷ 116 ∷ 101 ∷ []

-- A type assertion on a value of the dictionary; a missing key or another type leaves the zero value.
abbrev pub int_or_zero : Option Value → ℤ
int_or_zero (some (int i)) = i
int_or_zero v = pos 0

abbrev pub string_or_nil : Option Value → Bytes
string_or_nil (some (string s)) = s
string_or_nil v = []

unfoldable pub path_of : Values → List Bytes
path_of nil = []
path_of (cons (string s) vs) = s ∷ path_of vs
path_of (cons v vs) = path_of vs

abbrev pub path_or_nil : Option Value → List Bytes
unfolding path_of
path_or_nil (some (list vs)) = path_of vs
path_or_nil v = []

unfoldable pub files_of : Values → List InfoFile
unfolding path_or_nil get
files_of nil = []
files_of (cons (dict es) vs) =
    record { length = int_or_zero (get key_length es); path = path_or_nil (get key_path es) }
    ∷ files_of vs
files_of (cons v vs) = files_of vs

abbrev pub files_or_nil : Option Value → List InfoFile
unfolding files_of
files_or_nil (some (list vs)) = files_of vs
files_or_nil v = []

unfoldable pub parse_info_dict : Value → Result Info
unfolding files_or_nil get
parse_info_dict (dict es) = ok (record {
  piece_length = int_or_zero (get key_piece_length es);
  pieces = string_or_nil (get key_pieces es);
  private_flag = int_or_zero (get key_private es);
  name = string_or_nil (get key_name es);
  length = int_or_zero (get key_length es);
  files = files_or_nil (get key_files es);
})
parse_info_dict v = err "expected dict for info"

unfoldable pub path_to_list : List Bytes → Values
path_to_list [] = nil
path_to_list (s ∷ path) = cons (string s) (path_to_list path)

unfoldable pub files_to_list : List InfoFile → Values
unfolding path_to_list
files_to_list [] = nil
files_to_list (f ∷ files) =
    cons (dict (field key_length (int f.length) (field key_path (list (path_to_list f.path)) end)))
      (files_to_list files)

abbrev pub field_if : Bool → Bytes → Value → Entries → Entries
field_if true k v es = field k v es
field_if false k v es = es

abbrev pub is_empty : List InfoFile → Bool
is_empty [] = true
is_empty (f ∷ files) = false

unfoldable pub to_dict : Info → Entries
unfolding files_to_list
to_dict i =
    field_if (not (ltb_ℤ (pos 0) i.length) && not (is_empty i.files)) key_files
      (list (files_to_list i.files))
      (field_if (ltb_ℤ (pos 0) i.length) key_length (int i.length) (
        field key_name (string i.name) (
          field key_piece_length (int i.piece_length) (
            field key_pieces (string i.pieces)
              (field_if (ltb_ℤ (pos 0) i.private_flag) key_private (int i.private_flag) end)))))
