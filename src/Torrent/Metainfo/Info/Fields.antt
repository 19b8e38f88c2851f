-- ===== src/Torrent/Metainfo/Info/Fields.antt =====
-- download/torrent/metainfo/torrent.go: the dictionary of `toDict` as a value of the bencoding.
use mediarr.Common.{nat_eq, string_eq, Bool, true, false, not, ◌&&◌, ◌≡◌, refl, List, [], ◌∷◌}
use mediarr.Common.Int.{pos, ltb_ℤ, IsInt64}
use mediarr.Common.Bytes.{Bytes, bytes_eq, greater_bytes}
use mediarr.Torrent.Bencode.{Value, string, int, list, dict, Entries, end, field}
use mediarr.Torrent.Bencode.Canonical.{IsBefore, IsCanonical}
use mediarr.Torrent.Metainfo.Info.{
  InfoFile, Info, key_files, key_length, key_name, key_piece_length, key_pieces, key_private,
  field_if, is_empty, path_to_list, files_to_list, to_dict,
}

-- The numbers of an info dictionary are of 64 bits.
abbrev AreInt64 : List InfoFile → Type 0
AreInt64 [] = Unit
AreInt64 (f ∷ fs) = IsInt64 f.length × AreInt64 fs

abbrev pub HasInt64 : Info → Type 0
HasInt64 i = IsInt64 i.piece_length × IsInt64 i.private_flag × IsInt64 i.length × AreInt64 i.files

path_to_list-IsCanonical : (path : List Bytes) → IsCanonical (list (path_to_list path))
unfolding IsCanonical path_to_list
path_to_list-IsCanonical [] = tt
path_to_list-IsCanonical (s ∷ path) = (tt, path_to_list-IsCanonical path)

files_to_list-IsCanonical :
    (fs : List InfoFile) → AreInt64 fs → IsCanonical (list (files_to_list fs))
unfolding IsCanonical files_to_list greater_bytes
files_to_list-IsCanonical [] h = tt
files_to_list-IsCanonical (f ∷ fs) (h, hs) =
    (((refl, tt), h, (tt, path_to_list-IsCanonical f.path, tt)), files_to_list-IsCanonical fs hs)

field_if-IsBefore :
    (b : Bool) (j k : Bytes) (v : Value) (es : Entries)
    → greater_bytes k j ≡ true
    → IsBefore j es
    → IsBefore j (field_if b k v es)
field_if-IsBefore true j k v es g h = (g, h)
field_if-IsBefore false j k v es g h = h

field_if-IsCanonical :
    (b : Bool) (k : Bytes) (v : Value) (es : Entries)
    → IsBefore k es
    → IsCanonical v
    → IsCanonical (dict es)
    → IsCanonical (dict (field_if b k v es))
unfolding IsCanonical
field_if-IsCanonical true k v es h c cs = (h, c, cs)
field_if-IsCanonical false k v es h c cs = cs

pub to_dict-IsCanonical : (i : Info) → HasInt64 i → IsCanonical (dict (to_dict i))
unfolding IsCanonical to_dict greater_bytes
to_dict-IsCanonical i (n, m, k, fs) =
    let private_field =
      field_if (ltb_ℤ (pos 0) i.private_flag) key_private (int i.private_flag) end in
    let before : (j : Bytes) → greater_bytes key_private j ≡ true → IsBefore j private_field =
      λ j g.
        field_if-IsBefore (ltb_ℤ (pos 0) i.private_flag) j key_private (int i.private_flag) end g
          tt in
    let rest = field key_name (string i.name) (
      field key_piece_length (int i.piece_length)
        (field key_pieces (string i.pieces) private_field)) in
    let c : IsCanonical (dict rest) = (
      (refl, (refl, before key_name refl)),
      tt,
      (
        (refl, before key_piece_length refl),
        n,
        (
          before key_pieces refl,
          tt,
          field_if-IsCanonical (ltb_ℤ (pos 0) i.private_flag) key_private (int i.private_flag) end
              tt m tt,
        ),
      ),
    ) in
    let b : (j : Bytes)
        → greater_bytes key_name j ≡ true
        → greater_bytes key_piece_length j ≡ true
        → greater_bytes key_pieces j ≡ true
        → greater_bytes key_private j ≡ true
        → IsBefore j rest =
      λ j g1 g2 g3 g4. (g1, (g2, (g3, before j g4))) in
    field_if-IsCanonical (not (ltb_ℤ (pos 0) i.length) && not (is_empty i.files)) key_files
      (list (files_to_list i.files))
      (field_if (ltb_ℤ (pos 0) i.length) key_length (int i.length) rest)
      (field_if-IsBefore (ltb_ℤ (pos 0) i.length) key_files key_length (int i.length) rest refl
        (b key_files refl refl refl refl))
      (files_to_list-IsCanonical i.files fs)
      (field_if-IsCanonical (ltb_ℤ (pos 0) i.length) key_length (int i.length) rest
        (b key_length refl refl refl refl) k c)
