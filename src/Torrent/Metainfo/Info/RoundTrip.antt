-- ===== src/Torrent/Metainfo/Info/RoundTrip.antt =====
-- download/torrent/metainfo/torrent.go: an info dictionary that is written and read back.
use mediarr.Common.{
  length, ◌<◌, ◌^◌, some, nat_eq, true, arith, string_eq, ℕ, zero, suc, ◌≡◌, ◌⊎◌, inl, inr, refl,
  ap, List, [], ◌∷◌,
}
use mediarr.Common.Int.{ℤ, pos, negsuc, ltb_ℤ, ◌≤ℤ◌}
use mediarr.Common.Bytes.{Bytes, bytes_eq}
use mediarr.Common.Result.{ok}
use mediarr.Torrent.Bencode.{get, dict, Value, encode}
use mediarr.Torrent.Bencode.Decode.{decode, value}
use mediarr.Torrent.Bencode.RoundTrip.{decode-encode, or_nil}
use mediarr.Torrent.Metainfo.Info.Fields.{HasInt64, to_dict-IsCanonical}
use mediarr.Torrent.Metainfo.Info.{
  InfoFile, Info, path_of, files_of, path_to_list, files_to_list, to_dict, parse_info_dict,
}

path_of_list : (path : List Bytes) → path_of (path_to_list path) ≡ path
unfolding path_of path_to_list
path_of_list [] = refl
path_of_list (s ∷ path) = ap (λ r. s ∷ r) (path_of_list path)

files_of_list : (files : List InfoFile) → files_of (files_to_list files) ≡ files
unfolding files_of files_to_list get
files_of_list [] = refl
files_of_list (f ∷ files) = rw (path_of_list f.path) (ap (λ r. f ∷ r) (files_of_list files))

abbrev info_with : ℤ → Bytes → Bytes → ℕ → ℕ → List InfoFile → Info
info_with n ps name m k fs = record {
  piece_length = n;
  pieces = ps;
  private_flag = pos m;
  name = name;
  length = pos k;
  files = fs;
}

positive : (k : ℕ) → ltb_ℤ (pos 0) (pos (suc k)) ≡ true
positive k = ground arith

-- An info dictionary of one file.
single_file :
    (n : ℤ) (ps name : Bytes) (m k : ℕ)
    → parse_info_dict (dict (to_dict (info_with n ps name m k [])))
      ≡ ok (info_with n ps name m k [])
unfolding parse_info_dict to_dict get files_of
single_file n ps name zero zero = refl
single_file n ps name zero (suc k) = rw (positive k) refl
single_file n ps name (suc m) zero = rw (positive m) refl
single_file n ps name (suc m) (suc k) = rw (positive m) (rw (positive k) refl)

-- An info dictionary of several files.
multi_file :
    (n : ℤ) (ps name : Bytes) (m : ℕ) (fs : List InfoFile)
    → parse_info_dict (dict (to_dict (info_with n ps name m zero fs)))
      ≡ ok (info_with n ps name m zero fs)
unfolding parse_info_dict to_dict get files_of
multi_file n ps name m [] = single_file n ps name m zero
multi_file n ps name zero (f ∷ fs) =
    ap (λ r. ok (info_with n ps name zero zero r)) (files_of_list (f ∷ fs))
multi_file n ps name (suc m) (f ∷ fs) =
    rw (positive m) (ap (λ r. ok (info_with n ps name (suc m) zero r)) (files_of_list (f ∷ fs)))

-- A dictionary that a torrent file can have: of one file or of several, no length or flag below 0.
abbrev pub IsOneMode : Info → Type 0
IsOneMode i =
    (pos 0 ≤ℤ i.private_flag) × (pos 0 ≤ℤ i.length) × ((i.length ≡ pos 0) ⊎ (i.files ≡ []))

parse-to_dict : (i : Info) → IsOneMode i → parse_info_dict (dict (to_dict i)) ≡ ok i
parse-to_dict i (p, l, m) =
    by_mode i.piece_length i.pieces i.name i.private_flag i.length i.files p l m
  where
    by_mode :
        (n : ℤ) (ps name : Bytes) (m k : ℤ) (fs : List InfoFile)
        → pos 0 ≤ℤ m
        → pos 0 ≤ℤ k
        → ((k ≡ pos 0) ⊎ (fs ≡ []))
        → parse_info_dict (
            dict (
              to_dict (record {
                piece_length = n;
                pieces = ps;
                private_flag = m;
                name = name;
                length = k;
                files = fs;
              })))
          ≡ ok (record {
            piece_length = n;
            pieces = ps;
            private_flag = m;
            name = name;
            length = k;
            files = fs;
          })
    by_mode n ps name (negsuc m) k fs p l h = absurd (omega arith)
    by_mode n ps name (pos m) (negsuc k) fs p l h = absurd (omega arith)
    by_mode n ps name (pos m) (pos k) fs p l (inr e) = rw e (single_file n ps name m k)
    by_mode n ps name (pos m) (pos k) fs p l (inl e) = rw e (multi_file n ps name m fs)

-- An info dictionary of one file or of several, with numbers of 64 bits and no length or flag below 0,
-- is encoded, and if the bytes are fewer than 2 ^ 63, `Decode` of them reads them all and gives a
-- dictionary that `parseInfoDict` takes back to the info dictionary.
pub parse_info_dict-encode-to_dict :
    (i : Info)
    → IsOneMode i
    → HasInt64 i
    → length (or_nil (encode (dict (to_dict i)))) < 2 ^ 63
    → (b : Bytes) × (v : Value) × (encode (dict (to_dict i)) ≡ some b)
      × (decode b ≡ value v (record { position = length b; rest = [] }))
      × (parse_info_dict v ≡ ok i)
parse_info_dict-encode-to_dict i m h l =
    let (b, e, d) = decode-encode (dict (to_dict i)) (to_dict-IsCanonical i h) l in
    (b, dict (to_dict i), e, d, parse-to_dict i m)
