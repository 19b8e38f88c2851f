-- ===== src/Organize/Paths.antt =====
-- `path/filepath` on Unix, as organize/file_organizer.go uses it.
pub mod Normal
use mathlib.Core.List.{reverse, foldl}
use mediarr.Common.{
  ◌==◌, if◌then◌else◌, nat_eq, string_eq, ℕ, ◌+◌, Bool, true, false, ◌&&◌, ◌||◌, List, [], ◌∷◌,
  ◌++◌,
}
use mediarr.Common.Bytes.{Bytes, eq_bytes, bytes_eq, codes}

abbrev pub slash : ℕ
slash = 47

abbrev pub is_empty : Bytes → Bool
is_empty [] = true
is_empty (c ∷ path) = false

abbrev on_first : ℕ → List Bytes → List Bytes
on_first c [] = (c ∷ []) ∷ []
on_first c (e ∷ es) = (c ∷ e) ∷ es

-- The elements between the slashes.
unfoldable pub elements : Bytes → List Bytes
elements [] = [] ∷ []
elements (c ∷ path) = let rest = elements path in if c == slash then [] ∷ rest else on_first c rest

-- One element onto the ones before it, the last of them first.
abbrev pub step_up : Bool → List Bytes → List Bytes
step_up true [] = []
step_up false [] = codes ".." ∷ []
step_up rooted (e ∷ es) = if eq_bytes e (codes "..") then codes ".." ∷ e ∷ es else es

abbrev pub go_to : Bool → List Bytes → Bytes → List Bytes
go_to rooted es e =
    if eq_bytes e [] || eq_bytes e (codes ".")
    then es
    else if eq_bytes e (codes "..")
    then step_up rooted es
    else e ∷ es

unfoldable pub with_slashes : List Bytes → Bytes
with_slashes [] = []
with_slashes (e ∷ []) = e
with_slashes (e ∷ f ∷ es) = e ++ slash ∷ with_slashes (f ∷ es)

abbrev is_rooted : Bytes → Bool
is_rooted [] = false
is_rooted (c ∷ path) = c == slash

abbrev rooted_path : Bool → Bytes → Bytes
rooted_path true path = slash ∷ path
rooted_path false [] = codes "."
rooted_path false (c ∷ path) = c ∷ path

unfoldable pub clean : Bytes → Bytes
unfolding elements with_slashes
clean path =
    let rooted = is_rooted path in
    rooted_path rooted (with_slashes (reverse (foldl (go_to rooted) [] (elements path))))

-- `filepath.Join` of two elements; an empty one is left out.
unfoldable pub join : Bytes → Bytes → Bytes
unfolding clean
join [] [] = []
join [] (c ∷ e) = clean (c ∷ e)
join (c ∷ d) [] = clean (c ∷ d)
join (c ∷ d) (b ∷ e) = clean (c ∷ d ++ slash ∷ b ∷ e)

-- The path up to its last slash, and what is behind that.
unfoldable pub split_path : Bytes → Bytes × Bytes
split_path [] = ([], [])
split_path (c ∷ path) =
    let (dir, file) = split_path path in
    if c == slash && is_empty dir
    then (c ∷ [], file)
    else if is_empty dir
    then ([], c ∷ file)
    else (c ∷ dir, file)

-- `filepath.Dir`.
unfoldable pub dir : Bytes → Bytes
unfolding split_path clean
dir path = clean (split_path path).0

unfoldable pub drop_slashes : Bytes → Bytes
drop_slashes [] = []
drop_slashes (c ∷ path) = let rest = drop_slashes path in if c == slash then rest else c ∷ path

abbrev base_of : Bytes → Bytes → Bytes
base_of path [] = slash ∷ []
base_of path (c ∷ file) = c ∷ file

-- `filepath.Base`.
unfoldable pub base : Bytes → Bytes
unfolding split_path drop_slashes
base [] = codes "."
base (c ∷ path) = base_of path (split_path (reverse (drop_slashes (reverse (c ∷ path))))).1

-- `filepath.Ext`: from the last dot behind the last slash.
unfoldable pub ext_of : Bytes → Bytes
ext_of [] = []
ext_of (c ∷ file) = let rest = ext_of file in if is_empty rest && c == b'.' then c ∷ file else rest

unfoldable pub ext : Bytes → Bytes
unfolding split_path ext_of
ext path = ext_of (split_path path).1
