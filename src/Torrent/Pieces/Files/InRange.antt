-- ===== src/Torrent/Pieces/Files/InRange.antt =====
-- The indices that choosing a piece reads: which files a piece names, and which pieces there are.
use mediarr.Common.{
  ltb, if◌then◌else◌, Bool-cases, Option-cases, length, get_elem?, replicate, length-replicate,
  nat_eq, string_eq, ℕ, zero, suc, ◌+◌, ◌≤◌, ◌<◌, ◌≡◌, refl, ap, inl, inr, Bool, true, false, not,
  some, List, [], ◌∷◌, ◌++◌, arith, get_elem?_total,
}
use mediarr.Common.Int.{ℤ}
use mediarr.Common.Result.{ok, >>=-eq-ok}
use mediarr.Torrent.Pieces.{
  priority_normal, PieceManager, InfoDict, mark_pieces, map_files, build_piece_to_file_map,
  new_pieces, new_piece_manager,
}
use mediarr.Torrent.Pieces.Files.{any_wanted, piece_is_wanted, is_skip}

abbrev pub AllBelow : ℕ → List ℕ → Type 0
AllBelow n [] = Unit
AllBelow n (f ∷ fs) = (f < n) × AllBelow n fs

abbrev pub AllFiles : ℕ → List (List ℕ) → Type 0
AllFiles n [] = Unit
AllFiles n (fs ∷ mapping) = AllBelow n fs × AllFiles n mapping

pub record IsIndexed (pm : PieceManager) : Type 0 where
  pub pieces_count : length pm.pieces ≡ pm.num_pieces
  pub files_known : AllFiles (length pm.file_priorities) pm.piece_to_files

AllBelow-snoc : (n f : ℕ) (fs : List ℕ) → f < n → AllBelow n fs → AllBelow n (fs ++ f ∷ [])
AllBelow-snoc n f [] h a = (h, tt)
AllBelow-snoc n f (g ∷ fs) h a = (a.0, AllBelow-snoc n f fs h a.1)

mark_pieces-AllFiles :
    (n file rounds p : ℕ) (mapping : List (List ℕ))
    → file < n
    → AllFiles n mapping
    → AllFiles n (mark_pieces file rounds p mapping)
unfolding mark_pieces
mark_pieces-AllFiles n file rounds zero [] h a = tt
mark_pieces-AllFiles n file zero zero (fs ∷ mapping) h a = a
mark_pieces-AllFiles n file (suc rounds) zero (fs ∷ mapping) h a =
    (AllBelow-snoc n file fs h a.0, mark_pieces-AllFiles n file rounds zero mapping h a.1)
mark_pieces-AllFiles n file rounds (suc p) [] h a = tt
mark_pieces-AllFiles n file rounds (suc p) (fs ∷ mapping) h a =
    (a.0, mark_pieces-AllFiles n file rounds p mapping h a.1)

map_files-AllFiles :
    (n len : ℕ) (files : List ℕ) (file offset : ℕ) (mapping : List (List ℕ))
    → file + length files ≤ n
    → AllFiles n mapping
    → AllFiles n (map_files len files file offset mapping)
unfolding map_files
map_files-AllFiles n len [] file offset mapping h a = a
map_files-AllFiles n len (f ∷ files) file offset mapping h a =
    map_files-AllFiles n len files (file + 1) (offset + f) _ (omega arith)
      (mark_pieces-AllFiles n file _ _ mapping (omega arith) a)

no_files : (n k : ℕ) → AllFiles n (replicate k [])
no_files n zero = tt
no_files n (suc k) = (tt, no_files n k)

first_file : (n k : ℕ) → 0 < n → AllFiles n (replicate k (0 ∷ []))
first_file n zero h = tt
first_file n (suc k) h = ((h, tt), first_file n k h)

length-new_pieces :
    (info : InfoDict) (n : ℕ) (hashes : List (List ℕ)) (i : ℕ)
    → length (new_pieces info n hashes i) ≡ length hashes
unfolding new_pieces
length-new_pieces info n [] i = refl
length-new_pieces info n (h ∷ hashes) i = ap suc (length-new_pieces info n hashes (i + 1))

build_piece_to_file_map-AllFiles :
    (info : InfoDict) (mapping : List (List ℕ))
    → build_piece_to_file_map info ≡ ok mapping
    → AllFiles (if ltb 0 info.length then 1 else length info.files) mapping
unfolding build_piece_to_file_map
build_piece_to_file_map-AllFiles info mapping h = elim (Bool-cases (ltb 0 info.length)) [
  | inl single ↦
      let e : replicate (length info.pieces_hashes) (0 ∷ []) ≡ mapping = ground (arith, single) in
      rw (single, ← e) (first_file 1 (length info.pieces_hashes) (omega arith))
  | inr several ↦
      let e : map_files info.piece_length info.files 0 0 (replicate (length info.pieces_hashes) [])
          ≡ mapping =
        ground (arith, several) in
      rw (several, ← e)
        (map_files-AllFiles (length info.files) info.piece_length info.files 0 0 _ (omega arith)
          (no_files (length info.files) (length info.pieces_hashes)))
]

pub any_wanted_total :
    (priorities : List ℤ) (files : List ℕ)
    → AllBelow (length priorities) files
    → (b : Bool) × (any_wanted priorities files ≡ ok b)
unfolding any_wanted
any_wanted_total priorities [] a = (false, refl)
any_wanted_total priorities (f ∷ files) a =
    let (p, found) = get_elem?_total priorities f a.0 in
    let (b, rest) = any_wanted_total priorities files a.1 in
    rw (found, rest) (if not (is_skip p) then true else b, ground arith)

files_at :
    (n : ℕ) (mapping : List (List ℕ)) (i : ℕ) (fs : List ℕ)
    → AllFiles n mapping
    → get_elem? mapping i ≡ some fs
    → AllBelow n fs
files_at n [] i fs a h = cc
files_at n (gs ∷ mapping) zero fs a h = let e : gs ≡ fs = cc in rw e at a.0
files_at n (gs ∷ mapping) (suc i) fs a h = files_at n mapping i fs a.1 h

-- A new manager has a piece for each hash, and maps the pieces to files that exist.
pub new_piece_manager-IsIndexed :
    (info : InfoDict) (pm : PieceManager) → new_piece_manager info ≡ ok pm → IsIndexed pm
unfolding new_piece_manager
new_piece_manager-IsIndexed info pm h =
    let (mapping, built, made) = >>=-eq-ok (build_piece_to_file_map info) _ h in
    let n : ℕ = if ltb 0 info.length then 1 else length info.files in
    let pieces : pm.pieces ≡ new_pieces info (length info.pieces_hashes) info.pieces_hashes 0 =
      ground arith in
    let num : pm.num_pieces ≡ length info.pieces_hashes = ground arith in
    let priorities : pm.file_priorities ≡ replicate n priority_normal = ground arith in
    let files : pm.piece_to_files ≡ mapping = ground arith in
    record {
      pieces_count = rw (pieces, num) (length-new_pieces info _ info.pieces_hashes 0);
      files_known =
          rw (priorities, files, length-replicate n priority_normal)
            (build_piece_to_file_map-AllFiles info mapping built);
    }

-- Asking whether a piece is wanted does not panic.
pub piece_is_wanted_total :
    (pm : PieceManager) (i : ℕ) → IsIndexed pm → (b : Bool) × (piece_is_wanted pm i ≡ ok b)
unfolding piece_is_wanted
piece_is_wanted_total pm i v = elim (Option-cases (get_elem? pm.piece_to_files i)) [
  | inl absent ↦ rw absent (false, refl)
  | inr (fs, found) ↦ rw found (
      any_wanted_total pm.file_priorities fs
        (files_at _ pm.piece_to_files i fs v.files_known found))
]
