-- ===== src/Organize/Moves/Cleaned.antt =====
-- organize/file_organizer.go: what `CleanupLeftovers` leaves alone.
use mediarr.Common.{
  nat_eq, string_eq, ◌≡◌, refl, ap, ◌∙◌, ◌≢◌, inl, inr, false, Option, none, some, List, [], ◌∷◌,
  arith,
}
use mediarr.Common.Bytes.{Bytes, eq_bytes_iff, bytes_eq}
use mediarr.Organize.Paths.{join, dir}
use mediarr.Organize.Paths.Normal.{IsElement, AllElements, root_path, join-root_path, dir-root_path}
use mediarr.Organize.FileSystem.{DirEntry, FileSystem, has_meta, Listed, AllNames, IsLawful}
use mediarr.Organize.Moves.{
  patterns, remove_each, remove_matches, remove_empty, remove_empty_files, cleanup_leftovers,
}

patterns-AllElements : AllElements patterns
patterns-AllElements = ground arith

-- A joined path lies in the directory.
dir-join :
    (es : List Bytes) (e : Bytes)
    → AllElements es
    → IsElement e
    → dir (join (root_path es) e) ≡ root_path es
dir-join es e h i = ap dir (join-root_path es e h i) ∙ dir-root_path es e h i

module _ (fs : FileSystem) (L : IsLawful fs) (k : Bytes) (plain_k : fs.IsPlain k) where
  remove_keeps :
      (p : Bytes) (d : fs.Disk)
      → fs.IsEntry p
      → p ≢ k
      → fs.content (fs.remove p d).0 k ≡ fs.content d k
  remove_keeps p d entry differ =
      L.content-remove p d k entry plain_k ∙ ground (arith, eq_bytes_iff p k)

  remove_each_keeps :
      (ps : List Bytes) (d : fs.Disk)
      → ((p : Bytes) → Listed p ps → fs.IsEntry p × (p ≢ k))
      → fs.content (remove_each fs ps d) k ≡ fs.content d k
  unfolding remove_each
  remove_each_keeps [] d h = refl
  remove_each_keeps (p ∷ ps) d h =
      remove_each_keeps ps (fs.remove p d).0 (λ q l. h q (inr l))
      ∙ remove_keeps p d (h p (inl refl)).0 (h p (inl refl)).1

  module _ (es : List Bytes) (h : AllElements es) (links : fs.IsPlain (root_path es))
      (plain : has_meta (root_path es) ≡ false) (elsewhere : dir k ≢ root_path es) where
    outside : (p : Bytes) → dir p ≡ root_path es → p ≢ k
    outside p e same = elsewhere (rw same at e)

    remove_matches_keeps :
        (ps : List Bytes) (d : fs.Disk)
        → AllElements ps
        → fs.content (remove_matches fs (root_path es) ps d) k ≡ fs.content d k
    unfolding remove_matches
    remove_matches_keeps [] d i = refl
    remove_matches_keeps (p ∷ ps) d (i, is) =
        let at = dir-join es p h i in
        remove_matches_keeps ps _ is
        ∙ remove_each_keeps (fs.glob d (join (root_path es) p)) d (λ q l.
          let (entry, same) =
            L.glob_within d (join (root_path es) p) q (L.join-IsEntry es p h i links)
              (ap has_meta at ∙ plain) l in
          (entry, outside q (same ∙ at)))

    remove_empty_keeps :
        (entries : List DirEntry) (d : fs.Disk)
        → AllNames entries
        → fs.content (remove_empty fs (root_path es) entries d) k ≡ fs.content d k
    unfolding remove_empty
    remove_empty_keeps [] d i = refl
    remove_empty_keeps (e ∷ entries) d (i, is) =
        remove_empty_keeps entries _ is
        ∙ ground (
          arith,
          remove_keeps (join (root_path es) e.name) d (L.join-IsEntry es e.name h i links)
              (outside _ (dir-join es e.name h i)),
        )

    remove_empty_files_keeps :
        (found : Option (List DirEntry)) (d : fs.Disk)
        → fs.read_dir d (root_path es) ≡ found
        → fs.content (remove_empty_files fs (root_path es) found d) k ≡ fs.content d k
    unfolding remove_empty_files
    remove_empty_files_keeps none d e = refl
    remove_empty_files_keeps (some entries) d e =
        remove_empty_keeps entries d (L.read_dir_names d (root_path es) e)

    -- Cleaning a directory whose path is plain and has no special characters of a pattern changes no
    -- file that lies elsewhere.
    pub cleanup_leftovers_keeps :
        (d : fs.Disk) → fs.content (cleanup_leftovers fs (root_path es) d) k ≡ fs.content d k
    unfolding cleanup_leftovers
    cleanup_leftovers_keeps d =
        let u = remove_matches fs (root_path es) patterns d in
        remove_empty_files_keeps (fs.read_dir u (root_path es)) u refl
        ∙ remove_matches_keeps patterns d patterns-AllElements
