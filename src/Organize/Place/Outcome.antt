-- ===== src/Organize/Place/Outcome.antt =====
-- organize/file_organizer.go: what the shared part of `OrganizeMovie` and `OrganizeEpisode` does with
-- the file.
use mediarr.Common.{
  if◌then◌else◌, Bool-cases, nat_eq, string_eq, ◌≡◌, refl, ◌∙◌, ◌≢◌, ◌⊎◌, inl, inr, Bool, true,
  false, not, ◌&&◌, Option, none, some, List,
}
use mediarr.Common.Bytes.{Bytes, bytes_eq}
use mediarr.Organize.Paths.{dir}
use mediarr.Organize.Paths.Normal.{AllElements, root_path}
use mediarr.Organize.FileSystem.{Failure, FileSystem, has_meta, IsLawful}
use mediarr.Organize.Moves.{move_or_link, cleanup_leftovers}
use mediarr.Organize.Moves.Kept.{IsMove, move_or_link-IsMove}
use mediarr.Organize.Moves.Cleaned.{cleanup_leftovers_keeps}
use mediarr.Organize.Place.{
  OrganizeOptions, Placed, refused, already, placed, is_there, after_move, after_mkdir, place_found,
  place_file,
}

-- Where the leftovers are deleted, the file stands in a directory whose path is plain and has no
-- special characters of a pattern, and its target in another one.
abbrev pub CleansElsewhere : FileSystem → Bytes → Bytes → OrganizeOptions → Type 0
CleansElsewhere fs source target opts =
    opts.delete_leftovers ≡ true
    → (es : List Bytes) × AllElements es
      × (dir source ≡ root_path es)
      × fs.IsPlain (root_path es)
      × (has_meta (root_path es) ≡ false)
      × (dir target ≢ root_path es)

module _ (fs : FileSystem) (source target c : Bytes) where
  -- The bytes of the file behind a call from the disk `d`, by how far it came.
  abbrev pub Stands : fs.Disk → fs.Disk × Placed → Type 0
  Stands d (u, refused e) = (fs.content u source ≡ some c) ⊎ (fs.content u target ≡ some c)
  Stands d (u, already) = (k : Bytes) → fs.content u k ≡ fs.content d k
  Stands d (u, placed) = fs.content u target ≡ some c

module _ (fs : FileSystem) (L : IsLawful fs) (source target_dir target c : Bytes)
    (opts : OrganizeOptions) (ps : fs.IsPlain source) (pt : fs.IsPlain target)
    (differ : source ≢ target) (cleans : CleansElsewhere fs source target opts) where
  cleaned :
      (b : Bool) (d : fs.Disk)
      → opts.delete_leftovers ≡ b
      → fs.content d target ≡ some c
      → fs.content (if b then cleanup_leftovers fs (dir source) d else d) target ≡ some c
  cleaned false d e t = t
  cleaned true d e t =
      let (es, h, same, links, plain, elsewhere) = cleans e in
      rw same (cleanup_leftovers_keeps fs L target pt es h links plain elsewhere d ∙ t)

  after_move-Stands :
      (d : fs.Disk) (before : Bytes → Option Bytes) (r : fs.Disk × Failure)
      → IsMove fs L before source target c opts.use_hardlink r
      → Stands fs source target c d (after_move fs source target_dir target opts r)
  unfolding after_move
  after_move-Stands d before (u, some e) m = m.kept
  after_move-Stands d before (u, none) m = cleaned opts.delete_leftovers u refl (m.arrived refl)

  after_mkdir-Stands :
      (d : fs.Disk) (r : fs.Disk × Failure)
      → fs.content d source ≡ some c
      → ((k : Bytes) → fs.content r.0 k ≡ fs.content d k)
      → Stands fs source target c d (after_mkdir fs source target_dir target opts r)
  unfolding after_mkdir
  after_mkdir-Stands d (u, some e) s same = inl (same source ∙ s)
  after_mkdir-Stands d (u, none) s same =
      elim (Bool-cases (not opts.overwrite && is_there (fs.stat u target))) [
        | inl there ↦ rw there same
        | inr free ↦ rw free (
            after_move-Stands d (fs.content u) (move_or_link fs source target opts.use_hardlink u) (
              move_or_link-IsMove fs L u source target c opts.use_hardlink ps pt differ
                (same source ∙ s)))
      ]

  place_found-Stands :
      (d : fs.Disk) (found : Option Bool)
      → fs.content d source ≡ some c
      → Stands fs source target c d (place_found fs source target_dir target opts d found)
  unfolding place_found
  place_found-Stands d none s = inl s
  place_found-Stands d (some true) s = inl s
  place_found-Stands d (some false) s =
      after_mkdir-Stands d (fs.mkdir_all target_dir d) s (L.content-mkdir_all target_dir d)

  pub place_file-Stands :
      (d : fs.Disk)
      → fs.content d source ≡ some c
      → Stands fs source target c d (place_file fs source target_dir target opts d)
  unfolding place_file
  place_file-Stands d s = place_found-Stands d (fs.stat d source) s
