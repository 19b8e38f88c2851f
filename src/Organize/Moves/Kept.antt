-- ===== src/Organize/Moves/Kept.antt =====
-- organize/file_organizer.go: what `moveOrLink` leaves on the disk.
use mediarr.Common.{
  if◌then◌else◌, nat_eq, string_eq, String, ◌≡◌, refl, ◌∙◌, ◌≢◌, ◌⊎◌, inl, inr, Bool, true, false,
  Option, none, some, arith,
}
use mediarr.Common.Bytes.{Bytes, eq_bytes, eq_bytes_iff, bytes_eq}
use mediarr.Organize.FileSystem.{Failure, succeeded, FileSystem, IsLawful}
use mediarr.Organize.Moves.{
  finish_copy, after_copy, after_create, after_open, after_rename, move_file, after_link,
  link_or_move, after_remove, replace, move_or_link,
}

eq_bytes_self : (p : Bytes) → eq_bytes p p ≡ true
eq_bytes_self p = (eq_bytes_iff p p).1 refl

module _ (fs : FileSystem) (L : IsLawful fs) where
  -- What became of a file with the bytes `c` that was to be moved, from the contents `before`: the
  -- bytes are at the source or at the target; where the call succeeded they are at the target, and the
  -- source is gone, or it is linked; and no file with another plain path has changed.
  pub record IsMove (before : Bytes → Option Bytes) (source target c : Bytes) (linked : Bool)
      (r : fs.Disk × Failure) : Type 0 where
    pub kept : (fs.content r.0 source ≡ some c) ⊎ (fs.content r.0 target ≡ some c)
    pub arrived : succeeded r.1 ≡ true → fs.content r.0 target ≡ some c
    pub left :
        succeeded r.1 ≡ true
        → (fs.content r.0 source ≡ none) ⊎ ((linked ≡ true) × (fs.content r.0 source ≡ some c))
    pub others :
        (k : Bytes)
        → fs.IsPlain k
        → eq_bytes source k ≡ false
        → eq_bytes target k ≡ false
        → fs.content r.0 k ≡ before k

  module _ (before : Bytes → Option Bytes) (source target c : Bytes) (linked : Bool)
      (ps : fs.IsPlain source) (pt : fs.IsPlain target) (st : eq_bytes source target ≡ false)
      (ts : eq_bytes target source ≡ false) where
    abbrev Unchanged : fs.Disk → Type 0
    Unchanged d =
        (k : Bytes)
        → fs.IsPlain k
        → eq_bytes source k ≡ false
        → eq_bytes target k ≡ false
        → fs.content d k ≡ before k

    abbrev Moved : fs.Disk × Failure → Type 0
    Moved r = IsMove before source target c linked r

    failed-Moved :
        (d : fs.Disk) (e : String) → fs.content d source ≡ some c → Unchanged d → Moved (d, some e)
    failed-Moved d e s o = record { kept = inl s; arrived = λ h. cc; left = λ h. cc; others = o }

    finish_copy_lem :
        (d : fs.Disk) (found : Option Bool)
        → fs.content d source ≡ some c
        → fs.content d target ≡ some c
        → Unchanged d
        → Moved (finish_copy fs source target d found)
    unfolding finish_copy
    finish_copy_lem d none s t o = failed-Moved d "stat" s o
    finish_copy_lem d (some b) s t o =
        let u = (fs.chmod target d).0 in
        let at = λ (k : Bytes) (pk : fs.IsPlain k).
          L.content-remove source u k (L.plain-IsEntry source ps) pk in
        let arrives : fs.content (fs.remove source u).0 target ≡ some c =
          at target pt ∙ ground (arith, st, L.content-chmod target d target, t) in
        record {
          kept = inr arrives;
          arrived = λ h. arrives;
          left = λ h. inl (at source ps ∙ rw (h, eq_bytes_self source) refl);
          others = λ k pk sk tk. at k pk ∙ ground (arith, L.content-chmod target d k, o k pk sk tk);
        }

    -- The facts that hold where a call has succeeded are asked for under that condition.
    after_copy_lem :
        (r : fs.Disk × Failure)
        → fs.content r.0 source ≡ some c
        → (succeeded r.1 ≡ true → fs.content r.0 target ≡ some c)
        → Unchanged r.0
        → Moved (after_copy fs source target r)
    unfolding after_copy
    after_copy_lem (d, some e) s t o = failed-Moved d e s o
    after_copy_lem (d, none) s t o = finish_copy_lem d (fs.stat d source) s (t refl) o

    copied :
        (d : fs.Disk)
        → fs.IsAlone d target
        → fs.content d source ≡ some c
        → Unchanged d
        → Moved (after_copy fs source target (fs.copy source target d))
    copied d alone s o =
        after_copy_lem (fs.copy source target d)
          (L.content-copy source target d source pt ps alone ts ∙ s)
          (λ h. L.copy_done source target d ps pt alone differ h ∙ s)
          (λ k pk sk tk. L.content-copy source target d k pt pk alone tk ∙ o k pk sk tk)
      where
        differ : source ≢ target
        differ same = ground (arith, eq_bytes_iff source target)

    after_create_lem :
        (r : fs.Disk × Failure)
        → (succeeded r.1 ≡ true → fs.IsAlone r.0 target)
        → fs.content r.0 source ≡ some c
        → Unchanged r.0
        → Moved (after_create fs source target r)
    unfolding after_create
    after_create_lem (d, some e) alone s o = failed-Moved d e s o
    after_create_lem (d, none) alone s o = copied d (alone refl) s o

    after_open_lem :
        (d : fs.Disk) (opened : Failure)
        → fs.content d source ≡ some c
        → fs.content d target ≡ none
        → Unchanged d
        → Moved (after_open fs source target d opened)
    unfolding after_open
    after_open_lem d (some e) s t o = failed-Moved d e s o
    after_open_lem d none s t o =
        after_create_lem (fs.create target d) (λ h. L.create-IsAlone target d pt t h)
          (L.content-create target d source pt ps t ∙ ground arith)
          (λ k pk sk tk. L.content-create target d k pt pk t ∙ ground (arith, o k pk sk tk))

    -- The state behind a rename that was tried from `d`.
    after_rename_lem :
        (r : fs.Disk × Failure)
        → fs.content r.0 source ≡ (if succeeded r.1 then none else some c)
        → fs.content r.0 target ≡ (if succeeded r.1 then some c else none)
        → Unchanged r.0
        → Moved (after_rename fs source target r)
    unfolding after_rename
    after_rename_lem (d, some e) s t o = after_open_lem d (fs.open_file d source) s t o
    after_rename_lem (d, none) s t o = record {
      kept = inr t;
      arrived = λ h. t;
      left = λ h. inl s;
      others = o;
    }

    move_file_lem :
        (d : fs.Disk)
        → fs.content d source ≡ some c
        → fs.content d target ≡ none
        → Unchanged d
        → Moved (move_file fs source target d)
    unfolding move_file
    move_file_lem d s t o =
        let at = λ (k : Bytes) (pk : fs.IsPlain k).
          L.content-rename source target d k ps pt pk (λ n. cc) t in
        after_rename_lem (fs.rename source target d)
          (at source ps ∙ ground (arith, eq_bytes_self source))
          (at target pt ∙ ground (arith, eq_bytes_self target))
          (λ k pk sk tk. at k pk ∙ ground (arith, o k pk sk tk))

    after_link_lem :
        (r : fs.Disk × Failure)
        → linked ≡ true
        → fs.content r.0 source ≡ some c
        → fs.content r.0 target ≡ (if succeeded r.1 then some c else none)
        → Unchanged r.0
        → Moved (after_link fs source target r)
    unfolding after_link
    after_link_lem (d, some e) l s t o = move_file_lem d s t o
    after_link_lem (d, none) l s t o = record {
      kept = inl s;
      arrived = λ h. t;
      left = λ h. inr (l, s);
      others = o;
    }

    link_or_move-Moved :
        (d : fs.Disk) (b : Bool)
        → linked ≡ b
        → fs.content d source ≡ some c
        → fs.content d target ≡ none
        → Unchanged d
        → Moved (link_or_move fs source target b d)
    unfolding link_or_move
    link_or_move-Moved d false l s t o = move_file_lem d s t o
    link_or_move-Moved d true l s t o =
        let at = λ (k : Bytes) (pk : fs.IsPlain k). L.content-link source target d k ps pt pk in
        after_link_lem (fs.link source target d) l (at source ps ∙ ground arith)
          (at target pt ∙ ground (arith, eq_bytes_self target))
          (λ k pk sk tk. at k pk ∙ ground (arith, o k pk sk tk))

    after_remove_lem :
        (r : fs.Disk × Failure)
        → fs.content r.0 source ≡ some c
        → (succeeded r.1 ≡ true → fs.content r.0 target ≡ none)
        → Unchanged r.0
        → Moved (after_remove fs source target linked r)
    unfolding after_remove
    after_remove_lem (d, some e) s t o = failed-Moved d "remove existing" s o
    after_remove_lem (d, none) s t o = link_or_move-Moved d linked refl s (t refl) o

    replaced :
        (d : fs.Disk) (found : Option Bool)
        → fs.stat d target ≡ found
        → fs.content d source ≡ some c
        → Unchanged d
        → Moved (replace fs source target linked d found)
    unfolding replace
    replaced d none h s o = link_or_move-Moved d linked refl s (L.stat-content d target h) o
    replaced d (some b) h s o =
        let at = λ (k : Bytes) (pk : fs.IsPlain k).
          L.content-remove target d k (L.plain-IsEntry target pt) pk in
        after_remove_lem (fs.remove target d) (at source ps ∙ ground arith)
          (λ done. at target pt ∙ rw (done, eq_bytes_self target) refl)
          (λ k pk sk tk. at k pk ∙ ground (arith, o k pk sk tk))

  pub move_or_link-IsMove :
      (d : fs.Disk) (source target c : Bytes) (use_hardlink : Bool)
      → fs.IsPlain source
      → fs.IsPlain target
      → source ≢ target
      → fs.content d source ≡ some c
      → IsMove
          (fs.content d)
          source
          target
          c
          use_hardlink
          (move_or_link fs source target use_hardlink d)
  unfolding move_or_link
  move_or_link-IsMove d source target c use_hardlink ps pt differ s =
      replaced (fs.content d) source target c use_hardlink ps pt
        (ground (arith, eq_bytes_iff source target)) (ground (arith, eq_bytes_iff target source)) d
        (fs.stat d target) refl s (λ k pk sk tk. refl)

  abbrev Gone : Bytes → fs.Disk × Failure → Type 0
  Gone path r = (fs.content r.0 path ≡ none) × (succeeded r.1 ≡ false)

  after_open-Gone :
      (path : Bytes) (d : fs.Disk) (opened : Failure)
      → succeeded opened ≡ false
      → fs.IsAbsent d path
      → Gone path (after_open fs path path d opened)
  unfolding after_open
  after_open-Gone path d none h m = cc
  after_open-Gone path d (some e) h m = (L.absent-content d path m, refl)

  after_rename-Gone :
      (path : Bytes) (r : fs.Disk × Failure)
      → succeeded r.1 ≡ false
      → fs.IsAbsent r.0 path
      → Gone path (after_rename fs path path r)
  unfolding after_rename
  after_rename-Gone path (d, none) h m = cc
  after_rename-Gone path (d, some e) h m =
      after_open-Gone path d (fs.open_file d path) (L.open_absent path d m) m

  move_file-Gone :
      (path : Bytes) (d : fs.Disk) → fs.IsAbsent d path → Gone path (move_file fs path path d)
  unfolding move_file
  move_file-Gone path d m =
      let (failed, missing) = L.rename_absent path path d m in
      after_rename-Gone path (fs.rename path path d) failed missing

  after_link-Gone :
      (path : Bytes) (r : fs.Disk × Failure)
      → succeeded r.1 ≡ false
      → fs.IsAbsent r.0 path
      → Gone path (after_link fs path path r)
  unfolding after_link
  after_link-Gone path (d, none) h m = cc
  after_link-Gone path (d, some e) h m = move_file-Gone path d m

  after_remove-Gone :
      (path : Bytes) (r : fs.Disk × Failure) (use_hardlink : Bool)
      → succeeded r.1 ≡ true
      → fs.IsAbsent r.0 path
      → Gone path (after_remove fs path path use_hardlink r)
  unfolding after_remove link_or_move
  after_remove-Gone path (d, some e) use_hardlink h m = cc
  after_remove-Gone path (d, none) false h m = move_file-Gone path d m
  after_remove-Gone path (d, none) true h m =
      let (failed, missing) = L.link_absent path path d m in
      after_link-Gone path (fs.link path path d) failed missing

  -- Moving a file onto itself loses it: where it can be removed, it is gone behind the call, and the
  -- call fails.
  pub move_or_link_onto_self :
      (d : fs.Disk) (path : Bytes) (use_hardlink is_directory : Bool)
      → fs.stat d path ≡ some is_directory
      → succeeded (fs.remove path d).1 ≡ true
      → (fs.content (move_or_link fs path path use_hardlink d).0 path ≡ none)
        × (succeeded (move_or_link fs path path use_hardlink d).1 ≡ false)
  unfolding move_or_link replace
  move_or_link_onto_self d path use_hardlink is_directory found removed = rw found (
      after_remove-Gone path (fs.remove path d) use_hardlink removed
        (L.remove-IsAbsent path d removed))
