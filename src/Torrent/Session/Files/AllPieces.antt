-- ===== src/Torrent/Session/Files/AllPieces.antt =====
-- download/torrent/torrent.go: what `WriteAllPieces` leaves on the disk.
use mathlib.Core.Path.{subst}
use native.Mathlib.Nat.{add-mul}
use mediarr.Common.{
  length, length-append, nat_eq, string_eq, ℕ, ◌+◌, ◌*◌, ◌≤◌, ◌<◌, String, ◌≡◌, refl, sym, ap, ◌∙◌,
  Option, none, some, List, [], ◌∷◌, ◌++◌, append_assoc, append-nil, arith,
}
use mediarr.Common.Int.{pos}
use mediarr.Common.Bytes.{Bytes, bytes_eq}
use mediarr.Common.Result.{Result, ok}
use mediarr.Torrent.Pieces.{PieceManager}
use mediarr.Torrent.Pieces.Store.{get_piece_data}
use mediarr.Torrent.Session.{Torrent, TorrentInfo, FileWrite}
use mediarr.Torrent.Session.Files.{
  write_files, outcome, write_data, write_to_files, write_piece_data, write_piece_of, then_pieces,
  write_all_of, write_piece, write_pieces, write_all_pieces,
}
use mediarr.Torrent.Session.Files.Contents.{AreDistinct, capacity, Holds}
use mediarr.Torrent.Session.Files.InOrder.{Appended, write_files-Appended}

-- The data of the verified pieces from piece `i` on.
abbrev pub HasData : PieceManager → ℕ → List Bytes → Type 0
HasData pm i [] = Unit
HasData pm i (d ∷ ds) = (get_piece_data pm (pos i) ≡ ok d) × HasData pm (i + 1) ds

-- All pieces but the last have this length.
abbrev pub IsCut : ℕ → List Bytes → Type 0
IsCut n [] = Unit
IsCut n (d ∷ []) = Unit
IsCut n (d ∷ e ∷ ds) = (length d ≡ n) × IsCut n (e ∷ ds)

abbrev pub joined : List Bytes → Bytes
joined [] = []
joined (d ∷ ds) = d ++ joined ds

module _ (open_error : Bytes → Option String) (write_count : Bytes → ℕ → ℕ)
    (opens : (p : Bytes) → open_error p ≡ none)
    (writes : (p : Bytes) (n : ℕ) → n ≤ write_count p n) where
  module _ (pm : PieceManager) (info : TorrentInfo) (some_length : 0 < info.piece_length) where
    write_to_files_lem :
        (t : Torrent) (i : ℕ) (d : Bytes) (disk : List (Bytes × Bytes)) (fw : FileWrite)
        (files : List FileWrite)
        → write_to_files open_error write_count t pm i d disk (fw ∷ files) (some info)
          ≡ write_data open_error write_count t (i * info.piece_length) d disk
    unfolding write_to_files
    write_to_files_lem t i d disk fw files = ground arith

    write_piece_next :
        (t : Torrent) (i : ℕ) (d : Bytes) (disk : List (Bytes × Bytes)) (fw : FileWrite)
        (files : List FileWrite)
        → t.piece_manager ≡ some pm
        → t.info ≡ some info
        → t.files ≡ fw ∷ files
        → get_piece_data pm (pos i) ≡ ok d
        → write_piece open_error write_count t i disk
          ≡ write_data open_error write_count t (i * info.piece_length) d disk
    unfolding write_piece
    write_piece_next t i d disk fw files hp hi hf g =
        ap (write_piece_of open_error write_count t i disk) hp
        ∙ ap (write_piece_data open_error write_count t pm i disk) g
        ∙ ap (λ fs. write_to_files open_error write_count t pm i d disk fs t.info) hf
        ∙ ap (write_to_files open_error write_count t pm i d disk (fw ∷ files)) hi
        ∙ write_to_files_lem t i d disk fw files

    -- The session and the disk hold these bytes, and the write has succeeded.
    abbrev Holding : Bytes → ℕ → (Torrent × List (Bytes × Bytes)) × Result (Unit {0}) → Type 0
    Holding bs done r = (r.1 ≡ ok tt) × Holds r.0.0.files bs r.0.1 × (r.0.0.bytes_done ≡ done)

    -- The place of the next piece, if there is one.
    abbrev IsAt : Bytes → ℕ → List Bytes → Type 0
    IsAt bs i [] = Unit
    IsAt bs i (d ∷ ds) = length bs ≡ i * info.piece_length

    start-IsAt : (ds : List Bytes) → IsAt [] 0 ds
    start-IsAt [] = tt
    start-IsAt (d ∷ ds) = omega arith

    files-cases :
        (files : List FileWrite)
        → 0 < capacity files
        → (fw : FileWrite) × (rest : List FileWrite) × (files ≡ fw ∷ rest)
    files-cases [] h = absurd (omega arith)
    files-cases (fw ∷ rest) h = (fw, rest, refl)

    next-IsAt :
        (bs d : Bytes) (i : ℕ) (ds : List Bytes)
        → length bs ≡ i * info.piece_length
        → IsCut info.piece_length (d ∷ ds)
        → IsAt (bs ++ d) (i + 1) ds × IsCut info.piece_length ds
    next-IsAt bs d i [] l c = (tt, tt)
    next-IsAt bs d i (e ∷ ds) l (c, cs) =
        (length-append bs d ∙ omega (arith, add-mul i 1 info.piece_length), cs)

    write_pieces-Holding :
        (ds : List Bytes) (i : ℕ) (t : Torrent) (disk : List (Bytes × Bytes)) (bs : Bytes)
        → t.piece_manager ≡ some pm
        → t.info ≡ some info
        → HasData pm i ds
        → IsCut info.piece_length ds
        → IsAt bs i ds
        → AreDistinct t.files
        → 0 < capacity t.files
        → length bs + length (joined ds) ≤ capacity t.files
        → Holds t.files bs disk
        → Holding
            (bs ++ joined ds)
            (t.bytes_done + length (joined ds))
            (write_pieces open_error write_count (length ds) i t disk)
    unfolding write_pieces
    write_pieces-Holding [] i t disk bs hp hi g cut at d z c h =
        (refl, rw (append-nil bs) h, omega arith)
    write_pieces-Holding (b ∷ ds) i t disk bs hp hi (g, gs) cut at d z c h =
        let w = write_files open_error write_count t.files (i * info.piece_length) b disk in
        let l = length-append b (joined ds) in
        let a : Appended t.files disk bs b w =
          subst
            (λ n. Appended t.files disk bs b (write_files open_error write_count t.files n b disk))
            at
            (write_files-Appended open_error write_count opens writes t.files disk bs b d h
              (omega (arith, l))) in
        let (fw, rest, f) = files-cases t.files z in
        let t2 : Torrent = record t { files = w.files; bytes_done = t.bytes_done + w.count } in
        let step : write_piece open_error write_count t i disk ≡ ((t2, w.disk), ok tt) =
          write_piece_next t i b disk fw rest hp hi f g
          ∙ unfold write_data in
            ap (λ o. ((t2, w.disk), outcome open_error write_count o)) a.no_failure in
        let (at2, cut2) = next-IsAt bs b i ds at cut in
        let last = write_pieces open_error write_count (length ds) (i + 1) t2 w.disk in
        let later =
          write_pieces-Holding ds (i + 1) t2 w.disk (bs ++ b) hp hi gs cut2 at2 a.distinct
            (omega (arith, a.size)) (omega (arith, a.size, l, length-append bs b)) a.holds in
        let done : t2.bytes_done + length (joined ds) ≡ t.bytes_done + length (b ++ joined ds) =
          omega (arith, l, a.count) in
        let all =
          subst (λ x. Holding x (t2.bytes_done + length (joined ds)) last)
            (append_assoc bs b (joined ds)) later in
        subst
          (λ q. Holding (bs ++ (b ++ joined ds)) (t.bytes_done + length (b ++ joined ds)) (
            then_pieces open_error write_count
              (write_pieces open_error write_count (length ds) (i + 1)) q))
          (sym step) (subst (λ n. Holding (bs ++ (b ++ joined ds)) n last) done all)

-- If every piece is there and verified, the pieces fill the files, whose paths differ, and no call on
-- the file system fails, then `WriteAllPieces` succeeds, and each file has exactly the bytes of the
-- torrent that belong to it: the pieces joined, cut at the lengths of the files. It starts from files
-- of which nothing is written, and the progress goes up by the bytes of the torrent.
pub write_all_pieces-Holds :
    (open_error : Bytes → Option String) (write_count : Bytes → ℕ → ℕ) (t : Torrent)
    (pm : PieceManager) (info : TorrentInfo) (ds : List Bytes) (disk : List (Bytes × Bytes))
    → ((p : Bytes) → open_error p ≡ none)
    → ((p : Bytes) (n : ℕ) → n ≤ write_count p n)
    → t.piece_manager ≡ some pm
    → t.info ≡ some info
    → 0 < info.piece_length
    → length ds ≡ pm.num_pieces
    → HasData pm 0 ds
    → IsCut info.piece_length ds
    → AreDistinct t.files
    → 0 < capacity t.files
    → length (joined ds) ≤ capacity t.files
    → Holds t.files [] disk
    → let r = write_all_pieces open_error write_count t disk in
      (r.1 ≡ ok tt)
      × Holds r.0.0.files (joined ds) r.0.1
      × (r.0.0.bytes_done ≡ t.bytes_done + length (joined ds))
unfolding write_all_pieces write_all_of
write_all_pieces-Holds open_error write_count t pm info ds disk opens writes hp hi l n g cut d z c
      h =
    let at : IsAt open_error write_count opens writes pm info l [] 0 ds =
      start-IsAt open_error write_count opens writes pm info l ds in
    let last =
      write_pieces-Holding open_error write_count opens writes pm info l ds 0 t disk [] hp hi g cut
        at d z (omega arith) h in
    subst
      (λ q.
        Holding open_error write_count opens writes pm info l (joined ds)
          (t.bytes_done + length (joined ds)) q)
      (ap (λ k. write_pieces open_error write_count k 0 t disk) n
        ∙ ap (write_all_of open_error write_count t disk) (sym hp))
      last
