-- ===== src/Torrent/Session/Files/InOrder.antt =====
-- download/torrent/torrent.go: pieces that are written one after the other, from the first on.
use mathlib.Core.Path.{subst}
use native.Mathlib.Nat.{add-zero}
use Prim.Native.Nat.{min}
use mediarr.Common.{
  ltb, leb, Bool-cases, length, take, drop, length-append, length-take, length-drop, nat_eq,
  string_eq, insert, ℕ, ◌+◌, ◌-◌, ◌≤◌, ◌<◌, String, ◌≡◌, refl, sym, ap, ◌∙◌, inl, inr, true, false,
  Option, none, List, [], ◌∷◌, ◌++◌, arith, take_all, take-min, take_all,
}
use mediarr.Common.Bytes.{Bytes, bytes_eq}
use mediarr.Torrent.Session.{FileWrite}
use mediarr.Torrent.Session.Files.{
  content, write_at, Written, is_nil, after_write, check_write, write_open, write_file, write_files,
}
use mediarr.Torrent.Session.Files.Contents.{
  take_past, take_within, drop_all, drop-min, write_at_end, content-insert, content-insert_ne,
  IsOther, AreDistinct, capacity, Holds, insert-Holds,
}

-- What a write leaves where the bytes `bs` were there and `more` are written behind them.
pub record Appended (files : List FileWrite) (disk : List (Bytes × Bytes)) (bs more : Bytes)
    (r : Written) : Type 0 where
  pub holds : Holds r.files (bs ++ more) r.disk
  pub count : r.count ≡ length more
  pub no_failure : r.failure ≡ none
  pub distinct : AreDistinct r.files
  pub size : capacity r.files ≡ capacity files
  pub others : (p : Bytes) → IsOther p files → IsOther p r.files
  pub frame : (p : Bytes) → IsOther p files → content p r.disk ≡ content p disk

-- A file in front that is full already.
full-Appended :
    (fw : FileWrite) (files : List FileWrite) (disk : List (Bytes × Bytes)) (bs more : Bytes)
    (r : Written)
    → fw.length ≤ length bs
    → AreDistinct (fw ∷ files)
    → Holds (fw ∷ files) bs disk
    → Appended files disk (drop fw.length bs) more r
    → Appended (fw ∷ files) disk bs more (record r { files = fw ∷ r.files })
full-Appended fw files disk bs more r h (o, d) (c, b, _) a =
    let (t, u) = take_within fw.length bs more h in
    record {
      holds = (
        a.frame fw.path o ∙ c ∙ sym t,
        b ∙ ap length (sym t),
        subst (λ x. Holds r.files x r.disk) (sym u) a.holds,
      );
      count = a.count;
      no_failure = a.no_failure;
      distinct = (a.others fw.path o, a.distinct);
      size = omega (arith, a.size);
      others = λ p (n, q). (n, a.others p q);
      frame = λ p (n, q). a.frame p q;
    }

-- A file in front that takes the first of the bytes, and what the later files take of the rest.
open-Appended :
    (fw : FileWrite) (files : List FileWrite) (disk : List (Bytes × Bytes)) (bs more : Bytes)
    (n : ℕ) (r : Written)
    → length bs ≤ fw.length
    → fw.bytes_written ≡ length bs
    → n ≡ min (length more) (fw.length - length bs)
    → AreDistinct (fw ∷ files)
    → Appended files (insert fw.path (bs ++ take n more) disk) [] (drop n more) r
    → Appended (fw ∷ files) disk bs more (record r {
      files = record fw { bytes_written = fw.bytes_written + n } ∷ r.files;
      count = n + r.count;
    })
open-Appended fw files disk bs more n r h b e (o, d) a =
    let (t, u) = take_past fw.length bs more h in
    let k : take n more ≡ take (fw.length - length bs) more =
      rw e (take-min (fw.length - length bs) more) in
    let j : drop n more ≡ drop (fw.length - length bs) more =
      rw e (drop-min (fw.length - length bs) more) in
    let l = length-take fw.length (bs ++ more) in
    record {
      holds = (
        a.frame fw.path o
            ∙ content-insert fw.path (bs ++ take n more) disk
            ∙ ap (λ x. bs ++ x) k
            ∙ sym t,
        omega (arith, l, length-append bs more),
        subst (λ x. Holds r.files x r.disk) (j ∙ sym u) a.holds,
      );
      count = omega (arith, a.count, length-drop n more);
      no_failure = a.no_failure;
      distinct = (a.others fw.path o, a.distinct);
      size = omega (arith, a.size);
      others = λ p (m, q). (m, a.others p q);
      frame = λ p (m, q). a.frame p q ∙ content-insert_ne fw.path p (bs ++ take n more) disk m;
    }

is_nil_lem : (xs : Bytes) → is_nil xs ≡ true → xs ≡ []
is_nil_lem [] h = refl
is_nil_lem (x ∷ xs) h = cc

-- The later files where no bytes are left.
none-Appended :
    (files : List FileWrite) (disk : List (Bytes × Bytes)) (more : Bytes)
    → more ≡ []
    → AreDistinct files
    → Holds files [] disk
    → Appended files disk [] more (record { files = files; count = 0; disk = disk; failure = none })
none-Appended files disk more e d h = record {
  holds = rw e h;
  count = rw e refl;
  no_failure = refl;
  distinct = d;
  size = refl;
  others = λ p o. o;
  frame = λ p o. refl;
}

module _ (open_error : Bytes → Option String) (write_count : Bytes → ℕ → ℕ)
    (opens : (p : Bytes) → open_error p ≡ none)
    (writes : (p : Bytes) (n : ℕ) → n ≤ write_count p n) where
  pub write_files-Appended :
      (files : List FileWrite) (disk : List (Bytes × Bytes)) (bs more : Bytes)
      → AreDistinct files
      → Holds files bs disk
      → length bs + length more ≤ capacity files
      → Appended files disk bs more (write_files open_error write_count files (length bs) more disk)
  unfolding write_files write_file write_open check_write after_write
  write_files-Appended [] disk bs more d h c = record {
    holds = tt;
    count = omega arith;
    no_failure = refl;
    distinct = tt;
    size = refl;
    others = λ p o. o;
    frame = λ p o. refl;
  }
  write_files-Appended (fw ∷ files) disk bs more (o, d) (g, b, h) c =
      elim (Bool-cases (leb fw.length (length bs))) [
        | inl e ↦
            let past : fw.length ≤ length bs = ground arith in
            let l : length (drop fw.length bs) ≡ length bs - fw.length = length-drop fw.length bs in
            rw (e, ← l)
              (full-Appended fw files disk bs more _ past (o, d) (g, b, h)
                (write_files-Appended files disk (drop fw.length bs) more d h (omega (arith, l))))
        | inr e ↦
            let before : length bs < fw.length = ground arith in
            let t = take_all fw.length bs (omega arith) in
            let w : fw.bytes_written ≡ length bs = b ∙ ap length t in
            let asked = min (length more) (fw.length - fw.bytes_written) in
            let m : min asked (write_count fw.path asked) ≡ asked =
              omega (arith, writes fw.path asked) in
            let l : ltb asked asked ≡ false = ground arith in
            let after = insert fw.path (bs ++ take asked more) disk in
            let q : asked ≡ min (length more) (fw.length - length bs) = rw w refl in
            let a : write_at (length bs) (take asked more) (content fw.path disk)
                ≡ bs ++ take asked more =
              rw (g, t) (write_at_end bs (take asked more)) in
            let empty = subst (λ x. Holds files x disk) (drop_all fw.length bs (omega arith)) h in
            let later : Holds files [] after =
              insert-Holds fw.path (bs ++ take asked more) files [] disk o empty in
            rw (e, opens fw.path, m, l, a)
              (elim (Bool-cases (is_nil (drop asked more))) [
                | inl nil ↦ rw nil (
                    subst
                      (λ k. Appended (fw ∷ files) disk bs more (record {
                        files = record fw { bytes_written = fw.bytes_written + asked } ∷ files;
                        count = k;
                        disk = after;
                        failure = none;
                      }))
                      (add-zero asked)
                      (open-Appended fw files disk bs more asked _ (omega arith) w q (o, d)
                        (none-Appended files after (drop asked more)
                          (is_nil_lem (drop asked more) nil) d later)))
                | inr some_left ↦ rw some_left (
                    open-Appended fw files disk bs more asked _ (omega arith) w q (o, d)
                      (write_files-Appended files after [] (drop asked more) d later
                        (omega (arith, length-drop asked more))))
              ])
      ]
