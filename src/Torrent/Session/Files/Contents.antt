-- ===== src/Torrent/Session/Files/Contents.antt =====
-- download/torrent/torrent.go: the contents of the files of a session, and one write to them.
use Prim.Native.Nat.{min}
use native.Mathlib.Decide.{dec_le}
use mediarr.Common.{
  length, take, drop, replicate, nat_eq, string_eq, insert, ℕ, zero, suc, ◌+◌, ◌-◌, ◌≤◌, ◌≡◌, refl,
  sym, ap, ◌∙◌, ◌≢◌, List, [], ◌∷◌, ◌++◌, append-nil, arith, lookup-insert_self, lookup-insert_ne,
  split_append,
}
use mediarr.Common.Bytes.{Bytes, bytes_eq}
use mediarr.Torrent.Session.{FileWrite}
use mediarr.Torrent.Session.Files.{content, write_at}

pub take_past :
    (n : ℕ) (xs ys : Bytes)
    → length xs ≤ n
    → (take n (xs ++ ys) ≡ xs ++ take (n - length xs) ys)
      × (drop n (xs ++ ys) ≡ drop (n - length xs) ys)
take_past n [] ys h = let e : n - 0 ≡ n = omega arith in rw e (refl, refl)
take_past zero (x ∷ xs) ys h = absurd (omega arith)
take_past (suc n) (x ∷ xs) ys h =
    let e : suc n - suc (length xs) ≡ n - length xs = omega arith in
    let (a, b) = take_past n xs ys (omega arith) in rw e (ap (λ r. x ∷ r) a, b)

pub take_within :
    (n : ℕ) (xs ys : Bytes)
    → n ≤ length xs
    → (take n (xs ++ ys) ≡ take n xs) × (drop n (xs ++ ys) ≡ drop n xs ++ ys)
take_within zero xs ys h = (refl, refl)
take_within (suc n) [] ys h = absurd (omega arith)
take_within (suc n) (x ∷ xs) ys h =
    let (a, b) = take_within n xs ys (omega arith) in (ap (λ r. x ∷ r) a, b)

pub drop_all : (n : ℕ) (xs : Bytes) → length xs ≤ n → drop n xs ≡ []
drop_all zero [] h = refl
drop_all zero (x ∷ xs) h = absurd (omega arith)
drop_all (suc n) [] h = refl
drop_all (suc n) (x ∷ xs) h = drop_all n xs (omega arith)

pub drop-min : (n : ℕ) (xs : Bytes) → drop (min (length xs) n) xs ≡ drop n xs
drop-min n xs = elim (dec_le (length xs) n) [
  | yes h ↦
      let e : min (length xs) n ≡ length xs = omega arith in
      rw (e, drop_all n xs h) (drop_all (length xs) xs (omega arith))
  | no h ↦ let e : min (length xs) n ≡ n = omega arith in rw e
]

-- A write at the end appends.
pub write_at_end : (xs ys : Bytes) → write_at (length xs) ys xs ≡ xs ++ ys
unfolding write_at
write_at_end xs [] = sym (append-nil xs)
write_at_end xs (y ∷ ys) =
    let (a, b) = split_append (length xs) xs (replicate (length xs) 0) refl in
    rw (a, drop_all (length xs + suc (length ys)) xs (omega arith), append-nil ys) refl

pub content-insert :
    (path bs : Bytes) (disk : List (Bytes × Bytes)) → content path (insert path bs disk) ≡ bs
unfolding content
content-insert path bs disk = rw (lookup-insert_self path bs disk) refl

pub content-insert_ne :
    (p q bs : Bytes) (disk : List (Bytes × Bytes))
    → p ≢ q
    → content q (insert p bs disk) ≡ content q disk
unfolding content
content-insert_ne p q bs disk h = rw (lookup-insert_ne p q bs disk h) refl

-- No file has this path.
abbrev pub IsOther : Bytes → List FileWrite → Type 0
IsOther p [] = Unit
IsOther p (fw ∷ files) = (fw.path ≢ p) × IsOther p files

abbrev pub AreDistinct : List FileWrite → Type 0
AreDistinct [] = Unit
AreDistinct (fw ∷ files) = IsOther fw.path files × AreDistinct files

abbrev pub capacity : List FileWrite → ℕ
capacity [] = 0
capacity (fw ∷ files) = fw.length + capacity files

-- The files have these bytes of the torrent, in the order of the files, and know how many.
abbrev pub Holds : List FileWrite → Bytes → List (Bytes × Bytes) → Type 0
Holds [] bs disk = Unit
Holds (fw ∷ files) bs disk =
    (content fw.path disk ≡ take fw.length bs)
    × (fw.bytes_written ≡ length (take fw.length bs))
    × Holds files (drop fw.length bs) disk

-- The files without their counters.
abbrev pub shape : FileWrite → FileWrite
shape fw = record fw { bytes_written = 0 }

pub insert-Holds :
    (p : Bytes) (written : Bytes) (files : List FileWrite) (bs : Bytes)
    (disk : List (Bytes × Bytes))
    → IsOther p files
    → Holds files bs disk
    → Holds files bs (insert p written disk)
insert-Holds p written [] bs disk o h = tt
insert-Holds p written (fw ∷ files) bs disk (n, o) (c, b, h) = (
  content-insert_ne p fw.path written disk (λ e. n (sym e)) ∙ c,
  b,
  insert-Holds p written files (drop fw.length bs) disk o h,
)
