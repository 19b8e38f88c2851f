-- ===== src/Organize/FileSystem/Memory.antt =====
-- A file system in memory that meets the laws: a path is a directory, or a file with its contents.
use mediarr.Common.{
  ◌==◌, if◌then◌else◌, Bool-cases, nat_eq, string_eq, lookup, insert, delete, lookup-insert,
  lookup-delete, ◌≡◌, refl, ap, ◌∙◌, inl, inr, Bool, true, false, ◌&&◌, ◌||◌, Option, none, some,
  List, [], ◌∷◌, arith, lookup-delete_self,
}
use mediarr.Common.Bytes.{Bytes, eq_bytes, eq_bytes_iff, bytes_eq}
use mediarr.Organize.Paths.{dir}
use mediarr.Organize.FileSystem.{Failure, succeeded, FileSystem, Listed, IsLawful}

pub data Node : Type 0 where
  directory : Node
  file : Bytes → Node

abbrev Nodes : Type 0
Nodes = List (Bytes × Node)

abbrev bytes_of : Option Node → Option Bytes
bytes_of (some (file c)) = some c
bytes_of n = none

abbrev kind_of : Option Node → Option Bool
kind_of none = none
kind_of (some directory) = some true
kind_of (some (file c)) = some false

abbrev remove_node : Bytes → Nodes → Option Node → Nodes × Failure
remove_node p d none = (d, some "missing")
remove_node p d (some n) = (delete p d, none)

abbrev put_file : Bytes → Nodes → Option Bytes → Nodes × Failure
put_file q d none = (d, some "missing")
put_file q d (some c) = (insert q (file c) d, none)

abbrev put_new : Bytes → Nodes → Option Bytes → Option Node → Nodes × Failure
put_new q d c (some n) = (d, some "exists")
put_new q d c none = put_file q d c

abbrev moved_file : Bytes → Bytes → Nodes → Option Bytes → Nodes × Failure
moved_file p q d none = (d, some "missing")
moved_file p q d (some c) = (insert q (file c) (delete p d), none)

abbrev created : Bytes → Nodes → Option Node → Nodes × Failure
created p d (some directory) = (d, some "is a directory")
created p d n = (insert p (file []) d, none)

abbrev made : Bytes → Nodes → Option Node → Nodes × Failure
made p d none = (insert p directory d, none)
made p d (some directory) = (d, none)
made p d (some (file c)) = (d, some "not a directory")

abbrev opened : Option Bytes → Failure
opened none = some "missing"
opened (some c) = none

-- The text behind the first `*`.
abbrev behind_star : Bytes → Bytes
behind_star [] = []
behind_star (c ∷ s) = if c == b'*' then s else behind_star s

unfoldable ends_with : Bytes → Bytes → Bool
ends_with t [] = eq_bytes t []
ends_with t (c ∷ s) = eq_bytes t (c ∷ s) || ends_with t s

-- The files beside the pattern that end in what is behind its star.
unfoldable matches : Bytes → Nodes → List Bytes
unfolding ends_with dir
matches pattern [] = []
matches pattern ((p, n) ∷ d) =
    let rest = matches pattern d in
    if eq_bytes (dir p) (dir pattern) && ends_with (behind_star pattern) p then p ∷ rest else rest

unfoldable pub memory : FileSystem
unfolding lookup insert delete matches
memory = record {
  Disk = Nodes;
  content = λ d p. bytes_of (lookup p d);
  IsPlain = λ p. Unit;
  IsEntry = λ p. Unit;
  IsAbsent = λ d p. kind_of (lookup p d) ≡ none;
  IsAlone = λ d p. Unit;
  stat = λ d p. kind_of (lookup p d);
  read_dir = λ d p. none;
  glob = λ d pattern. matches pattern d;
  open_file = λ d p. opened (bytes_of (lookup p d));
  mkdir_all = λ p d. made p d (lookup p d);
  remove = λ p d. remove_node p d (lookup p d);
  link = λ p q d. put_new q d (bytes_of (lookup p d)) (lookup q d);
  rename = λ p q d. moved_file p q d (bytes_of (lookup p d));
  create = λ p d. created p d (lookup p d);
  copy = λ p q d. put_file q d (bytes_of (lookup p d));
  chmod = λ p d. (d, none);
}

stat-content_lem : (n : Option Node) → kind_of n ≡ none → bytes_of n ≡ none
stat-content_lem none h = refl
stat-content_lem (some directory) h = refl
stat-content_lem (some (file c)) h = cc

mkdir_lem :
    (p k : Bytes) (d : Nodes) (n : Option Node)
    → lookup p d ≡ n
    → bytes_of (lookup k (made p d n).0) ≡ bytes_of (lookup k d)
mkdir_lem p k d none e = ground (arith, lookup-insert p k directory d, eq_bytes_iff p k)
mkdir_lem p k d (some directory) e = refl
mkdir_lem p k d (some (file c)) e = refl

remove_lem :
    (p k : Bytes) (d : Nodes) (n : Option Node)
    → bytes_of (lookup k (remove_node p d n).0)
      ≡ (if succeeded (remove_node p d n).1 && eq_bytes p k then none else bytes_of (lookup k d))
remove_lem p k d none = refl
remove_lem p k d (some n) = ground (arith, lookup-delete p k d)

removed_lem :
    (p : Bytes) (d : Nodes) (n : Option Node)
    → succeeded (remove_node p d n).1 ≡ true
    → kind_of (lookup p (remove_node p d n).0) ≡ none
removed_lem p d none h = cc
removed_lem p d (some n) h = rw (lookup-delete_self p d) refl

put_lem :
    (q k : Bytes) (d : Nodes) (c : Option Bytes)
    → bytes_of (lookup k (put_file q d c).0)
      ≡ (if succeeded (put_file q d c).1 && eq_bytes q k then c else bytes_of (lookup k d))
put_lem q k d none = refl
put_lem q k d (some c) = ground (arith, lookup-insert q k (file c) d)

link_lem :
    (q k : Bytes) (d : Nodes) (c : Option Bytes) (n : Option Node)
    → bytes_of (lookup k (put_new q d c n).0)
      ≡ (if succeeded (put_new q d c n).1 && eq_bytes q k then c else bytes_of (lookup k d))
link_lem q k d c (some n) = refl
link_lem q k d c none = put_lem q k d c

no_link :
    (p q : Bytes) (d : Nodes) (n m : Option Node)
    → lookup p d ≡ n
    → kind_of n ≡ none
    → (succeeded (put_new q d (bytes_of n) m).1 ≡ false)
      × (kind_of (lookup p (put_new q d (bytes_of n) m).0) ≡ none)
no_link p q d none (some m) e h = (refl, ap kind_of e)
no_link p q d none none e h = (refl, ap kind_of e)
no_link p q d (some directory) m e h = cc
no_link p q d (some (file c)) m e h = cc

no_rename :
    (p q : Bytes) (d : Nodes) (n : Option Node)
    → lookup p d ≡ n
    → kind_of n ≡ none
    → (succeeded (moved_file p q d (bytes_of n)).1 ≡ false)
      × (kind_of (lookup p (moved_file p q d (bytes_of n)).0) ≡ none)
no_rename p q d none e h = (refl, ap kind_of e)
no_rename p q d (some directory) e h = cc
no_rename p q d (some (file c)) e h = cc

rename_lem :
    (p q k : Bytes) (d : Nodes) (c : Option Bytes)
    → bytes_of (lookup k (moved_file p q d c).0) ≡ (
        if succeeded (moved_file p q d c).1
        then (if eq_bytes q k then c else if eq_bytes p k then none else bytes_of (lookup k d))
        else bytes_of (lookup k d))
rename_lem p q k d none = refl
rename_lem p q k d (some c) =
    ground (arith, lookup-insert q k (file c) (delete p d), lookup-delete p k d)

create_lem :
    (p k : Bytes) (d : Nodes) (n : Option Node)
    → bytes_of (lookup k (created p d n).0)
      ≡ (if succeeded (created p d n).1 && eq_bytes p k then some [] else bytes_of (lookup k d))
create_lem p k d none = ground (arith, lookup-insert p k (file []) d)
create_lem p k d (some directory) = refl
create_lem p k d (some (file c)) = ground (arith, lookup-insert p k (file []) d)

opened_lem : (n : Option Node) → kind_of n ≡ none → succeeded (opened (bytes_of n)) ≡ false
opened_lem none h = refl
opened_lem (some directory) h = refl
opened_lem (some (file c)) h = cc

matches_lem : (pattern q : Bytes) (d : Nodes) → Listed q (matches pattern d) → dir q ≡ dir pattern
unfolding matches
matches_lem pattern q [] l = elim l [ ]
matches_lem pattern q ((p, n) ∷ d) l =
    elim (Bool-cases (eq_bytes (dir p) (dir pattern) && ends_with (behind_star pattern) p)) [
      | inl e ↦ elim (rw e at l) [
        | inl same ↦ ap dir same ∙ (eq_bytes_iff _ _).0 (ground arith)
        | inr later ↦ matches_lem pattern q d later
      ]
      | inr e ↦ matches_lem pattern q d (rw e at l)
    ]

-- The laws hold of this file system.
pub memory-IsLawful : IsLawful memory
unfolding memory
memory-IsLawful = record {
  plain-IsEntry = λ p h. tt;
  join-IsEntry = λ es e h i p. tt;
  stat-content = λ d p h. stat-content_lem (lookup p d) h;
  absent-content = λ d p h. stat-content_lem (lookup p d) h;
  content-mkdir_all = λ p d k. mkdir_lem p k d (lookup p d) refl;
  content-chmod = λ p d k. refl;
  content-remove = λ p d k x y. remove_lem p k d (lookup p d);
  remove-IsAbsent = λ p d h. removed_lem p d (lookup p d) h;
  content-link = λ p q d k x y z. link_lem q k d (bytes_of (lookup p d)) (lookup q d);
  link_absent = λ p q d h. no_link p q d (lookup p d) (lookup q d) refl h;
  rename_absent = λ p q d h. no_rename p q d (lookup p d) refl h;
  open_absent = λ p d h. opened_lem (lookup p d) h;
  content-rename = λ p q d k x y z h t. rename_lem p q k d (bytes_of (lookup p d));
  content-create = λ p d k x y h. create_lem p k d (lookup p d);
  create-IsAlone = λ p d x h s. tt;
  content-copy = λ p q d k x y a h. put_lem q k d (bytes_of (lookup p d)) ∙ ground (arith, h);
  copy_done = λ p q d x y a n h.
      put_lem q q d (bytes_of (lookup p d)) ∙ rw (h, (eq_bytes_iff q q).1 refl) refl;
  glob_within = λ d pattern p x plain l. (tt, matches_lem pattern p d l);
  read_dir_names = λ d p h. cc;
}
