-- ===== src/Torrent/Pieces/Peers/Counts.antt =====
-- What the counts of the pieces stand for, and what each step of a change does to them.
use text.Mathlib.Text.{◌==◌ as str_eq}
use text.Mathlib.TextEquality.{eq_iff}
use mediarr.Common.{
  if◌then◌else◌, Bool-cases, Option-cases, length, get_elem?, set, replicate, length-replicate,
  length-map, nat_eq, string_eq, lookup, insert, delete, ℕ, zero, suc, ◌+◌, String, ◌≡◌, refl, sym,
  ap, ◌∙◌, inl, inr, Bool, true, false, none, some, List, [], ◌∷◌, map, arith, HasUniqueKeys,
  insert-HasUniqueKeys, delete_absent,
}
use mediarr.Common.Int.{ℤ, pos, ◌+ℤ◌, ◌-ℤ◌}
use mediarr.Common.Result.{ok}
use mediarr.Torrent.Pieces.{PieceManager}
use mediarr.Torrent.Pieces.Peers.{
  read_bits, lower_counts, raise_counts, or_nil, or_none_of, drop_counts,
}

-- One peer's pieces added to the numbers of peers.
unfoldable pub add_bits : List Bool → List ℕ → List ℕ
add_bits (b ∷ bs) (t ∷ ts) = (if b then t + 1 else t) ∷ add_bits bs ts
add_bits _ ts = ts

-- For each of `n` pieces the number of peers that have it.
unfoldable pub totals : ℕ → List (String × List Bool) → List ℕ
unfolding add_bits
totals n [] = replicate n 0
totals n ((p, bs) ∷ m) = add_bits bs (totals n m)

abbrev pub AllSized : ℕ → List (String × List Bool) → Type 0
AllSized n [] = Unit
AllSized n ((p, bs) ∷ m) = (length bs ≡ n) × AllSized n m

-- The counts of a manager are the totals of its peers, each peer has an entry for every piece.
pub record IsCounted (pm : PieceManager) : Type 0 where
  pub counted : pm.piece_counts ≡ map pos (totals pm.num_pieces pm.peer_pieces)
  pub sized : AllSized pm.num_pieces pm.peer_pieces
  pub unique : HasUniqueKeys pm.peer_pieces

length-add_bits : (bs : List Bool) (ts : List ℕ) → length (add_bits bs ts) ≡ length ts
unfolding add_bits
length-add_bits [] ts = refl
length-add_bits (b ∷ bs) [] = refl
length-add_bits (b ∷ bs) (t ∷ ts) = ap suc (length-add_bits bs ts)

pub length-totals : (n : ℕ) (m : List (String × List Bool)) → length (totals n m) ≡ n
unfolding totals
length-totals n [] = length-replicate n 0
length-totals n ((p, bs) ∷ m) = length-add_bits bs (totals n m) ∙ length-totals n m

add_bits_comm :
    (xs ys : List Bool) (ts : List ℕ) → add_bits xs (add_bits ys ts) ≡ add_bits ys (add_bits xs ts)
unfolding add_bits
add_bits_comm [] ys ts = refl
add_bits_comm (x ∷ xs) [] ts = refl
add_bits_comm (x ∷ xs) (y ∷ ys) [] = refl
add_bits_comm (x ∷ xs) (y ∷ ys) (t ∷ ts) = ground (arith, add_bits_comm xs ys ts)

pub totals_known :
    (n : ℕ) (p : String) (bs : List Bool) (m : List (String × List Bool))
    → HasUniqueKeys m
    → lookup p m ≡ some bs
    → totals n m ≡ add_bits bs (totals n (delete p m))
unfolding totals lookup delete
totals_known n p bs [] u h = cc
totals_known n p bs ((q, cs) ∷ m) u h = elim (Bool-cases (str_eq q p)) [
  | inl same ↦
      let gone : delete p m ≡ m = delete_absent p m (rw ((eq_iff q p).0 same) at u.0) in
      rw (same, gone) (ground arith)
  | inr other ↦
      rw (other, totals_known n p bs m u.1 (ground arith))
        (add_bits_comm cs bs (totals n (delete p m)))
]

totals-insert :
    (n : ℕ) (p : String) (bs : List Bool) (m : List (String × List Bool))
    → HasUniqueKeys m
    → totals n (insert p bs m) ≡ add_bits bs (totals n (delete p m))
unfolding totals insert delete
totals-insert n p bs [] u = refl
totals-insert n p bs ((q, cs) ∷ m) u = elim (Bool-cases (str_eq q p)) [
  | inl same ↦
      let gone : delete p m ≡ m = delete_absent p m (rw ((eq_iff q p).0 same) at u.0) in
      rw (same, gone)
  | inr other ↦ rw (other, totals-insert n p bs m u.1) (add_bits_comm cs bs (totals n (delete p m)))
]

-- On numbers that count the other peers, the two loops of `SetPeerBitfield` take the peer's old
-- pieces out and put the new ones in.
raise-lower :
    (old new : List Bool) (ts : List ℕ)
    → length old ≡ length ts
    → length new ≡ length ts
    → raise_counts (some old) new (lower_counts old new (map pos (add_bits old ts)))
      ≡ ok (map pos (add_bits new ts))
unfolding raise_counts lower_counts add_bits ◌+ℤ◌ ◌-ℤ◌
raise-lower [] [] [] p q = refl
raise-lower [] (n ∷ new) [] p q = absurd (omega arith)
raise-lower (o ∷ old) new [] p q = absurd (omega arith)
raise-lower [] new (t ∷ ts) p q = absurd (omega arith)
raise-lower (o ∷ old) [] (t ∷ ts) p q = absurd (omega arith)
raise-lower (o ∷ old) (n ∷ new) (t ∷ ts) p q =
    ground (arith, raise-lower old new ts (omega arith) (omega arith))

raise_new :
    (new : List Bool) (ts : List ℕ)
    → length new ≡ length ts
    → raise_counts none new (lower_counts [] new (map pos ts)) ≡ ok (map pos (add_bits new ts))
unfolding raise_counts lower_counts add_bits ◌+ℤ◌
raise_new [] ts p = refl
raise_new (n ∷ new) [] p = absurd (omega arith)
raise_new (n ∷ new) (t ∷ ts) p = ground (arith, raise_new new ts (omega arith))

pub drop-add :
    (old : List Bool) (ts : List ℕ) → drop_counts old (map pos (add_bits old ts)) ≡ map pos ts
unfolding drop_counts add_bits ◌-ℤ◌
drop-add [] ts = refl
drop-add (o ∷ old) [] = refl
drop-add (o ∷ old) (t ∷ ts) = ground (arith, drop-add old ts)

pub length-read_bits : (bitfield : List ℕ) (n i : ℕ) → length (read_bits bitfield n i) ≡ n
unfolding read_bits
length-read_bits bitfield zero i = refl
length-read_bits bitfield (suc n) i = ap suc (length-read_bits bitfield n (i + 1))

insert-AllSized :
    (n : ℕ) (p : String) (bs : List Bool) (m : List (String × List Bool))
    → length bs ≡ n
    → AllSized n m
    → AllSized n (insert p bs m)
unfolding insert
insert-AllSized n p bs [] h s = (h, tt)
insert-AllSized n p bs ((q, cs) ∷ m) h s = elim (Bool-cases (str_eq q p)) [
  | inl same ↦ rw same (h, s.1)
  | inr other ↦ rw other (s.0, insert-AllSized n p bs m h s.1)
]

pub delete-AllSized :
    (n : ℕ) (p : String) (m : List (String × List Bool)) → AllSized n m → AllSized n (delete p m)
unfolding delete
delete-AllSized n p [] s = tt
delete-AllSized n p ((q, cs) ∷ m) s = elim (Bool-cases (str_eq q p)) [
  | inl same ↦ rw same (delete-AllSized n p m s.1)
  | inr other ↦ rw other (s.0, delete-AllSized n p m s.1)
]

pub lookup-AllSized :
    (n : ℕ) (p : String) (bs : List Bool) (m : List (String × List Bool))
    → AllSized n m
    → lookup p m ≡ some bs
    → length bs ≡ n
unfolding lookup
lookup-AllSized n p bs [] s h = cc
lookup-AllSized n p bs ((q, cs) ∷ m) s h = elim (Bool-cases (str_eq q p)) [
  | inl same ↦ let e : cs ≡ bs = ground (arith, same) in rw (← e) s.0
  | inr other ↦ lookup-AllSized n p bs m s.1 (rw other at h)
]

-- What a change of one peer's pieces has to do to the counts.
pub IsCounted-insert :
    (pm : PieceManager) (p : String) (bs : List Bool) (counts : List ℤ)
    → IsCounted pm
    → length bs ≡ pm.num_pieces
    → counts ≡ map pos (add_bits bs (totals pm.num_pieces (delete p pm.peer_pieces)))
    → IsCounted (record pm { peer_pieces = insert p bs pm.peer_pieces; piece_counts = counts })
IsCounted-insert pm p bs counts v l h = record {
  counted = rw (h, totals-insert pm.num_pieces p bs pm.peer_pieces v.unique);
  sized = insert-AllSized pm.num_pieces p bs pm.peer_pieces l v.sized;
  unique = insert-HasUniqueKeys p bs pm.peer_pieces v.unique;
}

-- the counts that `SetPeerBitfield` computes
pub new_counts :
    (pm : PieceManager) (p : String) (new : List Bool)
    → IsCounted pm
    → length new ≡ pm.num_pieces
    → raise_counts
        (lookup p pm.peer_pieces)
        new
        (lower_counts (or_nil (lookup p pm.peer_pieces)) new pm.piece_counts)
      ≡ ok (map pos (add_bits new (totals pm.num_pieces (delete p pm.peer_pieces))))
new_counts pm p new v l = elim (Option-cases (lookup p pm.peer_pieces)) [
  | inl absent ↦
      rw (absent, v.counted, delete_absent p pm.peer_pieces absent)
        (raise_new new (totals pm.num_pieces pm.peer_pieces)
          (l ∙ sym (length-totals pm.num_pieces pm.peer_pieces)))
  | inr (old, found) ↦
      rw (found, v.counted, totals_known pm.num_pieces p old pm.peer_pieces v.unique found)
        (raise-lower old new (totals pm.num_pieces (delete p pm.peer_pieces))
          (lookup-AllSized pm.num_pieces p old pm.peer_pieces v.sized found
            ∙ sym (length-totals pm.num_pieces (delete p pm.peer_pieces)))
          (l ∙ sym (length-totals pm.num_pieces (delete p pm.peer_pieces))))
]

add_none : (ts : List ℕ) (n : ℕ) → add_bits (replicate n false) ts ≡ ts
unfolding add_bits
add_none [] zero = refl
add_none [] (suc n) = refl
add_none (t ∷ ts) zero = refl
add_none (t ∷ ts) (suc n) = ap (λ r. t ∷ r) (add_none ts n)

-- The counts are those of the other peers and of the pieces that the peer has or would begin with.
pub current_counts :
    (pm : PieceManager) (p : String)
    → IsCounted pm
    → pm.piece_counts
      ≡ map pos (
          add_bits
            (or_none_of pm.num_pieces (lookup p pm.peer_pieces))
            (totals pm.num_pieces (delete p pm.peer_pieces)))
current_counts pm p v = elim (Option-cases (lookup p pm.peer_pieces)) [
  | inl absent ↦ rw (absent, delete_absent p pm.peer_pieces absent, add_none) v.counted
  | inr (old, found) ↦
      rw found (rw (totals_known pm.num_pieces p old pm.peer_pieces v.unique found) at v.counted)
]

pub length-or_none_of :
    (pm : PieceManager) (p : String)
    → IsCounted pm
    → length (or_none_of pm.num_pieces (lookup p pm.peer_pieces)) ≡ pm.num_pieces
length-or_none_of pm p v = elim (Option-cases (lookup p pm.peer_pieces)) [
  | inl absent ↦ rw absent (length-replicate pm.num_pieces false)
  | inr (old, found) ↦ rw found (lookup-AllSized pm.num_pieces p old pm.peer_pieces v.sized found)
]

-- One more piece of the peer raises one count.
pub set_bit :
    (bs : List Bool) (ts : List ℕ) (i : ℕ) (c : ℤ)
    → get_elem? bs i ≡ some false
    → get_elem? (map pos (add_bits bs ts)) i ≡ some c
    → set (map pos (add_bits bs ts)) i (c +ℤ pos 1) ≡ map pos (add_bits (set bs i true) ts)
unfolding add_bits ◌+ℤ◌
set_bit [] ts i c h g = cc
set_bit (b ∷ bs) [] i c h g = cc
set_bit (b ∷ bs) (t ∷ ts) zero c h g = ground arith
set_bit (b ∷ bs) (t ∷ ts) (suc i) c h g = ground (arith, set_bit bs ts i c)

pub length-piece_counts :
    (pm : PieceManager) → IsCounted pm → length pm.piece_counts ≡ pm.num_pieces
length-piece_counts pm v = rw v.counted (
    length-map (totals pm.num_pieces pm.peer_pieces) pos
    ∙ length-totals pm.num_pieces pm.peer_pieces)
