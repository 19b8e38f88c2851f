-- ===== src/Torrent/Metadata/Collected.antt =====
-- The pieces that the manager has collected and those that it misses.
use mediarr.Common.{
  ltb, Bool-cases, length, get_elem?, set, replicate, length-set, get_elem?-set_ne,
  length-replicate, nat_eq, string_eq, ℕ, zero, suc, ◌+◌, ◌/◌, ◌^◌, ◌≤◌, ◌<◌, ◌≡◌, refl, sym, ap,
  ◌∙◌, ◌≢◌, ◌↔◌, inl, inr, Bool, true, false, ◌||◌, Option, none, some, List, [], ◌∷◌, ◌++◌, arith,
  get_elem?_total, get_elem?_fits,
}
use mediarr.Common.Int.{ℤ, pos, pos_part, ◌+ℤ◌, ◌-ℤ◌, ltb_ℤ, leb_ℤ, int64, int64_fits}
use mediarr.Common.Bytes.{Bytes, bytes_eq}
use mediarr.Common.Result.{Result, ok, err, panic, ◌>>=◌}
use mediarr.Torrent.Metadata.{
  metadata_piece_size, MetadataManager, new_metadata_manager, quotient, set_size, all_received,
  collect, store_piece, is_complete, missing_from, missing_pieces,
}

-- What the manager keeps while a torrent's metadata is collected.
abbrev pub IsCollecting : MetadataManager → Type 0
IsCollecting mm =
    (mm.total_pieces ≡ pos (length mm.received_pieces))
    × (0 < length mm.received_pieces)
    × (mm.completed ≡ all_received mm.received_pieces)

all_received_iff : (i : ℕ) (rs : List Bool) → (all_received rs ≡ true) ↔ (missing_from i rs ≡ [])
unfolding all_received missing_from
all_received_iff i [] = ground arith
all_received_iff i (r ∷ rs) = ground (arith, all_received_iff (suc i) rs)

not_all_received : (rs : List Bool) (i : ℕ) → get_elem? rs i ≡ some false → all_received rs ≡ false
unfolding all_received
not_all_received [] i h = cc
not_all_received (r ∷ rs) zero h = ground arith
not_all_received (r ∷ rs) (suc i) h = ground (arith, not_all_received rs i h)

none_received : (n : ℕ) → 0 < n → all_received (replicate n false) ≡ false
unfolding all_received
none_received zero h = absurd (omega arith)
none_received (suc n) h = refl

abbrev pub Delivery : Type 0
Delivery = ℤ × Bytes

-- The deliveries, one after the other; a refused piece leaves the manager as it is.
unfoldable pub after : MetadataManager → Result MetadataManager → Result MetadataManager
after mm (ok mm') = ok mm'
after mm (err e) = ok mm
after mm panic = panic

unfoldable pub deliver_all : MetadataManager → List Delivery → Result MetadataManager
unfolding after
deliver_all mm [] = ok mm
deliver_all mm ((p, payload) ∷ ds) =
    after mm (store_piece mm p payload) >>= λ mm'. deliver_all mm' ds

collect-IsCollecting :
    (mm : MetadataManager) (r : Option Bool) (piece : ℕ) (payload : Bytes)
    → IsCollecting mm
    → get_elem? mm.received_pieces piece ≡ r
    → piece < length mm.received_pieces
    → (mm' : MetadataManager) × (collect mm r piece payload ≡ ok mm') × IsCollecting mm'
unfolding collect
collect-IsCollecting mm none piece payload h e fits =
    let (b, found) = get_elem?_total mm.received_pieces piece fits in absurd cc
collect-IsCollecting mm (some true) piece payload h e fits = (mm, refl, h)
collect-IsCollecting mm (some false) piece payload (t, l, c) e fits =
    let same = length-set mm.received_pieces piece true in
    let open_piece = not_all_received mm.received_pieces piece e in
    (_, refl, (rw same t, rw same l, ground arith))

store_piece-IsCollecting :
    (mm : MetadataManager) (piece : ℤ) (payload : Bytes)
    → IsCollecting mm
    → (mm' : MetadataManager) × (after mm (store_piece mm piece payload) ≡ ok mm')
      × IsCollecting mm'
unfolding store_piece after
store_piece-IsCollecting mm piece payload h =
    elim (Bool-cases (ltb_ℤ piece (pos 0) || leb_ℤ mm.total_pieces piece)) [
      | inl out ↦ rw out (mm, refl, h)
      | inr within ↦ rw within (
          let fits : pos_part piece < length mm.received_pieces = ground (arith, h) in
          let (mm', e, keeps) =
            collect-IsCollecting mm (get_elem? mm.received_pieces (pos_part piece)) (pos_part piece)
              payload h refl fits in
          (mm', rw e refl, keeps))
    ]

deliver_all-IsCollecting :
    (mm : MetadataManager) (ds : List Delivery)
    → IsCollecting mm
    → (mm' : MetadataManager) × (deliver_all mm ds ≡ ok mm') × IsCollecting mm'
unfolding deliver_all
deliver_all-IsCollecting mm [] h = (mm, refl, h)
deliver_all-IsCollecting mm ((p, payload) ∷ ds) h =
    let (mm1, e, h1) = store_piece-IsCollecting mm p payload h in
    let (mm2, e2, h2) = deliver_all-IsCollecting mm1 ds h1 in (mm2, rw e e2, h2)

rounded_up :
    (size : ℕ)
    → size < 2 ^ 62
    → quotient (int64 (int64 (pos size +ℤ pos metadata_piece_size) -ℤ pos 1)) metadata_piece_size
      ≡ pos ((size + 16383) / 16384)
unfolding ◌+ℤ◌ ◌-ℤ◌
rounded_up size small =
    let sum : pos size +ℤ pos metadata_piece_size ≡ pos (size + metadata_piece_size) =
      ground arith in
    let less : pos (size + metadata_piece_size) -ℤ pos 1 ≡ pos (size + 16383) = ground arith in
    rw sum (
      rw (int64_fits (pos (size + metadata_piece_size)) (omega arith))
        (rw less (rw (int64_fits (pos (size + 16383)) (omega arith)) refl)))

set_size-IsCollecting :
    (info_hash : Bytes) (size : ℕ)
    → 0 < size
    → size ≤ 2 ^ 48
    → (mm : MetadataManager) × (set_size (new_metadata_manager info_hash) (pos size) ≡ ok mm)
      × IsCollecting mm
unfolding set_size new_metadata_manager
set_size-IsCollecting info_hash size h small =
    let total = (size + 16383) / 16384 in
    let some_pieces : (ltb (total + 0) 0 || ltb (2 ^ 48 + 0) (total + 0)) ≡ false = ground arith in
    let positive : (ltb (size + 0) 0 || ltb (2 ^ 48 + 0) (size + 0)) ≡ false = ground arith in
    rw (rounded_up size (omega arith)) (
      rw some_pieces (
        rw positive (
          _,
          refl,
          (
            ap pos (sym (length-replicate ((size + 16383) / 16384) false)),
            rw (length-replicate ((size + 16383) / 16384) false) (omega arith),
            sym (none_received ((size + 16383) / 16384) (omega arith)),
          ),
        )))

-- After the size of the metadata is announced, positive and at most 2 ^ 48, which is what `make` can
-- give, and any sequence of pieces is delivered, repeated and refused ones included, the manager has not panicked, and it is
-- complete exactly when it lists no missing piece.
pub is_complete_iff :
    (info_hash : Bytes) (size : ℕ) (ds : List Delivery)
    → 0 < size
    → size ≤ 2 ^ 48
    → (mm : MetadataManager) × ((set_size (new_metadata_manager info_hash) (pos size) >>= λ mm'.
          deliver_all mm' ds)
        ≡ ok mm)
      × ((is_complete mm ≡ true) ↔ (missing_pieces mm ≡ []))
unfolding is_complete missing_pieces
is_complete_iff info_hash size ds h small =
    let (mm, e, keeps) = set_size-IsCollecting info_hash size h small in
    let (mm', e', (_, _, c)) = deliver_all-IsCollecting mm ds keeps in
    (mm', rw e e', rw c (all_received_iff 0 mm'.received_pieces))

store_piece_missing :
    (mm : MetadataManager) (p : ℕ) (a : Bytes)
    → mm.total_pieces ≡ pos (length mm.received_pieces)
    → get_elem? mm.received_pieces p ≡ some false
    → store_piece mm (pos p) a ≡ collect mm (some false) p a
unfolding store_piece
store_piece_missing mm p a t h =
    let fits : p < length mm.received_pieces = get_elem?_fits mm.received_pieces p h in
    let within : (ltb_ℤ (pos p) (pos 0) || leb_ℤ (mm.total_pieces) (pos p)) ≡ false =
      ground arith in
    rw within (rw h refl)

-- Two different missing pieces are put together in the order in which they arrive, whatever their
-- places in the metadata are.
pub store_piece_order :
    (mm : MetadataManager) (p q : ℕ) (a b : Bytes)
    → p ≢ q
    → mm.total_pieces ≡ pos (length mm.received_pieces)
    → get_elem? mm.received_pieces p ≡ some false
    → get_elem? mm.received_pieces q ≡ some false
    → (mm' : MetadataManager) × ((store_piece mm (pos p) a >>= λ mm1. store_piece mm1 (pos q) b)
        ≡ ok mm')
      × (mm'.info_bytes ≡ (mm.info_bytes ++ a) ++ b)
unfolding collect
store_piece_order mm p q a b differ t hp hq =
    let received = set mm.received_pieces p true in
    let next : MetadataManager = record mm {
      received_pieces = received;
      info_bytes = mm.info_bytes ++ a;
      completed = mm.completed || all_received received;
    } in
    let t' : next.total_pieces ≡ pos (length next.received_pieces) =
      rw (length-set mm.received_pieces p true) t in
    rw (store_piece_missing mm p a t hp) (
      rw (store_piece_missing next q b t' (get_elem?-set_ne mm.received_pieces true differ ∙ hq))
        (_, refl, refl))
