-- ===== src/Torrent/Pieces/Rarest/Choice.antt =====
-- Which piece `RarestPiece` chooses.
use mediarr.Common.{
  get_or, nat_eq, string_eq, lookup, ℕ, ◌≤◌, ◌<◌, String, ◌≡◌, Bool, true, false, List, [], ◌∷◌,
}
use mediarr.Common.Int.{ℤ, pos, negsuc}
use mediarr.Common.Result.{Result, ok, err, panic}
use mediarr.Torrent.Pieces.{PieceManager}
use mediarr.Torrent.Pieces.Peers.Counts.{totals}
use mediarr.Torrent.Pieces.Rarest.{is_candidate}

abbrev pub is_true : Result Bool → Bool
is_true (ok b) = b
is_true (err e) = false
is_true panic = false

-- The candidates among the first `i` pieces, seen from the variables of the loop: none yet, or the
-- first of those with the fewest peers stands at the head of the list.
data IsBest (e : ℕ → Bool) (c : ℕ → ℕ) (i : ℕ) (min_count : ℤ) (candidates : List ℕ) : Type 0 where
  nothing :
      candidates ≡ []
      → min_count ≡ negsuc 0
      → ((j : ℕ) → j < i → e j ≡ false)
      → IsBest e c i min_count candidates
  best :
      (k : ℕ) (rest : List ℕ)
      → candidates ≡ k ∷ rest
      → min_count ≡ pos (c k)
      → k < i
      → e k ≡ true
      → ((j : ℕ) → j < i → e j ≡ true → (c k ≤ c j) × (j < k → c k < c j))
      → IsBest e c i min_count candidates

-- The number of peers that have piece `j`.
abbrev pub peers_with : PieceManager → ℕ → ℕ
peers_with pm j = get_or (totals pm.num_pieces pm.peer_pieces) j 0

-- Piece `k` is a choice for peer `p` that no other candidate beats: no candidate has fewer peers,
-- and none before `k` has as few.
pub record IsRarest (pm : PieceManager) (p : String) (k : ℕ) : Type 0 where
  pub in_range : k < pm.num_pieces
  pub candidate : is_candidate pm (lookup p pm.peer_pieces) k ≡ ok true
  pub fewest :
      (j : ℕ)
      → j < pm.num_pieces
      → is_candidate pm (lookup p pm.peer_pieces) j ≡ ok true
      → (peers_with pm k ≤ peers_with pm j) × (j < k → peers_with pm k < peers_with pm j)
