-- ===== src/Torrent/Pieces/Blocks.antt =====
-- The blocks that `newPiece` cuts a piece into.
use Prim.Native.Nat.{min}
use mediarr.Common.{length, nat_eq, string_eq, ℕ, ◌+◌, ◌*◌, ◌≤◌, ◌<◌, ◌≡◌, List, [], ◌∷◌, arith}
use mediarr.Torrent.Pieces.{block_size, Block, new_block}

-- The blocks lie one behind the other from `start` to `end`, each of 1 to `BlockSize` bytes.
abbrev pub Tiles : ℕ → ℕ → List Block → Type 0
Tiles start end [] = start ≡ end
Tiles start end (b ∷ blocks) =
    (b.offset ≡ start)
    × (0 < b.length)
    × (b.length ≤ block_size)
    × Tiles (start + b.length) end blocks

pub block_facts :
    (index length i : ℕ)
    → i * block_size < length
    → ((new_block index length i).offset ≡ i * block_size)
      × (0 < (new_block index length i).length)
      × ((new_block index length i).length ≤ block_size)
      × (i * block_size + (new_block index length i).length ≡ min length ((i + 1) * block_size))
unfolding new_block
block_facts index length i h = ground arith
