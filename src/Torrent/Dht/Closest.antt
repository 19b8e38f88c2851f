-- ===== src/Torrent/Dht/Closest.antt =====
-- download/torrent/dht.go: the order of the nodes that `findClosestNodes` gives.
use mathlib.Core.List.{Perm}
use mathlib.Core.Path.{fun_ext}
use mediarr.Common.ExchangeSort.{
  exchange_sort, IsSorted, length-exchange_sort, exchange_sort-perm, exchange_sort-IsSorted,
  exchange_sort-map, on-IsOrder,
}
use mediarr.Torrent.Dht.{
  max_nodes, Node, Address, address_eq, DhtClient, distance, compare_distances, farther,
  node_distance, node_of, known, find_closest_nodes,
}
use mediarr.Common.{
  length, length-map, nat_eq, string_eq, suc, ◌≤◌, ◌≡◌, refl, ap, Bool, List, [], ◌∷◌, map, arith,
  take_all, take_all,
}
use mediarr.Common.Int.{pos, ltb_ℤ}
use mediarr.Common.Bytes.{Bytes, bytes_eq, greater_bytes, greater_bytes-IsOrder}

-- `compareDistances` is above 0 where the first distance is the greater one.
ltb-compare_distances : (a b : Bytes) → ltb_ℤ (pos 0) (compare_distances a b) ≡ greater_bytes a b
unfolding compare_distances greater_bytes
ltb-compare_distances [] [] = refl
ltb-compare_distances [] (y ∷ ys) = refl
ltb-compare_distances (x ∷ xs) [] = refl
ltb-compare_distances (x ∷ xs) (y ∷ ys) = ground (arith, ltb-compare_distances xs ys)

-- The first node is farther from the target than the second.
unfoldable pub is_farther : Bytes → Node → Node → Bool
unfolding farther node_distance
is_farther target a b = farther (node_distance target a) (node_distance target b)

is_farther_lem :
    (target : Bytes) (a b : Node)
    → is_farther target a b ≡ greater_bytes (distance a.id target) (distance b.id target)
unfolding is_farther farther node_distance
is_farther_lem target a b = ltb-compare_distances (distance a.id target) (distance b.id target)

map-node_distance :
    (target : Bytes) (ns : List Node) → map node_of (map (node_distance target) ns) ≡ ns
unfolding node_distance
map-node_distance target [] = refl
map-node_distance target (n ∷ ns) = ap (λ r. n ∷ r) (map-node_distance target ns)

length-known : (nodes : List (Address × Node)) → length (known nodes) ≡ length nodes
unfolding known
length-known [] = refl
length-known ((a, n) ∷ nodes) = ap suc (length-known nodes)

-- The order of the distances to the target, as Go compares byte strings.
abbrev pub by_distance : Bytes → Node → Node → Bool
by_distance target a b = greater_bytes (distance a.id target) (distance b.id target)

find_closest_nodes_lem :
    (d : DhtClient) (target : Bytes)
    → length d.nodes ≤ max_nodes
    → find_closest_nodes d target ≡ exchange_sort (by_distance target) (known d.nodes)
unfolding find_closest_nodes
find_closest_nodes_lem d target b =
    let ns = known d.nodes in
    let e : exchange_sort (is_farther target) ns ≡ exchange_sort (by_distance target) ns =
      ap (λ f. exchange_sort f ns) (fun_ext (λ a. fun_ext (λ c. is_farther_lem target a c))) in
    let m : exchange_sort farther (map (node_distance target) ns)
        ≡ map (node_distance target) (exchange_sort (is_farther target) ns) =
      unfold is_farther in exchange_sort-map farther (node_distance target) ns in
    let s = exchange_sort (by_distance target) ns in
    let l : length (map (node_distance target) s) ≤ max_nodes =
      rw
        (
          length-map s (node_distance target),
          length-exchange_sort (by_distance target) ns,
          length-known d.nodes,
        )
        b in
    rw (m, e, take_all max_nodes (map (node_distance target) s) l) (map-node_distance target s)

-- Where the table has no more than `MaxNodes` nodes, `findClosestNodes` gives every node of it once
-- for each place where the table has it, and none that is farther from the target, by the XOR of the
-- IDs read as a byte string, stands before one that is closer.
pub find_closest_nodes-IsSorted :
    (d : DhtClient) (target : Bytes)
    → length d.nodes ≤ max_nodes
    → Perm (known d.nodes) (find_closest_nodes d target)
      × IsSorted (by_distance target) (find_closest_nodes d target)
find_closest_nodes-IsSorted d target b = rw (find_closest_nodes_lem d target b) (
  exchange_sort-perm (by_distance target) (known d.nodes),
  exchange_sort-IsSorted (by_distance target)
      (on-IsOrder greater_bytes (λ n. distance n.id target) greater_bytes-IsOrder) (known d.nodes),
)
