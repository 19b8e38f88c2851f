-- ===== src/Torrent/Dht/Examples.antt =====
-- download/torrent/dht.go: three nodes, a response with two of them, and the closest to a target.
use mathlib.Core.List.{Perm}
use mediarr.Common.{
  replicate, nat_eq, string_eq, lookup, insert, ℕ, ◌≡◌, refl, ◌⊎◌, none, some, List, [], ◌∷◌, ◌++◌,
  map, arith,
}
use mediarr.Common.Int.{pos}
use mediarr.Common.Bytes.{Bytes, bytes_eq}
use mediarr.Common.ExchangeSort.{exchange_sort, IsSorted}
use mediarr.Torrent.Dht.{
  Node, address_eq, addr, DhtClient, add_nodes, encode_nodes, farther, node_distance, known,
  find_closest_nodes, get_peers, add_peers, to_hash, Packet, response, announce_peer,
  handle_packets,
}
use mediarr.Torrent.Dht.Nodes.{IsTable, handle_packets-IsTable, entry, add_nodes-encode_nodes}
use mediarr.Torrent.Dht.Closest.{by_distance, find_closest_nodes-IsSorted}

abbrev id_of : ℕ → Bytes
id_of x = x ∷ replicate 19 7

abbrev near : Node
near = record { id = id_of 1; ip = 10 ∷ 0 ∷ 0 ∷ 1 ∷ []; port = 6881 }

abbrev middle : Node
middle = record { id = id_of 6; ip = 10 ∷ 0 ∷ 0 ∷ 1 ∷ []; port = 6882 }

abbrev far : Node
far = record { id = id_of 200; ip = 10 ∷ 0 ∷ 0 ∷ 3 ∷ []; port = 51413 }

abbrev client : DhtClient
client = record { node_id = id_of 5; nodes = entry far ∷ []; peers = [] }

abbrev client_IsTable : IsTable client.nodes
unfolding lookup
client_IsTable = ((refl, tt), omega arith)

abbrev packets : List Packet
packets =
    response (record {
      nodes = some (encode_nodes (middle ∷ far ∷ near ∷ []));
      peers = some (record { ip = 49 ∷ []; port = pos 80 } ∷ []);
      info_hash = some (id_of 9);
    })
    ∷ announce_peer (id_of 8)
    ∷ []

handled : known ((handle_packets client packets).nodes) ≡ far ∷ middle ∷ near ∷ []
unfolding known handle_packets lookup add_peers insert encode_nodes add_nodes to_hash
handled = refl

peers_found :
    get_peers (handle_packets client packets) (id_of 9)
    ≡ record { ip = 49 ∷ []; port = pos 80 } ∷ []
unfolding get_peers lookup handle_packets add_peers insert encode_nodes add_nodes to_hash
peers_found = refl

handle_packets-IsTable_example :
    IsTable ((handle_packets client packets).nodes)
    × ((lookup (addr far) client.nodes ≡ none)
        ⊎ (lookup (addr far) ((handle_packets client packets).nodes)
            ≡ lookup (addr far) client.nodes))
handle_packets-IsTable_example = handle_packets-IsTable client packets (addr far) client_IsTable

add_nodes-encode_nodes_example :
    add_nodes client (encode_nodes (middle ∷ near ∷ []))
    ≡ record client { nodes = client.nodes ++ map entry (middle ∷ near ∷ []) }
unfolding addr
add_nodes-encode_nodes_example =
    add_nodes-encode_nodes client (middle ∷ near ∷ [])
      (refl, refl, omega arith, (refl, refl, omega arith, tt))
      (unfold lookup in (refl, (refl, (refl, tt)))) (omega arith)

abbrev full : DhtClient
full = record client { nodes = map entry (far ∷ near ∷ middle ∷ []) }

closest : find_closest_nodes full (id_of 5) ≡ middle ∷ near ∷ far ∷ []
unfolding find_closest_nodes exchange_sort farther node_distance
closest = refl

find_closest_nodes-IsSorted_example :
    Perm (known full.nodes) (find_closest_nodes full (id_of 5))
    × IsSorted (by_distance (id_of 5)) (find_closest_nodes full (id_of 5))
find_closest_nodes-IsSorted_example = find_closest_nodes-IsSorted full (id_of 5) (omega arith)
