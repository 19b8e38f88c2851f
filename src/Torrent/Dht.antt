-- ===== src/Torrent/Dht.antt =====
-- download/torrent/dht.go: the nodes and peers that the DHT knows, what a packet does to them, and
-- the nodes that are closest to a target. Sending and the timers are not here. A node's address
-- text is the pair of its IP and its port, from which it is printed.
pub mod Nodes
pub mod Closest
mod Examples
use Prim.Native.Nat.{bit_xor}
use mediarr.Common.{
  ltb, ◌==◌, if◌then◌else◌, ==_iff, length, take, drop, replicate, Eq, nat_eq, string_eq, lookup,
  insert, ℕ, zero, suc, ◌+◌, ◌/◌, ◌%◌, ◌≡◌, ◌↔◌, Bool, true, false, not, ◌&&◌, Option, none, some,
  List, [], ◌∷◌, ◌++◌, map, arith,
}
use mediarr.Common.Int.{ℤ, pos, negsuc, sub_ℕ, ltb_ℤ}
use mediarr.Common.Bytes.{Bytes, eq_bytes, eq_bytes_iff, bytes_eq, put_u16, get_u16}
use mediarr.Common.ExchangeSort.{exchange_sort}

abbrev pub node_id_length : ℕ
node_id_length = 20

abbrev pub max_nodes : ℕ
max_nodes = 100

pub record Node : Type 0 where
  pub id : Bytes
  pub ip : Bytes
  pub port : ℕ

pub record Address : Type 0 where
  pub ip : Bytes
  pub port : ℕ

abbrev pub beq_address : Address → Address → Bool
beq_address a b = eq_bytes a.ip b.ip && a.port == b.port

pub beq_address_iff : (a b : Address) → (beq_address a b ≡ true) ↔ (a ≡ b)
beq_address_iff a b = ground (arith, eq_bytes_iff a.ip b.ip, ==_iff a.port b.port)

instance abbrev pub address_eq : Eq Address
address_eq = record { beq = beq_address; beq_iff = beq_address_iff }

unfoldable pub addr : Node → Address
addr n = record { ip = n.ip; port = n.port }

pub record PeerInfo : Type 0 where
  pub ip : Bytes
  pub port : ℤ

pub record DhtClient : Type 0 where
  pub node_id : Bytes
  pub nodes : List (Address × Node)
  pub peers : List (Bytes × List PeerInfo)

-- `_, exists := m[k]`.
abbrev pub exists {ℓ} : {A : Type ℓ} → Option A → Bool
exists none = false
exists (some a) = true

-- One round of `addNodes`.
unfoldable pub add_node : List (Address × Node) → Node → List (Address × Node)
unfolding addr
add_node nodes n =
    if not (exists (lookup (addr n) nodes)) && ltb (length nodes) max_nodes
    then insert (addr n) n nodes
    else nodes

-- The 26 bytes of a node.
unfoldable pub parse_node : Bytes → Node
parse_node chunk = record {
  id = take 20 chunk;
  ip = take 4 (drop 20 chunk);
  port = get_u16 (take 2 (drop 24 chunk));
}

unfoldable pub add_rounds : ℕ → Bytes → List (Address × Node) → List (Address × Node)
unfolding add_node parse_node
add_rounds zero nodes_data nodes = nodes
add_rounds (suc n) nodes_data nodes =
    add_rounds n (drop 26 nodes_data) (add_node nodes (parse_node (take 26 nodes_data)))

unfoldable pub add_nodes : DhtClient → Bytes → DhtClient
unfolding add_rounds
add_nodes d nodes_data =
    if length nodes_data % 26 == 0
    then (record d { nodes = add_rounds (length nodes_data / 26) nodes_data d.nodes })
    else d

unfoldable pub encode_node : Node → Bytes
encode_node n = n.id ++ (n.ip ++ put_u16 n.port)

unfoldable pub encode_nodes : List Node → Bytes
unfolding encode_node
encode_nodes [] = []
encode_nodes (n ∷ ns) = encode_node n ++ encode_nodes ns

unfoldable pub distance : Bytes → Bytes → Bytes
distance (x ∷ xs) (y ∷ ys) = bit_xor x y ∷ distance xs ys
distance _ _ = []

-- `compareDistances`; the arrays have one length, and the clauses for other lists are not reached.
unfoldable pub compare_distances : Bytes → Bytes → ℤ
compare_distances [] [] = pos 0
compare_distances [] (y ∷ ys) = negsuc 0
compare_distances (x ∷ xs) [] = pos 1
compare_distances (x ∷ xs) (y ∷ ys) =
    let rest = compare_distances xs ys in if not (x == y) then sub_ℕ x y else rest

pub record NodeDistance : Type 0 where
  pub node : Node
  pub distance : Bytes

unfoldable pub farther : NodeDistance → NodeDistance → Bool
unfolding compare_distances
farther a b = ltb_ℤ (pos 0) (compare_distances a.distance b.distance)

unfoldable pub node_distance : Bytes → Node → NodeDistance
unfolding distance
node_distance target n = record { node = n; distance = distance n.id target }

abbrev pub node_of : NodeDistance → Node
node_of d = d.node

unfoldable pub known : List (Address × Node) → List Node
known [] = []
known ((a, n) ∷ nodes) = n ∷ known nodes

unfoldable pub find_closest_nodes : DhtClient → Bytes → List Node
unfolding known
find_closest_nodes d target =
    map node_of
      (take max_nodes (exchange_sort farther (map (node_distance target) (known d.nodes))))

-- The nodes of the reply to `find_node`, and to `get_peers` where no peer is known.
unfoldable pub find_node_reply : DhtClient → Bytes → Bytes
unfolding find_closest_nodes encode_nodes
find_node_reply d target = encode_nodes (take 8 (find_closest_nodes d target))

unfoldable pub get_peers_nodes : DhtClient → Bytes → Bytes
unfolding find_closest_nodes encode_nodes
get_peers_nodes d target = encode_nodes (take max_nodes (find_closest_nodes d target))

-- `GetPeers`: a missing entry is the nil slice.
abbrev pub or_no_peers : Option (List PeerInfo) → List PeerInfo
or_no_peers none = []
or_no_peers (some ps) = ps

unfoldable pub get_peers : DhtClient → Bytes → List PeerInfo
get_peers d info_hash = or_no_peers (lookup info_hash d.peers)

-- `handleAnnouncePeer` makes an entry with no peer in it.
unfoldable pub handle_announce_peer : DhtClient → Bytes → DhtClient
handle_announce_peer d info_hash =
    if not (length info_hash == node_id_length)
    then d
    else if exists (lookup info_hash d.peers)
    then d
    else record d { peers = insert info_hash [] d.peers }

-- A peer of a response that has both fields; the others are skipped.
unfoldable pub add_peer :
    Bytes → List (Bytes × List PeerInfo) → PeerInfo → List (Bytes × List PeerInfo)
add_peer info_hash peers p =
    if not (eq_bytes p.ip []) && ltb_ℤ (pos 0) p.port
    then insert info_hash (or_no_peers (lookup info_hash peers) ++ p ∷ []) peers
    else peers

unfoldable pub add_peers :
    Bytes → List PeerInfo → List (Bytes × List PeerInfo) → List (Bytes × List PeerInfo)
unfolding add_peer
add_peers info_hash [] peers = peers
add_peers info_hash (p ∷ ps) peers = add_peers info_hash ps (add_peer info_hash peers p)

-- What `handleResponse` reads of a response: the nodes, the peers and the info hash, where they are
-- there with the right type. A peer's missing IP is the empty text and its missing port is 0.
pub record Response : Type 0 where
  pub nodes : Option Bytes
  pub peers : Option (List PeerInfo)
  pub info_hash : Option Bytes

-- `copy(ih[:], infoHashData)`: 20 bytes, filled with zeros.
unfoldable pub to_hash : Bytes → Bytes
to_hash info_hash = take 20 (info_hash ++ replicate 20 0)

abbrev pub response_nodes : DhtClient → Option Bytes → DhtClient
response_nodes d none = d
response_nodes d (some nodes) = if eq_bytes nodes [] then d else add_nodes d nodes

abbrev pub response_peers : DhtClient → Option (List PeerInfo) → Option Bytes → DhtClient
response_peers d none info_hash = d
response_peers d (some ps) none = d
response_peers d (some ps) (some info_hash) = record d {
  peers = add_peers (to_hash info_hash) ps d.peers;
}

unfoldable pub handle_response : DhtClient → Response → DhtClient
handle_response d r = response_peers (response_nodes d r.nodes) r.peers r.info_hash

-- The packets that change what is known, and what a sequence of them leaves.
pub data Packet : Type 0 where
  response : Response → Packet
  announce_peer : Bytes → Packet

unfoldable pub handle_packets : DhtClient → List Packet → DhtClient
unfolding handle_response handle_announce_peer
handle_packets d [] = d
handle_packets d (response r ∷ ps) = handle_packets (handle_response d r) ps
handle_packets d (announce_peer info_hash ∷ ps) =
    handle_packets (handle_announce_peer d info_hash) ps
