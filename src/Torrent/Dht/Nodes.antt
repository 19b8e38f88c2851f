-- ===== src/Torrent/Dht/Nodes.antt =====
-- download/torrent/dht.go: how the table of nodes grows, and the nodes of a packet read back.
use mediarr.Common.{
  ltb, ◌==◌, Bool-cases, Option-cases, length, drop, length-append, nat_eq, string_eq, lookup,
  insert, ℕ, zero, suc, ◌*◌, ◌/◌, ◌%◌, ◌^◌, ◌≤◌, ◌<◌, ◌≡◌, refl, sym, ap, ◌∙◌, ◌⊎◌, inl, inr, true,
  Option, none, some, List, [], ◌∷◌, ◌++◌, map, append_assoc, append-nil, arith, lookup-insert_ne,
  HasUniqueKeys, insert-HasUniqueKeys, split_append, lookup_conflict, unique_absent, insert_absent,
}
use mediarr.Common.Bytes.{Bytes, eq_bytes, bytes_eq, put_u16, get-put_u16}
use mediarr.Torrent.Dht.{
  max_nodes, Node, Address, address_eq, addr, PeerInfo, DhtClient, add_node, parse_node, add_rounds,
  add_nodes, encode_node, encode_nodes, handle_announce_peer, Response, response_nodes,
  response_peers, handle_response, Packet, response, announce_peer, handle_packets,
}

-- The table is never above its limit, and has one node for an address.
abbrev pub IsTable : List (Address × Node) → Type 0
IsTable nodes = HasUniqueKeys nodes × (length nodes ≤ max_nodes)

length-insert_absent :
    (k : Address) (n : Node) (nodes : List (Address × Node))
    → lookup k nodes ≡ none
    → length (insert k n nodes) ≡ suc (length nodes)
unfolding insert lookup
length-insert_absent k n [] h = refl
length-insert_absent k n ((j, m) ∷ nodes) h = ground (arith, length-insert_absent k n nodes)

response_peers-nodes :
    (d : DhtClient) (ps : Option (List PeerInfo)) (info_hash : Option Bytes)
    → (response_peers d ps info_hash).nodes ≡ d.nodes
response_peers-nodes d none info_hash = refl
response_peers-nodes d (some ps) none = refl
response_peers-nodes d (some ps) (some info_hash) = refl

handle_announce_peer-nodes :
    (d : DhtClient) (info_hash : Bytes) → (handle_announce_peer d info_hash).nodes ≡ d.nodes
unfolding handle_announce_peer
handle_announce_peer-nodes d info_hash = ground arith

add_node-IsTable :
    (nodes : List (Address × Node)) (n : Node) → IsTable nodes → IsTable (add_node nodes n)
unfolding add_node
add_node-IsTable nodes n (u, b) = elim (Option-cases (lookup (addr n) nodes)) [
  | inl e ↦ elim (Bool-cases (ltb (length nodes) max_nodes)) [
    | inl l ↦
        rw (e, l)
          (
            insert-HasUniqueKeys (addr n) n nodes u,
            ground (arith, length-insert_absent (addr n) n nodes e),
          )
    | inr l ↦ rw (e, l) (u, b)
  ]
  | inr (m, e) ↦ rw e (u, b)
]

-- A node that is there stays as it is.
add_node_keeps :
    (nodes : List (Address × Node)) (n : Node) (a : Address) {m : Node}
    → lookup a nodes ≡ some m
    → lookup a (add_node nodes n) ≡ some m
unfolding add_node
add_node_keeps nodes n a h = elim (Option-cases (lookup (addr n) nodes)) [
  | inl e ↦ elim (Bool-cases (ltb (length nodes) max_nodes)) [
    | inl l ↦ rw (e, l) (lookup-insert_ne (addr n) a n nodes (λ p. lookup_conflict nodes p e h) ∙ h)
    | inr l ↦ rw (e, l) h
  ]
  | inr (m, e) ↦ rw e h
]

module _ {ℓ} (P : List (Address × Node) → Type ℓ)
    (step : (nodes : List (Address × Node)) (n : Node) → P nodes → P (add_node nodes n)) where
  add_rounds_keeps :
      (k : ℕ) (nodes_data : Bytes) (nodes : List (Address × Node))
      → P nodes
      → P (add_rounds k nodes_data nodes)
  unfolding add_rounds
  add_rounds_keeps zero nodes_data nodes p = p
  add_rounds_keeps (suc k) nodes_data nodes p =
      add_rounds_keeps k (drop 26 nodes_data) _ (step nodes _ p)

  add_nodes_keeps :
      (d : DhtClient) (nodes_data : Bytes) → P d.nodes → P ((add_nodes d nodes_data).nodes)
  unfolding add_nodes
  add_nodes_keeps d nodes_data p = elim (Bool-cases (length nodes_data % 26 == 0)) [
    | inl e ↦ rw e (add_rounds_keeps (length nodes_data / 26) nodes_data d.nodes p)
    | inr e ↦ rw e p
  ]

  response_nodes_keeps :
      (d : DhtClient) (nodes : Option Bytes) → P d.nodes → P ((response_nodes d nodes).nodes)
  response_nodes_keeps d none p = p
  response_nodes_keeps d (some nodes) p = elim (Bool-cases (eq_bytes nodes [])) [
    | inl e ↦ rw e p
    | inr e ↦ rw e (add_nodes_keeps d nodes p)
  ]

  handle_response_keeps :
      (d : DhtClient) (r : Response) → P d.nodes → P ((handle_response d r).nodes)
  unfolding handle_response
  handle_response_keeps d r p =
      rw (response_peers-nodes (response_nodes d r.nodes) r.peers r.info_hash)
        (response_nodes_keeps d r.nodes p)

  handle_packets_keeps :
      (ps : List Packet) (d : DhtClient) → P d.nodes → P ((handle_packets d ps).nodes)
  unfolding handle_packets
  handle_packets_keeps [] d p = p
  handle_packets_keeps (response r ∷ ps) d p =
      handle_packets_keeps ps (handle_response d r) (handle_response_keeps d r p)
  handle_packets_keeps (announce_peer info_hash ∷ ps) d p =
      handle_packets_keeps ps (handle_announce_peer d info_hash)
        (rw (handle_announce_peer-nodes d info_hash) p)

-- Whatever packets arrive in whatever order, a table that has at most `MaxNodes` nodes and not two of
-- one address stays so, and a node that is in the table stays there as it is.
pub handle_packets-IsTable :
    (d : DhtClient) (ps : List Packet) (a : Address)
    → IsTable d.nodes
    → IsTable ((handle_packets d ps).nodes)
      × ((lookup a d.nodes ≡ none) ⊎ (lookup a ((handle_packets d ps).nodes) ≡ lookup a d.nodes))
handle_packets-IsTable d ps a t = (
  handle_packets_keeps IsTable add_node-IsTable ps d t,
  elim (Option-cases (lookup a d.nodes)) [
    | inl e ↦ inl e
    | inr (n, e) ↦ inr (
        handle_packets_keeps (λ nodes. lookup a nodes ≡ some n)
          (λ nodes k. add_node_keeps nodes k a) ps d e
        ∙ sym e)
  ],
)

-- The nodes that fill the 26 bytes: an IPv4 address and a port of 16 bits.
abbrev pub AllCompact : List Node → Type 0
AllCompact [] = Unit
AllCompact (n ∷ ns) = (length n.id ≡ 20) × (length n.ip ≡ 4) × (n.port < 2 ^ 16) × AllCompact ns

unfoldable pub add_each : List (Address × Node) → List Node → List (Address × Node)
add_each nodes [] = nodes
add_each nodes (n ∷ ns) = add_each (add_node nodes n) ns

length-encode_node : (n : Node) → length n.id ≡ 20 → length n.ip ≡ 4 → length (encode_node n) ≡ 26
unfolding encode_node
length-encode_node n h k =
    rw (length-append n.id (n.ip ++ put_u16 n.port), length-append n.ip (put_u16 n.port), h, k) refl

length-encode_nodes : (ns : List Node) → AllCompact ns → length (encode_nodes ns) ≡ 26 * length ns
unfolding encode_nodes
length-encode_nodes [] c = refl
length-encode_nodes (n ∷ ns) (h, k, _, c) = omega (
  arith,
  length-append (encode_node n) (encode_nodes ns),
  length-encode_node n h k,
  length-encode_nodes ns c,
)

parse-encode_node :
    (n : Node)
    → length n.id ≡ 20
    → length n.ip ≡ 4
    → n.port < 2 ^ 16
    → parse_node (encode_node n) ≡ n
unfolding parse_node encode_node
parse-encode_node n h k l =
    let (a, b) = split_append 20 n.id (n.ip ++ put_u16 n.port) h in
    let (c, e) = split_append 4 n.ip (put_u16 n.port) k in
    let f =
      split_append 24 (n.id ++ n.ip) (put_u16 n.port) (rw (length-append n.id n.ip, h, k) refl) in
    let g : drop 24 (n.id ++ (n.ip ++ put_u16 n.port)) ≡ put_u16 n.port =
      rw (append_assoc n.id n.ip (put_u16 n.port)) at f.1 in
    rw (a, b, c, g) (ap (λ p. record n { port = p }) (get-put_u16 n.port l))

add_rounds_chunk :
    (k : ℕ) (chunk rest : Bytes) (nodes : List (Address × Node))
    → length chunk ≡ 26
    → add_rounds (suc k) (chunk ++ rest) nodes
      ≡ add_rounds k rest (add_node nodes (parse_node chunk))
unfolding add_rounds
add_rounds_chunk k chunk rest nodes h = let (a, b) = split_append 26 chunk rest h in rw (a, b) refl

add_rounds-encode_nodes :
    (ns : List Node) (nodes : List (Address × Node))
    → AllCompact ns
    → add_rounds (length ns) (encode_nodes ns) nodes ≡ add_each nodes ns
unfolding encode_nodes add_each
add_rounds-encode_nodes [] nodes c = unfold add_rounds in refl
add_rounds-encode_nodes (n ∷ ns) nodes (h, k, l, c) =
    add_rounds_chunk (length ns) (encode_node n) (encode_nodes ns) nodes (length-encode_node n h k)
    ∙ rw (parse-encode_node n h k l) (add_rounds-encode_nodes ns (add_node nodes n) c)

abbrev pub entry : Node → Address × Node
entry n = (addr n, n)

add_node_fresh :
    (nodes : List (Address × Node)) (n : Node)
    → lookup (addr n) nodes ≡ none
    → length nodes < max_nodes
    → add_node nodes n ≡ nodes ++ entry n ∷ []
unfolding add_node
add_node_fresh nodes n h l =
    let e : ltb (length nodes) max_nodes ≡ true = ground arith in
    rw (h, e) (insert_absent (addr n) n nodes h)

add_each_fresh :
    (ns : List Node) (nodes : List (Address × Node))
    → HasUniqueKeys (nodes ++ map entry ns)
    → length (nodes ++ map entry ns) ≤ max_nodes
    → add_each nodes ns ≡ nodes ++ map entry ns
unfolding add_each
add_each_fresh [] nodes u b = sym (append-nil nodes)
add_each_fresh (n ∷ ns) nodes u b =
    let h = unique_absent (addr n) n nodes (map entry ns) u in
    let a = append_assoc nodes (entry n ∷ []) (map entry ns) in
    rw (add_node_fresh nodes n h (omega (arith, length-append nodes (entry n ∷ map entry ns))))
      (add_each_fresh ns (nodes ++ entry n ∷ []) (rw a u) (rw a b) ∙ a)

-- A client that reads the encoding of some nodes has exactly these nodes, in their order, behind the
-- ones that it had: if each has 20 bytes of ID, 4 bytes of IP and a port of 16 bits, no two of all
-- have one address, and all together are no more than `MaxNodes`.
pub add_nodes-encode_nodes :
    (d : DhtClient) (ns : List Node)
    → AllCompact ns
    → HasUniqueKeys (d.nodes ++ map entry ns)
    → length (d.nodes ++ map entry ns) ≤ max_nodes
    → add_nodes d (encode_nodes ns) ≡ record d { nodes = d.nodes ++ map entry ns }
unfolding add_nodes
add_nodes-encode_nodes d ns c u b =
    let l = length-encode_nodes ns c in
    let m : (length (encode_nodes ns) % 26 == 0) ≡ true = ground arith in
    let q : length (encode_nodes ns) / 26 ≡ length ns = omega arith in
    rw (m, q)
      (ap (λ nodes. record d { nodes = nodes })
        (add_rounds-encode_nodes ns d.nodes c ∙ add_each_fresh ns d.nodes u b))
