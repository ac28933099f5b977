-- ===== src/Tests/Joins.antt =====
-- A ring of two nodes that another node asks for a place.
use distributed_hash_table.Prelude.{
  inl, length, ◌<◌, ◌≤◌, ◌≡◌, refl, List, [], ◌∷◌, ◌++◌, none, some, ok, arith, All,
}
use distributed_hash_table.Pdu.SocketAddr.{v4}
use distributed_hash_table.Pdu.NetJoin
use distributed_hash_table.Pdu.NetJoin.{NetJoinPdu}
use distributed_hash_table.Pdu.Message.{net_join, to_bytes, IsWire}
use distributed_hash_table.Node.Types.{World, q6, q8, q13}
use distributed_hash_table.Dht.Asking.{place, span, Listens}
use distributed_hash_table.Dht.Seeking.{found, seek, places, finds_widest}
use distributed_hash_table.Pdu.Text.{Text}
use distributed_hash_table.Pdu.ValInsert
use distributed_hash_table.Socket.Buffer.{buffer_size}
use distributed_hash_table.Socket.Buffer.Drain.{concat}
use distributed_hash_table.Node.Entry.{hash_ssn}
use distributed_hash_table.Node.Util.{halves}
use distributed_hash_table.Node.Joining.{handed_down}
use distributed_hash_table.Dht.Rounds.{IsReady, advance, hop, messages_to}
use distributed_hash_table.Dht.Routing.{table}
use distributed_hash_table.Dht.Heir.{inserts}
use distributed_hash_table.Dht.Joiner.{IsJoining, brought}
use distributed_hash_table.Dht.Sharing.{share, welcome, IsSplitting, join_shares}
use distributed_hash_table.Tests.Samples.{
  number, name, email, entry, next, previous, client_addr, node_in, world_of,
}

abbrev first : World
first = world_of (node_in q6 (0, 99) none [])

-- The second node has the wider range.
abbrev second : World
second = world_of (record (node_in q6 (100, 255) none []) { listen_socket = v4 6 8005 })

first-Listens : Listens first
first-Listens = record {
  ready = record {
    state = refl;
    should_close = refl;
    udp_wrapper = refl;
    predecessor_wrapper = refl;
    reachable = λ a. refl;
    next = next;
    successor = refl;
    previous = previous;
    predecessor = refl;
  };
  ip = 4;
  port = 8003;
  listen_socket = refl;
  ip_fits = omega arith;
  port_fits = omega arith;
}

second-Listens : Listens second
second-Listens = record {
  ready = record {
    state = refl;
    should_close = refl;
    udp_wrapper = refl;
    predecessor_wrapper = refl;
    reachable = λ a. refl;
    next = next;
    successor = refl;
    previous = previous;
    predecessor = refl;
  };
  ip = 6;
  port = 8005;
  listen_socket = refl;
  ip_fits = omega arith;
  port_fits = omega arith;
}

abbrev pair : List World
pair = first ∷ second ∷ []

finds_widest_example :
    (before after : List World) × (u : World) × (p : NetJoinPdu) × (seek
        (net_join (NetJoin.new 5 8004 0 0 0))
        client_addr
        pair
      ≡ ok (found before u after))
    × (places (before ++ u ∷ after) ≡ places pair)
    × (u.node.state ≡ q13)
    × (u.node.last_pdu ≡ some (net_join p))
    × (NetJoin.get_src_socket_addr p ≡ v4 5 8004)
    × (NetJoin.get_max_socket_addr p ≡ u.node.listen_socket)
    × All (λ a. span a ≤ span (place u)) (places pair)
finds_widest_example =
    finds_widest pair 5 8004 client_addr (first-Listens, (second-Listens, tt))
      ((refl, tt), (tt, tt)) (refl, (refl, tt)) (omega arith) (omega arith) (omega arith)

-- A node in Q13 with an entry that is in the upper half of its range.
abbrev splits : World
splits = world_of (node_in q13 (16, 31) (some (net_join (NetJoin.new 5 8004 0 0 0))) (entry ∷ []))

splits-IsSplitting : IsSplitting splits (NetJoin.new 5 8004 0 0 0) 2 8001
unfolding NetJoin.new NetJoin.get_src_socket_addr
splits-IsSplitting = record {
  state = refl;
  last_pdu = refl;
  successor = refl;
  reachable = λ a. refl;
  ip_fits = omega arith;
  port_fits = omega arith;
  valid = omega arith;
  bounded = omega arith;
  wide = inl (omega arith);
  apart = refl;
}

abbrev joins : World
joins = world_of (node_in q8 (0, 0) none [])

joins-IsJoining : IsJoining joins previous
joins-IsJoining = record {
  state = refl;
  values = refl;
  should_close = refl;
  udp_wrapper = refl;
  predecessor_wrapper = refl;
  reachable = λ a. refl;
  predecessor = refl;
}

share_of : share splits ≡ entry ∷ []
unfolding halves hash_ssn
share_of = refl

share-IsWire : All IsWire (inserts (share splits))
share-IsWire = rw share_of (
  ValInsert.new-IsWire number name email (ground arith) refl (ground arith) (omega arith)
      (ground arith) (omega arith),
  tt,
)

share_fits : length (concat (inserts (share splits))) < buffer_size
unfolding to_bytes ValInsert.to_bytes ValInsert.new
share_fits = rw share_of (omega arith)

join_shares_example :
    (v j1 j2 : World) × (advance splits ≡ ok v)
    × (messages_to
          (record { peer_addr = NetJoin.get_src_socket_addr (NetJoin.new 5 8004 0 0 0) })
          v.sent
        ≡ welcome splits 2 8001 ∷ inserts (share splits))
    × (hop (handed_down (welcome splits 2 8001)) joins ≡ ok j1)
    × (hop (brought (inserts (share splits))) j1 ≡ ok j2)
    × (v.node.hash_range ≡ (16, 23))
    × (v.node.successor
        ≡ some (record { peer_addr = NetJoin.get_src_socket_addr (NetJoin.new 5 8004 0 0 0) }))
    × IsReady j2
    × (j2.node.hash_range ≡ (24, 31))
    × (j2.node.successor ≡ some next)
    × ((before after : List World) (ssn : Text)
        → table (before ++ v ∷ j2 ∷ after) ssn ≡ table (before ++ splits ∷ after) ssn)
unfolding halves
join_shares_example =
    join_shares splits joins (NetJoin.new 5 8004 0 0 0) previous 2 8001 splits-IsSplitting
      joins-IsJoining share-IsWire share_fits
