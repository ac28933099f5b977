-- ===== src/Tests/Leaves.antt =====
-- A node that leaves with one entry, and the node before it.
use distributed_hash_table.Prelude.{
  ◌<◌, ◌≡◌, refl, List, [], ◌++◌, ◌∷◌, some, none, false, ok, ◌>>=◌, arith, length, All,
}
use distributed_hash_table.Pdu.ValInsert
use distributed_hash_table.Pdu.NetLeaving
use distributed_hash_table.Pdu.Message.{net_new_range, to_bytes, IsWire}
use distributed_hash_table.Socket.Buffer.{buffer_size}
use distributed_hash_table.Socket.Buffer.Drain.{concat}
use distributed_hash_table.Node.Entry.{hash_ssn}
use distributed_hash_table.Node.Types.{World, q6, q11}
use distributed_hash_table.Node.Ring.{offer, Reached, alone, later, joins}
use distributed_hash_table.Node.Joining.{handed_down}
use distributed_hash_table.Dht.Rounds.{IsReady, advance, hop, messages_to}
use distributed_hash_table.Pdu.Text.{Text}
use distributed_hash_table.Dht.Routing.{ranges, table}
use distributed_hash_table.Dht.Heir.{handed_up}
use distributed_hash_table.Dht.Leaving.{consent, estate, IsLeaving, IsHeir, leave_hands_over}
use distributed_hash_table.Node.Util.{halves}
use distributed_hash_table.Tests.Calls.{node-IsReady}
use distributed_hash_table.Tests.Samples.{
  number, name, email, entry, next, previous, node_in, world_of,
}

abbrev pub leaver : World
leaver = world_of (node_in q11 (16, 31) none (entry ∷ []))

abbrev pub neighbour : World
neighbour = world_of (node_in q6 (0, 15) none [])

leaver-IsLeaving : IsLeaving leaver next previous 2 8001
unfolding hash_ssn
leaver-IsLeaving = record {
  state = refl;
  owned = (refl, tt);
  successor = refl;
  predecessor = refl;
  successor_listen = refl;
  predecessor_wrapper = refl;
  reachable = λ a. refl;
  later_range = refl;
  apart = refl;
}

neighbour-IsHeir : IsHeir neighbour next 4 4 8003
neighbour-IsHeir = record {
  ready = record {
    state = refl;
    should_close = refl;
    udp_wrapper = refl;
    predecessor_wrapper = refl;
    reachable = λ a. refl;
    next = next;
    successor = refl;
    previous = previous;
    predecessor = refl;
  };
  successor_wrapper = refl;
  successor = refl;
  own_address = refl;
  listen_socket = refl;
  valid = omega arith;
  owned = tt;
}

estate-IsWire : All IsWire (estate (entry ∷ []) 2 8001)
unfolding NetLeaving.new
estate-IsWire = (
  ValInsert.new-IsWire number name email (ground arith) refl (ground arith) (omega arith)
      (ground arith) (omega arith),
  (record { tag = refl; new_address = omega arith; new_port = omega arith }, tt),
)

estate_fits : length (concat (estate (entry ∷ []) 2 8001)) < buffer_size
unfolding to_bytes ValInsert.to_bytes ValInsert.new NetLeaving.to_bytes
estate_fits = omega arith

leave_hands_over_example :
    (left heir heir' : World) × ((hop (handed_down consent) leaver >>= advance) ≡ ok left)
    × (messages_to previous left.sent ≡ net_new_range (offer (16, 31)) ∷ estate (entry ∷ []) 2 8001)
    × ((hop (handed_up (net_new_range (offer (16, 31)) ∷ [])) neighbour >>= advance) ≡ ok heir)
    × (messages_to next heir.sent ≡ consent ∷ [])
    × ((hop (handed_up (estate (entry ∷ []) 2 8001)) heir >>= advance) ≡ ok heir')
    × (left.node.values ≡ [])
    × (left.node.running ≡ false)
    × IsReady heir'
    × (heir'.node.values ≡ entry ∷ [])
    × (heir'.node.hash_range ≡ (0, 31))
    × (heir'.node.successor ≡ some next)
    × ((before after : List World) (ssn : Text)
        → table (before ++ heir' ∷ after) ssn ≡ table (before ++ neighbour ∷ leaver ∷ after) ssn)
leave_hands_over_example =
    leave_hands_over leaver neighbour next previous next 2 8001 4 4 8003 leaver-IsLeaving
      neighbour-IsHeir refl (omega arith) (omega arith) refl estate-IsWire estate_fits

abbrev pub behind : List World
behind =
    world_of (node_in q6 (32, 63) none [])
    ∷ world_of (node_in q6 (64, 127) none [])
    ∷ world_of (node_in q6 (128, 255) none [])
    ∷ []

pub behind-IsReady : All IsReady behind
behind-IsReady =
    (node-IsReady (32, 63) [], (node-IsReady (64, 127) [], (node-IsReady (128, 255) [], tt)))

-- Four nodes joined, the last three each in the first half.
pub ring_tiled : Reached (ranges (neighbour ∷ leaver ∷ behind))
unfolding halves
ring_tiled =
    let two = later alone (joins [] (0, 255) [] (omega arith)) in
    let three = later two (joins [] (0, 127) ((128, 255) ∷ []) (omega arith)) in
    let four = later three (joins [] (0, 63) ((64, 127) ∷ (128, 255) ∷ []) (omega arith)) in
    later four (joins [] (0, 31) ((32, 63) ∷ (64, 127) ∷ (128, 255) ∷ []) (omega arith))
