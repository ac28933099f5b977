-- ===== src/Tests/Calls.antt =====
-- A ring of two nodes that serves clients.
use distributed_hash_table.Prelude.{ℕ, ◌≤◌, ◌≡◌, refl, List, [], ◌∷◌, none, ok, arith, length, All}
use distributed_hash_table.Pdu.SocketAddr.{v4}
use distributed_hash_table.Pdu.ValInsert
use distributed_hash_table.Pdu.ValLookup
use distributed_hash_table.Pdu.ValLookupResponse
use distributed_hash_table.Pdu.Message.{IsWire, val_lookup_response}
use distributed_hash_table.Node.Entry.{Entry}
use distributed_hash_table.Node.Types.{World, q6}
use distributed_hash_table.Node.Util.{halves}
use distributed_hash_table.Node.Start.{arrives}
use distributed_hash_table.Node.Ring.{Reached, alone, later, joins}
use distributed_hash_table.Dht.Rounds.{IsReady}
use distributed_hash_table.Dht.Requests.{Request, insert, lookup, pdu_of}
use distributed_hash_table.Dht.Routing.{Journey, travel, ranges, table, updated, answer}
use distributed_hash_table.Dht.Refines.{Call, turn, serve, replay, travels_to_owner, serve-replay}
use distributed_hash_table.Tests.Samples.{
  number, name, email, next, previous, client_addr, node_in, world_of,
}

abbrev ring : List World
ring =
    world_of (node_in q6 (halves (0, 255)).0 none [])
    ∷ world_of (node_in q6 (halves (0, 255)).1 none [])
    ∷ []

pub node-IsReady :
    (hash_range : ℕ × ℕ) (values : List Entry)
    → IsReady (world_of (node_in q6 hash_range none values))
node-IsReady hash_range values = record {
  state = refl;
  should_close = refl;
  udp_wrapper = refl;
  predecessor_wrapper = refl;
  reachable = λ a. refl;
  next = next;
  successor = refl;
  previous = previous;
  predecessor = refl;
}

ready : All IsReady ring
ready = (node-IsReady (halves (0, 255)).0 [], (node-IsReady (halves (0, 255)).1 [], tt))

tiled : Reached (ranges ring)
tiled = later alone (joins [] (0, 255) [] (omega arith))

abbrev pub asks : Request
asks = lookup (ValLookup.new number 5 8004)

pub asks-IsWire : IsWire (pdu_of asks)
unfolding ValLookup.new
asks-IsWire = record {
  tag = refl;
  ssn_size = refl;
  ssn_latin = ground arith;
  sender_address = omega arith;
  sender_port = omega arith;
}

abbrev pub puts : Request
puts = insert (ValInsert.new number name email)

pub puts-IsWire : IsWire (pdu_of puts)
puts-IsWire =
    ValInsert.new-IsWire number name email (ground arith) refl (ground arith) (omega arith)
      (ground arith) (omega arith)

-- The number belongs to the first node, and the second one is asked.
travels_to_owner_example :
    (j : Journey) × (travel (arrives (pdu_of asks) client_addr) (turn 1 ring) ≡ ok j)
    × (j.rounds ≤ length ring)
    × (j.answers ≡ answer asks (table ring))
    × (table j.nodes ≡ updated asks (table ring))
travels_to_owner_example = travels_to_owner ring 1 asks client_addr ready tiled asks-IsWire

abbrev pub calls : List Call
calls =
    record { skip = 1; client = client_addr; request = puts }
    ∷ record { skip = 0; client = client_addr; request = asks }
    ∷ record { skip = 1; client = client_addr; request = asks }
    ∷ []

serve-replay_example :
    (vs : List World) × (serve calls ring ≡ ok ((replay calls (table ring)).0, vs))
    × (table vs ≡ (replay calls (table ring)).1)
    × All IsReady vs
serve-replay_example =
    serve-replay calls ring (puts-IsWire, (asks-IsWire, (asks-IsWire, tt))) ready tiled

-- Both lookups find what was inserted.
replayed :
    (replay calls (λ ssn. none)).0
    ≡ (v4 5 8004, val_lookup_response (ValLookupResponse.new number name email))
      ∷ (v4 5 8004, val_lookup_response (ValLookupResponse.new number name email))
      ∷ []
unfolding ValInsert.new ValLookup.new
replayed = refl
