-- ===== src/Tests/Starts.antt =====
-- A node that starts, and one that joins.
use distributed_hash_table.Prelude.{◌≡◌, refl, List, [], ◌∷◌, none, some, ok, arith}
use distributed_hash_table.Pdu.StunResponse
use distributed_hash_table.Pdu.NetGetNodeResponse
use distributed_hash_table.Pdu.NetGetNodeResponse.{NetGetNodeResponsePdu}
use distributed_hash_table.Pdu.NetJoin
use distributed_hash_table.Pdu.NetJoinResponse
use distributed_hash_table.Pdu.NetJoinResponse.{NetJoinResponsePdu}
use distributed_hash_table.Pdu.Message.{
  stun_response, net_get_node_response, net_join, net_join_response, IsWire,
}
use distributed_hash_table.Node.Types.{World, q1, q6, q7, Event, udp_sent, accepted, connected}
use distributed_hash_table.Node.Exec.{◌>>◌}
use distributed_hash_table.Node.Run.{step}
use distributed_hash_table.Node.Start.{arrives, questions, answered, starts}
use distributed_hash_table.Node.Joining.{handed_down, joins_ring}
use distributed_hash_table.Tests.Samples.{
  tracker_addr, next_addr, previous_addr, previous, node_in, world_of,
}

abbrev answers : List (List Event)
answers =
    arrives (stun_response (StunResponse.new 4)) tracker_addr
    ∷ arrives (net_get_node_response (NetGetNodeResponse.new 0 0)) tracker_addr
    ∷ []

-- The tracker knows no node, so this is the first one.
abbrev starting : World
starting = record (world_of (node_in q1 (0, 0) none [])) { polls = answers }

starts_example :
    (step >> step >> step) starting
    ≡ ok (
      tt,
      record starting {
        node = answered 0 0 (starting.node);
        polls = [];
        sent = questions tracker_addr;
      },
    )
starts_example =
    starts starting 4 0 0 tracker_addr tracker_addr [] refl refl refl refl (omega arith)
      (omega arith) (omega arith)

abbrev target : NetGetNodeResponsePdu
target = NetGetNodeResponse.new 3 8002

abbrev given : NetJoinResponsePdu
given = NetJoinResponse.new 2 8001 128 255

given-IsWire : IsWire (net_join_response given)
unfolding NetJoinResponse.new
given-IsWire = record {
  tag = refl;
  next_address = omega arith;
  next_port = omega arith;
  range_start = omega arith;
  range_end = omega arith;
}

abbrev joining : World
joining = record (world_of (node_in q7 (0, 0) (some (net_get_node_response target)) [])) {
  polls = handed_down (net_join_response given) ∷ [];
}

joins_ring_example :
    (step >> step) joining
    ≡ ok (
      tt,
      record joining {
        node = node_in q6 (128, 255) none [];
        accepts = [];
        polls = [];
        sent =
            udp_sent previous_addr (net_join (NetJoin.new 4 8003 0 0 0))
            ∷ accepted previous
            ∷ connected next_addr
            ∷ [];
      },
    )
unfolding NetGetNodeResponse.new NetGetNodeResponse.get_addr NetJoinResponse.new
    NetJoinResponse.get_next_addr
joins_ring_example =
    joins_ring joining target 4 4 8003 previous [] given [] refl refl refl refl refl refl refl refl
      given-IsWire refl
