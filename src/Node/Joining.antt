-- ===== src/Node/Joining.antt =====
-- How a node joins the ring of another: it asks that node by NET_JOIN, accepts its stream, and takes the
-- range and the successor that come over it.
use distributed_hash_table.Prelude.{
  sym, ◌≤◌, ◌<◌, ℕ, ◌≡◌, refl, List, [], ◌∷◌, ◌++◌, Option, some, none, true, false, ok, arith,
  length, ap, ◌∙◌, append-nil, append_assoc,
}
use distributed_hash_table.Pdu.SocketAddr.{SocketAddr, v4}
use distributed_hash_table.Pdu.NetGetNodeResponse
use distributed_hash_table.Pdu.NetGetNodeResponse.{NetGetNodeResponsePdu}
use distributed_hash_table.Pdu.NetJoin
use distributed_hash_table.Pdu.NetJoinResponse
use distributed_hash_table.Pdu.NetJoinResponse.{NetJoinResponsePdu}
use distributed_hash_table.Pdu.Message.{
  Pdu, net_get_node_response, net_join, net_join_response, to_bytes, IsWire,
}
use distributed_hash_table.Socket.Parse.{parse_pdu}
use distributed_hash_table.Socket.Parse.RoundTrip.{size-length}
use distributed_hash_table.Socket.Parse.RoundTrip.{received as arrived}
use distributed_hash_table.Socket.Buffer.{buffer_size}
use distributed_hash_table.Socket.TcpWrapper
use distributed_hash_table.Socket.TcpWrapper.{received, next_pdu}
use distributed_hash_table.Socket.TcpWrapper.TryRead.{try_read_delivers}
use distributed_hash_table.Node.Types.{
  World, Stream, q6, q7, q8, Event, predecessor_ready, Output, udp_sent, accepted, connected,
}
use distributed_hash_table.Node.Exec.{◌>>=◌, ◌>>◌, opened}
use distributed_hash_table.Node.Sockets.{
  await_predecessor, await_pdu, take_accept, next_accept, accept_predecessor, connect_to_successor,
}
use distributed_hash_table.Node.Util.{get_listen_addr}
use distributed_hash_table.Node.States.{take_last_pdu, step_q7, step_q8}
use distributed_hash_table.Node.Run.{step}
use distributed_hash_table.Node.Start.{step_at}

-- The poll at which one message comes from the predecessor.
abbrev pub handed_down : Pdu → List Event
handed_down p = predecessor_ready (received (to_bytes p) ∷ []) ∷ []

pub message_read :
    (p : Pdu) (peer : SocketAddr)
    → IsWire p
    → 1 ≤ length (to_bytes p)
    → length (to_bytes p) < buffer_size
    → TcpWrapper.try_read TcpWrapper.new peer (received (to_bytes p) ∷ [])
      ≡ ok (record { incoming_queue = (arrived p, peer) ∷ []; buffer = [] }, false)
message_read p peer w one fits =
    try_read_delivers TcpWrapper.new peer (to_bytes p ∷ []) (p ∷ []) [] (one, tt) (w, tt)
      (sym (append-nil (to_bytes p ++ []))) (unfold parse_pdu in refl)
      (omega (arith, ap length (append-nil (to_bytes p))))

pub await_predecessor_message :
    (w : World) (s : Stream) (p : Pdu) (rest : List (List Event))
    → w.node.predecessor ≡ some s
    → w.polls ≡ handed_down p ∷ rest
    → w.node.predecessor_wrapper ≡ TcpWrapper.new
    → IsWire p
    → 1 ≤ length (to_bytes p)
    → length (to_bytes p) < buffer_size
    → await_pdu false w ≡ ok ((arrived p, s.peer_addr), record w { polls = rest })
unfolding await_pdu await_predecessor opened next_pdu
await_predecessor_message w s p rest o e n i one fits =
    rw (o, e, n, message_read p s.peer_addr i one fits) refl

await_response :
    (w : World) (s : Stream) (p : NetJoinResponsePdu) (rest : List (List Event))
    → w.node.predecessor ≡ some s
    → w.polls ≡ handed_down (net_join_response p) ∷ rest
    → w.node.predecessor_wrapper ≡ TcpWrapper.new
    → IsWire (net_join_response p)
    → await_pdu false w ≡ ok ((net_join_response p, s.peer_addr), record w { polls = rest })
await_response w s p rest o e n i =
    let bytes = size-length (net_join_response p) i in
    await_predecessor_message w s (net_join_response p) rest o e n i (omega (arith, bytes))
      (omega (arith, bytes))

-- `w` with its predecessor accepted, after it asked `target`.
abbrev asked : World → NetGetNodeResponsePdu → ℕ → ℕ → Stream → List (Option Stream) → World
asked w target own port s accepts = record w {
  node = record (w.node) { state = q8; last_pdu = none; predecessor = some s };
  accepts = accepts;
  sent =
      (w.sent
        ++ udp_sent (NetGetNodeResponse.get_addr target) (net_join (NetJoin.new own port 0 0 0))
          ∷ [])
      ++ accepted s ∷ [];
}

step_in_q7 :
    (w : World) (target : NetGetNodeResponsePdu) (own ip port : ℕ) (s : Stream)
    (accepts : List (Option Stream))
    → w.node.state ≡ q7
    → w.node.last_pdu ≡ some (net_get_node_response target)
    → w.node.own_address ≡ some own
    → w.node.listen_socket ≡ v4 ip port
    → w.reachable (NetGetNodeResponse.get_addr target) ≡ true
    → w.accepts ≡ some s ∷ accepts
    → step w ≡ ok (tt, asked w target own port s accepts)
unfolding step_q7 take_last_pdu get_listen_addr accept_predecessor next_accept take_accept opened
step_in_q7 w target own ip port s accepts q l o v r a = step_at q7 w q ∙ rw (l, v, o, r, a) refl

pub step_in_q8 :
    (w : World) (s : Stream) (p : NetJoinResponsePdu) (rest : List (List Event))
    → w.node.state ≡ q8
    → w.node.predecessor ≡ some s
    → w.polls ≡ handed_down (net_join_response p) ∷ rest
    → w.node.predecessor_wrapper ≡ TcpWrapper.new
    → IsWire (net_join_response p)
    → w.reachable (NetJoinResponse.get_next_addr p) ≡ true
    → step w
      ≡ ok (
        tt,
        record w {
          node = record (w.node) {
            state = q6;
            hash_range = (p.range_start, p.range_end);
            successor_listen = some (NetJoinResponse.get_next_addr p);
            successor = some (record { peer_addr = NetJoinResponse.get_next_addr p });
          };
          polls = rest;
          sent = w.sent ++ connected (NetJoinResponse.get_next_addr p) ∷ [];
        },
      )
unfolding step_q8 connect_to_successor opened
step_in_q8 w s p rest q o e n i r =
    step_at q8 w q ∙ rw (await_response w s p rest o e n i) (rw r refl)

-- A node in Q7 that knows a node of the ring and its own addresses, with both other ends within
-- reach and nothing buffered from its predecessor, sends that node a NET_JOIN about itself, takes
-- the stream that it accepts for its predecessor, and from a well-formed NET_JOIN_RESPONSE on that
-- stream takes its range and connects to its successor: after two rounds it is in Q6, with no
-- message kept; nothing else changes.
pub joins_ring :
    (w : World) (target : NetGetNodeResponsePdu) (own ip port : ℕ) (s : Stream)
    (accepts : List (Option Stream)) (p : NetJoinResponsePdu) (rest : List (List Event))
    → w.node.state ≡ q7
    → w.node.last_pdu ≡ some (net_get_node_response target)
    → w.node.own_address ≡ some own
    → w.node.listen_socket ≡ v4 ip port
    → w.reachable (NetGetNodeResponse.get_addr target) ≡ true
    → w.accepts ≡ some s ∷ accepts
    → w.polls ≡ handed_down (net_join_response p) ∷ rest
    → w.node.predecessor_wrapper ≡ TcpWrapper.new
    → IsWire (net_join_response p)
    → w.reachable (NetJoinResponse.get_next_addr p) ≡ true
    → (step >> step) w
      ≡ ok (
        tt,
        record w {
          node = record (w.node) {
            state = q6;
            last_pdu = none;
            predecessor = some s;
            hash_range = (p.range_start, p.range_end);
            successor_listen = some (NetJoinResponse.get_next_addr p);
            successor = some (record { peer_addr = NetJoinResponse.get_next_addr p });
          };
          accepts = accepts;
          polls = rest;
          sent =
              w.sent
              ++ udp_sent
                  (NetGetNodeResponse.get_addr target)
                  (net_join (NetJoin.new own port 0 0 0))
                ∷ accepted s
                ∷ connected (NetJoinResponse.get_next_addr p)
                ∷ [];
        },
      )
unfolding ◌>>=◌
joins_ring w target own ip port s accepts p rest q l o v r a e n i c = rw (
  step_in_q7 w target own ip port s accepts q l o v r a,
  step_in_q8 (asked w target own port s accepts) s p rest refl refl e n i c,
  appended w.sent,
)
  where
    appended :
        (xs : List Output) (x y z : Output)
        → ((xs ++ x ∷ []) ++ y ∷ []) ++ z ∷ [] ≡ xs ++ x ∷ y ∷ z ∷ []
    appended xs x y z = simp append_assoc
