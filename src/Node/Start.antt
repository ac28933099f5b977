-- ===== src/Node/Start.antt =====
-- How a node begins: what it asks the tracker, and what it makes of the answers.
use distributed_hash_table.Prelude.{
  ℕ, ◌≤◌, ◌≡◌, refl, List, [], ◌∷◌, ◌++◌, ◌==◌, ◌&&◌, if◌then◌else◌, append_assoc, Bool-cases, inl,
  inr, some, true, ok, arith, length, ap, ◌∙◌,
}
use distributed_hash_table.Pdu.Bytes.{IsU32, IsU16}
use distributed_hash_table.Pdu.SocketAddr.{SocketAddr}
use distributed_hash_table.Pdu.StunLookup
use distributed_hash_table.Pdu.StunResponse
use distributed_hash_table.Pdu.NetGetNode
use distributed_hash_table.Pdu.NetGetNodeResponse
use distributed_hash_table.Pdu.Message.{
  Pdu, stun_lookup, stun_response, net_get_node, net_get_node_response, to_bytes, IsWire,
}
use distributed_hash_table.Socket.Parse.RoundTrip.{received, size-length}
use distributed_hash_table.Socket.Buffer.{buffer_size}
use distributed_hash_table.Socket.UdpWrapper
use distributed_hash_table.Socket.UdpWrapper.{datagram, next_pdu}
use distributed_hash_table.Socket.UdpWrapper.TryRead.{try_read_one}
use distributed_hash_table.Node.Types.{
  Node, World, q1, q2, q3, q4, State, Event, udp_ready, Output, udp_sent, q7,
}
use distributed_hash_table.Node.Exec.{◌>>=◌, ◌>>◌, opened}
use distributed_hash_table.Node.Sockets.{await_pdu_udp}
use distributed_hash_table.Node.States.{step_q1, step_q2, step_q3}
use distributed_hash_table.Node.Run.{step_in, step}

-- The poll at which one message comes over UDP.
abbrev pub arrives : Pdu → SocketAddr → List Event
arrives p sender = udp_ready (datagram (to_bytes p) sender ∷ []) ∷ []

await_one :
    (w : World) (p : Pdu) (sender : SocketAddr) (rest : List (List Event))
    → w.polls ≡ arrives p sender ∷ rest
    → w.node.udp_wrapper ≡ UdpWrapper.new
    → IsWire p
    → length (to_bytes p) ≤ buffer_size
    → await_pdu_udp w ≡ ok ((received p, sender), record w { polls = rest })
unfolding await_pdu_udp next_pdu
await_one w p sender rest e n i l = rw (e, n, try_read_one p sender i l) refl

stun-IsWire : (ip : ℕ) → IsU32 ip → IsWire (stun_response (StunResponse.new ip))
unfolding StunResponse.new
stun-IsWire ip h = record { tag = refl; address = h }

node-IsWire :
    (address port : ℕ)
    → IsU32 address
    → IsU16 port
    → IsWire (net_get_node_response (NetGetNodeResponse.new address port))
unfolding NetGetNodeResponse.new
node-IsWire address port h k = record { tag = refl; address = h; port = k }

stun_fits :
    (ip : ℕ) → IsU32 ip → length (to_bytes (stun_response (StunResponse.new ip))) ≤ buffer_size
stun_fits ip h = omega (arith, size-length (stun_response (StunResponse.new ip)) (stun-IsWire ip h))

node_fits :
    (address port : ℕ)
    → IsU32 address
    → IsU16 port
    → length (to_bytes (net_get_node_response (NetGetNodeResponse.new address port))) ≤ buffer_size
node_fits address port h k = omega (
  arith,
  size-length (net_get_node_response (NetGetNodeResponse.new address port))
      (node-IsWire address port h k),
)

-- A node asks the tracker for its own address and for a node of the ring.
abbrev pub questions : SocketAddr → List Output
questions tracker =
    udp_sent tracker (stun_lookup StunLookup.new)
    ∷ udp_sent tracker (net_get_node NetGetNode.new)
    ∷ []

-- The node once both answers are there: the first of its ring, or one that joins the ring of another.
abbrev pub answered : ℕ → ℕ → Node → Node
answered address port n = if address == 0 && port == 0 then record n { state = q4 } else record n {
  state = q7;
  last_pdu = some (net_get_node_response (NetGetNodeResponse.new address port));
}

pub step_at : (s : State) (w : World) → w.node.state ≡ s → step w ≡ step_in s w
unfolding step
step_at s w q = ap (λ t. step_in t w) q

step_in_q1 :
    (w : World)
    → w.node.state ≡ q1
    → w.reachable w.node.tracker_addr ≡ true
    → step w
      ≡ ok (
        tt,
        record w {
          node = record (w.node) { state = q2 };
          sent = w.sent ++ udp_sent w.node.tracker_addr (stun_lookup StunLookup.new) ∷ [];
        },
      )
unfolding step_q1 opened
step_in_q1 w q r = step_at q1 w q ∙ rw r refl

step_in_q2 :
    (w : World) (ip : ℕ) (sender : SocketAddr) (rest : List (List Event))
    → w.node.state ≡ q2
    → w.node.udp_wrapper ≡ UdpWrapper.new
    → w.polls ≡ arrives (stun_response (StunResponse.new ip)) sender ∷ rest
    → IsU32 ip
    → step w
      ≡ ok (
        tt,
        record w { node = record (w.node) { state = q3; own_address = some ip }; polls = rest },
      )
unfolding step_q2 opened StunResponse.new
step_in_q2 w ip sender rest q n e i =
    step_at q2 w q
    ∙ (rw
        (await_one w (stun_response (StunResponse.new ip)) sender rest e n (stun-IsWire ip i)
          (stun_fits ip i))
        refl)

step_in_q3 :
    (w : World) (address port : ℕ) (sender : SocketAddr) (rest : List (List Event))
    → w.node.state ≡ q3
    → w.node.udp_wrapper ≡ UdpWrapper.new
    → w.reachable w.node.tracker_addr ≡ true
    → w.polls ≡ arrives (net_get_node_response (NetGetNodeResponse.new address port)) sender ∷ rest
    → IsU32 address
    → IsU16 port
    → step w
      ≡ ok (
        tt,
        record w {
          node = answered address port w.node;
          polls = rest;
          sent = w.sent ++ udp_sent w.node.tracker_addr (net_get_node NetGetNode.new) ∷ [];
        },
      )
unfolding step_q3 opened NetGetNodeResponse.new
step_in_q3 w address port sender rest q n r e a b =
    let asked : World = record w {
      sent = w.sent ++ udp_sent w.node.tracker_addr (net_get_node NetGetNode.new) ∷ [];
    } in
    let got =
      await_one asked (net_get_node_response (NetGetNodeResponse.new address port)) sender rest e n
        (node-IsWire address port a b) (node_fits address port a b) in
    step_at q3 w q
    ∙ rw r (
        rw got
          (elim (Bool-cases (address == 0 && port == 0)) [ inl h ↦ rw h refl | inr h ↦ rw h refl ]))

-- A node in Q1 with nothing buffered, whose tracker can be reached and whose next two polls bring
-- the STUN_RESPONSE and NET_GET_NODE_RESPONSE datagrams, sends STUN_LOOKUP and NET_GET_NODE to the
-- tracker in three rounds, takes its address from the first answer, and is then in Q4 if the second
-- has two zeros, or else in Q7 with that answer kept; nothing else changes.
pub starts :
    (w : World) (ip address port : ℕ) (first second : SocketAddr) (rest : List (List Event))
    → w.node.state ≡ q1
    → w.node.udp_wrapper ≡ UdpWrapper.new
    → w.reachable w.node.tracker_addr ≡ true
    → w.polls
      ≡ arrives (stun_response (StunResponse.new ip)) first
        ∷ arrives (net_get_node_response (NetGetNodeResponse.new address port)) second
        ∷ rest
    → IsU32 ip
    → IsU32 address
    → IsU16 port
    → (step >> step >> step) w
      ≡ ok (
        tt,
        record w {
          node = answered address port (record (w.node) { own_address = some ip });
          polls = rest;
          sent = w.sent ++ questions w.node.tracker_addr;
        },
      )
unfolding ◌>>=◌
starts w ip address port first second rest q n r e i a b =
    let polls =
      arrives (net_get_node_response (NetGetNodeResponse.new address port)) second ∷ rest in
    let asked : World = record w {
      node = record (w.node) { state = q2 };
      sent = w.sent ++ udp_sent w.node.tracker_addr (stun_lookup StunLookup.new) ∷ [];
    } in
    let known : World = record asked {
      node = record (w.node) { state = q3; own_address = some ip };
      polls = polls;
    } in
    rw
      (
        step_in_q1 w q r,
        step_in_q2 asked ip first polls refl n e i,
        step_in_q3 known address port second rest refl n r refl a b,
        append_assoc,
      )
      refl
