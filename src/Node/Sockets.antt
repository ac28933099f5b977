-- ===== src/Node/Sockets.antt =====
-- Waiting for a message, and for a connection.
use distributed_hash_table.Prelude.{
  List, [], ◌∷◌, Option, none, some, Bool, true, false, Outcome, ok, panic, waits,
}
use distributed_hash_table.Prelude.{◌>>=◌ as and_then}
use distributed_hash_table.Pdu.SocketAddr.{SocketAddr}
use distributed_hash_table.Socket.Buffer.{Message}
use distributed_hash_table.Socket.UdpWrapper
use distributed_hash_table.Socket.UdpWrapper.{UdpWrapper, Receive}
use distributed_hash_table.Socket.TcpWrapper
use distributed_hash_table.Socket.TcpWrapper.{TcpWrapper, Read}
use distributed_hash_table.Node.Types.{
  World, Stream, Event, udp_ready, successor_ready, predecessor_ready, connected, accepted,
}
use distributed_hash_table.Node.Exec.{Exec, pure, ◌>>=◌, ◌>>◌, this, modify, or_fail, reach, log}

-- What the reads of one socket answer after a poll: nothing, where it is not ready.
abbrev pub udp_answers : List Event → List Receive
udp_answers [] = []
udp_answers (udp_ready answers ∷ events) = answers
udp_answers (successor_ready answers ∷ events) = udp_answers events
udp_answers (predecessor_ready answers ∷ events) = udp_answers events

abbrev pub successor_answers : List Event → List Read
successor_answers [] = []
successor_answers (successor_ready answers ∷ events) = answers
successor_answers (udp_ready answers ∷ events) = successor_answers events
successor_answers (predecessor_ready answers ∷ events) = successor_answers events

abbrev pub predecessor_answers : List Event → List Read
predecessor_answers [] = []
predecessor_answers (predecessor_ready answers ∷ events) = answers
predecessor_answers (udp_ready answers ∷ events) = predecessor_answers events
predecessor_answers (successor_ready answers ∷ events) = predecessor_answers events

udp_found :
    (UdpWrapper → Outcome (Message × UdpWrapper × List (List Event)))
    → List (List Event)
    → Option Message × UdpWrapper
    → Outcome (Message × UdpWrapper × List (List Event))
udp_found again polls (none, w) = again w
udp_found again polls (some m, w) = ok (m, w, polls)

-- The loop of `await_pdu_udp`: it polls before it looks at the queue.
udp_loop : List (List Event) → UdpWrapper → Outcome (Message × UdpWrapper × List (List Event))
unfolding udp_found
udp_loop [] w = waits
udp_loop (events ∷ polls) w =
    and_then (UdpWrapper.try_read w (udp_answers events))
      λ w'. udp_found (udp_loop polls) polls (UdpWrapper.next_pdu w')

unfoldable pub await_pdu_udp : Exec Message
unfolding udp_loop
await_pdu_udp w =
    and_then (udp_loop w.polls w.node.udp_wrapper)
      λ r. ok (r.0, record w { node = record w.node { udp_wrapper = r.1 }; polls = r.2 })

tcp_found :
    (TcpWrapper → Outcome (Message × TcpWrapper × List (List Event)))
    → List (List Event)
    → Option Message × TcpWrapper
    → Outcome (Message × TcpWrapper × List (List Event))
tcp_found again polls (none, w) = again w
tcp_found again polls (some m, w) = ok (m, w, polls)

-- The loop of `await_pdu`, over the socket whose answers `answers` picks.
tcp_loop :
    (List Event → List Read)
    → SocketAddr
    → List (List Event)
    → TcpWrapper
    → Outcome (Message × TcpWrapper × List (List Event))
unfolding tcp_found
tcp_loop answers peer [] w = waits
tcp_loop answers peer (events ∷ polls) w =
    and_then (TcpWrapper.try_read w peer (answers events))
      λ r. tcp_found (tcp_loop answers peer polls) polls (TcpWrapper.next_pdu r.0)

unfoldable pub await_successor : Stream → Exec Message
unfolding tcp_loop
await_successor s w =
    and_then (tcp_loop successor_answers s.peer_addr w.polls w.node.successor_wrapper)
      λ r. ok (r.0, record w { node = record w.node { successor_wrapper = r.1 }; polls = r.2 })

unfoldable pub await_predecessor : Stream → Exec Message
unfolding tcp_loop
await_predecessor s w =
    and_then (tcp_loop predecessor_answers s.peer_addr w.polls w.node.predecessor_wrapper)
      λ r. ok (r.0, record w { node = record w.node { predecessor_wrapper = r.1 }; polls = r.2 })

unfoldable pub await_pdu : Bool → Exec Message
await_pdu true = do n ← this; s ← or_fail n.successor; await_successor s
await_pdu false = do n ← this; s ← or_fail n.predecessor; await_predecessor s

unfoldable pub take_accept : List (Option Stream) → World → Outcome (Stream × World)
take_accept [] w = waits
take_accept (none ∷ rest) w = panic
take_accept (some s ∷ rest) w = ok (s, record w { accepts = rest })

unfoldable pub next_accept : Exec Stream
unfolding take_accept
next_accept w = take_accept w.accepts w

unfoldable pub accept_predecessor : Exec (Unit {0})
accept_predecessor = do
  s ← next_accept
  log (accepted s)
  modify λ n. record n { predecessor = some s }

-- `connect` gives a stream to the address, which is kept as the successor's listening address.
unfoldable pub connect_to_successor : SocketAddr → Exec Stream
connect_to_successor addr = do
  reach addr (connected addr)
  modify λ n. record n { successor_listen = some addr }
  pure (record { peer_addr = addr })
