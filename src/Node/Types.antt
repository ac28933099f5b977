-- ===== src/Node/Types.antt =====
-- The state of a node, and the world around it.
use distributed_hash_table.Prelude.{ℕ, List, Bool, Option}
use distributed_hash_table.Pdu.Message.{Pdu}
use distributed_hash_table.Pdu.SocketAddr.{SocketAddr}
use distributed_hash_table.Socket.UdpWrapper.{UdpWrapper, Receive}
use distributed_hash_table.Socket.TcpWrapper.{TcpWrapper, Read}
use distributed_hash_table.Node.Entry.{Entry}

pub data Source : Type 0 where
  udp : SocketAddr → Source
  predecessor : SocketAddr → Source
  successor : SocketAddr → Source

pub data State : Type 0 where
  q1 q2 q3 q4 q5 q6 q7 q8 q9 q10 q11 q12 q13 q14 q15 q16 q17 q18 : State

-- A `TcpStream` as the address of its other end.
pub record Stream : Type 0 where
  pub peer_addr : SocketAddr

-- An `Ipv4Addr` is its 32 bits, an `Instant` a number of nanoseconds, a `u8` a number below 256.
pub record Node : Type 0 where
  pub state : State
  pub own_address : Option ℕ
  pub values : List Entry
  pub hash_range : ℕ × ℕ
  pub last_alive : ℕ
  pub last_pdu : Option Pdu
  pub successor_listen : Option SocketAddr
  pub should_close : Bool
  pub running : Bool
  pub tracker_addr : SocketAddr
  pub udp_wrapper : UdpWrapper
  pub successor_wrapper : TcpWrapper
  pub successor : Option Stream
  pub predecessor_wrapper : TcpWrapper
  pub predecessor : Option Stream
  pub listen_socket : SocketAddr

-- One event of a poll, with the answers to the reads that it leads to.
pub data Event : Type 0 where
  udp_ready : List Receive → Event
  successor_ready : List Read → Event
  predecessor_ready : List Read → Event

-- What a node does to its sockets.
pub data Output : Type 0 where
  udp_sent : SocketAddr → Pdu → Output
  tcp_sent : Stream → Pdu → Output
  shut_down : Stream → Output
  connected : SocketAddr → Output
  accepted : Stream → Output

-- `polls` has the events of each later call of `poll`, `accepts` the later results of `accept`, where
-- `none` is an error; `reachable` tells the addresses to which connecting, sending and shutting down
-- succeeds; `sent` is what was done, the oldest first.
pub record World : Type 0 where
  pub node : Node
  pub now : ℕ
  pub polls : List (List Event)
  pub accepts : List (Option Stream)
  pub reachable : SocketAddr → Bool
  pub sent : List Output
