-- ===== src/Tracker.antt =====
-- resources/TestNode/src/bin/tracker.rs: the tracker, which tells each node its address and a node
-- that is already in the ring.
pub mod Laws
pub mod Rounds
use distributed_hash_table.Prelude.{
  ℕ, ◌-◌, ◌/◌, ◌^◌, List, [], ◌∷◌, ◌++◌, Option, none, some, Bool, true, false, not, leb,
  if◌then◌else◌, Outcome, ok, panic, ◌>>=◌, keep_if,
}
use distributed_hash_table.Pdu.SocketAddr.{SocketAddr, v4, v6, addr_eq}
use distributed_hash_table.Pdu.StunResponse
use distributed_hash_table.Pdu.NetGetNodeResponse
use distributed_hash_table.Pdu.Message.{
  Pdu, net_alive, net_get_node, net_get_node_response, net_join, net_join_response,
  net_close_connection, net_new_range, net_new_range_response, net_leaving, val_insert, val_remove,
  val_lookup, val_lookup_response, stun_lookup, stun_response,
}
use distributed_hash_table.Socket.Buffer.{Message}
use distributed_hash_table.Socket.UdpWrapper
use distributed_hash_table.Socket.UdpWrapper.{UdpWrapper, Receive}

-- A key of the map `nodes` with its `Node`, whose `Instant` is a number of nanoseconds.
pub record Known : Type 0 where
  pub address : SocketAddr
  pub last_alive : ℕ

-- The map as a list of its keys and values; `sent` is what was sent, the oldest first.
pub record Tracker : Type 0 where
  pub nodes : List Known
  pub wrapper : UdpWrapper
  pub sent : List (SocketAddr × Pdu)

abbrev pub new : Tracker
new = record { nodes = []; wrapper = UdpWrapper.new; sent = [] }

-- `nodes.entry(sender).or_insert(Node::new())`, and the time set.
abbrev pub touch : SocketAddr → ℕ → List Known → List Known
touch sender now [] = record { address = sender; last_alive = now } ∷ []
touch sender now (k ∷ ks) =
    let rest = touch sender now ks in
    if addr_eq k.address sender then record k { last_alive = now } ∷ ks else k ∷ rest

-- The test of `retain`.
abbrev pub is_fresh : ℕ → ℕ → Known → Bool
is_fresh timeout now k = not (leb timeout ((now - k.last_alive) / 10 ^ 9))

abbrev pub known_response : SocketAddr → Outcome Pdu
known_response (v4 ip port) = ok (net_get_node_response (NetGetNodeResponse.new ip port))
known_response (v6 ip port) = panic

-- Where a datagram can be sent, and which key and value the iterator of a map that is not empty gives
-- first.
module _ (reachable : SocketAddr → Bool) (first : Known → List Known → Known) where
  -- `wrapper.send`
  abbrev pub send : Pdu → SocketAddr → Tracker → Outcome Tracker
  send pdu to t =
      if reachable to then ok (record t { sent = t.sent ++ ((to, pdu) ∷ []) }) else panic

  abbrev pub node_response : List Known → Outcome Pdu
  node_response [] = ok (net_get_node_response (NetGetNodeResponse.new 0 0))
  node_response (k ∷ ks) = known_response (first k ks).address

  abbrev pub stun : SocketAddr → Tracker → Outcome Tracker
  stun (v4 ip port) t = send (stun_response (StunResponse.new ip)) (v4 ip port) t
  stun (v6 ip port) t = panic

  unfoldable pub handle : ℕ → Message → Tracker → Outcome Tracker
  handle now (stun_lookup p, sender) t = stun sender t
  handle now (net_alive p, sender) t = ok (record t { nodes = touch sender now t.nodes })
  handle now (net_get_node p, sender) t = do r ← node_response t.nodes; send r sender t
  handle now _ t = ok t

  -- The queue is served to its end.
  unfoldable pub serve : ℕ → List Message → Tracker → Outcome Tracker
  serve now [] t = ok t
  serve now (m ∷ ms) t = do
    let popped = record t { wrapper = record (t.wrapper) { incoming_queue = ms } }
    handled ← handle now m popped
    serve now ms handled

  -- Each event of the poll, with the answers to its reads.
  unfoldable pub events : ℕ → List (List Receive) → Tracker → Outcome Tracker
  events now [] t = ok t
  events now (answers ∷ rest) t = do
    w ← UdpWrapper.try_read t.wrapper answers
    served ← serve now w.incoming_queue (record t { wrapper = w })
    events now rest served

  -- One round of the loop, at one reading of the clock.
  unfoldable pub round : ℕ → ℕ → List (List Receive) → Tracker → Outcome Tracker
  round timeout now polled t = do
    t ← events now polled t
    ok (record t { nodes = keep_if (is_fresh timeout now) t.nodes })
