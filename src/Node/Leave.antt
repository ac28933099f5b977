-- ===== src/Node/Leave.antt =====
-- The last state of a node that leaves the ring.
use distributed_hash_table.Prelude.{
  panic, length, none, ◌≤◌, ◌<◌, ℕ, ◌==◌, List, [], ◌∷◌, ◌++◌, map, some, true, false,
  if◌then◌else◌, ok, ◌≡◌, refl, arith, All, keep_if, append_assoc, Bool-cases, inl, inr,
}
use distributed_hash_table.Pdu.SocketAddr.{v4}
use distributed_hash_table.Pdu.NetCloseConnection
use distributed_hash_table.Pdu.NetLeaving
use distributed_hash_table.Pdu.Message.{
  Pdu, net_close_connection, net_leaving, net_new_range, to_bytes, IsWire,
}
use distributed_hash_table.Node.Entry.{Entry, hash}
use distributed_hash_table.Node.Types.{Node, World, Stream, Output, Event, tcp_sent, shut_down}
use distributed_hash_table.Node.Exec.{opened}
use distributed_hash_table.Node.Util.{covers, moves, stays}
use distributed_hash_table.Node.States.{step_q11, step_q18}
use distributed_hash_table.Node.Patterns.{as_new_range_response}
use distributed_hash_table.Node.Joining.{handed_down, await_predecessor_message}
use distributed_hash_table.Socket.TcpWrapper
use distributed_hash_table.Socket.Buffer.{buffer_size}
use distributed_hash_table.Socket.Parse.RoundTrip.{received}
use distributed_hash_table.Pdu.NetNewRange
use distributed_hash_table.Node.Transfer.{handed, transfer_lem}
use distributed_hash_table.Node.Ownership.Sets.{IsOwned}

All-move :
    (r : ℕ × ℕ) (es : List Entry)
    → All (λ e. covers r (hash e) ≡ true) es
    → keep_if (moves r.0 r.1) es ≡ es
All-move r [] o = refl
All-move (min, max) (e ∷ es) o = ground (arith, o.0, All-move (min, max) es o.1)

All-stay :
    (r : ℕ × ℕ) (es : List Entry)
    → All (λ e. covers r (hash e) ≡ true) es
    → keep_if (stays r.0 r.1) es ≡ []
All-stay r [] o = refl
All-stay (min, max) (e ∷ es) o = ground (arith, o.0, All-stay (min, max) es o.1)

appended :
    (a b : List Output) (p q r s : Output)
    → ((((a ++ b) ++ p ∷ []) ++ q ∷ []) ++ r ∷ []) ++ s ∷ [] ≡ a ++ (b ++ p ∷ q ∷ r ∷ s ∷ [])
appended a b p q r s = simp append_assoc

-- The neighbour that gets the range: the successor if the range begins at 0, else the predecessor.
abbrev pub heir : Node → Stream → Stream → Stream
heir n next previous = if n.hash_range.0 == 0 then next else previous

-- In Q18 a node whose entries are all in its range, whose neighbours are there and can be reached,
-- and that has an IPv4 address for its successor, hands every entry over, in order, to its
-- successor if its range begins at 0 and else to its predecessor, then closes and shuts down the
-- stream to its successor, tells its predecessor the successor to connect to, shuts that stream
-- down, and ends with no entries.
pub leaves_nothing :
    (w : World) (next previous : Stream) (ip port : ℕ)
    → IsOwned w.node
    → w.node.successor ≡ some next
    → w.node.predecessor ≡ some previous
    → w.node.successor_listen ≡ some (v4 ip port)
    → w.reachable next.peer_addr ≡ true
    → w.reachable previous.peer_addr ≡ true
    → step_q18 w
      ≡ ok (
        tt,
        record w {
          node = record (w.node) { values = []; running = false };
          sent =
              w.sent
              ++ (map (handed (heir w.node next previous)) w.node.values
                  ++ tcp_sent next (net_close_connection NetCloseConnection.new)
                    ∷ shut_down next
                    ∷ tcp_sent previous (net_leaving (NetLeaving.new ip port))
                    ∷ shut_down previous
                    ∷ []);
        },
      )
unfolding step_q18 opened
leaves_nothing w next previous ip port o s p l rn rp =
    let moved =
      transfer_lem (w.node.hash_range.0 == 0) w.node.hash_range.0 w.node.hash_range.1
        (heir w.node next previous) w (to_heir w.node next previous s p)
        (heir_reached w next previous rn rp) in
    rw (
      moved,
      All-move w.node.hash_range w.node.values o,
      All-stay w.node.hash_range w.node.values o,
      s,
      rn,
      l,
      rn,
      p,
      rp,
      rp,
      appended w.sent,
    )
  where
    to_heir :
        (n : Node) (next previous : Stream)
        → n.successor ≡ some next
        → n.predecessor ≡ some previous
        → (if n.hash_range.0 == 0 then n.successor else n.predecessor) ≡ some (heir n next previous)
    to_heir n next previous s p = ground arith

    heir_reached :
        (w : World) (next previous : Stream)
        → w.reachable next.peer_addr ≡ true
        → w.reachable previous.peer_addr ≡ true
        → w.reachable (heir w.node next previous).peer_addr ≡ true
    heir_reached w next previous rn rp = elim (Bool-cases (w.node.hash_range.0 == 0)) [
      | inl e ↦ rw e rn
      | inr e ↦ rw e rp
    ]

-- In Q11 a node whose range does not begin at 0, with both neighbours there, its predecessor within
-- reach and nothing buffered from it, panics if the next poll brings from its predecessor any
-- well-formed message of at least one byte, shorter than the buffer, that is not a
-- NET_NEW_RANGE_RESPONSE.
pub leaving_panics :
    (w : World) (next previous : Stream) (p : Pdu) (rest : List (List Event))
    → w.node.hash_range.0 == 0 ≡ false
    → w.node.successor ≡ some next
    → w.node.predecessor ≡ some previous
    → w.reachable previous.peer_addr ≡ true
    → w.polls ≡ handed_down p ∷ rest
    → w.node.predecessor_wrapper ≡ TcpWrapper.new
    → IsWire p
    → 1 ≤ length (to_bytes p)
    → length (to_bytes p) < buffer_size
    → as_new_range_response (received p) ≡ none
    → step_q11 w ≡ panic
unfolding step_q11 opened
leaving_panics w next previous p rest z s q r e n i one fits other =
    let told : World = record w {
      node = record (w.node) { successor = some next; predecessor = some previous };
      sent =
          w.sent
          ++ tcp_sent previous
              (net_new_range (NetNewRange.new w.node.hash_range.0 w.node.hash_range.1))
            ∷ [];
    } in
    rw (s, q, z, r)
      (rw (await_predecessor_message told previous p rest refl e n i one fits, other) refl)
