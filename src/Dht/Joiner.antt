-- ===== src/Dht/Joiner.antt =====
-- The rounds of a node that joins: it takes its range, and then the entries in it.
use distributed_hash_table.Prelude.{
  ◌≤◌, ◌<◌, ◌≡◌, refl, sym, ap, ◌∙◌, List, [], ◌∷◌, ◌++◌, some, true, false, ok, arith, length, All,
  append-nil, length-append,
}
use distributed_hash_table.Pdu.SocketAddr.{SocketAddr}
use distributed_hash_table.Pdu.ValInsert
use distributed_hash_table.Pdu.NetJoinResponse
use distributed_hash_table.Pdu.NetJoinResponse.{NetJoinResponsePdu}
use distributed_hash_table.Pdu.Message.{Pdu, val_insert, net_join_response, to_bytes, IsWire}
use distributed_hash_table.Socket.Buffer.{buffer_size}
use distributed_hash_table.Socket.Buffer.Drain.{concat}
use distributed_hash_table.Socket.UdpWrapper
use distributed_hash_table.Socket.TcpWrapper
use distributed_hash_table.Socket.TcpWrapper.{Read, received}
use distributed_hash_table.Socket.Parse.{parse_pdu}
use distributed_hash_table.Socket.TcpWrapper.TryRead.{try_read_delivers}
use distributed_hash_table.Node.Entry.{Entry, hash}
use distributed_hash_table.Node.Types.{World, Stream, Event, predecessor_ready, connected, q6, q8}
use distributed_hash_table.Node.Exec.{pure, opened}
use distributed_hash_table.Node.Util.{covers}
use distributed_hash_table.Node.Run.{
  lift, serve_predecessor, read_predecessor, handle_event, handle_events,
}
use distributed_hash_table.Node.Joining.{handed_down, step_in_q8}
use distributed_hash_table.Node.Handover.{handed_over, absorbed, absorbs}
use distributed_hash_table.Dht.Rounds.{IsReady, hop, begun, hop-begun}
use distributed_hash_table.Dht.Heir.{inserts, arrived_from, messages_read}

-- A node in Q8, with a stream from the node that it asked.
pub record IsJoining (j : World) (previous : Stream) : Type 0 where
  pub state : j.node.state ≡ q8
  pub values : j.node.values ≡ []
  pub should_close : j.node.should_close ≡ false
  pub udp_wrapper : j.node.udp_wrapper ≡ UdpWrapper.new
  pub predecessor_wrapper : j.node.predecessor_wrapper ≡ TcpWrapper.new
  pub reachable : (a : SocketAddr) → j.reachable a ≡ true
  pub predecessor : j.node.predecessor ≡ some previous

-- It with its range and its successor.
pub record Placed (p : NetJoinResponsePdu) (v : World) : Type 0 where
  pub ready : IsReady v
  pub hash_range : v.node.hash_range ≡ (p.range_start, p.range_end)
  pub values : v.node.values ≡ []
  pub successor : v.node.successor ≡ some (record { peer_addr = NetJoinResponse.get_next_addr p })

pub takes_place :
    (j : World) (previous : Stream) (p : NetJoinResponsePdu)
    → IsJoining j previous
    → IsWire (net_join_response p)
    → (v : World) × (hop (handed_down (net_join_response p)) j ≡ ok v) × Placed p v
takes_place j previous p i w =
    let next = NetJoinResponse.get_next_addr p in
    let asked : World = record j { polls = handed_down (net_join_response p) ∷ []; sent = [] } in
    let v : World = record asked {
      node = record (j.node) {
        state = q6;
        hash_range = (p.range_start, p.range_end);
        successor_listen = some next;
        successor = some (record { peer_addr = next });
      };
      polls = [];
      sent = connected next ∷ [];
    } in
    (
      v,
      rw
          (step_in_q8 asked previous p [] i.state i.predecessor refl i.predecessor_wrapper w
            (i.reachable next))
          refl,
      record {
        ready = record {
          state = refl;
          should_close = i.should_close;
          udp_wrapper = i.udp_wrapper;
          predecessor_wrapper = i.predecessor_wrapper;
          reachable = i.reachable;
          next = record { peer_addr = next };
          successor = refl;
          previous = previous;
          predecessor = i.predecessor;
        };
        hash_range = refl;
        values = i.values;
        successor = refl;
      },
    )

-- What one read gives, where it gives anything.
abbrev delivered : List Pdu → List Read
delivered [] = []
delivered (p ∷ ps) = received (concat (p ∷ ps)) ∷ []

-- The poll at which messages come from the predecessor, if there are any.
abbrev pub brought : List Pdu → List Event
brought ps = predecessor_ready (delivered ps) ∷ []

arrived_from-inserts :
    (peer : SocketAddr) (es : List Entry) → arrived_from peer (inserts es) ≡ handed_over peer es
arrived_from-inserts peer [] = refl
arrived_from-inserts peer (e ∷ es) =
    ap (λ ms. (val_insert (ValInsert.new e.ssn e.name e.email), peer) ∷ ms)
      (arrived_from-inserts peer es)

some_bytes : (e : Entry) (es : List Entry) → 1 ≤ length (concat (inserts (e ∷ es)))
unfolding to_bytes ValInsert.to_bytes
some_bytes e es = omega (
  arith,
  length-append (to_bytes (val_insert (ValInsert.new e.ssn e.name e.email))) (concat (inserts es)),
)

nothing_read :
    (peer : SocketAddr) → TcpWrapper.try_read TcpWrapper.new peer [] ≡ ok (TcpWrapper.new, false)
nothing_read peer =
    try_read_delivers TcpWrapper.new peer [] [] [] tt tt refl (unfold parse_pdu in refl)
      (omega arith)

-- The entries behind those of before; the rest that matters is as it was.
pub record Filled (es : List Entry) (w v : World) : Type 0 where
  pub values : v.node.values ≡ w.node.values ++ es
  pub hash_range : v.node.hash_range ≡ w.node.hash_range
  pub successor : v.node.successor ≡ w.node.successor
  pub ready : IsReady v

entries_read :
    (peer : SocketAddr) (e : Entry) (es : List Entry)
    → All IsWire (inserts (e ∷ es))
    → length (concat (inserts (e ∷ es))) < buffer_size
    → TcpWrapper.try_read TcpWrapper.new peer (delivered (inserts (e ∷ es)))
      ≡ ok (record { incoming_queue = handed_over peer (e ∷ es); buffer = [] }, false)
entries_read peer e es i fits =
    messages_read (inserts (e ∷ es)) peer i (some_bytes e es) fits
    ∙ ap (λ ms. ok (record { incoming_queue = ms; buffer = [] }, false))
        (arrived_from-inserts peer (e ∷ es))

-- `w` with messages queued from its predecessor.
abbrev queued : List (Pdu × SocketAddr) → Stream → World → World
queued ms previous w = record w {
  node = record (w.node) {
    predecessor_wrapper = record { incoming_queue = ms; buffer = [] };
    predecessor = some previous;
  };
}

events-brought :
    (ps : List Pdu) (ms : List (Pdu × SocketAddr)) (w v : World) (previous : Stream)
    → w.node.predecessor_wrapper ≡ TcpWrapper.new
    → w.node.predecessor ≡ some previous
    → TcpWrapper.try_read TcpWrapper.new previous.peer_addr (delivered ps)
      ≡ ok (record { incoming_queue = ms; buffer = [] }, false)
    → serve_predecessor ms (queued ms previous w) ≡ ok (tt, v)
    → handle_events (brought ps) w ≡ ok (tt, v)
unfolding handle_events handle_event lift read_predecessor opened
events-brought ps ms w v previous u n t e = rw (n, u, t, e) refl

pub takes_entries :
    (w : World) (es : List Entry)
    → IsReady w
    → All (λ e. covers w.node.hash_range (hash e) ≡ true) es
    → All IsWire (inserts es)
    → length (concat (inserts es)) < buffer_size
    → (v : World) × (hop (brought (inserts es)) w ≡ ok v) × Filled es w v
takes_entries w [] r c i fits =
    let (time, beats, a, run) = hop-begun (brought []) w r in
    let b = begun w time beats in
    let v = queued [] r.previous b in
    let nothing : serve_predecessor [] v ≡ ok (tt, v) = unfold serve_predecessor pure in refl in
    (
      v,
      run v
          (events-brought [] [] b v r.previous r.predecessor_wrapper r.predecessor
            (nothing_read r.previous.peer_addr) nothing)
          r.should_close,
      record {
        values = sym (append-nil w.node.values);
        hash_range = refl;
        successor = refl;
        ready = record {
          state = r.state;
          should_close = r.should_close;
          udp_wrapper = r.udp_wrapper;
          predecessor_wrapper = refl;
          reachable = r.reachable;
          next = r.next;
          successor = r.successor;
          previous = r.previous;
          predecessor = refl;
        };
      },
    )
takes_entries w (e ∷ es) r c i fits =
    let (time, beats, a, run) = hop-begun (brought (inserts (e ∷ es))) w r in
    let b = begun w time beats in
    let peer = r.previous.peer_addr in
    let heard = queued (handed_over peer (e ∷ es)) r.previous b in
    let v = absorbed (e ∷ es) heard in
    (
      v,
      run v
          (events-brought (inserts (e ∷ es)) (handed_over peer (e ∷ es)) b v r.previous
            r.predecessor_wrapper r.predecessor (entries_read peer e es i fits)
            (absorbs heard peer e es c))
          r.should_close,
      record {
        values = refl;
        hash_range = refl;
        successor = refl;
        ready = record {
          state = refl;
          should_close = r.should_close;
          udp_wrapper = r.udp_wrapper;
          predecessor_wrapper = refl;
          reachable = r.reachable;
          next = r.next;
          successor = r.successor;
          previous = r.previous;
          predecessor = refl;
        };
      },
    )
