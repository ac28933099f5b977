-- ===== src/Dht/Heir.antt =====
-- The rounds of a node whose successor leaves: it reads the range, takes it over, and reads the
-- entries and the address of its next successor.
use distributed_hash_table.Prelude.{
  ◌≤◌, ◌<◌, ◌≡◌, refl, ap, ◌∙◌, List, [], ◌∷◌, ◌++◌, map, some, none, true, false, ok, arith,
  length, All, append-nil, append_assoc,
}
use distributed_hash_table.Pdu.SocketAddr.{SocketAddr}
use distributed_hash_table.Pdu.ValInsert
use distributed_hash_table.Pdu.NetNewRange.{NetNewRangePdu}
use distributed_hash_table.Pdu.NetLeaving.{NetLeavingPdu}
use distributed_hash_table.Pdu.Message.{Pdu, val_insert, net_new_range, net_leaving, IsWire}
use distributed_hash_table.Socket.Parse.{parse_pdu}
use distributed_hash_table.Socket.Parse.RoundTrip.{received as arrived}
use distributed_hash_table.Socket.Buffer.{buffer_size}
use distributed_hash_table.Socket.Buffer.Drain.{concat}
use distributed_hash_table.Socket.TcpWrapper
use distributed_hash_table.Socket.TcpWrapper.{received}
use distributed_hash_table.Socket.TcpWrapper.TryRead.{try_read_delivers}
use distributed_hash_table.Node.Entry.{Entry, hash}
use distributed_hash_table.Node.Types.{
  World, Stream, Event, successor_ready, successor, q6, q15, q16,
}
use distributed_hash_table.Node.Exec.{opened}
use distributed_hash_table.Node.Util.{covers}
use distributed_hash_table.Node.HandlePdu.{handle_pdu}
use distributed_hash_table.Node.Run.{
  lift, serve_successor, read_successor, handle_event, handle_events,
}
use distributed_hash_table.Node.Handover.{insert_one}
use distributed_hash_table.Node.Transfer.{handed}
use distributed_hash_table.Dht.Rounds.{messages_to, messages_to-sent}
use distributed_hash_table.Node.Types.{Output}

-- The poll at which messages come from the successor.
abbrev pub handed_up : List Pdu → List Event
handed_up ps = successor_ready (received (concat ps) ∷ []) ∷ []

abbrev pub arrived_from : SocketAddr → List Pdu → List (Pdu × SocketAddr)
arrived_from peer ps = map (λ pdu. (pdu, peer)) (map arrived ps)

abbrev pub inserts : List Entry → List Pdu
inserts = map (λ e. val_insert (ValInsert.new e.ssn e.name e.email))

-- `w` with these messages queued from its successor.
abbrev pub queued : List (Pdu × SocketAddr) → World → World
queued ms w = record w {
  node = record (w.node) { successor_wrapper = record { incoming_queue = ms; buffer = [] } };
}

-- `w` with its successor spelled out.
abbrev pub beside : Stream → World → World
beside next w = record w { node = record (w.node) { successor = some next } }

pub messages_read :
    (ps : List Pdu) (peer : SocketAddr)
    → All IsWire ps
    → 1 ≤ length (concat ps)
    → length (concat ps) < buffer_size
    → TcpWrapper.try_read TcpWrapper.new peer (received (concat ps) ∷ [])
      ≡ ok (record { incoming_queue = arrived_from peer ps; buffer = [] }, false)
messages_read ps peer w one fits =
    try_read_delivers TcpWrapper.new peer (concat ps ∷ []) ps [] (one, tt) w refl
      (unfold parse_pdu in refl) (omega (arith, ap length (append-nil (concat ps))))

pub events-successor :
    (ps : List Pdu) (w v : World) (next : Stream)
    → w.node.successor_wrapper ≡ TcpWrapper.new
    → w.node.successor ≡ some next
    → All IsWire ps
    → 1 ≤ length (concat ps)
    → length (concat ps) < buffer_size
    → serve_successor
        (arrived_from next.peer_addr ps)
        (queued (arrived_from next.peer_addr ps) (beside next w))
      ≡ ok (tt, v)
    → handle_events (handed_up ps) w ≡ ok (tt, v)
unfolding handle_events handle_event lift read_successor opened
events-successor ps w v next u n i one fits e =
    rw (n, u, messages_read ps next.peer_addr i one fits, e) refl

-- The heir with a range that it is offered.
abbrev pub offered : NetNewRangePdu → World → World
offered p w = record w {
  node = record (w.node) {
    successor_wrapper = TcpWrapper.new;
    last_pdu = some (net_new_range p);
    state = q15;
  };
}

pub serve-offer :
    (p : NetNewRangePdu) (w : World) (peer : SocketAddr)
    → serve_successor
        (arrived_from peer (net_new_range p ∷ []))
        (queued (arrived_from peer (net_new_range p ∷ [])) w)
      ≡ ok (tt, offered p w)
unfolding serve_successor handle_pdu opened
serve-offer p w peer = refl

-- The heir with the entries, and about to look for its next successor.
abbrev pub endowed : List Entry → NetLeavingPdu → World → World
endowed es p w = record w {
  node = record (w.node) {
    successor_wrapper = TcpWrapper.new;
    values = w.node.values ++ es;
    last_pdu = some (net_leaving p);
    state = q16;
  };
}

pub serve-handover :
    (es : List Entry) (p : NetLeavingPdu) (w : World) (peer : SocketAddr)
    → All (λ e. covers w.node.hash_range (hash e) ≡ true) es
    → serve_successor
        (arrived_from peer (inserts es ++ net_leaving p ∷ []))
        (queued (arrived_from peer (inserts es ++ net_leaving p ∷ [])) w)
      ≡ ok (tt, endowed es p w)
unfolding serve_successor handle_pdu opened
serve-handover [] p w peer c = rw (append-nil w.node.values) refl
serve-handover (e ∷ es) p w peer c =
    let mid = queued (arrived_from peer (inserts es ++ net_leaving p ∷ [])) w in
    rw (insert_one mid e (successor peer) c.0) (
      serve-handover es p
        (record w {
          node = record (w.node) { values = w.node.values ++ e ∷ []; state = q6; last_pdu = none };
        })
        peer c.1
      ∙ ap
          (λ vs.
            ok (
              tt,
              record (endowed [] p w) { node = record ((endowed [] p w).node) { values = vs } },
            ))
          (append_assoc w.node.values (e ∷ []) es))

pub messages_to-handed :
    (to : Stream) (es : List Entry) (os : List Output)
    → messages_to to (map (handed to) es ++ os) ≡ inserts es ++ messages_to to os
messages_to-handed to [] os = refl
messages_to-handed to (e ∷ es) os =
    let p = val_insert (ValInsert.new e.ssn e.name e.email) in
    messages_to-sent to p (map (handed to) es ++ os)
    ∙ ap (λ ps. p ∷ ps) (messages_to-handed to es os)
