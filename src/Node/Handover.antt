-- ===== src/Node/Handover.antt =====
-- What a node that takes over a range does with the entries that its neighbour sends.
use distributed_hash_table.Prelude.{
  List, [], ◌∷◌, ◌++◌, map, none, true, ok, ◌≡◌, refl, ap, ◌∙◌, All, append_assoc,
}
use distributed_hash_table.Pdu.SocketAddr.{SocketAddr}
use distributed_hash_table.Pdu.ValInsert
use distributed_hash_table.Pdu.Message.{val_insert}
use distributed_hash_table.Socket.Buffer.{Message}
use distributed_hash_table.Node.Entry.{Entry, hash}
use distributed_hash_table.Node.Types.{World, q6, Source, predecessor}
use distributed_hash_table.Node.Exec.{opened}
use distributed_hash_table.Node.Util.{covers}
use distributed_hash_table.Node.Values.{handle_val_insert}
use distributed_hash_table.Node.States.{step_q9, take_last_pdu, value_operation}
use distributed_hash_table.Node.HandlePdu.{handle_pdu}
use distributed_hash_table.Node.Run.{serve_predecessor}

-- The messages in which a neighbour at `peer` hands over entries.
abbrev pub handed_over : SocketAddr → List Entry → List Message
handed_over peer = map (λ e. (val_insert (ValInsert.new e.ssn e.name e.email), peer))

-- A node with `es` behind its entries, and with nothing queued from its predecessor.
abbrev pub absorbed : List Entry → World → World
absorbed es w = record w {
  node = record (w.node) {
    values = w.node.values ++ es;
    predecessor_wrapper = record (w.node.predecessor_wrapper) { incoming_queue = [] };
    state = q6;
    last_pdu = none;
  };
}

-- `w` with these messages queued from its predecessor.
abbrev queued : List Message → World → World
queued ms w = record w {
  node = record (w.node) {
    predecessor_wrapper = record (w.node.predecessor_wrapper) { incoming_queue = ms };
  };
}

pub insert_one :
    (w : World) (e : Entry) (s : Source)
    → covers w.node.hash_range (hash e) ≡ true
    → handle_pdu (val_insert (ValInsert.new e.ssn e.name e.email)) s w
      ≡ ok (
        tt,
        record w {
          node = record (w.node) {
            values = w.node.values ++ (e ∷ []);
            state = q6;
            last_pdu = none;
          };
        },
      )
unfolding handle_pdu step_q9 take_last_pdu value_operation handle_val_insert opened ValInsert.new
insert_one w e s c = rw c refl

-- A node whose range has the hashes of one or more entries that its predecessor sent as VAL_INSERT
-- messages appends, when it serves these messages, these entries to its own, in order and each
-- once, sends nothing, has none of those messages left in its queue and is in Q6.
pub absorbs :
    (w : World) (peer : SocketAddr) (e : Entry) (es : List Entry)
    → All (λ x. covers w.node.hash_range (hash x) ≡ true) (e ∷ es)
    → serve_predecessor (handed_over peer (e ∷ es)) w ≡ ok (tt, absorbed (e ∷ es) w)
unfolding serve_predecessor opened
absorbs w peer e [] c = rw (insert_one (queued [] w) e (predecessor peer) c.0) refl
absorbs w peer e (x ∷ xs) c =
    let mid = queued (handed_over peer (x ∷ xs)) w in
    rw (insert_one mid e (predecessor peer) c.0) (
      absorbs
        (record mid {
          node = record (mid.node) {
            values = w.node.values ++ (e ∷ []);
            state = q6;
            last_pdu = none;
          };
        })
        peer x xs c.1
      ∙ ap
          (λ vs. ok (
            tt,
            record (absorbed (e ∷ x ∷ xs) w) {
              node = record ((absorbed (e ∷ x ∷ xs) w).node) { values = vs };
            },
          ))
          (append_assoc w.node.values (e ∷ []) (x ∷ xs)))
