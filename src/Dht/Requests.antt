-- ===== src/Dht/Requests.antt =====
-- A value message at one node of a ring: a round of `run` with the datagram of a client, or with the
-- bytes of the predecessor.
use distributed_hash_table.Prelude.{
  ◌≤◌, ◌<◌, ◌≡◌, refl, List, [], ◌∷◌, ◌++◌, append-nil, true, not, some, none, ok, arith,
  if◌then◌else◌, keep_if, Bool-cases, inl, inr, length,
}
use distributed_hash_table.Pdu.Text.{Text, text_eq}
use distributed_hash_table.Pdu.SocketAddr.{SocketAddr, v4}
use distributed_hash_table.Pdu.ValInsert.{ValInsertPdu}
use distributed_hash_table.Pdu.ValRemove.{ValRemovePdu}
use distributed_hash_table.Pdu.ValLookup.{ValLookupPdu}
use distributed_hash_table.Pdu.Message.{
  Pdu, val_insert, val_remove, val_lookup, val_lookup_response, to_bytes, IsWire,
}
use distributed_hash_table.Socket.Parse.RoundTrip.{received, size-length}
use distributed_hash_table.Socket.Buffer.{buffer_size}
use distributed_hash_table.Node.Entry.{Entry, new}
use distributed_hash_table.Node.Types.{World, Stream, Output, udp_sent, tcp_sent, Source, q6}
use distributed_hash_table.Node.Exec.{opened}
use distributed_hash_table.Node.Util.{in_my_range}
use distributed_hash_table.Node.Values.{
  find, response, forward, handle_val_insert, handle_val_lookup, handle_val_remove,
}
use distributed_hash_table.Node.States.{step_q9, take_last_pdu, value_operation}
use distributed_hash_table.Node.HandlePdu.{handle_pdu}

pub data Request : Type 0 where
  insert : ValInsertPdu → Request
  remove : ValRemovePdu → Request
  lookup : ValLookupPdu → Request

abbrev pub pdu_of : Request → Pdu
pdu_of (insert p) = val_insert p
pdu_of (remove p) = val_remove p
pdu_of (lookup p) = val_lookup p

abbrev pub key : Request → Text
key (insert p) = p.ssn
key (remove p) = p.ssn
key (lookup p) = p.ssn

-- What a request does at its owner: to the entries, and to the sockets.
abbrev pub entries_after : Request → List Entry → List Entry
entries_after (insert p) es = es ++ new p.ssn p.name p.email ∷ []
entries_after (remove p) es = keep_if (λ e. not (text_eq e.ssn p.ssn)) es
entries_after (lookup p) es = es

abbrev pub replies_of : Request → List Entry → List Output
replies_of (insert p) es = []
replies_of (remove p) es = []
replies_of (lookup p) es =
    udp_sent (v4 p.sender_address p.sender_port) (val_lookup_response (response (find p.ssn es)))
    ∷ []

-- The node once it has handled a request.
abbrev pub handled : Request → Stream → World → World
handled r next w =
    if in_my_range w.node (key r)
    then (record w {
      node = record (w.node) {
        state = q6;
        last_pdu = none;
        values = entries_after r w.node.values;
      };
      sent = w.sent ++ replies_of r w.node.values;
    })
    else (record w {
      node = record (w.node) { state = q6; last_pdu = none };
      sent = w.sent ++ tcp_sent next (pdu_of r) ∷ [];
    })

pub handle_pdu-handled :
    (r : Request) (w : World) (s : Source) (next : Stream)
    → w.node.successor ≡ some next
    → ((a : SocketAddr) → w.reachable a ≡ true)
    → handle_pdu (pdu_of r) s w ≡ ok (tt, handled r next w)
unfolding handle_pdu step_q9 take_last_pdu value_operation handle_val_insert handle_val_lookup
    handle_val_remove forward opened
handle_pdu-handled (insert p) w s next n reach = elim (Bool-cases (in_my_range w.node p.ssn)) [
  | inl h ↦ rw (h, append-nil) refl
  | inr h ↦ rw (h, n, reach next.peer_addr) refl
]
handle_pdu-handled (remove p) w s next n reach = elim (Bool-cases (in_my_range w.node p.ssn)) [
  | inl h ↦ rw (h, append-nil) refl
  | inr h ↦ rw (h, n, reach next.peer_addr) refl
]
handle_pdu-handled (lookup p) w s next n reach = elim (Bool-cases (in_my_range w.node p.ssn)) [
  | inl h ↦ rw (h, reach (v4 p.sender_address p.sender_port)) refl
  | inr h ↦ rw (h, n, reach next.peer_addr) refl
]

-- A request is short enough to be read whole.
pub pdu_of-fits :
    (r : Request)
    → IsWire (pdu_of r)
    → (1 ≤ length (to_bytes (pdu_of r))) × (length (to_bytes (pdu_of r)) < buffer_size)
pdu_of-fits (insert p) w =
    let bytes = size-length (val_insert p) w in
    (omega (arith, bytes), omega (arith, bytes, w.body.name_fits, w.body.email_fits))
pdu_of-fits (remove p) w =
    let bytes = size-length (val_remove p) w in (omega (arith, bytes), omega (arith, bytes))
pdu_of-fits (lookup p) w =
    let bytes = size-length (val_lookup p) w in (omega (arith, bytes), omega (arith, bytes))

pub received-pdu_of : (r : Request) → received (pdu_of r) ≡ pdu_of r
received-pdu_of (insert p) = refl
received-pdu_of (remove p) = refl
received-pdu_of (lookup p) = refl
