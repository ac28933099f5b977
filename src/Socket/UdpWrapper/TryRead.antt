-- ===== src/Socket/UdpWrapper/TryRead.antt =====
-- Receiving over UDP.
use distributed_hash_table.Prelude.{
  ℕ, ◌+◌, ◌-◌, ◌≤◌, ◌≡◌, refl, List, [], ◌∷◌, ◌++◌, map, ok, none, arith, length, All, append_assoc,
  append-nil, take_whole, length-append, ap,
}
use mathlib.Core.Path.{subst}
use distributed_hash_table.Pdu.Message.{Pdu, to_bytes, IsWire}
use distributed_hash_table.Pdu.SocketAddr.{SocketAddr}
use distributed_hash_table.Socket.Parse.{parse_pdu}
use distributed_hash_table.Socket.Parse.RoundTrip.{received}
use distributed_hash_table.Socket.Buffer.{Message, buffer_size}
use distributed_hash_table.Socket.Buffer.Drain.{concat, drain_all-concat}
use distributed_hash_table.Socket.UdpWrapper.{Receive, datagram, try_read}

-- A datagram of whole messages, and who sent it.
abbrev pub Batch : Type 0
Batch = List Pdu × SocketAddr

abbrev pub datagrams : List Batch → List Receive
datagrams [] = []
datagrams ((ps, src) ∷ bs) = datagram (concat ps) src ∷ datagrams bs

abbrev pub messages : List Batch → List Message
messages [] = []
messages ((ps, src) ∷ bs) = map (λ pdu. (pdu, src)) (map received ps) ++ messages bs

abbrev pub IsBatch : Batch → Type 0
IsBatch b = All IsWire b.0 × (length (concat b.0) ≤ buffer_size)

-- From an empty buffer, datagrams of whole well-formed messages, each no longer than the buffer,
-- are taken apart: try_read queues every message in order of arrival, under the sender of its own
-- datagram and behind those that wait, and leaves nothing in the buffer.
pub try_read_batches :
    (queue : List Message) (bs : List Batch)
    → All IsBatch bs
    → try_read (record { incoming_queue = queue; buffer = [] }) (datagrams bs)
      ≡ ok (record { incoming_queue = queue ++ messages bs; buffer = [] })
unfolding try_read
try_read_batches queue [] w = rw append-nil
try_read_batches queue ((ps, src) ∷ bs) w =
    let all = drain_all-concat ps [] w.0.0 (unfold parse_pdu in refl) in
    let here : List Message = map (λ pdu. (pdu, src)) (map received ps) in
    rw (
      take_whole buffer_size (concat ps) w.0.1,
      rw append-nil at all,
      try_read_batches (queue ++ here) bs w.1,
      append_assoc queue here (messages bs),
    )

-- If a message that fits the buffer is cut in two, with no whole message in the first part, and the
-- parts come as datagrams of two senders, try_read queues the message under the second sender.
pub try_read_mixes :
    (queue : List Message) (p : Pdu) (head tail : List ℕ) (first second : SocketAddr)
    → IsWire p
    → head ++ tail ≡ to_bytes p
    → parse_pdu head ≡ ok none
    → length (to_bytes p) ≤ buffer_size
    → try_read
        (record { incoming_queue = queue; buffer = [] })
        (datagram head first ∷ datagram tail second ∷ [])
      ≡ ok (record { incoming_queue = queue ++ (received p, second) ∷ []; buffer = [] })
unfolding try_read
try_read_mixes queue p head tail first second w e n h =
    let lengths : length head + length tail ≤ buffer_size =
      omega (arith, ap length e, length-append head tail) in
    let nothing : parse_pdu [] ≡ ok none = unfold parse_pdu in refl in
    rw (
      take_whole buffer_size head (omega arith),
      drain_all-concat [] head tt n,
      take_whole (buffer_size - length head) tail (omega arith),
      e,
      simp append-nil at (drain_all-concat (p ∷ []) [] (w, tt) nothing),
      append-nil,
    )

-- One datagram with one message.
pub try_read_one :
    (p : Pdu) (src : SocketAddr)
    → IsWire p
    → length (to_bytes p) ≤ buffer_size
    → try_read (record { incoming_queue = []; buffer = [] }) (datagram (to_bytes p) src ∷ [])
      ≡ ok (record { incoming_queue = (received p, src) ∷ []; buffer = [] })
try_read_one p src w h =
    subst
      (λ bs.
        try_read (record { incoming_queue = []; buffer = [] }) (datagram bs src ∷ [])
        ≡ ok (record { incoming_queue = (received p, src) ∷ []; buffer = [] }))
      (append-nil (to_bytes p))
      (try_read_batches [] ((p ∷ [], src) ∷ []) (((w, tt), rw (append-nil (to_bytes p)) h), tt))
