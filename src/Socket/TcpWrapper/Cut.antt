-- ===== src/Socket/TcpWrapper/Cut.antt =====
-- A message that comes in parts over TCP: what `try_read` of socket_wrapper.rs keeps in the buffer
-- from one call to the next.
use distributed_hash_table.Prelude.{
  ℕ, ◌+◌, ◌<◌, ◌≡◌, ◌≢◌, refl, ap, sym, ◌∙◌, List, [], ◌∷◌, ◌++◌, map, some, none, ok, false, ◌>>=◌,
  arith, length, take, drop, take-append-drop, All, append_assoc,
}
use distributed_hash_table.Pdu.Message.{Pdu, to_bytes, IsWire}
use distributed_hash_table.Pdu.SocketAddr.{SocketAddr}
use distributed_hash_table.Socket.Parse.{parse_pdu}
use distributed_hash_table.Socket.Parse.RoundTrip.{received as arrived}
use distributed_hash_table.Socket.Parse.Prefix.{fatal_cut, parse_pdu-take, prefix-shorter}
use distributed_hash_table.Socket.Buffer.{Message, buffer_size}
use distributed_hash_table.Socket.Buffer.Drain.{concat}
use distributed_hash_table.Socket.TcpWrapper.{TcpWrapper, try_read}
use distributed_hash_table.Socket.TcpWrapper.TryRead.{chunks, joined, NonEmpty, try_read_delivers}

-- The parts of a message and what follows make up the message and what follows.
parts_lem : (bytes rest : List ℕ) (n : ℕ) → take n bytes ++ (drop n bytes ++ rest) ≡ bytes ++ rest
parts_lem bytes rest n =
    sym (append_assoc (take n bytes) (drop n bytes) rest) ∙ ap (◌++ rest) (take-append-drop n bytes)

abbrev queue_all : SocketAddr → List Pdu → List Message
queue_all peer ps = map (λ pdu. (pdu, peer)) (map arrived ps)

queue_all-append :
    (peer : SocketAddr) (ps qs : List Pdu)
    → queue_all peer ps ++ queue_all peer qs ≡ queue_all peer (ps ++ qs)
queue_all-append peer [] qs = refl
queue_all-append peer (p ∷ ps) qs = ap ((arrived p, peer) ∷◌) (queue_all-append peer ps qs)

-- If what is in the buffer and what a socket gives in two calls of try_read make up the bytes of
-- well-formed messages and a tail in which the parser finds none, and the first call ends anywhere
-- within a message, but not behind the name of a VAL_INSERT or VAL_LOOKUP_RESPONSE, then neither
-- call panics, and together they queue every message, as it is parsed, once and in order, behind
-- those that wait; the second keeps the tail. The pieces are not empty and each call has room for
-- its bytes.
pub try_read_resumes :
    (w : TcpWrapper) (peer : SocketAddr) (cs ds : List (List ℕ)) (ps : List Pdu) (p : Pdu)
    (qs : List Pdu) (tail : List ℕ) (n : ℕ)
    → All NonEmpty cs
    → All NonEmpty ds
    → All IsWire ps
    → IsWire p
    → All IsWire qs
    → n < length (to_bytes p)
    → fatal_cut p ≢ some n
    → w.buffer ++ joined cs ≡ concat ps ++ take n (to_bytes p)
    → joined ds ≡ drop n (to_bytes p) ++ (concat qs ++ tail)
    → parse_pdu tail ≡ ok none
    → length w.buffer + length (joined cs) < buffer_size
    → n + length (joined ds) < buffer_size
    → (try_read w peer (chunks cs) >>= λ r. try_read r.0 peer (chunks ds))
      ≡ ok (
        record {
          incoming_queue =
              w.incoming_queue ++ map (λ pdu. (pdu, peer)) (map arrived (ps ++ p ∷ qs));
          buffer = tail;
        },
        false,
      )
try_read_resumes w peer cs ds ps p qs tail n nc nd vs v us h c e g t room room' =
    let part : List ℕ = take n (to_bytes p) in
    let kept : TcpWrapper = record {
      incoming_queue = w.incoming_queue ++ map (λ pdu. (pdu, peer)) (map arrived ps);
      buffer = part;
    } in
    let whole : part ++ joined ds ≡ concat (p ∷ qs) ++ tail =
      ap (part ++◌) g
      ∙ parts_lem (to_bytes p) (concat qs ++ tail) n
      ∙ sym (append_assoc (to_bytes p) (concat qs) tail) in
    let first = try_read_delivers w peer cs ps part nc vs e (parse_pdu-take p n v h c) room in
    let fits : length part + length (joined ds) < buffer_size =
      omega (arith, prefix-shorter (to_bytes p) n h) in
    let queued : kept.incoming_queue ++ queue_all peer (p ∷ qs)
        ≡ w.incoming_queue ++ queue_all peer (ps ++ p ∷ qs) =
      append_assoc w.incoming_queue (queue_all peer ps) (queue_all peer (p ∷ qs))
      ∙ ap (w.incoming_queue ++◌) (queue_all-append peer ps (p ∷ qs)) in
    rw (first, try_read_delivers kept peer ds (p ∷ qs) tail nd (v, us) whole t fits)
      (ap (λ (queue : List Message). ok (record { incoming_queue = queue; buffer = tail }, false))
        queued)
