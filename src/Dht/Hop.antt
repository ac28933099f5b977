-- ===== src/Dht/Hop.antt =====
-- One round of `run` at a node that is ready and is given one value message.
use distributed_hash_table.Prelude.{
  ℕ, ◌≡◌, refl, ap, ◌∙◌, List, [], ◌∷◌, ◌++◌, true, false, Option, some, none, ok, arith,
  Bool-cases, inl, inr,
}
use distributed_hash_table.Pdu.SocketAddr.{SocketAddr}
use distributed_hash_table.Pdu.Message.{Pdu, IsWire}
use distributed_hash_table.Socket.UdpWrapper
use distributed_hash_table.Socket.UdpWrapper.TryRead.{try_read_one}
use distributed_hash_table.Socket.TcpWrapper
use distributed_hash_table.Node.Entry.{Entry}
use distributed_hash_table.Node.Types.{World, Stream, Output, tcp_sent, udp, predecessor, q6}
use distributed_hash_table.Node.Exec.{opened}
use distributed_hash_table.Node.Util.{in_my_range}
use distributed_hash_table.Node.Run.{
  lift, serve_udp, serve_predecessor, read_predecessor, handle_event, handle_events,
}
use distributed_hash_table.Node.Start.{arrives}
use distributed_hash_table.Node.Joining.{handed_down, message_read}
use distributed_hash_table.Dht.Rounds.{
  IsReady, hop, begun, AreBeats, messages_to, messages_to-sent, replies, hop-begun,
}
use distributed_hash_table.Dht.Requests.{
  Request, insert, remove, lookup, pdu_of, key, handled, handle_pdu-handled, replies_of,
  entries_after, replies_of, pdu_of-fits, received-pdu_of,
}

-- `w` with nothing read and not handled.
abbrev pub drained : World → World
drained w = record w {
  node = record (w.node) { udp_wrapper = UdpWrapper.new; predecessor_wrapper = TcpWrapper.new };
}

events-udp :
    (w : World) (r : Request) (client : SocketAddr) (next : Stream)
    → w.node.udp_wrapper ≡ UdpWrapper.new
    → w.node.predecessor_wrapper ≡ TcpWrapper.new
    → w.node.successor ≡ some next
    → ((a : SocketAddr) → w.reachable a ≡ true)
    → IsWire (pdu_of r)
    → handle_events (arrives (pdu_of r) client) w ≡ ok (tt, handled r next (drained w))
unfolding handle_events handle_event lift serve_udp opened
events-udp w r client next u p n reach i =
    let fits = pdu_of-fits r i in
    rw
      (
        u,
        try_read_one (pdu_of r) client i (omega (arith, fits)),
        received-pdu_of r,
        handle_pdu-handled r (record w { node = record (w.node) { udp_wrapper = UdpWrapper.new } })
            (udp client) next n reach,
      )
      (ap
        (λ t. ok (
          tt,
          handled r next (record w {
            node = record (w.node) { udp_wrapper = UdpWrapper.new; predecessor_wrapper = t };
          }),
        ))
        p)

events-predecessor :
    (w : World) (r : Request) (next previous : Stream)
    → w.node.udp_wrapper ≡ UdpWrapper.new
    → w.node.predecessor_wrapper ≡ TcpWrapper.new
    → w.node.successor ≡ some next
    → w.node.predecessor ≡ some previous
    → ((a : SocketAddr) → w.reachable a ≡ true)
    → IsWire (pdu_of r)
    → handle_events (handed_down (pdu_of r)) w ≡ ok (tt, handled r next (drained w))
unfolding handle_events handle_event lift read_predecessor serve_predecessor opened
events-predecessor w r next previous u p n o reach i =
    let fits = pdu_of-fits r i in
    rw
      (
        o,
        p,
        message_read (pdu_of r) previous.peer_addr i (fits.0) fits.1,
        received-pdu_of r,
        handle_pdu-handled r
            (record w {
              node = record (w.node) {
                predecessor_wrapper = TcpWrapper.new;
                predecessor = some previous;
              };
            })
            (predecessor previous.peer_addr) next n reach,
      )
      (ap
        (λ t. ok (
          tt,
          handled r next (record w {
            node = record (w.node) {
              udp_wrapper = t;
              predecessor_wrapper = TcpWrapper.new;
              predecessor = some previous;
            };
          }),
        ))
        u)

abbrev first : List Pdu → Option Pdu
first [] = none
first (p ∷ ps) = some p

-- The message that a node passes on to its successor.
abbrev pub onward : Option Stream → List Output → Option Pdu
onward none os = none
onward (some next) os = first (messages_to next os)

-- What a round at `w` that ends in `v` does to a request.
pub record Handles (r : Request) (w v : World) : Type 0 where
  pub ready : IsReady v
  pub range : v.node.hash_range ≡ w.node.hash_range
  pub here :
      in_my_range w.node (key r) ≡ true
      → (v.node.values ≡ entries_after r w.node.values)
        × (onward v.node.successor v.sent ≡ none)
        × (replies v.sent ≡ replies (replies_of r w.node.values))
  pub elsewhere :
      in_my_range w.node (key r) ≡ false
      → (v.node.values ≡ w.node.values) × (onward v.node.successor v.sent ≡ some (pdu_of r))

begun-IsReady :
    (w : World) (time : ℕ) (beats : List Output) → IsReady w → IsReady (begun w time beats)
begun-IsReady w time beats h = record {
  state = h.state;
  should_close = h.should_close;
  udp_wrapper = h.udp_wrapper;
  predecessor_wrapper = h.predecessor_wrapper;
  reachable = h.reachable;
  next = h.next;
  successor = h.successor;
  previous = h.previous;
  predecessor = h.predecessor;
}

-- What a request changes in a node that has read it; the rest is as in `w`.
abbrev served : World → List Entry → List Output → World
served w values sent = record (drained w) {
  node = record ((drained w).node) { state = q6; last_pdu = none; values = values };
  sent = sent;
}

served-IsReady :
    (w : World) (values : List Entry) (sent : List Output)
    → IsReady w
    → IsReady (served w values sent)
served-IsReady w values sent h = record {
  state = refl;
  should_close = h.should_close;
  udp_wrapper = refl;
  predecessor_wrapper = refl;
  reachable = h.reachable;
  next = h.next;
  successor = h.successor;
  previous = h.previous;
  predecessor = h.predecessor;
}

handled-IsReady :
    (r : Request) (w : World) (next : Stream) → IsReady w → IsReady (handled r next (drained w))
handled-IsReady r w next h = elim (Bool-cases (in_my_range w.node (key r))) [
  | inl c ↦ rw c (served-IsReady w _ _ h)
  | inr c ↦ rw c (served-IsReady w _ _ h)
]

pub onward-beats :
    (o : Option Stream) (beats os : List Output)
    → AreBeats beats
    → onward o (beats ++ os) ≡ onward o os
onward-beats none beats os a = refl
onward-beats (some next) beats os a = ap first (a.no_messages next os)

pub onward-successor :
    (o : Option Stream) (next : Stream) (p : Pdu)
    → o ≡ some next
    → onward o (tcp_sent next p ∷ []) ≡ some p
onward-successor o next p e = rw e (ap first (messages_to-sent next p []))

onward-replies_of :
    (o : Option Stream) (r : Request) (es : List Entry) → onward o (replies_of r es) ≡ none
onward-replies_of none r es = refl
onward-replies_of (some next) (insert p) es = refl
onward-replies_of (some next) (remove p) es = refl
onward-replies_of (some next) (lookup p) es = refl

handled-Handles :
    (r : Request) (w : World) (next : Stream) (time : ℕ) (beats : List Output)
    → IsReady w
    → w.node.successor ≡ some next
    → AreBeats beats
    → Handles r w (handled r next (drained (begun w time beats)))
handled-Handles r w next time beats h s a =
    let o = w.node.successor in
    let replied = replies_of r w.node.values in
    let passed : List Output = tcp_sent next (pdu_of r) ∷ [] in
    record {
      ready = handled-IsReady r (begun w time beats) next (begun-IsReady w time beats h);
      range = elim (Bool-cases (in_my_range w.node (key r))) [
        | inl c ↦ rw c refl
        | inr c ↦ rw c refl
      ];
      here = λ c. rw c (
        refl,
        onward-beats o beats replied a ∙ onward-replies_of o r w.node.values,
        a.no_replies replied,
      );
      elsewhere =
          λ c. rw c (refl, onward-beats o beats passed a ∙ onward-successor o next (pdu_of r) s);
    }

pub hop-udp :
    (r : Request) (w : World) (client : SocketAddr)
    → IsReady w
    → IsWire (pdu_of r)
    → (v : World) × (hop (arrives (pdu_of r) client) w ≡ ok v) × Handles r w v
hop-udp r w client h i =
    let (time, beats, a, run) = hop-begun (arrives (pdu_of r) client) w h in
    let made = handled-Handles r w h.next time beats h h.successor a in
    (
      handled r h.next (drained (begun w time beats)),
      run _
          (events-udp (begun w time beats) r client h.next h.udp_wrapper h.predecessor_wrapper
            h.successor h.reachable i)
          made.ready.should_close,
      made,
    )

pub hop-predecessor :
    (r : Request) (w : World)
    → IsReady w
    → IsWire (pdu_of r)
    → (v : World) × (hop (handed_down (pdu_of r)) w ≡ ok v) × Handles r w v
hop-predecessor r w h i =
    let (time, beats, a, run) = hop-begun (handed_down (pdu_of r)) w h in
    let made = handled-Handles r w h.next time beats h h.successor a in
    (
      handled r h.next (drained (begun w time beats)),
      run _
          (events-predecessor (begun w time beats) r h.next h.previous h.udp_wrapper
            h.predecessor_wrapper h.successor h.predecessor h.reachable i)
          made.ready.should_close,
      made,
    )
