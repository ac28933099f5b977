-- ===== src/Dht/Passing.antt =====
-- What a node does with a NET_JOIN that it has read: it compares the address in it to its own, and
-- keeps the message or passes it on.
use distributed_hash_table.Prelude.{
  ℕ, ◌≡◌, refl, ap, ◌∙◌, List, [], ◌∷◌, ◌++◌, true, false, some, none, ok, ltb, if◌then◌else◌,
  Bool-cases, inl, inr, Outcome, ◌>>=◌,
}
use distributed_hash_table.Pdu.SocketAddr.{v4, addr_eq}
use distributed_hash_table.Pdu.NetJoin
use distributed_hash_table.Pdu.NetJoin.{NetJoinPdu}
use distributed_hash_table.Pdu.Message.{net_join}
use distributed_hash_table.Node.Types.{World, Stream, Event, tcp_sent, q6, q12, q13, q14}
use distributed_hash_table.Node.Exec.{opened}
use distributed_hash_table.Node.Util.{sub_u8, get_listen_addr}
use distributed_hash_table.Node.States.{take_last_pdu, place_join, update_max, step_q12, step_q14}
use distributed_hash_table.Node.Run.{step}
use distributed_hash_table.Node.Start.{step_at}
use distributed_hash_table.Dht.Hop.{onward, onward-beats, onward-successor}
use distributed_hash_table.Dht.Rounds.{advance, hop}
use distributed_hash_table.Dht.Asking.{Place, place, widened, Listens, Asked}

step_in_q12 :
    (w : World) (p : NetJoinPdu) (s : Stream) (ip port : ℕ)
    → w.node.state ≡ q12
    → w.node.last_pdu ≡ some (net_join p)
    → w.node.successor ≡ some s
    → w.node.listen_socket ≡ v4 ip port
    → step w
      ≡ ok (
        tt,
        record w {
          node = record (w.node) {
            last_pdu = some (net_join p);
            state = if addr_eq (v4 ip port) (NetJoin.get_max_socket_addr p) then q13 else q14;
          };
        },
      )
unfolding step_q12 place_join take_last_pdu get_listen_addr opened
step_in_q12 w p s ip port q l n a =
    step_at q12 w q ∙ (elim (Bool-cases (addr_eq (v4 ip port) (NetJoin.get_max_socket_addr p))) [
      | inl e ↦ rw (n, l, a, e) refl
      | inr e ↦ rw (n, l, a, e) refl
    ])

step_in_q14 :
    (w : World) (p : NetJoinPdu) (s : Stream) (ip port : ℕ)
    → w.node.state ≡ q14
    → w.node.last_pdu ≡ some (net_join p)
    → w.node.successor ≡ some s
    → w.node.listen_socket ≡ v4 ip port
    → w.reachable s.peer_addr ≡ true
    → step w
      ≡ ok (
        tt,
        record w {
          node = record (w.node) { last_pdu = none; state = q6 };
          sent = w.sent ++ tcp_sent s (net_join (widened (place w) p)) ∷ [];
        },
      )
unfolding step_q14 update_max take_last_pdu get_listen_addr opened
step_in_q14 w p s ip port q l n a reach =
    step_at q14 w q
    ∙ (elim (Bool-cases (ltb p.max_span (sub_u8 w.node.hash_range.1 w.node.hash_range.0))) [
      | inl e ↦ rw (n, l, a, e, reach) refl
      | inr e ↦ rw (n, l, a, e, reach) refl
    ])

-- What a node with a NET_JOIN does first: it reads it, and compares the address in it to its own.
abbrev pub look : List Event → World → Outcome World
look events w = hop events w >>= advance

looked :
    (events : List Event) (p : NetJoinPdu) (w v : World)
    → Listens w
    → hop events w ≡ ok v
    → Asked p w v
    → look events w
      ≡ ok (record v {
        node = record (v.node) {
          last_pdu = some (net_join p);
          state = if addr_eq w.node.listen_socket (NetJoin.get_max_socket_addr p) then q13 else q14;
        };
      })
looked events p w v l e a =
    let listens = ap (λ (b : Place). b.0) a.same ∙ l.listen_socket in
    rw
      (
        e,
        step_in_q12 v p a.next l.ip l.port a.state a.last_pdu a.successor listens,
        l.listen_socket,
      )
      refl

-- It passes a message on that names another address.
pub passes :
    (events : List Event) (p : NetJoinPdu) (w v : World)
    → Listens w
    → hop events w ≡ ok v
    → Asked p w v
    → addr_eq w.node.listen_socket (NetJoin.get_max_socket_addr p) ≡ false
    → (u t : World) × (look events w ≡ ok u)
      × (u.node.state ≡ q14)
      × (advance u ≡ ok t)
      × Listens t
      × (place t ≡ place w)
      × (onward t.node.successor t.sent ≡ some (net_join (widened (place w) p)))
passes events p w v l e a other =
    let listens = ap (λ (b : Place). b.0) a.same ∙ l.listen_socket in
    let u : World = record v {
      node = record (v.node) { last_pdu = some (net_join p); state = q14 };
    } in
    let passed = net_join (widened (place v) p) in
    let t : World = record u {
      node = record (u.node) { last_pdu = none; state = q6 };
      sent = u.sent ++ tcp_sent a.next passed ∷ [];
    } in
    (
      u,
      t,
      looked events p w v l e a ∙ rw other refl,
      refl,
      rw
          (step_in_q14 u p a.next l.ip l.port refl refl a.successor listens
            (a.reachable a.next.peer_addr))
          refl,
      record {
        ready = record {
          state = refl;
          should_close = a.should_close;
          udp_wrapper = a.udp_wrapper;
          predecessor_wrapper = a.predecessor_wrapper;
          reachable = a.reachable;
          next = a.next;
          successor = a.successor;
          previous = a.previous;
          predecessor = a.predecessor;
        };
        ip = l.ip;
        port = l.port;
        listen_socket = listens;
        ip_fits = l.ip_fits;
        port_fits = l.port_fits;
      },
      a.same,
      onward-beats v.node.successor v.sent (tcp_sent a.next passed ∷ []) a.beats
          ∙ onward-successor v.node.successor a.next passed a.successor
          ∙ ap (λ b. some (net_join (widened b p))) a.same,
    )

-- It keeps a message that names its own address, and goes to Q13.
pub stops :
    (events : List Event) (p : NetJoinPdu) (w v : World)
    → Listens w
    → hop events w ≡ ok v
    → Asked p w v
    → addr_eq w.node.listen_socket (NetJoin.get_max_socket_addr p) ≡ true
    → (u : World) × (look events w ≡ ok u)
      × (u.node.state ≡ q13)
      × (u.node.last_pdu ≡ some (net_join p))
      × (place u ≡ place w)
stops events p w v l e a own = (
  record v { node = record (v.node) { last_pdu = some (net_join p); state = q13 } },
  looked events p w v l e a ∙ rw own refl,
  refl,
  refl,
  a.same,
)
