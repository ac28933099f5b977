-- ===== src/Dht/Inheritance.antt =====
-- The node before one that leaves: it takes the range over, and then has the entries.
use distributed_hash_table.Prelude.{
  ℕ, ◌+◌, ◌≤◌, ◌<◌, ◌≡◌, refl, ap, ◌∙◌, List, [], ◌∷◌, ◌++◌, some, none, true, false, ok, ◌>>=◌,
  ◌==◌, ◌&&◌, arith, length, All, append-nil, Bool-cases, inl, inr,
}
use mathlib.Core.Path.{subst}
use distributed_hash_table.Pdu.SocketAddr.{SocketAddr, v4}
use distributed_hash_table.Pdu.NetNewRange
use distributed_hash_table.Pdu.NetNewRangeResponse
use distributed_hash_table.Pdu.NetLeaving
use distributed_hash_table.Pdu.Message.{
  net_new_range, net_new_range_response, net_leaving, to_bytes, IsWire,
}
use distributed_hash_table.Socket.Buffer.{buffer_size}
use distributed_hash_table.Socket.Buffer.Drain.{concat}
use distributed_hash_table.Socket.Parse.RoundTrip.{size-length}
use distributed_hash_table.Socket.TcpWrapper
use distributed_hash_table.Node.Entry.{Entry, hash}
use distributed_hash_table.Node.Types.{World, Stream, connected, tcp_sent, q6, q15, q16}
use distributed_hash_table.Node.Exec.{opened}
use distributed_hash_table.Node.Util.{covers, get_listen_addr}
use distributed_hash_table.Node.Sockets.{connect_to_successor}
use distributed_hash_table.Node.States.{is_above, is_own_address, take_last_pdu, step_q16}
use distributed_hash_table.Node.Run.{step}
use distributed_hash_table.Node.Start.{step_at}
use distributed_hash_table.Node.Ring.{merged, merged_above, offer, answers_offer}
use distributed_hash_table.Dht.Rounds.{advance, IsReady}
use distributed_hash_table.Dht.Rounds.{hop, begun, hop-begun, messages_to, messages_to-sent}
use distributed_hash_table.Dht.Heir.{
  handed_up, inserts, beside, events-successor, offered, serve-offer, endowed, serve-handover,
}

-- The heir, with the range of the node that leaves.
pub record Taken (h : World) (range : ℕ × ℕ) (next : Stream) (v : World) : Type 0 where
  pub ready : IsReady v
  pub successor_wrapper : v.node.successor_wrapper ≡ TcpWrapper.new
  pub successor : v.node.successor ≡ some next
  pub hash_range : v.node.hash_range ≡ (h.node.hash_range.0, range.1)
  pub values : v.node.values ≡ h.node.values
  pub own_address : v.node.own_address ≡ h.node.own_address
  pub listen_socket : v.node.listen_socket ≡ h.node.listen_socket
  pub told : messages_to next v.sent ≡ net_new_range_response NetNewRangeResponse.new ∷ []

offer-IsWire :
    (range : ℕ × ℕ) → range.0 ≤ range.1 → range.1 < 256 → IsWire (net_new_range (offer range))
unfolding NetNewRange.new
offer-IsWire range le lt = record { tag = refl; range_start = omega arith; range_end = lt }

above :
    (h range : ℕ × ℕ)
    → range.0 ≡ h.1 + 1
    → range.0 ≤ range.1
    → range.1 < 256
    → is_above h (offer range) ≡ true
unfolding NetNewRange.new
above (a, b) (c, d) e le lt = ground arith

pub takes_range :
    (h : World) (range : ℕ × ℕ) (next : Stream)
    → IsReady h
    → h.node.successor_wrapper ≡ TcpWrapper.new
    → h.node.successor ≡ some next
    → range.0 ≡ h.node.hash_range.1 + 1
    → range.0 ≤ range.1
    → range.1 < 256
    → (v : World) × ((hop (handed_up (net_new_range (offer range) ∷ [])) h >>= advance) ≡ ok v)
      × Taken h range next v
takes_range h range next r u s adjacent le lt =
    let p = net_new_range (offer range) in
    let (time, beats, a, run) = hop-begun (handed_up (p ∷ [])) h r in
    let wire = offer-IsWire range le lt in
    let bytes = size-length p wire in
    let whole = ap length (append-nil (to_bytes p)) in
    let asked = offered (offer range) (beside next (begun h time beats)) in
    let read =
      events-successor (p ∷ []) (begun h time beats) asked next u s (wire, tt)
        (omega (arith, bytes, whole)) (omega (arith, bytes, whole))
        (serve-offer (offer range) (beside next (begun h time beats)) next.peer_addr) in
    let took =
      answers_offer asked (offer range) next r.previous refl refl r.predecessor
        (r.reachable next.peer_addr) (r.reachable r.previous.peer_addr) in
    let answer = net_new_range_response NetNewRangeResponse.new in
    let v : World = record asked {
      node = record (asked.node) {
        hash_range = merged h.node.hash_range (offer range);
        last_pdu = none;
        state = q6;
      };
      sent = beats ++ tcp_sent next answer ∷ [];
    } in
    (
      v,
      rw
          (
            run asked read r.should_close,
            step_at q15 asked refl,
            took,
            above h.node.hash_range range adjacent le lt,
          )
          refl,
      record {
        ready = record {
          state = refl;
          should_close = r.should_close;
          udp_wrapper = r.udp_wrapper;
          predecessor_wrapper = r.predecessor_wrapper;
          reachable = r.reachable;
          next = next;
          successor = refl;
          previous = r.previous;
          predecessor = r.predecessor;
        };
        successor_wrapper = refl;
        successor = refl;
        hash_range = merged_above h.node.hash_range range adjacent le lt;
        values = refl;
        own_address = refl;
        listen_socket = refl;
        told = a.no_messages next (tcp_sent next answer ∷ []) ∙ messages_to-sent next answer [];
      },
    )

own_address-other :
    (w : World) (ip port own local_ip local_port : ℕ)
    → w.node.own_address ≡ some own
    → w.node.listen_socket ≡ v4 local_ip local_port
    → ((ip == own) && (port == local_port)) ≡ false
    → is_own_address (NetLeaving.new ip port) w ≡ ok (false, w)
unfolding is_own_address get_listen_addr opened NetLeaving.new
own_address-other w ip port own local_ip local_port o l other = elim (Bool-cases (ip == own)) [
  | inl e ↦
      let f : (port == local_port) ≡ false =
        subst (λ b. (b && (port == local_port)) ≡ false) e other in
      rw (o, e, l, f) refl
  | inr e ↦ rw (o, e) refl
]

-- A node that is told of another successor connects to it.
step_in_q16 :
    (w : World) (ip port own local_ip local_port : ℕ)
    → w.node.state ≡ q16
    → w.node.last_pdu ≡ some (net_leaving (NetLeaving.new ip port))
    → w.node.own_address ≡ some own
    → w.node.listen_socket ≡ v4 local_ip local_port
    → ((ip == own) && (port == local_port)) ≡ false
    → w.reachable (v4 ip port) ≡ true
    → step w
      ≡ ok (
        tt,
        record w {
          node = record (w.node) {
            last_pdu = none;
            successor_listen = some (v4 ip port);
            successor = some (record { peer_addr = v4 ip port });
            state = q6;
          };
          sent = w.sent ++ connected (v4 ip port) ∷ [];
        },
      )
unfolding step_q16 take_last_pdu connect_to_successor opened NetLeaving.new NetLeaving.get_new_addr
step_in_q16 w ip port own local_ip local_port q p o l other reach =
    let taken : World = record w { node = record (w.node) { last_pdu = none } } in
    step_at q16 w q
    ∙ rw (p, own_address-other taken ip port own local_ip local_port o l other, reach) refl

-- The heir, with the entries of the node that left, and connected to its next successor.
pub record Inherited (h : World) (es : List Entry) (next : SocketAddr) (v : World) : Type 0 where
  pub ready : IsReady v
  pub values : v.node.values ≡ h.node.values ++ es
  pub hash_range : v.node.hash_range ≡ h.node.hash_range
  pub successor : v.node.successor ≡ some (record { peer_addr = next })
  pub last_pdu : v.node.last_pdu ≡ none

pub inherits :
    (h : World) (es : List Entry) (next : Stream) (ip port own local_ip local_port : ℕ)
    → IsReady h
    → h.node.successor_wrapper ≡ TcpWrapper.new
    → h.node.successor ≡ some next
    → h.node.own_address ≡ some own
    → h.node.listen_socket ≡ v4 local_ip local_port
    → ((ip == own) && (port == local_port)) ≡ false
    → All (λ e. covers h.node.hash_range (hash e) ≡ true) es
    → All IsWire (inserts es ++ net_leaving (NetLeaving.new ip port) ∷ [])
    → 1 ≤ length (concat (inserts es ++ net_leaving (NetLeaving.new ip port) ∷ []))
    → length (concat (inserts es ++ net_leaving (NetLeaving.new ip port) ∷ [])) < buffer_size
    → (v : World) × ((hop (handed_up (inserts es ++ net_leaving (NetLeaving.new ip port) ∷ [])) h
          >>= advance)
        ≡ ok v)
      × Inherited h es (v4 ip port) v
inherits h es next ip port own local_ip local_port r u s o l other owned wire one fits =
    let p = NetLeaving.new ip port in
    let ps = inserts es ++ net_leaving p ∷ [] in
    let (time, beats, a, run) = hop-begun (handed_up ps) h r in
    let mid = beside next (begun h time beats) in
    let given = endowed es p mid in
    let read =
      events-successor ps (begun h time beats) given next u s wire one fits
        (serve-handover es p mid next.peer_addr owned) in
    let v : World = record given {
      node = record (given.node) {
        last_pdu = none;
        successor_listen = some (v4 ip port);
        successor = some (record { peer_addr = v4 ip port });
        state = q6;
      };
      sent = beats ++ connected (v4 ip port) ∷ [];
    } in
    (
      v,
      rw
          (
            run given read r.should_close,
            step_in_q16 given ip port own local_ip local_port refl refl o l other
                (r.reachable (v4 ip port)),
          )
          refl,
      record {
        ready = record {
          state = refl;
          should_close = r.should_close;
          udp_wrapper = r.udp_wrapper;
          predecessor_wrapper = r.predecessor_wrapper;
          reachable = r.reachable;
          next = record { peer_addr = v4 ip port };
          successor = refl;
          previous = r.previous;
          predecessor = r.predecessor;
        };
        values = refl;
        hash_range = refl;
        successor = refl;
        last_pdu = refl;
      },
    )
