-- ===== src/Dht/Asking.antt =====
-- One node of a ring that reads a NET_JOIN.
use distributed_hash_table.Prelude.{ℕ, ◌≡◌, refl, true, false, some, ok, arith, ltb, if◌then◌else◌}
use distributed_hash_table.Pdu.Bytes.{IsU16, IsU32}
use distributed_hash_table.Pdu.SocketAddr.{SocketAddr, v4, v6}
use distributed_hash_table.Pdu.NetJoin.{NetJoinPdu}
use distributed_hash_table.Pdu.Message.{net_join, IsWire}
use distributed_hash_table.Socket.Parse.RoundTrip.{size-length}
use distributed_hash_table.Socket.UdpWrapper
use distributed_hash_table.Socket.UdpWrapper.TryRead.{try_read_one}
use distributed_hash_table.Socket.TcpWrapper
use distributed_hash_table.Node.Types.{World, Stream, q12}
use distributed_hash_table.Node.Exec.{opened}
use distributed_hash_table.Node.Util.{sub_u8}
use distributed_hash_table.Node.HandlePdu.{handle_pdu}
use distributed_hash_table.Node.Run.{
  lift, serve_udp, serve_predecessor, read_predecessor, handle_event, handle_events,
}
use distributed_hash_table.Node.Start.{arrives}
use distributed_hash_table.Node.Joining.{handed_down, message_read}
use distributed_hash_table.Dht.Rounds.{IsReady, hop, begun, AreBeats, hop-begun}

-- Where a node listens, and its range.
abbrev pub Place : Type 0
Place = SocketAddr × (ℕ × ℕ)

abbrev pub place : World → Place
place w = (w.node.listen_socket, w.node.hash_range)

-- `max - min`; a node with an IPv6 address, which never lets itself be chosen, counts for nothing.
abbrev pub span : Place → ℕ
span (v4 ip port, (min, max)) = sub_u8 max min
span (v6 ip port, r) = 0

-- A NET_JOIN once it has passed a node.
abbrev pub widened : Place → NetJoinPdu → NetJoinPdu
widened (v4 ip port, (min, max)) p =
    if ltb p.max_span (sub_u8 max min)
    then (record p { max_span = sub_u8 max min; max_address = ip; max_port = port })
    else p
widened (v6 ip port, r) p = p

-- A node in Q6 that listens at an IPv4 address.
pub record Listens (w : World) : Type 0 where
  pub ready : IsReady w
  pub ip : ℕ
  pub port : ℕ
  pub listen_socket : w.node.listen_socket ≡ v4 ip port
  pub ip_fits : IsU32 ip
  pub port_fits : IsU16 port

-- A node that has read a NET_JOIN.
pub record Asked (p : NetJoinPdu) (w v : World) : Type 0 where
  pub state : v.node.state ≡ q12
  pub last_pdu : v.node.last_pdu ≡ some (net_join p)
  pub same : place v ≡ place w
  pub should_close : v.node.should_close ≡ false
  pub udp_wrapper : v.node.udp_wrapper ≡ UdpWrapper.new
  pub predecessor_wrapper : v.node.predecessor_wrapper ≡ TcpWrapper.new
  pub reachable : (a : SocketAddr) → v.reachable a ≡ true
  pub next : Stream
  pub successor : v.node.successor ≡ some next
  pub previous : Stream
  pub predecessor : v.node.predecessor ≡ some previous
  pub beats : AreBeats v.sent

pub hop_udp-Asked :
    (p : NetJoinPdu) (w : World) (client : SocketAddr)
    → IsReady w
    → IsWire (net_join p)
    → (v : World) × (hop (arrives (net_join p) client) w ≡ ok v) × Asked p w v
unfolding handle_events handle_event lift serve_udp handle_pdu opened
hop_udp-Asked p w client h i =
    let (time, beats, a, run) = hop-begun (arrives (net_join p) client) w h in
    let b = begun w time beats in
    let v : World = record b {
      node = record (b.node) {
        udp_wrapper = UdpWrapper.new;
        last_pdu = some (net_join p);
        state = q12;
      };
    } in
    let bytes = size-length (net_join p) i in
    (
      v,
      run v (rw (h.udp_wrapper, try_read_one (net_join p) client i (omega (arith, bytes))) refl)
          h.should_close,
      record {
        state = refl;
        last_pdu = refl;
        same = refl;
        should_close = h.should_close;
        udp_wrapper = refl;
        predecessor_wrapper = h.predecessor_wrapper;
        reachable = h.reachable;
        next = h.next;
        successor = h.successor;
        previous = h.previous;
        predecessor = h.predecessor;
        beats = a;
      },
    )

pub hop_predecessor-Asked :
    (p : NetJoinPdu) (w : World)
    → IsReady w
    → IsWire (net_join p)
    → (v : World) × (hop (handed_down (net_join p)) w ≡ ok v) × Asked p w v
unfolding handle_events handle_event lift read_predecessor serve_predecessor handle_pdu opened
hop_predecessor-Asked p w h i =
    let (time, beats, a, run) = hop-begun (handed_down (net_join p)) w h in
    let b = begun w time beats in
    let v : World = record b {
      node = record (b.node) {
        predecessor_wrapper = TcpWrapper.new;
        predecessor = some h.previous;
        last_pdu = some (net_join p);
        state = q12;
      };
    } in
    let bytes = size-length (net_join p) i in
    (
      v,
      run v
          (rw
            (
              h.predecessor,
              h.predecessor_wrapper,
              message_read (net_join p) h.previous.peer_addr i (omega (arith, bytes))
                  (omega (arith, bytes)),
            )
            refl)
          h.should_close,
      record {
        state = refl;
        last_pdu = refl;
        same = refl;
        should_close = h.should_close;
        udp_wrapper = h.udp_wrapper;
        predecessor_wrapper = refl;
        reachable = h.reachable;
        next = h.next;
        successor = h.successor;
        previous = h.previous;
        predecessor = refl;
        beats = a;
      },
    )
