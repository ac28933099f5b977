-- ===== src/Dht/Sharing.antt =====
-- A node that shares its range with a node that joins behind it: both ends, round by round.
use distributed_hash_table.Prelude.{
  ℕ, ◌≤◌, ◌<◌, ◌≡◌, refl, sym, ap, ◌∙◌, List, [], ◌∷◌, ◌++◌, map, some, none, true, false, ok, ◌⊎◌,
  arith, length, All, keep_if, append_assoc, append-nil, Bool, Bool-cases, inl, inr,
}
use mathlib.Core.Path.{subst}
use distributed_hash_table.Pdu.Bytes.{IsU32, IsU16}
use distributed_hash_table.Pdu.Text.{Text}
use distributed_hash_table.Socket.Buffer.{buffer_size}
use distributed_hash_table.Socket.Buffer.Drain.{concat}
use distributed_hash_table.Pdu.SocketAddr.{SocketAddr, v4, addr_eq}
use distributed_hash_table.Pdu.NetJoin
use distributed_hash_table.Pdu.NetJoin.{NetJoinPdu}
use distributed_hash_table.Pdu.NetJoinResponse
use distributed_hash_table.Pdu.NetCloseConnection
use distributed_hash_table.Pdu.Message.{
  Pdu, net_join, net_join_response, net_close_connection, IsWire,
}
use distributed_hash_table.Node.Entry.{Entry, hash}
use distributed_hash_table.Node.Types.{
  World, Stream, Output, tcp_sent, shut_down, connected, q6, q13,
}
use distributed_hash_table.Node.Exec.{opened}
use distributed_hash_table.Node.Util.{halves, covers, moves, stays, split_range, get_successor_addr}
use distributed_hash_table.Node.Sockets.{connect_to_successor}
use distributed_hash_table.Node.States.{take_last_pdu, step_q13}
use distributed_hash_table.Node.Run.{step}
use distributed_hash_table.Node.Start.{step_at}
use distributed_hash_table.Node.Transfer.{handed, transfer_lem}
use distributed_hash_table.Node.Ranges.{halves_ends}
use distributed_hash_table.Node.Joining.{handed_down}
use distributed_hash_table.Dht.Rounds.{
  IsReady, advance, hop, messages_to, messages_to-sent, messages_to-append,
}
use distributed_hash_table.Dht.Routing.{table}
use distributed_hash_table.Dht.Tables.{table-before, table-split}
use distributed_hash_table.Dht.Heir.{inserts, messages_to-handed}
use distributed_hash_table.Dht.Joiner.{IsJoining, takes_place, brought, takes_entries}

abbrev pub share : World → List Entry
share w =
    keep_if (moves (halves w.node.hash_range).1.0 (halves w.node.hash_range).1.1) w.node.values

abbrev pub rest : World → List Entry
rest w = keep_if (stays (halves w.node.hash_range).1.0 (halves w.node.hash_range).1.1) w.node.values

-- The answer to a NET_JOIN, of a node with a successor at `ip` and `port`.
abbrev pub welcome : World → ℕ → ℕ → Pdu
welcome w ip port =
    net_join_response
      (NetJoinResponse.new ip port (halves w.node.hash_range).1.0 (halves w.node.hash_range).1.1)

-- What is sent in Q13.
abbrev pub splitting : World → Stream → ℕ → ℕ → List Output
splitting w joiner ip port =
    tcp_sent (record { peer_addr = v4 ip port }) (net_close_connection NetCloseConnection.new)
    ∷ shut_down (record { peer_addr = v4 ip port })
    ∷ connected joiner.peer_addr
    ∷ tcp_sent joiner (welcome w ip port)
    ∷ map (handed joiner) (share w)

-- The node that has made room for another.
abbrev pub split : World → Stream → ℕ → ℕ → World
split w joiner ip port = record w {
  node = record (w.node) {
    successor_listen = some joiner.peer_addr;
    successor = some joiner;
    last_pdu = none;
    hash_range = (halves w.node.hash_range).0;
    values = rest w;
    state = q6;
  };
  sent = w.sent ++ splitting w joiner ip port;
}

appended :
    (a b : List Output) (p q r s : Output)
    → ((((a ++ p ∷ []) ++ q ∷ []) ++ r ∷ []) ++ s ∷ []) ++ b ≡ a ++ (p ∷ q ∷ r ∷ s ∷ b)
appended a b p q r s = simp append_assoc

pub step_in_q13 :
    (w : World) (p : NetJoinPdu) (ip port : ℕ)
    → w.node.state ≡ q13
    → w.node.last_pdu ≡ some (net_join p)
    → w.node.successor ≡ some (record { peer_addr = v4 ip port })
    → ((a : SocketAddr) → w.reachable a ≡ true)
    → step w ≡ ok (tt, split w (record { peer_addr = NetJoin.get_src_socket_addr p }) ip port)
unfolding step_q13 take_last_pdu get_successor_addr connect_to_successor split_range opened
step_in_q13 w p ip port q l s reach =
    let addr = NetJoin.get_src_socket_addr p in
    let joiner : Stream = record { peer_addr = addr } in
    let told : World = record w {
      node = record (w.node) {
        successor_listen = some addr;
        successor = some joiner;
        last_pdu = none;
        hash_range = (halves w.node.hash_range).0;
      };
      sent =
          (((w.sent
                ++ tcp_sent (record { peer_addr = v4 ip port })
                    (net_close_connection NetCloseConnection.new)
                  ∷ [])
              ++ shut_down (record { peer_addr = v4 ip port }) ∷ [])
            ++ connected addr ∷ [])
          ++ tcp_sent joiner (welcome w ip port) ∷ [];
    } in
    let other = (halves w.node.hash_range).1 in
    let moved = transfer_lem true other.0 other.1 joiner told refl (reach addr) in
    step_at q13 w q
    ∙ rw
        (
          s,
          l,
          reach (v4 ip port),
          reach (v4 ip port),
          reach addr,
          reach addr,
          moved,
          appended w.sent,
        )
        refl

messages_to-splitting :
    (w : World) (joiner : Stream) (ip port : ℕ)
    → addr_eq (v4 ip port) joiner.peer_addr ≡ false
    → messages_to joiner (splitting w joiner ip port) ≡ welcome w ip port ∷ inserts (share w)
messages_to-splitting w joiner ip port a =
    let moved = map (handed joiner) (share w) in
    rw a (
      messages_to-sent joiner (welcome w ip port) moved
      ∙ ap (λ ps. welcome w ip port ∷ ps)
          (ap (messages_to joiner) (sym (append-nil moved))
            ∙ messages_to-handed joiner (share w) []
            ∙ append-nil (inserts (share w))))

All-keep_if : (test : Entry → Bool) (es : List Entry) → All (λ e. test e ≡ true) (keep_if test es)
All-keep_if test [] = tt
All-keep_if test (e ∷ es) = elim (Bool-cases (test e)) [
  | inl t ↦ rw t (t, All-keep_if test es)
  | inr f ↦ rw f (All-keep_if test es)
]

-- A node in Q13 that has its successor at `ip` and `port`, and a range that can be split.
pub record IsSplitting (w : World) (p : NetJoinPdu) (ip port : ℕ) : Type 0 where
  pub state : w.node.state ≡ q13
  pub last_pdu : w.node.last_pdu ≡ some (net_join p)
  pub successor : w.node.successor ≡ some (record { peer_addr = v4 ip port })
  pub reachable : (a : SocketAddr) → w.reachable a ≡ true
  pub ip_fits : IsU32 ip
  pub port_fits : IsU16 port
  pub valid : w.node.hash_range.0 ≤ w.node.hash_range.1
  pub bounded : w.node.hash_range.1 < 256
  pub wide : (w.node.hash_range.0 < w.node.hash_range.1) ⊎ (w.node.hash_range.1 < 255)
  pub apart : addr_eq (v4 ip port) (NetJoin.get_src_socket_addr p) ≡ false

halves-lt : (r : ℕ × ℕ) → (halves r).1.0 < 256
unfolding halves
halves-lt (min, max) = omega arith

welcome-IsWire :
    (w : World) (p : NetJoinPdu) (ip port : ℕ)
    → IsSplitting w p ip port
    → IsWire (welcome w ip port)
unfolding NetJoinResponse.new
welcome-IsWire w p ip port h =
    let ends = halves_ends w.node.hash_range.0 w.node.hash_range.1 h.valid h.bounded h.wide in
    record {
      tag = refl;
      next_address = h.ip_fits;
      next_port = h.port_fits;
      range_start = halves-lt w.node.hash_range;
      range_end = omega (arith, ends.1, h.bounded);
    }

-- Suppose that a node in Q13 has a NET_JOIN, a successor at an IPv4 address that is not that of the
-- sender of the NET_JOIN, and a range of u8 numbers that is not empty and not 255 alone; a node in
-- Q8, not asked to close, has nothing buffered, no entries and the stream to the first for its
-- predecessor; both reach everything; and the VAL_INSERTs of the entries in the upper half of the
-- range are well-formed, which leaves out names and email addresses with characters above 127, and
-- fit the buffer of a stream. Then the first sends over the stream that it opens to the other
-- exactly what the other needs for its next two rounds, in which it reads the answer alone and then
-- the entries: the answer with the upper half of the range and the address of its old successor,
-- and the entries in that half. In the end each has its half, the first has the second for its
-- successor and the second the old successor, the second is in Q6 with nothing buffered, and a
-- search of the ring for any number finds what it found before.
pub join_shares :
    (w j : World) (p : NetJoinPdu) (previous : Stream) (ip port : ℕ)
    → IsSplitting w p ip port
    → IsJoining j previous
    → All IsWire (inserts (share w))
    → length (concat (inserts (share w))) < buffer_size
    → (v j1 j2 : World) × (advance w ≡ ok v)
      × (messages_to (record { peer_addr = NetJoin.get_src_socket_addr p }) v.sent
          ≡ messages_to (record { peer_addr = NetJoin.get_src_socket_addr p }) w.sent
            ++ welcome w ip port ∷ inserts (share w))
      × (hop (handed_down (welcome w ip port)) j ≡ ok j1)
      × (hop (brought (inserts (share w))) j1 ≡ ok j2)
      × (v.node.hash_range ≡ (halves w.node.hash_range).0)
      × (v.node.successor ≡ some (record { peer_addr = NetJoin.get_src_socket_addr p }))
      × IsReady j2
      × (j2.node.hash_range ≡ (halves w.node.hash_range).1)
      × (j2.node.successor ≡ some (record { peer_addr = v4 ip port }))
      × ((before after : List World) (ssn : Text)
          → table (before ++ v ∷ j2 ∷ after) ssn ≡ table (before ++ w ∷ after) ssn)
unfolding NetJoinResponse.new NetJoinResponse.get_next_addr
join_shares w j p previous ip port h i wire fits =
    let joiner : Stream = record { peer_addr = NetJoin.get_src_socket_addr p } in
    let response =
      NetJoinResponse.new ip port (halves w.node.hash_range).1.0 (halves w.node.hash_range).1.1 in
    let v = split w joiner ip port in
    let (j1, e, placed) = takes_place j previous response i (welcome-IsWire w p ip port h) in
    let other = (halves w.node.hash_range).1 in
    let owned : All (λ x. covers j1.node.hash_range (hash x) ≡ true) (share w) =
      subst (λ r. All (λ x. covers r (hash x) ≡ true) (share w)) (sym placed.hash_range)
        (All-keep_if (λ x. covers other (hash x)) w.node.values) in
    let (j2, f, filled) = takes_entries j1 (share w) placed.ready owned wire fits in
    let entries = filled.values ∙ ap (λ vs. vs ++ share w) placed.values in
    let range = filled.hash_range ∙ placed.hash_range in
    (
      v,
      j1,
      j2,
      rw (step_in_q13 w p ip port h.state h.last_pdu h.successor h.reachable) refl,
      messages_to-append joiner w.sent (splitting w joiner ip port)
          ∙ ap (λ ps. messages_to joiner w.sent ++ ps)
              (messages_to-splitting w joiner ip port h.apart),
      e,
      f,
      refl,
      refl,
      filled.ready,
      range,
      filled.successor ∙ placed.successor,
      λ before after ssn.
          table-before before (v ∷ j2 ∷ after) (w ∷ after) ssn
            (table-split w v j2 after ssn h.valid h.bounded h.wide refl range refl entries),
    )
