-- ===== src/Node/States.antt =====
-- The states `q1` to `q18` of a node, and `handle_pdu`.
use distributed_hash_table.Prelude.{
  ℕ, ◌+◌, Option, none, some, Bool, true, false, not, ◌&&◌, ltb, ◌==◌, if◌then◌else◌,
}
use distributed_hash_table.Pdu.SocketAddr.{v4, addr_eq}
use distributed_hash_table.Pdu.StunLookup
use distributed_hash_table.Pdu.NetGetNode
use distributed_hash_table.Pdu.NetGetNodeResponse
use distributed_hash_table.Pdu.NetGetNodeResponse.{NetGetNodeResponsePdu}
use distributed_hash_table.Pdu.NetJoin
use distributed_hash_table.Pdu.NetJoin.{NetJoinPdu}
use distributed_hash_table.Pdu.NetJoinResponse
use distributed_hash_table.Pdu.NetJoinResponse.{NetJoinResponsePdu}
use distributed_hash_table.Pdu.NetCloseConnection
use distributed_hash_table.Pdu.NetNewRange
use distributed_hash_table.Pdu.NetNewRange.{NetNewRangePdu}
use distributed_hash_table.Pdu.NetNewRangeResponse
use distributed_hash_table.Pdu.NetNewRangeResponse.{NetNewRangeResponsePdu}
use distributed_hash_table.Pdu.NetLeaving
use distributed_hash_table.Pdu.NetLeaving.{NetLeavingPdu}
use distributed_hash_table.Pdu.Message.{
  Pdu, net_get_node, net_get_node_response, net_join, net_join_response, net_close_connection,
  net_new_range, net_new_range_response, net_leaving, val_insert, val_remove, val_lookup,
  stun_lookup,
}
use distributed_hash_table.Node.Patterns.{
  as_stun_response, as_get_node_response, as_join, as_join_response, as_new_range,
  as_new_range_response, as_leaving,
}
use distributed_hash_table.Node.Types.{Stream, q2, q3, q4, q5, q6, q7, q8, q11, q13, q14, q18}
use distributed_hash_table.Node.Exec.{
  Exec, pure, fail, ◌>>=◌, ◌>>◌, this, modify, become, or_fail, udp_send, tcp_send, shutdown,
}
use distributed_hash_table.Node.Sockets.{
  await_pdu_udp, await_pdu, accept_predecessor, connect_to_successor,
}
use distributed_hash_table.Node.Util.{
  sub_u8, split_range, as_v4, get_listen_addr, get_successor_addr, transfer,
}
use distributed_hash_table.Node.Values.{handle_val_insert, handle_val_lookup, handle_val_remove}

-- `self.last_pdu.take()`, which panics in every use unless a message is there.
unfoldable pub take_last_pdu : Exec Pdu
take_last_pdu = do n ← this; modify λ n. record n { last_pdu = none }; or_fail n.last_pdu

unfoldable pub step_q1 : Exec (Unit {0})
step_q1 = do n ← this; udp_send (stun_lookup StunLookup.new) n.tracker_addr; become q2

unfoldable pub step_q2 : Exec (Unit {0})
step_q2 = do
  m ← await_pdu_udp
  pdu ← or_fail (as_stun_response m.0)
  modify λ n. record n { own_address = some pdu.address }
  become q3

unfoldable pub step_q3 : Exec (Unit {0})
step_q3 = do
  n ← this
  udp_send (net_get_node NetGetNode.new) n.tracker_addr
  m ← await_pdu_udp
  pdu ← or_fail (as_get_node_response m.0)
  if pdu.address == 0 && pdu.port == 0
      then become q4
      else (do modify λ n. record n { last_pdu = some (net_get_node_response pdu) }; become q7)

unfoldable pub step_q4 : Exec (Unit {0})
step_q4 = do modify λ n. record n { hash_range = (0, 255) }; become q6

unfoldable pub step_q5 : Exec (Unit {0})
step_q5 = do
  last ← take_last_pdu
  next_node ← or_fail (as_join last)
  socket ← connect_to_successor (NetJoin.get_src_socket_addr next_node)
  (mins, maxs) ← split_range
  local ← get_listen_addr
  n ← this
  own ← or_fail n.own_address
  tcp_send socket (net_join_response (NetJoinResponse.new own local.1 mins maxs))
  modify λ n. record n { successor = some socket }
  transfer true mins maxs
  accept_predecessor
  become q6

unfoldable pub step_q7 : Exec (Unit {0})
step_q7 = do
  last ← take_last_pdu
  next_node ← or_fail (as_get_node_response last)
  local ← get_listen_addr
  n ← this
  own ← or_fail n.own_address
  udp_send (net_join (NetJoin.new own local.1 0 0 0)) (NetGetNodeResponse.get_addr next_node)
  accept_predecessor
  become q8

unfoldable pub step_q8 : Exec (Unit {0})
step_q8 = do
  m ← await_pdu false
  pdu ← or_fail (as_join_response m.0)
  modify λ n. record n { hash_range = (pdu.range_start, pdu.range_end) }
  let addr = NetJoinResponse.get_next_addr pdu
  socket ← connect_to_successor addr
  modify λ n. record n { successor_listen = some addr; successor = some socket }
  become q6

unfoldable pub value_operation : Pdu → Exec (Unit {0})
value_operation (val_insert p) = handle_val_insert p
value_operation (val_remove p) = handle_val_remove p
value_operation (val_lookup p) = handle_val_lookup p
value_operation _ = fail

unfoldable pub step_q9 : Exec (Unit {0})
step_q9 = do last ← take_last_pdu; value_operation last; become q6

unfoldable pub leave_ring : Option Stream → Exec (Unit {0})
leave_ring none = modify λ n. record n { running = false }
leave_ring (some s) = become q11

unfoldable pub step_q10 : Exec (Unit {0})
step_q10 = do n ← this; leave_ring n.successor

unfoldable pub step_q11 : Exec (Unit {0})
step_q11 = do
  n ← this
  next ← or_fail n.successor
  previous ← or_fail n.predecessor
  let new_range = net_new_range (NetNewRange.new n.hash_range.0 n.hash_range.1)
  let to_successor = n.hash_range.0 == 0
  tcp_send (if to_successor then next else previous) new_range
  m ← await_pdu to_successor
  response ← or_fail (as_new_range_response m.0)
  become q18

unfoldable pub place_join : Option Stream → Exec (Unit {0})
place_join none = become q5
place_join (some s) = do
  last ← take_last_pdu
  pdu ← or_fail (as_join last)
  own ← get_listen_addr
  modify λ n. record n { last_pdu = some (net_join pdu) }
  if addr_eq (v4 own.0 own.1) (NetJoin.get_max_socket_addr pdu) then become q13 else become q14

unfoldable pub step_q12 : Exec (Unit {0})
step_q12 = do n ← this; place_join n.successor

unfoldable pub step_q13 : Exec (Unit {0})
step_q13 = do
  successor_addr ← get_successor_addr
  n ← this
  old ← or_fail n.successor
  last ← take_last_pdu
  pdu ← or_fail (as_join last)
  tcp_send old (net_close_connection NetCloseConnection.new)
  shutdown old
  modify λ n. record n { successor = none }
  let addr = NetJoin.get_src_socket_addr pdu
  stream ← connect_to_successor addr
  modify λ n. record n { successor_listen = some addr; successor = some stream; last_pdu = none }
  (mins, maxs) ← split_range
  tcp_send stream
      (net_join_response (NetJoinResponse.new successor_addr.0 successor_addr.1 mins maxs))
  transfer true mins maxs
  become q6

-- A node with a wider range than any before puts itself into a NET_JOIN that it forwards.
unfoldable pub update_max : NetJoinPdu → Exec NetJoinPdu
update_max pdu = do
  n ← this
  let span = sub_u8 n.hash_range.1 n.hash_range.0
  if ltb pdu.max_span span
      then (do
        a ← get_listen_addr
        pure (record pdu { max_span = span; max_address = a.0; max_port = a.1 }))
      else pure pdu

unfoldable pub step_q14 : Exec (Unit {0})
step_q14 = do
  last ← take_last_pdu
  pdu ← or_fail (as_join last)
  updated ← update_max pdu
  n ← this
  socket ← or_fail n.successor
  tcp_send socket (net_join updated)
  become q6

-- `max + 1` of a `u8`, which wraps.
abbrev pub next_u8 : ℕ → ℕ
next_u8 max = if max == 255 then 0 else max + 1

-- The test of `q15`.
abbrev pub is_above : ℕ × ℕ → NetNewRangePdu → Bool
is_above (min, max) r = not (max == 255) && r.range_start == next_u8 max

unfoldable pub step_q15 : Exec (Unit {0})
step_q15 = do
  last ← take_last_pdu
  new_range ← or_fail (as_new_range last)
  n ← this
  let answer = net_new_range_response NetNewRangeResponse.new
  if is_above n.hash_range new_range
      then (do
        modify λ n. record n { hash_range = (n.hash_range.0, new_range.range_end) }
        s ← or_fail n.successor
        tcp_send s answer)
      else (do
        modify λ n. record n { hash_range = (new_range.range_start, n.hash_range.1) }
        s ← or_fail n.predecessor
        tcp_send s answer)
  become q6

-- The new successor is this node itself.
unfoldable pub is_own_address : NetLeavingPdu → Exec Bool
is_own_address pdu = do
  n ← this
  own ← or_fail n.own_address
  if pdu.new_address == own
      then (do local ← get_listen_addr; pure (pdu.new_port == local.1))
      else pure false

unfoldable pub step_q16 : Exec (Unit {0})
step_q16 = do
  last ← take_last_pdu
  pdu ← or_fail (as_leaving last)
  alone ← is_own_address pdu
  if alone then (modify λ n. record n { successor = none; predecessor = none }) else (do
    modify λ n. record n { successor = none }
    stream ← connect_to_successor (NetLeaving.get_new_addr pdu)
    modify λ n. record n { successor = some stream })
  become q6

unfoldable pub disconnect : Option Stream → Exec (Unit {0})
disconnect none = pure tt
disconnect (some s) = do shutdown s; modify λ n. record n { predecessor = none }

unfoldable pub step_q17 : Exec (Unit {0})
step_q17 = do
  n ← this
  disconnect n.predecessor
  if n.hash_range.0 == 0 && n.hash_range.1 == 255 then pure tt else accept_predecessor
  become q6

unfoldable pub step_q18 : Exec (Unit {0})
step_q18 = do
  n ← this
  transfer (n.hash_range.0 == 0) n.hash_range.0 n.hash_range.1
  next ← or_fail n.successor
  tcp_send next (net_close_connection NetCloseConnection.new)
  shutdown next
  listen ← or_fail n.successor_listen
  to_connect ← or_fail (as_v4 listen)
  previous ← or_fail n.predecessor
  tcp_send previous (net_leaving (NetLeaving.new to_connect.0 to_connect.1))
  shutdown previous
  modify λ n. record n { running = false }
