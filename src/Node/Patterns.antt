-- ===== src/Node/Patterns.antt =====
-- The patterns of the states on a message.
use distributed_hash_table.Prelude.{Option, none, some}
use distributed_hash_table.Pdu.StunResponse.{StunResponsePdu}
use distributed_hash_table.Pdu.NetGetNodeResponse.{NetGetNodeResponsePdu}
use distributed_hash_table.Pdu.NetJoin.{NetJoinPdu}
use distributed_hash_table.Pdu.NetJoinResponse.{NetJoinResponsePdu}
use distributed_hash_table.Pdu.NetNewRange.{NetNewRangePdu}
use distributed_hash_table.Pdu.NetNewRangeResponse.{NetNewRangeResponsePdu}
use distributed_hash_table.Pdu.NetLeaving.{NetLeavingPdu}
use distributed_hash_table.Pdu.Message.{
  Pdu, net_get_node_response, net_join, net_join_response, net_new_range, net_new_range_response,
  net_leaving, stun_response,
}

-- The patterns on a received message, each with a panic on all other messages.
abbrev pub as_stun_response : Pdu → Option StunResponsePdu
as_stun_response (stun_response p) = some p
as_stun_response _ = none

abbrev pub as_get_node_response : Pdu → Option NetGetNodeResponsePdu
as_get_node_response (net_get_node_response p) = some p
as_get_node_response _ = none

abbrev pub as_join : Pdu → Option NetJoinPdu
as_join (net_join p) = some p
as_join _ = none

abbrev pub as_join_response : Pdu → Option NetJoinResponsePdu
as_join_response (net_join_response p) = some p
as_join_response _ = none

abbrev pub as_new_range : Pdu → Option NetNewRangePdu
as_new_range (net_new_range p) = some p
as_new_range _ = none

abbrev pub as_new_range_response : Pdu → Option NetNewRangeResponsePdu
as_new_range_response (net_new_range_response p) = some p
as_new_range_response _ = none

abbrev pub as_leaving : Pdu → Option NetLeavingPdu
as_leaving (net_leaving p) = some p
as_leaving _ = none
