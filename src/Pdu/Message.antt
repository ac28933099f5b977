-- ===== src/Pdu/Message.antt =====
-- The sum of all messages: `PDU` of pdu.rs, and the bytes of each.
use distributed_hash_table.Prelude.{ℕ, List}
use distributed_hash_table.Pdu.NetAlive
use distributed_hash_table.Pdu.NetAlive.{NetAlivePdu}
use distributed_hash_table.Pdu.NetGetNode
use distributed_hash_table.Pdu.NetGetNode.{NetGetNodePdu}
use distributed_hash_table.Pdu.NetGetNodeResponse
use distributed_hash_table.Pdu.NetGetNodeResponse.{NetGetNodeResponsePdu}
use distributed_hash_table.Pdu.NetJoin
use distributed_hash_table.Pdu.NetJoin.{NetJoinPdu}
use distributed_hash_table.Pdu.NetJoinResponse
use distributed_hash_table.Pdu.NetJoinResponse.{NetJoinResponsePdu}
use distributed_hash_table.Pdu.NetCloseConnection
use distributed_hash_table.Pdu.NetCloseConnection.{NetCloseConnectionPdu}
use distributed_hash_table.Pdu.NetNewRange
use distributed_hash_table.Pdu.NetNewRange.{NetNewRangePdu}
use distributed_hash_table.Pdu.NetNewRangeResponse
use distributed_hash_table.Pdu.NetNewRangeResponse.{NetNewRangeResponsePdu}
use distributed_hash_table.Pdu.NetLeaving
use distributed_hash_table.Pdu.NetLeaving.{NetLeavingPdu}
use distributed_hash_table.Pdu.ValInsert
use distributed_hash_table.Pdu.ValInsert.{ValInsertPdu}
use distributed_hash_table.Pdu.ValRemove
use distributed_hash_table.Pdu.ValRemove.{ValRemovePdu}
use distributed_hash_table.Pdu.ValLookup
use distributed_hash_table.Pdu.ValLookup.{ValLookupPdu}
use distributed_hash_table.Pdu.ValLookupResponse
use distributed_hash_table.Pdu.ValLookupResponse.{ValLookupResponsePdu}
use distributed_hash_table.Pdu.StunLookup
use distributed_hash_table.Pdu.StunLookup.{StunLookupPdu}
use distributed_hash_table.Pdu.StunResponse
use distributed_hash_table.Pdu.StunResponse.{StunResponsePdu}

pub data Pdu : Type 0 where
  net_alive : NetAlivePdu → Pdu
  net_get_node : NetGetNodePdu → Pdu
  net_get_node_response : NetGetNodeResponsePdu → Pdu
  net_join : NetJoinPdu → Pdu
  net_join_response : NetJoinResponsePdu → Pdu
  net_close_connection : NetCloseConnectionPdu → Pdu
  net_new_range : NetNewRangePdu → Pdu
  net_new_range_response : NetNewRangeResponsePdu → Pdu
  net_leaving : NetLeavingPdu → Pdu
  val_insert : ValInsertPdu → Pdu
  val_remove : ValRemovePdu → Pdu
  val_lookup : ValLookupPdu → Pdu
  val_lookup_response : ValLookupResponsePdu → Pdu
  stun_lookup : StunLookupPdu → Pdu
  stun_response : StunResponsePdu → Pdu

unfoldable pub to_bytes : Pdu → List ℕ
to_bytes (net_alive p) = NetAlive.to_bytes p
to_bytes (net_get_node p) = NetGetNode.to_bytes p
to_bytes (net_get_node_response p) = NetGetNodeResponse.to_bytes p
to_bytes (net_join p) = NetJoin.to_bytes p
to_bytes (net_join_response p) = NetJoinResponse.to_bytes p
to_bytes (net_close_connection p) = NetCloseConnection.to_bytes p
to_bytes (net_new_range p) = NetNewRange.to_bytes p
to_bytes (net_new_range_response p) = NetNewRangeResponse.to_bytes p
to_bytes (net_leaving p) = NetLeaving.to_bytes p
to_bytes (val_insert p) = ValInsert.to_bytes p
to_bytes (val_remove p) = ValRemove.to_bytes p
to_bytes (val_lookup p) = ValLookup.to_bytes p
to_bytes (val_lookup_response p) = ValLookupResponse.to_bytes p
to_bytes (stun_lookup p) = StunLookup.to_bytes p
to_bytes (stun_response p) = StunResponse.to_bytes p

-- A value that its sender can have made, and that fits the widths of its fields.
abbrev pub IsWire : Pdu → Type 0
IsWire (net_alive p) = NetAlive.IsWire p
IsWire (net_get_node p) = NetGetNode.IsWire p
IsWire (net_get_node_response p) = NetGetNodeResponse.IsWire p
IsWire (net_join p) = NetJoin.IsWire p
IsWire (net_join_response p) = NetJoinResponse.IsWire p
IsWire (net_close_connection p) = NetCloseConnection.IsWire p
IsWire (net_new_range p) = NetNewRange.IsWire p
IsWire (net_new_range_response p) = NetNewRangeResponse.IsWire p
IsWire (net_leaving p) = NetLeaving.IsWire p
IsWire (val_insert p) = ValInsert.IsWire p
IsWire (val_remove p) = ValRemove.IsWire p
IsWire (val_lookup p) = ValLookup.IsWire p
IsWire (val_lookup_response p) = ValLookupResponse.IsWire p
IsWire (stun_lookup p) = StunLookup.IsWire p
IsWire (stun_response p) = StunResponse.IsWire p
