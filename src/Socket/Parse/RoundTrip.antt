-- ===== src/Socket/Parse/RoundTrip.antt =====
-- What a sender writes is what the receiver reads.
use distributed_hash_table.Prelude.{ℕ, List, ◌++◌, ◌≡◌, some, ok, arith, length}
use distributed_hash_table.Pdu.Ids.{
  val_lookup_id, net_alive_size, net_get_node_size, net_get_node_response_size, net_join_size,
  net_join_response_size, net_close_connection_size, net_new_range_size,
  net_new_range_response_size, net_leaving_size, val_remove_size, val_lookup_size, stun_lookup_size,
  stun_response_size,
}
use distributed_hash_table.Pdu.NetAlive
use distributed_hash_table.Pdu.NetGetNode
use distributed_hash_table.Pdu.NetGetNodeResponse
use distributed_hash_table.Pdu.NetJoin
use distributed_hash_table.Pdu.NetJoinResponse
use distributed_hash_table.Pdu.NetCloseConnection
use distributed_hash_table.Pdu.NetNewRange
use distributed_hash_table.Pdu.NetNewRangeResponse
use distributed_hash_table.Pdu.NetLeaving
use distributed_hash_table.Pdu.ValInsert
use distributed_hash_table.Pdu.ValRemove
use distributed_hash_table.Pdu.ValLookup
use distributed_hash_table.Pdu.ValLookupResponse
use distributed_hash_table.Pdu.StunLookup
use distributed_hash_table.Pdu.StunResponse
use distributed_hash_table.Pdu.Message.{
  Pdu, net_alive, net_get_node, net_get_node_response, net_join, net_join_response,
  net_close_connection, net_new_range, net_new_range_response, net_leaving, val_insert, val_remove,
  val_lookup, val_lookup_response, stun_lookup, stun_response, to_bytes, IsWire,
}
use distributed_hash_table.Socket.Parse.{parse_pdu, parse_net_pdu, parse_val_pdu, parse_stun_pdu}

-- What arrives where `p` was sent: the same value, but a VAL_LOOKUP_RESPONSE has the tag of VAL_LOOKUP.
abbrev pub received : Pdu → Pdu
received (val_lookup_response p) = val_lookup_response (record p { pdu_type = val_lookup_id })
received (net_alive p) = net_alive p
received (net_get_node p) = net_get_node p
received (net_get_node_response p) = net_get_node_response p
received (net_join p) = net_join p
received (net_join_response p) = net_join_response p
received (net_close_connection p) = net_close_connection p
received (net_new_range p) = net_new_range p
received (net_new_range_response p) = net_new_range_response p
received (net_leaving p) = net_leaving p
received (val_insert p) = val_insert p
received (val_remove p) = val_remove p
received (val_lookup p) = val_lookup p
received (stun_lookup p) = stun_lookup p
received (stun_response p) = stun_response p

-- The bytes that `p` takes.
abbrev pub size : Pdu → ℕ
size (net_alive p) = net_alive_size
size (net_get_node p) = net_get_node_size
size (net_get_node_response p) = net_get_node_response_size
size (net_join p) = net_join_size
size (net_join_response p) = net_join_response_size
size (net_close_connection p) = net_close_connection_size
size (net_new_range p) = net_new_range_size
size (net_new_range_response p) = net_new_range_response_size
size (net_leaving p) = net_leaving_size
size (val_insert p) = ValInsert.size p.name_length p.email_length
size (val_remove p) = val_remove_size
size (val_lookup p) = val_lookup_size
size (val_lookup_response p) = ValInsert.size p.name_length p.email_length
size (stun_lookup p) = stun_lookup_size
size (stun_response p) = stun_response_size

-- For each of the fifteen messages with the tag of its kind and fields that fit their widths (a
-- number of twelve characters, all texts of characters below 256, and length fields that are the
-- numbers of characters), parsing its bytes, whatever bytes follow, gives the message back with
-- exactly the number of bytes that it takes; only the tag inside a VAL_LOOKUP_RESPONSE comes back
-- as that of VAL_LOOKUP.
pub parse_pdu-to_bytes :
    (p : Pdu) (rest : List ℕ)
    → IsWire p
    → parse_pdu (to_bytes p ++ rest) ≡ ok (some (received p, size p))
unfolding parse_pdu to_bytes
parse_pdu-to_bytes (net_alive p) rest w =
    unfold NetAlive.to_bytes parse_net_pdu in ground (arith, NetAlive.try_parse-to_bytes p rest w)
parse_pdu-to_bytes (net_get_node p) rest w =
    unfold NetGetNode.to_bytes parse_net_pdu in
    ground (arith, NetGetNode.try_parse-to_bytes p rest w)
parse_pdu-to_bytes (net_get_node_response p) rest w =
    unfold NetGetNodeResponse.to_bytes parse_net_pdu in
    ground (arith, NetGetNodeResponse.try_parse-to_bytes p rest w)
parse_pdu-to_bytes (net_join p) rest w =
    unfold NetJoin.to_bytes parse_net_pdu in ground (arith, NetJoin.try_parse-to_bytes p rest w)
parse_pdu-to_bytes (net_join_response p) rest w =
    unfold NetJoinResponse.to_bytes parse_net_pdu in
    ground (arith, NetJoinResponse.try_parse-to_bytes p rest w)
parse_pdu-to_bytes (net_close_connection p) rest w =
    unfold NetCloseConnection.to_bytes parse_net_pdu in
    ground (arith, NetCloseConnection.try_parse-to_bytes p rest w)
parse_pdu-to_bytes (net_new_range p) rest w =
    unfold NetNewRange.to_bytes parse_net_pdu in
    ground (arith, NetNewRange.try_parse-to_bytes p rest w)
parse_pdu-to_bytes (net_new_range_response p) rest w =
    unfold NetNewRangeResponse.to_bytes parse_net_pdu in
    ground (arith, NetNewRangeResponse.try_parse-to_bytes p rest w)
parse_pdu-to_bytes (net_leaving p) rest w =
    unfold NetLeaving.to_bytes parse_net_pdu in
    ground (arith, NetLeaving.try_parse-to_bytes p rest w)
parse_pdu-to_bytes (val_insert p) rest w =
    unfold ValInsert.to_bytes parse_val_pdu in
    ground (arith, ValInsert.try_parse-to_bytes p rest w.body)
parse_pdu-to_bytes (val_remove p) rest w =
    unfold ValRemove.to_bytes parse_val_pdu in ground (arith, ValRemove.try_parse-to_bytes p rest w)
parse_pdu-to_bytes (val_lookup p) rest w =
    unfold ValLookup.to_bytes parse_val_pdu in ground (arith, ValLookup.try_parse-to_bytes p rest w)
parse_pdu-to_bytes (val_lookup_response p) rest w =
    unfold ValLookupResponse.to_bytes parse_val_pdu in
    ground (arith, ValLookupResponse.try_parse-to_bytes p rest w)
parse_pdu-to_bytes (stun_lookup p) rest w =
    unfold StunLookup.to_bytes parse_stun_pdu in
    ground (arith, StunLookup.try_parse-to_bytes p rest w)
parse_pdu-to_bytes (stun_response p) rest w =
    unfold StunResponse.to_bytes parse_stun_pdu in
    ground (arith, StunResponse.try_parse-to_bytes p rest w)

pub size-length : (p : Pdu) → IsWire p → size p ≡ length (to_bytes p)
unfolding to_bytes
size-length (net_alive p) w = unfold NetAlive.to_bytes in omega arith
size-length (net_get_node p) w = unfold NetGetNode.to_bytes in omega arith
size-length (net_get_node_response p) w = unfold NetGetNodeResponse.to_bytes in omega arith
size-length (net_join p) w = unfold NetJoin.to_bytes in omega arith
size-length (net_join_response p) w = unfold NetJoinResponse.to_bytes in omega arith
size-length (net_close_connection p) w = unfold NetCloseConnection.to_bytes in omega arith
size-length (net_new_range p) w = unfold NetNewRange.to_bytes in omega arith
size-length (net_new_range_response p) w = unfold NetNewRangeResponse.to_bytes in omega arith
size-length (net_leaving p) w = unfold NetLeaving.to_bytes in omega arith
size-length (val_insert p) w = ValInsert.size-length p w.body
size-length (val_remove p) w = ValRemove.size-length p w
size-length (val_lookup p) w = ValLookup.size-length p w
size-length (val_lookup_response p) w = ValLookupResponse.size-length p w
size-length (stun_lookup p) w = unfold StunLookup.to_bytes in omega arith
size-length (stun_response p) w = unfold StunResponse.to_bytes in omega arith
