-- ===== src/Socket/Parse.antt =====
-- The parser of resources/TestNode/src/socket_wrapper.rs: the tag chooses the message.
pub mod RoundTrip
pub mod Bounds
pub mod Panics
pub mod Ends
pub mod Prefix
use distributed_hash_table.Prelude.{
  ℕ, List, [], ◌∷◌, Option, none, some, Outcome, ok, panic, ◌>>=◌, Bool, ◌&&◌, leb, ◌==◌,
  if◌then◌else◌,
}
use distributed_hash_table.Pdu.Ids.{
  net_alive_id, net_get_node_id, net_get_node_response_id, net_join_id, net_join_response_id,
  net_close_connection_id, net_new_range_id, net_new_range_response_id, net_leaving_id,
  val_insert_id, val_remove_id, val_lookup_id, val_lookup_response_id, stun_lookup_id,
  stun_response_id,
}
use distributed_hash_table.Pdu.NetAlive
use distributed_hash_table.Pdu.NetGetNode
use distributed_hash_table.Pdu.NetGetNodeResponse
use distributed_hash_table.Pdu.NetJoin
use distributed_hash_table.Pdu.NetJoinResponse
use distributed_hash_table.Pdu.NetCloseConnection
use distributed_hash_table.Pdu.NetNewRange
use distributed_hash_table.Pdu.NetNewRangeResponse
use distributed_hash_table.Pdu.NetLeaving
use distributed_hash_table.Pdu.ValInsert
use distributed_hash_table.Pdu.ValRemove
use distributed_hash_table.Pdu.ValLookup
use distributed_hash_table.Pdu.ValLookupResponse
use distributed_hash_table.Pdu.StunLookup
use distributed_hash_table.Pdu.StunResponse
use distributed_hash_table.Pdu.Message.{
  Pdu, net_alive, net_get_node, net_get_node_response, net_join, net_join_response,
  net_close_connection, net_new_range, net_new_range_response, net_leaving, val_insert, val_remove,
  val_lookup, val_lookup_response, stun_lookup, stun_response,
}

-- `let (p, s) = try_parse(buffer)?; Some((p.into(), s))`
abbrev pub into_pdu : {A : Type 0} → (A → Pdu) → Option (A × ℕ) → Outcome (Option (Pdu × ℕ))
into_pdu into none = ok none
into_pdu into (some (p, s)) = ok (some (into p, s))

abbrev pub found : {A : Type 0} → (A → Pdu) → Outcome (Option (A × ℕ)) → Outcome (Option (Pdu × ℕ))
found into m = m >>= into_pdu into

-- `tag` is `buffer[0]` in each of the three.
unfoldable pub parse_net_pdu : ℕ → List ℕ → Outcome (Option (Pdu × ℕ))
parse_net_pdu tag buffer =
    if tag == net_alive_id
    then found net_alive (NetAlive.try_parse buffer)
    else if tag == net_get_node_id
    then found net_get_node (NetGetNode.try_parse buffer)
    else if tag == net_get_node_response_id
    then found net_get_node_response (NetGetNodeResponse.try_parse buffer)
    else if tag == net_join_id
    then found net_join (NetJoin.try_parse buffer)
    else if tag == net_join_response_id
    then found net_join_response (NetJoinResponse.try_parse buffer)
    else if tag == net_close_connection_id
    then found net_close_connection (NetCloseConnection.try_parse buffer)
    else if tag == net_new_range_id
    then found net_new_range (NetNewRange.try_parse buffer)
    else if tag == net_new_range_response_id
    then found net_new_range_response (NetNewRangeResponse.try_parse buffer)
    else if tag == net_leaving_id
    then found net_leaving (NetLeaving.try_parse buffer)
    else panic

unfoldable pub parse_val_pdu : ℕ → List ℕ → Outcome (Option (Pdu × ℕ))
parse_val_pdu tag buffer =
    if tag == val_insert_id
    then found val_insert (ValInsert.try_parse buffer)
    else if tag == val_remove_id
    then found val_remove (ValRemove.try_parse buffer)
    else if tag == val_lookup_id
    then found val_lookup (ValLookup.try_parse buffer)
    else if tag == val_lookup_response_id
    then found val_lookup_response (ValLookupResponse.try_parse buffer)
    else panic

unfoldable pub parse_stun_pdu : ℕ → List ℕ → Outcome (Option (Pdu × ℕ))
parse_stun_pdu tag buffer =
    if tag == stun_lookup_id
    then found stun_lookup (StunLookup.try_parse buffer)
    else if tag == stun_response_id
    then found stun_response (StunResponse.try_parse buffer)
    else panic

-- A range pattern `lo..=hi`.
abbrev pub in_range : ℕ → ℕ → ℕ → Bool
in_range lo hi x = leb lo x && leb x hi

parse_tagged : ℕ → List ℕ → Outcome (Option (Pdu × ℕ))
parse_tagged tag buffer =
    if in_range 0 8 tag
    then parse_net_pdu tag buffer
    else if in_range 100 103 tag
    then parse_val_pdu tag buffer
    else if in_range 200 201 tag
    then parse_stun_pdu tag buffer
    else panic

unfoldable pub parse_pdu : List ℕ → Outcome (Option (Pdu × ℕ))
unfolding parse_tagged
parse_pdu [] = ok none
parse_pdu (tag ∷ rest) = parse_tagged tag (tag ∷ rest)
