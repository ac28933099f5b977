-- ===== src/Socket/Parse/Prefix.antt =====
-- What the parser makes of a message that has not come whole.
use distributed_hash_table.Prelude.{
  ℕ, zero, suc, ◌+◌, ◌≤◌, ◌<◌, ◌≡◌, ◌≢◌, refl, sym, ap, List, Option, some, none, ok, arith, length,
  take, length-take,
}
use distributed_hash_table.Pdu.NetAlive
use distributed_hash_table.Pdu.NetGetNode
use distributed_hash_table.Pdu.NetGetNodeResponse
use distributed_hash_table.Pdu.NetJoin
use distributed_hash_table.Pdu.NetJoinResponse
use distributed_hash_table.Pdu.NetCloseConnection
use distributed_hash_table.Pdu.NetNewRange
use distributed_hash_table.Pdu.NetNewRangeResponse
use distributed_hash_table.Pdu.NetLeaving
use distributed_hash_table.Pdu.ValInsert
use distributed_hash_table.Pdu.ValInsert.Prefix
use distributed_hash_table.Pdu.ValRemove
use distributed_hash_table.Pdu.ValLookup
use distributed_hash_table.Pdu.ValLookupResponse
use distributed_hash_table.Pdu.StunLookup
use distributed_hash_table.Pdu.StunResponse
use distributed_hash_table.Pdu.Message.{
  Pdu, net_alive, net_get_node, net_get_node_response, net_join, net_join_response,
  net_close_connection, net_new_range, net_new_range_response, net_leaving, val_insert, val_remove,
  val_lookup, val_lookup_response, stun_lookup, stun_response, to_bytes, IsWire,
}
use distributed_hash_table.Socket.Parse.{parse_pdu, parse_net_pdu, parse_val_pdu, parse_stun_pdu}
use distributed_hash_table.Socket.Parse.RoundTrip.{size, size-length}

-- The one place, behind the name, at which a message must not be cut.
abbrev pub fatal_cut : Pdu → Option ℕ
fatal_cut (val_insert p) = some (14 + p.name_length)
fatal_cut (val_lookup_response p) = some (14 + p.name_length)
fatal_cut _ = none

pub prefix-shorter : (bs : List ℕ) (n : ℕ) → n < length bs → length (take n bs) ≡ n
prefix-shorter bs n h = omega (arith, length-take n bs)

too_short :
    (p : Pdu) (n : ℕ)
    → IsWire p
    → n < length (to_bytes p)
    → suc (length (take n (to_bytes p))) ≤ size p
too_short p n w h = omega (arith, prefix-shorter (to_bytes p) n h, size-length p w)

pub parse_pdu-take :
    (p : Pdu) (n : ℕ)
    → IsWire p
    → n < length (to_bytes p)
    → fatal_cut p ≢ some n
    → parse_pdu (take n (to_bytes p)) ≡ ok none
unfolding parse_pdu to_bytes
parse_pdu-take p zero w h c = refl
parse_pdu-take (net_alive p) (suc m) w h c =
    unfold NetAlive.to_bytes parse_net_pdu in
    ground (
      arith,
      NetAlive.try_parse_short (take (suc m) (NetAlive.to_bytes p))
          (too_short (net_alive p) (suc m) w h),
    )
parse_pdu-take (net_get_node p) (suc m) w h c =
    unfold NetGetNode.to_bytes parse_net_pdu in
    ground (
      arith,
      NetGetNode.try_parse_short (take (suc m) (NetGetNode.to_bytes p))
          (too_short (net_get_node p) (suc m) w h),
    )
parse_pdu-take (net_get_node_response p) (suc m) w h c =
    unfold NetGetNodeResponse.to_bytes parse_net_pdu in
    ground (
      arith,
      NetGetNodeResponse.try_parse_short (take (suc m) (NetGetNodeResponse.to_bytes p))
          (too_short (net_get_node_response p) (suc m) w h),
    )
parse_pdu-take (net_join p) (suc m) w h c =
    unfold NetJoin.to_bytes parse_net_pdu in
    ground (
      arith,
      NetJoin.try_parse_short (take (suc m) (NetJoin.to_bytes p))
          (too_short (net_join p) (suc m) w h),
    )
parse_pdu-take (net_join_response p) (suc m) w h c =
    unfold NetJoinResponse.to_bytes parse_net_pdu in
    ground (
      arith,
      NetJoinResponse.try_parse_short (take (suc m) (NetJoinResponse.to_bytes p))
          (too_short (net_join_response p) (suc m) w h),
    )
parse_pdu-take (net_close_connection p) (suc m) w h c =
    unfold NetCloseConnection.to_bytes parse_net_pdu in
    ground (
      arith,
      NetCloseConnection.try_parse_short (take (suc m) (NetCloseConnection.to_bytes p))
          (too_short (net_close_connection p) (suc m) w h),
    )
parse_pdu-take (net_new_range p) (suc m) w h c =
    unfold NetNewRange.to_bytes parse_net_pdu in
    ground (
      arith,
      NetNewRange.try_parse_short (take (suc m) (NetNewRange.to_bytes p))
          (too_short (net_new_range p) (suc m) w h),
    )
parse_pdu-take (net_new_range_response p) (suc m) w h c =
    unfold NetNewRangeResponse.to_bytes parse_net_pdu in
    ground (
      arith,
      NetNewRangeResponse.try_parse_short (take (suc m) (NetNewRangeResponse.to_bytes p))
          (too_short (net_new_range_response p) (suc m) w h),
    )
parse_pdu-take (net_leaving p) (suc m) w h c =
    unfold NetLeaving.to_bytes parse_net_pdu in
    ground (
      arith,
      NetLeaving.try_parse_short (take (suc m) (NetLeaving.to_bytes p))
          (too_short (net_leaving p) (suc m) w h),
    )
parse_pdu-take (val_insert p) (suc m) w h c =
    unfold ValInsert.to_bytes parse_val_pdu in
    ground (arith, ValInsert.Prefix.try_parse-take p (suc m) w.body h (λ e. c (ap some (sym e))))
parse_pdu-take (val_remove p) (suc m) w h c =
    unfold ValRemove.to_bytes parse_val_pdu in
    ground (
      arith,
      ValRemove.try_parse_short (take (suc m) (ValRemove.to_bytes p))
          (too_short (val_remove p) (suc m) w h),
    )
parse_pdu-take (val_lookup p) (suc m) w h c =
    unfold ValLookup.to_bytes parse_val_pdu in
    ground (
      arith,
      ValLookup.try_parse_short (take (suc m) (ValLookup.to_bytes p))
          (too_short (val_lookup p) (suc m) w h),
    )
parse_pdu-take (val_lookup_response p) (suc m) w h c =
    unfold ValLookupResponse.to_bytes parse_val_pdu in
    ground (arith, ValLookupResponse.try_parse-take p (suc m) w h (λ e. c (ap some (sym e))))
parse_pdu-take (stun_lookup p) (suc m) w h c =
    unfold StunLookup.to_bytes parse_stun_pdu in
    ground (
      arith,
      StunLookup.try_parse_short (take (suc m) (StunLookup.to_bytes p))
          (too_short (stun_lookup p) (suc m) w h),
    )
parse_pdu-take (stun_response p) (suc m) w h c =
    unfold StunResponse.to_bytes parse_stun_pdu in
    ground (
      arith,
      StunResponse.try_parse_short (take (suc m) (StunResponse.to_bytes p))
          (too_short (stun_response p) (suc m) w h),
    )
