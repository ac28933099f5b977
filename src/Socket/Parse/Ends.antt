-- ===== src/Socket/Parse/Ends.antt =====
-- The parser ends on every buffer.
use distributed_hash_table.Prelude.{
  ℕ, List, [], ◌∷◌, ◌≢◌, inl, inr, Option, none, some, Outcome, ok, panic, waits, stuck, Bool, true,
  false, ◌==◌, length, if◌then◌else◌, refl,
}
use distributed_hash_table.Pdu.Ids.{
  net_alive_id, net_get_node_id, net_get_node_response_id, net_join_id, net_join_response_id,
  net_close_connection_id, net_new_range_id, net_new_range_response_id, net_leaving_id,
  val_insert_id, val_remove_id, val_lookup_id, val_lookup_response_id, stun_lookup_id,
  stun_response_id, net_alive_size, net_get_node_size, net_get_node_response_size, net_join_size,
  net_join_response_size, net_close_connection_size, net_new_range_size,
  net_new_range_response_size, net_leaving_size, val_remove_size, val_lookup_size, stun_lookup_size,
  stun_response_size,
}
use distributed_hash_table.Pdu.NetAlive
use distributed_hash_table.Pdu.NetGetNode
use distributed_hash_table.Pdu.NetGetNodeResponse
use distributed_hash_table.Pdu.NetJoin
use distributed_hash_table.Pdu.NetJoinResponse
use distributed_hash_table.Pdu.NetCloseConnection
use distributed_hash_table.Pdu.NetNewRange
use distributed_hash_table.Pdu.NetNewRangeResponse
use distributed_hash_table.Pdu.NetLeaving
use distributed_hash_table.Pdu.ValInsert
use distributed_hash_table.Pdu.ValRemove
use distributed_hash_table.Pdu.ValLookup
use distributed_hash_table.Pdu.ValLookupResponse
use distributed_hash_table.Pdu.StunLookup
use distributed_hash_table.Pdu.StunResponse
use distributed_hash_table.Pdu.Message.{
  Pdu, net_alive, net_get_node, net_get_node_response, net_join, net_join_response,
  net_close_connection, net_new_range, net_new_range_response, net_leaving, val_insert, val_remove,
  val_lookup, val_lookup_response, stun_lookup, stun_response,
}
use distributed_hash_table.Socket.Parse.{
  parse_pdu, parse_net_pdu, parse_val_pdu, parse_stun_pdu, found, in_range,
}
use distributed_hash_table.Socket.Parse.Bounds.{Answers, answers}

-- The parser ends, with a result or a panic.
abbrev pub Settles : {A : Type 0} → Outcome A → Type 0
Settles m = (m ≢ waits) × (m ≢ stuck)

if-Settles :
    {A : Type 0} (b : Bool) (m n : Outcome A) → Settles m → Settles n → Settles (if b then m else n)
if-Settles true m n s t = s
if-Settles false m n s t = t

panic-Settles : {A : Type 0} → Settles {A = A} panic
panic-Settles = ((λ h. cc), (λ h. cc))

found-Settles :
    {A : Type 0} (into : A → Pdu) (m : Outcome (Option (A × ℕ)))
    → Settles m
    → Settles (found into m)
found-Settles into (ok none) s = ((λ h. cc), (λ h. cc))
found-Settles into (ok (some (p, n))) s = ((λ h. cc), (λ h. cc))
found-Settles into panic s = ((λ h. cc), (λ h. cc))
found-Settles into waits s = absurd (s.0 refl)
found-Settles into stuck s = absurd (s.1 refl)

Answers-Settles :
    {A : Type 0} (len size : ℕ) (m : Outcome (Option (A × ℕ))) → Answers len size m → Settles m
Answers-Settles len size m (inl (lt, e)) = ((λ h. cc), (λ h. cc))
Answers-Settles len size m (inr (ge, (q, e))) = ((λ h. cc), (λ h. cc))

net_alive-Settles : (bs : List ℕ) → Settles (found net_alive (NetAlive.try_parse bs))
net_alive-Settles bs = found-Settles net_alive (NetAlive.try_parse bs) (
    Answers-Settles (length bs) net_alive_size _ (
      answers (length bs) net_alive_size _ (NetAlive.try_parse_short bs)
        (NetAlive.try_parse_long bs)))

net_get_node-Settles : (bs : List ℕ) → Settles (found net_get_node (NetGetNode.try_parse bs))
net_get_node-Settles bs = found-Settles net_get_node (NetGetNode.try_parse bs) (
    Answers-Settles (length bs) net_get_node_size _ (
      answers (length bs) net_get_node_size _ (NetGetNode.try_parse_short bs)
        (NetGetNode.try_parse_long bs)))

net_get_node_response-Settles :
    (bs : List ℕ) → Settles (found net_get_node_response (NetGetNodeResponse.try_parse bs))
net_get_node_response-Settles bs =
    found-Settles net_get_node_response (NetGetNodeResponse.try_parse bs) (
      Answers-Settles (length bs) net_get_node_response_size _ (
        answers (length bs) net_get_node_response_size _ (NetGetNodeResponse.try_parse_short bs)
          (NetGetNodeResponse.try_parse_long bs)))

net_join-Settles : (bs : List ℕ) → Settles (found net_join (NetJoin.try_parse bs))
net_join-Settles bs = found-Settles net_join (NetJoin.try_parse bs) (
    Answers-Settles (length bs) net_join_size _ (
      answers (length bs) net_join_size _ (NetJoin.try_parse_short bs) (NetJoin.try_parse_long bs)))

net_join_response-Settles :
    (bs : List ℕ) → Settles (found net_join_response (NetJoinResponse.try_parse bs))
net_join_response-Settles bs = found-Settles net_join_response (NetJoinResponse.try_parse bs) (
    Answers-Settles (length bs) net_join_response_size _ (
      answers (length bs) net_join_response_size _ (NetJoinResponse.try_parse_short bs)
        (NetJoinResponse.try_parse_long bs)))

net_close_connection-Settles :
    (bs : List ℕ) → Settles (found net_close_connection (NetCloseConnection.try_parse bs))
net_close_connection-Settles bs =
    found-Settles net_close_connection (NetCloseConnection.try_parse bs) (
      Answers-Settles (length bs) net_close_connection_size _ (
        answers (length bs) net_close_connection_size _ (NetCloseConnection.try_parse_short bs)
          (NetCloseConnection.try_parse_long bs)))

net_new_range-Settles : (bs : List ℕ) → Settles (found net_new_range (NetNewRange.try_parse bs))
net_new_range-Settles bs = found-Settles net_new_range (NetNewRange.try_parse bs) (
    Answers-Settles (length bs) net_new_range_size _ (
      answers (length bs) net_new_range_size _ (NetNewRange.try_parse_short bs)
        (NetNewRange.try_parse_long bs)))

net_new_range_response-Settles :
    (bs : List ℕ) → Settles (found net_new_range_response (NetNewRangeResponse.try_parse bs))
net_new_range_response-Settles bs =
    found-Settles net_new_range_response (NetNewRangeResponse.try_parse bs) (
      Answers-Settles (length bs) net_new_range_response_size _ (
        answers (length bs) net_new_range_response_size _ (NetNewRangeResponse.try_parse_short bs)
          (NetNewRangeResponse.try_parse_long bs)))

net_leaving-Settles : (bs : List ℕ) → Settles (found net_leaving (NetLeaving.try_parse bs))
net_leaving-Settles bs = found-Settles net_leaving (NetLeaving.try_parse bs) (
    Answers-Settles (length bs) net_leaving_size _ (
      answers (length bs) net_leaving_size _ (NetLeaving.try_parse_short bs)
        (NetLeaving.try_parse_long bs)))

val_insert-Settles : (bs : List ℕ) → Settles (found val_insert (ValInsert.try_parse bs))
val_insert-Settles bs =
    found-Settles val_insert (ValInsert.try_parse bs) (ValInsert.try_parse_defined bs)

val_remove-Settles : (bs : List ℕ) → Settles (found val_remove (ValRemove.try_parse bs))
val_remove-Settles bs = found-Settles val_remove (ValRemove.try_parse bs) (
    Answers-Settles (length bs) val_remove_size _ (
      answers (length bs) val_remove_size _ (ValRemove.try_parse_short bs)
        (ValRemove.try_parse_long bs)))

val_lookup-Settles : (bs : List ℕ) → Settles (found val_lookup (ValLookup.try_parse bs))
val_lookup-Settles bs = found-Settles val_lookup (ValLookup.try_parse bs) (
    Answers-Settles (length bs) val_lookup_size _ (
      answers (length bs) val_lookup_size _ (ValLookup.try_parse_short bs)
        (ValLookup.try_parse_long bs)))

val_lookup_response-Settles :
    (bs : List ℕ) → Settles (found val_lookup_response (ValLookupResponse.try_parse bs))
val_lookup_response-Settles bs =
    found-Settles val_lookup_response (ValLookupResponse.try_parse bs)
      (ValLookupResponse.try_parse_defined bs)

stun_lookup-Settles : (bs : List ℕ) → Settles (found stun_lookup (StunLookup.try_parse bs))
stun_lookup-Settles bs = found-Settles stun_lookup (StunLookup.try_parse bs) (
    Answers-Settles (length bs) stun_lookup_size _ (
      answers (length bs) stun_lookup_size _ (StunLookup.try_parse_short bs)
        (StunLookup.try_parse_long bs)))

stun_response-Settles : (bs : List ℕ) → Settles (found stun_response (StunResponse.try_parse bs))
stun_response-Settles bs = found-Settles stun_response (StunResponse.try_parse bs) (
    Answers-Settles (length bs) stun_response_size _ (
      answers (length bs) stun_response_size _ (StunResponse.try_parse_short bs)
        (StunResponse.try_parse_long bs)))

parse_net_pdu-Settles : (tag : ℕ) (bs : List ℕ) → Settles (parse_net_pdu tag bs)
unfolding parse_net_pdu
parse_net_pdu-Settles tag bs = if-Settles (tag == net_alive_id) _ _ (net_alive-Settles bs) (
    if-Settles (tag == net_get_node_id) _ _ (net_get_node-Settles bs) (
      if-Settles (tag == net_get_node_response_id) _ _ (net_get_node_response-Settles bs) (
        if-Settles (tag == net_join_id) _ _ (net_join-Settles bs) (
          if-Settles (tag == net_join_response_id) _ _ (net_join_response-Settles bs) (
            if-Settles (tag == net_close_connection_id) _ _ (net_close_connection-Settles bs) (
              if-Settles (tag == net_new_range_id) _ _ (net_new_range-Settles bs) (
                if-Settles (tag == net_new_range_response_id) _ _
                  (net_new_range_response-Settles bs)
                  (if-Settles (tag == net_leaving_id) _ _ (net_leaving-Settles bs)
                    panic-Settles))))))))

parse_val_pdu-Settles : (tag : ℕ) (bs : List ℕ) → Settles (parse_val_pdu tag bs)
unfolding parse_val_pdu
parse_val_pdu-Settles tag bs = if-Settles (tag == val_insert_id) _ _ (val_insert-Settles bs) (
    if-Settles (tag == val_remove_id) _ _ (val_remove-Settles bs) (
      if-Settles (tag == val_lookup_id) _ _ (val_lookup-Settles bs) (
        if-Settles (tag == val_lookup_response_id) _ _ (val_lookup_response-Settles bs)
          panic-Settles)))

parse_stun_pdu-Settles : (tag : ℕ) (bs : List ℕ) → Settles (parse_stun_pdu tag bs)
unfolding parse_stun_pdu
parse_stun_pdu-Settles tag bs =
    if-Settles (tag == stun_lookup_id) _ _ (stun_lookup-Settles bs)
      (if-Settles (tag == stun_response_id) _ _ (stun_response-Settles bs) panic-Settles)

pub parse_pdu-Settles : (bs : List ℕ) → Settles (parse_pdu bs)
unfolding parse_pdu
parse_pdu-Settles [] = ((λ h. cc), (λ h. cc))
parse_pdu-Settles (tag ∷ rest) =
    let bs : List ℕ = tag ∷ rest in
    if-Settles (in_range 0 8 tag) _ _ (parse_net_pdu-Settles tag bs) (
      if-Settles (in_range 100 103 tag) _ _ (parse_val_pdu-Settles tag bs)
        (if-Settles (in_range 200 201 tag) _ _ (parse_stun_pdu-Settles tag bs) panic-Settles))
