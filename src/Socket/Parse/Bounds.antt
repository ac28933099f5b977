-- ===== src/Socket/Parse/Bounds.antt =====
-- How much of the buffer the parser takes.
use distributed_hash_table.Prelude.{
  ℕ, suc, List, [], ◌∷◌, ◌≡◌, ◌⊎◌, inl, inr, ◌≤◌, ◌<◌, Option, none, some, Outcome, ok, panic,
  >>=-eq-ok, ◌∙◌, ap, Bool, true, false, ◌==◌, arith, length, if◌then◌else◌, Bool-cases, ltb,
}
use distributed_hash_table.Pdu.Ids.{
  net_alive_id, net_get_node_id, net_get_node_response_id, net_join_id, net_join_response_id,
  net_close_connection_id, net_new_range_id, net_new_range_response_id, net_leaving_id,
  val_insert_id, val_remove_id, val_lookup_id, val_lookup_response_id, stun_lookup_id,
  stun_response_id, net_alive_size, net_get_node_size, net_get_node_response_size, net_join_size,
  net_join_response_size, net_close_connection_size, net_new_range_size,
  net_new_range_response_size, net_leaving_size, val_remove_size, val_lookup_size, stun_lookup_size,
  stun_response_size,
}
use distributed_hash_table.Pdu.Bytes.{Parses}
use distributed_hash_table.Pdu.NetAlive
use distributed_hash_table.Pdu.NetGetNode
use distributed_hash_table.Pdu.NetGetNodeResponse
use distributed_hash_table.Pdu.NetJoin
use distributed_hash_table.Pdu.NetJoinResponse
use distributed_hash_table.Pdu.NetCloseConnection
use distributed_hash_table.Pdu.NetNewRange
use distributed_hash_table.Pdu.NetNewRangeResponse
use distributed_hash_table.Pdu.NetLeaving
use distributed_hash_table.Pdu.ValInsert
use distributed_hash_table.Pdu.ValRemove
use distributed_hash_table.Pdu.ValLookup
use distributed_hash_table.Pdu.ValLookupResponse
use distributed_hash_table.Pdu.StunLookup
use distributed_hash_table.Pdu.StunResponse
use distributed_hash_table.Pdu.Message.{
  Pdu, net_alive, net_get_node, net_get_node_response, net_join, net_join_response,
  net_close_connection, net_new_range, net_new_range_response, net_leaving, val_insert, val_remove,
  val_lookup, val_lookup_response, stun_lookup, stun_response,
}
use distributed_hash_table.Socket.Parse.{
  parse_pdu, parse_net_pdu, parse_val_pdu, parse_stun_pdu, found, into_pdu, in_range,
}

-- A parser of a fixed size waits for that many bytes, and then takes them.
abbrev pub Answers : {A : Type 0} → ℕ → ℕ → Outcome (Option (A × ℕ)) → Type 0
Answers len size m = ((len < size) × (m ≡ ok none)) ⊎ ((size ≤ len) × Parses m size)

pub answers :
    {A : Type 0} (len size : ℕ) (m : Outcome (Option (A × ℕ)))
    → (suc len ≤ size → m ≡ ok none)
    → (size ≤ len → Parses m size)
    → Answers len size m
answers len size m short long = elim (Bool-cases (ltb len size)) [
  | inl h ↦ let lt : len < size = ground arith in inl (lt, short lt)
  | inr h ↦ let ge : size ≤ len = ground arith in inr (ge, long ge)
]

-- A result that takes a byte at least, and no more than the buffer has.
abbrev Takes : {A : Type 0} → ℕ → Outcome (Option (A × ℕ)) → Type 0
Takes {A} len m = (p : A) (used : ℕ) → m ≡ ok (some (p, used)) → (1 ≤ used) × (used ≤ len)

Answers-Takes :
    {A : Type 0} (len size : ℕ) (m : Outcome (Option (A × ℕ)))
    → 1 ≤ size
    → Answers len size m
    → Takes len m
Answers-Takes len size m pos (inl (lt, e)) p used h = cc
Answers-Takes len size m pos (inr (ge, (q, e))) p used h = ground arith

into_pdu-some :
    {A : Type 0} (into : A → Pdu) (o : Option (A × ℕ)) (q : Pdu) (used : ℕ)
    → into_pdu into o ≡ ok (some (q, used))
    → (p : A) × (o ≡ some (p, used))
into_pdu-some into none q used h = cc
into_pdu-some into (some (p, s)) q used h = (p, ground arith)

found-Takes :
    {A : Type 0} (into : A → Pdu) (len : ℕ) (m : Outcome (Option (A × ℕ)))
    → Takes len m
    → Takes len (found into m)
found-Takes into len m t q used h =
    let (o, e, f) = >>=-eq-ok m (into_pdu into) h in
    let (p, g) = into_pdu-some into o q used f in t p used (e ∙ ap ok g)

if-Takes :
    {A : Type 0} (b : Bool) (len : ℕ) (m n : Outcome (Option (A × ℕ)))
    → Takes len m
    → Takes len n
    → Takes len (if b then m else n)
if-Takes true len m n s t = s
if-Takes false len m n s t = t

panic-Takes : {A : Type 0} (len : ℕ) → Takes {A = A} len panic
panic-Takes len p used h = cc

net_alive-Takes : (bs : List ℕ) → Takes (length bs) (found net_alive (NetAlive.try_parse bs))
net_alive-Takes bs = found-Takes net_alive (length bs) (NetAlive.try_parse bs) (
    Answers-Takes (length bs) net_alive_size _ (omega arith) (
      answers (length bs) net_alive_size _ (NetAlive.try_parse_short bs)
        (NetAlive.try_parse_long bs)))

net_get_node-Takes :
    (bs : List ℕ) → Takes (length bs) (found net_get_node (NetGetNode.try_parse bs))
net_get_node-Takes bs = found-Takes net_get_node (length bs) (NetGetNode.try_parse bs) (
    Answers-Takes (length bs) net_get_node_size _ (omega arith) (
      answers (length bs) net_get_node_size _ (NetGetNode.try_parse_short bs)
        (NetGetNode.try_parse_long bs)))

net_get_node_response-Takes :
    (bs : List ℕ)
    → Takes (length bs) (found net_get_node_response (NetGetNodeResponse.try_parse bs))
net_get_node_response-Takes bs =
    found-Takes net_get_node_response (length bs) (NetGetNodeResponse.try_parse bs) (
      Answers-Takes (length bs) net_get_node_response_size _ (omega arith) (
        answers (length bs) net_get_node_response_size _ (NetGetNodeResponse.try_parse_short bs)
          (NetGetNodeResponse.try_parse_long bs)))

net_join-Takes : (bs : List ℕ) → Takes (length bs) (found net_join (NetJoin.try_parse bs))
net_join-Takes bs = found-Takes net_join (length bs) (NetJoin.try_parse bs) (
    Answers-Takes (length bs) net_join_size _ (omega arith) (
      answers (length bs) net_join_size _ (NetJoin.try_parse_short bs) (NetJoin.try_parse_long bs)))

net_join_response-Takes :
    (bs : List ℕ) → Takes (length bs) (found net_join_response (NetJoinResponse.try_parse bs))
net_join_response-Takes bs =
    found-Takes net_join_response (length bs) (NetJoinResponse.try_parse bs) (
      Answers-Takes (length bs) net_join_response_size _ (omega arith) (
        answers (length bs) net_join_response_size _ (NetJoinResponse.try_parse_short bs)
          (NetJoinResponse.try_parse_long bs)))

net_close_connection-Takes :
    (bs : List ℕ) → Takes (length bs) (found net_close_connection (NetCloseConnection.try_parse bs))
net_close_connection-Takes bs =
    found-Takes net_close_connection (length bs) (NetCloseConnection.try_parse bs) (
      Answers-Takes (length bs) net_close_connection_size _ (omega arith) (
        answers (length bs) net_close_connection_size _ (NetCloseConnection.try_parse_short bs)
          (NetCloseConnection.try_parse_long bs)))

net_new_range-Takes :
    (bs : List ℕ) → Takes (length bs) (found net_new_range (NetNewRange.try_parse bs))
net_new_range-Takes bs = found-Takes net_new_range (length bs) (NetNewRange.try_parse bs) (
    Answers-Takes (length bs) net_new_range_size _ (omega arith) (
      answers (length bs) net_new_range_size _ (NetNewRange.try_parse_short bs)
        (NetNewRange.try_parse_long bs)))

net_new_range_response-Takes :
    (bs : List ℕ)
    → Takes (length bs) (found net_new_range_response (NetNewRangeResponse.try_parse bs))
net_new_range_response-Takes bs =
    found-Takes net_new_range_response (length bs) (NetNewRangeResponse.try_parse bs) (
      Answers-Takes (length bs) net_new_range_response_size _ (omega arith) (
        answers (length bs) net_new_range_response_size _ (NetNewRangeResponse.try_parse_short bs)
          (NetNewRangeResponse.try_parse_long bs)))

net_leaving-Takes : (bs : List ℕ) → Takes (length bs) (found net_leaving (NetLeaving.try_parse bs))
net_leaving-Takes bs = found-Takes net_leaving (length bs) (NetLeaving.try_parse bs) (
    Answers-Takes (length bs) net_leaving_size _ (omega arith) (
      answers (length bs) net_leaving_size _ (NetLeaving.try_parse_short bs)
        (NetLeaving.try_parse_long bs)))

val_insert-Takes : (bs : List ℕ) → Takes (length bs) (found val_insert (ValInsert.try_parse bs))
val_insert-Takes bs =
    found-Takes val_insert (length bs) (ValInsert.try_parse bs)
      λ p used h. omega (arith, ValInsert.try_parse_used bs p used h)

val_remove-Takes : (bs : List ℕ) → Takes (length bs) (found val_remove (ValRemove.try_parse bs))
val_remove-Takes bs = found-Takes val_remove (length bs) (ValRemove.try_parse bs) (
    Answers-Takes (length bs) val_remove_size _ (omega arith) (
      answers (length bs) val_remove_size _ (ValRemove.try_parse_short bs)
        (ValRemove.try_parse_long bs)))

val_lookup-Takes : (bs : List ℕ) → Takes (length bs) (found val_lookup (ValLookup.try_parse bs))
val_lookup-Takes bs = found-Takes val_lookup (length bs) (ValLookup.try_parse bs) (
    Answers-Takes (length bs) val_lookup_size _ (omega arith) (
      answers (length bs) val_lookup_size _ (ValLookup.try_parse_short bs)
        (ValLookup.try_parse_long bs)))

val_lookup_response-Takes :
    (bs : List ℕ) → Takes (length bs) (found val_lookup_response (ValLookupResponse.try_parse bs))
val_lookup_response-Takes bs =
    found-Takes val_lookup_response (length bs) (ValLookupResponse.try_parse bs)
      λ p used h. omega (arith, ValLookupResponse.try_parse_used bs p used h)

stun_lookup-Takes : (bs : List ℕ) → Takes (length bs) (found stun_lookup (StunLookup.try_parse bs))
stun_lookup-Takes bs = found-Takes stun_lookup (length bs) (StunLookup.try_parse bs) (
    Answers-Takes (length bs) stun_lookup_size _ (omega arith) (
      answers (length bs) stun_lookup_size _ (StunLookup.try_parse_short bs)
        (StunLookup.try_parse_long bs)))

stun_response-Takes :
    (bs : List ℕ) → Takes (length bs) (found stun_response (StunResponse.try_parse bs))
stun_response-Takes bs = found-Takes stun_response (length bs) (StunResponse.try_parse bs) (
    Answers-Takes (length bs) stun_response_size _ (omega arith) (
      answers (length bs) stun_response_size _ (StunResponse.try_parse_short bs)
        (StunResponse.try_parse_long bs)))

parse_net_pdu-Takes : (tag : ℕ) (bs : List ℕ) → Takes (length bs) (parse_net_pdu tag bs)
unfolding parse_net_pdu
parse_net_pdu-Takes tag bs = if-Takes (tag == net_alive_id) (length bs) _ _ (net_alive-Takes bs) (
    if-Takes (tag == net_get_node_id) (length bs) _ _ (net_get_node-Takes bs) (
      if-Takes (tag == net_get_node_response_id) (length bs) _ _ (net_get_node_response-Takes bs) (
        if-Takes (tag == net_join_id) (length bs) _ _ (net_join-Takes bs) (
          if-Takes (tag == net_join_response_id) (length bs) _ _ (net_join_response-Takes bs) (
            if-Takes (tag == net_close_connection_id) (length bs) _ _
              (net_close_connection-Takes bs)
              (if-Takes (tag == net_new_range_id) (length bs) _ _ (net_new_range-Takes bs) (
                if-Takes (tag == net_new_range_response_id) (length bs) _ _
                  (net_new_range_response-Takes bs)
                  (if-Takes (tag == net_leaving_id) (length bs) _ _ (net_leaving-Takes bs)
                    (panic-Takes (length bs))))))))))

parse_val_pdu-Takes : (tag : ℕ) (bs : List ℕ) → Takes (length bs) (parse_val_pdu tag bs)
unfolding parse_val_pdu
parse_val_pdu-Takes tag bs = if-Takes (tag == val_insert_id) (length bs) _ _ (val_insert-Takes bs) (
    if-Takes (tag == val_remove_id) (length bs) _ _ (val_remove-Takes bs) (
      if-Takes (tag == val_lookup_id) (length bs) _ _ (val_lookup-Takes bs) (
        if-Takes (tag == val_lookup_response_id) (length bs) _ _ (val_lookup_response-Takes bs)
          (panic-Takes (length bs)))))

parse_stun_pdu-Takes : (tag : ℕ) (bs : List ℕ) → Takes (length bs) (parse_stun_pdu tag bs)
unfolding parse_stun_pdu
parse_stun_pdu-Takes tag bs =
    if-Takes (tag == stun_lookup_id) (length bs) _ _ (stun_lookup-Takes bs) (
      if-Takes (tag == stun_response_id) (length bs) _ _ (stun_response-Takes bs)
        (panic-Takes (length bs)))

-- A message that the parser finds takes at least one byte and no more than the buffer has.
pub parse_pdu_used :
    (bs : List ℕ) (p : Pdu) (used : ℕ)
    → parse_pdu bs ≡ ok (some (p, used))
    → (1 ≤ used) × (used ≤ length bs)
unfolding parse_pdu
parse_pdu_used [] p used h = cc
parse_pdu_used (tag ∷ rest) p used h =
    let bs : List ℕ = tag ∷ rest in
    if-Takes (in_range 0 8 tag) (length bs) _ _ (parse_net_pdu-Takes tag bs)
      (if-Takes (in_range 100 103 tag) (length bs) _ _ (parse_val_pdu-Takes tag bs) (
        if-Takes (in_range 200 201 tag) (length bs) _ _ (parse_stun_pdu-Takes tag bs)
          (panic-Takes (length bs))))
      p used h
