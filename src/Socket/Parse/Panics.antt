-- ===== src/Socket/Parse/Panics.antt =====
-- When the parser panics.
use distributed_hash_table.Prelude.{
  ℕ, List, ◌∷◌, ◌≡◌, ◌≢◌, ◌↔◌, ◌⊎◌, inl, inr, ◌+◌, ◌≤◌, Option, none, some, Outcome, ok, panic,
  waits, stuck, Bool, true, false, ◌||◌, ◌==◌, arith, length, get_or, if◌then◌else◌, Bool-cases,
  refl,
}
use distributed_hash_table.Pdu.Ids.{
  net_alive_id, net_get_node_id, net_get_node_response_id, net_join_id, net_join_response_id,
  net_close_connection_id, net_new_range_id, net_new_range_response_id, net_leaving_id,
  val_insert_id, val_remove_id, val_lookup_id, val_lookup_response_id, net_alive_size,
  net_get_node_size, net_get_node_response_size, net_join_size, net_join_response_size,
  net_close_connection_size, net_new_range_size, net_new_range_response_size, net_leaving_size,
  val_remove_size, val_lookup_size, stun_lookup_size, stun_response_size,
}
use distributed_hash_table.Pdu.NetAlive
use distributed_hash_table.Pdu.NetGetNode
use distributed_hash_table.Pdu.NetGetNodeResponse
use distributed_hash_table.Pdu.NetJoin
use distributed_hash_table.Pdu.NetJoinResponse
use distributed_hash_table.Pdu.NetCloseConnection
use distributed_hash_table.Pdu.NetNewRange
use distributed_hash_table.Pdu.NetNewRangeResponse
use distributed_hash_table.Pdu.NetLeaving
use distributed_hash_table.Pdu.ValInsert
use distributed_hash_table.Pdu.ValRemove
use distributed_hash_table.Pdu.ValLookup
use distributed_hash_table.Pdu.ValLookupResponse
use distributed_hash_table.Pdu.StunLookup
use distributed_hash_table.Pdu.StunResponse
use distributed_hash_table.Pdu.Message.{
  Pdu, net_alive, net_get_node, net_get_node_response, net_join, net_join_response,
  net_close_connection, net_new_range, net_new_range_response, net_leaving, val_insert, val_remove,
  val_lookup, val_lookup_response, stun_lookup, stun_response,
}
use distributed_hash_table.Socket.Parse.{
  parse_pdu, parse_net_pdu, parse_val_pdu, parse_stun_pdu, found, in_range,
}
use distributed_hash_table.Socket.Parse.Bounds.{Answers, answers}

Answers-ne_panic :
    {A : Type 0} (into : A → Pdu) (len size : ℕ) (m : Outcome (Option (A × ℕ)))
    → Answers len size m
    → found into m ≢ panic
Answers-ne_panic into len size m (inl (lt, e)) h = cc
Answers-ne_panic into len size m (inr (ge, (q, e))) h = cc

found_panics :
    {A : Type 0} (into : A → Pdu) (m : Outcome (Option (A × ℕ)))
    → (found into m ≡ panic) ↔ (m ≡ panic)
found_panics into (ok none) = ((λ h. cc), (λ h. cc))
found_panics into (ok (some (p, n))) = ((λ h. cc), (λ h. cc))
found_panics into panic = ((λ h. refl), (λ h. refl))
found_panics into waits = ((λ h. cc), (λ h. cc))
found_panics into stuck = ((λ h. cc), (λ h. cc))

net_alive-ne_panic : (bs : List ℕ) → found net_alive (NetAlive.try_parse bs) ≢ panic
net_alive-ne_panic bs =
    Answers-ne_panic net_alive (length bs) net_alive_size (NetAlive.try_parse bs) (
      answers (length bs) net_alive_size _ (NetAlive.try_parse_short bs)
        (NetAlive.try_parse_long bs))

net_get_node-ne_panic : (bs : List ℕ) → found net_get_node (NetGetNode.try_parse bs) ≢ panic
net_get_node-ne_panic bs =
    Answers-ne_panic net_get_node (length bs) net_get_node_size (NetGetNode.try_parse bs) (
      answers (length bs) net_get_node_size _ (NetGetNode.try_parse_short bs)
        (NetGetNode.try_parse_long bs))

net_get_node_response-ne_panic :
    (bs : List ℕ) → found net_get_node_response (NetGetNodeResponse.try_parse bs) ≢ panic
net_get_node_response-ne_panic bs =
    Answers-ne_panic net_get_node_response (length bs) net_get_node_response_size
      (NetGetNodeResponse.try_parse bs)
      (answers (length bs) net_get_node_response_size _ (NetGetNodeResponse.try_parse_short bs)
        (NetGetNodeResponse.try_parse_long bs))

net_join-ne_panic : (bs : List ℕ) → found net_join (NetJoin.try_parse bs) ≢ panic
net_join-ne_panic bs =
    Answers-ne_panic net_join (length bs) net_join_size (NetJoin.try_parse bs)
      (answers (length bs) net_join_size _ (NetJoin.try_parse_short bs) (NetJoin.try_parse_long bs))

net_join_response-ne_panic :
    (bs : List ℕ) → found net_join_response (NetJoinResponse.try_parse bs) ≢ panic
net_join_response-ne_panic bs =
    Answers-ne_panic net_join_response (length bs) net_join_response_size
      (NetJoinResponse.try_parse bs)
      (answers (length bs) net_join_response_size _ (NetJoinResponse.try_parse_short bs)
        (NetJoinResponse.try_parse_long bs))

net_close_connection-ne_panic :
    (bs : List ℕ) → found net_close_connection (NetCloseConnection.try_parse bs) ≢ panic
net_close_connection-ne_panic bs =
    Answers-ne_panic net_close_connection (length bs) net_close_connection_size
      (NetCloseConnection.try_parse bs)
      (answers (length bs) net_close_connection_size _ (NetCloseConnection.try_parse_short bs)
        (NetCloseConnection.try_parse_long bs))

net_new_range-ne_panic : (bs : List ℕ) → found net_new_range (NetNewRange.try_parse bs) ≢ panic
net_new_range-ne_panic bs =
    Answers-ne_panic net_new_range (length bs) net_new_range_size (NetNewRange.try_parse bs) (
      answers (length bs) net_new_range_size _ (NetNewRange.try_parse_short bs)
        (NetNewRange.try_parse_long bs))

net_new_range_response-ne_panic :
    (bs : List ℕ) → found net_new_range_response (NetNewRangeResponse.try_parse bs) ≢ panic
net_new_range_response-ne_panic bs =
    Answers-ne_panic net_new_range_response (length bs) net_new_range_response_size
      (NetNewRangeResponse.try_parse bs)
      (answers (length bs) net_new_range_response_size _ (NetNewRangeResponse.try_parse_short bs)
        (NetNewRangeResponse.try_parse_long bs))

net_leaving-ne_panic : (bs : List ℕ) → found net_leaving (NetLeaving.try_parse bs) ≢ panic
net_leaving-ne_panic bs =
    Answers-ne_panic net_leaving (length bs) net_leaving_size (NetLeaving.try_parse bs) (
      answers (length bs) net_leaving_size _ (NetLeaving.try_parse_short bs)
        (NetLeaving.try_parse_long bs))

val_remove-ne_panic : (bs : List ℕ) → found val_remove (ValRemove.try_parse bs) ≢ panic
val_remove-ne_panic bs =
    Answers-ne_panic val_remove (length bs) val_remove_size (ValRemove.try_parse bs) (
      answers (length bs) val_remove_size _ (ValRemove.try_parse_short bs)
        (ValRemove.try_parse_long bs))

val_lookup-ne_panic : (bs : List ℕ) → found val_lookup (ValLookup.try_parse bs) ≢ panic
val_lookup-ne_panic bs =
    Answers-ne_panic val_lookup (length bs) val_lookup_size (ValLookup.try_parse bs) (
      answers (length bs) val_lookup_size _ (ValLookup.try_parse_short bs)
        (ValLookup.try_parse_long bs))

stun_lookup-ne_panic : (bs : List ℕ) → found stun_lookup (StunLookup.try_parse bs) ≢ panic
stun_lookup-ne_panic bs =
    Answers-ne_panic stun_lookup (length bs) stun_lookup_size (StunLookup.try_parse bs) (
      answers (length bs) stun_lookup_size _ (StunLookup.try_parse_short bs)
        (StunLookup.try_parse_long bs))

stun_response-ne_panic : (bs : List ℕ) → found stun_response (StunResponse.try_parse bs) ≢ panic
stun_response-ne_panic bs =
    Answers-ne_panic stun_response (length bs) stun_response_size (StunResponse.try_parse bs) (
      answers (length bs) stun_response_size _ (StunResponse.try_parse_short bs)
        (StunResponse.try_parse_long bs))

-- The tags that some message has.
abbrev pub is_known : ℕ → Bool
is_known tag = in_range 0 8 tag || (in_range 100 103 tag || in_range 200 201 tag)

-- The buffer ends between the name and the length of the email address.
abbrev pub IsSplit : List ℕ → Type 0
IsSplit bs = (14 ≤ length bs) × (length bs ≡ 14 + get_or bs 13 0)

if-ne_panic :
    {A : Type 0} (b : Bool) (m n : Outcome A)
    → m ≢ panic
    → (b ≡ false → n ≢ panic)
    → (if b then m else n) ≢ panic
if-ne_panic true m n f g = f
if-ne_panic false m n f g = g refl

net_ne_panic : (tag : ℕ) (bs : List ℕ) → in_range 0 8 tag ≡ true → parse_net_pdu tag bs ≢ panic
unfolding parse_net_pdu
net_ne_panic tag bs k = if-ne_panic (tag == net_alive_id) _ _ (net_alive-ne_panic bs) λ e0.
    if-ne_panic (tag == net_get_node_id) _ _ (net_get_node-ne_panic bs) λ e1.
      if-ne_panic (tag == net_get_node_response_id) _ _ (net_get_node_response-ne_panic bs) λ e2.
        if-ne_panic (tag == net_join_id) _ _ (net_join-ne_panic bs) λ e3.
          if-ne_panic (tag == net_join_response_id) _ _ (net_join_response-ne_panic bs) λ e4.
            if-ne_panic (tag == net_close_connection_id) _ _ (net_close_connection-ne_panic bs)
              λ e5. if-ne_panic (tag == net_new_range_id) _ _ (net_new_range-ne_panic bs) λ e6.
                if-ne_panic (tag == net_new_range_response_id) _ _
                  (net_new_range_response-ne_panic bs)
                  λ e7.
                    if-ne_panic (tag == net_leaving_id) _ _ (net_leaving-ne_panic bs)
                      λ e8. λ _. absurd (ground arith)

stun_ne_panic :
    (tag : ℕ) (bs : List ℕ) → in_range 200 201 tag ≡ true → parse_stun_pdu tag bs ≢ panic
unfolding parse_stun_pdu
stun_ne_panic tag bs k = ground (arith, stun_lookup-ne_panic bs, stun_response-ne_panic bs)

insert_panics : (bs : List ℕ) → (found val_insert (ValInsert.try_parse bs) ≡ panic) ↔ IsSplit bs
insert_panics bs =
    let f = found_panics val_insert (ValInsert.try_parse bs) in
    let g = ValInsert.try_parse_panics bs in ((λ h. g.0 (f.0 h)), (λ h. f.1 (g.1 h)))

response_panics :
    (bs : List ℕ)
    → (found val_lookup_response (ValLookupResponse.try_parse bs) ≡ panic) ↔ IsSplit bs
response_panics bs =
    let f = found_panics val_lookup_response (ValLookupResponse.try_parse bs) in
    let g = ValLookupResponse.try_parse_panics bs in ((λ h. g.0 (f.0 h)), (λ h. f.1 (g.1 h)))

val_panics :
    (tag : ℕ) (bs : List ℕ)
    → in_range 100 103 tag ≡ true
    → (parse_val_pdu tag bs ≡ panic)
      ↔ (((tag ≡ val_insert_id) ⊎ (tag ≡ val_lookup_response_id)) × IsSplit bs)
unfolding parse_val_pdu
val_panics tag bs k = elim (Bool-cases (tag == val_insert_id)) [
  | inl e ↦
      rw e ((λ h. (inl (ground arith), (insert_panics bs).0 h)), (λ h. (insert_panics bs).1 h.1))
  | inr a ↦ rw a (elim (Bool-cases (tag == val_remove_id)) [
    | inl e ↦ rw e ((λ h. absurd (val_remove-ne_panic bs h)), (λ h. absurd (ground arith)))
    | inr b ↦ rw b (elim (Bool-cases (tag == val_lookup_id)) [
      | inl e ↦ rw e ((λ h. absurd (val_lookup-ne_panic bs h)), (λ h. absurd (ground arith)))
      | inr c ↦
          let e : (tag == val_lookup_response_id) ≡ true = ground arith in
          rw (c, e)
            (
              (λ h. (inr (ground arith), (response_panics bs).0 h)),
              (λ h. (response_panics bs).1 h.1),
            )
    ])
  ])
]

-- On a buffer with a first byte, parse_pdu panics exactly if that byte is the tag of no message, or
-- it is that of a VAL_INSERT or a VAL_LOOKUP_RESPONSE and the buffer ends between the name and the
-- length of the email address.
pub parse_pdu_panics :
    (tag : ℕ) (rest : List ℕ)
    → (parse_pdu (tag ∷ rest) ≡ panic) ↔ (
        (is_known tag ≡ false)
        ⊎ (((tag ≡ val_insert_id) ⊎ (tag ≡ val_lookup_response_id)) × IsSplit (tag ∷ rest)))
unfolding parse_pdu
parse_pdu_panics tag rest =
    let bs : List ℕ = tag ∷ rest in
    ground (arith, net_ne_panic tag bs, val_panics tag bs, stun_ne_panic tag bs)
