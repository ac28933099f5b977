-- ===== src/Tests/Nodes.antt =====
-- A sample node.
use distributed_hash_table.Prelude.{
  Option, ◌≡◌, inl, refl, List, [], ◌∷◌, ◌++◌, map, none, some, true, false, ◌||◌, ◌&&◌,
  if◌then◌else◌, ok, arith, keep_if, All,
}
use distributed_hash_table.Pdu.SocketAddr.{v4}
use distributed_hash_table.Pdu.Text.{Text, text_eq}
use distributed_hash_table.Pdu.NetJoin
use distributed_hash_table.Pdu.NetNewRange
use distributed_hash_table.Pdu.NetNewRange.{NetNewRangePdu}
use distributed_hash_table.Pdu.NetNewRangeResponse
use distributed_hash_table.Pdu.ValInsert
use distributed_hash_table.Pdu.ValInsert.{ValInsertPdu}
use distributed_hash_table.Pdu.ValRemove
use distributed_hash_table.Pdu.ValRemove.{ValRemovePdu}
use distributed_hash_table.Pdu.ValLookup
use distributed_hash_table.Pdu.ValLookup.{ValLookupPdu}
use distributed_hash_table.Pdu.ValLookupResponse.{ValLookupResponsePdu}
use distributed_hash_table.Pdu.Message.{
  Pdu, net_join, net_new_range, net_new_range_response, val_insert, val_lookup_response,
}
use distributed_hash_table.Node.Entry.{Entry, new, hash, hash_ssn}
use distributed_hash_table.Node.Types.{World, Stream, udp, successor, q6, q15, udp_sent, tcp_sent}
use distributed_hash_table.Node.Exec.{◌>>◌, opened}
use distributed_hash_table.Node.Util.{halves, covers, in_my_range, moves, stays}
use distributed_hash_table.Node.Values.{
  find, handle_val_insert, handle_val_remove, handle_val_lookup,
}
use distributed_hash_table.Node.States.{step_q15, take_last_pdu}
use distributed_hash_table.Node.HandlePdu.{handle_pdu}
use distributed_hash_table.Node.Run.{step}
use distributed_hash_table.Node.Ranges.{halves_partition}
use distributed_hash_table.Node.Diagram.{◌⟶◌, step-⟶}
use distributed_hash_table.Node.Transfer.{handed, transfer_lem, transfer_conserves}
use distributed_hash_table.Node.Ownership.{step-IsOwned}
use distributed_hash_table.Node.Ownership.Sets.{IsOwned}
use distributed_hash_table.Node.Ownership.Merges.{Adjacent}
use mathlib.Core.List.{Perm}
use distributed_hash_table.Node.Store.{
  insert_then_find, remove_then_find, IsFirst, IsAnswer, lookup_answers,
}
use distributed_hash_table.Node.Batches.{value_after_kept, kept_after_kept}
use distributed_hash_table.Tests.Samples.{
  number, name, email, entry, other_entry, next_addr, next, client_addr, node_in, world_of,
}

hash_of_entry : hash entry ≡ 26
unfolding hash_ssn
hash_of_entry = refl

hash_of_other : hash other_entry ≡ 27
unfolding hash_ssn
hash_of_other = refl

halves_partition_example :
    let (own, other) = halves (0, 255) in
    (covers (0, 255) 128 ≡ covers own 128 || covers other 128)
    × (covers own 128 && covers other 128 ≡ false)
halves_partition_example =
    halves_partition 0 255 128 (omega arith) (omega arith) (inl (omega arith))

-- A node that takes the range above its own, with an entry.
abbrev offered : World
offered =
    world_of (node_in q15 (20, 30) (some (net_new_range (NetNewRange.new 31 40))) (entry ∷ []))

abbrev merged : World
merged = record (world_of (node_in q6 (20, 40) none (entry ∷ []))) {
  sent = tcp_sent next (net_new_range_response NetNewRangeResponse.new) ∷ [];
}

merge_runs : step offered ≡ ok (tt, merged)
unfolding step step_q15 take_last_pdu opened NetNewRange.new
merge_runs = refl

step-⟶_example : q15 ⟶ q6
step-⟶_example = step-⟶ offered (tt, merged) merge_runs

offer_lem :
    (p : NetNewRangePdu)
    → some (net_new_range (NetNewRange.new 31 40)) ≡ some (net_new_range p)
    → Adjacent (20, 30) p
unfolding NetNewRange.new
offer_lem p e = inl (ground arith)

step-IsOwned_example : IsOwned merged.node
step-IsOwned_example =
    step-IsOwned offered (tt, merged) ((ground (arith, hash_of_entry), tt), offer_lem) merge_runs

-- A node with both entries, of which it hands over the one with the hash 27.
abbrev full : World
full = world_of (node_in q6 (20, 30) none (entry ∷ other_entry ∷ []))

abbrev halved : World
halved = record full {
  node = node_in q6 (20, 30) none (keep_if (stays 27 30) (entry ∷ other_entry ∷ []));
  sent = map (handed next) (keep_if (moves 27 30) (entry ∷ other_entry ∷ []));
}

transfer_conserves_example :
    (socket : Stream) × (moved : List Entry) × (some next ≡ some socket)
    × (halved.sent ≡ [] ++ map (handed socket) moved)
    × Perm (moved ++ halved.node.values) (entry ∷ other_entry ∷ [])
    × All (λ x. moves 27 30 x ≡ true) moved
    × All (λ x. stays 27 30 x ≡ true) halved.node.values
transfer_conserves_example =
    transfer_conserves true 27 30 full (tt, halved) (transfer_lem true 27 30 next full refl refl)

covers_number : in_my_range full.node number ≡ true
covers_number = rw hash_of_entry refl

insert_then_find_example :
    (v : World) × (handle_val_insert (ValInsert.new number email name) full ≡ ok (tt, v))
    × ((ssn : Text)
        → find ssn v.node.values ≡ (
            let old = find ssn full.node.values in
            elim old [
              | some x ↦ some x
              | none ↦ if text_eq number ssn then some (new number email name) else none
            ]))
    × (v.sent ≡ [])
unfolding ValInsert.new
insert_then_find_example = insert_then_find full (ValInsert.new number email name) covers_number

remove_then_find_example :
    (v : World) × (handle_val_remove (ValRemove.new number) full ≡ ok (tt, v))
    × ((ssn : Text)
        → find ssn v.node.values ≡ (if text_eq number ssn then none else find ssn full.node.values))
    × (v.sent ≡ [])
unfolding ValRemove.new
remove_then_find_example = remove_then_find full (ValRemove.new number) covers_number

lookup_answers_example :
    (o : Option Entry) × (r : ValLookupResponsePdu) × IsFirst number full.node.values o
    × IsAnswer o r
    × (handle_val_lookup (ValLookup.new number 5 8004) full
        ≡ ok (tt, record full { sent = udp_sent (v4 5 8004) (val_lookup_response r) ∷ [] }))
unfolding ValLookup.new
lookup_answers_example = lookup_answers full (ValLookup.new number 5 8004) covers_number refl

abbrev joining : Pdu
joining = net_join (NetJoin.new 3 8002 0 0 0)

value_after_kept_example :
    (handle_pdu joining (udp client_addr)
        >> handle_pdu (val_insert (ValInsert.new number email name)) (udp client_addr))
      full
    ≡ handle_pdu (val_insert (ValInsert.new number email name)) (udp client_addr) full
value_after_kept_example =
    value_after_kept joining (val_insert (ValInsert.new number email name)) (udp client_addr)
      (udp client_addr) full refl refl

kept_after_kept_example :
    (handle_pdu joining (udp client_addr)
        >> handle_pdu (net_new_range (NetNewRange.new 31 40)) (successor next_addr))
      full
    ≡ handle_pdu (net_new_range (NetNewRange.new 31 40)) (successor next_addr) full
kept_after_kept_example =
    kept_after_kept joining (net_new_range (NetNewRange.new 31 40)) (udp client_addr)
      (successor next_addr) full refl refl
