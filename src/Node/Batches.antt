-- ===== src/Node/Batches.antt =====
-- Messages that a node handles one after the other within one poll.
use distributed_hash_table.Prelude.{Option, Bool, true, false, ◌≡◌, arith}
use distributed_hash_table.Pdu.Message.{
  Pdu, net_join, net_new_range, net_leaving, val_insert, val_remove, val_lookup,
}
use distributed_hash_table.Node.Types.{World, Source, State}
use distributed_hash_table.Node.Exec.{◌>>◌, opened}
use distributed_hash_table.Node.Values.{
  forward, handle_val_insert, handle_val_lookup, handle_val_remove,
}
use distributed_hash_table.Node.States.{step_q9, take_last_pdu, value_operation}
use distributed_hash_table.Node.HandlePdu.{handle_pdu}

-- The messages that a client sends.
abbrev pub is_value : Pdu → Bool
is_value (val_insert p) = true
is_value (val_remove p) = true
is_value (val_lookup p) = true
is_value _ = false

-- The messages that a node keeps for the state that they lead to.
abbrev pub is_kept : Pdu → Bool
is_kept (net_join p) = true
is_kept (net_new_range p) = true
is_kept (net_leaving p) = true
is_kept _ = false

-- `w` with another state and another message kept.
abbrev marked : State → Option Pdu → World → World
marked s o w = record w { node = record (w.node) { state = s; last_pdu = o } }

value_forgets :
    (value : Pdu) (t : Source) (s : State) (o : Option Pdu) (w : World)
    → is_value value ≡ true
    → handle_pdu value t (marked s o w) ≡ handle_pdu value t w
unfolding handle_pdu step_q9 take_last_pdu value_operation opened forward handle_val_insert
    handle_val_lookup handle_val_remove
value_forgets (val_insert v) t s o w h = ground arith
value_forgets (val_remove v) t s o w h = ground arith
value_forgets (val_lookup v) t s o w h = ground arith
value_forgets _ t s o w h = ground arith

-- If a NET_JOIN, NET_NEW_RANGE or NET_LEAVING is followed by a VAL_INSERT, VAL_REMOVE or VAL_LOOKUP
-- before the node leaves Q6, the outcome, with the node and all that it sends, is as if the first
-- message had never come.
pub value_after_kept :
    (kept value : Pdu) (s t : Source) (w : World)
    → is_kept kept ≡ true
    → is_value value ≡ true
    → (handle_pdu kept s >> handle_pdu value t) w ≡ handle_pdu value t w
unfolding handle_pdu opened
value_after_kept (net_join p) value s t w k h = value_forgets value t _ _ w h
value_after_kept (net_new_range p) value s t w k h = value_forgets value t _ _ w h
value_after_kept (net_leaving p) value s t w k h = value_forgets value t _ _ w h
value_after_kept _ value s t w k h = ground arith

-- Of two messages among NET_JOIN, NET_NEW_RANGE and NET_LEAVING that come before the node leaves
-- Q6, the first has no effect: the outcome is that of the second alone.
pub kept_after_kept :
    (first second : Pdu) (s t : Source) (w : World)
    → is_kept first ≡ true
    → is_kept second ≡ true
    → (handle_pdu first s >> handle_pdu second t) w ≡ handle_pdu second t w
unfolding handle_pdu opened
kept_after_kept first (net_join p) s t w k h = ground arith
kept_after_kept first (net_new_range p) s t w k h = ground arith
kept_after_kept first (net_leaving p) s t w k h = ground arith
kept_after_kept first _ s t w k h = ground arith
