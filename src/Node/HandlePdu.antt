-- ===== src/Node/HandlePdu.antt =====
-- `handle_pdu`: what each message leads to in `q6`.
use distributed_hash_table.Prelude.{some}
use distributed_hash_table.Pdu.Message.{
  Pdu, net_join, net_close_connection, net_new_range, net_leaving, val_insert, val_remove,
  val_lookup,
}
use distributed_hash_table.Node.Types.{Source, udp, predecessor, successor, q12, q15, q16, q17}
use distributed_hash_table.Node.Exec.{Exec, pure, fail, ◌>>◌, modify, become}
use distributed_hash_table.Node.States.{step_q9}

unfoldable pub from_predecessor : Source → Exec (Unit {0})
from_predecessor (predecessor a) = become q17
from_predecessor (successor a) = fail
from_predecessor (udp a) = fail

-- A value operation is done at once, and its state is `q6` again; the other messages are kept for
-- the state that they lead to. Any other message is reported and dropped.
unfoldable pub handle_pdu : Pdu → Source → Exec (Unit {0})
handle_pdu (net_join p) sender = do
  modify λ n. record n { last_pdu = some (net_join p) }
  become q12
handle_pdu (net_close_connection p) sender = from_predecessor sender
handle_pdu (net_new_range p) sender = do
  modify λ n. record n { last_pdu = some (net_new_range p) }
  become q15
handle_pdu (net_leaving p) sender = do
  modify λ n. record n { last_pdu = some (net_leaving p) }
  become q16
handle_pdu (val_insert p) sender = do
  modify λ n. record n { last_pdu = some (val_insert p) }
  step_q9
handle_pdu (val_remove p) sender = do
  modify λ n. record n { last_pdu = some (val_remove p) }
  step_q9
handle_pdu (val_lookup p) sender = do
  modify λ n. record n { last_pdu = some (val_lookup p) }
  step_q9
handle_pdu _ sender = pure tt
