-- ===== src/Node/Steps.antt =====
-- The states of a node that write neither its range nor its entries, and the value operations: each
-- keeps a predicate of the node that does not read the fields that it writes.
use distributed_hash_table.Prelude.{Bool, List, ℕ, Option, none, some}
use distributed_hash_table.Pdu.SocketAddr.{SocketAddr}
use distributed_hash_table.Pdu.Message.{
  Pdu, net_join, net_close_connection, net_new_range, net_leaving, val_insert, val_remove,
  val_lookup,
}
use distributed_hash_table.Node.Entry.{Entry}
use distributed_hash_table.Node.Types.{
  Node, State, Stream, Source, udp, predecessor, successor, q10,
}
use distributed_hash_table.Node.Exec.{Exec, ◌>>◌, modify, become}
use distributed_hash_table.Node.States.{
  step_q1, step_q2, step_q3, step_q7, value_operation, step_q9, leave_ring, step_q11, place_join,
  step_q12, step_q14, step_q16, step_q17,
}
use distributed_hash_table.Node.HandlePdu.{from_predecessor, handle_pdu}
use distributed_hash_table.Node.Run.{step_q6}
use distributed_hash_table.Node.Hoare.{
  Keeps, OnNode, Keeps-bind, Keeps-if, Keeps-this, Keeps-pure, Keeps-fail, Keeps-modify,
  Keeps-or_fail, Keeps-reach,
}
use distributed_hash_table.Node.Frame.{
  Keeps-take_last_pdu, Keeps-await_pdu_udp, Keeps-await_pdu, Keeps-accept_predecessor,
  Keeps-get_listen_addr, Keeps-update_max, Keeps-is_own_address, Keeps-disconnect,
  Keeps-connect_to_successor,
}
use distributed_hash_table.Node.Serve.{Sockets, Keeps-step_q6}

-- The fields of the node but for its range, its entries and what stops it.
pub record Writes (P : Node → Type 0) : Type 0 where
  pub sockets : Sockets P
  pub state : (n : Node) (s : State) → P n → P (record n { state = s })
  pub address : (n : Node) (a : Option ℕ) → P n → P (record n { own_address = a })
  pub message : (n : Node) (m : Option Pdu) → P n → P (record n { last_pdu = m })
  pub listen : (n : Node) (a : Option SocketAddr) → P n → P (record n { successor_listen = a })
  pub predecessor : (n : Node) (s : Option Stream) → P n → P (record n { predecessor = s })

-- A predicate of the other fields.
pub Writes-kept :
    (Q : List Entry → ℕ × ℕ → Bool → Bool → Type 0)
    → Writes (λ n. Q n.values n.hash_range n.running n.should_close)
Writes-kept Q = record {
  sockets = record {
    alive = λ n t h. h;
    udp_queue = λ n u h. h;
    successor_queue = λ n t h. h;
    predecessor_queue = λ n t h. h;
    successor_gone = λ n s h. h;
  };
  state = λ n s h. h;
  address = λ n a h. h;
  message = λ n m h. h;
  listen = λ n a h. h;
  predecessor = λ n s h. h;
}

module _ (P : Node → Type 0) (c : Writes P) where
  pub Keeps-become : (s : State) → Keeps (OnNode P) (become s)
  Keeps-become s = Keeps-modify _ _ (λ w h. c.state w.node s h)

  pub Keeps-q1 : Keeps (OnNode P) step_q1
  unfolding step_q1
  Keeps-q1 =
      Keeps-bind _ _ _ (Keeps-this _) λ n. Keeps-bind _ _ _ (Keeps-reach P _ _) λ _. Keeps-become _

  pub Keeps-q2 : Keeps (OnNode P) step_q2
  unfolding step_q2
  Keeps-q2 = Keeps-bind _ _ _ (Keeps-await_pdu_udp P c.sockets.udp_queue) λ m.
      Keeps-bind _ _ _ (Keeps-or_fail _ _)
        λ pdu. Keeps-bind _ _ _ (Keeps-modify _ _ (λ w h. c.address w.node _ h)) λ _. Keeps-become _

  pub Keeps-q3 : Keeps (OnNode P) step_q3
  unfolding step_q3
  Keeps-q3 = Keeps-bind _ _ _ (Keeps-this _) λ n. Keeps-bind _ _ _ (Keeps-reach P _ _) λ _.
      Keeps-bind _ _ _ (Keeps-await_pdu_udp P c.sockets.udp_queue) λ m.
        Keeps-bind _ _ _ (Keeps-or_fail _ _) λ pdu.
          Keeps-if _ _ _ _ (Keeps-become _)
            (Keeps-bind _ _ _ (Keeps-modify _ _ (λ w h. c.message w.node _ h)) λ _. Keeps-become _)

  pub Keeps-q7 : Keeps (OnNode P) step_q7
  unfolding step_q7
  Keeps-q7 = Keeps-bind _ _ _ (Keeps-take_last_pdu P c.message) λ last.
      Keeps-bind _ _ _ (Keeps-or_fail _ _) λ node.
        Keeps-bind _ _ _ (Keeps-get_listen_addr P) λ local. Keeps-bind _ _ _ (Keeps-this _) λ n.
          Keeps-bind _ _ _ (Keeps-or_fail _ _) λ own.
            Keeps-bind _ _ _ (Keeps-reach P _ _)
              λ _. Keeps-bind _ _ _ (Keeps-accept_predecessor P c.predecessor) λ _. Keeps-become _

  pub Keeps-leave_ring_on : (s : Stream) → Keeps (OnNode P) (leave_ring (some s))
  unfolding leave_ring
  Keeps-leave_ring_on s = Keeps-become _

  pub Keeps-q11 : Keeps (OnNode P) step_q11
  unfolding step_q11
  Keeps-q11 = Keeps-bind _ _ _ (Keeps-this _) λ n. Keeps-bind _ _ _ (Keeps-or_fail _ _) λ next.
      Keeps-bind _ _ _ (Keeps-or_fail _ _) λ previous. Keeps-bind _ _ _ (Keeps-reach P _ _) λ _.
        Keeps-bind _ _ _ (Keeps-await_pdu P c.sockets.successor_queue c.sockets.predecessor_queue _)
          λ m. Keeps-bind _ _ _ (Keeps-or_fail _ _) λ r. (Keeps-become _)

  Keeps-place_join : (o : Option Stream) → Keeps (OnNode P) (place_join o)
  unfolding place_join
  Keeps-place_join none = Keeps-become _
  Keeps-place_join (some s) = Keeps-bind _ _ _ (Keeps-take_last_pdu P c.message) λ last.
      Keeps-bind _ _ _ (Keeps-or_fail _ _) λ pdu. Keeps-bind _ _ _ (Keeps-get_listen_addr P) λ own.
        Keeps-bind _ _ _ (Keeps-modify _ _ (λ w h. c.message w.node _ h))
          λ _. Keeps-if _ _ _ _ (Keeps-become _) (Keeps-become _)

  pub Keeps-q12 : Keeps (OnNode P) step_q12
  unfolding step_q12
  Keeps-q12 = Keeps-bind _ _ _ (Keeps-this _) λ n. Keeps-place_join n.successor

  pub Keeps-q14 : Keeps (OnNode P) step_q14
  unfolding step_q14
  Keeps-q14 = Keeps-bind _ _ _ (Keeps-take_last_pdu P c.message) λ last.
      Keeps-bind _ _ _ (Keeps-or_fail _ _) λ pdu.
        Keeps-bind _ _ _ (Keeps-update_max P pdu) λ updated. Keeps-bind _ _ _ (Keeps-this _) λ n.
          Keeps-bind _ _ _ (Keeps-or_fail _ _)
            λ socket. Keeps-bind _ _ _ (Keeps-reach P _ _) λ _. Keeps-become _

  pub Keeps-q16 : Keeps (OnNode P) step_q16
  unfolding step_q16
  Keeps-q16 = Keeps-bind _ _ _ (Keeps-take_last_pdu P c.message) λ last.
      Keeps-bind _ _ _ (Keeps-or_fail _ _) λ pdu.
        Keeps-bind _ _ _ (Keeps-is_own_address P pdu) λ alone.
          Keeps-bind _ _ _
            (Keeps-if _ _ _ _
              (Keeps-modify _ _ (λ w h.
                c.predecessor (record (w.node) { successor = none }) _
                  (c.sockets.successor_gone w.node _ h)))
              (Keeps-bind _ _ _ (Keeps-modify _ _ (λ w h. c.sockets.successor_gone w.node _ h)) λ _.
                Keeps-bind _ _ _ (Keeps-connect_to_successor P c.listen _)
                  λ stream. Keeps-modify _ _ (λ w h. c.sockets.successor_gone w.node _ h)))
            λ _. Keeps-become _

  pub Keeps-q17 : Keeps (OnNode P) step_q17
  unfolding step_q17
  Keeps-q17 = Keeps-bind _ _ _ (Keeps-this _) λ n.
      Keeps-bind _ _ _ (Keeps-disconnect P c.predecessor n.predecessor) λ _.
        Keeps-bind _ _ _
          (Keeps-if _ _ _ _ (Keeps-pure _ _) (Keeps-accept_predecessor P c.predecessor))
          λ _. Keeps-become _

  module _ (value : (p : Pdu) → Keeps (OnNode P) (value_operation p)) where
    pub Keeps-q9 : Keeps (OnNode P) step_q9
    unfolding step_q9
    Keeps-q9 =
        Keeps-bind _ _ _ (Keeps-take_last_pdu P c.message)
          λ last. Keeps-bind _ _ _ (value last) λ _. Keeps-become _

    Keeps-later :
        (p : Pdu) (m : Exec (Unit {0}))
        → Keeps (OnNode P) m
        → Keeps (OnNode P) (modify (λ n. record n { last_pdu = some p }) >> m)
    Keeps-later p m k = Keeps-bind _ _ _ (Keeps-modify _ _ (λ w h. c.message w.node _ h)) λ _. k

    Keeps-handle_pdu : (p : Pdu) (s : Source) → Keeps (OnNode P) (handle_pdu p s)
    unfolding handle_pdu from_predecessor
    Keeps-handle_pdu (net_join p) s = Keeps-later _ _ (Keeps-become _)
    Keeps-handle_pdu (net_close_connection p) (predecessor a) = Keeps-become _
    Keeps-handle_pdu (net_close_connection p) (successor a) = Keeps-fail _
    Keeps-handle_pdu (net_close_connection p) (udp a) = Keeps-fail _
    Keeps-handle_pdu (net_new_range p) s = Keeps-later _ _ (Keeps-become _)
    Keeps-handle_pdu (net_leaving p) s = Keeps-later _ _ (Keeps-become _)
    Keeps-handle_pdu (val_insert p) s = Keeps-later _ _ Keeps-q9
    Keeps-handle_pdu (val_remove p) s = Keeps-later _ _ Keeps-q9
    Keeps-handle_pdu (val_lookup p) s = Keeps-later _ _ Keeps-q9
    Keeps-handle_pdu _ s = Keeps-pure _ _

    pub Keeps-q6 : Keeps (OnNode P) step_q6
    Keeps-q6 = Keeps-step_q6 P c.sockets Keeps-handle_pdu (λ n _ h. c.state n q10 h)
