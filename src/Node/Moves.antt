-- ===== src/Node/Moves.antt =====
-- The value operations and the states of a node that write its range or its entries: each keeps a
-- predicate that reads no field that is written.
use distributed_hash_table.Prelude.{ℕ, List, Option, none}
use distributed_hash_table.Pdu.SocketAddr.{SocketAddr}
use distributed_hash_table.Pdu.Message.{Pdu, val_insert, val_remove, val_lookup}
use distributed_hash_table.Node.Entry.{Entry}
use distributed_hash_table.Node.Types.{Node, World, Stream}
use distributed_hash_table.Node.Exec.{◌>>=◌, modify, or_fail, tcp_send}
use distributed_hash_table.Node.Util.{split_range}
use distributed_hash_table.Node.States.{
  step_q4, step_q5, step_q8, value_operation, step_q13, step_q15,
}
use distributed_hash_table.Node.Hoare.{
  Keeps, OnNode, Keeps-bind, Keeps-if, Keeps-this, Keeps-modify, Keeps-pure, Keeps-fail,
  Keeps-or_fail, Keeps-reach,
}
use distributed_hash_table.Node.Frame.{
  Keeps-take_last_pdu, Keeps-await_pdu, Keeps-accept_predecessor, Keeps-get_listen_addr,
  Keeps-get_successor_addr, Keeps-connect_to_successor, Keeps-transfer, Keeps-handle_val_insert,
  Keeps-handle_val_remove, Keeps-handle_val_lookup,
}
use distributed_hash_table.Node.Steps.{Writes, Keeps-become}

module _ (P : Node → Type 0) (c : Writes P)
    (values : (n : Node) (vs : List Entry) → P n → P (record n { values = vs }))
    (range : (n : Node) (r : ℕ × ℕ) → P n → P (record n { hash_range = r })) where
  connected :
      (n : Node) (a : Option SocketAddr) (s : Option Stream)
      → P n
      → P (record n { successor_listen = a; successor = s })
  connected n a s h =
      c.sockets.successor_gone (record n { successor_listen = a }) s (c.listen n a h)

  pub Keeps-value : (p : Pdu) → Keeps (OnNode P) (value_operation p)
  unfolding value_operation
  Keeps-value (val_insert p) = Keeps-handle_val_insert P values p
  Keeps-value (val_remove p) = Keeps-handle_val_remove P values p
  Keeps-value (val_lookup p) = Keeps-handle_val_lookup P p
  Keeps-value _ = Keeps-fail _

  Keeps-split_range : Keeps (OnNode P) split_range
  unfolding split_range
  Keeps-split_range =
      Keeps-bind _ _ _ (Keeps-this _)
        λ n. Keeps-bind _ _ _ (Keeps-modify _ _ (λ w h. range w.node _ h)) λ _. Keeps-pure _ _

  pub Keeps-q4 : Keeps (OnNode P) step_q4
  unfolding step_q4
  Keeps-q4 = Keeps-bind _ _ _ (Keeps-modify _ _ (λ w h. range w.node _ h)) λ _. Keeps-become P c _

  pub Keeps-q5 : Keeps (OnNode P) step_q5
  unfolding step_q5
  Keeps-q5 = Keeps-bind _ _ _ (Keeps-take_last_pdu P c.message) λ last.
      Keeps-bind _ _ _ (Keeps-or_fail _ _) λ next.
        Keeps-bind _ _ _ (Keeps-connect_to_successor P c.listen _) λ socket.
          Keeps-bind _ _ _ Keeps-split_range λ other.
            Keeps-bind _ _ _ (Keeps-get_listen_addr P) λ local. Keeps-bind _ _ _ (Keeps-this _) λ n.
              Keeps-bind _ _ _ (Keeps-or_fail _ _) λ own. Keeps-bind _ _ _ (Keeps-reach P _ _) λ _.
                Keeps-bind _ _ _ (Keeps-modify _ _ (λ w h. c.sockets.successor_gone w.node _ h))
                  λ _. Keeps-bind _ _ _ (Keeps-transfer P values _ _ _) λ _.
                    Keeps-bind _ _ _ (Keeps-accept_predecessor P c.predecessor)
                      λ _. Keeps-become P c _

  pub Keeps-q8 : Keeps (OnNode P) step_q8
  unfolding step_q8
  Keeps-q8 =
      Keeps-bind _ _ _ (Keeps-await_pdu P c.sockets.successor_queue c.sockets.predecessor_queue _)
        λ m. Keeps-bind _ _ _ (Keeps-or_fail _ _) λ pdu.
          Keeps-bind _ _ _ (Keeps-modify _ _ (λ w h. range w.node _ h)) λ _.
            Keeps-bind _ _ _ (Keeps-connect_to_successor P c.listen _) λ socket.
              Keeps-bind _ _ _ (Keeps-modify _ _ (λ w h. connected w.node _ _ h))
                λ _. Keeps-become P c _

  pub Keeps-q13 : Keeps (OnNode P) step_q13
  unfolding step_q13
  Keeps-q13 = Keeps-bind _ _ _ (Keeps-get_successor_addr P) λ a.
      Keeps-bind _ _ _ (Keeps-this _) λ n. Keeps-bind _ _ _ (Keeps-or_fail _ _) λ old.
        Keeps-bind _ _ _ (Keeps-take_last_pdu P c.message) λ last.
          Keeps-bind _ _ _ (Keeps-or_fail _ _) λ pdu. Keeps-bind _ _ _ (Keeps-reach P _ _) λ _.
            Keeps-bind _ _ _ (Keeps-reach P _ _) λ _.
              Keeps-bind _ _ _ (Keeps-modify _ _ (λ w h. c.sockets.successor_gone w.node _ h)) λ _.
                Keeps-bind _ _ _ (Keeps-connect_to_successor P c.listen _) λ stream.
                  Keeps-bind _ _ _
                    (Keeps-modify _ _ (λ w h. c.message _ none (connected w.node _ _ h)))
                    λ _. Keeps-bind _ _ _ Keeps-split_range λ other.
                      Keeps-bind _ _ _ (Keeps-reach P _ _) λ _.
                        Keeps-bind _ _ _ (Keeps-transfer P values _ _ _) λ _. Keeps-become P c _

  Keeps-answer :
      (f : Node → Node) (o : Option Stream) (p : Pdu)
      → ((w : World) → P w.node → P (f w.node))
      → Keeps (OnNode P) (modify f >>= λ _. or_fail o >>= λ s. tcp_send s p)
  Keeps-answer f o p c =
      Keeps-bind _ _ _ (Keeps-modify _ _ c)
        λ _. Keeps-bind _ _ _ (Keeps-or_fail _ _) λ s. Keeps-reach P _ _

  pub Keeps-q15 : Keeps (OnNode P) step_q15
  unfolding step_q15
  Keeps-q15 = Keeps-bind _ _ _ (Keeps-take_last_pdu P c.message) λ last.
      Keeps-bind _ _ _ (Keeps-or_fail _ _) λ r. Keeps-bind _ _ _ (Keeps-this _) λ n.
        Keeps-bind _ _ _
          (Keeps-if _ _ _ _ (Keeps-answer _ _ _ (λ w h. range w.node _ h))
            (Keeps-answer _ _ _ (λ w h. range w.node _ h)))
          λ _. Keeps-become P c _
