-- ===== src/Node/Diagram.antt =====
-- The diagram of the states of a node.
use distributed_hash_table.Prelude.{Option, none, some, ok, ◌≡◌, refl, sym}
use distributed_hash_table.Pdu.Message.{
  Pdu, net_join, net_close_connection, net_new_range, net_leaving, val_insert, val_remove,
  val_lookup,
}
use distributed_hash_table.Node.Types.{
  World, State, Source, udp, predecessor, successor, Stream, q1, q2, q3, q4, q5, q6, q7, q8, q9,
  q10, q11, q12, q13, q14, q15, q16, q17, q18,
}
use distributed_hash_table.Node.States.{
  step_q1, step_q2, step_q3, step_q4, step_q5, step_q7, step_q8, step_q9, leave_ring, step_q10,
  step_q11, place_join, step_q12, step_q13, step_q14, step_q15, step_q16, step_q17, step_q18,
}
use distributed_hash_table.Node.HandlePdu.{from_predecessor, handle_pdu}
use distributed_hash_table.Node.Run.{step_q6, step_in, step}
use distributed_hash_table.Node.Hoare.{
  After, After-ok, After-mono, Ends, Keeps, OnNode, Ends-bind, Ends-if, Ends-modify, Keeps-bind,
  Keeps-pure, Keeps-this, Keeps-fail, Keeps-or_fail, Keeps-modify, Keeps-reach, Ends-Keeps,
}
use distributed_hash_table.Node.Frame.{Keeps-transfer}
use distributed_hash_table.Node.Serve.{Keeps-step_q6}
use mathlib.Core.Path.{subst}

-- Where one round of the loop can lead. `q10` and `q18` lead to themselves as the node stops there.
infix 40 ◌⟶◌
pub data ◌⟶◌ : State → State → Type 0 where
  stun : q1 ⟶ q2
  address : q2 ⟶ q3
  first : q3 ⟶ q4
  join : q3 ⟶ q7
  own_ring : q4 ⟶ q6
  pair : q5 ⟶ q6
  serve : q6 ⟶ q6
  leave : q6 ⟶ q10
  asked : q6 ⟶ q12
  range : q6 ⟶ q15
  left : q6 ⟶ q16
  cut : q6 ⟶ q17
  linked : q7 ⟶ q8
  joined : q8 ⟶ q6
  value : q9 ⟶ q6
  last : q10 ⟶ q10
  hand_over : q10 ⟶ q11
  handed : q11 ⟶ q18
  alone : q12 ⟶ q5
  widest : q12 ⟶ q13
  narrow : q12 ⟶ q14
  split : q13 ⟶ q6
  forwarded : q14 ⟶ q6
  merged : q15 ⟶ q6
  relinked : q16 ⟶ q6
  waited : q17 ⟶ q6
  gone : q18 ⟶ q18

abbrev From : State → World → Type 0
From s = OnNode (λ n. s ⟶ n.state)

Ends-q1 : Ends (From q1) step_q1
unfolding step_q1
Ends-q1 = Ends-bind _ _ _ λ n. Ends-bind _ _ _ λ _. Ends-modify _ _ (λ w. stun)

Ends-q2 : Ends (From q2) step_q2
unfolding step_q2
Ends-q2 =
    Ends-bind _ _ _ λ m. Ends-bind _ _ _ λ pdu. Ends-bind _ _ _ λ _. Ends-modify _ _ (λ w. address)

Ends-q3 : Ends (From q3) step_q3
unfolding step_q3
Ends-q3 = Ends-bind _ _ _ λ n. Ends-bind _ _ _ λ _. Ends-bind _ _ _ λ m. Ends-bind _ _ _ λ pdu.
    Ends-if _ _ _ _ (Ends-modify _ _ (λ w. first))
      (Ends-bind _ _ _ λ _. Ends-modify _ _ (λ w. join))

Ends-q4 : Ends (From q4) step_q4
unfolding step_q4
Ends-q4 = Ends-bind _ _ _ λ _. Ends-modify _ _ (λ w. own_ring)

Ends-q5 : Ends (From q5) step_q5
unfolding step_q5
Ends-q5 = Ends-bind _ _ _ λ last. Ends-bind _ _ _ λ node. Ends-bind _ _ _ λ socket.
    Ends-bind _ _ _ λ other. Ends-bind _ _ _ λ local. Ends-bind _ _ _ λ n. Ends-bind _ _ _ λ own.
      Ends-bind _ _ _ λ _.
        Ends-bind _ _ _ λ _. Ends-bind _ _ _ λ _. Ends-bind _ _ _ λ _. Ends-modify _ _ (λ w. pair)

Ends-q7 : Ends (From q7) step_q7
unfolding step_q7
Ends-q7 = Ends-bind _ _ _ λ last. Ends-bind _ _ _ λ node. Ends-bind _ _ _ λ local.
    Ends-bind _ _ _ λ n.
      Ends-bind _ _ _ λ own. Ends-bind _ _ _ λ _. Ends-bind _ _ _ λ _. Ends-modify _ _ (λ w. linked)

Ends-q8 : Ends (From q8) step_q8
unfolding step_q8
Ends-q8 = Ends-bind _ _ _ λ m. Ends-bind _ _ _ λ pdu.
    Ends-bind _ _ _
      λ _. Ends-bind _ _ _ λ socket. Ends-bind _ _ _ λ _. Ends-modify _ _ (λ w. joined)

Ends-in_q6 : Ends (OnNode (λ n. n.state ≡ q6)) step_q9
unfolding step_q9
Ends-in_q6 = Ends-bind _ _ _ λ last. Ends-bind _ _ _ λ _. Ends-modify _ _ (λ w. refl)

Ends-q9 : Ends (From q9) step_q9
unfolding step_q9
Ends-q9 = Ends-bind _ _ _ λ last. Ends-bind _ _ _ λ _. Ends-modify _ _ (λ w. value)

Keeps-leave_ring : (o : Option Stream) → Keeps (From q10) (leave_ring o)
unfolding leave_ring
Keeps-leave_ring none = Keeps-modify _ _ (λ w h. h)
Keeps-leave_ring (some s) = Keeps-modify _ _ (λ w h. hand_over)

Keeps-q10 : Keeps (From q10) step_q10
unfolding step_q10
Keeps-q10 = Keeps-bind _ _ _ (Keeps-this _) λ n. Keeps-leave_ring n.successor

Ends-q11 : Ends (From q11) step_q11
unfolding step_q11
Ends-q11 = Ends-bind _ _ _ λ n. Ends-bind _ _ _ λ next. Ends-bind _ _ _ λ previous.
    Ends-bind _ _ _ λ _. Ends-bind _ _ _ λ m. Ends-bind _ _ _ λ r. Ends-modify _ _ (λ w. handed)

Ends-place_join : (o : Option Stream) → Ends (From q12) (place_join o)
unfolding place_join
Ends-place_join none = Ends-modify _ _ (λ w. alone)
Ends-place_join (some s) = Ends-bind _ _ _ λ last. Ends-bind _ _ _ λ pdu. Ends-bind _ _ _ λ own.
    Ends-bind _ _ _
      λ _. Ends-if _ _ _ _ (Ends-modify _ _ (λ w. widest)) (Ends-modify _ _ (λ w. narrow))

Ends-q12 : Ends (From q12) step_q12
unfolding step_q12
Ends-q12 = Ends-bind _ _ _ λ n. Ends-place_join n.successor

Ends-q13 : Ends (From q13) step_q13
unfolding step_q13
Ends-q13 = Ends-bind _ _ _ λ a. Ends-bind _ _ _ λ n. Ends-bind _ _ _ λ old. Ends-bind _ _ _ λ last.
    Ends-bind _ _ _ λ pdu. Ends-bind _ _ _ λ _. Ends-bind _ _ _ λ _. Ends-bind _ _ _ λ _.
      Ends-bind _ _ _ λ stream. Ends-bind _ _ _ λ _.
        Ends-bind _ _ _
          λ other. Ends-bind _ _ _ λ _. Ends-bind _ _ _ λ _. Ends-modify _ _ (λ w. split)

Ends-q14 : Ends (From q14) step_q14
unfolding step_q14
Ends-q14 = Ends-bind _ _ _ λ last. Ends-bind _ _ _ λ pdu. Ends-bind _ _ _ λ updated.
    Ends-bind _ _ _
      λ n. Ends-bind _ _ _ λ socket. Ends-bind _ _ _ λ _. Ends-modify _ _ (λ w. forwarded)

Ends-q15 : Ends (From q15) step_q15
unfolding step_q15
Ends-q15 = Ends-bind _ _ _ λ last.
    Ends-bind _ _ _ λ r. Ends-bind _ _ _ λ n. Ends-bind _ _ _ λ _. Ends-modify _ _ (λ w. merged)

Ends-q16 : Ends (From q16) step_q16
unfolding step_q16
Ends-q16 = Ends-bind _ _ _ λ last.
    Ends-bind _ _ _
      λ pdu. Ends-bind _ _ _ λ me. Ends-bind _ _ _ λ _. Ends-modify _ _ (λ w. relinked)

Ends-q17 : Ends (From q17) step_q17
unfolding step_q17
Ends-q17 =
    Ends-bind _ _ _ λ n. Ends-bind _ _ _ λ _. Ends-bind _ _ _ λ _. Ends-modify _ _ (λ w. waited)

Keeps-q18 : Keeps (From q18) step_q18
unfolding step_q18
Keeps-q18 = Keeps-bind _ _ _ (Keeps-this _) λ n.
    Keeps-bind _ _ _ (Keeps-transfer _ (λ n vs h. h) _ _ _) λ _.
      Keeps-bind _ _ _ (Keeps-or_fail _ _) λ next. Keeps-bind _ _ _ (Keeps-reach _ _ _) λ _.
        Keeps-bind _ _ _ (Keeps-reach _ _ _) λ _. Keeps-bind _ _ _ (Keeps-or_fail _ _) λ listen.
          Keeps-bind _ _ _ (Keeps-or_fail _ _) λ to.
            Keeps-bind _ _ _ (Keeps-or_fail _ _) λ previous.
              Keeps-bind _ _ _ (Keeps-reach _ _ _)
                λ _. Keeps-bind _ _ _ (Keeps-reach _ _ _) λ _. Keeps-modify _ _ (λ w h. h)

-- Whatever messages a node handles in `q6`, its state stays among those that `q6` leads to.
stay : (w : World) → w.node.state ≡ q6 → q6 ⟶ w.node.state
stay w e = subst (λ s. q6 ⟶ s) (sym e) serve

value_in_q6 : Ends (From q6) step_q9
value_in_q6 = record { at = λ w. After-mono _ _ (step_q9 w) (λ v e. stay v e) (Ends-in_q6.at w) }

Keeps-handle_pdu : (p : Pdu) (s : Source) → Keeps (From q6) (handle_pdu p s)
unfolding handle_pdu from_predecessor
Keeps-handle_pdu (net_join p) s =
    Keeps-bind _ _ _ (Keeps-modify _ _ (λ w h. h)) λ _. Keeps-modify _ _ (λ w h. asked)
Keeps-handle_pdu (net_close_connection p) (predecessor a) = Keeps-modify _ _ (λ w h. cut)
Keeps-handle_pdu (net_close_connection p) (successor a) = Keeps-fail _
Keeps-handle_pdu (net_close_connection p) (udp a) = Keeps-fail _
Keeps-handle_pdu (net_new_range p) s =
    Keeps-bind _ _ _ (Keeps-modify _ _ (λ w h. h)) λ _. Keeps-modify _ _ (λ w h. range)
Keeps-handle_pdu (net_leaving p) s =
    Keeps-bind _ _ _ (Keeps-modify _ _ (λ w h. h)) λ _. Keeps-modify _ _ (λ w h. left)
Keeps-handle_pdu (val_insert p) s =
    Keeps-bind _ _ _ (Keeps-modify _ _ (λ w h. h)) λ _. Ends-Keeps _ _ value_in_q6
Keeps-handle_pdu (val_remove p) s =
    Keeps-bind _ _ _ (Keeps-modify _ _ (λ w h. h)) λ _. Ends-Keeps _ _ value_in_q6
Keeps-handle_pdu (val_lookup p) s =
    Keeps-bind _ _ _ (Keeps-modify _ _ (λ w h. h)) λ _. Ends-Keeps _ _ value_in_q6
Keeps-handle_pdu _ s = Keeps-pure _ _

Keeps-q6 : Keeps (From q6) step_q6
Keeps-q6 =
    Keeps-step_q6 _
      (record {
        alive = λ n t h. h;
        udp_queue = λ n u h. h;
        successor_queue = λ n t h. h;
        predecessor_queue = λ n t h. h;
        successor_gone = λ n s h. h;
      })
      Keeps-handle_pdu (λ n _ h. leave)

pub step_in-⟶ : (s : State) (w : World) → w.node.state ≡ s → After (From s) (step_in s w)
step_in-⟶ q1 w e = Ends-q1.at w
step_in-⟶ q2 w e = Ends-q2.at w
step_in-⟶ q3 w e = Ends-q3.at w
step_in-⟶ q4 w e = Ends-q4.at w
step_in-⟶ q5 w e = Ends-q5.at w
step_in-⟶ q6 w e = Keeps-q6.at w (subst (λ s. q6 ⟶ s) (sym e) serve)
step_in-⟶ q7 w e = Ends-q7.at w
step_in-⟶ q8 w e = Ends-q8.at w
step_in-⟶ q9 w e = Ends-q9.at w
step_in-⟶ q10 w e = Keeps-q10.at w (subst (λ s. q10 ⟶ s) (sym e) last)
step_in-⟶ q11 w e = Ends-q11.at w
step_in-⟶ q12 w e = Ends-q12.at w
step_in-⟶ q13 w e = Ends-q13.at w
step_in-⟶ q14 w e = Ends-q14.at w
step_in-⟶ q15 w e = Ends-q15.at w
step_in-⟶ q16 w e = Ends-q16.at w
step_in-⟶ q17 w e = Ends-q17.at w
step_in-⟶ q18 w e = Keeps-q18.at w (subst (λ s. q18 ⟶ s) (sym e) gone)

-- A round of the loop that returns takes the state along an arrow of the diagram: Q1 to Q2, Q2 to
-- Q3, Q3 to Q4 or Q7, Q7 to Q8, Q10 to itself or Q11, Q11 to Q18, Q12 to Q5, Q13 or Q14, Q18 to
-- itself, Q6 to itself, Q10, Q12, Q15, Q16 or Q17, and each other state to Q6.
pub step-⟶ : (w : World) (r : Unit {0} × World) → step w ≡ ok r → w.node.state ⟶ r.1.node.state
unfolding step
step-⟶ w r h =
    After-ok (From w.node.state) (step_in w.node.state w) r (step_in-⟶ w.node.state w refl) h
