-- ===== src/Node/Asked.antt =====
-- A node that is not asked to close goes on.
use distributed_hash_table.Prelude.{Bool, true, false, ◌≡◌, refl, ◌⊎◌, inl, inr, some, ok}
use distributed_hash_table.Pdu.Message.{
  Pdu, net_join, net_close_connection, net_new_range, net_leaving, val_insert, val_remove,
  val_lookup,
}
use distributed_hash_table.Node.Types.{
  Node, World, State, Source, udp, predecessor, successor, q6, q9, q10, q11, q18, q1, q2, q3, q4,
  q5, q7, q8, q12, q13, q14, q15, q16, q17,
}
use distributed_hash_table.Node.Exec.{Exec, modify, ◌>>◌}
use distributed_hash_table.Node.States.{value_operation, step_q9}
use distributed_hash_table.Node.HandlePdu.{from_predecessor, handle_pdu}
use distributed_hash_table.Node.Run.{step_q6, step_in, step}
use distributed_hash_table.Node.Diagram.{
  ◌⟶◌, stun, address, first, join, own_ring, pair, serve, leave, asked, range, left, cut, linked,
  joined, value, last, hand_over, handed, alone, widest, narrow, split, forwarded, merged, relinked,
  waited, gone, step-⟶,
}
use distributed_hash_table.Node.Hoare.{
  After, After-ok, Keeps, OnNode, Keeps-bind, Keeps-modify, Keeps-pure, Keeps-fail,
}
use distributed_hash_table.Node.Frame.{
  Keeps-take_last_pdu, Keeps-handle_val_insert, Keeps-handle_val_remove, Keeps-handle_val_lookup,
}
use distributed_hash_table.Node.Serve.{Keeps-step_q6}
use distributed_hash_table.Node.Steps
use distributed_hash_table.Node.Steps.{
  Writes, Writes-kept, Keeps-q1, Keeps-q2, Keeps-q3, Keeps-q7, Keeps-q9, Keeps-q11, Keeps-q12,
  Keeps-q14, Keeps-q16, Keeps-q17,
}
use distributed_hash_table.Node.Moves.{
  Keeps-value, Keeps-q4, Keeps-q5, Keeps-q8, Keeps-q13, Keeps-q15,
}
use mathlib.Core.Path.{subst}

-- The states in which a node leaves.
abbrev pub is_leaving : State → Bool
is_leaving q10 = true
is_leaving q11 = true
is_leaving q18 = true
is_leaving _ = false

abbrev pub IsUnasked : Node → Type 0
IsUnasked n = n.should_close ≡ false

IsUnasked-writes : Writes IsUnasked
IsUnasked-writes = Writes-kept (λ _ _ _ should_close. should_close ≡ false)

-- Not asked, and not leaving.
abbrev pub StaysOn : Node → Type 0
StaysOn n = IsUnasked n × (is_leaving n.state ≡ false)

Keeps-value_operation : (p : Pdu) → Keeps (OnNode StaysOn) (value_operation p)
unfolding value_operation
Keeps-value_operation (val_insert p) = Keeps-handle_val_insert StaysOn (λ n vs h. h) p
Keeps-value_operation (val_remove p) = Keeps-handle_val_remove StaysOn (λ n vs h. h) p
Keeps-value_operation (val_lookup p) = Keeps-handle_val_lookup StaysOn p
Keeps-value_operation _ = Keeps-fail _

Keeps-value_q9 : Keeps (OnNode StaysOn) step_q9
unfolding step_q9
Keeps-value_q9 =
    Keeps-bind _ _ _ (Keeps-take_last_pdu StaysOn (λ n o h. h)) λ last.
      Keeps-bind _ _ _ (Keeps-value_operation last) λ _. Keeps-modify _ _ (λ w h. (h.0, refl))

Keeps-later :
    (p : Pdu) (m : Exec (Unit {0}))
    → Keeps (OnNode StaysOn) m
    → Keeps (OnNode StaysOn) (modify (λ n. record n { last_pdu = some p }) >> m)
Keeps-later p m k = Keeps-bind _ _ _ (Keeps-modify _ _ (λ w h. h)) λ _. k

Keeps-handle_pdu : (p : Pdu) (s : Source) → Keeps (OnNode StaysOn) (handle_pdu p s)
unfolding handle_pdu from_predecessor
Keeps-handle_pdu (net_join p) s = Keeps-later _ _ (Keeps-modify _ _ (λ w h. (h.0, refl)))
Keeps-handle_pdu (net_close_connection p) (predecessor a) = Keeps-modify _ _ (λ w h. (h.0, refl))
Keeps-handle_pdu (net_close_connection p) (successor a) = Keeps-fail _
Keeps-handle_pdu (net_close_connection p) (udp a) = Keeps-fail _
Keeps-handle_pdu (net_new_range p) s = Keeps-later _ _ (Keeps-modify _ _ (λ w h. (h.0, refl)))
Keeps-handle_pdu (net_leaving p) s = Keeps-later _ _ (Keeps-modify _ _ (λ w h. (h.0, refl)))
Keeps-handle_pdu (val_insert p) s = Keeps-later _ _ Keeps-value_q9
Keeps-handle_pdu (val_remove p) s = Keeps-later _ _ Keeps-value_q9
Keeps-handle_pdu (val_lookup p) s = Keeps-later _ _ Keeps-value_q9
Keeps-handle_pdu _ s = Keeps-pure _ _

Keeps-q6 : Keeps (OnNode StaysOn) step_q6
Keeps-q6 =
    Keeps-step_q6 StaysOn
      (record {
        alive = λ n t h. h;
        udp_queue = λ n u h. h;
        successor_queue = λ n t h. h;
        predecessor_queue = λ n t h. h;
        successor_gone = λ n s h. h;
      })
      Keeps-handle_pdu (λ n e h. absurd cc)

-- No state but `q6` leads to a state of leaving.
goes_on : {s t : State} → s ⟶ t → is_leaving s ≡ false → (s ≡ q6) ⊎ (is_leaving t ≡ false)
goes_on stun h = inr refl
goes_on address h = inr refl
goes_on first h = inr refl
goes_on join h = inr refl
goes_on own_ring h = inr refl
goes_on pair h = inr refl
goes_on serve h = inl refl
goes_on leave h = inl refl
goes_on asked h = inl refl
goes_on range h = inl refl
goes_on left h = inl refl
goes_on cut h = inl refl
goes_on linked h = inr refl
goes_on joined h = inr refl
goes_on value h = inr refl
goes_on last h = absurd cc
goes_on hand_over h = absurd cc
goes_on handed h = absurd cc
goes_on alone h = inr refl
goes_on widest h = inr refl
goes_on narrow h = inr refl
goes_on split h = inr refl
goes_on forwarded h = inr refl
goes_on merged h = inr refl
goes_on relinked h = inr refl
goes_on waited h = inr refl
goes_on gone h = absurd cc

step_in-IsUnasked :
    (s : State) (w : World)
    → is_leaving s ≡ false
    → IsUnasked w.node
    → After (OnNode IsUnasked) (step_in s w)
step_in-IsUnasked q1 w l h = (Keeps-q1 IsUnasked IsUnasked-writes).at w h
step_in-IsUnasked q2 w l h = (Keeps-q2 IsUnasked IsUnasked-writes).at w h
step_in-IsUnasked q3 w l h = (Keeps-q3 IsUnasked IsUnasked-writes).at w h
step_in-IsUnasked q4 w l h = (Keeps-q4 IsUnasked IsUnasked-writes (λ n vs h. h) (λ n r h. h)).at w h
step_in-IsUnasked q5 w l h = (Keeps-q5 IsUnasked IsUnasked-writes (λ n vs h. h) (λ n r h. h)).at w h
step_in-IsUnasked q6 w l h =
    (Steps.Keeps-q6 IsUnasked IsUnasked-writes
        (Keeps-value IsUnasked IsUnasked-writes (λ n vs h. h) (λ n r h. h))).at
      w h
step_in-IsUnasked q7 w l h = (Keeps-q7 IsUnasked IsUnasked-writes).at w h
step_in-IsUnasked q8 w l h = (Keeps-q8 IsUnasked IsUnasked-writes (λ n vs h. h) (λ n r h. h)).at w h
step_in-IsUnasked q9 w l h =
    (Keeps-q9 IsUnasked IsUnasked-writes
        (Keeps-value IsUnasked IsUnasked-writes (λ n vs h. h) (λ n r h. h))).at
      w h
step_in-IsUnasked q10 w l h = absurd cc
step_in-IsUnasked q11 w l h = absurd cc
step_in-IsUnasked q12 w l h = (Keeps-q12 IsUnasked IsUnasked-writes).at w h
step_in-IsUnasked q13 w l h =
    (Keeps-q13 IsUnasked IsUnasked-writes (λ n vs h. h) (λ n r h. h)).at w h
step_in-IsUnasked q14 w l h = (Keeps-q14 IsUnasked IsUnasked-writes).at w h
step_in-IsUnasked q15 w l h =
    (Keeps-q15 IsUnasked IsUnasked-writes (λ n vs h. h) (λ n r h. h)).at w h
step_in-IsUnasked q16 w l h = (Keeps-q16 IsUnasked IsUnasked-writes).at w h
step_in-IsUnasked q17 w l h = (Keeps-q17 IsUnasked IsUnasked-writes).at w h
step_in-IsUnasked q18 w l h = absurd cc

-- One round of a node that is not asked to close.
pub step-StaysOn :
    (w : World) (r : Unit {0} × World) → StaysOn w.node → step w ≡ ok r → StaysOn r.1.node
unfolding step
step-StaysOn w r h e = elim (goes_on (step-⟶ w r e) h.1) [
  | inl six ↦
      After-ok (OnNode StaysOn) (step_q6 w) r (Keeps-q6.at w h)
        (subst (λ s. step_in s w ≡ ok r) six e)
  | inr on ↦ (
    After-ok (OnNode IsUnasked) (step_in w.node.state w) r
        (step_in-IsUnasked w.node.state w h.1 h.0) e,
    on,
  )
]
