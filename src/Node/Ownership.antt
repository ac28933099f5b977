-- ===== src/Node/Ownership.antt =====
-- A node stores what hashes into its range.
pub mod Sets
mod Splits
pub mod Merges
use distributed_hash_table.Prelude.{◌<◌, ◌≡◌, true, All, Option, some, none, Outcome, ok}
use distributed_hash_table.Node.Entry.{hash}
use distributed_hash_table.Node.Util.{covers}
use distributed_hash_table.Node.Types.{
  Node, World, State, Stream, q1, q2, q3, q4, q5, q6, q7, q8, q9, q10, q11, q12, q13, q14, q15, q16,
  q17, q18,
}
use distributed_hash_table.Node.Run.{step_in, step}
use distributed_hash_table.Node.Hoare.{
  After, After-ok, OnNode, Keeps, Keeps-bind, Keeps-this, Keeps-modify,
}
use distributed_hash_table.Node.States.{leave_ring, step_q10}
use distributed_hash_table.Node.Steps.{
  Writes, Writes-kept, Keeps-become, Keeps-q1, Keeps-q2, Keeps-q3, Keeps-q6, Keeps-q7, Keeps-q9,
  Keeps-q11, Keeps-q12, Keeps-q14, Keeps-q16, Keeps-q17,
}
use distributed_hash_table.Node.Triple.{Triple-After}
use distributed_hash_table.Node.Ownership.Sets.{IsOwned, Keeps-value_operation}
use distributed_hash_table.Node.Ownership.Splits.{
  IsOwnedU8, IsEmpty, Keeps-step_q4, step_q5-IsOwned, step_q8-IsOwned, step_q13-IsOwned,
  Keeps-step_q18,
}
use distributed_hash_table.Node.Ownership.Merges.{OffersAdjacent, step_q15-IsOwned}

IsOwned-writes : Writes IsOwned
IsOwned-writes = Writes-kept (λ vs r _ _. All (λ e. covers r (hash e) ≡ true) vs)

Keeps-leave_ring : (o : Option Stream) → Keeps (OnNode IsOwned) (leave_ring o)
unfolding leave_ring
Keeps-leave_ring none = Keeps-modify _ _ (λ w h. h)
Keeps-leave_ring (some s) = Keeps-become IsOwned IsOwned-writes _

Keeps-q10 : Keeps (OnNode IsOwned) step_q10
unfolding step_q10
Keeps-q10 = Keeps-bind _ _ _ (Keeps-this _) λ n. Keeps-leave_ring n.successor

-- What a state needs of the node, besides that its entries are in its range: a split needs the end of
-- the range in a `u8`, a node that joins has no entries yet, and a range that is taken over lies
-- beside that of the node.
abbrev pub Ready : State → Node → Type 0
Ready q5 n = IsOwnedU8 n
Ready q8 n = IsEmpty n
Ready q13 n = IsOwnedU8 n
Ready q15 n = OffersAdjacent n
Ready _ n = IsOwned n

step_in-IsOwned : (s : State) (w : World) → Ready s w.node → After (OnNode IsOwned) (step_in s w)
step_in-IsOwned q1 w h = (Keeps-q1 IsOwned IsOwned-writes).at w h
step_in-IsOwned q2 w h = (Keeps-q2 IsOwned IsOwned-writes).at w h
step_in-IsOwned q3 w h = (Keeps-q3 IsOwned IsOwned-writes).at w h
step_in-IsOwned q4 w h = Keeps-step_q4.at w h
step_in-IsOwned q5 w h = Triple-After _ _ w step_q5-IsOwned h
step_in-IsOwned q6 w h = (Keeps-q6 IsOwned IsOwned-writes Keeps-value_operation).at w h
step_in-IsOwned q7 w h = (Keeps-q7 IsOwned IsOwned-writes).at w h
step_in-IsOwned q8 w h = Triple-After _ _ w step_q8-IsOwned h
step_in-IsOwned q9 w h = (Keeps-q9 IsOwned IsOwned-writes Keeps-value_operation).at w h
step_in-IsOwned q10 w h = Keeps-q10.at w h
step_in-IsOwned q11 w h = (Keeps-q11 IsOwned IsOwned-writes).at w h
step_in-IsOwned q12 w h = (Keeps-q12 IsOwned IsOwned-writes).at w h
step_in-IsOwned q13 w h = Triple-After _ _ w step_q13-IsOwned h
step_in-IsOwned q14 w h = (Keeps-q14 IsOwned IsOwned-writes).at w h
step_in-IsOwned q15 w h = Triple-After _ _ w step_q15-IsOwned h
step_in-IsOwned q16 w h = (Keeps-q16 IsOwned IsOwned-writes).at w h
step_in-IsOwned q17 w h = (Keeps-q17 IsOwned IsOwned-writes).at w h
step_in-IsOwned q18 w h = Keeps-step_q18.at w h

-- A round of the loop, in any of the states, that returns leaves every entry of the node with its
-- hash in the range of the node, if that held before; in Q5 and Q13 the end of the range must be a
-- u8, in Q8 the node must have no entries, and in Q15 a range that is offered must begin with a u8
-- directly above that of the node and end no earlier than it, or be not empty and lie directly
-- below it.
pub step-IsOwned :
    (w : World) (r : Unit {0} × World)
    → Ready w.node.state w.node
    → step w ≡ ok r
    → IsOwned r.1.node
unfolding step
step-IsOwned w r h e =
    After-ok (OnNode IsOwned) (step_in w.node.state w) r (step_in-IsOwned w.node.state w h) e
