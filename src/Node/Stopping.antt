-- ===== src/Node/Stopping.antt =====
-- The rounds that stop a node: `q10` without a successor, and `q18`.
use distributed_hash_table.Prelude.{Option, none, some, true, false, ◌≡◌, refl, ◌⊎◌, inl, inr, ok}
use distributed_hash_table.Node.Types.{
  Node, World, State, Stream, q1, q2, q3, q4, q5, q6, q7, q8, q9, q10, q11, q12, q13, q14, q15, q16,
  q17, q18,
}
use distributed_hash_table.Node.Exec.{Exec, this, ◌>>=◌, modify}
use distributed_hash_table.Node.States.{leave_ring, step_q10}
use distributed_hash_table.Node.Run.{step_in, step}
use distributed_hash_table.Node.Diagram.{◌⟶◌, gone, step_in-⟶}
use distributed_hash_table.Node.Hoare.{After, After-ok, After-mono, Keeps, OnNode}
use distributed_hash_table.Node.Moves.{
  Keeps-value, Keeps-q4, Keeps-q5, Keeps-q8, Keeps-q13, Keeps-q15,
}
use distributed_hash_table.Node.Steps.{
  Writes, Writes-kept, Keeps-leave_ring_on, Keeps-q1, Keeps-q2, Keeps-q3, Keeps-q6, Keeps-q7,
  Keeps-q9, Keeps-q11, Keeps-q12, Keeps-q14, Keeps-q16, Keeps-q17,
}

abbrev pub IsRunning : Node → Type 0
IsRunning n = n.running ≡ true

IsRunning-writes : Writes IsRunning
IsRunning-writes = Writes-kept (λ _ _ running _. running ≡ true)

-- Where a node stops.
abbrev pub HasLeft : Node → Type 0
HasLeft n = (n.state ≡ q18) ⊎ ((n.state ≡ q10) × (n.successor ≡ none))

abbrev Stopping : World → Type 0
Stopping w = w.node.running ≡ false → HasLeft w.node

runs_on :
    (m : Exec (Unit {0})) (w : World)
    → Keeps (OnNode IsRunning) m
    → IsRunning w.node
    → After Stopping (m w)
runs_on m w k h = After-mono (OnNode IsRunning) Stopping (m w) (λ v e f. absurd cc) (k.at w h)

leave_ring_stops :
    (o : Option Stream) (w : World)
    → w.node.state ≡ q10
    → w.node.successor ≡ o
    → IsRunning w.node
    → After Stopping (leave_ring o w)
unfolding leave_ring modify
leave_ring_stops none w e f h = λ g. inr (e, f)
leave_ring_stops (some s) w e f h =
    runs_on (leave_ring (some s)) w (Keeps-leave_ring_on IsRunning IsRunning-writes s) h

from_q18 : {s : State} → q18 ⟶ s → s ≡ q18
from_q18 gone = refl

step_in_stops :
    (s : State) (w : World) → w.node.state ≡ s → IsRunning w.node → After Stopping (step_in s w)
step_in_stops q1 w e h = runs_on (step_in q1) w (Keeps-q1 IsRunning IsRunning-writes) h
step_in_stops q2 w e h = runs_on (step_in q2) w (Keeps-q2 IsRunning IsRunning-writes) h
step_in_stops q3 w e h = runs_on (step_in q3) w (Keeps-q3 IsRunning IsRunning-writes) h
step_in_stops q4 w e h =
    runs_on (step_in q4) w (Keeps-q4 IsRunning IsRunning-writes (λ n vs h. h) (λ n r h. h)) h
step_in_stops q5 w e h =
    runs_on (step_in q5) w (Keeps-q5 IsRunning IsRunning-writes (λ n vs h. h) (λ n r h. h)) h
step_in_stops q6 w e h =
    runs_on (step_in q6) w
      (Keeps-q6 IsRunning IsRunning-writes
        (Keeps-value IsRunning IsRunning-writes (λ n vs h. h) (λ n r h. h)))
      h
step_in_stops q7 w e h = runs_on (step_in q7) w (Keeps-q7 IsRunning IsRunning-writes) h
step_in_stops q8 w e h =
    runs_on (step_in q8) w (Keeps-q8 IsRunning IsRunning-writes (λ n vs h. h) (λ n r h. h)) h
step_in_stops q9 w e h =
    runs_on (step_in q9) w
      (Keeps-q9 IsRunning IsRunning-writes
        (Keeps-value IsRunning IsRunning-writes (λ n vs h. h) (λ n r h. h)))
      h
step_in_stops q10 w e h = unfold step_q10 this ◌>>=◌ in leave_ring_stops w.node.successor w e refl h
step_in_stops q11 w e h = runs_on (step_in q11) w (Keeps-q11 IsRunning IsRunning-writes) h
step_in_stops q12 w e h = runs_on (step_in q12) w (Keeps-q12 IsRunning IsRunning-writes) h
step_in_stops q13 w e h =
    runs_on (step_in q13) w (Keeps-q13 IsRunning IsRunning-writes (λ n vs h. h) (λ n r h. h)) h
step_in_stops q14 w e h = runs_on (step_in q14) w (Keeps-q14 IsRunning IsRunning-writes) h
step_in_stops q15 w e h =
    runs_on (step_in q15) w (Keeps-q15 IsRunning IsRunning-writes (λ n vs h. h) (λ n r h. h)) h
step_in_stops q16 w e h = runs_on (step_in q16) w (Keeps-q16 IsRunning IsRunning-writes) h
step_in_stops q17 w e h = runs_on (step_in q17) w (Keeps-q17 IsRunning IsRunning-writes) h
step_in_stops q18 w e h =
    After-mono _ Stopping (step_in q18 w) (λ v a f. inl (from_q18 a)) (step_in-⟶ q18 w e)

pub step-stops :
    (w : World) (r : Unit {0} × World)
    → IsRunning w.node
    → step w ≡ ok r
    → r.1.node.running ≡ false
    → HasLeft r.1.node
unfolding step
step-stops w r h e =
    After-ok Stopping (step_in w.node.state w) r (step_in_stops w.node.state w refl h) e
