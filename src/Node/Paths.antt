-- ===== src/Node/Paths.antt =====
-- The loop `run` from its start to its end.
use distributed_hash_table.Prelude.{
  List, [], ◌∷◌, Bool, ap, arith, ◌||◌, ◌≢◌, true, false, ok, stuck, ◌≡◌, refl, >>=-eq-ok, ok_inj,
  Bool-cases, inl, inr,
}
use distributed_hash_table.Prelude.{◌>>=◌ as and_then}
use distributed_hash_table.Node.Types.{Node, World, State}
use distributed_hash_table.Node.Exec.{modify, ◌>>=◌}
use distributed_hash_table.Node.Run.{step, on_signal, round, run}
use distributed_hash_table.Node.Diagram.{◌⟶◌, step-⟶}
use distributed_hash_table.Node.Asked.{is_leaving, StaysOn, step-StaysOn}
use distributed_hash_table.Node.Stopping.{IsRunning, HasLeft, step-stops}
use mathlib.Core.Path.{subst}

-- Any number of arrows, one after the other.
infix 40 ◌⟶*◌
pub data ◌⟶*◌ : State → State → Type 0 where
  done : {s : State} → s ⟶* s
  then : {s t u : State} → s ⟶ t → t ⟶* u → s ⟶* u

run_running :
    (signal : Bool) (signals : List Bool) (w : World)
    → w.node.running ≡ true
    → run (signal ∷ signals) w ≡ and_then (round signal w) (λ r. run signals r.1)
unfolding run
run_running signal signals w e = rw e refl

run_over :
    (signal : Bool) (signals : List Bool) (w : World)
    → w.node.running ≡ false
    → run (signal ∷ signals) w ≡ ok (tt, w)
unfolding run
run_over signal signals w e = rw e refl

run_out : (w : World) → run [] w ≡ stuck
unfolding run
run_out w = refl

round-⟶ :
    (signal : Bool) (w : World) (r : Unit {0} × World)
    → round signal w ≡ ok r
    → w.node.state ⟶ r.1.node.state
unfolding round on_signal modify ◌>>=◌
round-⟶ false w r h = step-⟶ w r h
round-⟶ true w r h = step-⟶ (record w { node = record (w.node) { should_close = true } }) r h

round-stops :
    (signal : Bool) (w : World) (r : Unit {0} × World)
    → IsRunning w.node
    → round signal w ≡ ok r
    → r.1.node.running ≡ false
    → HasLeft r.1.node
unfolding round on_signal modify ◌>>=◌
round-stops false w r e h f = step-stops w r e h f
round-stops true w r e h f =
    step-stops (record w { node = record (w.node) { should_close = true } }) r e h f

-- Where a run of a node that has stopped, or one that has not, ends.
run-⟶* :
    (signals : List Bool) (w : World) (r : Unit {0} × World)
    → run signals w ≡ ok r
    → (w.node.state ⟶* r.1.node.state) × (r.1.node.running ≡ false)
run-⟶* [] w r h = let out = run_out w in cc
run-⟶* (signal ∷ signals) w r h = elim (Bool-cases w.node.running) [
  | inl e ↦
      let inv =
        >>=-eq-ok (round signal w) (λ s. run signals s.1)
          (rw (run_running signal signals w e) at h) in
      let rest = run-⟶* signals inv.0.1 r inv.2 in
      (then (round-⟶ signal w inv.0 inv.1) rest.0, rest.1)
  | inr e ↦
      let same = ok_inj (tt, w) r (rw (run_over signal signals w e) at h) in
      subst
        (λ (q : Unit {0} × World). (w.node.state ⟶* q.1.node.state) × (q.1.node.running ≡ false))
        same (done, e)
]

has_left :
    (signals : List Bool) (w : World) (r : Unit {0} × World)
    → w.node.running ≡ false
    → run signals w ≡ ok r
    → HasLeft w.node
    → HasLeft r.1.node
has_left [] w r e h l = let out = run_out w in cc
has_left (signal ∷ signals) w r e h l =
    let same = ok_inj (tt, w) r (rw (run_over signal signals w e) at h) in
    subst (λ (q : Unit {0} × World). HasLeft q.1.node) same l

run_leaves :
    (signals : List Bool) (w : World) (r : Unit {0} × World)
    → IsRunning w.node
    → run signals w ≡ ok r
    → HasLeft r.1.node
run_leaves [] w r e h = let out = run_out w in cc
run_leaves (signal ∷ signals) w r e h =
    let inv =
      >>=-eq-ok (round signal w) (λ s. run signals s.1)
        (rw (run_running signal signals w e) at h) in
    elim (Bool-cases inv.0.1.node.running) [
      | inl on ↦ run_leaves signals inv.0.1 r on inv.2
      | inr off ↦ has_left signals inv.0.1 r off inv.2 (round-stops signal w inv.0 e inv.1 off)
    ]

-- Whether the signal came in one of the rounds.
abbrev pub any_signal : List Bool → Bool
any_signal [] = false
any_signal (signal ∷ signals) = signal || any_signal signals

-- Whether a node is asked to close, before the run or during it, or is on its way out already.
abbrev pub is_asked : List Bool → Node → Bool
is_asked signals n = any_signal signals || (n.should_close || is_leaving n.state)

left-ne-StaysOn : (n : Node) → HasLeft n → is_leaving n.state ≢ false
left-ne-StaysOn n (inl e) h = let t : is_leaving n.state ≡ true = ap is_leaving e in cc
left-ne-StaysOn n (inr e) h = let t : is_leaving n.state ≡ true = ap is_leaving e.0 in cc

run-StaysOn :
    (signals : List Bool) (w : World) (r : Unit {0} × World)
    → IsRunning w.node
    → StaysOn w.node
    → any_signal signals ≡ false
    → run signals w ≢ ok r
run-StaysOn [] w r e s a h = let out = run_out w in cc
run-StaysOn (true ∷ signals) w r e s a h = cc
run-StaysOn (false ∷ signals) w r e s a h =
    let inv =
      >>=-eq-ok (round false w) (λ q. run signals q.1) (rw (run_running false signals w e) at h) in
    let quiet : step w ≡ ok inv.0 = unfold round in inv.1 in
    let on = step-StaysOn w inv.0 s quiet in
    elim (Bool-cases inv.0.1.node.running) [
      | inl t ↦ run-StaysOn signals inv.0.1 r t on a inv.2
      | inr f ↦ left-ne-StaysOn inv.0.1.node (step-stops w inv.0 e quiet f) on.1
    ]

-- If the loop of a running node returns, whatever the rounds in which the signal comes that asks it
-- to close, the node has stopped, its last state is reached from its first by arrows of the
-- diagram, and it is either Q18, the last state of leaving, or Q10 with no successor. And it was
-- asked: the signal came in one of the rounds or before them, or the node was leaving already, in
-- Q10, Q11 or Q18, when the loop began; no message stops a node.
pub run_ends :
    (signals : List Bool) (w : World) (r : Unit {0} × World)
    → IsRunning w.node
    → run signals w ≡ ok r
    → (w.node.state ⟶* r.1.node.state)
      × (r.1.node.running ≡ false)
      × HasLeft r.1.node
      × (is_asked signals w.node ≡ true)
run_ends signals w r e h =
    let path = run-⟶* signals w r h in
    let asked : is_asked signals w.node ≡ true = elim (Bool-cases (is_asked signals w.node)) [
      | inl t ↦ t
      | inr f ↦
          absurd
            (run-StaysOn signals w r e (ground (arith, f), ground (arith, f)) (ground (arith, f)) h)
    ] in
    (path.0, path.1, run_leaves signals w r e h, asked)
