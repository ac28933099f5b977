-- ===== src/Node/Transfer.antt =====
-- Handing entries to a neighbour.
use distributed_hash_table.Prelude.{
  ℕ, ◌≡◌, refl, ◌∙◌, ap, List, [], ◌∷◌, ◌++◌, map, Option, some, Bool, true, not, Outcome, ok,
  arith, if◌then◌else◌, keep_if, All, append_assoc, append-nil, Bool-cases, inl, inr, none, panic,
  waits, stuck,
}
use distributed_hash_table.Prelude.{◌>>=◌ as and_then}
use distributed_hash_table.Node.Hoare.{After, After-mono, After-ok}
use distributed_hash_table.Pdu.ValInsert
use distributed_hash_table.Pdu.Message.{val_insert}
use distributed_hash_table.Node.Entry.{Entry}
use distributed_hash_table.Node.Types.{Node, World, Stream, Output, tcp_sent}
use distributed_hash_table.Node.Exec.{opened}
use distributed_hash_table.Node.Util.{moves, stays, send_entries, transfer}
use mathlib.Core.List.{Perm, perm_middle}
use mathlib.Core.List.Perm

-- What the neighbour gets for one entry.
abbrev pub handed : Stream → Entry → Output
handed s e = tcp_sent s (val_insert (ValInsert.new e.ssn e.name e.email))

pub stays-moves : (s e : ℕ) (x : Entry) → stays s e x ≡ not (moves s e x)
stays-moves s e x = ground arith

send_entries_lem :
    (s : Stream) (es : List Entry) (w : World)
    → w.reachable s.peer_addr ≡ true
    → send_entries s es w ≡ ok (tt, record w { sent = w.sent ++ map (handed s) es })
unfolding send_entries opened
send_entries_lem s [] w h = rw append-nil
send_entries_lem s (e ∷ es) w h =
    let next : World = record w { sent = w.sent ++ handed s e ∷ [] } in
    rw (h, send_entries_lem s es next h, append_assoc)

-- Without knowing whether the neighbour can be reached: what holds if the entries went out.
send_entries-After :
    (s : Stream) (es : List Entry) (w : World)
    → After (λ v. v ≡ record w { sent = w.sent ++ map (handed s) es }) (send_entries s es w)
unfolding send_entries opened
send_entries-After s [] w = rw append-nil refl
send_entries-After s (e ∷ es) w = elim (Bool-cases (w.reachable s.peer_addr)) [
  | inl h ↦
      let next : World = record w { sent = w.sent ++ handed s e ∷ [] } in
      rw h (
        After-mono _ _ (send_entries s es next)
          (λ v q. q ∙ ap (λ (l : List Output). record w { sent = l }) (append_assoc w.sent _ _))
          (send_entries-After s es next))
  | inr h ↦ rw h tt
]

module _ {A : Type 0} (test other : A → Bool) (opposite : (a : A) → other a ≡ not (test a)) where
  pub keep_if-perm : (xs : List A) → Perm (keep_if test xs ++ keep_if other xs) xs
  keep_if-perm [] = Perm.nil
  keep_if-perm (x ∷ xs) =
      let rest = Perm.cons x (keep_if-perm xs) in
      elim (Bool-cases (test x)) [
        | inl e ↦ rw (opposite x, e) rest
        | inr e ↦
            rw (opposite x, e) (Perm.trans (perm_middle (keep_if test xs) (keep_if other xs)) rest)
      ]

pub keep_if-All :
    (test : Entry → Bool) (xs : List Entry) → All (λ x. test x ≡ true) (keep_if test xs)
keep_if-All test [] = tt
keep_if-All test (x ∷ xs) = elim (Bool-cases (test x)) [
  | inl e ↦ rw e (e, keep_if-All test xs)
  | inr e ↦ rw e (keep_if-All test xs)
]

-- A transfer of a range to a neighbour that is there and can be reached returns: it sends a
-- VAL_INSERT for each entry of the range, in the order in which they are stored, keeps the others
-- in theirs, and changes nothing else.
pub transfer_lem :
    (b : Bool) (s e : ℕ) (socket : Stream) (w : World)
    → (if b then w.node.successor else w.node.predecessor) ≡ some socket
    → w.reachable socket.peer_addr ≡ true
    → transfer b s e w
      ≡ ok (
        tt,
        record w {
          node = record (w.node) { values = keep_if (stays s e) w.node.values };
          sent = w.sent ++ map (handed socket) (keep_if (moves s e) w.node.values);
        },
      )
unfolding transfer opened
transfer_lem b s e socket w p h =
    rw p (rw (send_entries_lem socket (keep_if (moves s e) w.node.values) w h))

-- The world after a transfer.
abbrev Transferred : Bool → ℕ → ℕ → World → World → Type 0
Transferred b s e w v =
    (socket : Stream) × ((if b then w.node.successor else w.node.predecessor) ≡ some socket)
    × (v ≡ record w {
      node = record (w.node) { values = keep_if (stays s e) w.node.values };
      sent = w.sent ++ map (handed socket) (keep_if (moves s e) w.node.values);
    })

After-values :
    (f : Node → Node) (u : World) (o : Outcome (Unit {0} × World))
    → After (λ v. v ≡ u) o
    → After
        (λ v. v ≡ record u { node = f u.node })
        (and_then o (λ r. ok (tt, record (r.1) { node = f r.1.node })))
After-values f u (ok r) q = ap (λ (v : World). record v { node = f v.node }) q
After-values f u panic q = tt
After-values f u waits q = tt
After-values f u stuck q = tt

transfer-After :
    (b : Bool) (s e : ℕ) (w : World) (o : Option Stream)
    → (if b then w.node.successor else w.node.predecessor) ≡ o
    → After (Transferred b s e w) (transfer b s e w)
unfolding transfer opened
transfer-After b s e w none p = rw p tt
transfer-After b s e w (some socket) p = rw p (
    After-mono _ (Transferred b s e w) _ (λ v q. (socket, p, q))
      (After-values (λ n. record n { values = keep_if (stays s e) n.values }) _ _
        (send_entries-After socket (keep_if (moves s e) w.node.values) w)))

-- A transfer of a range that returns had a neighbour, sent it one VAL_INSERT for each of some
-- entries and nothing else, and those entries together with the ones that stay are the entries of
-- before, as a permutation; the entries that went have their hash in the range and those that stay
-- have it outside.
pub transfer_conserves :
    (b : Bool) (s e : ℕ) (w : World) (r : Unit {0} × World)
    → transfer b s e w ≡ ok r
    → (socket : Stream) × (moved : List Entry) × ((if b
          then w.node.successor
          else w.node.predecessor)
        ≡ some socket)
      × (r.1.sent ≡ w.sent ++ map (handed socket) moved)
      × Perm (moved ++ r.1.node.values) w.node.values
      × All (λ x. moves s e x ≡ true) moved
      × All (λ x. stays s e x ≡ true) r.1.node.values
transfer_conserves b s e w r h =
    let (socket, p, q) =
      After-ok (Transferred b s e w) (transfer b s e w) r (transfer-After b s e w _ refl) h in
    let kept : r.1.node.values ≡ keep_if (stays s e) w.node.values =
      ap (λ (v : World). v.node.values) q in
    (
      socket,
      keep_if (moves s e) w.node.values,
      p,
      ap (λ (v : World). v.sent) q,
      rw kept (keep_if-perm (moves s e) (stays s e) (stays-moves s e) w.node.values),
      keep_if-All (moves s e) w.node.values,
      rw kept (keep_if-All (stays s e) w.node.values),
    )
