-- ===== src/Node/Ownership/Merges.antt =====
-- The step that takes over the range of a neighbour.
use distributed_hash_table.Prelude.{
  ℕ, ◌+◌, ◌≤◌, ◌<◌, ◌≡◌, ◌⊎◌, inl, inr, sym, ap, ◌∙◌, Option, some, Bool, true, false, arith,
}
use distributed_hash_table.Pdu.NetNewRange.{NetNewRangePdu}
use distributed_hash_table.Pdu.Message.{Pdu, net_new_range}
use distributed_hash_table.Node.Entry.{hash}
use distributed_hash_table.Node.Types.{Node, World, Stream}
use distributed_hash_table.Node.Exec.{or_fail, ◌>>=◌, tcp_send}
use distributed_hash_table.Node.Util.{covers}
use distributed_hash_table.Node.States.{take_last_pdu, is_above, step_q15}
use distributed_hash_table.Node.Patterns.{as_new_range}
use distributed_hash_table.Node.Hoare.{OnNode, Keeps-bind, Keeps-modify, Keeps-or_fail, Keeps-reach}
use distributed_hash_table.Node.Triple.{
  Triple, Triple-bind, Triple-this, Triple-or_fail, Triple-if, Triple-modify, Triple-kept,
  Triple-mono,
}
use distributed_hash_table.Node.Ownership.Sets.{IsOwned, All-map}
use mathlib.Core.Path.{subst}

-- The range that is offered lies directly above `r`, or directly below it.
abbrev pub Adjacent : ℕ × ℕ → NetNewRangePdu → Type 0
Adjacent r p =
    ((p.range_start ≡ r.1 + 1) × (p.range_start < 256) × (r.1 ≤ p.range_end))
    ⊎ ((p.range_end + 1 ≡ r.0) × (p.range_start ≤ p.range_end))

-- What `q15` finds as its message is such an offer.
abbrev pub OffersAdjacent : Node → Type 0
OffersAdjacent n =
    IsOwned n
    × ((p : NetNewRangePdu) → n.last_pdu ≡ some (net_new_range p) → Adjacent n.hash_range p)

above_covers :
    (r : ℕ × ℕ) (p : NetNewRangePdu) (h : ℕ)
    → Adjacent r p
    → is_above r p ≡ true
    → covers r h ≡ true
    → covers (r.0, p.range_end) h ≡ true
above_covers (min, max) p h (inl a) t c = ground (arith, a)
above_covers (min, max) p h (inr a) t c = ground (arith, a)

below_covers :
    (r : ℕ × ℕ) (p : NetNewRangePdu) (h : ℕ)
    → Adjacent r p
    → is_above r p ≡ false
    → covers r h ≡ true
    → covers (p.range_start, r.1) h ≡ true
below_covers (min, max) p h (inl a) t c = ground (arith, a)
below_covers (min, max) p h (inr a) t c = ground (arith, a)

-- Once the message `p` is taken, the range still lies beside that of `p`.
abbrev Offered : Pdu → Node → Type 0
Offered p n = IsOwned n × ((q : NetNewRangePdu) → p ≡ net_new_range q → Adjacent n.hash_range q)

take_last_pdu-Triple : Triple (OnNode OffersAdjacent) (λ p. OnNode (Offered p)) take_last_pdu
unfolding take_last_pdu
take_last_pdu-Triple = Triple-bind _ _ _ (Triple-this _) λ n.
    Triple-bind _ {Q = λ _ w. OffersAdjacent (record (w.node) { last_pdu = n.last_pdu })} _ _
      (Triple-modify _ _ (λ w h.
        subst (λ (m : Node). OffersAdjacent (record (w.node) { last_pdu = m.last_pdu })) (sym h.1)
          h.0))
      λ _.
        Triple-mono _ _ (λ p w h. (h.0.0, λ q e. h.0.1 q (h.1 ∙ ap some e)))
          (Triple-or_fail _ n.last_pdu)

new_range_inv : (m : Pdu) (p : NetNewRangePdu) → as_new_range m ≡ some p → m ≡ net_new_range p
new_range_inv m p e = ground arith

-- With the message recognised, the range lies beside that of `p`.
abbrev Beside : NetNewRangePdu → Node → Type 0
Beside p n = IsOwned n × Adjacent n.hash_range p

pub step_q15-IsOwned : Triple (OnNode OffersAdjacent) (λ _. OnNode IsOwned) step_q15
unfolding step_q15
step_q15-IsOwned = Triple-bind _ _ _ take_last_pdu-Triple λ last.
    Triple-bind _ {Q = λ p. OnNode (Beside p)} _ _
      (Triple-mono _ _ (λ p w h. (h.0.0, h.0.1 p (new_range_inv last p h.1)))
        (Triple-or_fail _ (as_new_range last)))
      λ p. Triple-bind _ _ _ (Triple-this _) λ n.
        Triple-bind _ {Q = λ _. OnNode IsOwned} _ _
          (Triple-if _ (is_above n.hash_range p) _ _
            (λ t.
              Triple-bind _ {Q = λ _. OnNode IsOwned} _ _
                (Triple-modify _ _ (λ w h.
                  All-map w.node.values
                    (λ e.
                      above_covers w.node.hash_range p (hash e) h.0.1 (at_node w n p true h.1 t))
                    h.0.0))
                λ _. answered _ _)
            (λ t.
              Triple-bind _ {Q = λ _. OnNode IsOwned} _ _
                (Triple-modify _ _ (λ w h.
                  All-map w.node.values
                    (λ e.
                      below_covers w.node.hash_range p (hash e) h.0.1 (at_node w n p false h.1 t))
                    h.0.0))
                λ _. answered _ _))
          λ _. Triple-kept _ _ (Keeps-modify _ _ (λ w h. h))
  where
    at_node :
        (w : World) (n : Node) (p : NetNewRangePdu) (b : Bool)
        → n ≡ w.node
        → is_above n.hash_range p ≡ b
        → is_above w.node.hash_range p ≡ b
    at_node w n p b e t = subst (λ (m : Node). is_above m.hash_range p ≡ b) e t

    answered :
        (o : Option Stream) (answer : Pdu)
        → Triple (OnNode IsOwned) (λ _. OnNode IsOwned) (or_fail o >>= λ s. tcp_send s answer)
    answered o answer =
        Triple-kept _ _ (Keeps-bind _ _ _ (Keeps-or_fail _ _) λ s. Keeps-reach IsOwned _ _)
