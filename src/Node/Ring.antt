-- ===== src/Node/Ring.antt =====
-- The ranges of all nodes of a ring, and how joining and leaving change them.
use distributed_hash_table.Prelude.{
  ℕ, ◌+◌, ◌≤◌, ◌<◌, ◌≡◌, refl, sym, ◌∙◌, List, [], ◌∷◌, ◌++◌, true, some, none, ok, arith,
  if◌then◌else◌, Bool-cases, inl, inr, ◌⊎◌, ◌||◌, ltb,
}
use distributed_hash_table.Pdu.NetNewRange
use distributed_hash_table.Pdu.NetNewRange.{NetNewRangePdu}
use distributed_hash_table.Pdu.NetNewRangeResponse
use distributed_hash_table.Pdu.Message.{net_new_range, net_new_range_response}
use distributed_hash_table.Node.Types.{World, Stream, q6, tcp_sent}
use distributed_hash_table.Node.Exec.{opened}
use distributed_hash_table.Node.Util.{halves, covers}
use distributed_hash_table.Node.States.{is_above, take_last_pdu, step_q15}
use mathlib.Core.Path.{subst}
use distributed_hash_table.Node.Ranges.{halves_ends, halves_balanced}

-- The range of a node that takes over the range of a neighbour that leaves.
abbrev pub merged : ℕ × ℕ → NetNewRangePdu → ℕ × ℕ
merged r p = if is_above r p then (r.0, p.range_end) else (p.range_start, r.1)

-- The range in the NET_NEW_RANGE of a node that leaves.
abbrev pub offer : ℕ × ℕ → NetNewRangePdu
offer r = NetNewRange.new r.0 r.1

-- The ranges in the order of the ring: they join on to each other, from `from` to 255.
abbrev pub Tiles : ℕ → List (ℕ × ℕ) → Type 0
Tiles from [] = from ≡ 256
Tiles from (r ∷ rs) = (r.0 ≡ from) × (r.0 ≤ r.1) × Tiles (r.1 + 1) rs

-- What happens to the ranges: a node with more than one hash splits its range with a node that joins; a
-- node gives its range to the node before it, and the first node to the one behind it.
infix 40 ◌⇒◌
pub data ◌⇒◌ : List (ℕ × ℕ) → List (ℕ × ℕ) → Type 0 where
  joins :
      (before : List (ℕ × ℕ)) (r : ℕ × ℕ) (after : List (ℕ × ℕ))
      → r.0 < r.1
      → (before ++ r ∷ after) ⇒ (before ++ (halves r).0 ∷ (halves r).1 ∷ after)
  leaves :
      (before : List (ℕ × ℕ)) (p r : ℕ × ℕ) (after : List (ℕ × ℕ))
      → (before ++ p ∷ r ∷ after) ⇒ (before ++ merged p (offer r) ∷ after)
  first_leaves :
      (r s : ℕ × ℕ) (after : List (ℕ × ℕ)) → (r ∷ s ∷ after) ⇒ (merged s (offer r) ∷ after)

-- Every range of a tiling is one of `u8` numbers.
Tiles-end : (from : ℕ) (rs : List (ℕ × ℕ)) → Tiles from rs → from ≤ 256
Tiles-end from [] t = omega arith
Tiles-end from (r ∷ rs) t = omega (arith, t.0, t.1, Tiles-end (r.1 + 1) rs t.2)

Tiles-split :
    (from : ℕ) (r : ℕ × ℕ) (after : List (ℕ × ℕ))
    → r.0 < r.1
    → Tiles from (r ∷ after)
    → Tiles from ((halves r).0 ∷ (halves r).1 ∷ after)
Tiles-split from (min, max) after lt t =
    let lt_256 : max < 256 = omega (arith, Tiles-end (max + 1) after t.2) in
    let ends = halves_ends min max t.1 lt_256 (inl lt) in
    let balanced = halves_balanced min max lt lt_256 in
    (
      ends.0 ∙ t.0,
      balanced.0,
      (ends.2, balanced.1, subst (λ m. Tiles (m + 1) after) (sym ends.1) t.2),
    )

pub merged_above :
    (p r : ℕ × ℕ) → r.0 ≡ p.1 + 1 → r.0 ≤ r.1 → r.1 < 256 → merged p (offer r) ≡ (p.0, r.1)
unfolding NetNewRange.new
merged_above (pmin, pmax) (min, max) e le lt = ground arith

merged_below : (s r : ℕ × ℕ) → r.0 ≡ 0 → merged s (offer r) ≡ (0, s.1)
unfolding NetNewRange.new
merged_below (smin, smax) (min, max) e = ground arith

Tiles-leave :
    (from : ℕ) (p r : ℕ × ℕ) (after : List (ℕ × ℕ))
    → Tiles from (p ∷ r ∷ after)
    → Tiles from (merged p (offer r) ∷ after)
Tiles-leave from p r after t =
    let lt_256 : r.1 < 256 = omega (arith, Tiles-end (r.1 + 1) after t.2.2) in
    rw (merged_above p r t.2.0 t.2.1 lt_256) (t.0, omega (arith, t.1, t.2.0, t.2.1), t.2.2)

Tiles-first :
    (r s : ℕ × ℕ) (after : List (ℕ × ℕ))
    → Tiles 0 (r ∷ s ∷ after)
    → Tiles 0 (merged s (offer r) ∷ after)
Tiles-first r s after t = rw (merged_below s r t.0) (refl, omega arith, t.2.2)

Tiles-before :
    (from : ℕ) (before old new : List (ℕ × ℕ))
    → ((at : ℕ) → Tiles at old → Tiles at new)
    → Tiles from (before ++ old)
    → Tiles from (before ++ new)
Tiles-before from [] old new f t = f from t
Tiles-before from (b ∷ before) old new f t = (t.0, t.1, Tiles-before (b.1 + 1) before old new f t.2)

pub ⇒-Tiles : (rs rs' : List (ℕ × ℕ)) → rs ⇒ rs' → Tiles 0 rs → Tiles 0 rs'
⇒-Tiles rs rs' (joins before r after lt) t =
    Tiles-before 0 before _ _ (λ at. Tiles-split at r after lt) t
⇒-Tiles rs rs' (leaves before p r after) t =
    Tiles-before 0 before _ _ (λ at. Tiles-leave at p r after) t
⇒-Tiles rs rs' (first_leaves r s after) t = Tiles-first r s after t

-- How many of the ranges cover a hash.
abbrev pub owners : List (ℕ × ℕ) → ℕ → ℕ
owners [] h = 0
owners (r ∷ rs) h = let rest = owners rs h in if covers r h then rest + 1 else rest

owners_from :
    (from : ℕ) (rs : List (ℕ × ℕ)) (h : ℕ)
    → Tiles from rs
    → h < 256
    → ((h < from) → owners rs h ≡ 0) × ((from ≤ h) → owners rs h ≡ 1)
owners_from from [] h t lt = ((λ _. refl), (λ le. absurd (omega arith)))
owners_from from ((min, max) ∷ rs) h t lt =
    let rest = owners_from (max + 1) rs h t.2 lt in
    ((λ l. ground (arith, rest.0, t.0, t.1)), (λ l. ground (arith, rest.0, rest.1, t.0, t.1)))

-- A ring begins with one node that has all hashes.
pub data Reached : List (ℕ × ℕ) → Type 0 where
  alone : Reached ((0, 255) ∷ [])
  later : {rs rs' : List (ℕ × ℕ)} → Reached rs → rs ⇒ rs' → Reached rs'

Reached-Tiles : (rs : List (ℕ × ℕ)) → Reached rs → Tiles 0 rs
Reached-Tiles rs alone = (refl, omega arith, refl)
Reached-Tiles rs (later before s) = ⇒-Tiles _ rs s (Reached-Tiles _ before)

-- Starting with one node that has all hashes, after any sequence of nodes joining, each splitting a
-- range of more than one hash by split_range, and nodes leaving, each giving its range by
-- NET_NEW_RANGE to the node before it, or the first node to the one behind it, every hash below 256
-- is in the range of exactly one node.
pub one_owner : (rs : List (ℕ × ℕ)) (h : ℕ) → Reached rs → h < 256 → owners rs h ≡ 1
one_owner rs h r lt = (owners_from 0 rs h (Reached-Tiles rs r) lt).1 (omega arith)

-- One round of `q15` with an offer.
pub answers_offer :
    (w : World) (p : NetNewRangePdu) (next previous : Stream)
    → w.node.last_pdu ≡ some (net_new_range p)
    → w.node.successor ≡ some next
    → w.node.predecessor ≡ some previous
    → w.reachable next.peer_addr ≡ true
    → w.reachable previous.peer_addr ≡ true
    → step_q15 w
      ≡ ok (
        tt,
        record w {
          node = record (w.node) {
            hash_range = merged w.node.hash_range p;
            last_pdu = none;
            state = q6;
          };
          sent =
              w.sent
              ++ tcp_sent
                  (if is_above w.node.hash_range p then next else previous)
                  (net_new_range_response NetNewRangeResponse.new)
                ∷ [];
        },
      )
unfolding step_q15 take_last_pdu opened
answers_offer w p next previous l s q rn rp = elim (Bool-cases (is_above w.node.hash_range p)) [
  | inl e ↦ rw (l, e, s, rn) refl
  | inr e ↦ rw (l, e, q, rp) refl
]

-- A range of `u8` numbers that is not empty.
abbrev pub IsRange : ℕ × ℕ → Type 0
IsRange r = (r.0 ≤ r.1) × (r.1 < 256)

-- `s` begins directly above the end of `r`, or ends directly below its begin.
abbrev pub Touches : ℕ × ℕ → ℕ × ℕ → Type 0
Touches r s = (s.0 ≡ r.1 + 1) ⊎ (s.1 + 1 ≡ r.0)

covers-merged :
    (r s : ℕ × ℕ) (h : ℕ)
    → IsRange r
    → IsRange s
    → Touches r s
    → covers (merged r (offer s)) h ≡ (covers r h || covers s h)
unfolding NetNewRange.new
covers-merged (min, max) (from, to) h i j (inl e) = ground (arith, i, j)
covers-merged (min, max) (from, to) h i j (inr e) = ground (arith, i, j)

answered : (r s : ℕ × ℕ) → IsRange r → IsRange s → Touches r s → is_above r (offer s) ≡ ltb r.1 s.0
unfolding NetNewRange.new
answered (min, max) (from, to) i j (inl e) = ground (arith, i, j)
answered (min, max) (from, to) i j (inr e) = ground (arith, i, j)

-- In Q15 a node with a NET_NEW_RANGE, with neighbours that are there and can be reached, and with a
-- range of u8 numbers that is not empty, is offered such a range that begins one above the end of
-- its own or ends one below its begin: after the round its range has exactly the hashes of its own
-- range and of the one offered; it answers its successor if the offered range lies above the end of
-- its own and else its predecessor, and sends nothing else; it has no message left and is in Q6,
-- and nothing else of the node changes.
pub takes_over :
    (w : World) (s : ℕ × ℕ) (next previous : Stream)
    → w.node.last_pdu ≡ some (net_new_range (offer s))
    → w.node.successor ≡ some next
    → w.node.predecessor ≡ some previous
    → w.reachable next.peer_addr ≡ true
    → w.reachable previous.peer_addr ≡ true
    → IsRange w.node.hash_range
    → IsRange s
    → Touches w.node.hash_range s
    → (v : World) × (step_q15 w ≡ ok (tt, v))
      × ((h : ℕ) → covers v.node.hash_range h ≡ (covers w.node.hash_range h || covers s h))
      × (v.sent
          ≡ w.sent
            ++ tcp_sent
                (if ltb w.node.hash_range.1 s.0 then next else previous)
                (net_new_range_response NetNewRangeResponse.new)
              ∷ [])
      × (v.node ≡ record (w.node) { hash_range = v.node.hash_range; last_pdu = none; state = q6 })
takes_over w s next previous l n p rn rp i j t =
    let v : World = record w {
      node = record (w.node) {
        hash_range = merged w.node.hash_range (offer s);
        last_pdu = none;
        state = q6;
      };
      sent =
          w.sent
          ++ tcp_sent (if is_above w.node.hash_range (offer s) then next else previous)
              (net_new_range_response NetNewRangeResponse.new)
            ∷ [];
    } in
    (
      v,
      answers_offer w (offer s) next previous l n p rn rp,
      (λ h. covers-merged w.node.hash_range s h i j t),
      rw (answered w.node.hash_range s i j t) refl,
      refl,
    )
