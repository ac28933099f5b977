-- ===== src/Dht/Routing.antt =====
-- How a request travels along a ring of nodes, and how the entries of all nodes make up one table.
use distributed_hash_table.Prelude.{
  ℕ, ◌+◌, ◌≤◌, ◌≡◌, refl, sym, ap, ◌∙◌, Bool, not, List, [], ◌∷◌, map, Option, none, some, Outcome,
  ok, stuck, ◌>>=◌, true, false, if◌then◌else◌, arith, Bool-cases, Option-cases, inl, inr, length,
  All,
}
use mathlib.Core.Path.{subst}
use distributed_hash_table.Pdu.Text.{Text, text_eq, text_eq_iff}
use distributed_hash_table.Pdu.SocketAddr.{SocketAddr, v4}
use distributed_hash_table.Pdu.Message.{Pdu, val_lookup_response, IsWire}
use distributed_hash_table.Node.Entry.{Entry, new, hash_ssn}
use distributed_hash_table.Node.Types.{World, Event}
use distributed_hash_table.Node.Util.{in_my_range}
use distributed_hash_table.Node.Values.{find, response}
use distributed_hash_table.Node.Store.{find-append, find-keep_if}
use distributed_hash_table.Node.Joining.{handed_down}
use distributed_hash_table.Node.Ring.{owners}
use distributed_hash_table.Dht.Rounds.{IsReady}
use distributed_hash_table.Dht.Requests.{
  Request, insert, remove, lookup, pdu_of, key, entries_after, replies_of,
}
use distributed_hash_table.Dht.Rounds.{hop, replies}
use distributed_hash_table.Dht.Hop.{onward, Handles, hop-predecessor}

-- What came of a request: the rounds that it took, the answers, and the nodes after it.
pub record Journey : Type 0 where
  pub rounds : ℕ
  pub answers : List (SocketAddr × Pdu)
  pub nodes : List World

-- After the round at `v`: either that was the last, or the message goes on.
abbrev pass_on : (Pdu → Outcome Journey) → World → List World → Option Pdu → Outcome Journey
pass_on again v ws none = ok (record { rounds = 1; answers = replies v.sent; nodes = v ∷ ws })
pass_on again v ws (some p) =
    again p >>= λ j. ok (record { rounds = j.rounds + 1; answers = j.answers; nodes = v ∷ j.nodes })

-- The nodes stand in the order of the ring, from the one that gets the events on; what one of them
-- passes on, the next one reads. A message that all of them pass on finds no owner.
unfoldable pub travel : List Event → List World → Outcome Journey
travel events [] = stuck
travel events (w ∷ ws) = hop events w >>= λ v.
    pass_on (λ p. travel (handed_down p) ws) v ws (onward v.node.successor v.sent)

abbrev pub ranges : List World → List (ℕ × ℕ)
ranges = map (λ w. w.node.hash_range)

-- What the ring as a whole has under each number.
abbrev pub table : List World → Text → Option Entry
table [] ssn = none
table (w ∷ ws) ssn = if in_my_range w.node ssn then find ssn w.node.values else table ws ssn

-- What one map does with a request: what it then has under `ssn`, where it had `old`, and what it
-- answers from what it had.
abbrev pub updated_at : Request → Text → Option Entry → Option Entry
updated_at (insert p) ssn (some x) = some x
updated_at (insert p) ssn none = if text_eq p.ssn ssn then some (new p.ssn p.name p.email) else none
updated_at (remove p) ssn old = if text_eq p.ssn ssn then none else old
updated_at (lookup p) ssn old = old

abbrev pub updated : Request → (Text → Option Entry) → Text → Option Entry
updated r view ssn = updated_at r ssn (view ssn)

abbrev pub answer : Request → (Text → Option Entry) → List (SocketAddr × Pdu)
answer (insert p) view = []
answer (remove p) view = []
answer (lookup p) view =
    (v4 p.sender_address p.sender_port, val_lookup_response (response (view p.ssn))) ∷ []

find-entries_after :
    (r : Request) (ssn : Text) (es : List Entry)
    → find ssn (entries_after r es) ≡ updated_at r ssn (find ssn es)
find-entries_after (insert p) ssn es =
    let appended = find-append ssn es (new p.ssn p.name p.email) in
    elim (Option-cases (find ssn es)) [
      | inl n ↦ appended ∙ rw n refl
      | inr (x, s) ↦ appended ∙ rw s refl
    ]
find-entries_after (remove p) ssn es = find-keep_if ssn p.ssn es
find-entries_after (lookup p) ssn es = refl

updated_at-other :
    (r : Request) (ssn : Text) (old : Option Entry)
    → text_eq (key r) ssn ≡ false
    → updated_at r ssn old ≡ old
updated_at-other (insert p) ssn (some x) h = refl
updated_at-other (insert p) ssn none h = rw h refl
updated_at-other (remove p) ssn old h = rw h refl
updated_at-other (lookup p) ssn old h = refl

-- Two numbers of which a node has one in its range are not the same.
apart :
    (w : World) (s t : Text) (b : Bool)
    → in_my_range w.node s ≡ b
    → in_my_range w.node t ≡ not b
    → text_eq s t ≡ false
apart w s t b c d = elim (Bool-cases (text_eq s t)) [
  | inl e ↦
      let same : in_my_range w.node s ≡ in_my_range w.node t =
        ap (in_my_range w.node) ((text_eq_iff s t).0 e) in
      absurd (go b (sym c ∙ same ∙ d))
  | inr e ↦ e
]
  where
    go : (b : Bool) → ¬ (b ≡ not b)
    go true h = cc
    go false h = cc

replies-answer :
    (r : Request) (w : World) (ws : List World)
    → in_my_range w.node (key r) ≡ true
    → replies (replies_of r w.node.values) ≡ answer r (table (w ∷ ws))
replies-answer (insert p) w ws c = refl
replies-answer (remove p) w ws c = refl
replies-answer (lookup p) w ws c = rw c refl

answer-elsewhere :
    (r : Request) (w : World) (ws : List World)
    → in_my_range w.node (key r) ≡ false
    → answer r (table ws) ≡ answer r (table (w ∷ ws))
answer-elsewhere (insert p) w ws c = refl
answer-elsewhere (remove p) w ws c = refl
answer-elsewhere (lookup p) w ws c = rw c refl

-- Where a journey along `ws` ends.
pub record Arrives (r : Request) (ws : List World) (j : Journey) : Type 0 where
  pub bounded : j.rounds ≤ length ws
  pub answered : j.answers ≡ answer r (table ws)
  pub ready : All IsReady j.nodes
  pub same_ranges : ranges j.nodes ≡ ranges ws
  pub changed : (ssn : Text) → table j.nodes ssn ≡ updated r (table ws) ssn

-- The rounds in which the events bring a request.
abbrev pub Brings : Request → List Event → Type 0
Brings r events = (w : World) → IsReady w → (v : World) × (hop events w ≡ ok v) × Handles r w v

Arrives-here :
    (r : Request) (w v : World) (ws : List World)
    → in_my_range w.node (key r) ≡ true
    → Handles r w v
    → All IsReady ws
    → Arrives r (w ∷ ws) (record { rounds = 1; answers = replies v.sent; nodes = v ∷ ws })
Arrives-here r w v ws c h a = record {
  bounded = omega arith;
  answered = (h.here c).2 ∙ replies-answer r w ws c;
  ready = (h.ready, a);
  same_ranges = ap (λ x. x ∷ ranges ws) h.range;
  changed = λ ssn. elim (Bool-cases (in_my_range w.node ssn)) [
    | inl d ↦ rw (h.range, d, (h.here c).0) (find-entries_after r ssn w.node.values)
    | inr d ↦
        rw (h.range, d) (sym (updated_at-other r ssn (table ws ssn) (apart w (key r) ssn true c d)))
  ];
}

Arrives-later :
    (r : Request) (w v : World) (ws : List World) (j : Journey)
    → in_my_range w.node (key r) ≡ false
    → Handles r w v
    → Arrives r ws j
    → Arrives r
        (w ∷ ws)
        (record { rounds = j.rounds + 1; answers = j.answers; nodes = v ∷ j.nodes })
Arrives-later r w v ws j c h a = record {
  bounded = omega (arith, a.bounded);
  answered = a.answered ∙ answer-elsewhere r w ws c;
  ready = (h.ready, a.ready);
  same_ranges = rw (h.range, a.same_ranges) refl;
  changed = λ ssn. elim (Bool-cases (in_my_range w.node ssn)) [
    | inl d ↦
        rw (h.range, d, (h.elsewhere c).0)
          (sym (updated_at-other r ssn (find ssn w.node.values) (apart w (key r) ssn false c d)))
    | inr d ↦ rw (h.range, d) (a.changed ssn)
  ];
}

pub travel_lem :
    (r : Request) (events : List Event) (ws : List World)
    → Brings r events
    → IsWire (pdu_of r)
    → All IsReady ws
    → 1 ≤ owners (ranges ws) (hash_ssn (key r))
    → (j : Journey) × (travel events ws ≡ ok j) × Arrives r ws j
unfolding travel
travel_lem r events [] each i a o = absurd (omega arith)
travel_lem r events (w ∷ ws) each i a o =
    let (v, e, h) = each w a.0 in
    elim (Bool-cases (in_my_range w.node (key r))) [
      | inl c ↦ (
        record { rounds = 1; answers = replies v.sent; nodes = v ∷ ws },
        rw (e, (h.here c).1) refl,
        Arrives-here r w v ws c h a.1,
      )
      | inr c ↦
          let (j, f, b) =
            travel_lem r (handed_down (pdu_of r)) ws (λ u k. hop-predecessor r u k i) i a.1
              (subst
                (λ b. 1 ≤ (
                  if b
                  then owners (ranges ws) (hash_ssn (key r)) + 1
                  else owners (ranges ws) (hash_ssn (key r))))
                c o) in
          (
            record { rounds = j.rounds + 1; answers = j.answers; nodes = v ∷ j.nodes },
            rw (e, (h.elsewhere c).1, f) refl,
            Arrives-later r w v ws j c h b,
          )
    ]
