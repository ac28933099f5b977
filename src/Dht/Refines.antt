-- ===== src/Dht/Refines.antt =====
-- A ring of nodes implements one map: what its clients get, and what it holds, is what one map would
-- have answered and held, whichever nodes the clients ask.
use distributed_hash_table.Prelude.{
  ℕ, zero, suc, ◌+◌, ◌≤◌, ◌<◌, ◌≡◌, refl, sym, ap, ◌∙◌, List, [], ◌∷◌, ◌++◌, Option, Outcome, ok,
  ◌>>=◌, true, false, arith, Bool-cases, inl, inr, length, length-append, All,
}
use mathlib.Core.Path.{subst, fun_ext}
use distributed_hash_table.Pdu.Text.{Text}
use distributed_hash_table.Pdu.SocketAddr.{SocketAddr}
use distributed_hash_table.Pdu.Message.{Pdu, IsWire}
use distributed_hash_table.Node.Entry.{Entry, hash_ssn, hash_ssn-lt}
use distributed_hash_table.Node.Types.{World}
use distributed_hash_table.Node.Util.{in_my_range, covers}
use distributed_hash_table.Node.Start.{arrives}
use distributed_hash_table.Node.Ring.{owners, Reached, one_owner}
use distributed_hash_table.Dht.Rounds.{IsReady}
use distributed_hash_table.Dht.Requests.{Request, pdu_of, key}
use distributed_hash_table.Dht.Hop.{hop-udp}
use distributed_hash_table.Dht.Routing.{
  Journey, travel, travel_lem, Arrives, ranges, table, updated, answer,
}

-- The ring, begun `k` nodes further on.
abbrev pub turn : ℕ → List World → List World
turn zero ws = ws
turn (suc k) [] = []
turn (suc k) (w ∷ ws) = turn k (ws ++ w ∷ [])

-- A client asks the node `skip` nodes behind the one that was asked last.
pub record Call : Type 0 where
  pub skip : ℕ
  pub client : SocketAddr
  pub request : Request

-- The calls one after another, each once the last is done: all answers, and the nodes.
unfoldable pub serve : List Call → List World → Outcome (List (SocketAddr × Pdu) × List World)
serve [] ws = ok ([], ws)
serve (c ∷ cs) ws = travel (arrives (pdu_of c.request) c.client) (turn c.skip ws) >>= λ j.
    serve cs j.nodes >>= λ e. ok (j.answers ++ e.0, e.1)

-- The same calls on one map.
abbrev pub replay :
    List Call → (Text → Option Entry) → List (SocketAddr × Pdu) × (Text → Option Entry)
replay [] view = ([], view)
replay (c ∷ cs) view =
    let e = replay cs (updated c.request view) in (answer c.request view ++ e.0, e.1)

-- Every hash has one owner.
abbrev HasOwners : List (ℕ × ℕ) → Type 0
HasOwners rs = (h : ℕ) → h < 256 → owners rs h ≡ 1

owners-cons :
    (r : ℕ × ℕ) (rs : List (ℕ × ℕ)) (h : ℕ) → owners (r ∷ rs) h ≡ owners (r ∷ []) h + owners rs h
owners-cons r rs h = elim (Bool-cases (covers r h)) [
  | inl c ↦ rw c (omega arith)
  | inr c ↦ rw c (omega arith)
]

owners-append : (rs ss : List (ℕ × ℕ)) (h : ℕ) → owners (rs ++ ss) h ≡ owners rs h + owners ss h
owners-append [] ss h = omega arith
owners-append (r ∷ rs) ss h =
    omega (arith, owners-cons r (rs ++ ss) h, owners-cons r rs h, owners-append rs ss h)

owners-inside :
    (r : ℕ × ℕ) (rs : List (ℕ × ℕ)) (h : ℕ)
    → covers r h ≡ true
    → owners (r ∷ rs) h ≡ owners rs h + 1
owners-inside r rs h c = rw c refl

owners-outside :
    (r : ℕ × ℕ) (rs : List (ℕ × ℕ)) (h : ℕ) → covers r h ≡ false → owners (r ∷ rs) h ≡ owners rs h
owners-outside r rs h c = rw c refl

ranges-append : (us ws : List World) → ranges (us ++ ws) ≡ ranges us ++ ranges ws
ranges-append [] ws = refl
ranges-append (u ∷ us) ws = ap (λ rs. u.node.hash_range ∷ rs) (ranges-append us ws)

HasOwners-shift :
    (w : World) (ws : List World) → HasOwners (ranges (w ∷ ws)) → HasOwners (ranges (ws ++ w ∷ []))
HasOwners-shift w ws o h lt = rw (ranges-append ws (w ∷ [])) (
    omega (
      arith,
      owners-append (ranges ws) (ranges (w ∷ [])) h,
      owners-cons w.node.hash_range (ranges ws) h,
      o h lt,
    ))

-- Where no node of `us` owns the number.
table-unowned :
    (us ws : List World) (ssn : Text)
    → owners (ranges us) (hash_ssn ssn) ≡ 0
    → table (us ++ ws) ssn ≡ table ws ssn
table-unowned [] ws ssn o = refl
table-unowned (u ∷ us) ws ssn o = elim (Bool-cases (in_my_range u.node ssn)) [
  | inl c ↦ absurd (omega (arith, owners-inside u.node.hash_range (ranges us) (hash_ssn ssn) c))
  | inr c ↦ rw c (
      table-unowned us ws ssn
        (sym (owners-outside u.node.hash_range (ranges us) (hash_ssn ssn) c) ∙ o))
]

table-without :
    (w : World) (ws : List World) (ssn : Text)
    → in_my_range w.node ssn ≡ false
    → table (ws ++ w ∷ []) ssn ≡ table ws ssn
table-without w [] ssn c = rw c refl
table-without w (u ∷ us) ssn c = rw (table-without w us ssn c) refl

table-shift :
    (w : World) (ws : List World)
    → HasOwners (ranges (w ∷ ws))
    → table (ws ++ w ∷ []) ≡ table (w ∷ ws)
table-shift w ws o = fun_ext λ ssn. elim (Bool-cases (in_my_range w.node ssn)) [
  | inl c ↦
      let owned = o (hash_ssn ssn) (hash_ssn-lt ssn) in
      let inside = owners-inside w.node.hash_range (ranges ws) (hash_ssn ssn) c in
      table-unowned ws (w ∷ []) ssn (omega (arith, owned, inside)) ∙ rw c refl
  | inr c ↦ rw c (table-without w ws ssn c)
]

All-shift : (w : World) (ws : List World) → All IsReady (w ∷ ws) → All IsReady (ws ++ w ∷ [])
All-shift w [] a = a
All-shift w (u ∷ us) a = (a.1.0, All-shift w us (a.0, a.1.1))

-- What the calls need of the ring: nothing of it depends on where the ring begins.
abbrev IsWhole : List World → Type 0
IsWhole ws = All IsReady ws × HasOwners (ranges ws)

turn-IsWhole :
    (k : ℕ) (ws : List World) → IsWhole ws → IsWhole (turn k ws) × (table (turn k ws) ≡ table ws)
turn-IsWhole zero ws h = (h, refl)
turn-IsWhole (suc k) [] h = (h, refl)
turn-IsWhole (suc k) (w ∷ ws) h =
    let rest = turn-IsWhole k (ws ++ w ∷ []) (All-shift w ws h.0, HasOwners-shift w ws h.1) in
    (rest.0, rest.1 ∙ table-shift w ws h.1)

-- One call.
call_lem :
    (c : Call) (ws : List World)
    → IsWire (pdu_of c.request)
    → IsWhole ws
    → (j : Journey) × (travel (arrives (pdu_of c.request) c.client) (turn c.skip ws) ≡ ok j)
      × Arrives c.request (turn c.skip ws) j
      × IsWhole j.nodes
call_lem c ws i h =
    let (whole, same) = turn-IsWhole c.skip ws h in
    let ssn = key c.request in
    let (j, e, a) =
      travel_lem c.request (arrives (pdu_of c.request) c.client) (turn c.skip ws)
        (λ w k. hop-udp c.request w c.client k i) i whole.0
        (omega (arith, whole.1 (hash_ssn ssn) (hash_ssn-lt ssn))) in
    (j, e, a, (a.ready, subst (λ rs. HasOwners rs) (sym a.same_ranges) whole.1))

IsWhole-serve :
    (cs : List Call) (ws : List World)
    → All (λ c. IsWire (pdu_of c.request)) cs
    → IsWhole ws
    → (vs : List World) × (serve cs ws ≡ ok ((replay cs (table ws)).0, vs))
      × (table vs ≡ (replay cs (table ws)).1)
      × IsWhole vs
unfolding serve
IsWhole-serve [] ws i h = (ws, refl, refl, h)
IsWhole-serve (c ∷ cs) ws i h =
    let (j, e, a, whole) = call_lem c ws i.0 h in
    let same = (turn-IsWhole c.skip ws h).1 in
    let (vs, f, t, last) = IsWhole-serve cs j.nodes i.1 whole in
    let view : table j.nodes ≡ updated c.request (table ws) =
      fun_ext a.changed ∙ ap (updated c.request) same in
    (vs, rw (e, f, view, a.answered, same) refl, t ∙ ap (λ v. (replay cs v).1) view, last)

length-turn : (k : ℕ) (ws : List World) → length (turn k ws) ≡ length ws
length-turn zero ws = refl
length-turn (suc k) [] = refl
length-turn (suc k) (w ∷ ws) =
    length-turn k (ws ++ w ∷ []) ∙ length-append ws (w ∷ []) ∙ (omega arith)

-- In such a ring a well-formed VAL_INSERT, VAL_REMOVE or VAL_LOOKUP that a client sends to any node
-- reaches the node whose range has its hash, each node passing the bytes on to its successor: the
-- journey ends after at most as many rounds as there are nodes, with the answer and the change of
-- entries that one map would give.
pub travels_to_owner :
    (ws : List World) (k : ℕ) (r : Request) (client : SocketAddr)
    → All IsReady ws
    → Reached (ranges ws)
    → IsWire (pdu_of r)
    → (j : Journey) × (travel (arrives (pdu_of r) client) (turn k ws) ≡ ok j)
      × (j.rounds ≤ length ws)
      × (j.answers ≡ answer r (table ws))
      × (table j.nodes ≡ updated r (table ws))
travels_to_owner ws k r client a o i =
    let whole : IsWhole ws = (a, λ h lt. one_owner (ranges ws) h o lt) in
    let same = (turn-IsWhole k ws whole).1 in
    let c : Call = record { skip = k; client = client; request = r } in
    let (j, e, b, left) = call_lem c ws i whole in
    (
      j,
      e,
      subst (λ n. j.rounds ≤ n) (length-turn k ws) b.bounded,
      b.answered ∙ ap (answer r) same,
      fun_ext b.changed ∙ ap (updated r) same,
    )

-- A ring of nodes in Q6 with nothing buffered, in which everything can be reached and whose ranges
-- come from one node by joining and leaving, serves any sequence of well-formed VAL_INSERT,
-- VAL_REMOVE and VAL_LOOKUP datagrams, each to any node and once the last is done, as one map does
-- in which the first entry under a number stays: the run returns, the answers that the clients get
-- are those of the map, in order, and the entries that the ring then has are those of the map; its
-- nodes are again in Q6 with nothing buffered.
pub serve-replay :
    (cs : List Call) (ws : List World)
    → All (λ c. IsWire (pdu_of c.request)) cs
    → All IsReady ws
    → Reached (ranges ws)
    → (vs : List World) × (serve cs ws ≡ ok ((replay cs (table ws)).0, vs))
      × (table vs ≡ (replay cs (table ws)).1)
      × All IsReady vs
serve-replay cs ws i a o =
    let (vs, e, t, whole) = IsWhole-serve cs ws i (a, λ h lt. one_owner (ranges ws) h o lt) in
    (vs, e, t, whole.0)
