-- ===== src/Dht/Seeking.antt =====
-- A NET_JOIN on its way round a ring, until it stops at the node with the widest range.
use distributed_hash_table.Prelude.{
  ℕ, ◌+◌, ◌≤◌, ◌≡◌, refl, sym, ap, ◌∙◌, List, [], ◌∷◌, ◌++◌, map, Bool, true, false, Option, none,
  some, Outcome, ok, waits, ◌>>=◌, arith, All, inl, inr, ltb, Bool-cases,
}
use mathlib.Core.Path.{subst}
use distributed_hash_table.Pdu.Bytes.{IsU16, IsU32}
use distributed_hash_table.Pdu.SocketAddr.{SocketAddr, v4, addr_eq_iff}
use distributed_hash_table.Pdu.NetJoin
use distributed_hash_table.Pdu.NetJoin.{NetJoinPdu}
use distributed_hash_table.Pdu.Message.{Pdu, net_join, IsWire}
use distributed_hash_table.Node.Types.{World, Event, State, q13}
use distributed_hash_table.Node.Start.{arrives}
use distributed_hash_table.Node.Joining.{handed_down}
use distributed_hash_table.Dht.Rounds.{advance, hop}
use distributed_hash_table.Dht.Hop.{onward}
use distributed_hash_table.Dht.Asking.{
  Place, place, span, widened, Listens, Asked, hop_udp-Asked, hop_predecessor-Asked,
}
use distributed_hash_table.Dht.Passing.{look, passes, stops}
use distributed_hash_table.Dht.Survey.{
  survey, survey-src, Passes, Stops, here, further, Elsewhere, Distinct, survey-Surveyed,
  Distinct-Passes,
}

-- One way along the nodes: a node keeps the message, or it has passed all of them.
pub data Lap : Type 0 where
  found : List World → World → List World → Lap
  passed : Pdu → List World → Lap

abbrev keeps : State → Bool
keeps q13 = true
keeps _ = false

abbrev behind : World → Lap → Lap
behind t (found before u after) = found (t ∷ before) u after
behind t (passed q ts) = passed q (t ∷ ts)

-- A message that is not passed on is waited for in vain.
abbrev carry : (Pdu → Outcome Lap) → World → Option Pdu → Outcome Lap
carry again t none = waits
carry again t (some q) = again q >>= λ l. ok (behind t l)

abbrev settle : (Pdu → Outcome Lap) → World → List World → Bool → Outcome Lap
settle again u ws true = ok (found [] u ws)
settle again u ws false = advance u >>= λ t. carry again t (onward t.node.successor t.sent)

-- Each node that does not keep the message writes to its successor what the next node reads.
unfoldable pub lap : Pdu → List Event → List World → Outcome Lap
lap p events [] = ok (passed p [])
lap p events (w ∷ ws) =
    look events w >>= λ u. settle (λ q. lap q (handed_down q) ws) u ws (keeps u.node.state)

abbrev again : Lap → Outcome Lap
again (found before u after) = ok (found before u after)
again (passed q ts) = lap q (handed_down q) ts

-- The node that joins asks the first node; the message goes round the ring at most twice.
abbrev pub seek : Pdu → SocketAddr → List World → Outcome Lap
seek p client ws = lap p (arrives p client) ws >>= again

abbrev pub places : List World → List Place
places = map place

abbrev Reads : NetJoinPdu → List Event → Type 0
Reads p events = (w : World) → Listens w → (v : World) × (hop events w ≡ ok v) × Asked p w v

widened-IsWire :
    (w : World) (p : NetJoinPdu)
    → Listens w
    → IsWire (net_join p)
    → IsWire (net_join (widened (place w) p))
widened-IsWire w p l i =
    rw l.listen_socket
      (elim (Bool-cases (ltb p.max_span (span (v4 l.ip l.port, w.node.hash_range)))) [
        | inl e ↦ rw e (record {
          tag = i.tag;
          src_address = i.src_address;
          src_port = i.src_port;
          max_span = omega arith;
          max_address = l.ip_fits;
          max_port = l.port_fits;
        })
        | inr e ↦ rw e i
      ])

lap-passed :
    (ws : List World) (p : NetJoinPdu) (events : List Event)
    → Reads p events
    → All Listens ws
    → IsWire (net_join p)
    → Passes (places ws) p
    → (ts : List World) × (lap (net_join p) events ws
        ≡ ok (passed (net_join (survey (places ws) p)) ts))
      × All Listens ts
      × (places ts ≡ places ws)
      × IsWire (net_join (survey (places ws) p))
unfolding lap
lap-passed [] p events r l i h = ([], refl, tt, refl, i)
lap-passed (w ∷ ws) p events r l i h =
    let (v, e, a) = r w l.0 in
    let (u, t, f, q, g, m, s, o) = passes events p w v l.0 e a h.0 in
    let wire = widened-IsWire w p l.0 i in
    let next = widened (place w) p in
    let (ts, k, ls, ps, last) =
      lap-passed ws next (handed_down (net_join next))
        (λ x y. hop_predecessor-Asked next x y.ready wire) l.1 wire h.1 in
    (t ∷ ts, rw (f, q, g, o, k) refl, (m, ls), rw (s, ps) refl, last)

-- The node at which a message stopped.
pub record Chosen (ws : List World) (p : NetJoinPdu) (before after : List World) (u : World)
    : Type 0 where
  pub ring : places (before ++ u ∷ after) ≡ places ws
  pub state : u.node.state ≡ q13
  pub last_pdu : u.node.last_pdu ≡ some (net_join p)
  pub named : u.node.listen_socket ≡ NetJoin.get_max_socket_addr p
  pub span_named : span (place u) ≡ p.max_span

lap-found :
    (ws : List World) (p : NetJoinPdu) (events : List Event)
    → Reads p events
    → All Listens ws
    → IsWire (net_join p)
    → Stops (places ws) p
    → (before after : List World) × (u : World) × (lap (net_join p) events ws
        ≡ ok (found before u after))
      × Chosen ws p before after u
unfolding lap
lap-found [] p events r l i h = elim h [ ]
lap-found (w ∷ ws) p events r l i (here n s) =
    let (v, e, a) = r w l.0 in
    let own = (addr_eq_iff w.node.listen_socket (NetJoin.get_max_socket_addr p)).1 n in
    let (u, f, q, m, b) = stops events p w v l.0 e a own in
    (
      [],
      ws,
      u,
      rw (f, q) refl,
      record {
        ring = ap (λ x. x ∷ places ws) b;
        state = q;
        last_pdu = m;
        named = ap (λ (x : Place). x.0) b ∙ n;
        span_named = ap span b ∙ s;
      },
    )
lap-found (w ∷ ws) p events r l i (further n same h) =
    let (v, e, a) = r w l.0 in
    let (u, t, f, q, g, m, s, o) = passes events p w v l.0 e a n in
    let (before, after, x, k, c) =
      lap-found ws p (handed_down (net_join p)) (λ x y. hop_predecessor-Asked p x y.ready i) l.1 i
        h in
    (
      t ∷ before,
      after,
      x,
      rw (f, q, g, o, same, k) refl,
      record {
        ring = rw (s, c.ring) refl;
        state = c.state;
        last_pdu = c.last_pdu;
        named = c.named;
        span_named = c.span_named;
      },
    )

abbrev pub total_span : List Place → ℕ
total_span [] = 0
total_span (a ∷ rest) = span a + total_span rest

none_wide : (rest : List Place) → All (λ a. span a ≤ 0) rest → total_span rest ≡ 0
none_wide [] h = refl
none_wide (a ∷ rest) h = omega (arith, h.0, none_wide rest h.1)

-- In a ring of nodes in Q6 with nothing buffered, in which everything can be reached, and which
-- listen at IPv4 addresses that differ from each other and from two zeros, a NET_JOIN of any
-- address and with zeros for the widest range, sent over UDP to any node, goes round the ring at
-- most twice if some range has more than one hash: it ends at a node in Q13 that keeps the message
-- with the address of its sender and its own as that of the widest range, and no node of the ring
-- has a wider range.
pub finds_widest :
    (ws : List World) (address port : ℕ) (joiner : SocketAddr)
    → All Listens ws
    → Distinct (places ws)
    → Elsewhere (v4 0 0) (places ws)
    → 1 ≤ total_span (places ws)
    → IsU32 address
    → IsU16 port
    → (before after : List World) × (u : World) × (p : NetJoinPdu) × (seek
          (net_join (NetJoin.new address port 0 0 0))
          joiner
          ws
        ≡ ok (found before u after))
      × (places (before ++ u ∷ after) ≡ places ws)
      × (u.node.state ≡ q13)
      × (u.node.last_pdu ≡ some (net_join p))
      × (NetJoin.get_src_socket_addr p ≡ v4 address port)
      × (NetJoin.get_max_socket_addr p ≡ u.node.listen_socket)
      × All (λ a. span a ≤ span (place u)) (places ws)
unfolding NetJoin.get_max_socket_addr NetJoin.get_src_socket_addr NetJoin.new
finds_widest ws address port joiner l d z wide ia ip =
    let p = NetJoin.new address port 0 0 0 in
    let wire : IsWire (net_join p) = record {
      tag = refl;
      src_address = ia;
      src_port = ip;
      max_span = omega arith;
      max_address = omega arith;
      max_port = omega arith;
    } in
    let q = survey (places ws) p in
    let (ts, e, ls, same, wire') =
      lap-passed ws p (arrives (net_join p) joiner) (λ x y. hop_udp-Asked p x joiner y.ready wire) l
        wire (Distinct-Passes (places ws) p z d) in
    let s = survey-Surveyed (places ws) p d in
    let stop : Stops (places ws) q = elim s.chosen [
      | inl k ↦ absurd (
          omega (
            arith,
            none_wide (places ws) (
                subst (λ m. All (λ a. span a ≤ m) (places ws))
                  (ap (λ (m : NetJoinPdu). m.max_span) k) s.widest),
          ))
      | inr st ↦ st
    ] in
    let (before, after, u, f, c) =
      lap-found ts q (handed_down (net_join q)) (λ x y. hop_predecessor-Asked q x y.ready wire') ls
        wire' (subst (λ bs. Stops bs q) (sym same) stop) in
    (
      before,
      after,
      u,
      q,
      rw (e, f) refl,
      c.ring ∙ same,
      c.state,
      c.last_pdu,
      survey-src (places ws) p,
      sym c.named,
      subst (λ m. All (λ a. span a ≤ m) (places ws)) (sym c.span_named) s.widest,
    )
