-- ===== src/Tracker/Rounds.antt =====
-- What a round of the tracker answers and remembers.
use distributed_hash_table.Prelude.{
  ℕ, ◌-◌, ◌/◌, ◌^◌, ◌<◌, ◌≡◌, ◌≢◌, ◌⊎◌, inl, inr, refl, sym, ap, ◌∙◌, List, [], ◌∷◌, ◌++◌, Option,
  none, some, Bool, true, false, ok, >>=-eq-ok, ok_inj, arith, keep_if, All, Bool-cases, append-nil,
}
use distributed_hash_table.Pdu.SocketAddr.{SocketAddr, v4, v6, addr_eq, addr_eq_iff}
use distributed_hash_table.Pdu.NetAlive
use distributed_hash_table.Pdu.NetGetNode.{NetGetNodePdu}
use distributed_hash_table.Pdu.NetGetNodeResponse
use distributed_hash_table.Pdu.Message.{
  Pdu, net_alive, net_get_node, net_get_node_response, stun_lookup, to_bytes,
}
use distributed_hash_table.Socket.Buffer.{Message}
use distributed_hash_table.Socket.UdpWrapper
use distributed_hash_table.Socket.UdpWrapper.{UdpWrapper, Receive, datagram}
use distributed_hash_table.Socket.UdpWrapper.TryRead.{IsBatch, try_read_batches}
use distributed_hash_table.Tracker.{
  Known, Tracker, touch, is_fresh, known_response, node_response, send, handle, serve, events,
  round,
}
use distributed_hash_table.Tracker.Laws.{
  heard, Distinct, kept, touch_lem, touch-Distinct, drop_lem, drop-Distinct,
}
use mathlib.Core.Path.{subst}

abbrev pub IsV4 : Known → Type 0
IsV4 k = (ip : ℕ) × (port : ℕ) × (k.address ≡ v4 ip port)

-- The iterator of a map gives one of its keys.
abbrev pub GivesMember : (Known → List Known → Known) → Type 0
GivesMember first = (k : Known) (ks : List Known) → heard (first k ks).address (k ∷ ks) ≢ none

-- The answer to a NET_GET_NODE: nothing, or the address of a node that is known.
abbrev pub IsAnswer : List Known → ℕ → ℕ → Type 0
IsAnswer ks address port =
    ((ks ≡ []) × (address ≡ 0) × (port ≡ 0)) ⊎ (heard (v4 address port) ks ≢ none)

heard_v4 :
    (ks : List Known) (a : SocketAddr)
    → All IsV4 ks
    → heard a ks ≢ none
    → (ip : ℕ) × (port : ℕ) × (a ≡ v4 ip port)
heard_v4 [] a v h = absurd (h refl)
heard_v4 (k ∷ ks) a v h = elim (Bool-cases (addr_eq k.address a)) [
  | inl e ↦ (v.0.0, v.0.1, sym ((addr_eq_iff k.address a).0 e) ∙ v.0.2)
  | inr e ↦ heard_v4 ks a v.1 (λ n. h (rw e n))
]

kept_bound :
    (timeout now : ℕ) (o : Option ℕ) (alive : ℕ)
    → kept timeout now o ≡ some alive
    → (now - alive) / 10 ^ 9 < timeout
kept_bound timeout now none alive e = cc
kept_bound timeout now (some t) alive e = ground arith

one-IsBatch : (sender : SocketAddr) → All IsBatch ((net_alive NetAlive.new ∷ [], sender) ∷ [])
unfolding NetAlive.new NetAlive.to_bytes to_bytes
one-IsBatch sender = (((record { tag = refl }, tt), ground arith), tt)

read_alive :
    (sender : SocketAddr) (w : UdpWrapper)
    → w ≡ UdpWrapper.new
    → UdpWrapper.try_read w (datagram (to_bytes (net_alive NetAlive.new)) sender ∷ [])
      ≡ ok (record { incoming_queue = (net_alive NetAlive.new, sender) ∷ []; buffer = [] })
read_alive sender w e =
    let read =
      try_read_batches [] ((net_alive NetAlive.new ∷ [], sender) ∷ []) (one-IsBatch sender) in
    subst
      (λ (v : UdpWrapper).
        UdpWrapper.try_read v (datagram (to_bytes (net_alive NetAlive.new)) sender ∷ [])
        ≡ ok (record { incoming_queue = (net_alive NetAlive.new, sender) ∷ []; buffer = [] }))
      (sym e) (rw append-nil at read)

fresh_now : (timeout now : ℕ) → 0 < timeout → kept timeout now (some now) ≡ some now
fresh_now timeout now p = ground arith

module _ (reachable : SocketAddr → Bool) (first : Known → List Known → Known) where
  response_known :
      (ks : List Known)
      → GivesMember first
      → All IsV4 ks
      → (address : ℕ) × (port : ℕ) × (node_response reachable first ks
          ≡ ok (net_get_node_response (NetGetNodeResponse.new address port)))
        × IsAnswer ks address port
  response_known [] g v = (0, 0, refl, inl (refl, refl, refl))
  response_known (k ∷ ks) g v =
      known_v4 (first k ks).address (heard_v4 (k ∷ ks) (first k ks).address v (g k ks)) (g k ks)
        refl
    where
      known_v4 :
          (a : SocketAddr)
          → (ip : ℕ) × (port : ℕ) × (a ≡ v4 ip port)
          → heard a (k ∷ ks) ≢ none
          → (first k ks).address ≡ a
          → (address : ℕ) × (port : ℕ) × (node_response reachable first (k ∷ ks)
              ≡ ok (net_get_node_response (NetGetNodeResponse.new address port)))
            × IsAnswer (k ∷ ks) address port
      known_v4 a (ip, port, e) h c =
          (ip, port, ap known_response (c ∙ e), inr (subst (λ b. heard b (k ∷ ks) ≢ none) e h))

  -- If the iterator of the map gives one of its keys, all addresses in the map are IPv4 and the
  -- sender can be reached, a NET_GET_NODE is answered with the address and port of a node in the
  -- map, or, if the map is empty, with two zeros; the map stays as it was.
  pub get_node_answers :
      (now : ℕ) (p : NetGetNodePdu) (sender : SocketAddr) (t : Tracker)
      → GivesMember first
      → All IsV4 t.nodes
      → reachable sender ≡ true
      → (address : ℕ) × (port : ℕ) × (handle reachable first now (net_get_node p, sender) t
          ≡ ok (record t {
            sent =
                t.sent
                ++ (sender, net_get_node_response (NetGetNodeResponse.new address port)) ∷ [];
          }))
        × IsAnswer t.nodes address port
  unfolding handle
  get_node_answers now p sender t g v r =
      let a = response_known t.nodes g v in (a.0, a.1, rw (a.2) (rw r), a.3)

  send_nodes :
      (pdu : Pdu) (to : SocketAddr) (t r : Tracker)
      → send reachable first pdu to t ≡ ok r
      → r.nodes ≡ t.nodes
  send_nodes pdu to t r h = ground arith

  handle-Distinct :
      (now : ℕ) (m : Message) (t r : Tracker)
      → Distinct t.nodes
      → handle reachable first now m t ≡ ok r
      → Distinct r.nodes
  unfolding handle
  handle-Distinct now (stun_lookup p, v4 ip port) t r d h =
      subst Distinct (sym (send_nodes _ _ t r h)) d
  handle-Distinct now (stun_lookup p, v6 ip port) t r d h = cc
  handle-Distinct now (net_alive p, sender) t r d h =
      subst (λ (u : Tracker). Distinct u.nodes) (ok_inj _ r h) (touch-Distinct sender now t.nodes d)
  handle-Distinct now (net_get_node p, sender) t r d h =
      let inv = >>=-eq-ok (node_response reachable first t.nodes) _ h in
      subst Distinct (sym (send_nodes _ _ t r inv.2)) d
  handle-Distinct now _ t r d h = subst (λ (u : Tracker). Distinct u.nodes) (ok_inj t r h) d

  serve-Distinct :
      (now : ℕ) (ms : List Message) (t r : Tracker)
      → Distinct t.nodes
      → serve reachable first now ms t ≡ ok r
      → Distinct r.nodes
  unfolding serve
  serve-Distinct now [] t r d h = subst (λ (u : Tracker). Distinct u.nodes) (ok_inj t r h) d
  serve-Distinct now (m ∷ ms) t r d h =
      let inv = >>=-eq-ok (handle reachable first now m _) _ h in
      serve-Distinct now ms inv.0 r (handle-Distinct now m _ inv.0 d inv.1) inv.2

  events-Distinct :
      (now : ℕ) (polled : List (List Receive)) (t r : Tracker)
      → Distinct t.nodes
      → events reachable first now polled t ≡ ok r
      → Distinct r.nodes
  unfolding events
  events-Distinct now [] t r d h = subst (λ (u : Tracker). Distinct u.nodes) (ok_inj t r h) d
  events-Distinct now (answers ∷ rest) t r d h =
      let read = >>=-eq-ok (UdpWrapper.try_read t.wrapper answers) _ h in
      let served = >>=-eq-ok (serve reachable first now _ _) _ read.2 in
      events-Distinct now rest served.0 r (serve-Distinct now _ _ served.0 d served.1) served.2

  -- After a round of the tracker that returns, whatever messages came, no address is in its map
  -- twice, if none was before, and each is there with a time less than the timeout ago.
  pub round_keeps_fresh :
      (timeout now : ℕ) (polled : List (List Receive)) (t r : Tracker)
      → Distinct t.nodes
      → round reachable first timeout now polled t ≡ ok r
      → Distinct r.nodes
        × ((a : SocketAddr) (alive : ℕ)
            → heard a r.nodes ≡ some alive
            → (now - alive) / 10 ^ 9 < timeout)
  unfolding round
  round_keeps_fresh timeout now polled t r d h =
      let after = >>=-eq-ok (events reachable first now polled t) _ h in
      let distinct = events-Distinct now polled t after.0 d after.1 in
      subst
        (λ (u : Tracker).
          Distinct u.nodes
          × ((a : SocketAddr) (alive : ℕ)
              → heard a u.nodes ≡ some alive
              → (now - alive) / 10 ^ 9 < timeout))
        (ok_inj _ r after.2)
        (
          drop-Distinct timeout now (after.0).nodes distinct,
          λ a alive e.
              kept_bound timeout now (heard a (after.0).nodes) alive
                (sym (drop_lem timeout now a (after.0).nodes distinct) ∙ e),
        )

  -- With nothing buffered, a timeout above zero and no address twice in the map, a round that reads
  -- one datagram with a NET_ALIVE returns, remembers its sender at the present time and every other
  -- address as before unless its time has run out, sends nothing and leaves nothing buffered.
  pub alive_is_heard :
      (timeout now : ℕ) (sender : SocketAddr) (t : Tracker)
      → Distinct t.nodes
      → t.wrapper ≡ UdpWrapper.new
      → 0 < timeout
      → (r : Tracker) × (round reachable first timeout now
            ((datagram (to_bytes (net_alive NetAlive.new)) sender ∷ []) ∷ [])
            t
          ≡ ok r)
        × (heard sender r.nodes ≡ some now)
        × ((a : SocketAddr)
            → addr_eq sender a ≡ false
            → heard a r.nodes ≡ kept timeout now (heard a t.nodes))
        × (r.sent ≡ t.sent)
        × (r.wrapper ≡ UdpWrapper.new)
  unfolding round events serve handle
  alive_is_heard timeout now sender t d e p =
      let touched = touch sender now t.nodes in
      let distinct = touch-Distinct sender now t.nodes d in
      (
        record t { nodes = keep_if (is_fresh timeout now) touched; wrapper = UdpWrapper.new },
        rw (read_alive sender t.wrapper e),
        rw
            (
              drop_lem timeout now sender touched distinct,
              touch_lem sender sender now t.nodes,
              (addr_eq_iff sender sender).1 refl,
            )
            (fresh_now timeout now p),
        (λ a n. rw (drop_lem timeout now a touched distinct, touch_lem a sender now t.nodes, n)),
        refl,
        refl,
      )
