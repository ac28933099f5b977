-- ===== src/Dht/Rounds.antt =====
-- One round of `run` at a node that is ready, as what `handle_events` does.
use distributed_hash_table.Prelude.{
  ℕ, ◌≡◌, refl, ap, ◌∙◌, List, [], ◌∷◌, ◌++◌, true, false, some, ok, ltb, Bool-cases, if◌then◌else◌,
  inl, inr, Outcome, ◌>>=◌,
}
use distributed_hash_table.Pdu.SocketAddr.{SocketAddr, addr_eq, addr_eq_iff}
use distributed_hash_table.Pdu.NetAlive
use distributed_hash_table.Pdu.Message.{Pdu, net_alive, val_lookup_response}
use distributed_hash_table.Socket.UdpWrapper
use distributed_hash_table.Socket.TcpWrapper
use distributed_hash_table.Node.Types.{
  World, Stream, Event, Output, udp_sent, tcp_sent, shut_down, connected, accepted, q6,
}
use distributed_hash_table.Node.Exec.{opened}
use distributed_hash_table.Node.Util.{elapsed_secs, send_alive}
use distributed_hash_table.Node.Run.{handle_events, poll, poll_from, step_q6, step}
use distributed_hash_table.Node.Start.{step_at}

-- What a node between two messages looks like.
pub record IsReady (w : World) : Type 0 where
  pub state : w.node.state ≡ q6
  pub should_close : w.node.should_close ≡ false
  pub udp_wrapper : w.node.udp_wrapper ≡ UdpWrapper.new
  pub predecessor_wrapper : w.node.predecessor_wrapper ≡ TcpWrapper.new
  pub reachable : (a : SocketAddr) → w.reachable a ≡ true
  pub next : Stream
  pub successor : w.node.successor ≡ some next
  pub previous : Stream
  pub predecessor : w.node.predecessor ≡ some previous

-- The node after `send_alive`, if the tracker can be reached.
abbrev pub alive : World → World
alive w =
    if ltb 10 (elapsed_secs w.now w.node.last_alive)
    then (record w {
      node = record (w.node) { last_alive = w.now };
      sent = w.sent ++ udp_sent w.node.tracker_addr (net_alive NetAlive.new) ∷ [];
    })
    else w

pub send_alive-alive :
    (w : World) → ((a : SocketAddr) → w.reachable a ≡ true) → send_alive w ≡ ok (tt, alive w)
unfolding send_alive opened
send_alive-alive w reach = elim (Bool-cases (ltb 10 (elapsed_secs w.now w.node.last_alive))) [
  | inl h ↦ rw (h, reach w.node.tracker_addr) refl
  | inr h ↦ rw h refl
]

-- A round in which the poll reports `events`; `sent` is then what this round sent.
abbrev pub hop : List Event → World → Outcome World
hop events w = step (record w { polls = events ∷ []; sent = [] }) >>= λ r. ok r.1

-- A round of a state in which nothing is polled.
abbrev pub advance : World → Outcome World
advance w = step w >>= λ r. ok r.1

abbrev pub fresh : World → World
fresh w = record w { polls = []; sent = [] }

-- The messages that went out on a stream.
abbrev pub messages_to : Stream → List Output → List Pdu
messages_to to [] = []
messages_to to (tcp_sent s p ∷ os) =
    let later = messages_to to os in if addr_eq s.peer_addr to.peer_addr then p ∷ later else later
messages_to to (udp_sent a p ∷ os) = messages_to to os
messages_to to (shut_down s ∷ os) = messages_to to os
messages_to to (connected a ∷ os) = messages_to to os
messages_to to (accepted s ∷ os) = messages_to to os

pub messages_to-sent :
    (to : Stream) (p : Pdu) (os : List Output)
    → messages_to to (tcp_sent to p ∷ os) ≡ p ∷ messages_to to os
messages_to-sent to p os = rw ((addr_eq_iff to.peer_addr to.peer_addr).1 refl) refl

-- What clients are sent; the messages to the tracker are left out.
abbrev pub replies : List Output → List (SocketAddr × Pdu)
replies [] = []
replies (udp_sent a (val_lookup_response p) ∷ os) = (a, val_lookup_response p) ∷ replies os
replies (_ ∷ os) = replies os

-- The poll of a round in which the poll reports `events`.
poll-alive :
    (events : List Event) (w : World)
    → poll (alive (record w { polls = events ∷ []; sent = [] })) ≡ ok (events, alive (fresh w))
unfolding poll poll_from
poll-alive events w = elim (Bool-cases (ltb 10 (elapsed_secs w.now w.node.last_alive))) [
  | inl due ↦ rw due refl
  | inr due ↦ rw due refl
]

pub hop_at :
    (events : List Event) (w v : World)
    → w.node.state ≡ q6
    → ((a : SocketAddr) → w.reachable a ≡ true)
    → handle_events events (alive (fresh w)) ≡ ok (tt, v)
    → v.node.should_close ≡ false
    → hop events w ≡ ok v
unfolding step_q6 opened
hop_at events w v q reach h c =
    let begun : World = record w { polls = events ∷ []; sent = [] } in
    rw (step_at q6 begun q, send_alive-alive begun reach, poll-alive events w, h, c) refl

-- `w` after it reported to the tracker, or not.
abbrev pub begun : World → ℕ → List Output → World
begun w time beats = record w {
  node = record (w.node) { last_alive = time };
  polls = [];
  sent = beats;
}

-- Reports to the tracker: they are neither messages on a stream nor answers.
pub record AreBeats (beats : List Output) : Type 0 where
  pub no_messages :
      (to : Stream) (os : List Output) → messages_to to (beats ++ os) ≡ messages_to to os
  pub no_replies : (os : List Output) → replies (beats ++ os) ≡ replies os

alive-begun :
    (w : World)
    → (time : ℕ) × (beats : List Output) × AreBeats beats × (alive (fresh w) ≡ begun w time beats)
alive-begun w = elim (Bool-cases (ltb 10 (elapsed_secs w.now w.node.last_alive))) [
  | inl due ↦ (
    w.now,
    udp_sent w.node.tracker_addr (net_alive NetAlive.new) ∷ [],
    record { no_messages = λ to os. refl; no_replies = λ os. refl },
    rw due refl,
  )
  | inr due ↦ (
    w.node.last_alive,
    [],
    record { no_messages = λ to os. refl; no_replies = λ os. refl },
    rw due refl,
  )
]

-- A round of a ready node is the handling of its events, behind the report to the tracker.
pub hop-begun :
    (events : List Event) (w : World)
    → IsReady w
    → (time : ℕ) × (beats : List Output) × AreBeats beats
      × ((v : World)
          → handle_events events (begun w time beats) ≡ ok (tt, v)
          → v.node.should_close ≡ false
          → hop events w ≡ ok v)
hop-begun events w h =
    let (time, beats, a, e) = alive-begun w in
    (
      time,
      beats,
      a,
      λ v k c. hop_at events w v h.state h.reachable (ap (handle_events events) e ∙ k) c,
    )

pub messages_to-append :
    (to : Stream) (xs ys : List Output)
    → messages_to to (xs ++ ys) ≡ messages_to to xs ++ messages_to to ys
messages_to-append to [] ys = refl
messages_to-append to (tcp_sent s p ∷ xs) ys =
    elim (Bool-cases (addr_eq s.peer_addr to.peer_addr)) [
      | inl e ↦ rw (e, messages_to-append to xs ys) refl
      | inr e ↦ rw (e, messages_to-append to xs ys) refl
    ]
messages_to-append to (udp_sent a p ∷ xs) ys = messages_to-append to xs ys
messages_to-append to (shut_down s ∷ xs) ys = messages_to-append to xs ys
messages_to-append to (connected a ∷ xs) ys = messages_to-append to xs ys
messages_to-append to (accepted s ∷ xs) ys = messages_to-append to xs ys
