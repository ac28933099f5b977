-- ===== src/Tests/Trackers.antt =====
-- A sample tracker.
use distributed_hash_table.Prelude.{
  ℕ, ◌-◌, ◌*◌, ◌/◌, ◌^◌, ◌<◌, ◌≡◌, refl, List, [], ◌∷◌, some, Bool, true, false, ok, arith,
}
use distributed_hash_table.Pdu.SocketAddr.{SocketAddr, addr_eq, addr_eq_iff}
use distributed_hash_table.Pdu.NetAlive
use distributed_hash_table.Pdu.NetGetNode
use distributed_hash_table.Pdu.NetGetNodeResponse
use distributed_hash_table.Pdu.Message.{net_alive, net_get_node, net_get_node_response, to_bytes}
use distributed_hash_table.Socket.UdpWrapper
use distributed_hash_table.Socket.UdpWrapper.{datagram}
use distributed_hash_table.Tracker.{Known, Tracker, handle, events, round}
use distributed_hash_table.Tracker.Laws.{heard, Distinct, kept}
use distributed_hash_table.Tracker.Rounds.{
  GivesMember, IsAnswer, get_node_answers, round_keeps_fresh, alive_is_heard,
}
use distributed_hash_table.Tests.Samples.{next_addr, previous_addr, client_addr}

abbrev always : SocketAddr → Bool
always _ = true

-- A map whose iterator begins with the key that is listed first.
abbrev head : Known → List Known → Known
head k ks = k

head_gives : GivesMember head
head_gives k ks h = ground (arith, (addr_eq_iff k.address k.address).1 refl)

abbrev known : List Known
known =
    record { address = next_addr; last_alive = 10 ^ 9 }
    ∷ record { address = previous_addr; last_alive = 40 * 10 ^ 9 }
    ∷ []

abbrev tracker : Tracker
tracker = record { nodes = known; wrapper = UdpWrapper.new; sent = [] }

get_node_answers_example :
    (address : ℕ) × (port : ℕ) × (handle always head 5
        (net_get_node NetGetNode.new, client_addr)
        tracker
      ≡ ok (record tracker {
        sent = (client_addr, net_get_node_response (NetGetNodeResponse.new address port)) ∷ [];
      }))
    × IsAnswer known address port
get_node_answers_example =
    get_node_answers always head 5 NetGetNode.new client_addr tracker head_gives
      ((2, 8001, refl), ((3, 8002, refl), tt)) refl

-- At 45 seconds the first of the two nodes is dropped.
abbrev later : Tracker
later = record tracker { nodes = record { address = previous_addr; last_alive = 40 * 10 ^ 9 } ∷ [] }

first_dropped : round always head 30 (45 * 10 ^ 9) [] tracker ≡ ok later
unfolding round events
first_dropped = refl

round_keeps_fresh_example :
    Distinct later.nodes
    × ((a : SocketAddr) (alive : ℕ)
        → heard a later.nodes ≡ some alive
        → (45 * 10 ^ 9 - alive) / 10 ^ 9 < 30)
round_keeps_fresh_example =
    round_keeps_fresh always head 30 (45 * 10 ^ 9) [] tracker later (refl, (refl, tt)) first_dropped

alive_is_heard_example :
    (r : Tracker) × (round always head 30
        (45 * 10 ^ 9)
        ((datagram (to_bytes (net_alive NetAlive.new)) next_addr ∷ []) ∷ [])
        tracker
      ≡ ok r)
    × (heard next_addr r.nodes ≡ some (45 * 10 ^ 9))
    × ((a : SocketAddr)
        → addr_eq next_addr a ≡ false
        → heard a r.nodes ≡ kept 30 (45 * 10 ^ 9) (heard a known))
    × (r.sent ≡ [])
    × (r.wrapper ≡ UdpWrapper.new)
alive_is_heard_example =
    alive_is_heard always head 30 (45 * 10 ^ 9) next_addr tracker (refl, (refl, tt)) refl
      (omega arith)
