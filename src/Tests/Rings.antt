-- ===== src/Tests/Rings.antt =====
-- Nodes that leave, and the ring.
use distributed_hash_table.Prelude.{
  panic, ◌≡◌, ◌++◌, refl, [], ◌∷◌, map, none, some, true, false, ok, arith, All, ℕ, inr, ◌||◌,
}
use distributed_hash_table.Pdu.NetCloseConnection
use distributed_hash_table.Pdu.NetLeaving
use distributed_hash_table.Pdu.NetNewRangeResponse
use distributed_hash_table.Pdu.Message.{
  Pdu, net_close_connection, net_leaving, net_new_range, net_new_range_response, val_remove, IsWire,
}
use distributed_hash_table.Node.Entry.{hash, hash_ssn}
use distributed_hash_table.Node.Types.{
  World, udp_ready, q6, q10, q11, q15, q18, tcp_sent, shut_down,
}
use distributed_hash_table.Node.Exec.{opened}
use distributed_hash_table.Node.Util.{halves, covers}
use distributed_hash_table.Node.States.{step_q10, step_q11, step_q15, step_q18, leave_ring}
use distributed_hash_table.Node.Run.{
  step, on_signal, round, run, poll, poll_from, handle_events, handle_event, lift, serve_udp,
  step_q6,
}
use distributed_hash_table.Node.Util.{send_alive}
use distributed_hash_table.Node.HandlePdu.{handle_pdu}
use distributed_hash_table.Node.Values.{handle_val_insert}
use distributed_hash_table.Node.States.{step_q9, take_last_pdu, value_operation}
use distributed_hash_table.Socket.UdpWrapper
use distributed_hash_table.Socket.UdpWrapper.{datagram}
use distributed_hash_table.Socket.Buffer.{drain_all, drain}
use distributed_hash_table.Socket.Parse.{parse_pdu, parse_val_pdu}
use distributed_hash_table.Pdu.ValInsert
use distributed_hash_table.Pdu.Bytes.{read_be_u8, split_at}
use distributed_hash_table.Node.Transfer.{handed}
use distributed_hash_table.Node.Paths.{◌⟶*◌, is_asked, run_ends}
use distributed_hash_table.Node.Stopping.{HasLeft}
use distributed_hash_table.Node.Leave.{leaves_nothing, leaving_panics}
use distributed_hash_table.Node.Joining.{handed_down}
use distributed_hash_table.Socket.Parse.RoundTrip.{size-length}
use distributed_hash_table.Pdu.ValRemove
use distributed_hash_table.Node.Ring.{owners, alone, later, joins, one_owner, offer, takes_over}
use distributed_hash_table.Tests.Samples.{
  number, name, email, client_addr, entry, other_entry, next, previous, node_in, world_of,
}

-- A lone node that stores an entry, and is asked to close in the next round.
abbrev lone : World
lone =
    record (world_of
      (record (node_in q6 (0, 255) none []) { successor = none; predecessor = none })) {
        polls =
            (udp_ready
                (datagram (ValInsert.to_bytes (ValInsert.new number name email)) client_addr ∷ [])
              ∷ [])
            ∷ [];
      }

abbrev closed : World
closed = record lone {
  node = record (lone.node) {
    state = q10;
    values = entry ∷ [];
    should_close = true;
    running = false;
  };
  polls = [];
}

lone_runs : run (false ∷ true ∷ false ∷ false ∷ []) lone ≡ ok (tt, closed)
unfolding run round on_signal step step_q6 send_alive poll poll_from handle_events handle_event lift
    serve_udp handle_pdu step_q9 take_last_pdu value_operation handle_val_insert UdpWrapper.try_read
    drain_all drain parse_pdu parse_val_pdu ValInsert.try_parse ValInsert.to_bytes ValInsert.new
    read_be_u8 split_at hash_ssn step_q10 leave_ring opened
lone_runs = refl

run_ends_example :
    (q6 ⟶* q10)
    × (closed.node.running ≡ false)
    × HasLeft closed.node
    × (is_asked (false ∷ true ∷ false ∷ false ∷ []) lone.node ≡ true)
run_ends_example = run_ends (false ∷ true ∷ false ∷ false ∷ []) lone (tt, closed) refl lone_runs

abbrev two : World
two = world_of (node_in q18 (20, 30) none (entry ∷ other_entry ∷ []))

two_owned : All (λ e. covers (20, 30) (hash e) ≡ true) (entry ∷ other_entry ∷ [])
unfolding hash_ssn
two_owned = (refl, (refl, tt))

leaves_nothing_example :
    step_q18 two
    ≡ ok (
      tt,
      record two {
        node = record (two.node) { values = []; running = false };
        sent =
            map (handed previous) (entry ∷ other_entry ∷ [])
            ++ tcp_sent next (net_close_connection NetCloseConnection.new)
              ∷ shut_down next
              ∷ tcp_sent previous (net_leaving (NetLeaving.new 2 8001))
              ∷ shut_down previous
              ∷ [];
      },
    )
leaves_nothing_example = leaves_nothing two next previous 2 8001 two_owned refl refl refl refl refl

-- The ring after the first node that joined.
one_owner_example : owners ((halves (0, 255)).0 ∷ (halves (0, 255)).1 ∷ []) 200 ≡ 1
one_owner_example =
    one_owner ((halves (0, 255)).0 ∷ (halves (0, 255)).1 ∷ []) 200
      (later alone (joins [] (0, 255) [] (omega arith))) (omega arith)

-- The last node of a ring, when the first one leaves.
abbrev offered_below : World
offered_below = world_of (node_in q15 (128, 255) (some (net_new_range (offer (0, 127)))) [])

takes_over_example :
    (v : World) × (step_q15 offered_below ≡ ok (tt, v))
    × ((h : ℕ) → covers v.node.hash_range h ≡ (covers (128, 255) h || covers (0, 127) h))
    × (v.sent ≡ tcp_sent previous (net_new_range_response NetNewRangeResponse.new) ∷ [])
    × (v.node ≡ record (offered_below.node) {
      hash_range = v.node.hash_range;
      last_pdu = none;
      state = q6;
    })
takes_over_example =
    takes_over offered_below (0, 127) next previous refl refl refl refl refl
      (omega arith, omega arith) (omega arith, omega arith) (inr refl)

-- A node that holds 255 alone gives all hashes away when it splits.
last_splits : halves (255, 255) ≡ ((255, 255), (0, 255))
unfolding halves
last_splits = refl

-- A value message of the predecessor that crosses with the offer of the range.
abbrev crossing : Pdu
crossing = val_remove (ValRemove.new number)

crossing-IsWire : IsWire crossing
unfolding ValRemove.new
crossing-IsWire = record { tag = refl; ssn_size = refl; ssn_latin = ground arith }

abbrev interrupted : World
interrupted = record (world_of (node_in q11 (20, 30) none [])) { polls = handed_down crossing ∷ [] }

leaving_panics_example : step_q11 interrupted ≡ panic
leaving_panics_example =
    leaving_panics interrupted next previous crossing [] refl refl refl refl refl refl
      crossing-IsWire (omega (arith, size-length crossing crossing-IsWire))
      (omega (arith, size-length crossing crossing-IsWire)) refl
