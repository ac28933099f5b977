-- ===== src/Node/Run.antt =====
-- `q6`, the state in which a node serves its sockets, the loop `run`, and the start.
use distributed_hash_table.Prelude.{
  ℕ, ◌-◌, ◌*◌, ◌^◌, List, [], ◌∷◌, Option, none, some, Bool, true, false, ltb, if◌then◌else◌,
  Outcome, ok, panic, stuck,
}
use distributed_hash_table.Prelude.{◌>>=◌ as and_then}
use distributed_hash_table.Pdu.SocketAddr.{SocketAddr}
use distributed_hash_table.Socket.Buffer.{Message}
use distributed_hash_table.Socket.UdpWrapper
use distributed_hash_table.Socket.UdpWrapper.{UdpWrapper}
use distributed_hash_table.Socket.TcpWrapper
use distributed_hash_table.Socket.TcpWrapper.{TcpWrapper, Read}
use distributed_hash_table.Node.Types.{
  Node, World, State, udp, predecessor, successor, Stream, Event, udp_ready, successor_ready,
  predecessor_ready, q1, q2, q3, q4, q5, q6, q7, q8, q9, q10, q11, q12, q13, q14, q15, q16, q17,
  q18,
}
use distributed_hash_table.Node.Exec.{Exec, pure, ◌>>=◌, ◌>>◌, this, modify, become}
use distributed_hash_table.Node.Util.{send_alive}
use distributed_hash_table.Node.States.{
  step_q1, step_q2, step_q3, step_q4, step_q5, step_q7, step_q8, step_q9, step_q10, step_q11,
  step_q12, step_q13, step_q14, step_q15, step_q16, step_q17, step_q18,
}
use distributed_hash_table.Node.HandlePdu.{handle_pdu}

-- `while let Some((pdu, sender)) = self.udp_wrapper.next_pdu()`: each round takes the first message
-- off the queue, which `handle_pdu` leaves alone. So for the other two sockets.
unfoldable pub serve_udp : List Message → Exec (Unit {0})
serve_udp [] = pure tt
serve_udp ((pdu, sender) ∷ rest) = do
  modify λ n. record n { udp_wrapper = record (n.udp_wrapper) { incoming_queue = rest } }
  handle_pdu pdu (udp sender)
  serve_udp rest

unfoldable pub serve_successor : List Message → Exec (Unit {0})
serve_successor [] = pure tt
serve_successor ((pdu, sender) ∷ rest) = do
  modify
      λ n. record n { successor_wrapper = record (n.successor_wrapper) { incoming_queue = rest } }
  handle_pdu pdu (successor sender)
  serve_successor rest

unfoldable pub serve_predecessor : List Message → Exec (Unit {0})
serve_predecessor [] = pure tt
serve_predecessor ((pdu, sender) ∷ rest) = do
  modify λ n. record n {
    predecessor_wrapper = record (n.predecessor_wrapper) { incoming_queue = rest };
  }
  handle_pdu pdu (predecessor sender)
  serve_predecessor rest

-- `lift m f` keeps in the node what a method of a wrapper gives.
unfoldable pub lift : {A : Type 0} → Outcome A → Exec A
lift m w = and_then m (λ a. ok (a, w))

-- A successor that closed its stream is dropped before its last messages are handled; a predecessor
-- that closed its stream stays.
unfoldable pub read_successor : List Read → Option Stream → Exec (Unit {0})
read_successor answers none = pure tt
read_successor answers (some s) = do
  n ← this
  (w, closed) ← lift (TcpWrapper.try_read n.successor_wrapper s.peer_addr answers)
  modify λ n. record n { successor_wrapper = w; successor = if closed then none else n.successor }
  serve_successor w.incoming_queue

unfoldable pub read_predecessor : List Read → Option Stream → Exec (Unit {0})
read_predecessor answers none = pure tt
read_predecessor answers (some s) = do
  n ← this
  (w, closed) ← lift (TcpWrapper.try_read n.predecessor_wrapper s.peer_addr answers)
  modify λ n. record n { predecessor_wrapper = w }
  serve_predecessor w.incoming_queue

unfoldable pub handle_event : Event → Exec (Unit {0})
handle_event (udp_ready answers) = do
  n ← this
  w ← lift (UdpWrapper.try_read n.udp_wrapper answers)
  modify λ n. record n { udp_wrapper = w }
  serve_udp w.incoming_queue
handle_event (successor_ready answers) = do n ← this; read_successor answers n.successor
handle_event (predecessor_ready answers) = do n ← this; read_predecessor answers n.predecessor

unfoldable pub handle_events : List Event → Exec (Unit {0})
handle_events [] = pure tt
handle_events (e ∷ events) = do handle_event e; handle_events events

-- The poll has a timeout: with nothing to report it ends with no event.
unfoldable pub poll_from : List (List Event) → World → Outcome (List Event × World)
poll_from [] w = ok ([], w)
poll_from (events ∷ rest) w = ok (events, record w { polls = rest })

unfoldable pub poll : Exec (List Event)
poll w = poll_from w.polls w

unfoldable pub step_q6 : Exec (Unit {0})
step_q6 = do
  send_alive
  events ← poll
  handle_events events
  n ← this
  if n.should_close then become q10 else pure tt

abbrev pub step_in : State → Exec (Unit {0})
step_in q1 = step_q1
step_in q2 = step_q2
step_in q3 = step_q3
step_in q4 = step_q4
step_in q5 = step_q5
step_in q6 = step_q6
step_in q7 = step_q7
step_in q8 = step_q8
step_in q9 = step_q9
step_in q10 = step_q10
step_in q11 = step_q11
step_in q12 = step_q12
step_in q13 = step_q13
step_in q14 = step_q14
step_in q15 = step_q15
step_in q16 = step_q16
step_in q17 = step_q17
step_in q18 = step_q18

-- One round of `run`.
unfoldable pub step : Exec (Unit {0})
step w = step_in w.node.state w

-- The signal handler that `new` sets.
unfoldable pub on_signal : Exec (Unit {0})
on_signal = modify λ n. record n { should_close = true }

-- One round, and whether the signal comes since `should_close` was last read. Nothing reads it but the
-- end of `q6`, so that the moment of the signal within the round does not matter.
unfoldable pub round : Bool → Exec (Unit {0})
round false = step
round true = do on_signal; step

-- `run`, for as many rounds as there are `signals`, as a node runs until it leaves.
unfoldable pub run : List Bool → Exec (Unit {0})
run [] w = stuck
run (signal ∷ signals) w = elim w.node.running [
  | false ↦ ok (tt, w)
  | true ↦ and_then (round signal w) (λ r. run signals r.1)
]

-- `Instant::now() - Duration::from_secs(100)` panics where the clock does not reach back so far. The
-- sockets are bound to `listen_socket`.
unfoldable pub new : ℕ → SocketAddr → SocketAddr → Outcome Node
new now listen_socket tracker_addr =
    if ltb now (100 * 10 ^ 9)
    then panic
    else ok (record {
      state = q1;
      own_address = none;
      values = [];
      hash_range = (0, 0);
      last_alive = now - 100 * 10 ^ 9;
      last_pdu = none;
      successor_listen = none;
      should_close = false;
      running = true;
      tracker_addr = tracker_addr;
      udp_wrapper = UdpWrapper.new;
      successor_wrapper = TcpWrapper.new;
      successor = none;
      predecessor_wrapper = TcpWrapper.new;
      predecessor = none;
      listen_socket = listen_socket;
    })
