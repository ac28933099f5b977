-- ===== src/Node/Serve.antt =====
-- `q6` keeps what each message that it handles keeps.
use distributed_hash_table.Prelude.{
  ℕ, List, [], ◌∷◌, Option, none, some, Bool, true, false, ◌≡◌, refl, if◌then◌else◌,
}
use distributed_hash_table.Pdu.Message.{Pdu}
use distributed_hash_table.Socket.Buffer.{Message}
use distributed_hash_table.Socket.UdpWrapper.{UdpWrapper}
use distributed_hash_table.Socket.TcpWrapper.{TcpWrapper, Read}
use distributed_hash_table.Node.Types.{
  Node, World, Source, udp, predecessor, successor, q10, Stream, Event, udp_ready, successor_ready,
  predecessor_ready,
}
use distributed_hash_table.Node.Exec.{this, ◌>>=◌, modify, become, pure}
use distributed_hash_table.Node.HandlePdu.{handle_pdu}
use distributed_hash_table.Node.Run.{
  serve_udp, serve_successor, serve_predecessor, read_successor, read_predecessor, handle_event,
  handle_events, step_q6,
}
use distributed_hash_table.Node.Hoare.{
  After, Keeps, OnNode, Keeps-bind, Keeps-pure, Keeps-this, Keeps-modify,
}
use distributed_hash_table.Node.Frame.{Keeps-send_alive, Keeps-lift, Keeps-poll}

-- The fields that serving the sockets writes, apart from what the messages do.
pub record Sockets (P : Node → Type 0) : Type 0 where
  pub alive : (n : Node) (t : ℕ) → P n → P (record n { last_alive = t })
  pub udp_queue : (n : Node) (u : UdpWrapper) → P n → P (record n { udp_wrapper = u })
  pub successor_queue : (n : Node) (t : TcpWrapper) → P n → P (record n { successor_wrapper = t })
  pub predecessor_queue :
      (n : Node) (t : TcpWrapper) → P n → P (record n { predecessor_wrapper = t })
  pub successor_gone : (n : Node) (s : Option Stream) → P n → P (record n { successor = s })

module _ (P : Node → Type 0) (c : Sockets P)
    (each : (p : Pdu) (s : Source) → Keeps (OnNode P) (handle_pdu p s)) where
  Keeps-serve_udp : (ms : List Message) → Keeps (OnNode P) (serve_udp ms)
  unfolding serve_udp
  Keeps-serve_udp [] = Keeps-pure _ _
  Keeps-serve_udp ((pdu, sender) ∷ rest) =
      Keeps-bind _ _ _ (Keeps-modify _ _ (λ w h. c.udp_queue w.node _ h))
        λ _. Keeps-bind _ _ _ (each pdu (udp sender)) λ _. Keeps-serve_udp rest

  Keeps-serve_successor : (ms : List Message) → Keeps (OnNode P) (serve_successor ms)
  unfolding serve_successor
  Keeps-serve_successor [] = Keeps-pure _ _
  Keeps-serve_successor ((pdu, sender) ∷ rest) =
      Keeps-bind _ _ _ (Keeps-modify _ _ (λ w h. c.successor_queue w.node _ h))
        λ _. Keeps-bind _ _ _ (each pdu (successor sender)) λ _. Keeps-serve_successor rest

  Keeps-serve_predecessor : (ms : List Message) → Keeps (OnNode P) (serve_predecessor ms)
  unfolding serve_predecessor
  Keeps-serve_predecessor [] = Keeps-pure _ _
  Keeps-serve_predecessor ((pdu, sender) ∷ rest) =
      Keeps-bind _ _ _ (Keeps-modify _ _ (λ w h. c.predecessor_queue w.node _ h))
        λ _. Keeps-bind _ _ _ (each pdu (predecessor sender)) λ _. Keeps-serve_predecessor rest

  Keeps-read_successor :
      (answers : List Read) (o : Option Stream) → Keeps (OnNode P) (read_successor answers o)
  unfolding read_successor
  Keeps-read_successor answers none = Keeps-pure _ _
  Keeps-read_successor answers (some s) = Keeps-bind _ _ _ (Keeps-this _) λ n.
      Keeps-bind _ _ _ (Keeps-lift P _) λ r.
        Keeps-bind _ _ _
          (Keeps-modify _ _ (λ w h.
            c.successor_gone (record (w.node) { successor_wrapper = r.0 }) _
              (c.successor_queue w.node _ h)))
          λ _. Keeps-serve_successor _

  Keeps-read_predecessor :
      (answers : List Read) (o : Option Stream) → Keeps (OnNode P) (read_predecessor answers o)
  unfolding read_predecessor
  Keeps-read_predecessor answers none = Keeps-pure _ _
  Keeps-read_predecessor answers (some s) = Keeps-bind _ _ _ (Keeps-this _) λ n.
      Keeps-bind _ _ _ (Keeps-lift P _) λ r.
        Keeps-bind _ _ _ (Keeps-modify _ _ (λ w h. c.predecessor_queue w.node _ h))
          λ _. Keeps-serve_predecessor _

  Keeps-handle_event : (e : Event) → Keeps (OnNode P) (handle_event e)
  unfolding handle_event
  Keeps-handle_event (udp_ready answers) = Keeps-bind _ _ _ (Keeps-this _) λ n.
      Keeps-bind _ _ _ (Keeps-lift P _) λ r.
        Keeps-bind _ _ _ (Keeps-modify _ _ (λ w h. c.udp_queue w.node _ h)) λ _. Keeps-serve_udp _
  Keeps-handle_event (successor_ready answers) =
      Keeps-bind _ _ _ (Keeps-this _) λ n. Keeps-read_successor answers n.successor
  Keeps-handle_event (predecessor_ready answers) =
      Keeps-bind _ _ _ (Keeps-this _) λ n. Keeps-read_predecessor answers n.predecessor

  Keeps-handle_events : (es : List Event) → Keeps (OnNode P) (handle_events es)
  unfolding handle_events
  Keeps-handle_events [] = Keeps-pure _ _
  Keeps-handle_events (e ∷ es) = Keeps-bind _ _ _ (Keeps-handle_event e) λ _. Keeps-handle_events es

  -- The end of `q6`: only a node that was asked to close gets there.
  After-close :
      (b : Bool) (w : World)
      → P w.node
      → (b ≡ true → P (record (w.node) { state = q10 }))
      → After (OnNode P) ((if b then become q10 else pure tt) w)
  unfolding modify pure
  After-close true w h close = close refl
  After-close false w h close = h

  Keeps-close :
      ((n : Node) → n.should_close ≡ true → P n → P (record n { state = q10 }))
      → Keeps (OnNode P) (this >>= λ n. if n.should_close then become q10 else pure tt)
  unfolding this ◌>>=◌
  Keeps-close close = record {
    at = λ w h. After-close w.node.should_close w h (λ e. close w.node e h);
  }

  pub Keeps-step_q6 :
      ((n : Node) → n.should_close ≡ true → P n → P (record n { state = q10 }))
      → Keeps (OnNode P) step_q6
  unfolding step_q6
  Keeps-step_q6 close = Keeps-bind _ _ _ (Keeps-send_alive P c.alive) λ _.
      Keeps-bind _ _ _ (Keeps-poll P)
        λ es. Keeps-bind _ _ _ (Keeps-handle_events es) λ _. Keeps-close close
