-- ===== src/Node/Frame.antt =====
-- What the helpers of a node leave alone: each keeps a predicate of the node that does not read the
-- fields that the helper writes.
use distributed_hash_table.Prelude.{
  ℕ, List, [], ◌∷◌, Option, none, some, Bool, true, false, Outcome, ok, panic, waits, stuck,
}
use distributed_hash_table.Prelude.{◌>>=◌ as and_then}
use distributed_hash_table.Pdu.SocketAddr.{SocketAddr}
use distributed_hash_table.Pdu.NetJoin.{NetJoinPdu}
use distributed_hash_table.Pdu.NetLeaving.{NetLeavingPdu}
use distributed_hash_table.Pdu.ValInsert.{ValInsertPdu}
use distributed_hash_table.Pdu.ValRemove.{ValRemovePdu}
use distributed_hash_table.Pdu.ValLookup.{ValLookupPdu}
use distributed_hash_table.Pdu.Message.{Pdu}
use distributed_hash_table.Socket.UdpWrapper.{UdpWrapper}
use distributed_hash_table.Socket.TcpWrapper.{TcpWrapper}
use distributed_hash_table.Node.Entry.{Entry}
use distributed_hash_table.Node.Types.{Node, World, Stream, Event}
use distributed_hash_table.Socket.Buffer.{Message}
use distributed_hash_table.Node.Sockets.{
  await_pdu_udp, await_successor, await_predecessor, await_pdu, take_accept, next_accept,
  accept_predecessor, connect_to_successor,
}
use distributed_hash_table.Node.Util.{
  get_listen_addr, get_successor_addr, send_entries, transfer, send_alive,
}
use distributed_hash_table.Node.Values.{
  forward, handle_val_insert, handle_val_lookup, handle_val_remove,
}
use distributed_hash_table.Node.States.{take_last_pdu, update_max, is_own_address, disconnect}
use distributed_hash_table.Node.Run.{lift, poll_from, poll}
use distributed_hash_table.Node.Hoare.{
  After, Keeps, OnNode, Keeps-bind, Keeps-if, Keeps-pure, Keeps-this, Keeps-world, Keeps-or_fail,
  Keeps-modify, Keeps-reach, Keeps-log,
}

abbrev Found : Type 0
Found = Message × TcpWrapper × List (List Event)

After-map :
    {A B : Type 0} (Q : World → Type 0) (o : Outcome B) (g : B → A × World)
    → ((b : B) → Q (g b).1)
    → After Q (and_then o (λ b. ok (g b)))
After-map Q (ok b) g h = h b
After-map Q panic g h = tt
After-map Q waits g h = tt
After-map Q stuck g h = tt

After-accept :
    (P : Node → Type 0) (l : List (Option Stream)) (w : World)
    → P w.node
    → After (OnNode P) (take_accept l w)
unfolding take_accept
After-accept P [] w h = tt
After-accept P (none ∷ rest) w h = tt
After-accept P (some s ∷ rest) w h = h

module _ (P : Node → Type 0) where
  pub Keeps-send_entries : (s : Stream) (es : List Entry) → Keeps (OnNode P) (send_entries s es)
  unfolding send_entries
  Keeps-send_entries s [] = Keeps-pure _ _
  Keeps-send_entries s (e ∷ es) = Keeps-bind _ _ _ (Keeps-reach P _ _) λ _. Keeps-send_entries s es

  pub Keeps-get_listen_addr : Keeps (OnNode P) get_listen_addr
  unfolding get_listen_addr
  Keeps-get_listen_addr = Keeps-bind _ _ _ (Keeps-this _) λ n. Keeps-or_fail _ _

  pub Keeps-get_successor_addr : Keeps (OnNode P) get_successor_addr
  unfolding get_successor_addr
  Keeps-get_successor_addr =
      Keeps-bind _ _ _ (Keeps-this _)
        λ n. Keeps-bind _ _ _ (Keeps-or_fail _ _) λ s. Keeps-or_fail _ _

  pub Keeps-forward : (pdu : Pdu) → Keeps (OnNode P) (forward pdu)
  unfolding forward
  Keeps-forward pdu =
      Keeps-bind _ _ _ (Keeps-this _)
        λ n. Keeps-bind _ _ _ (Keeps-or_fail _ _) λ s. Keeps-reach P _ _

  pub Keeps-update_max : (pdu : NetJoinPdu) → Keeps (OnNode P) (update_max pdu)
  unfolding update_max
  Keeps-update_max pdu = Keeps-bind _ _ _ (Keeps-this _) λ n.
      Keeps-if _ _ _ _ (Keeps-bind _ _ _ Keeps-get_listen_addr λ a. Keeps-pure _ _) (Keeps-pure _ _)

  pub Keeps-is_own_address : (pdu : NetLeavingPdu) → Keeps (OnNode P) (is_own_address pdu)
  unfolding is_own_address
  Keeps-is_own_address pdu = Keeps-bind _ _ _ (Keeps-this _) λ n.
      Keeps-bind _ _ _ (Keeps-or_fail _ _) λ own.
        Keeps-if _ _ _ _ (Keeps-bind _ _ _ Keeps-get_listen_addr λ a. Keeps-pure _ _)
          (Keeps-pure _ _)

  pub Keeps-handle_val_lookup : (pdu : ValLookupPdu) → Keeps (OnNode P) (handle_val_lookup pdu)
  unfolding handle_val_lookup
  Keeps-handle_val_lookup pdu =
      Keeps-bind _ _ _ (Keeps-this _) λ n. Keeps-if _ _ _ _ (Keeps-reach P _ _) (Keeps-forward _)

  pub Keeps-take_last_pdu :
      ((n : Node) (o : Option Pdu) → P n → P (record n { last_pdu = o }))
      → Keeps (OnNode P) take_last_pdu
  unfolding take_last_pdu
  Keeps-take_last_pdu c =
      Keeps-bind _ _ _ (Keeps-this _)
        λ n. Keeps-bind _ _ _ (Keeps-modify _ _ (λ w h. c w.node none h)) λ _. Keeps-or_fail _ _

  module _ (c : (n : Node) (vs : List Entry) → P n → P (record n { values = vs })) where
    pub Keeps-transfer : (b : Bool) (s e : ℕ) → Keeps (OnNode P) (transfer b s e)
    unfolding transfer
    Keeps-transfer b s e = Keeps-bind _ _ _ (Keeps-this _) λ n.
        Keeps-bind _ _ _ (Keeps-or_fail _ _) λ socket.
          Keeps-bind _ _ _ (Keeps-send_entries socket _) λ _. Keeps-modify _ _ (λ w h. c w.node _ h)

    pub Keeps-handle_val_insert : (pdu : ValInsertPdu) → Keeps (OnNode P) (handle_val_insert pdu)
    unfolding handle_val_insert
    Keeps-handle_val_insert pdu =
        Keeps-bind _ _ _ (Keeps-this _)
          λ n. Keeps-if _ _ _ _ (Keeps-modify _ _ (λ w h. c w.node _ h)) (Keeps-forward _)

    pub Keeps-handle_val_remove : (pdu : ValRemovePdu) → Keeps (OnNode P) (handle_val_remove pdu)
    unfolding handle_val_remove
    Keeps-handle_val_remove pdu =
        Keeps-bind _ _ _ (Keeps-this _)
          λ n. Keeps-if _ _ _ _ (Keeps-modify _ _ (λ w h. c w.node _ h)) (Keeps-forward _)

  pub Keeps-send_alive :
      ((n : Node) (t : ℕ) → P n → P (record n { last_alive = t })) → Keeps (OnNode P) send_alive
  unfolding send_alive
  Keeps-send_alive c = Keeps-bind _ _ _ (Keeps-world _) λ w.
      Keeps-if _ _ _ _
        (Keeps-bind _ _ _ (Keeps-modify _ _ (λ w h. c w.node _ h)) λ _. Keeps-reach P _ _)
        (Keeps-pure _ _)

  pub Keeps-await_pdu_udp :
      ((n : Node) (u : UdpWrapper) → P n → P (record n { udp_wrapper = u }))
      → Keeps (OnNode P) await_pdu_udp
  unfolding await_pdu_udp
  Keeps-await_pdu_udp c = record {
    at = λ w h.
        After-map (OnNode P) _ _ (λ (r : Message × UdpWrapper × List (List Event)). c w.node r.1 h);
  }

  Keeps-await_successor :
      ((n : Node) (t : TcpWrapper) → P n → P (record n { successor_wrapper = t }))
      → (s : Stream) → Keeps (OnNode P) (await_successor s)
  unfolding await_successor
  Keeps-await_successor c s = record {
    at = λ w h. After-map (OnNode P) _ _ (λ (r : Found). c w.node r.1 h);
  }

  Keeps-await_predecessor :
      ((n : Node) (t : TcpWrapper) → P n → P (record n { predecessor_wrapper = t }))
      → (s : Stream) → Keeps (OnNode P) (await_predecessor s)
  unfolding await_predecessor
  Keeps-await_predecessor c s = record {
    at = λ w h. After-map (OnNode P) _ _ (λ (r : Found). c w.node r.1 h);
  }

  pub Keeps-await_pdu :
      ((n : Node) (t : TcpWrapper) → P n → P (record n { successor_wrapper = t }))
      → ((n : Node) (t : TcpWrapper) → P n → P (record n { predecessor_wrapper = t }))
      → (b : Bool) → Keeps (OnNode P) (await_pdu b)
  unfolding await_pdu
  Keeps-await_pdu c d true =
      Keeps-bind _ _ _ (Keeps-this _)
        λ n. Keeps-bind _ _ _ (Keeps-or_fail _ _) λ s. Keeps-await_successor c s
  Keeps-await_pdu c d false =
      Keeps-bind _ _ _ (Keeps-this _)
        λ n. Keeps-bind _ _ _ (Keeps-or_fail _ _) λ s. Keeps-await_predecessor d s

  module _ (c : (n : Node) (s : Option Stream) → P n → P (record n { predecessor = s })) where
    Keeps-next_accept : Keeps (OnNode P) next_accept
    unfolding next_accept
    Keeps-next_accept = record { at = λ w h. After-accept P w.accepts w h }

    pub Keeps-accept_predecessor : Keeps (OnNode P) accept_predecessor
    unfolding accept_predecessor
    Keeps-accept_predecessor =
        Keeps-bind _ _ _ Keeps-next_accept
          λ s. Keeps-bind _ _ _ (Keeps-log P _) λ _. Keeps-modify _ _ (λ w h. c w.node _ h)

    pub Keeps-disconnect : (o : Option Stream) → Keeps (OnNode P) (disconnect o)
    unfolding disconnect
    Keeps-disconnect none = Keeps-pure _ _
    Keeps-disconnect (some s) =
        Keeps-bind _ _ _ (Keeps-reach P _ _) λ _. Keeps-modify _ _ (λ w h. c w.node _ h)

  pub Keeps-connect_to_successor :
      ((n : Node) (a : Option SocketAddr) → P n → P (record n { successor_listen = a }))
      → (addr : SocketAddr) → Keeps (OnNode P) (connect_to_successor addr)
  unfolding connect_to_successor
  Keeps-connect_to_successor c addr =
      Keeps-bind _ _ _ (Keeps-reach P _ _)
        λ _. Keeps-bind _ _ _ (Keeps-modify _ _ (λ w h. c w.node _ h)) λ _. Keeps-pure _ _

  pub Keeps-lift : {A : Type 0} (m : Outcome A) → Keeps (OnNode P) (lift m)
  unfolding lift
  Keeps-lift (ok a) = record { at = λ w h. h }
  Keeps-lift panic = record { at = λ w h. tt }
  Keeps-lift waits = record { at = λ w h. tt }
  Keeps-lift stuck = record { at = λ w h. tt }

  After-poll : (l : List (List Event)) (w : World) → P w.node → After (OnNode P) (poll_from l w)
  unfolding poll_from
  After-poll [] w h = h
  After-poll (es ∷ rest) w h = h

  pub Keeps-poll : Keeps (OnNode P) poll
  unfolding poll
  Keeps-poll = record { at = λ w h. After-poll w.polls w h }
