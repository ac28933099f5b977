-- ===== src/Dht/Leaving.antt =====
-- A node that leaves, and the node before it: both ends of the protocol, round by round.
use distributed_hash_table.Prelude.{
  ℕ, ◌+◌, ◌≤◌, ◌<◌, ◌≡◌, refl, sym, ap, ◌∙◌, List, [], ◌∷◌, ◌++◌, map, some, true, false, ok, ◌>>=◌,
  ◌==◌, ◌&&◌, arith, length, length-append, All,
}
use mathlib.Core.Path.{subst}
use distributed_hash_table.Pdu.SocketAddr.{SocketAddr, v4, addr_eq}
use distributed_hash_table.Pdu.ValInsert
use distributed_hash_table.Pdu.NetNewRangeResponse
use distributed_hash_table.Pdu.NetCloseConnection
use distributed_hash_table.Pdu.NetLeaving
use distributed_hash_table.Pdu.Message.{
  Pdu, val_insert, net_new_range, net_new_range_response, net_leaving, net_close_connection,
  to_bytes, IsWire,
}
use distributed_hash_table.Socket.Buffer.{buffer_size}
use distributed_hash_table.Socket.Buffer.Drain.{concat}
use distributed_hash_table.Socket.Parse.RoundTrip.{size-length}
use distributed_hash_table.Socket.TcpWrapper
use distributed_hash_table.Node.Entry.{Entry, hash}
use distributed_hash_table.Node.Types.{World, Stream, Output, tcp_sent, shut_down, q11, q18}
use distributed_hash_table.Node.Exec.{opened}
use distributed_hash_table.Node.Util.{covers}
use distributed_hash_table.Node.States.{step_q11}
use distributed_hash_table.Node.Start.{step_at}
use distributed_hash_table.Node.Ownership.Sets.{IsOwned, All-map}
use distributed_hash_table.Node.Ring.{offer}
use distributed_hash_table.Node.Joining.{handed_down, await_predecessor_message}
use distributed_hash_table.Node.Transfer.{handed}
use distributed_hash_table.Node.Leave.{leaves_nothing}
use distributed_hash_table.Dht.Rounds.{advance, IsReady}
use distributed_hash_table.Dht.Rounds.{hop, messages_to, messages_to-sent}
use distributed_hash_table.Pdu.Text.{Text}
use distributed_hash_table.Dht.Routing.{table}
use distributed_hash_table.Dht.Tables.{table-before, table-merged}
use distributed_hash_table.Dht.Heir.{messages_to-handed, handed_up, inserts}
use distributed_hash_table.Dht.Inheritance.{takes_range, inherits}

-- The messages of the heir and the node that leaves.
abbrev pub consent : Pdu
consent = net_new_range_response NetNewRangeResponse.new

abbrev pub estate : List Entry → ℕ → ℕ → List Pdu
estate es ip port = inserts es ++ net_leaving (NetLeaving.new ip port) ∷ []

-- What a node sends in Q18.
abbrev farewell : List Entry → Stream → Stream → ℕ → ℕ → List Output
farewell es next previous ip port =
    map (handed previous) es
    ++ tcp_sent next (net_close_connection NetCloseConnection.new)
      ∷ shut_down next
      ∷ tcp_sent previous (net_leaving (NetLeaving.new ip port))
      ∷ shut_down previous
      ∷ []

messages_to-farewell :
    (es : List Entry) (next previous : Stream) (ip port : ℕ)
    → addr_eq next.peer_addr previous.peer_addr ≡ false
    → messages_to previous (farewell es next previous ip port) ≡ estate es ip port
messages_to-farewell es next previous ip port a =
    messages_to-handed previous es _
    ∙ ap (λ ps. inserts es ++ ps) (rw a (messages_to-sent previous _ (shut_down previous ∷ [])))

consent-IsWire : IsWire consent
unfolding NetNewRangeResponse.new
consent-IsWire = record { tag = refl }

-- A node that leaves, with its neighbours.
pub record IsLeaving (w : World) (next previous : Stream) (ip port : ℕ) : Type 0 where
  pub state : w.node.state ≡ q11
  pub owned : IsOwned w.node
  pub successor : w.node.successor ≡ some next
  pub predecessor : w.node.predecessor ≡ some previous
  pub successor_listen : w.node.successor_listen ≡ some (v4 ip port)
  pub predecessor_wrapper : w.node.predecessor_wrapper ≡ TcpWrapper.new
  pub reachable : (a : SocketAddr) → w.reachable a ≡ true
  pub later_range : w.node.hash_range.0 == 0 ≡ false
  pub apart : addr_eq next.peer_addr previous.peer_addr ≡ false

pub leaves :
    (w : World) (next previous : Stream) (ip port : ℕ)
    → IsLeaving w next previous ip port
    → (v : World) × ((hop (handed_down consent) w >>= advance) ≡ ok v)
      × (v.node.values ≡ [])
      × (v.node.running ≡ false)
      × (messages_to previous v.sent
          ≡ net_new_range (offer w.node.hash_range) ∷ estate w.node.values ip port)
unfolding step_q11 opened
leaves w next previous ip port l =
    let range = net_new_range (offer w.node.hash_range) in
    let bytes = size-length consent consent-IsWire in
    let told : World = record w {
      node = record (w.node) { successor = some next; predecessor = some previous };
      polls = handed_down consent ∷ [];
      sent = tcp_sent previous range ∷ [];
    } in
    let agreed : World = record told { node = record (told.node) { state = q18 }; polls = [] } in
    let heard =
      await_predecessor_message told previous consent [] refl refl l.predecessor_wrapper
        consent-IsWire (omega (arith, bytes)) (omega (arith, bytes)) in
    let done =
      leaves_nothing agreed next previous ip port l.owned refl refl l.successor_listen
        (l.reachable next.peer_addr) (l.reachable previous.peer_addr) in
    let v : World = record agreed {
      node = record (agreed.node) { values = []; running = false };
      sent = tcp_sent previous range ∷ farewell w.node.values next previous ip port;
    } in
    (
      v,
      rw
          (
            step_at q11 (record w { polls = handed_down consent ∷ []; sent = [] }) l.state,
            l.successor,
            l.predecessor,
            l.later_range,
            l.reachable previous.peer_addr,
          )
          (rw (heard, step_at q18 agreed refl, done, l.later_range) refl),
      refl,
      refl,
      messages_to-sent previous range (farewell w.node.values next previous ip port)
          ∙ ap (λ ps. range ∷ ps)
              (messages_to-farewell w.node.values next previous ip port l.apart),
    )

-- The node before one that leaves, in Q6.
pub record IsHeir (h : World) (to_leaver : Stream) (own local_ip local_port : ℕ) : Type 0 where
  pub ready : IsReady h
  pub successor_wrapper : h.node.successor_wrapper ≡ TcpWrapper.new
  pub successor : h.node.successor ≡ some to_leaver
  pub own_address : h.node.own_address ≡ some own
  pub listen_socket : h.node.listen_socket ≡ v4 local_ip local_port
  pub valid : h.node.hash_range.0 ≤ h.node.hash_range.1
  pub owned : IsOwned h.node

-- The hashes of the node that leaves are in the joined range.
joined_covers :
    (a b c d h : ℕ) → c ≡ b + 1 → a ≤ b → covers (c, d) h ≡ true → covers (a, d) h ≡ true
joined_covers a b c d h adjacent le o = ground arith

estate-size : (es : List Entry) (ip port : ℕ) → 1 ≤ length (concat (estate es ip port))
unfolding to_bytes NetLeaving.to_bytes
estate-size [] ip port = omega arith
estate-size (e ∷ es) ip port =
    let p = val_insert (ValInsert.new e.ssn e.name e.email) in
    omega (arith, length-append (to_bytes p) (concat (estate es ip port)), estate-size es ip port)

-- Suppose that a node in Q11 has both neighbours, at different addresses, and the IPv4 address at
-- which its successor listens, its entries in its range, which does not begin at 0, nothing
-- buffered from its predecessor, and a range of u8 numbers, not empty, that begins one above the
-- end of the range of the node before it; that node is in Q6 and not asked to close, knows its
-- address and listens at an IPv4 address, with nothing buffered, the stream to the node that leaves
-- and a predecessor, a range that is not empty and its entries in it; the next node is not that
-- node itself; both reach everything; and the VAL_INSERTs of the entries that leave, with the
-- NET_LEAVING, are well-formed, which leaves out names and email addresses with characters above
-- 127, and fit the buffer of a stream. Then in two rounds each side sends the other exactly the
-- messages that the other needs for its next round: the offer of the range and the consent, then
-- the entries and the address of the next node. In the end the node that left has no entries and
-- has stopped, and the one before it has both ranges as one, its own entries with those of the
-- other behind them, and a stream to the next node, and is in Q6 again with nothing buffered; a
-- search of the ring for any number finds what it found before.
pub leave_hands_over :
    (w h : World) (next previous to_leaver : Stream) (ip port own local_ip local_port : ℕ)
    → IsLeaving w next previous ip port
    → IsHeir h to_leaver own local_ip local_port
    → w.node.hash_range.0 ≡ h.node.hash_range.1 + 1
    → w.node.hash_range.0 ≤ w.node.hash_range.1
    → w.node.hash_range.1 < 256
    → ((ip == own) && (port == local_port)) ≡ false
    → All IsWire (estate w.node.values ip port)
    → length (concat (estate w.node.values ip port)) < buffer_size
    → (left heir heir' : World) × ((hop (handed_down consent) w >>= advance) ≡ ok left)
      × (messages_to previous left.sent
          ≡ net_new_range (offer w.node.hash_range) ∷ estate w.node.values ip port)
      × ((hop (handed_up (net_new_range (offer w.node.hash_range) ∷ [])) h >>= advance) ≡ ok heir)
      × (messages_to to_leaver heir.sent ≡ consent ∷ [])
      × ((hop (handed_up (estate w.node.values ip port)) heir >>= advance) ≡ ok heir')
      × (left.node.values ≡ [])
      × (left.node.running ≡ false)
      × IsReady heir'
      × (heir'.node.values ≡ h.node.values ++ w.node.values)
      × (heir'.node.hash_range ≡ (h.node.hash_range.0, w.node.hash_range.1))
      × (heir'.node.successor ≡ some (record { peer_addr = v4 ip port }))
      × ((before after : List World) (ssn : Text)
          → table (before ++ heir' ∷ after) ssn ≡ table (before ++ h ∷ w ∷ after) ssn)
leave_hands_over w h next previous to_leaver ip port own local_ip local_port l i adjacent le lt
      other wire fits =
    let (left, e, none_left, stopped, sent) = leaves w next previous ip port l in
    let (heir, f, taken) =
      takes_range h w.node.hash_range to_leaver i.ready i.successor_wrapper i.successor adjacent le
        lt in
    let (heir', g, has) =
      inherits heir w.node.values to_leaver ip port own local_ip local_port taken.ready
        taken.successor_wrapper taken.successor (taken.own_address ∙ i.own_address)
        (taken.listen_socket ∙ i.listen_socket) other
        (subst (λ r. All (λ e. covers r (hash e) ≡ true) w.node.values) (sym taken.hash_range)
          (All-map w.node.values
            (λ e c.
              joined_covers h.node.hash_range.0 h.node.hash_range.1 w.node.hash_range.0
                w.node.hash_range.1 (hash e) adjacent i.valid c)
            l.owned))
        wire (estate-size w.node.values ip port) fits in
    let entries = has.values ∙ ap (λ vs. vs ++ w.node.values) taken.values in
    let range = has.hash_range ∙ taken.hash_range in
    (
      left,
      heir,
      heir',
      e,
      sent,
      f,
      taken.told,
      g,
      none_left,
      stopped,
      has.ready,
      entries,
      range,
      has.successor,
      λ before after ssn.
          table-before before (heir' ∷ after) (h ∷ w ∷ after) ssn
            (table-merged h w heir' after ssn i.owned l.owned adjacent i.valid le range entries),
    )
