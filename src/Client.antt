-- ===== src/Client.antt =====
-- resources/TestNode/src/bin/client.rs: the debug client and its requests.
pub mod Requests
pub mod Terminal
pub mod Main
pub mod Dialogue
pub mod Session
use distributed_hash_table.Prelude.{
  ℕ, List, [], ◌∷◌, ◌++◌, Option, none, some, Bool, true, false, ◌&&◌, ◌==◌, if◌then◌else◌, Outcome,
  ok, panic, waits, ◌>>=◌,
}
use distributed_hash_table.Pdu.SocketAddr.{SocketAddr, v4}
use distributed_hash_table.Pdu.Text.{Text}
use distributed_hash_table.Pdu.StunLookup
use distributed_hash_table.Pdu.StunResponse.{StunResponsePdu}
use distributed_hash_table.Pdu.NetGetNode
use distributed_hash_table.Pdu.NetGetNodeResponse.{NetGetNodeResponsePdu}
use distributed_hash_table.Pdu.ValInsert
use distributed_hash_table.Pdu.ValLookup
use distributed_hash_table.Pdu.ValLookupResponse.{ValLookupResponsePdu}
use distributed_hash_table.Pdu.Message.{
  Pdu, net_alive, net_get_node, net_get_node_response, net_join, net_join_response,
  net_close_connection, net_new_range, net_new_range_response, net_leaving, val_insert, val_remove,
  val_lookup, val_lookup_response, stun_lookup, stun_response,
}
use distributed_hash_table.Socket.Buffer.{Message}
use distributed_hash_table.Socket.UdpWrapper
use distributed_hash_table.Socket.UdpWrapper.{UdpWrapper, Receive, next_pdu}

-- `reads` has the answers to the reads of each later `try_read`; `inputs` has the results of the later
-- calls of `read_line`, where `none` is an error; `sent` is what was sent, the oldest first, and
-- `printed` the answers that were shown; prompts and notices are left out.
pub record Client : Type 0 where
  pub udp_wrapper : UdpWrapper
  pub reads : List (List Receive)
  pub inputs : List (Option Text)
  pub sent : List (SocketAddr × Pdu)
  pub printed : List (Text × Text × Text)

-- `std::io::Result<()>`
pub data Ended : Type 0 where
  done io_error : Ended

-- A row of the CSV file.
pub record Person : Type 0 where
  pub ssn : Text
  pub name : Text
  pub email : Text

abbrev stun_address : Message × Client → Outcome (ℕ × Client)
stun_address ((stun_response p, sender), c) = ok (p.address, c)
stun_address _ = panic

-- Two zeros are no node.
abbrev node_address : Message × Client → Outcome (Option SocketAddr × Client)
node_address ((net_get_node_response p, sender), c) =
    ok (if p.address == 0 && p.port == 0 then none else some (v4 p.address p.port), c)
node_address _ = panic

abbrev lookup_response : Message × Client → Outcome (ValLookupResponsePdu × Client)
lookup_response ((val_lookup_response p, sender), c) = ok (p, c)
lookup_response _ = panic

poll_found :
    (UdpWrapper → Outcome (Message × UdpWrapper × List (List Receive)))
    → List (List Receive)
    → Option Message × UdpWrapper
    → Outcome (Message × UdpWrapper × List (List Receive))
poll_found again reads (none, w) = again w
poll_found again reads (some m, w) = ok (m, w, reads)

-- The loop reads again and again until a message is there.
poll_loop : List (List Receive) → UdpWrapper → Outcome (Message × UdpWrapper × List (List Receive))
unfolding poll_found
poll_loop [] w = waits
poll_loop (answers ∷ reads) w =
    UdpWrapper.try_read w answers >>= λ w'. poll_found (poll_loop reads) reads (next_pdu w')

unfoldable pub poll_response : Client → Outcome (Message × Client)
unfolding poll_loop
poll_response c =
    poll_loop c.reads c.udp_wrapper >>= λ r. ok (r.0, record c { udp_wrapper = r.1; reads = r.2 })

-- Where a datagram can be sent.
module _ (reachable : SocketAddr → Bool) where
  abbrev pub send : Pdu → SocketAddr → Client → Outcome Client
  send pdu to c =
      if reachable to then ok (record c { sent = c.sent ++ ((to, pdu) ∷ []) }) else panic

  unfoldable pub get_my_address : SocketAddr → Client → Outcome (ℕ × Client)
  get_my_address tracker_addr c =
      send (stun_lookup StunLookup.new) tracker_addr c >>= poll_response >>= stun_address

  unfoldable pub get_node : SocketAddr → Client → Outcome (Option SocketAddr × Client)
  get_node tracker_addr c =
      send (net_get_node NetGetNode.new) tracker_addr c >>= poll_response >>= node_address

  -- The command `lookup`.
  unfoldable pub lookup :
      Text → ℕ → ℕ → SocketAddr → Client → Outcome (ValLookupResponsePdu × Client)
  lookup ssn my_address my_port node c =
      send (val_lookup (ValLookup.new ssn my_address my_port)) node c
      >>= poll_response
      >>= lookup_response

  -- The rows as the reader gives them: `none` is an error. The delay between two rows is left out.
  unfoldable pub send_csv : List (Option Person) → SocketAddr → Client → Outcome (Ended × Client)
  send_csv [] node c = ok (done, c)
  send_csv (none ∷ rows) node c = ok (io_error, c)
  send_csv (some p ∷ rows) node c =
      send (val_insert (ValInsert.new p.ssn p.name p.email)) node c >>= send_csv rows node
