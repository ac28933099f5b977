-- ===== src/Client/Requests.antt =====
-- What the client sends, and what it makes of the answers.
use distributed_hash_table.Prelude.{
  ℕ, zero, suc, ◌≤◌, ◌≡◌, refl, List, [], ◌∷◌, ◌++◌, map, none, some, Bool, true, ◌&&◌, ◌==◌,
  if◌then◌else◌, ok, arith, append_assoc, append-nil, length,
}
use distributed_hash_table.Pdu.Ids.{val_lookup_id}
use distributed_hash_table.Pdu.Text.{Text}
use distributed_hash_table.Pdu.Bytes.{IsU32, IsU16}
use distributed_hash_table.Pdu.SocketAddr.{SocketAddr, v4}
use distributed_hash_table.Pdu.StunLookup
use distributed_hash_table.Pdu.StunResponse
use distributed_hash_table.Pdu.NetGetNode
use distributed_hash_table.Pdu.NetGetNodeResponse
use distributed_hash_table.Pdu.ValInsert
use distributed_hash_table.Pdu.ValLookup
use distributed_hash_table.Pdu.ValLookupResponse.{ValLookupResponsePdu}
use distributed_hash_table.Pdu.Message.{
  Pdu, net_get_node, net_get_node_response, stun_lookup, stun_response, val_insert, val_lookup,
  val_lookup_response, to_bytes, IsWire,
}
use distributed_hash_table.Socket.Parse.RoundTrip.{received}
use distributed_hash_table.Socket.Buffer.{buffer_size}
use distributed_hash_table.Socket.UdpWrapper
use distributed_hash_table.Socket.UdpWrapper.{UdpWrapper, Receive, datagram, next_pdu}
use distributed_hash_table.Socket.UdpWrapper.TryRead.{try_read_one}
use distributed_hash_table.Client.{
  Client, Person, done, poll_loop, poll_response, get_my_address, get_node, lookup, send_csv,
}

-- Reads with nothing to read.
abbrev pub idle : ℕ → List (List Receive)
idle zero = []
idle (suc k) = [] ∷ idle k

-- The reads up to one that gives the datagram of `p`, and those behind it.
abbrev pub answer_at : ℕ → Pdu → SocketAddr → List (List Receive) → List (List Receive)
answer_at k p sender rest = idle k ++ (datagram (to_bytes p) sender ∷ []) ∷ rest

idle_read : (w : UdpWrapper) → UdpWrapper.try_read w [] ≡ ok w
unfolding UdpWrapper.try_read
idle_read w = refl

poll_loop-answer :
    (k : ℕ) (p : Pdu) (sender : SocketAddr) (rest : List (List Receive))
    → IsWire p
    → length (to_bytes p) ≤ buffer_size
    → poll_loop (answer_at k p sender rest) UdpWrapper.new
      ≡ ok ((received p, sender), UdpWrapper.new, rest)
unfolding poll_loop next_pdu
poll_loop-answer zero p sender rest w h = rw (try_read_one p sender w h) refl
poll_loop-answer (suc k) p sender rest w h =
    rw (idle_read UdpWrapper.new) (poll_loop-answer k p sender rest w h)

pub polls_answer :
    (c : Client) (k : ℕ) (p : Pdu) (sender : SocketAddr) (rest : List (List Receive))
    → c.reads ≡ answer_at k p sender rest
    → c.udp_wrapper ≡ UdpWrapper.new
    → IsWire p
    → length (to_bytes p) ≤ buffer_size
    → poll_response c ≡ ok ((received p, sender), record c { reads = rest })
unfolding poll_response
polls_answer c k p sender rest e n w h = rw (e, n, poll_loop-answer k p sender rest w h) refl

module _ (reachable : SocketAddr → Bool) where
  -- With nothing buffered and the node within reach, the command lookup sends one VAL_LOOKUP to the
  -- node and, after any number of reads with nothing to read, returns the VAL_LOOKUP_RESPONSE that
  -- the node sends, if that is well-formed and fits the buffer, with the same number, name and
  -- email address and with the tag of VAL_LOOKUP.
  pub looks_up :
      (c : Client) (k : ℕ) (ssn : Text) (my_address my_port : ℕ) (node : SocketAddr)
      (p : ValLookupResponsePdu) (rest : List (List Receive))
      → reachable node ≡ true
      → c.reads ≡ answer_at k (val_lookup_response p) node rest
      → c.udp_wrapper ≡ UdpWrapper.new
      → IsWire (val_lookup_response p)
      → length (to_bytes (val_lookup_response p)) ≤ buffer_size
      → lookup reachable ssn my_address my_port node c
        ≡ ok (
          record p { pdu_type = val_lookup_id },
          record c {
            reads = rest;
            sent = c.sent ++ (node, val_lookup (ValLookup.new ssn my_address my_port)) ∷ [];
          },
        )
  unfolding lookup
  looks_up c k ssn my_address my_port node p rest r e n w h =
      let asked : Client = record c {
        sent = c.sent ++ (node, val_lookup (ValLookup.new ssn my_address my_port)) ∷ [];
      } in
      rw r (rw (polls_answer asked k (val_lookup_response p) node rest e n w h) refl)

  -- With nothing buffered and the tracker within reach, the client sends one NET_GET_NODE to the
  -- tracker and, after any number of reads with nothing to read, takes from its
  -- NET_GET_NODE_RESPONSE the address and port of a node, or none if both are zero.
  pub finds_node :
      (c : Client) (k : ℕ) (tracker : SocketAddr) (address port : ℕ) (rest : List (List Receive))
      → reachable tracker ≡ true
      → c.reads
        ≡ answer_at k (net_get_node_response (NetGetNodeResponse.new address port)) tracker rest
      → c.udp_wrapper ≡ UdpWrapper.new
      → IsU32 address
      → IsU16 port
      → get_node reachable tracker c
        ≡ ok (
          (if address == 0 && port == 0 then none else some (v4 address port)),
          record c { reads = rest; sent = c.sent ++ (tracker, net_get_node NetGetNode.new) ∷ [] },
        )
  unfolding get_node NetGetNodeResponse.new NetGetNodeResponse.to_bytes to_bytes
  finds_node c k tracker address port rest r e n a b =
      let asked : Client = record c {
        sent = c.sent ++ (tracker, net_get_node NetGetNode.new) ∷ [];
      } in
      rw r (
        rw
          (polls_answer asked k (net_get_node_response (NetGetNodeResponse.new address port))
            tracker rest e n (record { tag = refl; address = a; port = b }) (omega arith))
          refl)

  pub finds_address :
      (c : Client) (k : ℕ) (tracker : SocketAddr) (ip : ℕ) (rest : List (List Receive))
      → reachable tracker ≡ true
      → c.reads ≡ answer_at k (stun_response (StunResponse.new ip)) tracker rest
      → c.udp_wrapper ≡ UdpWrapper.new
      → IsU32 ip
      → get_my_address reachable tracker c
        ≡ ok (
          ip,
          record c { reads = rest; sent = c.sent ++ (tracker, stun_lookup StunLookup.new) ∷ [] },
        )
  unfolding get_my_address StunResponse.new StunResponse.to_bytes to_bytes
  finds_address c k tracker ip rest r e n i =
      let asked : Client = record c {
        sent = c.sent ++ (tracker, stun_lookup StunLookup.new) ∷ [];
      } in
      rw r (
        rw
          (polls_answer asked k (stun_response (StunResponse.new ip)) tracker rest e n
            (record { tag = refl; address = i }) (omega arith))
          refl)

  pub send_csv_lem :
      (ps : List Person) (node : SocketAddr) (c : Client)
      → reachable node ≡ true
      → send_csv reachable (map some ps) node c
        ≡ ok (
          done,
          record c {
            sent =
                c.sent
                ++ map (λ (p : Person). (node, val_insert (ValInsert.new p.ssn p.name p.email))) ps;
          },
        )
  unfolding send_csv
  send_csv_lem [] node c r = rw append-nil refl
  send_csv_lem (p ∷ ps) node c r =
      let next : Client = record c {
        sent = c.sent ++ (node, val_insert (ValInsert.new p.ssn p.name p.email)) ∷ [];
      } in
      rw (r, send_csv_lem ps node next r, append_assoc) refl
