-- ===== src/Lib.antt =====
-- A distributed hash table: the Rust implementation under resources/TestNode.
--
-- The program is a library and three binaries. The library (resources/TestNode/src/pdu.rs and
-- socket_wrapper.rs) has the messages and their bytes, and a wrapper for each kind of socket that
-- sends messages and takes them out of what it receives. A node (bin/node.rs) is a state machine: it
-- learns its address and a node of the ring from the tracker (bin/tracker.rs) over UDP, joins, and
-- then holds a range of hashes, a TCP stream to its successor and one to its predecessor. It stores
-- the entries whose hash is in its range and forwards messages about others to its successor. A node
-- that joins gets the upper half of a range and the entries in it; a node that leaves gives its range
-- and its entries to a neighbour.
--
-- Where what is modelled:
--   Prelude: Boolean tests and lists over the native numbers, and `Outcome`, how a call ends.
--   Pdu: pdu.rs. One module for each message with its record, `new`, its getters, `to_bytes` (the
--     conversion to bytes) and `try_parse`; `Pdu.Message` has the enumeration `PDU`.
--   Socket: socket_wrapper.rs. `Socket.Parse` has parse_pdu and its three parts, `Socket.Buffer` the
--     buffer and the loop that drains it, `Socket.TcpWrapper` and `Socket.UdpWrapper` the wrappers.
--   Node: bin/node.rs. `Node.Types` has the fields of `Node` and the world around it, `Node.Exec`
--     the actions, `Node.Entry` the entries and their hash, `Node.Util`, `Node.Values` and
--     `Node.Sockets` the helpers, `Node.States` the states as `step_q1` to `step_q18` but for
--     `step_q6`, which stands with the loop in `Node.Run`, `Node.Patterns` what the states match a
--     message against, and `Node.HandlePdu` handle_pdu. `Node.Hoare`, `Node.Triple`, `Node.Frame`,
--     `Node.Serve`, `Node.Steps` and `Node.Moves` are rules for what actions keep; the other
--     modules are about one subject each: the hash ranges and the ring, the state diagram and its
--     paths, starting, joining and leaving, the transfer and the handover of entries, the entries
--     that are stored, and the messages of one poll.
--   Tracker: bin/tracker.rs.
--   Dht: several nodes of bin/node.rs together. `Dht.Rounds` is one round of a node that is given
--     some events, `Dht.Hop` a round with one value message, `Dht.Routing` the way of a message
--     from node to node, `Dht.Refines` any number of such calls, and the same calls on one map;
--     `Dht.Heir`, `Dht.Inheritance` and `Dht.Leaving` are a node that leaves and the one before
--     it, `Dht.Changing` the calls to a ring that was left or joined; `Dht.Asking`,
--     `Dht.Passing`, `Dht.Survey` and `Dht.Seeking` are the way of a NET_JOIN round the ring, and
--     `Dht.Joiner` and `Dht.Sharing` a node that joins and the one before it; `Dht.Tables` is
--     about the searches of the ring while ranges and entries move.
--   Client: bin/client.rs, with what `try_read` is answered each time it is called. `Client.Terminal` has
--     the input lines, `Client.Main` main and its loop, with a bound on its rounds.
--   Tests: samples.
--
-- How it is modelled:
--   A number of w bits is a number below 2^w with its wrap-around written out. README.md of
--     resources/TestNode builds with --release, where overflow of a `u8` wraps.
--   A panic is the outcome `panic`, a call that blocks for ever is `waits`. `stuck` is the model's own:
--     a loop without fuel. `drain` gets one round more than the buffer has bytes, each round takes at
--     least a byte. `run` has a bound on its rounds, as a node runs until it leaves.
--   A buffer is the part of the array that is filled.
--   What the operating system answers to each read, write, receive and accept is data: a list of
--     answers, or a list of events for each poll. A stream is the address of its other end, and one
--     predicate tells the addresses to which connecting, sending and shutting down succeeds; what is
--     sent is a log. In the wrappers the loops around a write are modelled too.
--   Clocks are numbers of nanoseconds. The signal that asks a node to close may come in any round
--     of `run`, which gets a list that tells for each of its rounds whether it does; in the rounds
--     of Dht it does not come.
--   A string is the list of its scalar values, an IPv4 address its 32 bits. An IPv6 address is only ever
--     refused.
--   In a ring, what a node writes to its successor is what the next node reads, and one message is on
--     its way at a time.
--   The tracker reads the clock once for each round, and the first key that the iterator of its map
--     gives is a parameter.
--
-- Not modelled: printing, the reading of command lines, the set-up of sockets and of the signal
-- handler, registering with the poll, prompts and notices, and the node in C (src/, resources/Hash
-- and resources/Hashtable). The CSV reader of the client is a parameter.
pub mod Prelude
pub mod Pdu
pub mod Socket
pub mod Node
pub mod Dht
pub mod Tracker
pub mod Client
pub mod Tests
