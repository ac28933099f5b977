-- ===== src/Dht/Changing.antt =====
-- Calls to a ring after a node has left it or has joined it.
use distributed_hash_table.Node.Types.{World, q6}
use distributed_hash_table.Pdu.NetJoin

-- A node in Q13 that is ready for everything else.
abbrev pub in_q6 : World → World
in_q6 w = record w { node = record (w.node) { state = q6 } }
