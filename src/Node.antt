-- ===== src/Node.antt =====
-- resources/TestNode/src/bin/node.rs: a node of the ring.
pub mod Entry
pub mod Types
pub mod Exec
pub mod Sockets
pub mod Util
pub mod Values
pub mod Patterns
pub mod States
pub mod HandlePdu
pub mod Run
pub mod Hoare
pub mod Triple
pub mod Frame
pub mod Serve
pub mod Steps
pub mod Moves
pub mod Ranges
pub mod Diagram
pub mod Transfer
pub mod Ownership
pub mod Store
pub mod Batches
pub mod Stopping
pub mod Asked
pub mod Paths
pub mod Handover
pub mod Leave
pub mod Ring
pub mod Start
pub mod Joining
