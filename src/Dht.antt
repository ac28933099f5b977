-- ===== src/Dht.antt =====
-- Several nodes together (resources/TestNode/src/bin/node.rs): the value messages that go from node to
-- node, through a round of `run` at each, and the messages between neighbours when one of them leaves.
pub mod Rounds
pub mod Requests
pub mod Hop
pub mod Routing
pub mod Refines
pub mod Tables
pub mod Heir
pub mod Inheritance
pub mod Leaving
pub mod Asking
pub mod Passing
pub mod Survey
pub mod Seeking
pub mod Joiner
pub mod Sharing
pub mod Changing
