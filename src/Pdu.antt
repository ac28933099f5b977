-- ===== src/Pdu.antt =====
-- The protocol data units of resources/TestNode/src/pdu.rs: their tags, their fields, and the bytes
-- that stand for them.
pub mod Ids
pub mod Bytes
pub mod Text
pub mod SocketAddr
pub mod NetAlive
pub mod NetGetNode
pub mod NetGetNodeResponse
pub mod NetJoin
pub mod NetJoinResponse
pub mod NetCloseConnection
pub mod NetNewRange
pub mod NetNewRangeResponse
pub mod NetLeaving
pub mod ValInsert
pub mod ValRemove
pub mod ValLookup
pub mod ValLookupResponse
pub mod StunLookup
pub mod StunResponse
pub mod Message
