-- ===== src/Socket.antt =====
-- resources/TestNode/src/socket_wrapper.rs: messages over TCP and UDP sockets.
pub mod Parse
pub mod Buffer
pub mod TcpWrapper
pub mod UdpWrapper
