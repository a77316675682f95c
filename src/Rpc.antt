-- ===== src/Rpc.antt =====
-- The remote procedure calls that a server makes: the methods of ServerMetadata.cpp that use sockets.
pub mod Transport
pub mod Election
pub mod Replicate
pub mod Reconnect
