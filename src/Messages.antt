-- ===== src/Messages.antt =====
-- The messages of Messages.h and Messages.cpp, a module for each class.
pub mod CustomerRequest
pub mod LaptopInfo
pub mod CustomerRecord
pub mod Identifier
pub mod ReplicationRequest
pub mod LeaderInfo
pub mod RequestVoteMessage
pub mod RequestVoteResponse
pub mod LogRequest
pub mod LogResponse
pub mod Codec
pub mod Kinds
