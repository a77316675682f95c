-- ===== src/Messages/Kinds.antt =====
-- The ten classes of Messages.h.
use raft_distributed_kv.Prelude.{ℕ, ◌≤◌, ◌≡◌, length, get_or, IsInt}
use raft_distributed_kv.Words.{Bytes}
use raft_distributed_kv.Words.RoundTrip.{All}
use raft_distributed_kv.Messages.Codec.{Codec, length-marshal, marshal_above}
use raft_distributed_kv.Messages.CustomerRequest.{CustomerRequest, customer_request_codec}
use raft_distributed_kv.Messages.LaptopInfo.{LaptopInfo, laptop_info_codec}
use raft_distributed_kv.Messages.CustomerRecord.{CustomerRecord, customer_record_codec}
use raft_distributed_kv.Messages.Identifier.{Identifier, identifier_codec}
use raft_distributed_kv.Messages.ReplicationRequest.{ReplicationRequest, replication_request_codec}
use raft_distributed_kv.Messages.LeaderInfo.{LeaderInfo, leader_info_codec}
use raft_distributed_kv.Messages.RequestVoteMessage.{RequestVoteMessage, request_vote_message_codec}
use raft_distributed_kv.Messages.RequestVoteResponse.{
  RequestVoteResponse, request_vote_response_codec,
}
use raft_distributed_kv.Messages.LogRequest.{LogRequest, log_request_codec}
use raft_distributed_kv.Messages.LogResponse.{LogResponse, log_response_codec}

pub data Kind : Type 0 where
  customer_request_kind laptop_info_kind customer_record_kind identifier_kind
        replication_request_kind leader_info_kind request_vote_message_kind
        request_vote_response_kind log_request_kind log_response_kind :
      Kind

abbrev pub Message : Kind → Type 0
Message customer_request_kind = CustomerRequest
Message laptop_info_kind = LaptopInfo
Message customer_record_kind = CustomerRecord
Message identifier_kind = Identifier
Message replication_request_kind = ReplicationRequest
Message leader_info_kind = LeaderInfo
Message request_vote_message_kind = RequestVoteMessage
Message request_vote_response_kind = RequestVoteResponse
Message log_request_kind = LogRequest
Message log_response_kind = LogResponse

abbrev pub codec : (k : Kind) → Codec (Message k)
codec customer_request_kind = customer_request_codec
codec laptop_info_kind = laptop_info_codec
codec customer_record_kind = customer_record_codec
codec identifier_kind = identifier_codec
codec replication_request_kind = replication_request_codec
codec leader_info_kind = leader_info_codec
codec request_vote_message_kind = request_vote_message_codec
codec request_vote_response_kind = request_vote_response_codec
codec log_request_kind = log_request_codec
codec log_response_kind = log_response_codec

-- For every class of messages, if every field is an int and the buffer has room for the message,
-- Unmarshal of the buffer that Marshal wrote gives the message; the buffer keeps its length, and no
-- byte at or behind Size is changed.
pub messages_round_trip :
    (k : Kind) (msg : Message k) (buffer : Bytes) (i : ℕ)
    → All IsInt ((codec k).fields msg)
    → (codec k).size ≤ length buffer
    → (codec k).size ≤ i
    → ((codec k).unmarshal ((codec k).marshal msg buffer) ≡ msg)
      × (length ((codec k).marshal msg buffer) ≡ length buffer)
      × (get_or ((codec k).marshal msg buffer) i 0 ≡ get_or buffer i 0)
messages_round_trip k msg buffer i ints room above = (
  (codec k).reads_back msg buffer ints room,
  length-marshal (codec k) msg buffer,
  marshal_above (codec k) msg buffer i above,
)
