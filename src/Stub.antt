-- ===== src/Stub.antt =====
-- ServerStub of ServerStub.cpp: the messages that a server exchanges with whoever has connected to it,
-- over the same sends and receives of a socket as those of ServerMetadata.cpp. What a variable held
-- before is an argument `memory` where the code can return it.
use raft_distributed_kv.Prelude.{Bool, ℤ, pos, ◌+ℤ◌, take, if◌then◌else◌}
use raft_distributed_kv.Messages.Identifier
use raft_distributed_kv.Messages.Identifier.{set_identifier}
use raft_distributed_kv.Messages.CustomerRequest
use raft_distributed_kv.Messages.CustomerRequest.{CustomerRequest}
use raft_distributed_kv.Messages.CustomerRecord
use raft_distributed_kv.Messages.CustomerRecord.{CustomerRecord}
use raft_distributed_kv.Messages.LaptopInfo
use raft_distributed_kv.Messages.LaptopInfo.{LaptopInfo}
use raft_distributed_kv.Messages.LeaderInfo
use raft_distributed_kv.Messages.LeaderInfo.{LeaderInfo}
use raft_distributed_kv.Messages.RequestVoteMessage
use raft_distributed_kv.Messages.RequestVoteMessage.{RequestVoteMessage}
use raft_distributed_kv.Messages.RequestVoteResponse
use raft_distributed_kv.Messages.RequestVoteResponse.{RequestVoteResponse}
use raft_distributed_kv.Messages.LogRequest
use raft_distributed_kv.Messages.LogRequest.{LogRequest}
use raft_distributed_kv.Messages.LogResponse
use raft_distributed_kv.Messages.LogResponse.{LogResponse}
use raft_distributed_kv.Metadata.{Socket}
use raft_distributed_kv.Rpc.Transport.{Transport, buffer}

module _ (T : Transport) where
  open T use {Net, send, recv}

  unfoldable pub receive_request : Socket → Net → CustomerRequest × Net
  receive_request socket net =
      let (got, net') = recv socket CustomerRequest.size net in
      (if got.0 then CustomerRequest.unmarshal got.1 else CustomerRequest.init, net')

  unfoldable pub ship_laptop : LaptopInfo → Socket → Net → Bool × Net
  ship_laptop info socket net =
      send socket (take LaptopInfo.size (LaptopInfo.marshal info (buffer 32))) net

  unfoldable pub return_record : CustomerRecord → Socket → Net → Bool × Net
  return_record entry socket net =
      send socket (take CustomerRecord.size (CustomerRecord.marshal entry (buffer 32))) net

  -- 0 if the identification failed.
  unfoldable pub identify_sender : Socket → Net → ℤ × Net
  identify_sender socket net =
      let (got, net') = recv socket Identifier.size net in
      (if got.0 then (Identifier.unmarshal got.1).identifier else pos 0, net')

  unfoldable pub send_is_leader : ℤ → Socket → Net → Bool × Net
  send_is_leader is_leader socket net =
      let identifier = set_identifier (is_leader +ℤ pos 1) in
      send socket (take Identifier.size (Identifier.marshal identifier (buffer 4))) net

  unfoldable pub send_leader_info : LeaderInfo → Socket → Net → Bool × Net
  send_leader_info info socket net =
      send socket (take LeaderInfo.size (LeaderInfo.marshal info (buffer 32))) net

  unfoldable pub recv_request_vote : RequestVoteMessage → Socket → Net → RequestVoteMessage × Net
  recv_request_vote memory socket net =
      let (got, net') = recv socket RequestVoteMessage.size net in
      (if got.0 then RequestVoteMessage.unmarshal got.1 else RequestVoteMessage.init memory, net')

  unfoldable pub send_vote_response : RequestVoteResponse → Socket → Net → Bool × Net
  send_vote_response res socket net =
      send socket (take RequestVoteResponse.size (RequestVoteResponse.marshal res (buffer 32))) net

  -- Whether all came is not asked: the buffer is read in any case.
  unfoldable pub identify_rpc : Socket → Net → ℤ × Net
  identify_rpc socket net =
      let (got, net') = recv socket Identifier.size net in
      ((Identifier.unmarshal got.1).identifier, net')

  unfoldable pub recv_log_request : LogRequest → Socket → Net → LogRequest × Net
  recv_log_request memory socket net =
      let (got, net') = recv socket LogRequest.size net in
      (if got.0 then LogRequest.unmarshal got.1 else LogRequest.init memory, net')

  unfoldable pub send_log_response : LogResponse → Socket → Net → Bool × Net
  send_log_response log_res socket net =
      send socket (take LogResponse.size (LogResponse.marshal log_res (buffer 32))) net
