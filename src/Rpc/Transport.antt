-- ===== src/Rpc/Transport.antt =====
-- What ServerMetadata.cpp uses of ClientSocket (ClientSocket.cpp, Socket.cpp) and of the network
-- behind it, as an interface; and the messages that it sends and receives through it:
-- SendIdentifier, SendRequestVote, RecvVoteResponse, SendLogRequest and RecvLogResponse.
use raft_distributed_kv.Prelude.{
  ℕ, Option, some, ◌>>=◌, Bool, List, take, replicate, ℤ, if◌then◌else◌,
}
use raft_distributed_kv.Words.{Bytes}
use raft_distributed_kv.Messages.Identifier
use raft_distributed_kv.Messages.Identifier.{set_identifier}
use raft_distributed_kv.Messages.RequestVoteMessage
use raft_distributed_kv.Messages.RequestVoteMessage.{RequestVoteMessage, set_request_vote_message}
use raft_distributed_kv.Messages.RequestVoteResponse
use raft_distributed_kv.Messages.RequestVoteResponse.{RequestVoteResponse}
use raft_distributed_kv.Messages.LogRequest
use raft_distributed_kv.Messages.LogRequest.{LogRequest}
use raft_distributed_kv.Messages.LogResponse
use raft_distributed_kv.Messages.LogResponse.{LogResponse}
use raft_distributed_kv.Metadata.{ServerMetadata, Socket, get_last_term}

-- `send` is Socket::Send, and says whether all was sent. `recv` is Socket::Recv of so many bytes: it
-- says whether all came, and what the buffer holds then, which is anything if not all came.
-- `connect` is a new ClientSocket and its Init, `close` is Socket::Close. `reconnect` is Init of a
-- ClientSocket that has been initialized before: what is still open of it is closed first.
pub record Transport : Type 1 where
  pub Net : Type 0
  pub send : Socket → Bytes → Net → Bool × Net
  pub recv : Socket → ℕ → Net → (Bool × Bytes) × Net
  pub connect : List ℕ → ℤ → Net → (Bool × Socket) × Net
  pub reconnect : Socket → List ℕ → ℤ → Net → (Bool × Socket) × Net
  pub close : Socket → Net → Net

-- `char buffer[n]`; every byte that is sent has been written before.
abbrev pub buffer : ℕ → Bytes
buffer n = replicate n 0

module _ (T : Transport) where
  open T use {Net, send, recv}

  unfoldable pub send_identifier : ℤ → Socket → Net → Bool × Net
  send_identifier identifier socket net =
      send socket (take Identifier.size (Identifier.marshal (set_identifier identifier) (buffer 4)))
        net

  unfoldable pub send_request_vote : ServerMetadata → Socket → Net → Option (Bool × Net)
  send_request_vote m socket net = do
    last_term ← get_last_term m
    let msg = set_request_vote_message m.factory_id m.current_term m.log_size last_term
    some (
        send socket (take RequestVoteMessage.size (RequestVoteMessage.marshal msg (buffer 32))) net)

  -- Whether all came is not asked: the buffer is read in any case.
  unfoldable pub recv_vote_response : Socket → Net → RequestVoteResponse × Net
  recv_vote_response socket net =
      let (got, net') = recv socket RequestVoteResponse.size net in
      (RequestVoteResponse.unmarshal got.1, net')

  unfoldable pub send_log_request : LogRequest → Socket → Net → Bool × Net
  send_log_request req socket net =
      send socket (take LogRequest.size (LogRequest.marshal req (buffer 64))) net

  -- If not all came, the response is as it was constructed: its `follower_id` is -1.
  unfoldable pub recv_log_response : Socket → Net → LogResponse × Net
  recv_log_response socket net =
      let (got, net') = recv socket LogResponse.size net in
      (if got.0 then LogResponse.unmarshal got.1 else LogResponse.init, net')
