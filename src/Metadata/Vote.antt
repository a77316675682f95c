-- ===== src/Metadata/Vote.antt =====
-- Elections: WonElection, InitLeader, SetAckLength and GetVoteResponse of ServerMetadata.cpp.
pub mod Grants
pub mod Quorum
use raft_distributed_kv.Prelude.{
  ℕ, suc, ◌+◌, ◌*◌, List, [], Option, none, some, ◌>>=◌, Bool, true, false, ◌||◌, ◌&&◌,
  if◌then◌else◌, length, leb, replicate, ℤ, pos, minus_one, ltb_ℤ, leb_ℤ, ◌==ℤ◌,
}
use raft_distributed_kv.Messages.RequestVoteMessage
use raft_distributed_kv.Messages.RequestVoteMessage.{RequestVoteMessage}
use raft_distributed_kv.Messages.RequestVoteResponse.{
  RequestVoteResponse, set_request_vote_response,
}
use raft_distributed_kv.Metadata.{
  ServerMetadata, follower, leader, get_peer_size, get_last_term, assign, find, put, insert,
}

unfoldable pub won_election : ServerMetadata → Bool
won_election m = leb (get_peer_size m) (length m.vote_received * 2)

unfoldable pub init_leader : ServerMetadata → ServerMetadata
init_leader m = record m {
  sent_length = some (replicate (get_peer_size m + 1) m.log_size);
  ack_length = some (replicate (get_peer_size m + 1) (pos 0));
  leader_id = m.factory_id;
  status = leader;
}

-- Before InitLeader there is no array to write to.
unfoldable pub set_ack_length : ServerMetadata → ℤ → ℤ → Option ServerMetadata
set_ack_length m node_idx size = do
  acks ← m.ack_length
  acks' ← assign acks (if node_idx ==ℤ minus_one then pos (get_peer_size m) else node_idx) size
  some (record m { ack_length = some acks' })

-- A message of a higher term makes the receiver a follower that has voted for the sender.
unfoldable pub adopt_term : ServerMetadata → RequestVoteMessage → ServerMetadata
adopt_term m msg =
    if ltb_ℤ m.current_term msg.current_term
    then record m {
      current_term = msg.current_term;
      status = follower;
      vote_received = [];
      voted_for = msg.id;
    }
    else m

-- `valid`: the candidate's log is at least as recent.
unfoldable pub is_recent : ServerMetadata → ℤ → RequestVoteMessage → Bool
is_recent m last_term msg =
    ltb_ℤ last_term msg.last_term || (msg.last_term ==ℤ last_term && leb_ℤ m.log_size msg.log_size)

unfoldable pub grants : ServerMetadata → ℤ → RequestVoteMessage → Bool
grants m last_term msg =
    is_recent m last_term msg && (msg.current_term ==ℤ m.current_term && m.voted_for ==ℤ msg.id)

unfoldable pub get_vote_response :
    ServerMetadata → RequestVoteMessage → Option (RequestVoteResponse × ServerMetadata)
get_vote_response m msg = do
  last_term ← get_last_term m
  let m' = adopt_term m msg
  some (
    set_request_vote_response m'.factory_id m'.current_term
        (if grants m' last_term msg then pos 1 else pos 0),
    record m' { heartbeat = true },
  )
