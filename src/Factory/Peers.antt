-- ===== src/Factory/Peers.antt =====
-- A peer that has gone: what CandidateVoteHandler makes of it.
use raft_distributed_kv.Prelude.{◌≡◌, some, true, false, arith}
use raft_distributed_kv.Messages.RequestVoteMessage
use raft_distributed_kv.Messages.RequestVoteMessage.{RequestVoteMessage}
use raft_distributed_kv.Messages.RequestVoteResponse.{RequestVoteResponse}
use raft_distributed_kv.Metadata.{ServerMetadata, Socket}
use raft_distributed_kv.Metadata.Invariant.{IsSound}
use raft_distributed_kv.Metadata.Vote.{get_vote_response}
use raft_distributed_kv.Metadata.Vote.Grants.{get_vote_response_total}
use raft_distributed_kv.Rpc.Transport.{Transport}
use raft_distributed_kv.Stub.{recv_request_vote, send_vote_response}
use raft_distributed_kv.Factory.{candidate_vote_handler, check_heartbeat}

-- Every vote message counts as a sign of life.
vote_heartbeat :
    (m m' : ServerMetadata) (msg : RequestVoteMessage) (res : RequestVoteResponse)
    → get_vote_response m msg ≡ some (res, m')
    → m'.heartbeat ≡ true
unfolding get_vote_response
vote_heartbeat m m' msg res e = ground arith

module _ (T : Transport) where
  open T use {Net, recv}

  -- If the candidate has gone before its vote message came, CandidateVoteHandler on a sound
  -- server returns with the state that GetVoteResponse makes of the message that the memory held,
  -- and has sent that call's response after the failed receive; the heartbeat is set, so that the
  -- next timeout does not make the server a candidate.
  pub dead_candidate_resets_timeout :
      (memory : RequestVoteMessage) (stub : Socket) (m : ServerMetadata) (net : Net)
      → IsSound m
      → (recv stub RequestVoteMessage.size net).0.0 ≡ false
      → (res : RequestVoteResponse) × (m' : ServerMetadata) × (get_vote_response m
            (RequestVoteMessage.init memory)
          ≡ some (res, m'))
        × (candidate_vote_handler T memory stub m net
            ≡ some
                (m', (send_vote_response T res stub (recv stub RequestVoteMessage.size net).1).1))
        × (m'.heartbeat ≡ true)
        × ((check_heartbeat m').status ≡ m'.status)
  unfolding candidate_vote_handler check_heartbeat recv_request_vote
  dead_candidate_resets_timeout memory stub m net s dead =
      let ((res, m'), e) = get_vote_response_total m (RequestVoteMessage.init memory) s in
      let beat = vote_heartbeat m m' (RequestVoteMessage.init memory) res e in
      (res, m', e, rw (dead, e), beat, ground (arith, beat))
