-- ===== src/Rpc/Election.antt =====
-- A candidate's round of votes: RequestVote of ServerMetadata.cpp.
pub mod Terms
pub mod Tally
pub mod Counted
use raft_distributed_kv.Prelude.{
  ℕ, Option, none, some, ◌>>=◌, Bool, true, false, not, ◌&&◌, List, [], ◌∷◌, ℤ, pos, minus_one,
  ◌+ℤ◌, ltb_ℤ, ◌==ℤ◌, if◌then◌else◌,
}
use raft_distributed_kv.Messages.RequestVoteResponse
use raft_distributed_kv.Messages.RequestVoteResponse.{RequestVoteResponse}
use raft_distributed_kv.Metadata.{ServerMetadata, Socket, NodePtr, follower, checked, insert}
use raft_distributed_kv.Metadata.Vote.{won_election, init_leader}
use raft_distributed_kv.Rpc.Transport.{
  Transport, send_identifier, send_request_vote, recv_vote_response,
}

-- The candidate's vote for itself, and the next term. The votes received before stay.
unfoldable pub start_election : ServerMetadata → Option ServerMetadata
start_election m = do
  term ← checked (m.current_term +ℤ pos 1)
  some (record m {
    voted_for = m.factory_id;
    vote_received = insert m.vote_received m.factory_id;
    current_term = term;
  })

-- Another server has a higher term.
unfoldable pub demote : ServerMetadata → ℤ → ServerMetadata
demote m term = record m {
  current_term = term;
  status = follower;
  voted_for = minus_one;
  vote_received = [];
}

-- What a response does, with whether the loop goes on.
unfoldable pub count_vote : ServerMetadata → RequestVoteResponse → Bool × ServerMetadata
count_vote m res =
    if m.current_term ==ℤ res.current_term && not (res.voted ==ℤ pos 0)
    then (let m' = record m { vote_received = insert m.vote_received res.id } in
        if won_election m' then (false, init_leader m') else (true, m'))
    else (if ltb_ℤ m.current_term res.current_term
        then (false, demote m res.current_term)
        else (true, m))

module _ (T : Transport) where
  open T use {Net}

  -- One neighbour; the results of the two sends are not looked at.
  unfoldable pub ask_vote : Socket → ServerMetadata → Net → Option ((Bool × ServerMetadata) × Net)
  ask_vote socket m net =
      let (_, told) = send_identifier T (pos 0) socket net in
      do
        sent ← send_request_vote T m socket told
        let (res, net') = recv_vote_response T socket sent.1
        some (count_vote m res, net')

  unfoldable pub ask_votes :
      List (NodePtr × Socket) → ServerMetadata → Net → Option (ServerMetadata × Net)
  ask_votes [] m net = some (m, net)
  ask_votes ((node, socket) ∷ rest) m net = do
    asked ← ask_vote socket m net
    let (heard, net') = asked
    elim heard.0 [ true ↦ ask_votes rest heard.1 net' | false ↦ some (heard.1, net') ]

  unfoldable pub request_vote : ServerMetadata → Net → Option (ServerMetadata × Net)
  request_vote m net = do m' ← start_election m; ask_votes m'.node_socket m' net
