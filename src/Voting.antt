-- ===== src/Voting.antt =====
-- The vote that a server has given in a term, through GetVoteResponse and GetLogResponse of
-- ServerMetadata.cpp.
use raft_distributed_kv.Prelude.{
  ◌≡◌, ◌≢◌, ◌⊎◌, inl, inr, some, arith, ℤ, pos, minus_one, ◌≤ℤ◌, ◌<ℤ◌, Option-cases,
}
use raft_distributed_kv.Messages.RequestVoteMessage.{RequestVoteMessage}
use raft_distributed_kv.Messages.RequestVoteResponse.{RequestVoteResponse}
use raft_distributed_kv.Messages.LogRequest.{LogRequest}
use raft_distributed_kv.Messages.LogResponse.{LogResponse}
use raft_distributed_kv.Metadata.{ServerMetadata, follower, get_last_term}
use raft_distributed_kv.Metadata.Vote.{get_vote_response, adopt_term}
use raft_distributed_kv.Metadata.Vote.Grants.{IsRecent, get_vote_response-IsBallot}
use raft_distributed_kv.Metadata.Append.{get_log_response, accept_leader, is_follower}
use raft_distributed_kv.Metadata.Append.Terms.{get_log_response-SameRole}
use raft_distributed_kv.Metadata.Append.Conflicts.{stale_leader_accepted}

-- The vote of the term t is given to a, or the term is over. A heartbeat of the term takes the vote
-- back (-1), and no other vote of the term can follow.
pub record Held (t a : ℤ) (m : ServerMetadata) : Type 0 where
  pub held :
      (t <ℤ m.current_term)
      ⊎ ((m.current_term ≡ t) × ((m.voted_for ≡ a) ⊎ (m.voted_for ≡ minus_one)))

pub vote-Held :
    (t a : ℤ) (m m' : ServerMetadata) (msg : RequestVoteMessage) (res : RequestVoteResponse)
    → get_vote_response m msg ≡ some (res, m')
    → Held t a m
    → Held t a m'
unfolding get_vote_response adopt_term
vote-Held t a m m' msg res e h = ground arith

pub append-Held :
    (t a : ℤ) (m m' : ServerMetadata) (req : LogRequest) (res : LogResponse)
    → get_log_response m req ≡ some (res, m')
    → (m.status ≡ follower → m.current_term ≤ℤ req.current_term)
    → Held t a m
    → Held t a m'
unfolding accept_leader is_follower
append-Held t a m m' req res e fresh h = ground (arith, get_log_response-SameRole m m' req res e)

granted_last :
    (m m' : ServerMetadata) (msg : RequestVoteMessage) (res : RequestVoteResponse)
    → get_vote_response m msg ≡ some (res, m')
    → (last : ℤ) × (get_last_term m ≡ some last)
unfolding get_vote_response
granted_last m m' msg res e = elim (Option-cases (get_last_term m)) [
  | inl c ↦ ground arith
  | inr (last, c) ↦ (last, c)
]

-- A vote that is granted is held, and one that can be granted under a held one is the same.
pub grant-Held :
    (m m' : ServerMetadata) (msg : RequestVoteMessage) (res : RequestVoteResponse)
    → get_vote_response m msg ≡ some (res, m')
    → res.voted ≡ pos 1
    → Held msg.current_term msg.id m'
grant-Held m m' msg res e y =
    let (last, c) = granted_last m m' msg res e in
    ground (arith, (get_vote_response-IsBallot m m' msg last res c e).ballot y)

pub grant-same :
    (a : ℤ) (m m' : ServerMetadata) (msg : RequestVoteMessage) (res : RequestVoteResponse)
    → get_vote_response m msg ≡ some (res, m')
    → res.voted ≡ pos 1
    → msg.id ≢ minus_one
    → Held msg.current_term a m
    → msg.id ≡ a
grant-same a m m' msg res e y ne h =
    let (last, c) = granted_last m m' msg res e in
    ground (arith, (get_vote_response-IsBallot m m' msg last res c e).granted.0 y)

-- A follower that has heard from a leader of an older term than its own grants a vote in the term
-- that it had, to any candidate that is recent enough, also if it has given that term's vote to
-- another.
pub stale_leader_second_vote :
    (m1 m2 m3 : ServerMetadata) (req : LogRequest) (res : LogResponse) (second : RequestVoteMessage)
    (r2 : RequestVoteResponse) (last : ℤ)
    → m1.status ≡ follower
    → req.current_term <ℤ m1.current_term
    → get_log_response m1 req ≡ some (res, m2)
    → second.current_term ≡ m1.current_term
    → get_last_term m2 ≡ some last
    → IsRecent last m2.log_size second
    → get_vote_response m2 second ≡ some (r2, m3)
    → (r2.voted ≡ pos 1) × (r2.current_term ≡ m1.current_term)
stale_leader_second_vote m1 m2 m3 req res second r2 last f older e1 same recent fits e2 =
    let stale = stale_leader_accepted m1 m2 req res f older e1 in
    let vote = get_vote_response-IsBallot m2 m3 second last r2 recent e2 in
    ground (arith, vote.granted.1 (fits, inl (ground arith)), vote.ballot, vote.term)
