-- ===== src/Metadata/Vote/Quorum.antt =====
-- What WonElection takes for a majority.
use raft_distributed_kv.Prelude.{ℕ, ◌+◌, ◌*◌, ◌/◌, ◌≤◌, ◌<◌, ◌≡◌, true, length, arith}
use raft_distributed_kv.Metadata.{ServerMetadata, get_peer_size}
use raft_distributed_kv.Metadata.Vote.{won_election}

-- The servers of the cluster: the neighbours and the server itself.
abbrev pub servers : ServerMetadata → ℕ
servers m = get_peer_size m + 1

-- With at most three servers two votes win, and two votes are more than half of the servers.
pub won_election_small :
    (m : ServerMetadata)
    → servers m ≤ 3
    → 2 ≤ length m.vote_received
    → (won_election m ≡ true) × (servers m < length m.vote_received * 2)
unfolding won_election
won_election_small m few votes = ground arith

-- If the votes are half of the servers, rounded down, WonElection is true, though they are not more
-- than half of the servers.
pub won_election_half :
    (m : ServerMetadata)
    → length m.vote_received ≡ servers m / 2
    → (won_election m ≡ true) × ¬ (servers m < length m.vote_received * 2)
unfolding won_election
won_election_half m half = ground arith
