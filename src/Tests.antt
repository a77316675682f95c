-- ===== src/Tests.antt =====
-- Concrete servers and messages, and the theorems at them.
use raft_distributed_kv.Prelude.{
  ◌≡◌, refl, inl, inr, Option, some, none, true, false, List, [], ◌∷◌, arith, ℕ, ℤ, pos, negsuc,
  minus_one, ◌+ℤ◌, ◌-ℤ◌, ◌≤ℤ◌, ◌<ℤ◌, ◌<◌, length, replicate, get_or, IsInt,
}
use raft_distributed_kv.Words.{Bytes}
use raft_distributed_kv.Messages.Kinds.{log_request_kind, messages_round_trip}
use raft_distributed_kv.Messages.RequestVoteMessage
use raft_distributed_kv.Messages.RequestVoteMessage.{RequestVoteMessage}
use raft_distributed_kv.Messages.RequestVoteResponse.{
  RequestVoteResponse, set_request_vote_response,
}
use raft_distributed_kv.Messages.LogRequest
use raft_distributed_kv.Messages.LogRequest.{LogRequest}
use raft_distributed_kv.Messages.LogResponse.{LogResponse, set_log_response}
use raft_distributed_kv.Metadata.{
  ServerMetadata, NodePtr, MapOp, Status, follower, leader, candidate, at, checked, get_last_term,
  get_term_at_idx, get_op, put, get_peer_size,
}
use raft_distributed_kv.Metadata.Log.{
  append_log, execute_log, drop_uncommitted_log, pop_times, pop_back,
}
use raft_distributed_kv.Metadata.Append.{
  get_log_response, accept_leader, is_follower, can_log, respond, log_entry, drop_entries,
  append_entry, commit_entry,
}
use raft_distributed_kv.Metadata.Vote.{
  get_vote_response, adopt_term, grants, is_recent, won_election,
}
use raft_distributed_kv.Metadata.Invariant.{IsSound, IsValid, replay, apply}
use raft_distributed_kv.Metadata.Append.Keeps.{get_log_response-IsSound}
use raft_distributed_kv.Metadata.Append.Total.{IsRequest, get_log_response_total}
use raft_distributed_kv.Metadata.Append.Terms.{IsReply, get_log_response-IsReply}
use raft_distributed_kv.Metadata.Append.Conflicts.{conflict_acknowledged, stale_leader_accepted}
use raft_distributed_kv.Metadata.Vote.Grants.{
  IsBallot, get_vote_response-IsBallot, get_vote_response_total, get_vote_response-IsSound,
}
use raft_distributed_kv.Metadata.Vote.Quorum.{won_election_half, won_election_small}
use raft_distributed_kv.Voting.{stale_leader_second_vote}
use raft_distributed_kv.Words.RoundTrip.{All}
pub mod Leader
pub mod Address
pub mod Factory
pub mod Engineer
pub mod Sockets
pub mod Client
pub mod Start
pub mod Link
pub mod Replication

abbrev pub op : ℕ → ℕ → ℕ → MapOp
op t c o = record { term = pos t; arg1 = pos c; arg2 = pos o }

abbrev pub peer : ℕ → NodePtr
peer n = record { address = n; node = record { id = pos n; ip = []; port = pos 12345 } }

-- Server 2 of three, a follower in term 3 with two entries, the first one committed.
abbrev pub behind : ServerMetadata
behind = record {
  leader_id = pos 1;
  factory_id = pos 2;
  current_term = pos 3;
  status = follower;
  commit_length = pos 1;
  log_size = pos 2;
  voted_for = pos 1;
  vote_received = [];
  sent_length = none;
  ack_length = none;
  heartbeat = false;
  customer_record = (pos 7, pos 0) ∷ [];
  smr_log = op 1 7 0 ∷ op 2 8 4 ∷ [];
  server_index_map = (pos 0, pos 0) ∷ (pos 1, pos 1) ∷ [];
  neighbors = peer 0 ∷ peer 1 ∷ [];
  node_socket = [];
  failed_neighbors = [];
}

-- The leader of term 3 sends the third entry, and has committed two.
abbrev entry : LogRequest
entry = record {
  leader_id = pos 1;
  current_term = pos 3;
  prefix_length = pos 2;
  prefix_term = pos 2;
  commit_length = pos 2;
  op_term = pos 3;
  op_arg1 = pos 7;
  op_arg2 = pos 1;
}

abbrev caught_up : ServerMetadata
caught_up = record behind {
  voted_for = minus_one;
  heartbeat = true;
  commit_length = pos 2;
  log_size = pos 3;
  customer_record = (pos 7, pos 0) ∷ (pos 8, pos 4) ∷ [];
  smr_log = op 1 7 0 ∷ op 2 8 4 ∷ op 3 7 1 ∷ [];
}

abbrev accepted : LogResponse
accepted = record { follower_id = pos 2; current_term = pos 3; ack = pos 3; success = pos 1 }

-- Every function that a test runs through.
code : ℕ
unfolding get_log_response accept_leader is_follower can_log get_term_at_idx at checked ◌-ℤ◌ ◌+ℤ◌
    respond log_entry drop_entries append_entry append_log commit_entry execute_log get_op put
    set_log_response get_vote_response adopt_term grants is_recent get_last_term
    set_request_vote_response drop_uncommitted_log pop_times pop_back
code = 0

entry_runs : get_log_response behind entry ≡ some (accepted, caught_up)
unfolding code
entry_runs = refl

pub behind-IsSound : IsSound behind
unfolding replay apply put
behind-IsSound = record { valid = ground arith; applied = refl }

get_log_response-IsSound_example : IsSound caught_up
get_log_response-IsSound_example =
    get_log_response-IsSound behind caught_up entry accepted entry_runs behind-IsSound

entry-IsRequest : IsRequest entry
entry-IsRequest = record { prefix = omega arith; heartbeat = λ e. ground arith }

get_log_response_total_example :
    (out : LogResponse × ServerMetadata) × (get_log_response behind entry ≡ some out)
get_log_response_total_example =
    get_log_response_total behind entry behind-IsSound (omega arith) entry-IsRequest

get_log_response-IsReply_example : IsReply behind entry accepted caught_up
get_log_response-IsReply_example =
    get_log_response-IsReply behind caught_up entry accepted entry_runs

-- A leader of term 3 whose second entry is another one: it has sent one entry so far.
abbrev conflicting : LogRequest
conflicting = record entry {
  prefix_length = pos 1;
  prefix_term = pos 1;
  commit_length = pos 1;
  op_arg2 = pos 9;
}

conflict_acknowledged_example :
    get_log_response behind conflicting
    ≡ some
        (record accepted { ack = pos 2 }, record behind { voted_for = minus_one; heartbeat = true })
unfolding code
conflict_acknowledged_example =
    conflict_acknowledged behind conflicting behind-IsSound.valid
      (record { prefix = omega arith; heartbeat = λ e. ground arith }) (omega arith) (omega arith)
      refl

-- The deposed leader of term 2 sends a heartbeat to the follower in term 3.
abbrev stale : LogRequest
stale = record {
  leader_id = pos 0;
  current_term = pos 2;
  prefix_length = pos 2;
  prefix_term = pos 2;
  commit_length = pos 1;
  op_term = minus_one;
  op_arg1 = minus_one;
  op_arg2 = minus_one;
}

abbrev regressed : ServerMetadata
regressed = record behind {
  leader_id = pos 0;
  current_term = pos 2;
  voted_for = minus_one;
  heartbeat = true;
}

abbrev stale_reply : LogResponse
stale_reply = record { follower_id = pos 2; current_term = pos 2; ack = pos 3; success = pos 1 }

stale_runs : get_log_response behind stale ≡ some (stale_reply, regressed)
unfolding code
stale_runs = refl

-- Server 0 asks for the vote of term 3, which server 2 has given to server 1.
abbrev rival : RequestVoteMessage
rival = record { id = pos 0; current_term = pos 3; log_size = pos 2; last_term = pos 2 }

abbrev pub granted : RequestVoteResponse
granted = record { id = pos 2; current_term = pos 3; voted = pos 1 }

abbrev rival_voter : ServerMetadata
rival_voter = record behind {
  leader_id = pos 0;
  current_term = pos 3;
  voted_for = pos 0;
  heartbeat = true;
}

rival_runs : get_vote_response regressed rival ≡ some (granted, rival_voter)
unfolding code
rival_runs = refl

last_runs : get_last_term regressed ≡ some (pos 2)
unfolding code
last_runs = refl

stale_leader_second_vote_example :
    (granted.voted ≡ pos 1) × (granted.current_term ≡ behind.current_term)
stale_leader_second_vote_example =
    stale_leader_second_vote behind regressed rival_voter stale stale_reply rival granted (pos 2)
      refl (omega arith) stale_runs refl last_runs (inr (refl, omega arith)) rival_runs

get_vote_response-IsBallot_example : IsBallot regressed rival (pos 2) granted rival_voter
get_vote_response-IsBallot_example =
    get_vote_response-IsBallot regressed rival_voter rival (pos 2) granted last_runs rival_runs

get_vote_response_total_example :
    (out : RequestVoteResponse × ServerMetadata) × (get_vote_response behind rival ≡ some out)
get_vote_response_total_example = get_vote_response_total behind rival behind-IsSound

regressed-IsSound : IsSound regressed
regressed-IsSound =
    get_log_response-IsSound behind regressed stale stale_reply stale_runs behind-IsSound

-- The same vote again, after a heartbeat of server 0, which has won, and another request of server 0.
abbrev pub led : ServerMetadata
led = record rival_voter { voted_for = minus_one }

abbrev won : LogRequest
won = record stale { current_term = pos 3 }

won_runs :
    get_log_response rival_voter won ≡ some (record stale_reply { current_term = pos 3 }, led)
unfolding code
won_runs = refl

-- Server 0 asks twice in term 4.
abbrev pub again : RequestVoteMessage
again = record rival { current_term = pos 4 }

abbrev pub voter : ServerMetadata
voter = record led { current_term = pos 4; voted_for = pos 0 }

pub again_runs : get_vote_response led again ≡ some (record granted { current_term = pos 4 }, voter)
unfolding code
again_runs = refl

abbrev pub retry : RequestVoteMessage
retry = record again { log_size = pos 3 }

pub twice_runs :
    get_vote_response voter retry ≡ some (record granted { current_term = pos 4 }, voter)
unfolding code
twice_runs = refl

late_runs :
    get_vote_response voter rival
    ≡ some (record granted { current_term = pos 4; voted = pos 0 }, voter)
unfolding code
late_runs = refl

won_election_half_example :
    (won_election (record behind {
      neighbors = peer 0 ∷ peer 1 ∷ peer 3 ∷ peer 4 ∷ [];
      vote_received = pos 2 ∷ pos 0 ∷ [];
    })
      ≡ true)
    × ¬ (5 < 4)
unfolding get_peer_size
won_election_half_example =
    won_election_half
      (record behind {
        neighbors = peer 0 ∷ peer 1 ∷ peer 3 ∷ peer 4 ∷ [];
        vote_received = pos 2 ∷ pos 0 ∷ [];
      })
      refl

LogRequest-ints : All IsInt (LogRequest.fields entry)
LogRequest-ints = omega arith

-- The byte behind the message, in a buffer of 64.
messages_round_trip_example :
    (LogRequest.unmarshal (LogRequest.marshal entry (replicate 64 5)) ≡ entry)
    × (length (LogRequest.marshal entry (replicate 64 5)) ≡ 64)
    × (get_or (LogRequest.marshal entry (replicate 64 5)) 32 0 ≡ 5)
messages_round_trip_example =
    messages_round_trip log_request_kind entry (replicate 64 5) 32 LogRequest-ints (omega arith)
      (omega arith)
