-- ===== src/Tests/Leader.antt =====
-- A leader and a candidate over a network that answers from a script, and the theorems at them.
use raft_distributed_kv.Prelude.{
  returned, ◌≡◌, ◌⊎◌, refl, some, none, Bool, true, false, ◌||◌, List, [], ◌∷◌, arith, ℕ, pos,
  minus_one, ◌+ℤ◌, ◌-ℤ◌, ◌<ℤ◌, replicate, get_elem?, ◌≢◌, zero, suc,
}
use raft_distributed_kv.Words.{
  Bytes, put_ints, put_int, get_int, store, load, htonl, ntohl, to_word, signed32,
}
use raft_distributed_kv.Messages.Identifier
use raft_distributed_kv.Messages.LogRequest
use raft_distributed_kv.Messages.LogRequest.{LogRequest}
use raft_distributed_kv.Messages.LogResponse
use raft_distributed_kv.Messages.LogResponse.{LogResponse}
use raft_distributed_kv.Messages.RequestVoteMessage
use raft_distributed_kv.Messages.RequestVoteResponse
use raft_distributed_kv.Messages.RequestVoteResponse.{RequestVoteResponse}
use raft_distributed_kv.Metadata.{
  ServerMetadata, MapOp, NodePtr, leader, candidate, at, assign, checked, find, put, value_at,
  insert, contains, get_op, get_last_term, get_term_at_idx, get_prefix_term, get_peer_size,
}
use raft_distributed_kv.Metadata.Invariant.{IsSound, replay, apply}
use raft_distributed_kv.Metadata.Log.{execute_log}
use raft_distributed_kv.Metadata.Commit.{
  count_acks, find_commit, execute_range, commit_up_to, commit_log,
}
use raft_distributed_kv.Metadata.Commit.Keeps.{HasAcks, IsCommit, commit_log_lem}
use raft_distributed_kv.Metadata.Append.Total.{IsRequest}
use raft_distributed_kv.Metadata.Membership.{put_socket, clean_node_state}
use raft_distributed_kv.Metadata.Vote.{won_election, init_leader}
use raft_distributed_kv.Rpc.Transport.{
  Transport, send_identifier, send_request_vote, recv_vote_response, send_log_request,
  recv_log_response,
}
use raft_distributed_kv.Rpc.Election.{
  start_election, demote, count_vote, ask_vote, ask_votes, request_vote,
}
use raft_distributed_kv.Rpc.Election.Tally.{IsElection, Heard, first, request_vote-IsElection}
use raft_distributed_kv.Rpc.Election.Counted.{vote_is_counted}
use raft_distributed_kv.Rpc.Reconnect.{init_neighbors, try_reconnect}
use raft_distributed_kv.Rpc.Reconnect.Lost.{init_neighbors_lost}
use raft_distributed_kv.Rpc.Reconnect.Queue.{queued, connected, try_reconnect_keeps}
use raft_distributed_kv.Rpc.Replicate.{
  make_request, record_ack, step_back, handle_response, fail_node, react, exchange, visit, after,
  round_step, visit_all, rounds, replicate_log, is_leader_status,
}
use raft_distributed_kv.Rpc.Replicate.Keeps.{IsLeading}
use raft_distributed_kv.Rpc.Replicate.Loop.{replicate_log-IsLeading}
use raft_distributed_kv.Rpc.Replicate.Requests.{Carries, make_request-IsRequest}

-- Every send succeeds, each receive takes the next answer of the script, and every new connection is
-- refused.
abbrev answer : List Bytes → (Bool × Bytes) × List Bytes
answer [] = ((false, replicate 32 0), [])
answer (b ∷ script) = ((true, b), script)

abbrev pub scripted : Transport
scripted = record {
  Net = List Bytes;
  send = λ socket bytes script. (true, script);
  recv = λ socket size script. answer script;
  connect = λ ip port script. ((false, 9), script);
  reconnect = λ socket ip port script. ((false, 9), script);
  close = λ socket script. script;
}

abbrev pub op : ℕ → ℕ → ℕ → MapOp
op t c o = record { term = pos t; arg1 = pos c; arg2 = pos o }

abbrev pub peer : ℕ → NodePtr
peer n = record { address = n; node = record { id = pos n; ip = []; port = pos 12345 } }

-- Server 0 leads servers 1 and 2 in term 3; both have two of its three entries.
abbrev pub leading : ServerMetadata
leading = record {
  leader_id = pos 0;
  factory_id = pos 0;
  current_term = pos 3;
  status = leader;
  commit_length = pos 1;
  log_size = pos 3;
  voted_for = pos 0;
  vote_received = pos 0 ∷ pos 1 ∷ [];
  sent_length = some (pos 2 ∷ pos 2 ∷ pos 3 ∷ []);
  ack_length = some (pos 2 ∷ pos 2 ∷ pos 3 ∷ []);
  heartbeat = false;
  customer_record = (pos 7, pos 0) ∷ [];
  smr_log = op 1 7 0 ∷ op 2 8 4 ∷ op 3 7 1 ∷ [];
  server_index_map = (pos 1, pos 0) ∷ (pos 2, pos 1) ∷ [];
  neighbors = peer 1 ∷ peer 2 ∷ [];
  node_socket = (peer 1, 5) ∷ (peer 2, 6) ∷ [];
  failed_neighbors = [];
}

abbrev pub acknowledges : ℕ → Bytes
acknowledges n =
    LogResponse.marshal
      (record { follower_id = pos n; current_term = pos 3; ack = pos 3; success = pos 1 })
      (replicate 32 0)

abbrev pub replicated : ServerMetadata
replicated = record leading {
  commit_length = pos 3;
  sent_length = some (pos 3 ∷ pos 3 ∷ pos 3 ∷ []);
  ack_length = some (pos 3 ∷ pos 3 ∷ pos 3 ∷ []);
  customer_record = (pos 7, pos 1) ∷ (pos 8, pos 4) ∷ [];
}

-- Every function that a test runs through.
unfoldable pub code : ℕ
unfolding Identifier.marshal Identifier.set_identifier LogRequest.marshal LogRequest.set_log_request
    LogResponse.marshal LogResponse.unmarshal RequestVoteMessage.marshal
    RequestVoteMessage.set_request_vote_message RequestVoteResponse.marshal
    RequestVoteResponse.unmarshal put_ints put_int get_int store load htonl ntohl to_word signed32
    at assign checked find put value_at insert contains get_op get_last_term get_term_at_idx
    get_prefix_term get_peer_size execute_log count_acks find_commit execute_range commit_up_to
    commit_log put_socket clean_node_state won_election init_leader send_identifier
    send_request_vote recv_vote_response send_log_request recv_log_response start_election demote
    count_vote ask_vote ask_votes request_vote try_reconnect make_request record_ack step_back
    handle_response fail_node react exchange visit after round_step visit_all rounds replicate_log
    is_leader_status ◌+ℤ◌ ◌-ℤ◌
code = 0

pub replicate_runs :
    replicate_log scripted 4 leading
      (acknowledges 1 ∷ acknowledges 2 ∷ acknowledges 1 ∷ acknowledges 2 ∷ [])
    ≡ returned (pos 1, (replicated, []))
unfolding code
replicate_runs = refl

pub leading-IsSound : IsSound leading
unfolding replay apply put
leading-IsSound = record { valid = ground arith; applied = refl }

leading-HasAcks : HasAcks leading (pos 2 ∷ pos 2 ∷ pos 3 ∷ [])
unfolding get_peer_size
leading-HasAcks = record { allocated = refl; servers = refl }

replicate_log-IsLeading_example : IsLeading replicated
replicate_log-IsLeading_example =
    replicate_log-IsLeading scripted 4 leading replicated
      (acknowledges 1 ∷ acknowledges 2 ∷ acknowledges 1 ∷ acknowledges 2 ∷ []) [] (pos 1)
      replicate_runs
      (record {
        sound = leading-IsSound;
        room = omega arith;
        acks = pos 2 ∷ pos 2 ∷ pos 3 ∷ [];
        has = leading-HasAcks;
      })

commit_log_lem_example :
    (m' : ServerMetadata) × (commit_log leading ≡ some m')
    × IsCommit leading m' (pos 2 ∷ pos 2 ∷ pos 3 ∷ [])
commit_log_lem_example =
    commit_log_lem leading (pos 2 ∷ pos 2 ∷ pos 3 ∷ []) leading-IsSound (omega arith)
      leading-HasAcks

abbrev third : LogRequest
third = record {
  leader_id = pos 0;
  current_term = pos 3;
  prefix_length = pos 2;
  prefix_term = pos 2;
  commit_length = pos 1;
  op_term = pos 3;
  op_arg1 = pos 7;
  op_arg2 = pos 1;
}

request_runs : make_request leading (pos 0) ≡ some (third, false)
unfolding code
request_runs = refl

no_heartbeat :
    (n : ℕ) (found : MapOp) → get_elem? leading.smr_log n ≡ some found → found.term ≢ minus_one
no_heartbeat zero found h = λ e. ground arith
no_heartbeat (suc zero) found h = λ e. ground arith
no_heartbeat (suc (suc zero)) found h = λ e. ground arith
no_heartbeat (suc (suc (suc n))) found h = λ e. ground arith

make_request-IsRequest_example :
    IsRequest third
    × (third.prefix_length ≡ pos 2)
    × (get_prefix_term leading (pos 2) ≡ some third.prefix_term)
    × (third.current_term ≡ leading.current_term)
    × (third.leader_id ≡ leading.factory_id)
    × (third.commit_length ≡ leading.commit_length)
    × Carries leading (pos 2) third false
unfolding at
make_request-IsRequest_example =
    make_request-IsRequest leading (pos 0) (pos 2) third false request_runs leading-IsSound
      (record { entry = no_heartbeat })
      (record { sent = pos 2 ∷ pos 2 ∷ pos 3 ∷ []; allocated = refl; length_sent = refl })
      (omega arith)

-- Server 0 stands for election in term 3, and holds a vote of server 2 from term 2.
abbrev pub standing : ServerMetadata
standing = record leading {
  leader_id = minus_one;
  current_term = pos 2;
  status = candidate;
  vote_received = pos 2 ∷ [];
  sent_length = none;
  ack_length = none;
}

abbrev campaigning : ServerMetadata
campaigning = record standing {
  current_term = pos 3;
  vote_received = pos 0 ∷ pos 2 ∷ [];
  voted_for = pos 0;
}

abbrev voted : RequestVoteResponse
voted = record { id = pos 1; current_term = pos 3; voted = pos 1 }

abbrev pub votes : Bytes
votes = RequestVoteResponse.marshal voted (replicate 32 0)

abbrev pub elected : ServerMetadata
elected = record campaigning {
  leader_id = pos 0;
  status = leader;
  vote_received = pos 1 ∷ pos 0 ∷ pos 2 ∷ [];
  sent_length = some (pos 3 ∷ pos 3 ∷ pos 3 ∷ []);
  ack_length = some (pos 0 ∷ pos 0 ∷ pos 0 ∷ []);
}

pub elected_runs : request_vote scripted standing (votes ∷ []) ≡ some (elected, [])
unfolding code
elected_runs = refl

request_vote-IsElection_example : IsElection scripted standing (votes ∷ []) elected
request_vote-IsElection_example =
    request_vote-IsElection scripted standing elected (votes ∷ []) [] elected_runs

campaign_runs : start_election standing ≡ some campaigning
unfolding code
campaign_runs = refl

first_response : Heard scripted campaigning (votes ∷ []) campaigning.node_socket voted
unfolding code
first_response =
    first campaigning (votes ∷ []) (peer 1) 5 ((peer 2, 6) ∷ []) (true, votes ∷ []) refl

vote_is_counted_example :
    (campaigning.current_term <ℤ elected.current_term)
    ⊎ ((campaigning.current_term ≡ elected.current_term)
        × (contains elected.vote_received (pos 1) ≡ true))
vote_is_counted_example =
    vote_is_counted scripted standing campaigning elected (votes ∷ []) [] voted elected_runs
      campaign_runs first_response ((λ e. ground arith), refl)

init_neighbors_lost_example :
    ((init_neighbors scripted leading []).0.node_socket ≡ [])
    × (try_reconnect scripted (init_neighbors scripted leading []).0 []
        ≡ ((init_neighbors scripted leading []).0, []))
init_neighbors_lost_example =
    init_neighbors_lost scripted scripted leading [] [] (record { refused = λ ip port net. refl })

abbrev crippled : ServerMetadata
crippled = record leading { node_socket = (peer 2, 6) ∷ []; failed_neighbors = peer 1 ∷ [] }

try_reconnect_keeps_example :
    (queued 1 (try_reconnect scripted crippled []).0.failed_neighbors
      || connected 1 (try_reconnect scripted crippled []).0.node_socket)
    ≡ true
try_reconnect_keeps_example = try_reconnect_keeps scripted crippled [] 1 refl
