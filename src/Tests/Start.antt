-- ===== src/Tests/Start.antt =====
-- A server that is started with the arguments of Tests/Client and no peer that listens.
use raft_distributed_kv.Prelude.{
  ℕ, ◌≡◌, refl, some, none, false, true, List, [], ◌∷◌, pos, minus_one, ◌+ℤ◌, ◌-ℤ◌,
}
use raft_distributed_kv.Rpc.Reconnect.{init_neighbors, connect_all}
use raft_distributed_kv.Address.{times_ten}
use raft_distributed_kv.Metadata
use raft_distributed_kv.Metadata.{ServerMetadata, NodePtr, follower, candidate, checked}
use raft_distributed_kv.Metadata.Invariant.{IsSound}
use raft_distributed_kv.Metadata.Membership.{add_neighbors}
use raft_distributed_kv.Factory.{check_heartbeat, timeout_round}
use raft_distributed_kv.Factory.Threads.{Factory, Reach, here, next, look, timeout}
use raft_distributed_kv.Sockets
use raft_distributed_kv.Sockets.{SocketState, server_init}
use raft_distributed_kv.Tests.Sockets.{drip}
use raft_distributed_kv.Main.{ready, atoi, read_digits, number_at, add_peers, setup}
use raft_distributed_kv.Main.Server.{launch, started-IsSound}
use raft_distributed_kv.Tests.Leader.{scripted}
use raft_distributed_kv.Tests.Client.{arguments, arguments-AreNumbers}

abbrev started : ServerMetadata
started = record {
  leader_id = minus_one;
  factory_id = pos 0;
  current_term = pos 0;
  status = follower;
  commit_length = pos 0;
  log_size = pos 0;
  voted_for = minus_one;
  vote_received = [];
  sent_length = none;
  ack_length = none;
  heartbeat = false;
  customer_record = [];
  smr_log = [];
  server_index_map = (pos 1, pos 0) ∷ [];
  neighbors =
      record { address = 0; node = record { id = pos 1; ip = 49 ∷ 48 ∷ []; port = pos 12345 } }
      ∷ [];
  node_socket = [];
  failed_neighbors = [];
}

abbrev listening : SocketState
listening = record { fd = pos 3; is_initialized = true; nagle = true }

setup_runs :
    setup drip (λ j. j) (pos 0) arguments ([], []) ≡ some (ready started, (listening, ([], [])))
unfolding setup server_init Sockets.init add_peers number_at atoi read_digits times_ten checked
    add_neighbors Metadata.init Metadata.put ◌+ℤ◌ ◌-ℤ◌
setup_runs = refl

-- Nobody has led it, so its first timeout makes it a candidate.
abbrev stands : Factory (List (List ℕ))
stands = record (launch scripted started []) { meta = record started { status = candidate } }

stands_reached : Reach scripted (λ f g. f.net ≡ f.net) (launch scripted started []) stands
unfolding launch timeout_round check_heartbeat init_neighbors connect_all
stands_reached =
    next (next here (look refl) refl)
      (timeout follower 0 (record started { status = candidate }) [] refl refl) refl

started-IsSound_example : IsSound (record started { status = candidate })
started-IsSound_example =
    started-IsSound scripted drip (λ j. j) (pos 0) arguments started ([], []) (listening, ([], []))
      [] arguments-AreNumbers setup_runs stands_reached
