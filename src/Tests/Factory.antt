-- ===== src/Tests/Factory.antt =====
-- The threads of a server at concrete states, over the scripted network of Tests/Leader.
use raft_distributed_kv.Prelude.{
  ℕ, ◌≡◌, refl, none, some, true, false, List, [], ◌∷◌, ◌++◌, pos, minus_one, ◌+ℤ◌, ◌-ℤ◌, arith,
  returned, fault,
}
use raft_distributed_kv.Words.RoundTrip.{All}
use raft_distributed_kv.Messages.LaptopInfo.{set_admin_id}
use raft_distributed_kv.Messages.LogResponse
use raft_distributed_kv.Messages.LeaderInfo.{LeaderInfo}
use raft_distributed_kv.Messages.RequestVoteMessage.{RequestVoteMessage}
use raft_distributed_kv.Messages.RequestVoteMessage
use raft_distributed_kv.Messages.RequestVoteResponse.{
  RequestVoteResponse, set_request_vote_response,
}
use raft_distributed_kv.Metadata.{
  ServerMetadata, NodePtr, follower, get_leader, find_node, get_last_term, checked, at,
}
use raft_distributed_kv.Metadata.Invariant.{IsSound}
use raft_distributed_kv.Metadata.Log.{append_log}
use raft_distributed_kv.Metadata.Vote.{
  get_vote_response, set_ack_length, adopt_term, grants, is_recent,
}
use raft_distributed_kv.Address.{get_ip}
use raft_distributed_kv.Address.RoundTrip.{IsPart}
use raft_distributed_kv.Stub.{send_is_leader, send_leader_info, send_vote_response}
use raft_distributed_kv.Factory.{
  LeaderRequest, candidate_vote_handler, check_heartbeat, greet_customer, leader_maintain_log,
  timeout_round,
}
use raft_distributed_kv.Factory.Threads.{
  Factory, take_order, Reach, here, next, take, maintain, look, timeout,
}
use raft_distributed_kv.Factory.Threads.Sound.{Reach-IsSound}
use raft_distributed_kv.Factory.Threads.Grown.{Reach-Grown}
use raft_distributed_kv.Metadata.Grown.{Grown}
use raft_distributed_kv.Factory.Threads.Ballots.{IsMonotone, votes_once, candidate_votes_for_itself}
use raft_distributed_kv.Factory.Orders.{
  IsLogged, leader_maintain_log-IsLogged, order_answered_not_logged,
}
use raft_distributed_kv.Factory.Peers.{dead_candidate_resets_timeout}
use raft_distributed_kv.Factory.Customers.{greet_customer_names_leader}
use raft_distributed_kv.Tests.{
  behind, behind-IsSound, led, voter, again, retry, granted, again_runs,
}
use raft_distributed_kv.Tests.Leader.{
  scripted, op, leading, standing, elected, votes, leading-IsSound, elected_runs, code,
}

-- Customer 9 orders for the second time, and no follower answers the leader.
abbrev placed : LeaderRequest
placed = record {
  laptop = record {
    customer_id = pos 9;
    order_number = pos 2;
    request_type = pos 1;
    engineer_id = pos 5;
    admin_id = minus_one;
  };
  prom = 0;
  stub = 8;
}

abbrev taken_order : LeaderRequest
taken_order = record placed { laptop = record placed.laptop { admin_id = pos 1 } }

abbrev factory : ServerMetadata → Factory (List (List ℕ))
factory m = record { meta = m; net = []; erq = []; taken = []; promises = []; seen = none }

abbrev queued : ServerMetadata → Factory (List (List ℕ))
queued m = record (factory m) { erq = placed ∷ [] }

abbrev answered : ServerMetadata → Factory (List (List ℕ))
answered m = record (factory m) {
  taken = taken_order ∷ [];
  promises = (0, taken_order.laptop) ∷ [];
}

abbrev logged : ServerMetadata
logged = record leading {
  log_size = pos 4;
  smr_log = leading.smr_log ++ op 3 9 2 ∷ [];
  sent_length = some (pos 0 ∷ pos 0 ∷ pos 3 ∷ []);
  ack_length = some (pos 0 ∷ pos 0 ∷ pos 4 ∷ []);
  node_socket = [];
  failed_neighbors = (leading.neighbors);
}

take_runs : take_order scripted (pos 1) (queued leading) ≡ some (answered leading)
unfolding take_order set_admin_id
take_runs = refl

maintain_runs :
    leader_maintain_log scripted 4 (pos 9) (pos 2) leading [] ≡ returned (pos 1, (logged, []))
unfolding code leader_maintain_log append_log set_ack_length LogResponse.init
maintain_runs = refl

abbrev AnyChange : Factory (List (List ℕ)) → Factory (List (List ℕ)) → Type 0
AnyChange f g = f.net ≡ f.net

abbrev done : Factory (List (List ℕ))
done = record (answered leading) { meta = logged; taken = [] }

order_reached : Reach scripted AnyChange (queued leading) done
order_reached =
    next (next here (take (pos 1) (answered leading) take_runs) refl)
      (maintain [] [] taken_order 4 (pos 1) logged [] refl maintain_runs) refl

Reach-IsSound_example : IsSound logged
Reach-IsSound_example = Reach-IsSound scripted leading-IsSound order_reached

Reach-Grown_example : Grown leading logged
Reach-Grown_example = Reach-Grown scripted leading-IsSound order_reached

leader_maintain_log-IsLogged_example : IsLogged (pos 9) (pos 2) leading logged
leader_maintain_log-IsLogged_example =
    leader_maintain_log-IsLogged scripted 4 (pos 9) (pos 2) (pos 1) leading logged [] []
      maintain_runs leading-IsSound

order_answered_not_logged_example :
    (g : Factory (List (List ℕ))) × (take_order scripted (pos 1) (queued behind) ≡ some g)
    × (g.promises ≡ (0, set_admin_id placed.laptop (pos 1)) ∷ [])
    × (g.meta ≡ behind)
    × (leader_maintain_log scripted 4 (pos 9) (pos 2) g.meta g.net ≡ fault)
order_answered_not_logged_example =
    order_answered_not_logged scripted (queued behind) placed [] (pos 1) 4 refl refl

-- The voter's timeout passes without effect between the two requests.
abbrev quiet : ServerMetadata
quiet = record voter { heartbeat = false }

quiet_runs : timeout_round scripted follower 0 voter [] ≡ returned (quiet, [])
unfolding timeout_round check_heartbeat
quiet_runs = refl

timeout_reached : Reach scripted (IsMonotone scripted) (factory voter) (factory quiet)
timeout_reached =
    next (next here (look refl) (record { grows = omega arith }))
      (timeout follower 0 quiet [] refl quiet_runs) (record { grows = omega arith })

again_quiet_runs :
    get_vote_response quiet retry ≡ some (record granted { current_term = pos 4 }, voter)
unfolding get_vote_response adopt_term grants is_recent get_last_term set_request_vote_response at
    checked ◌-ℤ◌
again_quiet_runs = refl

votes_once_example : retry.id ≡ again.id
votes_once_example =
    votes_once scripted led (factory voter) (factory quiet) voter again retry
      (record granted { current_term = pos 4 }) (record granted { current_term = pos 4 }) again_runs
      refl timeout_reached again_quiet_runs refl refl (λ e. ground arith)

-- A request in the name of the candidate itself, with a log that is recent enough.
abbrev own : RequestVoteMessage
own = record { id = pos 0; current_term = pos 3; log_size = pos 3; last_term = pos 3 }

own_runs :
    get_vote_response elected own
    ≡ some (
      record { id = pos 0; current_term = pos 3; voted = pos 1 },
      record elected { heartbeat = true },
    )
unfolding get_vote_response adopt_term grants is_recent get_last_term set_request_vote_response at
    checked ◌-ℤ◌
own_runs = refl

candidate_votes_for_itself_example : own.id ≡ standing.factory_id
unfolding ◌+ℤ◌
candidate_votes_for_itself_example =
    candidate_votes_for_itself scripted standing (factory elected) (factory elected) (votes ∷ []) []
      (record elected { heartbeat = true }) own
      (record { id = pos 0; current_term = pos 3; voted = pos 1 }) elected_runs here own_runs refl
      refl (λ e. ground arith)

dead_candidate_resets_timeout_example :
    (res : RequestVoteResponse) × (m' : ServerMetadata) × (get_vote_response behind
        (RequestVoteMessage.init own)
      ≡ some (res, m'))
    × (candidate_vote_handler scripted own 8 behind []
        ≡ some (m', (send_vote_response scripted res 8 []).1))
    × (m'.heartbeat ≡ true)
    × ((check_heartbeat m').status ≡ m'.status)
dead_candidate_resets_timeout_example =
    dead_candidate_resets_timeout scripted own 8 behind [] behind-IsSound refl

abbrev address : LeaderInfo
address = record { ip0 = pos 10; ip1 = pos 0; ip2 = pos 3; ip3 = pos 254; port = pos 9000 }

-- Server 2 follows server 1, which it knows by its address.
abbrev leader_node : NodePtr
leader_node = record {
  address = 1;
  node = record { id = pos 1; ip = get_ip address; port = pos 9000 };
}

abbrev following : ServerMetadata
following = record behind { neighbors = leader_node ∷ [] }

leader_found : get_leader following ≡ some leader_node
unfolding get_leader find_node
leader_found = refl

address-parts : All IsPart (address.ip0 ∷ address.ip1 ∷ address.ip2 ∷ address.ip3 ∷ [])
address-parts = omega arith

greet_customer_names_leader_example :
    greet_customer scripted 8 following []
    ≡ some (send_leader_info scripted address 8 (send_is_leader scripted (pos 0) 8 []).1).1
greet_customer_names_leader_example =
    greet_customer_names_leader scripted 8 following [] leader_node address (λ e. ground arith)
      (λ e. ground arith) leader_found address-parts refl refl
