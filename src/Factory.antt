-- ===== src/Factory.antt =====
-- LaptopFactory of ServerThread.h and ServerThread.cpp: what its threads do to the server's state, the
-- queue of orders and the network. Threads interleaves them.
pub mod Threads
pub mod Orders
pub mod Replicated
pub mod Peers
pub mod Customers
pub mod Engineer
use raft_distributed_kv.Prelude.{
  Outcome, returned, fault, running, ℕ, Option, none, some, ◌>>=◌, Bool, true, false, not, List, [],
  ◌∷◌, ◌++◌, ℤ, pos, minus_one, ◌==ℤ◌, if◌then◌else◌,
}
use raft_distributed_kv.Messages.CustomerRequest
use raft_distributed_kv.Messages.CustomerRequest.{CustomerRequest}
use raft_distributed_kv.Messages.CustomerRecord.{CustomerRecord, set_record}
use raft_distributed_kv.Messages.LaptopInfo
use raft_distributed_kv.Messages.LaptopInfo.{
  LaptopInfo, copy_request, set_engineer_id, set_admin_id,
}
use raft_distributed_kv.Messages.LeaderInfo
use raft_distributed_kv.Messages.RequestVoteMessage.{RequestVoteMessage}
use raft_distributed_kv.Messages.LogRequest
use raft_distributed_kv.Messages.LogRequest.{LogRequest}
use raft_distributed_kv.Address.{set_leader_info}
use raft_distributed_kv.Metadata.{
  ServerMetadata, Status, Socket, follower, leader, candidate, get_value, is_leader, get_leader_ip,
  get_leader_port,
}
use raft_distributed_kv.Metadata.Log.{append_log}
use raft_distributed_kv.Metadata.Vote.{get_vote_response, set_ack_length}
use raft_distributed_kv.Metadata.Append.{get_log_response}
use raft_distributed_kv.Rpc.Transport.{Transport}
use raft_distributed_kv.Rpc.Election.{request_vote}
use raft_distributed_kv.Rpc.Replicate.{replicate_log}
use raft_distributed_kv.Stub.{
  receive_request, ship_laptop, return_record, send_is_leader, send_leader_info, recv_request_vote,
  send_vote_response, recv_log_request, send_log_response, identify_rpc,
}

-- An order in the queue: the promise of its laptop is known by a number.
pub record LeaderRequest : Type 0 where
  pub laptop : LaptopInfo
  pub prom : ℕ
  pub stub : Socket

unfoldable pub get_laptop_info : CustomerRequest → ℤ → LaptopInfo
get_laptop_info request engineer_id =
    set_admin_id (set_engineer_id (copy_request LaptopInfo.init request) engineer_id) minus_one

-- CreateLaptop up to the wait for the future: the order goes to the end of the queue.
unfoldable pub push_order :
    List LeaderRequest → CustomerRequest → ℤ → ℕ → Socket → List LeaderRequest
push_order erq request engineer_id prom stub =
    let laptop = set_engineer_id (copy_request LaptopInfo.init request) engineer_id in
    erq ++ record { laptop = laptop; prom = prom; stub = stub } ∷ []

unfoldable pub read_record : ServerMetadata → ℤ → ℤ
read_record m customer_id = get_value m customer_id

-- The round of TimeoutThread in each role: after the wait of a follower, under the lock.
unfoldable pub check_heartbeat : ServerMetadata → ServerMetadata
check_heartbeat m =
    if m.heartbeat then record m { heartbeat = false } else record m { status = candidate }

module _ (T : Transport) where
  open T use {Net}

  -- Whether the request came is not asked.
  unfoldable pub candidate_vote_handler :
      RequestVoteMessage → Socket → ServerMetadata → Net → Option (ServerMetadata × Net)
  candidate_vote_handler memory stub m net =
      let (msg, net1) = recv_request_vote T memory stub net in
      do
        answered ← get_vote_response m msg
        let (res, m') = answered
        let (_, net2) = send_vote_response T res stub net1
        some (m', net2)

  -- 1 if the request was answered, 0 if the leader has gone.
  unfoldable pub append_log_handler :
      LogRequest → Socket → ServerMetadata → Net → Option (ℤ × (ServerMetadata × Net))
  append_log_handler memory stub m net =
      let (request, net1) = recv_log_request T memory stub net in
      if not (LogRequest.is_valid request) then some (pos 0, (m, net1)) else do
        answered ← get_log_response m request
        let (log_res, m') = answered
        let (sent, net2) = send_log_response T log_res stub net1
        some (if sent then pos 1 else pos 0, (m', net2))

  -- One round of ServerHandler; another RPC number than the two is skipped.
  unfoldable pub server_round :
      RequestVoteMessage
      → LogRequest
      → Socket
      → ServerMetadata
      → Net
      → Option (ServerMetadata × Net)
  server_round msg_memory request_memory stub m net =
      let (rpc, net1) = identify_rpc T stub net in
      if rpc ==ℤ pos 0
      then candidate_vote_handler msg_memory stub m net1
      else (if rpc ==ℤ pos 1
          then (do handled ← append_log_handler request_memory stub m net1; some handled.1)
          else some (m, net1))

  -- The start of CustomerHandler: a customer is told whether the server leads (1, plus 1 on the way),
  -- and if it does not but knows who does, where the leader is.
  unfoldable pub greet_customer : Socket → ServerMetadata → Net → Option Net
  greet_customer stub m net =
      let (_, net1) = send_is_leader T (is_leader m) stub net in
      if not (is_leader m ==ℤ pos 0) then some net1 else do
        ip ← get_leader_ip m
        port ← get_leader_port m
        info ← set_leader_info LeaderInfo.init ip port
        let (_, net2) = send_leader_info T info stub net1
        some net2

  -- READ_REQUEST.
  unfoldable pub answer_read : CustomerRequest → ℤ → Socket → ServerMetadata → Net → Bool × Net
  answer_read request engineer_id stub m net =
      let laptop = get_laptop_info request engineer_id in
      let order_num = read_record m laptop.customer_id in
      return_record T (set_record laptop.customer_id order_num) stub net

  -- What a round of CustomerHandler comes to: the customer has gone, the order waits for its laptop,
  -- or the loop goes on.
  unfoldable pub customer_round :
      ℤ
      → ℕ
      → Socket
      → List LeaderRequest
      → ServerMetadata
      → Net
      → (record { ended : Bool; waiting : Bool; erq : List LeaderRequest; net : Net })
  customer_round engineer_id prom stub erq m net =
      let (request, net1) = receive_request T stub net in
      if not (CustomerRequest.is_valid request)
      then record { ended = true; waiting = false; erq = erq; net = net1 }
      else (if request.request_type ==ℤ pos 1
          then record {
            ended = false;
            waiting = true;
            erq = push_order erq request engineer_id prom stub;
            net = net1;
          }
          else (if request.request_type ==ℤ pos 2
              then record {
                ended = false;
                waiting = false;
                erq = erq;
                net = (answer_read request engineer_id stub m net1).1;
              }
              else record { ended = false; waiting = false; erq = erq; net = net1 }))

  -- The leader's work for an order: log it, acknowledge it to itself, replicate. The code of
  -- ReplicateLog is printed only.
  unfoldable pub leader_maintain_log :
      ℕ → ℤ → ℤ → ServerMetadata → Net → Outcome (ℤ × (ServerMetadata × Net))
  leader_maintain_log fuel customer_id order_num m net =
      elim (append_log m m.current_term customer_id order_num) [
        | none ↦ fault
        | some m1 ↦ elim (set_ack_length m1 minus_one m1.log_size) [
          | none ↦ fault
          | some m2 ↦ replicate_log T fuel m2 net
        ]
      ]

  -- A round of TimeoutThread, for the status that it has read before.
  unfoldable pub timeout_round : Status → ℕ → ServerMetadata → Net → Outcome (ServerMetadata × Net)
  timeout_round follower fuel m net = returned (check_heartbeat m, net)
  timeout_round candidate fuel m net = elim (request_vote T m net) [
    | none ↦ fault
    | some out ↦ returned out
  ]
  timeout_round leader fuel m net = elim (replicate_log T fuel m net) [
    | fault ↦ fault
    | running ↦ running
    | returned (code, out) ↦ returned out
  ]
