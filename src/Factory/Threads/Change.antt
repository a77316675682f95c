-- ===== src/Factory/Threads/Change.antt =====
-- What a step of a thread does to the server's state: one operation of ServerMetadata.cpp, or the
-- three of LeaderMaintainLog.
use raft_distributed_kv.Prelude.{
  Outcome-cases, returned, ◌≡◌, refl, some, ℤ, pos, ◌==ℤ◌, ℕ, arith, Bool-cases, Option-cases, inl,
  inr, minus_one,
}
use raft_distributed_kv.Messages.RequestVoteMessage.{RequestVoteMessage}
use raft_distributed_kv.Messages.RequestVoteResponse.{RequestVoteResponse}
use raft_distributed_kv.Messages.LogResponse.{LogResponse}
use raft_distributed_kv.Messages.LogRequest
use raft_distributed_kv.Messages.LogRequest.{LogRequest}
use raft_distributed_kv.Metadata.{ServerMetadata, Status, Socket, follower, leader, candidate}
use raft_distributed_kv.Metadata.Log.{append_log}
use raft_distributed_kv.Metadata.Vote.{get_vote_response, set_ack_length}
use raft_distributed_kv.Metadata.Append.{get_log_response}
use raft_distributed_kv.Rpc.Transport.{Transport}
use raft_distributed_kv.Rpc.Election.{request_vote}
use raft_distributed_kv.Rpc.Replicate.{replicate_log}
use raft_distributed_kv.Stub.{identify_rpc, recv_log_request, recv_request_vote}
use raft_distributed_kv.Factory.{
  candidate_vote_handler, append_log_handler, server_round, check_heartbeat, leader_maintain_log,
  timeout_round,
}
use raft_distributed_kv.Factory.Threads.{
  Factory, take_order, Step, serve, welcome, customer, ship, take, maintain, look, timeout,
}

module _ (T : Transport) where
  open T use {Net}

  pub data Change (m m' : ServerMetadata) : Type 0 where
    unchanged : m' ≡ m → Change m m'
    voted :
        (msg : RequestVoteMessage) (res : RequestVoteResponse)
        → get_vote_response m msg ≡ some (res, m')
        → Change m m'
    appended :
        (req : LogRequest) (res : LogResponse)
        → get_log_response m req ≡ some (res, m')
        → Change m m'
    ordered :
        (term customer_id order_num : ℤ) (a b : ServerMetadata) (fuel : ℕ) (net net' : Net)
        (code : ℤ)
        → append_log m term customer_id order_num ≡ some a
        → set_ack_length a minus_one a.log_size ≡ some b
        → replicate_log T fuel b net ≡ returned (code, (m', net'))
        → Change m m'
    timed_out : m' ≡ check_heartbeat m → Change m m'
    campaigned : (net net' : Net) → request_vote T m net ≡ some (m', net') → Change m m'
    replicated :
        (fuel : ℕ) (net net' : Net) (code : ℤ)
        → replicate_log T fuel m net ≡ returned (code, (m', net'))
        → Change m m'

  candidate_vote_handler-Change :
      (memory : RequestVoteMessage) (stub : Socket) (m m' : ServerMetadata) (net net' : Net)
      → candidate_vote_handler T memory stub m net ≡ some (m', net')
      → Change m m'
  unfolding candidate_vote_handler
  candidate_vote_handler-Change memory stub m m' net net' e =
      let msg : RequestVoteMessage = (recv_request_vote T memory stub net).0 in
      elim (Option-cases (get_vote_response m msg)) [
        | inl f ↦ ground arith
        | inr ((res, a), f) ↦ voted msg res (ground arith)
      ]

  append_log_handler-Change :
      (memory : LogRequest) (stub : Socket) (m m' : ServerMetadata) (net net' : Net) (code : ℤ)
      → append_log_handler T memory stub m net ≡ some (code, (m', net'))
      → Change m m'
  unfolding append_log_handler
  append_log_handler-Change memory stub m m' net net' code e =
      let request : LogRequest = (recv_log_request T memory stub net).0 in
      elim (Bool-cases (LogRequest.is_valid request)) [
        | inl valid ↦ elim (Option-cases (get_log_response m request)) [
          | inl f ↦ ground arith
          | inr ((res, a), f) ↦ appended request res (ground arith)
        ]
        | inr gone ↦ unchanged (ground arith)
      ]

  server_round-Change :
      (msg_memory : RequestVoteMessage) (request_memory : LogRequest) (stub : Socket)
      (m m' : ServerMetadata) (net net' : Net)
      → server_round T msg_memory request_memory stub m net ≡ some (m', net')
      → Change m m'
  unfolding server_round
  server_round-Change msg_memory request_memory stub m m' net net' e =
      let rpc : ℤ = (identify_rpc T stub net).0 in
      let net1 : Net = (identify_rpc T stub net).1 in
      elim (Bool-cases (rpc ==ℤ pos 0)) [
        | inl v ↦ candidate_vote_handler-Change msg_memory stub m m' net1 net' (ground arith)
        | inr n ↦ elim (Bool-cases (rpc ==ℤ pos 1)) [
          | inl a ↦ elim (Option-cases (append_log_handler T request_memory stub m net1)) [
            | inl f ↦ ground arith
            | inr ((code, (b, net2)), f) ↦
                append_log_handler-Change request_memory stub m m' net1 net2 code (ground arith)
          ]
          | inr o ↦ unchanged (ground arith)
        ]
      ]

  leader_maintain_log-Change :
      (fuel : ℕ) (customer_id order_num code : ℤ) (m m' : ServerMetadata) (net net' : Net)
      → leader_maintain_log T fuel customer_id order_num m net ≡ returned (code, (m', net'))
      → Change m m'
  unfolding leader_maintain_log
  leader_maintain_log-Change fuel customer_id order_num code m m' net net' e =
      elim (Option-cases (append_log m m.current_term customer_id order_num)) [
        | inl f ↦ ground arith
        | inr (a, f) ↦ elim (Option-cases (set_ack_length a minus_one a.log_size)) [
          | inl g ↦ ground arith
          | inr (b, g) ↦
              ordered m.current_term customer_id order_num a b fuel net net' code f g (ground arith)
        ]
      ]

  timeout_round-Change :
      (status : Status) (fuel : ℕ) (m m' : ServerMetadata) (net net' : Net)
      → timeout_round T status fuel m net ≡ returned (m', net')
      → Change m m'
  unfolding timeout_round
  timeout_round-Change follower fuel m m' net net' e = timed_out (ground arith)
  timeout_round-Change candidate fuel m m' net net' e = elim (Option-cases (request_vote T m net)) [
    | inl f ↦ ground arith
    | inr (out, f) ↦ campaigned net net' (ground arith)
  ]
  timeout_round-Change leader fuel m m' net net' e =
      elim (Outcome-cases (replicate_log T fuel m net)) [
        | inl f ↦ ground arith
        | inr (inl f) ↦ ground arith
        | inr (inr ((code, out), f)) ↦ replicated fuel net net' code (ground arith)
      ]

  pub Step-Change : {f g : Factory Net} → Step T f g → Change f.meta g.meta
  unfolding take_order
  Step-Change {f} {g} (serve msg_memory request_memory stub m net e) =
      server_round-Change msg_memory request_memory stub f.meta m f.net net e
  Step-Change {f} {g} (welcome stub net e) = unchanged refl
  Step-Change {f} {g} (customer engineer_id prom stub) = unchanged refl
  Step-Change {f} {g} (ship laptop stub) = unchanged refl
  Step-Change {f} {g} (take id g' e) = unchanged (ground arith)
  Step-Change {f} {g} (maintain before after r fuel code m net held e) =
      leader_maintain_log-Change fuel r.laptop.customer_id r.laptop.order_number code f.meta m f.net
        net e
  Step-Change {f} {g} (look e) = unchanged refl
  Step-Change {f} {g} (timeout status fuel m net s e) =
      timeout_round-Change status fuel f.meta m f.net net e
