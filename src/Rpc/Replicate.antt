-- ===== src/Rpc/Replicate.antt =====
-- The leader's side of log replication: ReplicateLog of ServerMetadata.cpp.
pub mod Keeps
pub mod Sound
pub mod Votes
pub mod Loop
pub mod Requests
pub mod Leads
pub mod CatchUp
use raft_distributed_kv.Prelude.{
  Outcome, returned, fault, running, ℕ, zero, suc, ◌+◌, ◌==◌, Option, none, some, ◌>>=◌, Bool, true,
  false, not, ◌&&◌, List, [], ◌∷◌, ◌++◌, ℤ, pos, minus_one, ◌-ℤ◌, ltb_ℤ, ◌==ℤ◌, if◌then◌else◌,
}
use raft_distributed_kv.Messages.LogRequest.{LogRequest, set_log_request}
use raft_distributed_kv.Messages.LogResponse
use raft_distributed_kv.Messages.LogResponse.{LogResponse}
use raft_distributed_kv.Metadata.{
  ServerMetadata, Status, Socket, NodePtr, follower, leader, candidate, at, assign, value_at,
  get_prefix_term,
}
use raft_distributed_kv.Metadata.Commit.{commit_log}
use raft_distributed_kv.Metadata.Membership.{put_socket, clean_node_state}
use raft_distributed_kv.Rpc.Transport.{
  Transport, send_identifier, send_log_request, recv_log_response,
}
use raft_distributed_kv.Rpc.Election.{demote}
use raft_distributed_kv.Rpc.Reconnect.{try_reconnect}

-- The request for the server at index i, and whether it is a heartbeat: the whole log was sent.
unfoldable pub make_request : ServerMetadata → ℤ → Option (LogRequest × Bool)
make_request m i = do
  sent ← m.sent_length
  prefix_length ← at sent i
  prefix_term ← get_prefix_term m prefix_length
  if m.log_size ==ℤ prefix_length
      then some (
        set_log_request m.factory_id m.current_term prefix_length prefix_term m.commit_length
            minus_one minus_one minus_one,
        true,
      )
      else do
        op ← at m.smr_log prefix_length
        some (
          set_log_request m.factory_id m.current_term prefix_length prefix_term m.commit_length
              op.term op.arg1 op.arg2,
          false,
        )

-- How the visit of a server ends: it has failed, nothing was to be sent but a heartbeat, an entry was
-- sent (`num_change++`), or the leader is demoted (`return 0`).
pub data Visit : Type 0 where
  failed kept changed demoted : Visit

unfoldable pub is_leader_status : Status → Bool
is_leader_status leader = true
is_leader_status follower = false
is_leader_status candidate = false

-- A yes: both lengths are the acknowledged one, and what a majority holds is committed. The test
-- `ack >= ack_length[i]` follows the assignment, so it holds.
unfoldable pub record_ack : ServerMetadata → ℤ → ℤ → Option ServerMetadata
record_ack m i ack = do
  sent ← m.sent_length
  sent' ← assign sent i ack
  acks ← m.ack_length
  acks' ← assign acks i ack
  commit_log (record m { sent_length = some sent'; ack_length = some acks' })

-- A no: go back by one entry.
unfoldable pub step_back : ServerMetadata → ℤ → Option ServerMetadata
step_back m i = do
  sent ← m.sent_length
  length_sent ← at sent i
  if ltb_ℤ (pos 0) length_sent
      then (do
        sent' ← assign sent i (length_sent -ℤ pos 1)
        some (record m { sent_length = some sent' }))
      else some m

unfoldable pub handle_response : ServerMetadata → ℤ → LogResponse → Option (Visit × ServerMetadata)
handle_response m i res =
    if res.current_term ==ℤ m.current_term && is_leader_status m.status
    then (do
      m' ← (if not (res.success ==ℤ pos 0) then record_ack m i res.ack else step_back m i)
      some (changed, m'))
    else (if ltb_ℤ m.current_term res.current_term
        then some (demoted, demote m res.current_term)
        else some (changed, m))

-- A server that has failed: its lengths are reset, and it is queued for TryReconnect.
unfoldable pub fail_node : ServerMetadata → ℤ → NodePtr → Option (Visit × ServerMetadata)
fail_node m i node = do
  m' ← clean_node_state m i
  some (failed, record m' { failed_neighbors = m'.failed_neighbors ++ node ∷ [] })

-- After the exchange.
unfoldable pub react :
    ServerMetadata → ℤ → NodePtr → Bool → Option LogResponse → Option (Visit × ServerMetadata)
react m i node heartbeat none = fail_node m i node
react m i node true (some res) = some (kept, m)
react m i node false (some res) = handle_response m i res

-- The variables of the inner loop, over what the network is.
pub record Round (N : Type 0) : Type 0 where
  pub meta : ServerMetadata
  pub net : N
  pub new_node_socket : List (NodePtr × Socket)
  pub num_change : ℕ
  pub is_demoted : Bool

-- What the end of a visit does to them; a failed server is not carried over to `new_node_socket`.
unfoldable pub after :
    {N : Type 0} → NodePtr → Socket → Visit → ServerMetadata → N → Round N → Round N
after node socket failed m net r = record r { meta = m; net = net }
after node socket kept m net r = record r {
  meta = m;
  net = net;
  new_node_socket = put_socket r.new_node_socket node socket;
}
after node socket changed m net r = record r {
  meta = m;
  net = net;
  new_node_socket = put_socket r.new_node_socket node socket;
  num_change = r.num_change + 1;
}
after node socket demoted m net r = record r { meta = m; net = net; is_demoted = true }

module _ (T : Transport) where
  open T use {Net}

  -- APPENDLOG_RPC, the request and the response; `none` if a send fails, or no response comes.
  unfoldable pub exchange : LogRequest → Socket → Net → Option LogResponse × Net
  exchange req socket net =
      let (told, net1) = send_identifier T (pos 1) socket net in
      elim told [
        | false ↦ (none, net1)
        | true ↦
            let (sent, net2) = send_log_request T req socket net1 in
            elim sent [
              | false ↦ (none, net2)
              | true ↦
                  let (res, net3) = recv_log_response T socket net2 in
                  (if res.follower_id ==ℤ minus_one then none else some res, net3)
            ]
      ]

  -- The body of the inner loop. The random number is drawn from [1, 1], so that heartbeats are sent
  -- in each round.
  unfoldable pub visit :
      NodePtr → Socket → ServerMetadata → Net → Option ((Visit × ServerMetadata) × Net)
  visit node socket m net =
      let (i, index) = value_at m.server_index_map node.id in
      let m1 : ServerMetadata = record m { server_index_map = index } in
      do
        made ← make_request m1 i
        let (answer, net') = exchange made.0 socket net
        out ← react m1 i node made.1 answer
        some (out, net')

  -- One server of `node_socket`.
  unfoldable pub round_step : NodePtr → Socket → Round Net → Option (Round Net)
  round_step node socket r = do
    out ← visit node socket r.meta r.net
    let ((end, m), net') = out
    some (after node socket end m net' r)

  unfoldable pub visit_all : List (NodePtr × Socket) → Round Net → Option (Round Net)
  visit_all [] r = some r
  visit_all ((node, socket) ∷ rest) r = do
    r' ← round_step node socket r
    elim r'.is_demoted [ true ↦ some r' | false ↦ visit_all rest r' ]

  -- `while (updated)`, on fuel. `new_node_socket` is not emptied between the rounds.
  unfoldable pub rounds :
      ℕ → List (NodePtr × Socket) → ServerMetadata → Net → Outcome (ℤ × (ServerMetadata × Net))
  rounds zero new m net = running
  rounds (suc fuel) new m net =
      elim (visit_all m.node_socket (record {
        meta = m;
        new_node_socket = new;
        num_change = 0;
        is_demoted = false;
        net = net;
      })) [
        | none ↦ fault
        | some r ↦ elim r.is_demoted [
          | true ↦ returned (pos 0, (r.meta, r.net))
          | false ↦
              let m' : ServerMetadata = record r.meta { node_socket = r.new_node_socket } in
              elim (r.num_change == 0) [
                | true ↦ returned (pos 1, (m', r.net))
                | false ↦ rounds fuel r.new_node_socket m' r.net
              ]
        ]
      ]

  unfoldable pub replicate_log : ℕ → ServerMetadata → Net → Outcome (ℤ × (ServerMetadata × Net))
  replicate_log fuel m net = let (m', net') = try_reconnect T m net in rounds fuel [] m' net'
