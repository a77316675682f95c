-- ===== src/Metadata/Append/Conflicts.antt =====
-- GetLogResponse on a request of an older term, and on an entry that conflicts with the leader's.
use raft_distributed_kv.Prelude.{
  [], ◌∙◌, ◌≡◌, some, true, arith, pos, minus_one, ◌≤ℤ◌, ◌<ℤ◌, ◌+ℤ◌, ◌==ℤ◌, +ℤ_parts,
}
use raft_distributed_kv.Messages.LogRequest.{LogRequest}
use raft_distributed_kv.Messages.LogResponse.{LogResponse, set_log_response}
use raft_distributed_kv.Metadata.{ServerMetadata, follower}
use raft_distributed_kv.Metadata.Ints.{checked_in_range}
use raft_distributed_kv.Metadata.Invariant.{IsValid}
use raft_distributed_kv.Metadata.Append.{
  accept_leader, can_log, log_entry, respond, get_log_response, is_follower,
}
use raft_distributed_kv.Metadata.Append.Keeps.{log_entry_lem}
use raft_distributed_kv.Metadata.Append.Total.{IsRequest}
use raft_distributed_kv.Metadata.Append.Terms.{get_log_response-SameRole}

-- A follower to which a leader of an older term sends a request takes over that older term and that
-- leader, and forgets its vote.
pub stale_leader_accepted :
    (m m' : ServerMetadata) (req : LogRequest) (res : LogResponse)
    → m.status ≡ follower
    → req.current_term <ℤ m.current_term
    → get_log_response m req ≡ some (res, m')
    → (m'.current_term ≡ req.current_term)
      × (m'.current_term <ℤ m.current_term)
      × (m'.voted_for ≡ minus_one)
      × (m'.leader_id ≡ req.leader_id)
unfolding accept_leader is_follower
stale_leader_accepted m m' req res f older h =
    ground (arith, get_log_response-SameRole m m' req res h)

-- If a well-formed follower's log reaches past the prefix of a request of a term that is not older
-- and agrees with it there, the answer is yes, for one entry more than the prefix, and the log
-- stays as it is, whatever the request carries and whatever the log holds behind the prefix.
pub conflict_acknowledged :
    (m : ServerMetadata) (req : LogRequest)
    → IsValid m
    → IsRequest req
    → m.current_term ≤ℤ req.current_term
    → req.prefix_length <ℤ m.log_size
    → can_log (accept_leader m req) req ≡ some true
    → get_log_response m req
      ≡ some (
        set_log_response m.factory_id req.current_term (req.prefix_length +ℤ pos 1) (pos 1),
        record m {
          current_term = req.current_term;
          status = follower;
          leader_id = req.leader_id;
          vote_received = [];
          voted_for = minus_one;
          heartbeat = true;
        },
      )
unfolding get_log_response respond
conflict_acknowledged m req v r newer past agrees =
    let a : ServerMetadata = record m {
      current_term = req.current_term;
      status = follower;
      leader_id = req.leader_id;
      vote_received = [];
      voted_for = minus_one;
      heartbeat = true;
    } in
    let accepted : accept_leader m req ≡ a = unfold accept_leader in ground arith in
    let able : can_log a req ≡ some true = rw accepted at agrees in
    let kept : log_entry a req ≡ some a = log_entry_lem a req ∙ ground arith in
    let ack =
      checked_in_range (req.prefix_length +ℤ pos 1)
        (omega (arith, +ℤ_parts req.prefix_length (pos 1), r.prefix))
        (omega (arith, +ℤ_parts req.prefix_length (pos 1), v.fits)) in
    let same : (req.current_term ==ℤ req.current_term) ≡ true = ground arith in
    rw (accepted, able, same, kept, ack)
