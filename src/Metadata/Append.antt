-- ===== src/Metadata/Append.antt =====
-- The follower's side of log replication: GetLogResponse of ServerMetadata.cpp.
pub mod Prefix
pub mod Keeps
pub mod Total
pub mod Terms
pub mod Conflicts
use raft_distributed_kv.Prelude.{
  [], Option, some, ◌>>=◌, Bool, true, false, ◌||◌, ◌&&◌, not, if◌then◌else◌, ℤ, pos, minus_one,
  ◌+ℤ◌, ◌-ℤ◌, ltb_ℤ, leb_ℤ, ◌==ℤ◌,
}
use raft_distributed_kv.Messages.LogRequest
use raft_distributed_kv.Messages.LogRequest.{LogRequest}
use raft_distributed_kv.Messages.LogResponse.{LogResponse, set_log_response}
use raft_distributed_kv.Metadata.{
  ServerMetadata, Status, follower, leader, candidate, checked, get_term_at_idx,
}
use raft_distributed_kv.Metadata.Log.{append_log, execute_log, drop_uncommitted_log}

unfoldable pub is_follower : Status → Bool
is_follower follower = true
is_follower leader = false
is_follower candidate = false

-- The sender is taken for the leader if its term is not older, and by a follower in any case.
unfoldable pub accept_leader : ServerMetadata → LogRequest → ServerMetadata
accept_leader m req =
    if leb_ℤ m.current_term req.current_term || is_follower m.status
    then record m {
      current_term = req.current_term;
      status = follower;
      leader_id = req.leader_id;
      vote_received = [];
      voted_for = minus_one;
      heartbeat = true;
    }
    else m

-- `can_log`: the log reaches the prefix and agrees on the term of its last entry. The tests on the
-- right of `&&` and `||` run only if those on the left do not decide.
unfoldable pub can_log : ServerMetadata → LogRequest → Option Bool
can_log m req =
    if not (leb_ℤ req.prefix_length m.log_size)
    then some false
    else (if req.prefix_length ==ℤ pos 0 then some true else do
      last ← checked (req.prefix_length -ℤ pos 1)
      term ← get_term_at_idx m last
      some (term ==ℤ req.prefix_term))

-- The append: not for a heartbeat, whose `op_term` is -1.
unfoldable pub append_entry : ServerMetadata → LogRequest → Option ServerMetadata
append_entry m req =
    if req.op_term ==ℤ minus_one then some m else append_log m req.op_term req.op_arg1 req.op_arg2

-- The commit: one entry at most.
unfoldable pub commit_entry : ServerMetadata → LogRequest → Option ServerMetadata
commit_entry m req =
    if ltb_ℤ m.commit_length req.commit_length then execute_log m m.commit_length else some m

unfoldable pub drop_entries : ServerMetadata → LogRequest → Option ServerMetadata
drop_entries m req =
    if ltb_ℤ req.prefix_length m.log_size
    then drop_uncommitted_log m m.log_size req.prefix_length
    else some m

-- The body of `if (!included)`.
unfoldable pub log_entry : ServerMetadata → LogRequest → Option ServerMetadata
log_entry m req = if ltb_ℤ req.prefix_length m.log_size then some m else do
  dropped ← drop_entries m req
  appended ← append_entry dropped req
  commit_entry appended req

unfoldable pub respond : ServerMetadata → LogRequest → Bool → Option (LogResponse × ServerMetadata)
respond m req true = do
  m' ← log_entry m req
  ack ← checked (req.prefix_length +ℤ pos 1)
  some (set_log_response m'.factory_id m'.current_term ack (pos 1), record m' { heartbeat = true })
respond m req false =
    some
      (set_log_response m.factory_id m.current_term (pos 0) (pos 0), record m { heartbeat = true })

unfoldable pub get_log_response :
    ServerMetadata → LogRequest → Option (LogResponse × ServerMetadata)
get_log_response m req = do
  let m' = accept_leader m req
  able ← can_log m' req
  respond m' req (m'.current_term ==ℤ req.current_term && able)
