-- ===== src/Metadata/Append/Keeps.antt =====
-- The log and the state machine of a follower in GetLogResponse.
use raft_distributed_kv.Prelude.{
  ◌≡◌, ◌∙◌, sym, inl, inr, some, ◌>>=◌, Bool, true, false, arith, ◌==ℤ◌, ◌&&◌, Bool-cases,
  Option-cases, ltb_ℤ, if◌then◌else◌,
}
use raft_distributed_kv.Messages.LogRequest.{LogRequest}
use raft_distributed_kv.Messages.LogResponse.{LogResponse}
use raft_distributed_kv.Metadata.{ServerMetadata}
use raft_distributed_kv.Metadata.Invariant.{IsSound}
use raft_distributed_kv.Metadata.Log.Keeps.{
  append_log-IsValid, append_log-IsApplied, execute_log-IsValid, execute_log-IsApplied,
}
use raft_distributed_kv.Metadata.Append.{
  accept_leader, can_log, append_entry, commit_entry, drop_entries, log_entry, respond,
  get_log_response,
}

pub accept_leader-IsSound :
    (m : ServerMetadata) (req : LogRequest) → IsSound m → IsSound (accept_leader m req)
unfolding accept_leader
accept_leader-IsSound m req s = ground arith

append_entry-IsSound :
    (m m' : ServerMetadata) (req : LogRequest)
    → append_entry m req ≡ some m'
    → IsSound m
    → IsSound m'
unfolding append_entry
append_entry-IsSound m m' req h s = ground (
  arith,
  append_log-IsValid m req.op_term req.op_arg1 req.op_arg2 m',
  append_log-IsApplied m req.op_term req.op_arg1 req.op_arg2 m',
)

commit_entry-IsSound :
    (m m' : ServerMetadata) (req : LogRequest)
    → commit_entry m req ≡ some m'
    → IsSound m
    → IsSound m'
unfolding commit_entry
commit_entry-IsSound m m' req h s =
    ground (arith, execute_log-IsValid m m', execute_log-IsApplied m m')

-- Where the log does not reach past the prefix nothing is dropped: the source tests for the opposite.
drop_entries_never :
    (m : ServerMetadata) (req : LogRequest)
    → ltb_ℤ req.prefix_length m.log_size ≡ false
    → drop_entries m req ≡ some m
unfolding drop_entries
drop_entries_never m req h = rw h

-- So the body of `if (!included)` is an append and a commit.
pub log_entry_lem :
    (m : ServerMetadata) (req : LogRequest)
    → log_entry m req ≡ (
        if ltb_ℤ req.prefix_length m.log_size
        then some m
        else (append_entry m req >>= λ appended. commit_entry appended req))
unfolding log_entry
log_entry_lem m req = elim (Bool-cases (ltb_ℤ req.prefix_length m.log_size)) [
  | inl e ↦ rw e
  | inr e ↦ rw (e, drop_entries_never m req e)
]

log_entry-IsSound :
    (m m' : ServerMetadata) (req : LogRequest) → log_entry m req ≡ some m' → IsSound m → IsSound m'
log_entry-IsSound m m' req h s =
    let h' = sym (log_entry_lem m req) ∙ h in
    elim (Option-cases (append_entry m req)) [
      | inl e ↦ ground arith
      | inr (a, e) ↦ ground (arith, append_entry-IsSound m a req e s, commit_entry-IsSound a m' req)
    ]

respond-IsSound :
    (m m' : ServerMetadata) (req : LogRequest) (able : Bool) (res : LogResponse)
    → respond m req able ≡ some (res, m')
    → IsSound m
    → IsSound m'
unfolding respond
respond-IsSound m m' req true res h s = elim (Option-cases (log_entry m req)) [
  | inl e ↦ ground arith
  | inr (a, e) ↦ ground (arith, log_entry-IsSound m a req e s)
]
respond-IsSound m m' req false res h s = ground arith

-- Whatever the request, if GetLogResponse returns, the log is well formed, the committed part lies
-- within it, and customer_record is the replay of that part, if all this held before.
pub get_log_response-IsSound :
    (m m' : ServerMetadata) (req : LogRequest) (res : LogResponse)
    → get_log_response m req ≡ some (res, m')
    → IsSound m
    → IsSound m'
unfolding get_log_response
get_log_response-IsSound m m' req res h s =
    elim (Option-cases (can_log (accept_leader m req) req)) [
      | inl e ↦ ground arith
      | inr (able, e) ↦
          respond-IsSound (accept_leader m req) m' req
            ((accept_leader m req).current_term ==ℤ req.current_term && able) res (rw e at h)
            (accept_leader-IsSound m req s)
    ]
