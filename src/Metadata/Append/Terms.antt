-- ===== src/Metadata/Append/Terms.antt =====
-- The terms and the reply of GetLogResponse.
use raft_distributed_kv.Prelude.{
  ◌≢◌, ◌++◌, [], ◌∷◌, sym, ◌∙◌, ==ℤ_iff, ◌≡◌, ◌⊎◌, some, true, false, arith, pos, minus_one, ◌≤ℤ◌,
  ◌+ℤ◌, Bool-cases, Option-cases, inl, inr, ◌==ℤ◌, ◌&&◌, Bool,
}
use raft_distributed_kv.Messages.LogRequest.{LogRequest}
use raft_distributed_kv.Messages.LogResponse.{LogResponse, set_log_response}
use raft_distributed_kv.Metadata.{ServerMetadata, checked}
use raft_distributed_kv.Metadata.Ints.{checked-eq-some}
use raft_distributed_kv.Metadata.Log.Keeps.{append_log_lem, execute_log_lem}
use raft_distributed_kv.Metadata.Append.Keeps.{log_entry_lem}
use raft_distributed_kv.Metadata.Append.{
  accept_leader, can_log, append_entry, commit_entry, log_entry, respond, get_log_response,
}

-- What only accept_leader changes.
pub record SameRole (m m' : ServerMetadata) : Type 0 where
  pub server : m'.factory_id ≡ m.factory_id
  pub term : m'.current_term ≡ m.current_term
  pub status : m'.status ≡ m.status
  pub leader : m'.leader_id ≡ m.leader_id
  pub vote : m'.voted_for ≡ m.voted_for
  pub votes : m'.vote_received ≡ m.vote_received

-- An append or a commit changes neither the identity nor the term, and the log grows by the entry
-- of the request or stays.
append_entry_frame :
    (m m' : ServerMetadata) (req : LogRequest)
    → append_entry m req ≡ some m'
    → SameRole m m'
      × ((m'.smr_log ≡ m.smr_log)
          ⊎ ((req.op_term ≢ minus_one)
              × (m'.smr_log
                  ≡ m.smr_log
                    ++ record { term = req.op_term; arg1 = req.op_arg1; arg2 = req.op_arg2 } ∷ [])))
unfolding append_entry
append_entry_frame m m' req h = elim (Bool-cases (req.op_term ==ℤ minus_one)) [
  | inl e ↦ ground arith
  | inr e ↦ ground (
    arith,
    append_log_lem m req.op_term req.op_arg1 req.op_arg2 m',
    (==ℤ_iff req.op_term minus_one).1,
  )
]

commit_entry_frame :
    (m m' : ServerMetadata) (req : LogRequest)
    → commit_entry m req ≡ some m'
    → SameRole m m' × (m'.smr_log ≡ m.smr_log)
unfolding commit_entry
commit_entry_frame m m' req h = ground (arith, execute_log_lem m m')

-- How the log changes: not at all, or by the entry of the request behind a prefix that is all of it.
abbrev pub GrowsBy : ServerMetadata → LogRequest → ServerMetadata → Type 0
GrowsBy m req m' =
    (m'.smr_log ≡ m.smr_log)
    ⊎ ((req.op_term ≢ minus_one)
        × (m.log_size ≤ℤ req.prefix_length)
        × (m'.smr_log
            ≡ m.smr_log
              ++ record { term = req.op_term; arg1 = req.op_arg1; arg2 = req.op_arg2 } ∷ []))

pub log_entry_frame :
    (m m' : ServerMetadata) (req : LogRequest)
    → log_entry m req ≡ some m'
    → SameRole m m' × GrowsBy m req m'
log_entry_frame m m' req h =
    let h' = sym (log_entry_lem m req) ∙ h in
    elim (Option-cases (append_entry m req)) [
      | inl e ↦ ground arith
      | inr (a, e) ↦ ground (arith, append_entry_frame m a req e, commit_entry_frame a m' req)
    ]

-- What a reply says: its term is the one that the server has now; a yes acknowledges one entry more
-- than the prefix, and a no acknowledges nothing.
pub record IsReply (m : ServerMetadata) (req : LogRequest) (res : LogResponse) (m' : ServerMetadata)
    : Type 0 where
  pub sender : res.follower_id ≡ m'.factory_id
  pub same_server : m'.factory_id ≡ m.factory_id
  pub term : res.current_term ≡ m'.current_term
  pub not_older : req.current_term ≤ℤ res.current_term
  pub answer :
      ((res.success ≡ pos 1)
        × (res.ack ≡ req.prefix_length +ℤ pos 1)
        × (res.current_term ≡ req.current_term)
        × GrowsBy m req m')
      ⊎ ((res.success ≡ pos 0) × (res.ack ≡ pos 0) × (m'.smr_log ≡ m.smr_log))

respond_lem :
    (m m' : ServerMetadata) (req : LogRequest) (able : Bool) (res : LogResponse)
    → respond m req able ≡ some (res, m')
    → (able ≡ true → m.current_term ≡ req.current_term)
    → req.current_term ≤ℤ m.current_term
    → IsReply m req res m'
unfolding respond set_log_response
respond_lem m m' req true res h agreed older = elim (Option-cases (log_entry m req)) [
  | inl e ↦ ground arith
  | inr (a, e) ↦ elim (Option-cases (checked (req.prefix_length +ℤ pos 1))) [
    | inl c ↦ ground arith
    | inr (ack, c) ↦ ground (
      arith,
      log_entry_frame m a req e,
      checked-eq-some (req.prefix_length +ℤ pos 1) ack c,
      agreed,
    )
  ]
]
respond_lem m m' req false res h agreed older = ground arith

pub accept_leader_frame :
    (m : ServerMetadata) (req : LogRequest)
    → ((accept_leader m req).factory_id ≡ m.factory_id)
      × (req.current_term ≤ℤ (accept_leader m req).current_term)
      × ((accept_leader m req).log_size ≡ m.log_size)
      × ((accept_leader m req).smr_log ≡ m.smr_log)
unfolding accept_leader
accept_leader_frame m req = ground arith

-- Every reply of GetLogResponse names this server and has the term that the server has now, which
-- is not older than the request's; a yes has the request's term, acknowledges one entry more than
-- the prefix, and the log stays or grows by the entry of a request that is no heartbeat and whose
-- prefix is not shorter than the log; a no acknowledges nothing and leaves the log.
pub get_log_response-IsReply :
    (m m' : ServerMetadata) (req : LogRequest) (res : LogResponse)
    → get_log_response m req ≡ some (res, m')
    → IsReply m req res m'
unfolding get_log_response
get_log_response-IsReply m m' req res h = elim (Option-cases (can_log (accept_leader m req) req)) [
  | inl e ↦ ground arith
  | inr (able, e) ↦
      let a : ServerMetadata = accept_leader m req in
      let r : IsReply a req res m' =
        respond_lem a m' req (a.current_term ==ℤ req.current_term && able) res (rw e at h)
          (λ t. ground arith) (accept_leader_frame m req).1 in
      ground (arith, accept_leader_frame m req)
]

respond-SameRole :
    (m m' : ServerMetadata) (req : LogRequest) (able : Bool) (res : LogResponse)
    → respond m req able ≡ some (res, m')
    → SameRole m m'
unfolding respond
respond-SameRole m m' req true res h = elim (Option-cases (log_entry m req)) [
  | inl e ↦ ground arith
  | inr (a, e) ↦ ground (arith, log_entry_frame m a req e)
]
respond-SameRole m m' req false res h = ground arith

-- The role of the server afterwards is the one that accept_leader gives it.
pub get_log_response-SameRole :
    (m m' : ServerMetadata) (req : LogRequest) (res : LogResponse)
    → get_log_response m req ≡ some (res, m')
    → SameRole (accept_leader m req) m'
unfolding get_log_response
get_log_response-SameRole m m' req res h = elim (Option-cases (can_log (accept_leader m req) req)) [
  | inl e ↦ ground arith
  | inr (able, e) ↦
      respond-SameRole (accept_leader m req) m' req
        ((accept_leader m req).current_term ==ℤ req.current_term && able) res (rw e at h)
]
