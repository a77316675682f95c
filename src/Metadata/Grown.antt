-- ===== src/Metadata/Grown.antt =====
-- What the operations of ServerMetadata.cpp do to the entries of the log.
use raft_distributed_kv.Prelude.{
  ◌≡◌, ap, ◌∙◌, sym, some, List, [], ◌∷◌, ◌++◌, ℤ, pos, ◌≤ℤ◌, ◌==ℤ◌, ◌&&◌, arith, inl, inr,
  Option-cases, Bool-cases, ltb_ℤ, minus_one, Bool, true, false, +ℤ_parts, append_assoc, append-nil,
}
use raft_distributed_kv.Messages.RequestVoteMessage.{RequestVoteMessage}
use raft_distributed_kv.Messages.RequestVoteResponse.{RequestVoteResponse}
use raft_distributed_kv.Messages.LogRequest.{LogRequest}
use raft_distributed_kv.Messages.LogResponse.{LogResponse}
use raft_distributed_kv.Metadata.{ServerMetadata, MapOp}
use raft_distributed_kv.Metadata.Log.{append_log, execute_log}
use raft_distributed_kv.Metadata.Log.Keeps.{append_log_lem, execute_log_lem}
use raft_distributed_kv.Metadata.Vote.{adopt_term, get_vote_response}
use raft_distributed_kv.Metadata.{get_last_term}
use raft_distributed_kv.Metadata.Append.{
  accept_leader, can_log, append_entry, commit_entry, log_entry, respond, get_log_response,
}
use raft_distributed_kv.Metadata.Append.Keeps.{log_entry_lem}

-- The log has kept its entries, and no less of it is committed.
pub record Grown (m m' : ServerMetadata) : Type 0 where
  pub suffix : List MapOp
  pub log : m'.smr_log ≡ m.smr_log ++ suffix
  pub commits : m.commit_length ≤ℤ m'.commit_length

pub same_log-Grown :
    (m m' : ServerMetadata)
    → m'.smr_log ≡ m.smr_log
    → m.commit_length ≤ℤ m'.commit_length
    → Grown m m'
same_log-Grown m m' e c = record { suffix = []; log = e ∙ sym (append-nil m.smr_log); commits = c }

pub Grown-trans : (m a m' : ServerMetadata) → Grown m a → Grown a m' → Grown m m'
Grown-trans m a m' f g = record {
  suffix = f.suffix ++ g.suffix;
  log = g.log ∙ ap (λ xs. xs ++ g.suffix) f.log ∙ append_assoc m.smr_log f.suffix g.suffix;
  commits = omega (arith, f.commits, g.commits);
}

pub append_log-Grown :
    (m m' : ServerMetadata) (t c o : ℤ) → append_log m t c o ≡ some m' → Grown m m'
append_log-Grown m m' t c o e =
    let same = append_log_lem m t c o m' e in
    record {
      suffix = record { term = t; arg1 = c; arg2 = o } ∷ [];
      log = ap (λ x. x.smr_log) same;
      commits = ground (arith, same);
    }

execute_log-Grown : (m m' : ServerMetadata) → execute_log m m.commit_length ≡ some m' → Grown m m'
execute_log-Grown m m' e =
    let (op, found, same) = execute_log_lem m m' e in
    same_log-Grown m m' (ap (λ x. x.smr_log) same)
      (ground (arith, same, +ℤ_parts m.commit_length (pos 1)))

append_entry-Grown :
    (m m' : ServerMetadata) (req : LogRequest) → append_entry m req ≡ some m' → Grown m m'
unfolding append_entry
append_entry-Grown m m' req e = elim (Bool-cases (req.op_term ==ℤ minus_one)) [
  | inl h ↦ same_log-Grown m m' (ground (arith, e, h)) (ground (arith, e, h))
  | inr h ↦ append_log-Grown m m' req.op_term req.op_arg1 req.op_arg2 (ground (arith, e, h))
]

commit_entry-Grown :
    (m m' : ServerMetadata) (req : LogRequest) → commit_entry m req ≡ some m' → Grown m m'
unfolding commit_entry
commit_entry-Grown m m' req e = elim (Bool-cases (ltb_ℤ m.commit_length req.commit_length)) [
  | inl h ↦ execute_log-Grown m m' (ground (arith, e, h))
  | inr h ↦ same_log-Grown m m' (ground (arith, e, h)) (ground (arith, e, h))
]

log_entry-Grown :
    (m m' : ServerMetadata) (req : LogRequest) → log_entry m req ≡ some m' → Grown m m'
log_entry-Grown m m' req e =
    let e' = sym (log_entry_lem m req) ∙ e in
    elim (Bool-cases (ltb_ℤ req.prefix_length m.log_size)) [
      | inl h ↦ same_log-Grown m m' (ground (arith, e', h)) (ground (arith, e', h))
      | inr h ↦ elim (Option-cases (append_entry m req)) [
        | inl f ↦ absurd (ground (arith, e', h, f))
        | inr (a, f) ↦
            Grown-trans m a m' (append_entry-Grown m a req f)
              (commit_entry-Grown a m' req (ground (arith, e', h, f)))
      ]
    ]

-- The rest of GetLogResponse sets neither the log nor the committed length.
respond-Grown :
    (m m' : ServerMetadata) (req : LogRequest) (able : Bool) (res : LogResponse)
    → respond m req able ≡ some (res, m')
    → Grown m m'
unfolding respond
respond-Grown m m' req true res e = elim (Option-cases (log_entry m req)) [
  | inl f ↦ absurd (ground (arith, e, f))
  | inr (a, f) ↦
      Grown-trans m a m' (log_entry-Grown m a req f)
        (same_log-Grown a m' (ground (arith, e, f)) (ground (arith, e, f)))
]
respond-Grown m m' req false res e = same_log-Grown m m' (ground (arith, e)) (ground (arith, e))

accept_leader-Grown : (m : ServerMetadata) (req : LogRequest) → Grown m (accept_leader m req)
unfolding accept_leader
accept_leader-Grown m req = same_log-Grown m (accept_leader m req) (ground arith) (ground arith)

pub get_log_response-Grown :
    (m m' : ServerMetadata) (req : LogRequest) (res : LogResponse)
    → get_log_response m req ≡ some (res, m')
    → Grown m m'
unfolding get_log_response
get_log_response-Grown m m' req res e =
    let a : ServerMetadata = accept_leader m req in
    elim (Option-cases (can_log a req)) [
      | inl f ↦ absurd (ground (arith, e, f))
      | inr (able, f) ↦
          Grown-trans m a m' (accept_leader-Grown m req)
            (respond-Grown a m' req (a.current_term ==ℤ req.current_term && able) res (rw f at e))
    ]

pub get_vote_response-Grown :
    (m m' : ServerMetadata) (msg : RequestVoteMessage) (res : RequestVoteResponse)
    → get_vote_response m msg ≡ some (res, m')
    → Grown m m'
unfolding get_vote_response adopt_term
get_vote_response-Grown m m' msg res e = elim (Option-cases (get_last_term m)) [
  | inl f ↦ absurd (ground (arith, e, f))
  | inr (last, f) ↦ same_log-Grown m m' (ground (arith, e, f)) (ground (arith, e, f))
]
