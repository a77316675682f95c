-- ===== src/Metadata/Log/Keeps.antt =====
-- The log and the state machine of a server in AppendLog and ExecuteLog.
use raft_distributed_kv.Prelude.{
  suc, ◌≡◌, ap, ◌∙◌, sym, subst, [], ◌∷◌, ◌++◌, some, length, take, length-append, get_elem?, arith,
  ℤ, pos, pos_part, ◌+ℤ◌, +ℤ_parts, eq_of_parts, ◌<ℤ◌, int_max, Option-cases, inl, inr,
  get_elem?_lt,
}
use raft_distributed_kv.Metadata.{ServerMetadata, MapOp, checked, at, get_op, put}
use raft_distributed_kv.Metadata.Ints.{checked_in_range, at_in_range}
use raft_distributed_kv.Metadata.Invariant.{IsValid, IsApplied, replay, replay_next, take-append}
use raft_distributed_kv.Metadata.Log.{append_log, execute_log}

pub append_log-IsValid :
    (m : ServerMetadata) (t c o : ℤ) (m' : ServerMetadata)
    → append_log m t c o ≡ some m'
    → IsValid m
    → IsValid m'
unfolding append_log checked
append_log-IsValid m t c o m' h v = ground (
  arith,
  +ℤ_parts m.log_size (pos 1),
  eq_of_parts (m.log_size +ℤ pos 1)
      (pos (length (m.smr_log ++ record { term = t; arg1 = c; arg2 = o } ∷ []))),
  length-append m.smr_log (record { term = t; arg1 = c; arg2 = o } ∷ []),
)

-- What AppendLog leaves: the entry at the end of the log, one entry more, and the rest as it was.
pub append_log_lem :
    (m : ServerMetadata) (t c o : ℤ) (m' : ServerMetadata)
    → append_log m t c o ≡ some m'
    → (m' ≡ record m {
      smr_log = m.smr_log ++ record { term = t; arg1 = c; arg2 = o } ∷ [];
      log_size = m.log_size +ℤ pos 1;
    })
unfolding append_log checked
append_log_lem m t c o m' h = ground arith

-- An append does not touch what is committed.
pub append_log-IsApplied :
    (m : ServerMetadata) (t c o : ℤ) (m' : ServerMetadata)
    → append_log m t c o ≡ some m'
    → IsValid m
    → IsApplied m
    → IsApplied m'
unfolding append_log checked
append_log-IsApplied m t c o m' h v a = ground (
  arith,
  take-append (pos_part m.commit_length) m.smr_log (record { term = t; arg1 = c; arg2 = o }),
)

-- It faults only at the largest `int`.
pub append_log_total :
    (m : ServerMetadata) (t c o : ℤ)
    → IsValid m
    → m.log_size <ℤ int_max
    → (m' : ServerMetadata) × (append_log m t c o ≡ some m')
unfolding append_log
append_log_total m t c o v room = (
  record m {
    smr_log = m.smr_log ++ record { term = t; arg1 = c; arg2 = o } ∷ [];
    log_size = m.log_size +ℤ pos 1;
  },
  rw (
      checked_in_range (m.log_size +ℤ pos 1) (omega (arith, +ℤ_parts m.log_size (pos 1)))
        (omega (arith, +ℤ_parts m.log_size (pos 1)))),
)

-- What ExecuteLog leaves, where `idx` is the first entry that is not committed.
pub execute_log_lem :
    (m m' : ServerMetadata)
    → execute_log m m.commit_length ≡ some m'
    → (op : MapOp) × (get_elem? m.smr_log (pos_part m.commit_length) ≡ some op)
      × (m' ≡ record m {
        customer_record = put m.customer_record op.arg1 op.arg2;
        commit_length = m.commit_length +ℤ pos 1;
      })
unfolding execute_log get_op checked at
execute_log_lem m m' h = elim (Option-cases (get_op m m.commit_length)) [
  | inl e ↦ ground arith
  | inr (op, e) ↦ (op, ground arith, ground arith)
]

pub execute_log-IsValid :
    (m m' : ServerMetadata) → execute_log m m.commit_length ≡ some m' → IsValid m → IsValid m'
execute_log-IsValid m m' h v =
    let (op, found, e) = execute_log_lem m m' h in
    ground (
      arith,
      +ℤ_parts m.commit_length (pos 1),
      get_elem?_lt m.smr_log (pos_part m.commit_length) op found,
    )

pub execute_log-IsApplied :
    (m m' : ServerMetadata)
    → execute_log m m.commit_length ≡ some m'
    → IsValid m
    → IsApplied m
    → IsApplied m'
execute_log-IsApplied m m' h v a =
    let (op, found, e) = execute_log_lem m m' h in
    let next : pos_part (m.commit_length +ℤ pos 1) ≡ suc (pos_part m.commit_length) =
      ground (arith, +ℤ_parts m.commit_length (pos 1)) in
    subst IsApplied (sym e) (
      ap (λ r. put r op.arg1 op.arg2) a
      ∙ sym (replay_next m.smr_log (pos_part m.commit_length) op found)
      ∙ sym (ap (λ n. replay [] (take n m.smr_log)) next))

pub execute_log_total :
    (m : ServerMetadata)
    → IsValid m
    → m.commit_length <ℤ m.log_size
    → (m' : ServerMetadata) × (execute_log m m.commit_length ≡ some m')
unfolding execute_log get_op
execute_log_total m v room =
    let (op, found) = at_in_range m.smr_log m.commit_length v.committed_low (ground arith) in
    let fits : checked (m.commit_length +ℤ pos 1) ≡ some (m.commit_length +ℤ pos 1) =
      checked_in_range _ (omega (arith, +ℤ_parts m.commit_length (pos 1)))
        (omega (arith, +ℤ_parts m.commit_length (pos 1))) in
    (
      record m {
        customer_record = put m.customer_record op.arg1 op.arg2;
        commit_length = m.commit_length +ℤ pos 1;
      },
      rw (found, fits),
    )
