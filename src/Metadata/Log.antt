-- ===== src/Metadata/Log.antt =====
-- The log of a server and its state machine: AppendLog, ExecuteLog, DropUncommittedLog and
-- CleanNodeState of ServerMetadata.cpp.
pub mod Keeps
use raft_distributed_kv.Prelude.{
  ℕ, zero, suc, ◌+◌, ◌≡◌, List, [], ◌∷◌, ◌++◌, Option, none, some, ◌>>=◌, ℤ, pos, pos_part, ◌+ℤ◌,
  ◌-ℤ◌,
}
use raft_distributed_kv.Metadata.{ServerMetadata, MapOp, checked, get_op, put, assign}

unfoldable pub append_log : ServerMetadata → ℤ → ℤ → ℤ → Option ServerMetadata
append_log m op_term customer_id order_num = do
  size ← checked (m.log_size +ℤ pos 1)
  some (record m {
    smr_log = m.smr_log ++ record { term = op_term; arg1 = customer_id; arg2 = order_num } ∷ [];
    log_size = size;
  })

unfoldable pub execute_log : ServerMetadata → ℤ → Option ServerMetadata
execute_log m idx = do
  op ← get_op m idx
  commit ← checked (m.commit_length +ℤ pos 1)
  some
      (record m { customer_record = put m.customer_record op.arg1 op.arg2; commit_length = commit })

-- `pop_back` on an empty vector is undefined behaviour.
unfoldable pub pop_back {ℓ} : {A : Type ℓ} → List A → Option (List A)
pop_back [] = none
pop_back (x ∷ []) = some []
pop_back (x ∷ y ∷ xs) = do rest ← pop_back (y ∷ xs); some (x ∷ rest)

unfoldable pub pop_times {ℓ} : {A : Type ℓ} → ℕ → List A → Option (List A)
pop_times zero xs = some xs
pop_times (suc n) xs = do ys ← pop_back xs; pop_times n ys

-- `for (; size < req_prefix_length; size++) smr_log.pop_back()`; `log_size` stays.
unfoldable pub drop_uncommitted_log : ServerMetadata → ℤ → ℤ → Option ServerMetadata
drop_uncommitted_log m size req_prefix_length = do
  log ← pop_times (pos_part (req_prefix_length -ℤ size)) m.smr_log
  some (record m { smr_log = log })
