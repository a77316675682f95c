-- ===== src/Metadata/Commit.antt =====
-- The leader's commit: CommitLog of ServerMetadata.cpp.
pub mod Majority
pub mod Keeps
use raft_distributed_kv.Prelude.{
  ℕ, zero, suc, ◌+◌, ◌*◌, List, [], ◌∷◌, Option, none, some, ◌>>=◌, if◌then◌else◌, ltb, ℤ, pos,
  pos_part, ◌+ℤ◌, ◌-ℤ◌, leb_ℤ, ◌==ℤ◌,
}
use raft_distributed_kv.Metadata.{ServerMetadata, checked, at, get_peer_size}
use raft_distributed_kv.Metadata.Log.{execute_log}

-- `for (j = ...; rounds left; j++) if (ack_length[j] >= i) count++`.
unfoldable pub count_acks : List ℤ → ℕ → ℕ → ℤ → ℕ → Option ℕ
count_acks acks zero j i count = some count
count_acks acks (suc rounds) j i count = do
  ack ← at acks (pos j)
  count_acks acks rounds (j + 1) i (if leb_ℤ i ack then count + 1 else count)

-- `for (i = commit_length; i < log_size + 1; i++)`: the last i that a majority has acknowledged.
unfoldable pub find_commit : List ℤ → ℕ → ℕ → ℤ → ℤ → Option ℤ
find_commit acks servers zero i commit_until = some commit_until
find_commit acks servers (suc rounds) i commit_until = do
  count ← count_acks acks servers 0 i 0
  find_commit acks servers rounds (i +ℤ pos 1) (if ltb servers (count * 2) then i else commit_until)

-- `for (i = ...; rounds left; i++) ExecuteLog(i)`.
unfoldable pub execute_range : ServerMetadata → ℕ → ℤ → Option ServerMetadata
execute_range m zero i = some m
execute_range m (suc rounds) i = do m' ← execute_log m i; execute_range m' rounds (i +ℤ pos 1)

unfoldable pub commit_up_to : ServerMetadata → ℤ → Option ServerMetadata
commit_up_to m commit_until = if commit_until ==ℤ pos 0 then some m else do
  m' ← execute_range m (pos_part (commit_until -ℤ m.commit_length)) m.commit_length
  some (record m' { commit_length = commit_until })

unfoldable pub commit_log : ServerMetadata → Option ServerMetadata
commit_log m = do
  acks ← m.ack_length
  end ← checked (m.log_size +ℤ pos 1)
  commit_until ←
      find_commit acks (get_peer_size m + 1) (pos_part (end -ℤ m.commit_length)) m.commit_length
        (pos 0)
  commit_up_to m commit_until
