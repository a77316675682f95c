-- ===== src/Metadata/Commit/Keeps.antt =====
-- CommitLog on a leader, against the majority and the replay of the log.
use mathlib.Core.Bool.{false≢true}
use raft_distributed_kv.Prelude.{
  ℕ, zero, suc, ◌+◌, ◌≡◌, ◌≢◌, refl, ap, sym, ◌∙◌, ◌⊎◌, inl, inr, List, some, length, arith, ℤ, pos,
  pos_part, ◌+ℤ◌, ◌-ℤ◌, ◌≤ℤ◌, ◌<ℤ◌, ◌==ℤ◌, leb_ℤ, +ℤ_parts, -ℤ_parts, eq_of_parts, ==ℤ_iff,
  Bool-cases, int_max,
}
use raft_distributed_kv.Metadata.{ServerMetadata, MapOp, put, checked, get_peer_size}
use raft_distributed_kv.Metadata.Ints.{checked_in_range}
use raft_distributed_kv.Metadata.Invariant.{IsSound}
use raft_distributed_kv.Metadata.Log.{execute_log}
use raft_distributed_kv.Metadata.Log.Keeps.{
  execute_log-IsValid, execute_log-IsApplied, execute_log_lem, execute_log_total,
}
use raft_distributed_kv.Metadata.Commit.{find_commit, execute_range, commit_up_to, commit_log}
use raft_distributed_kv.Metadata.Commit.Majority.{HasMajority, Found, find_commit_lem}

-- The state after more commits: the state machine has moved, and nothing else.
pub record Committed (m m' : ServerMetadata) : Type 0 where
  pub sound : IsSound m'
  pub rest :
      m' ≡ record m { customer_record = m'.customer_record; commit_length = m'.commit_length }

committed_twice :
    (m a m' : ServerMetadata) (op : MapOp)
    → a ≡ record m {
      customer_record = put m.customer_record op.arg1 op.arg2;
      commit_length = m.commit_length +ℤ pos 1;
    }
    → m' ≡ record a { customer_record = m'.customer_record; commit_length = m'.commit_length }
    → m' ≡ record m { customer_record = m'.customer_record; commit_length = m'.commit_length }
committed_twice m a m' op e f = ground arith

-- ExecuteLog over the next n entries.
execute_range_lem :
    (m : ServerMetadata) (n : ℕ) (i : ℤ)
    → i ≡ m.commit_length
    → IsSound m
    → i +ℤ pos n ≤ℤ m.log_size
    → (m' : ServerMetadata) × (execute_range m n i ≡ some m')
      × Committed m m'
      × (m'.commit_length ≡ i +ℤ pos n)
unfolding execute_range
execute_range_lem m zero i e s fits = (
  m,
  refl,
  record { sound = s; rest = refl },
  sym e ∙ eq_of_parts _ _ (omega (arith, +ℤ_parts i (pos 0))),
)
execute_range_lem m (suc n) i e s fits =
    let parts1 = +ℤ_parts i (pos 1) in
    let parts = +ℤ_parts i (pos (suc n)) in
    let (a, run) = execute_log_total m s.valid (ground (arith, parts)) in
    let sa : IsSound a = record {
      valid = execute_log-IsValid m a run s.valid;
      applied = execute_log-IsApplied m a run s.valid s.applied;
    } in
    let (op, found, ea) = execute_log_lem m a run in
    let shift : i +ℤ pos 1 +ℤ pos n ≡ i +ℤ pos (suc n) =
      eq_of_parts _ _ (omega (arith, parts1, +ℤ_parts (i +ℤ pos 1) (pos n), parts)) in
    let next : i +ℤ pos 1 ≡ a.commit_length = ground arith in
    let room : i +ℤ pos 1 +ℤ pos n ≤ℤ a.log_size = ground arith in
    let (m', ran, c, len) = execute_range_lem a n (i +ℤ pos 1) next sa room in
    (
      m',
      rw (ap (execute_log m) e ∙ run) ran,
      record { sound = c.sound; rest = committed_twice m a m' op ea c.rest },
      len ∙ shift,
    )

-- The commit of a length that is within the log and not below what is committed; 0 commits nothing.
pub commit_up_to_lem :
    (m : ServerMetadata) (r : ℤ)
    → IsSound m
    → (r ≡ pos 0) ⊎ ((m.commit_length ≤ℤ r) × (r ≤ℤ m.log_size))
    → (m' : ServerMetadata) × (commit_up_to m r ≡ some m')
      × Committed m m'
      × (((r ≡ pos 0) × (m'.commit_length ≡ m.commit_length))
          ⊎ ((r ≢ pos 0) × (m'.commit_length ≡ r)))
unfolding commit_up_to
commit_up_to_lem m r s within = elim (Bool-cases (r ==ℤ pos 0)) [
  | inl e ↦ (m, rw e, record { sound = s; rest = refl }, inl ((==ℤ_iff r (pos 0)).0 e, refl))
  | inr e ↦
      let parts = -ℤ_parts r m.commit_length in
      let n : ℕ = pos_part (r -ℤ m.commit_length) in
      let sum : m.commit_length +ℤ pos n ≡ r =
        eq_of_parts _ _ (ground (arith, parts, +ℤ_parts m.commit_length (pos n))) in
      let (m', ran, c, len) = execute_range_lem m n m.commit_length refl s (ground (arith, sum)) in
      let done : m'.commit_length ≡ r = len ∙ sum in
      let ne : r ≢ pos 0 = λ z. false≢true (sym e ∙ (==ℤ_iff r (pos 0)).1 z) in
      (
        m',
        rw (e, ran) (ap some (ap (λ l. record m' { commit_length = l }) (sym done))),
        c,
        inr (ne, done),
      )
]

-- The arrays of a leader: an entry for each neighbour and one for itself.
pub record HasAcks (m : ServerMetadata) (acks : List ℤ) : Type 0 where
  pub allocated : m.ack_length ≡ some acks
  pub servers : length acks ≡ get_peer_size m + 1

pub commit_log_run :
    (m : ServerMetadata) (acks : List ℤ) (end r : ℤ)
    → m.ack_length ≡ some acks
    → checked (m.log_size +ℤ pos 1) ≡ some end
    → find_commit acks
        (get_peer_size m + 1)
        (pos_part (end -ℤ m.commit_length))
        m.commit_length
        (pos 0)
      ≡ some r
    → commit_log m ≡ commit_up_to m r
unfolding commit_log
commit_log_run m acks end r e1 e2 e3 = ground arith

-- What CommitLog comes to: the committed length stays, or becomes one that a majority of the servers
-- has acknowledged; every length of the log that a majority has acknowledged is committed.
pub record IsCommit (m m' : ServerMetadata) (acks : List ℤ) : Type 0 where
  pub committed : Committed m m'
  pub monotone : m.commit_length ≤ℤ m'.commit_length
  pub majority : (m'.commit_length ≡ m.commit_length) ⊎ HasMajority acks m'.commit_length
  pub complete : (k : ℤ) → k ≤ℤ m.log_size → HasMajority acks k → k ≤ℤ m'.commit_length

-- The commit of what the outer loop has found.
Found-IsCommit :
    (m m' : ServerMetadata) (acks : List ℤ) (n : ℕ) (r : ℤ)
    → IsSound m
    → m.commit_length +ℤ pos n ≡ m.log_size +ℤ pos 1
    → Found acks n m.commit_length (pos 0) r
    → Committed m m'
    → ((r ≡ pos 0) × (m'.commit_length ≡ m.commit_length)) ⊎ ((r ≢ pos 0) × (m'.commit_length ≡ r))
    → IsCommit m m' acks
Found-IsCommit m m' acks n r s span f c len = record {
  committed = c;
  monotone = ground (arith, f.origin, f.grows, s.valid.committed_low);
  majority = ground (arith, f.origin, f.grows, s.valid.committed_low);
  complete = λ k high maj. elim (Bool-cases (leb_ℤ m.commit_length k)) [
    | inl e ↦ ground (arith, f.largest k, span, +ℤ_parts m.log_size (pos 1))
    | inr e ↦ ground (arith, f.origin, f.grows, s.valid.committed_low)
  ];
}

-- On a well-formed leader whose log is shorter than the largest int, CommitLog returns; nothing but
-- the committed length and the state machine changes, and the state machine is the replay of what
-- is committed; the committed length does not fall; it stays or becomes one that a majority of the
-- servers has acknowledged, and every length of the log that a majority has acknowledged is
-- committed.
pub commit_log_lem :
    (m : ServerMetadata) (acks : List ℤ)
    → IsSound m
    → m.log_size <ℤ int_max
    → HasAcks m acks
    → (m' : ServerMetadata) × (commit_log m ≡ some m') × IsCommit m m' acks
commit_log_lem m acks s room has =
    let end : ℤ = m.log_size +ℤ pos 1 in
    let parts = +ℤ_parts m.log_size (pos 1) in
    let fits : checked end ≡ some end =
      checked_in_range _ (omega (arith, s.valid.committed_low, s.valid.committed_high, parts))
        (omega (arith, parts)) in
    let n : ℕ = pos_part (end -ℤ m.commit_length) in
    let span : m.commit_length +ℤ pos n ≡ end = eq_of_parts _ _ (
      ground (
        arith,
        parts,
        -ℤ_parts end m.commit_length,
        +ℤ_parts m.commit_length (pos n),
        s.valid.committed_high,
      )) in
    let (r, f) = find_commit_lem acks n m.commit_length (pos 0) in
    let found : find_commit acks (get_peer_size m + 1) n m.commit_length (pos 0) ≡ some r =
      ap (λ k. find_commit acks k n m.commit_length (pos 0)) (sym has.servers) ∙ f.result in
    let (m', ran, c, len) = commit_up_to_lem m r s (ground (arith, f.origin, span, parts)) in
    (
      m',
      commit_log_run m acks end r has.allocated fits found ∙ ran,
      Found-IsCommit m m' acks n r s span f c len,
    )
