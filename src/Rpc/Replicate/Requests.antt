-- ===== src/Rpc/Replicate/Requests.antt =====
-- The requests that ReplicateLog builds, and what GetLogResponse relies on in them.
use raft_distributed_kv.Prelude.{
  ◌≡◌, ◌≢◌, some, Bool, true, false, ◌⊎◌, List, get_elem?, arith, ℤ, pos, pos_part, minus_one, ◌≤ℤ◌,
  ◌==ℤ◌, Bool-cases, Option-cases, inl, inr, ℕ,
}
use raft_distributed_kv.Messages.LogRequest.{LogRequest, set_log_request}
use raft_distributed_kv.Metadata.{ServerMetadata, MapOp, at, get_prefix_term}
use raft_distributed_kv.Metadata.Ints.{at-eq-some}
use raft_distributed_kv.Metadata.Invariant.{IsSound}
use raft_distributed_kv.Metadata.Append.Total.{IsRequest}
use raft_distributed_kv.Rpc.Replicate.{make_request}

-- No entry has the term -1, by which a heartbeat is told from an entry.
pub record HasTerms (m : ServerMetadata) : Type 0 where
  pub entry : (n : ℕ) (op : MapOp) → get_elem? m.smr_log n ≡ some op → op.term ≢ minus_one

-- What is sent is of the length that was acknowledged by the server.
pub record IsSent (m : ServerMetadata) (i prefix : ℤ) : Type 0 where
  pub sent : List ℤ
  pub allocated : m.sent_length ≡ some sent
  pub length_sent : at sent i ≡ some prefix

-- What a request carries: nothing for a server to which the whole log was sent, or the entry behind
-- the prefix.
pub record Carries (m : ServerMetadata) (prefix : ℤ) (req : LogRequest) (heartbeat : Bool)
    : Type 0 where
  pub load :
      ((m.log_size ≡ prefix)
        × (heartbeat ≡ true)
        × (req.op_term ≡ minus_one)
        × (req.op_arg1 ≡ minus_one)
        × (req.op_arg2 ≡ minus_one))
      ⊎ ((m.log_size ≢ prefix)
          × (heartbeat ≡ false)
          × (req.op_term ≢ minus_one)
          × (at m.smr_log prefix
              ≡ some (record { term = req.op_term; arg1 = req.op_arg1; arg2 = req.op_arg2 })))

-- On a well-formed leader whose log has no entry of the term -1, the request for a server to which
-- a prefix of a length that is not negative was sent is one that GetLogResponse handles without a
-- fault; it has that prefix length, the term of the last entry of the prefix (0 for an empty one),
-- the leader's term, id and committed length; if the prefix is the whole log, it carries -1 three
-- times and is treated as a heartbeat, and else it carries the entry behind the prefix, whose term
-- is not -1, and is treated as no heartbeat.
pub make_request-IsRequest :
    (m : ServerMetadata) (i prefix : ℤ) (req : LogRequest) (heartbeat : Bool)
    → make_request m i ≡ some (req, heartbeat)
    → IsSound m
    → HasTerms m
    → IsSent m i prefix
    → pos 0 ≤ℤ prefix
    → IsRequest req
      × (req.prefix_length ≡ prefix)
      × (get_prefix_term m prefix ≡ some req.prefix_term)
      × (req.current_term ≡ m.current_term)
      × (req.leader_id ≡ m.factory_id)
      × (req.commit_length ≡ m.commit_length)
      × Carries m prefix req heartbeat
unfolding make_request set_log_request
make_request-IsRequest m i prefix req heartbeat h s terms sent low =
    elim (Option-cases (get_prefix_term m prefix)) [
      | inl e ↦ ground (arith, sent.allocated, sent.length_sent)
      | inr (term, e) ↦ elim (Bool-cases (m.log_size ==ℤ prefix)) [
        | inl all ↦ (
          record { prefix = ground arith; heartbeat = λ t. ground (arith, s.valid.committed_high) },
          ground arith,
          ground arith,
          ground arith,
          ground arith,
          ground arith,
          record { load = inl (ground arith) },
        )
        | inr part ↦ elim (Option-cases (at m.smr_log prefix)) [
          | inl c ↦ ground arith
          | inr (op, c) ↦
              let known : op.term ≢ minus_one =
                terms.entry (pos_part prefix) op
                  (ground (arith, at-eq-some m.smr_log prefix op c)) in
              (
                record { prefix = ground arith; heartbeat = λ t. ground (arith, known) },
                ground arith,
                ground arith,
                ground arith,
                ground arith,
                ground arith,
                record { load = inr (ground (arith, known)) },
              )
        ]
      ]
    ]
