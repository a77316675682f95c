-- ===== src/Rpc/Replicate/Leads.antt =====
-- A leader that replicates its log to one server: the request of ReplicateLog and the answer to it.
pub mod Answers
use raft_distributed_kv.Prelude.{
  ℕ, zero, suc, ◌+◌, ◌-◌, ◌≤◌, ◌<◌, ◌≡◌, ◌≢◌, ◌⊎◌, refl, ap, sym, subst, ◌∙◌, inl, inr, some, Bool,
  true, false, List, [], ◌∷◌, length, get_elem?, get_elem?_in_range, get_elem?_lt, arith, ℤ, pos,
  negsuc, minus_one, ◌-ℤ◌, ◌==ℤ◌, ◌≤ℤ◌, ltb_ℤ, ==ℤ_iff, -ℤ_parts, eq_of_parts, IsInt, Bool-cases,
}
use raft_distributed_kv.Words.RoundTrip.{All}
use raft_distributed_kv.Messages.LogRequest
use raft_distributed_kv.Messages.LogRequest.{LogRequest, set_log_request}
use raft_distributed_kv.Messages.LogResponse.{LogResponse}
use raft_distributed_kv.Metadata.{
  ServerMetadata, NodePtr, MapOp, leader, at, assign, find, get_prefix_term, get_term_at_idx,
  get_peer_size,
}
use raft_distributed_kv.Metadata.Ints.{at_pos, assign_in_range, at-assign_ne}
use raft_distributed_kv.Metadata.Commit.Majority.{HasMajority}
use raft_distributed_kv.Metadata.Commit.{commit_log}
use raft_distributed_kv.Metadata.Commit.Keeps.{IsCommit, commit_log_lem}
use raft_distributed_kv.Metadata.Append.Prefix.{Asks}
use raft_distributed_kv.Rpc.Replicate.{
  make_request, record_ack, step_back, handle_response, is_leader_status, changed,
}
use raft_distributed_kv.Rpc.Replicate.Keeps.{
  IsLeading, SameLog, frame-IsLeading, commit_log-IsLeading, set_arrays-IsLeading,
}
use raft_distributed_kv.Rpc.Replicate.Requests.{HasTerms}

-- What is sent of a server's state is ints.
pub record HasInts (m : ServerMetadata) : Type 0 where
  pub server : IsInt m.factory_id
  pub term : IsInt m.current_term
  pub entry :
      (n : ℕ) (op : MapOp)
      → get_elem? m.smr_log n ≡ some op
      → IsInt op.term × IsInt op.arg1 × IsInt op.arg2

-- A leader that has sent k entries to the node, which has the index i.
pub record Leads (node : NodePtr) (i : ℤ) (k : ℕ) (m : ServerMetadata) : Type 0 where
  pub leading : IsLeading m
  pub role : m.status ≡ leader
  pub index : find m.server_index_map node.id ≡ some i
  pub sent : List ℤ
  pub allocated : m.sent_length ≡ some sent
  pub places : length sent ≡ get_peer_size m + 1
  pub length_sent : at sent i ≡ some (pos k)
  pub within : k ≤ length m.smr_log
  pub other : i ≢ pos (get_peer_size m)
  pub ints : HasInts m
  pub terms : HasTerms m

-- The term of the last entry of the prefix.
record IsPrefixTerm (m : ServerMetadata) (k : ℕ) (t : ℤ) : Type 0 where
  pub found : get_prefix_term m (pos k) ≡ some t
  pub last : (n : ℕ) (op : MapOp) → k ≡ suc n → get_elem? m.smr_log n ≡ some op → t ≡ op.term
  pub int : IsInt t

IsPrefixTerm-next :
    (m : ServerMetadata) (n : ℕ) (op : MapOp)
    → HasInts m
    → get_elem? m.smr_log n ≡ some op
    → IsPrefixTerm m (suc n) op.term
unfolding get_prefix_term get_term_at_idx
IsPrefixTerm-next m n op h found =
    let last : pos (suc n) -ℤ pos 1 ≡ pos n =
      eq_of_parts _ _ (omega (arith, -ℤ_parts (pos (suc n)) (pos 1))) in
    let here : at m.smr_log (pos n) ≡ some op = at_pos m.smr_log n ∙ found in
    record {
      found = rw last (ground (arith, here));
      last = λ n' op' e f. ground (arith, e, f, found);
      int = (h.entry n op found).0;
    }

IsPrefixTerm-total :
    (m : ServerMetadata) (k : ℕ) → HasInts m → k ≤ length m.smr_log → (t : ℤ) × IsPrefixTerm m k t
unfolding get_prefix_term
IsPrefixTerm-total m zero h fits = (
  pos 0,
  record {
    found = refl;
    last = λ n op e f. absurd (omega (arith, e));
    int = record { above = omega arith; below = omega arith };
  },
)
IsPrefixTerm-total m (suc n) h fits =
    let (op, found) = get_elem?_in_range m.smr_log n (omega (arith, fits)) in
    (op.term, IsPrefixTerm-next m n op h found)

-- The request is one that is asked with this log, and its fields are ints.
pub record IsAsked (m : ServerMetadata) (k : ℕ) (req : LogRequest) : Type 0 where
  pub asks : Asks m.smr_log k req
  pub term : req.current_term ≡ m.current_term
  pub fields : All IsInt (LogRequest.fields req)

length-IsInt : (m : ServerMetadata) (k : ℕ) → IsLeading m → k ≤ length m.smr_log → IsInt (pos k)
length-IsInt m k l fits = record {
  above = omega arith;
  below = ground (arith, fits, l.sound.valid.sized, l.sound.valid.fits);
}

commit-IsInt : (m : ServerMetadata) → IsLeading m → IsInt m.commit_length
commit-IsInt m l =
    let v = l.sound.valid in
    record {
      above = omega (arith, v.committed_low);
      below = omega (arith, v.committed_high, v.fits);
    }

minus_one-IsInt : IsInt minus_one
minus_one-IsInt = record { above = omega arith; below = omega arith }

-- Part of the log has not been sent: the request carries the next entry.
pub make_request_entry :
    (node : NodePtr) (i : ℤ) (k : ℕ) (m : ServerMetadata) (op : MapOp)
    → Leads node i k m
    → get_elem? m.smr_log k ≡ some op
    → (req : LogRequest) × (make_request m i ≡ some (req, false))
      × IsAsked m k req
      × (record { term = req.op_term; arg1 = req.op_arg1; arg2 = req.op_arg2 } ≡ op)
      × ((req.op_term ==ℤ minus_one) ≡ false)
unfolding make_request set_log_request
make_request_entry node i k m op l found =
    let (t, p) = IsPrefixTerm-total m k l.ints l.within in
    let v = l.leading.sound.valid in
    let more = get_elem?_lt m.smr_log k op found in
    let part : (m.log_size ==ℤ pos k) ≡ false = ground (arith, v.sized, more) in
    let here : at m.smr_log (pos k) ≡ some op = at_pos m.smr_log k ∙ found in
    let term : op.term ≢ minus_one = l.terms.entry k op found in
    let req : LogRequest = record {
      leader_id = m.factory_id;
      current_term = m.current_term;
      prefix_length = pos k;
      prefix_term = t;
      commit_length = m.commit_length;
      op_term = op.term;
      op_arg1 = op.arg1;
      op_arg2 = op.arg2;
    } in
    let (int0, int1, int2) = l.ints.entry k op found in
    (
      req,
      ground (arith, l.allocated, l.length_sent, p.found, part, here),
      record {
        asks = record {
          valid = record { prefix = omega arith; heartbeat = λ h. absurd (term h) };
          prefix = refl;
          term = p.last;
        };
        term = refl;
        fields = (
          l.ints.server,
          (
            l.ints.term,
            (
              length-IsInt m k l.leading l.within,
              (p.int, (commit-IsInt m l.leading, (int0, (int1, (int2, tt))))),
            ),
          ),
        );
      },
      refl,
      ground (arith, term, ==ℤ_iff op.term minus_one),
    )

-- The whole log has been sent: the request is a heartbeat.
pub make_request_heartbeat :
    (node : NodePtr) (i : ℤ) (k : ℕ) (m : ServerMetadata)
    → Leads node i k m
    → k ≡ length m.smr_log
    → (req : LogRequest) × (make_request m i ≡ some (req, true))
      × IsAsked m k req
      × (req.op_term ≡ minus_one)
unfolding make_request set_log_request
make_request_heartbeat node i k m l all =
    let (t, p) = IsPrefixTerm-total m k l.ints l.within in
    let v = l.leading.sound.valid in
    let whole : (m.log_size ==ℤ pos k) ≡ true = ground (arith, v.sized, all) in
    let req : LogRequest = record {
      leader_id = m.factory_id;
      current_term = m.current_term;
      prefix_length = pos k;
      prefix_term = t;
      commit_length = m.commit_length;
      op_term = minus_one;
      op_arg1 = minus_one;
      op_arg2 = minus_one;
    } in
    (
      req,
      ground (arith, l.allocated, l.length_sent, p.found, whole),
      record {
        asks = record {
          valid = record {
            prefix = omega arith;
            heartbeat = λ h. ground (arith, v.committed_high, v.sized, all);
          };
          prefix = refl;
          term = p.last;
        };
        term = refl;
        fields = (
          l.ints.server,
          (
            l.ints.term,
            (
              length-IsInt m k l.leading l.within,
              (
                p.int,
                (
                  commit-IsInt m l.leading,
                  (minus_one-IsInt, (minus_one-IsInt, (minus_one-IsInt, tt))),
                ),
              ),
            ),
          ),
        );
      },
      refl,
    )
