-- ===== src/Metadata/Append/Prefix.antt =====
-- GetLogResponse on a follower whose log is the beginning of the leader's.
pub mod Answers
use raft_distributed_kv.Prelude.{
  ℕ, zero, suc, ◌+◌, ◌≤◌, ◌<◌, ◌≡◌, ◌⊎◌, refl, ap, sym, ◌∙◌, inl, inr, some, none, Bool, true,
  false, List, [], ◌∷◌, ◌++◌, length, length-take, take, get_elem?, get_elem?-take,
  get_elem?_in_range, arith, ℤ, pos, minus_one, ◌+ℤ◌, ◌-ℤ◌, ◌≤ℤ◌, ◌<ℤ◌, ◌==ℤ◌, ltb_ℤ, leb_ℤ,
  int_max, +ℤ_parts, -ℤ_parts, eq_of_parts, ◌&&◌, Bool-cases, Option-cases,
}
use raft_distributed_kv.Messages.LogRequest.{LogRequest}
use raft_distributed_kv.Messages.LogResponse.{LogResponse, set_log_response}
use raft_distributed_kv.Metadata.{ServerMetadata, MapOp, checked, at, get_term_at_idx}
use raft_distributed_kv.Metadata.Ints.{checked_in_range, at_pos}
use raft_distributed_kv.Metadata.Invariant.{IsSound, take-suc}
use raft_distributed_kv.Metadata.Log.Keeps.{append_log_lem, execute_log_lem}
use raft_distributed_kv.Metadata.Append.{
  accept_leader, can_log, append_entry, commit_entry, log_entry, respond, get_log_response,
}
use raft_distributed_kv.Metadata.Append.Keeps.{
  log_entry_lem, accept_leader-IsSound, get_log_response-IsSound,
}
use raft_distributed_kv.Metadata.Append.Total.{IsRequest, log_entry_total}
use raft_distributed_kv.Metadata.Append.Terms.{SameRole, log_entry_frame}

-- The log of m is the first j entries of the leader's.
pub record Follows (log : List MapOp) (j : ℕ) (m : ServerMetadata) : Type 0 where
  pub sound : IsSound m
  pub begins : m.smr_log ≡ take j log
  pub within : j ≤ length log

-- The request of a leader with this log that has sent k entries.
pub record Asks (log : List MapOp) (k : ℕ) (req : LogRequest) : Type 0 where
  pub valid : IsRequest req
  pub prefix : req.prefix_length ≡ pos k
  pub term :
      (n : ℕ) (op : MapOp) → k ≡ suc n → get_elem? log n ≡ some op → req.prefix_term ≡ op.term

pub Follows-size :
    (log : List MapOp) (j : ℕ) (m : ServerMetadata) → Follows log j m → m.log_size ≡ pos j
Follows-size log j m f =
    f.sound.valid.sized ∙ ap pos (ap length f.begins ∙ length-take j log f.within)

-- What CanLog reads at the end of the prefix.
get_term_prefix :
    (log : List MapOp) (j n : ℕ) (m : ServerMetadata) (op : MapOp)
    → m.smr_log ≡ take j log
    → n < j
    → get_elem? log n ≡ some op
    → get_term_at_idx m (pos n) ≡ some op.term
unfolding get_term_at_idx at
get_term_prefix log j n m op e h found = ground (arith, get_elem?-take j n log h)

pub can_log_prefix :
    (log : List MapOp) (k j : ℕ) (m : ServerMetadata) (req : LogRequest)
    → Follows log j m
    → Asks log k req
    → pos (length log) <ℤ int_max
    → k ≤ j
    → can_log m req ≡ some true
unfolding can_log
can_log_prefix log zero j m req f a room h =
    let size = Follows-size log j m f in ground (arith, a.prefix, size)
can_log_prefix log (suc n) j m req f a room h =
    let size = Follows-size log j m f in
    let (op, found) = get_elem?_in_range log n (omega (arith, f.within)) in
    let here = get_term_prefix log j n m op f.begins (omega arith) found in
    let last : req.prefix_length -ℤ pos 1 ≡ pos n =
      eq_of_parts _ _ (ground (arith, a.prefix, -ℤ_parts req.prefix_length (pos 1))) in
    let fits : checked (pos n) ≡ some (pos n) =
      checked_in_range (pos n) (omega arith) (omega (arith, f.within)) in
    let same : op.term ≡ req.prefix_term = sym (a.term n op refl found) in
    rw (last, fits, here) (ground (arith, a.prefix, size, same))

pub can_log_beyond :
    (log : List MapOp) (k j : ℕ) (m : ServerMetadata) (req : LogRequest)
    → Follows log j m
    → Asks log k req
    → j < k
    → can_log m req ≡ some false
unfolding can_log
can_log_beyond log k j m req f a h =
    let size = Follows-size log j m f in ground (arith, a.prefix, size)

-- How a yes changes the log: an entry is put at its end if the prefix was the whole log.
pub log_entry_stays :
    (m m' : ServerMetadata) (req : LogRequest)
    → log_entry m req ≡ some m'
    → (ltb_ℤ req.prefix_length m.log_size ≡ true) ⊎ (req.op_term ≡ minus_one)
    → m'.smr_log ≡ m.smr_log
log_entry_stays m m' req h why = ground (arith, log_entry_frame m m' req h)

pub log_entry_appends :
    (m m' : ServerMetadata) (req : LogRequest)
    → log_entry m req ≡ some m'
    → ltb_ℤ req.prefix_length m.log_size ≡ false
    → (req.op_term ==ℤ minus_one) ≡ false
    → m'.smr_log
      ≡ m.smr_log ++ record { term = req.op_term; arg1 = req.op_arg1; arg2 = req.op_arg2 } ∷ []
unfolding append_entry commit_entry
log_entry_appends m m' req h all entry =
    let h' = sym (log_entry_lem m req) ∙ h in
    elim (Option-cases (append_entry m req)) [
      | inl e ↦ ground arith
      | inr (a, e) ↦
          ground
            (arith, append_log_lem m req.op_term req.op_arg1 req.op_arg2 a, execute_log_lem a m')
    ]
