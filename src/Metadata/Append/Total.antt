-- ===== src/Metadata/Append/Total.antt =====
-- The faults of GetLogResponse, on the requests that a leader sends.
use raft_distributed_kv.Prelude.{
  ◌≡◌, refl, ◌∙◌, inl, inr, some, Bool, true, false, arith, ℤ, pos, minus_one, ◌+ℤ◌, ◌-ℤ◌, +ℤ_parts,
  -ℤ_parts, eq_of_parts, ==ℤ_iff, ◌≤ℤ◌, ◌<ℤ◌, ◌==ℤ◌, ◌&&◌, leb_ℤ, int_max, Bool-cases, ltb_ℤ,
}
use raft_distributed_kv.Messages.LogRequest.{LogRequest}
use raft_distributed_kv.Messages.LogResponse.{LogResponse, set_log_response}
use raft_distributed_kv.Metadata.{ServerMetadata, checked, get_term_at_idx}
use raft_distributed_kv.Metadata.Ints.{checked_in_range, at_in_range}
use raft_distributed_kv.Metadata.Invariant.{IsValid, IsSound}
use raft_distributed_kv.Metadata.Log.Keeps.{
  append_log-IsValid, append_log_lem, append_log_total, execute_log_total,
}
use raft_distributed_kv.Metadata.Append.{
  accept_leader, can_log, append_entry, commit_entry, log_entry, respond, get_log_response,
}
use raft_distributed_kv.Metadata.Append.Keeps.{accept_leader-IsSound, log_entry_lem}

-- A request as a leader sends it: the prefix is a length, and a heartbeat, which carries no entry,
-- has a prefix that holds all that is committed.
pub record IsRequest (req : LogRequest) : Type 0 where
  pub prefix : pos 0 ≤ℤ req.prefix_length
  pub heartbeat : req.op_term ≡ minus_one → req.commit_length ≤ℤ req.prefix_length

append_entry_total :
    (m : ServerMetadata) (req : LogRequest)
    → IsValid m
    → m.log_size <ℤ int_max
    → m.log_size ≡ req.prefix_length
    → IsRequest req
    → (m' : ServerMetadata) × (append_entry m req ≡ some m')
      × IsValid m'
      × (m'.commit_length <ℤ req.commit_length → m'.commit_length <ℤ m'.log_size)
unfolding append_entry
append_entry_total m req v room upto r = elim (Bool-cases (req.op_term ==ℤ minus_one)) [
  | inl e ↦ (m, rw e, v, λ h. ground (arith, r.heartbeat ((==ℤ_iff req.op_term minus_one).0 e)))
  | inr e ↦
      let (m', done) = append_log_total m req.op_term req.op_arg1 req.op_arg2 v room in
      (
        m',
        rw e done,
        append_log-IsValid m _ _ _ m' done v,
        λ h.
            ground (
              arith,
              append_log_lem m _ _ _ m' done,
              +ℤ_parts m.log_size (pos 1),
              v.committed_high,
            ),
      )
]

pub log_entry_total :
    (m : ServerMetadata) (req : LogRequest)
    → IsValid m
    → m.log_size <ℤ int_max
    → req.prefix_length ≤ℤ m.log_size
    → IsRequest req
    → (m' : ServerMetadata) × (log_entry m req ≡ some m')
unfolding commit_entry
log_entry_total m req v room reached r = elim (Bool-cases (ltb_ℤ req.prefix_length m.log_size)) [
  | inl e ↦ (m, log_entry_lem m req ∙ rw e)
  | inr e ↦
      let (a, done, va, more) =
        append_entry_total m req v room (eq_of_parts m.log_size req.prefix_length (ground arith))
          r in
      elim (Bool-cases (ltb_ℤ a.commit_length req.commit_length)) [
        | inl c ↦
            let (m', run) = execute_log_total a va (more (ground arith)) in
            (m', log_entry_lem m req ∙ rw (e, done, c) run)
        | inr c ↦ (a, log_entry_lem m req ∙ rw (e, done, c))
      ]
]

respond_total :
    (m : ServerMetadata) (req : LogRequest) (able : Bool)
    → IsValid m
    → m.log_size <ℤ int_max
    → (able ≡ true → req.prefix_length ≤ℤ m.log_size)
    → IsRequest req
    → (out : LogResponse × ServerMetadata) × (respond m req able ≡ some out)
unfolding respond
respond_total m req true v room reached r =
    let (a, done) = log_entry_total m req v room (reached refl) r in
    let ack : checked (req.prefix_length +ℤ pos 1) ≡ some (req.prefix_length +ℤ pos 1) =
      checked_in_range _ (omega (arith, +ℤ_parts req.prefix_length (pos 1), r.prefix))
        (omega (arith, reached refl, +ℤ_parts req.prefix_length (pos 1))) in
    (
      (
        set_log_response a.factory_id a.current_term (req.prefix_length +ℤ pos 1) (pos 1),
        record a { heartbeat = true },
      ),
      rw (done, ack),
    )
respond_total m req false v room reached r = (
  (set_log_response m.factory_id m.current_term (pos 0) (pos 0), record m { heartbeat = true }),
  refl,
)

can_log_total :
    (m : ServerMetadata) (req : LogRequest)
    → IsValid m
    → IsRequest req
    → (able : Bool) × (can_log m req ≡ some able) × (able ≡ true → req.prefix_length ≤ℤ m.log_size)
unfolding can_log get_term_at_idx
can_log_total m req v r = elim (Bool-cases (leb_ℤ req.prefix_length m.log_size)) [
  | inr e ↦ (false, rw e, λ h. ground arith)
  | inl e ↦ elim (Bool-cases (req.prefix_length ==ℤ pos 0)) [
    | inl z ↦ (true, rw (e, z), λ h. ground arith)
    | inr nz ↦
        let last : ℤ = req.prefix_length -ℤ pos 1 in
        let parts = -ℤ_parts req.prefix_length (pos 1) in
        let fits : checked last ≡ some last =
          checked_in_range _ (ground (arith, r.prefix, parts)) (ground (arith, parts, v.fits)) in
        let (op, found) =
          at_in_range m.smr_log last (ground (arith, r.prefix, parts))
            (ground (arith, r.prefix, v.sized, parts)) in
        let notneg : ltb_ℤ last (pos 0) ≡ false = ground (arith, r.prefix, parts) in
        (op.term ==ℤ req.prefix_term, rw (e, nz, fits, notneg, found), λ h. ground arith)
  ]
]

accept_leader-log :
    (m : ServerMetadata) (req : LogRequest)
    → ((accept_leader m req).log_size ≡ m.log_size) × ((accept_leader m req).smr_log ≡ m.smr_log)
unfolding accept_leader
accept_leader-log m req = ground arith

-- On a well-formed server whose log is shorter than the largest int, GetLogResponse returns for
-- every request that a leader sends: it indexes nothing out of bounds and no int overflows.
pub get_log_response_total :
    (m : ServerMetadata) (req : LogRequest)
    → IsSound m
    → m.log_size <ℤ int_max
    → IsRequest req
    → (out : LogResponse × ServerMetadata) × (get_log_response m req ≡ some out)
unfolding get_log_response
get_log_response_total m req s room r =
    let m' : ServerMetadata = accept_leader m req in
    let s' : IsSound m' = accept_leader-IsSound m req s in
    let (able, e, reached) = can_log_total m' req s'.valid r in
    let (out, done) =
      respond_total m' req (m'.current_term ==ℤ req.current_term && able) s'.valid
        (ground (arith, accept_leader-log m req)) (λ h. ground (arith, reached)) r in
    (out, rw e done)
