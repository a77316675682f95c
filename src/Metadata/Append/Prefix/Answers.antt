-- ===== src/Metadata/Append/Prefix/Answers.antt =====
-- The answers of GetLogResponse on a follower whose log is the beginning of the leader's.
use raft_distributed_kv.Prelude.{
  ℕ, suc, ◌+◌, ◌≤◌, ◌<◌, ◌≡◌, ◌⊎◌, refl, ap, sym, ◌∙◌, some, true, false, List, [], ◌∷◌, ◌++◌,
  length, take, get_elem?, arith, pos, minus_one, ◌+ℤ◌, ◌≤ℤ◌, ◌<ℤ◌, ◌==ℤ◌, int_max, +ℤ_parts,
  eq_of_parts, ◌&&◌,
}
use raft_distributed_kv.Messages.LogRequest.{LogRequest}
use raft_distributed_kv.Messages.LogResponse.{LogResponse, set_log_response}
use raft_distributed_kv.Metadata.{ServerMetadata, MapOp, checked}
use raft_distributed_kv.Metadata.Ints.{checked_in_range}
use raft_distributed_kv.Metadata.Invariant.{IsSound, take-suc}
use raft_distributed_kv.Metadata.Append.{accept_leader, log_entry, respond, get_log_response}
use raft_distributed_kv.Metadata.Append.Keeps.{accept_leader-IsSound, get_log_response-IsSound}
use raft_distributed_kv.Metadata.Append.Total.{log_entry_total}
use raft_distributed_kv.Metadata.Append.Terms.{log_entry_frame}
use raft_distributed_kv.Metadata.Append.Prefix.{
  Follows, Asks, Follows-size, can_log_prefix, can_log_beyond, log_entry_stays, log_entry_appends,
}

-- A follower that is no newer than the leader takes over its term and keeps its own name and log.
accept_leader-Follows :
    (log : List MapOp) (j : ℕ) (m : ServerMetadata) (req : LogRequest)
    → m.current_term ≤ℤ req.current_term
    → Follows log j m
    → Follows log j (accept_leader m req)
      × ((accept_leader m req).current_term ≡ req.current_term)
      × ((accept_leader m req).factory_id ≡ m.factory_id)
unfolding accept_leader
accept_leader-Follows log j m req older f = (
  record {
    sound = accept_leader-IsSound m req f.sound;
    begins = ground (arith, f.begins);
    within = f.within;
  },
  ground arith,
  ground arith,
)

-- The state after an answer, apart from the log.
pub record Answered (m : ServerMetadata) (req : LogRequest) (m' : ServerMetadata) : Type 0 where
  pub sound : IsSound m'
  pub server : m'.factory_id ≡ m.factory_id
  pub term : m'.current_term ≡ req.current_term

-- A yes, with what `if (!included)` makes of the log.
answers_yes :
    (log : List MapOp) (k j : ℕ) (m : ServerMetadata) (req : LogRequest)
    → Follows log j m
    → Asks log k req
    → pos (length log) <ℤ int_max
    → m.current_term ≤ℤ req.current_term
    → k ≤ j
    → (m' : ServerMetadata) × (a : ServerMetadata) × (get_log_response m req
        ≡ some (set_log_response m.factory_id req.current_term (pos (k + 1)) (pos 1), m'))
      × Answered m req m'
      × (log_entry (accept_leader m req) req ≡ some a)
      × (m'.smr_log ≡ a.smr_log)
unfolding get_log_response respond
answers_yes log k j m req f ask room older h =
    let b : ServerMetadata = accept_leader m req in
    let (g, term, server) = accept_leader-Follows log j m req older f in
    let size = Follows-size log j b g in
    let able = can_log_prefix log k j b req g ask room h in
    let agreed : (b.current_term ==ℤ req.current_term) ≡ true = ground (arith, term) in
    let (a, run) =
      log_entry_total b req g.sound.valid (ground (arith, size, g.within, room))
        (ground (arith, size, ask.prefix, h)) ask.valid in
    let frame = (log_entry_frame b a req run).0 in
    let ack : req.prefix_length +ℤ pos 1 ≡ pos (k + 1) =
      eq_of_parts _ _ (ground (arith, ask.prefix, +ℤ_parts req.prefix_length (pos 1))) in
    let fits : checked (pos (k + 1)) ≡ some (pos (k + 1)) =
      checked_in_range _ (omega arith) (omega (arith, g.within, room)) in
    let res : LogResponse = set_log_response m.factory_id req.current_term (pos (k + 1)) (pos 1) in
    let m' : ServerMetadata = record a { heartbeat = true } in
    let done : get_log_response m req ≡ some (res, m') =
      rw (able, agreed, run, ack, fits) (ground (arith, frame.server, frame.term, term, server)) in
    (
      m',
      a,
      done,
      record {
        sound = get_log_response-IsSound m m' req res done f.sound;
        server = frame.server ∙ server;
        term = frame.term ∙ term;
      },
      run,
      refl,
    )

-- A no leaves the log.
pub answers_no :
    (log : List MapOp) (k j : ℕ) (m : ServerMetadata) (req : LogRequest)
    → Follows log j m
    → Asks log k req
    → m.current_term ≤ℤ req.current_term
    → j < k
    → (m' : ServerMetadata) × (get_log_response m req
        ≡ some (set_log_response m.factory_id req.current_term (pos 0) (pos 0), m'))
      × Answered m req m'
      × Follows log j m'
unfolding get_log_response respond
answers_no log k j m req f ask older h =
    let b : ServerMetadata = accept_leader m req in
    let (g, term, server) = accept_leader-Follows log j m req older f in
    let able = can_log_beyond log k j b req g ask h in
    let res : LogResponse = set_log_response m.factory_id req.current_term (pos 0) (pos 0) in
    let m' : ServerMetadata = record b { heartbeat = true } in
    let no : ((b.current_term ==ℤ req.current_term) && false) ≡ false = ground arith in
    let done : get_log_response m req ≡ some (res, m') =
      rw (able, no) (ground (arith, term, server)) in
    let sound = get_log_response-IsSound m m' req res done f.sound in
    (
      m',
      done,
      record { sound = sound; server = server; term = term },
      record { sound = sound; begins = g.begins; within = g.within },
    )

-- A yes to a prefix that is shorter than the log, or to a heartbeat, leaves the log.
pub answers_kept :
    (log : List MapOp) (k j : ℕ) (m : ServerMetadata) (req : LogRequest)
    → Follows log j m
    → Asks log k req
    → pos (length log) <ℤ int_max
    → m.current_term ≤ℤ req.current_term
    → k ≤ j
    → (k < j) ⊎ (req.op_term ≡ minus_one)
    → (m' : ServerMetadata) × (get_log_response m req
        ≡ some (set_log_response m.factory_id req.current_term (pos (k + 1)) (pos 1), m'))
      × Answered m req m'
      × Follows log j m'
answers_kept log k j m req f ask room older h why =
    let (m', a, done, ans, run, same) = answers_yes log k j m req f ask room older h in
    let g = (accept_leader-Follows log j m req older f).0 in
    let size = Follows-size log j (accept_leader m req) g in
    let stays =
      log_entry_stays (accept_leader m req) a req run (ground (arith, size, ask.prefix, why)) in
    (
      m',
      done,
      ans,
      record { sound = ans.sound; begins = same ∙ stays ∙ g.begins; within = f.within },
    )

-- A yes to an entry behind the whole log makes the log one entry longer.
pub answers_entry :
    (log : List MapOp) (k : ℕ) (m : ServerMetadata) (req : LogRequest) (op : MapOp)
    → Follows log k m
    → Asks log k req
    → pos (length log) <ℤ int_max
    → m.current_term ≤ℤ req.current_term
    → get_elem? log k ≡ some op
    → record { term = req.op_term; arg1 = req.op_arg1; arg2 = req.op_arg2 } ≡ op
    → (req.op_term ==ℤ minus_one) ≡ false
    → k < length log
    → (m' : ServerMetadata) × (get_log_response m req
        ≡ some (set_log_response m.factory_id req.current_term (pos (k + 1)) (pos 1), m'))
      × Answered m req m'
      × Follows log (k + 1) m'
answers_entry log k m req op f ask room older found carried entry more =
    let (m', a, done, ans, run, same) = answers_yes log k k m req f ask room older (omega arith) in
    let b : ServerMetadata = accept_leader m req in
    let g = (accept_leader-Follows log k m req older f).0 in
    let size = Follows-size log k b g in
    let grown = log_entry_appends b a req run (ground (arith, size, ask.prefix)) entry in
    let plus : suc k ≡ k + 1 = omega arith in
    let next : take k log ++ op ∷ [] ≡ take (k + 1) log =
      sym (take-suc k log op found) ∙ ap (λ n. take n log) plus in
    let tail : b.smr_log
          ++ record { term = req.op_term; arg1 = req.op_arg1; arg2 = req.op_arg2 } ∷ []
        ≡ take k log ++ op ∷ [] =
      rw (carried, g.begins) refl in
    (
      m',
      done,
      ans,
      record {
        sound = ans.sound;
        begins = same ∙ grown ∙ tail ∙ next;
        within = omega (arith, more);
      },
    )
