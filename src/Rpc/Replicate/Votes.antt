-- ===== src/Rpc/Replicate/Votes.antt =====
-- The vote and the term of a server in ReplicateLog.
use raft_distributed_kv.Prelude.{
  returned, ℕ, zero, suc, ◌≡◌, Option, some, none, Bool, true, false, ◌&&◌, ℤ, arith, pos, ◌+ℤ◌,
  ◌==ℤ◌, ltb_ℤ, Option-cases, Bool-cases, inl, inr, pos_part, ◌-ℤ◌,
}
use raft_distributed_kv.Messages.LogResponse.{LogResponse}
use raft_distributed_kv.Metadata.{ServerMetadata, NodePtr, assign}
use raft_distributed_kv.Metadata.Log.{execute_log}
use raft_distributed_kv.Metadata.Commit.{execute_range, commit_up_to, commit_log}
use raft_distributed_kv.Metadata.Membership.{clean_node_state}
use raft_distributed_kv.Rpc.Transport.{Transport}
use raft_distributed_kv.Rpc.Election.{demote}
use raft_distributed_kv.Rpc.Replicate.{
  Visit, record_ack, step_back, handle_response, fail_node, react, is_leader_status, replicate_log,
}
use raft_distributed_kv.Rpc.Replicate.Sound.{commit_log-some}
use raft_distributed_kv.Rpc.Replicate.Loop.{SameState, replicate_log_keeps}
use raft_distributed_kv.Voting.{Held}

-- The term and the vote are as they were.
pub record SameVote (m m' : ServerMetadata) : Type 0 where
  pub term : m'.current_term ≡ m.current_term
  pub vote : m'.voted_for ≡ m.voted_for

pub SameVote-Held : {t a : ℤ} (m m' : ServerMetadata) → SameVote m m' → Held t a m → Held t a m'
SameVote-Held m m' f h = ground (arith, f.term, f.vote, h.held)

execute_range-SameVote :
    (m m' : ServerMetadata) (n : ℕ) (i : ℤ) → execute_range m n i ≡ some m' → SameVote m m'
unfolding execute_range execute_log
execute_range-SameVote m m' zero i e = ground arith
execute_range-SameVote m m' (suc n) i e = elim (Option-cases (execute_log m i)) [
  | inl f ↦ ground arith
  | inr (a, f) ↦
      let rest = execute_range-SameVote a m' n (i +ℤ pos 1) (ground arith) in
      ground (arith, rest.term, rest.vote)
]

commit_up_to-SameVote : (m m' : ServerMetadata) (r : ℤ) → commit_up_to m r ≡ some m' → SameVote m m'
unfolding commit_up_to
commit_up_to-SameVote m m' r e =
    let n : ℕ = pos_part (r -ℤ m.commit_length) in
    elim (Option-cases (execute_range m n m.commit_length)) [
      | inl f ↦ ground arith
      | inr (a, f) ↦
          let moved = execute_range-SameVote m a n m.commit_length f in
          ground (arith, moved.term, moved.vote)
    ]

commit_log-SameVote : (m m' : ServerMetadata) → commit_log m ≡ some m' → SameVote m m'
commit_log-SameVote m m' e =
    let (r, run, _) = commit_log-some m m' e in commit_up_to-SameVote m m' r run

record_ack-SameVote :
    (m m' : ServerMetadata) (i ack : ℤ) → record_ack m i ack ≡ some m' → SameVote m m'
unfolding record_ack
record_ack-SameVote m m' i ack h = elim (Option-cases m.sent_length) [
  | inl e ↦ ground arith
  | inr (sent, e) ↦ elim (Option-cases (assign sent i ack)) [
    | inl f ↦ ground arith
    | inr (sent', f) ↦ elim (Option-cases m.ack_length) [
      | inl g ↦ ground arith
      | inr (acks, g) ↦ elim (Option-cases (assign acks i ack)) [
        | inl k ↦ ground arith
        | inr (acks', k) ↦
            let a : ServerMetadata = record m {
              sent_length = some sent';
              ack_length = some acks';
            } in
            let moved = commit_log-SameVote a m' (ground arith) in
            record { term = moved.term; vote = moved.vote }
      ]
    ]
  ]
]

-- A response leaves the term and the vote as they are, or demotes to a newer term.
handle_response-Held :
    (t a : ℤ) (m m' : ServerMetadata) (i : ℤ) (res : LogResponse) (end : Visit)
    → handle_response m i res ≡ some (end, m')
    → Held t a m
    → Held t a m'
unfolding handle_response step_back demote
handle_response-Held t a m m' i res end h s =
    elim (Bool-cases (res.current_term ==ℤ m.current_term && is_leader_status m.status)) [
      | inl e ↦ elim (Bool-cases (res.success ==ℤ pos 0)) [
        | inl n ↦
            let same : SameVote m m' = record { term = ground arith; vote = ground arith } in
            SameVote-Held m m' same s
        | inr y ↦ SameVote-Held m m' (record_ack-SameVote m m' i res.ack (ground arith)) s
      ]
      | inr e ↦ elim (Bool-cases (ltb_ℤ m.current_term res.current_term)) [
        | inl newer ↦ ground (arith, s.held)
        | inr older ↦
            let same : SameVote m m' = record { term = ground arith; vote = ground arith } in
            SameVote-Held m m' same s
      ]
    ]

react-Held :
    (t a : ℤ) (m m' : ServerMetadata) (i : ℤ) (node : NodePtr) (heartbeat : Bool)
    (answer : Option LogResponse) (end : Visit)
    → react m i node heartbeat answer ≡ some (end, m')
    → Held t a m
    → Held t a m'
unfolding react fail_node clean_node_state
react-Held t a m m' i node heartbeat none end h s =
    let same : SameVote m m' = record { term = ground arith; vote = ground arith } in
    SameVote-Held m m' same s
react-Held t a m m' i node true (some res) end h s = ground arith
react-Held t a m m' i node false (some res) end h s = handle_response-Held t a m m' i res end h s

SameState-Held : (t a : ℤ) (m m' : ServerMetadata) → SameState m m' → Held t a m → Held t a m'
SameState-Held t a m m' f h = SameVote-Held m m' (ground (arith, f.rest)) h

module _ (T : Transport) where
  open T use {Net}

  pub replicate_log-Held :
      (t a : ℤ) (fuel : ℕ) (m m' : ServerMetadata) (net net' : Net) (code : ℤ)
      → replicate_log T fuel m net ≡ returned (code, (m', net'))
      → Held t a m
      → Held t a m'
  replicate_log-Held t a fuel m m' net net' code e h =
      replicate_log_keeps T (Held t a) (SameState-Held t a) (react-Held t a) fuel m m' net net' code
        e h
