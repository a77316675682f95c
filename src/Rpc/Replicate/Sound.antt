-- ===== src/Rpc/Replicate/Sound.antt =====
-- What a server holds of its log in ReplicateLog, whatever its role: it may have been demoted since
-- its status was read.
use raft_distributed_kv.Prelude.{
  ℕ, zero, suc, ◌+◌, ◌≡◌, refl, subst, ◌∙◌, ◌⊎◌, Option, some, none, Bool, true, false, List, arith,
  ℤ, pos, ◌<ℤ◌, ◌≤ℤ◌, ◌+ℤ◌, ◌-ℤ◌, +ℤ_parts, -ℤ_parts, pos_part, ◌==ℤ◌, ltb_ℤ, ◌&&◌, Bool-cases,
  Option-cases, inl, inr, ltb, ◌*◌, if◌then◌else◌,
}
use raft_distributed_kv.Messages.LogResponse.{LogResponse}
use raft_distributed_kv.Metadata.{ServerMetadata, NodePtr, assign, get_peer_size, checked}
use raft_distributed_kv.Metadata.Ints.{checked-eq-some}
use raft_distributed_kv.Metadata.Invariant.{IsSound}
use raft_distributed_kv.Metadata.Commit.{find_commit, count_acks, commit_up_to, commit_log}
use raft_distributed_kv.Metadata.Commit.Keeps.{commit_up_to_lem}
use raft_distributed_kv.Metadata.Membership.{clean_node_state}
use raft_distributed_kv.Rpc.Election.{demote}
use raft_distributed_kv.Rpc.Replicate.{
  Visit, record_ack, step_back, handle_response, fail_node, react, is_leader_status,
}
use raft_distributed_kv.Rpc.Replicate.Keeps.{SameLog}

-- What the outer loop of CommitLog finds is what it began with, or one of the lengths it looked at.
find_commit_within :
    (acks : List ℤ) (servers n : ℕ) (i c r : ℤ)
    → find_commit acks servers n i c ≡ some r
    → (r ≡ c) ⊎ ((i ≤ℤ r) × (r <ℤ i +ℤ pos n))
unfolding find_commit
find_commit_within acks servers zero i c r e = inl (ground arith)
find_commit_within acks servers (suc n) i c r e =
    elim (Option-cases (count_acks acks servers 0 i 0)) [
      | inl f ↦ ground arith
      | inr (count, f) ↦
          let next : ℤ = if ltb servers (count * 2) then i else c in
          let later = find_commit_within acks servers n (i +ℤ pos 1) next r (ground arith) in
          ground (
            arith,
            later,
            +ℤ_parts i (pos 1),
            +ℤ_parts i (pos (suc n)),
            +ℤ_parts (i +ℤ pos 1) (pos n),
          )
    ]

-- A CommitLog that does not fault is the commit of a length that is 0 or within the log.
pub commit_log-some :
    (m m' : ServerMetadata)
    → commit_log m ≡ some m'
    → (r : ℤ) × (commit_up_to m r ≡ some m')
      × (m.commit_length ≤ℤ m.log_size → (r ≡ pos 0) ⊎ ((m.commit_length ≤ℤ r) × (r ≤ℤ m.log_size)))
unfolding commit_log
commit_log-some m m' e = elim (Option-cases m.ack_length) [
  | inl f ↦ ground arith
  | inr (acks, f) ↦ elim (Option-cases (checked (m.log_size +ℤ pos 1))) [
    | inl g ↦ ground arith
    | inr (end, g) ↦
        let n : ℕ = pos_part (end -ℤ m.commit_length) in
        elim (Option-cases (find_commit acks (get_peer_size m + 1) n m.commit_length (pos 0))) [
          | inl k ↦ ground arith
          | inr (r, k) ↦
              let within =
                find_commit_within acks (get_peer_size m + 1) n m.commit_length (pos 0) r k in
              (
                r,
                ground arith,
                λ high. ground (
                  arith,
                  within,
                  checked-eq-some (m.log_size +ℤ pos 1) end g,
                  +ℤ_parts m.log_size (pos 1),
                  -ℤ_parts end m.commit_length,
                  +ℤ_parts m.commit_length (pos n),
                ),
              )
        ]
  ]
]

-- A server afterwards: its log is the same, nothing that was committed is taken back, and the state
-- machine is the replay of what is.
pub record Moved (m m' : ServerMetadata) : Type 0 where
  pub sound : IsSound m'
  pub log : m'.smr_log ≡ m.smr_log
  pub commits : m.commit_length ≤ℤ m'.commit_length

pub Moved-trans : (m a m' : ServerMetadata) → Moved m a → Moved a m' → Moved m m'
Moved-trans m a m' f g = record {
  sound = g.sound;
  log = g.log ∙ f.log;
  commits = omega (arith, f.commits, g.commits);
}

commit_log-Moved : (m m' : ServerMetadata) → commit_log m ≡ some m' → IsSound m → Moved m m'
commit_log-Moved m m' e s =
    let (r, run, within) = commit_log-some m m' e in
    let (a, ran, c, len) = commit_up_to_lem m r s (within s.valid.committed_high) in
    let same : a ≡ m' = ground (arith, ran, run) in
    subst (Moved m) same (record {
      sound = c.sound;
      log = ground (arith, c.rest);
      commits = ground (arith, len, within s.valid.committed_high);
    })

-- What differs in none of the fields that this is about.
pub frame-Moved : (m m' : ServerMetadata) → SameLog m m' → IsSound m → Moved m m'
frame-Moved m m' f s = record {
  sound = record { valid = ground (arith, s.valid); applied = ground (arith, s.applied) };
  log = f.log;
  commits = ground (arith, f.commit);
}

-- The lengths that were sent and acknowledged do not matter.
pub arrays-Moved :
    (m m' : ServerMetadata)
    → m' ≡ record m { sent_length = m'.sent_length; ack_length = m'.ack_length }
    → IsSound m
    → Moved m m'
arrays-Moved m m' e s = record {
  sound = record { valid = ground (arith, s.valid); applied = ground (arith, s.applied) };
  log = ground arith;
  commits = ground arith;
}

record_ack-Moved :
    (m m' : ServerMetadata) (i ack : ℤ) → record_ack m i ack ≡ some m' → IsSound m → Moved m m'
unfolding record_ack
record_ack-Moved m m' i ack h s = elim (Option-cases m.sent_length) [
  | inl e ↦ ground arith
  | inr (sent, e) ↦ elim (Option-cases (assign sent i ack)) [
    | inl f ↦ ground arith
    | inr (sent', f) ↦ elim (Option-cases m.ack_length) [
      | inl g ↦ ground arith
      | inr (acks, g) ↦ elim (Option-cases (assign acks i ack)) [
        | inl k ↦ ground arith
        | inr (acks', k) ↦
            let a : ServerMetadata = record m {
              sent_length = some sent';
              ack_length = some acks';
            } in
            let armed = arrays-Moved m a refl s in
            Moved-trans m a m' armed (commit_log-Moved a m' (ground arith) armed.sound)
      ]
    ]
  ]
]

step_back-Moved : (m m' : ServerMetadata) (i : ℤ) → step_back m i ≡ some m' → IsSound m → Moved m m'
unfolding step_back
step_back-Moved m m' i h s = arrays-Moved m m' (ground arith) s

clean_node_state-Moved :
    (m m' : ServerMetadata) (i : ℤ) → clean_node_state m i ≡ some m' → IsSound m → Moved m m'
unfolding clean_node_state
clean_node_state-Moved m m' i h s = arrays-Moved m m' (ground arith) s

handle_response-Moved :
    (m m' : ServerMetadata) (i : ℤ) (res : LogResponse) (end : Visit)
    → handle_response m i res ≡ some (end, m')
    → IsSound m
    → Moved m m'
unfolding handle_response
handle_response-Moved m m' i res end h s =
    elim (Bool-cases (res.current_term ==ℤ m.current_term && is_leader_status m.status)) [
      | inl e ↦ elim (Bool-cases (res.success ==ℤ pos 0)) [
        | inl n ↦ step_back-Moved m m' i (ground arith) s
        | inr y ↦ record_ack-Moved m m' i res.ack (ground arith) s
      ]
      | inr e ↦ elim (Bool-cases (ltb_ℤ m.current_term res.current_term)) [
        | inl newer ↦ frame-Moved m m' (unfold demote in ground arith) s
        | inr older ↦ frame-Moved m m' (ground arith) s
      ]
    ]

pub react-Moved :
    (m m' : ServerMetadata) (i : ℤ) (node : NodePtr) (heartbeat : Bool)
    (answer : Option LogResponse) (end : Visit)
    → react m i node heartbeat answer ≡ some (end, m')
    → IsSound m
    → Moved m m'
unfolding react fail_node
react-Moved m m' i node heartbeat none end h s = elim (Option-cases (clean_node_state m i)) [
  | inl e ↦ ground arith
  | inr (a, e) ↦
      let clean = clean_node_state-Moved m a i e s in
      Moved-trans m a m' clean (frame-Moved a m' (ground arith) clean.sound)
]
react-Moved m m' i node true (some res) end h s = frame-Moved m m' (ground arith) s
react-Moved m m' i node false (some res) end h s = handle_response-Moved m m' i res end h s
