-- ===== src/Rpc/Replicate/Keeps.antt =====
-- A leader's state and the answers of the other servers (ReplicateLog).
use raft_distributed_kv.Prelude.{
  ◌≡◌, refl, subst, ◌∙◌, Option, some, none, Bool, true, false, List, length, arith, ℤ, pos, ◌<ℤ◌,
  ◌==ℤ◌, ltb_ℤ, ◌&&◌, int_max, Bool-cases, Option-cases, inl, inr,
}
use raft_distributed_kv.Messages.LogResponse.{LogResponse}
use raft_distributed_kv.Metadata.{ServerMetadata, NodePtr, assign, get_peer_size}
use raft_distributed_kv.Metadata.Ints.{length-assign}
use raft_distributed_kv.Metadata.Invariant.{IsSound}
use raft_distributed_kv.Metadata.Commit.{commit_log}
use raft_distributed_kv.Metadata.Commit.Keeps.{HasAcks, commit_log_lem}
use raft_distributed_kv.Metadata.Membership.{clean_node_state}
use raft_distributed_kv.Rpc.Election.{demote}
use raft_distributed_kv.Rpc.Replicate.{
  Visit, record_ack, step_back, handle_response, fail_node, react, is_leader_status,
}

-- A server that has been elected: its log is well formed and its arrays have a place for each server.
pub record IsLeading (m : ServerMetadata) : Type 0 where
  pub sound : IsSound m
  pub room : m.log_size <ℤ int_max
  pub acks : List ℤ
  pub has : HasAcks m acks

-- A state that differs in none of the fields that this is about.
pub record SameLog (m m' : ServerMetadata) : Type 0 where
  pub size : m'.log_size ≡ m.log_size
  pub log : m'.smr_log ≡ m.smr_log
  pub commit : m'.commit_length ≡ m.commit_length
  pub table : m'.customer_record ≡ m.customer_record
  pub acked : m'.ack_length ≡ m.ack_length
  pub peers : m'.neighbors ≡ m.neighbors

pub frame-IsLeading : (m m' : ServerMetadata) → SameLog m m' → IsLeading m → IsLeading m'
unfolding get_peer_size
frame-IsLeading m m' f l = record {
  sound = record {
    valid = ground (arith, l.sound.valid);
    applied = ground (arith, l.sound.applied);
  };
  room = ground (arith, l.room);
  acks = l.acks;
  has = record {
    allocated = ground (arith, l.has.allocated);
    servers = ground (arith, l.has.servers);
  };
}

pub commit_log-IsLeading :
    (m m' : ServerMetadata) → commit_log m ≡ some m' → IsLeading m → IsLeading m'
unfolding get_peer_size
commit_log-IsLeading m m' h l =
    let (a, run, c) = commit_log_lem m l.acks l.sound l.room l.has in
    let same : a ≡ m' = ground arith in
    subst IsLeading same (record {
      sound = c.committed.sound;
      room = ground (arith, c.committed.rest, l.room);
      acks = l.acks;
      has = ground (arith, c.committed.rest, l.has);
    })

-- Other arrays of the same length.
pub set_arrays-IsLeading :
    (m : ServerMetadata) (sent acks : List ℤ) (l : IsLeading m)
    → length acks ≡ length l.acks
    → IsLeading (record m { sent_length = some sent; ack_length = some acks })
unfolding get_peer_size
set_arrays-IsLeading m sent acks l e = record {
  sound = record { valid = ground (arith, l.sound.valid); applied = l.sound.applied };
  room = l.room;
  acks = acks;
  has = record { allocated = refl; servers = e ∙ l.has.servers };
}

record_ack-IsLeading :
    (m m' : ServerMetadata) (i ack : ℤ) → record_ack m i ack ≡ some m' → IsLeading m → IsLeading m'
unfolding record_ack
record_ack-IsLeading m m' i ack h l = elim (Option-cases m.sent_length) [
  | inl e ↦ ground arith
  | inr (sent, e) ↦ elim (Option-cases (assign sent i ack)) [
    | inl f ↦ ground arith
    | inr (sent', f) ↦ elim (Option-cases (assign l.acks i ack)) [
      | inl g ↦ ground (arith, l.has.allocated)
      | inr (acks', g) ↦
          commit_log-IsLeading (record m { sent_length = some sent'; ack_length = some acks' }) m'
            (ground (arith, l.has.allocated))
            (set_arrays-IsLeading m sent' acks' l (length-assign l.acks i ack acks' g))
    ]
  ]
]

step_back-IsLeading :
    (m m' : ServerMetadata) (i : ℤ) → step_back m i ≡ some m' → IsLeading m → IsLeading m'
unfolding step_back
step_back-IsLeading m m' i h l = frame-IsLeading m m' (ground arith) l

handle_response-IsLeading :
    (m m' : ServerMetadata) (i : ℤ) (res : LogResponse) (end : Visit)
    → handle_response m i res ≡ some (end, m')
    → IsLeading m
    → IsLeading m'
unfolding handle_response
handle_response-IsLeading m m' i res end h l =
    elim (Bool-cases (res.current_term ==ℤ m.current_term && is_leader_status m.status)) [
      | inl e ↦ elim (Bool-cases (res.success ==ℤ pos 0)) [
        | inl n ↦ step_back-IsLeading m m' i (ground arith) l
        | inr y ↦ record_ack-IsLeading m m' i res.ack (ground arith) l
      ]
      | inr e ↦ elim (Bool-cases (ltb_ℤ m.current_term res.current_term)) [
        | inl newer ↦ frame-IsLeading m m' (unfold demote in ground arith) l
        | inr older ↦ frame-IsLeading m m' (ground arith) l
      ]
    ]

clean_node_state-IsLeading :
    (m m' : ServerMetadata) (i : ℤ) → clean_node_state m i ≡ some m' → IsLeading m → IsLeading m'
unfolding clean_node_state
clean_node_state-IsLeading m m' i h l = elim (Option-cases m.sent_length) [
  | inl e ↦ ground (arith, l.has.allocated)
  | inr (sent, e) ↦ elim (Option-cases (assign l.acks i (pos 0))) [
    | inl f ↦ ground (arith, l.has.allocated)
    | inr (acks', f) ↦ elim (Option-cases (assign sent i (pos 0))) [
      | inl g ↦ ground (arith, l.has.allocated)
      | inr (sent', g) ↦
          let same : record m { sent_length = some sent'; ack_length = some acks' } ≡ m' =
            ground (arith, l.has.allocated) in
          subst IsLeading same
            (set_arrays-IsLeading m sent' acks' l (length-assign l.acks i (pos 0) acks' f))
    ]
  ]
]

pub react-IsLeading :
    (m m' : ServerMetadata) (i : ℤ) (node : NodePtr) (heartbeat : Bool)
    (answer : Option LogResponse) (end : Visit)
    → react m i node heartbeat answer ≡ some (end, m')
    → IsLeading m
    → IsLeading m'
unfolding react fail_node
react-IsLeading m m' i node heartbeat none end h l = elim (Option-cases (clean_node_state m i)) [
  | inl e ↦ ground arith
  | inr (a, e) ↦ frame-IsLeading a m' (ground arith) (clean_node_state-IsLeading m a i e l)
]
react-IsLeading m m' i node true (some res) end h l = frame-IsLeading m m' (ground arith) l
react-IsLeading m m' i node false (some res) end h l = handle_response-IsLeading m m' i res end h l
