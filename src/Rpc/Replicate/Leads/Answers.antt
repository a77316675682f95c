-- ===== src/Rpc/Replicate/Leads/Answers.antt =====
-- What a leader makes of an answer to its request (ReplicateLog).
use raft_distributed_kv.Prelude.{
  ℕ, zero, suc, ◌+◌, ◌<◌, ◌≡◌, ◌≢◌, refl, ap, sym, ◌∙◌, some, List, [], ◌∷◌, length, arith, ℤ, pos,
  negsuc, ◌-ℤ◌, ◌≤ℤ◌, -ℤ_parts, eq_of_parts,
}
use raft_distributed_kv.Messages.LogResponse.{LogResponse}
use raft_distributed_kv.Metadata.{ServerMetadata, NodePtr, at, get_peer_size}
use raft_distributed_kv.Metadata.Ints.{assign_in_range, at-assign_ne}
use raft_distributed_kv.Metadata.Commit.Majority.{HasMajority}
use raft_distributed_kv.Metadata.Commit.Keeps.{IsCommit, commit_log_lem}
use raft_distributed_kv.Rpc.Replicate.{
  record_ack, step_back, handle_response, is_leader_status, changed,
}
use raft_distributed_kv.Rpc.Replicate.Keeps.{
  SameLog, frame-IsLeading, commit_log-IsLeading, set_arrays-IsLeading,
}
use raft_distributed_kv.Rpc.Replicate.Leads.{Leads}

-- The leader has acknowledged its whole log itself.
pub record IsOwn (m : ServerMetadata) : Type 0 where
  pub acks : List ℤ
  pub allocated : m.ack_length ≡ some acks
  pub place : at acks (pos (get_peer_size m)) ≡ some m.log_size

-- What ReplicateLog leaves of a leader between two visits.
pub record SameLeader (m m' : ServerMetadata) : Type 0 where
  pub size : m'.log_size ≡ m.log_size
  pub peers : m'.neighbors ≡ m.neighbors
  pub commits : m.commit_length ≤ℤ m'.commit_length
  pub own : IsOwn m → IsOwn m'
  pub log : m'.smr_log ≡ m.smr_log
  pub term : m'.current_term ≡ m.current_term
  pub server : m'.factory_id ≡ m.factory_id
  pub sockets : m'.node_socket ≡ m.node_socket

pub SameLeader-refl : (m : ServerMetadata) → SameLeader m m
SameLeader-refl m = record {
  size = refl;
  peers = refl;
  commits = omega arith;
  own = λ own. own;
  log = refl;
  term = refl;
  server = refl;
  sockets = refl;
}

-- Two of two servers are a majority.
majority_of_two :
    (acks : List ℤ) (i n : ℤ)
    → length acks ≡ 2
    → at acks i ≡ some n
    → at acks (pos 1) ≡ some n
    → i ≢ pos 1
    → HasMajority acks n
unfolding at
majority_of_two [] i n two here own ne = absurd (omega (arith, two))
majority_of_two (x ∷ []) i n two here own ne = absurd (omega (arith, two))
majority_of_two (x ∷ y ∷ []) (pos zero) n two here own ne = ground (arith, here, own)
majority_of_two (x ∷ y ∷ []) (pos (suc zero)) n two here own ne = absurd (ne refl)
majority_of_two (x ∷ y ∷ []) (pos (suc (suc k))) n two here own ne = absurd (ground (arith, here))
majority_of_two (x ∷ y ∷ []) (negsuc k) n two here own ne = absurd (ground (arith, here))
majority_of_two (x ∷ y ∷ z ∷ acks) i n two here own ne = absurd (omega (arith, two))

-- So with one neighbour everything is committed that both have.
two_committed :
    (m m' : ServerMetadata) (acks : List ℤ) (i n : ℤ)
    → IsCommit m m' acks
    → length acks ≡ get_peer_size m + 1
    → get_peer_size m ≡ 1
    → i ≢ pos (get_peer_size m)
    → at acks i ≡ some n
    → at acks (pos (get_peer_size m)) ≡ some n
    → n ≤ℤ m.log_size
    → n ≤ℤ m'.commit_length
two_committed m m' acks i n c long one ne here own low = c.complete n low (
    majority_of_two acks i n (omega (arith, long, one)) here
      (ap (λ p. at acks (pos p)) (sym one) ∙ own) (λ e. ne (e ∙ ap pos (sym one))))

-- A yes for one entry more than was sent.
pub answer_yes :
    (node : NodePtr) (i : ℤ) (k : ℕ) (m : ServerMetadata) (res : LogResponse)
    → Leads node i k m
    → k < length m.smr_log
    → res.current_term ≡ m.current_term
    → res.ack ≡ pos (k + 1)
    → res.success ≡ pos 1
    → (m' : ServerMetadata) × (handle_response m i res ≡ some (changed, m'))
      × Leads node i (k + 1) m'
      × SameLeader m m'
      × (k + 1 ≡ length m.smr_log → get_peer_size m ≡ 1 → IsOwn m → m'.log_size ≤ℤ m'.commit_length)
unfolding handle_response record_ack is_leader_status get_peer_size
answer_yes node i k m res l more term ack success =
    let has = l.leading.has in
    let (sent, e1, here, long) =
      assign_in_range l.sent i (pos k) l.sent (pos (k + 1)) l.length_sent refl in
    let (acks, e2, there, wide) =
      assign_in_range l.sent i (pos k) l.leading.acks (pos (k + 1)) l.length_sent
        (has.servers ∙ sym l.places) in
    let a : ServerMetadata = record m { sent_length = some sent; ack_length = some acks } in
    let la = set_arrays-IsLeading m sent acks l.leading wide in
    let wide' : length acks ≡ get_peer_size m + 1 = wide ∙ has.servers in
    let (m', run, c) =
      commit_log_lem a acks la.sound la.room (record { allocated = refl; servers = wide' }) in
    let rest = c.committed.rest in
    let untouched : at acks (pos (get_peer_size m)) ≡ at l.leading.acks (pos (get_peer_size m)) =
      at-assign_ne l.leading.acks i (pos (get_peer_size m)) (pos (k + 1)) acks e2 (omega arith)
        l.other in
    let still : IsOwn m → at acks (pos (get_peer_size m)) ≡ some m.log_size =
      λ own. untouched ∙ ground (arith, has.allocated, own.allocated, own.place) in
    let done : handle_response m i res ≡ some (changed, m') =
      ground (arith, term, l.role, success, ack, l.allocated, has.allocated, e1, e2, run) in
    (
      m',
      done,
      record {
        leading = commit_log-IsLeading a m' run la;
        role = ground (arith, rest, l.role);
        index = ground (arith, rest, l.index);
        sent = sent;
        allocated = ground (arith, rest);
        places = ground (arith, rest, long, l.places);
        length_sent = here;
        within = ground (arith, rest, more);
        other = ground (arith, rest, l.other);
        ints = record {
          server = ground (arith, rest, l.ints.server);
          term = ground (arith, rest, l.ints.term);
          entry = λ n op f. l.ints.entry n op (ground (arith, rest, f));
        };
        terms = record { entry = λ n op f. l.terms.entry n op (ground (arith, rest, f)) };
      },
      record {
        size = ground (arith, rest);
        peers = ground (arith, rest);
        commits = c.monotone;
        own = λ own. record {
          acks = acks;
          allocated = ground (arith, rest);
          place = ground (arith, rest, still own);
        };
        log = ground (arith, rest);
        term = ground (arith, rest);
        server = ground (arith, rest);
        sockets = ground (arith, rest);
      },
      λ all one own.
          let whole : m.log_size ≡ pos (k + 1) = ground (arith, all, l.leading.sound.valid.sized) in
          let full =
            two_committed a m' acks i m.log_size c wide' one l.other (there ∙ ap some (sym whole))
              (still own) (omega arith) in
          ground (arith, rest, full),
    )

-- A no to more than one entry: one entry less counts as sent.
pub answer_no :
    (node : NodePtr) (i : ℤ) (k : ℕ) (m : ServerMetadata) (res : LogResponse)
    → Leads node i (suc k) m
    → res.current_term ≡ m.current_term
    → res.success ≡ pos 0
    → (m' : ServerMetadata) × (handle_response m i res ≡ some (changed, m'))
      × Leads node i k m'
      × SameLeader m m'
unfolding handle_response step_back is_leader_status get_peer_size
answer_no node i k m res l term success =
    let (sent, e1, here, long) =
      assign_in_range l.sent i (pos (suc k)) l.sent (pos k) l.length_sent refl in
    let less : pos (suc k) -ℤ pos 1 ≡ pos k =
      eq_of_parts _ _ (omega (arith, -ℤ_parts (pos (suc k)) (pos 1))) in
    let m' : ServerMetadata = record m { sent_length = some sent } in
    let same : SameLog m m' = ground arith in
    (
      m',
      ground (arith, term, l.role, success, l.allocated, l.length_sent, less, e1),
      record {
        leading = frame-IsLeading m m' same l.leading;
        role = l.role;
        index = l.index;
        sent = sent;
        allocated = refl;
        places = long ∙ l.places;
        length_sent = here;
        within = omega (arith, l.within);
        other = l.other;
        ints = record { server = l.ints.server; term = l.ints.term; entry = l.ints.entry };
        terms = record { entry = l.terms.entry };
      },
      record {
        size = refl;
        peers = refl;
        commits = omega arith;
        own = λ own. record { acks = own.acks; allocated = own.allocated; place = own.place };
        log = refl;
        term = refl;
        server = refl;
        sockets = refl;
      },
    )
