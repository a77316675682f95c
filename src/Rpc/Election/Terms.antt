-- ===== src/Rpc/Election/Terms.antt =====
-- What a round of votes does to the candidate (RequestVote).
use raft_distributed_kv.Prelude.{
  ◌≡◌, ◌⊎◌, inl, inr, refl, subst, ◌∙◌, some, true, not, ◌&&◌, List, [], ◌∷◌, arith, ℤ, pos, ◌+ℤ◌,
  +ℤ_parts, ◌<ℤ◌, ◌==ℤ◌, ltb_ℤ, Bool-cases, Option-cases,
}
use raft_distributed_kv.Messages.RequestVoteResponse.{RequestVoteResponse}
use raft_distributed_kv.Metadata.{
  ServerMetadata, Socket, NodePtr, follower, leader, checked, insert, contains, get_peer_size,
}
use raft_distributed_kv.Metadata.Ints.{checked-eq-some}
use raft_distributed_kv.Metadata.Invariant.{IsSound}
use raft_distributed_kv.Metadata.Vote.{won_election, init_leader}
use raft_distributed_kv.Rpc.Transport.{
  Transport, send_identifier, send_request_vote, recv_vote_response,
}
use raft_distributed_kv.Rpc.Election.{
  start_election, demote, count_vote, ask_vote, ask_votes, request_vote,
}

-- A candidacy that does not fault raises the term by one and keeps every vote that was received
-- before.
pub start_election_old_votes :
    (m m' : ServerMetadata) (voter : ℤ)
    → start_election m ≡ some m'
    → contains m.vote_received voter ≡ true
    → (contains m'.vote_received voter ≡ true) × (m'.current_term ≡ m.current_term +ℤ pos 1)
unfolding start_election insert contains
start_election_old_votes m m' voter h old =
    elim (Option-cases (checked (m.current_term +ℤ pos 1))) [
      | inl e ↦ ground arith
      | inr (t, e) ↦ ground (arith, checked-eq-some (m.current_term +ℤ pos 1) t e)
    ]

-- What the votes of a term come to: nothing is decided, another server has a newer term, or this
-- server has won and leads in the term.
pub record IsDecision (m m' : ServerMetadata) : Type 0 where
  pub log :
      (m'.smr_log ≡ m.smr_log)
      × (m'.log_size ≡ m.log_size)
      × (m'.commit_length ≡ m.commit_length)
      × (m'.customer_record ≡ m.customer_record)
  pub outcome :
      ((m'.status ≡ m.status) × (m'.current_term ≡ m.current_term) × (m'.voted_for ≡ m.voted_for))
      ⊎ ((m'.status ≡ follower) × (m.current_term <ℤ m'.current_term))
      ⊎ ((m'.status ≡ leader)
          × (m'.current_term ≡ m.current_term)
          × (m'.leader_id ≡ m.factory_id)
          × (m'.voted_for ≡ m.voted_for)
          × (won_election m' ≡ true))

won-init_leader : (m : ServerMetadata) → won_election (init_leader m) ≡ won_election m
unfolding won_election init_leader get_peer_size
won-init_leader m = refl

-- The loop goes on only with the role and the term as they were.
abbrev GoesOn : ServerMetadata → ServerMetadata → Type 0
GoesOn m m' =
    (m'.status ≡ m.status)
    × (m'.current_term ≡ m.current_term)
    × (m'.voted_for ≡ m.voted_for)
    × (m'.factory_id ≡ m.factory_id)

won-IsDecision :
    (m a : ServerMetadata)
    → a ≡ record m { vote_received = a.vote_received }
    → won_election a ≡ true
    → IsDecision m (init_leader a)
unfolding init_leader
won-IsDecision m a e won = record {
  log = ground arith;
  outcome = inr (inr (refl, ground arith, ground arith, ground arith, won-init_leader a ∙ won));
}

count_vote-IsDecision :
    (m : ServerMetadata) (res : RequestVoteResponse)
    → IsDecision m (count_vote m res).1
      × ((count_vote m res).0 ≡ true → GoesOn m (count_vote m res).1)
unfolding count_vote
count_vote-IsDecision m res =
    let a : ServerMetadata = record m { vote_received = insert m.vote_received res.id } in
    elim (Bool-cases (m.current_term ==ℤ res.current_term && not (res.voted ==ℤ pos 0))) [
      | inl yes_vote ↦ elim (Bool-cases (won_election a)) [
        | inl won ↦ rw (yes_vote, won) (won-IsDecision m a refl won, λ h. ground arith)
        | inr open_vote ↦
            rw (yes_vote, open_vote)
              (
                record { log = ground arith; outcome = inl (refl, refl, refl) },
                λ h. (refl, refl, refl, refl),
              )
      ]
      | inr no_vote ↦ elim (Bool-cases (ltb_ℤ m.current_term res.current_term)) [
        | inl newer ↦
            rw (no_vote, newer)
              (
                record {
                  log = unfold demote in ground arith;
                  outcome = inr (inl (unfold demote in ground arith));
                },
                λ h. ground arith,
              )
        | inr older ↦
            rw (no_vote, older)
              (
                record { log = ground arith; outcome = inl (refl, refl, refl) },
                λ h. (refl, refl, refl, refl),
              )
      ]
    ]

Decision-trans :
    (m a m' : ServerMetadata) → IsDecision m a → GoesOn m a → IsDecision a m' → IsDecision m m'
Decision-trans m a m' d on e = record { log = ground arith; outcome = ground arith }

module _ (T : Transport) where
  open T use {Net}

  ask_votes-IsDecision :
      (servers : List (NodePtr × Socket)) (m m' : ServerMetadata) (net net' : Net)
      → ask_votes T servers m net ≡ some (m', net')
      → IsDecision m m'
  unfolding ask_votes ask_vote
  ask_votes-IsDecision [] m m' net net' h = record { log = ground arith; outcome = ground arith }
  ask_votes-IsDecision ((node, socket) ∷ servers) m m' net net' h =
      let told : Net = (send_identifier T (pos 0) socket net).1 in
      elim (Option-cases (send_request_vote T m socket told)) [
        | inl e ↦ ground arith
        | inr (sent, e) ↦
            let res : RequestVoteResponse = (recv_vote_response T socket sent.1).0 in
            let (d, on) = count_vote-IsDecision m res in
            elim (Bool-cases (count_vote m res).0) [
              | inl c ↦ Decision-trans m (count_vote m res).1 m' d (on c) (
                  ask_votes-IsDecision servers (count_vote m res).1 m'
                    (recv_vote_response T socket sent.1).1 net' (ground arith))
              | inr stop ↦
                  (let same : (count_vote m res).1 ≡ m' = ground arith in
                    subst (IsDecision m) same d)
            ]
      ]

  -- The term rises, the log stays, and the vote is open, or another has a newer term, or it is won.
  pub request_vote_lem :
      (m m' : ServerMetadata) (net net' : Net)
      → request_vote T m net ≡ some (m', net')
      → (m.current_term <ℤ m'.current_term)
        × (m'.smr_log ≡ m.smr_log)
        × (((m'.status ≡ m.status)
              × (m'.current_term ≡ m.current_term +ℤ pos 1)
              × (m'.voted_for ≡ m.factory_id))
            ⊎ ((m'.status ≡ follower) × (m.current_term +ℤ pos 1 <ℤ m'.current_term))
            ⊎ ((m'.status ≡ leader)
                × (m'.current_term ≡ m.current_term +ℤ pos 1)
                × (m'.leader_id ≡ m.factory_id)
                × (won_election m' ≡ true)))
  unfolding request_vote start_election
  request_vote_lem m m' net net' h = elim (Option-cases (checked (m.current_term +ℤ pos 1))) [
    | inl e ↦ ground arith
    | inr (t, e) ↦
        let a : ServerMetadata = record m {
          voted_for = m.factory_id;
          vote_received = insert m.vote_received m.factory_id;
          current_term = t;
        } in
        let d : IsDecision a m' = ask_votes-IsDecision a.node_socket a m' net net' (ground arith) in
        ground (
          arith,
          checked-eq-some (m.current_term +ℤ pos 1) t e,
          +ℤ_parts m.current_term (pos 1),
          d.log,
          d.outcome,
        )
  ]

  -- The candidacy, and what the votes come to.
  pub request_vote_run :
      (m m' : ServerMetadata) (net net' : Net)
      → request_vote T m net ≡ some (m', net')
      → (a : ServerMetadata) × (start_election m ≡ some a) × IsDecision a m'
  unfolding request_vote
  request_vote_run m m' net net' h = elim (Option-cases (start_election m)) [
    | inl e ↦ ground arith
    | inr (a, e) ↦ (a, e, ask_votes-IsDecision a.node_socket a m' net net' (ground arith))
  ]

  -- Elections do not touch the log.
  pub request_vote-IsSound :
      (m m' : ServerMetadata) (net net' : Net)
      → request_vote T m net ≡ some (m', net')
      → IsSound m
      → IsSound m'
  unfolding start_election
  request_vote-IsSound m m' net net' h s =
      let (a, e, d) = request_vote_run m m' net net' h in
      elim (Option-cases (checked (m.current_term +ℤ pos 1))) [
        | inl f ↦ ground arith
        | inr (t, f) ↦ record {
          valid = ground (arith, s.valid, d.log);
          applied = ground (arith, s.applied, d.log);
        }
      ]
