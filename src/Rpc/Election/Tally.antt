-- ===== src/Rpc/Election/Tally.antt =====
-- Which votes RequestVote of ServerMetadata.cpp counts.
use raft_distributed_kv.Prelude.{
  ◌≡◌, ◌≢◌, ◌⊎◌, inl, inr, refl, subst, ◌∙◌, some, true, not, ◌&&◌, List, [], ◌∷◌, arith, ℤ, pos,
  ◌+ℤ◌, ◌<ℤ◌, ◌==ℤ◌, ltb_ℤ, Bool, Bool-cases, Option-cases,
}
use raft_distributed_kv.Words.RoundTrip.{All}
use raft_distributed_kv.Messages.RequestVoteResponse.{RequestVoteResponse}
use raft_distributed_kv.Metadata.{
  ServerMetadata, Socket, NodePtr, follower, leader, checked, insert, contains,
}
use raft_distributed_kv.Metadata.Vote.{won_election, init_leader}
use raft_distributed_kv.Rpc.Transport.{
  Transport, send_identifier, send_request_vote, recv_vote_response,
}
use raft_distributed_kv.Rpc.Election.{
  start_election, demote, count_vote, ask_vote, ask_votes, request_vote,
}
use raft_distributed_kv.Rpc.Election.Terms.{request_vote_lem}

insert-All : (P : ℤ → Type 0) (s : List ℤ) (k : ℤ) → All P s → P k → All P (insert s k)
unfolding insert
insert-All P s k h p = elim (Bool-cases (contains s k)) [ inl e ↦ rw e h | inr e ↦ rw e (p, h) ]

All-map : (P Q : ℤ → Type 0) (s : List ℤ) → ((v : ℤ) → P v → Q v) → All P s → All Q s
All-map P Q [] f h = tt
All-map P Q (v ∷ s) f h = (f v h.0, All-map P Q s f h.1)

All-contains : (s : List ℤ) → All (λ v. contains s v ≡ true) s
unfolding contains
All-contains [] = tt
All-contains (v ∷ s) = (
  ground arith,
  All-map (λ k. contains s k ≡ true) (λ k. contains (v ∷ s) k ≡ true) s (λ k h. ground (arith, h))
      (All-contains s),
)

-- A response that is a vote for the term t.
abbrev pub IsYes : ℤ → RequestVoteResponse → Type 0
IsYes t res = (res.voted ≢ pos 0) × (res.current_term ≡ t)

count_vote-All :
    (P : ℤ → Type 0) (m : ServerMetadata) (res : RequestVoteResponse)
    → All P m.vote_received
    → (IsYes m.current_term res → P res.id)
    → All P (count_vote m res).1.vote_received
      × ((count_vote m res).0 ≡ true → (count_vote m res).1.current_term ≡ m.current_term)
unfolding count_vote demote init_leader
count_vote-All P m res h cast =
    let a : ServerMetadata = record m { vote_received = insert m.vote_received res.id } in
    elim (Bool-cases (m.current_term ==ℤ res.current_term && not (res.voted ==ℤ pos 0))) [
      | inl vote ↦
          let counted =
            insert-All P m.vote_received res.id h
              (cast (λ e. ground (arith, vote, e), ground (arith, vote))) in
          elim (Bool-cases (won_election a)) [
            | inl won ↦ rw (vote, won) (counted, λ e. refl)
            | inr open_vote ↦ rw (vote, open_vote) (counted, λ e. refl)
          ]
      | inr none_cast ↦ elim (Bool-cases (ltb_ℤ m.current_term res.current_term)) [
        | inl newer ↦ rw (none_cast, newer) (tt, λ e. ground arith)
        | inr older ↦ rw (none_cast, older) (h, λ e. refl)
      ]
    ]

module _ (T : Transport) where
  open T use {Net}

  -- A response that the candidate reads while it asks the servers one after another.
  pub data Heard
      : ServerMetadata → Net → List (NodePtr × Socket) → RequestVoteResponse → Type 0 where
    first :
        (m : ServerMetadata) (net : Net) (node : NodePtr) (socket : Socket)
        (rest : List (NodePtr × Socket)) (sent : Bool × Net)
        → send_request_vote T m socket (send_identifier T (pos 0) socket net).1 ≡ some sent
        → Heard m net ((node, socket) ∷ rest) (recv_vote_response T socket sent.1).0
    later :
        (m : ServerMetadata) (net : Net) (node : NodePtr) (socket : Socket)
        (rest : List (NodePtr × Socket)) (sent : Bool × Net) (res : RequestVoteResponse)
        → send_request_vote T m socket (send_identifier T (pos 0) socket net).1 ≡ some sent
        → (count_vote m (recv_vote_response T socket sent.1).0).0 ≡ true
        → Heard
            (count_vote m (recv_vote_response T socket sent.1).0).1
            (recv_vote_response T socket sent.1).1
            rest
            res
        → Heard m net ((node, socket) ∷ rest) res

  ask_votes-All :
      (P : ℤ → Type 0) (servers : List (NodePtr × Socket)) (m m' : ServerMetadata) (net net' : Net)
      → ask_votes T servers m net ≡ some (m', net')
      → All P m.vote_received
      → ((res : RequestVoteResponse)
          → Heard m net servers res
          → IsYes m.current_term res
          → P res.id)
      → All P m'.vote_received
  unfolding ask_votes ask_vote
  ask_votes-All P [] m m' net net' e h cast =
      let same : m ≡ m' = ground arith in subst (λ n. All P n.vote_received) same h
  ask_votes-All P ((node, socket) ∷ rest) m m' net net' e h cast =
      let told : Net = (send_identifier T (pos 0) socket net).1 in
      elim (Option-cases (send_request_vote T m socket told)) [
        | inl f ↦ ground arith
        | inr (sent, f) ↦
            let res : RequestVoteResponse = (recv_vote_response T socket sent.1).0 in
            let n : ServerMetadata = (count_vote m res).1 in
            let (counted, on) =
              count_vote-All P m res h (cast res (first m net node socket rest sent f)) in
            elim (Bool-cases (count_vote m res).0) [
              | inl c ↦
                  ask_votes-All P rest n m' (recv_vote_response T socket sent.1).1 net'
                    (ground arith) counted
                    (λ r heard y.
                      cast r (later m net node socket rest sent r f c heard) (y.0, y.1 ∙ on c))
              | inr stop ↦
                  (let same : n ≡ m' = ground arith in
                    subst (λ k. All P k.vote_received) same counted)
            ]
      ]

  -- Whom a candidate may count: who had voted for it before, itself, or a server from which it has
  -- heard a vote for it in its term.
  abbrev pub Counts : ServerMetadata → ServerMetadata → Net → ℤ → Type 0
  Counts m a net v =
      (contains m.vote_received v ≡ true)
      ⊎ (v ≡ m.factory_id)
      ⊎ ((res : RequestVoteResponse) × Heard a net a.node_socket res
          × IsYes a.current_term res
          × (v ≡ res.id))

  -- What an election comes to: an open vote, a newer term, or the lead.
  pub record IsElection (m : ServerMetadata) (net : Net) (m' : ServerMetadata) : Type 0 where
    pub rises : m.current_term <ℤ m'.current_term
    pub log : m'.smr_log ≡ m.smr_log
    pub outcome :
        ((m'.status ≡ m.status)
          × (m'.current_term ≡ m.current_term +ℤ pos 1)
          × (m'.voted_for ≡ m.factory_id))
        ⊎ ((m'.status ≡ follower) × (m.current_term +ℤ pos 1 <ℤ m'.current_term))
        ⊎ ((m'.status ≡ leader)
            × (m'.current_term ≡ m.current_term +ℤ pos 1)
            × (m'.leader_id ≡ m.factory_id)
            × (won_election m' ≡ true))
    pub candidacy : ServerMetadata
    pub starts : start_election m ≡ some candidacy
    pub votes : All (Counts m candidacy net) m'.vote_received

  -- Over any network, if RequestVote returns, the term has risen and the log is as it was, and
  -- the server is undecided in the next term with its vote cast for itself, or a follower in a
  -- term newer than that, or the leader of the next term with WonElection true; each server that
  -- is counted as a voter had been counted before the candidacy, or is this server, or is named
  -- by a response that was read in this round and is a vote, not 0, of the new term.
  pub request_vote-IsElection :
      (m m' : ServerMetadata) (net net' : Net)
      → request_vote T m net ≡ some (m', net')
      → IsElection m net m'
  unfolding request_vote start_election
  request_vote-IsElection m m' net net' e =
      elim (Option-cases (checked (m.current_term +ℤ pos 1))) [
        | inl f ↦ ground arith
        | inr (t, f) ↦
            let a : ServerMetadata = record m {
              voted_for = m.factory_id;
              vote_received = insert m.vote_received m.factory_id;
              current_term = t;
            } in
            let (rises, log, outcome) = request_vote_lem T m m' net net' e in
            record {
              rises = rises;
              log = log;
              outcome = outcome;
              candidacy = a;
              starts = rw f refl;
              votes =
                  ask_votes-All (Counts m a net) a.node_socket a m' net net' (ground arith)
                    (insert-All (Counts m a net) m.vote_received m.factory_id
                      (All-map (λ v. contains m.vote_received v ≡ true) (Counts m a net)
                        m.vote_received (λ v old. inl old) (All-contains m.vote_received))
                      (inr (inl refl)))
                    (λ res heard y. inr (inr (res, heard, y, refl)));
            }
      ]
