-- ===== src/Rpc/Election/Counted.antt =====
-- That RequestVote of ServerMetadata.cpp loses no vote.
use raft_distributed_kv.Prelude.{
  ◌≡◌, ◌⊎◌, inl, inr, refl, subst, sym, ◌∙◌, some, true, false, List, [], ◌∷◌, arith, ℤ, pos, ◌<ℤ◌,
  Bool, Bool-cases, Option-cases,
}
use raft_distributed_kv.Messages.RequestVoteResponse.{RequestVoteResponse}
use raft_distributed_kv.Metadata.{ServerMetadata, Socket, NodePtr, insert, contains}
use raft_distributed_kv.Metadata.Vote.{init_leader}
use raft_distributed_kv.Rpc.Transport.{
  Transport, send_identifier, send_request_vote, recv_vote_response,
}
use raft_distributed_kv.Rpc.Election.{
  start_election, demote, count_vote, ask_vote, ask_votes, request_vote,
}
use raft_distributed_kv.Rpc.Election.Tally.{IsYes, Heard, first, later}

contains-insert :
    (s : List ℤ) (k v : ℤ) → (contains s v ≡ true) ⊎ (k ≡ v) → contains (insert s k) v ≡ true
unfolding insert contains
contains-insert s k v h = ground arith

-- What one response does to the votes, if the candidate is not demoted.
count_vote_keeps :
    (m : ServerMetadata) (res : RequestVoteResponse) (v : ℤ)
    → (contains m.vote_received v ≡ true) ⊎ (IsYes m.current_term res × (res.id ≡ v))
    → (m.current_term <ℤ (count_vote m res).1.current_term)
      ⊎ ((m.current_term ≡ (count_vote m res).1.current_term)
          × (contains (count_vote m res).1.vote_received v ≡ true))
unfolding count_vote demote init_leader
count_vote_keeps m res v h = ground (arith, contains-insert m.vote_received res.id v)

count_vote_goes_on :
    (m : ServerMetadata) (res : RequestVoteResponse)
    → (count_vote m res).0 ≡ true
    → (count_vote m res).1.current_term ≡ m.current_term
unfolding count_vote
count_vote_goes_on m res h = ground arith

-- The candidate is demoted by a newer term, or the server is among its voters.
abbrev Kept : ℤ → ServerMetadata → ServerMetadata → Type 0
Kept v m m' =
    (m.current_term <ℤ m'.current_term)
    ⊎ ((m.current_term ≡ m'.current_term) × (contains m'.vote_received v ≡ true))

module _ (T : Transport) where
  open T use {Net}

  -- One server after another: what is left to ask, or where the loop stopped.
  ask_votes_step :
      (node : NodePtr) (socket : Socket) (rest : List (NodePtr × Socket)) (m m' : ServerMetadata)
      (net net' : Net) (sent : Bool × Net)
      → ask_votes T ((node, socket) ∷ rest) m net ≡ some (m', net')
      → send_request_vote T m socket (send_identifier T (pos 0) socket net).1 ≡ some sent
      → (((count_vote m (recv_vote_response T socket sent.1).0).0 ≡ true)
          × (ask_votes T rest
                (count_vote m (recv_vote_response T socket sent.1).0).1
                (recv_vote_response T socket sent.1).1
              ≡ some (m', net')))
        ⊎ (((count_vote m (recv_vote_response T socket sent.1).0).0 ≡ false)
            × ((count_vote m (recv_vote_response T socket sent.1).0).1 ≡ m'))
  unfolding ask_votes ask_vote
  ask_votes_step node socket rest m m' net net' sent e f =
      let res : RequestVoteResponse = (recv_vote_response T socket sent.1).0 in
      elim (Bool-cases (count_vote m res).0) [
        | inl c ↦ inl (c, ground arith)
        | inr c ↦ inr (c, ground arith)
      ]

  ask_votes_keeps :
      (servers : List (NodePtr × Socket)) (m m' : ServerMetadata) (net net' : Net) (v : ℤ)
      → ask_votes T servers m net ≡ some (m', net')
      → contains m.vote_received v ≡ true
      → Kept v m m'
  unfolding ask_votes ask_vote
  ask_votes_keeps [] m m' net net' v e h = ground arith
  ask_votes_keeps ((node, socket) ∷ rest) m m' net net' v e h =
      elim (Option-cases (send_request_vote T m socket (send_identifier T (pos 0) socket net).1)) [
        | inl f ↦ ground arith
        | inr (sent, f) ↦
            let res : RequestVoteResponse = (recv_vote_response T socket sent.1).0 in
            let n : ServerMetadata = (count_vote m res).1 in
            let kept = count_vote_keeps m res v (inl h) in
            elim (ask_votes_step node socket rest m m' net net' sent e f) [
              | inl (on, run) ↦
                  let same = count_vote_goes_on m res on in
                  let held : contains n.vote_received v ≡ true = ground (arith, kept, same) in
                  ground (
                    arith,
                    same,
                    ask_votes_keeps rest n m' (recv_vote_response T socket sent.1).1 net' v run
                        held,
                  )
              | inr (stop, same) ↦ subst (Kept v m) same kept
            ]
      ]

  ask_votes_counts :
      (servers : List (NodePtr × Socket)) (m m' : ServerMetadata) (net net' : Net)
      (res : RequestVoteResponse)
      → ask_votes T servers m net ≡ some (m', net')
      → Heard T m net servers res
      → IsYes m.current_term res
      → Kept res.id m m'
  ask_votes_counts _ m m' net net' _ e (first _ _ node socket rest sent f) y =
      let res : RequestVoteResponse = (recv_vote_response T socket sent.1).0 in
      let n : ServerMetadata = (count_vote m res).1 in
      let kept = count_vote_keeps m res res.id (inr (y, refl)) in
      elim (ask_votes_step node socket rest m m' net net' sent e f) [
        | inl (on, run) ↦
            let same = count_vote_goes_on m res on in
            let held : contains n.vote_received res.id ≡ true = ground (arith, kept, same) in
            ground (
              arith,
              same,
              ask_votes_keeps rest n m' (recv_vote_response T socket sent.1).1 net' res.id run held,
            )
        | inr (stop, same) ↦ subst (Kept res.id m) same kept
      ]
  ask_votes_counts _ m m' net net' r e (later _ _ node socket rest sent _ f c heard) y =
      let res : RequestVoteResponse = (recv_vote_response T socket sent.1).0 in
      let n : ServerMetadata = (count_vote m res).1 in
      let same = count_vote_goes_on m res c in
      elim (ask_votes_step node socket rest m m' net net' sent e f) [
        | inl (on, run) ↦ ground (
          arith,
          same,
          ask_votes_counts rest n m' (recv_vote_response T socket sent.1).1 net' r run heard
              (y.0, y.1 ∙ sym same),
        )
        | inr (stop, _) ↦ ground (arith, c, stop)
      ]

  -- Over any network, if RequestVote returns and in its round the candidate reads a response that
  -- is a vote, not 0, of the new term, the server that the response names is among the voters
  -- afterwards, or the candidate has taken over a term newer than that of its candidacy.
  pub vote_is_counted :
      (m a m' : ServerMetadata) (net net' : Net) (res : RequestVoteResponse)
      → request_vote T m net ≡ some (m', net')
      → start_election m ≡ some a
      → Heard T a net a.node_socket res
      → IsYes a.current_term res
      → (a.current_term <ℤ m'.current_term)
        ⊎ ((a.current_term ≡ m'.current_term) × (contains m'.vote_received res.id ≡ true))
  unfolding request_vote
  vote_is_counted m a m' net net' res e start heard y =
      ask_votes_counts a.node_socket a m' net net' res (rw start at e) heard y
