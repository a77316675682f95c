-- ===== src/Factory/Threads/Ballots.antt =====
-- The votes of a server over the runs of its threads (ServerThread.cpp).
use raft_distributed_kv.Prelude.{
  ◌≡◌, ◌≢◌, some, ℤ, arith, pos, minus_one, ◌≤ℤ◌, ◌+ℤ◌, Option-cases, inl, inr,
}
use raft_distributed_kv.Messages.RequestVoteMessage.{RequestVoteMessage}
use raft_distributed_kv.Messages.RequestVoteResponse.{RequestVoteResponse}
use raft_distributed_kv.Metadata.{ServerMetadata, checked}
use raft_distributed_kv.Metadata.Ints.{checked-eq-some}
use raft_distributed_kv.Metadata.Log.{append_log}
use raft_distributed_kv.Metadata.Log.Keeps.{append_log_lem}
use raft_distributed_kv.Metadata.Vote.{get_vote_response, set_ack_length}
use raft_distributed_kv.Metadata.Append.{accept_leader, is_follower}
use raft_distributed_kv.Metadata.Append.Terms.{get_log_response-SameRole}
use raft_distributed_kv.Rpc.Transport.{Transport}
use raft_distributed_kv.Rpc.Election.{start_election, request_vote}
use raft_distributed_kv.Rpc.Election.Terms.{request_vote_lem, request_vote_run}
use raft_distributed_kv.Rpc.Replicate.Votes.{SameVote, SameVote-Held, replicate_log-Held}
use raft_distributed_kv.Factory.{check_heartbeat}
use raft_distributed_kv.Factory.Threads.{Factory, Reach, here, next}
use raft_distributed_kv.Factory.Threads.Change.{
  Change, unchanged, voted, appended, ordered, timed_out, campaigned, replicated, Step-Change,
}
use raft_distributed_kv.Voting.{Held, vote-Held, append-Held, grant-Held, grant-same}

order-SameVote :
    (m a b : ServerMetadata) (t c o idx size : ℤ)
    → append_log m t c o ≡ some a
    → set_ack_length a idx size ≡ some b
    → SameVote m b
unfolding set_ack_length
order-SameVote m a b t c o idx size e f =
    let same = append_log_lem m t c o a e in record { term = ground arith; vote = ground arith }

check_heartbeat-SameVote : (m : ServerMetadata) → SameVote m (check_heartbeat m)
unfolding check_heartbeat
check_heartbeat-SameVote m = record { term = ground arith; vote = ground arith }

module _ (T : Transport) where
  open T use {Net}

  request_vote-Held :
      (t a : ℤ) (m m' : ServerMetadata) (net net' : Net)
      → request_vote T m net ≡ some (m', net')
      → Held t a m
      → Held t a m'
  request_vote-Held t a m m' net net' e h =
      ground (arith, (request_vote_lem T m m' net net' e).0, h.held)

  Change-Held :
      {t a : ℤ} {m m' : ServerMetadata}
      → m.current_term ≤ℤ m'.current_term
      → Held t a m
      → Change T m m'
      → Held t a m'
  unfolding accept_leader is_follower
  Change-Held {t} {a} {m} {m'} mono h (unchanged e) = rw e h
  Change-Held {t} {a} {m} {m'} mono h (voted msg res e) = vote-Held t a m m' msg res e h
  Change-Held {t} {a} {m} {m'} mono h (appended req res e) =
      append-Held t a m m' req res e
        (λ f. ground (arith, mono, get_log_response-SameRole m m' req res e)) h
  Change-Held {t} {a} {m} {m'} mono h (ordered term c o x b fuel net net' code e f g) =
      replicate_log-Held T t a fuel b m' net net' code g
        (SameVote-Held m b (order-SameVote m x b term c o minus_one x.log_size e f) h)
  Change-Held {t} {a} {m} {m'} mono h (timed_out e) =
      rw e (SameVote-Held m (check_heartbeat m) (check_heartbeat-SameVote m) h)
  Change-Held {t} {a} {m} {m'} mono h (campaigned net net' e) =
      request_vote-Held t a m m' net net' e h
  Change-Held {t} {a} {m} {m'} mono h (replicated fuel net net' code e) =
      replicate_log-Held T t a fuel m m' net net' code e h

  candidate-Held :
      (m m' : ServerMetadata) (net net' : Net)
      → request_vote T m net ≡ some (m', net')
      → Held (m.current_term +ℤ pos 1) m.factory_id m'
  unfolding start_election
  candidate-Held m m' net net' e =
      let (a, start, d) = request_vote_run T m m' net net' e in
      elim (Option-cases (checked (m.current_term +ℤ pos 1))) [
        | inl f ↦ ground arith
        | inr (t, f) ↦ ground (arith, d.outcome, checked-eq-some (m.current_term +ℤ pos 1) t f)
      ]

  -- A step that does not take the term back.
  pub record IsMonotone (f g : Factory Net) : Type 0 where
    pub grows : f.meta.current_term ≤ℤ g.meta.current_term

  Reach-Held :
      {t a : ℤ} {f g : Factory Net} → Held t a f.meta → Reach T IsMonotone f g → Held t a g.meta
  Reach-Held h here = h
  Reach-Held h (next r step mono) = Change-Held mono.grows (Reach-Held h r) (Step-Change T step)

  -- In every run of the threads of a server, in any order and over any network, in which no step
  -- takes the term back: if the server grants its vote before the run, and after it grants its
  -- vote again in the same term, and the second candidate's id is not -1, both votes go to the
  -- same candidate.
  pub votes_once :
      (m : ServerMetadata) (f g : Factory Net) (end : ServerMetadata)
      (first second : RequestVoteMessage) (r1 r2 : RequestVoteResponse)
      → get_vote_response m first ≡ some (r1, f.meta)
      → r1.voted ≡ pos 1
      → Reach T IsMonotone f g
      → get_vote_response g.meta second ≡ some (r2, end)
      → r2.voted ≡ pos 1
      → second.current_term ≡ first.current_term
      → second.id ≢ minus_one
      → second.id ≡ first.id
  votes_once m f g end first second r1 r2 e1 y1 run e2 y2 same ne =
      grant-same first.id g.meta end second r2 e2 y2 ne
        (rw same (Reach-Held (grant-Held m f.meta first r1 e1 y1) run))

  -- If a server has stood for election by RequestVote, and after any run of its threads in which
  -- no step takes the term back it grants a vote in the term of that candidacy to an id that is
  -- not -1, the vote goes to itself.
  pub candidate_votes_for_itself :
      (m : ServerMetadata) (f g : Factory Net) (net net' : Net) (end : ServerMetadata)
      (msg : RequestVoteMessage) (res : RequestVoteResponse)
      → request_vote T m net ≡ some (f.meta, net')
      → Reach T IsMonotone f g
      → get_vote_response g.meta msg ≡ some (res, end)
      → res.voted ≡ pos 1
      → msg.current_term ≡ m.current_term +ℤ pos 1
      → msg.id ≢ minus_one
      → msg.id ≡ m.factory_id
  candidate_votes_for_itself m f g net net' end msg res e run e2 y same ne =
      grant-same m.factory_id g.meta end msg res e2 y ne
        (rw same (Reach-Held (candidate-Held m f.meta net net' e) run))
