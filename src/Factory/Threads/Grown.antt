-- ===== src/Factory/Threads/Grown.antt =====
-- The log of a server over the runs of its threads (LaptopFactory of ServerThread.cpp).
use raft_distributed_kv.Prelude.{◌≡◌, some, ℤ, pos, ◌+ℤ◌, arith, minus_one, Option-cases, inl, inr}
use raft_distributed_kv.Metadata.{ServerMetadata, checked}
use raft_distributed_kv.Metadata.Invariant.{IsSound}
use raft_distributed_kv.Metadata.Grown.{
  Grown, Grown-trans, same_log-Grown, append_log-Grown, get_vote_response-Grown,
  get_log_response-Grown,
}
use raft_distributed_kv.Metadata.Log.{append_log}
use raft_distributed_kv.Metadata.Vote.{set_ack_length}
use raft_distributed_kv.Rpc.Transport.{Transport}
use raft_distributed_kv.Rpc.Election.{start_election, request_vote}
use raft_distributed_kv.Rpc.Election.Terms.{request_vote_run}
use raft_distributed_kv.Rpc.Replicate.Sound.{Moved}
use raft_distributed_kv.Rpc.Replicate.Loop.{replicate_log-Moved}
use raft_distributed_kv.Factory.{check_heartbeat}
use raft_distributed_kv.Factory.Threads.{Factory, Reach, here, next}
use raft_distributed_kv.Factory.Threads.Change.{
  Change, unchanged, voted, appended, ordered, timed_out, campaigned, replicated, Step-Change,
}
use raft_distributed_kv.Factory.Threads.Sound.{Reach-IsSound, order-IsSound}

Moved-Grown : (m m' : ServerMetadata) → Moved m m' → Grown m m'
Moved-Grown m m' f = same_log-Grown m m' f.log f.commits

check_heartbeat-Grown : (m : ServerMetadata) → Grown m (check_heartbeat m)
unfolding check_heartbeat
check_heartbeat-Grown m = same_log-Grown m (check_heartbeat m) (ground arith) (ground arith)

-- The first two calls of LeaderMaintainLog.
order-Grown :
    (m a b : ServerMetadata) (t c o idx size : ℤ)
    → append_log m t c o ≡ some a
    → set_ack_length a idx size ≡ some b
    → Grown m b
unfolding set_ack_length
order-Grown m a b t c o idx size e f =
    Grown-trans m a b (append_log-Grown m a t c o e)
      (same_log-Grown a b (ground (arith, f)) (ground (arith, f)))

module _ (T : Transport) where
  open T use {Net}

  request_vote-Grown :
      (m m' : ServerMetadata) (net net' : Net) → request_vote T m net ≡ some (m', net') → Grown m m'
  unfolding start_election
  request_vote-Grown m m' net net' e =
      let (a, start, d) = request_vote_run T m m' net net' e in
      elim (Option-cases (checked (m.current_term +ℤ pos 1))) [
        | inl f ↦ absurd (ground (arith, start, f))
        | inr (t, f) ↦
            same_log-Grown m m' (ground (arith, start, f, d.log)) (ground (arith, start, f, d.log))
      ]

  Change-Grown : {m m' : ServerMetadata} → IsSound m → Change T m m' → Grown m m'
  Change-Grown {m} {m'} s (unchanged e) = same_log-Grown m m' (ground arith) (ground arith)
  Change-Grown {m} {m'} s (voted msg res e) = get_vote_response-Grown m m' msg res e
  Change-Grown {m} {m'} s (appended req res e) = get_log_response-Grown m m' req res e
  Change-Grown {m} {m'} s (ordered t c o a b fuel net net' code e f g) =
      Grown-trans m b m' (order-Grown m a b t c o minus_one a.log_size e f) (
        Moved-Grown b m' (
          replicate_log-Moved T fuel b m' net net' code g
            (order-IsSound m a b t c o minus_one a.log_size e f s)))
  Change-Grown {m} {m'} s (timed_out e) = rw e (check_heartbeat-Grown m)
  Change-Grown {m} {m'} s (campaigned net net' e) = request_vote-Grown m m' net net' e
  Change-Grown {m} {m'} s (replicated fuel net net' code e) =
      Moved-Grown m m' (replicate_log-Moved T fuel m m' net net' code e s)

  -- Whatever the threads of a server do, in any order and over any network, from a well-formed
  -- server with its state machine in step: its log is the former one with entries put at its end,
  -- so that no entry is lost or altered, and the committed length has not fallen.
  pub Reach-Grown :
      {Allowed : Factory Net → Factory Net → Type 0} {f g : Factory Net}
      → IsSound f.meta
      → Reach T Allowed f g
      → Grown f.meta g.meta
  Reach-Grown {f = f} s here = same_log-Grown f.meta f.meta (ground arith) (ground arith)
  Reach-Grown {f = f} {g = g} s (next {g = h} r step allowed) =
      Grown-trans f.meta h.meta g.meta (Reach-Grown s r)
        (Change-Grown (Reach-IsSound T s r) (Step-Change T step))
