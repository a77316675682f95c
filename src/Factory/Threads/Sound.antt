-- ===== src/Factory/Threads/Sound.antt =====
-- The state machine of a server over the runs of its threads (ServerThread.cpp).
use raft_distributed_kv.Prelude.{◌≡◌, some, ℤ, arith, minus_one}
use raft_distributed_kv.Metadata.{ServerMetadata}
use raft_distributed_kv.Metadata.Invariant.{IsSound}
use raft_distributed_kv.Metadata.Log.{append_log}
use raft_distributed_kv.Metadata.Log.Keeps.{append_log-IsValid, append_log-IsApplied}
use raft_distributed_kv.Metadata.Vote.{set_ack_length}
use raft_distributed_kv.Metadata.Vote.Grants.{get_vote_response-IsSound}
use raft_distributed_kv.Metadata.Append.Keeps.{get_log_response-IsSound}
use raft_distributed_kv.Rpc.Transport.{Transport}
use raft_distributed_kv.Rpc.Election.Terms.{request_vote-IsSound}
use raft_distributed_kv.Rpc.Replicate.Sound.{arrays-Moved}
use raft_distributed_kv.Rpc.Replicate.Loop.{replicate_log-Moved}
use raft_distributed_kv.Factory.{check_heartbeat}
use raft_distributed_kv.Factory.Threads.{Factory, Reach, here, next}
use raft_distributed_kv.Factory.Threads.Change.{
  Change, unchanged, voted, appended, ordered, timed_out, campaigned, replicated, Step-Change,
}

check_heartbeat-IsSound : (m : ServerMetadata) → IsSound m → IsSound (check_heartbeat m)
unfolding check_heartbeat
check_heartbeat-IsSound m s = record {
  valid = ground (arith, s.valid);
  applied = ground (arith, s.applied);
}

set_ack_length-IsSound :
    (m m' : ServerMetadata) (idx size : ℤ)
    → set_ack_length m idx size ≡ some m'
    → IsSound m
    → IsSound m'
unfolding set_ack_length
set_ack_length-IsSound m m' idx size e s = (arrays-Moved m m' (ground arith) s).sound

-- The first two calls of LeaderMaintainLog.
pub order-IsSound :
    (m a b : ServerMetadata) (t c o idx size : ℤ)
    → append_log m t c o ≡ some a
    → set_ack_length a idx size ≡ some b
    → IsSound m
    → IsSound b
order-IsSound m a b t c o idx size e f s = set_ack_length-IsSound a b idx size f (record {
  valid = append_log-IsValid m t c o a e s.valid;
  applied = append_log-IsApplied m t c o a e s.valid s.applied;
})

module _ (T : Transport) where
  open T use {Net}

  Change-IsSound : {m m' : ServerMetadata} → IsSound m → Change T m m' → IsSound m'
  Change-IsSound {m} {m'} s (unchanged e) = rw e s
  Change-IsSound {m} {m'} s (voted msg res e) = get_vote_response-IsSound m m' msg res e s
  Change-IsSound {m} {m'} s (appended req res e) = get_log_response-IsSound m m' req res e s
  Change-IsSound {m} {m'} s (ordered t c o a b fuel net net' code e f g) =
      (replicate_log-Moved T fuel b m' net net' code g
        (order-IsSound m a b t c o minus_one a.log_size e f s)).sound
  Change-IsSound {m} {m'} s (timed_out e) = rw e (check_heartbeat-IsSound m s)
  Change-IsSound {m} {m'} s (campaigned net net' e) = request_vote-IsSound T m m' net net' e s
  Change-IsSound {m} {m'} s (replicated fuel net net' code e) =
      (replicate_log-Moved T fuel m m' net net' code e s).sound

  -- Whatever the threads of a server do, in any order and over any network, its log stays well
  -- formed, the committed part lies within it, and customer_record is the replay of that part, if
  -- all this held at the start.
  pub Reach-IsSound :
      {Allowed : Factory Net → Factory Net → Type 0} {f g : Factory Net}
      → IsSound f.meta
      → Reach T Allowed f g
      → IsSound g.meta
  Reach-IsSound s here = s
  Reach-IsSound s (next r step allowed) = Change-IsSound (Reach-IsSound s r) (Step-Change T step)
