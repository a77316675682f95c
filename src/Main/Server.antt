-- ===== src/Main/Server.antt =====
-- A server from its arguments to its threads: the rest of `main` of ServerMain.cpp, which connects to
-- the peers and makes the LaptopFactory that the threads share.
use raft_distributed_kv.Prelude.{ℕ, ◌≡◌, subst, inl, inr, some, none, List, [], ℤ, arith}
use raft_distributed_kv.Metadata.{ServerMetadata}
use raft_distributed_kv.Metadata.Invariant.{IsSound}
use raft_distributed_kv.Rpc.Transport.{Transport}
use raft_distributed_kv.Rpc.Reconnect.{init_neighbors}
use raft_distributed_kv.Factory.Threads.{Factory, Reach}
use raft_distributed_kv.Factory.Threads.Sound.{Reach-IsSound}
use raft_distributed_kv.Sockets.{Calls, SocketState}
use raft_distributed_kv.Main.{ready, setup}
use raft_distributed_kv.Main.Peers.{AreNumbers, setup_total}

setup-ready :
    (C : Calls) (address : ℕ → ℕ) (memory : ℤ) (argv : List (List ℕ)) (m : ServerMetadata)
    (w : Calls.World C) (socket : SocketState × Calls.World C)
    → AreNumbers argv
    → setup C address memory argv w ≡ some (ready m, socket)
    → IsSound m
setup-ready C address memory argv m w socket h e =
    let (out, run, s) = setup_total C address memory argv w h in
    let same : out.0 ≡ ready m = ground (arith, run, e) in
    elim s.outcome [
      | inl (u, _) ↦ absurd (ground (arith, u, same))
      | inr (inl (u, _)) ↦ absurd (ground (arith, u, same))
      | inr (inr (port, peers, _, _, _, _, inl (u, _))) ↦ absurd (ground (arith, u, same))
      | inr (inr (port, peers, _, _, _, _, inr (m', u, found, _, _, f))) ↦
          subst IsSound (ground (arith, same, found)) f.sound
    ]

module _ (T : Transport) where
  open T use {Net}

  -- What the threads find: no order has come, and TimeoutThread is at the top of its loop.
  unfoldable pub launch : ServerMetadata → Net → Factory Net
  launch m net =
      let (m', net') = init_neighbors T m net in
      record { meta = m'; net = net'; erq = []; taken = []; promises = []; seen = none }

  launch-IsSound : (m : ServerMetadata) (net : Net) → IsSound m → IsSound (launch m net).meta
  unfolding launch init_neighbors
  launch-IsSound m net s = record {
    valid = ground (arith, s.valid);
    applied = ground (arith, s.applied);
  }

  -- If no argument begins with a number that is too large for an int and the start of a server
  -- leads to a state, then in every run of the threads on it, over any network and any system
  -- calls, the log is well formed, the committed part lies within it, and customer_record is the
  -- replay of that part.
  pub started-IsSound :
      {Allowed : Factory Net → Factory Net → Type 0} {g : Factory Net} (C : Calls) (address : ℕ → ℕ)
      (memory : ℤ) (argv : List (List ℕ)) (m : ServerMetadata) (w : Calls.World C)
      (socket : SocketState × Calls.World C) (net : Net)
      → AreNumbers argv
      → setup C address memory argv w ≡ some (ready m, socket)
      → Reach T Allowed (launch m net) g
      → IsSound g.meta
  started-IsSound C address memory argv m w socket net h e r =
      Reach-IsSound T (launch-IsSound m net (setup-ready C address memory argv m w socket h e)) r
