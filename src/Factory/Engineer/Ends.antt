-- ===== src/Factory/Engineer/Ends.antt =====
-- When the thread of a connection (EngineerThread of ServerThread.cpp) returns.
use raft_distributed_kv.Prelude.{
  ℕ, zero, suc, ◌≢◌, Option-cases, Bool-cases, ◌==ℤ◌, inl, inr, ℤ, pos, arith,
}
use raft_distributed_kv.Metadata.{Socket}
use raft_distributed_kv.Rpc.Transport.{Transport}
use raft_distributed_kv.Stub.{identify_sender}
use raft_distributed_kv.Factory.{server_round}
use raft_distributed_kv.Factory.Threads.{Factory}
use raft_distributed_kv.Factory.Engineer.{
  ended, Schedule, server_handler, spin, identified, engineer_thread,
}

module _ (T : Transport) where
  open T use {Net, recv}

  module _ (s : Schedule Net) where
    server_handler_endless :
        (n : ℕ) (stub : Socket) (f g : Factory Net) → server_handler T s n stub f ≢ ended g
    unfolding server_handler
    server_handler_endless zero stub f g = ground arith
    server_handler_endless (suc n) stub f g =
        let h = s.others n f in
        elim (Option-cases
          (server_round T (s.msg_memory n) (s.request_memory n) stub h.meta h.net)) [
            | inl e ↦ rw (server_handler, e) (ground arith)
            | inr ((m, net), e) ↦
                rw (server_handler, e)
                  (server_handler_endless n stub (record h { meta = m; net = net }) g)
          ]

    spin_endless : (n : ℕ) (f g : Factory Net) → spin T s n f ≢ ended g
    unfolding spin
    spin_endless zero f g = ground arith
    spin_endless (suc n) f g = spin_endless n (s.others n f) g

    -- If the connection does not begin with the identifier of a customer, EngineerThread has
    -- not returned after any number of rounds, whatever the network does, also if the peer has
    -- gone, and whatever happens around the rounds.
    pub peer_thread_endless :
        (fuel : ℕ) (engineer_id : ℤ) (stub : Socket) (f g : Factory Net)
        → (identify_sender T stub f.net).0 ≢ pos 2
        → engineer_thread T s fuel engineer_id stub f ≢ ended g
    unfolding engineer_thread
    peer_thread_endless fuel engineer_id stub f g other =
        let h = identified T stub f in
        let sender = (identify_sender T stub f.net).0 in
        elim (Bool-cases (sender ==ℤ pos 1)) [
          | inl e ↦ rw (engineer_thread, e) (server_handler_endless fuel stub h g)
          | inr e ↦ elim (Bool-cases (sender ==ℤ pos 2)) [
            | inl e' ↦ absurd (other (ground arith))
            | inr e' ↦ rw (engineer_thread, e) (rw e' (spin_endless fuel h g))
          ]
        ]
