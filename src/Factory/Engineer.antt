-- ===== src/Factory/Engineer.antt =====
-- EngineerThread of ServerThread.cpp with its loops, ServerHandler and CustomerHandler: the thread of
-- one connection, between whose rounds the other threads of the server run. The list `stubs`, which
-- the thread adds its stub to, is left out: it is never read.
pub mod Ends
use raft_distributed_kv.Prelude.{
  ℕ, zero, suc, ◌≡◌, refl, Option, none, some, Option-cases, inl, inr, Bool, true, false, List, [],
  ◌∷◌, ℤ, pos, ◌==ℤ◌, ◌==◌, if◌then◌else◌, arith,
}
use raft_distributed_kv.Messages.LaptopInfo.{LaptopInfo}
use raft_distributed_kv.Messages.RequestVoteMessage.{RequestVoteMessage}
use raft_distributed_kv.Messages.LogRequest.{LogRequest}
use raft_distributed_kv.Metadata.{Socket}
use raft_distributed_kv.Rpc.Transport.{Transport}
use raft_distributed_kv.Stub.{identify_sender, ship_laptop}
use raft_distributed_kv.Factory.{server_round, greet_customer, customer_round}
use raft_distributed_kv.Factory.Threads.{
  Factory, Step, Reach, here, next, serve, welcome, customer, ship,
}

-- What a thread has come to after some rounds: it has returned, it is in its loop (or waits), or it
-- has run into undefined behaviour.
pub data Progress (A : Type 0) : Type 0 where
  ended going : A → Progress A
  crashed : Progress A

-- What happens around the rounds of a thread, which are counted down: what the other threads do before
-- a round, and while the thread waits for its promise; the number of the promise; and what the
-- messages hold before they are received.
pub record Schedule (N : Type 0) : Type 0 where
  pub others : ℕ → Factory N → Factory N
  pub awaited : ℕ → Factory N → Factory N
  pub prom : ℕ → ℕ
  pub msg_memory : ℕ → RequestVoteMessage
  pub request_memory : ℕ → LogRequest

-- `fut.get()`: the value of the promise, if it has one.
unfoldable pub get_future : List (ℕ × LaptopInfo) → ℕ → Option LaptopInfo
get_future [] prom = none
get_future ((p, laptop) ∷ promises) prom =
    if p == prom then some laptop else get_future promises prom

module _ (T : Transport) where
  open T use {Net}

  -- ServerHandler after so many rounds. Nothing leads out of its loop.
  unfoldable pub server_handler : Schedule Net → ℕ → Socket → Factory Net → Progress (Factory Net)
  server_handler s zero stub f = going f
  server_handler s (suc n) stub f =
      let g = s.others n f in
      elim (server_round T (s.msg_memory n) (s.request_memory n) stub g.meta g.net) [
        | none ↦ crashed
        | some (m, net) ↦ server_handler s n stub (record g { meta = m; net = net })
      ]

  -- The loop of CustomerHandler after so many rounds.
  unfoldable pub serve_customer :
      Schedule Net → ℕ → ℤ → Socket → Factory Net → Progress (Factory Net)
  serve_customer s zero engineer_id stub f = going f
  serve_customer s (suc n) engineer_id stub f =
      let g = s.others n f in
      let round = customer_round T engineer_id (s.prom n) stub g.erq g.meta g.net in
      let h = record g { erq = round.erq; net = round.net } in
      elim round.ended [
        | true ↦ ended h
        | false ↦ elim round.waiting [
          | false ↦ serve_customer s n engineer_id stub h
          | true ↦
              let w = s.awaited n h in
              elim (get_future w.promises (s.prom n)) [
                | none ↦ going w
                | some laptop ↦
                    serve_customer s n engineer_id stub
                      (record w { net = (ship_laptop T laptop stub w.net).1 })
              ]
        ]
      ]

  unfoldable pub customer_handler :
      Schedule Net → ℕ → ℤ → Socket → Factory Net → Progress (Factory Net)
  customer_handler s fuel engineer_id stub f = elim (greet_customer T stub f.meta f.net) [
    | none ↦ crashed
    | some net ↦ serve_customer s fuel engineer_id stub (record f { net = net })
  ]

  -- The loop of EngineerThread for a sender that is neither a server nor a customer: nothing is done,
  -- for ever.
  unfoldable pub spin : Schedule Net → ℕ → Factory Net → Progress (Factory Net)
  spin s zero f = going f
  spin s (suc n) f = spin s n (s.others n f)

  -- IdentifySender, and what it leaves of the network.
  unfoldable pub identified : Socket → Factory Net → Factory Net
  identified stub f = record f { net = (identify_sender T stub f.net).1 }

  unfoldable pub engineer_thread :
      Schedule Net → ℕ → ℤ → Socket → Factory Net → Progress (Factory Net)
  engineer_thread s fuel engineer_id stub f =
      let sender = (identify_sender T stub f.net).0 in
      let g = identified stub f in
      if sender ==ℤ pos 1
      then server_handler s fuel stub g
      else (if sender ==ℤ pos 2 then customer_handler s fuel engineer_id stub g else spin s fuel g)
