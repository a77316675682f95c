-- ===== src/Factory/Threads.antt =====
-- The threads of LaptopFactory, interleaved. A step is what one thread does between two points at
-- which it takes `meta_lock` or `erq_lock`, or waits.
pub mod Change
pub mod Sound
pub mod Ballots
pub mod Grown
use raft_distributed_kv.Prelude.{
  returned, ℕ, ◌≡◌, Option, none, some, Bool, true, false, List, [], ◌∷◌, ◌++◌, ℤ, pos, ◌==ℤ◌, ◌≤ℤ◌,
}
use raft_distributed_kv.Messages.CustomerRequest
use raft_distributed_kv.Messages.CustomerRequest.{CustomerRequest}
use raft_distributed_kv.Messages.LaptopInfo.{LaptopInfo, set_admin_id}
use raft_distributed_kv.Messages.RequestVoteMessage.{RequestVoteMessage}
use raft_distributed_kv.Messages.LogRequest.{LogRequest}
use raft_distributed_kv.Metadata.{ServerMetadata, Status, Socket}
use raft_distributed_kv.Rpc.Transport.{Transport}
use raft_distributed_kv.Stub.{identify_rpc, recv_log_request, ship_laptop}
use raft_distributed_kv.Factory.{
  LeaderRequest, server_round, greet_customer, customer_round, leader_maintain_log, timeout_round,
}

-- The server between two steps. `taken` are the orders that a LeaderThread has answered and not yet
-- logged, `promises` the laptops of the promises that were kept, and `seen` the status that
-- TimeoutThread has read, if it is not at the top of its loop.
pub record Factory (N : Type 0) : Type 0 where
  pub meta : ServerMetadata
  pub net : N
  pub erq : List LeaderRequest
  pub taken : List LeaderRequest
  pub promises : List (ℕ × LaptopInfo)
  pub seen : Option Status

module _ (T : Transport) where
  open T use {Net}

  -- LeaderThread up to `set_value`: the first order is taken off the queue and answered.
  unfoldable pub take_order : ℤ → Factory Net → Option (Factory Net)
  take_order id f = elim f.erq [
    | [] ↦ none
    | r ∷ rest ↦
        let laptop = set_admin_id r.laptop id in
        some (record f {
          erq = rest;
          taken = record r { laptop = laptop } ∷ f.taken;
          promises = (r.prom, laptop) ∷ f.promises;
        })
  ]

  pub data Step (f : Factory Net) : Factory Net → Type 0 where
    serve :
        (msg_memory : RequestVoteMessage) (request_memory : LogRequest) (stub : Socket)
        (m : ServerMetadata) (net : Net)
        → server_round T msg_memory request_memory stub f.meta f.net ≡ some (m, net)
        → Step f (record f { meta = m; net = net })
    welcome :
        (stub : Socket) (net : Net)
        → greet_customer T stub f.meta f.net ≡ some net
        → Step f (record f { net = net })
    customer :
        (engineer_id : ℤ) (prom : ℕ) (stub : Socket)
        → Step f (record f {
          erq = (customer_round T engineer_id prom stub f.erq f.meta f.net).erq;
          net = (customer_round T engineer_id prom stub f.erq f.meta f.net).net;
        })
    ship :
        (laptop : LaptopInfo) (stub : Socket)
        → Step f (record f { net = (ship_laptop T laptop stub f.net).1 })
    take : (id : ℤ) (g : Factory Net) → take_order id f ≡ some g → Step f g
    maintain :
        (before after : List LeaderRequest) (r : LeaderRequest) (fuel : ℕ) (code : ℤ)
        (m : ServerMetadata) (net : Net)
        → f.taken ≡ before ++ r ∷ after
        → leader_maintain_log T fuel r.laptop.customer_id r.laptop.order_number f.meta f.net
          ≡ returned (code, (m, net))
        → Step f (record f { meta = m; net = net; taken = before ++ after })
    look : f.seen ≡ none → Step f (record f { seen = some f.meta.status })
    timeout :
        (status : Status) (fuel : ℕ) (m : ServerMetadata) (net : Net)
        → f.seen ≡ some status
        → timeout_round T status fuel f.meta f.net ≡ returned (m, net)
        → Step f (record f { meta = m; net = net; seen = none })

  -- A run, each step of which is one that `Allowed` admits.
  pub data Reach (Allowed : Factory Net → Factory Net → Type 0) (f : Factory Net)
      : Factory Net → Type 0 where
    here : Reach Allowed f f
    next : {g h : Factory Net} → Reach Allowed f g → Step g h → Allowed g h → Reach Allowed f h
