-- ===== src/Client/Requests.antt =====
-- The requests of a client.
use raft_distributed_kv.Prelude.{
  ℕ, zero, suc, ◌+◌, ◌≤◌, ◌≡◌, ◌≢◌, ◌⊎◌, refl, false, ℤ, pos, ◌+ℤ◌, minus_one, arith, take,
}
use raft_distributed_kv.Words.{Bytes}
use raft_distributed_kv.Messages.CustomerRequest
use raft_distributed_kv.Messages.CustomerRequest.{CustomerRequest, set_request}
use raft_distributed_kv.Messages.CustomerRecord
use raft_distributed_kv.Messages.LaptopInfo
use raft_distributed_kv.Metadata.{Socket}
use raft_distributed_kv.Rpc.Transport.{Transport, buffer}
use raft_distributed_kv.Client.{failed, order, read_record, read_once, request_once, request_loop}

module _ (T : Transport) where
  open T use {Net, send, recv}

  -- The number of timed requests is at most the number of requests.
  request_loop-le :
      (rounds : ℕ) (i customer_id request_type is_leader : ℤ) (socket : Socket) (timed : ℕ)
      (net : Net)
      → (request_loop T rounds i customer_id request_type is_leader socket timed net).0
        ≤ timed + rounds
  unfolding request_loop
  request_loop-le zero i customer_id request_type is_leader socket timed net = omega arith
  request_loop-le (suc rounds) i customer_id request_type is_leader socket timed net = ground (
    arith,
    request_loop-le rounds (i +ℤ pos 1) customer_id request_type is_leader socket (timed + 1)
        (request_once T customer_id request_type is_leader i socket net).1,
  )

  -- Nothing can be sent: what is returned is what was constructed.
  dead_order :
      (request : CustomerRequest) (socket : Socket) (net : Net)
      → ((bytes : Bytes) → (send socket bytes net).0 ≡ false)
      → (order T request socket net).0 ≡ LaptopInfo.init
  unfolding order
  dead_order request socket net dead =
      ground (arith, dead (take CustomerRequest.size (CustomerRequest.marshal request (buffer 32))))

  dead_read :
      (request : CustomerRequest) (socket : Socket) (net : Net)
      → ((bytes : Bytes) → (send socket bytes net).0 ≡ false)
      → (read_record T request socket net).0 ≡ CustomerRecord.init
  unfolding read_record
  dead_read request socket net dead =
      ground (arith, dead (take CustomerRequest.size (CustomerRequest.marshal request (buffer 32))))

  dead_request :
      (i customer_id request_type is_leader : ℤ) (socket : Socket) (net : Net)
      → ((request_type ≡ pos 1) × (is_leader ≢ pos 0))
        ⊎ (request_type ≡ pos 2)
        ⊎ (request_type ≡ pos 3)
      → ((bytes : Bytes) → (send socket bytes net).0 ≡ false)
      → (request_once T customer_id request_type is_leader i socket net).0 ≡ failed
  unfolding request_once read_once LaptopInfo.init CustomerRecord.init
  dead_request i customer_id request_type is_leader socket net kind dead = ground (
    arith,
    kind,
    dead_order (set_request customer_id i (pos 1)) socket net dead,
    dead_read (set_request i minus_one (pos 2)) socket net dead,
  )

  -- If nothing can be sent to the server, a client that is to make at least one request stops
  -- after the first, if it reads, or if it updates and has been told of a leader.
  pub dead_server_stops :
      (rounds : ℕ) (i customer_id request_type is_leader : ℤ) (socket : Socket) (timed : ℕ)
      (net : Net)
      → ((request_type ≡ pos 1) × (is_leader ≢ pos 0))
        ⊎ (request_type ≡ pos 2)
        ⊎ (request_type ≡ pos 3)
      → ((bytes : Bytes) → (send socket bytes net).0 ≡ false)
      → (request_loop T (suc rounds) i customer_id request_type is_leader socket timed net).0
        ≡ timed + 1
  unfolding request_loop
  dead_server_stops rounds i customer_id request_type is_leader socket timed net kind dead =
      ground (arith, dead_request i customer_id request_type is_leader socket net kind dead)

  -- The updates of a client to a server that has said that it does not lead are the same as those
  -- to a leader, with the same messages and the same number of timed requests.
  pub follower_takes_update :
      (rounds : ℕ) (i customer_id : ℤ) (socket : Socket) (timed : ℕ) (net : Net)
      → request_loop T rounds i customer_id (pos 1) (pos 1) socket timed net
        ≡ request_loop T rounds i customer_id (pos 1) (pos 2) socket timed net
  unfolding request_loop request_once
  follower_takes_update zero i customer_id socket timed net = refl
  follower_takes_update (suc rounds) i customer_id socket timed net =
      let net' : Net = (request_once T customer_id (pos 1) (pos 1) i socket net).1 in
      ground (arith, follower_takes_update rounds (i +ℤ pos 1) customer_id socket (timed + 1) net')
