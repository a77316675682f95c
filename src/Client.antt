-- ===== src/Client.antt =====
-- The client: ClientStub of ClientStub.cpp, and ThreadBody of ClientThread.cpp. The timer stands in
-- Timer; here each pair of `timer.Start()` and `timer.EndAndMerge()` is counted.
pub mod Timer
pub mod Run
pub mod Requests
use raft_distributed_kv.Prelude.{
  ℕ, zero, suc, ◌+◌, Option, none, some, Bool, true, false, not, List, ℤ, pos, negsuc, minus_one,
  ◌+ℤ◌, ◌==ℤ◌, take, if◌then◌else◌,
}
use raft_distributed_kv.Messages.Identifier
use raft_distributed_kv.Messages.CustomerRequest
use raft_distributed_kv.Messages.CustomerRequest.{CustomerRequest, set_request}
use raft_distributed_kv.Messages.CustomerRecord
use raft_distributed_kv.Messages.CustomerRecord.{CustomerRecord}
use raft_distributed_kv.Messages.LaptopInfo
use raft_distributed_kv.Messages.LaptopInfo.{LaptopInfo}
use raft_distributed_kv.Messages.LeaderInfo
use raft_distributed_kv.Messages.LeaderInfo.{LeaderInfo}
use raft_distributed_kv.Address.{get_ip}
use raft_distributed_kv.Metadata.{Socket}
use raft_distributed_kv.Rpc.Transport.{Transport, buffer, send_identifier}

-- How a request ends: it is timed and the loop goes on, it is timed and the thread ends, or the
-- thread ends at once.
pub data Ended : Type 0 where
  answered failed refused : Ended

module _ (T : Transport) where
  open T use {Net, send, recv, connect, reconnect}

  -- The laptop is as it was constructed if the server has gone.
  unfoldable pub order : CustomerRequest → Socket → Net → LaptopInfo × Net
  order request socket net =
      let (sent, net1) =
        send socket (take CustomerRequest.size (CustomerRequest.marshal request (buffer 32))) net in
      if not sent
      then (LaptopInfo.init, net1)
      else (let (got, net2) = recv socket LaptopInfo.size net1 in
          (if got.0 then LaptopInfo.unmarshal got.1 else LaptopInfo.init, net2))

  unfoldable pub read_record : CustomerRequest → Socket → Net → CustomerRecord × Net
  read_record request socket net =
      let (sent, net1) =
        send socket (take CustomerRequest.size (CustomerRequest.marshal request (buffer 32))) net in
      if not sent
      then (CustomerRecord.init, net1)
      else (let (got, net2) = recv socket CustomerRecord.size net1 in
          (if got.0 then CustomerRecord.unmarshal got.1 else CustomerRecord.init, net2))

  -- 0 if nothing came.
  unfoldable pub recv_is_leader : Socket → Net → ℤ × Net
  recv_is_leader socket net =
      let (got, net') = recv socket 4 net in
      (if got.0 then (Identifier.unmarshal got.1).identifier else pos 0, net')

  unfoldable pub recv_leader_info : Socket → Net → LeaderInfo × Net
  recv_leader_info socket net =
      let (got, net') = recv socket LeaderInfo.size net in
      (if got.0 then LeaderInfo.unmarshal got.1 else LeaderInfo.init, net')

  -- CLIENT_IDENTIFIER, and whether the server leads: 2 if it does, 1 if not, 0 if it knows no leader.
  unfoldable pub introduce : Socket → Net → ℤ × Net
  introduce socket net =
      let (_, net1) = send_identifier T (pos 2) socket net in recv_is_leader socket net1

  -- ThreadBody before the loop: a follower names the leader, and an update goes to the leader.
  unfoldable pub reach_server : List ℕ → ℤ → ℤ → Net → Option (Socket × ℤ) × Net
  reach_server ip port request_type net =
      let (got, net1) = connect ip port net in
      if not got.0
      then (none, net1)
      else (let (is_leader, net2) = introduce got.1 net1 in
          if not (is_leader ==ℤ pos 1)
          then (some (got.1, is_leader), net2)
          else (let (info, net3) = recv_leader_info got.1 net2 in
              if not (request_type ==ℤ pos 1)
              then (some (got.1, is_leader), net3)
              else (let (got', net4) = reconnect got.1 (get_ip info) info.port net3 in
                  if not got'.0
                  then (none, net4)
                  else (let (is_leader', net5) = introduce got'.1 net4 in
                      (some (got'.1, is_leader'), net5)))))

  -- READ_REQUEST and DEBUG.
  unfoldable pub read_once : ℤ → Socket → Net → Ended × Net
  read_once i socket net =
      let (entry, net1) = read_record (set_request i minus_one (pos 2)) socket net in
      (if entry.customer_id ==ℤ negsuc 1 then failed else answered, net1)

  -- Request i. An update is refused if no leader is known.
  unfoldable pub request_once : ℤ → ℤ → ℤ → ℤ → Socket → Net → Ended × Net
  request_once customer_id request_type is_leader i socket net =
      if request_type ==ℤ pos 1
      then (if is_leader ==ℤ pos 0
          then (refused, net)
          else (let (laptop, net1) = order (set_request customer_id i (pos 1)) socket net in
              (if laptop.customer_id ==ℤ minus_one then failed else answered, net1)))
      else (if request_type ==ℤ pos 2
          then read_once i socket net
          else (if request_type ==ℤ pos 3 then read_once i socket net else (answered, net)))

  -- The loop over the requests i, i + 1, ..., with the number of timed ones.
  unfoldable pub request_loop : ℕ → ℤ → ℤ → ℤ → ℤ → Socket → ℕ → Net → ℕ × Net
  request_loop zero i customer_id request_type is_leader socket timed net = (timed, net)
  request_loop (suc rounds) i customer_id request_type is_leader socket timed net =
      let (end, net') = request_once customer_id request_type is_leader i socket net in
      elim end [
        | refused ↦ (timed, net')
        | failed ↦ (timed + 1, net')
        | answered ↦
            request_loop rounds (i +ℤ pos 1) customer_id request_type is_leader socket (timed + 1)
              net'
      ]

  -- ThreadBody; a negative `num_requests` makes no request.
  unfoldable pub thread_body : List ℕ → ℤ → ℤ → ℕ → ℤ → Net → ℕ × Net
  thread_body ip port customer_id num_requests request_type net =
      let (reached, net') = reach_server ip port request_type net in
      elim reached [
        | none ↦ (0, net')
        | some (socket, is_leader) ↦
            request_loop num_requests (pos 0) customer_id request_type is_leader socket 0 net'
      ]
