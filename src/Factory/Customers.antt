-- ===== src/Factory/Customers.antt =====
-- What a customer learns of the leader (the start of CustomerHandler, and GetIp at the client).
use raft_distributed_kv.Prelude.{◌≡◌, ◌≢◌, some, [], ◌∷◌, pos, minus_one, arith}
use raft_distributed_kv.Words.RoundTrip.{All}
use raft_distributed_kv.Messages.LeaderInfo
use raft_distributed_kv.Messages.LeaderInfo.{LeaderInfo}
use raft_distributed_kv.Metadata.{
  ServerMetadata, NodePtr, Socket, is_leader, get_leader, get_leader_ip, get_leader_port,
}
use raft_distributed_kv.Address.{get_ip}
use raft_distributed_kv.Address.RoundTrip.{IsPart, set_leader_info-get_ip}
use raft_distributed_kv.Rpc.Transport.{Transport}
use raft_distributed_kv.Stub.{send_is_leader, send_leader_info}
use raft_distributed_kv.Factory.{greet_customer}

module _ (T : Transport) where
  open T use {Net}

  -- A customer of a server that follows a leader among its neighbours is told that the server
  -- does not lead, and sent a LeaderInfo with the leader's port whose GetIp is the leader's
  -- address, if that address is four numbers with dots.
  pub greet_customer_names_leader :
      (stub : Socket) (m : ServerMetadata) (net : Net) (node : NodePtr) (l : LeaderInfo)
      → m.leader_id ≢ minus_one
      → m.leader_id ≢ m.factory_id
      → get_leader m ≡ some node
      → All IsPart (l.ip0 ∷ l.ip1 ∷ l.ip2 ∷ l.ip3 ∷ [])
      → node.ip ≡ get_ip l
      → node.port ≡ l.port
      → greet_customer T stub m net
        ≡ some (send_leader_info T l stub (send_is_leader T (pos 0) stub net).1).1
  unfolding greet_customer is_leader get_leader_ip get_leader_port
  greet_customer_names_leader stub m net node l known other found parts ip port =
      ground (arith, known, other, found, ip, port, set_leader_info-get_ip l LeaderInfo.init parts)
