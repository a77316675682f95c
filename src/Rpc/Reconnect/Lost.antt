-- ===== src/Rpc/Reconnect/Lost.antt =====
-- A server that cannot be reached when this one starts (InitNeighbors, TryReconnect).
use raft_distributed_kv.Prelude.{◌≡◌, refl, false, List, [], ◌∷◌, ℤ, ℕ}
use raft_distributed_kv.Metadata.{ServerMetadata, Socket, NodePtr}
use raft_distributed_kv.Rpc.Transport.{Transport}
use raft_distributed_kv.Rpc.Reconnect.{connect_all, init_neighbors, try_reconnect}

-- The peers that refuse a connection.
pub record Refuses (T : Transport) : Type 0 where
  pub refused : (ip : List ℕ) (port : ℤ) (net : T.Net) → (T.connect ip port net).0.0 ≡ false

connect_all_refused :
    (T : Transport) (r : Refuses T) (nodes : List NodePtr) (sockets : List (NodePtr × Socket))
    (net : T.Net)
    → (connect_all T nodes sockets net).0 ≡ sockets
unfolding connect_all
connect_all_refused T r [] sockets net = refl
connect_all_refused T r (node ∷ rest) sockets net =
    rw (r.refused node.ip node.port net, connect_all)
      (connect_all_refused T r rest sockets (T.connect node.ip node.port net).1)

-- If every neighbour refuses the connection when InitNeighbors runs, the server has no socket to
-- any, and TryReconnect, over whatever network it runs later, returns without an attempt and
-- without a change.
pub init_neighbors_lost :
    (T later : Transport) (m : ServerMetadata) (net : T.Net) (net' : later.Net)
    → Refuses T
    → ((init_neighbors T m net).0.node_socket ≡ [])
      × (try_reconnect later (init_neighbors T m net).0 net' ≡ ((init_neighbors T m net).0, net'))
unfolding init_neighbors try_reconnect
init_neighbors_lost T later m net net' r = (connect_all_refused T r m.neighbors [] net, refl)
