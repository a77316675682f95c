-- ===== src/Rpc/Reconnect.antt =====
-- The connections to the other servers: InitNeighbors and TryReconnect of ServerMetadata.cpp.
pub mod Lost
pub mod Queue
use raft_distributed_kv.Prelude.{Bool, true, false, List, [], ◌∷◌, ◌++◌, ℤ, pos, if◌then◌else◌}
use raft_distributed_kv.Metadata.{ServerMetadata, Socket, NodePtr}
use raft_distributed_kv.Metadata.Membership.{put_socket}
use raft_distributed_kv.Rpc.Transport.{Transport, send_identifier}

module _ (T : Transport) where
  open T use {Net, connect, close}

  -- SERVER_IDENTIFIER to a new connection, which is kept in `node_socket`.
  unfoldable pub greet :
      List (NodePtr × Socket) → NodePtr → Socket → Net → List (NodePtr × Socket) × Net
  greet sockets node socket net =
      let (_, net') = send_identifier T (pos 1) socket net in (put_socket sockets node socket, net')

  unfoldable pub connect_all :
      List NodePtr → List (NodePtr × Socket) → Net → List (NodePtr × Socket) × Net
  connect_all [] sockets net = (sockets, net)
  connect_all (node ∷ rest) sockets net =
      let (got, net') = connect node.ip node.port net in
      let (sockets', net'') = if got.0 then greet sockets node got.1 net' else (sockets, net') in
      connect_all rest sockets' net''

  unfoldable pub init_neighbors : ServerMetadata → Net → ServerMetadata × Net
  init_neighbors m net =
      let (sockets, net') = connect_all m.neighbors [] net in
      (record m { node_socket = sockets; failed_neighbors = [] }, net')

  -- The loop of TryReconnect, with the queue of the servers that failed again.
  unfoldable pub reconnect_all :
      List NodePtr
      → List (NodePtr × Socket)
      → List NodePtr
      → Net
      → record { sockets : List (NodePtr × Socket); failed : List NodePtr; net : Net }
  reconnect_all [] sockets failed net = record { sockets = sockets; failed = failed; net = net }
  reconnect_all (node ∷ rest) sockets failed net =
      let (got, net') = connect node.ip node.port net in
      let kept = greet sockets node got.1 net' in
      reconnect_all rest (if got.0 then kept.0 else sockets)
        (if got.0 then failed else failed ++ node ∷ []) (if got.0 then kept.1 else close got.1 net')

  -- With no failed server the method returns at once.
  unfoldable pub try_reconnect : ServerMetadata → Net → ServerMetadata × Net
  try_reconnect m net = elim m.failed_neighbors [
    | [] ↦ (m, net)
    | node ∷ rest ↦
        let r = reconnect_all (node ∷ rest) m.node_socket [] net in
        (record m { node_socket = r.sockets; failed_neighbors = r.failed }, r.net)
  ]
