-- ===== src/Metadata/Membership.antt =====
-- The other servers: AddNeighbors and CleanNodeState of ServerMetadata.cpp, and the map `node_socket`.
use raft_distributed_kv.Prelude.{
  List, [], ◌∷◌, ◌++◌, Option, some, ◌>>=◌, if◌then◌else◌, ltb, ◌==◌, ℤ, pos,
}
use raft_distributed_kv.Metadata.{ServerMetadata, NodePtr, Socket, put, assign}

unfoldable pub add_neighbors : ServerMetadata → NodePtr → ℤ → ServerMetadata
add_neighbors m node idx = record m {
  server_index_map = put m.server_index_map node.id idx;
  neighbors = m.neighbors ++ node ∷ [];
}

-- `node_socket[node] = socket`: the keys stand in the order of their addresses.
unfoldable pub put_socket : List (NodePtr × Socket) → NodePtr → Socket → List (NodePtr × Socket)
put_socket [] node socket = (node, socket) ∷ []
put_socket ((n, s) ∷ rest) node socket =
    if n.address == node.address
    then (n, socket) ∷ rest
    else (if ltb node.address n.address
        then (node, socket) ∷ (n, s) ∷ rest
        else (n, s) ∷ put_socket rest node socket)

unfoldable pub clean_node_state : ServerMetadata → ℤ → Option ServerMetadata
clean_node_state m idx = do
  acks ← m.ack_length
  sent ← m.sent_length
  acks' ← assign acks idx (pos 0)
  sent' ← assign sent idx (pos 0)
  some (record m { ack_length = some acks'; sent_length = some sent' })
