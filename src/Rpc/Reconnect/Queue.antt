-- ===== src/Rpc/Reconnect/Queue.antt =====
-- The queue of the servers that failed, in TryReconnect.
use raft_distributed_kv.Prelude.{
  ◌≡◌, ◌⊎◌, inl, inr, refl, Bool, true, false, ◌||◌, ◌==◌, List, [], ◌∷◌, ◌++◌, ℕ, arith,
  Bool-cases,
}
use raft_distributed_kv.Metadata.{ServerMetadata, Socket, NodePtr}
use raft_distributed_kv.Metadata.Membership.{put_socket}
use raft_distributed_kv.Rpc.Transport.{Transport}
use raft_distributed_kv.Rpc.Reconnect.{greet, reconnect_all, try_reconnect}

-- By the address, which is how std::map tells the pointers apart.
abbrev pub queued : ℕ → List NodePtr → Bool
queued a [] = false
queued a (n ∷ ns) = n.address == a || queued a ns

abbrev pub connected : ℕ → List (NodePtr × Socket) → Bool
connected a [] = false
connected a ((n, s) ∷ ns) = n.address == a || connected a ns

connected-put_socket :
    (a : ℕ) (sockets : List (NodePtr × Socket)) (node : NodePtr) (socket : Socket)
    → connected a (put_socket sockets node socket) ≡ (node.address == a || connected a sockets)
unfolding put_socket
connected-put_socket a [] node socket = refl
connected-put_socket a ((n, s) ∷ rest) node socket =
    ground (arith, connected-put_socket a rest node socket)

List-cases {ℓ} : {A : Type ℓ} (xs : List A) → (xs ≡ []) ⊎ ((x : A) × (ys : List A) × (xs ≡ x ∷ ys))
List-cases [] = inl refl
List-cases (x ∷ xs) = inr (x, xs, refl)

queued-append :
    (a : ℕ) (ns : List NodePtr) (node : NodePtr)
    → queued a (ns ++ node ∷ []) ≡ (queued a ns || node.address == a)
queued-append a [] node = ground arith
queued-append a (n ∷ ns) node = ground (arith, queued-append a ns node)

module _ (T : Transport) where
  open T use {Net}

  reconnect_all_keeps :
      (nodes : List NodePtr) (sockets : List (NodePtr × Socket)) (failed : List NodePtr) (net : Net)
      (a : ℕ)
      → (queued a nodes || (queued a failed || connected a sockets)) ≡ true
      → (queued a (reconnect_all T nodes sockets failed net).failed
          || connected a (reconnect_all T nodes sockets failed net).sockets)
        ≡ true
  unfolding reconnect_all greet
  reconnect_all_keeps [] sockets failed net a h = h
  reconnect_all_keeps (node ∷ rest) sockets failed net a h =
      elim (Bool-cases (T.connect node.ip node.port net).0.0) [
        | inl e ↦
            rw (e, reconnect_all)
              (reconnect_all_keeps rest _ _ _ a (
                ground (
                  arith,
                  connected-put_socket a sockets node (T.connect node.ip node.port net).0.1,
                )))
        | inr e ↦
            rw (e, reconnect_all)
              (reconnect_all_keeps rest _ _ _ a (ground (arith, queued-append a failed node)))
      ]

  -- Every server that was queued as failed or had a socket before TryReconnect is queued or has a
  -- socket afterwards.
  pub try_reconnect_keeps :
      (m : ServerMetadata) (net : Net) (a : ℕ)
      → (queued a m.failed_neighbors || connected a m.node_socket) ≡ true
      → (queued a (try_reconnect T m net).0.failed_neighbors
          || connected a (try_reconnect T m net).0.node_socket)
        ≡ true
  unfolding try_reconnect
  try_reconnect_keeps m net a h = elim (List-cases m.failed_neighbors) [
    | inl e ↦ rw (e, try_reconnect) (ground arith)
    | inr (node, rest, e) ↦
        rw (e, try_reconnect)
          (reconnect_all_keeps (node ∷ rest) m.node_socket [] net a (ground arith))
  ]
