-- ===== src/Rpc/Replicate/CatchUp/Rejoin.antt =====
-- A server that has failed and comes back: TryReconnect at the start of ReplicateLog, and the rounds
-- after it.
use raft_distributed_kv.Prelude.{
  ℕ, ◌*◌, ◌<◌, ◌≡◌, ◌⊎◌, refl, ap, ◌∙◌, List, [], ◌∷◌, length, take, take-length, true, ℤ, pos,
  arith,
}
use raft_distributed_kv.Metadata.{ServerMetadata, NodePtr, Socket, get_peer_size}
use raft_distributed_kv.Metadata.Membership.{put_socket}
use raft_distributed_kv.Rpc.Transport.{Transport, send_identifier}
use raft_distributed_kv.Rpc.Reconnect.{greet, reconnect_all, try_reconnect}
use raft_distributed_kv.Rpc.Replicate.{replicate_log}
use raft_distributed_kv.Rpc.Replicate.Keeps.{frame-IsLeading}
use raft_distributed_kv.Rpc.Replicate.Leads.{Leads}
use raft_distributed_kv.Rpc.Replicate.CatchUp.{IsLinked, Pair}
use raft_distributed_kv.Rpc.Replicate.CatchUp.Rounds.{IsReplicated, caught_up}

-- The leader with other connections.
Leads-sockets :
    (node : NodePtr) (i : ℤ) (k : ℕ) (m : ServerMetadata) (sockets : List (NodePtr × Socket))
    (failed : List NodePtr)
    → Leads node i k m
    → Leads node i k (record m { node_socket = sockets; failed_neighbors = failed })
unfolding get_peer_size
Leads-sockets node i k m sockets failed l =
    let m' : ServerMetadata = record m { node_socket = sockets; failed_neighbors = failed } in
    record {
      leading = frame-IsLeading m m' (ground arith) l.leading;
      role = l.role;
      index = l.index;
      sent = l.sent;
      allocated = l.allocated;
      places = l.places;
      length_sent = l.length_sent;
      within = l.within;
      other = l.other;
      ints = record { server = l.ints.server; term = l.ints.term; entry = l.ints.entry };
      terms = record { entry = l.terms.entry };
    }

module _ (T : Transport) (node : NodePtr) (socket : Socket) (link : IsLinked T socket) (i : ℤ) where
  open T use {Net, connect}
  open link use {peer}

  -- The network once the server has been told that a server speaks.
  abbrev pub greeted : Net → Net
  greeted net = (send_identifier T (pos 1) socket net).1

  reconnected :
      (m : ServerMetadata) (net net1 : Net)
      → m.failed_neighbors ≡ node ∷ []
      → m.node_socket ≡ []
      → connect node.ip node.port net ≡ ((true, socket), net1)
      → try_reconnect T m net
        ≡ (record m { node_socket = (node, socket) ∷ []; failed_neighbors = [] }, greeted net1)
  unfolding try_reconnect reconnect_all greet put_socket
  reconnected m net net1 f s c = ground (arith, f, s, c)

  -- If a sound leader in whose log no entry has the term -1 and all numbers of which are ints has
  -- no connection and one failed neighbour, to which a new connection succeeds, over which each
  -- request is answered by GetLogResponse of a sound server that is no newer, has an int other
  -- than -1 as its id, and has the beginning of the leader's log, and the leader has not sent its
  -- whole log or the server has it, then ReplicateLog reconnects and returns 1 with more than
  -- twice as much fuel as entries; the leader's log is as it was, and the server has it.
  pub rejoined_server_recovers :
      (fuel k j : ℕ) (m : ServerMetadata) (net net1 : Net)
      → m.failed_neighbors ≡ node ∷ []
      → m.node_socket ≡ []
      → connect node.ip node.port net ≡ ((true, socket), net1)
      → Pair node i k j m (peer (greeted net1))
      → (k < length m.smr_log) ⊎ (j ≡ length m.smr_log)
      → length m.smr_log * 2 < fuel
      → IsReplicated T node socket link i fuel m net
  unfolding replicate_log
  rejoined_server_recovers fuel k j m net net1 f s c p more enough =
      let m1 : ServerMetadata = record m {
        node_socket = (node, socket) ∷ [];
        failed_neighbors = [];
      } in
      let p1 : Pair node i k j m1 (peer (greeted net1)) = record {
        leads = Leads-sockets node i k m ((node, socket) ∷ []) [] p.leads;
        follows = p.follows;
        older = p.older;
        named = p.named;
        id = p.id;
      } in
      let r = caught_up T node socket link i fuel k j m1 (greeted net1) refl p1 more enough in
      record {
        m' = r.m';
        net' = r.net';
        run = rw (reconnected m net net1 f s c) r.run;
        log = r.log;
        peer_log =
            r.pair.follows.begins ∙ ap (take (length m.smr_log)) r.log ∙ take-length m.smr_log;
      }
