-- ===== src/Rpc/Replicate/Loop.antt =====
-- The loops of ReplicateLog, for whatever `react` keeps.
use raft_distributed_kv.Prelude.{
  returned, ℕ, zero, suc, ◌==◌, ◌≡◌, refl, subst, Bool, Option, some, false, List, [], ◌∷◌, arith,
  ℤ, Bool-cases, Option-cases, inl, inr,
}
use raft_distributed_kv.Messages.LogResponse.{LogResponse}
use raft_distributed_kv.Metadata.{ServerMetadata, NodePtr, Socket, value_at}
use raft_distributed_kv.Rpc.Transport.{Transport}
use raft_distributed_kv.Rpc.Reconnect.{try_reconnect}
use raft_distributed_kv.Rpc.Replicate.{
  Visit, Round, react, visit, round_step, after, visit_all, rounds, replicate_log, make_request,
  exchange, failed, kept, changed, demoted,
}
use raft_distributed_kv.Rpc.Replicate.Keeps.{SameLog, IsLeading, frame-IsLeading, react-IsLeading}
use raft_distributed_kv.Rpc.Replicate.Sound.{Moved, Moved-trans, frame-Moved, react-Moved}
use raft_distributed_kv.Metadata.Invariant.{IsSound}

after-meta :
    {N : Type 0} (node : NodePtr) (socket : Socket) (end : Visit) (m : ServerMetadata) (net : N)
    (r : Round N)
    → (after node socket end m net r).meta ≡ m
unfolding after
after-meta node socket failed m net r = refl
after-meta node socket kept m net r = refl
after-meta node socket changed m net r = refl
after-meta node socket demoted m net r = refl

-- What the loops themselves change: the connections, and the map of the servers' indices.
pub record SameState (m m' : ServerMetadata) : Type 0 where
  pub rest : m' ≡ record m {
    server_index_map = m'.server_index_map;
    node_socket = m'.node_socket;
    failed_neighbors = m'.failed_neighbors;
  }

same_log : (m m' : ServerMetadata) → SameState m m' → SameLog m m'
same_log m m' f = ground (arith, f.rest)

-- A property of a server that neither `react` nor a change of the connections or of the index map
-- takes away holds after the loops.
module _ (T : Transport) (P : ServerMetadata → Type 0)
    (frame : (m m' : ServerMetadata) → SameState m m' → P m → P m')
    (react_keeps : (m m' : ServerMetadata) (i : ℤ) (node : NodePtr) (heartbeat : Bool)
        (answer : Option LogResponse) (end : Visit)
      → react m i node heartbeat answer ≡ some (end, m')
      → P m
      → P m') where
  open T use {Net}

  visit_keeps :
      (node : NodePtr) (socket : Socket) (m m' : ServerMetadata) (net net' : Net) (end : Visit)
      → visit T node socket m net ≡ some ((end, m'), net')
      → P m
      → P m'
  unfolding visit
  visit_keeps node socket m m' net net' end h l =
      let i : ℤ = (value_at m.server_index_map node.id).0 in
      let m1 : ServerMetadata = record m {
        server_index_map = (value_at m.server_index_map node.id).1;
      } in
      elim (Option-cases (make_request m1 i)) [
        | inl e ↦ ground arith
        | inr (made, e) ↦
            let answer : Option LogResponse = (exchange T made.0 socket net).0 in
            elim (Option-cases (react m1 i node made.1 answer)) [
              | inl f ↦ ground arith
              | inr ((end', a), f) ↦
                  let same : a ≡ m' = ground arith in
                  subst P same
                    (react_keeps m1 a i node made.1 answer end' f (frame m m1 (ground arith) l))
            ]
      ]

  round_step_keeps :
      (node : NodePtr) (socket : Socket) (r r' : Round Net)
      → round_step T node socket r ≡ some r'
      → P r.meta
      → P r'.meta
  unfolding round_step
  round_step_keeps node socket r r' h l = elim (Option-cases (visit T node socket r.meta r.net)) [
    | inl e ↦ ground arith
    | inr (((end, m), net'), e) ↦
        let same : after node socket end m net' r ≡ r' = ground arith in
        subst (λ x. P x.meta) same
          (rw (after-meta node socket end m net' r)
            (visit_keeps node socket r.meta m r.net net' end e l))
  ]

  visit_all_keeps :
      (servers : List (NodePtr × Socket)) (r r' : Round Net)
      → visit_all T servers r ≡ some r'
      → P r.meta
      → P r'.meta
  unfolding visit_all
  visit_all_keeps [] r r' h l = let same : r ≡ r' = ground arith in subst (λ x. P x.meta) same l
  visit_all_keeps ((node, socket) ∷ servers) r r' h l =
      elim (Option-cases (round_step T node socket r)) [
        | inl e ↦ ground arith
        | inr (a, e) ↦
            let la : P a.meta = round_step_keeps node socket r a e l in
            elim (Bool-cases a.is_demoted) [
              | inl d ↦ (let same : a ≡ r' = ground arith in subst (λ x. P x.meta) same la)
              | inr c ↦ visit_all_keeps servers a r' (ground arith) la
            ]
      ]

  rounds_keeps :
      (fuel : ℕ) (new : List (NodePtr × Socket)) (m m' : ServerMetadata) (net net' : Net) (code : ℤ)
      → rounds T fuel new m net ≡ returned (code, (m', net'))
      → P m
      → P m'
  unfolding rounds
  rounds_keeps zero new m m' net net' code h l = ground arith
  rounds_keeps (suc fuel) new m m' net net' code h l =
      let start : Round Net = record {
        meta = m;
        new_node_socket = new;
        num_change = 0;
        is_demoted = false;
        net = net;
      } in
      elim (Option-cases (visit_all T m.node_socket start)) [
        | inl e ↦ ground arith
        | inr (r, e) ↦
            let lr : P r.meta = visit_all_keeps m.node_socket start r e l in
            let m1 : ServerMetadata = record r.meta { node_socket = r.new_node_socket } in
            let l1 : P m1 = frame r.meta m1 (ground arith) lr in
            elim (Bool-cases r.is_demoted) [
              | inl d ↦ (let same : r.meta ≡ m' = ground arith in subst P same lr)
              | inr c ↦ elim (Bool-cases (r.num_change == 0)) [
                | inl z ↦ (let same : m1 ≡ m' = ground arith in subst P same l1)
                | inr more ↦
                    rounds_keeps fuel r.new_node_socket m1 m' r.net net' code (ground arith) l1
              ]
            ]
      ]

  pub replicate_log_keeps :
      (fuel : ℕ) (m m' : ServerMetadata) (net net' : Net) (code : ℤ)
      → replicate_log T fuel m net ≡ returned (code, (m', net'))
      → P m
      → P m'
  unfolding replicate_log try_reconnect
  replicate_log_keeps fuel m m' net net' code h l =
      let m1 : ServerMetadata = (try_reconnect T m net).0 in
      rounds_keeps fuel [] m1 m' (try_reconnect T m net).1 net' code h (frame m m1 (ground arith) l)

module _ (T : Transport) where
  open T use {Net}

  -- Over any network and with any fuel, if ReplicateLog returns, a leader that was well formed is
  -- so afterwards: its log, what of it is committed, the state machine, and the array of
  -- acknowledged lengths with a place for each server.
  pub replicate_log-IsLeading :
      (fuel : ℕ) (m m' : ServerMetadata) (net net' : Net) (code : ℤ)
      → replicate_log T fuel m net ≡ returned (code, (m', net'))
      → IsLeading m
      → IsLeading m'
  replicate_log-IsLeading fuel m m' net net' code h l =
      replicate_log_keeps T IsLeading (λ a b f. frame-IsLeading a b (same_log a b f))
        react-IsLeading fuel m m' net net' code h l

  -- Over any network, with any fuel and in any role, if ReplicateLog returns on a server whose
  -- log is well formed, the log is unchanged, the committed length has not fallen, and the state
  -- machine is the replay of what is committed.
  pub replicate_log-Moved :
      (fuel : ℕ) (m m' : ServerMetadata) (net net' : Net) (code : ℤ)
      → replicate_log T fuel m net ≡ returned (code, (m', net'))
      → IsSound m
      → Moved m m'
  replicate_log-Moved fuel m m' net net' code h s =
      replicate_log_keeps T (Moved m)
        (λ a b f moved. Moved-trans m a b moved (frame-Moved a b (same_log a b f) moved.sound))
        (λ a b i node heartbeat answer end e moved.
          Moved-trans m a b moved (react-Moved a b i node heartbeat answer end e moved.sound))
        fuel m m' net net' code h (record { sound = s; log = refl; commits = omega arith })
