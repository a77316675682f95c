-- ===== src/Rpc/Replicate/CatchUp/Rounds.antt =====
-- The loops of ReplicateLog over the visits of one server.
use raft_distributed_kv.Prelude.{
  returned, ℕ, zero, suc, ◌+◌, ◌-◌, ◌*◌, ◌≤◌, ◌<◌, ◌≡◌, ◌⊎◌, refl, ap, sym, subst, ◌∙◌, inl, inr,
  some, false, List, [], ◌∷◌, length, take, take-length, arith, ℤ, pos, ◌≤ℤ◌, Bool-cases, ltb,
}
use raft_distributed_kv.Metadata.{ServerMetadata, NodePtr, Socket, get_peer_size}
use raft_distributed_kv.Metadata.Membership.{put_socket}
use raft_distributed_kv.Rpc.Transport.{Transport}
use raft_distributed_kv.Rpc.Reconnect.{try_reconnect}
use raft_distributed_kv.Rpc.Replicate.{
  kept, changed, Round, after, round_step, visit_all, rounds, replicate_log,
}
use raft_distributed_kv.Rpc.Replicate.Leads.Answers.{IsOwn}
use raft_distributed_kv.Rpc.Replicate.CatchUp.{IsLinked, Pair, IsVisited}
use raft_distributed_kv.Rpc.Replicate.CatchUp.Visits.{
  visit_next, visit_back, visit_done, visit_ignored,
}

try_reconnect_idle :
    (T : Transport) (m : ServerMetadata) (net : T.Net)
    → m.failed_neighbors ≡ []
    → try_reconnect T m net ≡ (m, net)
unfolding try_reconnect
try_reconnect_idle T m net idle = ground (arith, idle)

module _ (T : Transport) (node : NodePtr) (socket : Socket) (link : IsLinked T socket) (i : ℤ) where
  open T use {Net}
  open link use {peer, answers}

  abbrev pub only : List (NodePtr × Socket)
  only = (node, socket) ∷ []

  put_only : put_socket only node socket ≡ only
  unfolding put_socket
  put_only = ground arith

  -- The connections that were collected before this round: none, or this one.
  abbrev IsNew : List (NodePtr × Socket) → Type 0
  IsNew new = put_socket new node socket ≡ only

  IsNew-nil : IsNew []
  unfolding put_socket
  IsNew-nil = refl

  same_sockets : (m : ServerMetadata) → m.node_socket ≡ only → record m { node_socket = only } ≡ m
  same_sockets m e = ap (λ s. record m { node_socket = s }) (sym e)

  -- The variables of the inner loop at the start of a round.
  abbrev start : List (NodePtr × Socket) → ServerMetadata → Net → Round Net
  start new m net = record {
    meta = m;
    net = net;
    new_node_socket = new;
    num_change = 0;
    is_demoted = false;
  }

  rounds_changed :
      (fuel k j : ℕ) (new : List (NodePtr × Socket)) (m : ServerMetadata) (net : Net)
      (v : IsVisited T node socket link i changed k j m net)
      → m.node_socket ≡ only
      → IsNew new
      → rounds T (suc fuel) new m net ≡ rounds T fuel only v.m' v.net'
  unfolding rounds visit_all round_step after
  rounds_changed fuel k j new m net v e fresh =
      let round : Round Net = after node socket changed v.m' v.net' (start new m net) in
      let step : round_step T node socket (start new m net) ≡ some round = rw v.run refl in
      let all : visit_all T only (start new m net) ≡ some round = rw step refl in
      let here : visit_all T m.node_socket (start new m net) ≡ some round =
        ap (λ s. visit_all T s (start new m net)) e ∙ all in
      let ended : rounds T (suc fuel) new m net
          ≡ rounds T fuel (put_socket new node socket)
              (record v.m' { node_socket = put_socket new node socket }) v.net' =
        ground (arith, here) in
      ended
      ∙ ap (λ s. rounds T fuel s (record v.m' { node_socket = s }) v.net') fresh
      ∙ ap (λ x. rounds T fuel only x v.net') (same_sockets v.m' (v.same.sockets ∙ e))

  rounds_kept :
      (fuel k j : ℕ) (new : List (NodePtr × Socket)) (m : ServerMetadata) (net : Net)
      (v : IsVisited T node socket link i kept k j m net)
      → m.node_socket ≡ only
      → IsNew new
      → rounds T (suc fuel) new m net ≡ returned (pos 1, (v.m', v.net'))
  unfolding rounds visit_all round_step after
  rounds_kept fuel k j new m net v e fresh =
      let round : Round Net = after node socket kept v.m' v.net' (start new m net) in
      let step : round_step T node socket (start new m net) ≡ some round = rw v.run refl in
      let all : visit_all T only (start new m net) ≡ some round = rw step refl in
      let here : visit_all T m.node_socket (start new m net) ≡ some round =
        ap (λ s. visit_all T s (start new m net)) e ∙ all in
      let ended : rounds T (suc fuel) new m net
          ≡ returned (pos 1, (record v.m' { node_socket = put_socket new node socket }, v.net')) =
        ground (arith, here) in
      ended
      ∙ ap (λ s. returned (pos 1, (record v.m' { node_socket = s }, v.net'))) fresh
      ∙ ap (λ x. returned (pos 1, (x, v.net'))) (same_sockets v.m' (v.same.sockets ∙ e))

  -- ReplicateLog has returned 1, with the leader's log in both places.
  pub record IsCaughtUp (k fuel : ℕ) (new : List (NodePtr × Socket)) (m : ServerMetadata)
      (net : Net) : Type 0 where
    pub m' : ServerMetadata
    pub net' : Net
    pub run : rounds T fuel new m net ≡ returned (pos 1, (m', net'))
    pub log : m'.smr_log ≡ m.smr_log
    pub commits : m.commit_length ≤ℤ m'.commit_length
    pub size : m'.log_size ≡ m.log_size
    pub full :
        k < length m.smr_log → get_peer_size m ≡ 1 → IsOwn m → m'.log_size ≤ℤ m'.commit_length
    pub pair : Pair node i (length m.smr_log) (length m.smr_log) m' (peer net')

  -- What both have after this visit is committed by it, or after a later one.
  committed_next :
      (fuel k j : ℕ) (m : ServerMetadata) (net : Net)
      (v : IsVisited T node socket link i changed k j m net)
      (c : IsCaughtUp k fuel only v.m' v.net')
      → get_peer_size m ≡ 1
      → IsOwn m
      → c.m'.log_size ≤ℤ c.m'.commit_length
  unfolding get_peer_size
  committed_next fuel k j m net v c one own = elim (Bool-cases (ltb k (length v.m'.smr_log))) [
    | inl less ↦ c.full (ground (arith, less)) (ap length v.same.peers ∙ one) (v.same.own own)
    | inr all ↦
        let whole : k ≡ length m.smr_log =
          ground (arith, all, v.pair.leads.within, ap length v.same.log) in
        ground (arith, c.size, c.commits, v.full refl whole one own)
  ]

  caught_up_next :
      (k0 fuel k j : ℕ) (new : List (NodePtr × Socket)) (m : ServerMetadata) (net : Net)
      (v : IsVisited T node socket link i changed k j m net)
      → m.node_socket ≡ only
      → IsNew new
      → IsCaughtUp k fuel only v.m' v.net'
      → IsCaughtUp k0 (suc fuel) new m net
  caught_up_next k0 fuel k j new m net v e fresh c = record {
    m' = c.m';
    net' = c.net';
    run = rounds_changed fuel k j new m net v e fresh ∙ c.run;
    log = c.log ∙ v.same.log;
    commits = omega (arith, c.commits, v.same.commits);
    size = c.size ∙ v.same.size;
    full = λ _ one own. committed_next fuel k j m net v c one own;
    pair = subst (λ n. Pair node i n n c.m' (peer c.net')) (ap length v.same.log) c.pair;
  }

  forward :
      (gap fuel k j : ℕ) (new : List (NodePtr × Socket)) (m : ServerMetadata) (net : Net)
      → Pair node i k j m (peer net)
      → k + gap ≡ length m.smr_log
      → k ≤ j
      → gap < fuel
      → m.node_socket ≡ only
      → IsNew new
      → IsCaughtUp k fuel new m net
  forward gap zero k j new m net p span h enough e fresh = absurd (omega (arith, enough))
  forward zero (suc fuel) k j new m net p span h enough e fresh =
      let n : ℕ = length m.smr_log in
      let all : k ≡ n = omega (arith, span) in
      let whole : j ≡ n = omega (arith, all, h, p.follows.within) in
      let q : Pair node i n n m (peer net) =
        subst (λ x. Pair node i n x m (peer net)) whole
          (subst (λ x. Pair node i x j m (peer net)) all p) in
      let v = visit_done T node socket link i n m net q refl in
      record {
        m' = v.m';
        net' = v.net';
        run = rounds_kept fuel n n new m net v e fresh;
        log = v.same.log;
        commits = v.same.commits;
        size = v.same.size;
        full = λ less. absurd (omega (arith, less, all));
        pair = v.pair;
      }
  forward (suc gap) (suc fuel) k j new m net p span h enough e fresh =
      let (j', h', v) = visit_next T node socket link i k j m net p h (omega (arith, span)) in
      caught_up_next k fuel (k + 1) j' new m net v e fresh (
        forward gap fuel (k + 1) j' only v.m' v.net' v.pair
          (omega (arith, span, ap length v.same.log)) h' (omega (arith, enough))
          (v.same.sockets ∙ e) put_only)

  back :
      (d fuel k j : ℕ) (new : List (NodePtr × Socket)) (m : ServerMetadata) (net : Net)
      → Pair node i k j m (peer net)
      → k ≡ j + d
      → k < length m.smr_log
      → d + length m.smr_log < fuel + j
      → m.node_socket ≡ only
      → IsNew new
      → IsCaughtUp k fuel new m net
  back d zero k j new m net p span more enough e fresh = absurd (omega (arith, span, more, enough))
  back zero (suc fuel) k j new m net p span more enough e fresh =
      forward (length m.smr_log - k) (suc fuel) k j new m net p (omega (arith, more))
        (omega (arith, span)) (omega (arith, enough, span)) e fresh
  back (suc d) (suc fuel) zero j new m net p span more enough e fresh = absurd (omega (arith, span))
  back (suc d) (suc fuel) (suc k) j new m net p span more enough e fresh =
      let v = visit_back T node socket link i k j m net p (omega (arith, span)) more in
      caught_up_next (suc k) fuel k j new m net v e fresh (
        back d fuel k j only v.m' v.net' v.pair (omega (arith, span))
          (omega (arith, more, ap length v.same.log)) (omega (arith, enough, ap length v.same.log))
          (v.same.sockets ∙ e) put_only)

  pub caught_up :
      (fuel k j : ℕ) (m : ServerMetadata) (net : Net)
      → m.node_socket ≡ only
      → Pair node i k j m (peer net)
      → (k < length m.smr_log) ⊎ (j ≡ length m.smr_log)
      → length m.smr_log * 2 < fuel
      → IsCaughtUp k fuel [] m net
  caught_up fuel k j m net e p more enough = elim (Bool-cases (ltb j k)) [
    | inl ahead ↦
        back (k - j) fuel k j [] m net p (ground (arith, ahead))
          (ground (arith, ahead, more, p.leads.within))
          (ground (arith, ahead, enough, more, p.leads.within)) e IsNew-nil
    | inr level ↦
        forward (length m.smr_log - k) fuel k j [] m net p (omega (arith, p.leads.within))
          (ground (arith, level)) (omega (arith, enough)) e IsNew-nil
  ]

  -- The end of ReplicateLog: both servers have the leader's log, which has not changed.
  pub record IsReplicated (fuel : ℕ) (m : ServerMetadata) (net : Net) : Type 0 where
    pub m' : ServerMetadata
    pub net' : Net
    pub run : replicate_log T fuel m net ≡ returned (pos 1, (m', net'))
    pub log : m'.smr_log ≡ m.smr_log
    pub peer_log : (peer net').smr_log ≡ m.smr_log

  replicated :
      (fuel k : ℕ) (m : ServerMetadata) (net : Net)
      → m.failed_neighbors ≡ []
      → IsCaughtUp k fuel [] m net
      → IsReplicated fuel m net
  unfolding replicate_log
  replicated fuel k m net idle c = record {
    m' = c.m';
    net' = c.net';
    run = rw (try_reconnect_idle T m net idle) c.run;
    log = c.log;
    peer_log = c.pair.follows.begins ∙ ap (take (length m.smr_log)) c.log ∙ take-length m.smr_log;
  }

  -- If a sound leader in whose log no entry has the term -1 and all numbers of which are ints has
  -- no failed neighbour and one connection, over which each request is answered by GetLogResponse
  -- of a sound server that is no newer, has an int other than -1 as its id, and has the beginning
  -- of the leader's log, and the leader has not sent its whole log yet or the server has it, then
  -- ReplicateLog returns 1 with more than twice as much fuel as entries, whatever length the
  -- leader takes for sent; the leader's log is as it was, and the server has it.
  pub replicate_log_catches_up :
      (fuel k j : ℕ) (m : ServerMetadata) (net : Net)
      → m.failed_neighbors ≡ []
      → m.node_socket ≡ only
      → Pair node i k j m (peer net)
      → (k < length m.smr_log) ⊎ (j ≡ length m.smr_log)
      → length m.smr_log * 2 < fuel
      → IsReplicated fuel m net
  replicate_log_catches_up fuel k j m net idle e p more enough =
      replicated fuel k m net idle (caught_up fuel k j m net e p more enough)

  -- With one neighbour, and a leader that has acknowledged its own log, what is sent is committed.
  pub replicate_log_commits :
      (fuel k j : ℕ) (m : ServerMetadata) (net : Net)
      → m.failed_neighbors ≡ []
      → m.node_socket ≡ only
      → Pair node i k j m (peer net)
      → k < length m.smr_log
      → length m.smr_log * 2 < fuel
      → get_peer_size m ≡ 1
      → IsOwn m
      → (r : IsReplicated fuel m net) × (r.m'.log_size ≡ m.log_size)
        × (m.log_size ≤ℤ r.m'.commit_length)
  unfolding replicated
  replicate_log_commits fuel k j m net idle e p more enough one own =
      let c = caught_up fuel k j m net e p (inl more) enough in
      (replicated fuel k m net idle c, c.size, ground (arith, c.size, c.full more one own))

  -- If a sound leader in whose log no entry has the term -1 and all numbers of which are ints has
  -- no failed neighbour and one connection, over which each request is answered by GetLogResponse
  -- of a sound server that is no newer, has an int other than -1 as its id, and has the beginning
  -- of the leader's log, but not all of it, and the leader takes its whole log for sent, then
  -- ReplicateLog returns 1 in its first round and leaves the leader and the log of the server as
  -- they were.
  pub lagging_server_ignored :
      (fuel j : ℕ) (m : ServerMetadata) (net : Net)
      → m.failed_neighbors ≡ []
      → m.node_socket ≡ only
      → Pair node i (length m.smr_log) j m (peer net)
      → j < length m.smr_log
      → (net' : Net) × (replicate_log T (suc fuel) m net ≡ returned (pos 1, (m, net')))
        × ((peer net').smr_log ≡ take j m.smr_log)
  unfolding replicate_log
  lagging_server_ignored fuel j m net idle e p less =
      let n : ℕ = length m.smr_log in
      let (v, same) = visit_ignored T node socket link i n j m net p refl less in
      (
        v.net',
        rw (try_reconnect_idle T m net idle) (rounds_kept fuel n j [] m net v e IsNew-nil)
            ∙ ap (λ x. returned (pos 1, (x, v.net'))) same,
        v.pair.follows.begins ∙ ap (λ x. take j x.smr_log) same,
      )
