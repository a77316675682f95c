-- ===== src/Factory/Replicated.antt =====
-- An order of a customer on a leader with one connection: LeaderMaintainLog up to the log of the other
-- server.
use raft_distributed_kv.Prelude.{
  ℕ, ◌+◌, ◌*◌, ◌<◌, ◌≡◌, ◌≢◌, refl, ap, sym, ◌∙◌, inl, inr, some, List, [], ◌∷◌, ◌++◌, length,
  length-append, take, take-length, pos_part, arith, ℤ, pos, minus_one, ◌+ℤ◌, ◌<ℤ◌, eq_of_parts,
  int_max, IsInt, returned, get_elem?-append_cases,
}
use raft_distributed_kv.Metadata.{
  ServerMetadata, MapOp, NodePtr, Socket, IntMap, at, find, put, get_value, get_peer_size,
}
use raft_distributed_kv.Metadata.Ints.{at_in_range, assign_in_range}
use raft_distributed_kv.Metadata.Invariant.{IsSound, apply, replay, replay-append, take-append}
use raft_distributed_kv.Metadata.Append.Prefix.{Follows}
use raft_distributed_kv.Metadata.Log.{append_log}
use raft_distributed_kv.Metadata.Log.Keeps.{
  append_log_lem, append_log_total, append_log-IsValid, append_log-IsApplied,
}
use raft_distributed_kv.Metadata.Vote.{set_ack_length}
use raft_distributed_kv.Rpc.Transport.{Transport}
use raft_distributed_kv.Rpc.Replicate.{replicate_log}
use raft_distributed_kv.Rpc.Replicate.Keeps.{IsLeading, set_arrays-IsLeading}
use raft_distributed_kv.Rpc.Replicate.Leads.{Leads}
use raft_distributed_kv.Rpc.Replicate.Leads.Answers.{IsOwn}
use raft_distributed_kv.Rpc.Replicate.CatchUp.{IsLinked, Pair}
use raft_distributed_kv.Rpc.Replicate.CatchUp.Rounds.{
  replicate_log_catches_up, replicate_log_commits,
}
use raft_distributed_kv.Factory.{leader_maintain_log}
use raft_distributed_kv.Factory.Orders.{leader_maintain_log-IsLogged}

-- The order as an entry.
abbrev pub order_entry : ServerMetadata → ℤ → ℤ → MapOp
order_entry m customer_id order_num = record {
  term = m.current_term;
  arg1 = customer_id;
  arg2 = order_num;
}

-- The state in which LeaderMaintainLog calls ReplicateLog.
abbrev ordered : ServerMetadata → ℤ → ℤ → List ℤ → List ℤ → ServerMetadata
ordered m customer_id order_num sent acks = record m {
  smr_log = m.smr_log ++ order_entry m customer_id order_num ∷ [];
  log_size = m.log_size +ℤ pos 1;
  sent_length = some sent;
  ack_length = some acks;
}

-- An order that a leader can log and send.
pub record IsOrder (m : ServerMetadata) (customer_id order_num : ℤ) : Type 0 where
  pub customer : IsInt customer_id
  pub number : IsInt order_num
  pub term : m.current_term ≢ minus_one
  pub room : m.log_size +ℤ pos 1 <ℤ int_max

module _ (m : ServerMetadata) (customer_id order_num : ℤ)
    (o : IsOrder m customer_id order_num) where
  abbrev a : ServerMetadata
  a = record m {
    smr_log = m.smr_log ++ order_entry m customer_id order_num ∷ [];
    log_size = m.log_size +ℤ pos 1;
  }

  appended : IsLeading m → append_log m m.current_term customer_id order_num ≡ some a
  appended l =
      let (a0, run) =
        append_log_total m m.current_term customer_id order_num l.sound.valid l.room in
      run ∙ ap some (append_log_lem m m.current_term customer_id order_num a0 run)

  appended-IsLeading : IsLeading m → IsLeading a
  unfolding get_peer_size
  appended-IsLeading l = record {
    sound = record {
      valid =
          append_log-IsValid m m.current_term customer_id order_num a (appended l) l.sound.valid;
      applied =
          append_log-IsApplied m m.current_term customer_id order_num a (appended l) l.sound.valid
            l.sound.applied;
    };
    room = o.room;
    acks = l.acks;
    has = record { allocated = l.has.allocated; servers = l.has.servers };
  }

  acked :
      (sent : List ℤ) (l : IsLeading m)
      → m.sent_length ≡ some sent
      → (acks : List ℤ) × (set_ack_length a minus_one a.log_size
          ≡ some (ordered m customer_id order_num sent acks))
        × (at acks (pos (get_peer_size m)) ≡ some a.log_size)
        × (length acks ≡ length l.acks)
  unfolding set_ack_length get_peer_size
  acked sent l e =
      let (x, place) =
        at_in_range l.acks (pos (get_peer_size m)) (omega arith) (ground (arith, l.has.servers)) in
      let (acks, run, own, long) =
        assign_in_range l.acks (pos (get_peer_size m)) x l.acks a.log_size place refl in
      (acks, ground (arith, l.has.allocated, run, e), own, long)

  ordered-Leads :
      (node : NodePtr) (i : ℤ) (k : ℕ) (l : Leads node i k m) (acks : List ℤ)
      → length acks ≡ length l.leading.acks
      → Leads node i k (ordered m customer_id order_num l.sent acks)
  unfolding get_peer_size
  ordered-Leads node i k l acks long = record {
    leading =
        set_arrays-IsLeading a l.sent acks (appended-IsLeading l.leading)
          (long ∙ l.leading.has.servers ∙ sym (appended-IsLeading l.leading).has.servers);
    role = l.role;
    index = l.index;
    sent = l.sent;
    allocated = refl;
    places = l.places;
    other = l.other;
    length_sent = l.length_sent;
    within =
        omega (arith, l.within, length-append m.smr_log (order_entry m customer_id order_num ∷ []));
    ints = record {
      server = l.ints.server;
      term = l.ints.term;
      entry = λ n op e.
          elim (get_elem?-append_cases m.smr_log (order_entry m customer_id order_num) n op e) [
            | inl old ↦ l.ints.entry n op old
            | inr new ↦ rw new (l.ints.term, o.customer, o.number)
          ];
    };
    terms = record {
      entry = λ n op e.
          elim (get_elem?-append_cases m.smr_log (order_entry m customer_id order_num) n op e) [
            | inl old ↦ l.terms.entry n op old
            | inr new ↦ rw new o.term
          ];
    };
  }

find-put : (r : IntMap) (c o : ℤ) → find (put r c o) c ≡ some o
unfolding find put
find-put [] c o = ground arith
find-put ((j, w) ∷ r) c o = ground (arith, find-put r c o)

-- With the whole log committed, the last entry is in the state machine.
applied_last :
    (m : ServerMetadata) (log : List MapOp) (op : MapOp)
    → IsSound m
    → m.commit_length ≡ m.log_size
    → m.smr_log ≡ log ++ op ∷ []
    → get_value m op.arg1 ≡ op.arg2
unfolding get_value apply
applied_last m log op s full e =
    let whole : pos_part m.commit_length ≡ length m.smr_log = ground (arith, full, s.valid.sized) in
    let table : m.customer_record ≡ put (replay [] log) op.arg1 op.arg2 =
      s.applied
      ∙ ap (λ n. replay [] (take n m.smr_log)) whole
      ∙ ap (replay []) (take-length m.smr_log ∙ e)
      ∙ replay-append [] log op in
    let found : find m.customer_record op.arg1 ≡ some op.arg2 =
      ap (λ r. find r op.arg1) table ∙ find-put (replay [] log) op.arg1 op.arg2 in
    ground (arith, found)

-- The follower's log is the beginning of the longer log as well.
Follows-append :
    (log : List MapOp) (op : MapOp) (j : ℕ) (f : ServerMetadata)
    → Follows log j f
    → Follows (log ++ op ∷ []) j f
Follows-append log op j f h = record {
  sound = h.sound;
  begins = h.begins ∙ sym (take-append j log op (omega (arith, h.within)));
  within = omega (arith, h.within, length-append log (op ∷ []));
}

module _ (T : Transport) (node : NodePtr) (socket : Socket) (link : IsLinked T socket) (i : ℤ) where
  open T use {Net}
  open link use {peer}

  -- How LeaderMaintainLog starts: the order is logged and acknowledged by the leader itself.
  record IsOrdered (k j : ℕ) (customer_id order_num : ℤ) (m : ServerMetadata) (net : Net)
      : Type 0 where
    pub sent : List ℤ
    pub acks : List ℤ
    pub run :
        (fuel : ℕ)
        → leader_maintain_log T fuel customer_id order_num m net
          ≡ replicate_log T fuel (ordered m customer_id order_num sent acks) net
    pub pair : Pair node i k j (ordered m customer_id order_num sent acks) (peer net)
    pub own : IsOwn (ordered m customer_id order_num sent acks)

  order_starts :
      (k j : ℕ) (customer_id order_num : ℤ) (m : ServerMetadata) (net : Net)
      → Pair node i k j m (peer net)
      → IsOrder m customer_id order_num
      → IsOrdered k j customer_id order_num m net
  unfolding leader_maintain_log get_peer_size
  order_starts k j customer_id order_num m net p o =
      let l = p.leads in
      let (acks, run, own, long) = acked m customer_id order_num o l.sent l.leading l.allocated in
      record {
        sent = l.sent;
        acks = acks;
        run = λ fuel. ground (arith, appended m customer_id order_num o l.leading, run);
        pair = record {
          leads = ordered-Leads m customer_id order_num o node i k l acks long;
          follows =
              Follows-append m.smr_log (order_entry m customer_id order_num) j (peer net) p.follows;
          older = p.older;
          named = p.named;
          id = p.id;
        };
        own = record { acks = acks; allocated = refl; place = own };
      }

  -- If a sound leader in whose log no entry has the term -1 and all numbers of which are ints has
  -- no failed neighbour and one connection, over which each request is answered by GetLogResponse
  -- of a sound server that is no newer, has an int other than -1 as its id, and has the beginning
  -- of the leader's log, its term is not -1, and the order's numbers are ints and fit into its
  -- log, then LeaderMaintainLog returns 1 with more than twice as much fuel as entries and two
  -- more, and both logs are the leader's former log with the order at its end, in a cluster of
  -- any size.
  pub order_replicated :
      (fuel k j : ℕ) (customer_id order_num : ℤ) (m : ServerMetadata) (net : Net)
      → m.failed_neighbors ≡ []
      → m.node_socket ≡ (node, socket) ∷ []
      → Pair node i k j m (peer net)
      → IsOrder m customer_id order_num
      → length m.smr_log * 2 + 2 < fuel
      → (m' : ServerMetadata) × (net' : Net) × (leader_maintain_log T fuel customer_id order_num m
            net
          ≡ returned (pos 1, (m', net')))
        × (m'.smr_log ≡ m.smr_log ++ order_entry m customer_id order_num ∷ [])
        × ((peer net').smr_log ≡ m.smr_log ++ order_entry m customer_id order_num ∷ [])
  order_replicated fuel k j customer_id order_num m net idle e p o enough =
      let b = order_starts k j customer_id order_num m net p o in
      let size = length-append m.smr_log (order_entry m customer_id order_num ∷ []) in
      let r =
        replicate_log_catches_up T node socket link i fuel k j _ net idle e b.pair
          (inl (omega (arith, p.leads.within, size))) (omega (arith, enough, size)) in
      (r.m', r.net', b.run fuel ∙ r.run, r.log, r.peer_log)

  -- If a sound leader in whose log no entry has the term -1 and all numbers of which are ints has
  -- no failed neighbour and one connection, over which each request is answered by GetLogResponse
  -- of a sound server that is no newer, has an int other than -1 as its id, and has the beginning
  -- of the leader's log, the leader has one neighbour, its term is not -1, and the order's
  -- numbers are ints and fit into its log, then LeaderMaintainLog returns 1 with more than twice
  -- as much fuel as entries and two more; the server then has the leader's log, all of it is
  -- committed, and GetValue of the customer at the leader is the number of the order.
  pub order_committed :
      (fuel k j : ℕ) (customer_id order_num : ℤ) (m : ServerMetadata) (net : Net)
      → m.failed_neighbors ≡ []
      → m.node_socket ≡ (node, socket) ∷ []
      → get_peer_size m ≡ 1
      → Pair node i k j m (peer net)
      → IsOrder m customer_id order_num
      → length m.smr_log * 2 + 2 < fuel
      → (m' : ServerMetadata) × (net' : Net) × (leader_maintain_log T fuel customer_id order_num m
            net
          ≡ returned (pos 1, (m', net')))
        × ((peer net').smr_log ≡ m'.smr_log)
        × (m'.commit_length ≡ m'.log_size)
        × (get_value m' customer_id ≡ order_num)
  unfolding get_peer_size
  order_committed fuel k j customer_id order_num m net idle e one p o enough =
      let b = order_starts k j customer_id order_num m net p o in
      let size = length-append m.smr_log (order_entry m customer_id order_num ∷ []) in
      let (r, length_kept, all) =
        replicate_log_commits T node socket link i fuel k j _ net idle e b.pair
          (omega (arith, p.leads.within, size)) (omega (arith, enough, size)) one b.own in
      let run = b.run fuel ∙ r.run in
      let logged =
        leader_maintain_log-IsLogged T fuel customer_id order_num (pos 1) m r.m' net r.net' run
          p.leads.leading.sound in
      let v = logged.sound.valid in
      let full : r.m'.commit_length ≡ r.m'.log_size =
        eq_of_parts _ _ (ground (arith, all, length_kept, v.committed_high)) in
      (
        r.m',
        r.net',
        run,
        r.peer_log ∙ sym r.log,
        full,
        applied_last r.m' m.smr_log (order_entry m customer_id order_num) logged.sound full
            logged.log,
      )
