-- ===== src/Tests/Replication.antt =====
-- A leader and a follower over the network of Tests/Link, and the theorems on what reaches the follower.
use raft_distributed_kv.Prelude.{
  ℕ, inl, ◌++◌, ◌+ℤ◌, get_elem?, returned, ◌≤◌, ◌≡◌, ◌≢◌, refl, none, some, [], ◌∷◌, pos, arith,
  IsInt, minus_one,
}
use raft_distributed_kv.Words.RoundTrip.{All-get_elem?}
use raft_distributed_kv.Metadata.{
  ServerMetadata, MapOp, follower, at, find, put, get_value, get_peer_size,
}
use raft_distributed_kv.Metadata.Invariant.{replay, apply}
use raft_distributed_kv.Factory.{leader_maintain_log}
use raft_distributed_kv.Factory.Replicated.{IsOrder, order_replicated, order_committed}
use raft_distributed_kv.Tests.Leader.{leading, op, peer}
use raft_distributed_kv.Rpc.Transport.{send_identifier}
use raft_distributed_kv.Rpc.Replicate.{replicate_log}
use raft_distributed_kv.Rpc.Replicate.CatchUp.{Pair}
use raft_distributed_kv.Rpc.Replicate.CatchUp.Rejoin.{rejoined_server_recovers}
use raft_distributed_kv.Rpc.Replicate.CatchUp.Rounds.{
  IsReplicated, replicate_log_catches_up, lagging_server_ignored,
}
use raft_distributed_kv.Rpc.Replicate.Keeps.{IsLeading, frame-IsLeading}
use raft_distributed_kv.Rpc.Replicate.Leads.{Leads}
use raft_distributed_kv.Tests.Link.{Wire, wire, linked}

-- Server 0 leads server 1 in term 3 and takes two of its three entries for sent; server 1 has the
-- first only, of term 1.
abbrev boss : ServerMetadata
boss = record leading {
  sent_length = some (pos 2 ∷ pos 3 ∷ []);
  ack_length = some (pos 2 ∷ pos 3 ∷ []);
  server_index_map = (pos 1, pos 0) ∷ [];
  neighbors = peer 1 ∷ [];
  node_socket = (peer 1, 5) ∷ [];
}

abbrev pupil : ServerMetadata
pupil = record leading {
  leader_id = minus_one;
  factory_id = pos 1;
  current_term = pos 1;
  status = follower;
  log_size = pos 1;
  voted_for = minus_one;
  vote_received = [];
  sent_length = none;
  ack_length = none;
  smr_log = op 1 7 0 ∷ [];
}

abbrev start : Wire
start = record { server = pupil; inbox = [] }

boss-IsLeading : IsLeading boss
unfolding replay apply put get_peer_size
boss-IsLeading = record {
  sound = record { valid = ground arith; applied = refl };
  room = omega arith;
  acks = pos 2 ∷ pos 3 ∷ [];
  has = record { allocated = refl; servers = refl };
}

small-IsInt : (n : ℕ) → n ≤ 100 → IsInt (pos n)
small-IsInt n h = record { above = omega arith; below = omega (arith, h) }

-- An entry of a term that is no mark of a heartbeat, with numbers that are ints.
abbrev IsEntry : MapOp → Type 0
IsEntry e = (e.term ≢ minus_one) × IsInt e.term × IsInt e.arg1 × IsInt e.arg2

op-IsEntry : (t c o : ℕ) → t ≤ 100 → c ≤ 100 → o ≤ 100 → IsEntry (op t c o)
op-IsEntry t c o h h' h'' =
    ((λ e. ground (arith, e)), small-IsInt t h, small-IsInt c h', small-IsInt o h'')

boss-entries : (n : ℕ) (e : MapOp) → get_elem? boss.smr_log n ≡ some e → IsEntry e
boss-entries n e h =
    All-get_elem? IsEntry boss.smr_log n e
      (
        op-IsEntry 1 7 0 (omega arith) (omega arith) (omega arith),
        (
          op-IsEntry 2 8 4 (omega arith) (omega arith) (omega arith),
          (op-IsEntry 3 7 1 (omega arith) (omega arith) (omega arith), tt),
        ),
      )
      h

boss-Leads : Leads (peer 1) (pos 0) 2 boss
unfolding find get_peer_size at
boss-Leads = record {
  leading = boss-IsLeading;
  role = refl;
  index = refl;
  sent = pos 2 ∷ pos 3 ∷ [];
  allocated = refl;
  places = refl;
  length_sent = refl;
  within = omega arith;
  other = λ e. ground (arith, e);
  ints = record {
    server = record { above = omega arith; below = omega arith };
    term = record { above = omega arith; below = omega arith };
    entry = λ n e h. let p = boss-entries n e h in (p.1, p.2, p.3);
  };
  terms = record { entry = λ n e h. (boss-entries n e h).0 };
}

boss-Pair : Pair (peer 1) (pos 0) 2 1 boss pupil
unfolding replay apply put
boss-Pair = record {
  leads = boss-Leads;
  follows = record {
    sound = record { valid = ground arith; applied = refl };
    begins = refl;
    within = omega arith;
  };
  older = omega arith;
  named = λ e. ground (arith, e);
  id = record { above = omega arith; below = omega arith };
}

replicate_log_catches_up_example : IsReplicated wire (peer 1) 5 (linked 5) (pos 0) 7 boss start
replicate_log_catches_up_example =
    replicate_log_catches_up wire (peer 1) 5 (linked 5) (pos 0) 7 2 1 boss start refl refl boss-Pair
      (inl (omega arith)) (omega arith)

-- Customer 9 orders for the second time.
boss-IsOrder : IsOrder boss (pos 9) (pos 2)
unfolding ◌+ℤ◌
boss-IsOrder = record {
  customer = record { above = omega arith; below = omega arith };
  number = record { above = omega arith; below = omega arith };
  term = λ e. ground (arith, e);
  room = omega arith;
}

order_replicated_example :
    (m' : ServerMetadata) × (w' : Wire) × (leader_maintain_log wire 9 (pos 9) (pos 2) boss start
      ≡ returned (pos 1, (m', w')))
    × (m'.smr_log ≡ boss.smr_log ++ op 3 9 2 ∷ [])
    × (w'.server.smr_log ≡ boss.smr_log ++ op 3 9 2 ∷ [])
order_replicated_example =
    order_replicated wire (peer 1) 5 (linked 5) (pos 0) 9 2 1 (pos 9) (pos 2) boss start refl refl
      boss-Pair boss-IsOrder (omega arith)

order_committed_example :
    (m' : ServerMetadata) × (w' : Wire) × (leader_maintain_log wire 9 (pos 9) (pos 2) boss start
      ≡ returned (pos 1, (m', w')))
    × (w'.server.smr_log ≡ m'.smr_log)
    × (m'.commit_length ≡ m'.log_size)
    × (get_value m' (pos 9) ≡ pos 2)
unfolding get_peer_size
order_committed_example =
    order_committed wire (peer 1) 5 (linked 5) (pos 0) 9 2 1 (pos 9) (pos 2) boss start refl refl
      refl boss-Pair boss-IsOrder (omega arith)

-- A leader that takes its whole log for sent, as after InitLeader.
abbrev sure : ServerMetadata
sure = record boss { sent_length = some (pos 3 ∷ pos 3 ∷ []) }

sure-Pair : Pair (peer 1) (pos 0) 3 1 sure pupil
unfolding at boss-Leads get_peer_size
sure-Pair = record {
  leads = record {
    leading = frame-IsLeading boss sure (ground arith) boss-IsLeading;
    role = refl;
    index = boss-Leads.index;
    sent = pos 3 ∷ pos 3 ∷ [];
    allocated = refl;
    places = boss-Leads.places;
    length_sent = refl;
    within = omega arith;
    other = boss-Leads.other;
    ints = record {
      server = boss-Leads.ints.server;
      term = boss-Leads.ints.term;
      entry = boss-Leads.ints.entry;
    };
    terms = record { entry = boss-Leads.terms.entry };
  };
  follows = boss-Pair.follows;
  older = boss-Pair.older;
  named = boss-Pair.named;
  id = boss-Pair.id;
}

lagging_server_ignored_example :
    (w' : Wire) × (replicate_log wire 1 sure start ≡ returned (pos 1, (sure, w')))
    × (w'.server.smr_log ≡ op 1 7 0 ∷ [])
lagging_server_ignored_example =
    lagging_server_ignored wire (peer 1) 5 (linked 5) (pos 0) 0 1 sure start refl refl sure-Pair
      (omega arith)

-- After CleanNodeState: nothing counts as sent to server 1, which comes back with nothing.
abbrev alone : ServerMetadata
alone = record boss {
  sent_length = some (pos 0 ∷ pos 3 ∷ []);
  ack_length = some (pos 0 ∷ pos 3 ∷ []);
  node_socket = [];
  failed_neighbors = peer 1 ∷ [];
}

abbrev newcomer : ServerMetadata
newcomer = record pupil {
  current_term = pos 0;
  commit_length = pos 0;
  log_size = pos 0;
  customer_record = [];
  smr_log = [];
}

alone-Pair : Pair (peer 1) (pos 0) 0 0 alone newcomer
unfolding at find get_peer_size replay apply put
alone-Pair = record {
  leads = record {
    leading = record {
      sound = record { valid = ground arith; applied = refl };
      room = omega arith;
      acks = pos 0 ∷ pos 3 ∷ [];
      has = record { allocated = refl; servers = refl };
    };
    role = refl;
    index = refl;
    sent = pos 0 ∷ pos 3 ∷ [];
    allocated = refl;
    places = refl;
    length_sent = refl;
    within = omega arith;
    other = boss-Leads.other;
    ints = record {
      server = boss-Leads.ints.server;
      term = boss-Leads.ints.term;
      entry = boss-Leads.ints.entry;
    };
    terms = record { entry = boss-Leads.terms.entry };
  };
  follows = record {
    sound = record { valid = ground arith; applied = refl };
    begins = refl;
    within = omega arith;
  };
  older = omega arith;
  named = λ e. ground (arith, e);
  id = record { above = omega arith; below = omega arith };
}

rejoined_server_recovers_example :
    IsReplicated wire
      (peer 1)
      5
      (linked 5)
      (pos 0)
      7
      alone
      (record { server = newcomer; inbox = [] })
unfolding send_identifier
rejoined_server_recovers_example =
    rejoined_server_recovers wire (peer 1) 5 (linked 5) (pos 0) 7 0 0 alone
      (record { server = newcomer; inbox = [] }) (record { server = newcomer; inbox = [] }) refl
      refl refl alone-Pair (inl (omega arith)) (omega arith)
