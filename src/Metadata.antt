-- ===== src/Metadata.antt =====
-- The state of a server: ServerMetadata.h, and the constructor, the getters and the small setters of
-- ServerMetadata.cpp. The operations stand in the modules below.
pub mod Log
pub mod Vote
pub mod Commit
pub mod Append
pub mod Membership
pub mod Ints
pub mod Invariant
pub mod Grown
use raft_distributed_kv.Prelude.{
  ℕ, zero, suc, ◌+◌, ◌<◌, ◌≡◌, List, [], ◌∷◌, ◌++◌, Option, none, some, ◌>>=◌, Bool, true, false,
  ◌||◌, ◌&&◌, not, if◌then◌else◌, length, get_elem?, set, ltb, ℤ, pos, minus_one, pos_part, ◌+ℤ◌,
  ◌-ℤ◌, ltb_ℤ, leb_ℤ, ◌==ℤ◌, int_max, int_min,
}

-- FOLLOWER, LEADER, CANDIDATE
pub data Status : Type 0 where
  follower leader candidate : Status

pub record ServerNode : Type 0 where
  pub id : ℤ
  pub ip : List ℕ
  pub port : ℤ

-- A shared_ptr<ServerNode>: the address orders the keys of `node_socket`.
pub record NodePtr : Type 0 where
  pub address : ℕ
  pub node : ServerNode
  pub open node use *

-- A shared_ptr<ClientSocket>, by the number of the connection.
abbrev pub Socket : Type 0
Socket = ℕ

pub record MapOp : Type 0 where
  pub term : ℤ
  pub arg1 : ℤ
  pub arg2 : ℤ

-- A std::map<int, int>, which the program never iterates over.
abbrev pub IntMap : Type 0
IntMap = List (ℤ × ℤ)

-- `sent_length` and `ack_length` are pointers that nothing sets before InitLeader: `none`.
pub record ServerMetadata : Type 0 where
  pub leader_id : ℤ
  pub factory_id : ℤ
  pub current_term : ℤ
  pub status : Status
  pub commit_length : ℤ
  pub log_size : ℤ
  pub voted_for : ℤ
  pub vote_received : List ℤ
  pub sent_length : Option (List ℤ)
  pub ack_length : Option (List ℤ)
  pub heartbeat : Bool
  pub customer_record : IntMap
  pub smr_log : List MapOp
  pub server_index_map : IntMap
  pub neighbors : List NodePtr
  pub node_socket : List (NodePtr × Socket)
  pub failed_neighbors : List NodePtr

-- ServerMetadata()
unfoldable pub init : ServerMetadata
init = record {
  leader_id = minus_one;
  factory_id = minus_one;
  current_term = pos 0;
  status = follower;
  commit_length = pos 0;
  log_size = pos 0;
  voted_for = minus_one;
  vote_received = [];
  sent_length = none;
  ack_length = none;
  heartbeat = false;
  customer_record = [];
  smr_log = [];
  server_index_map = [];
  neighbors = [];
  node_socket = [];
  failed_neighbors = [];
}

-- The result of an `int` operation; one that does not fit is undefined behaviour.
unfoldable pub checked : ℤ → Option ℤ
checked z = if leb_ℤ int_min z && leb_ℤ z int_max then some z else none

-- `xs[i]` and `xs[i] = v` on a vector or an array; out of bounds is undefined behaviour.
unfoldable pub at {ℓ} : {A : Type ℓ} → List A → ℤ → Option A
at xs i = if ltb_ℤ i (pos 0) then none else get_elem? xs (pos_part i)

unfoldable pub assign {ℓ} : {A : Type ℓ} → List A → ℤ → A → Option (List A)
assign xs i v =
    if ltb_ℤ i (pos 0) || not (ltb (pos_part i) (length xs))
    then none
    else some (set xs (pos_part i) v)

-- `m.find(k)`, and `m[k] = v`.
unfoldable pub find : IntMap → ℤ → Option ℤ
find [] k = none
find ((j, v) ∷ m) k = if j ==ℤ k then some v else find m k

unfoldable pub put : IntMap → ℤ → ℤ → IntMap
put [] k v = (k, v) ∷ []
put ((j, w) ∷ m) k v = if j ==ℤ k then (k, v) ∷ m else (j, w) ∷ put m k v

-- `m[k]` as a value, with the map that is left: a missing key is inserted with the value 0.
unfoldable pub value_at : IntMap → ℤ → ℤ × IntMap
value_at m k = elim (find m k) [ none ↦ (pos 0, put m k (pos 0)) | some v ↦ (v, m) ]

-- `s.insert(k)` on a std::set<int>.
unfoldable pub contains : List ℤ → ℤ → Bool
contains [] k = false
contains (j ∷ s) k = j ==ℤ k || contains s k

unfoldable pub insert : List ℤ → ℤ → List ℤ
insert s k = if contains s k then s else k ∷ s

unfoldable pub get_peer_size : ServerMetadata → ℕ
get_peer_size m = length m.neighbors

unfoldable pub get_value : ServerMetadata → ℤ → ℤ
get_value m customer_id = elim (find m.customer_record customer_id) [
  | none ↦ minus_one
  | some order_num ↦ order_num
]

unfoldable pub get_op : ServerMetadata → ℤ → Option MapOp
get_op m idx = at m.smr_log idx

unfoldable pub get_term_at_idx : ServerMetadata → ℤ → Option ℤ
get_term_at_idx m idx =
    if ltb_ℤ idx (pos 0) then some minus_one else do op ← at m.smr_log idx; some op.term

unfoldable pub get_last_term : ServerMetadata → Option ℤ
get_last_term m =
    if m.log_size ==ℤ pos 0
    then some (pos 0)
    else do last ← checked (m.log_size -ℤ pos 1); op ← at m.smr_log last; some op.term

unfoldable pub get_prefix_term : ServerMetadata → ℤ → Option ℤ
get_prefix_term m prefix_length =
    if ltb_ℤ (pos 0) prefix_length then get_term_at_idx m (prefix_length -ℤ pos 1) else some (pos 0)

-- `return voted_for` as a bool: whether it is not 0.
unfoldable pub get_voted_for : ServerMetadata → Bool
get_voted_for m = not (m.voted_for ==ℤ pos 0)

-- -1 if no leader is known, else whether this server is the leader.
unfoldable pub is_leader : ServerMetadata → ℤ
is_leader m =
    if m.leader_id ==ℤ minus_one
    then minus_one
    else (if m.leader_id ==ℤ m.factory_id then pos 1 else pos 0)

-- GetLeader: the first neighbour that has the leader's id; `none` is nullptr.
unfoldable pub find_node : List NodePtr → ℤ → Option NodePtr
find_node [] leader_id = none
find_node (nei ∷ rest) leader_id =
    if nei.id ==ℤ leader_id then some nei else find_node rest leader_id

unfoldable pub get_leader : ServerMetadata → Option NodePtr
get_leader m = find_node m.neighbors m.leader_id

-- `leader->ip` and `leader->port` through a null pointer are undefined behaviour.
unfoldable pub get_leader_ip : ServerMetadata → Option (List ℕ)
get_leader_ip m = do nei ← get_leader m; some nei.ip

unfoldable pub get_leader_port : ServerMetadata → Option ℤ
get_leader_port m = do nei ← get_leader m; some nei.port
