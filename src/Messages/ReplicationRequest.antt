-- ===== src/Messages/ReplicationRequest.antt =====
-- ReplicationRequest of Messages.h and Messages.cpp.
use raft_distributed_kv.Prelude.{
  arith, ℕ, ◌+◌, ◌≤◌, ◌≡◌, refl, List, [], ◌∷◌, Bool, not, length, ℤ, ◌==ℤ◌, IsInt, minus_one,
}
use raft_distributed_kv.Words.{Bytes, sizeof_int, get_int, put_ints}
use raft_distributed_kv.Words.RoundTrip.{All, field_at}
use raft_distributed_kv.Messages.Codec.{Codec, Agree, get_int-Agree}

pub record ReplicationRequest : Type 0 where
  pub last_idx : ℤ
  pub committed_idx : ℤ
  pub leader_id : ℤ
  pub term : ℤ
  pub op_arg1 : ℤ
  pub op_arg2 : ℤ

-- ReplicationRequest(): the other fields keep what the memory held.
pub init : ReplicationRequest → ReplicationRequest
init memory = record memory {
  last_idx = minus_one;
  committed_idx = minus_one;
  leader_id = minus_one;
}

-- ReplicationRequest(last_idx, committed_idx, leader_id, term, op_arg1, op_arg2)
pub replication_request : ℤ → ℤ → ℤ → ℤ → ℤ → ℤ → ReplicationRequest
replication_request last committed leader t arg1 arg2 = record {
  last_idx = last;
  committed_idx = committed;
  leader_id = leader;
  term = t;
  op_arg1 = arg1;
  op_arg2 = arg2;
}

pub set_repair_request : ReplicationRequest → ℤ → ℤ → ℤ → ReplicationRequest
set_repair_request r last committed leader = record r {
  last_idx = last;
  committed_idx = committed;
  leader_id = leader;
}

-- Size()
abbrev pub size : ℕ
size = sizeof_int + sizeof_int + sizeof_int + sizeof_int + sizeof_int + sizeof_int

-- The fields in the order in which Marshal writes them.
abbrev pub fields : ReplicationRequest → List ℤ
fields r = r.leader_id ∷ r.last_idx ∷ r.committed_idx ∷ r.term ∷ r.op_arg1 ∷ r.op_arg2 ∷ []

unfoldable pub marshal : ReplicationRequest → Bytes → Bytes
unfolding put_ints
marshal r buffer = put_ints buffer 0 (fields r)

unfoldable pub unmarshal : Bytes → ReplicationRequest
unfolding get_int
unmarshal buffer = record {
  last_idx = get_int buffer 4;
  committed_idx = get_int buffer 8;
  leader_id = get_int buffer 0;
  term = get_int buffer 12;
  op_arg1 = get_int buffer 16;
  op_arg2 = get_int buffer 20;
}

unfoldable pub is_valid : ReplicationRequest → Bool
is_valid r = not (r.last_idx ==ℤ minus_one)

-- What Unmarshal reads from the buffer that Marshal wrote is the message, if every field is an
-- `int` and the buffer has room for the message.
pub unmarshal-marshal_replication_request :
    (r : ReplicationRequest) (buffer : Bytes)
    → All IsInt (fields r)
    → size ≤ length buffer
    → unmarshal (marshal r buffer) ≡ r
unfolding marshal unmarshal
unmarshal-marshal_replication_request r buffer h fits = λ i. record {
  last_idx = field_at buffer (fields r) 1 4 r.last_idx refl h fits refl i;
  committed_idx = field_at buffer (fields r) 2 8 r.committed_idx refl h fits refl i;
  leader_id = field_at buffer (fields r) 0 0 r.leader_id refl h fits refl i;
  term = field_at buffer (fields r) 3 12 r.term refl h fits refl i;
  op_arg1 = field_at buffer (fields r) 4 16 r.op_arg1 refl h fits refl i;
  op_arg2 = field_at buffer (fields r) 5 20 r.op_arg2 refl h fits refl i;
}

-- Unmarshal reads the bytes of the message only.
pub unmarshal-Agree : (b b' : Bytes) → Agree size b b' → unmarshal b ≡ unmarshal b'
unfolding unmarshal
unmarshal-Agree b b' h = λ i. record {
  last_idx = get_int-Agree 24 4 b b' h (omega arith) i;
  committed_idx = get_int-Agree 24 8 b b' h (omega arith) i;
  leader_id = get_int-Agree 24 0 b b' h (omega arith) i;
  term = get_int-Agree 24 12 b b' h (omega arith) i;
  op_arg1 = get_int-Agree 24 16 b b' h (omega arith) i;
  op_arg2 = get_int-Agree 24 20 b b' h (omega arith) i;
}

pub marshal_lem :
    (msg : ReplicationRequest) (buffer : Bytes)
    → marshal msg buffer ≡ put_ints buffer 0 (fields msg)
unfolding marshal
marshal_lem msg buffer = refl

abbrev pub replication_request_codec : Codec ReplicationRequest
replication_request_codec = record {
  size = size;
  fields = fields;
  marshal = marshal;
  unmarshal = unmarshal;
  writes = marshal_lem;
  sized = λ msg. refl;
  reads = unmarshal-Agree;
  reads_back = unmarshal-marshal_replication_request;
}
