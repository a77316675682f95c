-- ===== src/Messages/LogRequest.antt =====
-- LogRequest of Messages.h and Messages.cpp.
use raft_distributed_kv.Prelude.{
  arith, ℕ, ◌+◌, ◌≤◌, ◌≡◌, refl, List, [], ◌∷◌, Bool, not, length, ℤ, ◌==ℤ◌, IsInt, minus_one,
}
use raft_distributed_kv.Words.{Bytes, sizeof_int, get_int, put_ints}
use raft_distributed_kv.Words.RoundTrip.{All, field_at}
use raft_distributed_kv.Messages.Codec.{Codec, Agree, get_int-Agree}

pub record LogRequest : Type 0 where
  pub leader_id : ℤ
  pub current_term : ℤ
  pub prefix_length : ℤ
  pub prefix_term : ℤ
  pub commit_length : ℤ
  pub op_term : ℤ
  pub op_arg1 : ℤ
  pub op_arg2 : ℤ

-- LogRequest(): the other fields keep what the memory held.
pub init : LogRequest → LogRequest
init memory = record memory { leader_id = minus_one }

unfoldable pub set_log_request : ℤ → ℤ → ℤ → ℤ → ℤ → ℤ → ℤ → ℤ → LogRequest
set_log_request leader_id' current_term' prefix_length' prefix_term' commit_length' op_term'
      op_arg1' op_arg2' =
    record {
      leader_id = leader_id';
      current_term = current_term';
      prefix_length = prefix_length';
      prefix_term = prefix_term';
      commit_length = commit_length';
      op_term = op_term';
      op_arg1 = op_arg1';
      op_arg2 = op_arg2';
    }

-- Size()
abbrev pub size : ℕ
size =
    sizeof_int + sizeof_int + sizeof_int + sizeof_int + sizeof_int + sizeof_int + sizeof_int
    + sizeof_int

-- The fields in the order in which Marshal writes them.
abbrev pub fields : LogRequest → List ℤ
fields l =
    l.leader_id ∷ l.current_term ∷ l.prefix_length ∷ l.prefix_term ∷ l.commit_length ∷ l.op_term
    ∷ l.op_arg1 ∷ l.op_arg2 ∷ []

unfoldable pub marshal : LogRequest → Bytes → Bytes
unfolding put_ints
marshal l buffer = put_ints buffer 0 (fields l)

unfoldable pub unmarshal : Bytes → LogRequest
unfolding get_int
unmarshal buffer = record {
  leader_id = get_int buffer 0;
  current_term = get_int buffer 4;
  prefix_length = get_int buffer 8;
  prefix_term = get_int buffer 12;
  commit_length = get_int buffer 16;
  op_term = get_int buffer 20;
  op_arg1 = get_int buffer 24;
  op_arg2 = get_int buffer 28;
}

unfoldable pub is_valid : LogRequest → Bool
is_valid l = not (l.leader_id ==ℤ minus_one)

-- What Unmarshal reads from the buffer that Marshal wrote is the log request, if every field is an
-- int and the buffer has room for the message.
pub unmarshal-marshal_log_request :
    (l : LogRequest) (buffer : Bytes)
    → All IsInt (fields l)
    → size ≤ length buffer
    → unmarshal (marshal l buffer) ≡ l
unfolding marshal unmarshal
unmarshal-marshal_log_request l buffer h fits = λ i. record {
  leader_id = field_at buffer (fields l) 0 0 l.leader_id refl h fits refl i;
  current_term = field_at buffer (fields l) 1 4 l.current_term refl h fits refl i;
  prefix_length = field_at buffer (fields l) 2 8 l.prefix_length refl h fits refl i;
  prefix_term = field_at buffer (fields l) 3 12 l.prefix_term refl h fits refl i;
  commit_length = field_at buffer (fields l) 4 16 l.commit_length refl h fits refl i;
  op_term = field_at buffer (fields l) 5 20 l.op_term refl h fits refl i;
  op_arg1 = field_at buffer (fields l) 6 24 l.op_arg1 refl h fits refl i;
  op_arg2 = field_at buffer (fields l) 7 28 l.op_arg2 refl h fits refl i;
}

-- Unmarshal reads the bytes of the message only.
pub unmarshal-Agree : (b b' : Bytes) → Agree size b b' → unmarshal b ≡ unmarshal b'
unfolding unmarshal
unmarshal-Agree b b' h = λ i. record {
  leader_id = get_int-Agree 32 0 b b' h (omega arith) i;
  current_term = get_int-Agree 32 4 b b' h (omega arith) i;
  prefix_length = get_int-Agree 32 8 b b' h (omega arith) i;
  prefix_term = get_int-Agree 32 12 b b' h (omega arith) i;
  commit_length = get_int-Agree 32 16 b b' h (omega arith) i;
  op_term = get_int-Agree 32 20 b b' h (omega arith) i;
  op_arg1 = get_int-Agree 32 24 b b' h (omega arith) i;
  op_arg2 = get_int-Agree 32 28 b b' h (omega arith) i;
}

pub marshal_lem :
    (msg : LogRequest) (buffer : Bytes) → marshal msg buffer ≡ put_ints buffer 0 (fields msg)
unfolding marshal
marshal_lem msg buffer = refl

abbrev pub log_request_codec : Codec LogRequest
log_request_codec = record {
  size = size;
  fields = fields;
  marshal = marshal;
  unmarshal = unmarshal;
  writes = marshal_lem;
  sized = λ msg. refl;
  reads = unmarshal-Agree;
  reads_back = unmarshal-marshal_log_request;
}
