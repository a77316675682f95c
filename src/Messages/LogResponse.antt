-- ===== src/Messages/LogResponse.antt =====
-- LogResponse of Messages.h and Messages.cpp.
use raft_distributed_kv.Prelude.{
  arith, ℕ, ◌+◌, ◌≤◌, ◌≡◌, refl, List, [], ◌∷◌, length, ℤ, IsInt, minus_one,
}
use raft_distributed_kv.Words.{Bytes, sizeof_int, get_int, put_ints}
use raft_distributed_kv.Words.RoundTrip.{All, field_at}
use raft_distributed_kv.Messages.Codec.{Codec, Agree, get_int-Agree}

pub record LogResponse : Type 0 where
  pub follower_id : ℤ
  pub current_term : ℤ
  pub ack : ℤ
  pub success : ℤ

-- LogResponse()
unfoldable pub init : LogResponse
init = record {
  follower_id = minus_one;
  current_term = minus_one;
  ack = minus_one;
  success = minus_one;
}

unfoldable pub set_log_response : ℤ → ℤ → ℤ → ℤ → LogResponse
set_log_response follower_id' current_term' ack' success' = record {
  follower_id = follower_id';
  current_term = current_term';
  ack = ack';
  success = success';
}

-- Size()
abbrev pub size : ℕ
size = sizeof_int + sizeof_int + sizeof_int + sizeof_int

-- The fields in the order in which Marshal writes them.
abbrev pub fields : LogResponse → List ℤ
fields l = l.follower_id ∷ l.current_term ∷ l.ack ∷ l.success ∷ []

unfoldable pub marshal : LogResponse → Bytes → Bytes
unfolding put_ints
marshal l buffer = put_ints buffer 0 (fields l)

unfoldable pub unmarshal : Bytes → LogResponse
unfolding get_int
unmarshal buffer = record {
  follower_id = get_int buffer 0;
  current_term = get_int buffer 4;
  ack = get_int buffer 8;
  success = get_int buffer 12;
}

-- What Unmarshal reads from the buffer that Marshal wrote is the message, if every field is an
-- `int` and the buffer has room for the message.
pub unmarshal-marshal_log_response :
    (l : LogResponse) (buffer : Bytes)
    → All IsInt (fields l)
    → size ≤ length buffer
    → unmarshal (marshal l buffer) ≡ l
unfolding marshal unmarshal
unmarshal-marshal_log_response l buffer h fits = λ i. record {
  follower_id = field_at buffer (fields l) 0 0 l.follower_id refl h fits refl i;
  current_term = field_at buffer (fields l) 1 4 l.current_term refl h fits refl i;
  ack = field_at buffer (fields l) 2 8 l.ack refl h fits refl i;
  success = field_at buffer (fields l) 3 12 l.success refl h fits refl i;
}

-- Unmarshal reads the bytes of the message only.
pub unmarshal-Agree : (b b' : Bytes) → Agree size b b' → unmarshal b ≡ unmarshal b'
unfolding unmarshal
unmarshal-Agree b b' h = λ i. record {
  follower_id = get_int-Agree 16 0 b b' h (omega arith) i;
  current_term = get_int-Agree 16 4 b b' h (omega arith) i;
  ack = get_int-Agree 16 8 b b' h (omega arith) i;
  success = get_int-Agree 16 12 b b' h (omega arith) i;
}

pub marshal_lem :
    (msg : LogResponse) (buffer : Bytes) → marshal msg buffer ≡ put_ints buffer 0 (fields msg)
unfolding marshal
marshal_lem msg buffer = refl

abbrev pub log_response_codec : Codec LogResponse
log_response_codec = record {
  size = size;
  fields = fields;
  marshal = marshal;
  unmarshal = unmarshal;
  writes = marshal_lem;
  sized = λ msg. refl;
  reads = unmarshal-Agree;
  reads_back = unmarshal-marshal_log_response;
}
