-- ===== src/Messages/RequestVoteMessage.antt =====
-- RequestVoteMessage of Messages.h and Messages.cpp.
use raft_distributed_kv.Prelude.{arith, ℕ, ◌+◌, ◌≤◌, ◌≡◌, refl, List, [], ◌∷◌, length, ℤ, IsInt}
use raft_distributed_kv.Words.{Bytes, sizeof_int, get_int, put_ints}
use raft_distributed_kv.Words.RoundTrip.{All, field_at}
use raft_distributed_kv.Messages.Codec.{Codec, Agree, get_int-Agree}

pub record RequestVoteMessage : Type 0 where
  pub id : ℤ
  pub current_term : ℤ
  pub log_size : ℤ
  pub last_term : ℤ

-- RequestVoteMessage(): no field is set, so they keep what the memory held.
pub init : RequestVoteMessage → RequestVoteMessage
init memory = memory

unfoldable pub set_request_vote_message : ℤ → ℤ → ℤ → ℤ → RequestVoteMessage
set_request_vote_message id' current_term' log_size' last_term' = record {
  id = id';
  current_term = current_term';
  log_size = log_size';
  last_term = last_term';
}

-- Size()
abbrev pub size : ℕ
size = sizeof_int + sizeof_int + sizeof_int + sizeof_int

-- The fields in the order in which Marshal writes them.
abbrev pub fields : RequestVoteMessage → List ℤ
fields r = r.id ∷ r.current_term ∷ r.log_size ∷ r.last_term ∷ []

unfoldable pub marshal : RequestVoteMessage → Bytes → Bytes
unfolding put_ints
marshal r buffer = put_ints buffer 0 (fields r)

unfoldable pub unmarshal : Bytes → RequestVoteMessage
unfolding get_int
unmarshal buffer = record {
  id = get_int buffer 0;
  current_term = get_int buffer 4;
  log_size = get_int buffer 8;
  last_term = get_int buffer 12;
}

-- What Unmarshal reads from the buffer that Marshal wrote is the message, if every field is an
-- `int` and the buffer has room for the message.
pub unmarshal-marshal_request_vote_message :
    (r : RequestVoteMessage) (buffer : Bytes)
    → All IsInt (fields r)
    → size ≤ length buffer
    → unmarshal (marshal r buffer) ≡ r
unfolding marshal unmarshal
unmarshal-marshal_request_vote_message r buffer h fits = λ i. record {
  id = field_at buffer (fields r) 0 0 r.id refl h fits refl i;
  current_term = field_at buffer (fields r) 1 4 r.current_term refl h fits refl i;
  log_size = field_at buffer (fields r) 2 8 r.log_size refl h fits refl i;
  last_term = field_at buffer (fields r) 3 12 r.last_term refl h fits refl i;
}

-- Unmarshal reads the bytes of the message only.
pub unmarshal-Agree : (b b' : Bytes) → Agree size b b' → unmarshal b ≡ unmarshal b'
unfolding unmarshal
unmarshal-Agree b b' h = λ i. record {
  id = get_int-Agree 16 0 b b' h (omega arith) i;
  current_term = get_int-Agree 16 4 b b' h (omega arith) i;
  log_size = get_int-Agree 16 8 b b' h (omega arith) i;
  last_term = get_int-Agree 16 12 b b' h (omega arith) i;
}

pub marshal_lem :
    (msg : RequestVoteMessage) (buffer : Bytes)
    → marshal msg buffer ≡ put_ints buffer 0 (fields msg)
unfolding marshal
marshal_lem msg buffer = refl

abbrev pub request_vote_message_codec : Codec RequestVoteMessage
request_vote_message_codec = record {
  size = size;
  fields = fields;
  marshal = marshal;
  unmarshal = unmarshal;
  writes = marshal_lem;
  sized = λ msg. refl;
  reads = unmarshal-Agree;
  reads_back = unmarshal-marshal_request_vote_message;
}
