-- ===== src/Messages/RequestVoteResponse.antt =====
-- RequestVoteResponse of Messages.h and Messages.cpp.
use raft_distributed_kv.Prelude.{arith, ℕ, ◌+◌, ◌≤◌, ◌≡◌, refl, List, [], ◌∷◌, length, ℤ, IsInt}
use raft_distributed_kv.Words.{Bytes, sizeof_int, get_int, put_ints}
use raft_distributed_kv.Words.RoundTrip.{All, field_at}
use raft_distributed_kv.Messages.Codec.{Codec, Agree, get_int-Agree}

pub record RequestVoteResponse : Type 0 where
  pub id : ℤ
  pub current_term : ℤ
  pub voted : ℤ

-- RequestVoteResponse(): no field is set, so they keep what the memory held.
pub init : RequestVoteResponse → RequestVoteResponse
init memory = memory

unfoldable pub set_request_vote_response : ℤ → ℤ → ℤ → RequestVoteResponse
set_request_vote_response id' current_term' voted' = record {
  id = id';
  current_term = current_term';
  voted = voted';
}

-- Size()
abbrev pub size : ℕ
size = sizeof_int + sizeof_int + sizeof_int

-- The fields in the order in which Marshal writes them.
abbrev pub fields : RequestVoteResponse → List ℤ
fields r = r.id ∷ r.current_term ∷ r.voted ∷ []

unfoldable pub marshal : RequestVoteResponse → Bytes → Bytes
unfolding put_ints
marshal r buffer = put_ints buffer 0 (fields r)

unfoldable pub unmarshal : Bytes → RequestVoteResponse
unfolding get_int
unmarshal buffer = record {
  id = get_int buffer 0;
  current_term = get_int buffer 4;
  voted = get_int buffer 8;
}

-- What Unmarshal reads from the buffer that Marshal wrote is the message, if every field is an
-- `int` and the buffer has room for the message.
pub unmarshal-marshal_request_vote_response :
    (r : RequestVoteResponse) (buffer : Bytes)
    → All IsInt (fields r)
    → size ≤ length buffer
    → unmarshal (marshal r buffer) ≡ r
unfolding marshal unmarshal
unmarshal-marshal_request_vote_response r buffer h fits = λ i. record {
  id = field_at buffer (fields r) 0 0 r.id refl h fits refl i;
  current_term = field_at buffer (fields r) 1 4 r.current_term refl h fits refl i;
  voted = field_at buffer (fields r) 2 8 r.voted refl h fits refl i;
}

-- Unmarshal reads the bytes of the message only.
pub unmarshal-Agree : (b b' : Bytes) → Agree size b b' → unmarshal b ≡ unmarshal b'
unfolding unmarshal
unmarshal-Agree b b' h = λ i. record {
  id = get_int-Agree 12 0 b b' h (omega arith) i;
  current_term = get_int-Agree 12 4 b b' h (omega arith) i;
  voted = get_int-Agree 12 8 b b' h (omega arith) i;
}

pub marshal_lem :
    (msg : RequestVoteResponse) (buffer : Bytes)
    → marshal msg buffer ≡ put_ints buffer 0 (fields msg)
unfolding marshal
marshal_lem msg buffer = refl

abbrev pub request_vote_response_codec : Codec RequestVoteResponse
request_vote_response_codec = record {
  size = size;
  fields = fields;
  marshal = marshal;
  unmarshal = unmarshal;
  writes = marshal_lem;
  sized = λ msg. refl;
  reads = unmarshal-Agree;
  reads_back = unmarshal-marshal_request_vote_response;
}
