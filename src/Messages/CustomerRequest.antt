-- ===== src/Messages/CustomerRequest.antt =====
-- CustomerRequest of Messages.h and Messages.cpp.
use raft_distributed_kv.Prelude.{
  arith, ℕ, ◌+◌, ◌≤◌, ◌≡◌, refl, List, [], ◌∷◌, Bool, not, length, ℤ, ◌==ℤ◌, IsInt, minus_one,
}
use raft_distributed_kv.Words.{Bytes, sizeof_int, get_int, put_ints}
use raft_distributed_kv.Words.RoundTrip.{All, field_at}
use raft_distributed_kv.Messages.Codec.{Codec, Agree, get_int-Agree}

pub record CustomerRequest : Type 0 where
  pub customer_id : ℤ
  pub order_number : ℤ
  pub request_type : ℤ

-- CustomerRequest()
unfoldable pub init : CustomerRequest
init = record { customer_id = minus_one; order_number = minus_one; request_type = minus_one }

unfoldable pub set_request : ℤ → ℤ → ℤ → CustomerRequest
set_request customer_id' order_number' request_type' = record {
  customer_id = customer_id';
  order_number = order_number';
  request_type = request_type';
}

-- Size()
abbrev pub size : ℕ
size = sizeof_int + sizeof_int + sizeof_int

-- The fields in the order in which Marshal writes them.
abbrev pub fields : CustomerRequest → List ℤ
fields c = c.customer_id ∷ c.order_number ∷ c.request_type ∷ []

unfoldable pub marshal : CustomerRequest → Bytes → Bytes
unfolding put_ints
marshal c buffer = put_ints buffer 0 (fields c)

unfoldable pub unmarshal : Bytes → CustomerRequest
unfolding get_int
unmarshal buffer = record {
  customer_id = get_int buffer 0;
  order_number = get_int buffer 4;
  request_type = get_int buffer 8;
}

unfoldable pub is_valid : CustomerRequest → Bool
is_valid c = not (c.customer_id ==ℤ minus_one)

-- What Unmarshal reads from the buffer that Marshal wrote is the message, if every field is an
-- `int` and the buffer has room for the message.
pub unmarshal-marshal_customer_request :
    (c : CustomerRequest) (buffer : Bytes)
    → All IsInt (fields c)
    → size ≤ length buffer
    → unmarshal (marshal c buffer) ≡ c
unfolding marshal unmarshal
unmarshal-marshal_customer_request c buffer h fits = λ i. record {
  customer_id = field_at buffer (fields c) 0 0 c.customer_id refl h fits refl i;
  order_number = field_at buffer (fields c) 1 4 c.order_number refl h fits refl i;
  request_type = field_at buffer (fields c) 2 8 c.request_type refl h fits refl i;
}

-- Unmarshal reads the bytes of the message only.
pub unmarshal-Agree : (b b' : Bytes) → Agree size b b' → unmarshal b ≡ unmarshal b'
unfolding unmarshal
unmarshal-Agree b b' h = λ i. record {
  customer_id = get_int-Agree 12 0 b b' h (omega arith) i;
  order_number = get_int-Agree 12 4 b b' h (omega arith) i;
  request_type = get_int-Agree 12 8 b b' h (omega arith) i;
}

pub marshal_lem :
    (msg : CustomerRequest) (buffer : Bytes) → marshal msg buffer ≡ put_ints buffer 0 (fields msg)
unfolding marshal
marshal_lem msg buffer = refl

abbrev pub customer_request_codec : Codec CustomerRequest
customer_request_codec = record {
  size = size;
  fields = fields;
  marshal = marshal;
  unmarshal = unmarshal;
  writes = marshal_lem;
  sized = λ msg. refl;
  reads = unmarshal-Agree;
  reads_back = unmarshal-marshal_customer_request;
}
