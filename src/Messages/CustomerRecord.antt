-- ===== src/Messages/CustomerRecord.antt =====
-- CustomerRecord of Messages.h and Messages.cpp.
use raft_distributed_kv.Prelude.{
  arith, ℕ, ◌+◌, ◌≤◌, ◌≡◌, refl, List, [], ◌∷◌, Bool, not, length, ℤ, ◌==ℤ◌, IsInt, negsuc,
  minus_one,
}
use raft_distributed_kv.Words.{Bytes, sizeof_int, get_int, put_ints}
use raft_distributed_kv.Words.RoundTrip.{All, field_at}
use raft_distributed_kv.Messages.Codec.{Codec, Agree, get_int-Agree}

pub record CustomerRecord : Type 0 where
  pub customer_id : ℤ
  pub last_order : ℤ

-- CustomerRecord()
unfoldable pub init : CustomerRecord
init = record { customer_id = negsuc 1; last_order = minus_one }

unfoldable pub set_record : ℤ → ℤ → CustomerRecord
set_record customer_id' last_order' = record {
  customer_id = customer_id';
  last_order = last_order';
}

-- Size()
abbrev pub size : ℕ
size = sizeof_int + sizeof_int

-- The fields in the order in which Marshal writes them.
abbrev pub fields : CustomerRecord → List ℤ
fields c = c.customer_id ∷ c.last_order ∷ []

unfoldable pub marshal : CustomerRecord → Bytes → Bytes
unfolding put_ints
marshal c buffer = put_ints buffer 0 (fields c)

unfoldable pub unmarshal : Bytes → CustomerRecord
unfolding get_int
unmarshal buffer = record { customer_id = get_int buffer 0; last_order = get_int buffer 4 }

unfoldable pub is_valid : CustomerRecord → Bool
is_valid c = not (c.last_order ==ℤ minus_one)

-- What Unmarshal reads from the buffer that Marshal wrote is the message, if every field is an
-- `int` and the buffer has room for the message.
pub unmarshal-marshal_customer_record :
    (c : CustomerRecord) (buffer : Bytes)
    → All IsInt (fields c)
    → size ≤ length buffer
    → unmarshal (marshal c buffer) ≡ c
unfolding marshal unmarshal
unmarshal-marshal_customer_record c buffer h fits = λ i. record {
  customer_id = field_at buffer (fields c) 0 0 c.customer_id refl h fits refl i;
  last_order = field_at buffer (fields c) 1 4 c.last_order refl h fits refl i;
}

-- Unmarshal reads the bytes of the message only.
pub unmarshal-Agree : (b b' : Bytes) → Agree size b b' → unmarshal b ≡ unmarshal b'
unfolding unmarshal
unmarshal-Agree b b' h = λ i. record {
  customer_id = get_int-Agree 8 0 b b' h (omega arith) i;
  last_order = get_int-Agree 8 4 b b' h (omega arith) i;
}

pub marshal_lem :
    (msg : CustomerRecord) (buffer : Bytes) → marshal msg buffer ≡ put_ints buffer 0 (fields msg)
unfolding marshal
marshal_lem msg buffer = refl

abbrev pub customer_record_codec : Codec CustomerRecord
customer_record_codec = record {
  size = size;
  fields = fields;
  marshal = marshal;
  unmarshal = unmarshal;
  writes = marshal_lem;
  sized = λ msg. refl;
  reads = unmarshal-Agree;
  reads_back = unmarshal-marshal_customer_record;
}
