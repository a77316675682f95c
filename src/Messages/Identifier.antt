-- ===== src/Messages/Identifier.antt =====
-- Identifier of Messages.h and Messages.cpp.
use raft_distributed_kv.Prelude.{arith, ℕ, ◌≤◌, ◌≡◌, refl, List, [], ◌∷◌, length, ℤ, IsInt, pos}
use raft_distributed_kv.Words.{Bytes, sizeof_int, get_int, put_ints}
use raft_distributed_kv.Words.RoundTrip.{All, field_at}
use raft_distributed_kv.Messages.Codec.{Codec, Agree, get_int-Agree}

pub record Identifier : Type 0 where
  pub identifier : ℤ

-- Identifier()
pub init : Identifier
init = record { identifier = pos 0 }

unfoldable pub set_identifier : ℤ → Identifier
set_identifier identifier' = record { identifier = identifier' }

-- Size()
abbrev pub size : ℕ
size = sizeof_int

-- The fields in the order in which Marshal writes them.
abbrev pub fields : Identifier → List ℤ
fields i = i.identifier ∷ []

unfoldable pub marshal : Identifier → Bytes → Bytes
unfolding put_ints
marshal i buffer = put_ints buffer 0 (fields i)

unfoldable pub unmarshal : Bytes → Identifier
unfolding get_int
unmarshal buffer = record { identifier = get_int buffer 0 }

-- What Unmarshal reads from the buffer that Marshal wrote is the message, if every field is an
-- `int` and the buffer has room for the message.
pub unmarshal-marshal_identifier :
    (iden : Identifier) (buffer : Bytes)
    → All IsInt (fields iden)
    → size ≤ length buffer
    → unmarshal (marshal iden buffer) ≡ iden
unfolding marshal unmarshal
unmarshal-marshal_identifier iden buffer h fits = λ i. record {
  identifier = field_at buffer (fields iden) 0 0 iden.identifier refl h fits refl i;
}

-- Unmarshal reads the bytes of the message only.
pub unmarshal-Agree : (b b' : Bytes) → Agree size b b' → unmarshal b ≡ unmarshal b'
unfolding unmarshal
unmarshal-Agree b b' h = λ i. record { identifier = get_int-Agree 4 0 b b' h (omega arith) i }

pub marshal_lem :
    (msg : Identifier) (buffer : Bytes) → marshal msg buffer ≡ put_ints buffer 0 (fields msg)
unfolding marshal
marshal_lem msg buffer = refl

abbrev pub identifier_codec : Codec Identifier
identifier_codec = record {
  size = size;
  fields = fields;
  marshal = marshal;
  unmarshal = unmarshal;
  writes = marshal_lem;
  sized = λ msg. refl;
  reads = unmarshal-Agree;
  reads_back = unmarshal-marshal_identifier;
}
