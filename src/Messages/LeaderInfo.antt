-- ===== src/Messages/LeaderInfo.antt =====
-- LeaderInfo of Messages.h and Messages.cpp.
use raft_distributed_kv.Prelude.{
  arith, ℕ, ◌+◌, ◌≤◌, ◌≡◌, refl, List, [], ◌∷◌, length, ℤ, IsInt, pos,
}
use raft_distributed_kv.Words.{Bytes, sizeof_int, get_int, put_ints}
use raft_distributed_kv.Words.RoundTrip.{All, field_at}
use raft_distributed_kv.Messages.Codec.{Codec, Agree, get_int-Agree}

pub record LeaderInfo : Type 0 where
  pub ip0 : ℤ
  pub ip1 : ℤ
  pub ip2 : ℤ
  pub ip3 : ℤ
  pub port : ℤ

-- LeaderInfo()
pub init : LeaderInfo
init = record { ip0 = pos 0; ip1 = pos 0; ip2 = pos 0; ip3 = pos 0; port = pos 0 }

-- Size()
abbrev pub size : ℕ
size = sizeof_int + sizeof_int + sizeof_int + sizeof_int + sizeof_int

-- The fields in the order in which Marshal writes them.
abbrev pub fields : LeaderInfo → List ℤ
fields l = l.ip0 ∷ l.ip1 ∷ l.ip2 ∷ l.ip3 ∷ l.port ∷ []

unfoldable pub marshal : LeaderInfo → Bytes → Bytes
unfolding put_ints
marshal l buffer = put_ints buffer 0 (fields l)

unfoldable pub unmarshal : Bytes → LeaderInfo
unfolding get_int
unmarshal buffer = record {
  ip0 = get_int buffer 0;
  ip1 = get_int buffer 4;
  ip2 = get_int buffer 8;
  ip3 = get_int buffer 12;
  port = get_int buffer 16;
}

-- What Unmarshal reads from the buffer that Marshal wrote is the message, if every field is an
-- `int` and the buffer has room for the message.
pub unmarshal-marshal_leader_info :
    (l : LeaderInfo) (buffer : Bytes)
    → All IsInt (fields l)
    → size ≤ length buffer
    → unmarshal (marshal l buffer) ≡ l
unfolding marshal unmarshal
unmarshal-marshal_leader_info l buffer h fits = λ i. record {
  ip0 = field_at buffer (fields l) 0 0 l.ip0 refl h fits refl i;
  ip1 = field_at buffer (fields l) 1 4 l.ip1 refl h fits refl i;
  ip2 = field_at buffer (fields l) 2 8 l.ip2 refl h fits refl i;
  ip3 = field_at buffer (fields l) 3 12 l.ip3 refl h fits refl i;
  port = field_at buffer (fields l) 4 16 l.port refl h fits refl i;
}

-- Unmarshal reads the bytes of the message only.
pub unmarshal-Agree : (b b' : Bytes) → Agree size b b' → unmarshal b ≡ unmarshal b'
unfolding unmarshal
unmarshal-Agree b b' h = λ i. record {
  ip0 = get_int-Agree 20 0 b b' h (omega arith) i;
  ip1 = get_int-Agree 20 4 b b' h (omega arith) i;
  ip2 = get_int-Agree 20 8 b b' h (omega arith) i;
  ip3 = get_int-Agree 20 12 b b' h (omega arith) i;
  port = get_int-Agree 20 16 b b' h (omega arith) i;
}

pub marshal_lem :
    (msg : LeaderInfo) (buffer : Bytes) → marshal msg buffer ≡ put_ints buffer 0 (fields msg)
unfolding marshal
marshal_lem msg buffer = refl

abbrev pub leader_info_codec : Codec LeaderInfo
leader_info_codec = record {
  size = size;
  fields = fields;
  marshal = marshal;
  unmarshal = unmarshal;
  writes = marshal_lem;
  sized = λ msg. refl;
  reads = unmarshal-Agree;
  reads_back = unmarshal-marshal_leader_info;
}
