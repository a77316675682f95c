-- ===== src/Messages/LaptopInfo.antt =====
-- LaptopInfo of Messages.h and Messages.cpp.
use raft_distributed_kv.Messages.CustomerRequest.{CustomerRequest}
use raft_distributed_kv.Prelude.{
  arith, ℕ, ◌+◌, ◌≤◌, ◌≡◌, refl, List, [], ◌∷◌, Bool, not, length, ℤ, ◌==ℤ◌, IsInt, minus_one,
}
use raft_distributed_kv.Words.{Bytes, sizeof_int, get_int, put_ints}
use raft_distributed_kv.Words.RoundTrip.{All, field_at}
use raft_distributed_kv.Messages.Codec.{Codec, Agree, get_int-Agree}

pub record LaptopInfo : Type 0 where
  pub customer_id : ℤ
  pub order_number : ℤ
  pub request_type : ℤ
  pub engineer_id : ℤ
  pub admin_id : ℤ

-- LaptopInfo()
unfoldable pub init : LaptopInfo
init = record {
  customer_id = minus_one;
  order_number = minus_one;
  request_type = minus_one;
  engineer_id = minus_one;
  admin_id = minus_one;
}

unfoldable pub set_info : ℤ → ℤ → ℤ → ℤ → ℤ → LaptopInfo
set_info customer_id' order_number' request_type' engineer_id' admin_id' = record {
  customer_id = customer_id';
  order_number = order_number';
  request_type = request_type';
  engineer_id = engineer_id';
  admin_id = admin_id';
}

-- The engineer's and the admin's id stay.
unfoldable pub copy_request : LaptopInfo → CustomerRequest → LaptopInfo
copy_request l order = record l {
  customer_id = order.customer_id;
  order_number = order.order_number;
  request_type = order.request_type;
}

unfoldable pub set_engineer_id : LaptopInfo → ℤ → LaptopInfo
set_engineer_id l id = record l { engineer_id = id }

unfoldable pub set_admin_id : LaptopInfo → ℤ → LaptopInfo
set_admin_id l id = record l { admin_id = id }

-- Size()
abbrev pub size : ℕ
size = sizeof_int + sizeof_int + sizeof_int + sizeof_int + sizeof_int

-- The fields in the order in which Marshal writes them.
abbrev pub fields : LaptopInfo → List ℤ
fields l = l.customer_id ∷ l.order_number ∷ l.request_type ∷ l.engineer_id ∷ l.admin_id ∷ []

unfoldable pub marshal : LaptopInfo → Bytes → Bytes
unfolding put_ints
marshal l buffer = put_ints buffer 0 (fields l)

unfoldable pub unmarshal : Bytes → LaptopInfo
unfolding get_int
unmarshal buffer = record {
  customer_id = get_int buffer 0;
  order_number = get_int buffer 4;
  request_type = get_int buffer 8;
  engineer_id = get_int buffer 12;
  admin_id = get_int buffer 16;
}

unfoldable pub is_valid : LaptopInfo → Bool
is_valid l = not (l.customer_id ==ℤ minus_one)

-- What Unmarshal reads from the buffer that Marshal wrote is the message, if every field is an
-- `int` and the buffer has room for the message.
pub unmarshal-marshal_laptop_info :
    (l : LaptopInfo) (buffer : Bytes)
    → All IsInt (fields l)
    → size ≤ length buffer
    → unmarshal (marshal l buffer) ≡ l
unfolding marshal unmarshal
unmarshal-marshal_laptop_info l buffer h fits = λ i. record {
  customer_id = field_at buffer (fields l) 0 0 l.customer_id refl h fits refl i;
  order_number = field_at buffer (fields l) 1 4 l.order_number refl h fits refl i;
  request_type = field_at buffer (fields l) 2 8 l.request_type refl h fits refl i;
  engineer_id = field_at buffer (fields l) 3 12 l.engineer_id refl h fits refl i;
  admin_id = field_at buffer (fields l) 4 16 l.admin_id refl h fits refl i;
}

-- Unmarshal reads the bytes of the message only.
pub unmarshal-Agree : (b b' : Bytes) → Agree size b b' → unmarshal b ≡ unmarshal b'
unfolding unmarshal
unmarshal-Agree b b' h = λ i. record {
  customer_id = get_int-Agree 20 0 b b' h (omega arith) i;
  order_number = get_int-Agree 20 4 b b' h (omega arith) i;
  request_type = get_int-Agree 20 8 b b' h (omega arith) i;
  engineer_id = get_int-Agree 20 12 b b' h (omega arith) i;
  admin_id = get_int-Agree 20 16 b b' h (omega arith) i;
}

pub marshal_lem :
    (msg : LaptopInfo) (buffer : Bytes) → marshal msg buffer ≡ put_ints buffer 0 (fields msg)
unfolding marshal
marshal_lem msg buffer = refl

abbrev pub laptop_info_codec : Codec LaptopInfo
laptop_info_codec = record {
  size = size;
  fields = fields;
  marshal = marshal;
  unmarshal = unmarshal;
  writes = marshal_lem;
  sized = λ msg. refl;
  reads = unmarshal-Agree;
  reads_back = unmarshal-marshal_laptop_info;
}
