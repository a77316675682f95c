-- ===== src/Words.antt =====
-- The 32-bit words and the byte buffers of Messages.cpp: what `htonl`, `ntohl` and `memcpy` of an
-- `int` do there. The host is little-endian (x86-64), so `htonl` reverses the bytes of a word.
-- `htonl`, `ntohl` and `memcpy` are the C library's; each is its documented effect on a word.
pub mod RoundTrip
use raft_distributed_kv.Prelude.{
  ℕ, ◌+◌, ◌-◌, ◌*◌, ◌/◌, ◌%◌, ◌^◌, ◌≤◌, ◌<◌, ◌≡◌, List, [], ◌∷◌, arith, ltb, if◌then◌else◌, ℤ, pos,
  negsuc, IsInt, get_or, set,
}

abbrev pub Bytes : Type 0
Bytes = List ℕ

-- sizeof(int)
abbrev pub sizeof_int : ℕ
sizeof_int = 4

-- The bit pattern of an `int`, and the `int` that a bit pattern stands for (two's complement).
unfoldable pub to_word : ℤ → ℕ
to_word (pos n) = n % 2 ^ 32
to_word (negsuc n) = 2 ^ 32 - 1 - n % 2 ^ 32

unfoldable pub signed32 : ℕ → ℤ
signed32 w = if ltb w (2 ^ 31) then pos w else negsuc (2 ^ 32 - w - 1)

-- Byte k of a word.
abbrev pub byte0 : ℕ → ℕ
byte0 w = w % 256

abbrev pub byte1 : ℕ → ℕ
byte1 w = w / 256 % 256

abbrev pub byte2 : ℕ → ℕ
byte2 w = w / 65536 % 256

abbrev pub byte3 : ℕ → ℕ
byte3 w = w / 16777216 % 256

abbrev pub word_of : ℕ → ℕ → ℕ → ℕ → ℕ
word_of a b c d = a + 256 * b + 65536 * c + 16777216 * d

unfoldable pub htonl : ℕ → ℕ
htonl w = word_of (byte3 w) (byte2 w) (byte1 w) (byte0 w)

unfoldable pub ntohl : ℕ → ℕ
ntohl w = word_of (byte3 w) (byte2 w) (byte1 w) (byte0 w)

-- `memcpy(buffer + offset, &word, sizeof(word))`: the bytes of the word, the lowest first.
unfoldable pub store : Bytes → ℕ → ℕ → Bytes
store buffer offset w =
    set (set (set (set buffer offset (byte0 w)) (offset + 1) (byte1 w)) (offset + 2) (byte2 w))
      (offset + 3) (byte3 w)

-- `memcpy(&word, buffer + offset, sizeof(word))`.
unfoldable pub load : Bytes → ℕ → ℕ
load buffer offset =
    word_of (get_or buffer offset 0) (get_or buffer (offset + 1) 0) (get_or buffer (offset + 2) 0)
      (get_or buffer (offset + 3) 0)

-- `int net = htonl(value); memcpy(buffer + offset, &net, sizeof(net))`.
unfoldable pub put_int : Bytes → ℕ → ℤ → Bytes
unfolding to_word htonl store
put_int buffer offset value = store buffer offset (htonl (to_word value))

-- `int net; memcpy(&net, buffer + offset, sizeof(net)); value = ntohl(net)`.
unfoldable pub get_int : Bytes → ℕ → ℤ
unfolding signed32 ntohl load
get_int buffer offset = signed32 (ntohl (load buffer offset))

-- The fields of a message, one after another: a `put_int` for each, with
-- `offset += sizeof(net)` in between.
unfoldable pub put_ints : Bytes → ℕ → List ℤ → Bytes
unfolding put_int
put_ints buffer offset [] = buffer
put_ints buffer offset (v ∷ vs) = put_ints (put_int buffer offset v) (offset + 4) vs
