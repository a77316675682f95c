-- ===== src/Messages/Codec.antt =====
-- What the classes of Messages.h have in common: Size, Marshal and Unmarshal, over buffers of bytes.
use raft_distributed_kv.Prelude.{
  ℕ, ◌+◌, ◌*◌, ◌≤◌, ◌<◌, ◌≡◌, ◌∙◌, refl, inr, List, [], ◌∷◌, length, get_or, ℤ, IsInt, arith,
}
use raft_distributed_kv.Words.{Bytes, get_int, load, put_int, put_ints}
use raft_distributed_kv.Words.RoundTrip.{All, length-put_ints, get_or-store_ne}

-- Two buffers with the same first bytes.
abbrev pub Agree : ℕ → Bytes → Bytes → Type 0
Agree size b b' = (i : ℕ) → i < size → get_or b i 0 ≡ get_or b' i 0

pub get_int-Agree :
    (size o : ℕ) (b b' : Bytes) → Agree size b b' → o + 3 < size → get_int b o ≡ get_int b' o
unfolding get_int load
get_int-Agree size o b b' h fits =
    ground
      (arith, h o (omega arith), h (o + 1) (omega arith), h (o + 2) (omega arith), h (o + 3) fits)

-- A class of messages: it writes its fields in order, reads its own bytes only, and reads back what it
-- has written if that is ints.
pub record Codec (M : Type 0) : Type 0 where
  pub size : ℕ
  pub fields : M → List ℤ
  pub marshal : M → Bytes → Bytes
  pub unmarshal : Bytes → M
  pub writes : (msg : M) (buffer : Bytes) → marshal msg buffer ≡ put_ints buffer 0 (fields msg)
  pub sized : (msg : M) → 4 * length (fields msg) ≡ size
  pub reads : (b b' : Bytes) → Agree size b b' → unmarshal b ≡ unmarshal b'
  pub reads_back :
      (msg : M) (buffer : Bytes)
      → All IsInt (fields msg)
      → size ≤ length buffer
      → unmarshal (marshal msg buffer) ≡ msg

-- What stands behind a message is not written.
get_or-put_ints_above :
    (buffer : Bytes) (i j : ℕ) (vs : List ℤ)
    → i + 4 * length vs ≤ j
    → get_or (put_ints buffer i vs) j 0 ≡ get_or buffer j 0
unfolding put_ints put_int
get_or-put_ints_above buffer i j [] h = refl
get_or-put_ints_above buffer i j (v ∷ vs) h =
    get_or-put_ints_above (put_int buffer i v) (i + 4) j vs (omega arith)
    ∙ get_or-store_ne buffer i _ j (inr (omega arith))

module _ {M : Type 0} (c : Codec M) where
  pub length-marshal : (msg : M) (buffer : Bytes) → length (c.marshal msg buffer) ≡ length buffer
  length-marshal msg buffer = rw (c.writes msg buffer) (length-put_ints buffer 0 (c.fields msg))

  pub marshal_above :
      (msg : M) (buffer : Bytes) (i : ℕ)
      → c.size ≤ i
      → get_or (c.marshal msg buffer) i 0 ≡ get_or buffer i 0
  marshal_above msg buffer i h =
      rw (c.writes msg buffer)
        (get_or-put_ints_above buffer 0 i (c.fields msg) (omega (arith, h, c.sized msg)))
