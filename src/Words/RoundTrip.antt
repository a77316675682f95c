-- ===== src/Words/RoundTrip.antt =====
-- What `ntohl` and `memcpy` read back of what `htonl` and `memcpy` wrote (Words, for Messages.cpp).
use raft_distributed_kv.Prelude.{
  ℕ, zero, suc, ◌+◌, ◌*◌, ◌^◌, ◌≤◌, ◌<◌, ◌≡◌, ◌⊎◌, inl, refl, ap, ◌∙◌, List, [], ◌∷◌, some, arith,
  length, get_elem?, length-set, get_or-set, get_or, ℤ, IsInt,
}
use raft_distributed_kv.Words.{
  Bytes, to_word, signed32, htonl, ntohl, store, load, put_int, get_int, put_ints, byte0, byte1,
  byte2, byte3, word_of,
}

pub to_word-lt : (z : ℤ) → to_word z < 2 ^ 32
unfolding to_word
to_word-lt z = ground arith

pub signed32-to_word : (z : ℤ) → IsInt z → signed32 (to_word z) ≡ z
unfolding signed32 to_word
signed32-to_word z h = ground arith

-- Reversing the bytes twice gives the word back.
pub ntohl-htonl : (w : ℕ) → w < 2 ^ 32 → ntohl (htonl w) ≡ w
unfolding ntohl htonl
ntohl-htonl w h = omega arith

htonl-lt : (w : ℕ) → htonl w < 2 ^ 32
unfolding htonl
htonl-lt w = omega arith

word_of-bytes : (w : ℕ) → w < 2 ^ 32 → word_of (byte0 w) (byte1 w) (byte2 w) (byte3 w) ≡ w
word_of-bytes w h = omega arith

pub length-store : (buffer : Bytes) (i w : ℕ) → length (store buffer i w) ≡ length buffer
unfolding store
length-store buffer i w = simp length-set

-- The byte at j after a store at i.
pub get_or-store_ne :
    (buffer : Bytes) (i w j : ℕ)
    → (j < i) ⊎ (i + 4 ≤ j)
    → get_or (store buffer i w) j 0 ≡ get_or buffer j 0
unfolding store
get_or-store_ne buffer i w j h = simp (get_or-set, length-set) (ground arith)

load-store_self :
    (buffer : Bytes) (i w : ℕ) → i + 4 ≤ length buffer → w < 2 ^ 32 → load (store buffer i w) i ≡ w
unfolding load store
load-store_self buffer i w fits h = simp (get_or-set, length-set) (ground arith)

load-store_ne :
    (buffer : Bytes) (i w j : ℕ)
    → (j + 4 ≤ i) ⊎ (i + 4 ≤ j)
    → load (store buffer i w) j ≡ load buffer j
unfolding load
load-store_ne buffer i w j h = omega (
  arith,
  get_or-store_ne buffer i w j (omega arith),
  get_or-store_ne buffer i w (j + 1) (omega arith),
  get_or-store_ne buffer i w (j + 2) (omega arith),
  get_or-store_ne buffer i w (j + 3) (omega arith),
)

pub length-put_int : (buffer : Bytes) (i : ℕ) (v : ℤ) → length (put_int buffer i v) ≡ length buffer
unfolding put_int
length-put_int buffer i v = length-store buffer i (htonl (to_word v))

pub get_int-put_int_self :
    (buffer : Bytes) (i : ℕ) (v : ℤ)
    → i + 4 ≤ length buffer
    → IsInt v
    → get_int (put_int buffer i v) i ≡ v
unfolding get_int put_int
get_int-put_int_self buffer i v fits h =
    ap (λ w. signed32 (ntohl w))
      (load-store_self buffer i (htonl (to_word v)) fits (htonl-lt (to_word v)))
    ∙ ap signed32 (ntohl-htonl (to_word v) (to_word-lt v))
    ∙ signed32-to_word v h

pub get_int-put_int_ne :
    (buffer : Bytes) (i j : ℕ) (v : ℤ)
    → (j + 4 ≤ i) ⊎ (i + 4 ≤ j)
    → get_int (put_int buffer i v) j ≡ get_int buffer j
unfolding get_int put_int
get_int-put_int_ne buffer i j v h =
    ap (λ w. signed32 (ntohl w)) (load-store_ne buffer i (htonl (to_word v)) j h)

pub length-put_ints :
    (buffer : Bytes) (i : ℕ) (vs : List ℤ) → length (put_ints buffer i vs) ≡ length buffer
unfolding put_ints
length-put_ints buffer i [] = refl
length-put_ints buffer i (v ∷ vs) =
    length-put_ints (put_int buffer i v) (i + 4) vs ∙ length-put_int buffer i v

-- What follows a position is written without touching what stands before it.
get_int-put_ints_below :
    (buffer : Bytes) (i j : ℕ) (vs : List ℤ)
    → j + 4 ≤ i
    → get_int (put_ints buffer i vs) j ≡ get_int buffer j
unfolding put_ints
get_int-put_ints_below buffer i j [] h = refl
get_int-put_ints_below buffer i j (v ∷ vs) h =
    get_int-put_ints_below (put_int buffer i v) (i + 4) j vs (omega arith)
    ∙ get_int-put_int_ne buffer i j v (inl h)

-- Field k of a message is read back from the offset at which it was written.
pub get_int-put_ints :
    (buffer : Bytes) (i k j : ℕ) (vs : List ℤ) (v : ℤ)
    → j ≡ i + 4 * k
    → i + 4 * length vs ≤ length buffer
    → get_elem? vs k ≡ some v
    → IsInt v
    → get_int (put_ints buffer i vs) j ≡ v
unfolding put_ints
get_int-put_ints buffer i k j [] v e fits found h = ground arith
get_int-put_ints buffer i zero j (x ∷ vs) v e fits found h =
    ap (get_int (put_ints (put_int buffer i x) (i + 4) vs)) here
    ∙ get_int-put_ints_below (put_int buffer i x) (i + 4) i vs (omega arith)
    ∙ ap (λ w. get_int (put_int buffer i w) i) same
    ∙ get_int-put_int_self buffer i v (omega arith) h
  where
    here : j ≡ i
    here = omega arith

    same : x ≡ v
    same = ground arith
get_int-put_ints buffer i (suc k) j (x ∷ vs) v e fits found h =
    get_int-put_ints (put_int buffer i x) (i + 4) k j vs v (omega arith)
      (omega (arith, length-put_int buffer i x)) found h

-- Every element of a list satisfies a predicate.
abbrev pub All {ℓ κ} : {A : Type ℓ} → (A → Type κ) → List A → Type κ
All P [] = Unit
All P (x ∷ xs) = P x × All P xs

pub All-get_elem? {ℓ κ} :
    {A : Type ℓ} (P : A → Type κ) (xs : List A) (k : ℕ) (x : A)
    → All P xs
    → get_elem? xs k ≡ some x
    → P x
All-get_elem? P [] k x h e = ground arith
All-get_elem? P (y ∷ xs) zero x h e = ground arith
All-get_elem? P (y ∷ xs) (suc k) x h e = All-get_elem? P xs k x h.1 e

-- The same for a message that starts the buffer, all of whose fields are values of an `int`.
pub field_at :
    (buffer : Bytes) (vs : List ℤ) (k j : ℕ) (v : ℤ)
    → j ≡ 4 * k
    → All IsInt vs
    → 4 * length vs ≤ length buffer
    → get_elem? vs k ≡ some v
    → get_int (put_ints buffer 0 vs) j ≡ v
field_at buffer vs k j v e h fits found =
    get_int-put_ints buffer 0 k j vs v (omega arith) (omega arith) found
      (All-get_elem? IsInt vs k v h found)
