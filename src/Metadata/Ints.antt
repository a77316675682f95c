-- ===== src/Metadata/Ints.antt =====
-- Facts on the checked `int` operations and on the indexing of vectors in ServerMetadata.cpp.
use raft_distributed_kv.Prelude.{
  ℕ, ◌≡◌, ◌<◌, List, some, length, get_elem?, get_elem?_in_range, arith, ℤ, pos, pos_part, ◌≤ℤ◌,
  ◌<ℤ◌, int_max, int_min, length-set, get_elem?-set, get_elem?-set_ne, get_elem?_lt, set, ◌≢◌,
  eq_of_parts,
}
use raft_distributed_kv.Metadata.{checked, at, assign}

-- An operation that does not fault gives the true result.
pub checked-eq-some : (z y : ℤ) → checked z ≡ some y → y ≡ z
unfolding checked
checked-eq-some z y h = ground arith

pub checked_in_range : (z : ℤ) → int_min ≤ℤ z → z ≤ℤ int_max → checked z ≡ some z
unfolding checked
checked_in_range z low high = ground arith

pub checked_le : (z y : ℤ) → checked z ≡ some y → (y ≤ℤ int_max)
unfolding checked
checked_le z y h = ground arith

module _ {ℓ} {A : Type ℓ} where
  -- An index in range is not a fault.
  pub at_in_range :
      (xs : List A) (i : ℤ) → pos 0 ≤ℤ i → i <ℤ pos (length xs) → (a : A) × (at xs i ≡ some a)
  unfolding at
  at_in_range xs i low high =
      let (a, found) = get_elem?_in_range xs (pos_part i) (ground arith) in (a, ground arith)

  pub at_pos : (xs : List A) (i : ℕ) → at xs (pos i) ≡ get_elem? xs i
  unfolding at
  at_pos xs i = ground arith

  pub at-eq-some :
      (xs : List A) (i : ℤ) (a : A)
      → at xs i ≡ some a
      → (i ≡ pos (pos_part i)) × (get_elem? xs (pos_part i) ≡ some a)
  unfolding at
  at-eq-some xs i a h = ground arith

  pub length-assign :
      (xs : List A) (i : ℤ) (v : A) (ys : List A) → assign xs i v ≡ some ys → length ys ≡ length xs
  unfolding assign
  length-assign xs i v ys h = ground (arith, length-set xs (pos_part i) v)

-- A write does not touch the other places.
pub at-assign_ne :
    (xs : List ℤ) (i j v : ℤ) (ys : List ℤ)
    → assign xs i v ≡ some ys
    → pos 0 ≤ℤ j
    → i ≢ j
    → at ys j ≡ at xs j
unfolding assign at
at-assign_ne xs i j v ys h low ne =
    ground (arith, get_elem?-set_ne xs (pos_part i) (pos_part j) v, eq_of_parts i j)

-- Where one array has a place, another of the same length can be written.
pub assign_in_range {ℓ κ} :
    {A : Type ℓ} {B : Type κ} (xs : List B) (i : ℤ) (b : B) (ys : List A) (v : A)
    → at xs i ≡ some b
    → length ys ≡ length xs
    → (zs : List A) × (assign ys i v ≡ some zs) × (at zs i ≡ some v) × (length zs ≡ length ys)
unfolding assign at
assign_in_range xs i b ys v h same =
    let (sign, found) = at-eq-some xs i b h in
    let place : pos_part i < length ys =
      omega (arith, get_elem?_lt xs (pos_part i) b found, same) in
    (
      set ys (pos_part i) v,
      ground arith,
      ground (arith, get_elem?-set ys (pos_part i) v place),
      length-set ys (pos_part i) v,
    )
