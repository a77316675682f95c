-- ===== src/Metadata/Commit/Majority.antt =====
-- The loops of CommitLog against what they compute: the largest length that a majority has
-- acknowledged.
use raft_distributed_kv.Prelude.{
  ℕ, zero, suc, ◌+◌, ◌*◌, ◌<◌, ◌≡◌, refl, ap, sym, ◌∙◌, ◌⊎◌, inl, inr, List, [], ◌∷◌, some, true,
  false, if◌then◌else◌, ltb, length, arith, ℤ, pos, ◌+ℤ◌, ◌≤ℤ◌, ◌<ℤ◌, leb_ℤ, +ℤ_parts, eq_of_parts,
  Bool-cases, Option-cases, get_elem?,
}
use native.Mathlib.Nat.{zero-add}
use raft_distributed_kv.Metadata.{at}
use raft_distributed_kv.Metadata.Ints.{at_pos}
use raft_distributed_kv.Metadata.Commit.{count_acks, find_commit}

-- How many servers have acknowledged at least the length i.
abbrev pub acked : ℤ → List ℤ → ℕ
acked i [] = 0
acked i (x ∷ acks) = if leb_ℤ i x then acked i acks + 1 else acked i acks

-- More than half of the servers have.
abbrev pub HasMajority : List ℤ → ℤ → Type 0
HasMajority acks i = length acks < acked i acks * 2

at-tail : (x : ℤ) (acks : List ℤ) (j k : ℕ) → k ≡ suc j → at (x ∷ acks) (pos k) ≡ at acks (pos j)
at-tail x acks j k e = at_pos (x ∷ acks) k ∙ ap (get_elem? (x ∷ acks)) e ∙ sym (at_pos acks j)

count_acks-tail :
    (x : ℤ) (acks : List ℤ) (n j k : ℕ) (i : ℤ) (count : ℕ)
    → k ≡ suc j
    → count_acks (x ∷ acks) n k i count ≡ count_acks acks n j i count
unfolding count_acks
count_acks-tail x acks zero j k i count e = refl
count_acks-tail x acks (suc n) j k i count e = elim (Option-cases (at acks (pos j))) [
  | inl out ↦ rw (at-tail x acks j k e, out)
  | inr (ack, found) ↦
      rw (at-tail x acks j k e, found)
        (count_acks-tail x acks n (j + 1) (k + 1) i (if leb_ℤ i ack then count + 1 else count)
          (omega arith))
]

-- The inner loop counts them.
pub count_acks_lem :
    (acks : List ℤ) (i : ℤ) (count : ℕ)
    → count_acks acks (length acks) 0 i count ≡ some (count + acked i acks)
unfolding count_acks at
count_acks_lem [] i count = ground arith
count_acks_lem (x ∷ acks) i count =
    count_acks-tail x acks (length acks) 0 1 i (if leb_ℤ i x then count + 1 else count) refl
    ∙ count_acks_lem acks i (if leb_ℤ i x then count + 1 else count)
    ∙ ap some (ground arith)

-- One round of the outer loop.
find_commit_step :
    (acks : List ℤ) (n : ℕ) (i until : ℤ)
    → find_commit acks (length acks) (suc n) i until
      ≡ find_commit acks
          (length acks)
          n
          (i +ℤ pos 1)
          (if ltb (length acks) (acked i acks * 2) then i else until)
unfolding find_commit
find_commit_step acks n i until = rw (count_acks_lem acks i 0, zero-add)

-- The outer loop from i on does not fault, and finds the last length that has a majority, or leaves
-- `commit_until` as it was.
pub record Found (acks : List ℤ) (n : ℕ) (i until r : ℤ) : Type 0 where
  pub result : find_commit acks (length acks) n i until ≡ some r
  pub origin : (r ≡ until) ⊎ ((i ≤ℤ r) × (r <ℤ i +ℤ pos n) × HasMajority acks r)
  pub largest : (k : ℤ) → i ≤ℤ k → k <ℤ i +ℤ pos n → HasMajority acks k → k ≤ℤ r
  pub grows : until <ℤ i → until ≤ℤ r

module _ (acks : List ℤ) (n : ℕ) (i until r : ℤ) where
  shift : i +ℤ pos 1 +ℤ pos n ≡ i +ℤ pos (suc n)
  shift =
      eq_of_parts _ _
        (omega (arith, +ℤ_parts i (pos 1), +ℤ_parts (i +ℤ pos 1) (pos n), +ℤ_parts i (pos (suc n))))

  Found-hit :
      ltb (length acks) (acked i acks * 2) ≡ true
      → Found acks n (i +ℤ pos 1) i r
      → Found acks (suc n) i until r
  Found-hit hit f = record {
    result = find_commit_step acks n i until ∙ rw hit f.result;
    origin = inr (above, below, held);
    largest = λ k low high maj. elim (Bool-cases (leb_ℤ (i +ℤ pos 1) k)) [
      | inl e ↦ f.largest k (ground arith) (rw shift high) maj
      | inr e ↦ ground (arith, +ℤ_parts i (pos 1), above)
    ];
    grows = λ h. omega (arith, above);
  }
    where
      above : i ≤ℤ r
      above = f.grows (omega (arith, +ℤ_parts i (pos 1)))

      held : HasMajority acks r
      held = ground (arith, f.origin)

      below : r <ℤ i +ℤ pos (suc n)
      below = ground (arith, f.origin, shift, +ℤ_parts i (pos (suc n)))

  Found-miss :
      ltb (length acks) (acked i acks * 2) ≡ false
      → Found acks n (i +ℤ pos 1) until r
      → Found acks (suc n) i until r
  Found-miss miss f = record {
    result = find_commit_step acks n i until ∙ rw miss f.result;
    origin = ground (arith, f.origin, shift, +ℤ_parts i (pos 1));
    largest = λ k low high maj. elim (Bool-cases (leb_ℤ (i +ℤ pos 1) k)) [
      | inl e ↦ f.largest k (ground arith) (rw shift high) maj
      | inr e ↦ ground (arith, +ℤ_parts i (pos 1), eq_of_parts i k)
    ];
    grows = λ h. f.grows (omega (arith, +ℤ_parts i (pos 1)));
  }

pub find_commit_lem : (acks : List ℤ) (n : ℕ) (i until : ℤ) → (r : ℤ) × Found acks n i until r
unfolding find_commit
find_commit_lem acks zero i until = (
  until,
  record {
    result = refl;
    origin = inl refl;
    largest = λ k low high maj. absurd (omega (arith, +ℤ_parts i (pos 0)));
    grows = λ h. omega arith;
  },
)
find_commit_lem acks (suc n) i until =
    let (r, f) = find_commit_lem acks n (i +ℤ pos 1) i in
    let (r', f') = find_commit_lem acks n (i +ℤ pos 1) until in
    elim (Bool-cases (ltb (length acks) (acked i acks * 2))) [
      | inl hit ↦ (r, Found-hit acks n i until r hit f)
      | inr miss ↦ (r', Found-miss acks n i until r' miss f')
    ]
