-- ===== src/Metadata/Invariant.antt =====
-- What holds of a server between two operations of ServerMetadata.cpp: `log_size` counts the log, the
-- committed part lies within it, and `customer_record` is the state machine after that part.
use raft_distributed_kv.Prelude.{
  ℕ, zero, suc, ◌<◌, ◌≡◌, refl, ap, ◌∙◌, List, [], ◌∷◌, ◌++◌, some, length, take, get_elem?, arith,
  pos, pos_part, ◌≤ℤ◌, int_max,
}
use raft_distributed_kv.Metadata.{ServerMetadata, MapOp, IntMap, put, init}

-- The state machine of the specification: the operations, applied in order.
unfoldable pub apply : IntMap → MapOp → IntMap
apply record_map op = put record_map op.arg1 op.arg2

unfoldable pub replay : IntMap → List MapOp → IntMap
unfolding apply
replay record_map [] = record_map
replay record_map (op ∷ ops) = replay (apply record_map op) ops

pub record IsValid (m : ServerMetadata) : Type 0 where
  pub sized : m.log_size ≡ pos (length m.smr_log)
  pub fits : m.log_size ≤ℤ int_max
  pub committed_low : pos 0 ≤ℤ m.commit_length
  pub committed_high : m.commit_length ≤ℤ m.log_size

-- `customer_record` holds what the committed operations have written, and nothing else.
abbrev pub IsApplied : ServerMetadata → Type 0
IsApplied m = m.customer_record ≡ replay [] (take (pos_part m.commit_length) m.smr_log)

-- What every operation keeps: a well-formed log whose committed part is what the state machine holds.
pub record IsSound (m : ServerMetadata) : Type 0 where
  pub valid : IsValid m
  pub applied : IsApplied m

init-IsValid : IsValid init
unfolding init
init-IsValid = ground arith

init-IsApplied : IsApplied init
unfolding init replay
init-IsApplied = refl

-- A server starts so.
pub init-IsSound : IsSound init
init-IsSound = record { valid = init-IsValid; applied = init-IsApplied }

pub take-append {ℓ} :
    {A : Type ℓ} (n : ℕ) (xs : List A) (y : A)
    → n < suc (length xs)
    → take n (xs ++ y ∷ []) ≡ take n xs
take-append zero xs y h = refl
take-append (suc n) [] y h = absurd (omega arith)
take-append (suc n) (x ∷ xs) y h = ap (λ r. x ∷ r) (take-append n xs y (omega arith))

pub take-suc {ℓ} :
    {A : Type ℓ} (n : ℕ) (xs : List A) (x : A)
    → get_elem? xs n ≡ some x
    → take (suc n) xs ≡ take n xs ++ x ∷ []
take-suc n [] x h = ground arith
take-suc zero (y ∷ xs) x h = ground arith
take-suc (suc n) (y ∷ xs) x h = ap (λ r. y ∷ r) (take-suc n xs x h)

pub replay-append :
    (r : IntMap) (xs : List MapOp) (op : MapOp) → replay r (xs ++ op ∷ []) ≡ apply (replay r xs) op
unfolding replay
replay-append r [] op = refl
replay-append r (x ∷ xs) op = replay-append (apply r x) xs op

-- One more committed operation is one more step of the state machine.
pub replay_next :
    (log : List MapOp) (n : ℕ) (op : MapOp)
    → get_elem? log n ≡ some op
    → replay [] (take (suc n) log) ≡ put (replay [] (take n log)) op.arg1 op.arg2
unfolding apply
replay_next log n op h = ap (replay []) (take-suc n log op h) ∙ replay-append [] (take n log) op
