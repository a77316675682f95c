-- ===== src/Client/Timer.antt =====
-- ClientTimer of ClientTimer.cpp, over what it uses of std::chrono: points of time, and durations as
-- doubles, of which `huge` is 9999999999.9 microseconds.
use raft_distributed_kv.Prelude.{
  ◌≡◌, ◌⊎◌, Option, some, ◌>>=◌, Bool, true, false, if◌then◌else◌, List, [], ◌∷◌, ◌++◌, ℤ, pos,
  ◌+ℤ◌, arith, Bool-cases, Option-cases, inl, inr,
}
use raft_distributed_kv.Words.RoundTrip.{All}
use raft_distributed_kv.Metadata.{checked}

pub record Chrono : Type 1 where
  pub Time : Type 0
  pub Duration : Type 0
  pub nought : Duration
  pub huge : Duration
  pub since : Time → Time → Duration
  pub plus : Duration → Duration → Duration
  pub less : Duration → Duration → Bool

module _ (K : Chrono) where
  open K use {Time, Duration, nought, huge, since, plus, less}

  pub record ClientTimer : Type 0 where
    pub sum : Duration
    pub max : Duration
    pub min : Duration
    pub op_count : ℤ
    pub start_time : Time
    pub elapsed_time : Duration

  -- ClientTimer(): the last two fields are what the memory held.
  unfoldable pub init : Time → Duration → ClientTimer
  init start elapsed = record {
    sum = nought;
    max = nought;
    min = huge;
    op_count = pos 0;
    start_time = start;
    elapsed_time = elapsed;
  }

  -- `Start` and `End` at a point of time.
  unfoldable pub start_at : Time → ClientTimer → ClientTimer
  start_at now t = record t { start_time = now }

  unfoldable pub end_at : Time → ClientTimer → ClientTimer
  end_at now t = record t { elapsed_time = since now t.start_time }

  unfoldable pub end_and_merge : Time → ClientTimer → Option ClientTimer
  end_and_merge now t = do
    let t1 = end_at now t
    count ← checked (t1.op_count +ℤ pos 1)
    some (record t1 {
      op_count = count;
      sum = plus t1.sum t1.elapsed_time;
      min = if less t1.elapsed_time t1.min then t1.elapsed_time else t1.min;
      max = if less t1.max t1.elapsed_time then t1.elapsed_time else t1.max;
    })

  unfoldable pub merge : ClientTimer → ClientTimer → Option ClientTimer
  merge t timer = do
    count ← checked (t.op_count +ℤ timer.op_count)
    some (record t {
      sum = plus t.sum timer.sum;
      op_count = count;
      min = if less timer.min t.min then timer.min else t.min;
      max = if less t.max timer.max then timer.max else t.max;
    })

  -- What the comparison of doubles satisfies where no operand is NaN.
  pub record IsOrder : Type 0 where
    pub less_irrefl : (a : Duration) → less a a ≡ false
    pub less_asym : (a b : Duration) → less a b ≡ true → less b a ≡ false
    pub less_cotrans : (a b c : Duration) → less a c ≡ true → (less a b ≡ true) ⊎ (less b c ≡ true)

  -- Every one of the durations lies between `min` and `max`.
  abbrev pub Covers : ClientTimer → List Duration → Type 0
  Covers t = All (λ d. (less d t.min ≡ false) × (less t.max d ≡ false))

  module _ (order : IsOrder) where
    low_wider : (d a b : Duration) → less d a ≡ false → less a b ≡ false → less d b ≡ false
    low_wider d a b h e = elim (Bool-cases (less d b)) [
      | inl y ↦ ground (arith, h, e, order.less_cotrans d a b y)
      | inr n ↦ n
    ]

    high_wider : (d a b : Duration) → less a d ≡ false → less b a ≡ false → less b d ≡ false
    high_wider d a b h e = elim (Bool-cases (less b d)) [
      | inl y ↦ ground (arith, h, e, order.less_cotrans b a d y)
      | inr n ↦ n
    ]

    -- Bounds that are no closer cover the same durations.
    Covers-wider :
        (t t' : ClientTimer) (ds : List Duration)
        → less t.min t'.min ≡ false
        → less t'.max t.max ≡ false
        → Covers t ds
        → Covers t' ds
    Covers-wider t t' [] lo hi c = c
    Covers-wider t t' (d ∷ ds) lo hi c = (
      (low_wider d t.min t'.min c.0.0 lo, high_wider d t.max t'.max c.0.1 hi),
      Covers-wider t t' ds lo hi c.1,
    )

    Covers-append :
        (t : ClientTimer) (ds es : List Duration) → Covers t ds → Covers t es → Covers t (ds ++ es)
    Covers-append t [] es c e = e
    Covers-append t (d ∷ ds) es c e = (c.0, Covers-append t ds es c.1 e)

    -- If the comparison of durations is an order, all durations of a timer lie between min and
    -- max, and EndAndMerge does not overflow, they and the new duration lie between the new min
    -- and max.
    pub end_and_merge-Covers :
        (now : Time) (t t' : ClientTimer) (ds : List Duration)
        → end_and_merge now t ≡ some t'
        → Covers t ds
        → Covers t' (since now t.start_time ∷ ds)
    unfolding end_and_merge end_at
    end_and_merge-Covers now t t' ds e c =
        let d = since now t.start_time in
        elim (Option-cases (checked (t.op_count +ℤ pos 1))) [
          | inl f ↦ ground arith
          | inr (count, f) ↦
              let self = order.less_irrefl d in
              let low = order.less_irrefl t.min in
              let high = order.less_irrefl t.max in
              let below = order.less_asym d t.min in
              let above = order.less_asym t.max d in
              (
                (ground (arith, self), ground (arith, self)),
                Covers-wider t t' ds (ground (arith, low, below)) (ground (arith, high, above)) c,
              )
        ]

    -- If the comparison of durations is an order, the durations of two timers lie between their
    -- min and max, and Merge does not overflow, all of them lie between min and max of the
    -- merged timer.
    pub merge-Covers :
        (t timer t' : ClientTimer) (ds es : List Duration)
        → merge t timer ≡ some t'
        → Covers t ds
        → Covers timer es
        → Covers t' (ds ++ es)
    unfolding merge
    merge-Covers t timer t' ds es e c c' =
        elim (Option-cases (checked (t.op_count +ℤ timer.op_count))) [
          | inl f ↦ ground arith
          | inr (count, f) ↦
              let low = order.less_irrefl t.min in
              let high = order.less_irrefl t.max in
              let low' = order.less_irrefl timer.min in
              let high' = order.less_irrefl timer.max in
              let below = order.less_asym timer.min t.min in
              let above = order.less_asym t.max timer.max in
              Covers-append t' ds es
                (Covers-wider t t' ds (ground (arith, low, below)) (ground (arith, high, above)) c)
                (Covers-wider timer t' es (ground (arith, low')) (ground (arith, high')) c')
        ]
