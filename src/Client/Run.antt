-- ===== src/Client/Run.antt =====
-- `main` of ClientMain.cpp: its arguments, and the timer that sums up the threads. The threads
-- themselves are ThreadBody (Client), which run between Start and End.
use raft_distributed_kv.Prelude.{
  ℕ, ◌≡◌, Option, some, ◌>>=◌, List, [], ◌∷◌, ◌++◌, ltb, length, get_elem?, map, ℤ, arith,
  Option-cases, inl, inr, if◌then◌else◌, subst, sym, append-nil, append_assoc,
}
use raft_distributed_kv.Words.RoundTrip.{All}
use raft_distributed_kv.Main.{number_at}
use raft_distributed_kv.Client.Timer
use raft_distributed_kv.Client.Timer.{
  Chrono, ClientTimer, IsOrder, Covers, start_at, end_at, merge, merge-Covers,
}

pub data Task : Type 0 where
  usage : Task
  customers : (ip : List ℕ) (port num_customers num_orders request_type : ℤ) → Task

unfoldable pub read_arguments : List (List ℕ) → Option Task
read_arguments argv = if ltb (length argv) 6 then some usage else (do
  ip ← get_elem? argv 1
  port ← number_at argv 2
  num_customers ← number_at argv 3
  num_orders ← number_at argv 4
  request_type ← number_at argv 5
  some (customers ip port num_customers num_orders request_type))

module _ (K : Chrono) where
  open K use {Time, Duration}

  unfoldable pub merge_all : ClientTimer K → List (ClientTimer K) → Option (ClientTimer K)
  merge_all timer [] = some timer
  merge_all timer (t ∷ rest) = do timer' ← merge K timer t; merge_all timer' rest

  -- The threads run between `begin` and `now`; the first two arguments are what the memory held.
  unfoldable pub total_timer :
      Time → Duration → Time → Time → List (ClientTimer K) → Option (ClientTimer K)
  total_timer start elapsed begin now timers =
      merge_all (end_at K now (start_at K begin (Timer.init K start elapsed))) timers

  -- The durations of all clients.
  unfoldable pub all_durations : List (ClientTimer K × List Duration) → List Duration
  all_durations [] = []
  all_durations ((t, ds) ∷ rest) = ds ++ all_durations rest

  module _ (order : IsOrder K) where
    merge_all-Covers :
        (timer t' : ClientTimer K) (ds : List Duration)
        (clients : List (ClientTimer K × List Duration))
        → merge_all timer (map (λ c. c.0) clients) ≡ some t'
        → Covers K timer ds
        → All (λ c. Covers K c.0 c.1) clients
        → Covers K t' (ds ++ all_durations clients)
    unfolding merge_all all_durations
    merge_all-Covers timer t' ds [] e c all =
        let same : timer ≡ t' = ground (arith, e) in
        subst (Covers K t') (sym (append-nil ds)) (subst (λ t. Covers K t ds) same c)
    merge_all-Covers timer t' ds ((t, es) ∷ rest) e c all = elim (Option-cases (merge K timer t)) [
      | inl f ↦ absurd (ground (arith, e, f))
      | inr (a, f) ↦
          let step = merge-Covers K order timer t a ds es f c all.0 in
          let more = merge_all-Covers a t' (ds ++ es) rest (rw f at e) step all.1 in
          subst (Covers K t') (append_assoc ds es (all_durations rest)) more
    ]

    -- If the comparison of durations is an order, the durations of the timer of each client lie
    -- between its min and max, and no Merge overflows, all durations of all clients lie between
    -- min and max of the timer of the program.
    pub total_timer-Covers :
        (start : Time) (elapsed : Duration) (begin now : Time) (total : ClientTimer K)
        (clients : List (ClientTimer K × List Duration))
        → total_timer start elapsed begin now (map (λ c. c.0) clients) ≡ some total
        → All (λ c. Covers K c.0 c.1) clients
        → Covers K total (all_durations clients)
    unfolding total_timer
    total_timer-Covers start elapsed begin now total clients e all =
        merge_all-Covers _ total [] clients e tt all
