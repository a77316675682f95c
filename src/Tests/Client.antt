-- ===== src/Tests/Client.antt =====
-- The client, its timer and the start of a server at concrete values.
use raft_distributed_kv.Prelude.{
  ℕ, ◌-◌, ◌+◌, ◌≡◌, refl, true, false, ltb, List, [], ◌∷◌, some, pos, ◌+ℤ◌, ◌-ℤ◌, arith, replicate,
}
use raft_distributed_kv.Metadata.{checked}
use raft_distributed_kv.Rpc.Transport.{Transport}
use raft_distributed_kv.Client.{request_loop}
use raft_distributed_kv.Client.Timer.{
  Chrono, ClientTimer, IsOrder, Covers, end_at, start_at, end_and_merge, merge,
  end_and_merge-Covers,
}
use raft_distributed_kv.Client.Timer
use raft_distributed_kv.Client.Run.{total_timer, merge_all, all_durations, total_timer-Covers}
use raft_distributed_kv.Client.Requests.{follower_takes_update}
use raft_distributed_kv.Address.{times_ten}
use raft_distributed_kv.Sockets.{SocketState}
use raft_distributed_kv.Tests.Sockets.{Wire, drip}
use raft_distributed_kv.Main.{Setup, atoi, read_digits, setup}
use raft_distributed_kv.Main.Peers.{AreNumbers, IsSetup, setup_total}

-- Whole microseconds.
abbrev ticks : Chrono
ticks = record {
  Time = ℕ;
  Duration = ℕ;
  nought = 0;
  huge = 9999999999;
  since = λ now start. now - start;
  plus = λ a b. a + b;
  less = ltb;
}

ticks-IsOrder : IsOrder ticks
ticks-IsOrder = record {
  less_irrefl = λ a. ground arith;
  less_asym = λ a b h. ground arith;
  less_cotrans = λ a b c h. ground arith;
}

abbrev timer : ℕ → ClientTimer ticks
timer d = record { sum = d; max = d; min = d; op_count = pos 1; start_time = 10; elapsed_time = d }

abbrev timed : ClientTimer ticks
timed = record { sum = 12; max = 7; min = 5; op_count = pos 2; start_time = 10; elapsed_time = 7 }

timed_runs : end_and_merge ticks 17 (timer 5) ≡ some timed
unfolding end_and_merge end_at checked ◌+ℤ◌
timed_runs = refl

abbrev total : ClientTimer ticks
total = record { sum = 15; max = 7; min = 3; op_count = pos 3; start_time = 2; elapsed_time = 30 }

abbrev clients : List (ClientTimer ticks × List ℕ)
clients = (timed, 7 ∷ 5 ∷ []) ∷ (timer 3, 3 ∷ []) ∷ []

total_runs : total_timer ticks 0 0 2 32 (timed ∷ timer 3 ∷ []) ≡ some total
unfolding total_timer merge_all merge start_at end_at Timer.init checked ◌+ℤ◌
total_runs = refl

total_timer-Covers_example : Covers ticks total (all_durations ticks clients)
total_timer-Covers_example =
    total_timer-Covers ticks ticks-IsOrder 0 0 2 32 total clients total_runs
      (((refl, refl), ((refl, refl), tt)), (((refl, refl), tt), tt))

-- A server to which nothing can be sent.
abbrev mute : Transport
mute = record {
  Net = ℕ;
  send = λ socket bytes net. (false, net + 1);
  recv = λ socket size net. ((false, replicate 32 0), net);
  connect = λ ip port net. ((true, 9), net);
  reconnect = λ socket ip port net. ((true, 9), net);
  close = λ socket net. net;
}

follower_takes_update_example :
    request_loop mute 5 (pos 0) (pos 7) (pos 1) (pos 1) 9 0 0
    ≡ request_loop mute 5 (pos 0) (pos 7) (pos 1) (pos 2) 9 0 0
follower_takes_update_example = follower_takes_update mute 5 (pos 0) (pos 7) 9 0 0

-- ./server 12345 0 1 1 10 12345
abbrev pub arguments : List (List ℕ)
arguments =
    (46 ∷ 47 ∷ [])
    ∷ (49 ∷ 50 ∷ 51 ∷ 52 ∷ 53 ∷ [])
    ∷ (48 ∷ [])
    ∷ (49 ∷ [])
    ∷ (49 ∷ [])
    ∷ (49 ∷ 48 ∷ [])
    ∷ (49 ∷ 50 ∷ 51 ∷ 52 ∷ 53 ∷ [])
    ∷ []

pub arguments-AreNumbers : AreNumbers arguments
unfolding atoi read_digits times_ten checked ◌+ℤ◌ ◌-ℤ◌
arguments-AreNumbers = (
  (pos 0, refl),
  (
    (pos 12345, refl),
    ((pos 0, refl), ((pos 1, refl), ((pos 1, refl), ((pos 10, refl), ((pos 12345, refl), tt))))),
  ),
)

setup_total_example :
    (out : Setup × (SocketState × Wire)) × (setup drip (λ j. j) (pos 0) arguments ([], [])
      ≡ some out)
    × IsSetup drip (pos 0) arguments ([], []) out
setup_total_example = setup_total drip (λ j. j) (pos 0) arguments ([], []) arguments-AreNumbers
