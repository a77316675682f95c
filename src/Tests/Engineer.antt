-- ===== src/Tests/Engineer.antt =====
-- The thread of a connection at concrete states, over the scripted network of Tests/Leader.
use raft_distributed_kv.Prelude.{◌≡◌, ◌≢◌, refl, none, some, List, [], ◌∷◌, pos, arith}
use raft_distributed_kv.Words.{Bytes}
use raft_distributed_kv.Messages.Identifier
use raft_distributed_kv.Messages.CustomerRequest
use raft_distributed_kv.Messages.LaptopInfo.{
  LaptopInfo, copy_request, set_engineer_id, set_admin_id,
}
use raft_distributed_kv.Messages.LogRequest.{LogRequest}
use raft_distributed_kv.Stub.{identify_sender, ship_laptop, receive_request, send_is_leader}
use raft_distributed_kv.Metadata.{is_leader}
use raft_distributed_kv.Factory.{greet_customer, customer_round, push_order}
use raft_distributed_kv.Factory.Threads.{Factory, take_order}
use raft_distributed_kv.Factory.Engineer.{
  ended, Schedule, engineer_thread, customer_handler, serve_customer, get_future, identified,
}
use raft_distributed_kv.Factory.Engineer.Ends.{peer_thread_endless}
use raft_distributed_kv.Tests.{again}
use raft_distributed_kv.Tests.Leader.{scripted, leading, code}

-- While a thread waits for a laptop, LeaderThread takes the first order; else nothing happens.
abbrev served : Factory (List Bytes) → Factory (List Bytes)
served f = elim (take_order scripted (pos 1) f) [ none ↦ f | some g ↦ g ]

abbrev one_leader : LogRequest → Schedule (List Bytes)
one_leader request = record {
  others = λ n f. f;
  awaited = λ n f. served f;
  prom = λ n. n;
  msg_memory = λ n. again;
  request_memory = λ n. request;
}

abbrev around_request : LogRequest
around_request = record {
  leader_id = pos 0;
  current_term = pos 0;
  prefix_length = pos 0;
  prefix_term = pos 0;
  commit_length = pos 0;
  op_term = pos 0;
  op_arg1 = pos 0;
  op_arg2 = pos 0;
}

abbrev around : Schedule (List Bytes)
around = one_leader around_request

-- Customer 9 says who it is, orders for the second time, and leaves.
abbrev ordering : Factory (List Bytes)
ordering = record {
  meta = leading;
  net = (0 ∷ 0 ∷ 0 ∷ 2 ∷ []) ∷ (0 ∷ 0 ∷ 0 ∷ 9 ∷ 0 ∷ 0 ∷ 0 ∷ 2 ∷ 0 ∷ 0 ∷ 0 ∷ 1 ∷ []) ∷ [];
  erq = [];
  taken = [];
  promises = [];
  seen = none;
}

abbrev made : LaptopInfo
made = record {
  customer_id = pos 9;
  order_number = pos 2;
  request_type = pos 1;
  engineer_id = pos 5;
  admin_id = pos 1;
}

abbrev left : Factory (List Bytes)
left = record ordering {
  net = [];
  taken = record { laptop = made; prom = 1; stub = 8 } ∷ [];
  promises = (1, made) ∷ [];
}

ordering_runs : engineer_thread scripted around 2 (pos 5) 8 ordering ≡ ended left
unfolding code engineer_thread identify_sender Identifier.unmarshal customer_handler greet_customer
    is_leader identified serve_customer customer_round CustomerRequest.is_valid receive_request
    CustomerRequest.init CustomerRequest.unmarshal push_order get_future ship_laptop take_order
    copy_request set_engineer_id set_admin_id send_is_leader
ordering_runs = refl

-- A server says who it is, and hangs up.
abbrev hung_up : Factory (List Bytes)
hung_up = record ordering { net = (0 ∷ 0 ∷ 0 ∷ 1 ∷ []) ∷ [] }

named_server : (identify_sender scripted 8 hung_up.net).0 ≡ pos 1
unfolding code identify_sender Identifier.unmarshal
named_server = refl

peer_thread_endless_example : engineer_thread scripted around 3 (pos 5) 8 hung_up ≢ ended hung_up
peer_thread_endless_example =
    peer_thread_endless scripted around 3 (pos 5) 8 hung_up hung_up (ground (arith, named_server))
