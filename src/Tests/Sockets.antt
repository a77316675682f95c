-- ===== src/Tests/Sockets.antt =====
-- Send and Recv over a connection that carries one byte at a time.
use raft_distributed_kv.Prelude.{
  ℕ, ◌<◌, ◌≡◌, ◌⊎◌, refl, inl, inr, pos_part, ◌≤ℤ◌, true, false, [], ◌∷◌, ◌++◌, length, take, drop,
  replicate, ℤ, pos, minus_one, IsInt, arith, returned,
}
use raft_distributed_kv.Words.{Bytes, put_ints, put_int, store, htonl, to_word}
use raft_distributed_kv.Words.RoundTrip.{All}
use raft_distributed_kv.Messages.LogRequest
use raft_distributed_kv.Messages.LogRequest.{LogRequest}
use raft_distributed_kv.Sockets.{
  Calls, SocketState, send_loop, send_all, recv_loop, recv_all, overwrite, close_socket,
}
use raft_distributed_kv.Sockets.Stream.{IsStream}
use raft_distributed_kv.Sockets.Writes.{IsSent, send_all_total}
use raft_distributed_kv.Sockets.Reads.{IsReceived, recv_all_total}
use raft_distributed_kv.Sockets.Delivery.{message_delivered}
use raft_distributed_kv.Messages.Kinds.{log_request_kind}

-- What was written, and what is to come.
abbrev pub Wire : Type 0
Wire = Bytes × Bytes

abbrev read_byte : Wire → (ℤ × Bytes) × Wire
read_byte (out, []) = ((pos 0, []), (out, []))
read_byte (out, b ∷ bs) = ((pos 1, b ∷ []), (out, bs))

abbrev pub drip : Calls
drip = record {
  World = Wire;
  send = λ fd chunk w. (pos 1, (w.0 ++ take 1 chunk, w.1));
  recv = λ fd size w. read_byte w;
  shutdown = λ fd w. w;
  close = λ fd w. w;
  setsockopt = λ fd on w. (pos 0, w);
  socket = λ w. (pos 3, w);
  bind = λ fd port w. (pos 0, w);
  listen = λ fd backlog w. w;
  accept = λ fd w. (pos 4, w);
  connect = λ fd ip port w. (pos 0, w);
}

drip_recv :
    (size : ℕ) (w : Wire)
    → 0 < size
    → ((read_byte w).0.0 ≤ℤ pos 0)
      ⊎ ((pos 1 ≤ℤ (read_byte w).0.0)
          × ((read_byte w).0.0 ≤ℤ pos size)
          × (length (read_byte w).0.1 ≡ pos_part (read_byte w).0.0)
          × ((read_byte w).0.1 ≡ take (pos_part (read_byte w).0.0) w.1)
          × ((read_byte w).1.1 ≡ drop (pos_part (read_byte w).0.0) w.1))
drip_recv size (out, []) h = inl (omega arith)
drip_recv size (out, b ∷ bs) h = inr (omega arith, omega arith, refl, refl, refl)

drip-IsStream : (fd : ℤ) → IsStream drip fd
drip-IsStream fd = record {
  written = λ w. w.0;
  pending = λ w. w.1;
  send_some = λ chunk w h. inr (omega arith, omega arith, refl);
  recv_some = drip_recv;
  close_writes_nothing = λ w. refl;
}

abbrev connected : SocketState
connected = record { fd = pos 3; is_initialized = true; nagle = true }

abbrev closed : SocketState
closed = record { fd = minus_one; is_initialized = false; nagle = true }

send_all_total_example :
    (code : ℤ) × (s' : SocketState) × (w' : Wire) × (send_all drip 4
        (1 ∷ 2 ∷ 3 ∷ 4 ∷ [])
        4
        connected
        ([], [])
      ≡ returned (code, (s', w')))
    × IsSent drip connected (drip-IsStream (pos 3)) (1 ∷ 2 ∷ 3 ∷ 4 ∷ []) 0 4 s' ([], []) w' code
send_all_total_example =
    send_all_total drip connected (drip-IsStream (pos 3)) 4 (1 ∷ 2 ∷ 3 ∷ 4 ∷ []) 4 ([], [])
      (omega arith) (omega arith)

recv_all_total_example :
    (code : ℤ) × (buffer' : Bytes) × (s' : SocketState) × (w' : Wire) × (recv_all drip 4
        (replicate 8 0)
        4
        connected
        ([], 1 ∷ 2 ∷ 3 ∷ 4 ∷ 5 ∷ [])
      ≡ returned (code, (buffer', (s', w'))))
    × IsReceived drip connected
        (drip-IsStream (pos 3))
        (replicate 8 0)
        buffer'
        0
        4
        s'
        ([], 1 ∷ 2 ∷ 3 ∷ 4 ∷ 5 ∷ [])
        w'
        code
recv_all_total_example =
    recv_all_total drip connected (drip-IsStream (pos 3)) 4 (replicate 8 0) 4
      ([], 1 ∷ 2 ∷ 3 ∷ 4 ∷ 5 ∷ []) (omega arith) (omega arith)

-- The peer has gone after two bytes.
short_runs :
    recv_all drip 4 (replicate 4 0) 4 connected ([], 1 ∷ 2 ∷ [])
    ≡ returned (pos 0, (1 ∷ 2 ∷ 0 ∷ 0 ∷ [], (closed, ([], []))))
unfolding recv_all recv_loop overwrite close_socket
short_runs = refl

abbrev request : LogRequest
request = record {
  leader_id = pos 0;
  current_term = pos 3;
  prefix_length = pos 2;
  prefix_term = pos 2;
  commit_length = pos 1;
  op_term = pos 3;
  op_arg1 = pos 7;
  op_arg2 = pos 1;
}

request-ints : All IsInt (LogRequest.fields request)
request-ints = omega arith

abbrev on_wire : Bytes
on_wire =
    0 ∷ 0 ∷ 0 ∷ 0 ∷ 0 ∷ 0 ∷ 0 ∷ 3 ∷ 0 ∷ 0 ∷ 0 ∷ 2 ∷ 0 ∷ 0 ∷ 0 ∷ 2 ∷ 0 ∷ 0 ∷ 0 ∷ 1 ∷ 0 ∷ 0 ∷ 0 ∷ 3
    ∷ 0 ∷ 0 ∷ 0 ∷ 7 ∷ 0 ∷ 0 ∷ 0 ∷ 1 ∷ []

sent_runs :
    send_all drip 32 (LogRequest.marshal request (replicate 64 0)) 32 connected ([], [])
    ≡ returned (pos 1, (connected, (on_wire, [])))
unfolding send_all send_loop LogRequest.marshal put_ints put_int store htonl to_word
sent_runs = refl

got_runs :
    recv_all drip 32 (replicate 64 0) 32 connected ([], on_wire ++ 9 ∷ [])
    ≡ returned (pos 1, (on_wire ++ replicate 32 0, (connected, ([], 9 ∷ []))))
unfolding recv_all recv_loop overwrite
got_runs = refl

message_delivered_example : LogRequest.unmarshal (on_wire ++ replicate 32 0) ≡ request
unfolding drip-IsStream
message_delivered_example =
    message_delivered drip drip connected connected (drip-IsStream (pos 3)) (drip-IsStream (pos 3))
      log_request_kind request (replicate 64 0) (replicate 64 0) 32 32 connected connected ([], [])
      (on_wire, []) ([], on_wire ++ 9 ∷ []) ([], 9 ∷ []) (9 ∷ []) (on_wire ++ replicate 32 0)
      request-ints (omega arith) (omega arith) (omega arith) (omega arith) sent_runs refl got_runs
