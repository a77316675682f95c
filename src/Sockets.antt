-- ===== src/Sockets.antt =====
-- Socket, ServerSocket and ClientSocket of Socket.cpp, ServerSocket.cpp and ClientSocket.cpp, over the
-- system calls that they make. The loops of Send and Recv take fuel.
pub mod Stream
pub mod Writes
pub mod Reads
pub mod Delivery
use raft_distributed_kv.Prelude.{
  ℕ, zero, suc, ◌+◌, ◌-◌, ◌≤◌, Option, none, some, Bool, true, false, List, [], ◌∷◌, ◌++◌, ℤ, pos,
  negsuc, minus_one, ◌-ℤ◌, ◌+ℤ◌, ltb_ℤ, leb_ℤ, pos_part, take, drop, set, if◌then◌else◌, Outcome,
  returned, fault, running,
}
use raft_distributed_kv.Words.{Bytes}

-- The system calls, each with its result and the world that it leaves. A descriptor is an `int`.
-- `send` gets the bytes that it may send, `recv` how many it may read.
pub record Calls : Type 1 where
  pub World : Type 0
  pub send : ℤ → Bytes → World → ℤ × World
  pub recv : ℤ → ℕ → World → (ℤ × Bytes) × World
  pub shutdown : ℤ → World → World
  pub close : ℤ → World → World
  pub setsockopt : ℤ → Bool → World → ℤ × World
  pub socket : World → ℤ × World
  pub bind : ℤ → ℤ → World → ℤ × World
  pub listen : ℤ → ℕ → World → World
  pub accept : ℤ → World → ℤ × World
  pub connect : ℤ → List ℕ → ℤ → World → ℤ × World

-- The fields of a Socket; `nagle` is whether `nagle_` is NAGLE_ON.
pub record SocketState : Type 0 where
  pub fd : ℤ
  pub is_initialized : Bool
  pub nagle : Bool

-- Socket(): `fd_` is what the memory held.
unfoldable pub init : ℤ → SocketState
init memory = record { fd = memory; is_initialized = false; nagle = true }

-- The bytes that were read are written one after another from an offset on.
unfoldable pub overwrite : Bytes → ℕ → Bytes → Bytes
overwrite buffer offset [] = buffer
overwrite buffer offset (b ∷ bs) = overwrite (set buffer offset b) (suc offset) bs

module _ (C : Calls) where
  open C use {World}

  -- `Close`
  unfoldable pub close_socket : SocketState → World → SocketState × World
  close_socket s w =
      (record s { fd = minus_one; is_initialized = false }, C.close s.fd (C.shutdown s.fd w))

  -- The loop of Send: `size` bytes from `offset` on are left. An assertion that fails is a fault.
  unfoldable pub send_loop :
      ℕ → Bytes → ℕ → ℕ → SocketState → World → Outcome (ℤ × (SocketState × World))
  send_loop fuel buffer zero offset s w = returned (pos 1, (s, w))
  send_loop zero buffer (suc size) offset s w = running
  send_loop (suc fuel) buffer (suc size) offset s w =
      let (bytes_written, w') = C.send s.fd (take (suc size) (drop offset buffer)) w in
      elim (ltb_ℤ bytes_written (pos 0)) [
        | true ↦ returned (pos 0, close_socket s w')
        | false ↦ elim (leb_ℤ bytes_written (pos (suc size))) [
          | false ↦ fault
          | true ↦
              send_loop fuel buffer (suc size - pos_part bytes_written)
                (offset + pos_part bytes_written) s w'
        ]
      ]

  -- `Send`
  unfoldable pub send_all :
      ℕ → Bytes → ℕ → SocketState → World → Outcome (ℤ × (SocketState × World))
  send_all fuel buffer size s w = send_loop fuel buffer size 0 s w

  -- The loop of Recv, with the buffer as it is filled.
  unfoldable pub recv_loop :
      ℕ → Bytes → ℕ → ℕ → SocketState → World → Outcome (ℤ × (Bytes × (SocketState × World)))
  recv_loop fuel buffer zero offset s w = returned (pos 1, (buffer, (s, w)))
  recv_loop zero buffer (suc size) offset s w = running
  recv_loop (suc fuel) buffer (suc size) offset s w =
      let (got, w') = C.recv s.fd (suc size) w in
      elim (leb_ℤ got.0 (pos 0)) [
        | true ↦ returned (pos 0, (buffer, close_socket s w'))
        | false ↦ elim (leb_ℤ got.0 (pos (suc size))) [
          | false ↦ fault
          | true ↦
              recv_loop fuel (overwrite buffer offset got.1) (suc size - pos_part got.0)
                (offset + pos_part got.0) s w'
        ]
      ]

  -- `Recv`
  unfoldable pub recv_all :
      ℕ → Bytes → ℕ → SocketState → World → Outcome (ℤ × (Bytes × (SocketState × World)))
  recv_all fuel buffer size s w = recv_loop fuel buffer size 0 s w

  -- `NagleOn`: the field is set also if the system refuses.
  unfoldable pub nagle_on : Bool → SocketState → World → ℤ × (SocketState × World)
  nagle_on on_off s w =
      let (result, w') = C.setsockopt s.fd on_off w in
      (if ltb_ℤ result (pos 0) then pos 0 else pos 1, (record s { nagle = on_off }, w'))

  -- ServerSocket(fd, nagle_on)
  unfoldable pub server_socket : ℤ → Bool → World → SocketState × World
  server_socket fd on w =
      (nagle_on on (record { fd = fd; is_initialized = true; nagle = true }) w).1

  -- ServerSocket::Init; on an error the descriptor stays.
  unfoldable pub server_init : ℤ → SocketState → World → Bool × (SocketState × World)
  server_init port s w =
      if s.is_initialized
      then (true, (s, w))
      else (let (fd, w1) = C.socket w in
          let s1 = record s { fd = fd } in
          if ltb_ℤ fd (pos 0)
          then (false, (s1, w1))
          else (let (bound, w2) = C.bind fd port w1 in
              if ltb_ℤ bound (pos 0)
              then (false, (s1, w2))
              else (true, (record s1 { is_initialized = true }, C.listen fd 8 w2))))

  -- ServerSocket::Accept; `none` is nullptr.
  unfoldable pub accept : SocketState → World → Option SocketState × World
  accept s w =
      let (accepted_fd, w1) = C.accept s.fd w in
      if ltb_ℤ accepted_fd (pos 0)
      then (none, w1)
      else (let (new, w2) = server_socket accepted_fd s.nagle w1 in (some new, w2))

  -- ClientSocket::Init: an old connection is closed first, and `is_initialized_` stays.
  unfoldable pub client_init : List ℕ → ℤ → SocketState → World → ℤ × (SocketState × World)
  client_init ip port s w =
      let w0 = if s.is_initialized then C.close s.fd w else w in
      let (fd, w1) = C.socket w0 in
      let s1 = record s { fd = fd } in
      if ltb_ℤ fd (pos 0)
      then (pos 0, (s1, w1))
      else (let (connected, w2) = C.connect fd ip port w1 in
          if ltb_ℤ connected (pos 0)
          then (pos 0, (s1, w2))
          else (pos 1, (record s1 { is_initialized = true }, w2)))
