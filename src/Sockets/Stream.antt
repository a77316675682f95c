-- ===== src/Sockets/Stream.antt =====
-- What Send and Recv rely on: the documented behaviour of `send` and `recv` on a blocking stream
-- socket. Each handles at least one byte and perhaps not all, or fails; the bytes keep their order.
use raft_distributed_kv.Prelude.{
  ℕ, ◌<◌, ◌≡◌, ◌⊎◌, ◌++◌, length, take, drop, ℤ, pos, pos_part, ◌≤ℤ◌, ◌<ℤ◌,
}
use raft_distributed_kv.Words.{Bytes}
use raft_distributed_kv.Sockets.{Calls}

-- `written` is what has been handed to the connection, `pending` what is still to come from it.
pub record IsStream (C : Calls) (fd : ℤ) : Type 0 where
  pub written : C.World → Bytes
  pub pending : C.World → Bytes
  pub send_some :
      (chunk : Bytes) (w : C.World)
      → 0 < length chunk
      → (((C.send fd chunk w).0 <ℤ pos 0) × (written (C.send fd chunk w).1 ≡ written w))
        ⊎ ((pos 1 ≤ℤ (C.send fd chunk w).0)
            × ((C.send fd chunk w).0 ≤ℤ pos (length chunk))
            × (written (C.send fd chunk w).1
                ≡ written w ++ take (pos_part (C.send fd chunk w).0) chunk))
  pub recv_some :
      (size : ℕ) (w : C.World)
      → 0 < size
      → ((C.recv fd size w).0.0 ≤ℤ pos 0)
        ⊎ ((pos 1 ≤ℤ (C.recv fd size w).0.0)
            × ((C.recv fd size w).0.0 ≤ℤ pos size)
            × (length (C.recv fd size w).0.1 ≡ pos_part (C.recv fd size w).0.0)
            × ((C.recv fd size w).0.1 ≡ take (pos_part (C.recv fd size w).0.0) (pending w))
            × (pending (C.recv fd size w).1 ≡ drop (pos_part (C.recv fd size w).0.0) (pending w)))
  pub close_writes_nothing : (w : C.World) → written (C.close fd (C.shutdown fd w)) ≡ written w
