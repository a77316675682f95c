-- ===== src/Sockets/Reads.antt =====
-- Recv on a stream socket, however the bytes arrive.
use raft_distributed_kv.Prelude.{
  ℕ, zero, suc, ◌+◌, ◌-◌, ◌≤◌, ◌<◌, ◌≡◌, refl, sym, ap, subst, ◌∙◌, ◌⊎◌, inl, inr, true, false,
  ◌&&◌, if◌then◌else◌, ltb, leb, [], ◌∷◌, length, take, drop, set, get_or, get_or-set, length-set,
  drop-drop, get_or-take, get_or-drop, ℤ, pos, pos_part, pos_part-le, pos_part-ge, minus_one, leb_ℤ,
  Bool-cases, arith, Outcome, returned,
}
use raft_distributed_kv.Words.{Bytes}
use raft_distributed_kv.Sockets.{Calls, SocketState, close_socket, overwrite, recv_loop, recv_all}
use raft_distributed_kv.Sockets.Stream.{IsStream}

pub get_or-overwrite :
    (b : Bytes) (o : ℕ) (xs : Bytes) (i : ℕ)
    → o + length xs ≤ length b
    → get_or (overwrite b o xs) i 0
      ≡ (if leb o i && ltb i (o + length xs) then get_or xs (i - o) 0 else get_or b i 0)
unfolding overwrite
get_or-overwrite b o [] i h = ground arith
get_or-overwrite b o (x ∷ xs) i h = ground (
  arith,
  get_or-overwrite (set b o x) (suc o) xs i (omega (arith, length-set b o x)),
  get_or-set b o i x 0,
)

pub length-overwrite : (b : Bytes) (o : ℕ) (xs : Bytes) → length (overwrite b o xs) ≡ length b
unfolding overwrite
length-overwrite b o [] = refl
length-overwrite b o (x ∷ xs) = length-overwrite (set b o x) (suc o) xs ∙ length-set b o x

-- The next `size` bytes of `pending` stand from `offset` on, and what stood before is kept.
pub record IsFilled (pending buffer buffer' : Bytes) (offset size : ℕ) : Type 0 where
  pub room : length buffer' ≡ length buffer
  pub before : (i : ℕ) → i < offset → get_or buffer' i 0 ≡ get_or buffer i 0
  pub bytes : (i : ℕ) → i < size → get_or buffer' (offset + i) 0 ≡ get_or pending i 0

-- A chunk of k bytes first.
later-IsFilled :
    (pending chunk buffer buffer' : Bytes) (offset size k : ℕ)
    → k ≤ size
    → length chunk ≡ k
    → chunk ≡ take k pending
    → offset + size ≤ length buffer
    → IsFilled (drop k pending) (overwrite buffer offset chunk) buffer' (offset + k) (size - k)
    → IsFilled pending buffer buffer' offset size
later-IsFilled pending chunk buffer buffer' offset size k h long e fits f = record {
  room = f.room ∙ length-overwrite buffer offset chunk;
  before = λ i small. ground (
    arith,
    f.before i (omega arith),
    get_or-overwrite buffer offset chunk i (omega (arith, long)),
  );
  bytes = λ i small. elim (Bool-cases (ltb i k)) [
    | inl early ↦
        let less : i < k = ground (arith, early) in
        let index : offset + i - offset ≡ i = omega arith in
        let here = get_or-overwrite buffer offset chunk (offset + i) (omega (arith, long)) in
        ground (
          arith,
          f.before (offset + i) (omega arith),
          here,
          index,
          long,
          ap (λ r. get_or r i 0) e,
          get_or-take k i pending 0 less,
          ap (λ n. get_or chunk n 0) index,
        )
    | inr late ↦
        let more : k ≤ i = ground (arith, late) in
        let index : offset + k + (i - k) ≡ offset + i = omega arith in
        let source : k + (i - k) ≡ i = omega arith in
        ap (λ n. get_or buffer' n 0) (sym index)
        ∙ f.bytes (i - k) (omega arith)
        ∙ get_or-drop k (i - k) pending 0
        ∙ ap (λ n. get_or pending n 0) source
  ];
}

module _ (C : Calls) (s : SocketState) (stream : IsStream C s.fd) where
  open C use {World}
  open stream use {pending}

  -- What a Recv of `size` bytes to `offset` comes to: they are the next of the connection, or the
  -- socket is closed.
  pub record IsReceived (buffer buffer' : Bytes) (offset size : ℕ) (s' : SocketState) (w w' : World)
      (code : ℤ) : Type 0 where
    pub outcome :
        ((code ≡ pos 1)
          × (s' ≡ s)
          × IsFilled (pending w) buffer buffer' offset size
          × (pending w' ≡ drop size (pending w)))
        ⊎ ((code ≡ pos 0) × (s' ≡ record s { fd = minus_one; is_initialized = false }))

  -- One round.
  recv_loop_next :
      (fuel : ℕ) (buffer : Bytes) (size offset : ℕ) (w : World)
      → let n : ℤ = (C.recv s.fd (suc size) w).0.0 in
        leb_ℤ n (pos 0) ≡ false
        → leb_ℤ n (pos (suc size)) ≡ true
        → recv_loop C (suc fuel) buffer (suc size) offset s w
          ≡ recv_loop C fuel
              (overwrite buffer offset (C.recv s.fd (suc size) w).0.1)
              (suc size - pos_part n)
              (offset + pos_part n)
              s
              (C.recv s.fd (suc size) w).1
  unfolding recv_loop
  recv_loop_next fuel buffer size offset w test bound = ground (arith, test, bound)

  recv_loop_lem :
      (fuel : ℕ) (buffer : Bytes) (size offset : ℕ) (w : World)
      → size ≤ fuel
      → offset + size ≤ length buffer
      → (code : ℤ) × (buffer' : Bytes) × (s' : SocketState) × (w' : World) × (recv_loop C fuel
            buffer size offset s w
          ≡ returned (code, (buffer', (s', w'))))
        × IsReceived buffer buffer' offset size s' w w' code
  unfolding recv_loop close_socket
  recv_loop_lem fuel buffer zero offset w enough fits = (
    pos 1,
    buffer,
    s,
    w,
    refl,
    record {
      outcome = inl (
        refl,
        refl,
        record { room = refl; before = λ i h. refl; bytes = λ i h. absurd (omega arith) },
        refl,
      );
    },
  )
  recv_loop_lem zero buffer (suc size) offset w enough fits = absurd (omega arith)
  recv_loop_lem (suc fuel) buffer (suc size) offset w enough fits =
      let n : ℤ = (C.recv s.fd (suc size) w).0.0 in
      let chunk : Bytes = (C.recv s.fd (suc size) w).0.1 in
      let w1 : World = (C.recv s.fd (suc size) w).1 in
      let k : ℕ = pos_part n in
      elim (stream.recv_some (suc size) w (omega arith)) [
        | inl none_left ↦
            let test : leb_ℤ n (pos 0) ≡ true = ground (arith, none_left) in
            (
              pos 0,
              buffer,
              record s { fd = minus_one; is_initialized = false },
              C.close s.fd (C.shutdown s.fd w1),
              ground (arith, test),
              record { outcome = inr (refl, refl) },
            )
        | inr (low, high, long, got, moved) ↦
            let test : leb_ℤ n (pos 0) ≡ false = ground (arith, low) in
            let bound : leb_ℤ n (pos (suc size)) ≡ true = ground (arith, high) in
            let few : k ≤ suc size = pos_part-le n (suc size) high in
            let some_read = pos_part-ge n low in
            let (code, buffer', s', w', run, r) =
              recv_loop_lem fuel (overwrite buffer offset chunk) (suc size - k) (offset + k) w1
                (omega (arith, some_read)) (omega (arith, length-overwrite buffer offset chunk)) in
            (
              code,
              buffer',
              s',
              w',
              recv_loop_next fuel buffer size offset w test bound ∙ run,
              record {
                outcome = elim r.outcome [
                  | inl (one, same, filled, rest) ↦
                      let total : k + (suc size - k) ≡ suc size = omega arith in
                      inl (
                        one,
                        same,
                        later-IsFilled (pending w) chunk buffer buffer' offset (suc size) k few long
                            got fits
                            (subst
                              (λ p.
                                IsFilled p (overwrite buffer offset chunk) buffer' (offset + k)
                                  (suc size - k))
                              moved filled),
                        rest
                            ∙ ap (drop (suc size - k)) moved
                            ∙ drop-drop k (suc size - k) (pending w)
                            ∙ ap (λ m. drop m (pending w)) total,
                      )
                  | inr closed ↦ inr closed
                ];
              },
            )
      ]

  -- On a blocking stream socket, with at least as much fuel as bytes are wanted, Recv returns:
  -- either 1, when the first `size` places of the buffer hold the next bytes of the connection,
  -- whatever the pieces in which they came, and the connection has moved on by so many, or 0 with
  -- the socket closed.
  pub recv_all_total :
      (fuel : ℕ) (buffer : Bytes) (size : ℕ) (w : World)
      → size ≤ fuel
      → size ≤ length buffer
      → (code : ℤ) × (buffer' : Bytes) × (s' : SocketState) × (w' : World) × (recv_all C fuel buffer
            size s w
          ≡ returned (code, (buffer', (s', w'))))
        × IsReceived buffer buffer' 0 size s' w w' code
  unfolding recv_all
  recv_all_total fuel buffer size w enough fits =
      recv_loop_lem fuel buffer size 0 w enough (omega arith)

  -- A Recv that returns 1 has filled the buffer.
  pub recv_all-IsFilled :
      (fuel : ℕ) (buffer buffer' : Bytes) (size : ℕ) (s' : SocketState) (w w' : World)
      → size ≤ fuel
      → size ≤ length buffer
      → recv_all C fuel buffer size s w ≡ returned (pos 1, (buffer', (s', w')))
      → IsFilled (pending w) buffer buffer' 0 size
  recv_all-IsFilled fuel buffer buffer' size s' w w' enough fits e =
      let (code, b, a, w1, run, got) = recv_all_total fuel buffer size w enough fits in
      let same : ◌≡◌ {A = Outcome (ℤ × (Bytes × (SocketState × World)))}
          (returned (code, (b, (a, w1)))) (returned (pos 1, (buffer', (s', w')))) =
        sym run ∙ e in
      elim got.outcome [
        | inl (one, _, filled, _) ↦
            (let memory : b ≡ buffer' = ground arith in
              subst (λ x. IsFilled (pending w) buffer x 0 size) memory filled)
        | inr (nought, _) ↦ ground arith
      ]
