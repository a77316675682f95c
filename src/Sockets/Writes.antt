-- ===== src/Sockets/Writes.antt =====
-- Send on a stream socket, however the system splits the bytes.
use mathlib.Core.List.{append_assoc, append-nil}
use raft_distributed_kv.Prelude.{
  ℕ, zero, suc, ◌+◌, ◌-◌, ◌≤◌, ◌<◌, ◌≡◌, refl, sym, ap, ◌∙◌, ◌⊎◌, inl, inr, true, false, ◌++◌,
  length, take, drop, drop-drop, take-append-drop, take-take, length-take, length-drop, ℤ, pos,
  pos_part, pos_part-le, pos_part-ge, minus_one, ltb_ℤ, leb_ℤ, arith, Outcome, returned,
}
use raft_distributed_kv.Words.{Bytes}
use raft_distributed_kv.Sockets.{Calls, SocketState, close_socket, send_loop, send_all}
use raft_distributed_kv.Sockets.Stream.{IsStream}

-- A chunk, and what stands after it.
chunks-append :
    (out buffer : Bytes) (offset size k j : ℕ)
    → k ≤ size
    → (out ++ take k (take size (drop offset buffer))) ++ take j (drop (offset + k) buffer)
      ≡ out ++ take (k + j) (drop offset buffer)
chunks-append out buffer offset size k j h =
    let rest = drop offset buffer in
    append_assoc out (take k (take size rest)) (take j (drop (offset + k) buffer))
    ∙ ap (λ r. out ++ r)
        (ap (λ r. r ++ take j (drop (offset + k) buffer)) (take-take k size rest h)
          ∙ ap (λ r. take k rest ++ take j r) (sym (drop-drop offset k buffer))
          ∙ take-append-drop k j rest)

module _ (C : Calls) (s : SocketState) (stream : IsStream C s.fd) where
  open C use {World}
  open stream use {written}

  -- What a Send of the next `size` bytes from `offset` on comes to: all of them are written, or the
  -- socket is closed after fewer.
  pub record IsSent (buffer : Bytes) (offset size : ℕ) (s' : SocketState) (w w' : World) (code : ℤ)
      : Type 0 where
    pub outcome :
        ((code ≡ pos 1) × (s' ≡ s) × (written w' ≡ written w ++ take size (drop offset buffer)))
        ⊎ ((code ≡ pos 0)
            × (s' ≡ record s { fd = minus_one; is_initialized = false })
            × ((k : ℕ) × (k < size) × (written w' ≡ written w ++ take k (drop offset buffer))))

  -- A chunk of k bytes first.
  later-IsSent :
      (buffer : Bytes) (offset size k : ℕ) (s' : SocketState) (w w1 w' : World) (code : ℤ)
      → k ≤ size
      → written w1 ≡ written w ++ take k (take size (drop offset buffer))
      → IsSent buffer (offset + k) (size - k) s' w1 w' code
      → IsSent buffer offset size s' w w' code
  later-IsSent buffer offset size k s' w w1 w' code h e sent = record {
    outcome = elim sent.outcome [
      | inl (one, same, all) ↦
          let total : k + (size - k) ≡ size = omega arith in
          inl (
            one,
            same,
            all
                ∙ ap (λ r. r ++ take (size - k) (drop (offset + k) buffer)) e
                ∙ chunks-append (written w) buffer offset size k (size - k) h
                ∙ ap (λ n. written w ++ take n (drop offset buffer)) total,
          )
      | inr (nought, closed, (j, fewer, some_of)) ↦ inr (
        nought,
        closed,
        (
          k + j,
          omega arith,
          some_of
              ∙ ap (λ r. r ++ take j (drop (offset + k) buffer)) e
              ∙ chunks-append (written w) buffer offset size k j h,
        ),
      )
    ];
  }

  length-chunk :
      (buffer : Bytes) (offset size : ℕ)
      → offset + size ≤ length buffer
      → length (take size (drop offset buffer)) ≡ size
  length-chunk buffer offset size h =
      length-take size (drop offset buffer) (omega (arith, length-drop offset buffer (omega arith)))

  -- One round.
  send_loop_next :
      (fuel : ℕ) (buffer : Bytes) (size offset : ℕ) (w : World)
      → let chunk : Bytes = take (suc size) (drop offset buffer) in
        let n : ℤ = (C.send s.fd chunk w).0 in
        ltb_ℤ n (pos 0) ≡ false
        → leb_ℤ n (pos (suc size)) ≡ true
        → send_loop C (suc fuel) buffer (suc size) offset s w
          ≡ send_loop C fuel buffer
              (suc size - pos_part n)
              (offset + pos_part n)
              s
              (C.send s.fd chunk w).1
  unfolding send_loop
  send_loop_next fuel buffer size offset w test bound = ground (arith, test, bound)

  send_loop_lem :
      (fuel : ℕ) (buffer : Bytes) (size offset : ℕ) (w : World)
      → size ≤ fuel
      → offset + size ≤ length buffer
      → (code : ℤ) × (s' : SocketState) × (w' : World) × (send_loop C fuel buffer size offset s w
          ≡ returned (code, (s', w')))
        × IsSent buffer offset size s' w w' code
  unfolding send_loop close_socket
  send_loop_lem fuel buffer zero offset w enough fits =
      (pos 1, s, w, refl, record { outcome = inl (refl, refl, sym (append-nil (written w))) })
  send_loop_lem zero buffer (suc size) offset w enough fits = absurd (omega arith)
  send_loop_lem (suc fuel) buffer (suc size) offset w enough fits =
      let chunk : Bytes = take (suc size) (drop offset buffer) in
      let long = length-chunk buffer offset (suc size) fits in
      let n : ℤ = (C.send s.fd chunk w).0 in
      let w1 : World = (C.send s.fd chunk w).1 in
      elim (stream.send_some chunk w (omega (arith, long))) [
        | inl (negative, kept) ↦
            let test : ltb_ℤ n (pos 0) ≡ true = ground (arith, negative) in
            (
              pos 0,
              record s { fd = minus_one; is_initialized = false },
              C.close s.fd (C.shutdown s.fd w1),
              ground (arith, test),
              record {
                outcome = inr (
                  refl,
                  refl,
                  (
                    0,
                    omega arith,
                    stream.close_writes_nothing w1 ∙ kept ∙ sym (append-nil (written w)),
                  ),
                );
              },
            )
        | inr (low, high, put) ↦
            let test : ltb_ℤ n (pos 0) ≡ false = ground (arith, low) in
            let bound : leb_ℤ n (pos (suc size)) ≡ true = ground (arith, high, long) in
            let few : pos_part n ≤ suc size =
              pos_part-le n (suc size) (omega (arith, high, long)) in
            let some_sent = pos_part-ge n low in
            let (code, s', w', run, sent) =
              send_loop_lem fuel buffer (suc size - pos_part n) (offset + pos_part n) w1
                (omega (arith, some_sent)) (omega arith) in
            (
              code,
              s',
              w',
              send_loop_next fuel buffer size offset w test bound ∙ run,
              later-IsSent buffer offset (suc size) (pos_part n) s' w w1 w' code few put sent,
            )
      ]

  -- On a blocking stream socket, with at least as much fuel as there are bytes, Send returns:
  -- either 1, with all bytes written in their order and the socket as it was, or 0, with the
  -- socket closed after fewer bytes.
  pub send_all_total :
      (fuel : ℕ) (buffer : Bytes) (size : ℕ) (w : World)
      → size ≤ fuel
      → size ≤ length buffer
      → (code : ℤ) × (s' : SocketState) × (w' : World) × (send_all C fuel buffer size s w
          ≡ returned (code, (s', w')))
        × IsSent buffer 0 size s' w w' code
  unfolding send_all
  send_all_total fuel buffer size w enough fits =
      send_loop_lem fuel buffer size 0 w enough (omega arith)

  -- A Send that returns 1 has written everything.
  pub send_all_written :
      (fuel : ℕ) (buffer : Bytes) (size : ℕ) (s' : SocketState) (w w' : World)
      → size ≤ fuel
      → size ≤ length buffer
      → send_all C fuel buffer size s w ≡ returned (pos 1, (s', w'))
      → written w' ≡ written w ++ take size buffer
  send_all_written fuel buffer size s' w w' enough fits e =
      let (code, a, w1, run, sent) = send_all_total fuel buffer size w enough fits in
      let same : ◌≡◌ {A = Outcome (ℤ × (SocketState × World))} (returned (code, (a, w1)))
          (returned (pos 1, (s', w'))) =
        sym run ∙ e in
      elim sent.outcome [
        | inl (one, _, all) ↦ (let world : w1 ≡ w' = ground arith in ap written (sym world) ∙ all)
        | inr (nought, _, _) ↦ ground arith
      ]
