-- ===== src/Sockets/Delivery.antt =====
-- A message from Marshal at one end of a connection to Unmarshal at the other.
use raft_distributed_kv.Prelude.{
  ℕ, zero, suc, ◌+◌, ◌≤◌, ◌<◌, ◌≡◌, refl, sym, ap, ◌∙◌, [], ◌∷◌, ◌++◌, length, take, drop, get_or,
  get_or-take, length-take, pos, IsInt, arith, returned,
}
use raft_distributed_kv.Words.{Bytes}
use raft_distributed_kv.Words.RoundTrip.{All}
use raft_distributed_kv.Messages.Codec.{Codec, Agree, length-marshal}
use raft_distributed_kv.Messages.Kinds.{Kind, Message, codec}
use raft_distributed_kv.Sockets.{Calls, SocketState, send_all, recv_all}
use raft_distributed_kv.Sockets.Stream.{IsStream}
use raft_distributed_kv.Sockets.Writes.{send_all_written}
use raft_distributed_kv.Sockets.Reads.{recv_all-IsFilled}

get_or-append : (xs ys : Bytes) (i : ℕ) → i < length xs → get_or (xs ++ ys) i 0 ≡ get_or xs i 0
get_or-append [] ys i h = absurd (omega arith)
get_or-append (x ∷ xs) ys zero h = refl
get_or-append (x ∷ xs) ys (suc i) h = get_or-append xs ys i (omega arith)

drop-length : (xs ys : Bytes) → drop (length xs) (xs ++ ys) ≡ ys
drop-length [] ys = refl
drop-length (x ∷ xs) ys = drop-length xs ys

zero_plus : (i : ℕ) → 0 + i ≡ i
zero_plus i = omega arith

-- What was written since the world w, and comes next at the other end, is what the buffer holds.
Agree-sent :
    (size : ℕ) (buffer buffer' before after pending rest : Bytes)
    → size ≤ length buffer
    → after ≡ before ++ take size buffer
    → pending ≡ drop (length before) after ++ rest
    → ((i : ℕ) → i < size → get_or buffer' i 0 ≡ get_or pending i 0)
    → Agree size buffer' buffer
Agree-sent size buffer buffer' before after pending rest fits put next got i h =
    let sent : drop (length before) after ≡ take size buffer =
      ap (drop (length before)) put ∙ drop-length before (take size buffer) in
    got i h
    ∙ ap (λ p. get_or p i 0) (next ∙ ap (λ p. p ++ rest) sent)
    ∙ get_or-append (take size buffer) rest i (omega (arith, length-take size buffer fits))
    ∙ get_or-take size i buffer 0 h

module _ (C D : Calls) (s r : SocketState) (out : IsStream C s.fd) (inp : IsStream D r.fd) where
  -- For every class of messages, if Send of a marshalled message returns 1 at one end of a
  -- connection, what it wrote comes next at the other end, and Recv returns 1 there, then
  -- Unmarshal of the receiver's buffer gives the message, if every field is an int, both buffers
  -- have room, and the fuel at both ends is at least the size of the message.
  pub message_delivered :
      (k : Kind) (msg : Message k) (buffer room : Bytes) (fuel fuel' : ℕ) (s' r' : SocketState)
      (w w' : C.World) (v v' : D.World) (rest buffer' : Bytes)
      → All IsInt ((codec k).fields msg)
      → (codec k).size ≤ length buffer
      → (codec k).size ≤ length room
      → (codec k).size ≤ fuel
      → (codec k).size ≤ fuel'
      → send_all C fuel ((codec k).marshal msg buffer) (codec k).size s w
        ≡ returned (pos 1, (s', w'))
      → inp.pending v ≡ drop (length (out.written w)) (out.written w') ++ rest
      → recv_all D fuel' room (codec k).size r v ≡ returned (pos 1, (buffer', (r', v')))
      → (codec k).unmarshal buffer' ≡ msg
  message_delivered k msg buffer room fuel fuel' s' r' w w' v v' rest buffer' ints fits space enough
        enough' sent next got =
      let c : Codec (Message k) = codec k in
      let bytes : Bytes = c.marshal msg buffer in
      let room' : c.size ≤ length bytes = omega (arith, length-marshal c msg buffer, fits) in
      let put = send_all_written C s out fuel bytes c.size s' w w' enough room' sent in
      let filled = recv_all-IsFilled D r inp fuel' room buffer' c.size r' v v' enough' space got in
      c.reads buffer' bytes (
        Agree-sent c.size bytes buffer' (out.written w) (out.written w') (inp.pending v) rest room'
          put next (λ i h. ap (λ k. get_or buffer' k 0) (sym (zero_plus i)) ∙ filled.bytes i h))
      ∙ c.reads_back msg buffer ints fits
