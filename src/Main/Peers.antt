-- ===== src/Main/Peers.antt =====
-- What a server knows of its peers when it starts.
use raft_distributed_kv.Prelude.{
  ℕ, zero, suc, ◌+◌, ◌-◌, ◌*◌, ◌/◌, ◌%◌, ◌≤◌, ◌<◌, ◌≡◌, ◌≢◌, refl, ap, subst, ◌∙◌, ◌⊎◌, inl, inr,
  some, Bool, true, false, List, [], ◌∷◌, ◌==◌, length, length-append, get_elem?_in_range, ltb, not,
  ◌||◌, ℤ, pos, ◌==ℤ◌, arith, Bool-cases,
}
use raft_distributed_kv.Words.RoundTrip.{All, All-get_elem?}
use raft_distributed_kv.Metadata
use raft_distributed_kv.Metadata.{ServerMetadata, NodePtr, get_peer_size}
use raft_distributed_kv.Metadata.Invariant.{IsSound, init-IsSound}
use raft_distributed_kv.Metadata.Membership.{add_neighbors}
use raft_distributed_kv.Sockets
use raft_distributed_kv.Sockets.{Calls, SocketState, server_init}
use raft_distributed_kv.Main.{
  Setup, usage, missing_peers, no_socket, ready, number_at, add_peers, setup, atoi,
}

-- No argument begins with a number that is too large for an int.
abbrev pub AreNumbers : List (List ℕ) → Type 0
AreNumbers = All (λ text. (n : ℤ) × (atoi text ≡ some n))

-- A server that has only been told its peers.
pub record IsFresh (unique_id : ℤ) (peers : ℕ) (m : ServerMetadata) : Type 0 where
  pub sound : IsSound m
  pub named : m.factory_id ≡ unique_id
  pub counted : length m.neighbors ≡ peers

number_at_total :
    (argv : List (List ℕ)) (i : ℕ)
    → AreNumbers argv
    → i < length argv
    → (n : ℤ) × (number_at argv i ≡ some n)
unfolding number_at
number_at_total argv i h fits =
    let (text, e) = get_elem?_in_range argv i fits in
    let (n, f) = All-get_elem? (λ text. (n : ℤ) × (atoi text ≡ some n)) argv i text h e in
    (n, ground (arith, e, f))

add_neighbors-IsFresh :
    (m : ServerMetadata) (node : NodePtr) (idx u : ℤ) (k : ℕ)
    → IsFresh u k m
    → IsFresh u (k + 1) (add_neighbors m node idx)
unfolding add_neighbors
add_neighbors-IsFresh m node idx u k h = record {
  named = ground (arith, h.named);
  sound = record {
    valid = ground (arith, h.sound.valid);
    applied = ground (arith, h.sound.applied);
  };
  counted = ground (arith, h.counted, length-append m.neighbors (node ∷ []));
}

start-IsFresh : (u : ℤ) → IsFresh u 0 (record Metadata.init { factory_id = u })
unfolding Metadata.init
start-IsFresh u = record {
  sound = record {
    valid = ground (arith, init-IsSound.valid);
    applied = ground (arith, init-IsSound.applied);
  };
  named = refl;
  counted = refl;
}

add_peers_total :
    (address : ℕ → ℕ) (argv : List (List ℕ)) (rounds i j : ℕ) (m : ServerMetadata) (u : ℤ)
    → AreNumbers argv
    → i + rounds * 3 ≤ length argv
    → IsFresh u j m
    → (m' : ServerMetadata) × (add_peers address argv rounds i j m ≡ some m')
      × IsFresh u (j + rounds) m'
unfolding add_peers
add_peers_total address argv zero i j m u h fits f =
    (m, refl, record { named = f.named; sound = f.sound; counted = ground (arith, f.counted) })
add_peers_total address argv (suc rounds) i j m u h fits f =
    let (id, e) = number_at_total argv i h (omega arith) in
    let (ip, e1) = get_elem?_in_range argv (i + 1) (omega arith) in
    let (port, e2) = number_at_total argv (i + 2) h (omega arith) in
    let node : NodePtr = record {
      address = address j;
      node = record { id = id; ip = ip; port = port };
    } in
    let (m', run, g) =
      add_peers_total address argv rounds (i + 3) (j + 1) (add_neighbors m node (pos j)) u h
        (omega arith) (add_neighbors-IsFresh m node (pos j) u j f) in
    (
      m',
      rw (e, e1, e2) run,
      record { named = g.named; sound = g.sound; counted = omega (arith, g.counted) },
    )

module _ (C : Calls) where
  open C use {World}

  -- How a server starts: with a wrong count of arguments, with another number of peers than the
  -- third argument says, with a port on which it cannot listen, or as a server that listens and
  -- knows all its peers.
  pub record IsSetup (memory : ℤ) (argv : List (List ℕ)) (w : World)
      (out : Setup × (SocketState × World)) : Type 0 where
    pub outcome :
        ((out ≡ (usage, (Sockets.init memory, w)))
          × ((length argv < 4) ⊎ ((length argv - 4) % 3 ≢ 0)))
        ⊎ ((out ≡ (missing_peers, (Sockets.init memory, w)))
            × ((peers : ℕ) × (n : ℤ) × (length argv ≡ 4 + peers * 3)
                × (number_at argv 3 ≡ some n)
                × (n ≢ pos peers)))
        ⊎ ((port : ℤ) × (peers : ℕ) × (number_at argv 1 ≡ some port)
            × (length argv ≡ 4 + peers * 3)
            × (number_at argv 3 ≡ some (pos peers))
            × (out.1 ≡ (server_init C port (Sockets.init memory) w).1)
            × (((out.0 ≡ no_socket) × ((server_init C port (Sockets.init memory) w).0 ≡ false))
                ⊎ ((m : ServerMetadata) × (u : ℤ) × (out.0 ≡ ready m)
                    × ((server_init C port (Sockets.init memory) w).0 ≡ true)
                    × (number_at argv 2 ≡ some u)
                    × IsFresh u peers m)))

  -- The start behind the checks of the arguments.
  setup_known :
      (address : ℕ → ℕ) (memory : ℤ) (argv : List (List ℕ)) (w : World) (port u : ℤ)
      → AreNumbers argv
      → (ltb (length argv) 4 || not ((length argv - 4) % 3 == 0)) ≡ false
      → length argv ≡ 4 + (length argv - 4) / 3 * 3
      → number_at argv 1 ≡ some port
      → number_at argv 2 ≡ some u
      → number_at argv 3 ≡ some (pos ((length argv - 4) / 3))
      → (out : Setup × (SocketState × World)) × (setup C address memory argv w ≡ some out)
        × IsSetup memory argv w out
  unfolding setup
  setup_known address memory argv w port u h right count e1 e2 e3 =
      let peers : ℕ = (length argv - 4) / 3 in
      let (m, run, f) =
        add_peers_total address argv peers 4 0 (record Metadata.init { factory_id = u }) u h
          (omega (arith, count)) (start-IsFresh u) in
      let total : 0 + peers ≡ peers = omega arith in
      let fresh = subst (λ k. IsFresh u k m) total f in
      let socket : Bool × (SocketState × World) = server_init C port (Sockets.init memory) w in
      let all : (pos peers ==ℤ pos peers) ≡ true = ground arith in
      elim (Bool-cases socket.0) [
        | inr closed ↦ (
          (no_socket, socket.1),
          rw (right, e1, e2, e3, all, closed) refl,
          record { outcome = inr (inr (port, peers, e1, count, e3, refl, inl (refl, closed))) },
        )
        | inl listens ↦ (
          (ready m, socket.1),
          rw (right, e1, e2, e3, all, listens, run) refl,
          record {
            outcome =
                inr (inr (port, peers, e1, count, e3, refl, inr (m, u, refl, listens, e2, fresh)));
          },
        )
      ]

  -- If no argument begins with a number that is too large for an int, the start of a server, over
  -- any system calls, reads no argument out of bounds and overflows nothing: it ends with the
  -- usage for a wrong count of arguments, or because the third argument is not the number of the
  -- peers that are listed, both before the socket is touched; or it initializes the socket with
  -- the first argument as its port and ends if that fails, and else has a sound state with its id
  -- and as many neighbours as the third argument says.
  pub setup_total :
      (address : ℕ → ℕ) (memory : ℤ) (argv : List (List ℕ)) (w : World)
      → AreNumbers argv
      → (out : Setup × (SocketState × World)) × (setup C address memory argv w ≡ some out)
        × IsSetup memory argv w out
  unfolding setup
  setup_total address memory argv w h =
      let n : ℕ = length argv in
      elim (Bool-cases (ltb n 4 || not ((n - 4) % 3 == 0))) [
        | inl wrong ↦ (
          (usage, (Sockets.init memory, w)),
          rw wrong refl,
          record { outcome = inl (refl, ground (arith, wrong)) },
        )
        | inr right ↦
            let peers : ℕ = (n - 4) / 3 in
            let count : n ≡ 4 + peers * 3 = ground (arith, right) in
            let (port, e1) = number_at_total argv 1 h (omega (arith, count)) in
            let (u, e2) = number_at_total argv 2 h (omega (arith, count)) in
            let (num_peers, e3) = number_at_total argv 3 h (omega (arith, count)) in
            elim (Bool-cases (pos peers ==ℤ num_peers)) [
              | inr other ↦ (
                (missing_peers, (Sockets.init memory, w)),
                rw (right, e1, e2, e3, other) refl,
                record {
                  outcome = inr (
                      inl
                        (refl, (peers, num_peers, count, e3, λ same. ground (arith, same, other))));
                },
              )
              | inl all ↦
                  let same : num_peers ≡ pos peers = ground (arith, all) in
                  setup_known address memory argv w port u h right count e1 e2 (e3 ∙ ap some same)
            ]
      ]
