-- ===== src/Main.antt =====
-- The start of a server: `main` of ServerMain.cpp up to the threads. An argument is the list of its
-- character codes; the program's name is the first.
pub mod Peers
pub mod Server
use raft_distributed_kv.Prelude.{
  ℕ, zero, suc, ◌+◌, ◌-◌, ◌/◌, ◌%◌, ◌==◌, Option, none, some, ◌>>=◌, Bool, true, false, not, ◌||◌,
  ◌&&◌, List, [], ◌∷◌, length, get_elem?, ltb, leb, ℤ, pos, negsuc, ◌+ℤ◌, ◌-ℤ◌, ◌==ℤ◌,
  if◌then◌else◌,
}
use raft_distributed_kv.Metadata
use raft_distributed_kv.Metadata.{ServerMetadata, NodePtr, checked}
use raft_distributed_kv.Metadata.Membership.{add_neighbors}
use raft_distributed_kv.Sockets
use raft_distributed_kv.Sockets.{Calls, SocketState, server_init}
use raft_distributed_kv.Address.{digit_zero, minus_sign, times_ten}

-- '+'
abbrev pub plus_sign : ℕ
plus_sign = 43

abbrev pub is_space : ℕ → Bool
is_space c = c == 32 || (leb 9 c && leb c 13)

-- The digits at the front, with the sign of the number; an overflow is undefined.
unfoldable pub read_digits : Bool → ℤ → List ℕ → Option ℤ
read_digits negative n [] = some n
read_digits negative n (c ∷ cs) = elim (leb digit_zero c && ltb c (digit_zero + 10)) [
  | false ↦ some n
  | true ↦ do
    let digit = pos (c - digit_zero)
    n' ← checked (if negative then times_ten n -ℤ digit else times_ten n +ℤ digit)
    read_digits negative n' cs
]

-- `atoi` of the C library.
unfoldable pub atoi : List ℕ → Option ℤ
atoi [] = some (pos 0)
atoi (c ∷ cs) = elim (is_space c) [
  | true ↦ atoi cs
  | false ↦
      if c == minus_sign
      then read_digits true (pos 0) cs
      else read_digits false (pos 0) (if c == plus_sign then cs else c ∷ cs)
]

-- What `main` comes to before it connects to its peers: an early return, or the state.
pub data Setup : Type 0 where
  usage missing_peers no_socket : Setup
  ready : ServerMetadata → Setup

-- `argv[i]` as a number.
unfoldable pub number_at : List (List ℕ) → ℕ → Option ℤ
number_at argv i = do text ← get_elem? argv i; atoi text

-- The loop over the peers; `address` is where the j-th node is allocated.
unfoldable pub add_peers :
    (ℕ → ℕ) → List (List ℕ) → ℕ → ℕ → ℕ → ServerMetadata → Option ServerMetadata
add_peers address argv zero i j m = some m
add_peers address argv (suc rounds) i j m = do
  id ← number_at argv i
  ip ← get_elem? argv (i + 1)
  port ← number_at argv (i + 2)
  let node : NodePtr = record {
    address = address j;
    node = record { id = id; ip = ip; port = port };
  }
  add_peers address argv rounds (i + 3) (j + 1) (add_neighbors m node (pos j))

module _ (C : Calls) where
  open C use {World}

  -- `memory` is what the descriptor of the listening socket held, and `address` where the nodes are
  -- allocated.
  unfoldable pub setup :
      (ℕ → ℕ) → ℤ → List (List ℕ) → World → Option (Setup × (SocketState × World))
  setup address memory argv w =
      let argc = length argv in
      let fresh = Sockets.init memory in
      if ltb argc 4 || not ((argc - 4) % 3 == 0) then some (usage, (fresh, w)) else (do
        port ← number_at argv 1
        unique_id ← number_at argv 2
        num_peers ← number_at argv 3
        if not (pos ((argc - 4) / 3) ==ℤ num_peers)
            then some (missing_peers, (fresh, w))
            else (let (initialized, socket) = server_init C port fresh w in
                if not initialized then some (no_socket, socket) else (do
                  m ←
                      add_peers address argv ((argc - 4) / 3) 4 0
                        (record Metadata.init { factory_id = unique_id })
                  some (ready m, socket))))
