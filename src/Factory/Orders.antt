-- ===== src/Factory/Orders.antt =====
-- An order of a customer: from the queue to the log (LeaderThread, LeaderMaintainLog).
use raft_distributed_kv.Prelude.{
  ℕ, ◌≡◌, refl, some, none, List, [], ◌∷◌, ◌++◌, ℤ, arith, minus_one, ◌≤ℤ◌, Option-cases, inl, inr,
  returned, fault,
}
use raft_distributed_kv.Messages.LaptopInfo.{set_admin_id}
use raft_distributed_kv.Metadata.{ServerMetadata}
use raft_distributed_kv.Metadata.Invariant.{IsSound}
use raft_distributed_kv.Metadata.Log.{append_log}
use raft_distributed_kv.Metadata.Log.Keeps.{
  append_log_lem, append_log-IsValid, append_log-IsApplied,
}
use raft_distributed_kv.Metadata.Vote.{set_ack_length}
use raft_distributed_kv.Rpc.Transport.{Transport}
use raft_distributed_kv.Rpc.Replicate.Sound.{Moved, arrays-Moved, Moved-trans}
use raft_distributed_kv.Rpc.Replicate.Loop.{replicate_log-Moved}
use raft_distributed_kv.Factory.{LeaderRequest, leader_maintain_log}
use raft_distributed_kv.Factory.Threads.{Factory, take_order}

set_ack_length-Moved :
    (m m' : ServerMetadata) (idx size : ℤ)
    → set_ack_length m idx size ≡ some m'
    → IsSound m
    → Moved m m'
unfolding set_ack_length
set_ack_length-Moved m m' idx size e s = arrays-Moved m m' (ground arith) s

-- The log after an order: one more entry, with the customer, the order and the term; nothing that was
-- committed is taken back, and the state machine is the replay of what is.
pub record IsLogged (customer_id order_num : ℤ) (m m' : ServerMetadata) : Type 0 where
  pub sound : IsSound m'
  pub log :
      m'.smr_log
      ≡ m.smr_log ++ record { term = m.current_term; arg1 = customer_id; arg2 = order_num } ∷ []
  pub commits : m.commit_length ≤ℤ m'.commit_length

module _ (T : Transport) where
  open T use {Net}

  -- If LeaderMaintainLog returns, on a server of any role whose log is well formed, the log has
  -- grown by exactly the customer's order in the server's term, the committed length has not
  -- fallen, and the state machine is the replay of what is committed.
  pub leader_maintain_log-IsLogged :
      (fuel : ℕ) (customer_id order_num code : ℤ) (m m' : ServerMetadata) (net net' : Net)
      → leader_maintain_log T fuel customer_id order_num m net ≡ returned (code, (m', net'))
      → IsSound m
      → IsLogged customer_id order_num m m'
  unfolding leader_maintain_log
  leader_maintain_log-IsLogged fuel customer_id order_num code m m' net net' e s =
      elim (Option-cases (append_log m m.current_term customer_id order_num)) [
        | inl f ↦ ground arith
        | inr (a, f) ↦ elim (Option-cases (set_ack_length a minus_one a.log_size)) [
          | inl g ↦ ground arith
          | inr (b, g) ↦
              let shape = append_log_lem m m.current_term customer_id order_num a f in
              let sa : IsSound a = record {
                valid = append_log-IsValid m m.current_term customer_id order_num a f s.valid;
                applied =
                    append_log-IsApplied m m.current_term customer_id order_num a f s.valid
                      s.applied;
              } in
              let armed = set_ack_length-Moved a b minus_one a.log_size g sa in
              let moved =
                Moved-trans a b m' armed
                  (replicate_log-Moved T fuel b m' net net' code (ground arith) armed.sound) in
              record {
                sound = moved.sound;
                log = ground (arith, moved.log, shape);
                commits = ground (arith, moved.commits, shape);
              }
        ]
      ]

  -- Before a server has led, there is no place for its own acknowledgement.
  never_led :
      (fuel : ℕ) (customer_id order_num : ℤ) (m : ServerMetadata) (net : Net)
      → m.ack_length ≡ none
      → leader_maintain_log T fuel customer_id order_num m net ≡ fault
  unfolding leader_maintain_log set_ack_length
  never_led fuel customer_id order_num m net never =
      elim (Option-cases (append_log m m.current_term customer_id order_num)) [
        | inl e ↦ ground (arith, e)
        | inr (a, e) ↦ ground (arith, append_log_lem m m.current_term customer_id order_num a e, e)
      ]

  -- If an order is at the front of the queue of a server that has never led, LeaderThread answers
  -- it while the state is as it was, and LeaderMaintainLog then faults.
  pub order_answered_not_logged :
      (f : Factory Net) (r : LeaderRequest) (rest : List LeaderRequest) (id : ℤ) (fuel : ℕ)
      → f.erq ≡ r ∷ rest
      → f.meta.ack_length ≡ none
      → (g : Factory Net) × (take_order T id f ≡ some g)
        × (g.promises ≡ (r.prom, set_admin_id r.laptop id) ∷ f.promises)
        × (g.meta ≡ f.meta)
        × (leader_maintain_log T fuel r.laptop.customer_id r.laptop.order_number g.meta g.net
            ≡ fault)
  unfolding take_order
  order_answered_not_logged f r rest id fuel queued never =
      let laptop = set_admin_id r.laptop id in
      (
        record f {
          erq = rest;
          taken = record r { laptop = laptop } ∷ f.taken;
          promises = (r.prom, laptop) ∷ f.promises;
        },
        rw queued refl,
        refl,
        refl,
        never_led fuel r.laptop.customer_id r.laptop.order_number f.meta f.net never,
      )
