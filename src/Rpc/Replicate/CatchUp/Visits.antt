-- ===== src/Rpc/Replicate/CatchUp/Visits.antt =====
-- A visit of ReplicateLog to a server whose log is the beginning of the leader's, case by case.
use raft_distributed_kv.Prelude.{
  ℕ, suc, ◌+◌, ◌≤◌, ◌<◌, ◌≡◌, refl, sym, subst, inl, inr, some, true, false, length, get_elem?,
  get_elem?_in_range, get_elem?_lt, arith, ℤ, pos, ◌≤ℤ◌, ◌<ℤ◌, int_max, Bool-cases, ltb,
}
use raft_distributed_kv.Messages.LogRequest.{LogRequest}
use raft_distributed_kv.Messages.LogResponse.{LogResponse, set_log_response}
use raft_distributed_kv.Metadata.{ServerMetadata, NodePtr, Socket, MapOp}
use raft_distributed_kv.Metadata.Append.{get_log_response}
use raft_distributed_kv.Metadata.Append.Prefix.{Follows}
use raft_distributed_kv.Metadata.Append.Prefix.Answers.{
  Answered, answers_no, answers_kept, answers_entry,
}
use raft_distributed_kv.Rpc.Transport.{Transport}
use raft_distributed_kv.Rpc.Replicate.{kept, changed, make_request, react}
use raft_distributed_kv.Rpc.Replicate.Leads.{IsAsked, make_request_entry, make_request_heartbeat}
use raft_distributed_kv.Rpc.Replicate.Leads.Answers.{SameLeader-refl, answer_yes, answer_no}
use raft_distributed_kv.Rpc.Replicate.CatchUp.{
  IsLinked, Pair, IsVisited, Pair-again, kept≢changed, visit_lem, arrives,
}

module _ (T : Transport) (node : NodePtr) (socket : Socket) (link : IsLinked T socket) (i : ℤ) where
  open T use {Net}
  open link use {peer}

  -- The follower has as much as was sent or more: the next entry is acknowledged.
  visit_forward :
      (k j j' : ℕ) (m : ServerMetadata) (net : Net) (op : MapOp) (req : LogRequest)
      (f' : ServerMetadata)
      → Pair node i k j m (peer net)
      → get_elem? m.smr_log k ≡ some op
      → make_request m i ≡ some (req, false)
      → IsAsked m k req
      → get_log_response (peer net) req
        ≡ some (set_log_response (peer net).factory_id req.current_term (pos (k + 1)) (pos 1), f')
      → Answered (peer net) req f'
      → Follows m.smr_log j' f'
      → IsVisited T node socket link i changed (k + 1) j' m net
  unfolding react set_log_response
  visit_forward k j j' m net op req f' p found made asked run ans g =
      let more = get_elem?_lt m.smr_log k op found in
      let res : LogResponse =
        set_log_response (peer net).factory_id req.current_term (pos (k + 1)) (pos 1) in
      let (net', sent, at_peer) =
        arrives T node socket link i k j (k + 1) m net req (pos 1) f' p asked (omega (arith, more))
          (record { above = omega arith; below = omega arith }) run in
      let (m', handled, l, same, full) =
        answer_yes node i k m res p.leads more asked.term refl refl in
      record {
        m' = m';
        net' = net';
        run =
            visit_lem T node socket link i m m' net net' req false (some res) changed p.leads.index
              made sent handled;
        pair =
            subst (Pair node i (k + 1) j' m') (sym at_peer)
              (Pair-again node i k (k + 1) j j' m m' (peer net) f' req p asked ans g l same);
        same = same;
        full = λ _. full;
      }

  pub visit_next :
      (k j : ℕ) (m : ServerMetadata) (net : Net)
      → Pair node i k j m (peer net)
      → k ≤ j
      → k < length m.smr_log
      → (j' : ℕ) × (k + 1 ≤ j') × IsVisited T node socket link i changed (k + 1) j' m net
  visit_next k j m net p h more =
      let (op, found) = get_elem?_in_range m.smr_log k more in
      let (req, made, asked, carried, entry) = make_request_entry node i k m op p.leads found in
      let v = p.leads.leading in
      let room : pos (length m.smr_log) <ℤ int_max = ground (arith, v.sound.valid.sized, v.room) in
      let older : (peer net).current_term ≤ℤ req.current_term =
        ground (arith, p.older, asked.term) in
      elim (Bool-cases (ltb k j)) [
        | inl below ↦
            let (f', run, ans, g) =
              answers_kept m.smr_log k j (peer net) req p.follows asked.asks room older h
                (inl (ground (arith, below))) in
            (
              j,
              ground (arith, below),
              visit_forward k j j m net op req f' p found made asked run ans g,
            )
        | inr whole ↦
            let level : k ≡ j = ground (arith, whole, h) in
            let (f', run, ans, g) =
              answers_entry m.smr_log k (peer net) req op
                (subst (λ n. Follows m.smr_log n (peer net)) (sym level) p.follows) asked.asks room
                older found carried entry more in
            (
              k + 1,
              omega arith,
              visit_forward k j (k + 1) m net op req f' p found made asked run ans g,
            )
      ]

  -- More was sent than the follower has: the leader goes back by one entry.
  pub visit_back :
      (k j : ℕ) (m : ServerMetadata) (net : Net)
      → Pair node i (suc k) j m (peer net)
      → j ≤ k
      → suc k < length m.smr_log
      → IsVisited T node socket link i changed k j m net
  unfolding react set_log_response
  visit_back k j m net p h more =
      let (op, found) = get_elem?_in_range m.smr_log (suc k) more in
      let (req, made, asked, _, _) = make_request_entry node i (suc k) m op p.leads found in
      let (f', run, ans, g) =
        answers_no m.smr_log (suc k) j (peer net) req p.follows asked.asks
          (ground (arith, p.older, asked.term)) (omega (arith, h)) in
      let res : LogResponse =
        set_log_response (peer net).factory_id req.current_term (pos 0) (pos 0) in
      let (net', sent, at_peer) =
        arrives T node socket link i (suc k) j 0 m net req (pos 0) f' p asked (omega arith)
          (record { above = omega arith; below = omega arith }) run in
      let (m', handled, l, same) = answer_no node i k m res p.leads asked.term refl in
      record {
        m' = m';
        net' = net';
        run =
            visit_lem T node socket link i m m' net net' req false (some res) changed p.leads.index
              made sent handled;
        pair =
            subst (Pair node i k j m') (sym at_peer)
              (Pair-again node i (suc k) k j j m m' (peer net) f' req p asked ans g l same);
        same = same;
        full = λ _ all. absurd (omega (arith, all, more));
      }

  -- The whole log was sent and is there: a heartbeat changes nothing.
  pub visit_done :
      (n : ℕ) (m : ServerMetadata) (net : Net)
      → Pair node i n n m (peer net)
      → n ≡ length m.smr_log
      → IsVisited T node socket link i kept n n m net
  unfolding react
  visit_done n m net p all =
      let (req, made, asked, idle) = make_request_heartbeat node i n m p.leads all in
      let v = p.leads.leading in
      let room : pos (length m.smr_log) <ℤ int_max = ground (arith, v.sound.valid.sized, v.room) in
      let (f', run, ans, g) =
        answers_kept m.smr_log n n (peer net) req p.follows asked.asks room
          (ground (arith, p.older, asked.term)) (omega arith) (inr idle) in
      let (net', sent, at_peer) =
        arrives T node socket link i n n (n + 1) m net req (pos 1) f' p asked (omega (arith, all))
          (record { above = omega arith; below = omega arith }) run in
      let same = SameLeader-refl m in
      record {
        m' = m;
        net' = net';
        run =
            visit_lem T node socket link i m m net net' req true _ kept p.leads.index made sent
              refl;
        pair =
            subst (Pair node i n n m) (sym at_peer)
              (Pair-again node i n n n n m m (peer net) f' req p asked ans g p.leads same);
        same = same;
        full = λ wrong. absurd (kept≢changed wrong);
      }

  -- The whole log was sent, as the leader takes it, and is not there: the answer to the heartbeat is a
  -- no, which the leader does not look at.
  pub visit_ignored :
      (n j : ℕ) (m : ServerMetadata) (net : Net)
      → Pair node i n j m (peer net)
      → n ≡ length m.smr_log
      → j < n
      → (v : IsVisited T node socket link i kept n j m net) × (v.m' ≡ m)
  unfolding react
  visit_ignored n j m net p all less =
      let (req, made, asked, idle) = make_request_heartbeat node i n m p.leads all in
      let (f', run, ans, g) =
        answers_no m.smr_log n j (peer net) req p.follows asked.asks
          (ground (arith, p.older, asked.term)) less in
      let (net', sent, at_peer) =
        arrives T node socket link i n j 0 m net req (pos 0) f' p asked (omega arith)
          (record { above = omega arith; below = omega arith }) run in
      let same = SameLeader-refl m in
      (
        record {
          m' = m;
          net' = net';
          run =
              visit_lem T node socket link i m m net net' req true _ kept p.leads.index made sent
                refl;
          pair =
              subst (Pair node i n j m) (sym at_peer)
                (Pair-again node i n n j j m m (peer net) f' req p asked ans g p.leads same);
          same = same;
          full = λ wrong. absurd (kept≢changed wrong);
        },
        refl,
      )
