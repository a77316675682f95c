-- ===== src/Rpc/Replicate/CatchUp.antt =====
-- ReplicateLog of a leader with one connection, to a server that answers by GetLogResponse and whose
-- log is the beginning of the leader's.
pub mod Visits
pub mod Rounds
pub mod Rejoin
use raft_distributed_kv.Prelude.{
  ℕ, zero, suc, ◌+◌, ◌-◌, ◌*◌, ◌≤◌, ◌<◌, ◌≡◌, ◌≢◌, ◌⊎◌, refl, ap, sym, subst, ◌∙◌, inl, inr, some,
  Option, Bool, true, false, List, [], ◌∷◌, length, get_elem?, get_elem?_in_range, get_elem?_lt,
  arith, ℤ, pos, minus_one, ◌≤ℤ◌, ◌<ℤ◌, int_max, IsInt, Bool-cases, ltb, leb,
}
use raft_distributed_kv.Words.RoundTrip.{All}
use raft_distributed_kv.Messages.LogRequest
use raft_distributed_kv.Messages.LogRequest.{LogRequest}
use raft_distributed_kv.Messages.LogResponse
use raft_distributed_kv.Messages.LogResponse.{LogResponse, set_log_response}
use raft_distributed_kv.Metadata.{
  ServerMetadata, NodePtr, Socket, MapOp, find, value_at, get_peer_size,
}
use raft_distributed_kv.Metadata.Append.{get_log_response}
use raft_distributed_kv.Metadata.Append.Prefix.{Follows, Asks}
use raft_distributed_kv.Metadata.Append.Prefix.Answers.{
  Answered, answers_no, answers_kept, answers_entry,
}
use raft_distributed_kv.Rpc.Transport.{Transport}
use raft_distributed_kv.Rpc.Replicate.{
  Visit, kept, changed, make_request, handle_response, react, exchange, visit,
}
use raft_distributed_kv.Rpc.Replicate.Leads.{
  Leads, IsAsked, make_request_entry, make_request_heartbeat,
}
use raft_distributed_kv.Rpc.Replicate.Leads.Answers.{
  IsOwn, SameLeader, SameLeader-refl, answer_yes, answer_no,
}

-- A connection to a server that answers each request by GetLogResponse: the request and the answer
-- arrive if their fields are ints, and the id in the answer is not the -1 of a failure.
pub record IsLinked (T : Transport) (socket : Socket) : Type 0 where
  pub peer : T.Net → ServerMetadata
  pub answers :
      (req : LogRequest) (res : LogResponse) (net : T.Net) (m' : ServerMetadata)
      → get_log_response (peer net) req ≡ some (res, m')
      → All IsInt (LogRequest.fields req)
      → All IsInt (LogResponse.fields res)
      → res.follower_id ≢ minus_one
      → (net' : T.Net) × (exchange T req socket net ≡ (some res, net')) × (peer net' ≡ m')

pub kept≢changed : kept ≢ changed
kept≢changed e = absurd (ground (arith, e))

-- A leader that has sent k entries, and a follower that has the first j.
pub record Pair (node : NodePtr) (i : ℤ) (k j : ℕ) (m f : ServerMetadata) : Type 0 where
  pub leads : Leads node i k m
  pub follows : Follows m.smr_log j f
  pub older : f.current_term ≤ℤ m.current_term
  pub named : f.factory_id ≢ minus_one
  pub id : IsInt f.factory_id

pub Pair-again :
    (node : NodePtr) (i : ℤ) (k k' j j' : ℕ) (m m' f f' : ServerMetadata) (req : LogRequest)
    → Pair node i k j m f
    → IsAsked m k req
    → Answered f req f'
    → Follows m.smr_log j' f'
    → Leads node i k' m'
    → SameLeader m m'
    → Pair node i k' j' m' f'
Pair-again node i k k' j j' m m' f f' req p asked ans g l same = record {
  leads = l;
  follows = subst (λ log. Follows log j' f') (sym same.log) g;
  older = ground (arith, ans.term, asked.term, same.term);
  named = λ e. p.named (sym ans.server ∙ e);
  id = subst IsInt (sym ans.server) p.id;
}

module _ (T : Transport) (node : NodePtr) (socket : Socket) (link : IsLinked T socket) (i : ℤ) where
  open T use {Net}
  open link use {peer, answers}

  pub visit_lem :
      (m m' : ServerMetadata) (net net' : Net) (req : LogRequest) (heartbeat : Bool)
      (answer : Option LogResponse) (end : Visit)
      → find m.server_index_map node.id ≡ some i
      → make_request m i ≡ some (req, heartbeat)
      → exchange T req socket net ≡ (answer, net')
      → react m i node heartbeat answer ≡ some (end, m')
      → visit T node socket m net ≡ some ((end, m'), net')
  unfolding visit value_at
  visit_lem m m' net net' req heartbeat answer end e1 e2 e3 e4 = ground (arith, e1, e2, e3, e4)

  -- What a visit comes to.
  pub record IsVisited (end : Visit) (k j : ℕ) (m : ServerMetadata) (net : Net) : Type 0 where
    pub m' : ServerMetadata
    pub net' : Net
    pub run : visit T node socket m net ≡ some ((end, m'), net')
    pub pair : Pair node i k j m' (peer net')
    pub same : SameLeader m m'
    pub full :
        end ≡ changed
        → k ≡ length m.smr_log
        → get_peer_size m ≡ 1
        → IsOwn m
        → m'.log_size ≤ℤ m'.commit_length

  -- The answer of the follower arrives.
  pub arrives :
      (k j a : ℕ) (m : ServerMetadata) (net : Net) (req : LogRequest) (success : ℤ)
      (f' : ServerMetadata)
      → Pair node i k j m (peer net)
      → IsAsked m k req
      → a ≤ length m.smr_log + 1
      → IsInt success
      → get_log_response (peer net) req
        ≡ some (set_log_response (peer net).factory_id req.current_term (pos a) success, f')
      → (net' : Net) × (exchange T req socket net
          ≡ (some (set_log_response (peer net).factory_id req.current_term (pos a) success), net'))
        × (peer net' ≡ f')
  unfolding set_log_response
  arrives k j a m net req success f' p asked fits small run =
      let v = p.leads.leading in
      answers req (set_log_response (peer net).factory_id req.current_term (pos a) success) net f'
        run asked.fields
        (
          p.id,
          (
            subst IsInt (sym asked.term) p.leads.ints.term,
            (
              record {
                above = omega arith;
                below = ground (arith, fits, v.room, v.sound.valid.sized);
              },
              (small, tt),
            ),
          ),
        )
        p.named
