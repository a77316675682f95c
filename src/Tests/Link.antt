-- ===== src/Tests/Link.antt =====
-- A network that carries every message to one server, which answers by GetLogResponse.
use raft_distributed_kv.Prelude.{
  ◌≡◌, ◌≢◌, refl, ap, ◌∙◌, none, some, Bool, true, false, [], take, get_or-take, replicate, arith,
  IsInt, minus_one, ◌==ℤ◌, ==ℤ_iff,
}
use raft_distributed_kv.Words.{Bytes}
use raft_distributed_kv.Words.RoundTrip.{All}
use raft_distributed_kv.Messages.LogRequest
use raft_distributed_kv.Messages.LogRequest.{LogRequest, unmarshal-marshal_log_request}
use raft_distributed_kv.Messages.LogResponse
use raft_distributed_kv.Messages.LogResponse.{LogResponse, unmarshal-marshal_log_response}
use raft_distributed_kv.Metadata.{ServerMetadata, Socket}
use raft_distributed_kv.Metadata.Append.{get_log_response}
use raft_distributed_kv.Rpc.Transport.{
  Transport, buffer, send_identifier, send_log_request, recv_log_response,
}
use raft_distributed_kv.Rpc.Replicate.{exchange}
use raft_distributed_kv.Rpc.Replicate.CatchUp.{IsLinked}

-- The follower, and the last message that was sent to it.
pub record Wire : Type 0 where
  pub server : ServerMetadata
  pub inbox : Bytes

-- The follower answers the request in its inbox.
abbrev answer : Wire → (Bool × Bytes) × Wire
answer w = elim (get_log_response w.server (LogRequest.unmarshal w.inbox)) [
  | none ↦ ((false, []), w)
  | some (res, m') ↦ ((true, LogResponse.marshal res (replicate 32 0)), record w { server = m' })
]

abbrev pub wire : Transport
wire = record {
  Net = Wire;
  send = λ socket bytes w. (true, record w { inbox = bytes });
  recv = λ socket size w. answer w;
  connect = λ ip port w. ((true, 5), w);
  reconnect = λ socket ip port w. ((true, 5), w);
  close = λ socket w. w;
}

request_arrives :
    (req : LogRequest)
    → All IsInt (LogRequest.fields req)
    → LogRequest.unmarshal (take LogRequest.size (LogRequest.marshal req (buffer 64))) ≡ req
request_arrives req ints =
    let bytes : Bytes = LogRequest.marshal req (buffer 64) in
    LogRequest.unmarshal-Agree (take LogRequest.size bytes) bytes
      (λ i h. get_or-take LogRequest.size i bytes 0 h)
    ∙ unmarshal-marshal_log_request req (buffer 64) ints (omega arith)

recv_answer :
    (socket : Socket) (w : Wire) (req : LogRequest) (res : LogResponse) (m' : ServerMetadata)
    → LogRequest.unmarshal w.inbox ≡ req
    → get_log_response w.server req ≡ some (res, m')
    → All IsInt (LogResponse.fields res)
    → recv_log_response wire socket w ≡ (res, record w { server = m' })
unfolding recv_log_response
recv_answer socket w req res m' came run ints =
    let back : LogResponse.unmarshal (LogResponse.marshal res (replicate 32 0)) ≡ res =
      unmarshal-marshal_log_response res (replicate 32 0) ints (omega arith) in
    let got : get_log_response w.server (LogRequest.unmarshal w.inbox) ≡ some (res, m') =
      ap (get_log_response w.server) came ∙ run in
    ground (arith, got, back)

exchange_answer :
    (socket : Socket) (w w' : Wire) (req : LogRequest) (res : LogResponse)
    → recv_log_response wire socket
        (record w { inbox = take LogRequest.size (LogRequest.marshal req (buffer 64)) })
      ≡ (res, w')
    → (res.follower_id ==ℤ minus_one) ≡ false
    → exchange wire req socket w ≡ (some res, w')
unfolding exchange send_identifier send_log_request
exchange_answer socket w w' req res e there = ground (arith, e, there)

pub wire_answers :
    (socket : Socket) (req : LogRequest) (res : LogResponse) (w : Wire) (m' : ServerMetadata)
    → get_log_response w.server req ≡ some (res, m')
    → All IsInt (LogRequest.fields req)
    → All IsInt (LogResponse.fields res)
    → res.follower_id ≢ minus_one
    → (w' : Wire) × (exchange wire req socket w ≡ (some res, w')) × (w'.server ≡ m')
wire_answers socket req res w m' run ints ints' named =
    let sent : Wire = record w {
      inbox = take LogRequest.size (LogRequest.marshal req (buffer 64));
    } in
    let there : (res.follower_id ==ℤ minus_one) ≡ false =
      ground (arith, named, ==ℤ_iff res.follower_id minus_one) in
    (
      record sent { server = m' },
      exchange_answer socket w (record sent { server = m' }) req res
          (recv_answer socket sent req res m' (request_arrives req ints) run ints') there,
      refl,
    )

abbrev pub linked : (socket : Socket) → IsLinked wire socket
linked socket = record {
  peer = λ w. w.server;
  answers = λ req res w m'. wire_answers socket req res w m';
}
