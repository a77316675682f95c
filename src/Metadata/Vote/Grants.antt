-- ===== src/Metadata/Vote/Grants.antt =====
-- When GetVoteResponse grants a vote, and what it leaves of the server.
use raft_distributed_kv.Prelude.{
  ◌≡◌, ◌↔◌, ◌⊎◌, inl, inr, some, true, arith, ℤ, pos, ◌-ℤ◌, -ℤ_parts, ◌≤ℤ◌, ◌<ℤ◌, ◌==ℤ◌,
  eq_of_parts, Bool-cases, Option-cases, if◌then◌else◌,
}
use raft_distributed_kv.Messages.RequestVoteMessage.{RequestVoteMessage}
use raft_distributed_kv.Messages.RequestVoteResponse.{
  RequestVoteResponse, set_request_vote_response,
}
use raft_distributed_kv.Metadata.{ServerMetadata, checked, get_last_term}
use raft_distributed_kv.Metadata.Ints.{at_in_range, checked_in_range}
use raft_distributed_kv.Metadata.Invariant.{IsValid, IsSound}
use raft_distributed_kv.Metadata.Vote.{adopt_term, is_recent, grants, get_vote_response}

-- The candidate's log is at least as recent as one of size n whose last entry has the term `last`.
abbrev pub IsRecent : ℤ → ℤ → RequestVoteMessage → Type 0
IsRecent last n msg = (last <ℤ msg.last_term) ⊎ ((last ≡ msg.last_term) × (n ≤ℤ msg.log_size))

-- The candidate asks for a newer term, or for the term in which this server has voted for it.
abbrev pub MayVote : ServerMetadata → RequestVoteMessage → Type 0
MayVote m msg =
    (m.current_term <ℤ msg.current_term)
    ⊎ ((m.current_term ≡ msg.current_term) × (m.voted_for ≡ msg.id))

pub record IsBallot (m : ServerMetadata) (msg : RequestVoteMessage) (last : ℤ)
    (res : RequestVoteResponse) (m' : ServerMetadata) : Type 0 where
  pub sender : res.id ≡ m.factory_id
  pub term : res.current_term ≡ m'.current_term
  pub not_older : (m.current_term ≤ℤ m'.current_term) × (msg.current_term ≤ℤ m'.current_term)
  pub answer : (res.voted ≡ pos 1) ⊎ (res.voted ≡ pos 0)
  pub granted : (res.voted ≡ pos 1) ↔ (IsRecent last m.log_size msg × MayVote m msg)
  pub ballot : res.voted ≡ pos 1 → (m'.current_term ≡ msg.current_term) × (m'.voted_for ≡ msg.id)
  pub same_log : (m'.smr_log ≡ m.smr_log) × (m'.commit_length ≡ m.commit_length)

-- The decision as a proposition.
grants_lem :
    (m : ServerMetadata) (last : ℤ) (msg : RequestVoteMessage)
    → (grants (adopt_term m msg) last msg ≡ true) ↔ (IsRecent last m.log_size msg × MayVote m msg)
unfolding grants adopt_term is_recent
grants_lem m last msg = (
  λ h. ground (
    arith,
    eq_of_parts last msg.last_term,
    eq_of_parts m.current_term msg.current_term,
    eq_of_parts m.voted_for msg.id,
  ),
  λ h. ground arith,
)

module _ (m m' : ServerMetadata) (msg : RequestVoteMessage) (last : ℤ) (res : RequestVoteResponse)
    (recent : get_last_term m ≡ some last)
    (replied : get_vote_response m msg ≡ some (res, m')) where
  -- For every message, if the server's last term can be read and GetVoteResponse returns, the
  -- reply names the server and has the term that it has now, which is neither older than its
  -- former term nor than the candidate's; the vote is 1 or 0; it is 1 exactly if the candidate's
  -- last term is newer, or the same with a log that is not shorter, and the candidate's term is
  -- newer, or the same and the server has voted for it; a granted vote is recorded in the
  -- candidate's term; the log and the committed length stay.
  pub get_vote_response-IsBallot : IsBallot m msg last res m'
  unfolding get_vote_response adopt_term set_request_vote_response
  get_vote_response-IsBallot = record {
    sender = ground arith;
    term = ground arith;
    not_older = ground arith;
    answer = ground arith;
    granted = (
      λ h. (grants_lem m last msg).0 (ground arith),
      λ h. ground (arith, (grants_lem m last msg).1 h),
    );
    ballot = λ h. ground (arith, (grants_lem m last msg).0);
    same_log = ground arith;
  }

get_last_term_total : (m : ServerMetadata) → IsValid m → (last : ℤ) × (get_last_term m ≡ some last)
unfolding get_last_term
get_last_term_total m v = elim (Bool-cases (m.log_size ==ℤ pos 0)) [
  | inl e ↦ (pos 0, rw e)
  | inr e ↦
      let parts = -ℤ_parts m.log_size (pos 1) in
      let fits : checked (m.log_size -ℤ pos 1) ≡ some (m.log_size -ℤ pos 1) =
        checked_in_range _ (ground (arith, parts, v.sized)) (ground (arith, parts, v.fits)) in
      let (op, found) =
        at_in_range m.smr_log (m.log_size -ℤ pos 1) (ground (arith, parts, v.sized))
          (ground (arith, parts, v.sized)) in
      (op.term, rw (e, fits, found))
]

-- On a well-formed server GetVoteResponse returns for every message.
pub get_vote_response_total :
    (m : ServerMetadata) (msg : RequestVoteMessage)
    → IsSound m
    → (out : RequestVoteResponse × ServerMetadata) × (get_vote_response m msg ≡ some out)
unfolding get_vote_response
get_vote_response_total m msg s =
    let (last, e) = get_last_term_total m s.valid in
    let m' : ServerMetadata = adopt_term m msg in
    (
      (
        set_request_vote_response m'.factory_id m'.current_term
            (if grants m' last msg then pos 1 else pos 0),
        record m' { heartbeat = true },
      ),
      rw e,
    )

-- If GetVoteResponse returns, the log stays well formed and the state machine in step with it.
pub get_vote_response-IsSound :
    (m m' : ServerMetadata) (msg : RequestVoteMessage) (res : RequestVoteResponse)
    → get_vote_response m msg ≡ some (res, m')
    → IsSound m
    → IsSound m'
unfolding get_vote_response adopt_term
get_vote_response-IsSound m m' msg res h s = elim (Option-cases (get_last_term m)) [
  | inl e ↦ ground arith
  | inr (last, e) ↦ ground arith
]
