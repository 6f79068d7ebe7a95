-- ===== src/Consensus/Raft/Votes.antt =====
-- raft_engine.go: terms and votes of the two message handlers.
use node_decent_system.Prelude.{
  ℕ, zero, suc, ◌≤◌, ◌<◌, ◌≡◌, ◌≢◌, refl, sym, ap, ◌∙◌, true, false, Bool-cases, inl, inr, [],
  arith, ltb, str_eq, str_eq_iff, str_eq_refl,
}
use node_decent_system.Interfaces.{Storage}
use node_decent_system.Consensus.Raft.Types.{
  follower, candidate, is_candidate, RequestVoteArgs, AppendEntriesArgs, RaftEngine, Codec,
  get_last_log_index,
}
use node_decent_system.Consensus.Raft.Persist.{persist_state}
use node_decent_system.Consensus.Raft.Election.{handle_request_vote, reset_election_timeout}
use node_decent_system.Consensus.Raft.Append.{
  observe_leader, splice_log, advance_commit, apply_committed, apply_rounds, apply_next,
  handle_append_entries,
}

module _ (S : Storage) (json : Codec) where
  -- A reply to a vote request never lowers the term; the vote of a term, once given, stays with its
  -- candidate while the term lasts; a granted vote is the candidate's, in the request's term, and
  -- the candidate's log is not shorter; the log stays.
  pub handle_request_vote-votes :
      (draw : ℕ) (args : RequestVoteArgs) (re : RaftEngine S.Store)
      → let (re', reply) = handle_request_vote S json draw args re in
        (re.current_term ≤ re'.current_term)
        × (re'.current_term ≡ re.current_term → re.voted_for ≢ [] → re'.voted_for ≡ re.voted_for)
        × (reply.vote_granted ≡ true
            → (re'.voted_for ≡ args.candidate_id)
              × (re'.current_term ≡ args.term)
              × (get_last_log_index re ≤ args.last_log_index))
        × (re'.log ≡ re.log)
  unfolding handle_request_vote persist_state reset_election_timeout
  handle_request_vote-votes draw args re =
      ground (arith, str_eq_iff re.voted_for [], str_eq_iff re.voted_for args.candidate_id)

  -- Votes of one term are exclusive: after a vote for a candidate with a name, a request of the
  -- same term by another candidate is refused.
  pub second_vote_refused :
      (draw draw' : ℕ) (first second : RequestVoteArgs) (re : RaftEngine S.Store)
      → (handle_request_vote S json draw first re).1.vote_granted ≡ true
      → first.candidate_id ≢ []
      → second.candidate_id ≢ first.candidate_id
      → second.term ≡ first.term
      → (handle_request_vote S json draw' second
          (handle_request_vote S json draw first re).0).1.vote_granted
        ≡ false
  second_vote_refused draw draw' first second re granted named other same =
      let v = handle_request_vote-votes draw first re in
      refused (handle_request_vote S json draw first re).0 ((v.2 granted).0)
        (same ∙ sym ((v.2 granted).1))
    where
      refused :
          (re' : RaftEngine S.Store)
          → re'.voted_for ≡ first.candidate_id
          → second.term ≡ re'.current_term
          → (handle_request_vote S json draw' second re').1.vote_granted ≡ false
      refused re' voted term =
          unfold handle_request_vote in
          (ground
            (arith, str_eq_iff re'.voted_for [], str_eq_iff re'.voted_for second.candidate_id))

module _ {Store : Type 0} where
  -- Applying entries leaves the term, the vote, the role and the storage alone.
  vote-apply_rounds :
      (n : ℕ) (re : RaftEngine Store)
      → ((apply_rounds n re).current_term ≡ re.current_term)
        × ((apply_rounds n re).voted_for ≡ re.voted_for)
        × ((apply_rounds n re).role ≡ re.role)
        × ((apply_rounds n re).storage ≡ re.storage)
  unfolding apply_rounds apply_next
  vote-apply_rounds zero re = (refl, refl, refl, refl)
  vote-apply_rounds (suc n) re = vote-apply_rounds n (apply_next re)

  pub vote-advance_commit :
      (c : ℕ) (re : RaftEngine Store)
      → ((advance_commit c re).current_term ≡ re.current_term)
        × ((advance_commit c re).voted_for ≡ re.voted_for)
        × ((advance_commit c re).role ≡ re.role)
        × ((advance_commit c re).storage ≡ re.storage)
  unfolding advance_commit apply_committed
  vote-advance_commit c re = elim (Bool-cases (ltb re.commit_index c)) [
    | inl h ↦ rw h (vote-apply_rounds _ _)
    | inr h ↦ rw h (refl, refl, refl, refl)
  ]

module _ (S : Storage) (json : Codec) where
  -- A message of a leader that is not behind sets the term to the message's, and makes a candidate,
  -- or a node of an earlier term, a follower without a vote; any other node keeps its role and vote.
  -- A message from an earlier term changes nothing.
  pub handle_append_entries-votes :
      (draw : ℕ) (args : AppendEntriesArgs) (re : RaftEngine S.Store)
      → let re' = (handle_append_entries S json draw args re).0 in
        (args.term < re.current_term → re' ≡ re)
        × (re.current_term ≤ args.term
            → (re'.current_term ≡ args.term)
              × (re.current_term < args.term → (re'.voted_for ≡ []) × (re'.role ≡ follower))
              × (is_candidate re.role ≡ true → (re'.voted_for ≡ []) × (re'.role ≡ follower))
              × (re.current_term ≡ args.term
                  → is_candidate re.role ≡ false
                  → (re'.voted_for ≡ re.voted_for) × (re'.role ≡ re.role)))
  unfolding handle_append_entries observe_leader reset_election_timeout persist_state splice_log
  handle_append_entries-votes draw args re = ground (
    arith,
    vote-advance_commit args.leader_commit (
        persist_state S json
          (splice_log args (reset_election_timeout draw (observe_leader args re)))),
  )

  -- A candidate that hears from a leader of its own term forgets the vote that it gave itself,
  -- and grants the vote of the same term once more to any candidate whose log is long enough.
  pub candidate_votes_twice :
      (draw draw' : ℕ) (args : AppendEntriesArgs) (request : RequestVoteArgs)
      (re : RaftEngine S.Store)
      → re.role ≡ candidate
      → re.voted_for ≡ re.node_id
      → args.term ≡ re.current_term
      → request.term ≡ re.current_term
      → get_last_log_index (handle_append_entries S json draw args re).0 ≤ request.last_log_index
      → let (re'', reply) =
          handle_request_vote S json draw' request (handle_append_entries S json draw args re).0 in
        (reply.vote_granted ≡ true)
        × (re''.voted_for ≡ request.candidate_id)
        × (re''.current_term ≡ re.current_term)
  candidate_votes_twice draw draw' args request re c own same same' long =
      let v = (handle_append_entries-votes draw args re).1 (omega arith) in
      granted (handle_append_entries S json draw args re).0 ((v.2 (rw c refl)).0) (v.0 ∙ same) long
    where
      granted :
          (re' : RaftEngine S.Store)
          → re'.voted_for ≡ []
          → re'.current_term ≡ re.current_term
          → get_last_log_index re' ≤ request.last_log_index
          → let (re'', reply) = handle_request_vote S json draw' request re' in
            (reply.vote_granted ≡ true)
            × (re''.voted_for ≡ request.candidate_id)
            × (re''.current_term ≡ re.current_term)
      granted re' empty term long =
          unfold handle_request_vote persist_state reset_election_timeout in
          (ground (arith, str_eq_refl [], ap (λ v. str_eq v []) empty))
