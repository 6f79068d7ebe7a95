-- ===== src/Consensus/Raft/History.antt =====
-- raft_engine.go: any sequence of calls of the engine's methods and turns of its loop.
use node_decent_system.Prelude.{
  ℕ, ◌+◌, ◌^◌, ◌<◌, length, All, All-map, ◌≤◌, ◌≡◌, ◌⊎◌, refl, Bool, true, false, Bool-cases, inl,
  inr, Option, List, [], ◌∷◌, arith, ltb, Go, returns, panics, Bytes, Error, str_eq,
}
use native.Mathlib.Nat.{le_trans, le_refl}
use node_decent_system.Interfaces.{Storage}
use node_decent_system.Consensus.Raft.Types.{
  NodeRole, follower, candidate, leader, RequestVoteArgs, AppendEntriesArgs, RaftEngine, Codec,
}
use node_decent_system.Consensus.Raft.Persist.{persist_state}
use node_decent_system.Consensus.Raft.Election.{
  Ballot, start, stop, send_heartbeats, begin_election, count_vote, count_votes, start_election,
  handle_request_vote, observe_term, reset_election_timeout,
}
use node_decent_system.Consensus.Raft.Append.{handle_append_entries}
use node_decent_system.Consensus.Raft.Leader.{
  MembershipChange, set_role, append_own, propose, compact_at, compact_log,
  propose_membership_change,
}
use node_decent_system.Consensus.Raft.Votes.{handle_request_vote-votes, handle_append_entries-votes}

-- What ends the wait of one turn of `runLoop`.
pub data Signal : Type 0 where
  election_timeout : ℕ → Signal
  heartbeat_tick stop_closed context_done : Signal

-- The calls of the engine; a number is what the call draws from `rnd`.
pub data Call : Type 0 where
  starts : ℕ → Call
  stops : Call
  wakes : Signal → Call
  vote_request : ℕ → RequestVoteArgs → Call
  append_request : ℕ → AppendEntriesArgs → Call
  proposal : Bytes → Call
  compaction : ℕ → Bytes → Call
  membership : MembershipChange → Call
  role_set : NodeRole → Call

module _ (S : Storage) (json : Codec) where
  -- One turn of `runLoop`: whether the loop goes on, and the engine. A follower or candidate waits
  -- for its election timer, a leader for its ticker; a signal that it does not wait for is ignored.
  unfoldable pub loop_turn : NodeRole → Signal → RaftEngine S.Store → Bool × RaftEngine S.Store
  loop_turn leader heartbeat_tick re = (true, send_heartbeats re)
  loop_turn leader (election_timeout draw) re = (true, re)
  loop_turn follower (election_timeout draw) re = (true, start_election S json draw re)
  loop_turn candidate (election_timeout draw) re = (true, start_election S json draw re)
  loop_turn role stop_closed re = (false, re)
  loop_turn role context_done re = (false, re)
  loop_turn role heartbeat_tick re = (true, re)

  engine_of : Go (RaftEngine S.Store × Option Error) → Go (RaftEngine S.Store)
  engine_of (returns (re, e)) = returns re
  engine_of panics = panics

  unfoldable pub step : Call → RaftEngine S.Store → Go (RaftEngine S.Store)
  unfolding engine_of
  step (starts draw) re = returns (start draw re)
  step stops re = returns (stop re)
  step (wakes signal) re = returns (loop_turn re.role signal re).1
  step (vote_request draw args) re = returns (handle_request_vote S json draw args re).0
  step (append_request draw args) re = returns (handle_append_entries S json draw args re).0
  step (proposal payload) re = returns (propose S json payload re).0
  step (compaction i state) re = engine_of (compact_log S json i state re)
  step (membership change) re = returns (propose_membership_change S json change re).0
  step (role_set role) re = returns (set_role role re)

  continue :
      Go (RaftEngine S.Store)
      → (RaftEngine S.Store → Go (RaftEngine S.Store))
      → Go (RaftEngine S.Store)
  continue (returns re) f = f re
  continue panics f = panics

  -- The calls in order, until one panics.
  unfoldable pub run : List Call → RaftEngine S.Store → Go (RaftEngine S.Store)
  unfolding continue
  run [] re = returns re
  run (c ∷ cs) re = continue (step c re) (λ re'. run cs re')

  election_term :
      (b : Ballot) (ps : List Bytes) (s : ℕ × RaftEngine S.Store)
      → ((count_votes b ps s).1.current_term ≡ s.1.current_term)
        × ((count_votes b ps s).1.election_timer ≡ s.1.election_timer)
  unfolding count_votes
  election_term b [] s = (refl, refl)
  election_term b (p ∷ ps) s = elim (Bool-cases (str_eq p s.1.node_id)) [
    | inl self ↦ rw (self, count_votes) (election_term b ps s)
    | inr other ↦ rw (other, count_votes) (counted (election_term b ps (count_vote b s)))
  ]
    where
      counted :
          ((count_votes b ps (count_vote b s)).1.current_term ≡ (count_vote b s).1.current_term)
            × ((count_votes b ps (count_vote b s)).1.election_timer
                ≡ (count_vote b s).1.election_timer)
          → ((count_votes b ps (count_vote b s)).1.current_term ≡ s.1.current_term)
            × ((count_votes b ps (count_vote b s)).1.election_timer ≡ s.1.election_timer)
      counted h = unfold count_vote in h

  start_election_term :
      (draw : ℕ) (re : RaftEngine S.Store)
      → (start_election S json draw re).current_term ≡ re.current_term + 1
  unfolding start_election begin_election reset_election_timeout persist_state
  start_election_term draw re = (election_term _ re.peers _).0

  -- The term of the request in a call.
  abbrev pub message_term : Call → ℕ
  message_term (starts draw) = 0
  message_term stops = 0
  message_term (wakes signal) = 0
  message_term (vote_request draw args) = args.term
  message_term (append_request draw args) = args.term
  message_term (proposal payload) = 0
  message_term (compaction i state) = 0
  message_term (membership change) = 0
  message_term (role_set role) = 0

  -- A term that has not gone down, and stays below a bound.
  abbrev Between : ℕ → ℕ → ℕ → Type 0
  Between low t high = (low ≤ t) × (t ≤ high)

  loop_turn_term :
      (role : NodeRole) (signal : Signal) (re : RaftEngine S.Store)
      → Between re.current_term (loop_turn role signal re).1.current_term (re.current_term + 1)
  unfolding loop_turn send_heartbeats
  loop_turn_term follower (election_timeout draw) re =
      (omega (arith, start_election_term draw re), omega (arith, start_election_term draw re))
  loop_turn_term candidate (election_timeout draw) re =
      (omega (arith, start_election_term draw re), omega (arith, start_election_term draw re))
  loop_turn_term leader (election_timeout draw) re = (omega arith, omega arith)
  loop_turn_term follower heartbeat_tick re = (omega arith, omega arith)
  loop_turn_term candidate heartbeat_tick re = (omega arith, omega arith)
  loop_turn_term leader heartbeat_tick re = (omega arith, omega arith)
  loop_turn_term follower stop_closed re = (omega arith, omega arith)
  loop_turn_term candidate stop_closed re = (omega arith, omega arith)
  loop_turn_term leader stop_closed re = (omega arith, omega arith)
  loop_turn_term follower context_done re = (omega arith, omega arith)
  loop_turn_term candidate context_done re = (omega arith, omega arith)
  loop_turn_term leader context_done re = (omega arith, omega arith)

  append_term :
      (m draw : ℕ) (args : AppendEntriesArgs) (re : RaftEngine S.Store)
      → re.current_term ≤ m
      → args.term ≤ m
      → Between re.current_term (handle_append_entries S json draw args re).0.current_term m
  append_term m draw args re h k = elim (Bool-cases (ltb args.term re.current_term)) [
    | inl old ↦
        rw ((handle_append_entries-votes S json draw args re).0 (ground arith))
          (le_refl re.current_term, h)
    | inr new ↦
        let moved = ((handle_append_entries-votes S json draw args re).1 (not_behind new)).0 in
        (omega (arith, moved, not_behind new), omega (arith, moved))
  ]
    where
      not_behind : ltb args.term re.current_term ≡ false → re.current_term ≤ args.term
      not_behind h = ground arith

  vote_term :
      (m draw : ℕ) (args : RequestVoteArgs) (re : RaftEngine S.Store)
      → re.current_term ≤ m
      → args.term ≤ m
      → (handle_request_vote S json draw args re).0.current_term ≤ m
  unfolding handle_request_vote observe_term persist_state reset_election_timeout
  vote_term m draw args re h k = ground arith

  -- A call lowers no term, and brings it at most one above the largest so far.
  step_term :
      (m : ℕ) (c : Call) (re re' : RaftEngine S.Store)
      → step c re ≡ returns re'
      → re.current_term ≤ m
      → message_term c ≤ m
      → Between re.current_term re'.current_term (m + 1)
  unfolding step
  step_term m (starts draw) re re' h low new = unfold start in (ground arith, ground arith)
  step_term m stops re re' h low new = unfold stop in (ground arith, ground arith)
  step_term m (wakes signal) re re' h low new =
      let t = loop_turn_term re.role signal re in (ground (arith, t), ground (arith, t))
  step_term m (vote_request draw args) re re' h low new = (
    ground (arith, (handle_request_vote-votes S json draw args re).0),
    ground (arith, vote_term m draw args re low new),
  )
  step_term m (append_request draw args) re re' h low new =
      let t = append_term m draw args re low new in (ground (arith, t), ground (arith, t))
  step_term m (proposal payload) re re' h low new =
      unfold propose append_own persist_state in (ground arith, ground arith)
  step_term m (compaction i state) re re' h low new =
      unfold compact_log compact_at persist_state in (ground arith, ground arith)
  step_term m (membership change) re re' h low new =
      unfold propose_membership_change persist_state in (ground arith, ground arith)
  step_term m (role_set role) re re' h low new = unfold set_role in (ground arith, ground arith)

  run-Between :
      (m : ℕ) (cs : List Call) (re re' : RaftEngine S.Store)
      → run cs re ≡ returns re'
      → re.current_term ≤ m
      → All (λ c. message_term c ≤ m) cs
      → Between re.current_term re'.current_term (m + length cs)
  unfolding run
  run-Between m [] re re' h low new = (ground arith, ground arith)
  run-Between m (c ∷ cs) re re' h low new = elim (outcome (step c re)) [
    | inl e ↦ absurd (panic e h)
    | inr (mid, e) ↦
        let once = step_term m c re mid e low new.0 in
        let rest =
          run-Between (m + 1) cs mid re' (rw (e, run) at h) once.1
            (All-map (λ k le. omega arith) cs new.1) in
        (le_trans once.0 rest.0, omega (arith, rest.1))
  ]
    where
      outcome :
          (g : Go (RaftEngine S.Store))
          → (g ≡ panics) ⊎ ((x : RaftEngine S.Store) × (g ≡ returns x))
      outcome (returns x) = inr (x, refl)
      outcome panics = inl refl

      panic : step c re ≡ panics → continue (step c re) (λ x. run cs x) ≡ returns re' → ⊥
      panic e k = absurd (ground arith)

  -- Whatever calls are made, in whatever order, the term never goes down, as long as it cannot
  -- overflow: if the term at the start and the terms of all requests are at most `m`, and `m` and the
  -- number of calls together are below 2^63, then the term at the end is at least the one at the
  -- start and is below 2^63 itself.
  pub run_term :
      (m : ℕ) (cs : List Call) (re re' : RaftEngine S.Store)
      → run cs re ≡ returns re'
      → re.current_term ≤ m
      → All (λ c. message_term c ≤ m) cs
      → m + length cs < 2 ^ 63
      → (re.current_term ≤ re'.current_term) × (re'.current_term < 2 ^ 63)
  run_term m cs re re' h low new fits =
      let b = run-Between m cs re re' h low new in (b.0, omega (arith, b.1))
