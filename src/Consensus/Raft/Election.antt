-- ===== src/Consensus/Raft/Election.antt =====
-- raft_engine.go: timers, elections and `HandleRequestVote`.
use node_decent_system.Prelude.{
  ℕ, ◌+◌, ◌/◌, Bool, true, false, ◌&&◌, ◌||◌, List, [], ◌∷◌, ltb, leb, ◌==◌, if◌then◌else◌, length,
  Bytes, str_eq,
}
use node_decent_system.Interfaces.{Storage}
use node_decent_system.Consensus.Raft.Types.{
  follower, candidate, leader, is_candidate, RequestVoteArgs, RequestVoteReply, Timer, no_timer,
  idle, armed, RaftEngine, Codec, get_last_log_index, get_last_log_term,
}
use node_decent_system.Consensus.Raft.Persist.{persist_state}

-- `150 + rnd.Intn(150)` milliseconds; `draw` is what `Intn` returns.
abbrev pub timeout_of : ℕ → ℕ
timeout_of draw = 150 + draw

abbrev pub reset_timer : ℕ → Timer → Timer
reset_timer draw no_timer = no_timer
reset_timer draw idle = armed (timeout_of draw)
reset_timer draw (armed _) = armed (timeout_of draw)

abbrev pub stop_timer : Timer → Timer
stop_timer no_timer = no_timer
stop_timer _ = idle

module _ {Store : Type 0} where
  -- `Start`, up to the goroutine of the loop.
  unfoldable pub start : ℕ → RaftEngine Store → RaftEngine Store
  start draw re = record re { election_timer = armed (timeout_of draw) }

  unfoldable pub stop : RaftEngine Store → RaftEngine Store
  stop re = record re { stopped = true; election_timer = stop_timer re.election_timer }

  unfoldable pub reset_election_timeout : ℕ → RaftEngine Store → RaftEngine Store
  reset_election_timeout draw re = record re { election_timer = reset_timer draw re.election_timer }

  -- `sendHeartbeats` returns on every path without an effect.
  unfoldable pub send_heartbeats : RaftEngine Store → RaftEngine Store
  send_heartbeats re = re

-- What `startElection` hands to the goroutines that it starts: its term and last entry.
pub record Ballot : Type 0 where
  pub term : ℕ
  pub last_log_index : ℕ
  pub last_log_term : ℕ

module _ {Store : Type 0} where
  -- The body of one goroutine of `startElection`, which counts a vote without a message: the new
  -- count of votes, and the engine.
  unfoldable pub count_vote : Ballot → ℕ × RaftEngine Store → ℕ × RaftEngine Store
  count_vote b (votes, re) = (
    votes + 1,
    record re {
      role =
          if ltb (length re.peers / 2) (votes + 1)
            && (is_candidate re.role && re.current_term == b.term)
          then leader
          else re.role;
    },
  )

  -- One goroutine for each peer but the node itself.
  unfoldable pub count_votes : Ballot → List Bytes → ℕ × RaftEngine Store → ℕ × RaftEngine Store
  count_votes b [] s = s
  count_votes b (p ∷ ps) s = count_votes b ps (if str_eq p s.1.node_id then s else count_vote b s)

module _ (S : Storage) (json : Codec) where
  -- `startElection` up to the goroutines.
  unfoldable pub begin_election : ℕ → RaftEngine S.Store → RaftEngine S.Store × Ballot
  begin_election draw re =
      let re' = reset_election_timeout draw (
        persist_state S json (record re {
          role = candidate;
          current_term = re.current_term + 1;
          voted_for = re.node_id;
        })) in
      (
        re',
        record {
          term = re'.current_term;
          last_log_index = get_last_log_index re';
          last_log_term = get_last_log_term re';
        },
      )

  -- `startElection` with its goroutines run at once and in the order of the peers.
  unfoldable pub start_election : ℕ → RaftEngine S.Store → RaftEngine S.Store
  start_election draw re =
      let (re', b) = begin_election draw re in (count_votes b re'.peers (1, re')).1

  -- The term, role and vote after the message's term was compared with a smaller own one.
  unfoldable pub observe_term : RequestVoteArgs → RaftEngine S.Store → RaftEngine S.Store
  observe_term args re =
      if ltb re.current_term args.term
      then record re { current_term = args.term; role = follower; voted_for = [] }
      else re

  abbrev may_vote : RequestVoteArgs → RaftEngine S.Store → Bool
  may_vote args re =
      (str_eq re.voted_for [] || str_eq re.voted_for args.candidate_id)
      && leb (get_last_log_index re) args.last_log_index

  -- The reply carries the term from before the message.
  unfoldable pub handle_request_vote :
      ℕ → RequestVoteArgs → RaftEngine S.Store → RaftEngine S.Store × RequestVoteReply
  unfolding observe_term
  handle_request_vote draw args re =
      let seen = observe_term args re in
      if ltb args.term re.current_term
      then (re, record { term = re.current_term; vote_granted = false })
      else if may_vote args seen
      then (
        persist_state S json
            (reset_election_timeout draw (record seen { voted_for = args.candidate_id })),
        record { term = re.current_term; vote_granted = true },
      )
      else (persist_state S json seen, record { term = re.current_term; vote_granted = false })
