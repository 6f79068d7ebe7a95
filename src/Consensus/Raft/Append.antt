-- ===== src/Consensus/Raft/Append.antt =====
-- raft_engine.go: `HandleAppendEntries` and the delivery of committed entries.
use Prim.Native.Nat.{min}
use node_decent_system.Prelude.{
  ℕ, zero, suc, ◌+◌, ◌-◌, Bool, true, false, not, ◌&&◌, ◌||◌, Option, none, some, [], ◌++◌, ltb,
  leb, ◌==◌, if◌then◌else◌, length, get_elem?, take, Bytes,
}
use node_decent_system.Chan.{Chan, try_send}
use node_decent_system.Interfaces.{Storage}
use node_decent_system.Consensus.Raft.Types.{
  follower, is_candidate, LogEntry, AppendEntriesArgs, AppendEntriesReply, RaftEngine, Codec,
  get_last_log_index,
}
use node_decent_system.Consensus.Raft.Persist.{persist_state}
use node_decent_system.Consensus.Raft.Election.{reset_election_timeout}

-- The payload at a slot of the log goes to the channel unless it is empty or there is no slot.
unfoldable pub deliver : Chan Bytes → Option LogEntry → Chan Bytes
deliver ch none = ch
deliver ch (some e) = if ltb 0 (length e.payload) then try_send ch e.payload else ch

-- The log's entry for an absolute index; a negative relative index is out of range.
abbrev pub slot : {Store : Type 0} → RaftEngine Store → ℕ → Option LogEntry
slot re i =
    if leb re.snapshot.last_included_index i
    then get_elem? re.log (i - re.snapshot.last_included_index)
    else none

module _ {Store : Type 0} where
  -- One round of the loop that applies committed entries.
  unfoldable pub apply_next : RaftEngine Store → RaftEngine Store
  apply_next re = record re {
    last_applied = re.last_applied + 1;
    commit_chan = deliver re.commit_chan (slot re (re.last_applied + 1));
  }

  -- `for re.lastApplied < re.commitIndex`: the number of rounds is the difference of the two.
  unfoldable pub apply_rounds : ℕ → RaftEngine Store → RaftEngine Store
  apply_rounds zero re = re
  apply_rounds (suc n) re = apply_rounds n (apply_next re)

  unfoldable pub apply_committed : RaftEngine Store → RaftEngine Store
  apply_committed re = apply_rounds (re.commit_index - re.last_applied) re

  -- The commit index follows the leader's, but not beyond the log.
  unfoldable pub advance_commit : ℕ → RaftEngine Store → RaftEngine Store
  advance_commit leader_commit re =
      if ltb re.commit_index leader_commit
      then apply_committed (record re { commit_index = min leader_commit (get_last_log_index re) })
      else re

  -- A message of a later term, or of a leader of the candidate's own term, makes a follower.
  unfoldable pub observe_leader : AppendEntriesArgs → RaftEngine Store → RaftEngine Store
  observe_leader args re =
      if ltb re.current_term args.term || is_candidate re.role
      then record re { current_term = args.term; role = follower; voted_for = [] }
      else re

  -- The entry before the new ones is in the log, with the term that the leader has for it.
  unfoldable pub log_matches : AppendEntriesArgs → RaftEngine Store → Bool
  log_matches args re =
      leb re.snapshot.last_included_index args.prev_log_index
      && (elim (get_elem? re.log (args.prev_log_index - re.snapshot.last_included_index)) [
        | none ↦ false
        | some e ↦ e.term == args.prev_log_term
      ])

  -- `re.log[:relativePrevIndex+1]`, and the new entries behind it.
  unfoldable pub splice_log : AppendEntriesArgs → RaftEngine Store → RaftEngine Store
  splice_log args re = record re {
    log = take (suc (args.prev_log_index - re.snapshot.last_included_index)) re.log ++ args.entries;
  }

module _ (S : Storage) (json : Codec) where
  -- A message that does not match returns before `persistState`.
  unfoldable pub handle_append_entries :
      ℕ → AppendEntriesArgs → RaftEngine S.Store → RaftEngine S.Store × AppendEntriesReply
  handle_append_entries draw args re =
      let seen = reset_election_timeout draw (observe_leader args re) in
      if ltb args.term re.current_term
      then (re, record { term = re.current_term; success = false })
      else if not (log_matches args seen)
      then (seen, record { term = re.current_term; success = false })
      else (
        advance_commit args.leader_commit (persist_state S json (splice_log args seen)),
        record { term = re.current_term; success = true },
      )
