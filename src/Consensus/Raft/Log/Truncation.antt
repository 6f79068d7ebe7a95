-- ===== src/Consensus/Raft/Log/Truncation.antt =====
-- raft_engine.go: `HandleAppendEntries` cuts the log behind the previous entry of every message.
use node_decent_system.Prelude.{
  ℕ, suc, ◌-◌, ◌≤◌, ◌<◌, ◌≡◌, refl, ◌∙◌, true, false, List, [], ◌++◌, arith, ltb, length,
  length-append, length-take, take, panics, Bytes,
}
use node_decent_system.Interfaces.{Storage}
use node_decent_system.Consensus.Raft.Types.{
  LogEntry, AppendEntriesArgs, RaftEngine, Codec, get_last_log_index,
}
use node_decent_system.Consensus.Raft.Append.{log_matches, handle_append_entries}
use node_decent_system.Consensus.Raft.Leader.{compact_log}
use node_decent_system.Consensus.Raft.Log.Shape.{WellFormed}
use node_decent_system.Consensus.Raft.Log.Replication.{
  seen, log-seen, handle_append_entries-accepts,
}
use node_decent_system.Consensus.Raft.Log.Kept.{log_matches_slot}
use node_decent_system.Consensus.Raft.Log.Compaction.{compact_log-panics}

module _ (S : Storage) (json : Codec) where
  -- A matching message of a leader that is not behind, without entries, cuts the log behind its
  -- previous entry, also where that is before the commit index: if the leader's commit index is not
  -- beyond that one, it stays, and `CompactLog` at it panics.
  pub heartbeat_drops_committed :
      (draw : ℕ) (args : AppendEntriesArgs) (state : Bytes) (re : RaftEngine S.Store)
      → WellFormed re
      → re.current_term ≤ args.term
      → log_matches args (seen S json draw args re) ≡ true
      → args.entries ≡ []
      → args.leader_commit ≤ re.commit_index
      → args.prev_log_index < re.commit_index
      → let (re', reply) = handle_append_entries S json draw args re in
        (reply.success ≡ true)
        × (re'.commit_index ≡ re.commit_index)
        × (get_last_log_index re' ≡ args.prev_log_index)
        × (compact_log S json re'.commit_index state re' ≡ panics)
  heartbeat_drops_committed draw args state re w term hit empty low cut =
      let a = handle_append_entries-accepts S json draw args re w term hit (rw empty tt) in
      let commit = a.2 ∙ rw stays refl in
      let last = a.5 ∙ rw empty (omega arith) in
      (
        a.0,
        commit,
        last,
        compact_log-panics S json _ state _ (rw (a.4, commit) (omega (arith, prev))) (omega arith)
            (rw (a.4, commit, a.1, empty) (omega (arith, prev, short))),
      )
    where
      base : ℕ
      base = re.snapshot.last_included_index

      prev : base ≤ args.prev_log_index
      prev =
          rw ((log-seen S json draw args re).1) at
            (log_matches_slot args (seen S json draw args re) hit).0

      kept : List LogEntry
      kept = take (suc (args.prev_log_index - base)) re.log

      short : length (kept ++ []) ≤ suc (args.prev_log_index - base)
      short =
          omega
            (arith, length-append kept [], length-take (suc (args.prev_log_index - base)) re.log)

      stays : ltb re.commit_index args.leader_commit ≡ false
      stays = ground arith
