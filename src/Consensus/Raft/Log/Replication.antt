-- ===== src/Consensus/Raft/Log/Replication.antt =====
-- raft_engine.go: `HandleAppendEntries` and `Propose` on the log.
use Prim.Native.Nat.{min}
use node_decent_system.Prelude.{
  ℕ, suc, ◌+◌, ◌-◌, ◌≤◌, ◌≡◌, refl, true, false, Bool-cases, inl, inr, ◌++◌, arith, ltb,
  if◌then◌else◌, length, take,
}
use node_decent_system.Interfaces.{Storage}
use node_decent_system.Consensus.Raft.Types.{
  AppendEntriesArgs, RaftEngine, Codec, get_last_log_index,
}
use node_decent_system.Consensus.Raft.Persist.{persist_state}
use node_decent_system.Consensus.Raft.Election.{reset_election_timeout}
use node_decent_system.Consensus.Raft.Append.{
  observe_leader, log_matches, splice_log, handle_append_entries,
}
use node_decent_system.Consensus.Raft.Log.Shape.{Contiguous, WellFormed}
use node_decent_system.Consensus.Raft.Log.Kept.{
  advance_commit-WellFormed, advance_commit_at, splice_log-last,
}

module _ (S : Storage) (json : Codec) where
  -- The engine as the check of the previous entry sees it.
  abbrev pub seen : ℕ → AppendEntriesArgs → RaftEngine S.Store → RaftEngine S.Store
  seen draw args re = reset_election_timeout draw (observe_leader args re)

  pub log-seen :
      (draw : ℕ) (args : AppendEntriesArgs) (re : RaftEngine S.Store)
      → ((seen draw args re).log ≡ re.log)
        × ((seen draw args re).snapshot ≡ re.snapshot)
        × ((seen draw args re).commit_index ≡ re.commit_index)
        × ((seen draw args re).last_applied ≡ re.last_applied)
        × ((seen draw args re).commit_chan ≡ re.commit_chan)
  unfolding observe_leader reset_election_timeout
  log-seen draw args re = ground arith

  seen-WellFormed :
      (draw : ℕ) (args : AppendEntriesArgs) (re : RaftEngine S.Store)
      → WellFormed re
      → WellFormed (seen draw args re)
  seen-WellFormed draw args re w =
      let h = log-seen draw args re in
      record {
        contiguous = rw (h.0, h.1) w.contiguous;
        nonempty = rw h.0 w.nonempty;
        committed = rw (h.0, h.1, h.2) w.committed;
      }

  -- A message that is refused keeps the log's shape, whatever it brings. One that is accepted keeps
  -- it if its entries continue the previous one without gaps and do not end before an entry that is
  -- committed already.
  pub handle_append_entries-WellFormed :
      (draw : ℕ) (args : AppendEntriesArgs) (re : RaftEngine S.Store)
      → ((handle_append_entries S json draw args re).1.success ≡ true
          → Contiguous (suc args.prev_log_index) args.entries
            × (re.commit_index ≤ args.prev_log_index + length args.entries))
      → WellFormed re
      → WellFormed (handle_append_entries S json draw args re).0
  unfolding handle_append_entries
  handle_append_entries-WellFormed draw args re fits w =
      elim (Bool-cases (ltb args.term re.current_term)) [
        | inl old ↦ rw old w
        | inr new ↦ elim (Bool-cases (log_matches args (seen draw args re))) [
          | inr miss ↦ rw (new, miss) v
          | inl hit ↦
              let f = accepted new hit in
              let t = splice_log-last args (seen draw args re) v.contiguous f.0 hit in
              let long = f.1 in
              rw (new, hit)
                (advance_commit-WellFormed args.leader_commit _ (
                  unfold splice_log persist_state in
                  record {
                    contiguous = unfold splice_log in t.0;
                    nonempty = unfold splice_log in t.2;
                    committed =
                        rw ((log-seen draw args re).2) (unfold splice_log in (omega (arith, t.1)));
                  }))
        ]
      ]
    where
      accepted :
          ltb args.term re.current_term ≡ false
          → log_matches args (seen draw args re) ≡ true
          → Contiguous (suc args.prev_log_index) args.entries
            × (re.commit_index ≤ args.prev_log_index + length args.entries)
      accepted new hit = fits (rw (new, hit))

      v : WellFormed (seen draw args re)
      v = seen-WellFormed draw args re w

  -- An accepted message: the log is what it was up to the previous entry, with the leader's entries
  -- behind it, so that it ends with them; the commit index follows the leader's within the log, the
  -- applied index follows the commit index when that moves, and the snapshot stays.
  pub handle_append_entries-accepts :
      (draw : ℕ) (args : AppendEntriesArgs) (re : RaftEngine S.Store)
      → WellFormed re
      → re.current_term ≤ args.term
      → log_matches args (seen draw args re) ≡ true
      → Contiguous (suc args.prev_log_index) args.entries
      → let (re', reply) = handle_append_entries S json draw args re in
        (reply.success ≡ true)
        × (re'.log
            ≡ take (suc (args.prev_log_index - re.snapshot.last_included_index)) re.log
              ++ args.entries)
        × (re'.commit_index ≡ (
            if ltb re.commit_index args.leader_commit
            then min args.leader_commit (args.prev_log_index + length args.entries)
            else re.commit_index))
        × (re'.last_applied ≡ (
            if ltb re.commit_index args.leader_commit
            then re.last_applied
              + (min args.leader_commit (args.prev_log_index + length args.entries)
                  - re.last_applied)
            else re.last_applied))
        × (re'.snapshot ≡ re.snapshot)
        × (get_last_log_index re' ≡ args.prev_log_index + length args.entries)
  unfolding handle_append_entries
  handle_append_entries-accepts draw args re w term hit c =
      let h = log-seen draw args re in
      let t =
        splice_log-last args (seen draw args re) (seen-WellFormed draw args re w).contiguous c
          hit in
      let f =
        advance_commit_at args.leader_commit
          (persist_state S json (splice_log args (seen draw args re)))
          (take (suc (args.prev_log_index - re.snapshot.last_included_index)) re.log
            ++ args.entries)
          re.commit_index (args.prev_log_index + length args.entries) re.last_applied re.snapshot
          (unfold persist_state splice_log in (rw (h.0, h.1)))
          (unfold persist_state splice_log in h.2) (unfold persist_state in t.1)
          (unfold persist_state splice_log in h.3) (unfold persist_state splice_log in h.1) in
      rw (new, hit)
        (refl, f.0, f.1, f.2, f.3, rw (f.0, f.3) (unfold splice_log in (rw (h.0, h.1) at t.1)))
    where
      new : ltb args.term re.current_term ≡ false
      new = ground arith
