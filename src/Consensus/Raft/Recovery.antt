-- ===== src/Consensus/Raft/Recovery.antt =====
-- raft_engine.go: what survives a restart.
use node_decent_system.Prelude.{
  suc, ◌-◌, ◌++◌, take, ℕ, ◌≤◌, ◌<◌, ◌≡◌, refl, sym, ap, ◌∙◌, true, false, none, some, List, arith,
  ok, ltb, Bytes, str_eq_refl,
}
use node_decent_system.Interfaces.{Storage, StorageLaws}
use node_decent_system.Consensus.Raft.Types.{follower, AppendEntriesArgs, RaftEngine, Codec}
use node_decent_system.Consensus.Raft.Persist.{
  raft_state, persistent, persisted, persist_state, loaded, load_state, new_raft_engine,
}
use node_decent_system.Consensus.Raft.Election.{reset_election_timeout}
use node_decent_system.Consensus.Raft.Append.{
  observe_leader, log_matches, splice_log, advance_commit, handle_append_entries,
}
use node_decent_system.Consensus.Raft.Votes.{vote-advance_commit, handle_append_entries-votes}
use node_decent_system.Consensus.Raft.Log.Shape.{Contiguous, WellFormed}
use node_decent_system.Consensus.Raft.Log.Replication.{handle_append_entries-accepts}
use node_decent_system.Consensus.Raft.Log.Kept.{advance_commit_at}

module _ (S : Storage) (laws : StorageLaws S) (json : Codec) where
  -- The storage holds the durable fields as they are now.
  abbrev pub IsDurable : RaftEngine S.Store → Type 0
  IsDurable re =
      (st : S.Store) × (re.storage ≡ some st)
      × (d : Bytes) × (S.get st raft_state ≡ ok d)
      × (json.unmarshal d ≡ some (persistent re))

  -- A restarted node, under any name and peers, has the term, the vote, the log
  -- and the snapshot that it had, and is a follower with commit index 0.
  pub restart-IsDurable :
      (re : RaftEngine S.Store) (node_id : Bytes) (peers : List Bytes)
      → IsDurable re
      → let re' = new_raft_engine S json node_id peers re.storage in
        (persistent re' ≡ persistent re) × (re'.role ≡ follower) × (re'.commit_index ≡ 0)
  unfolding new_raft_engine load_state loaded
  restart-IsDurable re node_id peers (st, h, d, g, u) = (rw (h, loaded, g, u), refl, refl)

  -- `persistState` makes a node durable, if JSON gives back what it was given and the storage takes
  -- the write.
  pub persist_state-IsDurable :
      (re : RaftEngine S.Store) (st : S.Store) (d : Bytes)
      → re.storage ≡ some st
      → json.marshal (persistent re) ≡ some d
      → json.unmarshal d ≡ some (persistent re)
      → (S.put st raft_state d).1 ≡ none
      → IsDurable (persist_state S json re)
  unfolding persist_state
  persist_state-IsDurable re st d h m u p = (
    (S.put st raft_state d).0,
    rw (h, m) (unfold persisted in refl),
    d,
    laws.get-put st raft_state d raft_state p ∙ rw (str_eq_refl raft_state),
    u,
  )

  persistent-advance_commit :
      (c : ℕ) (re : RaftEngine S.Store) → persistent (advance_commit c re) ≡ persistent re
  persistent-advance_commit c re =
      let v = vote-advance_commit c re in
      let a = advance_commit_at c re re.log _ _ _ re.snapshot refl refl refl refl refl in
      rw (v.0, v.1, a.0, a.3)

  -- A matching message is written before the reply: what the node has afterwards survives.
  pub handle_append_entries-IsDurable :
      (draw : ℕ) (args : AppendEntriesArgs) (re : RaftEngine S.Store) (st : S.Store) (d : Bytes)
      → re.current_term ≤ args.term
      → log_matches args (reset_election_timeout draw (observe_leader args re)) ≡ true
      → re.storage ≡ some st
      → let re' = (handle_append_entries S json draw args re).0 in
        json.marshal (persistent re') ≡ some d
        → json.unmarshal d ≡ some (persistent re')
        → (S.put st raft_state d).1 ≡ none
        → IsDurable re'
  unfolding handle_append_entries
  handle_append_entries-IsDurable draw args re st d new hit h = rw (current, hit) go
    where
      current : ltb args.term re.current_term ≡ false
      current = ground arith

      spliced : RaftEngine S.Store
      spliced = splice_log args (reset_election_timeout draw (observe_leader args re))

      same_storage : spliced.storage ≡ some st
      same_storage = unfold splice_log reset_election_timeout observe_leader in (ground arith)

      go :
          json.marshal
              (persistent (advance_commit args.leader_commit (persist_state S json spliced)))
            ≡ some d
          → json.unmarshal d
            ≡ some (persistent (advance_commit args.leader_commit (persist_state S json spliced)))
          → (S.put st raft_state d).1 ≡ none
          → IsDurable (advance_commit args.leader_commit (persist_state S json spliced))
      go m u p =
          let same = persistent-advance_commit args.leader_commit (persist_state S json spliced) in
          let i =
            persist_state-IsDurable spliced st d same_storage
              (unfold persist_state in (rw same at m)) (unfold persist_state in (rw same at u)) p in
          (
            i.0,
            (vote-advance_commit args.leader_commit (persist_state S json spliced)).3 ∙ i.1,
            i.2,
            i.3,
            i.4 ∙ ap some (sym same),
          )

  -- What a follower has acknowledged survives a crash: a node with a well-formed log accepts a message
  -- whose entries continue the previous one without gaps, the storage takes the write, and JSON reads
  -- back what it wrote. Then a node that is built over that storage, under any name and peers, has the
  -- message's term, the log up to the previous entry with the message's entries behind it, and the
  -- vote and the snapshot of before the crash; it is a follower with commit index 0.
  pub restart_after_append :
      (draw : ℕ) (args : AppendEntriesArgs) (re : RaftEngine S.Store) (st : S.Store) (d : Bytes)
      (node_id : Bytes) (peers : List Bytes)
      → WellFormed re
      → re.current_term ≤ args.term
      → log_matches args (reset_election_timeout draw (observe_leader args re)) ≡ true
      → Contiguous (suc args.prev_log_index) args.entries
      → re.storage ≡ some st
      → json.marshal (persistent (handle_append_entries S json draw args re).0) ≡ some d
      → json.unmarshal d ≡ some (persistent (handle_append_entries S json draw args re).0)
      → (S.put st raft_state d).1 ≡ none
      → let (re', reply) = handle_append_entries S json draw args re in
        let fresh = new_raft_engine S json node_id peers re'.storage in
        (reply.success ≡ true)
        × (fresh.current_term ≡ args.term)
        × (fresh.log
            ≡ take (suc (args.prev_log_index - re.snapshot.last_included_index)) re.log
              ++ args.entries)
        × (fresh.voted_for ≡ re'.voted_for)
        × (fresh.snapshot ≡ re.snapshot)
        × (fresh.role ≡ follower)
        × (fresh.commit_index ≡ 0)
  restart_after_append draw args re st d node_id peers w new hit c h m u p =
      let re' = (handle_append_entries S json draw args re).0 in
      let accepted = handle_append_entries-accepts S json draw args re w new hit c in
      let term = ((handle_append_entries-votes S json draw args re).1 new).0 in
      let back =
        restart-IsDurable re' node_id peers
          (handle_append_entries-IsDurable draw args re st d new hit h m u p) in
      (
        accepted.0,
        ap (λ q. q.current_term) back.0 ∙ term,
        ap (λ q. q.log) back.0 ∙ accepted.1,
        ap (λ q. q.voted_for) back.0,
        ap (λ q. q.snapshot) back.0 ∙ accepted.4,
        back.1,
        back.2,
      )

  -- A message that does not match is answered without a write: the term that it brought is lost by
  -- a restart, which returns to the earlier term.
  pub mismatch_forgets_term :
      (draw : ℕ) (args : AppendEntriesArgs) (re : RaftEngine S.Store)
      → IsDurable re
      → re.current_term < args.term
      → log_matches args (reset_election_timeout draw (observe_leader args re)) ≡ false
      → let re' = (handle_append_entries S json draw args re).0 in
        (re'.current_term ≡ args.term)
        × ((new_raft_engine S json re'.node_id re'.peers re'.storage).current_term
            ≡ re.current_term)
  unfolding handle_append_entries
  mismatch_forgets_term draw args re durable newer miss =
      rw (current, miss)
        (term, rw same_storage (ap (λ p. p.current_term) (restart-IsDurable re _ _ durable).0))
    where
      same_storage : (reset_election_timeout draw (observe_leader args re)).storage ≡ re.storage
      same_storage = unfold reset_election_timeout observe_leader in (ground arith)

      current : ltb args.term re.current_term ≡ false
      current = ground arith

      term : (reset_election_timeout draw (observe_leader args re)).current_term ≡ args.term
      term = unfold reset_election_timeout observe_leader in (ground arith)
