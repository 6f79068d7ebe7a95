-- ===== src/Consensus/Raft/Replication.antt =====
-- raft_engine.go: proposals at a leader, and the messages that bring them to a follower.
use Prim.Native.Nat.{min}
use node_decent_system.Prelude.{
  ℕ, ◌+◌, ◌-◌, ◌≤◌, ◌<◌, ◌≡◌, sym, ap, ◌∙◌, true, List, [], ◌∷◌, arith, ltb, if◌then◌else◌, length,
  All, Bytes,
}
use node_decent_system.Chan.{try_send}
use node_decent_system.Interfaces.{Storage}
use node_decent_system.Consensus.Raft.Types.{RaftEngine, Codec, get_last_log_index, is_leader}
use node_decent_system.Consensus.Raft.Append.{handle_append_entries}
use node_decent_system.Consensus.Raft.Leader.{propose}
use node_decent_system.Consensus.Raft.Log.Replication.{
  handle_append_entries-accepts, handle_append_entries-WellFormed,
}
use node_decent_system.Consensus.Raft.Log.Compaction.{propose-WellFormed}
use node_decent_system.Consensus.Raft.Votes.{handle_append_entries-votes}
use node_decent_system.Consensus.Raft.InStep.{
  InStep, message_of, propose-leader, same_last, message_matches, follower_log, follower_chan,
}

module _ (S T : Storage) (json : Codec) where
  -- The leader takes a proposal, and the follower its message.
  unfoldable pub replicate :
      ℕ → Bytes → RaftEngine S.Store → RaftEngine T.Store → RaftEngine S.Store × RaftEngine T.Store
  replicate draw payload f l =
      ((handle_append_entries S json draw (message_of payload l) f).0, (propose T json payload l).0)

  -- A proposal that is not empty and its message keep the two in step.
  pub replicate-InStep :
      (draw : ℕ) (payload : Bytes) (f : RaftEngine S.Store) (l : RaftEngine T.Store)
      → 0 < length payload
      → InStep f l
      → InStep (replicate draw payload f l).0 (replicate draw payload f l).1
  unfolding replicate
  replicate-InStep draw payload f l some_bytes h =
      let args = message_of payload l in
      let leader = propose-leader S T json payload l h.leads in
      let well = propose-WellFormed T json payload l h.leader_well h.leads in
      let accepted =
        handle_append_entries-accepts S json draw args f h.follower_well h.term
          (message_matches S T json draw payload f l h) (omega arith, tt) in
      let behind : ltb f.commit_index (get_last_log_index l + 1) ≡ true =
        grows f.commit_index (get_last_log_index l)
          (omega (arith, h.follower_well.committed, same_last S T json f l h)) in
      let votes = (handle_append_entries-votes S json draw args f).1 h.term in
      let m = get_last_log_index l + 1 in
      let caught_up : f.last_applied + (min m m - f.last_applied) ≡ m =
        omega (arith, h.all_applied, same_last S T json f l h) in
      record {
        log = follower_log S T json draw payload f l h ∙ sym leader.0;
        snapshot = accepted.4 ∙ h.snapshot ∙ sym leader.1;
        all_applied =
            accepted.3
            ∙ ap (λ b. if b then f.last_applied + (min m m - f.last_applied) else f.last_applied)
                behind
            ∙ caught_up
            ∙ sym accepted.5;
        term = omega (arith, votes.0, leader.2);
        chan =
            follower_chan S T json draw payload f l some_bytes h
            ∙ ap (λ c. try_send c payload) h.chan
            ∙ sym leader.4;
        leads = ap is_leader leader.3 ∙ h.leads;
        leader_well = well.0;
        follower_well =
            handle_append_entries-WellFormed S json draw args f
              (λ success. (
                (omega arith, tt),
                omega (arith, h.follower_well.committed, same_last S T json f l h),
              ))
              h.follower_well;
      }
    where
      grows : (c n : ℕ) → c ≤ n → ltb c (n + 1) ≡ true
      grows c n le = ground arith

  -- The proposals one after the other.
  unfoldable pub replicate_all :
      ℕ
      → List Bytes
      → RaftEngine S.Store
      → RaftEngine T.Store
      → RaftEngine S.Store × RaftEngine T.Store
  replicate_all draw [] f l = (f, l)
  replicate_all draw (d ∷ ds) f l =
      let (f', l') = replicate draw d f l in replicate_all draw ds f' l'

  -- A follower in step with its leader stays in step with it through any proposals that are not
  -- empty, if it gets the message of each: its log and snapshot are the leader's, all of its log is
  -- applied, its term is not later, both are well formed, and their commit channels hold the same.
  pub replicate_all-InStep :
      (draw : ℕ) (ds : List Bytes) (f : RaftEngine S.Store) (l : RaftEngine T.Store)
      → All (λ d. 0 < length d) ds
      → InStep f l
      → InStep (replicate_all draw ds f l).0 (replicate_all draw ds f l).1
  unfolding replicate_all
  replicate_all-InStep draw [] f l h s = s
  replicate_all-InStep draw (d ∷ ds) f l h s =
      replicate_all-InStep draw ds _ _ h.1 (replicate-InStep draw d f l h.0 s)
