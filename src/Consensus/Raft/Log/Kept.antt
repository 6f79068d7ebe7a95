-- ===== src/Consensus/Raft/Log/Kept.antt =====
-- raft_engine.go: the steps of the methods that touch the log, and its shape.
use Prim.Native.Nat.{min}
use node_decent_system.Prelude.{
  ℕ, zero, suc, ◌+◌, ◌-◌, ◌≤◌, ◌<◌, ◌≡◌, refl, true, Bool-cases, inl, inr, Option-cases, List, ◌++◌,
  arith, ltb, if◌then◌else◌, length, length-append, length-take, get_elem?, take,
}
use node_decent_system.Consensus.Raft.Types.{
  LogEntry, Snapshot, AppendEntriesArgs, RaftEngine, get_last_log_index,
}
use node_decent_system.Consensus.Raft.Append.{
  apply_next, apply_rounds, apply_committed, advance_commit, log_matches, splice_log,
}
use node_decent_system.Consensus.Raft.Log.Shape.{
  Contiguous, WellFormed, last_index-Contiguous, Contiguous-at, Contiguous-append, Contiguous-take,
  get_elem?-lt,
}

module _ {Store : Type 0} where
  -- The loop that applies entries changes neither the log nor the commit index.
  pub log-apply_rounds :
      (n : ℕ) (re : RaftEngine Store)
      → ((apply_rounds n re).log ≡ re.log)
        × ((apply_rounds n re).snapshot ≡ re.snapshot)
        × ((apply_rounds n re).commit_index ≡ re.commit_index)
        × ((apply_rounds n re).last_applied ≡ re.last_applied + n)
  unfolding apply_rounds apply_next
  log-apply_rounds zero re = (refl, refl, refl, omega arith)
  log-apply_rounds (suc n) re =
      let h = log-apply_rounds n (apply_next re) in (h.0, h.1, h.2, omega arith)

  apply_rounds-WellFormed :
      (n : ℕ) (re : RaftEngine Store) → WellFormed re → WellFormed (apply_rounds n re)
  unfolding apply_rounds apply_next
  apply_rounds-WellFormed zero re w = w
  apply_rounds-WellFormed (suc n) re w =
      apply_rounds-WellFormed n (apply_next re)
        (record { contiguous = w.contiguous; nonempty = w.nonempty; committed = w.committed })

  pub advance_commit-WellFormed :
      (c : ℕ) (re : RaftEngine Store) → WellFormed re → WellFormed (advance_commit c re)
  unfolding advance_commit apply_committed
  advance_commit-WellFormed c re w = elim (Bool-cases (ltb re.commit_index c)) [
    | inl h ↦ rw h (
        apply_rounds-WellFormed _ _
          (record { contiguous = w.contiguous; nonempty = w.nonempty; committed = omega arith }))
    | inr h ↦ rw h w
  ]

  -- What a matching message says of the log: the entry before the new ones is there.
  pub log_matches_slot :
      (args : AppendEntriesArgs) (re : RaftEngine Store)
      → log_matches args re ≡ true
      → (re.snapshot.last_included_index ≤ args.prev_log_index)
        × (args.prev_log_index - re.snapshot.last_included_index < length re.log)
  unfolding log_matches
  log_matches_slot args re h =
      elim (Option-cases
        (get_elem? re.log (args.prev_log_index - re.snapshot.last_included_index))) [
          | inl e ↦ absurd (ground arith)
          | inr (e, he) ↦ (
            ground arith,
            get_elem?-lt (args.prev_log_index - re.snapshot.last_included_index) re.log e he,
          )
        ]

  pub splice_log-last :
      (args : AppendEntriesArgs) (re : RaftEngine Store)
      → Contiguous re.snapshot.last_included_index re.log
      → Contiguous (suc args.prev_log_index) args.entries
      → log_matches args re ≡ true
      → Contiguous re.snapshot.last_included_index (splice_log args re).log
        × (get_last_log_index (splice_log args re) ≡ args.prev_log_index + length args.entries)
        × (0 < length (splice_log args re).log)
  unfolding splice_log
  splice_log-last args re c d h =
      (whole, omega (arith, last_index-Contiguous base base _ whole pos, size, kept, m), pos)
    where
      base : ℕ
      base = re.snapshot.last_included_index

      k : ℕ
      k = suc (args.prev_log_index - base)

      m : (base ≤ args.prev_log_index) × (args.prev_log_index - base < length re.log)
      m = log_matches_slot args re h

      kept : length (take k re.log) ≡ k
      kept = omega (arith, length-take k re.log, m)

      size : length (take k re.log ++ args.entries) ≡ length (take k re.log) + length args.entries
      size = length-append (take k re.log) args.entries

      pos : 0 < length (take k re.log ++ args.entries)
      pos = omega (arith, size, kept)

      whole : Contiguous base (take k re.log ++ args.entries)
      whole =
          Contiguous-append base (take k re.log) args.entries (Contiguous-take k base re.log c) (
            Contiguous-at (suc args.prev_log_index) (base + length (take k re.log)) args.entries
              (omega (arith, kept, m)) d)

module _ {Store : Type 0} where
  -- The commit index moves only forward to the leader's, within the log, and the applied index
  -- catches up with it.
  advance_commit_fields :
      (c : ℕ) (re : RaftEngine Store)
      → ((advance_commit c re).log ≡ re.log)
        × ((advance_commit c re).commit_index
            ≡ (if ltb re.commit_index c then min c (get_last_log_index re) else re.commit_index))
        × ((advance_commit c re).last_applied ≡ (
            if ltb re.commit_index c
            then re.last_applied + (min c (get_last_log_index re) - re.last_applied)
            else re.last_applied))
        × ((advance_commit c re).snapshot ≡ re.snapshot)
  unfolding advance_commit apply_committed
  advance_commit_fields c re = elim (Bool-cases (ltb re.commit_index c)) [
    | inl h ↦
        let f =
          log-apply_rounds (min c (get_last_log_index re) - re.last_applied)
            (record re { commit_index = min c (get_last_log_index re) }) in
        rw h (f.0, f.2, f.3, f.1)
    | inr h ↦ rw h (refl, refl, refl, refl)
  ]

  pub advance_commit_at :
      (c : ℕ) (re : RaftEngine Store) (log : List LogEntry) (ci last la : ℕ) (snap : Snapshot)
      → re.log ≡ log
      → re.commit_index ≡ ci
      → get_last_log_index re ≡ last
      → re.last_applied ≡ la
      → re.snapshot ≡ snap
      → ((advance_commit c re).log ≡ log)
        × ((advance_commit c re).commit_index ≡ (if ltb ci c then min c last else ci))
        × ((advance_commit c re).last_applied ≡ (if ltb ci c then la + (min c last - la) else la))
        × ((advance_commit c re).snapshot ≡ snap)
  advance_commit_at c re log ci last la snap e f g h k =
      rw (← e, ← f, ← g, ← h, ← k) (advance_commit_fields c re)
