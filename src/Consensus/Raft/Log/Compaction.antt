-- ===== src/Consensus/Raft/Log/Compaction.antt =====
-- raft_engine.go: `CompactLog` and `Propose`.
use node_decent_system.Prelude.{
  ℕ, suc, ◌+◌, ◌-◌, ◌≤◌, ◌<◌, ◌≡◌, refl, sym, true, false, ◌||◌, none, some, List, [], ◌∷◌, ◌++◌,
  arith, leb, ltb, length, length-append, length-drop, get_elem?, get_elem?-some, get_elem?-none,
  get_elem?-append_length, drop, returns, panics, Bytes,
}
use node_decent_system.Interfaces.{Storage}
use node_decent_system.Consensus.Raft.Types.{
  LogEntry, RaftEngine, Codec, last_index, get_last_log_index, is_leader,
}
use node_decent_system.Consensus.Raft.Persist.{persist_state}
use node_decent_system.Consensus.Raft.Leader.{append_own, propose, compact_at, compact_log}
use node_decent_system.Consensus.Raft.Log.Shape.{
  Contiguous, WellFormed, last_index-Contiguous, Contiguous-at, Contiguous-append, Contiguous-drop,
  last_index-append,
}

module _ (S : Storage) (json : Codec) where
  -- `CompactLog` at an index that is committed and not yet in a snapshot panics just where the log
  -- ends before that index.
  pub compact_log-panics :
      (i : ℕ) (state : Bytes) (re : RaftEngine S.Store)
      → re.snapshot.last_included_index < i
      → i ≤ re.commit_index
      → length re.log ≤ i - re.snapshot.last_included_index
      → compact_log S json i state re ≡ panics
  unfolding compact_log
  compact_log-panics i state re low high short =
      rw (guard, get_elem?-none re.log (i - re.snapshot.last_included_index) short)
    where
      guard : (leb i re.snapshot.last_included_index || ltb re.commit_index i) ≡ false
      guard = ground arith

  compact_log-returns :
      (i : ℕ) (state : Bytes) (re : RaftEngine S.Store) (e : LogEntry)
      → re.snapshot.last_included_index < i
      → i ≤ re.commit_index
      → get_elem? re.log (i - re.snapshot.last_included_index) ≡ some e
      → compact_log S json i state re
        ≡ returns (compact_at S json (i - re.snapshot.last_included_index) i state re e, none)
  unfolding compact_log
  compact_log-returns i state re e low high h = rw (guard, h)
    where
      guard : (leb i re.snapshot.last_included_index || ltb re.commit_index i) ≡ false
      guard = ground arith

  compact_at-WellFormed :
      (i : ℕ) (state : Bytes) (re : RaftEngine S.Store) (e : LogEntry)
      → re.snapshot.last_included_index < i
      → i ≤ re.commit_index
      → WellFormed re
      → WellFormed (compact_at S json (i - re.snapshot.last_included_index) i state re e)
        × (get_last_log_index (compact_at S json (i - re.snapshot.last_included_index) i state re e)
            ≡ get_last_log_index re)
  unfolding compact_at persist_state
  compact_at-WellFormed i state re e low high w = (
    record {
      contiguous = whole;
      nonempty = omega arith;
      committed = omega (arith, last, w.committed);
    },
    last,
  )
    where
      base : ℕ
      base = re.snapshot.last_included_index

      rest : List LogEntry
      rest = drop (suc (i - base)) re.log

      log' : List LogEntry
      log' = record { index = i; term = e.term; payload = [] } ∷ rest

      whole : Contiguous i log'
      whole = (
        refl,
        Contiguous-at (base + suc (i - base)) (suc i) rest (omega arith)
            (Contiguous-drop (suc (i - base)) base re.log w.contiguous),
      )

      last : last_index i log' ≡ last_index base re.log
      last = omega (
        arith,
        last_index-Contiguous i i log' whole (omega arith),
        last_index-Contiguous base base re.log w.contiguous w.nonempty,
        length-drop (suc (i - base)) re.log,
        w.committed,
        w.nonempty,
      )

  -- On a well-formed log, `CompactLog` at a committed index beyond the snapshot does not panic and
  -- reports no error; the snapshot stands at that index, and the log is well formed and has the
  -- same last index.
  pub compact_log-WellFormed :
      (i : ℕ) (state : Bytes) (re : RaftEngine S.Store)
      → re.snapshot.last_included_index < i
      → i ≤ re.commit_index
      → WellFormed re
      → (re' : RaftEngine S.Store) × (compact_log S json i state re ≡ returns (re', none))
        × WellFormed re'
        × (re'.snapshot.last_included_index ≡ i)
        × (re'.snapshot.payload ≡ state)
        × (get_last_log_index re' ≡ get_last_log_index re)
  compact_log-WellFormed i state re low high w =
      let (e, he) = get_elem?-some re.log (i - base) (
        omega
          (arith, last_index-Contiguous base base re.log w.contiguous w.nonempty, w.committed)) in
      let k = compact_at-WellFormed i state re e low high w in
      (
        compact_at S json (i - base) i state re e,
        compact_log-returns i state re e low high he,
        k.0,
        unfold compact_at persist_state in refl,
        unfold compact_at persist_state in refl,
        k.1,
      )
    where
      base : ℕ
      base = re.snapshot.last_included_index

  -- A leader's proposal is appended under the next index and the current term, counts as committed
  -- and applied at once, and keeps the log well formed.
  pub propose-WellFormed :
      (payload : Bytes) (re : RaftEngine S.Store)
      → WellFormed re
      → is_leader re.role ≡ true
      → let re' = (propose S json payload re).0 in
        WellFormed re'
        × (get_last_log_index re' ≡ get_last_log_index re + 1)
        × (re'.commit_index ≡ get_last_log_index re')
        × (re'.last_applied ≡ re'.commit_index)
        × (get_elem? re'.log (length re.log)
            ≡ some (record {
              index = get_last_log_index re + 1;
              term = re.current_term;
              payload = payload;
            }))
  unfolding propose append_own persist_state
  propose-WellFormed payload re w l = rw l (
    record {
      contiguous = whole;
      nonempty = omega (arith, length-append re.log (e ∷ []));
      committed = omega (arith, end);
    },
    end,
    sym end,
    refl,
    get_elem?-append_length re.log e,
  )
    where
      base : ℕ
      base = re.snapshot.last_included_index

      e : LogEntry
      e = record { index = last_index base re.log + 1; term = re.current_term; payload = payload }

      end : last_index base (re.log ++ e ∷ []) ≡ last_index base re.log + 1
      end = last_index-append base re.log (e ∷ [])

      whole : Contiguous base (re.log ++ e ∷ [])
      whole =
          Contiguous-append base re.log (e ∷ []) w.contiguous
            (last_index-Contiguous base base re.log w.contiguous w.nonempty, tt)
