-- ===== src/Consensus/Raft/InStep.antt =====
-- raft_engine.go: a follower that has its leader's log, and what a proposal and the message that
-- brings it do to the two.
use Prim.Native.Nat.{min}
use node_decent_system.Prelude.{
  ℕ, zero, suc, ◌+◌, ◌-◌, ◌≤◌, ◌<◌, ◌≡◌, refl, sym, ap, ap₂, subst, ◌∙◌, true, false, some, List,
  [], ◌∷◌, ◌++◌, arith, ltb, leb, ==_iff, length, get_elem?, get_elem?-append_length, take, Bytes,
}
use node_decent_system.Chan.{Chan, try_send}
use node_decent_system.Interfaces.{Storage}
use node_decent_system.Consensus.Raft.Types.{
  LogEntry, AppendEntriesArgs, RaftEngine, Codec, last_index, last_term, get_last_log_index,
  get_last_log_term, is_leader,
}
use node_decent_system.Consensus.Raft.Persist.{persist_state}
use node_decent_system.Consensus.Raft.Append.{
  deliver, slot, apply_next, apply_rounds, apply_committed, advance_commit, log_matches, splice_log,
  handle_append_entries,
}
use node_decent_system.Consensus.Raft.Leader.{propose, append_own}
use node_decent_system.Consensus.Raft.Log.Shape.{
  WellFormed, last_index-Contiguous, last_index-append,
}
use node_decent_system.Consensus.Raft.Log.Replication.{
  seen, log-seen, handle_append_entries-accepts,
}

-- The last slot of a log.
last_slot :
    (d n : ℕ) (xs : List LogEntry)
    → length xs ≡ suc n
    → (e : LogEntry) × (get_elem? xs n ≡ some e) × (e.term ≡ last_term d xs)
last_slot d n [] h = absurd (omega arith)
last_slot d zero (x ∷ []) h = (x, refl, refl)
last_slot d (suc n) (x ∷ []) h = absurd (omega arith)
last_slot d zero (x ∷ y ∷ xs) h = absurd (omega arith)
last_slot d (suc n) (x ∷ y ∷ xs) h =
    let (e, at, same) = last_slot x.term n (y ∷ xs) (omega arith) in (e, at, same)

take-length : (xs : List LogEntry) → take (length xs) xs ≡ xs
take-length [] = refl
take-length (x ∷ xs) = ap (◌∷◌ x) (take-length xs)

module _ {Store : Type 0} where
  -- One entry more is committed than applied.
  advance_one :
      (m : ℕ) (re : RaftEngine Store)
      → re.commit_index < m
      → m ≡ re.last_applied + 1
      → get_last_log_index re ≡ m
      → (advance_commit m re).commit_chan ≡ deliver re.commit_chan (slot re m)
  unfolding advance_commit apply_committed apply_rounds apply_next
  advance_one m re behind next last =
      let grows : ltb re.commit_index m ≡ true = ground arith in
      let once : min m (get_last_log_index re) - re.last_applied ≡ 1 = omega arith in
      rw grows (
        subst
          (λ k.
            (apply_rounds k
              (record re { commit_index = min m (get_last_log_index re) })).commit_chan
            ≡ deliver re.commit_chan (slot re m))
          (sym once) (ap (λ i. deliver re.commit_chan (slot re i)) (sym next)))

-- The entry of a proposal, and the message of the protocol that brings it to a follower. The
-- repository handles such messages and has no code that sends them.
abbrev pub entry_of : {Store : Type 0} → Bytes → RaftEngine Store → LogEntry
entry_of payload re = record {
  index = get_last_log_index re + 1;
  term = re.current_term;
  payload = payload;
}

abbrev pub message_of : {Store : Type 0} → Bytes → RaftEngine Store → AppendEntriesArgs
message_of payload re = record {
  term = re.current_term;
  leader_id = re.node_id;
  prev_log_index = get_last_log_index re;
  prev_log_term = get_last_log_term re;
  entries = entry_of payload re ∷ [];
  leader_commit = get_last_log_index re + 1;
}

-- A follower in step with its leader: the same log behind the same snapshot, all of it applied, the
-- same values in the channel, and no later term.
pub record InStep {Store Store' : Type 0} (f : RaftEngine Store) (l : RaftEngine Store')
    : Type 0 where
  pub log : f.log ≡ l.log
  pub snapshot : f.snapshot ≡ l.snapshot
  pub all_applied : f.last_applied ≡ get_last_log_index f
  pub term : f.current_term ≤ l.current_term
  pub chan : f.commit_chan ≡ l.commit_chan
  pub leads : is_leader l.role ≡ true
  pub leader_well : WellFormed l
  pub follower_well : WellFormed f

-- A previous entry that is in the log, with its term.
log_matches-at :
    {Store : Type 0} (args : AppendEntriesArgs) (re : RaftEngine Store) (e : LogEntry)
    → re.snapshot.last_included_index ≤ args.prev_log_index
    → get_elem? re.log (args.prev_log_index - re.snapshot.last_included_index) ≡ some e
    → e.term ≡ args.prev_log_term
    → log_matches args re ≡ true
unfolding log_matches
log_matches-at args re e above at same =
    let fits : leb re.snapshot.last_included_index args.prev_log_index ≡ true = ground arith in
    rw (fits, at) ((==_iff e.term args.prev_log_term).1 same)

-- A slot that is there.
slot_at :
    {Store : Type 0} (re : RaftEngine Store) (i : ℕ) (e : LogEntry)
    → re.snapshot.last_included_index ≤ i
    → get_elem? re.log (i - re.snapshot.last_included_index) ≡ some e
    → slot re i ≡ some e
slot_at re i e above at =
    let fits : leb re.snapshot.last_included_index i ≡ true = ground arith in rw fits at

deliver-some :
    (ch : Chan Bytes) (e : LogEntry)
    → 0 < length e.payload
    → deliver ch (some e) ≡ try_send ch e.payload
unfolding deliver
deliver-some ch e h = let fits : ltb 0 (length e.payload) ≡ true = ground arith in rw fits refl

-- A well-formed log has as many slots as its indices say.
length-log :
    {Store : Type 0} (re : RaftEngine Store)
    → WellFormed re
    → length re.log ≡ suc (get_last_log_index re - re.snapshot.last_included_index)
length-log re w = omega (
  arith,
  last_index-Contiguous re.snapshot.last_included_index re.snapshot.last_included_index re.log
      w.contiguous w.nonempty,
  w.nonempty,
)

module _ (S T : Storage) (json : Codec) where
  -- What a leader's proposal changes.
  pub propose-leader :
      (payload : Bytes) (l : RaftEngine T.Store)
      → is_leader l.role ≡ true
      → let l' = (propose T json payload l).0 in
        (l'.log ≡ l.log ++ entry_of payload l ∷ [])
        × (l'.snapshot ≡ l.snapshot)
        × (l'.current_term ≡ l.current_term)
        × (l'.role ≡ l.role)
        × (l'.commit_chan ≡ try_send l.commit_chan payload)
  unfolding propose append_own persist_state
  propose-leader payload l leads = rw leads (refl, refl, refl, refl, refl)

  -- The two have one last index.
  pub same_last :
      (f : RaftEngine S.Store) (l : RaftEngine T.Store)
      → InStep f l
      → get_last_log_index f ≡ get_last_log_index l
  same_last f l h = ap₂ (λ s xs. last_index s.last_included_index xs) h.snapshot h.log

  pub message_matches :
      (draw : ℕ) (payload : Bytes) (f : RaftEngine S.Store) (l : RaftEngine T.Store)
      → InStep f l
      → log_matches (message_of payload l) (seen S json draw (message_of payload l) f) ≡ true
  message_matches draw payload f l h =
      let base = l.snapshot.last_included_index in
      let prev = get_last_log_index l in
      let kept = log-seen S json draw (message_of payload l) f in
      let (e, at, same) =
        last_slot l.snapshot.last_included_term (prev - base) l.log (length-log l h.leader_well) in
      let count = length-log l h.leader_well in
      let above : base ≤ prev = omega (
        arith,
        last_index-Contiguous base base l.log h.leader_well.contiguous h.leader_well.nonempty,
        h.leader_well.nonempty,
      ) in
      log_matches-at (message_of payload l) (seen S json draw (message_of payload l) f) e
        (subst (λ s. s.last_included_index ≤ prev) (sym (kept.1 ∙ h.snapshot)) above)
        (ap₂ (λ xs s. get_elem? xs (prev - s.last_included_index)) (kept.0 ∙ h.log)
            (kept.1 ∙ h.snapshot)
          ∙ at)
        same

  pub follower_log :
      (draw : ℕ) (payload : Bytes) (f : RaftEngine S.Store) (l : RaftEngine T.Store)
      → InStep f l
      → (handle_append_entries S json draw (message_of payload l) f).0.log
        ≡ l.log ++ entry_of payload l ∷ []
  follower_log draw payload f l h =
      let accepted =
        handle_append_entries-accepts S json draw (message_of payload l) f h.follower_well h.term
          (message_matches draw payload f l h) (omega arith, tt) in
      let count : suc (get_last_log_index l - f.snapshot.last_included_index) ≡ length f.log =
        ap (λ i. suc (i - f.snapshot.last_included_index)) (sym (same_last f l h))
        ∙ sym (length-log f h.follower_well) in
      accepted.1
      ∙ ap (λ n. take n f.log ++ entry_of payload l ∷ []) count
      ∙ ap (λ xs. xs ++ entry_of payload l ∷ []) (take-length f.log ∙ h.log)

  -- The follower's log and counters before it looks at the commit index.
  spliced : ℕ → Bytes → RaftEngine S.Store → RaftEngine T.Store → RaftEngine S.Store
  spliced draw payload f l =
      persist_state S json
        (splice_log (message_of payload l) (seen S json draw (message_of payload l) f))

  spliced_lem :
      (draw : ℕ) (payload : Bytes) (f : RaftEngine S.Store) (l : RaftEngine T.Store)
      → InStep f l
      → let x = spliced draw payload f l in
        (x.log ≡ l.log ++ entry_of payload l ∷ [])
        × (x.snapshot ≡ l.snapshot)
        × (x.commit_index ≡ f.commit_index)
        × (x.last_applied ≡ get_last_log_index l)
        × (x.commit_chan ≡ f.commit_chan)
  unfolding spliced persist_state splice_log
  spliced_lem draw payload f l h =
      let kept = log-seen S json draw (message_of payload l) f in
      let count : suc (get_last_log_index l - l.snapshot.last_included_index) ≡ length l.log =
        sym (length-log l h.leader_well) in
      (
        ap₂
              (λ s xs.
                take (suc (get_last_log_index l - s.last_included_index)) xs
                ++ entry_of payload l ∷ [])
              (kept.1 ∙ h.snapshot) (kept.0 ∙ h.log)
            ∙ ap (λ n. take n l.log ++ entry_of payload l ∷ []) count
            ∙ ap (λ xs. xs ++ entry_of payload l ∷ []) (take-length l.log),
        kept.1 ∙ h.snapshot,
        kept.2,
        kept.3 ∙ h.all_applied ∙ same_last f l h,
        kept.4,
      )

  -- The follower's channel gets the payload.
  pub follower_chan :
      (draw : ℕ) (payload : Bytes) (f : RaftEngine S.Store) (l : RaftEngine T.Store)
      → 0 < length payload
      → InStep f l
      → (handle_append_entries S json draw (message_of payload l) f).0.commit_chan
        ≡ try_send f.commit_chan payload
  unfolding handle_append_entries spliced
  follower_chan draw payload f l some_bytes h =
      let x = spliced draw payload f l in
      let e = entry_of payload l in
      let base = l.snapshot.last_included_index in
      let m = get_last_log_index l + 1 in
      let facts = spliced_lem draw payload f l h in
      let new : ltb l.current_term f.current_term ≡ false = term_test h.term in
      let count = length-log l h.leader_well in
      let last : get_last_log_index x ≡ m =
        ap₂ (λ s xs. last_index s.last_included_index xs) facts.1 facts.0
        ∙ last_index-append base l.log (e ∷ []) in
      let behind : x.commit_index < m =
        omega (arith, facts.2, h.follower_well.committed, same_last f l h) in
      let numbered =
        last_index-Contiguous base base l.log h.leader_well.contiguous h.leader_well.nonempty in
      let place : m - base ≡ length l.log = omega (arith, numbered) in
      let above : base ≤ m = omega (arith, numbered, h.leader_well.nonempty) in
      let there : slot x m ≡ some e =
        slot_at x m e (subst (λ s. s.last_included_index ≤ m) (sym facts.1) above) (
          ap₂ (λ xs s. get_elem? xs (m - s.last_included_index)) facts.0 facts.1
          ∙ ap (get_elem? (l.log ++ e ∷ [])) place
          ∙ get_elem?-append_length l.log e) in
      rw (new, message_matches draw payload f l h)
        (advance_one m x behind (omega (arith, facts.3)) last
          ∙ ap₂ deliver facts.4 there
          ∙ deliver-some f.commit_chan e some_bytes)
    where
      term_test : f.current_term ≤ l.current_term → ltb l.current_term f.current_term ≡ false
      term_test le = ground arith
