-- ===== src/Consensus/Raft/Replicas.antt =====
-- raft_engine.go with kvstate.go: key-value stores that apply what a Raft leader and its follower
-- deliver.
use node_decent_system.Prelude.{
  ℕ, ◌+◌, ◌≤◌, ◌<◌, ◌≡◌, sym, ap, ap₂, subst, ◌∙◌, List, [], ◌∷◌, ◌++◌, arith, length,
  length-append, All, Bytes, Error, Result,
}
use mathlib.Core.List.{append-nil, append_assoc}
use node_decent_system.GoMap.Range.{RangeOrder, IsRange}
use node_decent_system.Chan.{try_send-room, cap-try_send}
use node_decent_system.Interfaces.{Storage}
use node_decent_system.KvStore.{KvState, KvPayload}
use node_decent_system.KvStore.Root.{Agree}
use node_decent_system.KvStore.Replicas.{run, run-Agree}
use node_decent_system.Consensus.Raft.Types.{RaftEngine, Codec}
use node_decent_system.Consensus.Raft.InStep.{InStep, propose-leader}
use node_decent_system.Consensus.Raft.Replication.{
  replicate, replicate-InStep, replicate_all, replicate_all-InStep,
}

module _ (S T : Storage) (json : Codec) where
  -- The leader's channel gets a proposal at its end.
  replicate-commits :
      (draw : ℕ) (d : Bytes) (f : RaftEngine S.Store) (l : RaftEngine T.Store)
      → InStep f l
      → length l.commit_chan.items < l.commit_chan.cap
      → let l' = (replicate S T json draw d f l).1 in
        (l'.commit_chan.items ≡ l.commit_chan.items ++ d ∷ [])
        × (l'.commit_chan.cap ≡ l.commit_chan.cap)
  unfolding replicate
  replicate-commits draw d f l h room =
      let sent = (propose-leader S T json d l h.leads).4 in
      (
        ap (λ c. c.items) sent ∙ try_send-room l.commit_chan d room,
        ap (λ c. c.cap) sent ∙ cap-try_send l.commit_chan d,
      )

  leader_commits :
      (draw : ℕ) (ds : List Bytes) (f : RaftEngine S.Store) (l : RaftEngine T.Store)
      → All (λ d. 0 < length d) ds
      → InStep f l
      → length l.commit_chan.items + length ds ≤ l.commit_chan.cap
      → (replicate_all S T json draw ds f l).1.commit_chan.items ≡ l.commit_chan.items ++ ds
  unfolding replicate_all
  leader_commits draw [] f l some_bytes h room = sym (append-nil l.commit_chan.items)
  leader_commits draw (d ∷ ds) f l some_bytes h room =
      let once = replicate-commits draw d f l h (omega arith) in
      let longer = ap length once.0 ∙ length-append l.commit_chan.items (d ∷ []) in
      leader_commits draw ds _ _ some_bytes.1 (replicate-InStep S T json draw d f l some_bytes.0 h)
        (omega (arith, longer, once.1))
      ∙ ap (λ xs. xs ++ ds) once.0
      ∙ append_assoc l.commit_chan.items (d ∷ []) ds

  -- From a leader and a follower in step, with empty commit channels that have room for all
  -- proposals: after any proposals that are not empty, each brought to the follower by its message,
  -- both channels hold just these proposals, once each and in order. Key-value stores that agreed
  -- and that apply what their engine delivers give the same replies, state roots included, and agree
  -- again, whatever the orders in which they range over their maps.
  pub replicate_all-Agree :
      (Kv : Storage) (sha256 : Bytes → Bytes) (unmarshal : Bytes → Result Error KvPayload)
      (orders orders' : ℕ → RangeOrder)
      → ((i : ℕ) → IsRange (orders i))
      → ((i : ℕ) → IsRange (orders' i))
      → (draw : ℕ) (ds : List Bytes) (f : RaftEngine S.Store) (l : RaftEngine T.Store)
      → All (λ d. 0 < length d) ds
      → InStep f l
      → l.commit_chan.items ≡ []
      → length ds ≤ l.commit_chan.cap
      → (s t : KvState Kv.Store) → Agree s t
      → let (f', l') = replicate_all S T json draw ds f l in
        let at_follower = run Kv sha256 unmarshal orders s f'.commit_chan.items in
        let at_leader = run Kv sha256 unmarshal orders' t l'.commit_chan.items in
        (f'.commit_chan.items ≡ ds)
        × (l'.commit_chan.items ≡ ds)
        × Agree at_follower.0 at_leader.0
        × (at_follower.1 ≡ at_leader.1)
  replicate_all-Agree Kv sha256 unmarshal o p ho hp draw ds f l some_bytes h empty room s t a =
      let no_items = ap length empty in
      let at_leader =
        leader_commits draw ds f l some_bytes h (omega (arith, no_items))
        ∙ ap (λ xs. xs ++ ds) empty in
      let at_follower =
        ap (λ c. c.items) (replicate_all-InStep S T json draw ds f l some_bytes h).chan
        ∙ at_leader in
      let pair : List Bytes → List Bytes → List Bytes × List Bytes = λ x y. (x, y) in
      let both = ap₂ pair at_follower at_leader in
      let agree = run-Agree Kv sha256 unmarshal o p ho hp s t ds a in
      (
        at_follower,
        at_leader,
        subst
            (λ cs. Agree (run Kv sha256 unmarshal o s cs.0).0 (run Kv sha256 unmarshal p t cs.1).0)
            (sym both) agree.0,
        ap (λ cs. (run Kv sha256 unmarshal o s cs).1) at_follower
            ∙ agree.1
            ∙ ap (λ cs. (run Kv sha256 unmarshal p t cs).1) (sym at_leader),
      )
