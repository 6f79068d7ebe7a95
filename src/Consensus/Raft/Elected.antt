-- ===== src/Consensus/Raft/Elected.antt =====
-- raft_engine.go: the outcome of `startElection`, whose goroutines count a vote for each peer
-- without asking it.
use node_decent_system.Prelude.{
  ℕ, suc, ◌+◌, ◌/◌, ◌<◌, ◌≡◌, ◌⊎◌, refl, ap, Bool-cases, inl, inr, List, [], ◌∷◌, arith,
  if◌then◌else◌, length, Bytes, str_eq,
}
use node_decent_system.Interfaces.{Storage}
use node_decent_system.Consensus.Raft.Types.{candidate, leader, RaftEngine, Codec}
use node_decent_system.Consensus.Raft.Persist.{persist_state}
use node_decent_system.Consensus.Raft.Election.{
  Ballot, count_vote, count_votes, begin_election, start_election, reset_election_timeout,
}

-- How many of the peers are not the node itself.
abbrev pub others : List Bytes → Bytes → ℕ
others [] id = 0
others (p ∷ ps) id = let rest = others ps id in if str_eq p id then rest else suc rest

module _ {Store : Type 0} where
  count_votes-leads :
      (b : Ballot) (ps : List Bytes) (votes : ℕ) (re : RaftEngine Store)
      → re.current_term ≡ b.term
      → (re.role ≡ leader)
        ⊎ ((re.role ≡ candidate)
            × (0 < others ps re.node_id)
            × (length re.peers / 2 < votes + others ps re.node_id))
      → ((count_votes b ps (votes, re)).1.role ≡ leader)
        × ((count_votes b ps (votes, re)).1.current_term ≡ re.current_term)
        × ((count_votes b ps (votes, re)).1.voted_for ≡ re.voted_for)
  unfolding count_votes count_vote
  count_votes-leads b [] votes re t (inl l) = (l, refl, refl)
  count_votes-leads b [] votes re t (inr m) = absurd (omega arith)
  count_votes-leads b (p ∷ ps) votes re t s = elim (Bool-cases (str_eq p re.node_id)) [
    | inl self ↦ rw (self, count_votes) (count_votes-leads b ps votes re t (rw self at s))
    | inr other ↦
        rw (other, count_votes)
          (count_votes-leads b ps (votes + 1) (count_vote b (votes, re)).1 t (next (rw other at s)))
  ]
    where
      next :
          ((re.role ≡ leader)
            ⊎ ((re.role ≡ candidate)
                × (0 < suc (others ps re.node_id))
                × (length re.peers / 2 < votes + suc (others ps re.node_id))))
          → ((count_vote b (votes, re)).1.role ≡ leader)
            ⊎ (((count_vote b (votes, re)).1.role ≡ candidate)
                × (0 < others ps re.node_id)
                × (length re.peers / 2 < votes + 1 + others ps re.node_id))
      next q = ground arith

  count_votes-none :
      (b : Ballot) (ps : List Bytes) (votes : ℕ) (re : RaftEngine Store)
      → others ps re.node_id ≡ 0
      → count_votes b ps (votes, re) ≡ (votes, re)
  unfolding count_votes
  count_votes-none b [] votes re h = refl
  count_votes-none b (p ∷ ps) votes re h = elim (Bool-cases (str_eq p re.node_id)) [
    | inl self ↦ rw self (count_votes-none b ps votes re (rw self at h))
    | inr other ↦ absurd (one_other (rw other at h))
  ]
    where
      one_other : suc (others ps re.node_id) ≡ 0 → ⊥
      one_other e = omega arith

module _ (S : Storage) (json : Codec) where
  -- An election whose goroutines all run before anything else makes the node leader of the next
  -- term with its own vote alone, whatever the other nodes think, as soon as the peers but itself
  -- and its own vote are more than half of the list.
  pub start_election-leads :
      (draw : ℕ) (re : RaftEngine S.Store)
      → 0 < others re.peers re.node_id
      → length re.peers / 2 < 1 + others re.peers re.node_id
      → ((start_election S json draw re).role ≡ leader)
        × ((start_election S json draw re).current_term ≡ re.current_term + 1)
        × ((start_election S json draw re).voted_for ≡ re.node_id)
  unfolding start_election begin_election reset_election_timeout persist_state
  start_election-leads draw re some_other most =
      count_votes-leads _ re.peers 1 _ refl (inr (refl, some_other, most))

  -- So two nodes of the same term that time out become leaders of the same term.
  pub two_leaders :
      (draw draw' : ℕ) (a b : RaftEngine S.Store)
      → a.current_term ≡ b.current_term
      → 0 < others a.peers a.node_id
      → length a.peers / 2 < 1 + others a.peers a.node_id
      → 0 < others b.peers b.node_id
      → length b.peers / 2 < 1 + others b.peers b.node_id
      → let a' = start_election S json draw a in
        let b' = start_election S json draw' b in
        (a'.role ≡ leader) × (b'.role ≡ leader) × (a'.current_term ≡ b'.current_term)
  two_leaders draw draw' a b same oa ma ob mb =
      let la = start_election-leads draw a oa ma in
      let lb = start_election-leads draw' b ob mb in (la.0, lb.0, omega (arith, la.1, lb.1))

  -- With no peer but itself in the list, a node that starts an election stays a candidate: the test
  -- for a majority is made only when the vote of another peer is counted.
  pub lone_node_never_leads :
      (draw : ℕ) (re : RaftEngine S.Store)
      → others re.peers re.node_id ≡ 0
      → (start_election S json draw re).role ≡ candidate
  unfolding start_election begin_election reset_election_timeout persist_state
  lone_node_never_leads draw re none_other =
      ap (λ s. s.1.role) (count_votes-none _ re.peers 1 _ none_other)
