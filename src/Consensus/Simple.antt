-- ===== src/Consensus/Simple.antt =====
-- mock.go, raft.go and pow.go of modules/consensus: engines whose commits are the proposals, through
-- a buffered channel.
pub mod Laws
pub mod History
use node_decent_system.Prelude.{
  ℕ, ◌≡◌, refl, sym, ap, ap₂, ◌∙◌, Option-cases, pair_injective, none-ne-some, Bool, true, false,
  Bool-cases, Option, none, some, inl, inr, List, [], ◌∷◌, ◌++◌, ltb, if◌then◌else◌, Bytes, Error,
  lit, length,
}
use node_decent_system.Chan.{Chan, make_chan, receive}
use node_decent_system.Interfaces.{Select, Consensus, ConsensusLaws}

sent : Chan Bytes → Bytes → Chan Bytes
sent c d = record c { items = c.items ++ d ∷ [] }

-- The send and the context, when there is room in the buffer and when there is none.
with_room : Bool → Chan Bytes → Bytes → Option Error → Option (Chan Bytes × Option Error)
unfolding sent
with_room takes_done c d none = some (sent c d, none)
with_room takes_done c d (some e) = if takes_done then some (c, some e) else some (sent c d, none)

without_room : Chan Bytes → Option Error → Option (Chan Bytes × Option Error)
without_room c none = none
without_room c (some e) = some (c, some e)

-- `select { case ch <- data: return nil; case <-ctx.Done(): return ctx.Err() }`
select_send : Select → Chan Bytes → Bytes → Option (Chan Bytes × Option Error)
unfolding with_room without_room
select_send sel c d =
    if ltb (length c.items) c.cap
    then with_room sel.takes_done c d sel.done
    else without_room c sel.done

-- A context that is never done.
abbrev never : Select
never = record { done = none; takes_done = false }

-- `ch <- data`
plain_send : Chan Bytes → Bytes → Option (Chan Bytes × Option Error)
unfolding select_send
plain_send c d = select_send never c d

pub record MockConsensus : Type 0 where
  pub commit_chan : Chan Bytes

unfoldable pub new_mock_consensus : MockConsensus
new_mock_consensus = record { commit_chan = make_chan 100 }

pub record PowConsensus : Type 0 where
  pub difficulty : ℕ
  pub commit_chan : Chan Bytes

unfoldable pub new_pow_consensus : ℕ → PowConsensus
new_pow_consensus difficulty = record { difficulty = difficulty; commit_chan = make_chan 100 }

pub record RaftConsensus : Type 0 where
  pub node_id : Bytes
  pub commit_chan : Chan Bytes
  pub is_leader : Bool

unfoldable pub new_raft_consensus : Bytes → Bool → RaftConsensus
new_raft_consensus node_id is_leader = record {
  node_id = node_id;
  commit_chan = make_chan 1000;
  is_leader = is_leader;
}

unfoldable pub set_leader : RaftConsensus → Bool → RaftConsensus
set_leader r is_leader = record r { is_leader = is_leader }

-- An engine whose channel has changed.
module _ {State : Type 0} where
  proposed :
      (Chan Bytes → State) → Option (Chan Bytes × Option Error) → Option (State × Option Error)
  proposed with_chan none = none
  proposed with_chan (some (c, e)) = some (with_chan c, e)

  received : (Chan Bytes → State) → Option (Bytes × Chan Bytes) → Option (Bytes × State)
  received with_chan none = none
  received with_chan (some (d, c)) = some (d, with_chan c)

-- The mock does not look at its context.
unfoldable pub mock_propose : Select → MockConsensus → Bytes → Option (MockConsensus × Option Error)
unfolding proposed plain_send
mock_propose sel m d = proposed (λ c. record m { commit_chan = c }) (plain_send m.commit_chan d)

unfoldable pub pow_propose : Select → PowConsensus → Bytes → Option (PowConsensus × Option Error)
unfolding proposed select_send
pow_propose sel m d = proposed (λ c. record m { commit_chan = c }) (select_send sel m.commit_chan d)

unfoldable pub raft_propose : Select → RaftConsensus → Bytes → Option (RaftConsensus × Option Error)
unfolding proposed select_send
raft_propose sel r d =
    if r.is_leader
    then proposed (λ c. record r { commit_chan = c }) (select_send sel r.commit_chan d)
    else some (r, some (lit "node " ++ (r.node_id ++ lit " is not the Raft leader")))

-- A receive from the channel that `Commit` returns.
unfoldable pub mock_commit : MockConsensus → Option (Bytes × MockConsensus)
unfolding received
mock_commit m = received (λ c. record m { commit_chan = c }) (receive m.commit_chan)

unfoldable pub pow_commit : PowConsensus → Option (Bytes × PowConsensus)
unfolding received
pow_commit m = received (λ c. record m { commit_chan = c }) (receive m.commit_chan)

unfoldable pub raft_commit : RaftConsensus → Option (Bytes × RaftConsensus)
unfolding received
raft_commit r = received (λ c. record r { commit_chan = c }) (receive r.commit_chan)

abbrev pub mock_consensus : Consensus
mock_consensus = record { State = MockConsensus; propose = mock_propose; commit = mock_commit }

abbrev pub pow_consensus : Consensus
pow_consensus = record { State = PowConsensus; propose = pow_propose; commit = pow_commit }

abbrev pub raft_consensus : Consensus
raft_consensus = record { State = RaftConsensus; propose = raft_propose; commit = raft_commit }
