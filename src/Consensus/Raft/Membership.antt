-- ===== src/Consensus/Raft/Membership.antt =====
-- raft_membership.go: changes of the list of peers.
use node_decent_system.Prelude.{
  ◌≡◌, ◌≢◌, refl, Bool, true, false, not, ◌&&◌, ◌||◌, none, List, [], ◌∷◌, ◌++◌, arith,
  if◌then◌else◌, Bytes, lit, str_eq, str_eq_iff,
}
use node_decent_system.Interfaces.{Storage}
use node_decent_system.Consensus.Raft.Types.{RaftEngine, Codec, is_leader}
use node_decent_system.Consensus.Raft.Persist.{persist_state}
use node_decent_system.Consensus.Raft.Leader.{
  MembershipChange, add_node, remove_node, has_peer, without_peer, propose_membership_change,
}

-- No peer is listed twice.
abbrev pub IsDistinct : List Bytes → Type 0
IsDistinct [] = Unit
IsDistinct (p ∷ ps) = (has_peer ps p ≡ false) × IsDistinct ps

has_peer-append :
    (ps : List Bytes) (p j : Bytes) → has_peer (ps ++ p ∷ []) j ≡ (str_eq p j || has_peer ps j)
unfolding has_peer
has_peer-append [] p j = refl
has_peer-append (x ∷ ps) p j = ground (arith, has_peer-append ps p j)

has_peer-without :
    (ps : List Bytes) (p j : Bytes)
    → has_peer (without_peer ps p) j ≡ (not (str_eq p j) && has_peer ps j)
unfolding has_peer without_peer
has_peer-without [] p j = ground arith
has_peer-without (x ∷ ps) p j =
    ground (arith, str_eq_iff x p, str_eq_iff x j, str_eq_iff p j, has_peer-without ps p j)

IsDistinct-append :
    (ps : List Bytes) (p : Bytes)
    → IsDistinct ps
    → has_peer ps p ≡ false
    → IsDistinct (ps ++ p ∷ [])
unfolding has_peer
IsDistinct-append [] p d h = (refl, tt)
IsDistinct-append (x ∷ ps) p d h =
    ground
      (arith, str_eq_iff x p, str_eq_iff p x, has_peer-append ps p x, IsDistinct-append ps p d.1)

IsDistinct-without : (ps : List Bytes) (p : Bytes) → IsDistinct ps → IsDistinct (without_peer ps p)
unfolding without_peer
IsDistinct-without [] p d = tt
IsDistinct-without (x ∷ ps) p d =
    ground (arith, has_peer-without ps p x, IsDistinct-without ps p d.1)

-- Who is a peer after a change that the leader accepts: an added node joins, a removed one leaves,
-- and a change of another type moves nobody.
abbrev pub peer_after : MembershipChange → List Bytes → Bytes → Bool
peer_after c ps j =
    if str_eq c.kind add_node
    then str_eq c.node_id j || has_peer ps j
    else if str_eq c.kind remove_node
    then not (str_eq c.node_id j) && has_peer ps j
    else has_peer ps j

remove_node≢add_node : str_eq remove_node add_node ≡ false
unfolding remove_node add_node lit str_eq
remove_node≢add_node = refl

module _ (S : Storage) (json : Codec) where
  -- A change that is accepted has its effect on the peers and on no other one, and keeps the list
  -- free of duplicates.
  pub membership_change-accepted :
      (c : MembershipChange) (re : RaftEngine S.Store)
      → IsDistinct re.peers
      → (propose_membership_change S json c re).1 ≡ none
      → let re' = (propose_membership_change S json c re).0 in
        ((j : Bytes) → has_peer re'.peers j ≡ peer_after c re.peers j) × IsDistinct re'.peers
  unfolding propose_membership_change persist_state
  membership_change-accepted c re d h = (
    λ j.
        ground (arith, has_peer-append re.peers c.node_id j, has_peer-without re.peers c.node_id j),
    ground (arith, IsDistinct-append re.peers c.node_id d, IsDistinct-without re.peers c.node_id d),
  )

  -- A change is refused by a node that does not lead, for adding a peer and for removing a node that
  -- is none; a refused change leaves the engine as it was.
  pub membership_change-refused :
      (c : MembershipChange) (re : RaftEngine S.Store)
      → ((propose_membership_change S json c re).1 ≢ none
          → (propose_membership_change S json c re).0 ≡ re)
        × (is_leader re.role ≡ false → (propose_membership_change S json c re).1 ≢ none)
        × (c.kind ≡ add_node
            → has_peer re.peers c.node_id ≡ true
            → (propose_membership_change S json c re).1 ≢ none)
        × (c.kind ≡ remove_node
            → has_peer re.peers c.node_id ≡ false
            → (propose_membership_change S json c re).1 ≢ none)
  unfolding propose_membership_change
  membership_change-refused c re =
      ground
        (arith, str_eq_iff c.kind add_node, str_eq_iff c.kind remove_node, remove_node≢add_node)
