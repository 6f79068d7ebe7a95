-- ===== src/Consensus/Raft/Leader.antt =====
-- raft_engine.go and raft_membership.go: proposals, log compaction, membership, reads.
use node_decent_system.Prelude.{
  ℕ, suc, ◌+◌, ◌-◌, Bool, true, false, ◌||◌, Option, none, some, List, [], ◌∷◌, ◌++◌, ltb, leb,
  if◌then◌else◌, get_elem?, drop, Go, returns, panics, Bytes, Error, lit, decimal, str_eq,
}
use node_decent_system.Chan.{try_send}
use node_decent_system.Interfaces.{Storage}
use node_decent_system.Consensus.Raft.Types.{
  NodeRole, is_leader, role_string, LogEntry, RaftEngine, Codec, get_last_log_index,
}
use node_decent_system.Consensus.Raft.Persist.{persist_state}

unfoldable pub add_node : Bytes
add_node = lit "ADD_NODE"

unfoldable pub remove_node : Bytes
remove_node = lit "REMOVE_NODE"

-- The field `Type` is `kind`.
pub record MembershipChange : Type 0 where
  pub kind : Bytes
  pub node_id : Bytes

pub record ReadIndexResponse : Type 0 where
  pub read_index : ℕ
  pub term : ℕ
  pub success : Bool

-- The loop that looks for a peer.
unfoldable pub has_peer : List Bytes → Bytes → Bool
has_peer [] id = false
has_peer (p ∷ ps) id = str_eq p id || has_peer ps id

-- The loop that copies all peers but one; whether it met that one is `has_peer`.
unfoldable pub without_peer : List Bytes → Bytes → List Bytes
without_peer [] id = []
without_peer (p ∷ ps) id = let rest = without_peer ps id in if str_eq p id then rest else p ∷ rest

module _ {Store : Type 0} where
  unfoldable pub get_role : RaftEngine Store → NodeRole
  get_role re = re.role

  unfoldable pub set_role : NodeRole → RaftEngine Store → RaftEngine Store
  set_role role re = record re { role = role }

  unfoldable pub get_read_index : RaftEngine Store → ReadIndexResponse
  get_read_index re =
      if is_leader re.role
      then record { read_index = re.commit_index; term = re.current_term; success = true }
      else record { read_index = 0; term = 0; success = false }

module _ (S : Storage) (json : Codec) where
  unfoldable pub append_own : Bytes → RaftEngine S.Store → RaftEngine S.Store
  append_own payload re = persist_state S json (record re {
    log =
        re.log
        ++ record { index = get_last_log_index re + 1; term = re.current_term; payload = payload }
          ∷ [];
  })

  unfoldable pub propose : Bytes → RaftEngine S.Store → RaftEngine S.Store × Option Error
  propose payload re =
      if is_leader re.role
      then (
        record (append_own payload re) {
          commit_index = get_last_log_index re + 1;
          last_applied = get_last_log_index re + 1;
          commit_chan = try_send re.commit_chan payload;
        },
        none,
      )
      else (
        re,
        some (
            lit "node "
            ++ (re.node_id
                ++ (lit " is not leader (current role: " ++ (role_string re.role ++ lit ")")))),
      )

  bad_index : ℕ → RaftEngine S.Store → Error
  bad_index i re =
      lit "invalid snapshot index "
      ++ (decimal i
          ++ (lit " (commitIndex: "
              ++ (decimal re.commit_index
                  ++ (lit ", lastSnapshot: "
                      ++ (decimal re.snapshot.last_included_index ++ lit ")")))))

  -- The snapshot at slot `rel` of the log, and the log from there on behind a new first entry.
  unfoldable pub compact_at : ℕ → ℕ → Bytes → RaftEngine S.Store → LogEntry → RaftEngine S.Store
  compact_at rel i state re e = persist_state S json (record re {
    snapshot = record { last_included_index = i; last_included_term = e.term; payload = state };
    log = record { index = i; term = e.term; payload = [] } ∷ drop (suc rel) re.log;
  })

  -- `re.log[relativeIndex]` panics where the log is too short.
  unfoldable pub compact_log :
      ℕ → Bytes → RaftEngine S.Store → Go (RaftEngine S.Store × Option Error)
  unfolding bad_index
  compact_log i state re =
      if leb i re.snapshot.last_included_index || ltb re.commit_index i
      then returns (re, some (bad_index i re))
      else (elim (get_elem? re.log (i - re.snapshot.last_included_index)) [
        | none ↦ panics
        | some e ↦ returns (compact_at (i - re.snapshot.last_included_index) i state re e, none)
      ])

  -- A change of any other type only writes the state.
  unfoldable pub propose_membership_change :
      MembershipChange → RaftEngine S.Store → RaftEngine S.Store × Option Error
  propose_membership_change change re =
      if is_leader re.role
      then (if str_eq change.kind add_node
          then (if has_peer re.peers change.node_id
              then (
                re,
                some (
                    lit "node "
                    ++ (change.node_id ++ lit " is already in dynamic membership list")),
              )
              else (
                persist_state S json (record re { peers = re.peers ++ change.node_id ∷ [] }),
                none,
              ))
          else if str_eq change.kind remove_node
          then (if has_peer re.peers change.node_id
              then (
                persist_state S json (record re { peers = without_peer re.peers change.node_id }),
                none,
              )
              else (
                re,
                some (
                    lit "node " ++ (change.node_id ++ lit " not found in dynamic membership list")),
              ))
          else (persist_state S json re, none))
      else (re, some (lit "only leader can propose membership changes"))
