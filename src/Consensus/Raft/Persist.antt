-- ===== src/Consensus/Raft/Persist.antt =====
-- raft_engine.go: the constructor, the durable state and its recovery.
use node_decent_system.Prelude.{
  false, Option, none, some, List, [], ◌∷◌, Result, ok, err, Bytes, Error, lit,
}
use node_decent_system.Chan.{make_chan}
use node_decent_system.Interfaces.{Storage}
use node_decent_system.Consensus.Raft.Types.{follower, no_timer, RaftEngine, Persistent, Codec}

unfoldable pub raft_state : Bytes
raft_state = lit "raft_state"

abbrev pub persistent : {Store : Type 0} → RaftEngine Store → Persistent
persistent re = record {
  current_term = re.current_term;
  voted_for = re.voted_for;
  log = re.log;
  snapshot = re.snapshot;
}

module _ (S : Storage) (json : Codec) where
  -- The storage after the write: a nil storage keeps nothing, and the error of `Put` is dropped.
  unfoldable pub persisted : Option S.Store → Option Bytes → Option S.Store
  persisted (some st) (some d) = some (S.put st raft_state d).0
  persisted st _ = st

  unfoldable pub persist_state : RaftEngine S.Store → RaftEngine S.Store
  persist_state re = record re { storage = persisted re.storage (json.marshal (persistent re)) }

  decoded : Persistent → Option Persistent → Persistent
  decoded old none = old
  decoded old (some p) = p

  read_state : Persistent → Result Error Bytes → Persistent
  unfolding decoded
  read_state old (err e) = old
  read_state old (ok d) = decoded old (json.unmarshal d)

  -- The durable fields after the read: the old ones, unless the storage has them and they decode.
  unfoldable pub loaded : Persistent → Option S.Store → Persistent
  unfolding read_state
  loaded old none = old
  loaded old (some st) = read_state old (S.get st raft_state)

  unfoldable pub load_state : RaftEngine S.Store → RaftEngine S.Store
  load_state re = record re {
    current_term = p.current_term;
    voted_for = p.voted_for;
    log = p.log;
    snapshot = p.snapshot;
  }
    where
      p : Persistent
      p = loaded (persistent re) re.storage

  unfoldable pub new_raft_engine : Bytes → List Bytes → Option S.Store → RaftEngine S.Store
  unfolding make_chan
  new_raft_engine node_id peers store = load_state (record {
    node_id = node_id;
    peers = peers;
    current_term = 0;
    voted_for = [];
    log = record { index = 0; term = 0; payload = [] } ∷ [];
    snapshot = record { last_included_index = 0; last_included_term = 0; payload = [] };
    commit_index = 0;
    last_applied = 0;
    role = follower;
    storage = store;
    commit_chan = make_chan 1000;
    election_timer = no_timer;
    stopped = false;
  })
