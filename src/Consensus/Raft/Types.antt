-- ===== src/Consensus/Raft/Types.antt =====
-- raft_engine.go: the data of the engine and of its messages. Terms and indices stand for the values
-- of Go's int from 0 to 2^63 - 1: negative ones, which only a message could bring, are left out, and
-- an increment beyond the largest, which wraps around in Go, goes on here.
use node_decent_system.Prelude.{ℕ, Bool, true, false, Option, List, [], ◌∷◌, Bytes, lit}
use node_decent_system.Chan.{Chan}

pub data NodeRole : Type 0 where
  follower candidate leader : NodeRole

-- `NodeRole.String`
unfoldable pub role_string : NodeRole → Bytes
role_string follower = lit "Follower"
role_string candidate = lit "Candidate"
role_string leader = lit "Leader"

abbrev pub is_leader : NodeRole → Bool
is_leader leader = true
is_leader _ = false

abbrev pub is_candidate : NodeRole → Bool
is_candidate candidate = true
is_candidate _ = false

-- The field `Data` is `payload`.
pub record LogEntry : Type 0 where
  pub index : ℕ
  pub term : ℕ
  pub payload : Bytes

pub record Snapshot : Type 0 where
  pub last_included_index : ℕ
  pub last_included_term : ℕ
  pub payload : Bytes

pub record RequestVoteArgs : Type 0 where
  pub term : ℕ
  pub candidate_id : Bytes
  pub last_log_index : ℕ
  pub last_log_term : ℕ

pub record RequestVoteReply : Type 0 where
  pub term : ℕ
  pub vote_granted : Bool

pub record AppendEntriesArgs : Type 0 where
  pub term : ℕ
  pub leader_id : Bytes
  pub prev_log_index : ℕ
  pub prev_log_term : ℕ
  pub entries : List LogEntry
  pub leader_commit : ℕ

pub record AppendEntriesReply : Type 0 where
  pub term : ℕ
  pub success : Bool

-- `*time.Timer`: nil, stopped or fired, or running with a timeout in milliseconds.
pub data Timer : Type 0 where
  no_timer idle : Timer
  armed : ℕ → Timer

-- `stopped` says that `stopCh` is closed. `heartbeatTimer` is never set. What the source draws from
-- `rnd` is an argument of the methods that draw.
pub record RaftEngine (Store : Type 0) : Type 0 where
  pub node_id : Bytes
  pub peers : List Bytes
  pub current_term : ℕ
  pub voted_for : Bytes
  pub log : List LogEntry
  pub snapshot : Snapshot
  pub commit_index : ℕ
  pub last_applied : ℕ
  pub role : NodeRole
  pub storage : Option Store
  pub commit_chan : Chan Bytes
  pub election_timer : Timer
  pub stopped : Bool

-- The four fields that `persistState` writes and `loadState` reads.
pub record Persistent : Type 0 where
  pub current_term : ℕ
  pub voted_for : Bytes
  pub log : List LogEntry
  pub snapshot : Snapshot

-- `json.Marshal` and `json.Unmarshal` at that type.
pub record Codec : Type 0 where
  pub marshal : Persistent → Option Bytes
  pub unmarshal : Bytes → Option Persistent

-- The index and the term of the last entry, or of the snapshot if the log is empty.
abbrev pub last_index : ℕ → List LogEntry → ℕ
last_index base [] = base
last_index base (e ∷ es) = last_index e.index es

abbrev pub last_term : ℕ → List LogEntry → ℕ
last_term base [] = base
last_term base (e ∷ es) = last_term e.term es

module _ {Store : Type 0} where
  abbrev pub get_last_log_index : RaftEngine Store → ℕ
  get_last_log_index re = last_index re.snapshot.last_included_index re.log

  abbrev pub get_last_log_term : RaftEngine Store → ℕ
  get_last_log_term re = last_term re.snapshot.last_included_term re.log
