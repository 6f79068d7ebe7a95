-- ===== src/Tests/Raft.antt =====
-- The consensus engine's theorems at small engines.
use node_decent_system.Prelude.{
  ℕ, ◌≡◌, ◌≤◌, ◌<◌, ◌^◌, refl, reverse, true, false, none, some, List, [], ◌∷◌, ◌++◌, arith, Bytes,
  lit, str_eq, Result, ok, Error, returns, suc, length, take, drop, Option,
}
use mathlib.Core.List.{reverse_perm}
use mathlib.Core.List.Perm
use node_decent_system.KvStore.Root.{Agree}
use node_decent_system.GoMap.{GoMap}
use node_decent_system.GoMap.Range.{RangeOrder}
use node_decent_system.KvStore.{KvState, KvPayload, op_put}
use node_decent_system.KvStore.Replicas
use node_decent_system.Consensus.Raft.Replicas.{replicate_all-Agree}
use node_decent_system.Consensus.Raft.InStep.{InStep}
use node_decent_system.Consensus.Raft.Replication.{replicate_all, replicate_all-InStep}
use node_decent_system.GoMap
use node_decent_system.Storage.Memory.{MemoryStorage, memory_storage, memory_storage-laws}
use node_decent_system.Storage.Memory
use node_decent_system.Consensus.Raft.Types.{
  NodeRole, follower, candidate, leader, LogEntry, Snapshot, RequestVoteArgs, AppendEntriesArgs,
  RaftEngine, Persistent, Codec, no_timer, get_last_log_index,
}
use node_decent_system.Consensus.Raft.Persist.{
  raft_state, persist_state, persistent, new_raft_engine,
}
use node_decent_system.Consensus.Raft.Election.{
  reset_election_timeout, handle_request_vote, start_election, observe_term,
}
use node_decent_system.Consensus.Raft.Append.{
  observe_leader, log_matches, splice_log, advance_commit, apply_committed, handle_append_entries,
  apply_rounds, apply_next,
}
use node_decent_system.Consensus.Raft.Leader.{
  propose, compact_log, MembershipChange, add_node, propose_membership_change, has_peer,
}
use node_decent_system.Consensus.Raft.Log.Shape.{WellFormed}
use node_decent_system.Consensus.Raft.Log.Replication.{
  handle_append_entries-WellFormed, handle_append_entries-accepts,
}
use node_decent_system.Consensus.Raft.Log.Compaction.{compact_log-WellFormed, propose-WellFormed}
use node_decent_system.Consensus.Raft.Log.Delivery.{apply_rounds-delivers, numbered_payloads}
use node_decent_system.Consensus.Raft.Log.Truncation.{heartbeat_drops_committed}
use node_decent_system.Consensus.Raft.Votes.{
  handle_request_vote-votes, second_vote_refused, handle_append_entries-votes,
  candidate_votes_twice,
}
use node_decent_system.Consensus.Raft.Elected.{start_election-leads}
use node_decent_system.Consensus.Raft.Recovery.{
  IsDurable, restart-IsDurable, mismatch_forgets_term, restart_after_append,
}
use node_decent_system.Consensus.Raft.Election
use node_decent_system.Consensus.Raft.History.{
  vote_request, wakes, election_timeout, step, run, loop_turn, run_term,
}
use node_decent_system.Consensus.Raft.Membership.{membership_change-accepted}

abbrev entry : ℕ → ℕ → LogEntry
entry i t = record { index = i; term = t; payload = i ∷ [] }

abbrev two_entries : List LogEntry
two_entries = entry 0 0 ∷ entry 1 1 ∷ []

abbrev no_snapshot : Snapshot
no_snapshot = record { last_included_index = 0; last_included_term = 0; payload = [] }

-- The durable fields of the node below.
abbrev saved : Persistent
saved = record { current_term = 1; voted_for = []; log = two_entries; snapshot = no_snapshot }

abbrev codec : Codec
codec = record { marshal = λ p. some []; unmarshal = λ d. some saved }

-- A node of three with a committed entry, in a given role and with a given vote.
abbrev node_as : NodeRole → Bytes → RaftEngine MemoryStorage
node_as r vote = record {
  node_id = 7 ∷ [];
  peers = (7 ∷ []) ∷ (8 ∷ []) ∷ (9 ∷ []) ∷ [];
  current_term = 1;
  voted_for = vote;
  log = two_entries;
  snapshot = no_snapshot;
  commit_index = 1;
  last_applied = 1;
  role = r;
  storage = some (record { entries = (raft_state, []) ∷ [] });
  commit_chan = record { cap = 10; items = [] };
  election_timer = no_timer;
  stopped = false;
}

abbrev node : RaftEngine MemoryStorage
node = node_as follower []

node-WellFormed : (r : NodeRole) (v : Bytes) → WellFormed (node_as r v)
node-WellFormed r v = record {
  contiguous = (refl, (refl, tt));
  nonempty = ground arith;
  committed = ground arith;
}

-- A leader's message with the entry after the node's last, and one without entries after the first.
abbrev next_entry : AppendEntriesArgs
next_entry = record {
  term = 1;
  leader_id = 8 ∷ [];
  prev_log_index = 1;
  prev_log_term = 1;
  entries = entry 2 1 ∷ [];
  leader_commit = 2;
}

abbrev heartbeat : AppendEntriesArgs
heartbeat = record {
  term = 1;
  leader_id = 8 ∷ [];
  prev_log_index = 0;
  prev_log_term = 0;
  entries = [];
  leader_commit = 1;
}

abbrev later_mismatch : AppendEntriesArgs
later_mismatch = record {
  term = 5;
  leader_id = 8 ∷ [];
  prev_log_index = 1;
  prev_log_term = 4;
  entries = [];
  leader_commit = 0;
}

abbrev vote_for : Bytes → RequestVoteArgs
vote_for who = record { term = 1; candidate_id = who; last_log_index = 1; last_log_term = 1 }

handle_append_entries-accepts_example :
    get_last_log_index (handle_append_entries memory_storage codec 0 next_entry node).0 ≡ 2
unfolding log_matches observe_leader reset_election_timeout
handle_append_entries-accepts_example =
    (handle_append_entries-accepts memory_storage codec 0 next_entry node
      (node-WellFormed follower []) (ground arith) refl (refl, tt)).5

handle_append_entries-WellFormed_example :
    WellFormed (handle_append_entries memory_storage codec 0 next_entry node).0
handle_append_entries-WellFormed_example =
    handle_append_entries-WellFormed memory_storage codec 0 next_entry node
      (λ success. ((refl, tt), ground arith)) (node-WellFormed follower [])

compact_log-WellFormed_example :
    (re' : RaftEngine MemoryStorage) × (compact_log memory_storage codec 1 (3 ∷ []) node
      ≡ returns (re', none))
    × WellFormed re'
    × (re'.snapshot.last_included_index ≡ 1)
    × (re'.snapshot.payload ≡ 3 ∷ [])
    × (get_last_log_index re' ≡ 1)
compact_log-WellFormed_example =
    compact_log-WellFormed memory_storage codec 1 (3 ∷ []) node (ground arith) (ground arith)
      (node-WellFormed follower [])

propose-WellFormed_example :
    WellFormed (propose memory_storage codec (4 ∷ []) (node_as leader [])).0
propose-WellFormed_example =
    (propose-WellFormed memory_storage codec (4 ∷ []) (node_as leader [])
      (node-WellFormed leader []) refl).0

apply_rounds-delivers_example :
    (apply_rounds 1 (record node { last_applied = 0 })).commit_chan.items ≡ (1 ∷ []) ∷ []
unfolding numbered_payloads
apply_rounds-delivers_example =
    (apply_rounds-delivers 1 (record node { last_applied = 0 })
      (record {
        contiguous = (refl, (refl, tt));
        nonempty = ground arith;
        committed = ground arith;
      })
      (ground arith)).0

handle_request_vote-votes_example :
    1 ≤ (handle_request_vote memory_storage codec 0 (vote_for (8 ∷ [])) node).0.current_term
handle_request_vote-votes_example =
    (handle_request_vote-votes memory_storage codec 0 (vote_for (8 ∷ [])) node).0

granted_to_eight :
    (handle_request_vote memory_storage codec 0 (vote_for (8 ∷ [])) node).1.vote_granted ≡ true
unfolding handle_request_vote observe_term str_eq
granted_to_eight = refl

second_vote_refused_example :
    (handle_request_vote memory_storage codec 0
      (vote_for (9 ∷ []))
      (handle_request_vote memory_storage codec 0 (vote_for (8 ∷ [])) node).0).1.vote_granted
    ≡ false
second_vote_refused_example =
    second_vote_refused memory_storage codec 0 0 (vote_for (8 ∷ [])) (vote_for (9 ∷ [])) node
      granted_to_eight (ground arith) (ground arith) refl

handle_append_entries-votes_test :
    (handle_append_entries memory_storage codec 0 next_entry node).0.current_term ≡ 1
handle_append_entries-votes_test =
    ((handle_append_entries-votes memory_storage codec 0 next_entry node).1 (ground arith)).0

candidate_votes_twice_example :
    (handle_request_vote memory_storage codec 0
      (vote_for (9 ∷ []))
      (handle_append_entries memory_storage codec 0 heartbeat
        (node_as candidate (7 ∷ []))).0).1.vote_granted
    ≡ true
unfolding handle_append_entries log_matches observe_leader reset_election_timeout advance_commit
    splice_log persist_state apply_committed apply_rounds
candidate_votes_twice_example =
    (candidate_votes_twice memory_storage codec 0 0 heartbeat (vote_for (9 ∷ []))
      (node_as candidate (7 ∷ [])) refl refl refl refl (ground arith)).0

-- A node joins the two peers of a leader.
abbrev join : MembershipChange
join = record { kind = add_node; node_id = 5 ∷ [] }

membership_change-accepted_test :
    has_peer
      (propose_membership_change memory_storage codec join (node_as leader [])).0.peers
      (5 ∷ [])
    ≡ true
unfolding propose_membership_change str_eq has_peer add_node lit
membership_change-accepted_test =
    (membership_change-accepted memory_storage codec join (node_as leader [])
        (refl, (refl, (refl, tt))) refl).0
      (5 ∷ [])

heartbeat_drops_committed_example :
    get_last_log_index (handle_append_entries memory_storage codec 0 heartbeat node).0 ≡ 0
unfolding log_matches observe_leader reset_election_timeout
heartbeat_drops_committed_example =
    (heartbeat_drops_committed memory_storage codec 0 heartbeat [] node
      (node-WellFormed follower []) (ground arith) refl refl (ground arith) (ground arith)).2

start_election-leads_example : (start_election memory_storage codec 0 node).role ≡ leader
unfolding str_eq
start_election-leads_example =
    (start_election-leads memory_storage codec 0 node (ground arith) (ground arith)).0

node-IsDurable : IsDurable memory_storage memory_storage-laws codec node
unfolding Memory.get GoMap.get str_eq raft_state lit
node-IsDurable = (record { entries = (raft_state, []) ∷ [] }, refl, [], refl, refl)

-- A codec: a length before each byte string, and the entries of the log at the end.
put_bytes : Bytes → Bytes → Bytes
put_bytes b rest = length b ∷ (b ++ rest)

put_log : List LogEntry → Bytes
unfolding put_bytes
put_log [] = []
put_log (e ∷ es) = e.index ∷ e.term ∷ put_bytes e.payload (put_log es)

encode : Persistent → Bytes
unfolding put_bytes put_log
encode p =
    p.current_term
    ∷ put_bytes p.voted_for (
        p.snapshot.last_included_index
        ∷ p.snapshot.last_included_term
        ∷ put_bytes p.snapshot.payload (put_log p.log))

get_bytes : Bytes → Bytes × Bytes
get_bytes [] = ([], [])
get_bytes (n ∷ xs) = (take n xs, drop n xs)

get_log : ℕ → Bytes → List LogEntry
unfolding get_bytes
get_log (suc n) (i ∷ t ∷ xs) =
    record { index = i; term = t; payload = (get_bytes xs).0 } ∷ get_log n (get_bytes xs).1
get_log _ _ = []

get_snapshot : ℕ → Bytes → Bytes → Option Persistent
unfolding get_bytes get_log
get_snapshot term vote (i ∷ t ∷ xs) = some (record {
  current_term = term;
  voted_for = vote;
  log = get_log (length xs) (get_bytes xs).1;
  snapshot = record { last_included_index = i; last_included_term = t; payload = (get_bytes xs).0 };
})
get_snapshot term vote _ = none

decode : Bytes → Option Persistent
unfolding get_bytes get_snapshot
decode (term ∷ xs) = get_snapshot term (get_bytes xs).0 (get_bytes xs).1
decode [] = none

abbrev text_codec : Codec
text_codec = record { marshal = λ p. some (encode p); unmarshal = decode }

abbrev acknowledged : RaftEngine MemoryStorage
acknowledged = (handle_append_entries memory_storage text_codec 0 next_entry node).0

restart_after_append_example :
    (new_raft_engine memory_storage text_codec (6 ∷ []) [] acknowledged.storage).log
    ≡ two_entries ++ entry 2 1 ∷ []
unfolding handle_append_entries log_matches observe_leader reset_election_timeout advance_commit
    splice_log persist_state apply_committed apply_rounds apply_next encode decode put_bytes put_log
    get_bytes get_log get_snapshot Memory.put
restart_after_append_example =
    (restart_after_append memory_storage memory_storage-laws text_codec 0 next_entry node
      (record { entries = (raft_state, []) ∷ [] }) (encode (persistent acknowledged)) (6 ∷ []) []
      (node-WellFormed follower []) (ground arith) refl (refl, tt) refl refl refl refl).2

restart-IsDurable_test :
    persistent (new_raft_engine memory_storage codec (6 ∷ []) [] node.storage) ≡ saved
restart-IsDurable_test =
    (restart-IsDurable memory_storage memory_storage-laws codec node (6 ∷ []) [] node-IsDurable).0

term_after_mismatch :
    (handle_append_entries memory_storage codec 0 later_mismatch node).0.current_term ≡ 5
unfolding log_matches observe_leader reset_election_timeout
term_after_mismatch =
    (mismatch_forgets_term memory_storage memory_storage-laws codec 0 later_mismatch node
      node-IsDurable (ground arith) refl).0

-- A request of term 4, and then an election.
abbrev later_request : RequestVoteArgs
later_request = record { term = 4; candidate_id = 8 ∷ []; last_log_index = 1; last_log_term = 1 }

abbrev after_request : RaftEngine MemoryStorage
after_request = (handle_request_vote memory_storage codec 0 later_request node).0

run_term_example :
    (1 ≤ (start_election memory_storage codec 3 after_request).current_term)
    × ((start_election memory_storage codec 3 after_request).current_term < 2 ^ 63)
unfolding run step loop_turn handle_request_vote observe_term str_eq start_election persist_state
    Election.count_votes reset_election_timeout
run_term_example =
    run_term memory_storage codec 4 (vote_request 0 later_request ∷ wakes (election_timeout 3) ∷ [])
      node (start_election memory_storage codec 3 after_request) refl (ground arith)
      (ground arith, (ground arith, tt)) (ground arith)

-- A store behind each of two engines.
abbrev empty_kv : KvState MemoryStorage
empty_kv = record { storage = record { entries = [] }; in_memory = []; state_root = [] }

abbrev puts : Bytes → Result Error KvPayload
puts b = ok (record { op = op_put; key = b; value = b })

abbrev same_bytes : Bytes → Bytes
same_bytes b = b

abbrev same_order : RangeOrder
same_order ks = ks

abbrev backwards : RangeOrder
backwards ks = reverse ks

abbrev two_proposals : List Bytes
two_proposals = (4 ∷ []) ∷ (5 ∷ []) ∷ []

node-InStep : InStep node (node_as leader [])
node-InStep = record {
  log = refl;
  snapshot = refl;
  all_applied = refl;
  term = ground arith;
  chan = refl;
  leads = refl;
  leader_well = node-WellFormed leader [];
  follower_well = node-WellFormed follower [];
}

empty_kv-Agree : Agree empty_kv empty_kv
empty_kv-Agree = record {
  left_map = tt;
  right_map = tt;
  entries = λ k. refl;
  storage = refl;
  root = refl;
}

replicate_all-Agree_example :
    let (f', l') =
      replicate_all memory_storage memory_storage codec 0 two_proposals node (node_as leader []) in
    let at_follower =
      Replicas.run memory_storage same_bytes puts (λ n. same_order) empty_kv f'.commit_chan.items in
    let at_leader =
      Replicas.run memory_storage same_bytes puts (λ n. backwards) empty_kv l'.commit_chan.items in
    (f'.commit_chan.items ≡ two_proposals)
    × (l'.commit_chan.items ≡ two_proposals)
    × Agree at_follower.0 at_leader.0
    × (at_follower.1 ≡ at_leader.1)
replicate_all-Agree_example =
    replicate_all-Agree memory_storage memory_storage codec memory_storage same_bytes puts
      (λ n. same_order) (λ n. backwards) (λ n ks. Perm.refl ks) (λ n ks. reverse_perm ks) 0
      two_proposals node (node_as leader []) (ground arith, (ground arith, tt)) node-InStep refl
      (ground arith) empty_kv empty_kv empty_kv-Agree

replicate_all-InStep_example :
    InStep
      (replicate_all memory_storage memory_storage codec 0 two_proposals node (node_as leader [])).0
      (replicate_all memory_storage memory_storage codec 0 two_proposals node (node_as leader [])).1
replicate_all-InStep_example =
    replicate_all-InStep memory_storage memory_storage codec 0 two_proposals node
      (node_as leader []) (ground arith, (ground arith, tt)) node-InStep
