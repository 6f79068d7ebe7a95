-- ===== src/Tests/Node.antt =====
-- The theorems of the node, its network and its consensus clients at small inputs.
use node_decent_system.Prelude.{
  ℕ, zero, suc, ◌+◌, ◌<◌, ◌≤◌, ◌≡◌, refl, sym, true, false, Option, none, some, List, [], ◌∷◌, ◌++◌,
  arith, Result, ok, err, Bytes, Error, has_prefix, length, All,
}
use node_decent_system.Storage.Memory.{MemoryStorage, memory_storage, memory_storage-laws}
use node_decent_system.Storage.Memory
use node_decent_system.Block.{Block, calculate_hash}
use node_decent_system.Chan.{make_chan, receive}
use node_decent_system.Chan.Line.{
  Line, make_line-IsLine, send, recv, take_oldest, refill, contents, IsLine,
}
use node_decent_system.Chain.{block_key}
use node_decent_system.Consensus.Pow.{zeros, mine_block}
use node_decent_system.Consensus.Simple.{
  new_raft_consensus, raft_consensus, raft_propose, raft_commit, set_leader,
}
use node_decent_system.Consensus.Simple.Laws.{raft_laws, backlog-raft_laws}
use node_decent_system.Consensus.Service.{Trace}
use node_decent_system.Consensus.Service
use node_decent_system.Consensus.Simple.History.{
  Call, proposes, sets_leader, receives, call, calls, trace_of_new, raft_calls-Accounts,
}
use node_decent_system.Node.Services.{Service, start_services}
use node_decent_system.Node.Services.Order.{Outcome, start_services-Outcome}
use node_decent_system.Node.Loop.{
  Node, tick, tx_ready, turns, tx_arrives, block_of, take_tx, take_block, applied, after_mining,
  returned, mine_pending, goes_on, turn, follow, run,
}
use node_decent_system.Node.Loop.Transactions.{all_txs, run-all_txs}
use node_decent_system.Node.Loop.Blocks.{
  Travels, TakesAll, tick_mined, tick-mines, second_block_overwrites, block_converges,
}
use node_decent_system.Node.Loop.Progress.{Moved, tx_turns, run-tx_turns}
use node_decent_system.P2p.{
  LibP2p, Network, P2pNode, Request, new_p2p_node, init, init_at, after_host, after_gossip_sub,
  fails, start,
}
use node_decent_system.P2p.Startup.{failed_init_is_final}
use node_decent_system.P2p.Requests.{handle_txs, handle_txs-contents}
use node_decent_system.Kademlia.{PeerInfo, new_kademlia_dht, add, perform, xor_distance}
use node_decent_system.Kademlia.Distance.{IsDigest}
use node_decent_system.Kademlia.Table.{IsTable, perform-IsTable, bucket_index-range}
use node_decent_system.Observability.{
  new_runtime_observability, record_all, get_metrics, get_metrics-bounds,
}

abbrev same_bytes : Bytes → Bytes
same_bytes b = b

-- A block as its index and its hash.
abbrev writes : Block ℕ → Option Bytes
writes b = some (b.index ∷ b.hash)

abbrev reads : Bytes → Result Error (Block ℕ)
reads [] = err []
reads (i ∷ h) =
    ok
      (record { index = i; timestamp = []; transactions = []; prev_hash = []; hash = h; nonce = 0 })

abbrev open_context : ℕ → Option Error
open_context n = none

-- A block with the pending transactions, mined in the first round.
abbrev mined_of : List ℕ → Block ℕ
mined_of txs = record (block_of [] txs) { hash = calculate_hash same_bytes (block_of [] txs) }

abbrev node : Node MemoryStorage ℕ
node = record {
  chain = record { storage = record { entries = [] }; state_root = [] };
  tx_chan = record { chan = record { cap = 2; items = [] }; waiting = [] };
  block_chan = record { chan = record { cap = 2; items = mined_of (5 ∷ []) ∷ [] }; waiting = [] };
  pending = [];
  broadcast = [];
  mined = 0;
  failed = 0;
}

abbrev node_with : List ℕ → Node MemoryStorage ℕ
node_with txs = record node { pending = txs }

tx_chan-IsLine : IsLine node.tx_chan
tx_chan-IsLine = record {
  room = ground arith;
  fits = ground arith;
  full = λ w. absurd (ground arith);
}

memory-TakesAll : TakesAll memory_storage
unfolding Memory.put
memory-TakesAll s k v = refl

mined_of-Mines :
    (txs : List ℕ)
    → mine_block same_bytes 1 0 open_context (block_of [] txs) ≡ some (mined_of txs, none)
unfolding mine_block has_prefix zeros
mined_of-Mines txs = refl

mined_of-Travels : (txs : List ℕ) → Travels writes reads (mined_of txs)
mined_of-Travels txs = (_, refl, refl, refl)

-- A transaction arrives, is taken and is mined.
abbrev after_three : Node MemoryStorage ℕ
after_three = record node {
  chain = applied memory_storage same_bytes writes reads 0 node.chain (mined_of (5 ∷ []));
  broadcast = mined_of (5 ∷ []) ∷ [];
  mined = 1;
}

runs_three :
    run memory_storage same_bytes writes reads 0
      (tx_arrives 5 ∷ turns tx_ready ∷ turns (tick [] 1 open_context) ∷ [])
      true
      node
    ≡ some after_three
unfolding run follow turn take_tx mine_pending returned after_mining goes_on mine_block has_prefix
    zeros send recv take_oldest refill
runs_three = refl

run-all_txs_example : all_txs after_three ≡ all_txs node ++ 5 ∷ []
run-all_txs_example =
    (run-all_txs memory_storage same_bytes writes reads 0
      (tx_arrives 5 ∷ turns tx_ready ∷ turns (tick [] 1 open_context) ∷ []) true node after_three
      tx_chan-IsLine runs_three).0

-- Two senders wait for a channel that holds one transaction.
abbrev crowded : Node MemoryStorage ℕ
crowded = record node {
  tx_chan = record { chan = record { cap = 1; items = 5 ∷ [] }; waiting = 6 ∷ 7 ∷ [] };
}

run-tx_turns_example :
    (n' : Node MemoryStorage ℕ) × (run memory_storage same_bytes writes reads 0
        (tx_turns 2)
        true
        crowded
      ≡ some n')
    × Moved 2 crowded n'
run-tx_turns_example =
    run-tx_turns memory_storage same_bytes writes reads 0 2 crowded
      (record { room = ground arith; fits = ground arith; full = λ w. refl })

tick-mines_example :
    (n' : Node MemoryStorage ℕ) × (b : Block ℕ) × (turn memory_storage same_bytes writes reads 0
        (tick [] 1 open_context)
        (node_with (5 ∷ []))
      ≡ some (true, n'))
    × (n'.broadcast ≡ b ∷ [])
    × (b.transactions ≡ 5 ∷ [])
    × (has_prefix b.hash (zeros 0) ≡ true)
    × (n'.pending ≡ [])
    × (n'.mined ≡ 1)
unfolding has_prefix zeros
tick-mines_example =
    tick-mines memory_storage memory_storage-laws same_bytes writes reads 0 [] 0 1 open_context
      (node_with (5 ∷ [])) (λ e. absurd (ground arith)) (ground arith) (λ i h. refl)
      (λ i h. absurd (ground arith)) refl

abbrev after_first : Node MemoryStorage ℕ
after_first =
    after_mining memory_storage same_bytes writes reads 0 (node_with (5 ∷ []))
      (mined_of (5 ∷ []), none)

abbrev before_second : Node MemoryStorage ℕ
before_second = record after_first { pending = 6 ∷ [] }

second_block_overwrites_example :
    memory_storage.get
      (after_mining memory_storage same_bytes writes reads 0 before_second
        (mined_of (6 ∷ []), none)).chain.storage
      (block_key 1)
    ≡ ok (1 ∷ (mined_of (6 ∷ [])).hash)
second_block_overwrites_example =
    (second_block_overwrites memory_storage memory_storage-laws same_bytes writes reads 0 [] [] 1 1
      open_context open_context (node_with (5 ∷ [])) after_first before_second
      (after_mining memory_storage same_bytes writes reads 0 before_second
        (mined_of (6 ∷ []), none))
      (mined_of (5 ∷ [])) (mined_of (6 ∷ [])) memory-TakesAll (λ e. absurd (ground arith))
      (mined_of-Mines (5 ∷ [])) (mined_of-Travels (5 ∷ []))
      (tick_mined memory_storage memory_storage-laws same_bytes writes reads 0 [] 1 open_context
        (node_with (5 ∷ [])) (mined_of (5 ∷ [])) (λ e. absurd (ground arith))
        (mined_of-Mines (5 ∷ [])))
      refl (λ e. absurd (ground arith)) (mined_of-Mines (6 ∷ [])) (mined_of-Travels (6 ∷ []))
      (tick_mined memory_storage memory_storage-laws same_bytes writes reads 0 [] 1 open_context
        before_second (mined_of (6 ∷ [])) (λ e. absurd (ground arith)) (mined_of-Mines (6 ∷ [])))).0

abbrev emptied : Line (Block ℕ)
emptied = record { chan = record { cap = 2; items = [] }; waiting = [] }

block_converges_example :
    after_first.chain.state_root
    ≡ (take_block memory_storage same_bytes writes reads 3 node
        (recv node.block_chan)).chain.state_root
unfolding recv take_oldest refill turn
block_converges_example =
    block_converges memory_storage memory_storage memory_storage-laws memory_storage-laws same_bytes
      writes reads 0 3 [] 1 open_context (node_with (5 ∷ [])) after_first node
      (take_block memory_storage same_bytes writes reads 3 node (recv node.block_chan))
      (mined_of (5 ∷ [])) (mined_of (5 ∷ [])) emptied memory-TakesAll memory-TakesAll refl
      (λ e. absurd (ground arith)) (mined_of-Mines (5 ∷ [])) (mined_of-Travels (5 ∷ []))
      (tick_mined memory_storage memory_storage-laws same_bytes writes reads 0 [] 1 open_context
        (node_with (5 ∷ [])) (mined_of (5 ∷ [])) (λ e. absurd (ground arith))
        (mined_of-Mines (5 ∷ [])))
      refl refl (mined_of-Travels (5 ∷ [])) refl

-- Services that count their calls; the second one does not start.
abbrev counts : Service ℕ
counts = record {
  name = 1 ∷ [];
  init = λ w. (w + 1, none);
  start = λ w. (w + 1, none);
  stop = λ w. (w + 1, none);
}

abbrev refuses_start : Service ℕ
refuses_start = record counts { start = λ w. (w, some (9 ∷ [])) }

start_services-Outcome_example :
    Outcome
      (counts ∷ refuses_start ∷ counts ∷ [])
      0
      (start_services (counts ∷ refuses_start ∷ counts ∷ []) 0)
start_services-Outcome_example = start_services-Outcome (counts ∷ refuses_start ∷ counts ∷ []) 0

-- A network whose host has no gossip.
abbrev lib : LibP2p
lib = record {
  Host = Bytes;
  PubSub = Bytes;
  Topic = Bytes;
  Subscription = Bytes;
  id = λ h. h;
  addrs = λ h. h ∷ [];
}

abbrev no_gossip : Network lib
no_gossip = record {
  new_host = λ port. ok (3 ∷ []);
  new_gossip_sub = λ h. err (4 ∷ []);
  join = λ p t. ok t;
  subscribe = λ t. ok t;
}

abbrev p2p_node : P2pNode lib ℕ
p2p_node = new_p2p_node lib 80 []

failed_init_is_final_example : (start lib no_gossip (init lib no_gossip p2p_node).node).error ≡ none
unfolding new_p2p_node init init_at after_host after_gossip_sub fails
failed_init_is_final_example =
    (failed_init_is_final lib no_gossip no_gossip p2p_node (3 ∷ []) refl refl refl
      (λ e. absurd (ground arith))).0

abbrev first_byte : Bytes → Option ℕ
first_byte [] = none
first_byte (b ∷ bs) = some b

abbrev two_requests : List Request
two_requests = record { is_post = true; body = 5 ∷ [] } ∷ record { is_post = true; body = [] } ∷ []

handle_txs-contents_example :
    contents (handle_txs lib first_byte p2p_node two_requests).0.tx_chan
    ≡ contents p2p_node.tx_chan ++ 5 ∷ []
unfolding new_p2p_node
handle_txs-contents_example =
    (handle_txs-contents lib first_byte p2p_node two_requests
      (make_line-IsLine 1000 (ground arith))).0

abbrev peer : PeerInfo
peer = record { id = 2 ∷ []; address = []; score = 1; last_seen = []; latency_ms = 0 }

perform-IsTable_example :
    IsTable same_bytes (perform same_bytes (new_kademlia_dht (1 ∷ [])) (add peer ∷ add peer ∷ []))
perform-IsTable_example = perform-IsTable same_bytes (1 ∷ []) (add peer ∷ add peer ∷ [])

-- Digests of 32 equal bytes.
copies : ℕ → ℕ → Bytes
copies zero b = []
copies (suc n) b = b ∷ copies n b

abbrev digest_byte : Bytes → ℕ
digest_byte [] = 0
digest_byte (x ∷ xs) = 1

abbrev digest : Bytes → Bytes
digest s = copies 32 (digest_byte s)

length-copies : (n b : ℕ) → length (copies n b) ≡ n
unfolding copies
length-copies zero b = refl
length-copies (suc n) b = omega (arith, length-copies n b)

copies-All : (n b : ℕ) → b < 256 → All (λ x. x < 256) (copies n b)
unfolding copies
copies-All zero b h = tt
copies-All (suc n) b h = (h, copies-All n b h)

digest-IsDigest : (s : Bytes) → IsDigest (digest s)
digest-IsDigest [] = (length-copies 32 0, copies-All 32 0 (ground arith))
digest-IsDigest (x ∷ xs) = (length-copies 32 1, copies-All 32 1 (ground arith))

bucket_index-range_example : xor_distance digest [] (1 ∷ []) ≡ xor_distance digest (1 ∷ []) []
bucket_index-range_example = (bucket_index-range digest digest-IsDigest [] (1 ∷ [])).0

abbrev fresh : Trace raft_consensus
fresh = record { state = new_raft_consensus (1 ∷ []) true; accepted = []; delivered = [] }

calls-Accounts_test :
    (Service.calls raft_consensus fresh (
      Service.proposes (record { done = none; takes_done = false }) (7 ∷ [])
      ∷ Service.receives
      ∷ [])).accepted
    ≡ (Service.calls raft_consensus fresh (
        Service.proposes (record { done = none; takes_done = false }) (7 ∷ [])
        ∷ Service.receives
        ∷ [])).delivered
      ++ raft_laws.backlog
          (Service.calls raft_consensus fresh (
            Service.proposes (record { done = none; takes_done = false }) (7 ∷ [])
            ∷ Service.receives
            ∷ [])).state
unfolding new_raft_consensus make_chan
calls-Accounts_test =
    (Service.calls-Accounts raft_consensus raft_laws fresh
      (Service.proposes (record { done = none; takes_done = false }) (7 ∷ [])
        ∷ Service.receives
        ∷ [])
      (sym (backlog-raft_laws (new_raft_consensus (1 ∷ []) true)))).0

-- A leader that takes a proposal, refuses one when it leads no more, and hands the first out.
abbrev raft_history : List Call
raft_history =
    proposes (record { done = none; takes_done = false }) (7 ∷ [])
    ∷ sets_leader false
    ∷ proposes (record { done = none; takes_done = false }) (8 ∷ [])
    ∷ receives
    ∷ []

raft_calls-Accounts_example :
    (calls (trace_of_new (1 ∷ []) true) raft_history).accepted
    ≡ (calls (trace_of_new (1 ∷ []) true) raft_history).delivered
unfolding calls call new_raft_consensus make_chan raft_propose raft_commit set_leader receive
raft_calls-Accounts_example = (raft_calls-Accounts (1 ∷ []) true raft_history).2 refl

get_metrics-bounds_example : (get_metrics (record_all new_runtime_observability (3 ∷ 5 ∷ []))).1 ≤ 5
get_metrics-bounds_example =
    (get_metrics-bounds (3 ∷ 5 ∷ []) 5 (ground arith) (ground arith)
      (ground arith, (ground arith, tt))).1
