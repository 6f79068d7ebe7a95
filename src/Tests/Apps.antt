-- ===== src/Tests/Apps.antt =====
-- The applications' theorems at small states.
use node_decent_system.Prelude.{
  List, ◌++◌, ◌≢◌, ℕ, ◌+◌, ◌≡◌, refl, sym, ap, subst, ok-injective, true, none, some, [], ◌∷◌,
  arith, Result, ok, err, Bytes, Error, lit, str_eq, inl,
}
use mathlib.Core.List.{reverse_perm}
use mathlib.Core.List.Perm
use node_decent_system.GoMap.{get-put, IsMap}
use node_decent_system.GoMap
use node_decent_system.Storage.Memory.{
  MemoryStorage, memory_storage, memory_storage-laws, missing-memory_storage,
}
use node_decent_system.Storage.Memory
use node_decent_system.KvStore.{KvPayload, KvState, op_put}
use node_decent_system.KvStore
use node_decent_system.KvStore.Replicas
use node_decent_system.KvStore.Replicas.{run-Agree}
use node_decent_system.KvStore.Contents.{get-apply}
use node_decent_system.KvStore.Coherence.{Coherent, apply-Coherent}
use node_decent_system.Lock.{
  LockPayload, LockInfo, LockState, acquire, release, action_acquire, action_release, lease_end,
}
use node_decent_system.Lock
use node_decent_system.Lock.Exclusion.{
  lease, acquire-excludes, acquire-succeeds, release_lem, acquire_depends_on_clock,
}
use node_decent_system.Lock.Exclusion.History.{TimedCommit, apply_all, apply_all-excludes}
use node_decent_system.Lock.Root.{forwards, backwards, two_locks_two_roots}
use node_decent_system.Queue.{QueuePayload, QueueState, action_enqueue, depth}
use node_decent_system.Queue
use node_decent_system.Queue.Order.{items, items-apply, dequeue-refused}
use node_decent_system.Block.{Block}
use node_decent_system.Chain.{ChainState, block_key}
use node_decent_system.Chain
use node_decent_system.Chain.Roots.{apply_lem}
use node_decent_system.Config.{
  ConfigPayload, ConfigState, action_set_config, get_config, get_config-apply,
}
use node_decent_system.Config
use node_decent_system.Config.Replicas.{config_run-Agree}
use node_decent_system.Metadata.{MetadataPayload, MetadataState, action_put_meta}
use node_decent_system.Metadata
use node_decent_system.Metadata.Replicas.{DecodesMaps, metadata_run-Agree}
use node_decent_system.Replication.{run}
use node_decent_system.Rwa.{RwaStateTransition, Ledger, execute, registered_once}
use node_decent_system.Rwa
use node_decent_system.Merkle.{
  MerkleState, apply_changes-ends, apply_changes, get_proof, leaf_hash, verify_proof-get_proof,
}

-- A hash that keeps its input apart from any other.
abbrev same_bytes : Bytes → Bytes
same_bytes b = b

-- The decoder that reads every text as one given payload.
abbrev reads_as : {A : Type 0} → A → Bytes → Result Error A
reads_as a b = ok a

abbrev put_payload : KvPayload
put_payload = record { op = op_put; key = 1 ∷ []; value = 2 ∷ [] }

abbrev empty_kv : KvState MemoryStorage
empty_kv = record { storage = record { entries = [] }; in_memory = []; state_root = [] }

run-Agree_example :
    (Replicas.run memory_storage same_bytes
      (reads_as put_payload)
      (λ n. forwards)
      empty_kv
      ((3 ∷ []) ∷ [])).1
    ≡ (Replicas.run memory_storage same_bytes
        (reads_as put_payload)
        (λ n. forwards)
        empty_kv
        ((3 ∷ []) ∷ [])).1
run-Agree_example =
    (run-Agree memory_storage same_bytes (reads_as put_payload) (λ n. forwards) (λ n. forwards)
      (λ n ks. Perm.refl ks) (λ n ks. Perm.refl ks) empty_kv empty_kv ((3 ∷ []) ∷ [])
      (record {
        left_map = tt;
        right_map = tt;
        entries = λ k. refl;
        storage = refl;
        root = refl;
      })).1

get-apply_example :
    KvStore.get
      (KvStore.apply memory_storage same_bytes (reads_as put_payload) forwards empty_kv []).0
      (1 ∷ [])
    ≡ some (2 ∷ [])
unfolding op_put str_eq lit
get-apply_example =
    get-apply memory_storage same_bytes (reads_as put_payload) forwards empty_kv [] (1 ∷ [])

abbrev empty_root : Bytes
empty_root = []

apply-Coherent_example :
    Coherent memory_storage memory_storage-laws
      (KvStore.apply memory_storage same_bytes (reads_as put_payload) forwards empty_kv []).0
unfolding op_put str_eq lit KvStore.apply KvStore.apply_payload KvStore.store_put KvStore.finish
    Memory.put Memory.get GoMap.get KvStore.get
apply-Coherent_example =
    apply-Coherent memory_storage memory_storage-laws same_bytes (reads_as put_payload) forwards
      empty_kv [] _ (λ k. ap err (sym missing-memory_storage)) refl

-- Resource 1 is held by 5 until the time 100.
abbrev held : LockState
held = record {
  locks = (1 ∷ [], record { holder = 5 ∷ []; expires_at = 100 }) ∷ [];
  state_root = [];
}

abbrev acquire_by : Bytes → LockPayload
acquire_by who = record { action = action_acquire; resource = 1 ∷ []; holder = who; ttl_ms = 10 }

acquire-excludes_test :
    (acquire same_bytes (reads_as (acquire_by [])) forwards 50 held (acquire_by (6 ∷ []))).0 ≡ held
unfolding GoMap.get str_eq
acquire-excludes_test =
    (acquire-excludes same_bytes (reads_as (acquire_by [])) forwards 50 held (acquire_by (6 ∷ []))
      (record { holder = 5 ∷ []; expires_at = 100 }) refl (ground arith) (ground arith)).0

-- A commit of 6 that acquires the resource, or, if it is not empty, one that releases it.
abbrev reads_lock : Bytes → Result Error LockPayload
reads_lock [] = ok (acquire_by (6 ∷ []))
reads_lock (b ∷ bs) =
    ok (record { action = action_release; resource = 1 ∷ []; holder = 6 ∷ []; ttl_ms = 0 })

abbrev at_time : ℕ → Bytes → TimedCommit
at_time now b = record { order = forwards; now = now; commit_log = b }

abbrev lock_attempts : List TimedCommit
lock_attempts = at_time 10 [] ∷ at_time 20 (1 ∷ []) ∷ []

lock_attempts-foreign : (c : Bytes) (p : LockPayload) → reads_lock c ≡ ok p → p.holder ≡ 6 ∷ []
lock_attempts-foreign [] p h = ap (λ q. q.holder) (sym (ok-injective _ p h))
lock_attempts-foreign (b ∷ bs) p h = ap (λ q. q.holder) (sym (ok-injective _ p h))

not_held_by_six : (c : Bytes) (p : LockPayload) → reads_lock c ≡ ok p → p.holder ≢ 5 ∷ []
not_held_by_six c p h = λ e. ground (arith, lock_attempts-foreign c p h)

apply_all-excludes_example :
    (lease (apply_all same_bytes reads_lock lock_attempts held) (1 ∷ [])
      ≡ some (record { holder = 5 ∷ []; expires_at = 100 }))
    × (Lock.apply same_bytes reads_lock forwards 99
          (apply_all same_bytes reads_lock lock_attempts held)
          []
        ≡ (
          apply_all same_bytes reads_lock lock_attempts held,
          err (lit "resource " ++ ((1 ∷ []) ++ (lit " already locked by " ++ (5 ∷ [])))),
        ))
unfolding GoMap.get str_eq
apply_all-excludes_example =
    apply_all-excludes same_bytes reads_lock lock_attempts (at_time 99 []) held
      (record { holder = 5 ∷ []; expires_at = 100 }) (acquire_by (6 ∷ [])) refl
      (
        (ground arith, λ p h same. not_held_by_six [] p h),
        ((ground arith, λ p h same. not_held_by_six (1 ∷ []) p h), tt),
      )
      (ground arith) refl refl (not_held_by_six [] (acquire_by (6 ∷ [])) refl)

acquire-succeeds_test :
    lease
      (acquire same_bytes (reads_as (acquire_by [])) forwards 100 held (acquire_by (6 ∷ []))).0
      (1 ∷ [])
    ≡ some (record { holder = 6 ∷ []; expires_at = 10000100 })
unfolding GoMap.get str_eq lease_end
acquire-succeeds_test =
    (acquire-succeeds same_bytes (reads_as (acquire_by [])) forwards 100 held (acquire_by (6 ∷ []))
        (λ i h. inl (ground arith))).1
      (1 ∷ [])

release_test :
    lease
      (release same_bytes (reads_as (acquire_by [])) forwards held (acquire_by (5 ∷ []))).0
      (1 ∷ [])
    ≡ none
unfolding GoMap.get str_eq
release_test =
    ((release_lem same_bytes (reads_as (acquire_by [])) forwards held (acquire_by (5 ∷ []))
          (record { holder = 5 ∷ []; expires_at = 100 }) refl).0
        refl).1
      (1 ∷ [])

lease_at_late_clock :
    lease
      (acquire same_bytes (reads_as (acquire_by [])) forwards 200 held (acquire_by (6 ∷ []))).0
      (1 ∷ [])
    ≡ some (record { holder = 6 ∷ []; expires_at = 10000200 })
unfolding GoMap.get str_eq lease_end
lease_at_late_clock =
    (acquire_depends_on_clock same_bytes (reads_as (acquire_by [])) forwards 50 200 held
      (acquire_by (6 ∷ [])) (record { holder = 5 ∷ []; expires_at = 100 }) refl (ground arith)
      (ground arith) (ground arith)).1

abbrev lease_of : Bytes → LockInfo
lease_of who = record { holder = who; expires_at = 100 }

abbrev two_held : LockState
two_held = record {
  locks = (1 ∷ [], lease_of (5 ∷ [])) ∷ (2 ∷ [], lease_of (6 ∷ [])) ∷ [];
  state_root = [];
}

-- What the two orders hash.
abbrev hashed_forwards : Bytes
hashed_forwards = 1 ∷ 5 ∷ 2 ∷ 6 ∷ []

abbrev hashed_backwards : Bytes
hashed_backwards = 2 ∷ 6 ∷ 1 ∷ 5 ∷ []

two_locks_two_roots_example :
    (hashed_forwards ≢ hashed_backwards)
    × ((Lock.recalculate_root same_bytes (reads_as (acquire_by [])) forwards two_held).state_root
          ≡ (Lock.recalculate_root same_bytes
              (reads_as (acquire_by []))
              backwards
              two_held).state_root
        → hashed_forwards ≡ hashed_backwards)
unfolding Lock.hash_input GoMap.get GoMap.keys str_eq
two_locks_two_roots_example =
    two_locks_two_roots same_bytes (reads_as (acquire_by [])) two_held (1 ∷ []) (2 ∷ [])
      (lease_of (5 ∷ [])) (lease_of (6 ∷ [])) refl (ground arith) refl

abbrev one_topic : QueueState
one_topic = record { queues = (1 ∷ [], (7 ∷ []) ∷ []) ∷ []; state_root = [] }

abbrev enqueue_nine : QueuePayload
enqueue_nine = record { action = action_enqueue; topic = 1 ∷ []; item = 9 ∷ [] }

items-apply_example :
    items
      (Queue.apply_payload same_bytes (reads_as enqueue_nine) forwards one_topic enqueue_nine).0
      (1 ∷ [])
    ≡ (7 ∷ []) ∷ (9 ∷ []) ∷ []
unfolding GoMap.get str_eq action_enqueue lit
items-apply_example =
    items-apply same_bytes (reads_as enqueue_nine) forwards one_topic enqueue_nine (1 ∷ [])

dequeue-refused_test :
    depth
        (Queue.dequeue same_bytes (reads_as enqueue_nine) forwards one_topic enqueue_nine).0
        (1 ∷ [])
      + 1
    ≡ depth one_topic (1 ∷ [])
unfolding GoMap.get str_eq depth
dequeue-refused_test =
    ((dequeue-refused same_bytes (reads_as enqueue_nine) forwards one_topic enqueue_nine).1
      (ground arith)).1

abbrev first_block : Block ℕ
first_block = record {
  index = 1;
  timestamp = [];
  transactions = [];
  prev_hash = [];
  hash = 4 ∷ [];
  nonce = 0;
}

abbrev empty_chain : ChainState MemoryStorage
empty_chain = record { storage = record { entries = [] }; state_root = 3 ∷ [] }

apply_test :
    Memory.get
      (Chain.apply memory_storage same_bytes (reads_as first_block) empty_chain (8 ∷ [])).0.storage
      (block_key 1)
    ≡ ok (8 ∷ [])
unfolding Memory.put
apply_test =
    (apply_lem memory_storage memory_storage-laws same_bytes (reads_as first_block) empty_chain
      (8 ∷ []) first_block refl refl).2

abbrev set_payload : ConfigPayload
set_payload = record {
  action = action_set_config;
  namespace = 1 ∷ [];
  key = 2 ∷ [];
  value = 3 ∷ [];
}

get_config-apply_test :
    get_config
      (Config.apply same_bytes
        (reads_as set_payload)
        forwards
        (record { configs = []; state_root = [] })
        []).0
      (1 ∷ [])
      (2 ∷ [])
    ≡ some (3 ∷ [])
unfolding Config.meaning action_set_config lit str_eq
get_config-apply_test =
    get_config-apply same_bytes (reads_as set_payload) forwards
      (record { configs = []; state_root = [] }) [] set_payload (1 ∷ []) (2 ∷ []) refl

abbrev asset : RwaStateTransition
asset = record { asset_id = 1 ∷ []; total_shares = 50; issuer_pub_key = [] }

registered_once_test :
    GoMap.get (Rwa.run (reads_as asset) (record { assets = [] }) ([] ∷ [] ∷ [])).assets (1 ∷ [])
    ≡ some 50
unfolding GoMap.get
registered_once_test =
    (registered_once (reads_as asset) (record { assets = [] }) [] asset ([] ∷ []) refl refl).1

abbrev two_keys : MerkleState MemoryStorage
two_keys = record {
  storage = record { entries = [] };
  kv_state = (1 ∷ [], 2 ∷ []) ∷ (3 ∷ [], 4 ∷ []) ∷ [];
}

apply_changes-ends_test :
    ¬ ((apply_changes same_bytes memory_storage two_keys two_keys.kv_state).1 ≡ none)
apply_changes-ends_test = apply_changes-ends same_bytes memory_storage two_keys two_keys.kv_state

proof_of_two_keys :
    get_proof same_bytes two_keys (1 ∷ [])
    ≡ ok (record { hash = leaf_hash same_bytes (1 ∷ []) (2 ∷ []); is_left = true } ∷ [], 2 ∷ [])
unfolding GoMap.get str_eq
proof_of_two_keys =
    (verify_proof-get_proof same_bytes two_keys (1 ∷ []) (3 ∷ []) (2 ∷ []) (4 ∷ []) refl).0

abbrev set_value : ConfigPayload
set_value = record { action = action_set_config; namespace = 1 ∷ []; key = 2 ∷ []; value = 3 ∷ [] }

abbrev no_config : ConfigState
no_config = record { configs = []; state_root = [] }

config_run-Agree_example :
    (run (Config.apply same_bytes (reads_as set_value)) (λ n. forwards) no_config ([] ∷ [])).1
    ≡ (run (Config.apply same_bytes (reads_as set_value)) (λ n. backwards) no_config ([] ∷ [])).1
unfolding GoMap.get
config_run-Agree_example =
    (config_run-Agree same_bytes (reads_as set_value) (λ n. forwards) (λ n. backwards)
      (λ n ks. Perm.refl ks) (λ n ks. reverse_perm ks) no_config no_config ([] ∷ [])
      (record {
        configs = record { left_map = tt; right_map = tt; entries = λ k. tt };
        root = refl;
      })).1

abbrev meta_payload : MetadataPayload
meta_payload = record {
  action = action_put_meta;
  object_id = 1 ∷ [];
  metadata = (2 ∷ [], 3 ∷ []) ∷ [];
}

abbrev no_metadata : MetadataState
no_metadata = record { objects = []; state_root = [] }

meta_payload-DecodesMaps : DecodesMaps (reads_as meta_payload)
unfolding GoMap.get
meta_payload-DecodesMaps log p h =
    subst (λ q. IsMap q.metadata) (ok-injective meta_payload p h) (refl, tt)

metadata_run-Agree_example :
    (run
      (Metadata.apply same_bytes (reads_as meta_payload))
      (λ n. forwards)
      no_metadata
      ([] ∷ [])).1
    ≡ (run
        (Metadata.apply same_bytes (reads_as meta_payload))
        (λ n. backwards)
        no_metadata
        ([] ∷ [])).1
unfolding GoMap.get
metadata_run-Agree_example =
    (metadata_run-Agree same_bytes (reads_as meta_payload) meta_payload-DecodesMaps (λ n. forwards)
      (λ n. backwards) (λ n ks. Perm.refl ks) (λ n ks. reverse_perm ks) no_metadata no_metadata
      ([] ∷ [])
      (record {
        objects = record { left_map = tt; right_map = tt; entries = λ k. tt };
        root = refl;
      })).1
