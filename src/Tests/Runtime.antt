-- ===== src/Tests/Runtime.antt =====
-- The theorems of the runtime, the router and the privacy modules at small inputs.
use node_decent_system.Prelude.{
  ◌⊎◌, All, contains, get_elem?, ℕ, ◌+◌, ◌≡◌, refl, true, Option, none, some, List, [], ◌∷◌, ◌++◌,
  arith, Result, ok, err, Bytes, Error, lit, str_eq, inr, has_prefix, hex,
}
use node_decent_system.GoMap
use node_decent_system.Chan.{Chan}
use node_decent_system.Interfaces.{StateMachine}
use node_decent_system.Block.{Block, calculate_hash}
use node_decent_system.Consensus.Pow.{zeros, mine_block, mine_block_sound, mine_block-finds}
use node_decent_system.Execution.{
  Command, CommandHandler, ExecutionRouter, apply_transactional, route, dispatch, settle,
  file_receipt,
}
use node_decent_system.Execution.Receipts.{apply_transactional-receipt, rolled_back_keeps_effects}
use node_decent_system.Replay.{ReplayEntry, record_entry, replay_entries}
use node_decent_system.Replay.Determinism.{Describes, replay_iff, replay-record}
use node_decent_system.Privacy.Vault.{
  cryptographic_fault, payload_missing, AnchoredTransaction, PrivatePayload, JurisdictionVault,
  IsLawful, store_if_authorized, store_if_authorized-IsLawful, retrieve_and_verify,
  retrieve-verified,
}
use node_decent_system.Privacy.Fetcher.{
  PeerNetwork, SideChannelFetcher, new_side_channel_fetcher, holding, vault_of, fetch_and_store,
}
use node_decent_system.Privacy.Router.{
  SovereignRouter, execute, execute_or_recover, recover, after_fetch, with_fetched, missing_tag,
}
use node_decent_system.Privacy.Router
use node_decent_system.Privacy.Router.Execution.{Executed, NilExecuted, apply-own, apply-foreign}
use node_decent_system.Privacy.Router.Stall.{retry, wrong_payload_blocks}
use node_decent_system.Authorization.{
  grant, ask, new_authorization_engine, serve_all, authorize, authorize_iff_granted, granted,
}
use node_decent_system.EventBus.{Event, EventBus, subscribers}
use node_decent_system.EventBus.Delivery.{publish_all, publish_all-delivers}
use node_decent_system.Registry.{health_check_all, get-health_check_all}
use node_decent_system.Registry.First.{register_all, get-register_all}
use node_decent_system.Registry

abbrev same_bytes : Bytes → Bytes
same_bytes b = b

abbrev cmd : Command
cmd = record { kind = 1 ∷ []; payload = 2 ∷ [] }

abbrev reads_cmd : Bytes → Result Error Command
reads_cmd b = ok cmd

-- An application that counts its calls, with a handler that fails after counting.
abbrev counting : CommandHandler ℕ
counting n payload = (n + 1, err (9 ∷ []))

abbrev router_with : ExecutionRouter ℕ
router_with = record { handlers = (1 ∷ [], counting) ∷ []; current_root = 4 ∷ []; receipts = [] }

-- A handler that counts its calls and reports a root.
abbrev rooted : CommandHandler ℕ
rooted n payload = (n + 1, ok (9 ∷ []))

abbrev router_rooted : ExecutionRouter ℕ
router_rooted = record { handlers = (1 ∷ [], rooted) ∷ []; current_root = 4 ∷ []; receipts = [] }

apply_transactional-receipt_example :
    (c : Command) × (reads_cmd [] ≡ ok c)
    × (handler : CommandHandler ℕ) × (GoMap.get router_rooted.handlers c.kind ≡ some handler)
    × ((root : Bytes) × (handler 0 c.payload
          ≡ ((apply_transactional same_bytes reads_cmd router_rooted 0 (7 ∷ []) []).app, ok root))
        × ((apply_transactional same_bytes reads_cmd router_rooted 0
              (7 ∷ [])
              []).router.current_root
            ≡ hex (same_bytes ((4 ∷ []) ++ root))))
unfolding apply_transactional route dispatch settle file_receipt GoMap.get str_eq
apply_transactional-receipt_example =
    (apply_transactional-receipt same_bytes reads_cmd router_rooted 0 (7 ∷ []) []).4 refl

count_after_rollback : (apply_transactional same_bytes reads_cmd router_with 0 (7 ∷ []) []).app ≡ 1
unfolding GoMap.get str_eq
count_after_rollback =
    (rolled_back_keeps_effects same_bytes reads_cmd router_with 0 (7 ∷ []) [] cmd counting 1
      (9 ∷ []) refl refl refl).2

-- The machine that keeps all commits, and reports them as its root.
abbrev journal : StateMachine
journal = record { State = Bytes; apply = λ s c. (s ++ c, ok (s ++ c)); get_state_root = λ s. s }

abbrev recorded : List ReplayEntry
recorded = record { sequence = 1; timestamp = 0; payload = 5 ∷ []; state_root = 5 ∷ [] } ∷ []

recorded-Describes : Describes journal [] recorded [] (5 ∷ []) (5 ∷ [])
recorded-Describes = Describes.entry (5 ∷ []) refl (inr refl) (Describes.done refl refl)

replay_iff_example : replay_entries journal recorded [] [] ≡ (5 ∷ [], ok (5 ∷ []))
replay_iff_example = (replay_iff journal recorded [] [] (5 ∷ []) (5 ∷ [])).1 recorded-Describes

replays : replay_entries journal recorded [] [] ≡ (5 ∷ [], ok (5 ∷ []))
replays = (replay_iff journal recorded [] [] (5 ∷ []) (5 ∷ [])).1 recorded-Describes

replay-record_test :
    replay_entries journal (record_entry 3 (6 ∷ []) (5 ∷ 6 ∷ []) recorded) [] []
    ≡ (5 ∷ 6 ∷ [], ok (5 ∷ 6 ∷ []))
replay-record_test =
    replay-record journal recorded 3 (6 ∷ []) (5 ∷ 6 ∷ []) [] (5 ∷ []) [] (5 ∷ []) replays refl

-- A vault of jurisdiction 1 with a payload under the transaction 3.
abbrev stored_payload : PrivatePayload
stored_payload = record { tx_id = 3 ∷ []; jurisdiction_code = 1 ∷ []; encrypted_data = 8 ∷ [] }

abbrev vault : JurisdictionVault
vault = record { node_jurisdiction = 1 ∷ []; side_db = (3 ∷ [], stored_payload) ∷ [] }

abbrev empty_vault : JurisdictionVault
empty_vault = record { node_jurisdiction = 1 ∷ []; side_db = [] }

empty_vault-IsLawful : IsLawful empty_vault
unfolding GoMap.get
empty_vault-IsLawful tx p h = absurd (ground arith)

store_if_authorized_test : IsLawful (store_if_authorized empty_vault stored_payload).0
store_if_authorized_test =
    (store_if_authorized-IsLawful empty_vault stored_payload empty_vault-IsLawful).0

retrieve-verified_test :
    (same_bytes (8 ∷ []) ≡ 8 ∷ [])
    × (p : PrivatePayload) × (GoMap.get vault.side_db (3 ∷ []) ≡ some p)
    × (p.encrypted_data ≡ 8 ∷ [])
unfolding retrieve_and_verify GoMap.get str_eq
retrieve-verified_test = retrieve-verified same_bytes vault (3 ∷ []) (8 ∷ []) (8 ∷ []) refl

abbrev anchor_in : Bytes → AnchoredTransaction
anchor_in where_ = record {
  tx_id = 3 ∷ [];
  jurisdiction_code = where_;
  payload_hash = 8 ∷ [];
  timestamp = 0;
}

abbrev wrong_peer : PeerNetwork
wrong_peer tx jurisdiction = ok (9 ∷ [])

abbrev router_of : JurisdictionVault → Option SideChannelFetcher → SovereignRouter
router_of v f = record {
  vault = v;
  fetcher = f;
  telemetry = none;
  global_state = [];
  private_state = [];
}

apply-own_example :
    Executed same_bytes
      (router_of vault none)
      (anchor_in (1 ∷ []))
      (Router.apply same_bytes (router_of vault none) (anchor_in (1 ∷ []))).0
    ⊎ NilExecuted same_bytes
        (router_of vault none)
        (anchor_in (1 ∷ []))
        (Router.apply same_bytes (router_of vault none) (anchor_in (1 ∷ []))).0
unfolding Router.apply execute_or_recover execute retrieve_and_verify GoMap.get str_eq
apply-own_example = (apply-own same_bytes (router_of vault none) (anchor_in (1 ∷ [])) refl).0 refl

apply-foreign_test :
    (Router.apply same_bytes (router_of empty_vault none) (anchor_in (2 ∷ []))).0.vault
    ≡ empty_vault
apply-foreign_test =
    (apply-foreign same_bytes (router_of empty_vault none) (anchor_in (2 ∷ [])) (ground arith)).2

-- A fetcher with another vault gets the right payload, and the router executes the nil one.
abbrev right_peer : PeerNetwork
right_peer tx jurisdiction = ok (8 ∷ [])

executes_nil :
    (Router.apply same_bytes
      (router_of empty_vault (some (new_side_channel_fetcher right_peer (some empty_vault))))
      (anchor_in (1 ∷ []))).0.private_state
    ≡ (3 ∷ [], []) ∷ []
unfolding Router.apply execute_or_recover execute retrieve_and_verify GoMap.get str_eq recover
    after_fetch fetch_and_store with_fetched vault_of new_side_channel_fetcher store_if_authorized
    contains missing_tag payload_missing lit has_prefix GoMap.put
executes_nil = refl

-- Executed twice more: without a fetcher, and with one that has the right payload.
wrong_payload_blocks_example :
    let (r', e) =
      Router.apply same_bytes
        (router_of empty_vault (some (new_side_channel_fetcher wrong_peer none)))
        (anchor_in (1 ∷ [])) in
    let (r'', es) =
      retry same_bytes r'
        (anchor_in (1 ∷ []))
        (none ∷ some (new_side_channel_fetcher right_peer none) ∷ []) in
    (e
      ≡ some
          (lit "CRITICAL FAULT: execution stalled, payload unrecoverable: " ++ cryptographic_fault))
    × (r'.vault ≡ holding empty_vault (3 ∷ []) (9 ∷ []))
    × All (λ e. e ≡ some (lit "execution stalled: " ++ cryptographic_fault)) es
    × (r''.vault ≡ r'.vault)
    × (r''.private_state ≡ [])
unfolding GoMap.get
wrong_payload_blocks_example =
    wrong_payload_blocks same_bytes
      (router_of empty_vault (some (new_side_channel_fetcher wrong_peer none))) (anchor_in (1 ∷ []))
      wrong_peer (9 ∷ []) (none ∷ some (new_side_channel_fetcher right_peer none) ∷ []) refl refl
      refl refl (ground arith)

abbrev block : Block ℕ
block = record {
  index = 1;
  timestamp = [];
  transactions = [];
  prev_hash = [];
  hash = [];
  nonce = 0;
}

-- With no zeros asked for, the first round solves the block.
mine_block-finds_example :
    mine_block same_bytes 1 0 (λ n. none) block
    ≡ some (record block { hash = calculate_hash same_bytes block }, none)
unfolding has_prefix zeros
mine_block-finds_example =
    mine_block-finds same_bytes 0 1 0 (λ n. none) block (ground arith) (λ k h. refl)
      (λ k h. absurd (ground arith)) refl

mined_at_once :
    mine_block same_bytes 1 0 (λ n. none) block
    ≡ some (record block { hash = calculate_hash same_bytes block }, none)
unfolding has_prefix zeros mine_block
mined_at_once = refl

mine_block_sound_test :
    calculate_hash same_bytes block
    ≡ calculate_hash same_bytes (record block { hash = calculate_hash same_bytes block })
mine_block_sound_test =
    (mine_block_sound same_bytes 1 0 (λ n. none) block
      (record block { hash = calculate_hash same_bytes block }) mined_at_once).0

authorize_iff_granted_example :
    (authorize
      (serve_all new_authorization_engine
        (grant (1 ∷ []) (2 ∷ []) ∷ ask 0 (1 ∷ []) (2 ∷ []) [] ∷ []))
      5
      (1 ∷ [])
      (2 ∷ [])
      []).1
    ≡ true
unfolding granted str_eq
authorize_iff_granted_example =
    (authorize_iff_granted (grant (1 ∷ []) (2 ∷ []) ∷ ask 0 (1 ∷ []) (2 ∷ []) [] ∷ []) 5 (1 ∷ [])
      (2 ∷ []) []).0

abbrev event : Event ℕ
event = record { kind = 1 ∷ []; emitter = []; payload = 7 }

abbrev bus : EventBus ℕ
bus = (1 ∷ [], record { cap = 100; items = [] } ∷ []) ∷ []

publish_all-delivers_test :
    (ch' : Chan (Event ℕ)) × (get_elem?
        (subscribers (GoMap.get (publish_all bus (event ∷ event ∷ [])) (1 ∷ [])))
        0
      ≡ some ch')
    × (ch'.cap ≡ 100)
    × (ch'.items ≡ event ∷ event ∷ [])
unfolding str_eq
publish_all-delivers_test =
    publish_all-delivers bus (event ∷ event ∷ []) (1 ∷ []) 0 (record { cap = 100; items = [] })
      (unfold subscribers GoMap.get in refl) (ground arith)

-- A service that is its own name.
abbrev service_name : Bytes → Bytes
service_name s = s

abbrev healthy : Bytes → Option Error
healthy s = none

get-register_all_test :
    Registry.get service_name healthy
      (register_all service_name healthy [] ((1 ∷ []) ∷ (2 ∷ []) ∷ (1 ∷ []) ∷ []))
      (2 ∷ [])
    ≡ some (2 ∷ [])
unfolding str_eq
get-register_all_test =
    get-register_all service_name healthy ((1 ∷ []) ∷ (2 ∷ []) ∷ (1 ∷ []) ∷ []) (2 ∷ [])

health_of_one :
    GoMap.get (health_check_all service_name healthy ((1 ∷ [], 1 ∷ []) ∷ [])) (1 ∷ []) ≡ some none
unfolding Registry.get GoMap.get str_eq
health_of_one =
    get-health_check_all service_name healthy ((1 ∷ [], 1 ∷ []) ∷ []) (1 ∷ []) (1 ∷ []) refl
