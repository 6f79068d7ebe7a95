-- ===== src/Node/Boot.antt =====
-- core/types/config.go and runtime.go: the configuration of a node, and `New`, which makes the node's
-- parts from it. The file system, the YAML decoder and Pebble are parameters.
use node_decent_system.Prelude.{
  ℕ, ◌≡◌, ◌≢◌, ◌⊎◌, refl, sym, ap, subst, ◌∙◌, Bool, true, false, Bool-cases, inl, inr, List, [],
  ◌∷◌, ◌++◌, Result, Result-cases, ok-injective, err-ne-ok, ok, err, if◌then◌else◌, Bytes, Error,
  lit, str_eq, str_eq_iff,
}
use node_decent_system.Storage.Memory.{MemoryStorage, new_memory_storage}
use node_decent_system.Storage.Pebble.{PebbleLib, PebbleStorage, new_pebble_storage}
use node_decent_system.Consensus.Simple.{PowConsensus, new_pow_consensus}
use node_decent_system.Chain.{ChainState, new_chain_state}
use node_decent_system.P2p.{LibP2p, P2pNode, new_p2p_node, service_name}
use node_decent_system.Node.Services.{uses_pebble}

-- The sections of the configuration file. A port and a difficulty that are negative are outside.
pub record Config : Type 0 where
  pub node_id : Bytes
  pub node_port : ℕ
  pub algorithm : Bytes
  pub difficulty : ℕ
  pub backend : Bytes
  pub path : Bytes
  pub peers : List Bytes

-- `os.ReadFile` and `yaml.Unmarshal`
pub record Files : Type 0 where
  pub read_file : Bytes → Result Error Bytes
  pub unmarshal : Bytes → Result Error Config

decoded : Result Error Config → Result Error Config
decoded (err e) = err (lit "failed to parse yaml config: " ++ e)
decoded (ok cfg) = ok cfg

decode : Files → Result Error Bytes → Result Error Config
unfolding decoded
decode files (err e) = err (lit "failed to read config file: " ++ e)
decode files (ok d) = decoded (files.unmarshal d)

unfoldable pub load_config : Files → Bytes → Result Error Config
unfolding decode
load_config files path = decode files (files.read_file path)

module _ (lib : PebbleLib) where
  -- The storage behind the interface.
  pub data Store : Type 0 where
    on_disk : PebbleStorage lib → Store
    in_memory : MemoryStorage → Store

  pebble : Result Error (PebbleStorage lib) → Result Error Store
  pebble (err e) = err (lit "failed to init pebble storage: " ++ e)
  pebble (ok p) = ok (on_disk p)

  unfoldable pub open_storage : Config → Result Error Store
  unfolding pebble
  open_storage cfg =
      if uses_pebble cfg.backend
      then pebble (new_pebble_storage lib cfg.path)
      else ok (in_memory new_memory_storage)

module _ (lib : PebbleLib) (net : LibP2p) (Tx : Type 0) where
  -- The services that are registered, by their names.
  pub record Runtime : Type 0 where
    pub cfg : Config
    pub storage : Store lib
    pub engine : PowConsensus
    pub state_machine : ChainState (Store lib)
    pub p2p : P2pNode net Tx
    pub services : List Bytes

  with_storage : Config → Result Error (Store lib) → Result Error Runtime
  with_storage cfg (err e) = err e
  with_storage cfg (ok store) = ok (record {
    cfg = cfg;
    storage = store;
    engine = new_pow_consensus cfg.difficulty;
    state_machine = new_chain_state store;
    p2p = new_p2p_node net cfg.node_port cfg.peers;
    services = service_name ∷ [];
  })

  with_config : Result Error Config → Result Error Runtime
  unfolding with_storage
  with_config (err e) = err (lit "runtime config error: " ++ e)
  with_config (ok cfg) = with_storage cfg (open_storage lib cfg)

  -- `New`
  unfoldable pub new : Files → Bytes → Result Error Runtime
  unfolding with_config
  new files path = with_config (load_config files path)

  -- A configuration that the file gives.
  abbrev pub Loads : Files → Bytes → Config → Type 0
  Loads files path cfg =
      (text : Bytes) × (files.read_file path ≡ ok text) × (files.unmarshal text ≡ ok cfg)

  -- Where the blocks go: to the disk under the configured path for "pebble", else to an empty map.
  abbrev pub Opened : Config → Store lib → Type 0
  Opened cfg store =
      ((cfg.backend ≡ lit "pebble")
        × ((p : PebbleStorage lib) × (new_pebble_storage lib cfg.path ≡ ok p)
            × (store ≡ on_disk p)))
      ⊎ ((cfg.backend ≢ lit "pebble") × (store ≡ in_memory new_memory_storage))

  Loads-load_config :
      (files : Files) (path : Bytes) (cfg : Config)
      → load_config files path ≡ ok cfg
      → Loads files path cfg
  unfolding load_config decode decoded
  Loads-load_config files path cfg h = elim (Result-cases (files.read_file path)) [
    | inr (e, r) ↦ absurd (err-ne-ok _ cfg (sym (ap (decode files) r) ∙ h))
    | inl (text, r) ↦ elim (Result-cases (files.unmarshal text)) [
      | inr (e, u) ↦ absurd (err-ne-ok _ cfg (sym (ap (decode files) r ∙ ap decoded u) ∙ h))
      | inl (c, u) ↦
          (text, r, u ∙ ap ok (ok-injective c cfg (sym (ap (decode files) r ∙ ap decoded u) ∙ h)))
    ]
  ]

  Opened-open_storage :
      (cfg : Config) (store : Store lib) → open_storage lib cfg ≡ ok store → Opened cfg store
  unfolding open_storage pebble uses_pebble
  Opened-open_storage cfg store h = elim (Bool-cases (str_eq cfg.backend (lit "pebble"))) [
    | inr other ↦ inr (
      λ same. absurd (false-ne-true (sym other ∙ (str_eq_iff cfg.backend (lit "pebble")).1 same)),
      ok-injective store (in_memory new_memory_storage) (sym h ∙ ap choose other),
    )
    | inl chosen ↦ elim (Result-cases (new_pebble_storage lib cfg.path)) [
      | inr (e, n) ↦ absurd (err-ne-ok _ store (sym (ap choose chosen ∙ ap (pebble lib) n) ∙ h))
      | inl (p, n) ↦ inl (
        (str_eq_iff cfg.backend (lit "pebble")).0 chosen,
        (p, n, ok-injective store (on_disk p) (sym h ∙ ap choose chosen ∙ ap (pebble lib) n)),
      )
    ]
  ]
    where
      choose : Bool → Result Error (Store lib)
      choose b =
          if b
          then pebble lib (new_pebble_storage lib cfg.path)
          else ok (in_memory new_memory_storage)

      false-ne-true : ◌≡◌ {A = Bool} false true → ⊥
      false-ne-true e = cc

  -- A runtime that `New` makes has read and decoded its configuration and has opened the storage
  -- that this chooses; the chain stands on that storage at its genesis root, the engine has the
  -- configured difficulty, and the network is not yet initialised.
  pub new_made :
      (files : Files) (path : Bytes) (rt : Runtime)
      → new files path ≡ ok rt
      → Loads files path rt.cfg
        × Opened rt.cfg rt.storage
        × (rt.state_machine ≡ new_chain_state rt.storage)
        × (rt.engine ≡ new_pow_consensus rt.cfg.difficulty)
        × (rt.p2p ≡ new_p2p_node net rt.cfg.node_port rt.cfg.peers)
  unfolding new with_config with_storage
  new_made files path rt h = elim (Result-cases (load_config files path)) [
    | inr (e, l) ↦ absurd (err-ne-ok _ rt (sym (ap with_config l) ∙ h))
    | inl (cfg, l) ↦ elim (Result-cases (open_storage lib cfg)) [
      | inr (e, o) ↦ absurd (err-ne-ok _ rt (sym (ap with_config l ∙ ap (with_storage cfg) o) ∙ h))
      | inl (store, o) ↦
          subst
            (λ r.
              Loads files path r.cfg
              × Opened r.cfg r.storage
              × (r.state_machine ≡ new_chain_state r.storage)
              × (r.engine ≡ new_pow_consensus r.cfg.difficulty)
              × (r.p2p ≡ new_p2p_node net r.cfg.node_port r.cfg.peers))
            (ok-injective _ rt (sym (ap with_config l ∙ ap (with_storage cfg) o) ∙ h))
            (Loads-load_config files path cfg l, Opened-open_storage cfg store o, refl, refl, refl)
    ]
  ]
