-- ===== src/Privacy/Router.antt =====
-- core/execution/router.go: the router that executes anchored transactions. Its fetcher has a vault
-- of its own or shares the router's. What is printed is left out.
pub mod Execution
pub mod Stall
use node_decent_system.Prelude.{
  ◌≡◌, refl, Bool, true, false, ◌&&◌, Option, none, some, List, [], ◌∷◌, ◌++◌, arith, Result, ok,
  err, if◌then◌else◌, Bytes, Error, lit, str_eq, contains,
}
use node_decent_system.GoMap.{GoMap}
use node_decent_system.GoMap
use node_decent_system.Chan.{Chan, try_send}
use node_decent_system.Privacy.Vault.{AnchoredTransaction, JurisdictionVault, retrieve_and_verify}
use node_decent_system.Privacy.Fetcher.{SideChannelFetcher, vault_of, fetch_and_store}
use node_decent_system.Privacy.Telemetry.{ExecutionTrace}

-- `telemetry` is the pipeline's queue, if there is a pipeline.
pub record SovereignRouter : Type 0 where
  pub vault : JurisdictionVault
  pub fetcher : Option SideChannelFetcher
  pub telemetry : Option (Chan ExecutionTrace)
  pub global_state : GoMap Bytes
  pub private_state : GoMap Bytes

unfoldable pub new_sovereign_router :
    JurisdictionVault → Option SideChannelFetcher → Option (Chan ExecutionTrace) → SovereignRouter
new_sovereign_router vault fetcher telemetry = record {
  vault = vault;
  fetcher = fetcher;
  telemetry = telemetry;
  global_state = [];
  private_state = [];
}

-- A missing key of a map of byte slices reads as the empty slice.
abbrev pub slice_at : Option Bytes → Bytes
slice_at none = []
slice_at (some b) = b

unfoldable pub missing_tag : Bytes
missing_tag = lit "PAYLOAD_MISSING"

emit : Option (Chan ExecutionTrace) → ExecutionTrace → Option (Chan ExecutionTrace)
emit none t = none
emit (some q) t = some (try_send q t)

-- The router after its fetcher has changed the vault that it works on.
unfoldable pub with_fetched :
    SovereignRouter
    → SideChannelFetcher
    → Option JurisdictionVault
    → JurisdictionVault
    → SovereignRouter
with_fetched r f none v = record r { vault = v }
with_fetched r f (some own) v = record r { fetcher = some (record f { vault = some v }) }

module _ (sha256 : Bytes → Bytes) where
  -- From the capture of the pre-state on.
  unfoldable pub execute :
      SovereignRouter → AnchoredTransaction → Bytes → SovereignRouter × Option Error
  unfolding emit
  execute r a payload = (
    record r {
      private_state = GoMap.put r.private_state a.tx_id payload;
      telemetry = emit r.telemetry (record {
        tx_id = a.tx_id;
        jurisdiction_code = a.jurisdiction_code;
        pre_state_root = sha256 (slice_at (GoMap.get r.private_state a.tx_id));
        post_state_root =
            sha256 (slice_at (GoMap.get (GoMap.put r.private_state a.tx_id payload) a.tx_id));
        payload_hash = a.payload_hash;
      });
    },
    none,
  )

  abbrev pub payload_or_nil : Result Error Bytes → Bytes
  payload_or_nil (ok b) = b
  payload_or_nil (err e) = []

  -- After a fetch: its error stalls the execution, otherwise the payload is read once more, from the
  -- router's vault, and the error of that read is dropped.
  unfoldable pub after_fetch :
      SovereignRouter
      → SideChannelFetcher
      → AnchoredTransaction
      → JurisdictionVault × Option Error
      → SovereignRouter × Option Error
  after_fetch r f a (v, some e) = (
    with_fetched r f f.vault v,
    some (lit "CRITICAL FAULT: execution stalled, payload unrecoverable: " ++ e),
  )
  after_fetch r f a (v, none) =
      let r' = with_fetched r f f.vault v in
      execute r' a (payload_or_nil (retrieve_and_verify sha256 r'.vault a.tx_id a.payload_hash))

  unfoldable pub recover :
      SovereignRouter
      → AnchoredTransaction
      → Error
      → Option SideChannelFetcher
      → SovereignRouter × Option Error
  recover r a e none = (r, some (lit "execution stalled: " ++ e))
  recover r a e (some f) =
      if contains e missing_tag
      then after_fetch r f a
          (fetch_and_store sha256 f.network (vault_of f.vault r.vault) a.tx_id a.payload_hash)
      else (r, some (lit "execution stalled: " ++ e))

  unfoldable pub execute_or_recover :
      SovereignRouter → AnchoredTransaction → Result Error Bytes → SovereignRouter × Option Error
  execute_or_recover r a (ok payload) = execute r a payload
  execute_or_recover r a (err e) = recover r a e r.fetcher

  unfoldable pub apply : SovereignRouter → AnchoredTransaction → SovereignRouter × Option Error
  apply router a =
      let r = record router {
        global_state = GoMap.put router.global_state a.tx_id a.payload_hash;
      } in
      if str_eq a.jurisdiction_code r.vault.node_jurisdiction
      then execute_or_recover r a (retrieve_and_verify sha256 r.vault a.tx_id a.payload_hash)
      else (r, none)
