-- ===== src/Chain.antt =====
-- applications/sovereign-chain/state.go: the chain of applied blocks.
pub mod Roots
use node_decent_system.Prelude.{
  ℕ, ◌≡◌, refl, Option, none, some, List, [], ◌∷◌, ◌++◌, Result, ok, err, Bytes, Error, lit,
  decimal, hex,
}
use node_decent_system.Interfaces.{Storage}
use node_decent_system.Block.{Block}

pub record ChainState (Store : Type 0) : Type 0 where
  pub storage : Store
  pub state_root : Bytes

unfoldable pub new_chain_state : {Store : Type 0} → Store → ChainState Store
new_chain_state store = record { storage = store; state_root = lit "genesis_root" }

unfoldable pub block_key : ℕ → Bytes
block_key index = lit "state_block_" ++ decimal index

module _ (S : Storage) (sha256 : Bytes → Bytes) {Tx : Type 0}
    (unmarshal : Bytes → Result Error (Block Tx)) where
  -- After the write: its error leaves the root, otherwise the block's hash enters it.
  advance_root :
      ChainState S.Store
      → Block Tx
      → S.Store × Option Error
      → ChainState S.Store × Result Error Bytes
  advance_root cs b (storage', some e) =
      (record cs { storage = storage' }, err (lit "state persistence error: " ++ e))
  advance_root cs b (storage', none) =
      let root = hex (sha256 (cs.state_root ++ b.hash)) in
      (record { storage = storage'; state_root = root }, ok root)

  unfoldable pub apply_block :
      ChainState S.Store → Bytes → Block Tx → ChainState S.Store × Result Error Bytes
  unfolding advance_root
  apply_block cs commit_log b = advance_root cs b (S.put cs.storage (block_key b.index) commit_log)

  unfoldable pub apply : ChainState S.Store → Bytes → ChainState S.Store × Result Error Bytes
  apply cs commit_log = elim (unmarshal commit_log) [
    | err e ↦ (cs, err (lit "state machine failed to unmarshal commit: " ++ e))
    | ok b ↦ apply_block cs commit_log b
  ]
