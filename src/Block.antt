-- ===== src/Block.antt =====
-- core/types/types.go: blocks and their hash.
use node_decent_system.Prelude.{ℕ, List, ◌++◌, Bytes, decimal, hex}

-- A block over a type of transactions, whose fields (among them a float) no code reads. The
-- timestamp is the text that `Timestamp.String()` gives.
pub record Block (Tx : Type 0) : Type 0 where
  pub index : ℕ
  pub timestamp : Bytes
  pub transactions : List Tx
  pub prev_hash : Bytes
  pub hash : Bytes
  pub nonce : ℕ

module _ (sha256 : Bytes → Bytes) {Tx : Type 0} where
  unfoldable pub calculate_hash : Block Tx → Bytes
  calculate_hash b =
      hex (sha256 (decimal b.index ++ (b.timestamp ++ (b.prev_hash ++ decimal b.nonce))))
