-- ===== src/Node/Loop.antt =====
-- runtime.go: `eventLoop`, with the chain that it applies blocks to and the channels that the
-- network fills. Logging is left out.
pub mod Transactions
pub mod Blocks
pub mod Progress
use node_decent_system.Prelude.{
  ℕ, zero, suc, ◌+◌, ◌≡◌, refl, Bool, true, false, Option, none, some, List, [], ◌∷◌, ◌++◌, Result,
  ok, err, Bytes, Error, lit, length,
}
use node_decent_system.Interfaces.{Storage}
use node_decent_system.Block.{Block}
use node_decent_system.Chan.Line.{Line, send, recv}
use node_decent_system.Consensus.Pow.{mine_block}
use node_decent_system.Chain.{ChainState}
use node_decent_system.Chain

-- The node while its loop runs. `broadcast` has the blocks that were handed to `BroadcastBlock`, in
-- order; `mined` and `failed` are the two counters of the metrics.
pub record Node (Store Tx : Type 0) : Type 0 where
  pub chain : ChainState Store
  pub tx_chan : Line Tx
  pub block_chan : Line (Block Tx)
  pub pending : List Tx
  pub broadcast : List (Block Tx)
  pub mined : ℕ
  pub failed : ℕ

-- What the loop waits for. A tick brings the time, the fuel of the mining loop, and in which of its
-- rounds the context is done.
pub data Event : Type 0 where
  context_done tx_ready block_ready : Event
  tick : Bytes → ℕ → (ℕ → Option Error) → Event

unfoldable pub zero_hash : Bytes
zero_hash = lit "0000000000000000000000000000000000000000000000000000000000000000"

-- The block that a tick mines: its index is always 1.
abbrev pub block_of : {Tx : Type 0} → Bytes → List Tx → Block Tx
block_of now pending = record {
  index = 1;
  timestamp = now;
  transactions = pending;
  prev_hash = zero_hash;
  hash = [];
  nonce = 0;
}

-- `marshal` gives nil for a block that JSON cannot write.
abbrev pub bytes_or_nil : Option Bytes → Bytes
bytes_or_nil none = []
bytes_or_nil (some d) = d

module _ {Store Tx : Type 0} where
  unfoldable pub take_tx : Node Store Tx → Option (Tx × Line Tx) → Node Store Tx
  take_tx n none = n
  take_tx n (some (tx, rest)) = record n { tx_chan = rest; pending = n.pending ++ tx ∷ [] }

module _ (S : Storage) (sha256 : Bytes → Bytes) {Tx : Type 0} (marshal : Block Tx → Option Bytes)
    (unmarshal : Bytes → Result Error (Block Tx)) (difficulty : ℕ) where
  -- The chain after a block; the result of `Apply` is only logged.
  unfoldable pub applied : ChainState S.Store → Block Tx → ChainState S.Store
  applied chain b = (Chain.apply S sha256 unmarshal chain (bytes_or_nil (marshal b))).0

  unfoldable pub take_block :
      Node S.Store Tx → Option (Block Tx × Line (Block Tx)) → Node S.Store Tx
  take_block n none = n
  take_block n (some (b, rest)) = record n { block_chan = rest; chain = applied n.chain b }

  -- After the mining loop has returned.
  unfoldable pub after_mining : Node S.Store Tx → Block Tx × Option Error → Node S.Store Tx
  after_mining n (b, some e) = record n { failed = n.failed + 1 }
  after_mining n (b, none) = record n {
    chain = applied n.chain b;
    broadcast = n.broadcast ++ b ∷ [];
    mined = n.mined + 1;
    pending = [];
  }

  unfoldable pub returned :
      Node S.Store Tx → Option (Block Tx × Option Error) → Option (Node S.Store Tx)
  unfolding after_mining
  returned n none = none
  returned n (some r) = some (after_mining n r)

  -- The ticker's case: nothing to do without pending transactions.
  unfoldable pub mine_pending :
      Bytes → ℕ → (ℕ → Option Error) → Node S.Store Tx → List Tx → Option (Node S.Store Tx)
  unfolding returned
  mine_pending now fuel done n [] = some n
  mine_pending now fuel done n (tx ∷ txs) =
      returned n (mine_block sha256 fuel difficulty done (block_of now (tx ∷ txs)))

  unfoldable pub goes_on : Option (Node S.Store Tx) → Option (Bool × Node S.Store Tx)
  goes_on none = none
  goes_on (some n) = some (true, n)

  -- One turn of the loop: whether it goes on, and the node; `none` if the mining loop runs out of
  -- its fuel. A ready channel that is empty changes nothing.
  unfoldable pub turn : Event → Node S.Store Tx → Option (Bool × Node S.Store Tx)
  unfolding take_tx take_block mine_pending goes_on
  turn context_done n = some (false, n)
  turn tx_ready n = some (true, take_tx n (recv n.tx_chan))
  turn block_ready n = some (true, take_block n (recv n.block_chan))
  turn (tick now fuel done) n = goes_on (mine_pending now fuel done n n.pending)

-- What happens at a node: turns of its loop, and arrivals from the network.
pub data Step (Tx : Type 0) : Type 0 where
  turns : Event → Step Tx
  tx_arrives : Tx → Step Tx
  block_arrives : Block Tx → Step Tx

module _ (S : Storage) (sha256 : Bytes → Bytes) {Tx : Type 0} (marshal : Block Tx → Option Bytes)
    (unmarshal : Bytes → Result Error (Block Tx)) (difficulty : ℕ) where
  unfoldable pub follow :
      Option (Bool × Node S.Store Tx)
      → (Bool → Node S.Store Tx → Option (Node S.Store Tx))
      → Option (Node S.Store Tx)
  follow none k = none
  follow (some (going, n)) k = k going n

  -- The steps in order; a loop that has returned makes no more turns.
  unfoldable pub run : List (Step Tx) → Bool → Node S.Store Tx → Option (Node S.Store Tx)
  unfolding follow
  run [] going n = some n
  run (tx_arrives tx ∷ ss) going n = run ss going (record n { tx_chan = send n.tx_chan tx })
  run (block_arrives b ∷ ss) going n = run ss going (record n { block_chan = send n.block_chan b })
  run (turns e ∷ ss) false n = run ss false n
  run (turns e ∷ ss) true n =
      follow (turn S sha256 marshal unmarshal difficulty e n) (λ going n'. run ss going n')
