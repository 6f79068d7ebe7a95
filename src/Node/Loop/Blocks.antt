-- ===== src/Node/Loop/Blocks.antt =====
-- runtime.go: the blocks that a node mines or receives, and its chain.
use node_decent_system.Prelude.{
  ℕ, ◌+◌, ◌≤◌, ◌<◌, ◌≡◌, ◌≢◌, refl, sym, ap, subst, ◌∙◌, true, Option, none, some, List, [], ◌∷◌,
  ◌++◌, pair_injective, Result, ok, Bytes, Error, hex, has_prefix,
}
use node_decent_system.Interfaces.{Storage, StorageLaws}
use node_decent_system.Block.{Block, calculate_hash}
use node_decent_system.Chan.Line.{Line, recv}
use node_decent_system.Consensus.Pow.{
  mine_block, mine_block_sound, mine_block-finds, zeros, Solves, at_round,
}
use node_decent_system.Chain.{ChainState, block_key}
use node_decent_system.Chain
use node_decent_system.Chain.Roots.{apply_lem, get-apply_other}
use node_decent_system.Node.Loop.{
  Node, tick, block_ready, block_of, bytes_or_nil, turn, applied, take_block, mine_pending,
  returned, after_mining, goes_on,
}

-- What JSON keeps of a block: at least its index and its hash. (The text of its time changes: it
-- loses the monotonic clock.)
abbrev pub Travels :
    {Tx : Type 0}
    → (Block Tx → Option Bytes)
    → (Bytes → Result Error (Block Tx))
    → Block Tx
    → Type 0
Travels {Tx} marshal unmarshal b =
    (b' : Block Tx) × (unmarshal (bytes_or_nil (marshal b)) ≡ ok b')
    × (b'.index ≡ b.index)
    × (b'.hash ≡ b.hash)

-- A storage whose writes succeed.
abbrev pub TakesAll : Storage → Type 0
TakesAll S = (s : S.Store) (k v : Bytes) → (S.put s k v).1 ≡ none

module _ (S : Storage) (laws : StorageLaws S) (sha256 : Bytes → Bytes) {Tx : Type 0}
    (marshal : Block Tx → Option Bytes) (unmarshal : Bytes → Result Error (Block Tx))
    (difficulty : ℕ) where
  -- The mining loop of a tick finds the block.
  abbrev pub Mines : Bytes → ℕ → (ℕ → Option Error) → Node S.Store Tx → Block Tx → Type 0
  Mines now fuel done n b =
      mine_block sha256 fuel difficulty done (block_of now n.pending) ≡ some (b, none)

  pub applied_lem :
      (chain : ChainState S.Store) (b : Block Tx)
      → TakesAll S
      → Travels marshal unmarshal b
      → let chain' = applied S sha256 marshal unmarshal difficulty chain b in
        (chain'.state_root ≡ hex (sha256 (chain.state_root ++ b.hash)))
        × (S.get chain'.storage (block_key b.index) ≡ ok (bytes_or_nil (marshal b)))
        × ((k : Bytes) → k ≢ block_key b.index → S.get chain'.storage k ≡ S.get chain.storage k)
  unfolding applied
  applied_lem chain b takes (b', decoded, same_index, same_hash) =
      let log = bytes_or_nil (marshal b) in
      let now = apply_lem S laws sha256 unmarshal chain log b' decoded (takes _ _ _) in
      (
        now.1 ∙ ap (λ h. hex (sha256 (chain.state_root ++ h))) same_hash,
        subst
            (λ i. S.get (Chain.apply S sha256 unmarshal chain log).0.storage (block_key i) ≡ ok log)
            same_index now.2,
        λ k other.
            get-apply_other S laws sha256 unmarshal chain log b' k decoded (takes _ _ _)
              (λ e. other (e ∙ ap block_key same_index)),
      )

  -- A tick with something pending whose mining succeeds.
  pub tick_mined :
      (now : Bytes) (fuel : ℕ) (done : ℕ → Option Error) (n : Node S.Store Tx) (b : Block Tx)
      → n.pending ≢ []
      → Mines now fuel done n b
      → turn S sha256 marshal unmarshal difficulty (tick now fuel done) n
        ≡ some (true, after_mining S sha256 marshal unmarshal difficulty n (b, none))
  unfolding turn goes_on
  tick_mined now fuel done n b some_pending m =
      ap (goes_on S sha256 marshal unmarshal difficulty) (cases n.pending some_pending m)
    where
      cases :
          (txs : List Tx)
          → txs ≢ []
          → mine_block sha256 fuel difficulty done (block_of now txs) ≡ some (b, none)
          → mine_pending S sha256 marshal unmarshal difficulty now fuel done n txs
            ≡ some (after_mining S sha256 marshal unmarshal difficulty n (b, none))
      cases [] p m = absurd (p refl)
      cases (tx ∷ txs) p m =
          unfold mine_pending returned in ap (returned S sha256 marshal unmarshal difficulty n) m

  -- Pending transactions get into a block: if the context stays open and some round of the mining,
  -- within the fuel, is the first to give a hash with the leading zeros, the tick broadcasts one
  -- block, which has just the pending transactions and such a hash; then none are pending, and the
  -- loop goes on.
  pub tick-mines :
      (now : Bytes) (k fuel : ℕ) (done : ℕ → Option Error) (n : Node S.Store Tx)
      → n.pending ≢ []
      → k < fuel
      → ((i : ℕ) → i ≤ k → done i ≡ none)
      → ((i : ℕ) → i < k → ¬ Solves sha256 difficulty (block_of now n.pending) i)
      → Solves sha256 difficulty (block_of now n.pending) k
      → (n' : Node S.Store Tx) × (b : Block Tx) × (turn S sha256 marshal unmarshal difficulty
            (tick now fuel done)
            n
          ≡ some (true, n'))
        × (n'.broadcast ≡ n.broadcast ++ b ∷ [])
        × (b.transactions ≡ n.pending)
        × (has_prefix b.hash (zeros difficulty) ≡ true)
        × (n'.pending ≡ [])
        × (n'.mined ≡ n.mined + 1)
  unfolding after_mining
  tick-mines now k fuel done n some_pending enough stays early hit =
      let b = record (at_round sha256 (block_of now n.pending) k) {
        hash = calculate_hash sha256 (at_round sha256 (block_of now n.pending) k);
      } in
      let found =
        mine_block-finds sha256 k fuel difficulty done (block_of now n.pending) enough stays early
          hit in
      (
        after_mining S sha256 marshal unmarshal difficulty n (b, none),
        b,
        tick_mined now fuel done n b some_pending found,
        refl,
        refl,
        hit,
        refl,
        refl,
      )

  -- The chain after such a tick has the block, whose index is 1.
  pub tick-chain :
      (now : Bytes) (fuel : ℕ) (done : ℕ → Option Error) (n n' : Node S.Store Tx) (b : Block Tx)
      → n.pending ≢ []
      → Mines now fuel done n b
      → turn S sha256 marshal unmarshal difficulty (tick now fuel done) n ≡ some (true, n')
      → (n'.chain ≡ applied S sha256 marshal unmarshal difficulty n.chain b) × (b.index ≡ 1)
  unfolding after_mining
  tick-chain now fuel done n n' b some_pending m turned =
      let same = (pair_injective (sym (tick_mined now fuel done n b some_pending m) ∙ turned)).1 in
      (
        ap (λ x. x.chain) (sym same),
        (mine_block_sound sha256 fuel difficulty done (block_of now n.pending) b m).2,
      )

  -- The chain of a node that receives a block.
  pub block_ready-chain :
      (n n' : Node S.Store Tx) (b : Block Tx) (rest : Line (Block Tx))
      → recv n.block_chan ≡ some (b, rest)
      → turn S sha256 marshal unmarshal difficulty block_ready n ≡ some (true, n')
      → n'.chain ≡ applied S sha256 marshal unmarshal difficulty n.chain b
  unfolding turn take_block
  block_ready-chain n n' b rest got turned =
      ap (λ x. x.chain) (sym (pair_injective turned).1)
      ∙ ap (λ o. (take_block S sha256 marshal unmarshal difficulty n o).chain) got

  -- What such a tick does to the storage.
  tick_storage :
      (now : Bytes) (fuel : ℕ) (done : ℕ → Option Error) (n n' : Node S.Store Tx) (b : Block Tx)
      → TakesAll S
      → n.pending ≢ []
      → Mines now fuel done n b
      → Travels marshal unmarshal b
      → turn S sha256 marshal unmarshal difficulty (tick now fuel done) n ≡ some (true, n')
      → (S.get n'.chain.storage (block_key 1) ≡ ok (bytes_or_nil (marshal b)))
        × ((k : Bytes) → k ≢ block_key 1 → S.get n'.chain.storage k ≡ S.get n.chain.storage k)
  tick_storage now fuel done n n' b takes some_pending m travels turned =
      let at = tick-chain now fuel done n n' b some_pending m turned in
      let now_has = applied_lem n.chain b takes travels in
      subst
        (λ chain.
          (S.get chain.storage (block_key 1) ≡ ok (bytes_or_nil (marshal b)))
          × ((k : Bytes) → k ≢ block_key 1 → S.get chain.storage k ≡ S.get n.chain.storage k))
        (sym at.0)
        (
          subst
              (λ i.
                S.get (applied S sha256 marshal unmarshal difficulty n.chain b).storage
                  (block_key i)
                ≡ ok (bytes_or_nil (marshal b)))
              at.1 now_has.1,
          λ k other. now_has.2 k (λ e. other (e ∙ ap block_key at.1)),
        )

  -- A node keeps only its last block: every block that it mines has the index 1, so that the second
  -- of two takes the place of the first in the storage, and nothing else there has changed.
  pub second_block_overwrites :
      (now now' : Bytes) (fuel fuel' : ℕ) (done done' : ℕ → Option Error)
      (n n' m m' : Node S.Store Tx) (b c : Block Tx)
      → TakesAll S
      → n.pending ≢ []
      → Mines now fuel done n b
      → Travels marshal unmarshal b
      → turn S sha256 marshal unmarshal difficulty (tick now fuel done) n ≡ some (true, n')
      → m.chain ≡ n'.chain
      → m.pending ≢ []
      → Mines now' fuel' done' m c
      → Travels marshal unmarshal c
      → turn S sha256 marshal unmarshal difficulty (tick now' fuel' done') m ≡ some (true, m')
      → (S.get m'.chain.storage (block_key 1) ≡ ok (bytes_or_nil (marshal c)))
        × ((k : Bytes) → k ≢ block_key 1 → S.get m'.chain.storage k ≡ S.get n.chain.storage k)
  second_block_overwrites now now' fuel fuel' done done' n n' m m' b c takes pn mb tb turned same pm
        mc tc turned' =
      let first = tick_storage now fuel done n n' b takes pn mb tb turned in
      let second = tick_storage now' fuel' done' m m' c takes pm mc tc turned' in
      (second.0, λ k other. second.1 k other ∙ ap (λ x. S.get x.storage k) same ∙ first.1 k other)

module _ (S T : Storage) (laws : StorageLaws S) (laws' : StorageLaws T) (sha256 : Bytes → Bytes)
    {Tx : Type 0} (marshal : Block Tx → Option Bytes) (unmarshal : Bytes → Result Error (Block Tx))
    (difficulty difficulty' : ℕ) where
  -- A block that one node mines and another receives brings both, from one state root, to one state
  -- root again, if the storages of both take all writes, and the block is encoded and read back on
  -- either side and reaches the receiver with its hash. The two may have different storages.
  pub block_converges :
      (now : Bytes) (fuel : ℕ) (done : ℕ → Option Error) (n n' : Node S.Store Tx)
      (r r' : Node T.Store Tx) (b c : Block Tx) (rest : Line (Block Tx))
      → TakesAll S
      → TakesAll T
      → n.chain.state_root ≡ r.chain.state_root
      → n.pending ≢ []
      → Mines S laws sha256 marshal unmarshal difficulty now fuel done n b
      → Travels marshal unmarshal b
      → turn S sha256 marshal unmarshal difficulty (tick now fuel done) n ≡ some (true, n')
      → recv r.block_chan ≡ some (c, rest)
      → c.hash ≡ b.hash
      → Travels marshal unmarshal c
      → turn T sha256 marshal unmarshal difficulty' block_ready r ≡ some (true, r')
      → n'.chain.state_root ≡ r'.chain.state_root
  block_converges now fuel done n n' r r' b c rest takes takes' same pn mb tb turned got same_hash
        tc turned' =
      let mined =
        tick-chain S laws sha256 marshal unmarshal difficulty now fuel done n n' b pn mb turned in
      let heard =
        block_ready-chain T laws' sha256 marshal unmarshal difficulty' r r' c rest got turned' in
      ap (λ x. x.state_root) mined.0
      ∙ (applied_lem S laws sha256 marshal unmarshal difficulty n.chain b takes tb).0
      ∙ ap (λ x. hex (sha256 (x ++ b.hash))) same
      ∙ ap (λ x. hex (sha256 (r.chain.state_root ++ x))) (sym same_hash)
      ∙ sym (applied_lem T laws' sha256 marshal unmarshal difficulty' r.chain c takes' tc).0
      ∙ ap (λ x. x.state_root) (sym heard)
