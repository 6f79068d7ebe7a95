-- ===== src/Node/Loop/Transactions.antt =====
-- runtime.go: the way of the transactions through a node.
use node_decent_system.Prelude.{
  ℕ, ◌≡◌, refl, sym, ap, subst, ◌∙◌, Bool, true, false, Option, none, some, Option-cases, inl, inr,
  List, [], ◌∷◌, ◌++◌, arith, pair_injective, some_injective, none-ne-some, Result, Bytes, Error,
}
use mathlib.Core.List.{append-nil, append_assoc}
use node_decent_system.Interfaces.{Storage}
use node_decent_system.Block.{Block}
use node_decent_system.Chan.Line.{
  Line, send, recv, contents, IsLine, recv-cases, contents-send, send-IsLine,
}
use node_decent_system.Consensus.Pow.{mine_block, mine_block_sound}
use node_decent_system.Node.Loop.{
  Node, Event, context_done, tx_ready, block_ready, tick, Step, turns, tx_arrives, block_arrives,
  block_of, turn, take_tx, take_block, mine_pending, returned, after_mining, goes_on, run, follow,
}

-- The transactions of a list of blocks.
abbrev pub block_txs : {Tx : Type 0} → List (Block Tx) → List Tx
block_txs [] = []
block_txs (b ∷ bs) = b.transactions ++ block_txs bs

block_txs-append :
    {Tx : Type 0} (bs cs : List (Block Tx)) → block_txs (bs ++ cs) ≡ block_txs bs ++ block_txs cs
block_txs-append [] cs = refl
block_txs-append (b ∷ bs) cs =
    ap (◌++◌ b.transactions) (block_txs-append bs cs)
    ∙ sym (append_assoc b.transactions (block_txs bs) (block_txs cs))

-- All transactions of a node: those in its blocks, those that are pending, those in its channel.
abbrev pub all_txs : {Store Tx : Type 0} → Node Store Tx → List Tx
all_txs n = block_txs n.broadcast ++ (n.pending ++ contents n.tx_chan)

-- The transactions that arrive.
abbrev pub arrivals : {Tx : Type 0} → List (Step Tx) → List Tx
arrivals [] = []
arrivals (tx_arrives tx ∷ ss) = tx ∷ arrivals ss
arrivals (block_arrives b ∷ ss) = arrivals ss
arrivals (turns e ∷ ss) = arrivals ss

module _ {Store Tx : Type 0} where
  -- A transaction that is sent stands behind all others.
  arrived :
      (n : Node Store Tx) (tx : Tx) (more : List Tx)
      → IsLine n.tx_chan
      → all_txs (record n { tx_chan = send n.tx_chan tx }) ++ more ≡ all_txs n ++ (tx ∷ more)
  arrived n tx more h = rw (contents-send n.tx_chan tx h) (simp (append_assoc))

  -- One node has the transactions of another, and a channel in order.
  abbrev Keeps : Node Store Tx → Node Store Tx → Type 0
  Keeps n n' = (all_txs n' ≡ all_txs n) × IsLine n'.tx_chan

  take_tx-Keeps : (n : Node Store Tx) → IsLine n.tx_chan → Keeps n (take_tx n (recv n.tx_chan))
  unfolding take_tx
  take_tx-Keeps n h = elim (recv-cases n.tx_chan h) [
    | inl (e, r) ↦ rw (r, take_tx) (refl, h)
    | inr (tx, rest, r, c) ↦
        rw (r, take_tx)
          (
            ap (◌++◌ (block_txs n.broadcast))
                (append_assoc n.pending (tx ∷ []) (contents rest) ∙ ap (◌++◌ n.pending) (sym c.0)),
            c.1,
          )
  ]

module _ (S : Storage) (sha256 : Bytes → Bytes) {Tx : Type 0} (marshal : Block Tx → Option Bytes)
    (unmarshal : Bytes → Result Error (Block Tx)) (difficulty : ℕ) where
  take_block-Keeps :
      (n : Node S.Store Tx) (o : Option (Block Tx × Line (Block Tx)))
      → IsLine n.tx_chan
      → Keeps n (take_block S sha256 marshal unmarshal difficulty n o)
  unfolding take_block
  take_block-Keeps n none h = (refl, h)
  take_block-Keeps n (some (b, rest)) h = (refl, h)

  after_mining-Keeps :
      (n : Node S.Store Tx) (b : Block Tx) (e : Option Error)
      → (e ≡ none → b.transactions ≡ n.pending)
      → IsLine n.tx_chan
      → Keeps n (after_mining S sha256 marshal unmarshal difficulty n (b, e))
  unfolding after_mining
  after_mining-Keeps n b (some e) t h = (refl, h)
  after_mining-Keeps n b none t h = (
    rw (block_txs-append n.broadcast (b ∷ []), t refl, append-nil n.pending)
        (append_assoc (block_txs n.broadcast) n.pending (contents n.tx_chan)),
    h,
  )

  returned-Keeps :
      (n n' : Node S.Store Tx) (o : Option (Block Tx × Option Error))
      → ((b : Block Tx) → o ≡ some (b, none) → b.transactions ≡ n.pending)
      → IsLine n.tx_chan
      → returned S sha256 marshal unmarshal difficulty n o ≡ some n'
      → Keeps n n'
  unfolding returned
  returned-Keeps n n' none t h r = absurd (ground arith)
  returned-Keeps n n' (some (b, e)) t h r =
      subst (Keeps n) (some_injective r)
        (after_mining-Keeps n b e (λ ok_mined. t b (ap (λ x. some (b, x)) ok_mined)) h)

  mine_pending-Keeps :
      (now : Bytes) (fuel : ℕ) (done : ℕ → Option Error) (n n' : Node S.Store Tx) (txs : List Tx)
      → n.pending ≡ txs
      → IsLine n.tx_chan
      → mine_pending S sha256 marshal unmarshal difficulty now fuel done n txs ≡ some n'
      → Keeps n n'
  unfolding mine_pending
  mine_pending-Keeps now fuel done n n' [] p h r = subst (Keeps n) (some_injective r) (refl, h)
  mine_pending-Keeps now fuel done n n' (tx ∷ txs) p h r =
      returned-Keeps n n' (mine_block sha256 fuel difficulty done (block_of now (tx ∷ txs)))
        (λ b m.
          (mine_block_sound sha256 fuel difficulty done (block_of now (tx ∷ txs)) b m).4 ∙ sym p)
        h r

  turn-Keeps :
      (e : Event) (n n' : Node S.Store Tx) (going : Bool)
      → IsLine n.tx_chan
      → turn S sha256 marshal unmarshal difficulty e n ≡ some (going, n')
      → Keeps n n'
  unfolding turn goes_on
  turn-Keeps context_done n n' going h r = subst (Keeps n) (pair_injective r).1 (refl, h)
  turn-Keeps tx_ready n n' going h r = subst (Keeps n) (pair_injective r).1 (take_tx-Keeps n h)
  turn-Keeps block_ready n n' going h r =
      subst (Keeps n) (pair_injective r).1 (take_block-Keeps n (recv n.block_chan) h)
  turn-Keeps (tick now fuel done) n n' going h r =
      elim (Option-cases
        (mine_pending S sha256 marshal unmarshal difficulty now fuel done n n.pending)) [
          | inl e ↦ absurd (ground arith)
          | inr (m, e) ↦
              subst (Keeps n)
                (pair_injective (sym (ap (goes_on S sha256 marshal unmarshal difficulty) e) ∙ r)).1
                (mine_pending-Keeps now fuel done n m n.pending refl h e)
        ]

  -- No transaction is lost, made up, doubled or moved: after any steps, the transactions in the
  -- blocks that the node has broadcast, those pending and those in the channel are, in this order,
  -- the ones that were there before and those that have arrived since. Mining that fails, remote
  -- blocks and a loop that has ended change nothing of this.
  pub run-all_txs :
      (ss : List (Step Tx)) (going : Bool) (n n' : Node S.Store Tx)
      → IsLine n.tx_chan
      → run S sha256 marshal unmarshal difficulty ss going n ≡ some n'
      → (all_txs n' ≡ all_txs n ++ arrivals ss) × IsLine n'.tx_chan
  unfolding run follow
  run-all_txs [] going n n' h r =
      subst (λ m. (all_txs m ≡ all_txs n ++ []) × IsLine m.tx_chan) (some_injective r)
        (sym (append-nil (all_txs n)), h)
  run-all_txs (tx_arrives tx ∷ ss) going n n' h r =
      let rest =
        run-all_txs ss going (record n { tx_chan = send n.tx_chan tx }) n'
          (send-IsLine n.tx_chan tx h) r in
      (rest.0 ∙ arrived n tx (arrivals ss) h, rest.1)
  run-all_txs (block_arrives b ∷ ss) going n n' h r =
      run-all_txs ss going (record n { block_chan = send n.block_chan b }) n' h r
  run-all_txs (turns e ∷ ss) false n n' h r = run-all_txs ss false n n' h r
  run-all_txs (turns e ∷ ss) true n n' h r =
      elim (Option-cases (turn S sha256 marshal unmarshal difficulty e n)) [
        | inl t ↦ absurd (
            none-ne-some (
              sym (
                ap
                  (λ o.
                    follow S sha256 marshal unmarshal difficulty o
                      (λ going m. run S sha256 marshal unmarshal difficulty ss going m))
                  t)
              ∙ r))
        | inr ((going, m), t) ↦
            let kept = turn-Keeps e n m going h t in
            let rest = run-all_txs ss going m n' kept.1 (
              sym (
                ap
                  (λ o.
                    follow S sha256 marshal unmarshal difficulty o
                      (λ going m. run S sha256 marshal unmarshal difficulty ss going m))
                  t)
              ∙ r) in
            (rest.0 ∙ ap (λ xs. xs ++ arrivals ss) kept.0, rest.1)
      ]
