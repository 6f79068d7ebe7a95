-- ===== src/P2p/Requests.antt =====
-- p2p.go: sequences of HTTP requests, and what they leave in the node's channels.
use node_decent_system.Prelude.{
  ◌+◌, ◌≡◌, ◌↔◌, refl, sym, ap, ◌∙◌, Bool-cases, Option, none, some, Option-cases, inl, inr, List,
  [], ◌∷◌, ◌++◌, arith, if◌then◌else◌, length, length-append, Bytes,
}
use mathlib.Core.List.{append-nil, append_assoc}
use node_decent_system.Chan.Line.{contents, IsLine, contents-send, send-IsLine}
use node_decent_system.P2p.{
  LibP2p, P2pNode, Request, Response, handle_tx, take_tx, refuses, accepts,
}

module _ (lib : LibP2p) {Tx : Type 0} (decode : Bytes → Option Tx) where
  -- The requests in the order of their arrival, and the answers to them.
  unfoldable pub handle_txs : P2pNode lib Tx → List Request → P2pNode lib Tx × List Response
  handle_txs p [] = (p, [])
  handle_txs p (r ∷ rs) =
      let (p', a) = handle_tx lib decode p r in let (p'', as') = handle_txs p' rs in (p'', a ∷ as')

  -- The transaction that a request brings: the decoded body of a POST.
  abbrev of_option : Option Tx → List Tx
  of_option none = []
  of_option (some tx) = tx ∷ []

  abbrev pub brings : Request → List Tx
  brings r = if r.is_post then of_option (decode r.body) else []

  abbrev pub all_brought : List Request → List Tx
  all_brought [] = []
  all_brought (r ∷ rs) = brings r ++ all_brought rs

  -- Each answer is 202 exactly for a request that brings a transaction.
  abbrev pub Answered : List Request → List Response → Type 0
  Answered [] [] = Unit
  Answered (r ∷ rs) (a ∷ as') = ((a.status ≡ 202) ↔ (length (brings r) ≡ 1)) × Answered rs as'
  Answered _ _ = ⊥

  handle_tx_one :
      (p : P2pNode lib Tx) (r : Request)
      → IsLine p.tx_chan
      → let (p', a) = handle_tx lib decode p r in
        (contents p'.tx_chan ≡ contents p.tx_chan ++ brings r)
        × IsLine p'.tx_chan
        × (p'.tx_processed ≡ p.tx_processed + length (brings r))
        × (p'.block_chan ≡ p.block_chan)
        × ((a.status ≡ 202) ↔ (length (brings r) ≡ 1))
  unfolding handle_tx take_tx refuses accepts
  handle_tx_one p r h = elim (Bool-cases r.is_post) [
    | inr other ↦ rw other (
      sym (append-nil (contents p.tx_chan)),
      h,
      omega arith,
      refl,
      (λ e. ground arith, λ e. ground arith),
    )
    | inl post ↦ elim (Option-cases (decode r.body)) [
      | inl bad ↦
          rw (post, bad, take_tx)
            (
              sym (append-nil (contents p.tx_chan)),
              h,
              omega arith,
              refl,
              (λ e. ground arith, λ e. ground arith),
            )
      | inr (tx, good) ↦
          rw (post, good, take_tx)
            (
              contents-send p.tx_chan tx h,
              send-IsLine p.tx_chan tx h,
              refl,
              refl,
              (λ e. refl, λ e. refl),
            )
    ]
  ]

  -- Whatever requests arrive: the transactions of the accepted ones stand in line in the order of
  -- their arrival, each once, behind those that were there; each is counted; the others leave no
  -- trace, and are the ones that are answered by another status than 202.
  pub handle_txs-contents :
      (p : P2pNode lib Tx) (rs : List Request)
      → IsLine p.tx_chan
      → let (p', answers) = handle_txs p rs in
        (contents p'.tx_chan ≡ contents p.tx_chan ++ all_brought rs)
        × IsLine p'.tx_chan
        × (p'.tx_processed ≡ p.tx_processed + length (all_brought rs))
        × (p'.block_chan ≡ p.block_chan)
        × Answered rs answers
  unfolding handle_txs
  handle_txs-contents p [] h = (sym (append-nil (contents p.tx_chan)), h, omega arith, refl, tt)
  handle_txs-contents p (r ∷ rs) h =
      let one = handle_tx_one p r h in
      let rest = handle_txs-contents (handle_tx lib decode p r).0 rs one.1 in
      (
        rest.0
            ∙ ap (λ c. c ++ all_brought rs) one.0
            ∙ append_assoc (contents p.tx_chan) (brings r) (all_brought rs),
        rest.1,
        omega (arith, rest.2, one.2, length-append (brings r) (all_brought rs)),
        rest.3 ∙ one.3,
        (one.4, rest.4),
      )
