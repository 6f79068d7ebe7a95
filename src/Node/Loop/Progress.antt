-- ===== src/Node/Loop/Progress.antt =====
-- runtime.go with p2p.go: senders that wait for room in the transaction channel.
use node_decent_system.Prelude.{
  ℕ, zero, suc, ◌-◌, ◌≡◌, refl, sym, ap, ◌∙◌, true, inl, inr, some, List, [], ◌∷◌, ◌++◌, arith,
  length, length-append, take, drop, Result, Option, Bytes, Error,
}
use mathlib.Core.List.{append-nil, append_assoc}
use node_decent_system.Interfaces.{Storage}
use node_decent_system.Block.{Block}
use node_decent_system.Chan.Line.{Line, contents, IsLine, recv-cases}
use node_decent_system.Node.Loop.{Node, Step, turns, tx_ready, turn, take_tx, run, follow}

-- `n` turns of the loop that take a transaction.
abbrev pub tx_turns : {Tx : Type 0} → ℕ → List (Step Tx)
tx_turns zero = []
tx_turns (suc n) = turns tx_ready ∷ tx_turns n

drop-nil : {A : Type 0} (n : ℕ) → drop {A = A} n [] ≡ []
drop-nil zero = refl
drop-nil (suc n) = refl

take-nil : {A : Type 0} (n : ℕ) → take {A = A} n [] ≡ []
take-nil zero = refl
take-nil (suc n) = refl

no_waiting : {A : Type 0} (l : Line A) → contents l ≡ [] → length l.waiting ≡ 0
unfolding contents
no_waiting l e = omega (arith, length-append l.chan.items l.waiting, ap length e)

-- What `n` turns have done to a node: they have moved the first `n` transactions of its channel
-- behind the pending ones, and have let that many waiting senders go on.
pub record Moved {Store Tx : Type 0} (n : ℕ) (before after : Node Store Tx) : Type 0 where
  pub pending : after.pending ≡ before.pending ++ take n (contents before.tx_chan)
  pub left : contents after.tx_chan ≡ drop n (contents before.tx_chan)
  pub waiting : length after.tx_chan.waiting ≡ length before.tx_chan.waiting - n
  pub line : IsLine after.tx_chan

module _ (S : Storage) (sha256 : Bytes → Bytes) {Tx : Type 0} (marshal : Block Tx → Option Bytes)
    (unmarshal : Bytes → Result Error (Block Tx)) (difficulty : ℕ) where
  -- Senders get through: each turn of the loop that takes a transaction lets one waiting sender go
  -- on, so that after as many turns as senders wait, none does; the transactions come to the
  -- pending ones in the order in which they were sent.
  pub run-tx_turns :
      (k : ℕ) (n : Node S.Store Tx)
      → IsLine n.tx_chan
      → (n' : Node S.Store Tx) × (run S sha256 marshal unmarshal difficulty (tx_turns k) true n
          ≡ some n')
        × Moved k n n'
  unfolding run follow turn take_tx
  run-tx_turns zero n h = (
    n,
    refl,
    record { pending = sym (append-nil n.pending); left = refl; waiting = omega arith; line = h },
  )
  run-tx_turns (suc k) n h = elim (recv-cases n.tx_chan h) [
    | inl (e, r) ↦
        let (n', go, moved) = run-tx_turns k n h in
        let none_waits = no_waiting n.tx_chan e in
        (
          n',
          ap (λ o. run S sha256 marshal unmarshal difficulty (tx_turns k) true (take_tx n o)) r
              ∙ go,
          record {
            pending =
                moved.pending
                ∙ ap (◌++◌ n.pending) (ap (take k) e ∙ take-nil k ∙ ap (take (suc k)) (sym e));
            left = moved.left ∙ ap (drop k) e ∙ drop-nil k ∙ ap (drop (suc k)) (sym e);
            waiting = omega (arith, moved.waiting, none_waits);
            line = moved.line;
          },
        )
    | inr (tx, rest, r, c) ↦
        let next = record n { tx_chan = rest; pending = n.pending ++ tx ∷ [] } in
        let (n', go, moved) = run-tx_turns k next c.1 in
        (
          n',
          ap (λ o. run S sha256 marshal unmarshal difficulty (tx_turns k) true (take_tx n o)) r
              ∙ go,
          record {
            pending =
                moved.pending
                ∙ append_assoc n.pending (tx ∷ []) (take k (contents rest))
                ∙ ap (λ xs. n.pending ++ take (suc k) xs) (sym c.0);
            left = moved.left ∙ ap (drop (suc k)) (sym c.0);
            waiting = omega (arith, moved.waiting, c.2);
            line = moved.line;
          },
        )
  ]
