-- ===== src/Consensus/Pow.antt =====
-- modules/consensus/pow.go: mining by counting up the nonce.
use node_decent_system.Prelude.{
  ℕ, zero, suc, ◌+◌, ◌≤◌, ◌<◌, ◌≡◌, refl, subst, sym, ap, ◌∙◌, true, Bool-cases, inl, inr, Option,
  none, some, [], ◌∷◌, arith, if◌then◌else◌, Bytes, Error, has_prefix,
}
use node_decent_system.Block.{Block, calculate_hash}

-- `strings.Repeat("0", n)`
unfoldable pub zeros : ℕ → Bytes
zeros zero = []
zeros (suc n) = b'0' ∷ zeros n

module _ (sha256 : Bytes → Bytes) {Tx : Type 0} where
  -- The loop with fuel; `none` means that the fuel ran out. `done n` says whether the context is
  -- done, with an error, in round `n`.
  unfoldable pub mine_block :
      ℕ → ℕ → (ℕ → Option Error) → Block Tx → Option (Block Tx × Option Error)
  mine_block zero difficulty done b = none
  mine_block (suc fuel) difficulty done b =
      let rest =
        mine_block fuel difficulty (λ n. done (suc n)) (record b { nonce = b.nonce + 1 }) in
      elim (done 0) [
        | some e ↦ some (b, some e)
        | none ↦
            if has_prefix (calculate_hash sha256 b) (zeros difficulty)
            then some (record b { hash = calculate_hash sha256 b }, none)
            else rest
      ]

  -- The block as it stands in round `n`.
  abbrev pub at_round : Block Tx → ℕ → Block Tx
  at_round b n = record b { nonce = b.nonce + n }

  -- The hash of the block in round `n` has the leading zeros.
  abbrev pub Solves : ℕ → Block Tx → ℕ → Type 0
  Solves difficulty b n =
      has_prefix (calculate_hash sha256 (at_round b n)) (zeros difficulty) ≡ true

  -- A mined block is the given one but for its nonce and hash; the hash is its own, with the leading
  -- zeros that the difficulty asks for.
  pub mine_block_sound :
      (fuel difficulty : ℕ) (done : ℕ → Option Error) (b b' : Block Tx)
      → mine_block fuel difficulty done b ≡ some (b', none)
      → (b'.hash ≡ calculate_hash sha256 b')
        × (has_prefix b'.hash (zeros difficulty) ≡ true)
        × (b'.index ≡ b.index)
        × (b'.timestamp ≡ b.timestamp)
        × (b'.transactions ≡ b.transactions)
        × (b'.prev_hash ≡ b.prev_hash)
        × (b.nonce ≤ b'.nonce)
  unfolding mine_block calculate_hash
  mine_block_sound zero difficulty done b b' h = absurd (ground arith)
  mine_block_sound (suc fuel) difficulty done b b' h = ground (
    arith,
    mine_block_sound fuel difficulty (λ n. done (suc n)) (record b { nonce = b.nonce + 1 }) b',
  )

  -- A block whose hash has the leading zeros.
  Solved : ℕ → Block Tx → Type 0
  Solved difficulty c = has_prefix (calculate_hash sha256 c) (zeros difficulty) ≡ true

  at_round-suc :
      (b : Block Tx) (k : ℕ) → at_round (record b { nonce = b.nonce + 1 }) k ≡ at_round b (suc k)
  at_round-suc b k =
      let same : (b.nonce + 1) + k ≡ b.nonce + suc k = omega arith in
      ap (λ m. record b { nonce = m }) same

  mine_block_hit :
      (fuel difficulty : ℕ) (done : ℕ → Option Error) (b : Block Tx)
      → done 0 ≡ none
      → Solved difficulty b
      → mine_block (suc fuel) difficulty done b
        ≡ some (record b { hash = calculate_hash sha256 b }, none)
  unfolding mine_block Solved
  mine_block_hit fuel difficulty done b runs won = rw (runs, won, mine_block) refl

  mine_block_miss :
      (fuel difficulty : ℕ) (done : ℕ → Option Error) (b : Block Tx)
      → done 0 ≡ none
      → ¬ Solved difficulty b
      → mine_block (suc fuel) difficulty done b
        ≡ mine_block fuel difficulty (λ k. done (suc k)) (record b { nonce = b.nonce + 1 })
  unfolding mine_block Solved
  mine_block_miss fuel difficulty done b runs lost =
      elim (Bool-cases (has_prefix (calculate_hash sha256 b) (zeros difficulty))) [
        | inl h ↦ absurd (lost h)
        | inr h ↦ rw (runs, h, mine_block) refl
      ]

  at_round-zero : (b : Block Tx) → at_round b 0 ≡ b
  at_round-zero b =
      let same : b.nonce + 0 ≡ b.nonce = omega arith in ap (λ m. record b { nonce = m }) same

  -- If the context stays open and round `n` is the first whose hash has the leading zeros, then any
  -- fuel above `n` is enough, and the block of that round is mined with its hash.
  pub mine_block-finds :
      (n fuel difficulty : ℕ) (done : ℕ → Option Error) (b : Block Tx)
      → n < fuel
      → ((k : ℕ) → k ≤ n → done k ≡ none)
      → ((k : ℕ) → k < n → ¬ Solves difficulty b k)
      → Solves difficulty b n
      → mine_block fuel difficulty done b
        ≡ some (record (at_round b n) { hash = calculate_hash sha256 (at_round b n) }, none)
  unfolding mine_block Solved
  mine_block-finds n zero difficulty done b more alive early hit = absurd (ground arith)
  mine_block-finds zero (suc fuel) difficulty done b more alive early hit =
      let start : at_round b 0 ≡ b = at_round-zero b in
      let hit' : has_prefix (calculate_hash sha256 b) (zeros difficulty) ≡ true =
        subst (λ c. has_prefix (calculate_hash sha256 c) (zeros difficulty) ≡ true) start hit in
      mine_block_hit fuel difficulty done b (alive 0 (omega arith)) hit'
      ∙ ap (λ c. some (record c { hash = calculate_hash sha256 c }, none)) (sym start)
  mine_block-finds (suc n) (suc fuel) difficulty done b more alive early hit =
      let next : (k : ℕ) → at_round (record b { nonce = b.nonce + 1 }) k ≡ at_round b (suc k) =
        λ k. at_round-suc b k in
      let later : mine_block fuel difficulty (λ k. done (suc k)) (record b { nonce = b.nonce + 1 })
          ≡ some (
            record (at_round (record b { nonce = b.nonce + 1 }) n) {
              hash = calculate_hash sha256 (at_round (record b { nonce = b.nonce + 1 }) n);
            },
            none,
          ) =
        mine_block-finds n fuel difficulty (λ k. done (suc k)) (record b { nonce = b.nonce + 1 })
          (omega arith) (λ k le. alive (suc k) (omega arith))
          (λ k lt won. early (suc k) (omega arith) (subst (Solved difficulty) (next k) won))
          (subst (Solved difficulty) (sym (next n)) hit) in
      mine_block_miss fuel difficulty done b (alive 0 (omega arith))
        (λ won. early 0 (omega arith) (subst (Solved difficulty) (sym (at_round-zero b)) won))
      ∙ later
      ∙ ap (λ c. some (record c { hash = calculate_hash sha256 c }, none)) (next n)
