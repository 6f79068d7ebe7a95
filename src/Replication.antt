-- ===== src/Replication.antt =====
-- State machine replication: `interfaces.StateMachine` implementations that apply one sequence of
-- commits, as the engines do with what they commit.
use node_decent_system.Prelude.{ℕ, suc, ◌≡◌, refl, ap₂, List, [], ◌∷◌, Result, Bytes, Error}
use node_decent_system.GoMap.Range.{RangeOrder, IsRange}

module _ {State : Type 0} (apply : RangeOrder → State → Bytes → State × Result Error Bytes) where
  -- The replies to a sequence of commits, and the state after it. The n-th call of `Apply` ranges
  -- over its map in the order `orders n`.
  unfoldable pub run : (ℕ → RangeOrder) → State → List Bytes → State × List (Result Error Bytes)
  run orders s [] = (s, [])
  run orders s (c ∷ cs) =
      let (s', r) = apply (orders 0) s c in
      let (s'', rs) = run (λ n. orders (suc n)) s' cs in (s'', r ∷ rs)

  -- Two replicas that stand in a relation apply one commit: they report the same, and stand in it
  -- again, whatever the orders.
  abbrev pub Keeps : (State → State → Type 0) → Type 0
  Keeps R =
      (o p : RangeOrder)
      → IsRange o
      → IsRange p
      → (s t : State) (c : Bytes) → R s t
      → R (apply o s c).0 (apply p t c).0 × ((apply o s c).1 ≡ (apply p t c).1)

  -- A relation that one commit keeps is kept by all, with the replies the same.
  pub run-Keeps :
      (R : State → State → Type 0)
      → Keeps R
      → (orders orders' : ℕ → RangeOrder) → ((n : ℕ) → IsRange (orders n))
      → ((n : ℕ) → IsRange (orders' n))
      → (s t : State) (cs : List Bytes) → R s t
      → R (run orders s cs).0 (run orders' t cs).0 × ((run orders s cs).1 ≡ (run orders' t cs).1)
  unfolding run
  run-Keeps R keeps o p ho hp s t [] a = (a, refl)
  run-Keeps R keeps o p ho hp s t (c ∷ cs) a =
      let (a', e) = keeps (o 0) (p 0) (ho 0) (hp 0) s t c a in
      let (a'', es) =
        run-Keeps R keeps (λ n. o (suc n)) (λ n. p (suc n)) (λ n. ho (suc n)) (λ n. hp (suc n)) _ _
          cs a' in
      (a'', ap₂ ◌∷◌ e es)
