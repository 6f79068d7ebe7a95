-- ===== src/Chan.antt =====
-- Buffered Go channels as the program uses them: a bounded queue, written by a `select` with a
-- `default` case that drops the value when the buffer is full.
pub mod Line
use node_decent_system.Prelude.{
  ℕ, ◌≤◌, ◌<◌, ◌≡◌, Option, none, some, List, [], ◌∷◌, ◌++◌, arith, ltb, if◌then◌else◌, length,
  length-append,
}

pub record Chan {ℓ} (A : Type ℓ) : Type ℓ where
  pub cap : ℕ
  pub items : List A

module _ {ℓ} {A : Type ℓ} where
  -- `make(chan A, n)`
  unfoldable pub make_chan : ℕ → Chan A
  make_chan n = record { cap = n; items = [] }

  -- `select { case ch <- x: default: }`
  unfoldable pub try_send : Chan A → A → Chan A
  try_send c x = if ltb (length c.items) c.cap then record c { items = c.items ++ x ∷ [] } else c

  -- A receive takes the oldest value.
  unfoldable pub receive : Chan A → Option (A × Chan A)
  receive c = elim c.items [ [] ↦ none | x ∷ xs ↦ some (x, record c { items = xs }) ]

  -- The buffer never holds more than its capacity.
  abbrev pub Fits : Chan A → Type 0
  Fits c = length c.items ≤ c.cap

  pub try_send-Fits : (c : Chan A) (x : A) → Fits c → Fits (try_send c x)
  unfolding try_send
  try_send-Fits c x h = ground (arith, length-append c.items (x ∷ []))

  pub cap-try_send : (c : Chan A) (x : A) → (try_send c x).cap ≡ c.cap
  unfolding try_send
  cap-try_send c x = ground arith

  -- With room, the value goes to the end; a full buffer drops it.
  pub try_send-room :
      (c : Chan A) (x : A) → length c.items < c.cap → (try_send c x).items ≡ c.items ++ x ∷ []
  unfolding try_send
  try_send-room c x h = ground arith

  pub try_send-full : (c : Chan A) (x : A) → c.cap ≤ length c.items → try_send c x ≡ c
  unfolding try_send
  try_send-full c x h = ground arith
