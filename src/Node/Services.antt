-- ===== src/Node/Services.antt =====
-- runtime.go: the life cycle of the services. A service is a record of methods over the state of the
-- world, `W`, that holds the states of all services.
pub mod Order
use node_decent_system.Prelude.{
  ℕ, zero, suc, ◌+◌, ◌-◌, ◌≡◌, refl, Bool, true, false, Option, none, some, List, [], ◌∷◌, ◌++◌,
  length, get_elem?, Bytes, Error, lit, str_eq, if◌then◌else◌,
}

-- `interfaces.Service`; the context that each method gets is part of the world. The dependencies
-- that a service names are only logged.
pub record Service (W : Type 0) : Type 0 where
  pub name : Bytes
  pub init : W → W × Option Error
  pub start : W → W × Option Error
  pub stop : W → W × Option Error

module _ {W : Type 0} where
  -- `RegisterService`
  unfoldable pub register_service : List (Service W) → Service W → List (Service W)
  register_service services svc = services ++ svc ∷ []

  failed : Bytes → Service W → Error → Error
  failed what s e = lit "service " ++ (s.name ++ (what ++ e))

  -- `Start` of one service after its `Init`, and the rest of the loop behind it.
  started : Service W → W × Option Error → (W → W × Option Error) → W × Option Error
  unfolding failed
  started s (w, some e) rest = (w, some (failed (lit " start failed: ") s e))
  started s (w, none) rest = rest w

  inited : Service W → W × Option Error → (W → W × Option Error) → W × Option Error
  unfolding failed started
  inited s (w, some e) rest = (w, some (failed (lit " init failed: ") s e))
  inited s (w, none) rest = started s (s.start w) rest

  -- The loop of `Start`: the first error ends it.
  unfoldable pub start_services : List (Service W) → W → W × Option Error
  unfolding inited
  start_services [] w = (w, none)
  start_services (s ∷ ss) w = inited s (s.init w) (λ w'. start_services ss w')

  -- `Stop` of the service at an index; its error is only logged.
  stop_at : Option (Service W) → W → W
  stop_at none w = w
  stop_at (some s) w = (s.stop w).0

  -- The loop of `Stop`, with `n` services left: from the last one down.
  unfoldable pub stop_below : ℕ → List (Service W) → W → W
  unfolding stop_at
  stop_below zero ss w = w
  stop_below (suc n) ss w = stop_below n ss (stop_at (get_elem? ss n) w)

  -- `Stop`: the context is cancelled if there is one, the services stop, and the storage closes.
  unfoldable pub stop : (W → W) → (W → W × Option Error) → List (Service W) → W → W × Option Error
  stop cancel close_storage ss w = close_storage (stop_below (length ss) ss (cancel w))

-- The storage back end that `New` chooses for the configuration: Pebble for "pebble", else memory.
unfoldable pub uses_pebble : Bytes → Bool
uses_pebble backend = str_eq backend (lit "pebble")
