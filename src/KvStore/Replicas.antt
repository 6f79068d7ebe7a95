-- ===== src/KvStore/Replicas.antt =====
-- Replicas of the key-value store that apply one sequence of commits: state machine replication.
use node_decent_system.Prelude.{ℕ, ◌≡◌, List, Result, Bytes, Error}
use node_decent_system.GoMap.Range.{RangeOrder, IsRange}
use node_decent_system.Interfaces.{Storage}
use node_decent_system.Replication.{run-Keeps}
use node_decent_system.Replication
use node_decent_system.KvStore.{KvState, KvPayload, apply}
use node_decent_system.KvStore.Root.{Agree, apply-Agree}

module _ (S : Storage) (sha256 : Bytes → Bytes) (unmarshal : Bytes → Result Error KvPayload) where
  -- The replies to a sequence of commits, and the state after it.
  abbrev pub run :
      (ℕ → RangeOrder) → KvState S.Store → List Bytes → KvState S.Store × List (Result Error Bytes)
  run = Replication.run (apply S sha256 unmarshal)

  -- Replicas that agree, apply the same commits and range over their maps in any two orders give
  -- the same replies, state roots included, and agree at the end.
  pub run-Agree :
      (orders orders' : ℕ → RangeOrder)
      → ((n : ℕ) → IsRange (orders n))
      → ((n : ℕ) → IsRange (orders' n))
      → (s t : KvState S.Store) (cs : List Bytes) → Agree s t
      → Agree (run orders s cs).0 (run orders' t cs).0
        × ((run orders s cs).1 ≡ (run orders' t cs).1)
  run-Agree o p ho hp s t cs a =
      run-Keeps (apply S sha256 unmarshal) Agree
        (λ o p ho hp s t c. apply-Agree S sha256 unmarshal o p ho hp s t c) o p ho hp s t cs a
