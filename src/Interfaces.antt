-- ===== src/Interfaces.antt =====
-- core/interfaces/interfaces.go: the interfaces between the components, as records of operations.
-- A method that changes its receiver returns the new state beside its result.
use node_decent_system.Prelude.{
  ◌≡◌, Bool, List, [], ◌∷◌, ◌++◌, some, Option, none, Result, ok, err, if◌then◌else◌, Bytes, Error,
  str_eq,
}

-- `interfaces.Storage`; `put` and `delete` return `nil` or an error.
pub record Storage : Type 1 where
  pub Store : Type 0
  pub put : Store → Bytes → Bytes → Store × Option Error
  pub get : Store → Bytes → Result Error Bytes
  pub delete : Store → Bytes → Store × Option Error
  pub close : Store → Store × Option Error

-- `interfaces.StateMachine`
pub record StateMachine : Type 1 where
  pub State : Type 0
  pub apply : State → Bytes → State × Result Error Bytes
  pub get_state_root : State → Bytes

-- What the clients of a storage rely on: a successful write is what a later read of the key
-- returns, and leaves the other keys alone. A missing key is an error.
pub record StorageLaws (S : Storage) : Type 0 where
  pub get-put :
      (s : S.Store) (k v j : Bytes)
      → (S.put s k v).1 ≡ none
      → S.get (S.put s k v).0 j ≡ (if str_eq k j then ok v else S.get s j)
  pub missing : Error
  pub get-delete :
      (s : S.Store) (k j : Bytes)
      → (S.delete s k).1 ≡ none
      → S.get (S.delete s k).0 j ≡ (if str_eq k j then err missing else S.get s j)

-- What a `select` of a send with `ctx.Done()` finds: the error of a context that is done, and which
-- case Go takes when both are ready.
pub record Select : Type 0 where
  pub done : Option Error
  pub takes_done : Bool

-- `interfaces.Consensus`: a proposal that waits gives `none`, as does a receive from the commit
-- channel that waits.
pub record Consensus : Type 1 where
  pub State : Type 0
  pub propose : Select → State → Bytes → Option (State × Option Error)
  pub commit : State → Option (Bytes × State)

-- What the engines of mock.go, pow.go and raft.go keep: `backlog` has the entries that are accepted and
-- not yet received. The interface promises nothing of the kind, and the Raft engine of
-- raft_engine.go, which implements it too, drops a proposal that its full channel does not take,
-- without an error.
pub record ConsensusLaws (C : Consensus) : Type 0 where
  pub backlog : C.State → List Bytes
  pub propose-ok :
      (sel : Select) (s s' : C.State) (d : Bytes)
      → C.propose sel s d ≡ some (s', none)
      → backlog s' ≡ backlog s ++ d ∷ []
  pub propose-err :
      (sel : Select) (s s' : C.State) (d : Bytes) (e : Error)
      → C.propose sel s d ≡ some (s', some e)
      → backlog s' ≡ backlog s
  pub commit-some :
      (s s' : C.State) (d : Bytes) → C.commit s ≡ some (d, s') → backlog s ≡ d ∷ backlog s'
  pub commit-none : (s : C.State) → C.commit s ≡ none → backlog s ≡ []
