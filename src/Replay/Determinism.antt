-- ===== src/Replay/Determinism.antt =====
-- replay.go: the runs that a log describes, and their replay.
use node_decent_system.Prelude.{
  ℕ, ◌≡◌, ◌⊎◌, ◌↔◌, refl, ap, inl, inr, Result-cases, List, [], ◌∷◌, ◌++◌, arith, Result, ok, err,
  ok-injective, err-ne-ok, Bytes, Error, str_eq_iff,
}
use node_decent_system.Interfaces.{StateMachine}
use node_decent_system.Replay.{ReplayEntry, ReplayLog, record_entry, check_root, replay_entries}

module _ (M : StateMachine) where
  -- The entries describe a run of the machine from `s` to `u`: each payload applies without an
  -- error, and gives the recorded root unless that is empty. `f` is the last root.
  pub data Describes : M.State → List ReplayEntry → Bytes → M.State → Bytes → Type 0 where
    done : {s u : M.State} {r f : Bytes} → s ≡ u → r ≡ f → Describes s [] r u f
    entry :
        {s u : M.State} {e : ReplayEntry} {es : List ReplayEntry} {r f : Bytes} (root : Bytes)
        → (M.apply s e.payload).1 ≡ ok root
        → (e.state_root ≡ []) ⊎ (e.state_root ≡ root)
        → Describes (M.apply s e.payload).0 es root u f
        → Describes s (e ∷ es) r u f

  check_root-ok :
      (e : ReplayEntry) (root : Bytes)
      → (e.state_root ≡ []) ⊎ (e.state_root ≡ root)
      → check_root M e (ok root) ≡ ok root
  unfolding check_root
  check_root-ok e root h = ground (arith, str_eq_iff e.state_root [], str_eq_iff root e.state_root)

  check_root-inv :
      (e : ReplayEntry) (x : Result Error Bytes) (root : Bytes)
      → check_root M e x ≡ ok root
      → (x ≡ ok root) × ((e.state_root ≡ []) ⊎ (e.state_root ≡ root))
  unfolding check_root
  check_root-inv e (err y) root h = absurd (ground arith)
  check_root-inv e (ok y) root h =
      ground (arith, str_eq_iff e.state_root [], str_eq_iff y e.state_root)

  replay_complete :
      {s u : M.State} {es : List ReplayEntry} {r f : Bytes}
      → Describes s es r u f
      → replay_entries M es r s ≡ (u, ok f)
  unfolding replay_entries
  replay_complete (done e h) = rw (e, h) refl
  replay_complete (entry {s} {e = e} root h k d) =
      rw (h, check_root-ok e root k) (replay_complete d)

  replay_sound :
      (es : List ReplayEntry) (r : Bytes) (s u : M.State) (f : Bytes)
      → replay_entries M es r s ≡ (u, ok f)
      → Describes s es r u f
  unfolding replay_entries
  replay_sound [] r s u f h = done (ap (λ p. p.0) h) (ok-injective r f (ap (λ p. p.1) h))
  replay_sound (e ∷ es) r s u f h = elim (Result-cases (check_root M e (M.apply s e.payload).1)) [
    | inl (root, k) ↦
        let i = check_root-inv e (M.apply s e.payload).1 root k in
        entry root i.0 i.1 (replay_sound es root (M.apply s e.payload).0 u f (rw k at h))
    | inr (x, k) ↦ absurd (err-ne-ok x f (ap (λ p. p.1) (rw k at h)))
  ]

  -- A replay succeeds exactly when the entries describe a run of the machine: every commit applies,
  -- and every recorded root that is not empty is the root that the machine gives; it then ends in
  -- the run's last state and root.
  pub replay_iff :
      (es : List ReplayEntry) (r : Bytes) (s u : M.State) (f : Bytes)
      → (replay_entries M es r s ≡ (u, ok f)) ↔ Describes s es r u f
  replay_iff es r s u f = (replay_sound es r s u f, replay_complete)

  Describes-append :
      {s u : M.State} {es : List ReplayEntry} {r f : Bytes} (e : ReplayEntry) (root : Bytes)
      → Describes s es r u f
      → (M.apply u e.payload).1 ≡ ok root
      → e.state_root ≡ root
      → Describes s (es ++ e ∷ []) r (M.apply u e.payload).0 root
  Describes-append e root (done {s} {u} a b) h k =
      entry root (rw a h) (inr k) (done (ap (λ x. (M.apply x e.payload).0) a) refl)
  Describes-append e root (entry x p q d) h k = entry x p q (Describes-append e root d h k)

  -- What is recorded can be replayed: to a log that replays from `s` to the machine's present state,
  -- `Record` adds the next commit with the root that it gave, and the longer log replays from `s` to
  -- the state after that commit and returns its root.
  pub replay-record :
      (log : ReplayLog) (now : ℕ) (c root r f : Bytes) (s u : M.State)
      → replay_entries M log r s ≡ (u, ok f)
      → (M.apply u c).1 ≡ ok root
      → replay_entries M (record_entry now c root log) r s ≡ ((M.apply u c).0, ok root)
  unfolding record_entry
  replay-record log now c root r f s u h k =
      replay_complete (Describes-append _ root (replay_sound log r s u f h) k refl)
