-- ===== src/Lock/Exclusion/History.antt =====
-- lockstate.go: a lease through the commits that are applied while it lasts.
use node_decent_system.Prelude.{
  ℕ, ◌<◌, ◌≡◌, ◌≢◌, sym, ap₂, List, [], ◌∷◌, ◌++◌, All, Result-cases, inl, inr, some, Result, ok,
  err, Bytes, Error, lit, str_eq_iff,
}
use node_decent_system.GoMap.Range.{RangeOrder}
use node_decent_system.Lock.{LockPayload, LockInfo, LockState, apply_payload, action_acquire, apply}
use node_decent_system.Lock.Exclusion.{lease, acquire-excludes, payload-keeps}

-- A commit, with the time at which it is applied and the order in which the loop visits the map.
pub record TimedCommit : Type 0 where
  pub order : RangeOrder
  pub now : ℕ
  pub commit_log : Bytes

module _ (sha256 : Bytes → Bytes) (unmarshal : Bytes → Result Error LockPayload) where
  -- The state after the commits.
  unfoldable pub apply_all : List TimedCommit → LockState → LockState
  apply_all [] ls = ls
  apply_all (c ∷ cs) ls = apply_all cs (apply sha256 unmarshal c.order c.now ls c.commit_log).0

  -- A commit that is applied before the lease ends, and that is not one of the lease's holder on its
  -- resource.
  abbrev pub IsForeign : Bytes → LockInfo → TimedCommit → Type 0
  IsForeign r i c =
      (c.now < i.expires_at)
      × ((p : LockPayload) → unmarshal c.commit_log ≡ ok p → p.resource ≡ r → p.holder ≢ i.holder)

  apply-keeps :
      (c : TimedCommit) (ls : LockState) (r : Bytes) (i : LockInfo)
      → IsForeign r i c
      → lease ls r ≡ some i
      → lease (apply sha256 unmarshal c.order c.now ls c.commit_log).0 r ≡ some i
  unfolding apply
  apply-keeps c ls r i foreign h = elim (Result-cases (unmarshal c.commit_log)) [
    | inr (e, u) ↦ rw (u, apply) h
    | inl (p, u) ↦
        rw (u, apply)
          (payload-keeps sha256 unmarshal c.order c.now ls r i p foreign.0
            (λ same. foreign.1 p u same) h)
  ]

  apply_all-keeps :
      (cs : List TimedCommit) (ls : LockState) (r : Bytes) (i : LockInfo)
      → All (IsForeign r i) cs
      → lease ls r ≡ some i
      → lease (apply_all cs ls) r ≡ some i
  unfolding apply_all
  apply_all-keeps [] ls r i foreign h = h
  apply_all-keeps (c ∷ cs) ls r i foreign h =
      apply_all-keeps cs _ r i foreign.1 (apply-keeps c ls r i foreign.0 h)

  -- Mutual exclusion over time: from a lease on, after any commits of others (acquisitions and
  -- releases of the resource, and all that names other resources) that are applied before the lease
  -- ends, the lease is still there, and one more acquisition by another holder before its end is
  -- refused with the holder's name and changes nothing.
  pub apply_all-excludes :
      (cs : List TimedCommit) (c : TimedCommit) (ls : LockState) (i : LockInfo) (p : LockPayload)
      → lease ls p.resource ≡ some i
      → All (IsForeign p.resource i) cs
      → c.now < i.expires_at
      → unmarshal c.commit_log ≡ ok p
      → p.action ≡ action_acquire
      → p.holder ≢ i.holder
      → let ls' = apply_all cs ls in
        (lease ls' p.resource ≡ some i)
        × (apply sha256 unmarshal c.order c.now ls' c.commit_log ≡ (
          ls',
          err (lit "resource " ++ (p.resource ++ (lit " already locked by " ++ i.holder))),
        ))
  unfolding apply apply_payload
  apply_all-excludes cs c ls i p h foreign live u acquires other =
      let kept = apply_all-keeps cs ls p.resource i foreign h in
      let refused =
        acquire-excludes sha256 unmarshal c.order c.now (apply_all cs ls) p i kept live
          (λ k. other (sym k)) in
      (
        kept,
        rw (u, apply, (str_eq_iff p.action action_acquire).1 acquires)
            (ap₂ (λ x y. (x, y)) refused.0 refused.1),
      )
