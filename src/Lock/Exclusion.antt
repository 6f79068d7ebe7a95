-- ===== src/Lock/Exclusion.antt =====
-- lockstate.go: mutual exclusion, and who may release.
pub mod History
use node_decent_system.Prelude.{
  ℕ, ◌+◌, ◌≤◌, ◌<◌, ◌≡◌, ◌≢◌, ◌⊎◌, refl, sym, ap, ap₂, List, [], ◌∷◌, All, Result-cases, ◌∙◌, true,
  false, not, ◌&&◌, Bool-cases, Option-cases, inl, inr, Option, none, some, ◌++◌, arith, Result, ok,
  err, if◌then◌else◌, ltb, Bytes, Error, lit, str_eq, str_eq_iff, str_eq_refl,
}
use node_decent_system.GoMap.{get-put, get-delete}
use node_decent_system.GoMap
use node_decent_system.GoMap.Range.{RangeOrder}
use node_decent_system.Lock.{
  LockPayload, LockInfo, LockState, recalculate_root, finish, acquire, release, lease_end,
  held_by_other, release_current, apply_payload, action_acquire, action_release, apply,
}

-- The lease on a resource: its holder and the time at which it ends.
abbrev pub lease : LockState → Bytes → Option LockInfo
lease ls resource = GoMap.get ls.locks resource

module _ (sha256 : Bytes → Bytes) (unmarshal : Bytes → Result Error LockPayload)
    (order : RangeOrder) where
  -- A live lease excludes everybody else: an acquisition by another holder is refused and changes
  -- nothing.
  pub acquire-excludes :
      (now : ℕ) (ls : LockState) (p : LockPayload) (i : LockInfo)
      → lease ls p.resource ≡ some i
      → now < i.expires_at
      → i.holder ≢ p.holder
      → let (ls', r) = acquire sha256 unmarshal order now ls p in
        (ls' ≡ ls)
        × (r ≡ err (lit "resource " ++ (p.resource ++ (lit " already locked by " ++ i.holder))))
  unfolding acquire
  acquire-excludes now ls p i h live other = rw (h, test) (refl, refl)
    where
      test : (ltb now i.expires_at && not (str_eq i.holder p.holder)) ≡ true
      test = ground (arith, str_eq_iff i.holder p.holder)

  -- A free resource, one whose lease has ended, and one that the caller holds are acquired: the
  -- caller has a lease for its time, and the other leases stay.
  pub acquire-succeeds :
      (now : ℕ) (ls : LockState) (p : LockPayload)
      → ((i : LockInfo)
          → lease ls p.resource ≡ some i
          → (i.expires_at ≤ now) ⊎ (i.holder ≡ p.holder))
      → let (ls', r) = acquire sha256 unmarshal order now ls p in
        (r ≡ ok ls'.state_root)
        × ((j : Bytes)
            → lease ls' j ≡ (
                if str_eq p.resource j
                then some (record { holder = p.holder; expires_at = lease_end now p.ttl_ms })
                else lease ls j))
  unfolding acquire finish recalculate_root
  acquire-succeeds now ls p free = elim (Option-cases (lease ls p.resource)) [
    | inl e ↦ rw e (refl, λ j. get-put ls.locks p.resource j _)
    | inr (i, e) ↦ rw (e, test i (free i e)) (refl, λ j. get-put ls.locks p.resource j _)
  ]
    where
      test :
          (i : LockInfo)
          → (i.expires_at ≤ now) ⊎ (i.holder ≡ p.holder)
          → (ltb now i.expires_at && not (str_eq i.holder p.holder)) ≡ false
      test i f = ground (arith, str_eq_iff i.holder p.holder)

  -- Of a resource with a lease: the release by its holder ends that lease, live or not, and no other
  -- one; anybody else's release is refused and changes nothing.
  pub release_lem :
      (ls : LockState) (p : LockPayload) (i : LockInfo)
      → lease ls p.resource ≡ some i
      → let (ls', r) = release sha256 unmarshal order ls p in
        (i.holder ≡ p.holder
          → (r ≡ ok ls'.state_root)
            × ((j : Bytes) → lease ls' j ≡ (if str_eq p.resource j then none else lease ls j)))
        × (i.holder ≢ p.holder → (ls' ≡ ls) × (r ≢ ok ls'.state_root))
  unfolding release finish recalculate_root
  release_lem ls p i h = elim (Bool-cases (str_eq i.holder p.holder)) [
    | inl e ↦
        rw (h, e)
          (
            λ own. (refl, λ j. get-delete ls.locks p.resource j),
            λ other. absurd (other ((str_eq_iff i.holder p.holder).0 e)),
          )
    | inr e ↦ rw (h, e) (λ own. absurd (clash own e), λ other. (refl, λ q. ground arith))
  ]
    where
      clash : i.holder ≡ p.holder → str_eq i.holder p.holder ≡ false → ⊥
      clash own e = ground (arith, str_eq_iff i.holder p.holder)

  -- A commit leaves the lease of a resource that it does not name as it is.
  acquire-frame :
      (now : ℕ) (ls : LockState) (p : LockPayload) (r : Bytes)
      → str_eq p.resource r ≡ false
      → lease (acquire sha256 unmarshal order now ls p).0 r ≡ lease ls r
  unfolding acquire finish recalculate_root
  acquire-frame now ls p r other =
      elim (Bool-cases (held_by_other now p.holder (lease ls p.resource))) [
        | inl held ↦ rw held refl
        | inr free ↦ rw free (get-put ls.locks p.resource r _ ∙ rw other)
      ]

  release-frame :
      (ls : LockState) (p : LockPayload) (r : Bytes)
      → str_eq p.resource r ≡ false
      → lease (release sha256 unmarshal order ls p).0 r ≡ lease ls r
  unfolding release release_current finish recalculate_root
  release-frame ls p r other = elim (Option-cases (lease ls p.resource)) [
    | inl e ↦ rw e refl
    | inr (i, e) ↦ elim (Bool-cases (str_eq i.holder p.holder)) [
      | inl own ↦ rw (e, own) (get-delete ls.locks p.resource r ∙ rw other)
      | inr foreign ↦ rw (e, foreign) refl
    ]
  ]

  -- Of a lease that is live, and of which the payload's holder is not the holder.
  payload-keeps :
      (now : ℕ) (ls : LockState) (r : Bytes) (i : LockInfo) (p : LockPayload)
      → now < i.expires_at
      → (p.resource ≡ r → p.holder ≢ i.holder)
      → lease ls r ≡ some i
      → lease (apply_payload sha256 unmarshal order now ls p).0 r ≡ some i
  unfolding apply_payload
  payload-keeps now ls r i p live other h = elim (Bool-cases (str_eq p.resource r)) [
    | inr e ↦ elim (Bool-cases (str_eq p.action action_acquire)) [
      | inl a ↦ rw a (acquire-frame now ls p r e ∙ h)
      | inr a ↦ elim (Bool-cases (str_eq p.action action_release)) [
        | inl b ↦ rw (a, b) (release-frame ls p r e ∙ h)
        | inr b ↦ rw (a, b) h
      ]
    ]
    | inl e ↦
        let same = (str_eq_iff p.resource r).0 e in
        let at : lease ls p.resource ≡ some i = ap (lease ls) same ∙ h in
        let foreign : i.holder ≢ p.holder = λ k. other same (sym k) in
        elim (Bool-cases (str_eq p.action action_acquire)) [
          | inl a ↦ rw a (ap (λ x. lease x r) (acquire-excludes now ls p i at live foreign).0 ∙ h)
          | inr a ↦ elim (Bool-cases (str_eq p.action action_release)) [
            | inl b ↦ rw (a, b) (ap (λ x. lease x r) ((release_lem ls p i at).1 foreign).0 ∙ h)
            | inr b ↦ rw (a, b) h
          ]
        ]
  ]

  -- The reply to one commit depends on the clock of the replica: the acquisition that a replica
  -- refuses before the end of the lease is granted by one that applies it at the end.
  pub acquire_depends_on_clock :
      (before after : ℕ) (ls : LockState) (p : LockPayload) (i : LockInfo)
      → lease ls p.resource ≡ some i
      → i.holder ≢ p.holder
      → before < i.expires_at
      → i.expires_at ≤ after
      → (lease (acquire sha256 unmarshal order before ls p).0 p.resource ≡ some i)
        × (lease (acquire sha256 unmarshal order after ls p).0 p.resource
            ≡ some (record { holder = p.holder; expires_at = lease_end after p.ttl_ms }))
  acquire_depends_on_clock before after ls p i h other live ended =
      let a = acquire-excludes before ls p i h live other in
      let b = acquire-succeeds after ls p (λ k e. inl (at k e)) in
      (rw a.0 h, b.1 p.resource ∙ rw (str_eq_refl p.resource))
    where
      at : (k : LockInfo) → lease ls p.resource ≡ some k → k.expires_at ≤ after
      at k e = ground arith
