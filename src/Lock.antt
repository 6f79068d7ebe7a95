-- ===== src/Lock.antt =====
-- applications/dist-lock/lockstate.go: leases on named resources. A time is the number of
-- nanoseconds since the zero time of package time, so that the clock, which is read at each call and
-- is an argument `now` here, is above 2^63.
pub mod Exclusion
pub mod Root
use node_decent_system.Prelude.{
  ℕ, ◌+◌, ◌-◌, ◌*◌, ◌%◌, ◌^◌, ◌≡◌, refl, Bool, true, false, not, ◌&&◌, Option, none, some, List, [],
  ◌∷◌, ◌++◌, arith, Result, ok, err, if◌then◌else◌, ltb, Bytes, Error, lit, str_eq, hex,
}
use node_decent_system.GoMap.{GoMap, keys}
use node_decent_system.GoMap
use node_decent_system.GoMap.Range.{RangeOrder}

unfoldable pub action_acquire : Bytes
action_acquire = lit "ACQUIRE"

unfoldable pub action_release : Bytes
action_release = lit "RELEASE"

-- `ttl_ms` is the 64-bit word of the signed field.
pub record LockPayload : Type 0 where
  pub action : Bytes
  pub resource : Bytes
  pub holder : Bytes
  pub ttl_ms : ℕ

pub record LockInfo : Type 0 where
  pub holder : Bytes
  pub expires_at : ℕ

pub record LockState : Type 0 where
  pub locks : GoMap LockInfo
  pub state_root : Bytes

unfoldable pub new_lock_state : LockState
new_lock_state = record { locks = []; state_root = lit "lock_genesis_root" }

holder_of : Option LockInfo → Bytes
holder_of none = []
holder_of (some i) = i.holder

-- What the loop writes to the hash: each resource with its holder, in the order of the loop.
unfoldable pub hash_input : GoMap LockInfo → List Bytes → Bytes
unfolding holder_of
hash_input m [] = []
hash_input m (r ∷ rs) = r ++ (holder_of (GoMap.get m r) ++ hash_input m rs)

-- `IsLocked` at the time `now`
unlocked_or : ℕ → Option LockInfo → Bool
unlocked_or now none = false
unlocked_or now (some i) = ltb now i.expires_at

unfoldable pub is_locked : ℕ → LockState → Bytes → Bool
unfolding unlocked_or
is_locked now ls resource = unlocked_or now (GoMap.get ls.locks resource)

-- The test that refuses an acquisition: a live lease of another holder.
held_by_other : ℕ → Bytes → Option LockInfo → Bool
held_by_other now holder none = false
held_by_other now holder (some i) = ltb now i.expires_at && not (str_eq i.holder holder)

-- `now.Add(time.Duration(payload.TTLMs) * time.Millisecond)`: the product wraps around, and its upper
-- half stands for the negative durations.
unfoldable pub lease_end : ℕ → ℕ → ℕ
lease_end now ttl_ms =
    let nanos = (ttl_ms * 1000000) % 2 ^ 64 in
    if ltb nanos (2 ^ 63) then now + nanos else now - (2 ^ 64 - nanos)

module _ (sha256 : Bytes → Bytes) (unmarshal : Bytes → Result Error LockPayload) where
  -- The keys are not sorted here.
  unfoldable pub recalculate_root : RangeOrder → LockState → LockState
  recalculate_root order ls = record ls {
    state_root = hex (sha256 (hash_input ls.locks (order (keys ls.locks))));
  }

  unfoldable pub finish : RangeOrder → LockState → LockState × Result Error Bytes
  finish order ls = let ls' = recalculate_root order ls in (ls', ok ls'.state_root)

  unfoldable pub acquire : RangeOrder → ℕ → LockState → LockPayload → LockState × Result Error Bytes
  unfolding held_by_other holder_of
  acquire order now ls p =
      let current = GoMap.get ls.locks p.resource in
      if held_by_other now p.holder current
      then (
        ls,
        err (lit "resource " ++ (p.resource ++ (lit " already locked by " ++ holder_of current))),
      )
      else finish order (record ls {
        locks =
            GoMap.put ls.locks p.resource
              (record { holder = p.holder; expires_at = lease_end now p.ttl_ms });
      })

  release_current :
      RangeOrder → LockState → LockPayload → Option LockInfo → LockState × Result Error Bytes
  release_current order ls p none =
      (ls, err (lit "resource " ++ (p.resource ++ lit " is not locked")))
  release_current order ls p (some i) =
      if str_eq i.holder p.holder
      then finish order (record ls { locks = GoMap.delete ls.locks p.resource })
      else (
        ls,
        err (
            lit "unauthorized release attempt by "
            ++ (p.holder ++ (lit " for resource locked by " ++ i.holder))),
      )

  unfoldable pub release : RangeOrder → LockState → LockPayload → LockState × Result Error Bytes
  unfolding release_current
  release order ls p = release_current order ls p (GoMap.get ls.locks p.resource)

  unfoldable pub apply_payload :
      RangeOrder → ℕ → LockState → LockPayload → LockState × Result Error Bytes
  apply_payload order now ls p =
      if str_eq p.action action_acquire
      then acquire order now ls p
      else if str_eq p.action action_release
      then release order ls p
      else (ls, err (lit "unsupported lock action: " ++ p.action))

  unfoldable pub apply : RangeOrder → ℕ → LockState → Bytes → LockState × Result Error Bytes
  apply order now ls commit_log = elim (unmarshal commit_log) [
    | err e ↦ (ls, err (lit "dist-lock failed to unmarshal payload: " ++ e))
    | ok p ↦ apply_payload order now ls p
  ]
