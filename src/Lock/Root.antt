-- ===== src/Lock/Root.antt =====
-- lockstate.go: the state root, whose loop ranges over the map without sorting the keys.
use node_decent_system.Prelude.{
  ◌≡◌, ◌≢◌, refl, length, false, [], ◌∷◌, ◌++◌, reverse, arith, Result, Bytes, Error, str_eq,
  str_eq_iff, str_eq_refl, hex-injective,
}
use node_decent_system.GoMap.{get, keys}
use node_decent_system.GoMap.Range.{RangeOrder}
use node_decent_system.Lock.{
  LockPayload, LockInfo, LockState, holder_of, hash_input, recalculate_root,
}

-- The two orders in which a loop may visit a map of two keys.
abbrev pub forwards : RangeOrder
forwards ks = ks

abbrev pub backwards : RangeOrder
backwards ks = reverse ks

abbrev pub lock_bytes : Bytes → LockInfo → Bytes
lock_bytes r i = r ++ i.holder

module _ (sha256 : Bytes → Bytes) (unmarshal : Bytes → Result Error LockPayload) where
  prefix-injective : (r s xs ys : Bytes) → length r ≡ length s → r ++ xs ≡ s ++ ys → r ≡ s
  prefix-injective [] [] xs ys h e = refl
  prefix-injective [] (y ∷ s) xs ys h e = absurd (omega arith)
  prefix-injective (x ∷ r) [] xs ys h e = absurd (omega arith)
  prefix-injective (x ∷ r) (y ∷ s) xs ys h e = ground (arith, prefix-injective r s xs ys)

  -- Two replicas that hold the same two leases, on different resources whose names have one length,
  -- and that range over them in different orders hash different bytes; their roots can only be equal
  -- where these bytes are a collision of the hash.
  pub two_locks_two_roots :
      (ls : LockState) (r s : Bytes) (i j : LockInfo)
      → ls.locks ≡ (r, i) ∷ (s, j) ∷ []
      → r ≢ s
      → length r ≡ length s
      → let x = hash_input ls.locks (forwards (keys ls.locks)) in
        let y = hash_input ls.locks (backwards (keys ls.locks)) in
        (x ≢ y)
        × ((recalculate_root sha256 unmarshal forwards ls).state_root
              ≡ (recalculate_root sha256 unmarshal backwards ls).state_root
            → sha256 x ≡ sha256 y)
  unfolding recalculate_root hash_input holder_of get keys
  two_locks_two_roots ls r s i j h differ long = (
    rw (h, str_eq_refl r, different, str_eq_refl s) (λ e. differ (prefix-injective r s _ _ long e)),
    λ e. hex-injective _ _ e,
  )
    where
      different : str_eq r s ≡ false
      different = ground (arith, str_eq_iff r s)
