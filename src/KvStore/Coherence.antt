-- ===== src/KvStore/Coherence.antt =====
-- kvstate.go: the write-through of the map to the storage.
use node_decent_system.Prelude.{
  ◌≡◌, refl, Bool, true, false, Option, none, some, Result, ok, err, Result-cases, Bool-cases, inl,
  inr, if◌then◌else◌, Bytes, Error, str_eq,
}
use node_decent_system.GoMap.{get-put, get-delete}
use node_decent_system.GoMap
use node_decent_system.GoMap.Range.{RangeOrder}
use node_decent_system.Interfaces.{Storage, StorageLaws}
use node_decent_system.KvStore.{
  KvState, KvPayload, op_put, op_delete, finish, store_put, store_delete, apply_payload, apply,
  apply-ok, apply-err, get,
}
use node_decent_system.KvStore.Contents.{in_memory-finish, storage-finish, finish-ok}

-- What the storage returns for an entry of the map.
abbrev pub stored : Error → Option Bytes → Result Error Bytes
stored missing none = err missing
stored missing (some v) = ok v

stored-if :
    (missing : Error) (b : Bool) (x y : Option Bytes)
    → stored missing (if b then x else y) ≡ (if b then stored missing x else stored missing y)
stored-if missing true x y = refl
stored-if missing false x y = refl

-- The storage and the map hold the same entries.
abbrev pub Coherent : (S : Storage) → StorageLaws S → KvState S.Store → Type 0
Coherent S laws kv = (k : Bytes) → S.get kv.storage k ≡ stored laws.missing (get kv k)

module _ (S : Storage) (laws : StorageLaws S) where
  store_put-Coherent :
      (kv : KvState S.Store) (key value : Bytes)
      → (store_put S kv key value).1 ≡ none
      → Coherent S laws kv
      → Coherent S laws (store_put S kv key value).0
  unfolding store_put get
  store_put-Coherent kv key value h c k = rw (laws.get-put kv.storage key value k h) (
      rw (get-put kv.in_memory key k value) (
        rw (stored-if laws.missing (str_eq key k) (some value) (GoMap.get kv.in_memory k))
          (rw (c k))))

  store_delete-Coherent :
      (kv : KvState S.Store) (key : Bytes)
      → (store_delete S kv key).1 ≡ none
      → Coherent S laws kv
      → Coherent S laws (store_delete S kv key).0
  unfolding store_delete get
  store_delete-Coherent kv key h c k = rw (laws.get-delete kv.storage key k h) (
      rw (get-delete kv.in_memory key k)
        (rw (stored-if laws.missing (str_eq key k) none (GoMap.get kv.in_memory k)) (rw (c k))))

module _ (S : Storage) (laws : StorageLaws S) (sha256 : Bytes → Bytes)
    (unmarshal : Bytes → Result Error KvPayload) (o : RangeOrder) where
  finish-Coherent :
      (kv : KvState S.Store) (context : Bytes) (e : Option Error)
      → Coherent S laws kv
      → Coherent S laws (finish sha256 o kv context e).0
  unfolding get
  finish-Coherent kv context e c k =
      rw (in_memory-finish sha256 o kv context e, storage-finish sha256 o kv context e) (c k)

  payload-Coherent :
      (kv : KvState S.Store) (p : KvPayload) (r : Bytes)
      → Coherent S laws kv
      → (apply_payload S sha256 unmarshal o kv p).1 ≡ ok r
      → Coherent S laws (apply_payload S sha256 unmarshal o kv p).0
  unfolding apply_payload
  payload-Coherent kv p r c = elim (Bool-cases (str_eq p.op op_put)) [
    | inl h ↦ rw h (λ q.
        finish-Coherent _ _ _
          (store_put-Coherent S laws kv p.key p.value (finish-ok sha256 o _ _ _ r q) c))
    | inr h ↦ elim (Bool-cases (str_eq p.op op_delete)) [
      | inl d ↦
          rw (h, d)
            (λ q.
              finish-Coherent _ _ _
                (store_delete-Coherent S laws kv p.key (finish-ok sha256 o _ _ _ r q) c))
      | inr d ↦ rw (h, d) (λ q. c)
    ]
  ]

  -- A commit that `Apply` accepts keeps the storage and the map in step.
  pub apply-Coherent :
      (kv : KvState S.Store) (log r : Bytes)
      → Coherent S laws kv
      → (apply S sha256 unmarshal o kv log).1 ≡ ok r
      → Coherent S laws (apply S sha256 unmarshal o kv log).0
  apply-Coherent kv log r c = elim (Result-cases (unmarshal log)) [
    | inl (p, e) ↦ rw (apply-ok S sha256 unmarshal o kv log p e) (payload-Coherent kv p r c)
    | inr (x, e) ↦ rw (apply-err S sha256 unmarshal o kv log x e) (λ q. c)
  ]
