-- ===== src/KvStore/Contents.antt =====
-- kvstate.go: what `Apply` does to the contents, the storage and the root, on every branch.
use node_decent_system.Prelude.{
  ◌≡◌, refl, false, Option, none, some, ◌++◌, Result, ok, err, Result-cases, Bool-cases, inl, inr,
  if◌then◌else◌, Bytes, Error, lit, str_eq, str_eq_refl,
}
use node_decent_system.GoMap.{GoMap, get-put, get-delete}
use node_decent_system.GoMap
use node_decent_system.GoMap.Range.{RangeOrder}
use node_decent_system.Interfaces.{Storage}
use node_decent_system.KvStore.{
  KvState, KvPayload, op_put, op_delete, recalculate_root, finish, store_put, store_delete,
  apply_payload, apply, apply-ok, apply-err, get,
}

-- The store as its clients see it.
abbrev pub View : Type 0
View = Bytes → Option Bytes

-- What a payload means: PUT binds the key, DELETE unbinds it, any other operation does nothing.
abbrev pub meaning : KvPayload → View → View
meaning p view j =
    if str_eq p.op op_put
    then (if str_eq p.key j then some p.value else view j)
    else if str_eq p.op op_delete
    then (if str_eq p.key j then none else view j)
    else view j

abbrev pub meaning_of : Result Error KvPayload → View → View
meaning_of (err e) view = view
meaning_of (ok p) view = meaning p view

op_delete≢op_put : str_eq op_delete op_put ≡ false
unfolding op_put op_delete str_eq
op_delete≢op_put = refl

module _ (sha256 : Bytes → Bytes) {Store : Type 0} (o : RangeOrder) where
  pub in_memory-finish :
      (kv : KvState Store) (context : Bytes) (e : Option Error)
      → (finish sha256 o kv context e).0.in_memory ≡ kv.in_memory
  unfolding finish recalculate_root
  in_memory-finish kv context none = refl
  in_memory-finish kv context (some e) = refl

  pub storage-finish :
      (kv : KvState Store) (context : Bytes) (e : Option Error)
      → (finish sha256 o kv context e).0.storage ≡ kv.storage
  unfolding finish recalculate_root
  storage-finish kv context none = refl
  storage-finish kv context (some e) = refl

  pub finish-ok :
      (kv : KvState Store) (context : Bytes) (e : Option Error) (r : Bytes)
      → (finish sha256 o kv context e).1 ≡ ok r
      → e ≡ none
  unfolding finish
  finish-ok kv context none r h = refl
  finish-ok kv context (some e) r h = cc

module _ (S : Storage) (sha256 : Bytes → Bytes) (unmarshal : Bytes → Result Error KvPayload)
    (o : RangeOrder) where
  payload_meaning :
      (kv : KvState S.Store) (p : KvPayload) (j : Bytes)
      → get (apply_payload S sha256 unmarshal o kv p).0 j ≡ meaning p (get kv) j
  unfolding apply_payload get
  payload_meaning kv p j = elim (Bool-cases (str_eq p.op op_put)) [
    | inl h ↦
        rw (h, in_memory-finish sha256 o (store_put S kv p.key p.value).0 _ _)
          (unfold store_put in get-put kv.in_memory p.key j p.value)
    | inr h ↦ elim (Bool-cases (str_eq p.op op_delete)) [
      | inl d ↦
          rw (h, d, in_memory-finish sha256 o (store_delete S kv p.key).0 _ _)
            (unfold store_delete in get-delete kv.in_memory p.key j)
      | inr d ↦ rw (h, d)
    ]
  ]

  -- `Apply` refines the meaning of its payload: whatever the storage reports, the map afterwards
  -- reads as the payload says, and a commit that is no payload changes no entry.
  pub get-apply :
      (kv : KvState S.Store) (log : Bytes) (j : Bytes)
      → get (apply S sha256 unmarshal o kv log).0 j ≡ meaning_of (unmarshal log) (get kv) j
  get-apply kv log j = elim (Result-cases (unmarshal log)) [
    | inl (p, e) ↦ rw (apply-ok S sha256 unmarshal o kv log p e, e) (payload_meaning kv p j)
    | inr (x, e) ↦ rw (apply-err S sha256 unmarshal o kv log x e, e)
  ]

  -- A PUT whose storage write fails reports an error and keeps the old root, although the entry is
  -- in the map: the root no longer describes the contents.
  pub put_error_keeps_entry :
      (kv : KvState S.Store) (log : Bytes) (p : KvPayload) (e : Error)
      → unmarshal log ≡ ok p
      → p.op ≡ op_put
      → (S.put kv.storage p.key p.value).1 ≡ some e
      → let (kv', r) = apply S sha256 unmarshal o kv log in
        (r ≡ err (lit "kv-store storage put error: " ++ e))
        × (kv'.state_root ≡ kv.state_root)
        × (get kv' p.key ≡ some p.value)
  unfolding apply_payload store_put finish get
  put_error_keeps_entry kv log p e hp ho he =
      rw (apply-ok S sha256 unmarshal o kv log p hp, ho, str_eq_refl op_put, he, finish)
        (refl, refl, GoMap.get-put_self kv.in_memory p.key p.value)
