-- ===== src/KvStore.antt =====
-- applications/kv-store/kvstate.go: the key-value store's state machine.
pub mod Root
pub mod Replicas
pub mod Contents
pub mod Coherence
use node_decent_system.Prelude.{
  ◌≡◌, refl, Bool, true, false, Option, none, some, List, [], ◌∷◌, ◌++◌, arith, Result, ok, err,
  if◌then◌else◌, Bytes, Error, lit, str_eq, hex,
}
use node_decent_system.Prelude.Sort.{sort_strings}
use node_decent_system.GoMap.{GoMap, keys}
use node_decent_system.GoMap
use node_decent_system.GoMap.Range.{RangeOrder}
use node_decent_system.Interfaces.{Storage}

unfoldable pub op_put : Bytes
unfolding lit
op_put = lit "PUT"

unfoldable pub op_delete : Bytes
unfolding lit
op_delete = lit "DELETE"

pub record KvPayload : Type 0 where
  pub op : Bytes
  pub key : Bytes
  pub value : Bytes

pub record KvState (Store : Type 0) : Type 0 where
  pub storage : Store
  pub in_memory : GoMap Bytes
  pub state_root : Bytes

unfoldable pub new_kv_state : {Store : Type 0} → Store → KvState Store
new_kv_state store = record { storage = store; in_memory = []; state_root = lit "kv_genesis_root" }

-- `m[k]` of a byte slice: a missing key reads as the empty slice.
abbrev pub slice_at : Option Bytes → Bytes
slice_at none = []
slice_at (some v) = v

-- What the loop writes to the hash: each key with its value, in the order of the keys.
unfoldable pub hash_input : GoMap Bytes → List Bytes → Bytes
hash_input m [] = []
hash_input m (k ∷ ks) = k ++ (slice_at (GoMap.get m k) ++ hash_input m ks)

unfoldable pub get : {Store : Type 0} → KvState Store → Bytes → Option Bytes
get kv key = GoMap.get kv.in_memory key

-- The hash, the JSON decoder and the storage are not part of this code.
module _ (sha256 : Bytes → Bytes) where
  unfoldable pub recalculate_root : {Store : Type 0} → RangeOrder → KvState Store → KvState Store
  recalculate_root order kv = record kv {
    state_root = hex (sha256 (hash_input kv.in_memory (sort_strings (order (keys kv.in_memory)))));
  }

  -- The end of `Apply`, after the `switch`: an error of the storage returns before it.
  unfoldable pub finish :
      {Store : Type 0}
      → RangeOrder
      → KvState Store
      → Bytes
      → Option Error
      → KvState Store × Result Error Bytes
  finish order kv context (some e) = (kv, err (context ++ e))
  finish order kv context none = let kv' = recalculate_root order kv in (kv', ok kv'.state_root)

module _ (S : Storage) where
  -- The two mutating branches of the `switch`, with what the storage reports.
  unfoldable pub store_put : KvState S.Store → Bytes → Bytes → KvState S.Store × Option Error
  store_put kv key value =
      let (storage', e) = S.put kv.storage key value in
      (record kv { in_memory = GoMap.put kv.in_memory key value; storage = storage' }, e)

  unfoldable pub store_delete : KvState S.Store → Bytes → KvState S.Store × Option Error
  store_delete kv key =
      let (storage', e) = S.delete kv.storage key in
      (record kv { in_memory = GoMap.delete kv.in_memory key; storage = storage' }, e)

module _ (S : Storage) (sha256 : Bytes → Bytes) (unmarshal : Bytes → Result Error KvPayload) where
  unfoldable pub apply_payload :
      RangeOrder → KvState S.Store → KvPayload → KvState S.Store × Result Error Bytes
  apply_payload order kv p =
      if str_eq p.op op_put
      then (let (kv', e) = store_put S kv p.key p.value in
          finish sha256 order kv' (lit "kv-store storage put error: ") e)
      else if str_eq p.op op_delete
      then (let (kv', e) = store_delete S kv p.key in
          finish sha256 order kv' (lit "kv-store storage delete error: ") e)
      else (kv, err (lit "unsupported kv operation: " ++ p.op))

  unfoldable pub apply : RangeOrder → KvState S.Store → Bytes → KvState S.Store × Result Error Bytes
  apply order kv commit_log = elim (unmarshal commit_log) [
    | err e ↦ (kv, err (lit "kv-store failed to unmarshal commit payload: " ++ e))
    | ok p ↦ apply_payload order kv p
  ]

  pub apply-ok :
      (order : RangeOrder) (kv : KvState S.Store) (log : Bytes) (p : KvPayload)
      → unmarshal log ≡ ok p
      → apply order kv log ≡ apply_payload order kv p
  unfolding apply
  apply-ok order kv log p h = rw (h, apply)

  pub apply-err :
      (order : RangeOrder) (kv : KvState S.Store) (log : Bytes) (e : Error)
      → unmarshal log ≡ err e
      → apply order kv log ≡ (kv, err (lit "kv-store failed to unmarshal commit payload: " ++ e))
  unfolding apply
  apply-err order kv log e h = rw (h, apply)
