-- ===== src/Metadata.antt =====
-- applications/metadata-service/metastate.go: metadata of objects.
pub mod Replicas
use node_decent_system.Prelude.{
  ◌≡◌, refl, ◌∙◌, Bool-cases, Option, none, some, inl, inr, [], ◌++◌, Result, ok, err,
  if◌then◌else◌, Bytes, Error, lit, str_eq, hex,
}
use node_decent_system.Prelude.Sort.{sort_strings}
use node_decent_system.GoMap.{GoMap, keys, get-put, get-delete}
use node_decent_system.GoMap
use node_decent_system.GoMap.Range.{RangeOrder}
use node_decent_system.GoMap.Nested.{hash_input}

unfoldable pub action_put_meta : Bytes
action_put_meta = lit "PUT_META"

unfoldable pub action_del_meta : Bytes
action_del_meta = lit "DEL_META"

pub record MetadataPayload : Type 0 where
  pub action : Bytes
  pub object_id : Bytes
  pub metadata : GoMap Bytes

-- The storage that the state holds is never used by this code.
pub record MetadataState : Type 0 where
  pub objects : GoMap (GoMap Bytes)
  pub state_root : Bytes

unfoldable pub new_metadata_state : MetadataState
new_metadata_state = record { objects = []; state_root = lit "meta_genesis_root" }

unfoldable pub get_metadata : MetadataState → Bytes → Option (GoMap Bytes)
get_metadata ms object_id = GoMap.get ms.objects object_id

unfoldable pub get_state_root : MetadataState → Bytes
get_state_root ms = ms.state_root

-- The two branches of the `switch` that change the objects.
unfoldable pub put_meta : MetadataState → Bytes → GoMap Bytes → MetadataState
put_meta ms object_id metadata = record ms { objects = GoMap.put ms.objects object_id metadata }

unfoldable pub del_meta : MetadataState → Bytes → MetadataState
del_meta ms object_id = record ms { objects = GoMap.delete ms.objects object_id }

-- The hash and the JSON decoder are not part of this code.
module _ (sha256 : Bytes → Bytes) (unmarshal : Bytes → Result Error MetadataPayload) where
  unfoldable pub recalculate_root : RangeOrder → MetadataState → MetadataState
  recalculate_root order ms = record ms {
    state_root =
        hex (sha256 (hash_input order ms.objects (sort_strings (order (keys ms.objects)))));
  }

  unfoldable pub finish : RangeOrder → MetadataState → MetadataState × Result Error Bytes
  finish order ms = let ms' = recalculate_root order ms in (ms', ok (get_state_root ms'))

  unfoldable pub apply_payload :
      RangeOrder → MetadataState → MetadataPayload → MetadataState × Result Error Bytes
  apply_payload order ms p =
      if str_eq p.action action_put_meta
      then finish order (put_meta ms p.object_id p.metadata)
      else if str_eq p.action action_del_meta
      then finish order (del_meta ms p.object_id)
      else (ms, err (lit "unsupported meta action: " ++ p.action))

  unfoldable pub apply : RangeOrder → MetadataState → Bytes → MetadataState × Result Error Bytes
  apply order ms commit_log = elim (unmarshal commit_log) [
    | err e ↦ (ms, err (lit "metadata-service failed to unmarshal payload: " ++ e))
    | ok p ↦ apply_payload order ms p
  ]

-- What a payload means for an object: a PUT_META of it replaces its metadata as a whole, a DEL_META
-- of it removes it, any other payload leaves it.
unfoldable pub meaning : MetadataPayload → Bytes → Option (GoMap Bytes) → Option (GoMap Bytes)
meaning p i old =
    if str_eq p.action action_put_meta
    then (if str_eq p.object_id i then some p.metadata else old)
    else if str_eq p.action action_del_meta
    then (if str_eq p.object_id i then none else old)
    else old

module _ (sha256 : Bytes → Bytes) (unmarshal : Bytes → Result Error MetadataPayload) where
  -- After a payload is applied, with whatever action, each object has the metadata that the payload
  -- means for it.
  pub get_metadata-apply :
      (order : RangeOrder) (ms : MetadataState) (log : Bytes) (p : MetadataPayload) (i : Bytes)
      → unmarshal log ≡ ok p
      → get_metadata (apply sha256 unmarshal order ms log).0 i ≡ meaning p i (get_metadata ms i)
  unfolding apply apply_payload finish recalculate_root put_meta del_meta get_metadata meaning
  get_metadata-apply order ms log p i decoded =
      rw (decoded, apply)
        (elim (Bool-cases (str_eq p.action action_put_meta)) [
          | inl put ↦ rw put (get-put ms.objects p.object_id i p.metadata)
          | inr h ↦ elim (Bool-cases (str_eq p.action action_del_meta)) [
            | inl del ↦ rw (h, del) (get-delete ms.objects p.object_id i)
            | inr d ↦ rw (h, d) refl
          ]
        ])
