-- ===== src/Config.antt =====
-- applications/dist-config/configstate.go: configuration values in namespaces.
pub mod Replicas
use node_decent_system.Prelude.{
  ◌≡◌, refl, sym, ap, ◌∙◌, Bool-cases, Option, none, some, Option-cases, inl, inr, List, [], ◌∷◌,
  ◌++◌, Result, ok, err, if◌then◌else◌, Bytes, Error, lit, str_eq, str_eq_iff, hex,
}
use node_decent_system.Prelude.Sort.{sort_strings}
use node_decent_system.GoMap.{GoMap, keys, get-put, get-delete}
use node_decent_system.GoMap
use node_decent_system.GoMap.Range.{RangeOrder}
use node_decent_system.GoMap.Nested.{inner, hash_input}

unfoldable pub action_set_config : Bytes
action_set_config = lit "SET"

unfoldable pub action_del_config : Bytes
action_del_config = lit "DEL"

pub record ConfigPayload : Type 0 where
  pub action : Bytes
  pub namespace : Bytes
  pub key : Bytes
  pub value : Bytes

-- The storage that the state holds is never used by this code.
pub record ConfigState : Type 0 where
  pub configs : GoMap (GoMap Bytes)
  pub state_root : Bytes

unfoldable pub new_config_state : ConfigState
new_config_state = record { configs = []; state_root = lit "config_genesis_root" }

lookup : Option (GoMap Bytes) → Bytes → Option Bytes
lookup none key = none
lookup (some sub) key = GoMap.get sub key

unfoldable pub get_config : ConfigState → Bytes → Bytes → Option Bytes
unfolding lookup
get_config cs ns key = lookup (GoMap.get cs.configs ns) key

-- The namespace is made before the action is looked at.
ensure : GoMap (GoMap Bytes) → Bytes → Option (GoMap Bytes) → GoMap (GoMap Bytes)
ensure m ns none = GoMap.put m ns []
ensure m ns (some sub) = m

unfoldable pub ensure_namespace : ConfigState → Bytes → ConfigState
unfolding ensure
ensure_namespace cs ns = record cs { configs = ensure cs.configs ns (GoMap.get cs.configs ns) }

-- `cs.configs[ns][key] = value`, of a namespace that is there.
unfoldable pub set_config : ConfigState → Bytes → Bytes → Bytes → ConfigState
unfolding inner
set_config cs ns key value = record cs {
  configs = GoMap.put cs.configs ns (GoMap.put (inner (GoMap.get cs.configs ns)) key value);
}

unfoldable pub del_config : ConfigState → Bytes → Bytes → ConfigState
unfolding inner
del_config cs ns key = record cs {
  configs = GoMap.put cs.configs ns (GoMap.delete (inner (GoMap.get cs.configs ns)) key);
}

module _ (sha256 : Bytes → Bytes) (unmarshal : Bytes → Result Error ConfigPayload) where
  unfoldable pub recalculate_root : RangeOrder → ConfigState → ConfigState
  recalculate_root order cs = record cs {
    state_root =
        hex (sha256 (hash_input order cs.configs (sort_strings (order (keys cs.configs)))));
  }

  unfoldable pub finish : RangeOrder → ConfigState → ConfigState × Result Error Bytes
  finish order cs = let cs' = recalculate_root order cs in (cs', ok cs'.state_root)

  unfoldable pub apply_payload :
      RangeOrder → ConfigState → ConfigPayload → ConfigState × Result Error Bytes
  apply_payload order cs p =
      let cs' = ensure_namespace cs p.namespace in
      if str_eq p.action action_set_config
      then finish order (set_config cs' p.namespace p.key p.value)
      else if str_eq p.action action_del_config
      then finish order (del_config cs' p.namespace p.key)
      else (cs', err (lit "unsupported config action: " ++ p.action))

  unfoldable pub apply : RangeOrder → ConfigState → Bytes → ConfigState × Result Error Bytes
  apply order cs commit_log = elim (unmarshal commit_log) [
    | err e ↦ (cs, err (lit "dist-config failed to unmarshal payload: " ++ e))
    | ok p ↦ apply_payload order cs p
  ]

-- The reading of a namespace that may be missing.
lookup-inner : (o : Option (GoMap Bytes)) (key : Bytes) → lookup o key ≡ GoMap.get (inner o) key
unfolding lookup inner GoMap.get
lookup-inner none key = refl
lookup-inner (some m) key = refl

get-ensure :
    (cs : ConfigState) (ns n k : Bytes)
    → get_config (ensure_namespace cs ns) n k ≡ get_config cs n k
unfolding get_config ensure_namespace ensure
get-ensure cs ns n k = elim (Option-cases (GoMap.get cs.configs ns)) [
  | inr (sub, h) ↦ rw h refl
  | inl h ↦ elim (Bool-cases (str_eq ns n)) [
    | inl same ↦
        rw (h, get-put cs.configs ns n [], same, ← (str_eq_iff ns n).0 same, h)
          (unfold lookup GoMap.get in refl)
    | inr other ↦ rw (h, get-put cs.configs ns n [], other) refl
  ]
]

-- Setting a value changes what is read at its namespace and key, and nothing else.
get-set_config :
    (cs : ConfigState) (ns key value n k : Bytes)
    → get_config (set_config cs ns key value) n k ≡ (
        if str_eq ns n
        then (if str_eq key k then some value else get_config cs n k)
        else get_config cs n k)
unfolding get_config set_config
get-set_config cs ns key value n k = elim (Bool-cases (str_eq ns n)) [
  | inl same ↦
      rw
        (
          get-put cs.configs ns n (GoMap.put (inner (GoMap.get cs.configs ns)) key value),
          same,
          ← (str_eq_iff ns n).0 same,
        )
        (unfold lookup in
          get-put (inner (GoMap.get cs.configs ns)) key k value
          ∙ ap (λ o. if str_eq key k then some value else o)
              (sym (lookup-inner (GoMap.get cs.configs ns) k)))
  | inr other ↦
      rw (get-put cs.configs ns n (GoMap.put (inner (GoMap.get cs.configs ns)) key value), other)
        refl
]

get-del_config :
    (cs : ConfigState) (ns key n k : Bytes)
    → get_config (del_config cs ns key) n k ≡ (
        if str_eq ns n
        then (if str_eq key k then none else get_config cs n k)
        else get_config cs n k)
unfolding get_config del_config
get-del_config cs ns key n k = elim (Bool-cases (str_eq ns n)) [
  | inl same ↦
      rw
        (
          get-put cs.configs ns n (GoMap.delete (inner (GoMap.get cs.configs ns)) key),
          same,
          ← (str_eq_iff ns n).0 same,
        )
        (unfold lookup in
          get-delete (inner (GoMap.get cs.configs ns)) key k
          ∙ ap (λ o. if str_eq key k then none else o)
              (sym (lookup-inner (GoMap.get cs.configs ns) k)))
  | inr other ↦
      rw (get-put cs.configs ns n (GoMap.delete (inner (GoMap.get cs.configs ns)) key), other) refl
]

-- What a payload means for the value at a namespace and key: a SET there writes its value, a DEL
-- there removes it, any other payload leaves the value.
unfoldable pub meaning : ConfigPayload → Bytes → Bytes → Option Bytes → Option Bytes
meaning p n k old =
    if str_eq p.action action_set_config
    then (if str_eq p.namespace n then (if str_eq p.key k then some p.value else old) else old)
    else if str_eq p.action action_del_config
    then (if str_eq p.namespace n then (if str_eq p.key k then none else old) else old)
    else old

module _ (sha256 : Bytes → Bytes) (unmarshal : Bytes → Result Error ConfigPayload) where
  get_config-finish :
      (order : RangeOrder) (cs : ConfigState) (n k : Bytes)
      → get_config (finish sha256 unmarshal order cs).0 n k ≡ get_config cs n k
  unfolding finish recalculate_root get_config
  get_config-finish order cs n k = refl

  -- After a payload is applied, with whatever action, each namespace and key holds what the payload
  -- means for it.
  pub get_config-apply :
      (order : RangeOrder) (cs : ConfigState) (log : Bytes) (p : ConfigPayload) (n k : Bytes)
      → unmarshal log ≡ ok p
      → get_config (apply sha256 unmarshal order cs log).0 n k ≡ meaning p n k (get_config cs n k)
  unfolding apply apply_payload meaning
  get_config-apply order cs log p n k decoded =
      rw (decoded, apply)
        (elim (Bool-cases (str_eq p.action action_set_config)) [
          | inl set ↦ rw set (
              get_config-finish order _ n k
              ∙ get-set_config (ensure_namespace cs p.namespace) p.namespace p.key p.value n k
              ∙ rw (get-ensure cs p.namespace n k) refl)
          | inr h ↦ elim (Bool-cases (str_eq p.action action_del_config)) [
            | inl del ↦
                rw (h, del)
                  (get_config-finish order _ n k
                    ∙ get-del_config (ensure_namespace cs p.namespace) p.namespace p.key n k
                    ∙ rw (get-ensure cs p.namespace n k) refl)
            | inr d ↦ rw (h, d) (get-ensure cs p.namespace n k)
          ]
        ])
