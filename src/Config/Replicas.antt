-- ===== src/Config/Replicas.antt =====
-- Replicas of the configuration service that apply one sequence of commits.
use node_decent_system.Prelude.{
  ℕ, ◌≡◌, refl, ap, List, Result, ok, Result-cases, Bool-cases, Option, none, some, inl, inr, [],
  Bytes, Error, str_eq, hex,
}
use node_decent_system.GoMap.{GoMap, get-put, get-delete, put-IsMap, delete-IsMap}
use node_decent_system.GoMap
use node_decent_system.GoMap.Range.{RangeOrder, IsRange}
use node_decent_system.GoMap.Nested.{
  inner, AgreeNested, SameInner, SameInner-inner, hash_input-AgreeNested, put-AgreeNested,
}
use node_decent_system.Replication.{run, run-Keeps}
use node_decent_system.Config.{
  ConfigState, ConfigPayload, action_set_config, action_del_config, ensure, ensure_namespace,
  set_config, del_config, recalculate_root, finish, apply_payload, apply,
}

-- Two replicas hold the same values in the same namespaces, and the same root.
pub record Agree (s t : ConfigState) : Type 0 where
  pub configs : AgreeNested s.configs t.configs
  pub root : s.state_root ≡ t.state_root

ensure-AgreeNested :
    (m n : GoMap (GoMap Bytes)) (ns : Bytes) (a b : Option (GoMap Bytes))
    → AgreeNested m n
    → SameInner a b
    → AgreeNested (ensure m ns a) (ensure n ns b)
unfolding ensure
ensure-AgreeNested m n ns none none h e = put-AgreeNested m n ns [] [] h tt tt (λ k. refl)
ensure-AgreeNested m n ns none (some b) h e = absurd e
ensure-AgreeNested m n ns (some a) none h e = absurd e
ensure-AgreeNested m n ns (some a) (some b) h e = h

ensure_namespace-Agree :
    (s t : ConfigState) (ns : Bytes)
    → Agree s t
    → Agree (ensure_namespace s ns) (ensure_namespace t ns)
unfolding ensure_namespace
ensure_namespace-Agree s t ns a = record {
  configs =
      ensure-AgreeNested s.configs t.configs ns (GoMap.get s.configs ns) (GoMap.get t.configs ns)
        a.configs (a.configs.entries ns);
  root = a.root;
}

set_config-Agree :
    (s t : ConfigState) (ns key value : Bytes)
    → Agree s t
    → Agree (set_config s ns key value) (set_config t ns key value)
unfolding set_config
set_config-Agree s t ns key value a =
    let m = inner (GoMap.get s.configs ns) in
    let n = inner (GoMap.get t.configs ns) in
    let i =
      SameInner-inner (GoMap.get s.configs ns) (GoMap.get t.configs ns) (a.configs.entries ns) in
    record {
      configs =
          put-AgreeNested s.configs t.configs ns (GoMap.put m key value) (GoMap.put n key value)
            a.configs (put-IsMap m key value i.0) (put-IsMap n key value i.1)
            (λ k. rw (get-put m key k value, get-put n key k value, i.2 k) refl);
      root = a.root;
    }

del_config-Agree :
    (s t : ConfigState) (ns key : Bytes)
    → Agree s t
    → Agree (del_config s ns key) (del_config t ns key)
unfolding del_config
del_config-Agree s t ns key a =
    let m = inner (GoMap.get s.configs ns) in
    let n = inner (GoMap.get t.configs ns) in
    let i =
      SameInner-inner (GoMap.get s.configs ns) (GoMap.get t.configs ns) (a.configs.entries ns) in
    record {
      configs =
          put-AgreeNested s.configs t.configs ns (GoMap.delete m key) (GoMap.delete n key) a.configs
            (delete-IsMap m key i.0) (delete-IsMap n key i.1)
            (λ k. rw (get-delete m key k, get-delete n key k, i.2 k) refl);
      root = a.root;
    }

module _ (sha256 : Bytes → Bytes) (unmarshal : Bytes → Result Error ConfigPayload)
    (o p : RangeOrder) (ho : IsRange o) (hp : IsRange p) where
  -- Two replicas report the same, and agree again.
  abbrev AgreeAfter : ConfigState × Result Error Bytes → ConfigState × Result Error Bytes → Type 0
  AgreeAfter x y = Agree x.0 y.0 × (x.1 ≡ y.1)

  finish-Agree :
      (s t : ConfigState)
      → AgreeNested s.configs t.configs
      → AgreeAfter (finish sha256 unmarshal o s) (finish sha256 unmarshal p t)
  unfolding finish recalculate_root
  finish-Agree s t a =
      let r = ap (λ i. hex (sha256 i)) (hash_input-AgreeNested o p ho hp s.configs t.configs a) in
      (record { configs = a; root = r }, ap ok r)

  apply_payload-Agree :
      (s t : ConfigState) (c : ConfigPayload)
      → Agree s t
      → AgreeAfter (apply_payload sha256 unmarshal o s c) (apply_payload sha256 unmarshal p t c)
  unfolding apply_payload
  apply_payload-Agree s t c a =
      let there = ensure_namespace-Agree s t c.namespace a in
      elim (Bool-cases (str_eq c.action action_set_config)) [
        | inl h ↦
            rw h (finish-Agree _ _ (set_config-Agree _ _ c.namespace c.key c.value there).configs)
        | inr h ↦ elim (Bool-cases (str_eq c.action action_del_config)) [
          | inl d ↦
              rw (h, d) (finish-Agree _ _ (del_config-Agree _ _ c.namespace c.key there).configs)
          | inr d ↦ rw (h, d) (there, refl)
        ]
      ]

  apply-Agree :
      (s t : ConfigState) (log : Bytes)
      → Agree s t
      → AgreeAfter (apply sha256 unmarshal o s log) (apply sha256 unmarshal p t log)
  unfolding apply
  apply-Agree s t log a = elim (Result-cases (unmarshal log)) [
    | inl (c, e) ↦ rw (e, apply) (apply_payload-Agree s t c a)
    | inr (c, e) ↦ rw (e, apply) (a, refl)
  ]

-- Replicas of the configuration service that agree, apply the same commits and range over their
-- maps, the outer and the inner ones, in any orders give the same replies, state roots included,
-- and agree at the end.
pub config_run-Agree :
    (sha256 : Bytes → Bytes) (unmarshal : Bytes → Result Error ConfigPayload)
    (orders orders' : ℕ → RangeOrder)
    → ((n : ℕ) → IsRange (orders n))
    → ((n : ℕ) → IsRange (orders' n))
    → (s t : ConfigState) (cs : List Bytes) → Agree s t
    → Agree
        (run (apply sha256 unmarshal) orders s cs).0
        (run (apply sha256 unmarshal) orders' t cs).0
      × ((run (apply sha256 unmarshal) orders s cs).1
          ≡ (run (apply sha256 unmarshal) orders' t cs).1)
config_run-Agree sha256 unmarshal o p ho hp s t cs a =
    run-Keeps (apply sha256 unmarshal) Agree
      (λ o p ho hp s t c. apply-Agree sha256 unmarshal o p ho hp s t c) o p ho hp s t cs a
