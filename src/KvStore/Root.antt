-- ===== src/KvStore/Root.antt =====
-- kvstate.go: the state root of replicas with the same contents, whose loops visit them in
-- different orders.
use node_decent_system.Prelude.{
  ◌≡◌, refl, ap, ◌∙◌, Option, none, some, List, [], ◌∷◌, Result, ok, Result-cases, Bool-cases, inl,
  inr, Bytes, Error, str_eq, hex,
}
use node_decent_system.GoMap.{GoMap, IsMap, get-put, get-delete, put-IsMap, delete-IsMap}
use node_decent_system.GoMap.Range.{RangeOrder, IsRange, SameMap, sort-range-SameMap}
use node_decent_system.Interfaces.{Storage}
use node_decent_system.KvStore.{
  KvState, KvPayload, op_put, op_delete, hash_input, recalculate_root, finish, store_put,
  store_delete, apply_payload, apply,
}

-- Two replicas hold the same entries, storage and root; the order of the entries is their own.
pub record Agree {Store : Type 0} (s t : KvState Store) : Type 0 where
  pub left_map : IsMap s.in_memory
  pub right_map : IsMap t.in_memory
  pub entries : SameMap s.in_memory t.in_memory
  pub storage : s.storage ≡ t.storage
  pub root : s.state_root ≡ t.state_root

hash_input-SameMap :
    (m n : GoMap Bytes) (ks : List Bytes) → SameMap m n → hash_input m ks ≡ hash_input n ks
unfolding hash_input
hash_input-SameMap m n [] h = refl
hash_input-SameMap m n (k ∷ ks) h = rw (h k, hash_input-SameMap m n ks h)

module _ (sha256 : Bytes → Bytes) {Store : Type 0} (o p : RangeOrder) (ho : IsRange o)
    (hp : IsRange p) where
  pub recalculate_root-SameMap :
      (s t : KvState Store)
      → IsMap s.in_memory
      → IsMap t.in_memory
      → SameMap s.in_memory t.in_memory
      → (recalculate_root sha256 o s).state_root ≡ (recalculate_root sha256 p t).state_root
  unfolding recalculate_root
  recalculate_root-SameMap s t hs ht h =
      ap (λ i. hex (sha256 i))
        (ap (hash_input s.in_memory) (sort-range-SameMap o p s.in_memory t.in_memory ho hp hs ht h)
          ∙ hash_input-SameMap s.in_memory t.in_memory _ h)

  finish-Agree :
      (s t : KvState Store) (context : Bytes) (e : Option Error)
      → Agree s t
      → Agree (finish sha256 o s context e).0 (finish sha256 p t context e).0
        × ((finish sha256 o s context e).1 ≡ (finish sha256 p t context e).1)
  unfolding finish
  finish-Agree s t context (some e) a = (a, refl)
  finish-Agree s t context none a =
      let r = recalculate_root-SameMap s t a.left_map a.right_map a.entries in
      (
        unfold recalculate_root in
            record {
              left_map = a.left_map;
              right_map = a.right_map;
              entries = a.entries;
              storage = a.storage;
              root = unfold recalculate_root in r;
            },
        ap ok r,
      )

module _ (S : Storage) where
  store_put-Agree :
      (s t : KvState S.Store) (k v : Bytes)
      → Agree s t
      → Agree (store_put S s k v).0 (store_put S t k v).0
        × ((store_put S s k v).1 ≡ (store_put S t k v).1)
  unfolding store_put
  store_put-Agree s t k v a = (
    record {
      left_map = put-IsMap s.in_memory k v a.left_map;
      right_map = put-IsMap t.in_memory k v a.right_map;
      entries =
          λ j. rw (get-put s.in_memory k j v) (rw (get-put t.in_memory k j v) (rw (a.entries j)));
      storage = ap (λ x. (S.put x k v).0) a.storage;
      root = a.root;
    },
    ap (λ x. (S.put x k v).1) a.storage,
  )

  store_delete-Agree :
      (s t : KvState S.Store) (k : Bytes)
      → Agree s t
      → Agree (store_delete S s k).0 (store_delete S t k).0
        × ((store_delete S s k).1 ≡ (store_delete S t k).1)
  unfolding store_delete
  store_delete-Agree s t k a = (
    record {
      left_map = delete-IsMap s.in_memory k a.left_map;
      right_map = delete-IsMap t.in_memory k a.right_map;
      entries =
          λ j. rw (get-delete s.in_memory k j) (rw (get-delete t.in_memory k j) (rw (a.entries j)));
      storage = ap (λ x. (S.delete x k).0) a.storage;
      root = a.root;
    },
    ap (λ x. (S.delete x k).1) a.storage,
  )

module _ (S : Storage) (sha256 : Bytes → Bytes) (unmarshal : Bytes → Result Error KvPayload)
    (o p : RangeOrder) (ho : IsRange o) (hp : IsRange p) where
  -- Two replicas that agree and apply one payload report the same, and agree again.
  abbrev AgreeAfter :
      KvState S.Store × Result Error Bytes → KvState S.Store × Result Error Bytes → Type 0
  AgreeAfter x y = Agree x.0 y.0 × (x.1 ≡ y.1)

  apply_payload-Agree :
      (s t : KvState S.Store) (c : KvPayload)
      → Agree s t
      → AgreeAfter (apply_payload S sha256 unmarshal o s c) (apply_payload S sha256 unmarshal p t c)
  unfolding apply_payload
  apply_payload-Agree s t c a = elim (Bool-cases (str_eq c.op op_put)) [
    | inl h ↦
        let (a', e) = store_put-Agree S s t c.key c.value a in
        rw (h, e) (finish-Agree sha256 o p ho hp _ _ _ (store_put S t c.key c.value).1 a')
    | inr h ↦ elim (Bool-cases (str_eq c.op op_delete)) [
      | inl d ↦
          let (a', e) = store_delete-Agree S s t c.key a in
          rw (h, d, e) (finish-Agree sha256 o p ho hp _ _ _ (store_delete S t c.key).1 a')
      | inr d ↦ rw (h, d) (a, refl)
    ]
  ]

  pub apply-Agree :
      (s t : KvState S.Store) (log : Bytes)
      → Agree s t
      → Agree (apply S sha256 unmarshal o s log).0 (apply S sha256 unmarshal p t log).0
        × ((apply S sha256 unmarshal o s log).1 ≡ (apply S sha256 unmarshal p t log).1)
  unfolding apply
  apply-Agree s t log a = elim (Result-cases (unmarshal log)) [
    | inl (c, e) ↦ rw (e, apply) (apply_payload-Agree s t c a)
    | inr (c, e) ↦ rw (e, apply) (a, refl)
  ]
