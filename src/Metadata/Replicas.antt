-- ===== src/Metadata/Replicas.antt =====
-- Replicas of the metadata service that apply one sequence of commits.
use node_decent_system.Prelude.{
  ℕ, ◌≡◌, refl, ap, List, Result, ok, Result-cases, Bool-cases, inl, inr, Bytes, Error, str_eq, hex,
}
use node_decent_system.GoMap.{IsMap}
use node_decent_system.GoMap.Range.{RangeOrder, IsRange}
use node_decent_system.GoMap.Nested.{
  AgreeNested, hash_input-AgreeNested, put-AgreeNested, delete-AgreeNested,
}
use node_decent_system.Replication.{run, run-Keeps}
use node_decent_system.Metadata.{
  MetadataState, MetadataPayload, action_put_meta, action_del_meta, put_meta, del_meta,
  get_state_root, recalculate_root, finish, apply_payload, apply,
}

-- Two replicas hold the same metadata of the same objects, and the same root.
pub record Agree (s t : MetadataState) : Type 0 where
  pub objects : AgreeNested s.objects t.objects
  pub root : s.state_root ≡ t.state_root

-- The decoder makes a Go map of the metadata, which has each key once.
abbrev pub DecodesMaps : (Bytes → Result Error MetadataPayload) → Type 0
DecodesMaps unmarshal =
    (log : Bytes) (p : MetadataPayload) → unmarshal log ≡ ok p → IsMap p.metadata

module _ (sha256 : Bytes → Bytes) (unmarshal : Bytes → Result Error MetadataPayload)
    (o p : RangeOrder) (ho : IsRange o) (hp : IsRange p) where
  -- Two replicas report the same, and agree again.
  abbrev AgreeAfter :
      MetadataState × Result Error Bytes → MetadataState × Result Error Bytes → Type 0
  AgreeAfter x y = Agree x.0 y.0 × (x.1 ≡ y.1)

  finish-Agree :
      (s t : MetadataState)
      → AgreeNested s.objects t.objects
      → AgreeAfter (finish sha256 unmarshal o s) (finish sha256 unmarshal p t)
  unfolding finish recalculate_root get_state_root
  finish-Agree s t a =
      let r = ap (λ i. hex (sha256 i)) (hash_input-AgreeNested o p ho hp s.objects t.objects a) in
      (record { objects = a; root = r }, ap ok r)

  apply_payload-Agree :
      (s t : MetadataState) (c : MetadataPayload)
      → IsMap c.metadata
      → Agree s t
      → AgreeAfter (apply_payload sha256 unmarshal o s c) (apply_payload sha256 unmarshal p t c)
  unfolding apply_payload put_meta del_meta
  apply_payload-Agree s t c m a = elim (Bool-cases (str_eq c.action action_put_meta)) [
    | inl h ↦ rw h (
        finish-Agree _ _ (
          put-AgreeNested s.objects t.objects c.object_id c.metadata c.metadata a.objects m m
            (λ k. refl)))
    | inr h ↦ elim (Bool-cases (str_eq c.action action_del_meta)) [
      | inl d ↦
          rw (h, d)
            (finish-Agree _ _ (delete-AgreeNested s.objects t.objects c.object_id a.objects))
      | inr d ↦ rw (h, d) (a, refl)
    ]
  ]

  apply-Agree :
      DecodesMaps unmarshal
      → (s t : MetadataState) (log : Bytes) → Agree s t
      → AgreeAfter (apply sha256 unmarshal o s log) (apply sha256 unmarshal p t log)
  unfolding apply
  apply-Agree maps s t log a = elim (Result-cases (unmarshal log)) [
    | inl (c, e) ↦ rw (e, apply) (apply_payload-Agree s t c (maps log c e) a)
    | inr (c, e) ↦ rw (e, apply) (a, refl)
  ]

-- Replicas of the metadata service that agree, apply the same commits and range over their maps,
-- the outer and the inner ones, in any orders give the same replies, state roots included, and
-- agree at the end.
pub metadata_run-Agree :
    (sha256 : Bytes → Bytes) (unmarshal : Bytes → Result Error MetadataPayload)
    → DecodesMaps unmarshal
    → (orders orders' : ℕ → RangeOrder) → ((n : ℕ) → IsRange (orders n))
    → ((n : ℕ) → IsRange (orders' n))
    → (s t : MetadataState) (cs : List Bytes) → Agree s t
    → Agree
        (run (apply sha256 unmarshal) orders s cs).0
        (run (apply sha256 unmarshal) orders' t cs).0
      × ((run (apply sha256 unmarshal) orders s cs).1
          ≡ (run (apply sha256 unmarshal) orders' t cs).1)
metadata_run-Agree sha256 unmarshal maps o p ho hp s t cs a =
    run-Keeps (apply sha256 unmarshal) Agree
      (λ o p ho hp s t c. apply-Agree sha256 unmarshal o p ho hp maps s t c) o p ho hp s t cs a
