-- ===== src/Kademlia/Table.antt =====
-- kademlia.go: what the buckets of a node hold, and which distances select them.
use native.Mathlib.Nat.{pow-suc}
use node_decent_system.Prelude.{
  ℕ, zero, suc, ◌+◌, ◌-◌, ◌*◌, ◌^◌, ◌≤◌, ◌<◌, ◌≡◌, ◌≢◌, ◌↔◌, inl, inr, refl, sym, ap, subst, ◌∙◌,
  false, Bool-cases, List, [], ◌∷◌, arith, ltb, if◌then◌else◌, Bytes, length, length-append, All,
  All-append, ltb→lt,
}
use node_decent_system.GoMap.{GoMap, put}
use node_decent_system.Kademlia.Distance.{
  IsDigest, xor_bytes_comm, xor_bytes-below, set_bytes-zero_iff, bit_len-below, bit_len-range,
  bit_len, set_bytes, xor_bytes,
}
use node_decent_system.Kademlia.{
  PeerInfo, KademliaDht, Operation, add, adjust, new_kademlia_dht, empty_buckets, bucket_at,
  set_bucket, known, replace, append_below_20, adjust_peer_score, xor_distance, bucket_index,
  add_peer, perform,
}
use node_decent_system.Kademlia.Buckets.{
  length-replace, replace-HasDistinctIds, append-HasDistinctIds, replace-All, Each-bucket_at,
  Each-set_bucket, length-set_bucket, Each-empty_buckets, HasDistinctIds, Each,
}

length-empty_buckets : (n : ℕ) → length (empty_buckets n) ≡ n
unfolding empty_buckets
length-empty_buckets zero = refl
length-empty_buckets (suc n) = ap suc (length-empty_buckets n)

module _ (sha256 : Bytes → Bytes) where
  -- At most 20 peers, with different IDs, whose distance selects this bucket.
  abbrev pub IsBucket : Bytes → ℕ → List PeerInfo → Type 0
  IsBucket local i ps =
      (length ps ≤ 20) × HasDistinctIds ps × All (λ p. bucket_index sha256 local p.id ≡ i) ps

  pub record IsTable (k : KademliaDht) : Type 0 where
    pub count : length k.buckets ≡ 256
    pub each : Each (IsBucket k.local_node_id) 0 k.buckets

  bucket_index-below : (local target : Bytes) → bucket_index sha256 local target < 256
  unfolding bucket_index
  bucket_index-below local target = ground arith

  append_below_20-IsBucket :
      (local : Bytes) (peer : PeerInfo) (b : List PeerInfo) (i : ℕ)
      → known peer.id b ≡ false
      → bucket_index sha256 local peer.id ≡ i
      → IsBucket local i b
      → IsBucket local i (append_below_20 peer b)
  unfolding append_below_20
  append_below_20-IsBucket local peer b i new here old = elim (Bool-cases (ltb (length b) 20)) [
    | inl e ↦ rw e (
      unfold append_below_20 in omega (arith, length-append b (peer ∷ []), ltb→lt (length b) 20 e),
      append-HasDistinctIds peer b new old.1,
      All-append _ b (peer ∷ []) old.2 (here, tt),
    )
    | inr e ↦ rw e old
  ]

  replace-IsBucket :
      (local : Bytes) (peer : PeerInfo) (b : List PeerInfo) (i : ℕ)
      → bucket_index sha256 local peer.id ≡ i
      → IsBucket local i b
      → IsBucket local i (replace peer b)
  replace-IsBucket local peer b i here old = (
    subst (λ n. n ≤ 20) (sym (length-replace peer b)) old.0,
    replace-HasDistinctIds peer b old.1,
    replace-All _ peer b here old.2,
  )

  -- A table whose i-th bucket is replaced by another for that place.
  set_bucket-IsTable :
      (k : KademliaDht) (i : ℕ) (c : List PeerInfo) (scores : GoMap ℕ)
      → IsTable k
      → IsBucket k.local_node_id i c
      → IsTable (record k { buckets = set_bucket k.buckets i c; peer_scores = scores })
  set_bucket-IsTable k i c scores h p = record {
    count = length-set_bucket k.buckets i c ∙ h.count;
    each =
        Each-set_bucket (IsBucket k.local_node_id) 0 k.buckets i c
          (subst (λ j. IsBucket k.local_node_id j c) (omega arith) p) h.each;
  }

  add_peer-IsTable :
      (k : KademliaDht) (peer : PeerInfo) → IsTable k → IsTable (add_peer sha256 k peer)
  unfolding add_peer
  add_peer-IsTable k peer h =
      let i = bucket_index sha256 k.local_node_id peer.id in
      let b = bucket_at k.buckets i in
      let old : IsBucket k.local_node_id i b =
        subst (λ j. IsBucket k.local_node_id j b) (omega arith)
          (Each-bucket_at (IsBucket k.local_node_id) 0 k.buckets i
            (subst (λ n. i < n) (sym h.count) (bucket_index-below k.local_node_id peer.id))
            h.each) in
      elim (Bool-cases (known peer.id b)) [
        | inl e ↦ rw e (
            set_bucket-IsTable k i (replace peer b) k.peer_scores h
              (replace-IsBucket k.local_node_id peer b i refl old))
        | inr e ↦ rw e (
            set_bucket-IsTable k i (append_below_20 peer b) (put k.peer_scores peer.id peer.score) h
              (append_below_20-IsBucket k.local_node_id peer b i e refl old))
      ]

  operations-IsTable :
      (k : KademliaDht) (os : List Operation) → IsTable k → IsTable (perform sha256 k os)
  unfolding perform adjust_peer_score
  operations-IsTable k [] h = h
  operations-IsTable k (add peer ∷ os) h =
      operations-IsTable (add_peer sha256 k peer) os (add_peer-IsTable k peer h)
  operations-IsTable k (adjust peer_id delta ∷ os) h =
      operations-IsTable _ os (record { count = h.count; each = h.each })

  -- Whatever peers a node adds and whatever scores it adjusts, its table keeps 256 buckets, each
  -- with at most 20 peers, whose IDs differ and whose distance from the node selects that bucket.
  pub perform-IsTable :
      (node_id : Bytes) (os : List Operation)
      → IsTable (perform sha256 (new_kademlia_dht node_id) os)
  unfolding new_kademlia_dht
  perform-IsTable node_id os = operations-IsTable (new_kademlia_dht node_id) os (record {
    count = length-empty_buckets 256;
    each = Each-empty_buckets (IsBucket node_id) 0 256 (λ j. (omega arith, tt, tt));
  })

-- The distances of a hash that gives digests: the same both ways, 0 just between nodes whose IDs
-- have one digest, and otherwise the bucket i that one selects is the one for the distances from
-- 2 ^ i up to, but not including, 2 ^ (i + 1).
pub bucket_index-range :
    (sha256 : Bytes → Bytes)
    → ((s : Bytes) → IsDigest (sha256 s))
    → (local target : Bytes)
    → let d = xor_distance sha256 local target in
      let i = bucket_index sha256 local target in
      (d ≡ xor_distance sha256 target local)
      × ((d ≡ 0) ↔ (sha256 local ≡ sha256 target))
      × (d ≢ 0 → (2 ^ i ≤ d) × (d < 2 ^ (i + 1)))
unfolding xor_distance bucket_index
bucket_index-range sha256 digests local target =
    let d = set_bytes (xor_bytes (sha256 local) (sha256 target)) in
    (
      ap set_bytes
          (xor_bytes_comm (sha256 local) (sha256 target) (digests local).1 (digests target).1),
      set_bytes-zero_iff (sha256 local) (sha256 target) (digests local) (digests target),
      λ ne.
          located d (bit_len d) ne
            (bit_len-below d 256 (xor_bytes-below _ _ (digests local) (digests target)))
            (bit_len-range d),
    )
  where
    positive : (d : ℕ) → d ≢ 0 → 0 < d
    positive zero ne = absurd (ne refl)
    positive (suc d) ne = omega arith

    located :
        (d n : ℕ)
        → d ≢ 0
        → n ≤ 256
        → (d < 2 ^ n) × (0 < d → 2 ^ n ≤ 2 * d)
        → let i = if ltb (n - 1) 256 then n - 1 else 255 in (2 ^ i ≤ d) × (d < 2 ^ (i + 1))
    located d zero ne below h = absurd (ne (omega (arith, h.0)))
    located d (suc n) ne below h =
        let here : (if ltb (suc n - 1) 256 then suc n - 1 else 255) ≡ n = ground arith in
        let double = pow-suc 2 n in
        let next : suc n ≡ n + 1 = omega arith in
        subst (λ i. (2 ^ i ≤ d) × (d < 2 ^ (i + 1))) (sym here)
          (
            omega (arith, h.1 (omega (arith, positive d ne)), double),
            subst (λ m. d < 2 ^ m) next h.0,
          )
