-- ===== src/Kademlia/Buckets.antt =====
-- kademlia.go: what the operations on a bucket, and on the list of buckets, keep.
use node_decent_system.Prelude.{
  ℕ, zero, suc, ◌+◌, ◌≤◌, ◌<◌, ◌≡◌, inl, inr, refl, ap, subst, ◌∙◌, true, false, Bool-cases, List,
  [], ◌∷◌, ◌++◌, arith, if◌then◌else◌, Bytes, str_eq, str_eq_iff, length, length-append, All,
}
use node_decent_system.Kademlia.{
  PeerInfo, empty_buckets, bucket_at, set_bucket, known, replace, append_below_20,
}

-- No two peers of a bucket have one ID.
abbrev pub HasDistinctIds : List PeerInfo → Type 0
HasDistinctIds [] = Unit
HasDistinctIds (p ∷ ps) = (known p.id ps ≡ false) × HasDistinctIds ps

pub length-replace : (peer : PeerInfo) (ps : List PeerInfo) → length (replace peer ps) ≡ length ps
unfolding replace
length-replace peer [] = refl
length-replace peer (p ∷ ps) = ground (arith, length-replace peer ps)

length-append_below_20 :
    (peer : PeerInfo) (ps : List PeerInfo) → length ps ≤ 20 → length (append_below_20 peer ps) ≤ 20
unfolding append_below_20
length-append_below_20 peer ps h = ground (arith, length-append ps (peer ∷ []))

known-replace :
    (peer : PeerInfo) (ps : List PeerInfo) (i : Bytes) → known i (replace peer ps) ≡ known i ps
unfolding known replace
known-replace peer [] i = refl
known-replace peer (p ∷ ps) i = ground (
  arith,
  str_eq_iff p.id peer.id,
  str_eq_iff p.id i,
  str_eq_iff peer.id i,
  known-replace peer ps i,
)

pub replace-HasDistinctIds :
    (peer : PeerInfo) (ps : List PeerInfo) → HasDistinctIds ps → HasDistinctIds (replace peer ps)
unfolding replace
replace-HasDistinctIds peer [] h = tt
replace-HasDistinctIds peer (p ∷ ps) h = elim (Bool-cases (str_eq p.id peer.id)) [
  | inl e ↦ rw e (subst (λ i. known i ps ≡ false) ((str_eq_iff p.id peer.id).0 e) h.0, h.1)
  | inr e ↦ rw e (known-replace peer ps p.id ∙ h.0, replace-HasDistinctIds peer ps h.1)
]

known-append :
    (peer : PeerInfo) (ps : List PeerInfo) (i : Bytes)
    → known i (ps ++ peer ∷ []) ≡ (if known i ps then true else str_eq peer.id i)
unfolding known
known-append peer [] i = ground arith
known-append peer (p ∷ ps) i = ground (arith, known-append peer ps i)

pub append-HasDistinctIds :
    (peer : PeerInfo) (ps : List PeerInfo)
    → known peer.id ps ≡ false
    → HasDistinctIds ps
    → HasDistinctIds (ps ++ peer ∷ [])
unfolding known
append-HasDistinctIds peer [] k h = (refl, tt)
append-HasDistinctIds peer (p ∷ ps) k h =
    let rest : known peer.id ps ≡ false = ground arith in
    let other : str_eq peer.id p.id ≡ false =
      ground (arith, str_eq_iff p.id peer.id, str_eq_iff peer.id p.id) in
    (known-append peer ps p.id ∙ rw (h.0, other) refl, append-HasDistinctIds peer ps rest h.1)

pub replace-All :
    (P : PeerInfo → Type 0) (peer : PeerInfo) (ps : List PeerInfo)
    → P peer
    → All P ps
    → All P (replace peer ps)
unfolding replace
replace-All P peer [] h a = tt
replace-All P peer (p ∷ ps) h a = elim (Bool-cases (str_eq p.id peer.id)) [
  | inl e ↦ rw e (h, a.1)
  | inr e ↦ rw e (a.0, replace-All P peer ps h a.1)
]

-- A property of each bucket with its index.
abbrev pub Each : (ℕ → List PeerInfo → Type 0) → ℕ → List (List PeerInfo) → Type 0
Each P i [] = Unit
Each P i (b ∷ bs) = P i b × Each P (suc i) bs

pub Each-bucket_at :
    (P : ℕ → List PeerInfo → Type 0) (i : ℕ) (bs : List (List PeerInfo)) (j : ℕ)
    → j < length bs
    → Each P i bs
    → P (i + j) (bucket_at bs j)
unfolding bucket_at
Each-bucket_at P i [] j lt h = absurd (omega arith)
Each-bucket_at P i (b ∷ bs) zero lt h = subst (λ k. P k b) (omega arith) h.0
Each-bucket_at P i (b ∷ bs) (suc j) lt h =
    subst (λ k. P k (bucket_at bs j)) (omega arith)
      (Each-bucket_at P (suc i) bs j (omega arith) h.1)

pub Each-set_bucket :
    (P : ℕ → List PeerInfo → Type 0) (i : ℕ) (bs : List (List PeerInfo)) (j : ℕ) (c : List PeerInfo)
    → P (i + j) c
    → Each P i bs
    → Each P i (set_bucket bs j c)
unfolding set_bucket
Each-set_bucket P i [] j c p h = tt
Each-set_bucket P i (b ∷ bs) zero c p h = (subst (λ k. P k c) (omega arith) p, h.1)
Each-set_bucket P i (b ∷ bs) (suc j) c p h =
    (h.0, Each-set_bucket P (suc i) bs j c (subst (λ k. P k c) (omega arith) p) h.1)

pub length-set_bucket :
    (bs : List (List PeerInfo)) (j : ℕ) (c : List PeerInfo) → length (set_bucket bs j c) ≡ length bs
unfolding set_bucket
length-set_bucket [] j c = refl
length-set_bucket (b ∷ bs) zero c = refl
length-set_bucket (b ∷ bs) (suc j) c = ap suc (length-set_bucket bs j c)

pub Each-empty_buckets :
    (P : ℕ → List PeerInfo → Type 0) (i n : ℕ) → ((j : ℕ) → P j []) → Each P i (empty_buckets n)
unfolding empty_buckets
Each-empty_buckets P i zero h = tt
Each-empty_buckets P i (suc n) h = (h i, Each-empty_buckets P (suc i) n h)
