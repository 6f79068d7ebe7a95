-- ===== src/Merkle.antt =====
-- applications/sovereign-chain/merkle_state.go: the authenticated state.
use node_decent_system.Prelude.{
  ℕ, zero, suc, ◌≤◌, ◌≡◌, ◌≢◌, refl, Bool, true, false, Option, none, some, List, [], ◌∷◌, ◌++◌,
  map, arith, Result, ok, err, Bytes, Error, lit, str_eq, str_eq_iff, str_eq_refl, length,
}
use node_decent_system.Prelude.Sort.{sort_strings}
use node_decent_system.GoMap.{GoMap, keys, get-put_self}
use node_decent_system.GoMap
use node_decent_system.Interfaces.{Storage}

pub record MerkleProofNode : Type 0 where
  pub hash : Bytes
  pub is_left : Bool

pub record MerkleState (Store : Type 0) : Type 0 where
  pub storage : Store
  pub kv_state : GoMap Bytes

unfoldable pub new_merkle_state : {Store : Type 0} → Store → MerkleState Store
new_merkle_state store = record { storage = store; kv_state = [] }

slice_at : Option Bytes → Bytes
slice_at none = []
slice_at (some v) = v

module _ (sha256 : Bytes → Bytes) where
  -- One level of the tree: neighbours are hashed together, an odd last one with itself.
  unfoldable pub next_level : List Bytes → List Bytes
  next_level [] = []
  next_level (h ∷ []) = sha256 (h ++ h) ∷ []
  next_level (h ∷ i ∷ hs) = sha256 (h ++ i) ∷ next_level hs

  -- With fuel for the recursion over the levels; `none` means that it ran out.
  unfoldable pub compute_merkle_root : ℕ → List Bytes → Option Bytes
  compute_merkle_root fuel [] = some (sha256 (lit "empty_state"))
  compute_merkle_root fuel (h ∷ []) = some h
  compute_merkle_root zero (h ∷ i ∷ hs) = none
  compute_merkle_root (suc fuel) (h ∷ i ∷ hs) = compute_merkle_root fuel (next_level (h ∷ i ∷ hs))

  unfoldable pub leaf_hash : Bytes → Bytes → Bytes
  leaf_hash key value = sha256 (key ++ value)

  -- The loop over the changes, in the order in which `range` visits them; the storage's errors are
  -- dropped.
  unfoldable pub write_changes :
      (S : Storage) → MerkleState S.Store → GoMap Bytes → MerkleState S.Store
  write_changes S m [] = m
  write_changes S m ((k, v) ∷ changes) =
      write_changes S
        (record { storage = (S.put m.storage k v).0; kv_state = GoMap.put m.kv_state k v }) changes

  unfoldable pub leaf_hashes : GoMap Bytes → List Bytes → List Bytes
  unfolding slice_at
  leaf_hashes state = map (λ k. leaf_hash k (slice_at (GoMap.get state k)))

  unfoldable pub apply_changes :
      (S : Storage) → MerkleState S.Store → GoMap Bytes → MerkleState S.Store × Option Bytes
  apply_changes S m changes =
      let m' = write_changes S m changes in
      let hashes = leaf_hashes m'.kv_state (sort_strings (keys changes)) in
      (m', compute_merkle_root (length hashes) hashes)

  proof_of : Bytes → Option Bytes → Result Error (List MerkleProofNode × Bytes)
  proof_of key none = err (lit "key not found in state")
  proof_of key (some v) = ok (record { hash = leaf_hash key v; is_left = true } ∷ [], v)

  unfoldable pub get_proof :
      {Store : Type 0} → MerkleState Store → Bytes → Result Error (List MerkleProofNode × Bytes)
  unfolding proof_of
  get_proof m key = proof_of key (GoMap.get m.kv_state key)

  unfoldable pub verify_proof : Bytes → Bytes → List MerkleProofNode → Bytes → Bool
  verify_proof key value [] root = false
  verify_proof key value (n ∷ ns) root = str_eq (leaf_hash key value) root

  length-next_level : (hs : List Bytes) → length (next_level hs) ≤ length hs
  unfolding next_level
  length-next_level [] = omega arith
  length-next_level (h ∷ []) = omega arith
  length-next_level (h ∷ i ∷ hs) = let r = length-next_level hs in omega arith

  compute_merkle_root-ends :
      (fuel : ℕ) (hs : List Bytes) → length hs ≤ fuel → compute_merkle_root fuel hs ≢ none
  unfolding compute_merkle_root next_level
  compute_merkle_root-ends fuel [] h = ground arith
  compute_merkle_root-ends fuel (x ∷ []) h = ground arith
  compute_merkle_root-ends zero (x ∷ y ∷ hs) h = absurd (omega arith)
  compute_merkle_root-ends (suc fuel) (x ∷ y ∷ hs) h =
      let r = length-next_level hs in
      compute_merkle_root-ends fuel (sha256 (x ++ y) ∷ next_level hs) (omega arith)

  -- Applying changes always gives a root: the fuel that the definition takes, the number of
  -- changed keys, is enough for the levels of the tree.
  pub apply_changes-ends :
      (S : Storage) (m : MerkleState S.Store) (changes : GoMap Bytes)
      → (apply_changes S m changes).1 ≢ none
  unfolding apply_changes
  apply_changes-ends S m changes =
      let hashes = leaf_hashes (write_changes S m changes).kv_state (sort_strings (keys changes)) in
      compute_merkle_root-ends (length hashes) hashes (omega arith)

  -- The proof of a key that the state holds verifies exactly against the hash of its own leaf, so
  -- that it verifies against the root of a state of one key, and against that of two keys only if
  -- the hash of the two leaves is the hash of one.
  pub verify_proof-get_proof :
      {Store : Type 0} (m : MerkleState Store) (key other value v' : Bytes)
      → GoMap.get m.kv_state key ≡ some value
      → let leaf = leaf_hash key value in
        (get_proof m key ≡ ok (record { hash = leaf; is_left = true } ∷ [], value))
        × (compute_merkle_root 1 (leaf ∷ []) ≡ some leaf)
        × (verify_proof key value (record { hash = leaf; is_left = true } ∷ []) leaf ≡ true)
        × ((root : Bytes)
            → compute_merkle_root 2 (leaf ∷ leaf_hash other v' ∷ []) ≡ some root
            → root ≢ leaf
            → verify_proof key value (record { hash = leaf; is_left = true } ∷ []) root ≡ false)
  unfolding get_proof proof_of compute_merkle_root verify_proof
  verify_proof-get_proof m key other value v' held = (
    rw (held, get_proof) refl,
    refl,
    str_eq_refl (leaf_hash key value),
    λ root e differ. ground (arith, str_eq_iff (leaf_hash key value) root),
  )
