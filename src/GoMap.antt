-- ===== src/GoMap.antt =====
-- Go's `map[string]V`: an association list in which each key occurs at most once. `range` over a
-- map visits the keys in an order that the runtime chooses, so that the order is an argument of
-- the code that ranges (see GoMap/Range.antt).
pub mod Range
pub mod Nested
use node_decent_system.Prelude.{
  ◌≡◌, refl, Bool, true, false, Option, none, some, List, [], ◌∷◌, map, arith, if◌then◌else◌, Bytes,
  str_eq, str_eq_iff, str_eq_refl,
}

abbrev pub GoMap {ℓ} : Type ℓ → Type ℓ
GoMap V = List (Bytes × V)

module _ {ℓ} {V : Type ℓ} where
  -- `v, ok := m[k]`
  unfoldable pub get : GoMap V → Bytes → Option V
  get [] k = none
  get ((j, v) ∷ m) k = if str_eq j k then some v else get m k

  -- `m[k] = v`
  unfoldable pub put : GoMap V → Bytes → V → GoMap V
  put [] k v = (k, v) ∷ []
  put ((j, w) ∷ m) k v = if str_eq j k then (k, v) ∷ m else (j, w) ∷ put m k v

  -- `delete(m, k)`
  unfoldable pub delete : GoMap V → Bytes → GoMap V
  delete [] k = []
  delete ((j, w) ∷ m) k = let rest = delete m k in if str_eq j k then rest else (j, w) ∷ rest

  -- The keys, in the order of the representation.
  unfoldable pub keys : GoMap V → List Bytes
  keys = map (λ e. e.0)

  -- No key occurs twice.
  abbrev pub IsMap : GoMap V → Type ℓ
  IsMap [] = Unit
  IsMap ((k, v) ∷ m) = (get m k ≡ none) × IsMap m

  pub get-put :
      (m : GoMap V) (k j : Bytes) (v : V)
      → get (put m k v) j ≡ (if str_eq k j then some v else get m j)
  unfolding get put
  get-put [] k j v = refl
  get-put ((i, w) ∷ m) k j v =
      ground (arith, str_eq_iff k j, str_eq_iff i k, str_eq_iff i j, get-put m k j v)

  pub get-put_self : (m : GoMap V) (k : Bytes) (v : V) → get (put m k v) k ≡ some v
  get-put_self m k v = rw (get-put m k k v) (rw (str_eq_refl k))

  pub get-delete :
      (m : GoMap V) (k j : Bytes) → get (delete m k) j ≡ (if str_eq k j then none else get m j)
  unfolding get delete
  get-delete [] k j = ground arith
  get-delete ((i, w) ∷ m) k j =
      ground (arith, str_eq_iff k j, str_eq_iff i k, str_eq_iff i j, get-delete m k j)

  pub put-IsMap : (m : GoMap V) (k : Bytes) (v : V) → IsMap m → IsMap (put m k v)
  unfolding get put
  put-IsMap [] k v h = (refl, tt)
  put-IsMap ((i, w) ∷ m) k v h =
      ground (arith, str_eq_iff i k, str_eq_iff k i, get-put m k i v, put-IsMap m k v h.1)

  pub delete-IsMap : (m : GoMap V) (k : Bytes) → IsMap m → IsMap (delete m k)
  unfolding get delete
  delete-IsMap [] k h = tt
  delete-IsMap ((i, w) ∷ m) k h = ground (arith, get-delete m k i, delete-IsMap m k h.1)
