-- ===== src/GoMap/Nested.antt =====
-- Maps of maps, as configstate.go and metastate.go keep them, and what their roots hash.
use node_decent_system.Prelude.{
  ◌≡◌, ◌↔◌, refl, ap, ap₂, ◌∙◌, inl, inr, Bool-cases, Option, none, some, List, [], ◌∷◌, ◌++◌,
  Bytes, arith, str_eq,
}
use node_decent_system.Prelude.Sort.{sort_strings}
use node_decent_system.GoMap.{GoMap, keys, IsMap, get-put, get-delete, put-IsMap, delete-IsMap}
use node_decent_system.GoMap
use node_decent_system.GoMap.Range.{
  RangeOrder, IsRange, SameMap, sort-range-SameMap, sort-range-SameKeys,
}

-- A missing inner map reads as the empty one, a missing string as the empty string.
unfoldable pub inner : Option (GoMap Bytes) → GoMap Bytes
inner none = []
inner (some m) = m

string_at : Option Bytes → Bytes
string_at none = []
string_at (some v) = v

inner_input : GoMap Bytes → List Bytes → Bytes
unfolding string_at
inner_input m [] = []
inner_input m (k ∷ ks) = k ++ (string_at (GoMap.get m k) ++ inner_input m ks)

-- What the two loops write to the hash.
unfoldable pub hash_input : RangeOrder → GoMap (GoMap Bytes) → List Bytes → Bytes
unfolding inner inner_input
hash_input order m [] = []
hash_input order m (ns ∷ rest) =
    let sub = inner (GoMap.get m ns) in
    ns ++ (inner_input sub (sort_strings (order (keys sub))) ++ hash_input order m rest)

-- Both lack the inner map, or both have one, with the same entries.
abbrev pub SameInner : Option (GoMap Bytes) → Option (GoMap Bytes) → Type 0
SameInner none none = Unit
SameInner none (some n) = ⊥
SameInner (some m) none = ⊥
SameInner (some m) (some n) = IsMap m × IsMap n × SameMap m n

abbrev pub SameNested : GoMap (GoMap Bytes) → GoMap (GoMap Bytes) → Type 0
SameNested m n = (k : Bytes) → SameInner (GoMap.get m k) (GoMap.get n k)

-- The two maps of maps are maps, with the same entries.
pub record AgreeNested (m n : GoMap (GoMap Bytes)) : Type 0 where
  pub left_map : IsMap m
  pub right_map : IsMap n
  pub entries : SameNested m n

SameInner-none : (a b : Option (GoMap Bytes)) → SameInner a b → (a ≡ none) ↔ (b ≡ none)
SameInner-none none none h = (λ e. refl, λ e. refl)
SameInner-none none (some n) h = absurd h
SameInner-none (some m) none h = absurd h
SameInner-none (some m) (some n) h = (λ e. absurd (ground arith), λ e. absurd (ground arith))

pub SameInner-inner :
    (a b : Option (GoMap Bytes)) → SameInner a b → SameInner (some (inner a)) (some (inner b))
unfolding inner
SameInner-inner none none h = (tt, tt, λ k. refl)
SameInner-inner none (some n) h = absurd h
SameInner-inner (some m) none h = absurd h
SameInner-inner (some m) (some n) h = h

inner_input-SameMap :
    (m n : GoMap Bytes) (ks : List Bytes) → SameMap m n → inner_input m ks ≡ inner_input n ks
unfolding inner_input
inner_input-SameMap m n [] h = refl
inner_input-SameMap m n (k ∷ ks) h = rw (h k, inner_input-SameMap m n ks h)

module _ (o p : RangeOrder) (ho : IsRange o) (hp : IsRange p) where
  hash_input-SameNested :
      (m n : GoMap (GoMap Bytes)) (ks : List Bytes)
      → SameNested m n
      → hash_input o m ks ≡ hash_input p n ks
  unfolding hash_input
  hash_input-SameNested m n [] h = refl
  hash_input-SameNested m n (k ∷ ks) h =
      let sub = inner (GoMap.get m k) in
      let sub' = inner (GoMap.get n k) in
      let s = SameInner-inner (GoMap.get m k) (GoMap.get n k) (h k) in
      ap (◌++◌ k) (
        ap₂ ◌++◌
          (ap (inner_input sub) (sort-range-SameMap o p sub sub' ho hp s.0 s.1 s.2)
            ∙ inner_input-SameMap sub sub' (sort_strings (p (keys sub'))) s.2)
          (hash_input-SameNested m n ks h))

  -- What is hashed depends on the entries alone.
  pub hash_input-AgreeNested :
      (m n : GoMap (GoMap Bytes))
      → AgreeNested m n
      → hash_input o m (sort_strings (o (keys m))) ≡ hash_input p n (sort_strings (p (keys n)))
  hash_input-AgreeNested m n a =
      ap (hash_input o m) (
        sort-range-SameKeys o p m n ho hp a.left_map a.right_map
          (λ k. SameInner-none (GoMap.get m k) (GoMap.get n k) (a.entries k)))
      ∙ hash_input-SameNested m n (sort_strings (p (keys n))) a.entries

-- The two writes keep the agreement.
pub put-AgreeNested :
    (m n : GoMap (GoMap Bytes)) (k : Bytes) (a b : GoMap Bytes)
    → AgreeNested m n
    → IsMap a
    → IsMap b
    → SameMap a b
    → AgreeNested (GoMap.put m k a) (GoMap.put n k b)
put-AgreeNested m n k a b h ha hb same = record {
  left_map = put-IsMap m k a h.left_map;
  right_map = put-IsMap n k b h.right_map;
  entries = λ j.
      rw (get-put m k j a, get-put n k j b)
        (elim (Bool-cases (str_eq k j)) [
          | inl e ↦ rw e (ha, hb, same)
          | inr e ↦ rw e (h.entries j)
        ]);
}

pub delete-AgreeNested :
    (m n : GoMap (GoMap Bytes)) (k : Bytes)
    → AgreeNested m n
    → AgreeNested (GoMap.delete m k) (GoMap.delete n k)
delete-AgreeNested m n k h = record {
  left_map = delete-IsMap m k h.left_map;
  right_map = delete-IsMap n k h.right_map;
  entries = λ j.
      rw (get-delete m k j, get-delete n k j)
        (elim (Bool-cases (str_eq k j)) [ inl e ↦ rw e tt | inr e ↦ rw e (h.entries j) ]);
}
