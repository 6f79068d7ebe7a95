-- ===== src/GoMap/Range.antt =====
-- `for k := range m`: the keys of a map, in an order that the runtime chooses anew for each loop.
use mathlib.Core.HLevel.{⊥_prop}
use mathlib.Core.List.{
  Nodup, Nodup-cons, Nodup-nil, not-mem-nil, mem-cons_self, mem-cons_of_mem, eq-or-mem_of_mem-cons,
  perm_ext_iff_of_Nodup,
}
use mathlib.Core.List.Perm
use mathlib.Core.Logic.Or
use node_decent_system.Prelude.{
  ◌≡◌, ◌↔◌, inl, inr, sym, ◌∙◌, none, some, List, [], ◌∷◌, Mem, Perm, arith, Bytes, str_eq,
  str_eq_iff, Bool-cases, Option-cases,
}
use node_decent_system.Prelude.Sort.{sort_strings, sort_strings-Perm}
use node_decent_system.GoMap.{GoMap, get, keys, IsMap}

-- The order in which a loop visits the given keys.
abbrev pub RangeOrder : Type 0
RangeOrder = List Bytes → List Bytes

-- A loop visits each key once, and no other.
abbrev pub IsRange : RangeOrder → Type 0
IsRange order = (ks : List Bytes) → Perm (order ks) ks

-- Two maps with the same entries.
abbrev pub SameMap {ℓ} : {V : Type ℓ} → GoMap V → GoMap V → Type ℓ
SameMap m n = (k : Bytes) → get m k ≡ get n k

module _ {ℓ} {V : Type ℓ} where
  pub not-mem_of_none : (m : GoMap V) (k : Bytes) → get m k ≡ none → ¬ Mem k (keys m)
  unfolding get keys
  not-mem_of_none [] k h = not-mem-nil
  not-mem_of_none ((j, v) ∷ m) k h = λ p.
      Or.elim ⊥_prop (eq-or-mem_of_mem-cons p) (λ e. ground (arith, str_eq_iff j k))
        (not-mem_of_none m k (ground arith))

  pub mem_of_some : (m : GoMap V) (k : Bytes) (v : V) → get m k ≡ some v → Mem k (keys m)
  unfolding get keys
  mem_of_some [] k v h = absurd (ground arith)
  mem_of_some ((j, w) ∷ m) k v h = elim (Bool-cases (str_eq j k)) [
    | inl e ↦ rw ((str_eq_iff j k).0 e) mem-cons_self
    | inr e ↦ mem-cons_of_mem j (mem_of_some m k v (ground arith))
  ]

  pub keys-Nodup : (m : GoMap V) → IsMap m → Nodup (keys m)
  unfolding keys
  keys-Nodup [] h = Nodup-nil
  keys-Nodup ((k, v) ∷ m) h =
      Nodup-cons.1 (unfold keys in not-mem_of_none m k h.0, keys-Nodup m h.1)

-- Two maps with the same keys, whatever their values.
abbrev pub SameKeys {ℓ} : {V : Type ℓ} → GoMap V → GoMap V → Type ℓ
SameKeys m n = (k : Bytes) → (get m k ≡ none) ↔ (get n k ≡ none)

module _ {ℓ} {V : Type ℓ} where
  mem-keys-SameKeys : (m n : GoMap V) (k : Bytes) → SameKeys m n → Mem k (keys m) → Mem k (keys n)
  mem-keys-SameKeys m n k s p = elim (Option-cases (get n k)) [
    | inl e ↦ absurd (not-mem_of_none m k ((s k).1 e) p)
    | inr (v, e) ↦ mem_of_some n k v e
  ]

  pub keys-SameKeys : (m n : GoMap V) → IsMap m → IsMap n → SameKeys m n → Perm (keys m) (keys n)
  keys-SameKeys m n hm hn s =
      (perm_ext_iff_of_Nodup (keys-Nodup m hm) (keys-Nodup n hn)).1
        (λ k. (mem-keys-SameKeys m n k s, mem-keys-SameKeys n m k (λ j. ((s j).1, (s j).0))))

  -- The code's idiom: collect the keys of a map in range order, then sort them.
  pub sort-range-SameKeys :
      (o p : RangeOrder) (m n : GoMap V)
      → IsRange o
      → IsRange p
      → IsMap m
      → IsMap n
      → SameKeys m n
      → sort_strings (o (keys m)) ≡ sort_strings (p (keys n))
  sort-range-SameKeys o p m n ho hp hm hn s =
      sort_strings-Perm (
        Perm.trans (ho (keys m)) (Perm.trans (keys-SameKeys m n hm hn s) (Perm.symm (hp (keys n)))))

  pub SameMap-SameKeys : (m n : GoMap V) → SameMap m n → SameKeys m n
  SameMap-SameKeys m n s k = (λ e. sym (s k) ∙ e, λ e. s k ∙ e)

  pub keys-SameMap : (m n : GoMap V) → IsMap m → IsMap n → SameMap m n → Perm (keys m) (keys n)
  keys-SameMap m n hm hn s = keys-SameKeys m n hm hn (SameMap-SameKeys m n s)

  pub sort-range-SameMap :
      (o p : RangeOrder) (m n : GoMap V)
      → IsRange o
      → IsRange p
      → IsMap m
      → IsMap n
      → SameMap m n
      → sort_strings (o (keys m)) ≡ sort_strings (p (keys n))
  sort-range-SameMap o p m n ho hp hm hn s =
      sort-range-SameKeys o p m n ho hp hm hn (SameMap-SameKeys m n s)
