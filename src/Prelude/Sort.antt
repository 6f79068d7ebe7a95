-- ===== src/Prelude/Sort.antt =====
-- `sort.Strings` of the standard library, and what the program relies on: the result is a sorted
-- permutation of its argument, so that it depends on the collection and not on its order.
use mathlib.Core.List.{List, [], ◌∷◌, foldr, Perm}
use mathlib.Core.List.Perm
use mathlib.Core.Path.{◌≡◌}
use mathlib.Core.Bool.{true}
use mathlib.Core.Logic.{inl, inr}
use native.Mathlib.Omega.{arith}
use node_decent_system.Prelude.Tests.{if◌then◌else◌, Bool-cases}
use node_decent_system.Prelude.Text.{Bytes, str_le, str_le_total, str_le_antisymm, str_le_trans}

insert_sorted : Bytes → List Bytes → List Bytes
insert_sorted a [] = a ∷ []
insert_sorted a (x ∷ xs) = if str_le a x then a ∷ x ∷ xs else x ∷ insert_sorted a xs

unfoldable pub sort_strings : List Bytes → List Bytes
unfolding insert_sorted
sort_strings = foldr insert_sorted []

insert_sorted-perm : (a : Bytes) (xs : List Bytes) → Perm (insert_sorted a xs) (a ∷ xs)
unfolding insert_sorted
insert_sorted-perm a [] = Perm.refl (a ∷ [])
insert_sorted-perm a (x ∷ xs) = elim (Bool-cases (str_le a x)) [
  | inl h ↦ rw h (Perm.refl (a ∷ x ∷ xs))
  | inr h ↦ rw h (Perm.trans (Perm.cons x (insert_sorted-perm a xs)) (Perm.swap a x xs))
]

pub sort_strings-perm : (xs : List Bytes) → Perm (sort_strings xs) xs
unfolding sort_strings
sort_strings-perm [] = Perm.refl []
sort_strings-perm (x ∷ xs) =
    Perm.trans (insert_sorted-perm x (sort_strings xs)) (Perm.cons x (sort_strings-perm xs))

-- Each element is at most the one after it.
abbrev pub IsSorted : List Bytes → Type 0
IsSorted [] = Unit
IsSorted (x ∷ []) = Unit
IsSorted (x ∷ y ∷ r) = (str_le x y ≡ true) × IsSorted (y ∷ r)

insert_sorted-IsSorted : (a : Bytes) (xs : List Bytes) → IsSorted xs → IsSorted (insert_sorted a xs)
unfolding insert_sorted
insert_sorted-IsSorted a [] h = tt
insert_sorted-IsSorted a (x ∷ []) h = ground (arith, str_le_total a x)
insert_sorted-IsSorted a (x ∷ y ∷ r) h =
    ground (arith, str_le_total a x, str_le_total a y, insert_sorted-IsSorted a (y ∷ r) h.1)

pub sort_strings-IsSorted : (xs : List Bytes) → IsSorted (sort_strings xs)
unfolding sort_strings
sort_strings-IsSorted [] = tt
sort_strings-IsSorted (x ∷ xs) =
    insert_sorted-IsSorted x (sort_strings xs) (sort_strings-IsSorted xs)

insert_sorted_comm :
    (a b : Bytes) (xs : List Bytes)
    → insert_sorted a (insert_sorted b xs) ≡ insert_sorted b (insert_sorted a xs)
unfolding insert_sorted
insert_sorted_comm a b [] = ground (arith, str_le_total a b, str_le_antisymm a b)
insert_sorted_comm a b (x ∷ xs) = ground (
  arith,
  str_le_total a b,
  str_le_antisymm a b,
  str_le_trans a b x,
  str_le_trans b a x,
  insert_sorted_comm a b xs,
)

-- Two orders of one collection sort to the same list.
pub sort_strings-Perm : {xs ys : List Bytes} → Perm xs ys → sort_strings xs ≡ sort_strings ys
unfolding sort_strings
sort_strings-Perm p = Perm.foldr-eq (hlevel) insert_sorted insert_sorted_comm p []
