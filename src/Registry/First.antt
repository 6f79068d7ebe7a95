-- ===== src/Registry/First.antt =====
-- registry.go: sequences of registrations.
use node_decent_system.Prelude.{
  ◌≡◌, refl, sym, ap, ◌∙◌, ◌⊎◌, true, false, Bool-cases, Option, none, some, Option-cases, inl, inr,
  List, [], ◌∷◌, if◌then◌else◌, Bytes, Error, str_eq, str_eq_iff,
}
use node_decent_system.GoMap
use node_decent_system.Registry.{ServiceRegistry, register, get, register_lem}

or_else : {A : Type 0} → Option A → Option A → Option A
or_else none o = o
or_else (some x) o = some x

or_else-none : {A : Type 0} (o : Option A) → or_else o none ≡ o
unfolding or_else
or_else-none none = refl
or_else-none (some x) = refl

or_else_assoc : {A : Type 0} (a b c : Option A) → or_else (or_else a b) c ≡ or_else a (or_else b c)
unfolding or_else
or_else_assoc none b c = refl
or_else_assoc (some x) b c = refl

module _ {Svc : Type 0} (name : Svc → Bytes) (health : Svc → Option Error) where
  -- The services registered one after the other, refusals ignored.
  abbrev pub register_all : ServiceRegistry name health → List Svc → ServiceRegistry name health
  register_all r [] = r
  register_all r (s ∷ ss) = register_all (register name health r s).0 ss

  -- The first service of a name.
  abbrev pub first_named : List Svc → Bytes → Option Svc
  first_named [] n = none
  first_named (s ∷ ss) n = let rest = first_named ss n in if str_eq (name s) n then some s else rest

  one_registered :
      (r : ServiceRegistry name health) (s : Svc) (n : Bytes)
      → get name health (register name health r s).0 n
        ≡ or_else (get name health r n) (if str_eq (name s) n then some s else none)
  unfolding get
  one_registered r s n = elim (Option-cases (GoMap.get r (name s))) [
    | inl h ↦ ((register_lem name health r s).0 h).1 n ∙ fresh h (Bool-cases (str_eq (name s) n))
    | inr (old, h) ↦
        ap (λ q. GoMap.get q n) ((register_lem name health r s).1 old h).0
        ∙ taken old h (Bool-cases (str_eq (name s) n))
  ]
    where
      fresh :
          GoMap.get r (name s) ≡ none
          → (str_eq (name s) n ≡ true) ⊎ (str_eq (name s) n ≡ false)
          → (if str_eq (name s) n then some s else GoMap.get r n)
            ≡ or_else (GoMap.get r n) (if str_eq (name s) n then some s else none)
      fresh h (inl e) = rw (e, ← (str_eq_iff (name s) n).0 e, h) (unfold or_else in refl)
      fresh h (inr e) = rw e (sym (or_else-none (GoMap.get r n)))

      taken :
          (old : Svc)
          → GoMap.get r (name s) ≡ some old
          → (str_eq (name s) n ≡ true) ⊎ (str_eq (name s) n ≡ false)
          → GoMap.get r n ≡ or_else (GoMap.get r n) (if str_eq (name s) n then some s else none)
      taken old h (inl e) = rw (e, ← (str_eq_iff (name s) n).0 e, h) (unfold or_else in refl)
      taken old h (inr e) = rw e (sym (or_else-none (GoMap.get r n)))

  all_registered :
      (r : ServiceRegistry name health) (ss : List Svc) (n : Bytes)
      → get name health (register_all r ss) n ≡ or_else (get name health r n) (first_named ss n)
  all_registered r [] n = sym (or_else-none (get name health r n))
  all_registered r (s ∷ ss) n =
      all_registered (register name health r s).0 ss n
      ∙ ap (λ o. or_else o (first_named ss n)) (one_registered r s n)
      ∙ or_else_assoc (get name health r n) (if str_eq (name s) n then some s else none)
          (first_named ss n)
      ∙ ap (or_else (get name health r n)) (first (Bool-cases (str_eq (name s) n)))
    where
      first :
          (str_eq (name s) n ≡ true) ⊎ (str_eq (name s) n ≡ false)
          → or_else (if str_eq (name s) n then some s else none) (first_named ss n)
            ≡ first_named (s ∷ ss) n
      first (inl e) = rw e (unfold or_else in refl)
      first (inr e) = rw e (unfold or_else in refl)

  -- After any sequence of registrations at a new registry, a name stands for the first service that
  -- was registered under it, and for none if there was none.
  pub get-register_all :
      (ss : List Svc) (n : Bytes) → get name health (register_all [] ss) n ≡ first_named ss n
  unfolding get or_else GoMap.get
  get-register_all ss n = all_registered [] ss n
