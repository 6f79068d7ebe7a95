-- ===== src/Rwa.antt =====
-- plugins/rwa/ledger.go: the ledger of registered assets.
use node_decent_system.Prelude.{
  ℕ, ◌≡◌, refl, ◌∙◌, ◌⊎◌, true, false, Bool-cases, inl, inr, Option, none, some, Option-cases,
  Result-cases, List, [], ◌∷◌, arith, Result, ok, err, if◌then◌else◌, Bytes, Error, lit, str_eq,
  str_eq_iff,
}
use node_decent_system.GoMap.{GoMap, get-put, get-put_self}
use node_decent_system.GoMap

pub record RwaStateTransition : Type 0 where
  pub asset_id : Bytes
  pub total_shares : ℕ
  pub issuer_pub_key : Bytes

pub record Ledger : Type 0 where
  pub assets : GoMap ℕ

unfoldable pub new_ledger : Ledger
new_ledger = record { assets = [] }

-- The body of `Execute` after the decoding; `existing` is the entry of the asset.
register : Ledger → RwaStateTransition → Option ℕ → Ledger × Option Error
register l t (some shares) =
    (l, some (lit "RWA_FAULT: Asset ID already registered in sovereign ledger"))
register l t none = (record l { assets = GoMap.put l.assets t.asset_id t.total_shares }, none)

module _ (unmarshal : Bytes → Result Error RwaStateTransition) where
  unfoldable pub execute : Ledger → Bytes → Ledger × Option Error
  unfolding register
  execute l payload = elim (unmarshal payload) [
    | err e ↦ (l, some (lit "RWA_FAULT: Invalid payload serialization"))
    | ok t ↦ register l t (GoMap.get l.assets t.asset_id)
  ]

  -- The payloads of a history, executed in order.
  unfoldable pub run : Ledger → List Bytes → Ledger
  run l [] = l
  run l (p ∷ ps) = run (execute l p).0 ps

  register-keeps :
      (l : Ledger) (t : RwaStateTransition) (a : Bytes) (n : ℕ)
      → GoMap.get l.assets a ≡ some n
      → GoMap.get ((register l t (GoMap.get l.assets t.asset_id)).0).assets a ≡ some n
  unfolding register
  register-keeps l t a n h = elim (Option-cases (GoMap.get l.assets t.asset_id)) [
    | inr (m, e) ↦ rw e h
    | inl e ↦
        rw e
          (get-put l.assets t.asset_id a t.total_shares ∙ kept e (Bool-cases (str_eq t.asset_id a)))
  ]
    where
      kept :
          GoMap.get l.assets t.asset_id ≡ none
          → (str_eq t.asset_id a ≡ true) ⊎ (str_eq t.asset_id a ≡ false)
          → (if str_eq t.asset_id a then some t.total_shares else GoMap.get l.assets a) ≡ some n
      kept e c = ground (arith, str_eq_iff t.asset_id a)

  execute-keeps :
      (l : Ledger) (p a : Bytes) (n : ℕ)
      → GoMap.get l.assets a ≡ some n
      → GoMap.get ((execute l p).0).assets a ≡ some n
  unfolding execute
  execute-keeps l p a n h = elim (Result-cases (unmarshal p)) [
    | inl (t, e) ↦ rw (e, execute) (register-keeps l t a n h)
    | inr (x, e) ↦ rw (e, execute) h
  ]

  run-keeps_lem :
      (l : Ledger) (ps : List Bytes) (a : Bytes) (n : ℕ)
      → GoMap.get l.assets a ≡ some n
      → GoMap.get (run l ps).assets a ≡ some n
  unfolding run
  run-keeps_lem l [] a n h = h
  run-keeps_lem l (p ∷ ps) a n h = run-keeps_lem (execute l p).0 ps a n (execute-keeps l p a n h)

  -- A transition that registers an asset the ledger does not have is accepted, and whatever is
  -- executed after it, the asset keeps the shares it was registered with.
  pub registered_once :
      (l : Ledger) (p : Bytes) (t : RwaStateTransition) (later : List Bytes)
      → unmarshal p ≡ ok t
      → GoMap.get l.assets t.asset_id ≡ none
      → ((execute l p).1 ≡ none)
        × (GoMap.get (run l (p ∷ later)).assets t.asset_id ≡ some t.total_shares)
  unfolding execute run register
  registered_once l p t later decoded fresh = (
    rw (decoded, fresh, execute) refl,
    run-keeps_lem (execute l p).0 later t.asset_id t.total_shares
        (rw (decoded, fresh, execute) (get-put_self l.assets t.asset_id t.total_shares)),
  )
