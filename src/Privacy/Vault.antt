-- ===== src/Privacy/Vault.antt =====
-- modules/privacy/vault.go: the store of private payloads of one jurisdiction.
use node_decent_system.Prelude.{
  ℕ, ◌≡◌, ◌≢◌, refl, Bool, true, false, Bool-cases, Option-cases, inl, inr, Option, none, some, [],
  arith, Result, ok, err, if◌then◌else◌, Bytes, Error, lit, str_eq, str_eq_iff,
}
use node_decent_system.GoMap.{GoMap, get-put, get-put_self}
use node_decent_system.GoMap

-- `[32]byte` hashes are byte sequences here.
pub record AnchoredTransaction : Type 0 where
  pub tx_id : Bytes
  pub jurisdiction_code : Bytes
  pub payload_hash : Bytes
  pub timestamp : ℕ

pub record PrivatePayload : Type 0 where
  pub tx_id : Bytes
  pub jurisdiction_code : Bytes
  pub encrypted_data : Bytes

pub record JurisdictionVault : Type 0 where
  pub node_jurisdiction : Bytes
  pub side_db : GoMap PrivatePayload

unfoldable pub new_jurisdiction_vault : Bytes → JurisdictionVault
new_jurisdiction_vault jurisdiction = record { node_jurisdiction = jurisdiction; side_db = [] }

unfoldable pub jurisdiction_violation : Error
jurisdiction_violation = lit "JURISDICTION_VIOLATION: Node is legally barred from holding this data"

unfoldable pub payload_missing : Error
payload_missing = lit "PAYLOAD_MISSING: Authorized node lacks side-channel data"

unfoldable pub cryptographic_fault : Error
cryptographic_fault = lit "CRYPTOGRAPHIC_FAULT: Side-channel payload does not match Raft anchor"

unfoldable pub store_if_authorized :
    JurisdictionVault → PrivatePayload → JurisdictionVault × Option Error
store_if_authorized v p =
    if str_eq p.jurisdiction_code v.node_jurisdiction
    then (record v { side_db = GoMap.put v.side_db p.tx_id p }, none)
    else (v, some jurisdiction_violation)

module _ (sha256 : Bytes → Bytes) where
  verified : Bytes → Option PrivatePayload → Result Error Bytes
  verified expected none = err payload_missing
  verified expected (some p) =
      if str_eq (sha256 p.encrypted_data) expected
      then ok p.encrypted_data
      else err cryptographic_fault

  unfoldable pub retrieve_and_verify : JurisdictionVault → Bytes → Bytes → Result Error Bytes
  unfolding verified
  retrieve_and_verify v tx_id expected = verified expected (GoMap.get v.side_db tx_id)

-- Every payload that the vault holds is of the node's own jurisdiction.
abbrev pub IsLawful : JurisdictionVault → Type 0
IsLawful v =
    (tx : Bytes) (p : PrivatePayload)
    → GoMap.get v.side_db tx ≡ some p
    → p.jurisdiction_code ≡ v.node_jurisdiction

IsLawful-put :
    (v : JurisdictionVault) (p : PrivatePayload)
    → p.jurisdiction_code ≡ v.node_jurisdiction
    → IsLawful v
    → IsLawful (record v { side_db = GoMap.put v.side_db p.tx_id p })
IsLawful-put v p own l tx q h = elim (Bool-cases (str_eq p.tx_id tx)) [
  | inl e ↦ ground (arith, get-put v.side_db p.tx_id tx p)
  | inr e ↦ l tx q (ground (arith, get-put v.side_db p.tx_id tx p))
]

-- A payload of another jurisdiction is refused and leaves no trace; one of the node's own is stored
-- under its transaction, the others stay, and the vault stays lawful.
pub store_if_authorized-IsLawful :
    (v : JurisdictionVault) (p : PrivatePayload)
    → IsLawful v
    → let (v', e) = store_if_authorized v p in
      IsLawful v'
      × (v'.node_jurisdiction ≡ v.node_jurisdiction)
      × (p.jurisdiction_code ≢ v.node_jurisdiction → (v' ≡ v) × (e ≡ some jurisdiction_violation))
      × (p.jurisdiction_code ≡ v.node_jurisdiction
          → (e ≡ none)
            × ((tx : Bytes)
                → GoMap.get v'.side_db tx
                  ≡ (if str_eq p.tx_id tx then some p else GoMap.get v.side_db tx)))
unfolding store_if_authorized
store_if_authorized-IsLawful v p l =
    elim (Bool-cases (str_eq p.jurisdiction_code v.node_jurisdiction)) [
      | inl e ↦
          let own = (str_eq_iff p.jurisdiction_code v.node_jurisdiction).0 e in
          rw e (
            IsLawful-put v p own l,
            refl,
            λ h. absurd (h own),
            λ h. (refl, λ tx. get-put v.side_db p.tx_id tx p),
          )
      | inr e ↦ rw e (
        l,
        refl,
        λ h. (refl, refl),
        λ h. absurd (differ ((str_eq_iff p.jurisdiction_code v.node_jurisdiction).1 h) e),
      )
    ]
  where
    differ : {b : Bool} → b ≡ true → b ≡ false → ⊥
    differ h k = cc

module _ (sha256 : Bytes → Bytes) where
  -- What the vault hands out has the hash that the anchor demands, and is the stored payload of the
  -- transaction.
  pub retrieve-verified :
      (v : JurisdictionVault) (tx_id expected payload : Bytes)
      → retrieve_and_verify sha256 v tx_id expected ≡ ok payload
      → (sha256 payload ≡ expected)
        × (p : PrivatePayload) × (GoMap.get v.side_db tx_id ≡ some p)
        × (p.encrypted_data ≡ payload)
  unfolding retrieve_and_verify
  retrieve-verified v tx_id expected payload h = elim (Option-cases (GoMap.get v.side_db tx_id)) [
    | inl e ↦ absurd (ground arith)
    | inr (p, e) ↦ (
      ground (arith, str_eq_iff (sha256 p.encrypted_data) expected),
      p,
      e,
      ground (arith, str_eq_iff (sha256 p.encrypted_data) expected),
    )
  ]
