-- ===== src/Privacy/Fetcher.antt =====
-- modules/privacy/fetcher.go: payloads fetched from the peers of the jurisdiction.
use node_decent_system.Prelude.{
  ◌≡◌, refl, ap, ◌∙◌, Bool, true, false, Option, none, some, ◌++◌, Result, ok, err, if◌then◌else◌,
  Bytes, Error, lit, str_eq, str_eq_refl,
}
use node_decent_system.GoMap.{get-put_self}
use node_decent_system.GoMap
use node_decent_system.Privacy.Vault.{
  JurisdictionVault, PrivatePayload, store_if_authorized, retrieve_and_verify, cryptographic_fault,
}

-- `PeerNetwork.RequestPayload` for a transaction and a jurisdiction; a time-out is an error.
abbrev pub PeerNetwork : Type 0
PeerNetwork = Bytes → Bytes → Result Error Bytes

-- `vault` is none when the fetcher has the vault of the router that it serves, and otherwise the vault
-- of its own that it was built with. The time-out of 5 seconds is part of the network.
pub record SideChannelFetcher : Type 0 where
  pub network : PeerNetwork
  pub vault : Option JurisdictionVault

unfoldable pub new_side_channel_fetcher :
    PeerNetwork → Option JurisdictionVault → SideChannelFetcher
new_side_channel_fetcher network vault = record { network = network; vault = vault }

-- The vault that the fetcher works on.
unfoldable pub vault_of : Option JurisdictionVault → JurisdictionVault → JurisdictionVault
vault_of none shared = shared
vault_of (some own) shared = own

abbrev pub error_of : Result Error Bytes → Option Error
error_of (ok b) = none
error_of (err e) = some e

-- A payload of the vault's own jurisdiction, and the vault that holds it.
abbrev pub own_payload : JurisdictionVault → Bytes → Bytes → PrivatePayload
own_payload v tx_id b = record {
  tx_id = tx_id;
  jurisdiction_code = v.node_jurisdiction;
  encrypted_data = b;
}

abbrev pub holding : JurisdictionVault → Bytes → Bytes → JurisdictionVault
holding v tx_id b = record v { side_db = GoMap.put v.side_db tx_id (own_payload v tx_id b) }

error_of-if :
    (c : Bool) (b : Bytes) (e : Error)
    → error_of (if c then ok b else err e) ≡ (if c then none else some e)
error_of-if true b e = refl
error_of-if false b e = refl

module _ (sha256 : Bytes → Bytes) where
  -- After the vault took the payload, or refused it.
  verify_stored :
      Bytes → Bytes → JurisdictionVault × Option Error → JurisdictionVault × Option Error
  verify_stored tx_id expected (v, some e) = (v, some e)
  verify_stored tx_id expected (v, none) =
      (v, error_of (retrieve_and_verify sha256 v tx_id expected))

  store_fetched :
      JurisdictionVault → Bytes → Bytes → Result Error Bytes → JurisdictionVault × Option Error
  unfolding verify_stored
  store_fetched v tx_id expected (err e) =
      (v, some (lit "failed to retrieve side-channel payload from peers: " ++ e))
  store_fetched v tx_id expected (ok encrypted_data) =
      verify_stored tx_id expected (store_if_authorized v (own_payload v tx_id encrypted_data))

  unfoldable pub fetch_and_store :
      PeerNetwork → JurisdictionVault → Bytes → Bytes → JurisdictionVault × Option Error
  unfolding store_fetched
  fetch_and_store network v tx_id expected =
      store_fetched v tx_id expected (network tx_id v.node_jurisdiction)

  store_own :
      (v : JurisdictionVault) (tx_id b : Bytes)
      → store_if_authorized v (own_payload v tx_id b) ≡ (holding v tx_id b, none)
  unfolding store_if_authorized
  store_own v tx_id b = rw (str_eq_refl v.node_jurisdiction)

  pub fetch-failed :
      (network : PeerNetwork) (v : JurisdictionVault) (tx_id expected : Bytes) (e : Error)
      → network tx_id v.node_jurisdiction ≡ err e
      → fetch_and_store network v tx_id expected
        ≡ (v, some (lit "failed to retrieve side-channel payload from peers: " ++ e))
  unfolding fetch_and_store
  fetch-failed network v tx_id expected e h = rw (h, store_fetched)

  pub retrieve-holding :
      (v : JurisdictionVault) (tx_id expected b : Bytes)
      → retrieve_and_verify sha256 (holding v tx_id b) tx_id expected
        ≡ (if str_eq (sha256 b) expected then ok b else err cryptographic_fault)
  unfolding retrieve_and_verify
  retrieve-holding v tx_id expected b = rw (get-put_self v.side_db tx_id (own_payload v tx_id b))

  -- What the peers send is stored before it is checked: the vault keeps it also when its hash is
  -- wrong and the call reports the fault.
  pub fetch-stored :
      (network : PeerNetwork) (v : JurisdictionVault) (tx_id expected b : Bytes)
      → network tx_id v.node_jurisdiction ≡ ok b
      → fetch_and_store network v tx_id expected
        ≡ (holding v tx_id b, if str_eq (sha256 b) expected then none else some cryptographic_fault)
  unfolding fetch_and_store
  fetch-stored network v tx_id expected b h =
      rw (h, store_fetched)
        (ap (verify_stored tx_id expected) (store_own v tx_id b)
          ∙ rw (
            verify_stored,
            retrieve-holding v tx_id expected b,
            error_of-if (str_eq (sha256 b) expected) b cryptographic_fault,
          ))
