-- ===== src/Privacy/Router/Stall.antt =====
-- router.go: executions that stall.
use node_decent_system.Prelude.{
  List, [], ◌∷◌, All, ◌≡◌, ◌≢◌, refl, sym, ap, ◌∙◌, true, false, Option, none, some, ◌++◌, arith,
  ok, err, Bytes, Error, lit, str_eq, str_eq_iff, contains, has_prefix,
}
use node_decent_system.GoMap.{GoMap, get-put, get-put_self}
use node_decent_system.GoMap
use node_decent_system.Privacy.Vault.{
  AnchoredTransaction, payload_missing, cryptographic_fault, retrieve_and_verify,
}
use node_decent_system.Privacy.Fetcher.{
  PeerNetwork, SideChannelFetcher, new_side_channel_fetcher, vault_of, fetch_and_store, holding,
  retrieve-holding, fetch-stored,
}
use node_decent_system.Privacy.Router.{
  SovereignRouter, with_fetched, missing_tag, after_fetch, recover, execute_or_recover, apply,
}

-- The texts that `strings.Contains` tells apart.
missing_has_tag : contains payload_missing missing_tag ≡ true
unfolding contains payload_missing missing_tag lit has_prefix
missing_has_tag = refl

fault_has_no_tag : contains cryptographic_fault missing_tag ≡ false
unfolding contains cryptographic_fault missing_tag lit has_prefix
fault_has_no_tag = refl

module _ (sha256 : Bytes → Bytes) where
  -- A stored payload with a wrong hash stalls the execution, whatever the fetcher is.
  fault_stalls :
      (r : SovereignRouter) (a : AnchoredTransaction)
      → a.jurisdiction_code ≡ r.vault.node_jurisdiction
      → retrieve_and_verify sha256 r.vault a.tx_id a.payload_hash ≡ err cryptographic_fault
      → apply sha256 r a ≡ (
        record r { global_state = GoMap.put r.global_state a.tx_id a.payload_hash },
        some (lit "execution stalled: " ++ cryptographic_fault),
      )
  unfolding apply execute_or_recover recover
  fault_stalls r a own h = rw (same, h, execute_or_recover) (stall r.fetcher)
    where
      same : str_eq a.jurisdiction_code r.vault.node_jurisdiction ≡ true
      same = (str_eq_iff a.jurisdiction_code r.vault.node_jurisdiction).1 own

      anchored : SovereignRouter
      anchored = record r { global_state = GoMap.put r.global_state a.tx_id a.payload_hash }

      stall :
          (f : Option SideChannelFetcher)
          → recover sha256 anchored a cryptographic_fault f
            ≡ (anchored, some (lit "execution stalled: " ++ cryptographic_fault))
      stall none = unfold recover in refl
      stall (some n) = unfold recover in (rw fault_has_no_tag)

  fetched_fault :
      (r : SovereignRouter) (a : AnchoredTransaction) (network : PeerNetwork) (b : Bytes)
      → a.jurisdiction_code ≡ r.vault.node_jurisdiction
      → r.fetcher ≡ some (new_side_channel_fetcher network none)
      → GoMap.get r.vault.side_db a.tx_id ≡ none
      → network a.tx_id r.vault.node_jurisdiction ≡ ok b
      → str_eq (sha256 b) a.payload_hash ≡ false
      → apply sha256 r a ≡ (
        record r {
          global_state = GoMap.put r.global_state a.tx_id a.payload_hash;
          vault = holding r.vault a.tx_id b;
        },
        some (
            lit "CRITICAL FAULT: execution stalled, payload unrecoverable: "
            ++ cryptographic_fault),
      )
  unfolding apply retrieve_and_verify recover execute_or_recover new_side_channel_fetcher vault_of
  fetched_fault r a network b own hf empty sent mismatch =
      rw (same, empty)
        (ap (recover sha256 anchored a payload_missing) hf
          ∙ tagged
          ∙ ap (after_fetch sha256 anchored (new_side_channel_fetcher network none) a)
              (fetch-stored sha256 network r.vault a.tx_id a.payload_hash b sent)
          ∙ rw mismatch (unfold after_fetch with_fetched in refl))
    where
      same : str_eq a.jurisdiction_code r.vault.node_jurisdiction ≡ true
      same = (str_eq_iff a.jurisdiction_code r.vault.node_jurisdiction).1 own

      anchored : SovereignRouter
      anchored = record r { global_state = GoMap.put r.global_state a.tx_id a.payload_hash }

      tagged :
          recover sha256 anchored a payload_missing (some (new_side_channel_fetcher network none))
          ≡ after_fetch sha256 anchored
              (new_side_channel_fetcher network none)
              a
              (fetch_and_store sha256 network r.vault a.tx_id a.payload_hash)
      tagged = rw missing_has_tag

  -- The transaction is executed again and again, each time with some fetcher: the router at the end,
  -- and the errors.
  unfoldable pub retry :
      SovereignRouter
      → AnchoredTransaction
      → List (Option SideChannelFetcher)
      → SovereignRouter × List (Option Error)
  retry r a [] = (r, [])
  retry r a (f ∷ fs) =
      let (r', e) = apply sha256 (record r { fetcher = f }) a in
      let (r'', es) = retry r' a fs in (r'', e ∷ es)

  retry-stalls :
      (r : SovereignRouter) (a : AnchoredTransaction) (fs : List (Option SideChannelFetcher))
      → a.jurisdiction_code ≡ r.vault.node_jurisdiction
      → retrieve_and_verify sha256 r.vault a.tx_id a.payload_hash ≡ err cryptographic_fault
      → let (r', es) = retry r a fs in
        All (λ e. e ≡ some (lit "execution stalled: " ++ cryptographic_fault)) es
        × (r'.vault ≡ r.vault)
        × (r'.private_state ≡ r.private_state)
  unfolding retry
  retry-stalls r a [] own h = (tt, refl, refl)
  retry-stalls r a (f ∷ fs) own h =
      let once = fault_stalls (record r { fetcher = f }) a own h in
      let vault = ap (λ o. o.0.vault) once in
      let rest =
        retry-stalls (apply sha256 (record r { fetcher = f }) a).0 a fs
          (own ∙ ap (λ v. v.node_jurisdiction) (sym vault))
          (ap (λ v. retrieve_and_verify sha256 v a.tx_id a.payload_hash) vault ∙ h) in
      ((ap (λ o. o.1) once, rest.0), rest.1 ∙ vault, rest.2 ∙ ap (λ o. o.0.private_state) once)

  -- Peers that send a wrong payload block a transaction: the first execution fetches it into the
  -- router's vault, which keeps it, and reports the fault; then every number of further executions,
  -- with whatever fetchers, stalls each time and leaves the vault and the private state as they are.
  -- Nothing else writes the vault in between.
  pub wrong_payload_blocks :
      (r : SovereignRouter) (a : AnchoredTransaction) (network : PeerNetwork) (b : Bytes)
      (later : List (Option SideChannelFetcher))
      → a.jurisdiction_code ≡ r.vault.node_jurisdiction
      → r.fetcher ≡ some (new_side_channel_fetcher network none)
      → GoMap.get r.vault.side_db a.tx_id ≡ none
      → network a.tx_id r.vault.node_jurisdiction ≡ ok b
      → sha256 b ≢ a.payload_hash
      → let (r', e) = apply sha256 r a in
        let (r'', es) = retry r' a later in
        (e
          ≡ some (
              lit "CRITICAL FAULT: execution stalled, payload unrecoverable: "
              ++ cryptographic_fault))
        × (r'.vault ≡ holding r.vault a.tx_id b)
        × All (λ e. e ≡ some (lit "execution stalled: " ++ cryptographic_fault)) es
        × (r''.vault ≡ r'.vault)
        × (r''.private_state ≡ r.private_state)
  wrong_payload_blocks r a network b later own hf empty sent wrong =
      let first = fetched_fault r a network b own hf empty sent mismatch in
      let vault = ap (λ p. p.0.vault) first in
      let blocked =
        retry-stalls (apply sha256 r a).0 a later (own ∙ ap (λ v. v.node_jurisdiction) (sym vault))
          (ap (λ v. retrieve_and_verify sha256 v a.tx_id a.payload_hash) vault
            ∙ retrieve-holding sha256 r.vault a.tx_id a.payload_hash b
            ∙ rw mismatch) in
      (
        ap (λ p. p.1) first,
        vault,
        blocked.0,
        blocked.1,
        blocked.2 ∙ ap (λ p. p.0.private_state) first,
      )
    where
      mismatch : str_eq (sha256 b) a.payload_hash ≡ false
      mismatch = ground (arith, str_eq_iff (sha256 b) a.payload_hash)
