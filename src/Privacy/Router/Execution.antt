-- ===== src/Privacy/Router/Execution.antt =====
-- router.go: what an execution may write.
use node_decent_system.Prelude.{
  ◌⊎◌, Option-cases, none-ne-some, [], ◌≡◌, ◌≢◌, refl, sym, ap, subst, ◌∙◌, true, false, Bool-cases,
  Result-cases, inl, inr, Option, none, some, arith, if◌then◌else◌, Bytes, Error, str_eq,
  str_eq_iff, contains,
}
use node_decent_system.GoMap.{GoMap, get-put, get-put_self}
use node_decent_system.GoMap
use node_decent_system.Privacy.Vault.{
  AnchoredTransaction, JurisdictionVault, retrieve_and_verify, retrieve-verified,
}
use node_decent_system.Privacy.Fetcher.{
  SideChannelFetcher, vault_of, fetch_and_store, holding, retrieve-holding, fetch-stored,
  fetch-failed,
}
use node_decent_system.Privacy.Router.{
  SovereignRouter, with_fetched, missing_tag, execute, after_fetch, recover, execute_or_recover,
  apply,
}

module _ (sha256 : Bytes → Bytes) where
  -- What an accepted execution leaves: the payload with the anchored hash under the transaction, and
  -- all other private entries as they were.
  abbrev pub Executed : SovereignRouter → AnchoredTransaction → SovereignRouter → Type 0
  Executed r a r' =
      (payload : Bytes) × (sha256 payload ≡ a.payload_hash)
      × ((tx : Bytes)
          → GoMap.get r'.private_state tx
            ≡ (if str_eq a.tx_id tx then some payload else GoMap.get r.private_state tx))

  -- What the dropped error of the second read leaves: the nil payload under the transaction. The
  -- router then has a fetcher over another vault.
  abbrev pub NilExecuted : SovereignRouter → AnchoredTransaction → SovereignRouter → Type 0
  NilExecuted r a r' =
      (f : SideChannelFetcher) × (r.fetcher ≡ some f)
      × (f.vault ≢ none)
      × ((tx : Bytes)
          → GoMap.get r'.private_state tx
            ≡ (if str_eq a.tx_id tx then some [] else GoMap.get r.private_state tx))

  -- One of the two, or an error is reported and no private entry changed.
  abbrev Settled : SovereignRouter → AnchoredTransaction → SovereignRouter × Option Error → Type 0
  Settled r a (r', none) = Executed r a r' ⊎ NilExecuted r a r'
  Settled r a (r', some e) = r'.private_state ≡ r.private_state

  execute-Executed :
      (r : SovereignRouter) (a : AnchoredTransaction) (payload : Bytes)
      → sha256 payload ≡ a.payload_hash
      → Executed r a (execute sha256 r a payload).0
  unfolding execute
  execute-Executed r a payload h = (payload, h, λ tx. get-put r.private_state a.tx_id tx payload)

  execute-Settled :
      (r : SovereignRouter) (a : AnchoredTransaction) (payload : Bytes)
      → sha256 payload ≡ a.payload_hash
      → Settled r a (execute sha256 r a payload)
  unfolding execute
  execute-Settled r a payload h = inl (execute-Executed r a payload h)

  -- The verdict of a fetch into the router's vault that reports no error: what it stored has the
  -- anchored hash.
  after_shared_fetch :
      (r : SovereignRouter) (a : AnchoredTransaction) (f : SideChannelFetcher)
      → f.vault ≡ none
      → Settled r a (
          after_fetch sha256 r f a
            (fetch_and_store sha256 f.network r.vault a.tx_id a.payload_hash))
  unfolding after_fetch with_fetched execute
  after_shared_fetch r a f shared =
      elim (Result-cases (f.network a.tx_id r.vault.node_jurisdiction)) [
        | inr (e, h) ↦
            at (fetch-failed sha256 f.network r.vault a.tx_id a.payload_hash e h)
              (rw (shared, with_fetched) refl)
        | inl (b, h) ↦
            at (fetch-stored sha256 f.network r.vault a.tx_id a.payload_hash b h)
              (elim (Bool-cases (str_eq (sha256 b) a.payload_hash)) [
                | inr c ↦ rw (c, after_fetch, shared, with_fetched) refl
                | inl c ↦
                    rw
                      (
                        c,
                        after_fetch,
                        shared,
                        with_fetched,
                        retrieve-holding sha256 r.vault a.tx_id a.payload_hash b,
                        c,
                      )
                      (inl (
                        execute-Executed (record r { vault = holding r.vault a.tx_id b }) a b
                          ((str_eq_iff (sha256 b) a.payload_hash).0 c)))
              ])
      ]
    where
      at :
          {p q : JurisdictionVault × Option Error}
          → p ≡ q
          → Settled r a (after_fetch sha256 r f a q)
          → Settled r a (after_fetch sha256 r f a p)
      at e s = subst (λ p. Settled r a (after_fetch sha256 r f a p)) (sym e) s

  -- A fetch into another vault: the router's vault is read as it was.
  after_own_fetch :
      (r : SovereignRouter) (a : AnchoredTransaction) (f : SideChannelFetcher)
      (own : JurisdictionVault) (o : JurisdictionVault × Option Error)
      → r.fetcher ≡ some f
      → f.vault ≡ some own
      → Settled r a (after_fetch sha256 r f a o)
  unfolding after_fetch with_fetched execute
  after_own_fetch r a f own (v, some e) h other = rw (other, with_fetched) refl
  after_own_fetch r a f own (v, none) h other =
      elim (Result-cases (retrieve_and_verify sha256 r.vault a.tx_id a.payload_hash)) [
        | inl (payload, read) ↦
            rw (other, with_fetched, read)
              (inl (
                execute-Executed (record r { fetcher = some (record f { vault = some v }) }) a
                  payload (retrieve-verified sha256 r.vault a.tx_id a.payload_hash payload read).0))
        | inr (e, read) ↦
            rw (other, with_fetched, read, execute)
              (inr (
                f,
                h,
                λ n. none-ne-some (sym n ∙ other),
                λ tx. get-put r.private_state a.tx_id tx [],
              ))
      ]

  recover-Settled :
      (r : SovereignRouter) (a : AnchoredTransaction) (e : Error) (f : Option SideChannelFetcher)
      → r.fetcher ≡ f
      → Settled r a (recover sha256 r a e f)
  unfolding recover vault_of
  recover-Settled r a e none h = refl
  recover-Settled r a e (some f) h = elim (Bool-cases (contains e missing_tag)) [
    | inr untagged ↦ rw untagged refl
    | inl tagged ↦ elim (Option-cases f.vault) [
      | inl shared ↦ rw tagged (
          subst
            (λ v. Settled r a (
              after_fetch sha256 r f a (fetch_and_store sha256 f.network v a.tx_id a.payload_hash)))
            (sym (ap (λ o. vault_of o r.vault) shared)) (after_shared_fetch r a f shared))
      | inr (own, other) ↦ rw tagged (after_own_fetch r a f own _ h other)
    ]
  ]

  execute_or_recover-Settled :
      (r : SovereignRouter) (a : AnchoredTransaction)
      → Settled r a (
          execute_or_recover sha256 r a (retrieve_and_verify sha256 r.vault a.tx_id a.payload_hash))
  unfolding execute_or_recover
  execute_or_recover-Settled r a =
      elim (Result-cases (retrieve_and_verify sha256 r.vault a.tx_id a.payload_hash)) [
        | inl (payload, h) ↦
            rw (h, execute_or_recover)
              (execute-Settled r a payload
                (retrieve-verified sha256 r.vault a.tx_id a.payload_hash payload h).0)
        | inr (e, h) ↦ rw (h, execute_or_recover) (recover-Settled r a e r.fetcher refl)
      ]

  -- A transaction of the node's own jurisdiction that reports an error leaves the private state as it
  -- was. One that reports none puts a payload with the anchored hash there, under its name and
  -- nowhere else, unless the fetcher works on a vault other than the router's: then it may also be
  -- the nil payload that is put there.
  pub apply-own :
      (r : SovereignRouter) (a : AnchoredTransaction)
      → a.jurisdiction_code ≡ r.vault.node_jurisdiction
      → let (r', e) = apply sha256 r a in
        (e ≡ none → Executed r a r' ⊎ NilExecuted r a r')
        × (e ≢ none → r'.private_state ≡ r.private_state)
  unfolding apply
  apply-own r a own = rw same (
      read
        (execute_or_recover sha256 anchored a
          (retrieve_and_verify sha256 r.vault a.tx_id a.payload_hash))
        (execute_or_recover-Settled anchored a))
    where
      same : str_eq a.jurisdiction_code r.vault.node_jurisdiction ≡ true
      same = (str_eq_iff a.jurisdiction_code r.vault.node_jurisdiction).1 own

      anchored : SovereignRouter
      anchored = record r { global_state = GoMap.put r.global_state a.tx_id a.payload_hash }

      read :
          (o : SovereignRouter × Option Error)
          → Settled r a o
          → (o.1 ≡ none → Executed r a o.0 ⊎ NilExecuted r a o.0)
            × (o.1 ≢ none → o.0.private_state ≡ r.private_state)
      read (r', none) s = (λ h. s, λ h. absurd (h refl))
      read (r', some e) s = (λ h. absurd (ground arith), λ h. s)

  -- A transaction of another jurisdiction is anchored, and touches nothing private: the vault, the
  -- private state and the telemetry stay.
  pub apply-foreign :
      (r : SovereignRouter) (a : AnchoredTransaction)
      → a.jurisdiction_code ≢ r.vault.node_jurisdiction
      → let (r', e) = apply sha256 r a in
        (e ≡ none)
        × (GoMap.get r'.global_state a.tx_id ≡ some a.payload_hash)
        × (r'.vault ≡ r.vault)
        × (r'.private_state ≡ r.private_state)
        × (r'.telemetry ≡ r.telemetry)
  unfolding apply
  apply-foreign r a foreign =
      rw other (refl, get-put_self r.global_state a.tx_id a.payload_hash, refl, refl, refl)
    where
      other : str_eq a.jurisdiction_code r.vault.node_jurisdiction ≡ false
      other = ground (arith, str_eq_iff a.jurisdiction_code r.vault.node_jurisdiction)
