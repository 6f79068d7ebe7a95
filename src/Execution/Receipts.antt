-- ===== src/Execution/Receipts.antt =====
-- engine.go: receipts, roots and rollbacks of `ApplyTransactional`.
use node_decent_system.Prelude.{
  ◌≡◌, ◌≢◌, ◌↔◌, refl, sym, ap, Option, none, some, arith, Result, ok, err, if◌then◌else◌, Bytes,
  Error, lit, str_eq, ◌++◌, hex,
}
use node_decent_system.GoMap.{GoMap, get-put, get-put_self}
use node_decent_system.GoMap
use node_decent_system.Execution.{
  Command, CommandHandler, ExecutionRouter, Outcome, failed, rolled_back, committed, file_receipt,
  settle, dispatch, route, apply_transactional, get_receipt,
}

committed≢failed : committed ≢ failed
unfolding committed failed lit
committed≢failed = λ e. ground arith

committed≢rolled_back : committed ≢ rolled_back
unfolding committed rolled_back lit
committed≢rolled_back = λ e. ground arith

-- What every path of the router ensures, over the root before it.
record IsFiled {App : Type 0} (er : ExecutionRouter App) (tx_id : Bytes) (o : Outcome App)
    : Type 0 where
  own : o.receipt.tx_id ≡ tx_id
  receipts : o.router.receipts ≡ GoMap.put er.receipts tx_id o.receipt
  handlers : o.router.handlers ≡ er.handlers
  success : (o.error ≡ none) ↔ (o.receipt.status ≡ committed)
  root_kept : o.error ≢ none → o.router.current_root ≡ er.current_root
  root_told : o.error ≡ none → o.receipt.state_root ≡ o.router.current_root

module _ (sha256 : Bytes → Bytes) {App : Type 0} where
  settle-IsFiled :
      (er : ExecutionRouter App) (tx_id : Bytes) (r : App × Result Error Bytes)
      → IsFiled er tx_id (settle sha256 er tx_id r)
  unfolding settle file_receipt
  settle-IsFiled er tx_id (app, ok root) = record {
    own = refl;
    receipts = refl;
    handlers = refl;
    success = (λ e. refl, λ e. refl);
    root_kept = λ h. absurd (h refl);
    root_told = λ e. refl;
  }
  settle-IsFiled er tx_id (app, err x) = record {
    own = refl;
    receipts = refl;
    handlers = refl;
    success = (λ e. absurd (ground arith), λ e. absurd (committed≢rolled_back (sym e)));
    root_kept = λ h. refl;
    root_told = λ e. absurd (ground arith);
  }

  dispatch-IsFiled :
      (er : ExecutionRouter App) (app : App) (tx_id : Bytes) (cmd : Command)
      (h : Option (CommandHandler App))
      → IsFiled er tx_id (dispatch sha256 er app tx_id cmd h)
  unfolding dispatch file_receipt
  dispatch-IsFiled er app tx_id cmd (some h) = settle-IsFiled er tx_id (h app cmd.payload)
  dispatch-IsFiled er app tx_id cmd none = record {
    own = refl;
    receipts = refl;
    handlers = refl;
    success = (λ e. absurd (ground arith), λ e. absurd (committed≢failed (sym e)));
    root_kept = λ h. refl;
    root_told = λ e. absurd (ground arith);
  }

  route-IsFiled :
      (er : ExecutionRouter App) (app : App) (tx_id : Bytes) (c : Result Error Command)
      → IsFiled er tx_id (route sha256 er app tx_id c)
  unfolding route file_receipt
  route-IsFiled er app tx_id (ok cmd) = dispatch-IsFiled er app tx_id cmd _
  route-IsFiled er app tx_id (err x) = record {
    own = refl;
    receipts = refl;
    handlers = refl;
    success = (λ e. absurd (ground arith), λ e. absurd (committed≢failed (sym e)));
    root_kept = λ h. refl;
    root_told = λ e. absurd (ground arith);
  }

-- What success says of the handler's call and of the root.
module _ (sha256 : Bytes → Bytes) {App : Type 0} (er : ExecutionRouter App) (tx_id : Bytes) where
  abbrev Chained : App × Result Error Bytes → Outcome App → Type 0
  Chained r o =
      (root : Bytes) × (r ≡ (o.app, ok root))
      × (o.router.current_root ≡ hex (sha256 (er.current_root ++ root)))

  settle-Chained :
      (r : App × Result Error Bytes)
      → (settle sha256 er tx_id r).error ≡ none
      → Chained r (settle sha256 er tx_id r)
  unfolding settle file_receipt
  settle-Chained (app, ok root) e = (root, refl, refl)
  settle-Chained (app, err x) e = absurd (ground arith)

  dispatch-Chained :
      (app : App) (cmd : Command) (h : Option (CommandHandler App))
      → (dispatch sha256 er app tx_id cmd h).error ≡ none
      → (handler : CommandHandler App) × (h ≡ some handler)
        × Chained (handler app cmd.payload) (dispatch sha256 er app tx_id cmd h)
  unfolding dispatch file_receipt
  dispatch-Chained app cmd (some handler) e =
      (handler, refl, settle-Chained (handler app cmd.payload) e)
  dispatch-Chained app cmd none e = absurd (ground arith)

  route-Chained :
      (app : App) (c : Result Error Command)
      → (route sha256 er app tx_id c).error ≡ none
      → (cmd : Command) × (c ≡ ok cmd)
        × (handler : CommandHandler App) × (GoMap.get er.handlers cmd.kind ≡ some handler)
        × Chained (handler app cmd.payload) (route sha256 er app tx_id c)
  unfolding route file_receipt
  route-Chained app (ok cmd) e =
      let (handler, found, chained) = dispatch-Chained app cmd _ e in
      (cmd, refl, handler, found, chained)
  route-Chained app (err x) e = absurd (ground arith)

module _ (sha256 : Bytes → Bytes) (unmarshal : Bytes → Result Error Command) {App : Type 0}
    (er : ExecutionRouter App) (app : App) (tx_id commit_log : Bytes) where
  -- On every path the receipt that is returned is the one on file under the transaction's name, and
  -- the receipts of other transactions stay; the receipt says COMMITTED exactly when no error is
  -- returned, and then holds the new root; on an error the root is what it was. No error is returned
  -- only when the commit decodes to a command with a registered handler that succeeds: then the
  -- application is as the handler left it, and the new root hashes the old one with the handler's.
  pub apply_transactional-receipt :
      let o = apply_transactional sha256 unmarshal er app tx_id commit_log in
      ((j : Bytes)
        → get_receipt o.router j ≡ (if str_eq tx_id j then some o.receipt else get_receipt er j))
      × ((o.error ≡ none) ↔ (o.receipt.status ≡ committed))
      × (o.error ≡ none → o.receipt.state_root ≡ o.router.current_root)
      × (o.error ≢ none → o.router.current_root ≡ er.current_root)
      × (o.error ≡ none
          → (cmd : Command) × (unmarshal commit_log ≡ ok cmd)
            × (handler : CommandHandler App) × (GoMap.get er.handlers cmd.kind ≡ some handler)
            × ((root : Bytes) × (handler app cmd.payload ≡ (o.app, ok root))
                × (o.router.current_root ≡ hex (sha256 (er.current_root ++ root)))))
  unfolding apply_transactional get_receipt
  apply_transactional-receipt =
      let f = route-IsFiled sha256 er app tx_id (unmarshal commit_log) in
      (
        λ j. rw f.receipts (get-put er.receipts tx_id j _),
        f.success,
        f.root_told,
        f.root_kept,
        λ e. route-Chained sha256 er tx_id app (unmarshal commit_log) e,
      )

  -- A transaction that is reported as rolled back keeps what its handler did to the application.
  pub rolled_back_keeps_effects :
      (cmd : Command) (handler : CommandHandler App) (app' : App) (e : Error)
      → unmarshal commit_log ≡ ok cmd
      → GoMap.get er.handlers cmd.kind ≡ some handler
      → handler app cmd.payload ≡ (app', err e)
      → let o = apply_transactional sha256 unmarshal er app tx_id commit_log in
        (o.receipt.status ≡ rolled_back)
        × (o.router.current_root ≡ er.current_root)
        × (o.app ≡ app')
  unfolding apply_transactional route dispatch settle file_receipt
  rolled_back_keeps_effects cmd handler app' e hu hg hh =
      rw (hu, route, hg, dispatch, hh, settle) (refl, refl, ap (λ r. r.0) hh)
