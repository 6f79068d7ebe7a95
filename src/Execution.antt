-- ===== src/Execution.antt =====
-- core/execution/engine.go: the transactional router of commands to application handlers.
pub mod Receipts
use node_decent_system.Prelude.{
  ◌≡◌, refl, Bool, true, false, Option, none, some, Option-cases, List, [], ◌∷◌, ◌++◌, arith,
  Result, ok, err, if◌then◌else◌, Bytes, Error, lit, hex,
}
use node_decent_system.GoMap.{GoMap}
use node_decent_system.GoMap

pub record Command : Type 0 where
  pub kind : Bytes
  pub payload : Bytes

-- The values of the field `Status`.
unfoldable pub failed : Bytes
failed = lit "FAILED"

unfoldable pub rolled_back : Bytes
rolled_back = lit "ROLLED_BACK"

unfoldable pub committed : Bytes
committed = lit "COMMITTED"

pub record TransactionReceipt : Type 0 where
  pub tx_id : Bytes
  pub status : Bytes
  pub state_root : Bytes
  pub error : Bytes

-- A handler is a closure over its application: it may change the application's state, `App`, also
-- when it reports an error.
abbrev pub CommandHandler : Type 0 → Type 0
CommandHandler App = App → Bytes → App × Result Error Bytes

pub record ExecutionRouter (App : Type 0) : Type 0 where
  pub handlers : GoMap (CommandHandler App)
  pub current_root : Bytes
  pub receipts : GoMap TransactionReceipt

unfoldable pub new_execution_router : {App : Type 0} → ExecutionRouter App
new_execution_router = record {
  handlers = [];
  current_root = lit "exec_router_genesis";
  receipts = [];
}

-- What `ApplyTransactional` returns, with the router and the applications as it leaves them.
pub record Outcome (App : Type 0) : Type 0 where
  pub router : ExecutionRouter App
  pub app : App
  pub receipt : TransactionReceipt
  pub error : Option Error

module _ {App : Type 0} where
  unfoldable pub register_handler :
      ExecutionRouter App → Bytes → CommandHandler App → ExecutionRouter App
  register_handler er kind handler = record er { handlers = GoMap.put er.handlers kind handler }

  unfoldable pub get_receipt : ExecutionRouter App → Bytes → Option TransactionReceipt
  get_receipt er tx_id = GoMap.get er.receipts tx_id

  unfoldable pub get_state_root : ExecutionRouter App → Bytes
  get_state_root er = er.current_root

  -- Every path ends by storing the receipt that it returns.
  unfoldable pub file_receipt :
      ExecutionRouter App → App → TransactionReceipt → Option Error → Outcome App
  file_receipt er app receipt e = record {
    router = record er { receipts = GoMap.put er.receipts receipt.tx_id receipt };
    app = app;
    receipt = receipt;
    error = e;
  }

module _ (sha256 : Bytes → Bytes) {App : Type 0} where
  -- After the handler: a rollback restores the root, and nothing of what the handler did.
  unfoldable pub settle : ExecutionRouter App → Bytes → App × Result Error Bytes → Outcome App
  settle er tx_id (app, err e) =
      file_receipt (record er { current_root = er.current_root }) app
        (record { tx_id = tx_id; status = rolled_back; state_root = []; error = e })
        (some (lit "handler execution failed, transaction rolled back: " ++ e))
  settle er tx_id (app, ok result_root) =
      let root = hex (sha256 (er.current_root ++ result_root)) in
      file_receipt (record er { current_root = root }) app
        (record { tx_id = tx_id; status = committed; state_root = root; error = [] }) none

  unfoldable pub dispatch :
      ExecutionRouter App → App → Bytes → Command → Option (CommandHandler App) → Outcome App
  dispatch er app tx_id cmd none =
      file_receipt er app
        (record {
          tx_id = tx_id;
          status = failed;
          state_root = [];
          error = lit "unregistered handler";
        })
        (some (lit "no handler registered for payload type: " ++ cmd.kind))
  dispatch er app tx_id cmd (some handler) = settle er tx_id (handler app cmd.payload)

  unfoldable pub route : ExecutionRouter App → App → Bytes → Result Error Command → Outcome App
  route er app tx_id (err e) =
      file_receipt er app (record { tx_id = tx_id; status = failed; state_root = []; error = e })
        (some (lit "unmarshal command error: " ++ e))
  route er app tx_id (ok cmd) = dispatch er app tx_id cmd (GoMap.get er.handlers cmd.kind)

module _ (sha256 : Bytes → Bytes) (unmarshal : Bytes → Result Error Command) {App : Type 0} where
  unfoldable pub apply_transactional : ExecutionRouter App → App → Bytes → Bytes → Outcome App
  apply_transactional er app tx_id commit_log = route sha256 er app tx_id (unmarshal commit_log)

  reply_of : Outcome App → Result Error Bytes
  reply_of o = elim o.error [ some e ↦ err e | none ↦ ok o.receipt.state_root ]

  unfoldable pub apply :
      ExecutionRouter App × App → Bytes → (ExecutionRouter App × App) × Result Error Bytes
  unfolding reply_of
  apply (er, app) commit_log =
      let o = apply_transactional er app (lit "tx_auto_gen") commit_log in
      ((o.router, o.app), reply_of o)
