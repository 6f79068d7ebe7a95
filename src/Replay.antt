-- ===== src/Replay.antt =====
-- core/runtime/replay.go: the log of applied commits, and its replay against a state machine.
pub mod Determinism
use node_decent_system.Prelude.{
  ℕ, ◌+◌, ◌≡◌, refl, Bool, true, false, not, ◌&&◌, List, [], ◌∷◌, ◌++◌, arith, Result, ok, err,
  if◌then◌else◌, length, Bytes, Error, lit, decimal, str_eq,
}
use node_decent_system.Interfaces.{StateMachine}

pub record ReplayEntry : Type 0 where
  pub sequence : ℕ
  pub timestamp : ℕ
  pub payload : Bytes
  pub state_root : Bytes

-- `ReplayLog.Entries`; `NewReplayLog` is the empty one.
abbrev pub ReplayLog : Type 0
ReplayLog = List ReplayEntry

unfoldable pub new_replay_log : ReplayLog
new_replay_log = []

-- `now` is the time of the call.
unfoldable pub record_entry : ℕ → Bytes → Bytes → ReplayLog → ReplayLog
record_entry now payload root entries =
    entries
    ++ record {
      sequence = length entries + 1;
      timestamp = now;
      payload = payload;
      state_root = root;
    }
      ∷ []

module _ (M : StateMachine) where
  -- The two returns inside the loop, after `Apply`: an error of it, or a root that is not the
  -- recorded one; an empty recorded root is not compared.
  unfoldable pub check_root : ReplayEntry → Result Error Bytes → Result Error Bytes
  check_root entry (err e) =
      err (lit "replay failed at sequence " ++ (decimal entry.sequence ++ (lit ": " ++ e)))
  check_root entry (ok root) =
      if not (str_eq entry.state_root []) && not (str_eq root entry.state_root)
      then err (
          lit "determinism violation at sequence "
          ++ (decimal entry.sequence
              ++ (lit "! Expected root " ++ (entry.state_root ++ (lit ", got " ++ root)))))
      else ok root

  proceed :
      M.State
      → Result Error Bytes
      → (Bytes → M.State × Result Error Bytes)
      → M.State × Result Error Bytes
  proceed s (err e) k = (s, err e)
  proceed s (ok root) k = k root

  -- The loop over the entries, with the last root.
  unfoldable pub replay_entries : List ReplayEntry → Bytes → M.State → M.State × Result Error Bytes
  unfolding proceed
  replay_entries [] final_root s = (s, ok final_root)
  replay_entries (entry ∷ rest) final_root s =
      let (s', r) = M.apply s entry.payload in
      proceed s' (check_root entry r) (λ root. replay_entries rest root s')

  parse_failed : Error → Error
  parse_failed e = lit "failed to parse replay log: " ++ e

  -- `unmarshal` is `json.Unmarshal` at the type of the entries.
  unfoldable pub replay :
      (Bytes → Result Error (List ReplayEntry)) → Bytes → M.State → M.State × Result Error Bytes
  unfolding parse_failed
  replay unmarshal log_data s = elim (unmarshal log_data) [
    | err e ↦ (s, err (parse_failed e))
    | ok entries ↦ replay_entries entries [] s
  ]
