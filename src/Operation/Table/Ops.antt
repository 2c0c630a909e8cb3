-- ===== src/Operation/Table/Ops.antt =====
-- The statements on runs and steps as one type of operations. One that is refused leaves the tables
-- as they were.
use qingzhou_ssh.Prelude.{ℕ, List, [], ◌∷◌}
use qingzhou_ssh.Prelude.Result.{ok, err}
use qingzhou_ssh.Error.{AppResult}
use qingzhou_ssh.Operation.Status.{OperationStatus, OperationPhase}
use qingzhou_ssh.Operation.Table.{
  Store, NewOperationRun, NewOperationStep, FinishOperationStep, create_operation, transition,
  start_confirmed_script,
}
use qingzhou_ssh.Operation.Table.Steps.{
  create_step, mark_step_running, finish_step, skip_pending_steps, set_result, recover_operations,
}

pub data Statement : Type 0 where
  st_create : ℕ → ℕ → NewOperationRun → Statement
  st_transition : ℕ → OperationStatus → ℕ → Statement
  st_start_script : ℕ → ℕ → Statement
  st_create_step : NewOperationStep → Statement
  st_mark_running : ℕ → OperationPhase → ℕ → ℕ → Statement
  st_finish_step : FinishOperationStep → Statement
  st_skip : ℕ → OperationPhase → ℕ → ℕ → Statement
  st_set_result : ℕ → AppResult (List ℕ) → ℕ → Statement
  st_recover : ℕ → Statement

-- The tables after a result that may be an error.
abbrev pub store_or : Store → AppResult Store → Store
store_or s (ok s') = s'
store_or s (err e) = s

abbrev pub store_of {ℓ} : {A : Type ℓ} → Store → AppResult (Store × A) → Store
store_of s (ok (s', a)) = s'
store_of s (err e) = s

unfoldable pub execute_statement : Statement → Store → Store
execute_statement (st_create id now draft) s = store_of s (create_operation s id now draft)
execute_statement (st_transition id next now) s = store_or s (transition s id next now)
execute_statement (st_start_script id now) s = store_or s (start_confirmed_script s id now)
execute_statement (st_create_step draft) s = store_of s (create_step s draft)
execute_statement (st_mark_running id phase index now) s =
    store_or s (mark_step_running s id phase index now)
execute_statement (st_finish_step finish) s = store_or s (finish_step s finish)
execute_statement (st_skip id phase index now) s =
    store_of s (skip_pending_steps s id phase index now)
execute_statement (st_set_result id result now) s = store_or s (set_result s id result now)
execute_statement (st_recover now) s = (recover_operations s now).0

unfoldable pub execute_statements : List Statement → Store → Store
unfolding execute_statement
execute_statements [] s = s
execute_statements (st ∷ sts) s = execute_statements sts (execute_statement st s)
