-- ===== src/Operation/Service.antt =====
-- src-tauri/src/services/operation_service.rs: how the steps of a task are run and a run is ended. What
-- the service waits for is an argument: whether the run was cancelled when it looks, what the
-- execution service and the restore service answer. A list of turns has one for each step to run.
pub mod Dangerous
pub mod Settled
pub mod Outcome
pub mod Leads
pub mod Planned
pub mod Preview
pub mod Rollback
use qingzhou_ssh.Prelude.{
  ℕ, ◌+◌, String, Bool, true, false, not, ◌&&◌, ◌||◌, Option, none, some, List, [], ◌∷◌, any,
  if◌then◌else◌,
}
use qingzhou_ssh.Prelude.Text.{str_eq, codes}
use qingzhou_ssh.Prelude.Result.{Result, ok, err}
use qingzhou_ssh.Error.{
  AppError, AppResult, validation, cancelled, remote_state_uncertain, ssh, io, transfer,
}
use qingzhou_ssh.Transfer.Queue.{ExecutionStatus}
use qingzhou_ssh.Operation.Status.{
  OperationStatus, same_operation, OperationPhase, execute, OperationStepStatus,
}
use qingzhou_ssh.Operation.Table.{
  OperationRunRecord, Store, FinishOperationStep, get_run, transition,
}
use qingzhou_ssh.Operation.Table.Steps.{
  mark_step_running, finish_step, skip_pending_steps, set_result,
}
use qingzhou_ssh.Operation.Table.Ops.{store_of}
use qingzhou_ssh.Operation.Action.{
  World, Action, pure, throw, given, ◌>>=◌, ◌>>◌, now_millis, note, ran, db,
}

-- What is read of the record of an execution.
pub record ExecutionRecord : Type 0 where
  pub id : ℕ
  pub status : ExecutionStatus
  pub output_summary : Option (List ℕ)
  pub error_message : Option (List ℕ)
  pub error_category : Option String
  pub finished_at : Option ℕ

-- A step's turn: whether the run is cancelled before it, and what its execution gives.
pub record StepTurn : Type 0 where
  pub is_cancelled : Bool
  pub answer : AppResult ExecutionRecord

unfoldable pub statuses_for_execution :
    ExecutionStatus → OperationStepStatus × Option OperationStatus
statuses_for_execution ExecutionStatus.succeeded = (OperationStepStatus.succeeded, none)
statuses_for_execution ExecutionStatus.cancelled =
    (OperationStepStatus.cancelled, some OperationStatus.cancelled)
statuses_for_execution ExecutionStatus.uncertain =
    (OperationStepStatus.uncertain, some OperationStatus.uncertain)
statuses_for_execution ExecutionStatus.queued =
    (OperationStepStatus.failed, some OperationStatus.failed)
statuses_for_execution ExecutionStatus.running =
    (OperationStepStatus.failed, some OperationStatus.failed)
statuses_for_execution ExecutionStatus.failed =
    (OperationStepStatus.failed, some OperationStatus.failed)

unfoldable pub operation_status_for_error : AppError → OperationStatus
operation_status_for_error cancelled = OperationStatus.cancelled
operation_status_for_error (remote_state_uncertain _) = OperationStatus.uncertain
operation_status_for_error (ssh _) = OperationStatus.uncertain
operation_status_for_error (io _) = OperationStatus.uncertain
operation_status_for_error (transfer _) = OperationStatus.uncertain
operation_status_for_error _ = OperationStatus.failed

-- The categories of an error after which it is not known what the server did.
unfoldable pub lost_connection : Option String → Bool
lost_connection none = false
lost_connection (some category) =
    any (str_eq category) ("ssh" ∷ "io" ∷ "transfer" ∷ "remote_state_uncertain" ∷ [])

-- `run_status` in `run_phase`: a failure by a lost connection is uncertain.
unfoldable pub doubted : Option OperationStatus → Option String → Option OperationStatus
doubted (some OperationStatus.failed) category =
    if lost_connection category then some OperationStatus.uncertain else some OperationStatus.failed
doubted status category = status

-- `transition` of the repository, at the time the clock gives.
unfoldable pub move_to : ℕ → OperationStatus → Action (Unit {0})
move_to id next = do now ← now_millis; db (λ s. transition s id next now)

unfoldable pub mark_running : ℕ → OperationPhase → ℕ → Action (Unit {0})
mark_running id phase index = do now ← now_millis; db (λ s. mark_step_running s id phase index now)

abbrev pub without_count : AppResult (Store × ℕ) → AppResult Store
without_count (ok (s, n)) = ok s
without_count (err e) = err e

unfoldable pub skip_from : ℕ → OperationPhase → ℕ → Action (Unit {0})
skip_from id phase index = do
  now ← now_millis
  db (λ s. without_count (skip_pending_steps s id phase index now))

-- What a step ends with, but for the time.
pub record StepEnd : Type 0 where
  pub status : OperationStepStatus
  pub execution_id : Option ℕ
  pub output_summary : Option (List ℕ)
  pub error_message : Option (List ℕ)

abbrev pub step_finish : ℕ → OperationPhase → ℕ → StepEnd → ℕ → FinishOperationStep
step_finish id phase index end now = record {
  run_id = id;
  phase = phase;
  step_index = index;
  status = end.status;
  execution_id = end.execution_id;
  output_summary = end.output_summary;
  error_message = end.error_message;
  finished_at = now;
}

unfoldable pub end_step : ℕ → OperationPhase → ℕ → StepEnd → Action (Unit {0})
end_step id phase index end = do
  now ← now_millis
  db (λ s. finish_step s (step_finish id phase index end now))

-- `require_details`, of which the run is kept.
abbrev pub found_run : World → Option OperationRunRecord → World × AppResult OperationRunRecord
found_run w (some run) = (w, ok run)
found_run w none = (w, err (validation "运维运行不存在"))

unfoldable pub require_details : ℕ → Action OperationRunRecord
require_details id w = found_run w (get_run w.store id)

-- The run moves to its last status, and its details are given back.
unfoldable pub end_run_as : ℕ → OperationStatus → Action OperationRunRecord
end_run_as id status = do move_to id status; require_details id

-- `unwrap_or_else(now_millis)`.
unfoldable pub time_or_now : Option ℕ → Action ℕ
time_or_now none = now_millis
time_or_now (some at) = pure at

abbrev pub executed_finish :
    ℕ → OperationPhase → ℕ → OperationStepStatus → ExecutionRecord → ℕ → FinishOperationStep
executed_finish id phase index status execution at = record {
  run_id = id;
  phase = phase;
  step_index = index;
  status = status;
  execution_id = some execution.id;
  output_summary = execution.output_summary;
  error_message = execution.error_message;
  finished_at = at;
}

-- A step that an execution ended; the record says when, if it knows.
unfoldable pub end_executed :
    ℕ → OperationPhase → ℕ → OperationStepStatus → ExecutionRecord → Action (Unit {0})
end_executed id phase index status execution = do
  at ← time_or_now execution.finished_at
  db (λ s. finish_step s (executed_finish id phase index status execution at))

-- A status of the run ends the phase; without one `rest` runs the steps after this one.
unfoldable pub stop_or :
    ℕ
    → OperationPhase
    → ℕ
    → Action (Option OperationStatus)
    → Option OperationStatus
    → Action (Option OperationStatus)
stop_or id phase index rest none = rest
stop_or id phase index rest (some status) = do skip_from id phase (index + 1); pure (some status)

unfoldable pub end_or :
    ℕ → ℕ → Action OperationRunRecord → Option OperationStatus → Action OperationRunRecord
end_or id index rest none = rest
end_or id index rest (some status) = do skip_from id execute (index + 1); end_run_as id status

unfoldable pub saved_or_failed : ℕ → World → AppResult Store → World × AppResult (Unit {0})
saved_or_failed id w (ok s) = (record w { store = s }, ok tt)
saved_or_failed id w (err e) = ((move_to id OperationStatus.failed w).0, err e)

-- A result that is not saved makes the run fail; whether that is written is ignored.
unfoldable pub save_or_fail : ℕ → AppResult (List ℕ) → Action (Unit {0})
save_or_fail id result = do
  now ← now_millis
  λ w. saved_or_failed id w (set_result w.store id result now)

-- `shown` is how an error prints.
module _ (shown : AppError → List ℕ) where
  abbrev pub failed_step : AppError → StepEnd
  failed_step e = record {
    status = OperationStepStatus.failed;
    execution_id = none;
    output_summary = none;
    error_message = some (shown e);
  }

  -- What `run_phase` does once a step was executed.
  unfoldable pub after_step :
      ℕ
      → OperationPhase
      → ℕ
      → AppResult ExecutionRecord
      → Action (Option OperationStatus)
      → Action (Option OperationStatus)
  after_step id phase index (err e) rest = do
    end_step id phase index (failed_step e)
    skip_from id phase (index + 1)
    pure (some (operation_status_for_error e))
  after_step id phase index (ok execution) rest = do
    end_executed id phase index (statuses_for_execution execution.status).0 execution
    stop_or id phase index rest
        (doubted (statuses_for_execution execution.status).1 execution.error_category)

  -- `run_phase`: the steps of a phase from an index on, up to the first that does not succeed.
  unfoldable pub run_phase :
      ℕ → OperationPhase → ℕ → List StepTurn → Action (Option OperationStatus)
  run_phase id phase index [] = pure none
  run_phase id phase index (turn ∷ turns) =
      let rest = run_phase id phase (index + 1) turns in
      if turn.is_cancelled
      then (do skip_from id phase index; pure (some OperationStatus.cancelled))
      else (do
        mark_running id phase index
        note (ran phase index)
        after_step id phase index turn.answer rest)

  -- What `start_with_capabilities_and_cancel` does once a step was executed.
  unfoldable pub after_planned :
      ℕ → ℕ → AppResult ExecutionRecord → Action OperationRunRecord → Action OperationRunRecord
  after_planned id index (err e) rest = do
    end_step id execute index (failed_step e)
    skip_from id execute (index + 1)
    move_to id OperationStatus.failed
    throw e
  after_planned id index (ok execution) rest = do
    end_executed id execute index (statuses_for_execution execution.status).0 execution
    end_or id index rest (statuses_for_execution execution.status).1

  -- The loop over the steps of a task without a restore point, and its end; `result` is what the
  -- output is parsed to and encoded as.
  unfoldable pub run_planned :
      ℕ → ℕ → List StepTurn → AppResult (List ℕ) → Action OperationRunRecord
  run_planned id index [] result = do
    save_or_fail id result
    end_run_as id OperationStatus.succeeded
  run_planned id index (turn ∷ turns) result =
      let rest = run_planned id (index + 1) turns result in
      if turn.is_cancelled
      then (do skip_from id execute index; end_run_as id OperationStatus.cancelled)
      else (do
        mark_running id execute index
        note (ran execute index)
        after_planned id index turn.answer rest)

  -- `start_with_capabilities_and_cancel` from the choice of an implementation on, for a task that is
  -- not dangerous.
  unfoldable pub start_planned :
      ℕ → Bool → Bool → List StepTurn → AppResult (List ℕ) → Action OperationRunRecord
  start_planned id has_backup_plan is_cancelled turns result =
      if has_backup_plan
      then throw (validation "该任务需要备份与恢复流程，当前阶段不能直接运行")
      else if is_cancelled
      then end_run_as id OperationStatus.cancelled
      else (do move_to id OperationStatus.running; run_planned id 0 turns result)

-- `cancel`.
unfoldable pub cancel_operation : ℕ → Action (Unit {0})
cancel_operation id = do
  run ← require_details id
  elim run.status [
    | OperationStatus.backing_up ↦ throw (validation "任务正在远程执行，请在当前步骤完成取消接入后再取消")
    | OperationStatus.running ↦ throw (validation "任务正在远程执行，请在当前步骤完成取消接入后再取消")
    | OperationStatus.verifying ↦ throw (validation "任务正在远程执行，请在当前步骤完成取消接入后再取消")
    | OperationStatus.rolling_back ↦ throw (validation "任务正在远程执行，请在当前步骤完成取消接入后再取消")
    | other ↦ move_to id OperationStatus.cancelled
  ]
