-- ===== src/Operation/Service/Rollback.antt =====
-- `rollback_operation` of src-tauri/src/services/operation_service.rs: a restore point is applied by
-- hand.
use qingzhou_ssh.Prelude.{
  ℕ, String, Bool, true, false, Option, none, some, List, ◌++◌, if◌then◌else◌,
}
use qingzhou_ssh.Prelude.Text.{codes}
use qingzhou_ssh.Prelude.Result.{ok, err}
use qingzhou_ssh.Error.{AppError, AppResult, validation, restore_point_already_consumed}
use qingzhou_ssh.Error.Cut.{cut}
use qingzhou_ssh.Operation.Status.{OperationStatus, rollback, OperationStepStatus}
use qingzhou_ssh.Operation.Table.{OperationRunRecord}
use qingzhou_ssh.Operation.Action.{Action, pure, throw, given, ◌>>=◌, ◌>>◌, note, restored}
use qingzhou_ssh.Operation.Service.{move_to, mark_running, end_step, require_details, end_run_as}
use qingzhou_ssh.Operation.Service.Dangerous.{OperationRestorePointStatus, step_end, ends_uncertain}

-- What is read of a restore point.
pub record RestorePoint : Type 0 where
  pub status : OperationRestorePointStatus
  pub operation_run_id : ℕ

abbrev pub may_be_applied : OperationRestorePointStatus → Bool
may_be_applied OperationRestorePointStatus.available = true
may_be_applied OperationRestorePointStatus.partial = true
may_be_applied OperationRestorePointStatus.failed = true
may_be_applied _ = false

-- The first `match` on the status of the run.
unfoldable pub make_available : ℕ → OperationStatus → Action (Unit {0})
make_available id OperationStatus.succeeded = move_to id OperationStatus.rollback_available
make_available id OperationStatus.failed = move_to id OperationStatus.rollback_available
make_available id OperationStatus.uncertain = move_to id OperationStatus.rollback_available
make_available id OperationStatus.rollback_partial = move_to id OperationStatus.rollback_available
make_available id OperationStatus.rollback_failed = move_to id OperationStatus.rollback_available
make_available id OperationStatus.rollback_available = pure tt
make_available id _ = throw (validation "当前运维状态不允许手动回滚")

-- The name of the status in the technical details.
abbrev pub restore_status_name : OperationRestorePointStatus → String
restore_status_name OperationRestorePointStatus.creating = "creating"
restore_status_name OperationRestorePointStatus.available = "available"
restore_status_name OperationRestorePointStatus.rolling_back = "rolling_back"
restore_status_name OperationRestorePointStatus.rolled_back = "rolled_back"
restore_status_name OperationRestorePointStatus.partial = "partial"
restore_status_name OperationRestorePointStatus.failed = "failed"
restore_status_name OperationRestorePointStatus.expired = "expired"
restore_status_name OperationRestorePointStatus.cleanup_pending = "cleanup_pending"

-- `rollback_operation`'s `match` on the answer of the restore service, without the words for the user:
-- the step, the run, and the technical details.
module _ (shown : AppError → List ℕ) where
  unfoldable pub manual_outcome :
      AppResult OperationRestorePointStatus
      → OperationStepStatus × OperationStatus × Option (List ℕ)
  manual_outcome (ok OperationRestorePointStatus.rolled_back) =
      (OperationStepStatus.succeeded, OperationStatus.rolled_back, none)
  manual_outcome (ok status) = (
    OperationStepStatus.failed,
    OperationStatus.rollback_partial,
    some (codes "restoreStatus=" ++ codes (restore_status_name status)),
  )
  manual_outcome (err e) =
      if ends_uncertain e
      then (OperationStepStatus.uncertain, OperationStatus.uncertain, some (cut 8192 (shown e)))
      else (OperationStepStatus.failed, OperationStatus.rollback_failed, some (cut 8192 (shown e)))

abbrev pub manual_summary : OperationStepStatus → Option String
manual_summary OperationStepStatus.succeeded = some "恢复点已经应用并核验"
manual_summary _ = none

unfoldable pub end_manual :
    ℕ → OperationStepStatus × OperationStatus × Option (List ℕ) → Action OperationRunRecord
end_manual id (step_status, run_status, details) = do
  end_step id rollback 0 (step_end step_status (manual_summary step_status) details)
  end_run_as id run_status

unfoldable pub apply_point :
    (AppError → List ℕ) → ℕ → AppResult OperationRestorePointStatus → Action OperationRunRecord
apply_point shown id answer = do
  run ← require_details id
  make_available id run.status
  move_to id OperationStatus.rolling_back
  mark_running id rollback 0
  note restored
  end_manual id (manual_outcome shown answer)

unfoldable pub rollback_point :
    (AppError → List ℕ)
    → Option RestorePoint
    → AppResult OperationRestorePointStatus
    → Action OperationRunRecord
rollback_point shown none answer = throw (validation "恢复点不存在")
rollback_point shown (some point) answer =
    if may_be_applied point.status
    then apply_point shown point.operation_run_id answer
    else throw restore_point_already_consumed

-- `rollback_operation`: the restore point that is read, or the error on reading it, and the answer of
-- the restore service.
unfoldable pub rollback_operation :
    (AppError → List ℕ)
    → AppResult (Option RestorePoint)
    → AppResult OperationRestorePointStatus
    → Action OperationRunRecord
rollback_operation shown point answer = do found ← given point; rollback_point shown found answer
