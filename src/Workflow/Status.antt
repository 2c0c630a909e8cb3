-- ===== src/Workflow/Status.antt =====
-- src-tauri/src/domain/workflow.rs: the statuses of a run, a node and a restore point with their names;
-- src-tauri/src/core/workflows/state_machine.rs: which moves are allowed.
use qingzhou_ssh.Prelude.{String, ◌≡◌, refl, Bool, true, false, if◌then◌else◌}
use Prim.Native.String.{◌++◌}
use qingzhou_ssh.Prelude.Text.{str_eq}
use qingzhou_ssh.Prelude.Result.{ok, err}
use qingzhou_ssh.Error.{AppResult, validation}

pub data WorkflowRunStatus : Type 0 where
  queued running paused succeeded cancelled uncertain : WorkflowRunStatus
  rolled_back rollback_failed : WorkflowRunStatus

pub data WorkflowNodeStatus : Type 0 where
  pending running succeeded failed cancelled uncertain skipped : WorkflowNodeStatus

pub data WorkflowRestorePointStatus : Type 0 where
  creating available failed rolling_back rolled_back expired : WorkflowRestorePointStatus

unfoldable pub run_status_name : WorkflowRunStatus → String
run_status_name WorkflowRunStatus.queued = "queued"
run_status_name WorkflowRunStatus.running = "running"
run_status_name WorkflowRunStatus.paused = "paused"
run_status_name WorkflowRunStatus.succeeded = "succeeded"
run_status_name WorkflowRunStatus.cancelled = "cancelled"
run_status_name WorkflowRunStatus.uncertain = "uncertain"
run_status_name WorkflowRunStatus.rolled_back = "rolled_back"
run_status_name WorkflowRunStatus.rollback_failed = "rollback_failed"

unfoldable pub run_status_from : String → AppResult WorkflowRunStatus
run_status_from value =
    if str_eq value "queued"
    then ok WorkflowRunStatus.queued
    else if str_eq value "running"
    then ok WorkflowRunStatus.running
    else if str_eq value "paused"
    then ok WorkflowRunStatus.paused
    else if str_eq value "succeeded"
    then ok WorkflowRunStatus.succeeded
    else if str_eq value "cancelled"
    then ok WorkflowRunStatus.cancelled
    else if str_eq value "uncertain"
    then ok WorkflowRunStatus.uncertain
    else if str_eq value "rolled_back"
    then ok WorkflowRunStatus.rolled_back
    else if str_eq value "rollback_failed"
    then ok WorkflowRunStatus.rollback_failed
    else err (validation "数据库中的工作流状态无效")

unfoldable pub node_status_name : WorkflowNodeStatus → String
node_status_name WorkflowNodeStatus.pending = "pending"
node_status_name WorkflowNodeStatus.running = "running"
node_status_name WorkflowNodeStatus.succeeded = "succeeded"
node_status_name WorkflowNodeStatus.failed = "failed"
node_status_name WorkflowNodeStatus.cancelled = "cancelled"
node_status_name WorkflowNodeStatus.uncertain = "uncertain"
node_status_name WorkflowNodeStatus.skipped = "skipped"

unfoldable pub node_status_from : String → AppResult WorkflowNodeStatus
node_status_from value =
    if str_eq value "pending"
    then ok WorkflowNodeStatus.pending
    else if str_eq value "running"
    then ok WorkflowNodeStatus.running
    else if str_eq value "succeeded"
    then ok WorkflowNodeStatus.succeeded
    else if str_eq value "failed"
    then ok WorkflowNodeStatus.failed
    else if str_eq value "cancelled"
    then ok WorkflowNodeStatus.cancelled
    else if str_eq value "uncertain"
    then ok WorkflowNodeStatus.uncertain
    else if str_eq value "skipped"
    then ok WorkflowNodeStatus.skipped
    else err (validation "数据库中的工作流节点状态无效")

unfoldable pub restore_point_status_name : WorkflowRestorePointStatus → String
restore_point_status_name WorkflowRestorePointStatus.creating = "creating"
restore_point_status_name WorkflowRestorePointStatus.available = "available"
restore_point_status_name WorkflowRestorePointStatus.failed = "failed"
restore_point_status_name WorkflowRestorePointStatus.rolling_back = "rolling_back"
restore_point_status_name WorkflowRestorePointStatus.rolled_back = "rolled_back"
restore_point_status_name WorkflowRestorePointStatus.expired = "expired"

unfoldable pub restore_point_status_from : String → AppResult WorkflowRestorePointStatus
restore_point_status_from value =
    if str_eq value "creating"
    then ok WorkflowRestorePointStatus.creating
    else if str_eq value "available"
    then ok WorkflowRestorePointStatus.available
    else if str_eq value "failed"
    then ok WorkflowRestorePointStatus.failed
    else if str_eq value "rolling_back"
    then ok WorkflowRestorePointStatus.rolling_back
    else if str_eq value "rolled_back"
    then ok WorkflowRestorePointStatus.rolled_back
    else if str_eq value "expired"
    then ok WorkflowRestorePointStatus.expired
    else err (validation "数据库中的恢复点状态无效")

unfoldable pub node_is_terminal : WorkflowNodeStatus → Bool
node_is_terminal WorkflowNodeStatus.pending = false
node_is_terminal WorkflowNodeStatus.running = false
node_is_terminal _ = true

-- The `matches!` of `validate_run_transition`.
unfoldable pub run_allowed : WorkflowRunStatus → WorkflowRunStatus → Bool
run_allowed WorkflowRunStatus.queued WorkflowRunStatus.running = true
run_allowed WorkflowRunStatus.queued WorkflowRunStatus.cancelled = true
run_allowed WorkflowRunStatus.running WorkflowRunStatus.paused = true
run_allowed WorkflowRunStatus.running WorkflowRunStatus.succeeded = true
run_allowed WorkflowRunStatus.running WorkflowRunStatus.cancelled = true
run_allowed WorkflowRunStatus.running WorkflowRunStatus.uncertain = true
run_allowed WorkflowRunStatus.paused WorkflowRunStatus.running = true
run_allowed WorkflowRunStatus.paused WorkflowRunStatus.cancelled = true
run_allowed WorkflowRunStatus.paused WorkflowRunStatus.rolled_back = true
run_allowed WorkflowRunStatus.paused WorkflowRunStatus.rollback_failed = true
run_allowed WorkflowRunStatus.succeeded WorkflowRunStatus.rolled_back = true
run_allowed WorkflowRunStatus.succeeded WorkflowRunStatus.rollback_failed = true
run_allowed WorkflowRunStatus.cancelled WorkflowRunStatus.rolled_back = true
run_allowed WorkflowRunStatus.cancelled WorkflowRunStatus.rollback_failed = true
run_allowed WorkflowRunStatus.uncertain WorkflowRunStatus.rolled_back = true
run_allowed WorkflowRunStatus.uncertain WorkflowRunStatus.rollback_failed = true
run_allowed WorkflowRunStatus.rollback_failed WorkflowRunStatus.rolled_back = true
run_allowed _ _ = false

unfoldable pub validate_run_transition :
    WorkflowRunStatus → WorkflowRunStatus → AppResult (Unit {0})
unfolding run_allowed run_status_name
validate_run_transition from to =
    if run_allowed from to
    then ok tt
    else err (validation ("工作流状态不能从 " ++ run_status_name from ++ " 转为 " ++ run_status_name to))

-- The `matches!` of `validate_node_transition`.
unfoldable pub node_allowed : WorkflowNodeStatus → WorkflowNodeStatus → Bool
node_allowed WorkflowNodeStatus.pending WorkflowNodeStatus.running = true
node_allowed WorkflowNodeStatus.pending WorkflowNodeStatus.skipped = true
node_allowed WorkflowNodeStatus.pending WorkflowNodeStatus.cancelled = true
node_allowed WorkflowNodeStatus.running WorkflowNodeStatus.succeeded = true
node_allowed WorkflowNodeStatus.running WorkflowNodeStatus.failed = true
node_allowed WorkflowNodeStatus.running WorkflowNodeStatus.cancelled = true
node_allowed WorkflowNodeStatus.running WorkflowNodeStatus.uncertain = true
node_allowed _ _ = false

unfoldable pub validate_node_transition :
    WorkflowNodeStatus → WorkflowNodeStatus → AppResult (Unit {0})
unfolding node_allowed node_status_name
validate_node_transition from to =
    if node_allowed from to
    then ok tt
    else err (validation ("工作流节点状态不能从 " ++ node_status_name from ++ " 转为 " ++ node_status_name to))

run_round_trip : (s : WorkflowRunStatus) → run_status_from (run_status_name s) ≡ ok s
unfolding run_status_name run_status_from
run_round_trip WorkflowRunStatus.queued = refl
run_round_trip WorkflowRunStatus.running = refl
run_round_trip WorkflowRunStatus.paused = refl
run_round_trip WorkflowRunStatus.succeeded = refl
run_round_trip WorkflowRunStatus.cancelled = refl
run_round_trip WorkflowRunStatus.uncertain = refl
run_round_trip WorkflowRunStatus.rolled_back = refl
run_round_trip WorkflowRunStatus.rollback_failed = refl

node_round_trip : (s : WorkflowNodeStatus) → node_status_from (node_status_name s) ≡ ok s
unfolding node_status_name node_status_from
node_round_trip WorkflowNodeStatus.pending = refl
node_round_trip WorkflowNodeStatus.running = refl
node_round_trip WorkflowNodeStatus.succeeded = refl
node_round_trip WorkflowNodeStatus.failed = refl
node_round_trip WorkflowNodeStatus.cancelled = refl
node_round_trip WorkflowNodeStatus.uncertain = refl
node_round_trip WorkflowNodeStatus.skipped = refl

restore_point_round_trip :
    (s : WorkflowRestorePointStatus)
    → restore_point_status_from (restore_point_status_name s) ≡ ok s
unfolding restore_point_status_name restore_point_status_from
restore_point_round_trip WorkflowRestorePointStatus.creating = refl
restore_point_round_trip WorkflowRestorePointStatus.available = refl
restore_point_round_trip WorkflowRestorePointStatus.failed = refl
restore_point_round_trip WorkflowRestorePointStatus.rolling_back = refl
restore_point_round_trip WorkflowRestorePointStatus.rolled_back = refl
restore_point_round_trip WorkflowRestorePointStatus.expired = refl

-- What is stored as a status's name is read back as that status, for runs, nodes and restore points.
pub status_round_trips :
    (r : WorkflowRunStatus) (n : WorkflowNodeStatus) (p : WorkflowRestorePointStatus)
    → (run_status_from (run_status_name r) ≡ ok r)
      × (node_status_from (node_status_name n) ≡ ok n)
      × (restore_point_status_from (restore_point_status_name p) ≡ ok p)
status_round_trips r n p = (run_round_trip r, node_round_trip n, restore_point_round_trip p)
