-- ===== src/Workflow/Run.antt =====
-- src-tauri/src/repositories/workflow_repository.rs: the statements on `workflow_runs`, each on the row
-- of the run that it names (`WHERE id=?`, a primary key). Times are in milliseconds.
pub mod Moves
use qingzhou_ssh.Prelude.{
  ℕ, ◌-◌, String, Bool, true, false, not, ◌&&◌, ◌||◌, Option, none, some, List, [], ◌∷◌, leb,
  if◌then◌else◌,
}
use qingzhou_ssh.Prelude.Text.{codes, is_blank}
use qingzhou_ssh.Prelude.Result.{Result, ok, err}
use qingzhou_ssh.Error.{AppResult, validation}
use qingzhou_ssh.Transfer.Table.Endings.{cut_message}
use qingzhou_ssh.Workflow.Status.{
  WorkflowRunStatus, queued, running, paused, succeeded, cancelled, uncertain, rolled_back,
  rollback_failed,
}
use Prim.Native.String.{◌++◌}

pub record NewWorkflowRun : Type 0 where
  pub workflow_id : ℕ
  -- A negative version is kept as 0.
  pub workflow_version : ℕ
  pub server_id : String

pub record WorkflowRunRecord : Type 0 where
  pub id : ℕ
  pub workflow_id : ℕ
  pub workflow_version : ℕ
  pub server_id : String
  pub status : WorkflowRunStatus
  pub current_node_id : Option ℕ
  pub created_at : ℕ
  pub started_at : Option ℕ
  pub finished_at : Option ℕ
  pub duration_ms : Option ℕ
  pub error_category : Option String
  pub error_message : Option (List ℕ)
  pub retryable : Bool

pub record FinishWorkflowRun : Type 0 where
  pub status : WorkflowRunStatus
  pub finished_at : ℕ
  pub error_category : Option String
  pub error_message : Option (List ℕ)
  pub retryable : Bool

-- `CASE WHEN started_at IS NULL THEN 0 ELSE MAX(0,?-started_at) END`.
unfoldable pub duration : Option ℕ → ℕ → ℕ
duration none now = 0
duration (some started_at) now = now - started_at

abbrev pub is_queued : WorkflowRunStatus → Bool
is_queued queued = true
is_queued _ = false

abbrev pub is_running : WorkflowRunStatus → Bool
is_running running = true
is_running _ = false

abbrev pub is_paused : WorkflowRunStatus → Bool
is_paused paused = true
is_paused _ = false

-- The `matches!` of `finish_run`.
abbrev pub is_outcome : WorkflowRunStatus → Bool
is_outcome paused = true
is_outcome succeeded = true
is_outcome cancelled = true
is_outcome uncertain = true
is_outcome _ = false

-- `status IN (...)` of `finish_rollback_run`.
abbrev pub may_roll_back : WorkflowRunStatus → Bool
may_roll_back paused = true
may_roll_back succeeded = true
may_roll_back cancelled = true
may_roll_back uncertain = true
may_roll_back rollback_failed = true
may_roll_back _ = false

-- `ensure_one`: an update of one row that its test refuses affects none.
unfoldable pub update_one : Bool → WorkflowRunRecord → String → AppResult WorkflowRunRecord
update_one test row message = if test then ok row else err (validation message)

unfoldable pub create_run : ℕ → ℕ → NewWorkflowRun → AppResult WorkflowRunRecord
create_run id now draft =
    if is_blank (codes draft.server_id) || leb draft.workflow_version 0
    then err (validation "工作流运行参数不完整")
    else ok (record {
      id = id;
      workflow_id = draft.workflow_id;
      workflow_version = draft.workflow_version;
      server_id = draft.server_id;
      status = queued;
      current_node_id = none;
      created_at = now;
      started_at = none;
      finished_at = none;
      duration_ms = none;
      error_category = none;
      error_message = none;
      retryable = false;
    })

unfoldable pub mark_run_running : ℕ → ℕ → WorkflowRunRecord → AppResult WorkflowRunRecord
unfolding update_one
mark_run_running node_id now run =
    update_one (is_queued run.status)
      (record run { status = running; current_node_id = some node_id; started_at = some now })
      "工作流无法进入运行状态"

unfoldable pub set_current_node : ℕ → WorkflowRunRecord → AppResult WorkflowRunRecord
unfolding update_one
set_current_node node_id run =
    update_one (is_running run.status) (record run { current_node_id = some node_id }) "工作流不处于可推进状态"

unfoldable pub finish_run : FinishWorkflowRun → WorkflowRunRecord → AppResult WorkflowRunRecord
unfolding update_one duration
finish_run finish run =
    if not (is_outcome finish.status)
    then err (validation "工作流运行结果状态无效")
    else update_one (is_running run.status)
        (record run {
          status = finish.status;
          finished_at = some finish.finished_at;
          duration_ms = some (duration run.started_at finish.finished_at);
          error_category = finish.error_category;
          error_message = cut_message finish.error_message;
          retryable = finish.retryable;
        })
        "工作流不处于可结束状态"

unfoldable pub resume_paused_run : ℕ → WorkflowRunRecord → AppResult WorkflowRunRecord
unfolding update_one
resume_paused_run now run =
    update_one (is_paused run.status && run.retryable)
      (record run {
        status = running;
        started_at = some now;
        finished_at = none;
        duration_ms = none;
        error_category = none;
        error_message = none;
        retryable = false;
      })
      "只有可重试的暂停工作流才能恢复"

unfoldable pub finish_rollback_run :
    Bool → ℕ → Option (List ℕ) → WorkflowRunRecord → AppResult WorkflowRunRecord
unfolding update_one
finish_rollback_run done now message run =
    update_one (may_roll_back run.status)
      (record run {
        status = if done then rolled_back else rollback_failed;
        finished_at = some now;
        error_category = if done then none else some "rollback";
        error_message = cut_message message;
        retryable = not done;
      })
      "工作流当前状态不允许回滚"

-- `recover_interrupted`, on this row; it affects as many rows as it finds.
unfoldable pub recover_run : ℕ → WorkflowRunRecord → WorkflowRunRecord
unfolding duration
recover_run now run =
    if is_running run.status
    then record run {
      status = uncertain;
      finished_at = some now;
      duration_ms = some (duration run.started_at now);
      error_category = some "interrupted";
      error_message = some (codes "应用退出时远程工作流状态未确认");
      retryable = true;
    }
    else run
