-- ===== src/Workflow/Attempts.antt =====
-- src-tauri/src/repositories/workflow_repository.rs: the statements on `workflow_node_runs`, on the rows
-- of one run. `V` is a JSON value and `json_len` the length of its text.
pub mod Numbered
use qingzhou_ssh.Prelude.{
  ℕ, ◌+◌, ◌^◌, max, String, Bool, true, false, not, ◌&&◌, Option, none, some, List, [], ◌∷◌, ◌++◌,
  map, count, ltb, ◌==◌, if◌then◌else◌,
}
use qingzhou_ssh.Prelude.Text.{codes}
use qingzhou_ssh.Prelude.Result.{ok, err}
use qingzhou_ssh.Error.{AppResult, validation}
use qingzhou_ssh.Transfer.Table.Endings.{cut_message}
use qingzhou_ssh.Workflow.Status.{WorkflowNodeStatus, node_is_terminal}
use qingzhou_ssh.Workflow.Condition.{ℤ}
use qingzhou_ssh.Workflow.Run.{duration}

pub record WorkflowNodeRun (V : Type 0) : Type 0 where
  pub node_id : ℕ
  pub attempt : ℕ
  pub status : WorkflowNodeStatus
  pub execution_id : Option ℕ
  pub started_at : Option ℕ
  pub finished_at : Option ℕ
  pub duration_ms : Option ℕ
  pub exit_code : Option ℤ
  pub result : Option V
  pub output_summary : Option (List ℕ)
  pub error_message : Option (List ℕ)
  pub retryable : Bool

pub record FinishWorkflowNode (V : Type 0) : Type 0 where
  pub node_id : ℕ
  pub attempt : ℕ
  pub status : WorkflowNodeStatus
  pub finished_at : ℕ
  pub exit_code : Option ℤ
  pub result : Option V
  pub output_summary : Option (List ℕ)
  pub error_message : Option (List ℕ)
  pub retryable : Bool

abbrev pub node_is_running : WorkflowNodeStatus → Bool
node_is_running WorkflowNodeStatus.running = true
node_is_running _ = false

module _ {V : Type 0} where
  -- `COALESCE(MAX(attempt),0)` of a node.
  unfoldable pub last_attempt : ℕ → List (WorkflowNodeRun V) → ℕ
  last_attempt node [] = 0
  last_attempt node (r ∷ rs) =
      max (if r.node_id == node then r.attempt else 0) (last_attempt node rs)

  unfoldable pub new_attempt : ℕ → ℕ → WorkflowNodeStatus → Option ℕ → WorkflowNodeRun V
  new_attempt node attempt status started_at = record {
    node_id = node;
    attempt = attempt;
    status = status;
    execution_id = none;
    started_at = started_at;
    finished_at = none;
    duration_ms = none;
    exit_code = none;
    result = none;
    output_summary = none;
    error_message = none;
    retryable = false;
  }

  -- The insertion and the reading back; the number must be an i32, which is tested after the commit.
  unfoldable pub insert_attempt :
      ℕ
      → WorkflowNodeStatus
      → Option ℕ
      → List (WorkflowNodeRun V)
      → List (WorkflowNodeRun V) × AppResult (WorkflowNodeRun V)
  unfolding last_attempt new_attempt
  insert_attempt node status started_at t =
      let row = new_attempt node (last_attempt node t + 1) status started_at in
      (t ++ row ∷ [], if ltb row.attempt (2 ^ 31) then ok row else err (validation "节点尝试次数超出范围"))

  unfoldable pub start_node_attempt :
      ℕ → ℕ → List (WorkflowNodeRun V) → List (WorkflowNodeRun V) × AppResult (WorkflowNodeRun V)
  unfolding insert_attempt
  start_node_attempt node now t = insert_attempt node WorkflowNodeStatus.running (some now) t

  unfoldable pub record_skipped_node :
      ℕ → List (WorkflowNodeRun V) → List (WorkflowNodeRun V) × AppResult (WorkflowNodeRun V)
  unfolding insert_attempt
  record_skipped_node node t = insert_attempt node WorkflowNodeStatus.skipped none t

  -- `UPDATE ... WHERE node_id=? AND attempt=? AND status='running'`, and `ensure_one`.
  unfoldable pub update_attempt :
      ℕ
      → ℕ
      → (WorkflowNodeRun V → WorkflowNodeRun V)
      → String
      → List (WorkflowNodeRun V)
      → List (WorkflowNodeRun V) × AppResult (Unit {0})
  update_attempt node attempt change message t =
      let test = λ (r : WorkflowNodeRun V).
        r.node_id == node && (r.attempt == attempt && node_is_running r.status) in
      (
        map (λ r. if test r then change r else r) t,
        if count test t == 1 then ok tt else err (validation message),
      )

  unfoldable pub link_row : ℕ → WorkflowNodeRun V → WorkflowNodeRun V
  link_row execution_id r = record r { execution_id = some execution_id }

  unfoldable pub link_node_execution :
      ℕ → ℕ → ℕ → List (WorkflowNodeRun V) → List (WorkflowNodeRun V) × AppResult (Unit {0})
  unfolding update_attempt link_row
  link_node_execution node attempt execution_id t =
      update_attempt node attempt (link_row execution_id) "节点执行引用无法保存" t

  unfoldable pub finish_node_row : FinishWorkflowNode V → WorkflowNodeRun V → WorkflowNodeRun V
  unfolding duration
  finish_node_row f r = record r {
    status = f.status;
    finished_at = some f.finished_at;
    duration_ms = some (duration r.started_at f.finished_at);
    exit_code = f.exit_code;
    result = f.result;
    output_summary = cut_message f.output_summary;
    error_message = cut_message f.error_message;
    retryable = f.retryable;
  }

  unfoldable pub interrupted_node_row : ℕ → WorkflowNodeRun V → WorkflowNodeRun V
  unfolding duration
  interrupted_node_row now r = record r {
    status = WorkflowNodeStatus.uncertain;
    finished_at = some now;
    duration_ms = some (duration r.started_at now);
    error_message = some (codes "应用退出时远程节点状态未确认");
    retryable = true;
  }

  unfoldable pub recover_nodes : ℕ → List (WorkflowNodeRun V) → List (WorkflowNodeRun V)
  unfolding interrupted_node_row
  recover_nodes now t =
      map (λ r. if node_is_running r.status then interrupted_node_row now r else r) t

  module _ (json_len : V → ℕ) where
    abbrev pub result_too_long : Option V → Bool
    result_too_long none = false
    result_too_long (some v) = ltb 32768 (json_len v)

    unfoldable pub finish_node :
        FinishWorkflowNode V
        → List (WorkflowNodeRun V)
        → List (WorkflowNodeRun V) × AppResult (Unit {0})
    unfolding update_attempt finish_node_row node_is_terminal
    finish_node f t =
        if not (node_is_terminal f.status)
        then (t, err (validation "工作流节点终态无效"))
        else if result_too_long f.result
        then (t, err (validation "节点结构化结果超过 32 KiB"))
        else update_attempt f.node_id f.attempt (finish_node_row f) "工作流节点无法进入终态" t
