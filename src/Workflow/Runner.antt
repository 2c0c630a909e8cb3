-- ===== src/Workflow/Runner.antt =====
-- The loop of `WorkflowService::run` in src-tauri/src/services/workflow_service.rs. What a node does,
-- and which of the reads, writes and events around it fails, is an argument, by the nodes visited so
-- far; of the stored state the loop has the row of the run.
pub mod Ends
pub mod Healthy
use qingzhou_ssh.Prelude.{
  ℕ, zero, suc, String, Bool, true, false, not, Option, none, some, List, [], ◌∷◌, if◌then◌else◌,
}
use qingzhou_ssh.Prelude.Result.{ok, err}
use qingzhou_ssh.Error.{AppError, AppResult, validation}
use qingzhou_ssh.Workflow.Status.{WorkflowRunStatus, WorkflowNodeStatus}
use qingzhou_ssh.Workflow.Run.{WorkflowRunRecord, FinishWorkflowRun, set_current_node, finish_run}
use qingzhou_ssh.Workflow.Graph.{WorkflowEdge, is_member, next_node}

-- `StepOutcome`, as far as the loop reads it for its own course.
pub record StepOutcome : Type 0 where
  pub status : WorkflowNodeStatus
  pub error_category : Option String
  pub error_message : Option (List ℕ)
  pub retryable : Bool
  pub condition_result : Option Bool

-- One turn of the loop: the outcome of the node, when the run is ended if it is, and the errors of
-- what is stored and sent up to the choice of the next node, of the nodes recorded as skipped, of
-- the event that tells of the end of the run, and of the last read of the run's row.
pub record Turn : Type 0 where
  pub outcome : StepOutcome
  pub finished_at : ℕ
  pub error_before : Option AppError
  pub error_skipping : Option AppError
  pub error_after : Option AppError
  pub error_reading : Option AppError

-- How the loop ends. `registered` is whether the registry still has the run.
pub record Ended : Type 0 where
  pub run : WorkflowRunRecord
  pub visited : List ℕ
  pub answer : AppResult WorkflowRunRecord
  pub registered : Bool

abbrev pub has_succeeded : WorkflowNodeStatus → Bool
has_succeeded WorkflowNodeStatus.succeeded = true
has_succeeded _ = false

-- The status of a run whose node did not succeed.
unfoldable pub stopped_status : WorkflowNodeStatus → WorkflowRunStatus
stopped_status WorkflowNodeStatus.cancelled = WorkflowRunStatus.cancelled
stopped_status WorkflowNodeStatus.uncertain = WorkflowRunStatus.uncertain
stopped_status _ = WorkflowRunStatus.paused

abbrev pub stopped_ending : Turn → FinishWorkflowRun
stopped_ending t = record {
  status = stopped_status t.outcome.status;
  finished_at = t.finished_at;
  error_category = t.outcome.error_category;
  error_message = t.outcome.error_message;
  retryable = t.outcome.retryable;
}

abbrev pub succeeded_ending : Turn → FinishWorkflowRun
succeeded_ending t = record {
  status = WorkflowRunStatus.succeeded;
  finished_at = t.finished_at;
  error_category = none;
  error_message = none;
  retryable = false;
}

-- `?`: the error is returned before `registry.remove`.
abbrev pub failed_with : AppError → WorkflowRunRecord → List ℕ → Ended
failed_with error run visited = record {
  run = run;
  visited = visited;
  answer = err error;
  registered = true;
}

-- `self.require_run(run.id).await`, after `registry.remove`: the row is read, or that fails.
abbrev pub read_run : WorkflowRunRecord → Option AppError → AppResult WorkflowRunRecord
read_run run none = ok run
read_run run (some e) = err e

-- `self.finish_run(...).await?; self.registry.remove(run.id).await;
-- return self.require_run(run.id).await`.
unfoldable pub end_run : FinishWorkflowRun → Turn → WorkflowRunRecord → List ℕ → Ended
unfolding finish_run
end_run finish t run visited = elim (finish_run finish run) [
  | err e ↦ failed_with e run visited
  | ok run' ↦ elim t.error_after [
    | some e ↦ failed_with e run' visited
    | none ↦ record {
      run = run';
      visited = visited;
      answer = read_run run' t.error_reading;
      registered = false;
    }
  ]
]

unfoldable pub end_succeeded : Turn → WorkflowRunRecord → List ℕ → Ended
unfolding end_run
end_succeeded t run visited = elim t.error_skipping [
  | some e ↦ failed_with e run visited
  | none ↦ end_run (succeeded_ending t) t run visited
]

-- The loop, from `current`, for as many turns as there is fuel.
unfoldable pub run_loop :
    ℕ → List ℕ → List WorkflowEdge → (List ℕ → Turn) → ℕ → List ℕ → WorkflowRunRecord → Option Ended
unfolding set_current_node is_member next_node end_run end_succeeded stopped_status
run_loop zero ids edges turns current visited run = none
run_loop (suc fuel) ids edges turns current visited run = elim (set_current_node current run) [
  | err e ↦ some (failed_with e run visited)
  | ok run' ↦ elim (is_member current ids) [
    | false ↦ some (failed_with (validation "工作流节点不存在") run' visited)
    | true ↦
        let t = turns (current ∷ visited) in
        elim t.error_before [
          | some e ↦ some (failed_with e run' visited)
          | none ↦ elim (has_succeeded t.outcome.status) [
            | false ↦ some (end_run (stopped_ending t) t run' (current ∷ visited))
            | true ↦ elim (next_node edges current t.outcome.condition_result) [
              | err e ↦ some (failed_with e run' (current ∷ visited))
              | ok none ↦ some (end_succeeded t run' (current ∷ visited))
              | ok (some next) ↦ run_loop fuel ids edges turns next (current ∷ visited) run'
            ]
          ]
        ]
  ]
]
