-- ===== src/Workflow/Run/Moves.antt =====
-- How the statements on a run move its status, and what holds of the row after any of them.
use qingzhou_ssh.Prelude.{
  ℕ, ◌≡◌, ◌⊎◌, Bool, true, false, not, Option, none, List, arith, if◌then◌else◌,
}
use qingzhou_ssh.Prelude.Result.{ok}
use qingzhou_ssh.Error.{AppResult}
use qingzhou_ssh.Transfer.Table.Invariant.{is_some}
use qingzhou_ssh.Workflow.Status.{
  WorkflowRunStatus, queued, running, paused, run_allowed, validate_run_transition,
}
use qingzhou_ssh.Workflow.Run.{
  WorkflowRunRecord, NewWorkflowRun, FinishWorkflowRun, is_running, is_queued, update_one,
  create_run, mark_run_running, set_current_node, finish_run, resume_paused_run,
  finish_rollback_run, recover_run,
}

-- One statement on the row of a run that exists.
pub data Statement : Type 0 where
  marks : ℕ → ℕ → Statement
  sets_node : ℕ → Statement
  finishes : FinishWorkflowRun → Statement
  resumes : ℕ → Statement
  rolls_back : Bool → ℕ → Option (List ℕ) → Statement
  recovers : ℕ → Statement

unfoldable pub execute : Statement → WorkflowRunRecord → AppResult WorkflowRunRecord
unfolding mark_run_running set_current_node finish_run resume_paused_run finish_rollback_run
    recover_run
execute (marks node_id now) run = mark_run_running node_id now run
execute (sets_node node_id) run = set_current_node node_id run
execute (finishes finish) run = finish_run finish run
execute (resumes now) run = resume_paused_run now run
execute (rolls_back done now message) run = finish_rollback_run done now message run
execute (recovers now) run = ok (recover_run now run)

-- The rows that a run can have: statements one after another, those refused left out.
pub data Later (r : WorkflowRunRecord) : WorkflowRunRecord → Type 0 where
  now_is : Later r r
  then_is : {a b : WorkflowRunRecord} (s : Statement) → Later r a → execute s a ≡ ok b → Later r b

-- The statement moves the run as `validate_run_transition` allows, or leaves the status as it is.
abbrev pub Allowed : WorkflowRunStatus → WorkflowRunStatus → Type 0
Allowed before after = (validate_run_transition before after ≡ ok tt) ⊎ (after ≡ before)

-- A run that ended: it is not queued, running or paused.
abbrev pub has_ended : WorkflowRunStatus → Bool
has_ended queued = false
has_ended running = false
has_ended paused = false
has_ended _ = true

-- Every statement that is not refused moves a run's status along `validate_run_transition` or leaves
-- it as it was, though none of them calls it.
pub execute-Allowed :
    (s : Statement) (a b : WorkflowRunRecord) → execute s a ≡ ok b → Allowed a.status b.status
unfolding execute validate_run_transition run_allowed update_one
execute-Allowed (marks node_id now) a b h = ground arith
execute-Allowed (sets_node node_id) a b h = ground arith
execute-Allowed (finishes finish) a b h = ground arith
execute-Allowed (resumes now) a b h = ground arith
execute-Allowed (rolls_back done now message) a b h = ground arith
execute-Allowed (recovers now) a b h = ground arith

execute_ended :
    (s : Statement) (a b : WorkflowRunRecord)
    → execute s a ≡ ok b
    → has_ended a.status ≡ true
    → has_ended b.status ≡ true
unfolding execute update_one
execute_ended (marks node_id now) a b h e = ground arith
execute_ended (sets_node node_id) a b h e = ground arith
execute_ended (finishes finish) a b h e = ground arith
execute_ended (resumes now) a b h e = ground arith
execute_ended (rolls_back done now message) a b h e = ground arith
execute_ended (recovers now) a b h e = ground arith

-- A run that ended never waits, runs or pauses again, whatever statements follow.
pub ended_for_good :
    {a b : WorkflowRunRecord} → Later a b → has_ended a.status ≡ true → has_ended b.status ≡ true
ended_for_good now_is e = e
ended_for_good (then_is {a = m} {b = b} s l h) e = execute_ended s m b h (ended_for_good l e)

-- A row is well-formed.
pub record IsRun (r : WorkflowRunRecord) : Type 0 where
  pub ended :
      is_some r.finished_at ≡ (if is_queued r.status then false else not (is_running r.status))
  pub started : is_running r.status ≡ true → is_some r.started_at ≡ true
  pub not_retryable : is_running r.status ≡ true → r.retryable ≡ false
  pub no_error : is_running r.status ≡ true → (r.error_category ≡ none) × (r.error_message ≡ none)
  pub fresh :
      is_queued r.status ≡ true
      → (r.started_at ≡ none)
        × (r.error_category ≡ none)
        × (r.error_message ≡ none)
        × (r.retryable ≡ false)

execute-IsRun : (s : Statement) (a b : WorkflowRunRecord) → execute s a ≡ ok b → IsRun a → IsRun b
unfolding execute update_one
execute-IsRun (marks node_id now) a b h e = ground arith
execute-IsRun (sets_node node_id) a b h e = ground arith
execute-IsRun (finishes finish) a b h e = ground arith
execute-IsRun (resumes now) a b h e = ground arith
execute-IsRun (rolls_back done now message) a b h e = ground arith
execute-IsRun (recovers now) a b h e = ground arith

create-IsRun :
    (id now : ℕ) (draft : NewWorkflowRun) (r : WorkflowRunRecord)
    → create_run id now draft ≡ ok r
    → IsRun r
unfolding create_run
create-IsRun id now draft r h = ground arith

Later-IsRun : {a b : WorkflowRunRecord} → Later a b → IsRun a → IsRun b
Later-IsRun now_is h = h
Later-IsRun (then_is {a = m} {b = b} s l e) h = execute-IsRun s m b e (Later-IsRun l h)

-- A run that was created keeps this through every statement: it has a finish time just when it is
-- neither queued nor running; while it runs it has a start time, no error, and is not retryable;
-- while it is queued it has no start time, no error, and is not retryable.
pub runs-IsRun :
    (id now : ℕ) (draft : NewWorkflowRun) (r : WorkflowRunRecord) {b : WorkflowRunRecord}
    → create_run id now draft ≡ ok r
    → Later r b
    → IsRun b
runs-IsRun id now draft r h l = Later-IsRun l (create-IsRun id now draft r h)
