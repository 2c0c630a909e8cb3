-- ===== src/Examples/Workflows.antt =====
-- A run, a graph and a condition, for domain/workflow.rs and core/workflows.
use qingzhou_ssh.Prelude.{
  ◌≤◌, arith, subst, here, there, ℕ, ◌≡◌, ◌↔◌, refl, Bool, true, false, ◌==◌, Option, none, some,
  List, [], ◌∷◌,
}
use qingzhou_ssh.Prelude.Result.{ok}
use qingzhou_ssh.Workflow.Status.{
  WorkflowRunStatus, WorkflowNodeStatus, WorkflowRestorePointStatus, run_status_name,
  run_status_from, node_status_name, node_status_from, restore_point_status_name,
  restore_point_status_from, status_round_trips,
}
use qingzhou_ssh.Workflow.Run.{WorkflowRunRecord, NewWorkflowRun, FinishWorkflowRun, create_run}
use qingzhou_ssh.Workflow.Run.Moves.{
  marks, finishes, rolls_back, execute, now_is, then_is, Allowed, has_ended, execute-Allowed,
  ended_for_good, IsRun, runs-IsRun,
}
use qingzhou_ssh.Workflow.Graph.{WorkflowEdge, success, is_member, reachable_from}
use qingzhou_ssh.Workflow.Validation.Branches.{valid-next_node}
use qingzhou_ssh.Workflow.Graph.{next_node}
use qingzhou_ssh.Prelude.{◌&&◌, leb, if◌then◌else◌}
use qingzhou_ssh.Workflow.Attempts.{last_attempt}
use qingzhou_ssh.Workflow.Attempts.Numbered.{
  AttemptOp, starts_attempt, links_attempt, recovers_attempts, attempts_of, apply_attempts,
  attempts-IsNumbered,
}
use qingzhou_ssh.Workflow.Run.{is_outcome}
use qingzhou_ssh.Workflow.Runner.Healthy.{healthy-is_outcome}
use qingzhou_ssh.Workflow.Runner.{Turn, Ended, run_loop}
use qingzhou_ssh.Workflow.Runner.Ends.{HasEnded, valid-HasEnded}
use qingzhou_ssh.Error.{AppResult, code}
use qingzhou_ssh.Workflow.Cycle.{has_cycle}
use qingzhou_ssh.Workflow.Cycle.Counting.{occurs}
use qingzhou_ssh.Workflow.Cycle.Search.{has_cycle-acyclic}
use qingzhou_ssh.Workflow.Cycle.Found.{Cycle, has_cycle-Cycle}
use qingzhou_ssh.Workflow.Validation.{validate_workflow}
use qingzhou_ssh.Workflow.Validation.Valid.{IsWorkflow, valid-IsWorkflow}
use qingzhou_ssh.Workflow.Graph.{WorkflowNode, WorkflowNodeConfig, start, custom, command, stop}
use qingzhou_ssh.Workflow.Graph.Reach.{Leads, Reaches, reachable_from-Reaches}
use qingzhou_ssh.Workflow.Condition.{
  pos, less_than, WorkflowCondition, exit_code_is, ConditionContext, evaluate_condition,
}
use qingzhou_ssh.Workflow.Condition.Opposite.{opposite, turned, evaluate-opposite}

abbrev new_run : NewWorkflowRun
new_run = record { workflow_id = 3; workflow_version = 1; server_id = "web" }

abbrev run_with : WorkflowRunStatus → Option ℕ → Option ℕ → Option ℕ → Option ℕ → WorkflowRunRecord
run_with status node started_at finished_at duration_ms = record {
  id = 9;
  workflow_id = 3;
  workflow_version = 1;
  server_id = "web";
  status = status;
  current_node_id = node;
  created_at = 5;
  started_at = started_at;
  finished_at = finished_at;
  duration_ms = duration_ms;
  error_category = none;
  error_message = none;
  retryable = false;
}

abbrev queued_run : WorkflowRunRecord
queued_run = run_with WorkflowRunStatus.queued none none none none

abbrev running_run : WorkflowRunRecord
running_run = run_with WorkflowRunStatus.running (some 0) (some 6) none none

abbrev succeeded_run : WorkflowRunRecord
succeeded_run = run_with WorkflowRunStatus.succeeded (some 0) (some 6) (some 9) (some 3)

abbrev rolled_back_run : WorkflowRunRecord
rolled_back_run = run_with WorkflowRunStatus.rolled_back (some 0) (some 6) (some 12) (some 3)

abbrev success_ending : FinishWorkflowRun
success_ending = record {
  status = WorkflowRunStatus.succeeded;
  finished_at = 9;
  error_category = none;
  error_message = none;
  retryable = false;
}

creates : create_run 9 5 new_run ≡ ok queued_run
unfolding create_run
creates = refl

starts : execute (marks 0 6) queued_run ≡ ok running_run
unfolding execute
starts = refl

ends : execute (finishes success_ending) running_run ≡ ok succeeded_run
unfolding execute
ends = refl

undoes : execute (rolls_back true 12 none) succeeded_run ≡ ok rolled_back_run
unfolding execute
undoes = refl

execute-Allowed_example : Allowed WorkflowRunStatus.queued WorkflowRunStatus.running
execute-Allowed_example = execute-Allowed (marks 0 6) queued_run running_run starts

runs-IsRun_example : IsRun succeeded_run
runs-IsRun_example =
    runs-IsRun 9 5 new_run queued_run {b = succeeded_run} creates
      (then_is (finishes success_ending) (then_is (marks 0 6) now_is starts) ends)

ended_for_good_example : has_ended WorkflowRunStatus.rolled_back ≡ true
ended_for_good_example =
    ended_for_good {a = succeeded_run} {b = rolled_back_run}
      (then_is (rolls_back true 12 none) now_is undoes) refl

status_round_trips_example :
    (run_status_from (run_status_name WorkflowRunStatus.paused) ≡ ok WorkflowRunStatus.paused)
    × (node_status_from (node_status_name WorkflowNodeStatus.skipped)
        ≡ ok WorkflowNodeStatus.skipped)
    × (restore_point_status_from (restore_point_status_name WorkflowRestorePointStatus.expired)
        ≡ ok WorkflowRestorePointStatus.expired)
status_round_trips_example =
    status_round_trips WorkflowRunStatus.paused WorkflowNodeStatus.skipped
      WorkflowRestorePointStatus.expired

-- A triangle of edges, and a node apart.
abbrev triangle : List WorkflowEdge
triangle =
    record { source = 0; target = 1; branch = success }
    ∷ record { source = 1; target = 2; branch = success }
    ∷ record { source = 2; target = 0; branch = success }
    ∷ record { source = 3; target = 1; branch = success }
    ∷ []

reachable_from-Reaches_example :
    (is_member 2 (reachable_from 0 triangle) ≡ true) ↔ Reaches triangle 0 2
reachable_from-Reaches_example = reachable_from-Reaches triangle 0 2

-- The maps of three nodes give their keys in another order than the list of nodes.
abbrev three : List ℕ
three = 0 ∷ 1 ∷ 2 ∷ []

abbrev keys : List ℕ
keys = 2 ∷ 0 ∷ 1 ∷ []

keys_once : (x : ℕ) → occurs x keys ≤ 1
keys_once x = ground arith

same_keys : (x : ℕ) → is_member x keys ≡ is_member x three
unfolding is_member
same_keys x = ground arith

abbrev line : List WorkflowEdge
line =
    record { source = 0; target = 1; branch = success }
    ∷ record { source = 1; target = 2; branch = success }
    ∷ []

abbrev ring : List WorkflowEdge
ring = record { source = 2; target = 1; branch = success } ∷ line

ring_starts : (a b : ℕ) → Leads ring a b → is_member a three ≡ true
unfolding is_member
ring_starts a b (here (s, t)) = subst (λ x. is_member x three ≡ true) s refl
ring_starts a b (there (here (s, t))) = subst (λ x. is_member x three ≡ true) s refl
ring_starts a b (there (there (here (s, t)))) = subst (λ x. is_member x three ≡ true) s refl
ring_starts a b (there (there (there l))) = elim l [ ]

ring_answer : has_cycle keys three ring ≡ true
unfolding has_cycle
ring_answer = refl

line_answer : has_cycle keys three line ≡ false
unfolding has_cycle
line_answer = refl

one_member : is_member 1 three ≡ true
unfolding is_member
one_member = refl

three_once : (x : ℕ) → occurs x three ≤ 1
three_once x = ground arith

has_cycle-Cycle_example : Cycle ring
has_cycle-Cycle_example =
    has_cycle-Cycle keys three ring keys_once same_keys three_once ring_starts ring_answer

has_cycle-acyclic_example : ¬ (Reaches line 1 0)
has_cycle-acyclic_example =
    has_cycle-acyclic keys three line 0 1 keys_once same_keys line_answer one_member
      (here (refl, refl))

-- A start, a command and a stop.
abbrev node : ℕ → WorkflowNodeConfig ℕ → WorkflowNode ℕ ℕ
node id config = record { id = id; name = 65 ∷ []; x = 0; y = 0; config = config }

abbrev nodes : List (WorkflowNode ℕ ℕ)
nodes = node 0 start ∷ node 1 (custom command (65 ∷ []) 60) ∷ node 2 (stop (65 ∷ [])) ∷ []

abbrev accept_node : WorkflowNode ℕ ℕ → AppResult (Unit {0})
accept_node n = ok tt

line_valid : (validate_workflow accept_node code keys nodes line).valid ≡ true
unfolding validate_workflow
line_valid = refl

valid-IsWorkflow_example :
    IsWorkflow accept_node code nodes line
      (validate_workflow accept_node code keys nodes line).start_node_id
valid-IsWorkflow_example =
    valid-IsWorkflow accept_node code keys nodes line keys_once same_keys line_valid

valid-next_node_example : (next : Option ℕ) × (next_node line 1 none ≡ ok next)
valid-next_node_example =
    valid-next_node accept_node code keys nodes line 1 none line_valid (there (here refl))

-- Every node succeeds, and nothing fails.
abbrev turn : List ℕ → Turn
turn visited = record {
  outcome = record {
    status = WorkflowNodeStatus.succeeded;
    error_category = none;
    error_message = none;
    retryable = false;
    condition_result = none;
  };
  finished_at = 9;
  error_before = none;
  error_skipping = none;
  error_after = none;
  error_reading = none;
}

valid-HasEnded_example :
    (e : Ended) × (run_loop 4 (0 ∷ 1 ∷ 2 ∷ []) line turn 0 [] running_run ≡ some e) × HasEnded e
valid-HasEnded_example =
    valid-HasEnded accept_node code keys nodes line turn 0 running_run keys_once same_keys
      line_valid

zero_member : is_member 0 (0 ∷ 1 ∷ 2 ∷ []) ≡ true
unfolding is_member
zero_member = refl

healthy-is_outcome_example :
    (e : Ended) × (run_loop 4 (0 ∷ 1 ∷ 2 ∷ []) line turn 0 [] running_run ≡ some e)
    × (e.answer ≡ ok e.run)
    × (is_outcome e.run.status ≡ true)
    × (e.registered ≡ false)
healthy-is_outcome_example =
    healthy-is_outcome accept_node code keys nodes line turn 0 running_run keys_once same_keys
      line_valid zero_member refl (λ v. refl) (λ v. refl) (λ v. refl) (λ v. refl)

-- JSON values are numbers here, none of which has fields.
abbrev is_scalar : ℕ → Bool
is_scalar v = true

abbrev field : ℕ → List ℕ → Option ℕ
field v name = none

abbrev same_values : ℕ → ℕ → Bool
same_values a b = a == b

abbrev small_exit : WorkflowCondition ℕ
small_exit = exit_code_is less_than (pos 3)

abbrev context : ConditionContext ℕ
context = record { exit_code = some (pos 2); result = none; output_summary = none }

evaluate-opposite_example :
    evaluate_condition is_scalar field same_values (opposite small_exit) context
    ≡ turned (evaluate_condition is_scalar field same_values small_exit context)
evaluate-opposite_example = evaluate-opposite is_scalar field same_values small_exit context

-- Node 4 is tried twice.
abbrev tries : List (AttemptOp ℕ)
tries = starts_attempt 4 10 ∷ links_attempt 4 1 77 ∷ recovers_attempts 11 ∷ starts_attempt 4 12 ∷ []

attempts-IsNumbered_example :
    attempts_of 4 2 (apply_attempts (λ v. v) tries [])
    ≡ (if leb 1 2 && leb 2 (last_attempt 4 (apply_attempts (λ v. v) tries [])) then 1 else 0)
attempts-IsNumbered_example = attempts-IsNumbered (λ v. v) tries 4 2
