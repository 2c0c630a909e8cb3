-- ===== src/Examples/Operations.antt =====
-- Runs of the operations on concrete inputs.
use qingzhou_ssh.Prelude.{
  ℕ, ◌+◌, ◌≡◌, ◌≢◌, refl, ◌⊎◌, true, false, Option, none, some, List, [], ◌∷◌, arith, all,
}
use qingzhou_ssh.Prelude.Text.{eq_iff, codes}
use qingzhou_ssh.Prelude.Result.{ok, err}
use qingzhou_ssh.Error.{AppError, AppResult}
use qingzhou_ssh.Transfer.Queue.{ExecutionStatus}
use qingzhou_ssh.Operation.Status.{OperationStatus, dangerous, backup, execute, verify, rollback}
use qingzhou_ssh.Operation.Table.{
  OperationRunRecord, Store, NewOperationRun, NewOperationStep, get_run, new_run,
}
use qingzhou_ssh.Operation.Table.Ops.{
  Statement, st_create, st_transition, st_create_step, execute_statements,
}
use qingzhou_ssh.Operation.Table.Invariant.{IsStore, statements-IsStore, empty_store}
use qingzhou_ssh.Operation.Table.Moves.{Visits, confirmed-Visits}
use qingzhou_ssh.Operation.Action.{World, Ensured}
use qingzhou_ssh.Operation.Service.{
  StepTurn, ExecutionRecord, start_planned, run_planned, after_planned, end_or, save_or_fail,
  saved_or_failed,
}
use qingzhou_ssh.Operation.Service.Dangerous.{
  OperationRestorePointStatus, DangerousPlan, Answers, run_dangerous,
}
use qingzhou_ssh.Operation.Service.Settled.{IsBacked}
use qingzhou_ssh.Operation.Service.Outcome.{Outcome}
use qingzhou_ssh.Operation.Service.Leads.{run_dangerous-Outcome}
use qingzhou_ssh.Operation.Service.Planned.{IsOver, went_well, start_planned-IsOver}
use qingzhou_ssh.Operation.Action.{pure}
use qingzhou_ssh.Operation.Table.Steps.{set_result}
use qingzhou_ssh.Operation.Service.Preview.{
  TaskDefinition, StartAnswers, HasPreview, start_operation, dangerous_needs_preview,
}
use qingzhou_ssh.Operation.Restore.{OperationRestorePoint, Points, get_point}
use qingzhou_ssh.Operation.Restore.Ops.{
  PointStatement, pt_begin_rollback, pt_begin_cleanup, pt_finish_cleanup, apply_point_statements,
}
use qingzhou_ssh.Operation.Restore.Spent.{is_spent, spent_stays}
use qingzhou_ssh.Operation.Table.{
  create_operation, validate_run, bad_summary, get_step, validate_step, index_to_i64, transition,
  moved_run, ensure_changed,
}
use qingzhou_ssh.Operation.Table.Ops.{execute_statement}
use qingzhou_ssh.Operation.Table.Steps.{
  create_step, new_step, transition_step, moved_step, mark_step_running, finish_step, cap_utf8,
  skip_pending_steps, skipped_step, save_encoded, saved_run,
}
use qingzhou_ssh.Prelude.Rows.{update_rows}
use qingzhou_ssh.Operation.Status.{
  same_operation, same_phase, same_step, operation_may_become, step_may_become,
}
use qingzhou_ssh.Operation.Service.Dangerous.{
  with_backup, confirm_dangerous, back_up, after_capture, run_captured, end_backups, after_execute,
  verify_steps, after_verify, finish_dangerous_failure, roll_back, end_rollback, rollback_outcome,
  end_verified,
}
use qingzhou_ssh.Operation.Service.{
  run_phase, after_step, stop_or, move_to, mark_running, skip_from, end_step, end_executed,
  end_run_as, require_details, time_or_now, statuses_for_execution, doubted, lost_connection,
  operation_status_for_error,
}
use qingzhou_ssh.Operation.Action.{now_millis, note, db, ◌>>=◌}
use qingzhou_ssh.Error.Cut.{cut}

abbrev draft_run : NewOperationRun
draft_run = record {
  server_id = "web";
  task_id = "service.restart";
  task_version = 1;
  risk_level = dangerous;
  parameters_summary = none;
}

abbrev step_draft : NewOperationStep
step_draft = record { run_id = 7; phase = backup; step_index = 0; step_id = "unit"; title = "unit" }

abbrev preview_statements : List Statement
preview_statements =
    st_create 7 100 draft_run
    ∷ st_transition 7 OperationStatus.preflighting 101
    ∷ st_create_step step_draft
    ∷ st_create_step (record step_draft { phase = execute })
    ∷ st_create_step (record step_draft { phase = verify })
    ∷ st_create_step (record step_draft { phase = rollback })
    ∷ st_transition 7 OperationStatus.preview_ready 102
    ∷ []

statements-IsStore_example : IsStore (execute_statements preview_statements empty_store)
statements-IsStore_example = statements-IsStore preview_statements

abbrev waiting_run : OperationRunRecord
waiting_run = record {
  id = 7;
  server_id = "web";
  task_id = "service.restart";
  task_version = 1;
  risk_level = dangerous;
  status = OperationStatus.waiting_confirmation;
  parameters_summary = none;
  result = none;
  error_category = none;
  error_message = none;
  created_at = 100;
  updated_at = 103;
  finished_at = none;
}

abbrev waiting_store : Store
waiting_store = record { runs = waiting_run ∷ []; steps = [] }

waiting_found : get_run waiting_store 7 ≡ some waiting_run
unfolding get_run
waiting_found = refl

abbrev confirmed_statements : List Statement
confirmed_statements =
    st_transition 7 OperationStatus.running 104
    ∷ st_transition 7 OperationStatus.backing_up 105
    ∷ st_transition 7 OperationStatus.running 106
    ∷ []

other_task : waiting_run.task_id ≢ "script.personal"
other_task = ground (arith, eq_iff "service.restart" "script.personal")

confirmed-Visits_example :
    Visits OperationStatus.backing_up 7 confirmed_statements waiting_store
    ⊎ ((k : OperationRunRecord) × (get_run (execute_statements confirmed_statements waiting_store) 7
          ≡ some k)
        × ((k.status ≡ OperationStatus.waiting_confirmation)
            ⊎ (k.status ≡ OperationStatus.cancelled)))
confirmed-Visits_example =
    confirmed-Visits confirmed_statements waiting_store 7 waiting_run waiting_found refl other_task

abbrev no_text : AppError → List ℕ
no_text e = []

abbrev done_execution : ExecutionRecord
done_execution = record {
  id = 40;
  status = ExecutionStatus.succeeded;
  output_summary = none;
  error_message = none;
  error_category = none;
  finished_at = none;
}

abbrev good_turn : StepTurn
good_turn = record { is_cancelled = false; answer = ok done_execution }

abbrev lost_turn : StepTurn
lost_turn = record { is_cancelled = false; answer = err (AppError.validation "bad command") }

abbrev restart_plan : DangerousPlan
restart_plan = record {
  task_id = "service.restart";
  backup_items = some 1;
  has_verify_steps = true;
  has_rollback_plan = true;
}

abbrev restart_answers : Answers
restart_answers = record {
  is_cancelled = false;
  capture = ok tt;
  recovery = ok tt;
  attach = ok tt;
  elevated = ok tt;
  execute_turns = good_turn ∷ [];
  is_cancelled_at_verify = false;
  finalized = ok tt;
  committed = ok tt;
  verify_turns = lost_turn ∷ [];
  rollback = ok OperationRestorePointStatus.rolled_back;
  result = ok [];
}

preview_store : Store
preview_store = execute_statements preview_statements empty_store

abbrev first_world : World
first_world = record { store = preview_store; clock = λ n. 200 + n; reads = 0; log = [] }

run_dangerous-Outcome_example :
    Ensured
      (Outcome 7)
      (λ w. IsBacked w.log)
      (run_dangerous no_text 7 restart_plan restart_answers first_world)
run_dangerous-Outcome_example =
    run_dangerous-Outcome no_text 7 restart_plan restart_answers first_world refl

-- The status of the run that an action gives back.
abbrev status_of : World × AppResult OperationRunRecord → Option OperationStatus
status_of (w, ok run) = some run.status
status_of (w, err e) = none

-- The planned run below is given back.
planned_succeeds :
    status_of (start_planned no_text 7 false false (good_turn ∷ []) (ok []) first_world)
    ≡ some OperationStatus.succeeded
unfolding preview_store execute_statements execute_statement create_operation new_run validate_run
    get_run get_step create_step new_step validate_step index_to_i64 transition moved_run
    operation_may_become ensure_changed transition_step moved_step step_may_become mark_step_running
    finish_step cap_utf8 skip_pending_steps skipped_step set_result save_encoded saved_run
    update_rows same_operation same_phase same_step move_to mark_running skip_from end_step
    end_executed end_run_as require_details now_millis note db ◌>>=◌ time_or_now
    statuses_for_execution cut bad_summary start_planned run_planned after_planned end_or
    save_or_fail saved_or_failed
planned_succeeds = refl

start_planned-IsOver_example :
    Ensured
      (IsOver (all went_well (good_turn ∷ [])) 7)
      (λ w. Unit {0})
      (start_planned no_text 7 false false (good_turn ∷ []) (ok []) first_world)
start_planned-IsOver_example =
    start_planned-IsOver no_text 7 false false (good_turn ∷ []) (ok []) first_world

-- A verification that fails rolls the run back.
restart_rolls_back :
    status_of (run_dangerous no_text 7 restart_plan restart_answers first_world)
    ≡ some OperationStatus.rolled_back
unfolding preview_store execute_statements execute_statement create_operation new_run validate_run
    get_run get_step create_step new_step validate_step index_to_i64 transition moved_run
    operation_may_become ensure_changed transition_step moved_step step_may_become mark_step_running
    finish_step cap_utf8 skip_pending_steps skipped_step set_result save_encoded saved_run
    update_rows same_operation same_phase same_step run_dangerous with_backup confirm_dangerous
    back_up after_capture run_captured end_backups run_phase after_step stop_or after_execute
    verify_steps after_verify finish_dangerous_failure roll_back end_rollback rollback_outcome
    end_verified move_to mark_running skip_from end_step end_executed end_run_as require_details
    now_millis note db ◌>>=◌ time_or_now statuses_for_execution doubted lost_connection
    operation_status_for_error cut bad_summary
restart_rolls_back = refl

restart_succeeds :
    status_of (
      run_dangerous no_text 7 restart_plan
        (record restart_answers { verify_turns = good_turn ∷ [] })
        first_world)
    ≡ some OperationStatus.succeeded
unfolding preview_store execute_statements execute_statement create_operation new_run validate_run
    get_run get_step create_step new_step validate_step index_to_i64 transition moved_run
    operation_may_become ensure_changed transition_step moved_step step_may_become mark_step_running
    finish_step cap_utf8 skip_pending_steps skipped_step set_result save_encoded saved_run
    update_rows same_operation same_phase same_step run_dangerous with_backup confirm_dangerous
    back_up after_capture run_captured end_backups run_phase after_step stop_or after_execute
    verify_steps after_verify finish_dangerous_failure roll_back end_rollback rollback_outcome
    end_verified move_to mark_running skip_from end_step end_executed end_run_as require_details
    now_millis note db ◌>>=◌ time_or_now statuses_for_execution doubted lost_connection
    operation_status_for_error cut bad_summary
restart_succeeds = refl

abbrev preview_run : OperationRunRecord
preview_run = record waiting_run { status = OperationStatus.preview_ready; updated_at = 102 }

abbrev start_answers : StartAnswers
start_answers = record {
  definition = ok (record { id = "service.restart"; version = 1; risk_level = dangerous });
  validated = ok (some (codes "unit=nginx"));
  preview = pure 8;
  has_backup_plan = ok true;
  plan = ok restart_plan;
  is_cancelled = false;
  turns = [];
  result = ok [];
  answers = restart_answers;
}

abbrev restart_definition : TaskDefinition
restart_definition = record { id = "service.restart"; version = 1; risk_level = dangerous }

-- The parameters are not those of the preview.
dangerous_needs_preview_example :
    HasPreview "web" (some 7) restart_definition (some (codes "unit=nginx")) first_world
    ⊎ ((start_operation no_text "web" (some 7) start_answers first_world).0 ≡ first_world)
dangerous_needs_preview_example =
    dangerous_needs_preview no_text "web" start_answers first_world restart_definition
      (some (codes "unit=nginx")) refl refl refl (some 7)

abbrev used_point : OperationRestorePoint
used_point = record {
  id = 3;
  operation_run_id = 7;
  server_id = "web";
  task_id = "service.restart";
  status = OperationRestorePointStatus.rolled_back;
  remote_asset_id = none;
  expires_at = none;
  created_at = 100;
  updated_at = 110;
}

abbrev used_points : Points
used_points = record { points = used_point ∷ []; items = [] }

used_found : get_point used_points 3 ≡ some used_point
unfolding get_point
used_found = refl

abbrev again_statements : List PointStatement
again_statements =
    pt_begin_rollback 3 120 ∷ pt_begin_cleanup 3 120 121 ∷ pt_finish_cleanup 3 122 ∷ []

spent_stays_example :
    (q : OperationRestorePoint) × (get_point (apply_point_statements again_statements used_points) 3
      ≡ some q)
    × (is_spent q.status ≡ true)
spent_stays_example = spent_stays again_statements used_points 3 used_point used_found refl
