-- ===== src/Operation/Table/Change.antt =====
-- What one statement does to each run and to each step.
use qingzhou_ssh.Prelude.{
  ℕ, ◌≡◌, refl, sym, subst, inl, inr, Bool, true, false, not, ◌&&◌, ◌||◌, some, List, arith, any,
  count, ltb, ◌==◌, if◌then◌else◌, String, &&_parts, Bool-cases, Option-cases,
}
use qingzhou_ssh.Prelude.Text.{byte_len}
use qingzhou_ssh.Prelude.Result.{ok, err, ◌>>◌, ◌>>=◌, Result-cases}
use qingzhou_ssh.Prelude.Rows.{update_rows, Grows, Grows-refl, Grows-snoc, Grows-update_rows}
use qingzhou_ssh.Error.{AppError, AppResult, validation, database}
use qingzhou_ssh.Operation.Status.{
  OperationStatus, operation_may_become, same_operation, same_operation_eq, OperationPhase,
  OperationStepStatus, step_may_become, step_is_terminal, same_step, same_step_eq, run_move_refused,
  step_move_refused,
}
use qingzhou_ssh.Operation.Table.{
  OperationRunRecord, OperationStepRecord, Store, NewOperationRun, NewOperationStep,
  FinishOperationStep, create_operation, new_run, validate_run, validate_step, get_run, get_step,
  transition, moved_run, is_confirmed_script, started_run, start_confirmed_script, ensure_changed,
  index_to_i64, is_step, is_run,
}
use qingzhou_ssh.Operation.Table.Steps.{
  create_step, new_step, StepChange, moved_step, transition_step, mark_step_running, finish_step,
  finish_change, skipped_step, skip_pending_steps, is_pending_from, takes_result, saved_run,
  max_result_bytes, result_column_bytes, running_change, save_encoded, set_result, is_interrupted,
  interrupted_step, interrupted_run, recover_operations,
}
use qingzhou_ssh.Operation.Table.Ops.{
  Statement, st_create, st_transition, st_start_script, st_create_step, st_mark_running,
  st_finish_step, st_skip, st_set_result, st_recover, store_or, store_of, execute_statement,
}

-- A change of a run's row, with what the statement asks of it.
pub data RunChange (run : OperationRunRecord) : OperationRunRecord → Type 0 where
  stays : RunChange run run
  moves :
      (next : OperationStatus) (now : ℕ)
      → operation_may_become run.status next ≡ true
      → RunChange run (moved_run next now run)
  starts : (now : ℕ) → is_confirmed_script run ≡ true → RunChange run (started_run now run)
  saves :
      (encoded : List ℕ) (now : ℕ)
      → takes_result run.status ≡ true
      → RunChange run (saved_run encoded now run)
  interrupts :
      (now : ℕ) → is_interrupted run.status ≡ true → RunChange run (interrupted_run now run)

-- A change of a step's row.
pub data StepMove (step : OperationStepRecord) : OperationStepRecord → Type 0 where
  same : StepMove step step
  begins :
      (c : StepChange) (at : ℕ)
      → step_may_become step.status OperationStepStatus.running ≡ true
      → c.next ≡ OperationStepStatus.running
      → c.started_at ≡ some at
      → StepMove step (moved_step c step)
  finishes :
      (c : StepChange) (at : ℕ)
      → step_may_become step.status c.next ≡ true
      → step_is_terminal c.next ≡ true
      → c.finished_at ≡ some at
      → StepMove step (moved_step c step)
  skips :
      (now : ℕ)
      → same_step step.status OperationStepStatus.pending ≡ true
      → StepMove step (skipped_step now step)
  breaks :
      (now : ℕ)
      → same_step step.status OperationStepStatus.running ≡ true
      → StepMove step (interrupted_step now step)

abbrev pub IsNewRun : OperationRunRecord → Type 0
IsNewRun run = (id : ℕ) × (now : ℕ) × (draft : NewOperationRun) × (run ≡ new_run id now draft)

-- A step that `create_step` puts into the table of a store that has its run.
abbrev pub IsNewStep : Store → OperationStepRecord → Type 0
IsNewStep s step =
    (draft : NewOperationStep) × (run : OperationRunRecord) × (step ≡ new_step draft)
    × (get_run s draft.run_id ≡ some run)

pub record Changes (s s' : Store) : Type 0 where
  pub runs_change : Grows RunChange IsNewRun s.runs s'.runs
  pub steps_change : Grows StepMove (IsNewStep s) s.steps s'.steps

pub runs_stay : (s : Store) → Grows RunChange IsNewRun s.runs s.runs
runs_stay s = Grows-refl RunChange IsNewRun (λ run. stays) s.runs

pub steps_stay : (s : Store) → Grows StepMove (IsNewStep s) s.steps s.steps
steps_stay s = Grows-refl StepMove (IsNewStep s) (λ step. same) s.steps

pub unchanged : (s : Store) → Changes s s
unchanged s = record { runs_change = runs_stay s; steps_change = steps_stay s }

updated_runs :
    (s : Store) (test : OperationRunRecord → Bool)
    (change : OperationRunRecord → OperationRunRecord)
    → ((run : OperationRunRecord) → test run ≡ true → RunChange run (change run))
    → Changes s (record s { runs = update_rows test change s.runs })
updated_runs s test change h = record {
  runs_change = Grows-update_rows RunChange IsNewRun test change (λ run. stays) h s.runs;
  steps_change = steps_stay s;
}

updated_steps :
    (s : Store) (test : OperationStepRecord → Bool)
    (change : OperationStepRecord → OperationStepRecord)
    → ((step : OperationStepRecord) → test step ≡ true → StepMove step (change step))
    → Changes s (record s { steps = update_rows test change s.steps })
updated_steps s test change h = record {
  runs_change = runs_stay s;
  steps_change = Grows-update_rows StepMove (IsNewStep s) test change (λ step. same) h s.steps;
}

create-Changes :
    (s : Store) (id now : ℕ) (draft : NewOperationRun)
    → Changes s (store_of s (create_operation s id now draft))
unfolding create_operation
create-Changes s id now draft = elim (Result-cases (validate_run draft)) [
  | inr e ↦ rw e.1 (unchanged s)
  | inl (u, valid) ↦ rw valid elim (Option-cases (get_run s id)) [
    | inr found ↦ rw found.1 (unchanged s)
    | inl fresh ↦ rw fresh (record {
      runs_change =
          Grows-snoc RunChange IsNewRun (λ run. stays) s.runs (new_run id now draft)
            (id, now, draft, refl);
      steps_change = steps_stay s;
    })
  ]
]

-- A test that may refuse, the check that one row was changed, and the store that follows.
guarded :
    (s s' : Store) (refuse : Bool) (e : AppError) (rows : ℕ) (message : String)
    → Changes s s'
    → Changes s (store_or s (if refuse then err e else (ensure_changed rows message >> ok s')))
unfolding ensure_changed
guarded s s' true e rows message h = unchanged s
guarded s s' false e rows message h = elim (Bool-cases (rows == 1)) [
  | inl one ↦ rw one h
  | inr other ↦ rw other (unchanged s)
]

move_allowed : (b : Bool) → not b ≡ false → b ≡ true
move_allowed b h = ground arith

transition-Changes :
    (s : Store) (id : ℕ) (next : OperationStatus) (now : ℕ)
    → Changes s (store_or s (transition s id next now))
unfolding transition
transition-Changes s id next now = elim (Option-cases (get_run s id)) [
  | inl missing ↦ rw (missing, transition) (unchanged s)
  | inr (run, found) ↦
      rw (found, transition)
        elim (Bool-cases (operation_may_become run.status next)) [
          | inr refused ↦ rw refused (unchanged s)
          | inl allowed ↦ rw allowed (
              guarded s _ false (validation (run_move_refused run.status next)) _ _ (
                updated_runs s (λ r. r.id == id && same_operation r.status run.status)
                  (moved_run next now)
                  (λ r passed. moves next now (
                    subst (λ x. operation_may_become x next ≡ true)
                      (sym (same_operation_eq r.status run.status (&&_parts _ _ passed).1))
                      allowed))))
        ]
]

start-Changes : (s : Store) (id now : ℕ) → Changes s (store_or s (start_confirmed_script s id now))
unfolding start_confirmed_script
start-Changes s id now = elim (Option-cases (get_run s id)) [
  | inl missing ↦ rw (missing, start_confirmed_script) (unchanged s)
  | inr (run, found) ↦
      rw (found, start_confirmed_script)
        (guarded s _ (not (is_confirmed_script run) || any (λ step. step.run_id == run.id) s.steps)
          (validation "只有已确认且无恢复步骤的个人脚本可以直接开始运行")
          (count (λ r. r.id == id && is_confirmed_script r) s.runs) "个人脚本状态已被其他操作修改"
          (updated_runs s (λ r. r.id == id && is_confirmed_script r) (started_run now)
            (λ r passed. starts now (&&_parts _ _ passed).1)))
]

create_step-Changes :
    (s : Store) (draft : NewOperationStep) → Changes s (store_of s (create_step s draft))
unfolding create_step
create_step-Changes s draft = elim (Result-cases (validate_step draft)) [
  | inr e ↦ rw e.1 (unchanged s)
  | inl (u, valid) ↦ rw valid elim (Option-cases (get_run s draft.run_id)) [
    | inl missing ↦ rw missing (unchanged s)
    | inr (run, found) ↦
        rw found elim (Option-cases (get_step s draft.run_id draft.phase draft.step_index)) [
          | inr taken ↦ rw taken.1 (unchanged s)
          | inl fresh ↦ rw fresh (record {
            runs_change = runs_stay s;
            steps_change =
                Grows-snoc StepMove (IsNewStep s) (λ step. same) s.steps (new_step draft)
                  (draft, run, refl, found);
          })
        ]
  ]
]

-- A step's move, by what the statement writes.
transition_step-Changes :
    (s : Store) (run_id : ℕ) (phase : OperationPhase) (step_index : ℕ) (c : StepChange)
    → ((step : OperationStepRecord)
        → step_may_become step.status c.next ≡ true
        → StepMove step (moved_step c step))
    → Changes s (store_or s (transition_step s run_id phase step_index c))
unfolding transition_step
transition_step-Changes s run_id phase step_index c h =
    elim (Result-cases (index_to_i64 step_index)) [
      | inr e ↦ rw (e.1, transition_step) (unchanged s)
      | inl (index, fits) ↦
          rw (fits, transition_step, store_or, ◌>>=◌)
            elim (Option-cases (get_step s run_id phase index)) [
              | inl missing ↦ rw missing (unchanged s)
              | inr (step, found) ↦
                  rw found elim (Bool-cases (step_may_become step.status c.next)) [
                    | inr refused ↦ rw refused (unchanged s)
                    | inl allowed ↦ rw allowed (
                        guarded s _ false (validation (step_move_refused step.status c.next)) _ _ (
                          updated_steps s
                            (λ r. is_step run_id phase index r && same_step r.status step.status)
                            (moved_step c)
                            (λ r passed. h r (
                              subst (λ x. step_may_become x c.next ≡ true)
                                (sym (same_step_eq r.status step.status (&&_parts _ _ passed).1))
                                allowed))))
                  ]
            ]
    ]

mark-Changes :
    (s : Store) (run_id : ℕ) (phase : OperationPhase) (step_index started_at : ℕ)
    → Changes s (store_or s (mark_step_running s run_id phase step_index started_at))
unfolding mark_step_running
mark-Changes s run_id phase step_index started_at =
    transition_step-Changes s run_id phase step_index (running_change started_at)
      (λ step allowed. begins (running_change started_at) started_at allowed refl refl)

finish-Changes :
    (s : Store) (finish : FinishOperationStep) → Changes s (store_or s (finish_step s finish))
unfolding finish_step
finish-Changes s finish = elim (Bool-cases (step_is_terminal finish.status)) [
  | inr refused ↦ rw (refused, finish_step) (unchanged s)
  | inl terminal ↦
      rw (terminal, finish_step)
        (transition_step-Changes s finish.run_id finish.phase finish.step_index
          (finish_change finish)
          (λ step allowed.
            finishes (finish_change finish) finish.finished_at allowed terminal refl))
]

is_pending_of :
    (run_id : ℕ) (phase : OperationPhase) (from : ℕ) (step : OperationStepRecord)
    → is_pending_from run_id phase from step ≡ true
    → same_step step.status OperationStepStatus.pending ≡ true
is_pending_of run_id phase from step h = ground arith

skip-Changes :
    (s : Store) (run_id : ℕ) (phase : OperationPhase) (from_index now : ℕ)
    → Changes s (store_of s (skip_pending_steps s run_id phase from_index now))
unfolding skip_pending_steps
skip-Changes s run_id phase from_index now = elim (Result-cases (index_to_i64 from_index)) [
  | inr e ↦ rw e.1 (unchanged s)
  | inl (from, fits) ↦ rw fits (
      updated_steps s (is_pending_from run_id phase from) (skipped_step now)
        (λ step passed. skips now (is_pending_of run_id phase from step passed)))
]

set_result-Changes :
    (s : Store) (id : ℕ) (result : AppResult (List ℕ)) (now : ℕ)
    → Changes s (store_or s (set_result s id result now))
unfolding set_result save_encoded
set_result-Changes s id (err e) now = unchanged s
set_result-Changes s id (ok encoded) now =
    elim (Bool-cases (ltb max_result_bytes (byte_len encoded))) [
      | inl long ↦ rw (long, save_encoded) (unchanged s)
      | inr fits ↦
          rw (fits, save_encoded)
            (guarded s _
              (ltb result_column_bytes (byte_len encoded)
                && any (λ r. is_run id r && takes_result r.status) s.runs)
              (database "CHECK constraint failed: operation_runs.result_json")
              (count (λ r. is_run id r && takes_result r.status) s.runs) "只能为执行中的运维任务保存结果"
              (updated_runs s (λ r. is_run id r && takes_result r.status) (saved_run encoded now)
                (λ r passed. saves encoded now (&&_parts _ _ passed).1)))
    ]

recover-Changes : (s : Store) (now : ℕ) → Changes s (recover_operations s now).0
unfolding recover_operations
recover-Changes s now = record {
  runs_change =
      Grows-update_rows RunChange IsNewRun (λ run. is_interrupted run.status) (interrupted_run now)
        (λ run. stays) (λ run passed. interrupts now passed) s.runs;
  steps_change =
      Grows-update_rows StepMove (IsNewStep s)
        (λ step.
          same_step step.status OperationStepStatus.running
          && any (λ run. is_run step.run_id run && is_interrupted run.status) s.runs)
        (interrupted_step now) (λ step. same) (λ step passed. breaks now (&&_parts _ _ passed).0)
        s.steps;
}

-- Every statement, refused or not, changes the tables in these ways only.
pub execute-Changes : (st : Statement) (s : Store) → Changes s (execute_statement st s)
unfolding execute_statement
execute-Changes (st_create id now draft) s = create-Changes s id now draft
execute-Changes (st_transition id next now) s = transition-Changes s id next now
execute-Changes (st_start_script id now) s = start-Changes s id now
execute-Changes (st_create_step draft) s = create_step-Changes s draft
execute-Changes (st_mark_running id phase index now) s = mark-Changes s id phase index now
execute-Changes (st_finish_step finish) s = finish-Changes s finish
execute-Changes (st_skip id phase index now) s = skip-Changes s id phase index now
execute-Changes (st_set_result id result now) s = set_result-Changes s id result now
execute-Changes (st_recover now) s = recover-Changes s now
