-- ===== src/Operation/Table/Steps.antt =====
-- The other statements of src-tauri/src/repositories/operation_repository.rs: those on steps, the
-- result of a run, and what a restart does.
use qingzhou_ssh.Prelude.{
  ℕ, Bool, true, false, not, ◌&&◌, Option, none, some, List, [], ◌∷◌, ◌++◌, any, count, ltb, leb,
  ◌==◌, if◌then◌else◌,
}
use qingzhou_ssh.Prelude.Text.{codes, byte_len}
use qingzhou_ssh.Prelude.Result.{ok, err, ◌>>=◌, ◌>>◌}
use qingzhou_ssh.Prelude.Rows.{update_rows}
use qingzhou_ssh.Error.{AppResult, validation, database}
use qingzhou_ssh.Error.Cut.{cut}
use qingzhou_ssh.Operation.Status.{
  OperationStatus, OperationPhase, same_phase, OperationStepStatus, step_may_become,
  step_is_terminal, same_step, step_move_refused, uncertain,
}
use qingzhou_ssh.Operation.Table.{
  OperationRunRecord, OperationStepRecord, Store, NewOperationStep, FinishOperationStep,
  validate_step, index_to_i64, ensure_changed, is_run, is_step, get_run, get_step,
}

unfoldable pub new_step : NewOperationStep → OperationStepRecord
new_step draft = record {
  run_id = draft.run_id;
  phase = draft.phase;
  step_index = draft.step_index;
  step_id = draft.step_id;
  title = draft.title;
  status = OperationStepStatus.pending;
  execution_id = none;
  output_summary = none;
  error_message = none;
  started_at = none;
  finished_at = none;
}

-- `create_step`; the key is the run, the phase and the index, and the run must exist.
unfoldable pub create_step : Store → NewOperationStep → AppResult (Store × OperationStepRecord)
unfolding validate_step new_step get_run get_step
create_step s draft = do
  validate_step draft
  elim (get_run s draft.run_id) [
    | none ↦ err (database "FOREIGN KEY constraint failed")
    | some run ↦ elim (get_step s draft.run_id draft.phase draft.step_index) [
      | some step ↦ err (database "UNIQUE constraint failed: operation_steps")
      | none ↦ let step = new_step draft in ok (record s { steps = s.steps ++ step ∷ [] }, step)
    ]
  ]

-- `COALESCE(?, column)`.
abbrev pub coalesce {ℓ} : {A : Type ℓ} → Option A → Option A → Option A
coalesce none old = old
coalesce (some new) old = some new

-- What `transition_step` writes.
pub record StepChange : Type 0 where
  pub next : OperationStepStatus
  pub execution_id : Option ℕ
  pub output_summary : Option (List ℕ)
  pub error_message : Option (List ℕ)
  pub started_at : Option ℕ
  pub finished_at : Option ℕ

unfoldable pub moved_step : StepChange → OperationStepRecord → OperationStepRecord
moved_step c step = record step {
  status = c.next;
  execution_id = coalesce c.execution_id step.execution_id;
  output_summary = coalesce c.output_summary step.output_summary;
  error_message = coalesce c.error_message step.error_message;
  started_at = coalesce c.started_at step.started_at;
  finished_at = coalesce c.finished_at step.finished_at;
}

unfoldable pub transition_step : Store → ℕ → OperationPhase → ℕ → StepChange → AppResult Store
unfolding index_to_i64 get_step step_may_become moved_step ensure_changed same_step
transition_step s run_id phase step_index c = do
  index ← index_to_i64 step_index
  elim (get_step s run_id phase index) [
    | none ↦ err (validation "运维步骤不存在")
    | some step ↦
        let current = step.status in
        let test : OperationStepRecord → Bool =
          λ r. is_step run_id phase index r && same_step r.status current in
        if not (step_may_become current c.next)
        then err (validation (step_move_refused current c.next))
        else do
          ensure_changed (count test s.steps) "运维步骤已被其他操作修改"
          ok (record s { steps = update_rows test (moved_step c) s.steps })
  ]

-- What `mark_step_running` passes on.
abbrev pub running_change : ℕ → StepChange
running_change started_at = record {
  next = OperationStepStatus.running;
  execution_id = none;
  output_summary = none;
  error_message = none;
  started_at = some started_at;
  finished_at = none;
}

unfoldable pub mark_step_running : Store → ℕ → OperationPhase → ℕ → ℕ → AppResult Store
unfolding transition_step
mark_step_running s run_id phase step_index started_at =
    transition_step s run_id phase step_index (running_change started_at)

-- `cap_utf8` to 8 KiB.
unfoldable pub cap_utf8 : Option (List ℕ) → Option (List ℕ)
cap_utf8 none = none
cap_utf8 (some value) = some (cut 8192 value)

-- What `finish_step` passes on.
abbrev pub finish_change : FinishOperationStep → StepChange
finish_change finish = record {
  next = finish.status;
  execution_id = finish.execution_id;
  output_summary = cap_utf8 finish.output_summary;
  error_message = cap_utf8 finish.error_message;
  started_at = none;
  finished_at = some finish.finished_at;
}

unfoldable pub finish_step : Store → FinishOperationStep → AppResult Store
unfolding transition_step cap_utf8
finish_step s finish =
    if step_is_terminal finish.status
    then transition_step s finish.run_id finish.phase finish.step_index (finish_change finish)
    else err (validation "运维步骤终态无效")

unfoldable pub skipped_step : ℕ → OperationStepRecord → OperationStepRecord
skipped_step now step = record step { status = OperationStepStatus.skipped; finished_at = some now }

-- The pending steps of a phase from an index on.
abbrev pub is_pending_from : ℕ → OperationPhase → ℕ → OperationStepRecord → Bool
is_pending_from run_id phase from_index step =
    step.run_id == run_id
    && (same_phase step.phase phase
        && (leb from_index step.step_index && same_step step.status OperationStepStatus.pending))

unfoldable pub skip_pending_steps : Store → ℕ → OperationPhase → ℕ → ℕ → AppResult (Store × ℕ)
unfolding index_to_i64 skipped_step same_phase same_step
skip_pending_steps s run_id phase from_index now = do
  from ← index_to_i64 from_index
  let test : OperationStepRecord → Bool = is_pending_from run_id phase from
  ok (record s { steps = update_rows test (skipped_step now) s.steps }, count test s.steps)

-- The statuses in which a result may be saved.
abbrev pub takes_result : OperationStatus → Bool
takes_result OperationStatus.running = true
takes_result OperationStatus.verifying = true
takes_result _ = false

unfoldable pub saved_run : List ℕ → ℕ → OperationRunRecord → OperationRunRecord
saved_run encoded now run = record run { result = some encoded; updated_at = now }

-- `MAX_RESULT_BYTES`.
abbrev pub max_result_bytes : ℕ
max_result_bytes = 262144

-- The limit that the column `result_json` has in the schema.
abbrev pub result_column_bytes : ℕ
result_column_bytes = 65536

-- `set_result` once the result is encoded; the check of the column breaks a statement that changes a
-- row.
unfoldable pub save_encoded : Store → ℕ → List ℕ → ℕ → AppResult Store
unfolding saved_run ensure_changed
save_encoded s id encoded now =
    let test : OperationRunRecord → Bool = λ r. is_run id r && takes_result r.status in
    if ltb max_result_bytes (byte_len encoded)
    then err (validation "运维结构化结果超过大小上限")
    else if ltb result_column_bytes (byte_len encoded) && any test s.runs
    then err (database "CHECK constraint failed: operation_runs.result_json")
    else do
      ensure_changed (count test s.runs) "只能为执行中的运维任务保存结果"
      ok (record s { runs = update_rows test (saved_run encoded now) s.runs })

-- `set_result` of a result that serde encodes, or fails to.
unfoldable pub set_result : Store → ℕ → AppResult (List ℕ) → ℕ → AppResult Store
unfolding save_encoded
set_result s id result now = do encoded ← result; save_encoded s id encoded now

-- The statuses in which a restart finds a run interrupted.
abbrev pub is_interrupted : OperationStatus → Bool
is_interrupted OperationStatus.preflighting = true
is_interrupted OperationStatus.backing_up = true
is_interrupted OperationStatus.running = true
is_interrupted OperationStatus.verifying = true
is_interrupted OperationStatus.rolling_back = true
is_interrupted _ = false

unfoldable pub interrupted_step : ℕ → OperationStepRecord → OperationStepRecord
interrupted_step now step = record step {
  status = OperationStepStatus.uncertain;
  finished_at = some now;
  error_message = some (codes "应用退出时步骤状态未确认");
}

unfoldable pub interrupted_run : ℕ → OperationRunRecord → OperationRunRecord
interrupted_run now run = record run {
  status = uncertain;
  updated_at = now;
  finished_at = some now;
  error_category = some "interrupted";
  error_message = some (codes "应用退出时远程状态未确认");
}

unfoldable pub recover_operations : Store → ℕ → Store × ℕ
unfolding interrupted_step interrupted_run same_step
recover_operations s now =
    let of_interrupted : OperationStepRecord → Bool = λ step.
      same_step step.status OperationStepStatus.running
      && any (λ run. is_run step.run_id run && is_interrupted run.status) s.runs in
    let test : OperationRunRecord → Bool = λ run. is_interrupted run.status in
    (
      record {
        steps = update_rows of_interrupted (interrupted_step now) s.steps;
        runs = update_rows test (interrupted_run now) s.runs;
      },
      count test s.runs,
    )
