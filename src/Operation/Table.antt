-- ===== src/Operation/Table.antt =====
-- src-tauri/src/repositories/operation_repository.rs: the tables `operation_runs` and
-- `operation_steps` and each statement on them, with the constraints of
-- src-tauri/migrations/0004_operations.sql. The database answers every query, and `now` is what the
-- clock says; that a server and an execution exist is taken for granted.
pub mod Steps
pub mod Ops
pub mod Change
pub mod Invariant
pub mod Moves
use qingzhou_ssh.Prelude.{
  ℕ, ◌^◌, String, Bool, true, false, not, ◌&&◌, ◌||◌, Option, none, some, List, [], ◌∷◌, ◌++◌, any,
  find?, count, ltb, leb, ◌==◌, if◌then◌else◌,
}
use qingzhou_ssh.Prelude.Text.{str_eq, codes, contains, is_blank, byte_len}
use qingzhou_ssh.Prelude.Result.{Result, ok, err, ◌>>=◌, ◌>>◌}
use qingzhou_ssh.Prelude.Rows.{update_rows}
use qingzhou_ssh.Error.{AppError, AppResult, validation, serialization, database}
use qingzhou_ssh.Error.Cut.{cut}
use qingzhou_ssh.Operation.Status.{
  RiskLevel, risk_as_str, OperationStatus, operation_as_str, operation_may_become,
  operation_is_terminal, same_operation, OperationPhase, same_phase, OperationStepStatus,
  run_move_refused, validating, preflighting, waiting_confirmation, backing_up, running, verifying,
  uncertain, rolling_back,
}

-- A row of `operation_runs`. An id is the 128-bit value of a UUID, a time is in milliseconds, an i32 is
-- its 32-bit pattern, and a text that is measured is its code points.
pub record OperationRunRecord : Type 0 where
  pub id : ℕ
  pub server_id : String
  pub task_id : String
  pub task_version : ℕ
  pub risk_level : RiskLevel
  pub status : OperationStatus
  pub parameters_summary : Option (List ℕ)
  pub result : Option (List ℕ)
  pub error_category : Option String
  pub error_message : Option (List ℕ)
  pub created_at : ℕ
  pub updated_at : ℕ
  pub finished_at : Option ℕ

pub record OperationStepRecord : Type 0 where
  pub run_id : ℕ
  pub phase : OperationPhase
  pub step_index : ℕ
  pub step_id : String
  pub title : String
  pub status : OperationStepStatus
  pub execution_id : Option ℕ
  pub output_summary : Option (List ℕ)
  pub error_message : Option (List ℕ)
  pub started_at : Option ℕ
  pub finished_at : Option ℕ

-- The two tables.
pub record Store : Type 0 where
  pub runs : List OperationRunRecord
  pub steps : List OperationStepRecord

pub record NewOperationRun : Type 0 where
  pub server_id : String
  pub task_id : String
  pub task_version : ℕ
  pub risk_level : RiskLevel
  pub parameters_summary : Option (List ℕ)

pub record NewOperationStep : Type 0 where
  pub run_id : ℕ
  pub phase : OperationPhase
  pub step_index : ℕ
  pub step_id : String
  pub title : String

pub record FinishOperationStep : Type 0 where
  pub run_id : ℕ
  pub phase : OperationPhase
  pub step_index : ℕ
  pub status : OperationStepStatus
  pub execution_id : Option ℕ
  pub output_summary : Option (List ℕ)
  pub error_message : Option (List ℕ)
  pub finished_at : ℕ

abbrev pub has_nul : List ℕ → Bool
has_nul text = any (λ c. c == 0) text

-- A summary that is present and too long or has a NUL.
unfoldable pub bad_summary : Option (List ℕ) → Bool
bad_summary none = false
bad_summary (some value) = ltb 8192 (byte_len value) || has_nul value

unfoldable pub validate_run : NewOperationRun → AppResult (Unit {0})
unfolding bad_summary
validate_run draft =
    if is_blank (codes draft.server_id)
      || (is_blank (codes draft.task_id)
          || (draft.task_version == 0
              || (leb (2 ^ 31) draft.task_version
                  || (has_nul (codes draft.server_id) || has_nul (codes draft.task_id)))))
    then err (validation "运维运行定义不完整")
    else if bad_summary draft.parameters_summary
    then err (validation "运维参数摘要无效")
    else ok tt

-- What an INTEGER column can hold of a usize.
unfoldable pub index_to_i64 : ℕ → AppResult ℕ
index_to_i64 value = if ltb value (2 ^ 63) then ok value else err (validation "运维步骤序号超出范围")

unfoldable pub validate_step : NewOperationStep → AppResult (Unit {0})
unfolding index_to_i64
validate_step draft =
    if is_blank (codes draft.step_id)
      || (is_blank (codes draft.title)
          || (has_nul (codes draft.step_id)
              || (has_nul (codes draft.title)
                  || (ltb 200 (byte_len (codes draft.step_id))
                      || ltb 500 (byte_len (codes draft.title))))))
    then err (validation "运维步骤定义无效")
    else index_to_i64 draft.step_index >>= λ index. ok tt

-- Exactly one row was changed.
unfoldable pub ensure_changed : ℕ → String → AppResult (Unit {0})
ensure_changed rows message = if rows == 1 then ok tt else err (validation message)

abbrev pub is_run : ℕ → OperationRunRecord → Bool
is_run id run = run.id == id

-- `SELECT ... FROM operation_runs WHERE id=?`, the run of `get`.
unfoldable pub get_run : Store → ℕ → Option OperationRunRecord
get_run s id = find? (is_run id) s.runs

abbrev pub is_step : ℕ → OperationPhase → ℕ → OperationStepRecord → Bool
is_step run_id phase index step =
    step.run_id == run_id && (same_phase step.phase phase && step.step_index == index)

unfoldable pub get_step : Store → ℕ → OperationPhase → ℕ → Option OperationStepRecord
get_step s run_id phase index = find? (is_step run_id phase index) s.steps

-- The row that `create` inserts.
unfoldable pub new_run : ℕ → ℕ → NewOperationRun → OperationRunRecord
new_run id now draft = record {
  id = id;
  server_id = draft.server_id;
  task_id = draft.task_id;
  task_version = draft.task_version;
  risk_level = draft.risk_level;
  status = validating;
  parameters_summary = draft.parameters_summary;
  result = none;
  error_category = none;
  error_message = none;
  created_at = now;
  updated_at = now;
  finished_at = none;
}

-- `create`, with the new UUID and the time; a UUID that is taken breaks the primary key.
unfoldable pub create_operation :
    Store → ℕ → ℕ → NewOperationRun → AppResult (Store × OperationRunRecord)
unfolding validate_run get_run new_run
create_operation s id now draft = do
  validate_run draft
  elim (get_run s id) [
    | some run ↦ err (database "UNIQUE constraint failed: operation_runs.id")
    | none ↦ let run = new_run id now draft in ok (record s { runs = s.runs ++ run ∷ [] }, run)
  ]

-- What `transition` writes: the time it finished is there just for a terminal status.
unfoldable pub moved_run : OperationStatus → ℕ → OperationRunRecord → OperationRunRecord
moved_run next now run = record run {
  status = next;
  updated_at = now;
  finished_at = if operation_is_terminal next then some now else none;
}

unfoldable pub transition : Store → ℕ → OperationStatus → ℕ → AppResult Store
unfolding get_run operation_may_become moved_run ensure_changed same_operation
transition s id next now = elim (get_run s id) [
  | none ↦ err (validation "运维运行不存在")
  | some run ↦
      let current = run.status in
      let test : OperationRunRecord → Bool = λ r. r.id == id && same_operation r.status current in
      if not (operation_may_become current next)
      then err (validation (run_move_refused current next))
      else do
        ensure_changed (count test s.runs) "运维状态已被其他操作修改"
        ok (record s { runs = update_rows test (moved_run next now) s.runs })
]

-- What the direct start of a personal script asks of the run's row.
unfoldable pub is_confirmed_script : OperationRunRecord → Bool
is_confirmed_script run =
    same_operation run.status waiting_confirmation
    && (str_eq run.task_id "script.personal" && str_eq (risk_as_str run.risk_level) "dangerous")

unfoldable pub started_run : ℕ → OperationRunRecord → OperationRunRecord
started_run now run = record run { status = running; updated_at = now }

-- `start_confirmed_unrecoverable_personal_script`.
unfoldable pub start_confirmed_script : Store → ℕ → ℕ → AppResult Store
unfolding get_run is_confirmed_script started_run ensure_changed
start_confirmed_script s id now = elim (get_run s id) [
  | none ↦ err (validation "运维运行不存在")
  | some run ↦
      let has_steps = any (λ step. step.run_id == run.id) s.steps in
      let test : OperationRunRecord → Bool = λ r. r.id == id && is_confirmed_script r in
      if not (is_confirmed_script run) || has_steps
      then err (validation "只有已确认且无恢复步骤的个人脚本可以直接开始运行")
      else do
        ensure_changed (count test s.runs) "个人脚本状态已被其他操作修改"
        ok (record s { runs = update_rows test (started_run now) s.runs })
]
