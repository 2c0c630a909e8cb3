-- ===== src/Operation/Service/Preview.antt =====
-- src-tauri/src/services/operation_service.rs: the preview of a task and its steps, and the start of a
-- task from the preview that was confirmed.
use qingzhou_ssh.Prelude.{
  ℕ, ◌+◌, String, ◌≡◌, refl, ap, arith, &&_parts, ==_iff, ◌⊎◌, inl, inr, Bool, true, false, not,
  ◌&&◌, Option, none, some, List, [], ◌∷◌, ◌==◌, if◌then◌else◌, Bool-cases, Option-cases,
}
use qingzhou_ssh.Prelude.Text.{str_eq, eq_iff, same_codes, same_codes_sound}
use qingzhou_ssh.Prelude.Result.{ok, err}
use qingzhou_ssh.Error.{AppError, AppResult, validation}
use qingzhou_ssh.Operation.Status.{
  RiskLevel, OperationStatus, same_operation, OperationPhase, preflight, backup, execute, verify,
  rollback,
}
use qingzhou_ssh.Operation.Table.{
  OperationRunRecord, Store, NewOperationRun, get_run, create_operation,
}
use qingzhou_ssh.Operation.Table.Steps.{create_step}
use qingzhou_ssh.Operation.Action.{World, Action, pure, throw, given, ◌>>=◌, ◌>>◌, now_millis, db}
use qingzhou_ssh.Operation.Service.{StepTurn, move_to, start_planned}
use qingzhou_ssh.Operation.Service.Dangerous.{DangerousPlan, Answers, run_dangerous}

-- The id and the title of a step.
pub record StepName : Type 0 where
  pub step_id : String
  pub title : String

-- The steps of `PlannedTask`, by their phases; the titles of the backup's items are made from their
-- ids.
pub record PlannedSteps : Type 0 where
  pub preflight_steps : List StepName
  pub backup_items : Option (List StepName)
  pub execution_steps : List StepName
  pub verify_steps : List StepName
  pub rollback_steps : Option (List StepName)

abbrev pub without_step : {A : Type 0} → AppResult (Store × A) → AppResult Store
without_step (ok (s, a)) = ok s
without_step (err e) = err e

-- The steps of one phase, from an index on.
unfoldable pub create_phase : ℕ → OperationPhase → ℕ → List StepName → Action (Unit {0})
create_phase run_id phase index [] = pure tt
create_phase run_id phase index (step ∷ steps) = do
  db (λ s. without_step (
      create_step s (record {
        run_id = run_id;
        phase = phase;
        step_index = index;
        step_id = step.step_id;
        title = step.title;
      })))
  create_phase run_id phase (index + 1) steps

unfoldable pub create_phase? : ℕ → OperationPhase → Option (List StepName) → Action (Unit {0})
create_phase? run_id phase none = pure tt
create_phase? run_id phase (some steps) = create_phase run_id phase 0 steps

unfoldable pub create_steps : ℕ → PlannedSteps → Action (Unit {0})
create_steps run_id plan = do
  create_phase run_id preflight 0 plan.preflight_steps
  create_phase? run_id backup plan.backup_items
  create_phase run_id execute 0 plan.execution_steps
  create_phase run_id verify 0 plan.verify_steps
  create_phase? run_id rollback plan.rollback_steps

-- An error of the planning or of the steps marks the run as failed; whether that is written is
-- ignored.
unfoldable pub or_preflight_failed : {A : Type 0} → ℕ → World × AppResult A → World × AppResult A
or_preflight_failed id (w, ok a) = (w, ok a)
or_preflight_failed id (w, err e) = ((move_to id OperationStatus.failed w).0, err e)

unfoldable pub create_preview_run : ℕ → NewOperationRun → Action OperationRunRecord
create_preview_run id draft = do
  now ← now_millis
  λ w. elim (create_operation w.store id now draft) [
    | ok (s, run) ↦ (record w { store = s }, ok run)
    | err e ↦ (w, err e)
  ]

-- `begin_preflight` once its checks have passed: the run with a new id.
unfoldable pub begin_preflight : ℕ → NewOperationRun → Action OperationRunRecord
begin_preflight id draft = do
  run ← create_preview_run id draft
  move_to id OperationStatus.preflighting
  pure run

-- `complete_preflight`, of which the id of the preview is kept.
unfoldable pub complete_preflight : ℕ → AppResult PlannedSteps → Action ℕ
complete_preflight id plan = do
  steps ← λ w. or_preflight_failed id (given plan w)
  λ w. or_preflight_failed id (create_steps id steps w)
  move_to id OperationStatus.preview_ready
  pure id

-- What is read of `TaskDefinition`.
pub record TaskDefinition : Type 0 where
  pub id : String
  pub version : ℕ
  pub risk_level : RiskLevel

abbrev pub is_dangerous : RiskLevel → Bool
is_dangerous RiskLevel.dangerous = true
is_dangerous _ = false

abbrev pub is_missing : Option ℕ → Bool
is_missing none = true
is_missing (some id) = false

unfoldable pub require_dangerous_preview : TaskDefinition → Option ℕ → Action (Unit {0})
require_dangerous_preview definition preview_id =
    if is_dangerous definition.risk_level && is_missing preview_id
    then throw (validation "危险任务必须先预览并确认影响范围")
    else pure tt

-- `==` on the summaries; `same_text` is that of two texts.
abbrev pub same_summary : (List ℕ → List ℕ → Bool) → Option (List ℕ) → Option (List ℕ) → Bool
same_summary same_text none none = true
same_summary same_text (some a) (some b) = same_text a b
same_summary same_text _ _ = false

-- The preview is of this task on this server with these parameters, and was not started yet.
unfoldable pub matches_preview :
    String → TaskDefinition → Option (List ℕ) → OperationRunRecord → Bool
matches_preview server_id definition summary run =
    str_eq run.server_id server_id
    && (str_eq run.task_id definition.id
        && (run.task_version == definition.version
            && (same_operation run.status OperationStatus.preview_ready
                && same_summary same_codes run.parameters_summary summary)))

unfoldable pub require_matching_preview :
    ℕ → String → TaskDefinition → Option (List ℕ) → Action (Unit {0})
require_matching_preview preview_id server_id definition summary w =
    elim (get_run w.store preview_id) [
      | none ↦ (w, err (validation "确认的预览不存在"))
      | some run ↦
          if not (matches_preview server_id definition summary run)
          then (w, err (validation "确认的预览与本次任务或参数不一致"))
          else (w, ok tt)
    ]

-- What the start of a task is given besides: the parameters' check, the preview made when none was
-- confirmed, the implementation's backup and the plan, and what the running waits for.
pub record StartAnswers : Type 0 where
  pub definition : AppResult TaskDefinition
  pub validated : AppResult (Option (List ℕ))
  pub preview : Action ℕ
  pub has_backup_plan : AppResult Bool
  pub plan : AppResult DangerousPlan
  pub is_cancelled : Bool
  pub turns : List StepTurn
  pub result : AppResult (List ℕ)
  pub answers : Answers

unfoldable pub preview_of :
    String → TaskDefinition → Option (List ℕ) → Action ℕ → Option ℕ → Action ℕ
preview_of server_id definition summary preview none = preview
preview_of server_id definition summary preview (some id) = do
  require_matching_preview id server_id definition summary
  pure id

module _ (shown : AppError → List ℕ) where
  unfoldable pub run_previewed : ℕ → TaskDefinition → StartAnswers → Action OperationRunRecord
  run_previewed id definition a = do
    has_backup_plan ← given a.has_backup_plan
    plan ← given a.plan
    if is_dangerous definition.risk_level
        then run_dangerous shown id plan a.answers
        else start_planned shown id has_backup_plan a.is_cancelled a.turns a.result

  -- `start_with_capabilities_and_cancel`.
  unfoldable pub start_operation : String → Option ℕ → StartAnswers → Action OperationRunRecord
  start_operation server_id confirmed a = do
    definition ← given a.definition
    summary ← given a.validated
    require_dangerous_preview definition confirmed
    id ← preview_of server_id definition summary a.preview confirmed
    run_previewed id definition a

-- There is a confirmed preview of the task in its version, on the server, with the same summary of the
-- parameters, and it waits to be started.
pub record IsPreview (server_id : String) (definition : TaskDefinition) (summary : Option (List ℕ))
    (run : OperationRunRecord) : Type 0 where
  pub on_server : run.server_id ≡ server_id
  pub of_task : run.task_id ≡ definition.id
  pub of_version : run.task_version ≡ definition.version
  pub not_started : run.status ≡ OperationStatus.preview_ready
  pub same_parameters : run.parameters_summary ≡ summary

abbrev pub HasPreview : String → Option ℕ → TaskDefinition → Option (List ℕ) → World → Type 0
HasPreview server_id confirmed definition summary w =
    (id : ℕ) × (run : OperationRunRecord) × (confirmed ≡ some id)
    × (get_run w.store id ≡ some run)
    × IsPreview server_id definition summary run

is_ready :
    (s : OperationStatus)
    → same_operation s OperationStatus.preview_ready ≡ true
    → s ≡ OperationStatus.preview_ready
unfolding same_operation
is_ready s h = ground arith

same_summary_sound : (a b : Option (List ℕ)) → same_summary same_codes a b ≡ true → a ≡ b
same_summary_sound none none h = refl
same_summary_sound none (some y) h = cc
same_summary_sound (some x) none h = cc
same_summary_sound (some x) (some y) h = ap some (same_codes_sound x y h)

matches_preview-IsPreview :
    (server_id : String) (definition : TaskDefinition) (summary : Option (List ℕ))
    (run : OperationRunRecord)
    → matches_preview server_id definition summary run ≡ true
    → IsPreview server_id definition summary run
unfolding matches_preview
matches_preview-IsPreview server_id definition summary run h =
    let (server, h1) = &&_parts (str_eq run.server_id server_id) _ h in
    let (task, h2) = &&_parts (str_eq run.task_id definition.id) _ h1 in
    let (version, h3) = &&_parts (run.task_version == definition.version) _ h2 in
    let (ready, same) = &&_parts (same_operation run.status OperationStatus.preview_ready) _ h3 in
    record {
      on_server = (eq_iff run.server_id server_id).0 server;
      of_task = (eq_iff run.task_id definition.id).0 task;
      of_version = (==_iff run.task_version definition.version).0 version;
      not_started = is_ready run.status ready;
      same_parameters = same_summary_sound run.parameters_summary summary same;
    }

module _ (shown : AppError → List ℕ) (server_id : String) (a : StartAnswers) (w : World)
    (definition : TaskDefinition) (summary : Option (List ℕ)) (known : a.definition ≡ ok definition)
    (valid : a.validated ≡ ok summary) (risky : is_dangerous definition.risk_level ≡ true) where
  unconfirmed : (start_operation shown server_id none a w).0 ≡ w
  unfolding start_operation ◌>>=◌ require_dangerous_preview
  unconfirmed = rw (known, valid, risky) refl

  unmatched :
      (id : ℕ) (e : AppError)
      → require_matching_preview id server_id definition summary w ≡ (w, err e)
      → (start_operation shown server_id (some id) a w).0 ≡ w
  unfolding start_operation ◌>>=◌ require_dangerous_preview preview_of
  unmatched id e h = rw (known, valid, risky, h) refl

  -- Of a dangerous task that the catalog has, with valid parameters, this holds: there is a confirmed
  -- preview of this task in its version, on this server, with the same redacted summary of the
  -- parameters, in the state in which it waits to be started; or the start changes nothing and runs
  -- nothing.
  pub dangerous_needs_preview :
      (confirmed : Option ℕ)
      → HasPreview server_id confirmed definition summary w
        ⊎ ((start_operation shown server_id confirmed a w).0 ≡ w)
  unfolding require_matching_preview
  dangerous_needs_preview none = inr unconfirmed
  dangerous_needs_preview (some id) = elim (Option-cases (get_run w.store id)) [
    | inl missing ↦
        inr (unmatched id (validation "确认的预览不存在") (rw (missing, require_matching_preview) refl))
    | inr (run, found) ↦ elim (Bool-cases (matches_preview server_id definition summary run)) [
      | inl fits ↦
          inl
            (id, run, refl, found, matches_preview-IsPreview server_id definition summary run fits)
      | inr other ↦ inr (
          unmatched id (validation "确认的预览与本次任务或参数不一致")
            (rw (found, require_matching_preview) (rw other refl)))
    ]
  ]
