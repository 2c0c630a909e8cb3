-- ===== src/Operation/Status.antt =====
-- src-tauri/src/domain/operation.rs: the statuses of a run and of a step, the phases, their names and
-- the allowed moves; core/tasks/model.rs: the risk level.
use qingzhou_ssh.Prelude.{ℕ, ◌==◌, String, ◌≡◌, Bool, true, false, arith, if◌then◌else◌}
use Prim.Native.String.{◌++◌}
use qingzhou_ssh.Prelude.Text.{str_eq}
use qingzhou_ssh.Prelude.Result.{ok, err}
use qingzhou_ssh.Error.{AppResult, validation}

pub data RiskLevel : Type 0 where
  safe caution dangerous : RiskLevel

unfoldable pub risk_as_str : RiskLevel → String
risk_as_str safe = "safe"
risk_as_str caution = "caution"
risk_as_str dangerous = "dangerous"

unfoldable pub parse_risk : String → AppResult RiskLevel
parse_risk value =
    if str_eq value "safe"
    then ok safe
    else if str_eq value "caution"
    then ok caution
    else if str_eq value "dangerous"
    then ok dangerous
    else err (validation ("未知运维风险等级：" ++ value))

pub data OperationStatus : Type 0 where
  validating preflighting preview_ready waiting_confirmation : OperationStatus
  backing_up running verifying : OperationStatus
  succeeded failed cancelled uncertain : OperationStatus
  rollback_available rolling_back rolled_back rollback_partial rollback_failed : OperationStatus

unfoldable pub operation_as_str : OperationStatus → String
operation_as_str validating = "validating"
operation_as_str preflighting = "preflighting"
operation_as_str preview_ready = "preview_ready"
operation_as_str waiting_confirmation = "waiting_confirmation"
operation_as_str backing_up = "backing_up"
operation_as_str running = "running"
operation_as_str verifying = "verifying"
operation_as_str succeeded = "succeeded"
operation_as_str failed = "failed"
operation_as_str cancelled = "cancelled"
operation_as_str uncertain = "uncertain"
operation_as_str rollback_available = "rollback_available"
operation_as_str rolling_back = "rolling_back"
operation_as_str rolled_back = "rolled_back"
operation_as_str rollback_partial = "rollback_partial"
operation_as_str rollback_failed = "rollback_failed"

-- `TryFrom<&str>`.
unfoldable pub operation_from : String → AppResult OperationStatus
operation_from value =
    if str_eq value "validating"
    then ok validating
    else if str_eq value "preflighting"
    then ok preflighting
    else if str_eq value "preview_ready"
    then ok preview_ready
    else if str_eq value "waiting_confirmation"
    then ok waiting_confirmation
    else if str_eq value "backing_up"
    then ok backing_up
    else if str_eq value "running"
    then ok running
    else if str_eq value "verifying"
    then ok verifying
    else if str_eq value "succeeded"
    then ok succeeded
    else if str_eq value "failed"
    then ok failed
    else if str_eq value "cancelled"
    then ok cancelled
    else if str_eq value "uncertain"
    then ok uncertain
    else if str_eq value "rollback_available"
    then ok rollback_available
    else if str_eq value "rolling_back"
    then ok rolling_back
    else if str_eq value "rolled_back"
    then ok rolled_back
    else if str_eq value "rollback_partial"
    then ok rollback_partial
    else if str_eq value "rollback_failed"
    then ok rollback_failed
    else err (validation ("未知运维状态：" ++ value))

-- `OperationStatus::can_transition_to`.
unfoldable pub operation_may_become : OperationStatus → OperationStatus → Bool
operation_may_become validating preflighting = true
operation_may_become validating failed = true
operation_may_become validating cancelled = true
operation_may_become preflighting preview_ready = true
operation_may_become preflighting backing_up = true
operation_may_become preflighting running = true
operation_may_become preflighting failed = true
operation_may_become preflighting cancelled = true
operation_may_become preflighting uncertain = true
operation_may_become preview_ready waiting_confirmation = true
operation_may_become preview_ready backing_up = true
operation_may_become preview_ready running = true
operation_may_become preview_ready cancelled = true
operation_may_become waiting_confirmation backing_up = true
operation_may_become waiting_confirmation cancelled = true
operation_may_become backing_up running = true
operation_may_become backing_up failed = true
operation_may_become backing_up cancelled = true
operation_may_become backing_up uncertain = true
operation_may_become backing_up rollback_available = true
operation_may_become running verifying = true
operation_may_become running succeeded = true
operation_may_become running failed = true
operation_may_become running cancelled = true
operation_may_become running uncertain = true
operation_may_become running rollback_available = true
operation_may_become verifying succeeded = true
operation_may_become verifying failed = true
operation_may_become verifying cancelled = true
operation_may_become verifying uncertain = true
operation_may_become verifying rollback_available = true
operation_may_become uncertain succeeded = true
operation_may_become uncertain rolled_back = true
operation_may_become uncertain rollback_available = true
operation_may_become failed rollback_available = true
operation_may_become succeeded rollback_available = true
operation_may_become rollback_partial rollback_available = true
operation_may_become rollback_failed rollback_available = true
operation_may_become rollback_available rolling_back = true
operation_may_become rolling_back rolled_back = true
operation_may_become rolling_back rollback_partial = true
operation_may_become rolling_back rollback_failed = true
operation_may_become rolling_back uncertain = true
operation_may_become _ _ = false

-- `OperationStatus::is_terminal`.
abbrev pub operation_is_terminal : OperationStatus → Bool
operation_is_terminal succeeded = true
operation_is_terminal failed = true
operation_is_terminal cancelled = true
operation_is_terminal uncertain = true
operation_is_terminal rolled_back = true
operation_is_terminal rollback_partial = true
operation_is_terminal rollback_failed = true
operation_is_terminal _ = false

-- `==`, derived.
-- The discriminant of the enum.
abbrev pub operation_ordinal : OperationStatus → ℕ
operation_ordinal OperationStatus.validating = 0
operation_ordinal OperationStatus.preflighting = 1
operation_ordinal OperationStatus.preview_ready = 2
operation_ordinal OperationStatus.waiting_confirmation = 3
operation_ordinal OperationStatus.backing_up = 4
operation_ordinal OperationStatus.running = 5
operation_ordinal OperationStatus.verifying = 6
operation_ordinal OperationStatus.succeeded = 7
operation_ordinal OperationStatus.failed = 8
operation_ordinal OperationStatus.cancelled = 9
operation_ordinal OperationStatus.uncertain = 10
operation_ordinal OperationStatus.rollback_available = 11
operation_ordinal OperationStatus.rolling_back = 12
operation_ordinal OperationStatus.rolled_back = 13
operation_ordinal OperationStatus.rollback_partial = 14
operation_ordinal OperationStatus.rollback_failed = 15

unfoldable pub same_operation : OperationStatus → OperationStatus → Bool
same_operation a b = operation_ordinal a == operation_ordinal b

pub same_operation_eq : (a b : OperationStatus) → same_operation a b ≡ true → a ≡ b
unfolding same_operation
same_operation_eq a b h = ground arith

pub data OperationPhase : Type 0 where
  preflight backup execute verify rollback : OperationPhase

unfoldable pub phase_as_str : OperationPhase → String
phase_as_str preflight = "preflight"
phase_as_str backup = "backup"
phase_as_str execute = "execute"
phase_as_str verify = "verify"
phase_as_str rollback = "rollback"

unfoldable pub phase_from : String → AppResult OperationPhase
phase_from value =
    if str_eq value "preflight"
    then ok preflight
    else if str_eq value "backup"
    then ok backup
    else if str_eq value "execute"
    then ok execute
    else if str_eq value "verify"
    then ok verify
    else if str_eq value "rollback"
    then ok rollback
    else err (validation ("未知运维阶段：" ++ value))

-- The discriminant of the enum.
abbrev pub phase_ordinal : OperationPhase → ℕ
phase_ordinal preflight = 0
phase_ordinal backup = 1
phase_ordinal execute = 2
phase_ordinal verify = 3
phase_ordinal rollback = 4

unfoldable pub same_phase : OperationPhase → OperationPhase → Bool
same_phase a b = phase_ordinal a == phase_ordinal b

pub data OperationStepStatus : Type 0 where
  pending running succeeded failed cancelled uncertain skipped : OperationStepStatus

unfoldable pub step_as_str : OperationStepStatus → String
step_as_str OperationStepStatus.pending = "pending"
step_as_str OperationStepStatus.running = "running"
step_as_str OperationStepStatus.succeeded = "succeeded"
step_as_str OperationStepStatus.failed = "failed"
step_as_str OperationStepStatus.cancelled = "cancelled"
step_as_str OperationStepStatus.uncertain = "uncertain"
step_as_str OperationStepStatus.skipped = "skipped"

unfoldable pub step_from : String → AppResult OperationStepStatus
step_from value =
    if str_eq value "pending"
    then ok OperationStepStatus.pending
    else if str_eq value "running"
    then ok OperationStepStatus.running
    else if str_eq value "succeeded"
    then ok OperationStepStatus.succeeded
    else if str_eq value "failed"
    then ok OperationStepStatus.failed
    else if str_eq value "cancelled"
    then ok OperationStepStatus.cancelled
    else if str_eq value "uncertain"
    then ok OperationStepStatus.uncertain
    else if str_eq value "skipped"
    then ok OperationStepStatus.skipped
    else err (validation ("未知运维步骤状态：" ++ value))

-- `OperationStepStatus::can_transition_to`.
unfoldable pub step_may_become : OperationStepStatus → OperationStepStatus → Bool
step_may_become OperationStepStatus.pending OperationStepStatus.running = true
step_may_become OperationStepStatus.pending OperationStepStatus.cancelled = true
step_may_become OperationStepStatus.pending OperationStepStatus.skipped = true
step_may_become OperationStepStatus.running OperationStepStatus.succeeded = true
step_may_become OperationStepStatus.running OperationStepStatus.failed = true
step_may_become OperationStepStatus.running OperationStepStatus.cancelled = true
step_may_become OperationStepStatus.running OperationStepStatus.uncertain = true
step_may_become OperationStepStatus.failed OperationStepStatus.running = true
step_may_become OperationStepStatus.uncertain OperationStepStatus.running = true
step_may_become OperationStepStatus.uncertain OperationStepStatus.succeeded = true
step_may_become _ _ = false

-- `OperationStepStatus::is_terminal`.
abbrev pub step_is_terminal : OperationStepStatus → Bool
step_is_terminal OperationStepStatus.pending = false
step_is_terminal OperationStepStatus.running = false
step_is_terminal _ = true

-- The discriminant of the enum.
abbrev pub step_ordinal : OperationStepStatus → ℕ
step_ordinal OperationStepStatus.pending = 0
step_ordinal OperationStepStatus.running = 1
step_ordinal OperationStepStatus.succeeded = 2
step_ordinal OperationStepStatus.failed = 3
step_ordinal OperationStepStatus.cancelled = 4
step_ordinal OperationStepStatus.uncertain = 5
step_ordinal OperationStepStatus.skipped = 6

unfoldable pub same_step : OperationStepStatus → OperationStepStatus → Bool
same_step a b = step_ordinal a == step_ordinal b

pub same_step_eq : (a b : OperationStepStatus) → same_step a b ≡ true → a ≡ b
unfolding same_step
same_step_eq a b h = ground arith

-- The text of the error on a refused move of a run.
abbrev pub run_move_refused : OperationStatus → OperationStatus → String
run_move_refused current next =
    "运维状态不能从 " ++ operation_as_str current ++ " 变为 " ++ operation_as_str next

-- The text of the error on a refused move of a step.
abbrev pub step_move_refused : OperationStepStatus → OperationStepStatus → String
step_move_refused current next = "运维步骤不能从 " ++ step_as_str current ++ " 变为 " ++ step_as_str next
