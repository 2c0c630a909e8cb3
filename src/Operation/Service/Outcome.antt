-- ===== src/Operation/Service/Outcome.antt =====
-- How `run_dangerous` ends, whatever the services answer.
use qingzhou_ssh.Prelude.{
  ℕ, ◌+◌, ◌≡◌, Bool, true, false, Option, none, some, List, [], ◌∷◌, arith, any,
}
use qingzhou_ssh.Prelude.Result.{ok, err}
use qingzhou_ssh.Error.{AppError, AppResult}
use qingzhou_ssh.Operation.Status.{OperationStatus, operation_is_terminal, OperationPhase}
use qingzhou_ssh.Operation.Table.{OperationRunRecord, get_run}
use qingzhou_ssh.Operation.Action.{
  Effect, ran, World, Action, Ensures, >>=-Ensures, Ensures-weaken, if-Ensures,
}
use qingzhou_ssh.Operation.Service.{
  StepTurn, ExecutionRecord, statuses_for_execution, doubted, failed_step, end_run_as, stop_or,
  after_step, run_phase, operation_status_for_error,
}
use qingzhou_ssh.Operation.Service.Settled.{
  is_ran, is_captured, is_restored, IsBacked, Untouched, IsCaptured, IsRestored, Untouched-IsBacked,
  IsCaptured-IsBacked, IsRestored-IsBacked, note-Ensures, end_run_as-Ensures, Keeps, pure-Keeps,
  mark_running-Keeps, skip_from-Keeps, end_step-Keeps, end_executed-Keeps,
}

-- The statuses that say what became of the commands that were run.
abbrev pub accounts : OperationStatus → Bool
accounts OperationStatus.succeeded = true
accounts OperationStatus.uncertain = true
accounts OperationStatus.rolled_back = true
accounts OperationStatus.rollback_partial = true
accounts OperationStatus.rollback_failed = true
accounts _ = false

-- The statuses that say that a restore point was applied, whole, in part or in vain.
abbrev pub tells_rollback : OperationStatus → Bool
tells_rollback OperationStatus.rolled_back = true
tells_rollback OperationStatus.rollback_partial = true
tells_rollback OperationStatus.rollback_failed = true
tells_rollback _ = false

abbrev pub is_success : OperationStatus → Bool
is_success OperationStatus.succeeded = true
is_success _ = false

pub record Outcome (id : ℕ) (run : OperationRunRecord) (w : World) : Type 0 where
  pub in_table : get_run w.store id ≡ some run
  pub terminal : operation_is_terminal run.status ≡ true
  pub backed_up : any is_ran w.log ≡ true → any is_captured w.log ≡ true
  pub accounted : any is_ran w.log ≡ true → accounts run.status ≡ true
  pub rolled_back_by : tells_rollback run.status ≡ true → any is_restored w.log ≡ true
  pub kept_on_success : is_success run.status ≡ true → any is_restored w.log ≡ false

-- What a run that is not rolled back ends as, once a restore point was captured.
abbrev pub is_kept_end : OperationStatus → Bool
is_kept_end OperationStatus.succeeded = true
is_kept_end OperationStatus.uncertain = true
is_kept_end _ = false

abbrev pub is_rollback_end : OperationStatus → Bool
is_rollback_end OperationStatus.uncertain = true
is_rollback_end status = tells_rollback status

abbrev pub is_early_end : OperationStatus → Bool
is_early_end OperationStatus.cancelled = true
is_early_end OperationStatus.failed = true
is_early_end _ = false

-- The action ends the run as `Outcome` says, or with an error and no command run without a restore
-- point.
abbrev pub Leads : (List Effect → Type 0) → ℕ → Action OperationRunRecord → Type 0
Leads L id action = Ensures (λ w. L w.log) action (Outcome id) (λ w. IsBacked w.log)

pub point_taken_end :
    (id : ℕ) (status : OperationStatus)
    → is_kept_end status ≡ true
    → Leads IsCaptured id (end_run_as id status)
point_taken_end id status kept =
    Ensures-weaken (end_run_as-Ensures IsCaptured IsBacked IsCaptured-IsBacked id status)
      (λ run w h. ground arith)

pub point_applied_end :
    (id : ℕ) (status : OperationStatus)
    → is_rollback_end status ≡ true
    → Leads IsRestored id (end_run_as id status)
point_applied_end id status back =
    Ensures-weaken (end_run_as-Ensures IsRestored IsBacked IsRestored-IsBacked id status)
      (λ run w h. ground arith)

pub nothing_done_end :
    (id : ℕ) (status : OperationStatus)
    → is_early_end status ≡ true
    → Leads Untouched id (end_run_as id status)
nothing_done_end id status early =
    Ensures-weaken (end_run_as-Ensures Untouched IsBacked Untouched-IsBacked id status)
      (λ run w h. ground arith)

abbrev pub KeepsCaptured : {A : Type 0} → Action A → Type 0
KeepsCaptured = Keeps IsCaptured IsBacked IsCaptured-IsBacked

abbrev pub kept : (log : List Effect) → IsCaptured log → IsBacked log
kept = IsCaptured-IsBacked

abbrev pub undone : (log : List Effect) → IsRestored log → IsBacked log
undone = IsRestored-IsBacked

abbrev pub fresh : (log : List Effect) → Untouched log → IsBacked log
fresh = Untouched-IsBacked

stop_or-Keeps :
    (id : ℕ) (phase : OperationPhase) (index : ℕ) (rest : Action (Option OperationStatus))
    (status : Option OperationStatus)
    → KeepsCaptured rest
    → KeepsCaptured (stop_or id phase index rest status)
unfolding stop_or
stop_or-Keeps id phase index rest none h = h
stop_or-Keeps id phase index rest (some status) h =
    >>=-Ensures (skip_from-Keeps IsCaptured IsBacked kept id phase (index + 1))
      (λ u. pure-Keeps IsCaptured IsBacked kept (some status))

module _ (shown : AppError → List ℕ) where
  pub after_step-Keeps :
      (id : ℕ) (phase : OperationPhase) (index : ℕ) (answer : AppResult ExecutionRecord)
      (rest : Action (Option OperationStatus))
      → KeepsCaptured rest
      → KeepsCaptured (after_step shown id phase index answer rest)
  unfolding after_step
  after_step-Keeps id phase index (err e) rest h =
      >>=-Ensures (end_step-Keeps IsCaptured IsBacked kept id phase index (failed_step shown e))
        (λ u.
          >>=-Ensures (skip_from-Keeps IsCaptured IsBacked kept id phase (index + 1))
            (λ v. pure-Keeps IsCaptured IsBacked kept (some (operation_status_for_error e))))
  after_step-Keeps id phase index (ok execution) rest h =
      >>=-Ensures
        (end_executed-Keeps IsCaptured IsBacked kept id phase index
          (statuses_for_execution execution.status).0 execution)
        (λ u.
          stop_or-Keeps id phase index rest
            (doubted (statuses_for_execution execution.status).1 execution.error_category) h)

  ran-IsCaptured :
      (phase : OperationPhase) (index : ℕ) (log : List Effect)
      → IsCaptured log
      → IsCaptured (ran phase index ∷ log)
  ran-IsCaptured phase index log h = ground arith

  pub run_phase-Keeps :
      (id : ℕ) (phase : OperationPhase) (index : ℕ) (turns : List StepTurn)
      → KeepsCaptured (run_phase shown id phase index turns)
  unfolding run_phase
  run_phase-Keeps id phase index [] = pure-Keeps IsCaptured IsBacked kept none
  run_phase-Keeps id phase index (turn ∷ turns) =
      if-Ensures turn.is_cancelled
        (>>=-Ensures (skip_from-Keeps IsCaptured IsBacked kept id phase index)
          (λ u. pure-Keeps IsCaptured IsBacked kept (some OperationStatus.cancelled)))
        (>>=-Ensures (mark_running-Keeps IsCaptured IsBacked kept id phase index) (λ u.
          >>=-Ensures
            (note-Ensures IsCaptured IsCaptured IsBacked (ran phase index)
              (ran-IsCaptured phase index))
            (λ v.
              after_step-Keeps id phase index turn.answer
                (run_phase shown id phase (index + 1) turns)
                (run_phase-Keeps id phase (index + 1) turns))))
