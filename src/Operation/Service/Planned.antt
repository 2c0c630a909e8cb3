-- ===== src/Operation/Service/Planned.antt =====
-- How a task without a restore point ends: `start_planned`.
use qingzhou_ssh.Prelude.{
  ℕ, ◌+◌, ◌≡◌, refl, Bool, true, false, not, ◌&&◌, some, List, [], ◌∷◌, arith, all, if◌then◌else◌,
}
use qingzhou_ssh.Prelude.Result.{ok, err}
use qingzhou_ssh.Error.{AppError, AppResult, validation}
use qingzhou_ssh.Transfer.Queue.{ExecutionStatus}
use qingzhou_ssh.Operation.Status.{OperationStatus, operation_is_terminal, execute}
use qingzhou_ssh.Operation.Table.{OperationRunRecord, Store, get_run}
use qingzhou_ssh.Operation.Table.Steps.{set_result}
use qingzhou_ssh.Operation.Action.{
  Effect, ran, World, Action, throw, note, ◌>>◌, Ensured, Ensures, >>=-Ensures, Ensures-weaken,
  if-Ensures,
}
use qingzhou_ssh.Operation.Service.{
  StepTurn, ExecutionRecord, statuses_for_execution, failed_step, end_run_as, end_or, after_planned,
  saved_or_failed, save_or_fail, mark_running, skip_from, run_planned, start_planned,
}
use qingzhou_ssh.Operation.Service.Settled.{
  note-Ensures, end_run_as-Ensures, Keeps, now_millis-Keeps, move_to-Keeps, mark_running-Keeps,
  skip_from-Keeps, end_step-Keeps, end_executed-Keeps,
}

abbrev pub is_done : ExecutionStatus → Bool
is_done ExecutionStatus.succeeded = true
is_done _ = false

abbrev pub did_succeed : AppResult ExecutionRecord → Bool
did_succeed (ok execution) = is_done execution.status
did_succeed (err e) = false

-- The step was reached uncancelled, and its execution succeeded.
abbrev pub went_well : StepTurn → Bool
went_well turn = not turn.is_cancelled && did_succeed turn.answer

abbrev pub succeeds : OperationStatus → Bool
succeeds OperationStatus.succeeded = true
succeeds _ = false

-- The run is in the table and over, and if it succeeded then all went well.
pub record IsOver (all_well : Bool) (id : ℕ) (run : OperationRunRecord) (w : World) : Type 0 where
  pub in_table : get_run w.store id ≡ some run
  pub terminal : operation_is_terminal run.status ≡ true
  pub honest : succeeds run.status ≡ true → all_well ≡ true

abbrev Any : List Effect → Type 0
Any log = Unit {0}

abbrev any_any : (log : List Effect) → Any log → Any log
any_any log h = h

abbrev Quiet : {A : Type 0} → Action A → Type 0
Quiet = Keeps Any Any any_any

abbrev Finishes : Bool → ℕ → Action OperationRunRecord → Type 0
Finishes all_well id action = Ensures (λ w. Any w.log) action (IsOver all_well id) (λ w. Any w.log)

ends_over :
    (all_well : Bool) (id : ℕ) (status : OperationStatus)
    → operation_is_terminal status ≡ true
    → (succeeds status ≡ true → all_well ≡ true)
    → Finishes all_well id (end_run_as id status)
ends_over all_well id status terminal honest =
    Ensures-weaken (end_run_as-Ensures Any Any any_any id status) (λ run w h. ground arith)

ends_early :
    (all_well : Bool) (id index : ℕ) (rest : Action OperationRunRecord) (status : OperationStatus)
    → operation_is_terminal status ≡ true
    → succeeds status ≡ false
    → Finishes all_well id (end_or id index rest (some status))
unfolding end_or
ends_early all_well id index rest status terminal other =
    >>=-Ensures (skip_from-Keeps Any Any any_any id execute (index + 1))
      (λ u. ends_over all_well id status terminal (λ e. absurd (ground arith)))

end_or-Finishes :
    (all_well : Bool) (id index : ℕ) (rest : Action OperationRunRecord) (status : ExecutionStatus)
    → Finishes all_well id rest
    → Finishes
        (is_done status && all_well)
        id
        (end_or id index rest (statuses_for_execution status).1)
unfolding statuses_for_execution
end_or-Finishes all_well id index rest ExecutionStatus.queued h =
    ends_early false id index rest OperationStatus.failed refl refl
end_or-Finishes all_well id index rest ExecutionStatus.running h =
    ends_early false id index rest OperationStatus.failed refl refl
end_or-Finishes all_well id index rest ExecutionStatus.failed h =
    ends_early false id index rest OperationStatus.failed refl refl
end_or-Finishes all_well id index rest ExecutionStatus.cancelled h =
    ends_early false id index rest OperationStatus.cancelled refl refl
end_or-Finishes all_well id index rest ExecutionStatus.uncertain h =
    ends_early false id index rest OperationStatus.uncertain refl refl
end_or-Finishes all_well id index rest ExecutionStatus.succeeded h = unfold end_or in h

throw-Finishes : (all_well : Bool) (id : ℕ) (e : AppError) → Finishes all_well id (throw e)
throw-Finishes all_well id e = record { holds = λ w l. tt }

save_lem :
    (id : ℕ) (w : World) (r : AppResult Store)
    → Ensured (λ u w. Any w.log) (λ w. Any w.log) (saved_or_failed id w r)
unfolding saved_or_failed
save_lem id w (ok s) = tt
save_lem id w (err e) = tt

save_or_fail-Keeps : (id : ℕ) (result : AppResult (List ℕ)) → Quiet (save_or_fail id result)
unfolding save_or_fail
save_or_fail-Keeps id result =
    >>=-Ensures (now_millis-Keeps Any Any any_any)
      (λ now. record { holds = λ w l. save_lem id w (set_result w.store id result now) })

-- A turn by whether it was cancelled.
turn-Finishes :
    (is_cancelled well rest_well : Bool) (id : ℕ) (stop go : Action OperationRunRecord)
    → Finishes false id stop
    → Finishes (well && rest_well) id go
    → Finishes ((not is_cancelled && well) && rest_well) id (if is_cancelled then stop else go)
turn-Finishes true well rest_well id stop go h k = h
turn-Finishes false well rest_well id stop go h k = k

module _ (shown : AppError → List ℕ) where
  after_planned-Finishes :
      (all_well : Bool) (id index : ℕ) (answer : AppResult ExecutionRecord)
      (rest : Action OperationRunRecord)
      → Finishes all_well id rest
      → Finishes (did_succeed answer && all_well) id (after_planned shown id index answer rest)
  unfolding after_planned
  after_planned-Finishes all_well id index (err e) rest h =
      >>=-Ensures (end_step-Keeps Any Any any_any id execute index (failed_step shown e)) (λ u.
        >>=-Ensures (skip_from-Keeps Any Any any_any id execute (index + 1)) (λ u.
          >>=-Ensures (move_to-Keeps Any Any any_any id OperationStatus.failed)
            (λ u. throw-Finishes false id e)))
  after_planned-Finishes all_well id index (ok execution) rest h =
      >>=-Ensures
        (end_executed-Keeps Any Any any_any id execute index
          (statuses_for_execution execution.status).0 execution)
        (λ u. end_or-Finishes all_well id index rest execution.status h)

  run_planned-Finishes :
      (id index : ℕ) (turns : List StepTurn) (result : AppResult (List ℕ))
      → Finishes (all went_well turns) id (run_planned shown id index turns result)
  unfolding run_planned
  run_planned-Finishes id index [] result =
      >>=-Ensures (save_or_fail-Keeps id result)
        (λ u. ends_over true id OperationStatus.succeeded refl (λ e. refl))
  run_planned-Finishes id index (turn ∷ turns) result =
      turn-Finishes turn.is_cancelled (did_succeed turn.answer) (all went_well turns) id
        (do skip_from id execute index; end_run_as id OperationStatus.cancelled)
        (do
          mark_running id execute index
          note (ran execute index)
          after_planned shown id index turn.answer (run_planned shown id (index + 1) turns result))
        (>>=-Ensures (skip_from-Keeps Any Any any_any id execute index)
          (λ u. ends_over false id OperationStatus.cancelled refl (λ e. absurd (ground arith))))
        (>>=-Ensures (mark_running-Keeps Any Any any_any id execute index) (λ u.
          >>=-Ensures (note-Ensures Any Any Any (ran execute index) (λ log h. h)) (λ u.
            after_planned-Finishes (all went_well turns) id index turn.answer
              (run_planned shown id (index + 1) turns result)
              (run_planned-Finishes id (index + 1) turns result))))

  start_planned-Finishes :
      (id : ℕ) (has_backup_plan is_cancelled : Bool) (turns : List StepTurn)
      (result : AppResult (List ℕ))
      → Finishes
          (all went_well turns)
          id
          (start_planned shown id has_backup_plan is_cancelled turns result)
  unfolding start_planned
  start_planned-Finishes id has_backup_plan is_cancelled turns result =
      if-Ensures has_backup_plan
        (throw-Finishes (all went_well turns) id (validation "该任务需要备份与恢复流程，当前阶段不能直接运行"))
        (if-Ensures is_cancelled
          (ends_over (all went_well turns) id OperationStatus.cancelled refl
            (λ e. absurd (ground arith)))
          (>>=-Ensures (move_to-Keeps Any Any any_any id OperationStatus.running)
            (λ u. run_planned-Finishes id 0 turns result)))

-- Whatever the executions of its steps give: if `start_planned` gives back a run, the run is in the
-- table with a terminal status, and a success means that no step found the run cancelled and every
-- step's execution succeeded.
pub start_planned-IsOver :
    (shown : AppError → List ℕ) (id : ℕ) (has_backup_plan is_cancelled : Bool)
    (turns : List StepTurn) (result : AppResult (List ℕ)) (w : World)
    → Ensured
        (IsOver (all went_well turns) id)
        (λ w. Unit {0})
        (start_planned shown id has_backup_plan is_cancelled turns result w)
start_planned-IsOver shown id has_backup_plan is_cancelled turns result w =
    (start_planned-Finishes shown id has_backup_plan is_cancelled turns result).holds w tt
